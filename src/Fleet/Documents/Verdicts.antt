-- ===== src/Fleet/Documents/Verdicts.antt =====
-- `Queue.known`, `collectable`, `pages_of` and `mark_collected` of tools/fleet/pagequeue.py: what
-- the queue says of a document, and how the failures of its pages decide it.
use mathlib.Core.Option
use docket_yard.Prelude.{
  ℕ, ◌≡◌, refl, sym, ◌∙◌, String, Bool, true, false, not, ◌&&◌, Option, none, some, List, [], ◌∷◌,
  ◌++◌, arith, All, All-imp, All-imp₂, All-intro, All-map, Bool-cases, inl, inr, ltb, leb,
  if◌then◌else◌, eq_iff, str_eq,
}
use docket_yard.Prelude.Table.{
  any, select, find, delete_where, any-map-true, All-select, Distinct-key,
}
use docket_yard.Prelude.Sort.{All-sort_by}
use docket_yard.Fleet.Rows.{Job, Reading, Collected, Queue, is_done, is_some}
use docket_yard.Fleet.Rows.Sound.{IsWellFormed, answers, is_done_as}
use docket_yard.Fleet.Lease.{expired, reap_row, reap}
use docket_yard.Fleet.Documents.{
  is_of, written_of, foreign, is_owed, Verdict, still_open, whole, reread, known, groups,
  collectable, Page, page_of, pages_of, mark_collected,
}

abbrev pub is_still_open : Option Verdict → Bool
is_still_open (some still_open) = true
is_still_open _ = false

any-groups :
    (pass sha : String) (jobs : List Job)
    → any (str_eq sha) (groups pass jobs) ≡ any (is_of pass sha) jobs
any-groups pass sha [] = refl
any-groups pass sha (j ∷ js) = elim (Bool-cases (str_eq sha j.document_sha256)) [
  | inl same ↦
      rw (← (eq_iff sha j.document_sha256).0 same)
        (ground (arith, any-groups pass sha js, eq_iff sha sha))
  | inr other ↦
      ground
        (arith, any-groups pass sha js, eq_iff sha j.document_sha256, eq_iff j.document_sha256 sha)
]

any-select_text :
    (p : String → Bool) (sha : String) (ts : List String)
    → any (str_eq sha) (select p ts) ≡ (p sha && any (str_eq sha) ts)
any-select_text p sha [] = ground arith
any-select_text p sha (s ∷ ts) = elim (Bool-cases (str_eq sha s)) [
  | inl same ↦
      rw (← (eq_iff sha s).0 same) (ground (arith, any-select_text p sha ts, eq_iff sha sha))
  | inr other ↦ ground (arith, any-select_text p sha ts)
]

-- The queue offers a document for collection exactly when it has pages of it, has not collected it,
-- and no page of it is pending or leased.
pub collectable-known :
    (pass sha : String) (q : Queue)
    → any (str_eq sha) (collectable pass q)
      ≡ (is_still_open (known pass sha q) && not (any (λ j. is_of pass sha j && is_owed j) q.job))
unfolding collectable known
collectable-known pass sha q =
    any-select_text _ sha (groups pass q.job) ∙ ground (arith, any-groups pass sha q.job)

any-snoc_self :
    (pass sha : String) (c : Collected) (cs : List Collected)
    → written_of pass sha c ≡ true
    → any (written_of pass sha) (cs ++ c ∷ []) ≡ true
any-snoc_self pass sha c [] h = rw h
any-snoc_self pass sha c (d ∷ cs) h = ground (arith, any-snoc_self pass sha c cs h)

mark_collected-written :
    (pass sha : String) (ran_at : ℕ) (outcome : String) (pages_read pages_failed : ℕ) (q : Queue)
    → any
        (written_of pass sha)
        (mark_collected pass sha ran_at outcome pages_read pages_failed q).collected
      ≡ true
unfolding mark_collected
mark_collected-written pass sha ran_at outcome pages_read pages_failed q =
    any-snoc_self pass sha
      (record {
        pass = pass;
        document_sha256 = sha;
        ran_at = ran_at;
        outcome = outcome;
        pages_read = pages_read;
        pages_failed = pages_failed;
      })
      (delete_where (written_of pass sha) q.collected)
      (ground (arith, eq_iff pass pass, eq_iff sha sha))

job-mark_collected :
    (pass sha : String) (ran_at : ℕ) (outcome : String) (pages_read pages_failed : ℕ) (q : Queue)
    → (mark_collected pass sha ran_at outcome pages_read pages_failed q).job ≡ q.job
unfolding mark_collected
job-mark_collected pass sha ran_at outcome pages_read pages_failed q = refl

-- Once a document is written down as collected it is never offered again while its pages stand, and
-- it is whole exactly if every failed page of it failed for the page's own reason.
pub known-mark_collected :
    (pass sha : String) (ran_at : ℕ) (outcome : String) (pages_read pages_failed : ℕ) (q : Queue)
    → any (is_of pass sha) q.job ≡ true
    → (known pass sha (mark_collected pass sha ran_at outcome pages_read pages_failed q)
        ≡ (if any (λ j. is_of pass sha j && foreign j) q.job then some reread else some whole))
      × (any
            (str_eq sha)
            (collectable pass (mark_collected pass sha ran_at outcome pages_read pages_failed q))
          ≡ false)
unfolding known
known-mark_collected pass sha ran_at outcome pages_read pages_failed q has =
    let verdict = known-marked in
    (
      verdict,
      collectable-known pass sha (mark_collected pass sha ran_at outcome pages_read pages_failed q)
          ∙ rw verdict (not_open (any (λ j. is_of pass sha j && foreign j) q.job) _),
    )
  where
    known-marked :
        known pass sha (mark_collected pass sha ran_at outcome pages_read pages_failed q)
        ≡ (if any (λ j. is_of pass sha j && foreign j) q.job then some reread else some whole)
    known-marked = rw (
      known,
      job-mark_collected pass sha ran_at outcome pages_read pages_failed q,
      has,
      mark_collected-written pass sha ran_at outcome pages_read pages_failed q,
    )

    not_open : (b c : Bool) → (is_still_open (if b then some reread else some whole) && c) ≡ false
    not_open true c = refl
    not_open false c = refl

-- A lease that runs out on a page's last attempt fails the page for a reason that is not its own.
reap_row-foreign :
    (t : ℕ) (j : Job) → leb j.max_attempts j.attempts ≡ true → foreign (reap_row t j) ≡ true
reap_row-foreign t j e = rw e

-- So one lease that ran out on a last attempt is enough: the document, once it is collected, is to
-- be read again and never counts as whole.
pub known-reap :
    (t : ℕ) (pass sha : String) (ran_at : ℕ) (outcome : String) (pages_read pages_failed : ℕ)
    (q : Queue)
    → any (λ j. is_of pass sha j && (expired t j && leb j.max_attempts j.attempts)) q.job ≡ true
    → known pass sha (mark_collected pass sha ran_at outcome pages_read pages_failed (reap t q).1)
      ≡ some reread
known-reap t pass sha ran_at outcome pages_read pages_failed q ran_out =
    (known-mark_collected pass sha ran_at outcome pages_read pages_failed (reap t q).1 has).0
    ∙ rw lost
  where
    has : any (is_of pass sha) (reap t q).1.job ≡ true
    has =
        unfold reap in
        any-map-true (λ j. is_of pass sha j && (expired t j && leb j.max_attempts j.attempts))
          (is_of pass sha) _ q.job (All-intro _ q.job (λ j h. ground arith)) ran_out

    lost : any (λ j. is_of pass sha j && foreign j) (reap t q).1.job ≡ true
    lost =
        unfold reap in
        any-map-true (λ j. is_of pass sha j && (expired t j && leb j.max_attempts j.attempts))
          (λ j. is_of pass sha j && foreign j) _ q.job
          (All-intro _ q.job (λ j h. ground (arith, reap_row-foreign t j))) ran_out

-- The rows that `collect_pass` reads.
pub record IsAnswered (p : Page) : Type 0 where
  pub raw_iff : is_some p.raw ≡ is_done p.state
  pub worker_iff : is_some p.worker ≡ is_done p.state

find-is_some : {A : Type 0} (p : A → Bool) (xs : List A) → is_some (find p xs) ≡ any p xs
find-is_some p [] = refl
find-is_some p (x ∷ xs) = ground (arith, find-is_some p xs)

-- With the answers of exactly the done pages, a row that is not done has none.
unanswered :
    (q : Queue)
    → IsWellFormed q
    → All (λ j. any (answers j.job_id) q.result ≡ is_done j.state) q.job
unanswered q w =
    All-imp _ _ q.job (λ j h. both j h)
      (All-imp₂ _ _ _ q.job (λ j had only. (had, only)) w.answered
        (All-imp (λ j. All (λ k. j.job_id ≡ k.job_id → j ≡ k) q.job) _ q.job (λ j same. same)
          (Distinct-key (λ (j : Job). j.job_id) q.job w.ids)))
  where
    own :
        (j : Job) (i : ℕ) (ks : List Job)
        → All (λ (k : Job). i ≡ k.job_id → j ≡ k) ks
        → any (is_done_as i) ks ≡ true
        → is_done j.state ≡ true
    own j i [] h e = absurd (ground arith)
    own j i (k ∷ ks) h e = elim (Bool-cases (is_done_as i k)) [
      | inl met ↦ let same : j ≡ k = h.0 (ground arith) in rw same (ground arith)
      | inr unmet ↦ own j i ks h.1 (rw unmet at e)
    ]

    owned :
        (j : Job) (rs : List Reading)
        → All (λ (k : Job). j.job_id ≡ k.job_id → j ≡ k) q.job
        → All (λ (r : Reading). any (is_done_as r.job_id) q.job ≡ true) rs
        → any (answers j.job_id) rs ≡ true
        → is_done j.state ≡ true
    owned j [] only h e = absurd (ground arith)
    owned j (r ∷ rs) only h e = elim (Bool-cases (answers j.job_id r)) [
      | inl met ↦
          let at : r.job_id ≡ j.job_id = ground arith in own j j.job_id q.job only (rw (← at) h.0)
      | inr unmet ↦ owned j rs only h.1 (rw unmet at e)
    ]

    both :
        (j : Job)
        → (is_done j.state ≡ true → any (answers j.job_id) q.result ≡ true)
          × All (λ (k : Job). j.job_id ≡ k.job_id → j ≡ k) q.job
        → any (answers j.job_id) q.result ≡ is_done j.state
    both j h = elim (Bool-cases (is_done j.state)) [
      | inl finished ↦ h.0 finished ∙ sym finished
      | inr owed ↦ elim (Bool-cases (any (answers j.job_id) q.result)) [
        | inl met ↦ met ∙ sym (owned j q.result h.1 w.earned met)
        | inr unmet ↦ unmet ∙ sym owed
      ]
    ]

page_of-IsAnswered :
    (results : List Reading) (j : Job)
    → any (answers j.job_id) results ≡ is_done j.state
    → IsAnswered (page_of results j)
page_of-IsAnswered results j h =
    let found : is_some (find (answers j.job_id) results) ≡ is_done j.state =
      find-is_some (answers j.job_id) results ∙ h in
    record {
      raw_iff = mapped (find (answers j.job_id) results) (λ r. r.raw) ∙ found;
      worker_iff = mapped (find (answers j.job_id) results) (λ r. r.worker) ∙ found;
    }
  where
    mapped : (o : Option Reading) (f : Reading → String) → is_some (Option.map f o) ≡ is_some o
    mapped none f = refl
    mapped (some r) f = refl

-- In a well-formed file the rows of a document carry an answer, and the worker that gave it, for
-- exactly its done pages: `collect_pass` never meets a done page without its answer.
pub pages_of-IsAnswered :
    (pass sha : String) (q : Queue) → IsWellFormed q → All IsAnswered (pages_of pass sha q)
unfolding pages_of
pages_of-IsAnswered pass sha q w = All-map IsAnswered (page_of q.result) _ (
    All-sort_by _ (λ (a b : Job). ltb a.page_no b.page_no) (select (is_of pass sha) q.job)
      (All-select _ (is_of pass sha) q.job
        (All-imp _ _ q.job (page_of-IsAnswered q.result) (unanswered q w))))
