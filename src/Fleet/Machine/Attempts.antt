-- ===== src/Fleet/Machine/Attempts.antt =====
-- tools/fleet/pagequeue.py: a page is handed out a bounded number of times.
use mathlib.Core.Bool.{false≢true}
use docket_yard.Prelude.{
  ℕ, ◌+◌, ◌≤◌, ◌≡◌, ◌≢◌, refl, ap, ◌∙◌, String, Bool, true, false, not, ◌&&◌, some, List, [], ◌∷◌,
  map, arith, All, Bool-cases, Option-cases, inl, inr, ◌==◌, if◌then◌else◌,
}
use docket_yard.Prelude.Table.{any, count, executemany, update_where, find}
use docket_yard.Prelude.Sort.{DistinctOn}
use docket_yard.Fleet.Rows.{Job, Queue, row, has_id}
use docket_yard.Fleet.Rows.Sound.{IsSound, IsWellFormed, written, row-update, row-of_All, row_id}
use docket_yard.Prelude.Text.{starts_with}
use docket_yard.Fleet.Passes.{page_owned}
use docket_yard.Fleet.Lease
use docket_yard.Fleet.Lease.{expired, reap_row, lease_row, holds, Claimed, claimed, picked}
use docket_yard.Fleet.Lease.Order.{among, picked-DistinctOn}
use docket_yard.Fleet.Lease.Claim.{reaped, rows, job-claim, reaped-IsWellFormed, returned-claim}
use docket_yard.Fleet.Answers
use docket_yard.Fleet.Documents
use docket_yard.Fleet.Machine.{
  Call, register, reap, claim, extend, release, done, fail, cmd_fail, seed, mark_collected, perform,
}
use docket_yard.Fleet.Machine.Invariant.{perform-IsWellFormed, register-tables}

-- The calls that a page meets between two seeds while no worker gives it back unspent.
abbrev pub is_plain : Call → Bool
is_plain (release worker job_ids) = false
is_plain (seed t pass pages reread) = false
is_plain _ = true

-- How often a call hands out the page of a number.
abbrev pub hands_out : ℕ → Call → Queue → ℕ
hands_out i (claim t worker pass n lease_seconds) q =
    count (λ (c : Claimed). c.job_id == i) (Lease.claim t worker pass n lease_seconds q).0
hands_out i _ q = 0

-- How often the calls do, each on the file that those before it left.
pub handed_out : ℕ → List Call → Queue → ℕ
handed_out i [] q = 0
handed_out i (c ∷ cs) q = hands_out i c q + handed_out i cs (perform c q)

count-none :
    (i : ℕ) (r : Job) (ks : List Job)
    → r.job_id ≡ i
    → All (λ (y : Job). r.job_id ≢ y.job_id) ks
    → count (λ (c : Claimed). c.job_id == i) (map claimed ks) ≡ 0
count-none i r [] at h = refl
count-none i r (k ∷ ks) at h = elim (Bool-cases (k.job_id == i)) [
  | inl found ↦ absurd (h.0 (at ∙ ground arith))
  | inr other ↦ rw other (count-none i r ks at h.1)
]

count-among :
    (i : ℕ) (rs : List Job) (j : Job)
    → DistinctOn (λ (r : Job). r.job_id) rs
    → j.job_id ≡ i
    → count (λ (c : Claimed). c.job_id == i) (map claimed rs) ≡ (if among rs j then 1 else 0)
count-among i [] j d at = refl
count-among i (r ∷ rs) j d at = elim (Bool-cases (r.job_id == i)) [
  | inl found ↦
      let own : r.job_id ≡ i = ground arith in
      let met : has_id r.job_id j ≡ true = ground arith in
      rw (found, met, count-none i r rs own d.0)
  | inr other ↦
      let unmet : has_id r.job_id j ≡ false = ground arith in
      rw (other, unmet) (count-among i rs j d.1 at)
]

-- What is left of a row: its bound, and the attempts with those that were spent.
record IsSpent (i spent : ℕ) (j : Job) (jobs : List Job) : Type 0 where
  job : Job
  at : row i jobs ≡ some job
  attempts : job.attempts ≡ j.attempts + spent
  bound : job.max_attempts ≡ j.max_attempts

same-IsSpent : (i : ℕ) (j : Job) (jobs : List Job) → row i jobs ≡ some j → IsSpent i 0 j jobs
same-IsSpent i j jobs found = record { job = j; at = found; attempts = omega arith; bound = refl }

-- An UPDATE that keeps numbers, attempts and bounds spends nothing.
abbrev IsFree : (Job → Job) → Type 0
IsFree f =
    (k : Job)
    → ((f k).job_id ≡ k.job_id)
      × ((f k).attempts ≡ k.attempts)
      × ((f k).max_attempts ≡ k.max_attempts)

update-IsSpent :
    (p : Job → Bool) (f : Job → Job)
    → IsFree f
    → (i : ℕ) (j : Job) (jobs : List Job) → row i jobs ≡ some j
    → IsSpent i 0 j (update_where p f jobs)
update-IsSpent p f free i j jobs found = record {
  job = written p f j;
  at = row-update p f i jobs (λ k. (free k).0) ∙ rw found;
  attempts = ground (arith, free j);
  bound = ground (arith, free j);
}

executemany-IsSpent :
    (p : ℕ → Job → Bool) (f : Job → Job)
    → IsFree f
    → (i : ℕ) (is : List ℕ) (j : Job) (jobs : List Job) → row i jobs ≡ some j
    → IsSpent i 0 j (executemany (λ l. update_where (p l) f) is jobs)
executemany-IsSpent p f free i [] j jobs found = same-IsSpent i j jobs found
executemany-IsSpent p f free i (l ∷ is) j jobs found =
    let once = update-IsSpent (p l) f free i j jobs found in
    let more = executemany-IsSpent p f free i is once.job (update_where (p l) f jobs) once.at in
    record {
      job = more.job;
      at = more.at;
      attempts = omega (arith, more.attempts, once.attempts);
      bound = more.bound ∙ once.bound;
    }

module _ (i : ℕ) (j : Job) (q : Queue) (found : row i q.job ≡ some j) where
  claim-IsSpent :
      (t : ℕ) (worker pass : String) (n lease_seconds : ℕ)
      → IsWellFormed q
      → IsSpent i
          (hands_out i (claim t worker pass n lease_seconds) q)
          j
          (Lease.claim t worker pass n lease_seconds q).1.job
  claim-IsSpent t worker pass n lease_seconds w =
      let picks = rows t worker pass n lease_seconds q in
      let step = lease_row worker (t + lease_seconds) in
      let k = written (expired t) (reap_row t) j in
      let reached : row i (reaped t q) ≡ some k =
        row-update (expired t) (reap_row t) i q.job (λ k. ground arith) ∙ rw found in
      let fit = reaped-IsWellFormed t worker pass n lease_seconds q w in
      let handed : hands_out i (claim t worker pass n lease_seconds) q
          ≡ (if among picks k then 1 else 0) =
        ap (count (λ (c : Claimed). c.job_id == i)) (returned-claim t worker pass n lease_seconds q)
        ∙ count-among i picks k (picked-DistinctOn pass n (reaped t q) fit.ids)
            (row_id i (reaped t q) k reached) in
      record {
        job = written (among picks) step k;
        at =
            ap (row i) (job-claim t worker pass n lease_seconds q w)
            ∙ row-update (among picks) step i (reaped t q) (λ k. refl)
            ∙ rw reached;
        attempts = ground (arith, handed);
        bound = ground arith;
      }

  done-IsSpent :
      (t : ℕ) (worker : String) (l : ℕ) (raw : String)
      → IsSpent i 0 j (Answers.done t worker l raw q).1.job
  unfolding Answers.done
  done-IsSpent t worker l raw = elim (Bool-cases (any (holds worker l) q.job)) [
    | inl own ↦
        rw own
          (update-IsSpent (has_id l) (Answers.done_row t) (λ k. (refl, refl, refl)) i j q.job found)
    | inr lost ↦ rw lost (same-IsSpent i j q.job found)
  ]

  fail-IsSpent :
      (t : ℕ) (worker : String) (l : ℕ) (error : String) (final : Bool)
      → IsSpent i 0 j (Answers.fail t worker l error final q).1.job
  unfolding Answers.fail
  fail-IsSpent t worker l error final = elim (Option-cases (find (holds worker l) q.job)) [
    | inl none_held ↦ rw (none_held, Answers.fail) (same-IsSpent i j q.job found)
    | inr (r, held) ↦
        rw (held, Answers.fail)
          (elim (Bool-cases (final && not (starts_with page_owned error))) [
            | inl bad ↦ rw bad (same-IsSpent i j q.job found)
            | inr good ↦
                rw good (update-IsSpent (has_id l) _ (λ k. (refl, refl, refl)) i j q.job found)
          ])
  ]

  perform-IsSpent :
      (c : Call)
      → is_plain c ≡ true
      → IsWellFormed q
      → IsSpent i (hands_out i c q) j (perform c q).job
  unfolding perform Lease.reap Lease.extend Answers.cmd_fail Documents.mark_collected
  perform-IsSpent (register t name pass producer) e w =
      rw ((register-tables t name pass producer q).0) (same-IsSpent i j q.job found)
  perform-IsSpent (reap t) e w =
      update-IsSpent (expired t) (reap_row t) (λ k. (ground arith, ground arith, ground arith)) i j
        q.job found
  perform-IsSpent (claim t worker pass n lease_seconds) e w =
      claim-IsSpent t worker pass n lease_seconds w
  perform-IsSpent (extend t worker job_ids lease_seconds) e w =
      executemany-IsSpent (holds worker) _ (λ k. (refl, refl, refl)) i job_ids j q.job found
  perform-IsSpent (release worker job_ids) e w = absurd (false≢true e)
  perform-IsSpent (done t worker job_id raw) e w = done-IsSpent t worker job_id raw
  perform-IsSpent (fail t worker job_id error final) e w = fail-IsSpent t worker job_id error final
  perform-IsSpent (cmd_fail t job error by_page) e w =
      update-IsSpent (Answers.is_open job) _ (λ k. (refl, refl, refl)) i j q.job found
  perform-IsSpent (seed t pass pages reread) e w = absurd (false≢true e)
  perform-IsSpent (mark_collected pass sha ran_at outcome pages_read pages_failed) e w =
      same-IsSpent i j q.job found

-- Between two seeds, while no worker gives pages back, a page is handed out at most as often as it
-- has attempts left, whatever calls are made: a page that kills its reader each time is not read
-- for ever.
pub handed_out-le :
    (cs : List Call) (q : Queue) (i : ℕ) (j : Job)
    → IsWellFormed q
    → row i q.job ≡ some j
    → All (λ c. is_plain c ≡ true) cs
    → handed_out i cs q + j.attempts ≤ j.max_attempts
unfolding handed_out
handed_out-le [] q i j w found plain =
    let s = row-of_All IsSound i q.job j w.rows found in omega (arith, s.within)
handed_out-le (c ∷ cs) q i j w found plain =
    let spent = perform-IsSpent i j q found c plain.0 w in
    let rest =
      handed_out-le cs (perform c q) i spent.job (perform-IsWellFormed c q w) spent.at plain.1 in
    omega (arith, spent.attempts, spent.bound, rest)
