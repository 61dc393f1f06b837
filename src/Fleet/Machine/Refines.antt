-- ===== src/Fleet/Machine/Refines.antt =====
-- tools/fleet/pagequeue.py: the queue's calls, seen on one page, are moves of its ticket.
use mathlib.Core.Bool.{false≢true}
use docket_yard.Prelude.{
  ℕ, ◌+◌, ◌≡◌, refl, sym, ap, ◌∙◌, String, Bool, true, false, not, ◌&&◌, ◌||◌, some, List, [], ◌∷◌,
  arith, All, Bool-cases, Option-cases, inl, inr, leb,
}
use mathlib.Core.Path.{subst}
use docket_yard.Prelude.Table.{any, find, find-true, All-find, executemany, update_where}
use docket_yard.Prelude.Text.{starts_with}
use docket_yard.Fleet.Passes.{page_owned}
use docket_yard.Fleet.Rows.{Job, Queue, row, has_id}
use docket_yard.Fleet.Rows.Sound.{
  IsSound, IsWellFormed, written, row-update, row-of_All, row_id, row-only,
}
use docket_yard.Fleet.Lease
use docket_yard.Fleet.Lease.{expired, reap_row, lease_row, release_row, holds, waiting}
use docket_yard.Fleet.Lease.Keeps.{extend_row-Keeps, release_row-Keeps}
use docket_yard.Fleet.Lease.Order.{among, among-waiting}
use docket_yard.Fleet.Lease.Claim.{reaped, rows, job-claim, reaped-IsWellFormed}
use docket_yard.Fleet.Answers
use docket_yard.Fleet.Documents
use docket_yard.Fleet.Machine.{
  Call, register, reap, claim, extend, release, done, fail, cmd_fail, seed, mark_collected, perform,
}
use docket_yard.Fleet.Machine.Invariant.{register-tables}
use docket_yard.Fleet.Machine.Ticket.{given_up, ticket, Moves, Goes, stays, Goes-trans, once}
use docket_yard.Fleet.Machine.Rows.{
  reap_row-Moves, lease_row-Moves, release_row-Moves, extend_row-Moves, done_row-Moves,
  fail_row-Moves, cmd_fail_row-Moves,
}

abbrev pub is_seed : Call → Bool
is_seed (seed t pass pages reread) = true
is_seed _ = false

-- The page's row after a call, and how its ticket got there.
pub record IsMoved (i : ℕ) (c : Call) (j : Job) (jobs : List Job) : Type 0 where
  pub job : Job
  pub at : row i jobs ≡ some job
  pub goes : Goes i c (ticket j) (ticket job)

still : (i : ℕ) (c : Call) (j : Job) (jobs : List Job) → row i jobs ≡ some j → IsMoved i c j jobs
still i c j jobs found = record { job = j; at = found; goes = stays }

module _ (i : ℕ) (c : Call) where
  -- An UPDATE moves the row, where what it makes of the row that it takes is a move.
  update-Moved :
      (p : Job → Bool) (f : Job → Job)
      → ((k : Job) → (f k).job_id ≡ k.job_id)
      → (j : Job) (jobs : List Job) → row i jobs ≡ some j
      → (p j ≡ true → Moves i c (ticket j) (ticket (f j)))
      → IsMoved i c j (update_where p f jobs)
  update-Moved p f same j jobs found move = record {
    job = written p f j;
    at = row-update p f i jobs same ∙ rw found refl;
    goes = elim (Bool-cases (p j)) [
      | inl hit ↦ rw hit (once (move hit))
      | inr missed ↦ rw missed stays
    ];
  }

  executemany-Moved :
      (p : ℕ → Job → Bool) (f : Job → Job)
      → ((k : Job) → (f k).job_id ≡ k.job_id)
      → ((l : ℕ) (k : Job) → IsSound k → p l k ≡ true → Moves i c (ticket k) (ticket (f k)))
      → ((l : ℕ) (k : Job) → IsSound k → p l k ≡ true → IsSound (f k))
      → (is : List ℕ) (j : Job) (jobs : List Job) → row i jobs ≡ some j
      → IsSound j
      → IsMoved i c j (executemany (λ l. update_where (p l) f) is jobs)
  unfolding update-Moved
  executemany-Moved p f same move keep [] j jobs found s = still i c j jobs found
  executemany-Moved p f same move keep (l ∷ is) j jobs found s =
      let first = update-Moved (p l) f same j jobs found (move l j s) in
      let sound : IsSound (written (p l) f j) = elim (Bool-cases (p l j)) [
        | inl hit ↦ rw hit (keep l j s hit)
        | inr missed ↦ rw missed s
      ] in
      let rest =
        executemany-Moved p f same move keep is (written (p l) f j) (update_where (p l) f jobs)
          first.at sound in
      record { job = rest.job; at = rest.at; goes = Goes-trans first.goes rest.goes }

module _ (i : ℕ) (j : Job) (q : Queue) (found : row i q.job ≡ some j) (w : IsWellFormed q) where
  sound : IsSound j
  sound = row-of_All IsSound i q.job j w.rows found

  claim-IsMoved :
      (t : ℕ) (worker pass : String) (n lease_seconds : ℕ)
      → IsMoved i
          (claim t worker pass n lease_seconds)
          j
          (Lease.claim t worker pass n lease_seconds q).1.job
  unfolding update-Moved
  claim-IsMoved t worker pass n lease_seconds =
      let c = claim t worker pass n lease_seconds in
      let picks = rows t worker pass n lease_seconds q in
      let fit = reaped-IsWellFormed t worker pass n lease_seconds q w in
      let first =
        update-Moved i c (expired t) (reap_row t) (λ k. ground arith) j q.job found
          (reap_row-Moves i j sound c t refl) in
      let k = written (expired t) (reap_row t) j in
      let sound_too = row-of_All IsSound i (reaped t q) k fit.rows first.at in
      let waits =
        row-of_All (λ r. among picks r ≡ true → waiting pass r ≡ true) i (reaped t q) k
          (among-waiting pass n (reaped t q) fit.ids) first.at in
      let next =
        update-Moved i c (among picks) (lease_row worker (t + lease_seconds)) (λ k. refl) k
          (reaped t q) first.at
          (λ e. lease_row-Moves i k sound_too t worker pass n lease_seconds (waits e)) in
      record {
        job = next.job;
        at = ap (row i) (job-claim t worker pass n lease_seconds q w) ∙ next.at;
        goes = Goes-trans first.goes next.goes;
      }

  -- The row that a worker is found to hold is the page's row.
  is_held :
      (worker : String) (jobs : List Job)
      → All (λ k. k.job_id ≡ i → k ≡ j) jobs
      → any (holds worker i) jobs ≡ true
      → holds worker i j ≡ true
  is_held worker [] only e = cc
  is_held worker (k ∷ jobs) only e = elim (Bool-cases (holds worker i k)) [
    | inl met ↦ let same = only.0 (ground arith) in subst (λ k. holds worker i k ≡ true) same met
    | inr other ↦ is_held worker jobs only.1 (rw other at e)
  ]

  -- A row that a statement takes by its number is the page's row only if the number is the page's.
  its_number : (l : ℕ) → has_id l j ≡ true → l ≡ i
  its_number l hit = let own = row_id i q.job j found in ground arith

  only_one : All (λ k. k.job_id ≡ i → k ≡ j) q.job
  only_one = row-only i q.job j w.ids found

  done-IsMoved :
      (t : ℕ) (worker : String) (l : ℕ) (raw : String)
      → IsMoved i (done t worker l raw) j (Answers.done t worker l raw q).1.job
  unfolding Answers.done
  done-IsMoved t worker l raw = elim (Bool-cases (any (holds worker l) q.job)) [
    | inr lost ↦ rw lost (still i _ j q.job found)
    | inl own ↦ rw own (
        update-Moved i (done t worker l raw) (has_id l) (Answers.done_row t) (λ k. refl) j q.job
          found
          (λ hit.
            let same = its_number l hit in
            subst (λ m. Moves i (done t worker m raw) (ticket j) (ticket (Answers.done_row t j)))
              (sym same)
              (done_row-Moves i j sound t worker raw
                (is_held worker q.job only_one (rw same at own)))))
  ]

  fail-IsMoved :
      (t : ℕ) (worker : String) (l : ℕ) (error : String) (final : Bool)
      → IsMoved i (fail t worker l error final) j (Answers.fail t worker l error final q).1.job
  unfolding Answers.fail
  fail-IsMoved t worker l error final = elim (Option-cases (find (holds worker l) q.job)) [
    | inl lost ↦ rw (lost, Answers.fail) (still i _ j q.job found)
    | inr (r, own) ↦
        let failed = final || leb r.max_attempts r.attempts in
        rw (own, Answers.fail)
          (elim (Bool-cases (final && not (starts_with page_owned error))) [
            | inl bad ↦ rw bad (still i _ j q.job found)
            | inr good ↦ rw good (
                update-Moved i (fail t worker l error final) (has_id l)
                  (Answers.fail_row t failed error) (λ k. refl) j q.job found
                  (λ hit.
                    let same = its_number l hit in
                    let r_held = find-true (holds worker l) q.job r own in
                    let is_it : r ≡ j = the_row r l own (ground arith) in
                    subst
                      (λ m.
                        Moves i (fail t worker m error final) (ticket j)
                          (ticket (Answers.fail_row t failed error j)))
                      (sym same)
                      (subst
                        (λ (x : Job). Moves i (fail t worker i error final) (ticket j) (
                          ticket
                            (Answers.fail_row t (final || leb x.max_attempts x.attempts) error j)))
                        (sym is_it)
                        (fail_row-Moves i j sound t worker error final
                          (rw (is_it, same) at r_held)))))
          ])
  ]
    where
      the_row : (r : Job) (l : ℕ) → find (holds worker l) q.job ≡ some r → r.job_id ≡ i → r ≡ j
      the_row r l own at =
          All-find (λ k. k.job_id ≡ i → k ≡ j) (holds worker l) q.job r own only_one at

  pub perform-IsMoved : (c : Call) → is_seed c ≡ false → IsMoved i c j (perform c q).job
  unfolding perform Lease.reap Lease.extend Lease.release Answers.cmd_fail Documents.mark_collected
  perform-IsMoved (register t name pass producer) e =
      rw ((register-tables t name pass producer q).0) (still i _ j q.job found)
  perform-IsMoved (reap t) e =
      update-Moved i (reap t) (expired t) (reap_row t) (λ k. ground arith) j q.job found
        (reap_row-Moves i j sound (reap t) t refl)
  perform-IsMoved (claim t worker pass n lease_seconds) e =
      claim-IsMoved t worker pass n lease_seconds
  perform-IsMoved (extend t worker is lease_seconds) e =
      executemany-Moved i (extend t worker is lease_seconds) (holds worker) _ (λ k. refl)
        (λ l k s. extend_row-Moves i k s t worker is lease_seconds l)
        (λ l k s hit. (extend_row-Keeps worker l (t + lease_seconds) k hit).sound s) is j q.job
        found sound
  perform-IsMoved (release worker is) e =
      executemany-Moved i (release worker is) (holds worker) release_row (λ k. refl)
        (λ l k s. release_row-Moves i k s worker is l)
        (λ l k s hit. (release_row-Keeps worker l k hit).sound s) is j q.job found sound
  perform-IsMoved (done t worker job_id raw) e = done-IsMoved t worker job_id raw
  perform-IsMoved (fail t worker job_id error final) e = fail-IsMoved t worker job_id error final
  perform-IsMoved (cmd_fail t job error by_page) e =
      update-Moved i (cmd_fail t job error by_page) (Answers.is_open job) _ (λ k. refl) j q.job
        found
        (λ hit.
          let same = its_number job (ground arith) in
          subst (λ m. Moves i (cmd_fail t m error by_page) (ticket j) given_up) (sym same)
            (cmd_fail_row-Moves i j sound t "" error by_page (rw same at hit)))
  perform-IsMoved (seed t pass pages reread) e = absurd (false≢true (sym e))
  perform-IsMoved (mark_collected pass sha ran_at outcome pages_read pages_failed) e =
      still i _ j q.job found
