-- ===== src/Fleet/Lease/Exclusive.antt =====
-- What a worker gets from `Queue.claim` of tools/fleet/pagequeue.py, and how many pages.
use docket_yard.Prelude.{
  ℕ, ◌+◌, ◌≡◌, refl, ap, ◌∙◌, String, true, false, some, List, [], ◌∷◌, map, arith, All, All-imp,
  All-imp₂, All-map, Bool-cases, inl, inr, ◌==◌, length, length-take, length-map, min, eq_iff,
}
use docket_yard.Prelude.Table.{count, select, length-select}
use docket_yard.Prelude.Sort.{length-sort_by}
use docket_yard.Fleet.Rows.{Job, Queue, is_leased, row, past}
use docket_yard.Fleet.Rows.Sound.{IsWellFormed, written, row-update, row-of_All, row_self}
use docket_yard.Fleet.Lease.{
  expired, reap_row, claimable_row, claimable, ahead, waiting, picked, lease_row, Claimed, claimed,
  claim,
}
use docket_yard.Fleet.Lease.Order.{among, All-picked, among-waiting, picked-waiting}
use docket_yard.Fleet.Lease.Claim.{reaped, rows, job-claim, reaped-IsWellFormed, returned-claim}

-- The reap makes waiting exactly the rows that `claimable` counts.
waiting-reaped :
    (t : ℕ) (pass : String) (j : Job)
    → waiting pass (written (expired t) (reap_row t) j) ≡ claimable_row t pass j
waiting-reaped t pass j = ground arith

count-waiting :
    (t : ℕ) (pass : String) (jobs : List Job)
    → count (waiting pass) (map (written (expired t) (reap_row t)) jobs)
      ≡ count (claimable_row t pass) jobs
count-waiting t pass [] = refl
count-waiting t pass (j ∷ jobs) = rw (waiting-reaped t pass j, count-waiting t pass jobs)

-- `claimable` is what a claim can get: a claim of up to `n` pages leases as many as `claimable`
-- counts at that moment, and `n` if it counts more.
pub length-claim :
    (t : ℕ) (worker pass : String) (n lease_seconds : ℕ) (q : Queue)
    → length (claim t worker pass n lease_seconds q).0 ≡ min n (claimable t pass q)
unfolding claim claimable
length-claim t worker pass n lease_seconds q =
    length-map claimed (picked pass n (reaped t q))
    ∙ length-take n _
    ∙ ap (min n) (
        length-sort_by ahead (select (waiting pass) (reaped t q))
        ∙ length-select (waiting pass) (reaped t q)
        ∙ count-waiting t pass q.job)

-- What a worker holds after a claim that returned `c`.
pub record IsHeld (worker pass : String) (until : ℕ) (q : Queue) (c : Claimed) : Type 0 where
  pub job : Job
  pub at : row c.job_id q.job ≡ some job
  pub leased : is_leased job.state ≡ true
  pub owner : job.lease_owner ≡ some worker
  pub until_then : job.lease_until ≡ some until
  pub of_pass : job.pass ≡ pass
  pub spent : job.attempts ≡ c.attempts + 1

among_self : (rs : List Job) → All (λ r. among rs r ≡ true) rs
among_self [] = tt
among_self (r ∷ rs) = (
  ground arith,
  All-imp _ _ rs
      (λ k e. elim (Bool-cases (k.job_id == k.job_id)) [
        | inl _ ↦ ground (arith, e)
        | inr _ ↦ ground (arith, e)
      ])
      (among_self rs),
)

module _ (t : ℕ) (worker pass : String) (n lease_seconds : ℕ) (q : Queue) (w : IsWellFormed q) where
  -- A page under a lease that has not run out is left as it is by every claim, whoever makes it and
  -- for whatever pass.
  pub claim-live_lease :
      (i : ℕ) (j : Job)
      → row i q.job ≡ some j
      → is_leased j.state ≡ true
      → past t j.lease_until ≡ false
      → row i (claim t worker pass n lease_seconds q).1.job ≡ some j
  claim-live_lease i j found leased live =
      let picks = rows t worker pass n lease_seconds q in
      let step = lease_row worker (t + lease_seconds) in
      let stays : row i (reaped t q) ≡ some j =
        row-update (expired t) (reap_row t) i q.job (λ k. ground arith) ∙ rw found (ground arith) in
      let not_picked : among picks j ≡ false = elim (Bool-cases (among picks j)) [
        | inl picked_it ↦
            let waits : waiting pass j ≡ true =
              row-of_All (λ k. among picks k ≡ true → waiting pass k ≡ true) i (reaped t q) j
                (among-waiting pass n (reaped t q)
                  (reaped-IsWellFormed t worker pass n lease_seconds q w).ids)
                stays picked_it in
            absurd (ground arith)
        | inr left ↦ left
      ] in
      ap (row i) (job-claim t worker pass n lease_seconds q w)
      ∙ row-update (among picks) step i (reaped t q) (λ k. refl)
      ∙ rw (stays, not_picked)

  row-claimed :
      All
        (λ r.
          row r.job_id (claim t worker pass n lease_seconds q).1.job
          ≡ some (lease_row worker (t + lease_seconds) r))
        (rows t worker pass n lease_seconds q)
  row-claimed =
      let picks = rows t worker pass n lease_seconds q in
      let step = lease_row worker (t + lease_seconds) in
      let fit = reaped-IsWellFormed t worker pass n lease_seconds q w in
      All-imp₂ (λ r. row r.job_id (reaped t q) ≡ some r) (λ r. among picks r ≡ true) _ picks
        (λ r own mem.
          ap (row r.job_id) (job-claim t worker pass n lease_seconds q w)
          ∙ row-update (among picks) step r.job_id (reaped t q) (λ k. refl)
          ∙ rw (own, mem))
        (All-picked (λ r. row r.job_id (reaped t q) ≡ some r) pass n (reaped t q)
          (row_self (reaped t q) fit.ids))
        (among_self picks)

  -- Every page that a claim returns is then leased to the worker that asked, for the pass it asked
  -- for, until the lease's end, and one attempt of the page is spent.
  pub claim-IsHeld :
      All
        (IsHeld worker pass (t + lease_seconds) (claim t worker pass n lease_seconds q).1)
        (claim t worker pass n lease_seconds q).0
  claim-IsHeld =
      let picks = rows t worker pass n lease_seconds q in
      rw (returned-claim t worker pass n lease_seconds q) (
        All-map _ claimed picks (
          All-imp₂ _ (λ r. waiting pass r ≡ true) _ picks
            (λ r at waits. record {
              job = lease_row worker (t + lease_seconds) r;
              at = at;
              leased = refl;
              owner = refl;
              until_then = refl;
              of_pass = (eq_iff r.pass pass).0 (ground arith);
              spent = refl;
            })
            row-claimed (picked-waiting pass n (reaped t q))))
