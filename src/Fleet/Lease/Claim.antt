-- ===== src/Fleet/Lease/Claim.antt =====
-- `Queue.claim` of tools/fleet/pagequeue.py: what it leases, and to whom.
use docket_yard.Prelude.{ℕ, ◌+◌, ◌≡◌, refl, String, true, List, map, arith, All-imp}
use docket_yard.Prelude.Table.{update_where}
use docket_yard.Fleet.Rows.{Job, Queue}
use docket_yard.Fleet.Rows.Sound.{IsWellFormed, Keeps, update-TablesFit}
use docket_yard.Fleet.Lease.{expired, reap_row, reap, waiting, picked, lease_row, claimed, claim}
use docket_yard.Fleet.Lease.Keeps.{reap-IsWellFormed}
use docket_yard.Fleet.Lease.Order.{among, among-waiting, executemany-eq, picked-DistinctOn}

-- The rows that the reap leaves, and those of them that the claim picks.
abbrev pub reaped : ℕ → Queue → List Job
reaped t q = update_where (expired t) (reap_row t) q.job

module _ (t : ℕ) (worker pass : String) (n lease_seconds : ℕ) (q : Queue) where
  abbrev pub rows : List Job
  rows = picked pass n (reaped t q)

  abbrev pub after : Queue
  after = (claim t worker pass n lease_seconds q).1

  pub reaped-IsWellFormed : IsWellFormed q → IsWellFormed (record q { job = reaped t q })
  unfolding reap
  reaped-IsWellFormed w = reap-IsWellFormed t q w

  -- The claim is one update of the rows that are picked after the reap.
  pub job-claim :
      IsWellFormed q
      → after.job ≡ update_where (among rows) (lease_row worker (t + lease_seconds)) (reaped t q)
  unfolding claim
  job-claim w =
      executemany-eq (lease_row worker (t + lease_seconds)) (λ j. refl) rows (reaped t q)
        (picked-DistinctOn pass n (reaped t q) (reaped-IsWellFormed w).ids)

  pub returned-claim : (claim t worker pass n lease_seconds q).0 ≡ map claimed rows
  unfolding claim
  returned-claim = refl

  result-claim : after.result ≡ q.result
  unfolding claim
  result-claim = refl

  lease_row-Keeps :
      (j : Job) → waiting pass j ≡ true → Keeps j (lease_row worker (t + lease_seconds) j)
  lease_row-Keeps j e = record {
    id = refl;
    key = refl;
    done = ground arith;
    sound = λ s. ground arith;
  }

  pub claim-IsWellFormed : IsWellFormed q → IsWellFormed after
  claim-IsWellFormed w =
      rw (job-claim w, result-claim)
        (update-TablesFit (among rows) (lease_row worker (t + lease_seconds)) (reaped t q) q.result
          (All-imp _ _ (reaped t q) (λ j imp e. lease_row-Keeps j (imp e))
            (among-waiting pass n (reaped t q) (reaped-IsWellFormed w).ids))
          (reaped-IsWellFormed w))
