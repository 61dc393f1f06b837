-- ===== src/Fleet/Stopping/Tests.antt =====
-- The theorems on stopping, at small runs.
use docket_yard.Prelude.{min, ◌≡◌, true, [], ◌∷◌, map}
use docket_yard.Fleet.Rows.{Queue, empty}
use docket_yard.Fleet.Lease.{Claimed, claim}
use docket_yard.Fleet.Machine.{seed, run}
use docket_yard.Fleet.Machine.Invariant.{reach-IsWellFormed}
use docket_yard.Fleet.Stopping.{install, yield_now}
use docket_yard.Fleet.Stopping.Signals.{yield_now-claim}

abbrev seeded : Queue
seeded = run (seed 100 "dots" (("aa", 1) ∷ ("aa", 2) ∷ []) [] ∷ []) empty

yield_now-claim_example :
    (yield_now "w"
      (map (λ (c : Claimed). c.job_id) (claim 200 "w" "dots" 2 60 seeded).0)
      1
      (install true)
      (claim 200 "w" "dots" 2 60 seeded).1).2.job
    ≡ (claim 200 "w" "dots" (min 1 2) 60 seeded).1.job
yield_now-claim_example =
    yield_now-claim 200 "w" "dots" 2 60 1 (install true) seeded
      (reach-IsWellFormed (seed 100 "dots" (("aa", 1) ∷ ("aa", 2) ∷ []) [] ∷ []))
