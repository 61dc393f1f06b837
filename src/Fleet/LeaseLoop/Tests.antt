-- ===== src/Fleet/LeaseLoop/Tests.antt =====
-- The theorems on the lease loops and on failures, with one page leased.
use docket_yard.Prelude.{
  ℕ, ◌≡◌, ◌≢◌, refl, arith, ltb, ◌&&◌, String, true, false, not, some, none, [], ◌∷◌, leb,
}
use docket_yard.Prelude.Text.{starts_with, cut, like_prefix}
use docket_yard.Fleet.Rows.{State, Job, Queue, row, is_pending, is_failed}
use docket_yard.Fleet.Passes.{page_owned}
use docket_yard.Fleet.Lease.{ok, err, value_error, waiting}
use docket_yard.Fleet.Answers.{fail}
use docket_yard.Fleet.Answers.Fail.{fail-retry, fail-final}
use docket_yard.Fleet.Documents.{foreign}
use docket_yard.Fleet.Blob.{Blob, got, unavailable}
use docket_yard.Fleet.LeaseLoop.{Fetched, document_back}
use docket_yard.Fleet.LeaseLoop.Held.{document_back-row}

abbrev page : Job
page = record {
  job_id = 7;
  pass = "dots";
  document_sha256 = "aa";
  page_no = 4;
  state = State.leased;
  attempts = 3;
  max_attempts = 3;
  lease_owner = some "w";
  lease_until = some 260;
  error = none;
  created_at = 100;
  finished_at = none;
}

abbrev queue : Queue
queue = record { job = page ∷ []; result = []; worker = []; collected = [] }

abbrev serves : String → Blob
serves sha = got (sha ∷ [])

abbrev down : String → Blob
down sha = unavailable

abbrev nothing : Fetched
nothing = record { held = none }

document_back-row_example :
    (k : Job) × (row 7 (document_back 200 "w" 7 "not in the store" queue).job ≡ some k)
    × (k.attempts ≡ page.attempts)
    × (is_failed k.state ≡ leb page.max_attempts page.attempts)
    × (is_pending k.state ≡ not (leb page.max_attempts page.attempts))
    × (foreign k ≡ is_failed k.state)
document_back-row_example = document_back-row 200 "w" 7 "not in the store" queue page refl refl

other_page : (let n : ℕ = 8 in n ≢ 7)
other_page e = omega (arith, e)

fail-retry_example :
    ((fail 200 "w" 7 "server: gone" false queue).0 ≡ ok tt)
    × (row 8 (fail 200 "w" 7 "server: gone" false queue).1.job ≡ row 8 queue.job)
    × (k : Job) × (row 7 (fail 200 "w" 7 "server: gone" false queue).1.job ≡ some k)
    × (k.attempts ≡ page.attempts)
    × (k.lease_owner ≡ none)
    × (k.error ≡ some (cut 500 "server: gone"))
    × (waiting page.pass k ≡ ltb page.attempts page.max_attempts)
    × (is_failed k.state ≡ not (ltb page.attempts page.max_attempts))
    × (foreign k ≡ (
        not (ltb page.attempts page.max_attempts)
        && not (like_prefix page_owned (cut 500 "server: gone"))))
fail-retry_example = fail-retry 200 "w" 7 "server: gone" queue page refl refl 8 other_page

fail-final_example :
    (starts_with page_owned "page: oversize" ≡ true
      → ((fail 200 "w" 7 "page: oversize" true queue).0 ≡ ok tt)
        × (k : Job) × (row 7 (fail 200 "w" 7 "page: oversize" true queue).1.job ≡ some k)
        × (k.state ≡ State.failed)
        × (k.error ≡ some (cut 500 "page: oversize"))
        × (k.attempts ≡ page.attempts)
        × (k.lease_owner ≡ none)
        × (foreign k ≡ false))
    × (starts_with page_owned "page: oversize" ≡ false
        → fail 200 "w" 7 "page: oversize" true queue ≡ (err value_error, queue))
fail-final_example = fail-final 200 "w" 7 "page: oversize" queue page refl refl
