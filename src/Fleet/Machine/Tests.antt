-- ===== src/Fleet/Machine/Tests.antt =====
-- Runs of the page queue on small files, and its theorems at them.
use docket_yard.Prelude.{
  ℕ, ◌+◌, ◌≤◌, ◌≡◌, refl, String, true, false, none, some, List, [], ◌∷◌, map, All, eq_iff, length,
  min, ◌&&◌, leb,
}
use mathlib.Core.Bool.{false≢true}
use docket_yard.Prelude.Text.{decimal}
use docket_yard.Prelude.Table.{any, executemany}
use docket_yard.Fleet.Rows.{State, Job, Queue, empty, row}
use docket_yard.Fleet.Rows.Sound.{IsWellFormed}
use docket_yard.Fleet.Passes.{dots_key}
use docket_yard.Fleet.Lease
use docket_yard.Fleet.Lease.{Claimed, expired}
use docket_yard.Fleet.Lease.Exclusive.{IsHeld, length-claim, claim-live_lease, claim-IsHeld}
use docket_yard.Fleet.Answers
use docket_yard.Fleet.Answers.Lease.{release-claim, done-taken_over}
use docket_yard.Fleet.Documents
use docket_yard.Fleet.Documents.{is_of, written_of, foreign, reread, still_open, whole, Verdict}
use docket_yard.Fleet.Documents.Seeded.{HasPage, seed-HasPage}
use docket_yard.Fleet.Documents.Verdicts.{known-reap}
use docket_yard.Fleet.Machine.{Call, register, reap, claim, done, fail, seed, perform, run}
use docket_yard.Fleet.Machine.Invariant.{reach-IsWellFormed}
use docket_yard.Fleet.Machine.Ticket.{ticket}
use docket_yard.Fleet.Machine.Trace.{Trace, run-Trace, run-over}
use docket_yard.Fleet.Machine.Attempts.{handed_out, handed_out-le}

abbrev two_pages : List (String × ℕ)
two_pages = ("aa", 2) ∷ ("aa", 1) ∷ []

-- A worker has one page of two.
abbrev one_leased : List Call
one_leased =
    register 90 "w" "dots" dots_key ∷ seed 100 "dots" two_pages [] ∷ claim 200 "w" "dots" 1 60 ∷ []

abbrev leased : Queue
leased = run one_leased empty

program : Unit {0}
unfolding perform run Lease.register Lease.reap Lease.claim Lease.extend Lease.release Answers.done
    Answers.fail Answers.cmd_fail Documents.seed Documents.known Documents.collectable
    Documents.mark_collected Documents.pages_of Documents.pages_held decimal Lease.claimable
program = tt

-- The page of the lower number is the one claimed, though it was seeded last.
abbrev page_one : Job
page_one = record {
  job_id = 2;
  pass = "dots";
  document_sha256 = "aa";
  page_no = 1;
  state = State.leased;
  attempts = 1;
  max_attempts = 3;
  lease_owner = some "w";
  lease_until = some 260;
  error = none;
  created_at = 100;
  finished_at = none;
}

row-leased : row 2 leased.job ≡ some page_one
unfolding program
row-leased = refl

reach-IsWellFormed_example : IsWellFormed leased
reach-IsWellFormed_example = reach-IsWellFormed one_leased

length-claim_example :
    length (Lease.claim 210 "v" "dots" 5 60 leased).0 ≡ min 5 (Lease.claimable 210 "dots" leased)
length-claim_example = length-claim 210 "v" "dots" 5 60 leased

claim-live_lease_example : row 2 (Lease.claim 210 "v" "dots" 5 60 leased).1.job ≡ some page_one
claim-live_lease_example =
    claim-live_lease 210 "v" "dots" 5 60 leased (reach-IsWellFormed one_leased) 2 page_one
      row-leased refl refl

claim-IsHeld_example :
    All
      (IsHeld "v" "dots" (300 + 60) (Lease.claim 300 "v" "dots" 5 60 leased).1)
      (Lease.claim 300 "v" "dots" 5 60 leased).0
claim-IsHeld_example = claim-IsHeld 300 "v" "dots" 5 60 leased (reach-IsWellFormed one_leased)

release-claim_example :
    (Lease.release "v"
      (map (λ (c : Claimed). c.job_id) (Lease.claim 300 "v" "dots" 5 60 leased).0)
      (Lease.claim 300 "v" "dots" 5 60 leased).1).job
    ≡ (Lease.reap 300 leased).1.job
release-claim_example = release-claim 300 "v" "dots" 5 60 leased (reach-IsWellFormed one_leased)

done-taken_over_example :
    All
      (λ c.
        Answers.done 310 "w" c.job_id "text" (Lease.claim 300 "v" "dots" 5 60 leased).1
        ≡ (false, (Lease.claim 300 "v" "dots" 5 60 leased).1))
      (Lease.claim 300 "v" "dots" 5 60 leased).0
done-taken_over_example =
    done-taken_over 300 "v" "dots" 5 60 leased (reach-IsWellFormed one_leased) "w" "text" 310
      (λ e. false≢true ((eq_iff "w" "v").1 e))

abbrev retries : List Call
retries =
    fail 250 "w" 2 "server: gone" false
    ∷ claim 300 "w" "dots" 2 60
    ∷ reap 500
    ∷ claim 500 "v" "dots" 9 60
    ∷ []

handed_out-le_example : handed_out 2 retries leased + 1 ≤ 3
handed_out-le_example =
    handed_out-le retries leased 2 page_one (reach-IsWellFormed one_leased) row-leased
      (refl, (refl, (refl, (refl, tt))))

seed-HasPage_example :
    All (HasPage "dots" (Documents.seed 400 "dots" two_pages ("aa" ∷ []) leased).1.job) two_pages
    × ((Documents.seed 400 "dots" two_pages ("aa" ∷ []) leased).0
          + length (executemany (Documents.forget "dots") ("aa" ∷ []) leased).job
        ≡ length (Documents.seed 400 "dots" two_pages ("aa" ∷ []) leased).1.job)
seed-HasPage_example = seed-HasPage 400 "dots" two_pages ("aa" ∷ []) leased

-- Both pages are read, and one of them fails for a reason of its own.
abbrev both_read : List Call
both_read =
    register 90 "w" "dots" dots_key
    ∷ seed 100 "dots" two_pages []
    ∷ claim 200 "w" "dots" 1 60
    ∷ done 210 "w" 2 "text"
    ∷ claim 220 "w" "dots" 1 60
    ∷ fail 230 "w" 1 "page: oversize" true
    ∷ []

abbrev finished : Queue
finished = run both_read empty

collectable-finished : Documents.collectable "dots" finished ≡ "aa" ∷ []
unfolding program
collectable-finished = refl

finished-has : any (is_of "dots" "aa") finished.job ≡ true
unfolding program
finished-has = refl

-- A worker that dies three times with the page in hand.
abbrev dying : Queue
dying =
    run
      (seed 100 "dots" (("aa", 1) ∷ []) []
        ∷ claim 200 "w" "dots" 1 60
        ∷ claim 300 "w" "dots" 1 60
        ∷ claim 400 "w" "dots" 1 60
        ∷ [])
      empty

dying-ran_out :
    any (λ j. is_of "dots" "aa" j && (expired 500 j && leb j.max_attempts j.attempts)) dying.job
    ≡ true
unfolding program
dying-ran_out = refl

known-reap_example :
    Documents.known "dots" "aa"
      (Documents.mark_collected "dots" "aa" 510 "failed" 0 1 (Lease.reap 500 dying).1)
    ≡ some reread
known-reap_example = known-reap 500 "dots" "aa" 510 "failed" 0 1 dying dying-ran_out

-- The lease runs out, the page is claimed again and answered, and a late answer is refused.
abbrev then_answered : List Call
then_answered = claim 300 "v" "dots" 1 60 ∷ done 310 "v" 2 "{}" ∷ done 320 "w" 2 "{}" ∷ []

run-Trace_example :
    (k : Job) × (row 2 (run then_answered leased).job ≡ some k)
    × Trace 2 then_answered (ticket page_one) (ticket k)
run-Trace_example =
    run-Trace then_answered leased 2 page_one (reach-IsWellFormed one_leased) row-leased
      (refl, (refl, (refl, tt)))

abbrev answered_one : Job
answered_one = record page_one {
  state = State.done;
  attempts = 2;
  lease_owner = none;
  lease_until = none;
  finished_at = some 310;
}

row-answered : row 2 (run then_answered leased).job ≡ some answered_one
unfolding program
row-answered = refl

answered-IsWellFormed : IsWellFormed (run then_answered leased)
unfolding run
answered-IsWellFormed = reach-IsWellFormed (
    register 90 "w" "dots" dots_key
    ∷ seed 100 "dots" two_pages []
    ∷ claim 200 "w" "dots" 1 60
    ∷ then_answered)

run-over_example :
    (k : Job) × (row 2 (run (claim 400 "w" "dots" 5 60 ∷ []) (run then_answered leased)).job
      ≡ some k)
    × (ticket k ≡ ticket answered_one)
run-over_example =
    run-over (claim 400 "w" "dots" 5 60 ∷ []) (run then_answered leased) 2 answered_one
      answered-IsWellFormed row-answered (refl, tt) refl
