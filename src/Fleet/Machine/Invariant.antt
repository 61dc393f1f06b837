-- ===== src/Fleet/Machine/Invariant.antt =====
-- tools/fleet/pagequeue.py: what every file is that calls have made.
use docket_yard.Prelude.{ℕ, ◌≡◌, String, List, [], ◌∷◌, arith}
use docket_yard.Fleet.Rows.{Queue, Producer, empty}
use docket_yard.Fleet.Rows.Sound.{IsWellFormed}
use docket_yard.Fleet.Lease
use docket_yard.Fleet.Lease.Keeps.{reap-IsWellFormed, extend-IsWellFormed, release-IsWellFormed}
use docket_yard.Fleet.Lease.Claim.{claim-IsWellFormed}
use docket_yard.Fleet.Answers.Keeps.{done-IsWellFormed, fail-IsWellFormed, cmd_fail-IsWellFormed}
use docket_yard.Fleet.Documents.Keeps.{seed-IsWellFormed, mark_collected-IsWellFormed}
use docket_yard.Fleet.Machine.{
  Call, register, reap, claim, extend, release, done, fail, cmd_fail, seed, mark_collected, perform,
  run,
}

pub register-tables :
    (t : ℕ) (name pass : String) (producer : Producer) (q : Queue)
    → ((perform (register t name pass producer) q).job ≡ q.job)
      × ((perform (register t name pass producer) q).result ≡ q.result)
unfolding perform Lease.register
register-tables t name pass producer q = ground arith

register-IsWellFormed :
    (t : ℕ) (name pass : String) (producer : Producer) (q : Queue)
    → IsWellFormed q
    → IsWellFormed (perform (register t name pass producer) q)
register-IsWellFormed t name pass producer q w =
    let same = register-tables t name pass producer q in rw (same.0, same.1) w

pub perform-IsWellFormed : (c : Call) (q : Queue) → IsWellFormed q → IsWellFormed (perform c q)
unfolding perform
perform-IsWellFormed (register t name pass producer) q w =
    register-IsWellFormed t name pass producer q w
perform-IsWellFormed (reap t) q w = reap-IsWellFormed t q w
perform-IsWellFormed (claim t worker pass n lease_seconds) q w =
    claim-IsWellFormed t worker pass n lease_seconds q w
perform-IsWellFormed (extend t worker job_ids lease_seconds) q w =
    extend-IsWellFormed t worker job_ids lease_seconds q w
perform-IsWellFormed (release worker job_ids) q w = release-IsWellFormed worker job_ids q w
perform-IsWellFormed (done t worker job_id raw) q w = done-IsWellFormed t worker job_id raw q w
perform-IsWellFormed (fail t worker job_id error final) q w =
    fail-IsWellFormed t worker job_id error final q w
perform-IsWellFormed (cmd_fail t job error by_page) q w =
    cmd_fail-IsWellFormed t job error by_page q w
perform-IsWellFormed (seed t pass pages reread) q w = seed-IsWellFormed t pass pages reread q w
perform-IsWellFormed (mark_collected pass sha ran_at outcome pages_read pages_failed) q w =
    mark_collected-IsWellFormed pass sha ran_at outcome pages_read pages_failed q w

run-IsWellFormed : (cs : List Call) (q : Queue) → IsWellFormed q → IsWellFormed (run cs q)
unfolding run
run-IsWellFormed [] q w = w
run-IsWellFormed (c ∷ cs) q w = run-IsWellFormed cs (perform c q) (perform-IsWellFormed c q w)

-- Whatever calls are made on an empty file, by whomever, in whatever order and at whatever times,
-- the file is well formed: attempts stay within their bound, a waiting page has one left and a
-- leased page has spent one; a page has an owner and a lease's end exactly while it is leased; page
-- keys and job numbers are unique; a failed page says why; and `result` holds an answer for
-- exactly the pages that are done.
pub reach-IsWellFormed : (cs : List Call) → IsWellFormed (run cs empty)
reach-IsWellFormed cs =
    run-IsWellFormed cs empty
      (record { rows = tt; ids = tt; keys = tt; answered = tt; earned = tt })
