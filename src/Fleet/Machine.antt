-- ===== src/Fleet/Machine.antt =====
-- tools/fleet/pagequeue.py, the page queue as a machine: each call that writes the file, run on the
-- file that the calls before it left. A call carries the time at which it is made.
pub mod Invariant
pub mod Attempts
pub mod Ticket
pub mod Rows
pub mod Refines
pub mod Trace
mod Tests
use docket_yard.Prelude.{ℕ, String, Bool, List, [], ◌∷◌}
use docket_yard.Fleet.Rows.{Queue, Producer}
use docket_yard.Fleet.Lease
use docket_yard.Fleet.Lease.{Result, ok, err}
use docket_yard.Fleet.Answers
use docket_yard.Fleet.Documents

pub data Call : Type 0 where
  register : (t : ℕ) (name pass : String) (producer : Producer) → Call
  reap : (t : ℕ) → Call
  claim : (t : ℕ) (worker pass : String) (n lease_seconds : ℕ) → Call
  extend : (t : ℕ) (worker : String) (job_ids : List ℕ) (lease_seconds : ℕ) → Call
  release : (worker : String) (job_ids : List ℕ) → Call
  done : (t : ℕ) (worker : String) (job_id : ℕ) (raw : String) → Call
  fail : (t : ℕ) (worker : String) (job_id : ℕ) (error : String) (final : Bool) → Call
  cmd_fail : (t job : ℕ) (error : String) (by_page : Bool) → Call
  seed : (t : ℕ) (pass : String) (pages : List (String × ℕ)) (reread : List String) → Call
  mark_collected :
      (pass sha : String) (ran_at : ℕ) (outcome : String) (pages_read pages_failed : ℕ) → Call

-- The file that a call leaves. One that raises leaves it as it was.
pub perform : Call → Queue → Queue
perform (register t name pass producer) q = elim (Lease.register t name pass producer q) [
  | ok q' ↦ q'
  | err e ↦ q
]
perform (reap t) q = (Lease.reap t q).1
perform (claim t worker pass n lease_seconds) q = (Lease.claim t worker pass n lease_seconds q).1
perform (extend t worker job_ids lease_seconds) q = Lease.extend t worker job_ids lease_seconds q
perform (release worker job_ids) q = Lease.release worker job_ids q
perform (done t worker job_id raw) q = (Answers.done t worker job_id raw q).1
perform (fail t worker job_id error final) q = (Answers.fail t worker job_id error final q).1
perform (cmd_fail t job error by_page) q = (Answers.cmd_fail t job error by_page q).1
perform (seed t pass pages reread) q = (Documents.seed t pass pages reread q).1
perform (mark_collected pass sha ran_at outcome pages_read pages_failed) q =
    Documents.mark_collected pass sha ran_at outcome pages_read pages_failed q

pub run : List Call → Queue → Queue
run [] q = q
run (c ∷ cs) q = run cs (perform c q)
