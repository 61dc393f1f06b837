-- ===== src/Fleet/Answers.antt =====
-- tools/fleet/pagequeue.py: what comes back for a page. `Queue.done` and `Queue.fail`, and the
-- operator's `cmd_fail`. `t` is the time of the call.
pub mod Keeps
pub mod Fail
pub mod Lease
pub mod Yield
use docket_yard.Prelude.{
  ℕ, String, Bool, true, false, not, ◌&&◌, ◌||◌, Option, none, some, List, [], ◌∷◌, ◌++◌, leb,
  if◌then◌else◌,
}
use docket_yard.Prelude.Table.{any, count, find, update_where, delete_where}
use docket_yard.Prelude.Text.{join, cut, starts_with}
use docket_yard.Fleet.Rows.{State, Job, Reading, Queue, has_id, is_pending, is_leased}
use docket_yard.Fleet.Rows.Sound.{answers}
use docket_yard.Fleet.Passes.{page_owned}
use docket_yard.Fleet.Lease.{Fault, Result, ok, err, value_error, holds}

-- INSERT OR REPLACE INTO result
abbrev pub put_answer : Reading → List Reading → List Reading
put_answer r rs = delete_where (answers r.job_id) rs ++ r ∷ []

abbrev pub done_row : ℕ → Job → Job
done_row t j = record j {
  state = State.done;
  finished_at = some t;
  lease_owner = none;
  lease_until = none;
  error = none;
}

unfoldable pub done : ℕ → String → ℕ → String → Queue → Bool × Queue
done t worker job_id raw q =
    if any (holds worker job_id) q.job
    then (
      true,
      record q {
        result =
            put_answer (record { job_id = job_id; worker = worker; raw = raw; finished_at = t })
              q.result;
        job = update_where (has_id job_id) (done_row t) q.job;
      },
    )
    else (false, q)

abbrev pub fail_row : ℕ → Bool → String → Job → Job
fail_row t failed error j = record j {
  state = if failed then State.failed else State.pending;
  finished_at = if failed then some t else none;
  error = some (cut 500 error);
  lease_owner = none;
  lease_until = none;
}

-- The body of the transaction once the worker's row is found. A raise rolls back.
abbrev pub fail_found : ℕ → ℕ → String → Bool → Job → Queue → Result (Unit {0}) × Queue
fail_found t job_id error final found q =
    let failed = final || leb found.max_attempts found.attempts in
    if final && not (starts_with page_owned error)
    then (err value_error, q)
    else (ok tt, record q { job = update_where (has_id job_id) (fail_row t failed error) q.job })

unfoldable pub fail : ℕ → String → ℕ → String → Bool → Queue → Result (Unit {0}) × Queue
fail t worker job_id error final q = elim (find (holds worker job_id) q.job) [
  | none ↦ (ok tt, q)
  | some found ↦ fail_found t job_id error final found q
]

abbrev pub is_open : ℕ → Job → Bool
is_open i j = has_id i j && (is_pending j.state || is_leased j.state)

abbrev pub cmd_fail_row : ℕ → String → Job → Job
cmd_fail_row t said j = record j {
  state = State.failed;
  finished_at = some t;
  error = some said;
  lease_owner = none;
  lease_until = none;
}

-- `cmd_fail`, which answers the number of rows that it changed.
unfoldable pub cmd_fail : ℕ → ℕ → String → Bool → Queue → ℕ × Queue
cmd_fail t job error by_page q =
    let prefix = if by_page then join page_owned " operator: " else "operator: " in
    let said = cut 500 (join prefix error) in
    (
      count (is_open job) q.job,
      record q { job = update_where (is_open job) (cmd_fail_row t said) q.job },
    )
