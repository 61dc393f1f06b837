-- ===== src/Fleet/Answers/Keeps.antt =====
-- `Queue.done`, `Queue.fail` and `cmd_fail` of tools/fleet/pagequeue.py keep the file well formed.
use docket_yard.Prelude.{
  ℕ, ◌≡◌, refl, sym, ◌∙◌, String, Bool, true, not, ◌&&◌, ◌||◌, some, List, [], ◌∷◌, map, arith,
  All-imp, All-intro, All-append, All-map-imp, map-map-eq, Bool-cases, Option-cases, inl, inr, ◌==◌,
  leb, if◌then◌else◌,
}
use docket_yard.Prelude.Table.{
  any, find, update_where, delete_where, any-append, any-map-true, All-select, find-true,
}
use docket_yard.Fleet.Rows.{Job, Reading, Queue, has_id}
use docket_yard.Fleet.Rows.Sound.{
  IsSound, IsWellFormed, TablesFit, Keeps, written, answers, is_done_as, page_key, update-TablesFit,
  find-only,
}
use mathlib.Core.Path.{subst}
use docket_yard.Prelude.Text.{starts_with}
use docket_yard.Fleet.Passes.{page_owned}
use docket_yard.Fleet.Lease.{holds}
use docket_yard.Fleet.Answers.{
  put_answer, done_row, done, fail_row, fail, is_open, cmd_fail_row, cmd_fail,
}

-- The pages that have an answer once one is put.
any-put_answer :
    (r : Reading) (rs : List Reading) (i : ℕ)
    → any (answers i) (put_answer r rs) ≡ (if r.job_id == i then true else any (answers i) rs)
any-put_answer r rs i =
    any-append (answers i) (delete_where (answers r.job_id) rs) (r ∷ []) ∙ left rs
  where
    left :
        (xs : List Reading)
        → (any (answers i) (delete_where (answers r.job_id) xs) || any (answers i) (r ∷ []))
          ≡ (if r.job_id == i then true else any (answers i) xs)
    left [] = ground arith
    left (x ∷ xs) = ground (arith, left xs)

done_row-IsSound :
    (t : ℕ) (i : ℕ) (j : Job) → IsSound j → IsSound (written (has_id i) (done_row t) j)
done_row-IsSound t i j s = ground arith

module _ (t i : ℕ) (worker raw : String) (q : Queue) (w : IsWellFormed q) where
  abbrev answer : Reading
  answer = record { job_id = i; worker = worker; raw = raw; finished_at = t }

  abbrev marked : Job → Job
  marked = written (has_id i) (done_row t)

  marked-TablesFit :
      any (holds worker i) q.job ≡ true → TablesFit (map marked q.job) (put_answer answer q.result)
  marked-TablesFit own = record {
    rows = All-map-imp _ _ marked q.job (All-intro _ q.job (done_row-IsSound t i)) w.rows;
    ids =
        rw (map-map-eq (λ j. j.job_id) marked q.job (All-intro _ q.job (λ j. ground arith))) w.ids;
    keys = rw (map-map-eq page_key marked q.job (All-intro _ q.job (λ j. ground arith))) w.keys;
    answered =
        All-map-imp _ _ marked q.job
          (All-intro _ q.job
            (λ j before now. ground (arith, any-put_answer answer q.result j.job_id, before)))
          w.answered;
    earned =
        All-append _ _ (answer ∷ [])
          (All-imp _ _ _
            (λ r e.
              any-map-true (is_done_as r.job_id) (is_done_as r.job_id) marked q.job
                (All-intro _ q.job (λ j h. ground arith)) e)
            (All-select _ (λ r. not (answers i r)) q.result w.earned))
          (
            any-map-true (holds worker i) (is_done_as i) marked q.job
                (All-intro _ q.job (λ j h. ground arith)) own,
            tt,
          );
  }

pub done-IsWellFormed :
    (t : ℕ) (worker : String) (job_id : ℕ) (raw : String) (q : Queue)
    → IsWellFormed q
    → IsWellFormed (done t worker job_id raw q).1
unfolding done
done-IsWellFormed t worker job_id raw q w = elim (Bool-cases (any (holds worker job_id) q.job)) [
  | inl own ↦ rw own (marked-TablesFit t job_id worker raw q w own)
  | inr lost ↦ rw lost w
]

fail_row-Keeps :
    (t : ℕ) (worker : String) (i : ℕ) (error : String) (final : Bool) (r : Job)
    → holds worker i r ≡ true
    → Keeps r (fail_row t (final || leb r.max_attempts r.attempts) error r)
fail_row-Keeps t worker i error final r h = record {
  id = refl;
  key = refl;
  done = ground arith;
  sound = λ s. ground arith;
}

fail_found-TablesFit :
    (t : ℕ) (worker : String) (i : ℕ) (error : String) (final : Bool) (q : Queue) (r : Job)
    → IsWellFormed q
    → find (holds worker i) q.job ≡ some r
    → TablesFit
        (update_where (has_id i) (fail_row t (final || leb r.max_attempts r.attempts) error) q.job)
        q.result
fail_found-TablesFit t worker i error final q r w e =
    let held : holds worker i r ≡ true = find-true (holds worker i) q.job r e in
    update-TablesFit (has_id i) (fail_row t (final || leb r.max_attempts r.attempts) error) q.job
      q.result
      (All-imp (λ j. j.job_id ≡ r.job_id → j ≡ r) _ q.job
        (λ j only at.
          let same : j ≡ r = only (ground arith) in
          subst (λ k. Keeps k (fail_row t (final || leb r.max_attempts r.attempts) error k))
            (sym same) (fail_row-Keeps t worker i error final r held))
        (find-only (holds worker i) q.job r w.ids e))
      w

pub fail-IsWellFormed :
    (t : ℕ) (worker : String) (job_id : ℕ) (error : String) (final : Bool) (q : Queue)
    → IsWellFormed q
    → IsWellFormed (fail t worker job_id error final q).1
unfolding fail
fail-IsWellFormed t worker job_id error final q w =
    elim (Option-cases (find (holds worker job_id) q.job)) [
      | inl e ↦ rw (e, fail) w
      | inr (r, e) ↦
          rw (e, fail)
            (elim (Bool-cases (final && not (starts_with page_owned error))) [
              | inl bad ↦ rw bad w
              | inr good ↦ rw good (fail_found-TablesFit t worker job_id error final q r w e)
            ])
    ]

cmd_fail_row-Keeps :
    (t i : ℕ) (said : String) (j : Job) → is_open i j ≡ true → Keeps j (cmd_fail_row t said j)
cmd_fail_row-Keeps t i said j h = record {
  id = refl;
  key = refl;
  done = ground arith;
  sound = λ s. ground arith;
}

pub cmd_fail-IsWellFormed :
    (t job : ℕ) (error : String) (by_page : Bool) (q : Queue)
    → IsWellFormed q
    → IsWellFormed (cmd_fail t job error by_page q).1
unfolding cmd_fail
cmd_fail-IsWellFormed t job error by_page q =
    update-TablesFit (is_open job) _ q.job q.result (All-intro _ q.job (cmd_fail_row-Keeps t job _))
