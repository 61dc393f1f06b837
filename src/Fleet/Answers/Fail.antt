-- ===== src/Fleet/Answers/Fail.antt =====
-- `Queue.fail` of tools/fleet/pagequeue.py: what becomes of the page, and whose the failure is.
use mathlib.Core.Option
use text.Mathlib.TextPositions.{eq_refl}
use docket_yard.Prelude.{
  ℕ, ◌≡◌, ◌≢◌, refl, sym, ◌∙◌, String, Bool, true, false, not, ◌&&◌, some, none, List, [], ◌∷◌,
  arith, leb, ltb, Bool-cases, Option-cases, inl, inr, if◌then◌else◌,
}
use docket_yard.Prelude.Table.{find}
use docket_yard.Prelude.Text.{
  cut, starts_with, like_prefix, starts_with-cut, like_prefix-starts_with,
}
use docket_yard.Fleet.Rows.{State, Job, Queue, row, has_id, is_failed}
use docket_yard.Fleet.Rows.Sound.{row-update, row_id}
use docket_yard.Fleet.Passes.{page_owned}
use docket_yard.Fleet.Lease.{ok, err, value_error, holds, waiting}
use docket_yard.Fleet.Answers.{fail_row, fail}
use docket_yard.Fleet.Documents.{foreign}

-- The row that the SELECT by worker finds is the row of the number.
find-row :
    (worker : String) (i : ℕ) (jobs : List Job) (r : Job)
    → row i jobs ≡ some r
    → holds worker i r ≡ true
    → find (holds worker i) jobs ≡ some r
find-row worker i [] r e h = cc
find-row worker i (j ∷ jobs) r e h = elim (Bool-cases (has_id i j)) [
  | inl at ↦ let same : j ≡ r = ground arith in rw (same, h)
  | inr other ↦ rw other (find-row worker i jobs r (rw other at e) h)
]

module _ (t : ℕ) (worker : String) (i : ℕ) (error : String) (q : Queue) (r : Job)
    (at : row i q.job ≡ some r) (held : holds worker i r ≡ true) where
  -- The row that a failure which is not final leaves of each number.
  pub fail-row :
      (other : ℕ)
      → ((fail t worker i error false q).0 ≡ ok tt)
        × (row other (fail t worker i error false q).1.job
            ≡ Option.map
                (λ j. if has_id i j then fail_row t (leb r.max_attempts r.attempts) error j else j)
                (row other q.job))
  unfolding fail
  fail-row other =
      rw (find-row worker i q.job r at held, fail)
        (refl, row-update (has_id i) _ other q.job (λ j. refl))

  mine : has_id i r ≡ true
  mine = ground arith

  untouched :
      (b : Bool) (other : ℕ)
      → other ≢ i
      → Option.map (λ j. if has_id i j then fail_row t b error j else j) (row other q.job)
        ≡ row other q.job
  untouched b other apart = elim (Option-cases (row other q.job)) [
    | inl none_there ↦ rw none_there
    | inr (j, there) ↦
        let number = row_id other q.job j there in
        let not_mine : has_id i j ≡ false = elim (Bool-cases (has_id i j)) [
          | inr no_hit ↦ no_hit
          | inl hit ↦ absurd (apart (sym number ∙ ground arith))
        ] in
        rw (there, not_mine)
  ]

  -- A failure that is not final, from the worker that holds the page, is taken: the page's lease is
  -- gone and no attempt is given back; the page waits for a claim of its pass exactly while an attempt
  -- is left, and is failed exactly if none is; its error is the one given, cut to 500 characters, and
  -- makes the document one to be read again exactly if the page is failed and that error is not the
  -- page's own. No page of another number changes.
  pub fail-retry :
      (other : ℕ)
      → other ≢ i
      → ((fail t worker i error false q).0 ≡ ok tt)
        × (row other (fail t worker i error false q).1.job ≡ row other q.job)
        × (k : Job) × (row i (fail t worker i error false q).1.job ≡ some k)
        × (k.attempts ≡ r.attempts)
        × (k.lease_owner ≡ none)
        × (k.error ≡ some (cut 500 error))
        × (waiting r.pass k ≡ ltb r.attempts r.max_attempts)
        × (is_failed k.state ≡ not (ltb r.attempts r.max_attempts))
        × (foreign k
            ≡ (not (ltb r.attempts r.max_attempts) && not (like_prefix page_owned (cut 500 error))))
  fail-retry other apart =
      let failed = leb r.max_attempts r.attempts in
      let spent : failed ≡ not (ltb r.attempts r.max_attempts) = ground arith in
      let taken = fail-row i in
      let same_pass = eq_refl r.pass in
      (
        taken.0,
        (fail-row other).1 ∙ untouched failed other apart,
        fail_row t failed error r,
        taken.1 ∙ rw (at, mine),
        refl,
        refl,
        refl,
        ground (arith, same_pass),
        ground arith,
        ground arith,
      )

  -- A final failure of the page that the worker holds is taken exactly if the error says that it is the
  -- page's own: then the page is failed at once, whatever attempts are left, with that error cut to 500
  -- characters, its lease is gone and no attempt is given back, and it does not make its document one
  -- to be read again. One that does not say so is refused and changes nothing.
  pub fail-final :
      (starts_with page_owned error ≡ true
        → ((fail t worker i error true q).0 ≡ ok tt)
          × (k : Job) × (row i (fail t worker i error true q).1.job ≡ some k)
          × (k.state ≡ State.failed)
          × (k.error ≡ some (cut 500 error))
          × (k.attempts ≡ r.attempts)
          × (k.lease_owner ≡ none)
          × (foreign k ≡ false))
      × (starts_with page_owned error ≡ false → fail t worker i error true q ≡ (err value_error, q))
  unfolding fail
  fail-final = (
    λ own.
        let ours : like_prefix page_owned (cut 500 error) ≡ true =
          like_prefix-starts_with page_owned (cut 500 error)
            (starts_with-cut page_owned error 500 (omega arith) own) in
        rw (find-row worker i q.job r at held, fail, own)
          (
            refl,
            fail_row t true error r,
            row-update (has_id i) (fail_row t true error) i q.job (λ j. refl) ∙ rw (at, mine),
            refl,
            refl,
            refl,
            refl,
            rw ours,
          ),
    λ foreign. rw (find-row worker i q.job r at held, fail, foreign),
  )
