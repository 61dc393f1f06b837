-- ===== src/Fleet/Rows/Sound.antt =====
-- The invariant of the queue's file, and the updates of single rows that keep it.
use docket_yard.Prelude.{
  ℕ, ◌≤◌, ◌<◌, String, ◌≡◌, refl, sym, ap, ◌∙◌, Bool, true, ◌&&◌, none, some, List, [], ◌∷◌, map,
  arith, All, All-imp, All-imp₂, All-of_map, All-map-imp, map-map-eq, Distinct, Bool-cases, inl,
  inr, ◌==◌, if◌then◌else◌,
}
use docket_yard.Prelude.Table.{any, any-map-eq, update_where, find, All-find, Distinct-key}
use mathlib.Core.Path.{subst}
use mathlib.Core.Option
use docket_yard.Fleet.Rows.{
  has_id, row, Job, Reading, Queue, is_pending, is_leased, is_done, is_failed, is_some,
}

-- What every row of `job` keeps to.
pub record IsSound (j : Job) : Type 0 where
  pub within : j.attempts ≤ j.max_attempts
  pub attempt_left : is_pending j.state ≡ true → j.attempts < j.max_attempts
  pub attempt_spent : is_leased j.state ≡ true → 0 < j.attempts
  pub owner_iff : is_some j.lease_owner ≡ is_leased j.state
  pub until_iff : is_some j.lease_until ≡ is_leased j.state
  pub no_error : is_done j.state ≡ true → j.error ≡ none
  pub explained : is_failed j.state ≡ true → is_some j.error ≡ true

-- The columns of the UNIQUE constraint.
abbrev pub page_key : Job → String × String × ℕ
page_key j = (j.pass, j.document_sha256, j.page_no)

abbrev pub answers : ℕ → Reading → Bool
answers i r = r.job_id == i

abbrev pub is_done_as : ℕ → Job → Bool
is_done_as i j = (j.job_id == i) && is_done j.state

-- The tables together: rows are sound, keys are unique, and `result` holds an answer for exactly
-- the pages that are done.
pub record TablesFit (jobs : List Job) (results : List Reading) : Type 0 where
  pub rows : All IsSound jobs
  pub ids : Distinct (map (λ (j : Job). j.job_id) jobs)
  pub keys : Distinct (map page_key jobs)
  pub answered : All (λ j. is_done j.state ≡ true → any (answers j.job_id) results ≡ true) jobs
  pub earned : All (λ r. any (is_done_as r.job_id) jobs ≡ true) results

abbrev pub IsWellFormed : Queue → Type 0
IsWellFormed q = TablesFit q.job q.result

-- A row that becomes another and stays the same page, done or not.
pub record Keeps (j k : Job) : Type 0 where
  pub id : k.job_id ≡ j.job_id
  pub key : page_key k ≡ page_key j
  pub done : is_done k.state ≡ is_done j.state
  pub sound : IsSound j → IsSound k

pub Keeps-self : (j : Job) → Keeps j j
Keeps-self j = record { id = refl; key = refl; done = refl; sound = λ s. s }

module _ (p : Job → Bool) (f : Job → Job) where
  abbrev pub written : Job → Job
  written j = if p j then f j else j

  Keeps-written : (j : Job) → (p j ≡ true → Keeps j (f j)) → Keeps j (written j)
  Keeps-written j h = elim (Bool-cases (p j)) [ inl e ↦ rw e (h e) | inr e ↦ rw e (Keeps-self j) ]

  -- An UPDATE keeps the tables fit if it keeps each row that it takes.
  pub update-TablesFit :
      (jobs : List Job) (results : List Reading)
      → All (λ j. p j ≡ true → Keeps j (f j)) jobs
      → TablesFit jobs results
      → TablesFit (update_where p f jobs) results
  update-TablesFit jobs results h fit =
      let kept : All (λ j. Keeps j (written j)) jobs = All-imp _ _ jobs Keeps-written h in
      record {
        rows =
            All-map-imp IsSound IsSound written jobs (All-imp _ _ jobs (λ j k. k.sound) kept)
              fit.rows;
        ids =
            rw (map-map-eq (λ j. j.job_id) written jobs (All-imp _ _ jobs (λ j k. k.id) kept))
              fit.ids;
        keys =
            rw (map-map-eq page_key written jobs (All-imp _ _ jobs (λ j k. k.key) kept)) fit.keys;
        answered =
            All-map-imp _ _ written jobs
              (All-imp _ _ jobs (λ j k a d. rw k.id (a (sym k.done ∙ d))) kept) fit.answered;
        earned =
            All-imp _ _ results
              (λ r e.
                any-map-eq (is_done_as r.job_id) written jobs
                  (All-imp _ _ jobs (λ j k. rw (k.id, k.done)) kept)
                ∙ e)
              fit.earned;
      }

-- The row of a number, after a change that keeps the numbers.
pub row-map :
    (g : Job → Job) (i : ℕ) (jobs : List Job)
    → ((j : Job) → (g j).job_id ≡ j.job_id)
    → row i (map g jobs) ≡ Option.map g (row i jobs)
row-map g i [] h = refl
row-map g i (j ∷ jobs) h =
    let same : has_id i (g j) ≡ has_id i j = ap (λ n. n == i) (h j) in
    elim (Bool-cases (has_id i j)) [
      | inl found ↦ rw (found, same ∙ found)
      | inr other ↦ rw (other, same ∙ other) (row-map g i jobs h)
    ]

pub row-update :
    (p : Job → Bool) (f : Job → Job) (i : ℕ) (jobs : List Job)
    → ((j : Job) → (f j).job_id ≡ j.job_id)
    → row i (update_where p f jobs) ≡ Option.map (written p f) (row i jobs)
row-update p f i jobs h = row-map (written p f) i jobs (λ j. ground (arith, h j))

-- What holds of every row holds of the row of a number.
pub row-of_All :
    (P : Job → Type 0) (i : ℕ) (jobs : List Job) (j : Job) → All P jobs → row i jobs ≡ some j → P j
row-of_All P i [] j h e = cc
row-of_All P i (k ∷ jobs) j h e = elim (Bool-cases (has_id i k)) [
  | inl found ↦ let same : k ≡ j = ground arith in subst P same h.0
  | inr other ↦ row-of_All P i jobs j h.1 (rw other at e)
]

pub row_id : (i : ℕ) (jobs : List Job) (j : Job) → row i jobs ≡ some j → j.job_id ≡ i
row_id i [] j e = cc
row_id i (k ∷ jobs) j e = elim (Bool-cases (has_id i k)) [
  | inl found ↦ ground arith
  | inr other ↦ row_id i jobs j (rw other at e)
]

-- With unique numbers, each row is the row of its number.
pub row_self :
    (jobs : List Job)
    → Distinct (map (λ (j : Job). j.job_id) jobs)
    → All (λ j. row j.job_id jobs ≡ some j) jobs
row_self [] d = tt
row_self (j ∷ jobs) d = (
  ground arith,
  All-imp₂ _ _ _ jobs (λ k e apart. ground (arith, e)) (row_self jobs d.1)
      (All-of_map _ _ jobs d.0),
)

-- The row that a SELECT by number finds is every row of that number.
pub find-only :
    (p : Job → Bool) (jobs : List Job) (r : Job)
    → Distinct (map (λ (j : Job). j.job_id) jobs)
    → find p jobs ≡ some r
    → All (λ j. j.job_id ≡ r.job_id → j ≡ r) jobs
find-only p jobs r d e =
    All-imp _ _ jobs (λ j same. All-find (λ y. j.job_id ≡ y.job_id → j ≡ y) p jobs r e same)
      (Distinct-key (λ (j : Job). j.job_id) jobs d)

-- The row of a number is the only one of that number.
pub row-only :
    (i : ℕ) (jobs : List Job) (k : Job)
    → Distinct (map (λ (j : Job). j.job_id) jobs)
    → row i jobs ≡ some k
    → All (λ j. j.job_id ≡ i → j ≡ k) jobs
row-only i jobs k d e =
    All-imp _ _ jobs
      (λ j same at.
        row-of_All (λ y. j.job_id ≡ y.job_id → j ≡ y) i jobs k same e
          (at ∙ sym (row_id i jobs k e)))
      (Distinct-key (λ (j : Job). j.job_id) jobs d)
