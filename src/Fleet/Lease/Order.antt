-- ===== src/Fleet/Lease/Order.antt =====
-- The rows that `Queue.claim` picks, and its updates one page at a time as one update.
use docket_yard.Prelude.{
  ℕ, ◌≡◌, refl, sym, ap, ◌∙◌, ◌≢◌, String, Bool, true, false, List, [], ◌∷◌, map, arith, All,
  All-imp, All-take, Distinct, Bool-cases, inl, inr, if◌then◌else◌,
}
use docket_yard.Prelude.Table.{
  any, select, update_where, executemany, All-select, All-select_self, Distinct-key,
}
use docket_yard.Prelude.Sort.{
  All-sort_by, DistinctOn, DistinctOn-of_map, DistinctOn-select, DistinctOn-take,
  DistinctOn-sort_by,
}
use docket_yard.Fleet.Rows.{Job, has_id}
use docket_yard.Fleet.Lease.{picked, waiting, ahead}

-- The row is one of those picked, by its number.
abbrev pub among : List Job → Job → Bool
among rows j = any (λ (r : Job). has_id r.job_id j) rows

module _ (P : Job → Type 0) (pass : String) (n : ℕ) (jobs : List Job) where
  pub All-picked : All P jobs → All P (picked pass n jobs)
  All-picked h =
      All-take P n _ (All-sort_by P ahead (select (waiting pass) jobs) (All-select P _ jobs h))

pub picked-waiting :
    (pass : String) (n : ℕ) (jobs : List Job)
    → All (λ j. waiting pass j ≡ true) (picked pass n jobs)
picked-waiting pass n jobs =
    All-take _ n _
      (All-sort_by _ ahead (select (waiting pass) jobs) (All-select_self (waiting pass) jobs))

-- A row that shares its number with one of `rows` has what they all have.
of_among :
    (P : Job → Type 0) (j : Job) (rows : List Job)
    → All (λ (r : Job). j.job_id ≡ r.job_id → j ≡ r) rows
    → All P rows
    → among rows j ≡ true
    → P j
of_among P j [] same h e = absurd (ground arith)
of_among P j (r ∷ rows) same h e = elim (Bool-cases (has_id r.job_id j)) [
  | inl found ↦ rw (same.0 (ground arith)) h.0
  | inr other ↦ of_among P j rows same.1 h.1 (rw other at e)
]

-- With unique numbers, what is picked by number was waiting.
pub among-waiting :
    (pass : String) (n : ℕ) (jobs : List Job)
    → Distinct (map (λ (j : Job). j.job_id) jobs)
    → All (λ j. among (picked pass n jobs) j ≡ true → waiting pass j ≡ true) jobs
among-waiting pass n jobs d =
    All-imp _ _ jobs
      (λ j same.
        of_among (λ k. waiting pass k ≡ true) j (picked pass n jobs)
          (All-picked (λ (r : Job). j.job_id ≡ r.job_id → j ≡ r) pass n jobs same)
          (picked-waiting pass n jobs))
      (Distinct-key (λ (j : Job). j.job_id) jobs d)

-- One update for each of `rows`, as one update: where their numbers differ, no row is met twice.
pub executemany-eq :
    (f : Job → Job)
    → ((j : Job) → (f j).job_id ≡ j.job_id)
    → (rows jobs : List Job) → DistinctOn (λ (r : Job). r.job_id) rows
    → executemany (λ (r : Job). update_where (has_id r.job_id) f) rows jobs
      ≡ update_where (among rows) f jobs
executemany-eq f keeps [] jobs d = sym (update-nothing jobs)
  where
    update-nothing : (js : List Job) → update_where (λ j. false) f js ≡ js
    update-nothing [] = refl
    update-nothing (j ∷ js) = ap (λ k. j ∷ k) (update-nothing js)
executemany-eq f keeps (r ∷ rows) jobs d =
    executemany-eq f keeps rows (update_where (has_id r.job_id) f jobs) d.1 ∙ once jobs
  where
    elsewhere :
        (rs : List Job)
        → All (λ (y : Job). r.job_id ≢ y.job_id) rs
        → (j : Job) → j.job_id ≡ r.job_id
        → among rs j ≡ false
    elsewhere [] h j e = refl
    elsewhere (y ∷ rs) h j e = ground (arith, h.0, elsewhere rs h.1 j e)

    at_row :
        (j : Job)
        → (if among rows (if has_id r.job_id j then f j else j)
            then f (if has_id r.job_id j then f j else j)
            else (if has_id r.job_id j then f j else j))
          ≡ (if among (r ∷ rows) j then f j else j)
    at_row j = elim (Bool-cases (has_id r.job_id j)) [
      | inl e ↦ rw e (rw (elsewhere rows d.0 (f j) (keeps j ∙ ground arith)))
      | inr e ↦ rw e
    ]

    once :
        (js : List Job)
        → update_where (among rows) f (update_where (has_id r.job_id) f js)
          ≡ update_where (among (r ∷ rows)) f js
    once [] = refl
    once (j ∷ js) = rw (at_row j, once js)

pub picked-DistinctOn :
    (pass : String) (n : ℕ) (jobs : List Job)
    → Distinct (map (λ (j : Job). j.job_id) jobs)
    → DistinctOn (λ (r : Job). r.job_id) (picked pass n jobs)
picked-DistinctOn pass n jobs d = DistinctOn-take _ n _ (
    DistinctOn-sort_by _ ahead _
      (DistinctOn-select _ (waiting pass) jobs (DistinctOn-of_map _ jobs d)))
