-- ===== src/Prelude/Sort.antt =====
-- `ORDER BY`: a stable insertion sort under a Boolean order, and what sorting keeps.
use Prim.Native.Nat.{ℕ, zero, suc}
use mathlib.Core.Path.{◌≡◌, refl, sym}
use mathlib.Core.Logic.{◌≢◌, inl, inr}
use mathlib.Core.Bool.{Bool}
use mathlib.Core.List.{List, [], ◌∷◌, map}
use native.Mathlib.Omega.{arith}
use docket_yard.Prelude.Tests.{if◌then◌else◌, Bool-cases}
use docket_yard.Prelude.Lists.{All, All-take, All-of_map, Distinct, length, take}
use docket_yard.Prelude.Table.{select, All-select}

module _ {ℓ} {A : Type ℓ} (before : A → A → Bool) where
  -- `x` goes ahead of the first item that it is ordered before.
  abbrev pub insert_by : A → List A → List A
  insert_by x [] = x ∷ []
  insert_by x (y ∷ ys) = let rest = insert_by x ys in if before x y then x ∷ y ∷ ys else y ∷ rest

  abbrev pub sort_by : List A → List A
  sort_by [] = []
  sort_by (x ∷ xs) = insert_by x (sort_by xs)

  length-insert_by : (x : A) (ys : List A) → length (insert_by x ys) ≡ suc (length ys)
  length-insert_by x [] = refl
  length-insert_by x (y ∷ ys) = ground (arith, length-insert_by x ys)

  pub length-sort_by : (xs : List A) → length (sort_by xs) ≡ length xs
  length-sort_by [] = refl
  length-sort_by (x ∷ xs) = omega (arith, length-sort_by xs, length-insert_by x (sort_by xs))

module _ {ℓ κ} {A : Type ℓ} (P : A → Type κ) (before : A → A → Bool) where
  All-insert_by : (x : A) (ys : List A) → P x → All P ys → All P (insert_by before x ys)
  All-insert_by x [] hx h = (hx, tt)
  All-insert_by x (y ∷ ys) hx h = elim (Bool-cases (before x y)) [
    | inl e ↦ rw (e, insert_by) (hx, h)
    | inr e ↦ rw (e, insert_by) (h.0, All-insert_by x ys hx h.1)
  ]

  pub All-sort_by : (xs : List A) → All P xs → All P (sort_by before xs)
  All-sort_by [] h = tt
  All-sort_by (x ∷ xs) h = All-insert_by x (sort_by before xs) h.0 (All-sort_by xs h.1)

-- No two items share a key.
abbrev pub DistinctOn {ℓ κ} : {A : Type ℓ} {B : Type κ} → (A → B) → List A → Type κ
DistinctOn g [] = Unit
DistinctOn g (x ∷ xs) = All (λ y. g x ≢ g y) xs × DistinctOn g xs

module _ {ℓ κ} {A : Type ℓ} {B : Type κ} (g : A → B) where
  pub DistinctOn-of_map : (xs : List A) → Distinct (map g xs) → DistinctOn g xs
  DistinctOn-of_map [] d = tt
  DistinctOn-of_map (x ∷ xs) d = (All-of_map _ g xs d.0, DistinctOn-of_map xs d.1)

  pub DistinctOn-select :
      (p : A → Bool) (xs : List A) → DistinctOn g xs → DistinctOn g (select p xs)
  DistinctOn-select p [] d = tt
  DistinctOn-select p (x ∷ xs) d = elim (Bool-cases (p x)) [
    | inl e ↦ rw e (All-select _ p xs d.0, DistinctOn-select p xs d.1)
    | inr e ↦ rw e (DistinctOn-select p xs d.1)
  ]

  pub DistinctOn-take : (n : ℕ) (xs : List A) → DistinctOn g xs → DistinctOn g (take n xs)
  DistinctOn-take zero xs d = tt
  DistinctOn-take (suc n) [] d = tt
  DistinctOn-take (suc n) (x ∷ xs) d = (All-take _ n xs d.0, DistinctOn-take n xs d.1)

  DistinctOn-insert_by :
      (before : A → A → Bool) (x : A) (ys : List A)
      → All (λ y. g x ≢ g y) ys
      → DistinctOn g ys
      → DistinctOn g (insert_by before x ys)
  DistinctOn-insert_by before x [] h d = (tt, tt)
  DistinctOn-insert_by before x (y ∷ ys) h d = elim (Bool-cases (before x y)) [
    | inl e ↦ rw (e, insert_by) (h, d)
    | inr e ↦
        rw (e, insert_by)
          (
            All-insert_by (λ z. g y ≢ g z) before x ys (λ same. h.0 (sym same)) d.0,
            DistinctOn-insert_by before x ys h.1 d.1,
          )
  ]

  pub DistinctOn-sort_by :
      (before : A → A → Bool) (xs : List A) → DistinctOn g xs → DistinctOn g (sort_by before xs)
  DistinctOn-sort_by before [] d = tt
  DistinctOn-sort_by before (x ∷ xs) d =
      DistinctOn-insert_by before x (sort_by before xs) (All-sort_by (λ y. g x ≢ g y) before xs d.0)
        (DistinctOn-sort_by before xs d.1)
