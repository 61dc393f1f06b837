-- ===== src/Prelude/Table.antt =====
-- SQL over a list of rows: WHERE, COUNT, EXISTS, UPDATE and DELETE. A condition that SQL leaves
-- NULL is `false` here, as it is to a WHERE.
use Prim.Native.Nat.{ℕ, suc, ◌+◌}
use mathlib.Core.Path.{◌≡◌, refl, sym, subst, ap, ◌∙◌}
use mathlib.Core.Logic.{◌≢◌, inl, inr}
use mathlib.Core.Bool.{Bool, true, false, not, ◌&&◌, ◌||◌, false≢true}
use mathlib.Core.Option.{Option, none, some}
use mathlib.Core.List.{List, [], ◌∷◌, ◌++◌, map}
use native.Mathlib.Omega.{arith}
use docket_yard.Prelude.Tests.{if◌then◌else◌, Bool-cases}
use docket_yard.Prelude.Lists.{All, All-append, All-imp, All-map, All-of_map, Distinct, length}

module _ {ℓ} {A : Type ℓ} where
  -- SELECT ... WHERE p
  abbrev pub select : (A → Bool) → List A → List A
  select p [] = []
  select p (x ∷ xs) = let rest = select p xs in if p x then x ∷ rest else rest

  -- SELECT COUNT(*) ... WHERE p
  abbrev pub count : (A → Bool) → List A → ℕ
  count p [] = 0
  count p (x ∷ xs) = let rest = count p xs in if p x then suc rest else rest

  -- SELECT 1 ... WHERE p LIMIT 1
  abbrev pub any : (A → Bool) → List A → Bool
  any p [] = false
  any p (x ∷ xs) = p x || any p xs

  -- `.fetchone()` of a SELECT ... WHERE p
  abbrev pub find : (A → Bool) → List A → Option A
  find p [] = none
  find p (x ∷ xs) = let rest = find p xs in if p x then some x else rest

  abbrev pub all : (A → Bool) → List A → Bool
  all p [] = true
  all p (x ∷ xs) = p x && all p xs

  -- UPDATE ... SET f WHERE p
  abbrev pub update_where : (A → Bool) → (A → A) → List A → List A
  update_where p f = map (λ x. if p x then f x else x)

  -- DELETE ... WHERE p
  abbrev pub delete_where : (A → Bool) → List A → List A
  delete_where p = select (λ x. not (p x))

  -- `executemany`: one statement for each item, in order.
  abbrev pub executemany {κ} : {T : Type κ} → (A → T → T) → List A → T → T
  executemany step [] t = t
  executemany step (x ∷ xs) t = executemany step xs (step x t)

  pub length-select : (p : A → Bool) (xs : List A) → length (select p xs) ≡ count p xs
  length-select p [] = refl
  length-select p (x ∷ xs) = ground (arith, length-select p xs)

  pub count-ext : (p q : A → Bool) (xs : List A) → All (λ x. p x ≡ q x) xs → count p xs ≡ count q xs
  count-ext p q [] h = refl
  count-ext p q (x ∷ xs) h = rw (h.0, count-ext p q xs h.1)

  pub count-append : (p : A → Bool) (xs ys : List A) → count p (xs ++ ys) ≡ count p xs + count p ys
  count-append p [] ys = omega arith
  count-append p (x ∷ xs) ys = ground (arith, count-append p xs ys)

  pub any-false : (p : A → Bool) (xs : List A) → any p xs ≡ false → All (λ x. p x ≡ false) xs
  any-false p [] h = tt
  any-false p (x ∷ xs) h = (ground arith, any-false p xs (ground arith))

  pub any-false_of_All : (p : A → Bool) (xs : List A) → All (λ x. p x ≡ false) xs → any p xs ≡ false
  any-false_of_All p [] h = refl
  any-false_of_All p (x ∷ xs) h = rw (h.0, any-false_of_All p xs h.1)

  pub any-map-eq :
      (p : A → Bool) (f : A → A) (xs : List A)
      → All (λ x. p (f x) ≡ p x) xs
      → any p (map f xs) ≡ any p xs
  any-map-eq p f [] h = refl
  any-map-eq p f (x ∷ xs) h = rw (h.0, any-map-eq p f xs h.1)

  pub any-append : (p : A → Bool) (xs ys : List A) → any p (xs ++ ys) ≡ (any p xs || any p ys)
  any-append p [] ys = refl
  any-append p (x ∷ xs) ys = ground (arith, any-append p xs ys)

  pub any-map-true :
      (p q : A → Bool) (f : A → A) (xs : List A)
      → All (λ x. p x ≡ true → q (f x) ≡ true) xs
      → any p xs ≡ true
      → any q (map f xs) ≡ true
  any-map-true p q f [] h e = e
  any-map-true p q f (x ∷ xs) h e = elim (Bool-cases (p x)) [
    | inl found ↦ rw (h.0 found)
    | inr other ↦ elim (Bool-cases (q (f x))) [
      | inl now ↦ rw now
      | inr still ↦ rw still (any-map-true p q f xs h.1 (rw other at e))
    ]
  ]

  pub find-true : (p : A → Bool) (xs : List A) (x : A) → find p xs ≡ some x → p x ≡ true
  find-true p [] x e = cc
  find-true p (y ∷ xs) x e = elim (Bool-cases (p y)) [
    | inl found ↦ let same : y ≡ x = ground arith in rw same at found
    | inr other ↦ find-true p xs x (rw other at e)
  ]

  pub any-true-imp :
      (p q : A → Bool) (xs : List A)
      → All (λ x. p x ≡ true → q x ≡ true) xs
      → any p xs ≡ true
      → any q xs ≡ true
  any-true-imp p q [] h e = e
  any-true-imp p q (x ∷ xs) h e = elim (Bool-cases (p x)) [
    | inl yes_p ↦ rw (h.0 yes_p)
    | inr no_p ↦ elim (Bool-cases (q x)) [
      | inl yes_q ↦ rw yes_q
      | inr no_q ↦ rw no_q (any-true-imp p q xs h.1 (rw no_p at e))
    ]
  ]

  pub any-of_find :
      (q p : A → Bool) (xs : List A) (x : A) → find q xs ≡ some x → p x ≡ true → any p xs ≡ true
  any-of_find q p [] x e h = cc
  any-of_find q p (y ∷ xs) x e h = elim (Bool-cases (q y)) [
    | inl met ↦ let same : y ≡ x = ground arith in let here : p y ≡ true = rw same h in rw here refl
    | inr other ↦ let rest = any-of_find q p xs x (rw other at e) h in rw rest (ground arith)
  ]

  pub All-select_self : (p : A → Bool) (xs : List A) → All (λ x. p x ≡ true) (select p xs)
  All-select_self p [] = tt
  All-select_self p (x ∷ xs) = elim (Bool-cases (p x)) [
    | inl e ↦ rw (e, select) (e, All-select_self p xs)
    | inr e ↦ rw (e, select) (All-select_self p xs)
  ]

-- What holds of an item holds of one of the list.
module _ {ℓ κ} {A : Type ℓ} {B : Type κ} (f : B → A → Bool) where
  pub All-any : (xs : List A) → All (λ x. (b : B) → f b x ≡ true → any (f b) xs ≡ true) xs
  All-any [] = tt
  All-any (x ∷ xs) = (
    (λ b e. rw e refl),
    All-imp _ _ xs (λ y h b e. let rest = h b e in rw rest (ground arith)) (All-any xs),
  )

module _ {ℓ κ} {A : Type ℓ} (P : A → Type κ) where
  pub All-find : (p : A → Bool) (xs : List A) (x : A) → find p xs ≡ some x → All P xs → P x
  All-find p [] x e h = cc
  All-find p (y ∷ xs) x e h = elim (Bool-cases (p y)) [
    | inl found ↦ let same : y ≡ x = ground arith in subst P same h.0
    | inr other ↦ All-find p xs x (rw other at e) h.1
  ]

  pub All-select : (p : A → Bool) (xs : List A) → All P xs → All P (select p xs)
  All-select p [] h = tt
  All-select p (x ∷ xs) h = elim (Bool-cases (p x)) [
    | inl e ↦ rw e (h.0, All-select p xs h.1)
    | inr e ↦ rw e (All-select p xs h.1)
  ]

  pub All-update :
      (p : A → Bool) (f : A → A) (xs : List A)
      → ((x : A) → p x ≡ true → P x → P (f x))
      → All P xs
      → All P (update_where p f xs)
  All-update p f [] h k = tt
  All-update p f (x ∷ xs) h k = elim (Bool-cases (p x)) [
    | inl e ↦ rw e (h x e k.0, All-update p f xs h k.1)
    | inr e ↦ rw e (k.0, All-update p f xs h k.1)
  ]

-- What an UPDATE does not touch.
module _ {ℓ κ} {A : Type ℓ} {B : Type κ} where
  pub map-update :
      (g : A → B) (p : A → Bool) (f : A → A) (xs : List A)
      → ((x : A) → g (f x) ≡ g x)
      → map g (update_where p f xs) ≡ map g xs
  map-update g p f [] h = refl
  map-update g p f (x ∷ xs) h = elim (Bool-cases (p x)) [
    | inl e ↦ rw (e, h x, map-update g p f xs h)
    | inr e ↦ rw (e, map-update g p f xs h)
  ]

  -- Two rows with one key are one row.
  pub Distinct-key :
      (g : A → B) (xs : List A)
      → Distinct (map g xs)
      → All (λ x. All (λ y. g x ≡ g y → x ≡ y) xs) xs
  Distinct-key g [] d = tt
  Distinct-key g (x ∷ xs) d = (((λ e. refl), fresh xs d.0), older xs d.0 (Distinct-key g xs d.1))
    where
      fresh : (ys : List A) → All (λ b. g x ≢ b) (map g ys) → All (λ y. g x ≡ g y → x ≡ y) ys
      fresh [] h = tt
      fresh (y ∷ ys) h = ((λ e. absurd (h.0 e)), fresh ys h.1)

      older :
          (ys : List A)
          → All (λ b. g x ≢ b) (map g ys)
          → All (λ u. All (λ y. g u ≡ g y → u ≡ y) xs) ys
          → All (λ u. All (λ y. g u ≡ g y → u ≡ y) (x ∷ xs)) ys
      older [] h k = tt
      older (y ∷ ys) h k = (((λ e. absurd (h.0 (sym e))), k.0), older ys h.1 k.1)

-- Keys stay distinct under DELETE, and under the INSERT of a new one.
module _ {ℓ κ} {A : Type ℓ} {B : Type κ} (g : A → B) where
  pub Distinct-select :
      (p : A → Bool) (xs : List A) → Distinct (map g xs) → Distinct (map g (select p xs))
  Distinct-select p [] d = tt
  Distinct-select p (x ∷ xs) d = elim (Bool-cases (p x)) [
    | inl e ↦ rw e (
      All-map _ g (select p xs) (All-select _ p xs (All-of_map _ g xs d.0)),
      Distinct-select p xs d.1,
    )
    | inr e ↦ rw e (Distinct-select p xs d.1)
  ]

  pub Distinct-insert :
      (x : A) (xs : List A)
      → All (λ y. g y ≢ g x) xs
      → Distinct (map g xs)
      → Distinct (map g (xs ++ x ∷ []))
  Distinct-insert x [] h d = (tt, tt)
  Distinct-insert x (y ∷ ys) h d = (
    All-map _ g (ys ++ x ∷ []) (All-append _ ys (x ∷ []) (All-of_map _ g ys d.0) (h.0, tt)),
    Distinct-insert x ys h.1 d.1,
  )

-- What a DELETE leaves of a condition that no deleted row meets.
module _ {ℓ} {A : Type ℓ} where
  pub any-delete_where :
      (p d : A → Bool) (xs : List A)
      → All (λ x. p x ≡ true → d x ≡ false) xs
      → any p (delete_where d xs) ≡ any p xs
  any-delete_where p d [] h = refl
  any-delete_where p d (x ∷ xs) h = elim (Bool-cases (d x)) [
    | inl gone ↦ elim (Bool-cases (p x)) [
      | inl met ↦ absurd (false≢true (sym (h.0 met) ∙ gone))
      | inr unmet ↦ rw (gone, unmet) (any-delete_where p d xs h.1)
    ]
    | inr kept ↦ rw kept (ap (λ b. p x || b) (any-delete_where p d xs h.1))
  ]

-- What `.fetchone()` finds past rows that do not match, past a DELETE, and after an INSERT.
module _ {ℓ} {A : Type ℓ} where
  pub find-none : (p : A → Bool) (xs : List A) → All (λ x. p x ≡ false) xs → find p xs ≡ none
  find-none p [] h = refl
  find-none p (x ∷ xs) h = rw (h.0) (find-none p xs h.1)

  pub find-delete_where :
      (p d : A → Bool) (xs : List A)
      → ((x : A) → p x ≡ true → d x ≡ false)
      → find p (delete_where d xs) ≡ find p xs
  find-delete_where p d [] h = refl
  find-delete_where p d (x ∷ xs) h = elim (Bool-cases (d x)) [
    | inl gone ↦ elim (Bool-cases (p x)) [
      | inl met ↦ absurd (false≢true (sym (h x met) ∙ gone))
      | inr unmet ↦ rw (gone, unmet) (find-delete_where p d xs h)
    ]
    | inr kept ↦ rw (kept, find-delete_where p d xs h)
  ]

  pub find-append :
      (p : A → Bool) (xs ys : List A) → All (λ x. p x ≡ false) xs → find p (xs ++ ys) ≡ find p ys
  find-append p [] ys h = refl
  find-append p (x ∷ xs) ys h = rw (h.0) (find-append p xs ys h.1)

  pub find-update :
      (p q : A → Bool) (f : A → A) (xs : List A)
      → ((x : A) → p (f x) ≡ p x)
      → find p (update_where q f xs)
        ≡ elim (find p xs) [ none ↦ none | some x ↦ some (if q x then f x else x) ]
  find-update p q f [] h = refl
  find-update p q f (x ∷ xs) h = elim (Bool-cases (q x)) [
    | inl hit ↦ elim (Bool-cases (p x)) [
      | inl met ↦ rw (hit, h x, met, hit)
      | inr unmet ↦ rw (hit, h x, unmet) (find-update p q f xs h)
    ]
    | inr miss ↦ elim (Bool-cases (p x)) [
      | inl met ↦ rw (miss, met, miss)
      | inr unmet ↦ rw (miss, unmet) (find-update p q f xs h)
    ]
  ]

-- With distinct keys, at most one row meets a condition that fixes the key.
module _ {ℓ κ} {A : Type ℓ} {B : Type κ} (g : A → B) (p : A → Bool) (k : B)
    (fixes : (x : A) → p x ≡ true → g x ≡ k) where
  count-other : (xs : List A) → All (λ b. k ≢ b) (map g xs) → count p xs ≡ 0
  count-other [] h = refl
  count-other (x ∷ xs) h = elim (Bool-cases (p x)) [
    | inl met ↦ absurd (h.0 (sym (fixes x met)))
    | inr unmet ↦ rw unmet (count-other xs h.1)
  ]

  pub count-one : (xs : List A) (x : A) → Distinct (map g xs) → find p xs ≡ some x → count p xs ≡ 1
  count-one [] x d e = cc
  count-one (y ∷ xs) x d e = elim (Bool-cases (p y)) [
    | inl met ↦
        let here : g y ≡ k = fixes y met in rw met (ap suc (count-other xs (rw here at d.0)))
    | inr unmet ↦ rw unmet (count-one xs x d.1 (rw unmet at e))
  ]
