-- ===== src/Assertions/Supersede/Live.antt =====
-- src/docketyard/store/supersede.py, `if_changed`: the partial live index. The columns' laws are what
-- the tables that use it fill.
use docket_yard.Prelude.{
  ℕ, suc, ◌≤◌, ◌≡◌, refl, sym, ◌∙◌, ap, Bool, true, false, ◌&&◌, Option, none, some, List, [], ◌∷◌,
  ◌++◌, ◌==◌, Bool-cases, Option-cases, inl, inr, arith,
}
use mathlib.Core.Path.{subst}
use docket_yard.Prelude.Table.{find, count, update_where, count-append}
use docket_yard.Assertions.Supersede.{
  Columns, is_live, next_id, retire, live_row, replace, if_changed,
}

-- Writing `superseded_by` ends a row's life, and writing `superseded_at` leaves that as it is.
pub record Laws {R : Type 0} (c : Columns R) : Type 0 where
  pub pointed : (n : ℕ) (r : R) → is_live c (c.point n r) ≡ false
  pub stamped : (t : ℕ) (r : R) → is_live c (c.stamp t r) ≡ is_live c r

module _ {R : Type 0} (c : Columns R) (laws : Laws c) (covers : R → Bool) where
  abbrev pub live_rows : List R → ℕ
  live_rows = count (λ r. covers r && is_live c r)

  module _ (hits : R → Bool) (f : R → R) (ends : (r : R) → is_live c (f r) ≡ false) where
    dead : (r : R) → (covers (f r) && is_live c (f r)) ≡ false
    dead r = rw (ends r) (ground arith)

    pub live_rows-update : (rows : List R) → live_rows (update_where hits f rows) ≤ live_rows rows
    live_rows-update [] = omega arith
    live_rows-update (r ∷ rows) =
        let rest = live_rows-update rows in
        elim (Bool-cases (hits r)) [
          | inl hit ↦ rw (hit, dead r) (ground arith)
          | inr missed ↦ rw missed (ground arith)
        ]

    -- An update that hits the live row leaves none.
    pub live_rows-ended :
        (rows : List R) (live : R)
        → find (λ r. covers r && is_live c r) rows ≡ some live
        → hits live ≡ true
        → live_rows rows ≤ 1
        → live_rows (update_where hits f rows) ≡ 0
    live_rows-ended [] live e hit le = cc
    live_rows-ended (r ∷ rows) live e hit le = elim (Bool-cases (covers r && is_live c r)) [
      | inl found ↦
          let same : r ≡ live = ground arith in
          let hit_here : hits r ≡ true = rw same hit in
          let rest = live_rows-update rows in
          let few : suc (live_rows rows) ≤ 1 = rw found at le in rw (hit_here, dead r) (omega arith)
      | inr other ↦
          let rest = live_rows-ended rows live (rw other at e) hit (rw other at le) in
          elim (Bool-cases (hits r)) [
            | inl hit_here ↦ rw (hit_here, dead r) rest
            | inr missed ↦ rw (missed, other) rest
          ]
    ]

  stamped_dead : (n t : ℕ) (r : R) → is_live c (c.stamp t (c.point n r)) ≡ false
  stamped_dead n t r = laws.stamped t (c.point n r) ∙ laws.pointed n r

  is_self : (n : ℕ) → (n == n) ≡ true
  is_self n = ground arith

  live_rows-retire :
      (at : Option ℕ) (rows : List R) (live : R)
      → find (λ r. covers r && is_live c r) rows ≡ some live
      → live_rows rows ≤ 1
      → live_rows (retire c (c.id_of live) at rows) ≡ 0
  unfolding retire
  live_rows-retire none rows live e le =
      live_rows-ended (λ r. c.id_of r == c.id_of live) (c.point (c.id_of live))
        (laws.pointed (c.id_of live)) rows live e (is_self (c.id_of live)) le
  live_rows-retire (some t) rows live e le =
      live_rows-ended (λ r. c.id_of r == c.id_of live) (λ r. c.stamp t (c.point (c.id_of live) r))
        (stamped_dead (c.id_of live) t) rows live e (is_self (c.id_of live)) le

  pub one_more : (rows : List R) (r : R) → live_rows (rows ++ r ∷ []) ≤ suc (live_rows rows)
  one_more rows r =
      let sum = count-append (λ x. covers x && is_live c x) rows (r ∷ []) in
      elim (Bool-cases (covers r && is_live c r)) [
        | inl met ↦ let one : live_rows (r ∷ []) ≡ 1 = rw met in omega (arith, sum, one)
        | inr unmet ↦
            let none_more : live_rows (r ∷ []) ≡ 0 = rw unmet in omega (arith, sum, none_more)
      ]

  pub none_live :
      (rows : List R) → find (λ r. covers r && is_live c r) rows ≡ none → live_rows rows ≡ 0
  none_live [] e = refl
  none_live (r ∷ rows) e = elim (Bool-cases (covers r && is_live c r)) [
    | inl met ↦ absurd (ground arith)
    | inr unmet ↦ rw unmet (none_live rows (rw unmet at e))
  ]

  -- The live index holds: where a key has at most one live row, it has at most one after a write.
  pub if_changed-live :
      (agrees : R → Bool) (insert : ℕ → R) (retire_at : Option ℕ) (rows : List R)
      → live_rows rows ≤ 1
      → live_rows (if_changed c covers agrees insert retire_at rows).1 ≤ 1
  unfolding if_changed
  if_changed-live agrees insert retire_at rows le = elim (Option-cases (live_row c covers rows)) [
    | inl vacant ↦
        let zero_live = none_live rows vacant in
        let more = one_more rows (insert (next_id c rows)) in
        after none vacant (omega (arith, zero_live, more))
    | inr (live, found) ↦ elim (Bool-cases (agrees live)) [
      | inl same ↦ after (some live) found (rw same le)
      | inr apart ↦
          let retired = retire c (c.id_of live) retire_at rows in
          let new = next_id c retired in
          let vacated = live_rows-retire retire_at rows live found le in
          let more = one_more retired (insert new) in
          let pointed_too =
            live_rows-update (λ r. c.id_of r == c.id_of live) (c.point new) (laws.pointed new)
              (retired ++ insert new ∷ []) in
          after (some live) found (rw apart (omega (arith, vacated, more, pointed_too)))
    ]
  ]
    where
      after :
          (o : Option R)
          → live_row c covers rows ≡ o
          → live_rows (replace c agrees insert retire_at rows o).1 ≤ 1
          → live_rows (replace c agrees insert retire_at rows (live_row c covers rows)).1 ≤ 1
      after o e h =
          subst (λ x. live_rows (replace c agrees insert retire_at rows x).1 ≤ 1) (sym e) h

  -- Nothing is written over a live row that agrees, and a row is written over one that does not.
  pub if_changed-agrees :
      (agrees : R → Bool) (insert : ℕ → R) (retire_at : Option ℕ) (rows : List R) (live : R)
      → live_row c covers rows ≡ some live
      → agrees live ≡ true
      → if_changed c covers agrees insert retire_at rows ≡ (false, rows)
  unfolding if_changed
  if_changed-agrees agrees insert retire_at rows live found same =
      ap (replace c agrees insert retire_at rows) found ∙ rw same

  pub if_changed-differs :
      (agrees : R → Bool) (insert : ℕ → R) (retire_at : Option ℕ) (rows : List R) (live : R)
      → live_row c covers rows ≡ some live
      → agrees live ≡ false
      → (if_changed c covers agrees insert retire_at rows).0 ≡ true
  unfolding if_changed
  if_changed-differs agrees insert retire_at rows live found apart =
      ap (λ o. (replace c agrees insert retire_at rows o).0) found ∙ rw apart
