-- ===== src/Readings/Load/Over.antt =====
-- src/docketyard/text/load.py, `_load_page`: the live rows of a place, as a row is put over another.
use docket_yard.Prelude.{
  ℕ, ◌≤◌, ◌≡◌, refl, sym, Bool, false, not, ◌&&◌, Option, none, some, List, [], ◌∷◌, ◌++◌, ◌==◌,
  Bool-cases, Option-cases, inl, inr, arith,
}
use mathlib.Core.Path.{subst}
use docket_yard.Prelude.Table.{count, update_where}
use docket_yard.Assertions.Supersede.{is_live, live_row, next_id, retire}
use docket_yard.Assertions.Supersede.Live.{
  Laws, live_rows-update, live_rows-ended, one_more, none_live,
}
use docket_yard.Readings.Rows.{TextRow, text_columns}
use docket_yard.Readings.Pages.{put_over}
use docket_yard.Readings.Load.Branches.{}

text_laws : Laws text_columns
text_laws = record { pointed = λ n r. refl; stamped = λ t r. refl }

-- Rows that are live, of those that are covered.
abbrev pub lives : (TextRow → Bool) → List TextRow → ℕ
lives covers = count (λ r. covers r && is_live text_columns r)

module _ (covers : TextRow → Bool) where
  -- An update that ends the rows that it hits leaves the live ones that it misses.
  lives-ended :
      (hits : TextRow → Bool) (f : TextRow → TextRow) (rows : List TextRow)
      → ((r : TextRow) → is_live text_columns (f r) ≡ false)
      → lives covers (update_where hits f rows) ≡ lives (λ r. covers r && not (hits r)) rows
  lives-ended hits f [] ends = refl
  lives-ended hits f (r ∷ rows) ends =
      let rest = lives-ended hits f rows ends in
      let dead = ends r in
      elim (Bool-cases (hits r)) [
        | inl hit ↦ rw (hit, dead, rest) (ground arith)
        | inr missed ↦ rw (missed, rest) (ground arith)
      ]

  lives-retire :
      (row_id now : ℕ) (rows : List TextRow)
      → lives covers (retire text_columns row_id (some now) rows)
        ≡ lives (λ r. covers r && not (r.text_id == row_id)) rows
  unfolding retire
  lives-retire row_id now rows =
      lives-ended (λ r. r.text_id == row_id)
        (λ r. text_columns.stamp now (text_columns.point row_id r)) rows (λ r. refl)

  lives-point :
      (row_id new : ℕ) (rows : List TextRow)
      → lives covers (update_where (λ r. r.text_id == row_id) (text_columns.point new) rows)
        ≤ lives covers rows
  lives-point row_id new rows =
      live_rows-update text_columns text_laws covers (λ r. r.text_id == row_id)
        (text_columns.point new) (λ r. refl) rows

  fewer :
      (p : TextRow → Bool) (rows : List TextRow)
      → lives (λ r. covers r && p r) rows ≤ lives covers rows
  fewer p [] = omega arith
  fewer p (r ∷ rows) = let rest = fewer p rows in ground arith

  -- A row that is not covered brings none.
  no_more :
      (rows : List TextRow) (r : TextRow)
      → covers r ≡ false
      → lives covers (rows ++ r ∷ []) ≡ lives covers rows
  no_more [] r e = rw e
  no_more (x ∷ rows) r e = let rest = no_more rows r e in ground arith

  -- The rows of the place that are live are the one that was found at the start, or none.
  abbrev pub Ready : Option TextRow → List TextRow → Type 0
  Ready none rows = lives covers rows ≤ 0
  Ready (some held) rows =
      (lives covers rows ≤ 1) × (lives (λ r. covers r && not (r.text_id == held.text_id)) rows ≤ 0)

  pub put_over-other :
      (holder : Option TextRow) (insert : ℕ → TextRow) (now : ℕ) (rows : List TextRow)
      → ((n : ℕ) → covers (insert n) ≡ false)
      → lives covers (put_over holder insert now rows).0 ≤ lives covers rows
  put_over-other none insert now rows other =
      let same = no_more rows (insert (next_id text_columns rows)) (other _) in omega (arith, same)
  put_over-other (some held) insert now rows other =
      let gone = retire text_columns held.text_id (some now) rows in
      let new = next_id text_columns gone in
      let ended = lives-retire held.text_id now rows in
      let few = fewer (λ r. not (r.text_id == held.text_id)) rows in
      let same = no_more gone (insert new) (other new) in
      let pointed = lives-point held.text_id new (gone ++ insert new ∷ []) in
      omega (arith, ended, few, same, pointed)

  -- Over the live row of its place, a row leaves no more than itself.
  pub put_over-here :
      (holder : Option TextRow) (insert : ℕ → TextRow) (now : ℕ) (rows : List TextRow)
      → Ready holder rows
      → lives covers (put_over holder insert now rows).0 ≤ 1
  put_over-here none insert now rows ready =
      let more = one_more text_columns text_laws covers rows (insert (next_id text_columns rows)) in
      omega (arith, ready, more)
  put_over-here (some held) insert now rows ready =
      let gone = retire text_columns held.text_id (some now) rows in
      let new = next_id text_columns gone in
      let ended = lives-retire held.text_id now rows in
      let more = one_more text_columns text_laws covers gone (insert new) in
      let pointed = lives-point held.text_id new (gone ++ insert new ∷ []) in
      let vacant = ready.1 in omega (arith, ended, more, pointed, vacant)

  -- What `_live` found is ready to be written over.
  pub at_start :
      (rows : List TextRow) → lives covers rows ≤ 1 → Ready (live_row text_columns covers rows) rows
  at_start rows le = elim (Option-cases (live_row text_columns covers rows)) [
    | inl vacant ↦
        let zero_live = none_live text_columns text_laws covers rows vacant in
        subst (λ o. Ready o rows) (sym vacant) (omega (arith, zero_live))
    | inr (held, found) ↦
        let none_left =
          live_rows-ended text_columns text_laws covers (λ r. r.text_id == held.text_id)
            (text_columns.point 0) (λ r. refl) rows held found (ground arith) le in
        let missed =
          lives-ended (λ r. r.text_id == held.text_id) (text_columns.point 0) rows (λ r. refl) in
        subst (λ o. Ready o rows) (sym found) (le, omega (arith, missed, none_left))
  ]
