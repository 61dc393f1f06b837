-- ===== src/Assertions/Supersede.antt =====
-- src/docketyard/store/supersede.py: retire at itself, insert, repoint. The table is given by its
-- id column, by what writing `superseded_by` and `superseded_at` does to a row, and by its rows.
pub mod Live
use docket_yard.Prelude.{
  ℕ, suc, Bool, true, false, not, ◌&&◌, Option, none, some, List, [], ◌∷◌, ◌++◌, max, ◌==◌,
  if◌then◌else◌,
}
use docket_yard.Fleet.Rows.{is_some}
use docket_yard.Prelude.Table.{find, update_where}

pub record Columns (R : Type 0) : Type 0 where
  pub id_of : R → ℕ
  pub superseded_by : R → Option ℕ
  pub point : ℕ → R → R
  pub stamp : ℕ → R → R

module _ {R : Type 0} (c : Columns R) where
  -- superseded_by IS NULL
  abbrev pub is_live : R → Bool
  is_live r = not (is_some (c.superseded_by r))

  abbrev greatest : List R → ℕ
  greatest [] = 0
  greatest (r ∷ rs) = max (c.id_of r) (greatest rs)

  -- INTEGER PRIMARY KEY: one more than the greatest in use.
  abbrev pub next_id : List R → ℕ
  next_id rs = suc (greatest rs)

  unfoldable pub retire : (row_id : ℕ) (at : Option ℕ) → List R → List R
  retire row_id none = update_where (λ r. c.id_of r == row_id) (c.point row_id)
  retire row_id (some t) =
      update_where (λ r. c.id_of r == row_id) (λ r. c.stamp t (c.point row_id r))

  -- SELECT ... WHERE ... AND superseded_by IS NULL
  abbrev pub live_row : (covers : R → Bool) → List R → Option R
  live_row covers = find (λ r. covers r && is_live r)

  abbrev pub replace :
      (agrees : R → Bool) (insert : ℕ → R) (retire_at : Option ℕ) (rows : List R)
      → Option R
      → Bool × List R
  replace agrees insert retire_at rows none = (true, rows ++ insert (next_id rows) ∷ [])
  replace agrees insert retire_at rows (some live) =
      if agrees live
      then (false, rows)
      else (let retired = retire (c.id_of live) retire_at rows in
          let new = next_id retired in
          (
            true,
            update_where (λ r. c.id_of r == c.id_of live) (c.point new)
                (retired ++ insert new ∷ []),
          ))

  -- `covers` is the WHERE, `agrees` compares a row's answer with the new one, and `insert` is the row
  -- written, from its id.
  unfoldable pub if_changed :
      (covers agrees : R → Bool) (insert : ℕ → R) (retire_at : Option ℕ) → List R → Bool × List R
  if_changed covers agrees insert retire_at rows =
      replace agrees insert retire_at rows (live_row covers rows)
