-- ===== src/Capture/Prefixes.antt =====
-- src/docketyard/capture/walk.py, `walk_dockets`: the docket table, a slice for each prefix of
-- src/docketyard/capture/stb.py.
use docket_yard.Prelude.{String, Bool, none, List, [], ◌∷◌, map, str_eq}
use docket_yard.Prelude.Table.{any}
use docket_yard.Capture.Slice.{Action}
use docket_yard.Capture.Months.{Key, Value, Slice}
use docket_yard.Capture.Walk.{Outside, SliceRow, Summary, walk}

abbrev pub docket_prefixes : List String
docket_prefixes =
    "AB" ∷ "AM" ∷ "ARB" ∷ "ASC" ∷ "CNO" ∷ "CU" ∷ "DOP" ∷ "DSO" ∷ "EP" ∷ "EPM" ∷ "FD" ∷ "FSA" ∷ "IS"
    ∷ "ISM" ∷ "MC" ∷ "MCC" ∷ "MCF" ∷ "MXC" ∷ "NOM" ∷ "NOR" ∷ "PTO" ∷ "RER" ∷ "RR" ∷ "S5A" ∷ "S5M"
    ∷ "SAI" ∷ "SDM" ∷ "SO" ∷ "STA" ∷ "SUB" ∷ "SUS" ∷ "WB" ∷ "WC" ∷ "WCC" ∷ []

abbrev pub expected_empty_prefixes : List String
expected_empty_prefixes = "ARB" ∷ "ASC" ∷ "DSO" ∷ "RER" ∷ "S5A" ∷ "SUS" ∷ []

abbrev pub docket_prefix_slices : List Slice
docket_prefix_slices =
    map
      (λ p. record {
        key = Key.by_prefix p;
        criteria = ("docketNum_one", Value.plain p) ∷ [];
        expected_empty = any (str_eq p) expected_empty_prefixes;
        month = none;
      })
      docket_prefixes

unfoldable pub walk_dockets :
    (redo : Bool) → (Slice → Outside) → List SliceRow → Summary × List SliceRow
walk_dockets redo outside rows =
    walk Action.dockets redo 200 (map (λ s. (s, outside s)) docket_prefix_slices) rows
