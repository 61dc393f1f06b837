-- ===== src/Capture/Months.antt =====
-- src/docketyard/capture/walk.py: calendar months, the grammar of slice keys, and the slices of a
-- range of dates. A month is the number of months since January of year 0, a date its month and its
-- day; a key is what its text `action:YYYY-MM:lo..hi` names, and a criterion what its text names.
pub mod Cover
use docket_yard.Prelude.{
  ℕ, zero, suc, ◌+◌, ◌-◌, ◌*◌, ◌/◌, ◌%◌, String, Bool, true, false, not, ◌&&◌, ◌||◌, Option, none,
  some, List, [], ◌∷◌, ◌++◌, str_eq, min, max, ltb, leb, ◌==◌, if◌then◌else◌,
}
use docket_yard.Capture.Slice.{Action, dockets, filings, decisions, enviro_comments}

pub data Key : Type 0 where
  by_prefix : String → Key
  whole_month : (month : ℕ) → Key
  part_month : (month lo hi : ℕ) → Key

abbrev pub same_key : Key → Key → Bool
same_key (by_prefix a) (by_prefix b) = str_eq a b
same_key (whole_month m) (whole_month n) = m == n
same_key (part_month m lo hi) (part_month n lo' hi') = (m == n) && (lo == lo') && (hi == hi')
same_key _ _ = false

abbrev leap : ℕ → Bool
leap y = ((y % 4) == 0) && (not ((y % 100) == 0) || ((y % 400) == 0))

-- The last day of a month, as `_month_bounds` finds it.
abbrev pub month_length : ℕ → ℕ
month_length m =
    let n = m % 12 in
    if n == 1
    then (if leap (m / 12) then 29 else 28)
    else if (n == 3) || (n == 5) || (n == 8) || (n == 10)
    then 30
    else 31

-- The days `lo` to `hi`.
abbrev count_days : (lo n : ℕ) → List ℕ
count_days lo zero = []
count_days lo (suc n) = lo ∷ count_days (suc lo) n

abbrev pub days_between : (lo hi : ℕ) → List ℕ
days_between lo hi = count_days lo (suc hi - lo)

abbrev pub slice_month : Key → Option ℕ
slice_month (by_prefix _) = none
slice_month (whole_month m) = some m
slice_month (part_month m _ _) = some m

abbrev pub slice_days : Key → List ℕ
slice_days (by_prefix _) = []
slice_days (whole_month m) = days_between 1 (month_length m)
slice_days (part_month m lo hi) = days_between (max lo 1) (min hi (month_length m))

abbrev pub month_days : ℕ → List ℕ
month_days m = days_between 1 (month_length m)

-- The value of a criterion: a text, or the day that `%m/%d/%Y` spells.
pub data Value : Type 0 where
  plain : String → Value
  day : (month d : ℕ) → Value

abbrev pub Criteria : Type 0
Criteria = List (String × Value)

-- `docketyard.capture.walk.Slice`
pub record Slice : Type 0 where
  pub key : Key
  pub criteria : Criteria
  pub expected_empty : Bool
  pub month : Option ℕ

-- `date_criteria` of the table's spec in src/docketyard/ingest/observations.py; the dockets have none.
abbrev pub date_criteria : Action → Option (String × String)
date_criteria dockets = none
date_criteria filings = some ("filingStartDate", "filingEndDate")
date_criteria decisions = some ("serviceStartDate", "serviceEndDate")
date_criteria enviro_comments = some ("startDate", "endDate")

-- `EXPECTED_EMPTY_MONTHS`: October 2025, of the filings.
abbrev pub expected_empty_month : Action → ℕ → Bool
expected_empty_month filings m = m == 2025 * 12 + 9
expected_empty_month _ m = false

-- The one slice of a month, from `lo` to `hi`.
abbrev pub month_slice : Action → (names : String × String) (m lo hi : ℕ) → Slice
month_slice action (first, last) m lo hi = record {
  key = (if (lo == 1) && (hi == month_length m) then Key.whole_month m else Key.part_month m lo hi);
  criteria = (first, Value.day m lo) ∷ (last, Value.day m hi) ∷ [];
  expected_empty = expected_empty_month action m;
  month = some m;
}

-- The slices of the months from `m` on, `left` of them, the last of which is the range's last month.
abbrev pub slices_from : Action → (names : String × String) (last_day lo m left : ℕ) → List Slice
slices_from action names last_day lo m zero = month_slice action names m lo last_day ∷ []
slices_from action names last_day lo m (suc left) =
    month_slice action names m lo (month_length m)
    ∷ slices_from action names last_day 1 (suc m) left

-- From the day `a` of the month `start` to the day `b` of the month `end`; none is the KeyError of a
-- table without a spec.
unfoldable pub month_slices : Action → (start a end b : ℕ) → Option (List Slice)
month_slices action start a end b = elim (date_criteria action) [
  | none ↦ none
  | some names ↦
      let slices = slices_from action names b a start (end - start) in
      some (if ltb end start then [] else slices)
]
