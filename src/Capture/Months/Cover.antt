-- ===== src/Capture/Months/Cover.antt =====
-- src/docketyard/capture/walk.py, `month_slices`: the days that the slices of a range ask for.
use docket_yard.Prelude.{
  ℕ, zero, suc, ◌+◌, ◌-◌, ◌≤◌, ◌≡◌, ◌∙◌, ap, sym, String, Bool, true, false, ◌&&◌, ◌||◌, Option,
  none, some, List, [], ◌∷◌, str_eq, min, max, ltb, leb, ◌==◌, arith, Bool-cases, Option-cases, inl,
  inr, if◌then◌else◌,
}
use docket_yard.Prelude.Table.{any}
use docket_yard.Capture.Slice.{Action, dockets, filings, decisions, enviro_comments}
use docket_yard.Capture.Months.{
  month_length, count_days, days_between, slice_month, slice_days, Value, Criteria, Slice,
  date_criteria, month_slice, slices_from, month_slices,
}

-- Whether the key of a slice names the day `d` of the month `m`.
abbrev pub names_day : (m d : ℕ) → Slice → Bool
names_day m d s = elim (slice_month s.key) [
  | none ↦ false
  | some n ↦ (n == m) && any (λ e. e == d) (slice_days s.key)
]

abbrev day_of : Value → Option (ℕ × ℕ)
day_of (Value.plain s) = none
day_of (Value.day m d) = some (m, d)

-- The day that criteria give under a name.
abbrev pub date_at : String → Criteria → Option (ℕ × ℕ)
date_at name [] = none
date_at name ((n, v) ∷ rest) =
    let later = date_at name rest in if str_eq n name then day_of v else later

abbrev no_later : ℕ × ℕ → ℕ × ℕ → Bool
no_later (m, d) (n, e) = ltb m n || ((m == n) && leb d e)

abbrev between : Option (ℕ × ℕ) → Option (ℕ × ℕ) → ℕ × ℕ → Bool
between (some lo) (some hi) x = no_later lo x && no_later x hi
between _ _ x = false

-- Whether the criteria of a slice ask the endpoint for the day `d` of the month `m`: it is no earlier
-- than the date under the first of the names that filter and no later than the one under the second.
abbrev pub asks_for : Action → (m d : ℕ) → Slice → Bool
asks_for action m d s = elim (date_criteria action) [
  | none ↦ false
  | some (first, last) ↦ between (date_at first s.criteria) (date_at last s.criteria) (m, d)
]

-- `date(start) <= date <= date(end)`
abbrev pub in_range : (start a end b m d : ℕ) → Bool
in_range start a end b m d =
    (ltb start m || ((start == m) && leb a d)) && (ltb m end || ((m == end) && leb d b))

any-count_days : (lo n d : ℕ) → any (λ e. e == d) (count_days lo n) ≡ (leb lo d && ltb d (lo + n))
any-count_days lo zero d = ground arith
any-count_days lo (suc n) d = ground (arith, any-count_days (suc lo) n d)

any-days_between : (lo hi d : ℕ) → any (λ e. e == d) (days_between lo hi) ≡ (leb lo d && leb d hi)
any-days_between lo hi d = rw (any-count_days lo (suc hi - lo) d) (ground arith)

clipped :
    (lo hi bound d : ℕ)
    → 1 ≤ lo
    → hi ≤ bound
    → (leb (max lo 1) d && leb d (min hi bound)) ≡ (leb lo d && leb d hi)
clipped lo hi bound d at_least at_most =
    let low : max lo 1 ≡ lo = omega arith in
    let high : min hi bound ≡ hi = omega arith in rw (low, high)

whole_clipped :
    (lo hi bound d : ℕ)
    → ((lo == 1) && (hi == bound)) ≡ true
    → (leb 1 d && leb d bound) ≡ (leb lo d && leb d hi)
whole_clipped lo hi bound d e =
    let low : lo ≡ 1 = ground arith in let high : hi ≡ bound = ground arith in rw (low, high)

some-injective : {A : Type 0} {x y : A} → some x ≡ some y → x ≡ y
some-injective {x = x} e = ap (from x) e
  where
    from : {A : Type 0} → A → Option A → A
    from x none = x
    from x (some y) = y

names_day-month_slice :
    (action : Action) (names : String × String) (m d n lo hi : ℕ)
    → 1 ≤ lo
    → hi ≤ month_length n
    → names_day m d (month_slice action names n lo hi) ≡ ((n == m) && (leb lo d && leb d hi))
names_day-month_slice action names m d n lo hi at_least at_most =
    elim (Bool-cases ((lo == 1) && (hi == month_length n))) [
      | inl whole ↦ rw whole (
          ap (λ b. (n == m) && b)
            (any-days_between 1 (month_length n) d ∙ whole_clipped lo hi (month_length n) d whole))
      | inr part ↦ rw part (
          ap (λ b. (n == m) && b)
            (any-days_between (max lo 1) (min hi (month_length n)) d
              ∙ clipped lo hi (month_length n) d at_least at_most))
    ]

same_month :
    (m d n lo hi : ℕ)
    → (no_later (n, lo) (m, d) && no_later (m, d) (n, hi)) ≡ ((n == m) && (leb lo d && leb d hi))
same_month m d n lo hi = ground arith

asks_for-month_slice :
    (action : Action) (names : String × String) (m d n lo hi : ℕ)
    → date_criteria action ≡ some names
    → asks_for action m d (month_slice action names n lo hi) ≡ ((n == m) && (leb lo d && leb d hi))
asks_for-month_slice dockets names m d n lo hi e = cc
asks_for-month_slice filings names m d n lo hi e =
    let same : ("filingStartDate", "filingEndDate") ≡ names = some-injective e in
    rw (← same) (same_month m d n lo hi)
asks_for-month_slice decisions names m d n lo hi e =
    let same : ("serviceStartDate", "serviceEndDate") ≡ names = some-injective e in
    rw (← same) (same_month m d n lo hi)
asks_for-month_slice enviro_comments names m d n lo hi e =
    let same : ("startDate", "endDate") ≡ names = some-injective e in
    rw (← same) (same_month m d n lo hi)

module _ (m d : ℕ) (day : 1 ≤ d) where
  next_month :
      (lo m0 left last_day bound : ℕ)
      → (m0 ≡ m → d ≤ bound)
      → (((m0 == m) && (leb lo d && leb d bound))
          || in_range (suc m0) 1 (suc m0 + left) last_day m d)
        ≡ in_range m0 lo (m0 + suc left) last_day m d
  next_month lo m0 left last_day bound inside = ground arith

  last_month :
      (lo m0 last_day : ℕ)
      → (((m0 == m) && (leb lo d && leb d last_day)) || false)
        ≡ in_range m0 lo (m0 + 0) last_day m d
  last_month lo m0 last_day = ground arith

  -- The days of the slices of `suc left` months from `m0` on, by what a slice of a month has.
  any-slices_from :
      (action : Action) (names : String × String) (has : Slice → Bool)
      → ((n lo hi : ℕ)
          → 1 ≤ lo
          → hi ≤ month_length n
          → has (month_slice action names n lo hi) ≡ ((n == m) && (leb lo d && leb d hi)))
      → (last_day lo m0 left : ℕ) → d ≤ month_length m
      → 1 ≤ lo
      → last_day ≤ month_length (m0 + left)
      → any has (slices_from action names last_day lo m0 left)
        ≡ in_range m0 lo (m0 + left) last_day m d
  any-slices_from action names has each last_day lo m0 zero inside at_least at_most =
      let same : m0 + 0 ≡ m0 = omega arith in
      ap (λ b. b || false) (each m0 lo last_day at_least (rw same at at_most))
      ∙ last_month lo m0 last_day
  any-slices_from action names has each last_day lo m0 (suc left) inside at_least at_most =
      let shift : m0 + suc left ≡ suc m0 + left = omega arith in
      rw
        (
          each m0 lo (month_length m0) at_least (omega arith),
          any-slices_from action names has each last_day 1 (suc m0) left inside (omega arith)
              (rw shift at at_most),
        )
        (next_month lo m0 left last_day (month_length m0) (λ e. rw (sym e) at inside))

  any-slices :
      (action : Action) (names : String × String) (has : Slice → Bool)
      → ((n lo hi : ℕ)
          → 1 ≤ lo
          → hi ≤ month_length n
          → has (month_slice action names n lo hi) ≡ ((n == m) && (leb lo d && leb d hi)))
      → (start a end b : ℕ) → start ≤ end
      → d ≤ month_length m
      → 1 ≤ a
      → b ≤ month_length end
      → any has (slices_from action names b a start (end - start)) ≡ in_range start a end b m d
  any-slices action names has each start a end b le inside first last =
      let sum : start + (end - start) ≡ end = omega arith in
      rw sum at
        (any-slices_from action names has each b a start (end - start) inside first (rw sum last))

  -- The slices of a range of dates cover exactly the days of the range, in the criteria that are sent
  -- to the endpoint and in the keys that are written down: a day of the calendar is between the two
  -- dates of the criteria of one of them if and only if it is no earlier than the start and no later
  -- than the end, and it is among the days that the key of one of them names under the same condition.
  pub any-month_slices :
      (action : Action) (start a end b : ℕ) (slices : List Slice)
      → month_slices action start a end b ≡ some slices
      → start ≤ end
      → d ≤ month_length m
      → 1 ≤ a
      → b ≤ month_length end
      → (any (asks_for action m d) slices ≡ in_range start a end b m d)
        × (any (names_day m d) slices ≡ in_range start a end b m d)
  unfolding month_slices
  any-month_slices action start a end b slices made le inside first last =
      elim (Option-cases (date_criteria action)) [
        | inl nothing ↦ let clash : none ≡ some slices = rw (nothing, month_slices) at made in cc
        | inr (names, found) ↦
            let not_before : ltb end start ≡ false = ground arith in
            let which : some (slices_from action names b a start (end - start)) ≡ some slices =
              rw (found, not_before, month_slices) at made in
            let same = some-injective which in
            rw (← same) (
              any-slices action names (asks_for action m d)
                  (λ n lo hi _ _. asks_for-month_slice action names m d n lo hi found) start a end b
                  le inside first last,
              any-slices action names (names_day m d)
                  (λ n lo hi. names_day-month_slice action names m d n lo hi) start a end b le
                  inside first last,
            )
      ]
