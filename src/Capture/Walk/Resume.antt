-- ===== src/Capture/Walk/Resume.antt =====
-- src/docketyard/capture/walk.py, `walk`: what a walk writes down, and what a second one skips.
use docket_yard.Prelude.{
  ℕ, suc, ◌+◌, ◌≡◌, refl, sym, ◌∙◌, ap, Bool, true, false, not, ◌&&◌, Option, none, some, List, [],
  ◌∷◌, ◌++◌, length, All, Bool-cases, inl, inr, arith, eq_iff,
}
use mathlib.Core.Bool.{false≢true}
use docket_yard.Prelude.Table.{find, delete_where}
use docket_yard.Fleet.Rows.{is_some}
use docket_yard.Capture.Slice.{Action, SliceResult, Status, status}
use docket_yard.Capture.Months.{Key, by_prefix, whole_month, part_month, same_key, Slice}
use docket_yard.Capture.Walk.{
  SliceRow, slice_row, status_of, same_action, keyed, slice_status, record_slice, Outside, asked,
  judged, Summary, counted, is_finished, walk_step, walk_from, walk, no_counts,
}

same_action-eq : (a b : Action) → same_action a b ≡ true → a ≡ b
same_action-eq Action.dockets Action.dockets h = refl
same_action-eq Action.filings Action.filings h = refl
same_action-eq Action.decisions Action.decisions h = refl
same_action-eq Action.enviro_comments Action.enviro_comments h = refl
same_action-eq Action.dockets Action.filings h = cc
same_action-eq Action.dockets Action.decisions h = cc
same_action-eq Action.dockets Action.enviro_comments h = cc
same_action-eq Action.filings Action.dockets h = cc
same_action-eq Action.filings Action.decisions h = cc
same_action-eq Action.filings Action.enviro_comments h = cc
same_action-eq Action.decisions Action.dockets h = cc
same_action-eq Action.decisions Action.filings h = cc
same_action-eq Action.decisions Action.enviro_comments h = cc
same_action-eq Action.enviro_comments Action.dockets h = cc
same_action-eq Action.enviro_comments Action.filings h = cc
same_action-eq Action.enviro_comments Action.decisions h = cc

same_action_self : (a : Action) → same_action a a ≡ true
same_action_self Action.dockets = refl
same_action_self Action.filings = refl
same_action_self Action.decisions = refl
same_action_self Action.enviro_comments = refl

same_key-eq : (k l : Key) → same_key k l ≡ true → k ≡ l
same_key-eq (by_prefix s) (by_prefix t) h = ap Key.by_prefix ((eq_iff s t).0 h)
same_key-eq (whole_month m) (whole_month n) h = ap Key.whole_month (ground arith)
same_key-eq (part_month m lo hi) (part_month n lo' hi') h =
    let months : m ≡ n = ground arith in
    let lows : lo ≡ lo' = ground arith in
    let highs : hi ≡ hi' = ground arith in rw (months, lows, highs)
same_key-eq (by_prefix s) (whole_month n) h = cc
same_key-eq (by_prefix s) (part_month n lo hi) h = cc
same_key-eq (whole_month m) (by_prefix t) h = cc
same_key-eq (whole_month m) (part_month n lo hi) h = cc
same_key-eq (part_month m lo hi) (by_prefix t) h = cc
same_key-eq (part_month m lo hi) (whole_month n) h = cc

same_key_self : (k : Key) → same_key k k ≡ true
same_key_self (by_prefix s) = (eq_iff s s).1 refl
same_key_self (whole_month m) = ground arith
same_key_self (part_month m lo hi) = ground arith

-- A row that is deleted for one key is no row of another.
find-delete_where :
    (action : Action) (k l : Key) (rows added : List SliceRow)
    → same_key l k ≡ false
    → find (keyed action k) (delete_where (keyed action l) rows ++ added)
      ≡ find (keyed action k) (rows ++ added)
find-delete_where action k l [] added apart = refl
find-delete_where action k l (r ∷ rows) added apart = elim (Bool-cases (keyed action l r)) [
  | inl gone ↦ elim (Bool-cases (same_key r.slice_key k)) [
    | inl here ↦
        let at : r.slice_key ≡ k = same_key-eq r.slice_key k here in
        let for_l : same_key r.slice_key l ≡ true = ground arith in
        absurd (
          false≢true
            (sym apart ∙ (ap (λ j. same_key j k) (sym (same_key-eq r.slice_key l for_l)) ∙ here)))
    | inr other ↦
        let off : keyed action k r ≡ false = ground arith in
        rw (gone, off) (find-delete_where action k l rows added apart)
  ]
  | inr kept ↦ rw (kept, find-delete_where action k l rows added apart)
]

find-insert_keyed :
    (action : Action) (k : Key) (rows : List SliceRow) (r : SliceRow)
    → keyed action k r ≡ true
    → find (keyed action k) (delete_where (keyed action k) rows ++ r ∷ []) ≡ some r
find-insert_keyed action k [] r h = rw h
find-insert_keyed action k (x ∷ rows) r h = elim (Bool-cases (keyed action k x)) [
  | inl gone ↦ rw gone (find-insert_keyed action k rows r h)
  | inr kept ↦ rw (kept, find-insert_keyed action k rows r h, kept)
]

find-insert_other :
    (action : Action) (k : Key) (rows : List SliceRow) (r : SliceRow)
    → keyed action k r ≡ false
    → find (keyed action k) (rows ++ r ∷ []) ≡ find (keyed action k) rows
find-insert_other action k [] r h = rw h
find-insert_other action k (x ∷ rows) r h = rw (find-insert_other action k rows r h)

-- After a slice is written down its key has the status that the slice ended with, and each other key
-- the status it had.
module _ (action : Action) (s : Slice) (r : SliceResult) (rows : List SliceRow) where
  slice_status-record_slice :
      slice_status action s.key (record_slice action s r rows) ≡ some (status r)
  unfolding slice_status record_slice
  slice_status-record_slice =
      let here : (same_action action action && same_key s.key s.key) ≡ true =
        rw (same_action_self action, same_key_self s.key) in
      ap status_of (find-insert_keyed action s.key rows (slice_row action s r) here)

  slice_status-record_other :
      (k : Key)
      → same_key s.key k ≡ false
      → slice_status action k (record_slice action s r rows) ≡ slice_status action k rows
  unfolding slice_status record_slice
  slice_status-record_other k apart =
      let elsewhere : (same_action action action && same_key s.key k) ≡ false =
        rw (same_action_self action, apart) in
      ap status_of (
        find-delete_where action k s.key rows (slice_row action s r ∷ []) apart
        ∙ find-insert_other action k rows (slice_row action s r) elsewhere)

-- A status that a key keeps once it has one that counts as finished, and one that a key has at all.
module _ (action : Action) (k : Key) where
  walk_step-finished :
      (pages : ℕ) (so : Slice × Outside) (w : Summary × List SliceRow)
      → is_finished (slice_status action k w.1) ≡ true
      → slice_status action k (walk_step action false pages so w).1 ≡ slice_status action k w.1
  walk_step-finished pages (s, o) (n, rows) h = elim (Bool-cases (same_key s.key k)) [
    | inl here ↦
        let skipped : is_finished (slice_status action s.key rows) ≡ true =
          rw (same_key-eq s.key k here) h in
        rw skipped
    | inr apart ↦ elim (Bool-cases (is_finished (slice_status action s.key rows))) [
      | inl skipped ↦ rw skipped
      | inr asked_now ↦ rw asked_now (
          slice_status-record_other action s (judged action s o rows (asked action pages s o)) rows
            k apart)
    ]
  ]

  walk_from-finished :
      (pages : ℕ) (slices : List (Slice × Outside)) (w : Summary × List SliceRow)
      → is_finished (slice_status action k w.1) ≡ true
      → slice_status action k (walk_from action false pages slices w).1 ≡ slice_status action k w.1
  walk_from-finished pages [] w h = refl
  walk_from-finished pages (so ∷ rest) w h =
      let step = walk_step-finished pages so w h in
      walk_from-finished pages rest (walk_step action false pages so w) (rw step h) ∙ step

  -- A slice that is done, empty or capped stays so through every later walk that is not told to redo
  -- it, whatever slices it is given and whatever the endpoint answers.
  pub walk-finished :
      (pages : ℕ) (slices : List (Slice × Outside)) (rows : List SliceRow)
      → is_finished (slice_status action k rows) ≡ true
      → slice_status action k (walk action false pages slices rows).1 ≡ slice_status action k rows
  unfolding walk
  walk-finished pages slices rows h = walk_from-finished pages slices (no_counts, rows) h

  walk_step-kept :
      (redo : Bool) (pages : ℕ) (so : Slice × Outside) (w : Summary × List SliceRow)
      → is_some (slice_status action k w.1) ≡ true
      → is_some (slice_status action k (walk_step action redo pages so w).1) ≡ true
  walk_step-kept redo pages (s, o) (n, rows) h =
      let r = judged action s o rows (asked action pages s o) in
      elim (Bool-cases (not redo && is_finished (slice_status action s.key rows))) [
        | inl skipped ↦ rw skipped h
        | inr asked_now ↦ elim (Bool-cases (same_key s.key k)) [
          | inl here ↦
              let same : s.key ≡ k = same_key-eq s.key k here in
              rw (asked_now, ← same, slice_status-record_slice action s r rows)
          | inr apart ↦ rw (asked_now, slice_status-record_other action s r rows k apart) h
        ]
      ]

  walk_from-kept :
      (redo : Bool) (pages : ℕ) (slices : List (Slice × Outside)) (w : Summary × List SliceRow)
      → is_some (slice_status action k w.1) ≡ true
      → is_some (slice_status action k (walk_from action redo pages slices w).1) ≡ true
  walk_from-kept redo pages [] w h = h
  walk_from-kept redo pages (so ∷ rest) w h =
      walk_from-kept redo pages rest (walk_step action redo pages so w)
        (walk_step-kept redo pages so w h)

abbrev pub total : Summary → ℕ
total n = n.done + n.empty + n.capped + n.partial + n.skipped

counted-total : (st : Status) (n : Summary) → total (counted st n) ≡ suc (total n)
counted-total Status.done n = omega arith
counted-total Status.empty n = omega arith
counted-total Status.capped n = omega arith
counted-total Status.partial n = omega arith

module _ (action : Action) (redo : Bool) (pages : ℕ) where
  walk_step-written :
      (s : Slice) (o : Outside) (w : Summary × List SliceRow)
      → is_some (slice_status action s.key (walk_step action redo pages (s, o) w).1) ≡ true
  walk_step-written s o (n, rows) =
      elim (Bool-cases (not redo && is_finished (slice_status action s.key rows))) [
        | inl skipped ↦ rw skipped (finished_some (slice_status action s.key rows) (ground arith))
        | inr asked_now ↦ rw (
          asked_now,
          slice_status-record_slice action s (judged action s o rows (asked action pages s o)) rows,
        )
      ]
    where
      finished_some : (o : Option Status) → is_finished o ≡ true → is_some o ≡ true
      finished_some none h = cc
      finished_some (some st) h = refl

  walk_from-written :
      (slices : List (Slice × Outside)) (w : Summary × List SliceRow)
      → All
          (λ so.
            is_some (slice_status action so.0.key (walk_from action redo pages slices w).1) ≡ true)
          slices
  walk_from-written [] w = tt
  walk_from-written ((s, o) ∷ rest) w = (
    walk_from-kept action s.key redo pages rest (walk_step action redo pages (s, o) w)
        (walk_step-written s o w),
    walk_from-written rest (walk_step action redo pages (s, o) w),
  )

  -- No slice is lost: after a walk every slice that it was given has a status written down, whether
  -- the client answered for it or not.
  pub walk-written :
      (slices : List (Slice × Outside)) (rows : List SliceRow)
      → All
          (λ so.
            is_some (slice_status action so.0.key (walk action redo pages slices rows).1) ≡ true)
          slices
  unfolding walk
  walk-written slices rows = walk_from-written slices (no_counts, rows)

  walk_step-total :
      (so : Slice × Outside) (w : Summary × List SliceRow)
      → total (walk_step action redo pages so w).0 ≡ suc (total w.0)
  walk_step-total (s, o) (n, rows) =
      elim (Bool-cases (not redo && is_finished (slice_status action s.key rows))) [
        | inl skipped ↦ rw skipped (omega arith)
        | inr asked_now ↦
            rw asked_now
              (counted-total (status (judged action s o rows (asked action pages s o))) n)
      ]

  walk_from-total :
      (slices : List (Slice × Outside)) (w : Summary × List SliceRow)
      → total (walk_from action redo pages slices w).0 ≡ length slices + total w.0
  walk_from-total [] w = omega arith
  walk_from-total (so ∷ rest) w =
      omega (arith, walk_from-total rest (walk_step action redo pages so w), walk_step-total so w)

  -- The summary of a walk accounts for each slice once: its counts add up to the number of slices.
  pub walk-total :
      (slices : List (Slice × Outside)) (rows : List SliceRow)
      → total (walk action redo pages slices rows).0 ≡ length slices
  unfolding walk
  walk-total slices rows = omega (arith, walk_from-total slices (no_counts, rows))
