-- ===== src/Capture/Walk.antt =====
-- src/docketyard/capture/walk.py, `walk`: every slice asked, judged and written down in
-- `walk_slice`. What the endpoint would answer for each slice is a parameter beside it.
pub mod Proof
pub mod Resume
mod Tests
use docket_yard.Prelude.{
  map, ℕ, zero, suc, ◌+◌, ◌-◌, Bool, true, false, not, ◌&&◌, ◌||◌, Option, none, some, List, [],
  ◌∷◌, ◌++◌, String, ltb, leb, ◌==◌, if◌then◌else◌,
}
use docket_yard.Prelude.Table.{select, any, all, find, delete_where}
use docket_yard.Fleet.Rows.{is_some}
use docket_yard.Capture.Slice.{
  Action, dockets, filings, decisions, enviro_comments, SliceResult, Status, done, empty, capped,
  partial, status, Verdict, Paging, Reply, ended, raised, spent, display_cap, capture_slice,
  fresh_result, page_clamp,
}
use docket_yard.Capture.Months.{
  Key, same_key, slice_month, slice_days, month_days, Criteria, Slice, month_slices,
}

abbrev pub same_action : Action → Action → Bool
same_action dockets dockets = true
same_action filings filings = true
same_action decisions decisions = true
same_action enviro_comments enviro_comments = true
same_action _ _ = false

-- table `walk_slice`, but `completed_at`
pub record SliceRow : Type 0 where
  pub table_action : Action
  pub slice_key : Key
  pub criteria : Criteria
  pub status : Status
  pub rows : ℕ
  pub captures : ℕ

abbrev pub keyed : Action → Key → SliceRow → Bool
keyed action key r = same_action r.table_action action && same_key r.slice_key key

abbrev pub status_of : Option SliceRow → Option Status
status_of none = none
status_of (some r) = some r.status

unfoldable pub slice_status : Action → Key → List SliceRow → Option Status
slice_status action key rows = status_of (find (keyed action key) rows)

abbrev pub slice_row : Action → Slice → SliceResult → SliceRow
slice_row action s r = record {
  table_action = action;
  slice_key = s.key;
  criteria = s.criteria;
  status = status r;
  rows = r.rows;
  captures = r.captures;
}

-- INSERT OR REPLACE
unfoldable pub record_slice : Action → Slice → SliceResult → List SliceRow → List SliceRow
record_slice action s r rows = delete_where (keyed action s.key) rows ++ slice_row action s r ∷ []

abbrev pub is_done : Status → Bool
is_done Status.done = true
is_done _ = false

abbrev pub done_of : Action → ℕ → SliceRow → Bool
done_of action m r =
    same_action r.table_action action
    && is_done r.status
    && elim (slice_month r.slice_key) [ none ↦ false | some n ↦ n == m ]

-- `m in done`: the done slices of a month ask for all its days together, over `_done_keys`.
unfoldable pub walked_whole : Action → List SliceRow → ℕ → Bool
walked_whole action rows m =
    any (done_of action m) rows
    && all (λ d. any (λ r. done_of action m r && any (λ e. e == d) (slice_days r.slice_key)) rows)
        (month_days m)

-- What a request for a window of whole months comes to: a total, a body that does not parse, or an
-- exception on this side.
pub data Window : Type 0 where
  answered : (rows total : ℕ) (asserted : Bool) → Window
  unread : Window
  lost : Window

-- The nearest whole month within `left` steps, forward or back; there is no month before the first.
abbrev pub nearest : (whole : ℕ → Bool) (forward : Bool) (left m : ℕ) → Option ℕ
nearest whole forward zero m = none
nearest whole true (suc left) m =
    let rest = nearest whole true left (suc m) in if whole (suc m) then some (suc m) else rest
nearest whole false (suc left) zero = none
nearest whole false (suc left) (suc m) =
    let rest = nearest whole false left m in if whole m then some m else rest

-- A total counts only if the filter was asserted and the cap was not hit.
abbrev pub trusted : Window → Option ℕ
trusted (answered _ t asserted) = if asserted && not (leb display_cap t) then some t else none
trusted _ = none

abbrev pub window_verdict : Window → List Verdict
window_verdict (answered n t asserted) =
    (record { filter_asserted = asserted; row_count = n; reported_total = t; processed = true })
    ∷ []
window_verdict unread =
    (record { filter_asserted = false; row_count = 0; reported_total = 0; processed = true }) ∷ []
window_verdict lost = []

-- What the comparison of a side says: the proof, a neighbour and its total; and whether it could
-- have been one.
pub record Finding : Type 0 where
  pub proof : Option (ℕ × ℕ)
  pub compared : Bool
  pub ledger : List Verdict

abbrev pub is_lost : Window → Bool
is_lost lost = true
is_lost _ = false

abbrev pub is_unread : Window → Bool
is_unread unread = true
is_unread _ = false

abbrev positive : Option ℕ → Bool
positive none = false
positive (some t) = ltb 0 t

abbrev equal_totals : Option ℕ → Option ℕ → Bool
equal_totals (some a) (some b) = a == b
equal_totals _ _ = false

abbrev or_zero : Option ℕ → ℕ
or_zero none = 0
or_zero (some n) = n

-- One side whose nearest whole month is `neighbour`; `adjacent` if that is the very next one. `own`
-- answers for the neighbour's window and `across` for that from it over the doubted months.
abbrev pub side : (neighbour : ℕ) (adjacent : Bool) (own across : Window) → Finding → Finding
side neighbour adjacent own across f =
    if is_lost own
    then f
    else if is_lost across
    then record f { ledger = f.ledger ++ window_verdict own }
    else (record {
      proof =
          (if equal_totals (trusted own) (trusted across)
            then some (neighbour, or_zero (trusted own))
            else f.proof);
      compared =
          f.compared
          || (adjacent
              && ((is_some (trusted own) && is_some (trusted across))
                  || (is_unread across && positive (trusted own))));
      ledger = f.ledger ++ window_verdict own ++ window_verdict across;
    })

abbrev look :
    (whole : ℕ → Bool) (window : ℕ → ℕ → Window) (forward : Bool) (m : ℕ) → Finding → Finding
look whole window forward m f = elim (nearest whole forward 12 m) [
  | none ↦ f
  | some n ↦
      side n (if forward then n == (m + 1) else (n + 1) == m) (window n n)
        (if forward then window m n else window n m) f
]

-- The side after the month first; the side before it only without a proof.
unfoldable pub reconcile_empty_month :
    (whole : ℕ → Bool) (window : ℕ → ℕ → Window) (m : ℕ) → Finding
reconcile_empty_month whole window m =
    let after = look whole window true m (record { proof = none; compared = false; ledger = [] }) in
    let before = look whole window false m after in if is_some after.proof then after else before

-- What the client does for a slice: at the first asking; whether its nonces refresh if that raised;
-- at the second; and for the windows of the proof, by their first and last months.
pub record Outside : Type 0 where
  pub first : ℕ → ℕ → Reply
  pub refreshes : Bool
  pub second : ℕ → ℕ → Reply
  pub window : ℕ → ℕ → Window

-- `SliceResult(quarantined=True)`
abbrev pub stranded : SliceResult
stranded = record (fresh_result false) { quarantined = true }

-- A slice asked, and asked once more if the client raised.
unfoldable pub asked : Action → (pages : ℕ) → Slice → Outside → SliceResult
asked action pages s o = elim (capture_slice action page_clamp pages s.expected_empty o.first) [
  | ended p ↦ p.result
  | raised _ ↦
      if o.refreshes
      then elim (capture_slice action page_clamp pages s.expected_empty o.second) [
        | ended p ↦ p.result
        | raised _ ↦ stranded
        | spent ↦ stranded
      ]
      else stranded
  | spent ↦ stranded
]

-- A month that answered the envelope is empty if that is proven, or if it is declared and nothing
-- that could have proven it spoke against it.
unfoldable pub judged : Action → Slice → Outside → List SliceRow → SliceResult → SliceResult
judged action s o rows r = elim s.month [
  | none ↦ r
  | some m ↦
      let f = reconcile_empty_month (walked_whole action rows) o.window m in
      if r.envelope_on_first_page
      then record r { expected_empty = is_some f.proof || (r.expected_empty && not f.compared) }
      else r
]

-- The counts of the summary.
pub record Summary : Type 0 where
  pub done : ℕ
  pub empty : ℕ
  pub capped : ℕ
  pub partial : ℕ
  pub skipped : ℕ

abbrev pub counted : Status → Summary → Summary
counted Status.done n = record n { done = n.done + 1 }
counted Status.empty n = record n { empty = n.empty + 1 }
counted Status.capped n = record n { capped = n.capped + 1 }
counted Status.partial n = record n { partial = n.partial + 1 }

abbrev pub is_finished : Option Status → Bool
is_finished none = false
is_finished (some Status.partial) = false
is_finished (some _) = true

abbrev pub walk_step :
    Action
    → (redo : Bool) (pages : ℕ) → Slice × Outside
    → Summary × List SliceRow
    → Summary × List SliceRow
walk_step action redo pages (s, o) (n, rows) =
    let r = judged action s o rows (asked action pages s o) in
    if not redo && is_finished (slice_status action s.key rows)
    then (record n { skipped = n.skipped + 1 }, rows)
    else (counted (status r) n, record_slice action s r rows)

abbrev pub walk_from :
    Action
    → (redo : Bool) (pages : ℕ) → List (Slice × Outside)
    → Summary × List SliceRow
    → Summary × List SliceRow
walk_from action redo pages [] w = w
walk_from action redo pages (so ∷ rest) w =
    walk_from action redo pages rest (walk_step action redo pages so w)

abbrev pub no_counts : Summary
no_counts = record { done = 0; empty = 0; capped = 0; partial = 0; skipped = 0 }

unfoldable pub walk :
    Action
    → (redo : Bool) (pages : ℕ) → List (Slice × Outside)
    → List SliceRow
    → Summary × List SliceRow
walk action redo pages slices rows = walk_from action redo pages slices (no_counts, rows)

-- From the day `a` of the month `start` to the day `b` of the month `end`; none is the ValueError of an
-- empty range, or the KeyError of a table without a spec.
unfoldable pub walk_observations :
    Action
    → (start a end b : ℕ) (redo : Bool) → (Slice → Outside)
    → List SliceRow
    → Option (Summary × List SliceRow)
walk_observations action start a end b redo outside rows =
    if ltb end start || ((start == end) && ltb b a)
    then none
    else elim (month_slices action start a end b) [
      | none ↦ none
      | some slices ↦ some (walk action redo 200 (map (λ s. (s, outside s)) slices) rows)
    ]
