-- ===== src/Capture/Slice.antt =====
-- src/docketyard/capture/walk.py, `capture_slice`: one set of criteria paged to its end. The endpoint
-- is a parameter: what the parse and the filter assertion make of each reply.
pub mod Ends
pub mod Ledger
mod Tests
use docket_yard.Prelude.{
  ℕ, zero, suc, ◌+◌, ◌-◌, Bool, true, false, not, ◌&&◌, ◌||◌, Option, none, some, List, [], ◌∷◌,
  min, ltb, leb, ◌==◌, if◌then◌else◌,
}

-- The tables, by their actions.
pub data Action : Type 0 where
  dockets filings decisions enviro_comments : Action

pub data Status : Type 0 where
  done empty capped partial : Status

pub record SliceResult : Type 0 where
  pub rows : ℕ
  pub captures : ℕ
  pub total : Option ℕ
  pub complete : Bool
  pub capped : Bool
  pub quarantined : Bool
  pub envelope_on_first_page : Bool
  pub expected_empty : Bool

-- `SliceResult.status`
unfoldable pub status : SliceResult → Status
status r =
    if r.envelope_on_first_page && r.expected_empty
    then Status.empty
    else if r.capped
    then Status.capped
    else if r.complete && not r.quarantined
    then Status.done
    else Status.partial

abbrev pub display_cap : ℕ
display_cap = 10000

abbrev pub page_clamp : ℕ
page_clamp = 50

-- Tables where one row of the total is one row of the pages.
abbrev pub counts_rows : Action → Bool
counts_rows dockets = true
counts_rows enviro_comments = true
counts_rows _ = false

-- `_reconciles`
unfoldable pub reconciles : Action → SliceResult → Bool
reconciles action r = elim r.total [
  | none ↦ true
  | some t ↦
      if not (counts_rows action)
      then true
      else if r.capped
      then leb display_cap r.rows
      else r.rows == t
]

-- A reply: rows with the total reported and whether the filter is asserted; a body that does not
-- parse, which may be the no-results envelope; or no reply, an exception of the client.
pub data Reply : Type 0 where
  parsed : (rows total : ℕ) (asserted : Bool) → Reply
  unparsed : (envelope : Bool) → Reply
  failed : Reply

-- What is recorded of a capture: `set_verdict`, and `mark_processed`.
pub record Verdict : Type 0 where
  pub filter_asserted : Bool
  pub row_count : ℕ
  pub reported_total : ℕ
  pub processed : Bool

-- The loop's variables, with the verdicts of the captures so far, the last first.
pub record Paging : Type 0 where
  pub result : SliceResult
  pub ledger : List Verdict

abbrev pub verdict : Bool → ℕ → ℕ → Bool → Paging → Paging
verdict asserted n total processed p = record p {
  ledger =
      (record {
        filter_asserted = asserted;
        row_count = n;
        reported_total = total;
        processed = processed;
      })
      ∷ p.ledger;
}

-- How a round of the loop ends.
pub data Move : Type 0 where
  returns : Paging → Move
  retries : Paging → Move
  turns : Paging → Move
  raises : Move

abbrev or_zero : Option ℕ → ℕ
or_zero none = 0
or_zero (some n) = n

-- `except ValueError`
abbrev on_unparsed : Action → (page : ℕ) (refreshed envelope : Bool) → Paging → Move
on_unparsed action page refreshed envelope p =
    let later = ltb 1 page && envelope in
    if later && reconciles action p.result
    then (let p' = verdict true 0 (or_zero p.result.total) true p in
        returns (record p' { result = record p.result { complete = true } }))
    else if later && not refreshed
    then retries (verdict false 0 0 false p)
    else (let p' = verdict false 0 0 false p in
        returns (record p' {
          result = record p.result {
            quarantined = true;
            envelope_on_first_page = (page == 1) && envelope;
          };
        }))

abbrev on_asserted : Action → (per_page n total : ℕ) → Paging → Move
on_asserted action per_page n total p =
    let r = record p.result {
      rows = p.result.rows + n;
      total = some total;
      capped = p.result.capped || leb display_cap total;
    } in
    if (n == 0) || ltb n (min per_page page_clamp)
    then returns (record p { result = record r { complete = r.complete || reconciles action r } })
    else turns (record p { result = r })

-- One round: the capture is counted, judged, and the reply acted on.
unfoldable pub round : Action → (per_page page : ℕ) (refreshed : Bool) → Reply → Paging → Move
unfolding reconciles
round action per_page page refreshed failed p = raises
round action per_page page refreshed (unparsed envelope) p =
    let counted = record p { result = record p.result { captures = p.result.captures + 1 } } in
    on_unparsed action page refreshed envelope counted
round action per_page page refreshed (parsed n total asserted) p =
    let counted = record p { result = record p.result { captures = p.result.captures + 1 } } in
    let judged = verdict asserted n total false counted in
    if asserted
    then on_asserted action per_page n total judged
    else returns (record judged { result = record judged.result { quarantined = true } })

-- How the loop ends: it returns, the client raises, or the rounds given to it are spent while it asks
-- for more.
pub data Paged : Type 0 where
  ended : Paging → Paged
  raised : Paging → Paged
  spent : Paged

-- `while page <= pages`, for at most so many rounds; `refreshed` is `nonce_refreshed`. The reply to a
-- request is by the number of captures before it and the page it asks for.
module _ (action : Action) (per_page pages : ℕ) (reply : ℕ → ℕ → Reply) where
  unfoldable pub slice_pages : (rounds page : ℕ) (refreshed : Bool) → Paging → Paged
  slice_pages zero page refreshed p = spent
  slice_pages (suc rounds) page refreshed p = elim (leb page pages) [
    | false ↦ ended p
    | true ↦ elim (round action per_page page refreshed (reply p.result.captures page) p) [
      | returns p' ↦ ended p'
      | retries p' ↦ slice_pages rounds page true p'
      | turns p' ↦ slice_pages rounds (page + 1) refreshed p'
      | raises ↦ raised p
    ]
  ]

abbrev pub fresh_result : Bool → SliceResult
fresh_result expected_empty = record {
  rows = 0;
  captures = 0;
  total = none;
  complete = false;
  capped = false;
  quarantined = false;
  envelope_on_first_page = false;
  expected_empty = expected_empty;
}

abbrev pub start : Bool → Paging
start expected_empty = record { result = fresh_result expected_empty; ledger = [] }

-- A round for each page, one for the retry and one that ends the loop.
unfoldable pub capture_slice :
    Action → (per_page pages : ℕ) (expected_empty : Bool) → (ℕ → ℕ → Reply) → Paged
unfolding slice_pages round
capture_slice action per_page pages expected_empty reply =
    slice_pages action per_page pages reply (pages + 2) 1 false (start expected_empty)
