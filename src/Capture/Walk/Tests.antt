-- ===== src/Capture/Walk/Tests.antt =====
-- Runs of src/docketyard/capture/walk.py, `month_slices` and `walk`, over a few months.
use docket_yard.Prelude.{ℕ, ◌+◌, ◌≡◌, refl, true, false, List, none, some, [], ◌∷◌, All, arith}
use docket_yard.Prelude.Table.{any}
use docket_yard.Fleet.Rows.{is_some}
use docket_yard.Capture.Slice.{Action, Status, status, SliceResult, unparsed, failed, fresh_result}
use docket_yard.Capture.Months.{Key, Slice, month_slice, month_slices}
use docket_yard.Capture.Months.Cover.{asks_for, names_day, in_range, any-month_slices}
use docket_yard.Capture.Walk.{
  SliceRow, slice_status, answered, walked_whole, reconcile_empty_month, Outside, judged,
  is_finished, walk,
}
use docket_yard.Capture.Walk.Proof.{Proves, judged-Proves}
use docket_yard.Capture.Walk.Resume.{walk-finished, walk-written}

-- From 5 March to 20 April of year 1, a day of March.
abbrev march_april : List Slice
march_april =
    month_slice Action.filings ("filingStartDate", "filingEndDate") 14 5 31
    ∷ month_slice Action.filings ("filingStartDate", "filingEndDate") 15 1 20
    ∷ []

march_april-month_slices : month_slices Action.filings 14 5 15 20 ≡ some march_april
unfolding month_slices
march_april-month_slices = refl

any-month_slices_example :
    (any (asks_for Action.filings 14 7) march_april ≡ in_range 14 5 15 20 14 7)
    × (any (names_day 14 7) march_april ≡ in_range 14 5 15 20 14 7)
any-month_slices_example =
    any-month_slices 14 7 (omega arith) Action.filings 14 5 15 20 march_april
      march_april-month_slices (omega arith) (omega arith) (omega arith) (omega arith)

-- May of year 1, which answers the envelope; June is walked, with 40 rows, which the window of both
-- months totals too.
abbrev may : Slice
may = month_slice Action.filings ("filingStartDate", "filingEndDate") 16 1 31

abbrev june_row : SliceRow
june_row = record {
  table_action = Action.filings;
  slice_key = Key.whole_month 17;
  criteria = [];
  status = Status.done;
  rows = 40;
  captures = 1;
}

abbrev quiet : Outside
quiet = record {
  first = λ _ _. unparsed true;
  refreshes = true;
  second = λ _ _. failed;
  window = λ _ _. answered 40 40 true;
}

abbrev met_envelope : SliceResult
met_envelope = record (fresh_result false) {
  captures = 1;
  quarantined = true;
  envelope_on_first_page = true;
}

june-whole : walked_whole Action.filings (june_row ∷ []) 17 ≡ true
unfolding walked_whole
june-whole = refl

may-proof :
    (reconcile_empty_month (walked_whole Action.filings (june_row ∷ [])) quiet.window 16).proof
    ≡ some (17, 40)
unfolding reconcile_empty_month walked_whole
may-proof = refl

may-empty : status (judged Action.filings may quiet (june_row ∷ []) met_envelope) ≡ Status.empty
unfolding judged status reconcile_empty_month walked_whole
may-empty = refl

judged-Proves_example :
    (n : ℕ) × (t : ℕ) × Proves (walked_whole Action.filings (june_row ∷ [])) quiet.window 16 n t
judged-Proves_example =
    judged-Proves Action.filings may quiet (june_row ∷ []) met_envelope 16 refl refl may-empty

-- The window of both months totals other than June, though May is declared empty.
abbrev doubted : Outside
doubted = record quiet { window = λ a b. answered 40 (a + b) true }

doubted-unproven :
    (reconcile_empty_month (walked_whole Action.filings (june_row ∷ [])) doubted.window 16).proof
    ≡ none
unfolding reconcile_empty_month walked_whole
doubted-unproven = refl

june-finished :
    is_finished (slice_status Action.filings (Key.whole_month 17) (june_row ∷ [])) ≡ true
unfolding slice_status
june-finished = refl

walk-finished_example :
    slice_status Action.filings
      (Key.whole_month 17)
      (walk Action.filings false 200 ((may, quiet) ∷ []) (june_row ∷ [])).1
    ≡ slice_status Action.filings (Key.whole_month 17) (june_row ∷ [])
walk-finished_example =
    walk-finished Action.filings (Key.whole_month 17) 200 ((may, quiet) ∷ []) (june_row ∷ [])
      june-finished

walk-written_example :
    All
      (λ (so : Slice × Outside).
        is_some (
          slice_status Action.filings so.0.key
            (walk Action.filings true 200 ((may, quiet) ∷ []) (june_row ∷ [])).1)
        ≡ true)
      ((may, quiet) ∷ [])
walk-written_example = walk-written Action.filings true 200 ((may, quiet) ∷ []) (june_row ∷ [])
