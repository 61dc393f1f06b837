-- ===== src/Capture/Slice/Tests.antt =====
-- Runs of src/docketyard/capture/walk.py, `capture_slice`, at small endpoints.
use docket_yard.Prelude.{
  ℕ, ◌+◌, ◌≤◌, ◌<◌, ◌≡◌, ◌≢◌, refl, true, false, some, none, zero, suc, [], ◌∷◌,
}
use docket_yard.Capture.Slice.{
  Action, Status, status, reconciles, Reply, parsed, unparsed, Paging, ended, spent, display_cap,
  capture_slice,
}
use docket_yard.Capture.Slice.Ledger.{IsLedger, slice-IsLedger, captures_of, captures-capture_slice}
use docket_yard.Capture.Slice.Ends.{slice-done}

-- Two full pages, a rotated nonce at the third, and the rest once it is fresh.
abbrev rotated : ℕ → ℕ → Reply
rotated zero _ = parsed 50 120 true
rotated (suc zero) _ = parsed 50 120 true
rotated (suc (suc zero)) _ = unparsed true
rotated (suc (suc (suc _))) _ = parsed 20 120 true

abbrev ran : Paging
ran = record {
  result = record {
    rows = 120;
    captures = 4;
    total = some 120;
    complete = true;
    capped = false;
    quarantined = false;
    envelope_on_first_page = false;
    expected_empty = false;
  };
  ledger =
      record { filter_asserted = true; row_count = 20; reported_total = 120; processed = false }
      ∷ record { filter_asserted = false; row_count = 0; reported_total = 0; processed = false }
      ∷ record { filter_asserted = true; row_count = 50; reported_total = 120; processed = false }
      ∷ record { filter_asserted = true; row_count = 50; reported_total = 120; processed = false }
      ∷ [];
}

rotated-ran : capture_slice Action.dockets 50 10 false rotated ≡ ended ran
unfolding capture_slice reconciles
rotated-ran = refl

slice-IsLedger_example : IsLedger ran
slice-IsLedger_example = slice-IsLedger Action.dockets 50 10 false rotated ran rotated-ran

-- An endpoint that answers the envelope whenever it is asked past a full first page.
abbrev stuck : ℕ → ℕ → Reply
stuck zero _ = parsed 50 120 true
stuck (suc _) _ = unparsed true

captures-capture_slice_example :
    (capture_slice Action.dockets 50 10 false stuck ≢ spent)
    × (captures_of (capture_slice Action.dockets 50 10 false stuck) ≤ 10 + 1)
captures-capture_slice_example = captures-capture_slice Action.dockets 50 10 false stuck

ran-done : status ran.result ≡ Status.done
unfolding status
ran-done = refl

slice-done_example :
    (t : ℕ) × (ran.result.total ≡ some t) × (ran.result.rows ≡ t) × (t < display_cap)
slice-done_example = slice-done Action.dockets 50 10 false rotated ran rotated-ran refl ran-done

-- A month declared empty that answers the envelope at once.
abbrev void : Paging
void = record {
  result = record {
    rows = 0;
    captures = 1;
    total = none;
    complete = false;
    capped = false;
    quarantined = true;
    envelope_on_first_page = true;
    expected_empty = true;
  };
  ledger =
      record { filter_asserted = false; row_count = 0; reported_total = 0; processed = false } ∷ [];
}

void-ran : capture_slice Action.filings 50 200 true (λ _ _. unparsed true) ≡ ended void
unfolding capture_slice reconciles
void-ran = refl

void-empty : status void.result ≡ Status.empty
unfolding status
void-empty = refl
