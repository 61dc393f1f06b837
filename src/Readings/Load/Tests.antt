-- ===== src/Readings/Load/Tests.antt =====
-- Runs of src/docketyard/text/load.py, `load_reading`, with one digest for every file and the index
-- showing a text as it is.
use docket_yard.Prelude.{ℕ, ◌≤◌, ◌≡◌, ◌≢◌, refl, String, none, some, List, [], ◌∷◌, arith}
use docket_yard.Assertions.Supersede.{retire}
use docket_yard.Readings.Rows.{Key, Header, Reading, Page, TextRow, Run, Store}
use docket_yard.Readings.Pages.{ok, in_role}
use docket_yard.Readings.Load.{Said, load_reading}
use docket_yard.Readings.Load.Again.{load_reading-again}
use docket_yard.Readings.Load.Quiet.{load_reading-quiet}
use docket_yard.Readings.Load.Kept.{Grows, load_reading-Grows}
use docket_yard.Readings.Load.Over.{lives}
use docket_yard.Readings.Load.Indexed.{IsSearchable, load_reading-IsSearchable}
use docket_yard.Readings.Load.Live.{load_reading-live}

abbrev one_digest : List ℕ → String
one_digest _ = "d1"

abbrev as_it_is : String → String
as_it_is s = s

abbrev text_layer : Key
text_layer = record { method = "pymupdf"; method_version = "1.24"; render_profile = "native" }

abbrev ocr : Key
ocr = record { method = "dots"; method_version = "1.5"; render_profile = "150" }

abbrev page : ℕ → String → Page
page n text = record {
  page_no = n;
  text = text;
  text_sha256 = text;
  member = "pages";
  engine_confidence = none;
  route = none;
  agreement = none;
}

abbrev header : Header
header = record {
  document_sha256 = "a";
  key = ocr;
  reading_channel = "ocr";
  reading_role = "primary";
  ran_at = "t1";
  outcome = "read";
  pages_failed = 0;
  payload_kind = "dots.json";
  route = none;
  note = none;
  dispatched_at = none;
  page_failures = none;
}

abbrev reading : Reading
reading = record { header = header; payload = 1 ∷ 2 ∷ []; pages = page 1 "new" ∷ page 2 "two" ∷ [] }

abbrev held : TextRow
held = record {
  text_id = 1;
  document_sha256 = "a";
  page_no = 1;
  key = text_layer;
  reading_channel = "text-layer";
  reading_role = "primary";
  route = none;
  text = "old";
  text_sha256 = "old";
  engine_confidence = none;
  agreement = none;
  payload_digest = "d0";
  payload_member = "page_text[0]";
  asserted_at = 5;
  superseded_by = none;
  superseded_at = none;
}

abbrev fresh_row : ℕ → ℕ → String → TextRow
fresh_row i n text = record held {
  text_id = i;
  page_no = n;
  key = ocr;
  reading_channel = "ocr";
  text = text;
  text_sha256 = text;
  payload_digest = "d1";
  payload_member = "pages";
  asserted_at = 9;
}

abbrev before : Store
before = record {
  document = "a" ∷ [];
  document_text = held ∷ [];
  text_payload = [];
  ocr_run = [];
  ocr_page_failure = [];
  page_fts = (1, "old") ∷ [];
  blobs = [];
}

abbrev its_run : Run
its_run = record {
  run_id = 1;
  document_sha256 = "a";
  key = ocr;
  reading_channel = "ocr";
  outcome = "read";
  pages_read = 2;
  pages_failed = 0;
  note = none;
  ran_at = "t1";
  dispatch_id = none;
}

abbrev after : Store
after = record {
  document = "a" ∷ [];
  document_text =
      record held { superseded_by = some 2; superseded_at = some 9 }
      ∷ fresh_row 2 1 "new"
      ∷ fresh_row 3 2 "two"
      ∷ [];
  text_payload =
      record {
        payload_digest = "d1";
        payload_kind = "dots.json";
        size_bytes = 2;
        first_seen_at = 9;
      }
      ∷ [];
  ocr_run = its_run ∷ [];
  ocr_page_failure = [];
  page_fts = (2, "new") ∷ (3, "two") ∷ [];
  blobs = "d1" ∷ [];
}

before-loaded :
    load_reading one_digest as_it_is ("ocr" ∷ []) [] none 9 reading before ≡ ok (Said.loaded, after)
unfolding load_reading retire
before-loaded = refl

-- A later pass of the same key that reads the same text.
abbrev second_pass : Reading
second_pass = record reading { header = record header { ran_at = "t2" } }

abbrev after_two : Store
after_two = record after { ocr_run = its_run ∷ record its_run { run_id = 2; ran_at = "t2" } ∷ [] }

after-unchanged :
    load_reading one_digest as_it_is ("ocr" ∷ []) [] none 11 second_pass after
    ≡ ok (Said.unchanged, after_two)
unfolding load_reading retire
after-unchanged = refl

not_unknown : (let x : Said = Said.loaded in x ≢ Said.unknown_document)
not_unknown e = cc

not_loaded : (let x : Said = Said.unchanged in x ≢ Said.loaded)
not_loaded e = cc

load_reading-again_example :
    load_reading one_digest as_it_is ("ocr" ∷ []) [] (some (λ h. none)) 20 reading after
    ≡ ok (Said.restart, after)
load_reading-again_example =
    load_reading-again one_digest as_it_is ("ocr" ∷ []) ("ocr" ∷ []) [] [] none (some (λ h. none)) 9
      20 reading before after Said.loaded before-loaded not_unknown refl

load_reading-quiet_example :
    (after_two.document_text ≡ after.document_text) × (after_two.page_fts ≡ after.page_fts)
load_reading-quiet_example =
    load_reading-quiet one_digest as_it_is ("ocr" ∷ []) [] none 11 second_pass after after_two
      Said.unchanged after-unchanged not_loaded

load_reading-Grows_example : Grows header "d1" (held ∷ []) after.document_text
load_reading-Grows_example =
    load_reading-Grows one_digest as_it_is ("ocr" ∷ []) [] none 9 reading before after Said.loaded
      before-loaded

apart_pages : (let one : ℕ = 1 in one ≢ 2)
apart_pages e = omega (arith, e)

load_reading-live_example : lives (in_role "a" 1 "primary") after.document_text ≤ 1
load_reading-live_example =
    load_reading-live one_digest as_it_is "a" 1 "primary" ("ocr" ∷ []) [] none 9 reading before
      after Said.loaded before-loaded ((apart_pages, tt), (tt, tt)) (omega arith)

load_reading-IsSearchable_example :
    IsSearchable as_it_is "a" 1 (after.document_text, after.page_fts)
load_reading-IsSearchable_example =
    load_reading-IsSearchable as_it_is "a" 1 one_digest ("ocr" ∷ []) [] none 9 reading before after
      Said.loaded before-loaded refl (refl, tt)
