-- ===== src/Readings/Load.antt =====
-- src/docketyard/text/load.py, `load_reading`: one reading into `document_text`, `text_payload`,
-- `ocr_run`, `ocr_page_failure` and the blobs. The digest of a file is a parameter.
pub mod Branches
pub mod Over
pub mod Once
pub mod Live
pub mod Kept
pub mod Again
pub mod Quiet
pub mod Entries
pub mod Indexed
mod Tests
use docket_yard.Prelude.{
  ℕ, suc, ◌+◌, String, Bool, true, false, not, ◌&&◌, ◌||◌, Option, none, some, List, [], ◌∷◌, ◌++◌,
  map, max, length, str_eq, ltb, ◌==◌, if◌then◌else◌,
}
use docket_yard.Prelude.Table.{any, find, update_where, delete_where}
use docket_yard.Fleet.Rows.{is_some}
use docket_yard.Assertions.Supersede.{Columns, is_live, live_row, next_id, retire}
use docket_yard.Readings.Rows.{
  RouteNote, Key, Agreement, Page, PageFailure, Header, Reading, Measured, TextRow, text_columns,
  Run, Payload, FailureRow, Store,
}
use docket_yard.Readings.Pages.{same_reading_key, Loaded, ok, unreadable, load_page, load_pages}
use docket_yard.Readings.Pins.{PinKey, Producer, Declaration, same_producer, pinned}

-- What `load_reading` returns.
pub data Said : Type 0 where
  loaded unchanged restart run_only unknown_document : Said

-- `_run_recorded`
abbrev pub run_recorded : Header → List Run → Bool
run_recorded h = any (λ r.
    (str_eq r.document_sha256 h.document_sha256 && same_reading_key r.key h.key)
    && (str_eq r.reading_channel h.reading_channel && str_eq r.ran_at h.ran_at))

abbrev pub greatest_run : List Run → ℕ
greatest_run [] = 0
greatest_run (r ∷ rs) = max r.run_id (greatest_run rs)

abbrev pub run_row : Header → (pages_read : ℕ) (dispatch_id : Option ℕ) → ℕ → Run
run_row h pages_read dispatch_id i = record {
  run_id = i;
  document_sha256 = h.document_sha256;
  key = h.key;
  reading_channel = h.reading_channel;
  outcome = h.outcome;
  pages_read = pages_read;
  pages_failed = h.pages_failed;
  note = h.note;
  ran_at = h.ran_at;
  dispatch_id = dispatch_id;
}

abbrev pub failure_rows : ℕ → Option (List PageFailure) → List FailureRow
failure_rows run_id none = []
failure_rows run_id (some fs) = map (λ f. record { run_id = run_id; failure = f }) fs

-- INSERT OR IGNORE: the digest is the row's identity.
abbrev pub hold_payload : Payload → List Payload → List Payload
hold_payload p ps =
    if any (λ (q : Payload). str_eq q.payload_digest p.payload_digest) ps then ps else ps ++ p ∷ []

-- `save_blob` writes nothing over a blob that is held.
abbrev pub save_blob : String → List String → List String
save_blob digest held = if any (str_eq digest) held then held else digest ∷ held

abbrev pub pin_key : Header → PinKey
pin_key h = record {
  reading_channel = h.reading_channel;
  render_profile = h.key.render_profile;
  reading_role = h.reading_role;
}

-- The key is pinned to another producer.
abbrev pub barred : Header → Option Producer → Bool
barred h none = false
barred h (some pin) =
    not
      (same_producer pin (record { method = h.key.method; method_version = h.key.method_version }))

-- `stamp(h)` where a stamp is given: the dispatch, or `Unreadable`.
abbrev pub stamped : Header → Option (Header → Option ℕ) → Loaded (Option ℕ)
stamped h none = ok none
stamped h (some stamp) = elim (stamp h) [
  | none ↦ unreadable
  | some dispatch_id ↦ ok (some dispatch_id)
]

abbrev pub said : List Page → Bool → Said
said [] written = Said.run_only
said (_ ∷ _) written = if written then Said.loaded else Said.unchanged

-- The run, its page failures and the blob, once the pages are in.
abbrev pub record_run :
    Reading
    → (digest : String) (dispatch_id : Option ℕ) → Store
    → Loaded (Bool × (List TextRow × List (ℕ × String)))
    → Loaded (Said × Store)
record_run r digest dispatch_id s unreadable = unreadable
record_run r digest dispatch_id s (ok (written, (rows, fts))) =
    let run_id = suc (greatest_run s.ocr_run) in
    ok (
      said r.pages written,
      record s {
        document_text = rows;
        page_fts = fts;
        ocr_run = s.ocr_run ++ run_row r.header (length r.pages) dispatch_id run_id ∷ [];
        ocr_page_failure = s.ocr_page_failure ++ failure_rows run_id r.header.page_failures;
        blobs = save_blob digest s.blobs;
      },
    )

module _ (digest_of : List ℕ → String) (display : String → String) where
  abbrev pub with_payload : Reading → (now : ℕ) → Store → Store
  with_payload r now s = record s {
    text_payload =
        hold_payload
          (record {
            payload_digest = digest_of r.payload;
            payload_kind = r.header.payload_kind;
            size_bytes = length r.payload;
            first_seen_at = now;
          })
          s.text_payload;
  }

  abbrev pub take_in : Reading → (now : ℕ) → Store → Loaded (Option ℕ) → Loaded (Said × Store)
  take_in r now s unreadable = unreadable
  take_in r now s (ok dispatch_id) =
      let digest = digest_of r.payload in
      record_run r digest dispatch_id (with_payload r now s) (
        load_pages display r.header digest now s.document_text r.pages
          (s.document_text, s.page_fts))

  -- `load_reading`: `machine` are the channels of a model, and `declared` the rows that `pins` reads.
  unfoldable pub load_reading :
      (machine : List String) (declared : List Declaration) (stamp : Option (Header → Option ℕ))
      (now : ℕ)
      → Reading
      → Store
      → Loaded (Said × Store)
  unfolding pinned load_page
  load_reading machine declared stamp now r s =
      let h = r.header in
      let taken = take_in r now s (stamped h stamp) in
      if not (any (str_eq h.reading_channel) machine)
      then unreadable
      else (if not (any (str_eq h.document_sha256) s.document)
          then ok (Said.unknown_document, s)
          else (if run_recorded h s.ocr_run
              then ok (Said.restart, s)
              else (if barred h (pinned (pin_key h) declared) then unreadable else taken)))
