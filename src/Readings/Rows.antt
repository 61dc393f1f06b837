-- ===== src/Readings/Rows.antt =====
-- src/docketyard/text/load.py: what a reading is, and the tables that it is loaded into. A real number
-- is the text that names it, and the bytes of a file are a list of numbers.
use docket_yard.Prelude.{ℕ, String, Option, some, List}
use docket_yard.Assertions.Supersede.{Columns}

pub record RouteNote : Type 0 where
  pub route_class : String
  pub method : String
  pub method_version : String

-- The natural key of a reading.
pub record Key : Type 0 where
  pub method : String
  pub method_version : String
  pub render_profile : String

pub record Agreement : Type 0 where
  pub distance : String
  pub method : String
  pub method_version : String
  pub against : Key

pub record Page : Type 0 where
  pub page_no : ℕ
  pub text : String
  pub text_sha256 : String
  pub member : String
  pub engine_confidence : Option String
  pub route : Option RouteNote
  pub agreement : Option Agreement

pub record PageFailure : Type 0 where
  pub page_no : ℕ
  pub reason : String
  pub classifier : String
  pub classifier_version : String
  pub detail : Option String

pub record Header : Type 0 where
  pub document_sha256 : String
  pub key : Key
  pub reading_channel : String
  pub reading_role : String
  pub ran_at : String
  pub outcome : String
  pub pages_failed : ℕ
  pub payload_kind : String
  pub route : Option RouteNote
  pub note : Option String
  pub dispatched_at : Option String
  pub page_failures : Option (List PageFailure)

-- A header with its body: the file's bytes and its pages.
pub record Reading : Type 0 where
  pub header : Header
  pub payload : List ℕ
  pub pages : List Page

-- The agreement quadruple of a row, its fields together or not at all.
pub record Measured : Type 0 where
  pub against : ℕ
  pub distance : String
  pub method : String
  pub method_version : String

-- table `document_text`
pub record TextRow : Type 0 where
  pub text_id : ℕ
  pub document_sha256 : String
  pub page_no : ℕ
  pub key : Key
  pub reading_channel : String
  pub reading_role : String
  pub route : Option RouteNote
  pub text : String
  pub text_sha256 : String
  pub engine_confidence : Option String
  pub agreement : Option Measured
  pub payload_digest : String
  pub payload_member : String
  pub asserted_at : ℕ
  pub superseded_by : Option ℕ
  pub superseded_at : Option ℕ

abbrev pub text_columns : Columns TextRow
text_columns = record {
  id_of = λ r. r.text_id;
  superseded_by = λ r. r.superseded_by;
  point = λ n r. record r { superseded_by = some n };
  stamp = λ t r. record r { superseded_at = some t };
}

-- table `ocr_run`
pub record Run : Type 0 where
  pub run_id : ℕ
  pub document_sha256 : String
  pub key : Key
  pub reading_channel : String
  pub outcome : String
  pub pages_read : ℕ
  pub pages_failed : ℕ
  pub note : Option String
  pub ran_at : String
  pub dispatch_id : Option ℕ

-- table `text_payload`
pub record Payload : Type 0 where
  pub payload_digest : String
  pub payload_kind : String
  pub size_bytes : ℕ
  pub first_seen_at : ℕ

pub record FailureRow : Type 0 where
  pub run_id : ℕ
  pub failure : PageFailure

-- What a load reads and writes; `page_fts` by its rows, `blobs` by their digests.
pub record Store : Type 0 where
  pub document : List String
  pub document_text : List TextRow
  pub text_payload : List Payload
  pub ocr_run : List Run
  pub ocr_page_failure : List FailureRow
  pub page_fts : List (ℕ × String)
  pub blobs : List String
