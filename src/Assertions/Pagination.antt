-- ===== src/Assertions/Pagination.antt =====
-- src/docketyard/text/paginate.py, `paginate_document`: one row per document in
-- `document_pagination`.
pub mod Kept
mod Tests
use docket_yard.Prelude.{
  ℕ, ◌+◌, String, Bool, true, false, not, ◌&&◌, Option, none, some, List, [], ◌∷◌, str_eq, ◌==◌,
  if◌then◌else◌,
}
use docket_yard.Prelude.Table.{find, any}
use docket_yard.Assertions.Supersede.{Columns, live_row, if_changed}

-- table `document_pagination`
pub record PaginationRow : Type 0 where
  pub pagination_id : ℕ
  pub document_sha256 : String
  pub outcome : String
  pub page_count : Option ℕ
  pub had_text_layer : Option ℕ
  pub method : String
  pub method_version : String
  pub asserted_at : ℕ
  pub confidence_state : String
  pub superseded_by : Option ℕ
  pub superseded_at : Option ℕ

abbrev pub pagination_columns : Columns PaginationRow
pagination_columns = record {
  id_of = λ r. r.pagination_id;
  superseded_by = λ r. r.superseded_by;
  point = λ n r. record r { superseded_by = some n };
  stamp = λ t r. record r { superseded_at = some t };
}

-- `docketyard.text.paginate.Pagination`
pub record Pagination : Type 0 where
  pub document_sha256 : String
  pub outcome : String
  pub page_count : Option ℕ
  pub had_text_layer : Option ℕ
  pub method : String
  pub method_version : String

abbrev pub same_number : Option ℕ → Option ℕ → Bool
same_number none none = true
same_number (some a) (some b) = a == b
same_number _ _ = false

abbrev pub agrees_with : Pagination → PaginationRow → Bool
agrees_with p r =
    str_eq r.outcome p.outcome
    && same_number r.page_count p.page_count
    && same_number r.had_text_layer p.had_text_layer
    && str_eq r.method p.method

abbrev pub is_for : String → PaginationRow → Bool
is_for sha r = str_eq r.document_sha256 sha

abbrev pub asserted_row : Pagination → (now : ℕ) → ℕ → PaginationRow
asserted_row p now i = record {
  pagination_id = i;
  document_sha256 = p.document_sha256;
  outcome = p.outcome;
  page_count = p.page_count;
  had_text_layer = p.had_text_layer;
  method = p.method;
  method_version = p.method_version;
  asserted_at = now;
  confidence_state = "unmeasured";
  superseded_by = none;
  superseded_at = none;
}

pub data Word : Type 0 where
  asserted superseded unchanged human_held unknown_document : Word

abbrev pub write : (now : ℕ) → Word → Pagination → List PaginationRow → Word × List PaginationRow
write now written p rows =
    let done =
      if_changed pagination_columns (is_for p.document_sha256) (agrees_with p) (asserted_row p now)
        (some now) rows in
    (if done.0 then written else Word.unchanged, done.1)

-- What is done of the live row. `documents` are the hashes of the table `document`.
abbrev pub on_live_row :
    (documents : List String) (now : ℕ)
    → Pagination
    → List PaginationRow
    → Option PaginationRow
    → Word × List PaginationRow
on_live_row documents now p rows (some live) =
    if str_eq live.confidence_state "human"
    then (Word.human_held, rows)
    else write now Word.superseded p rows
on_live_row documents now p rows none =
    if any (str_eq p.document_sha256) documents
    then write now Word.asserted p rows
    else (Word.unknown_document, rows)

unfoldable pub paginate_document :
    (documents : List String) (now : ℕ)
    → Pagination
    → List PaginationRow
    → Word × List PaginationRow
paginate_document documents now p rows =
    on_live_row documents now p rows (live_row pagination_columns (is_for p.document_sha256) rows)
