-- ===== src/Assertions/Pagination/Tests.antt =====
-- Runs of src/docketyard/text/paginate.py, `paginate_document`, on a small table.
use docket_yard.Prelude.{◌≤◌, some, [], ◌∷◌, arith}
use docket_yard.Assertions.Pagination.{PaginationRow, Pagination, asserted_row, paginate_document}
use docket_yard.Assertions.Pagination.Kept.{live_of, paginate_document-live}

abbrev read : Pagination
read = record {
  document_sha256 = "aa";
  outcome = "paginated";
  page_count = some 9;
  had_text_layer = some 1;
  method = "pymupdf";
  method_version = "1.24";
}

abbrev machine_row : PaginationRow
machine_row = asserted_row read 100 1

abbrev recount : Pagination
recount = record read { page_count = some 10 }

paginate_document-live_example :
    live_of "aa" (paginate_document ("aa" ∷ []) 200 recount (machine_row ∷ [])).1 ≤ 1
paginate_document-live_example =
    paginate_document-live ("aa" ∷ []) 200 recount (machine_row ∷ []) (omega arith)
