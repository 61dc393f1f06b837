-- ===== src/Assertions/Routes/Tests.antt =====
-- A run of src/docketyard/text/route.py, `route_document`: an older file of two pages.
use docket_yard.Prelude.{◌≢◌, refl, none, some, [], ◌∷◌, eq_iff, arith}
use mathlib.Core.Bool.{false≢true}
use docket_yard.Assertions.Pagination.{PaginationRow, asserted_row}
use docket_yard.Assertions.Routes.{RouteRow, PageVerdict, Route, route_document}
use docket_yard.Assertions.Routes.Refused.{KeepsRows, route_document-older}

abbrev newer : RouteRow
newer = record {
  route_id = 1;
  document_sha256 = "aa";
  page_no = 2;
  route_class = "tabular";
  method = "paddle";
  method_version = "3";
  render_profile = "150";
  region_count = none;
  confidence_state = "unmeasured";
  routed_at = 500;
  asserted_at = 600;
  superseded_by = none;
  superseded_at = none;
}

abbrev counted : PaginationRow
counted =
    asserted_row
      (record {
        document_sha256 = "aa";
        outcome = "paginated";
        page_count = some 2;
        had_text_layer = some 0;
        method = "pymupdf";
        method_version = "1.24";
      })
      300 1

abbrev first_page : PageVerdict
first_page = record { page_no = 1; route_class = "clean"; region_count = none }

abbrev second_page : PageVerdict
second_page = record { page_no = 2; route_class = "degraded"; region_count = none }

abbrev older : Route
older = record {
  document_sha256 = "aa";
  method = "paddle";
  method_version = "3";
  render_profile = "150";
  routed_at = 400;
  pages = first_page ∷ second_page ∷ [];
  errored = [];
}

not_human : newer.confidence_state ≢ "human"
not_human e = absurd (false≢true ((eq_iff "unmeasured" "human").1 e))

route_document-older_example :
    KeepsRows (newer ∷ []) (route_document ("aa" ∷ []) (counted ∷ []) older 700 (newer ∷ []))
route_document-older_example =
    route_document-older ("aa" ∷ []) (counted ∷ []) older 700 (newer ∷ []) second_page newer
      (first_page ∷ []) [] refl refl not_human refl (omega arith)
