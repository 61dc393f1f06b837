-- ===== src/Assertions/Routes.antt =====
-- src/docketyard/text/route.py, `route_document`: a document's router verdicts into `page_route`,
-- whole or not at all. An instant is a number; the files' texts of it are in one shape and order.
pub mod Refused
mod Tests
use docket_yard.Prelude.{
  ℕ, ◌+◌, String, Bool, true, false, not, ◌&&◌, ◌||◌, Option, none, some, List, [], ◌∷◌, ◌++◌, map,
  str_eq, leb, ltb, length, ◌==◌, if◌then◌else◌,
}
use docket_yard.Prelude.Table.{any, find, update_where}
use docket_yard.Fleet.Rows.{is_some}
use docket_yard.Assertions.Supersede.{Columns, live_row, is_live, next_id, retire}
use docket_yard.Assertions.Pagination.{PaginationRow, pagination_columns, is_for}

-- table `page_route`
pub record RouteRow : Type 0 where
  pub route_id : ℕ
  pub document_sha256 : String
  pub page_no : ℕ
  pub route_class : String
  pub method : String
  pub method_version : String
  pub render_profile : String
  pub region_count : Option ℕ
  pub confidence_state : String
  pub routed_at : ℕ
  pub asserted_at : ℕ
  pub superseded_by : Option ℕ
  pub superseded_at : Option ℕ

abbrev pub route_columns : Columns RouteRow
route_columns = record {
  id_of = λ r. r.route_id;
  superseded_by = λ r. r.superseded_by;
  point = λ n r. record r { superseded_by = some n };
  stamp = λ t r. record r { superseded_at = some t };
}

pub record PageVerdict : Type 0 where
  pub page_no : ℕ
  pub route_class : String
  pub region_count : Option ℕ

pub record Route : Type 0 where
  pub document_sha256 : String
  pub method : String
  pub method_version : String
  pub render_profile : String
  pub routed_at : ℕ
  pub pages : List PageVerdict
  pub errored : List ℕ

pub data RouteWord : Type 0 where
  loaded superseded unchanged human_held stale omits_live_pages no_verdicts unknown_document :
      RouteWord

-- A word and the rows, or `Unreadable`.
pub data Routed : Type 0 where
  answered : RouteWord → List RouteRow → Routed
  unreadable : Routed

-- What a page becomes: written anew, left to a person, left as it is, or put in place of a row.
pub data Step : Type 0 where
  loads holds_human same : Step
  replaces : ℕ → Step

abbrev pub on_page : String → ℕ → RouteRow → Bool
on_page sha n r = str_eq r.document_sha256 sha && r.page_no == n

abbrev pub same_verdict : Route → PageVerdict → RouteRow → Bool
same_verdict route p r =
    str_eq r.route_class p.route_class
    && str_eq r.method route.method
    && str_eq r.method_version route.method_version
    && str_eq r.render_profile route.render_profile

-- The step of a page; none where an older file differs.
abbrev pub step_of : Route → PageVerdict → Option RouteRow → Option Step
step_of route p none = some loads
step_of route p (some r) =
    if str_eq r.confidence_state "human"
    then some holds_human
    else if same_verdict route p r
    then some same
    else if leb route.routed_at r.routed_at
    then none
    else some (replaces r.route_id)

abbrev onto :
    PageVerdict
    → Option Step
    → Option (List (PageVerdict × Step))
    → Option (List (PageVerdict × Step))
onto p (some s) (some rest) = some ((p, s) ∷ rest)
onto p _ _ = none

-- The plan of all the pages, before any is written. The live index allows one live row for a page.
abbrev pub plan : Route → List RouteRow → List PageVerdict → Option (List (PageVerdict × Step))
plan route rows [] = some []
plan route rows (p ∷ ps) =
    onto p (step_of route p (live_row route_columns (on_page route.document_sha256 p.page_no) rows))
      (plan route rows ps)

abbrev verdict_row : Route → (now : ℕ) → PageVerdict → ℕ → RouteRow
verdict_row route now p i = record {
  route_id = i;
  document_sha256 = route.document_sha256;
  page_no = p.page_no;
  route_class = p.route_class;
  method = route.method;
  method_version = route.method_version;
  render_profile = route.render_profile;
  region_count = p.region_count;
  confidence_state = "unmeasured";
  routed_at = route.routed_at;
  asserted_at = now;
  superseded_by = none;
  superseded_at = none;
}

abbrev pub write_step : Route → (now : ℕ) → PageVerdict × Step → List RouteRow → List RouteRow
write_step route now (p, loads) rows =
    rows ++ verdict_row route now p (next_id route_columns rows) ∷ []
write_step route now (p, holds_human) rows = rows
write_step route now (p, same) rows = rows
write_step route now (p, replaces old) rows =
    let retired = retire route_columns old (some now) rows in
    let new = next_id route_columns retired in
    update_where (λ (r : RouteRow). r.route_id == old) (route_columns.point new)
      (retired ++ verdict_row route now p new ∷ [])

abbrev pub write_all : Route → (now : ℕ) → List (PageVerdict × Step) → List RouteRow → List RouteRow
write_all route now [] rows = rows
write_all route now (s ∷ steps) rows = write_all route now steps (write_step route now s rows)

abbrev is_replace : PageVerdict × Step → Bool
is_replace (p, replaces _) = true
is_replace _ = false

abbrev is_load : PageVerdict × Step → Bool
is_load (p, loads) = true
is_load _ = false

abbrev is_held : PageVerdict × Step → Bool
is_held (p, holds_human) = true
is_held _ = false

-- A live page that the file does not name.
abbrev omitted : Route → List RouteRow → Bool
omitted route = any (λ (r : RouteRow).
    str_eq r.document_sha256 route.document_sha256
    && is_live route_columns r
    && not (any (λ (p : PageVerdict). p.page_no == r.page_no) route.pages))

-- The most consequential word of the pages.
abbrev pub word_of : Route → List RouteRow → List (PageVerdict × Step) → RouteWord
word_of route rows steps =
    if omitted route rows
    then omits_live_pages
    else if any is_replace steps
    then superseded
    else if any is_load steps
    then loaded
    else if any is_held steps
    then human_held
    else unchanged

abbrev pub above : ℕ → Route → Bool
above count route =
    any (λ (p : PageVerdict). ltb count p.page_no) route.pages || any (ltb count) route.errored

abbrev pub settle : Route → (now : ℕ) → List RouteRow → Option (List (PageVerdict × Step)) → Routed
settle route now rows none = answered stale rows
settle route now rows (some steps) =
    answered (word_of route rows steps) (write_all route now steps rows)

abbrev pub page_count_of : Option PaginationRow → Option ℕ
page_count_of none = none
page_count_of (some r) = r.page_count

abbrev pub checked : Route → (now : ℕ) → List RouteRow → Option ℕ → Routed
checked route now rows none = unreadable
checked route now rows (some count) =
    if above count route
    then unreadable
    else if length route.pages == 0
    then answered no_verdicts rows
    else settle route now rows (plan route rows route.pages)

unfoldable pub route_document :
    (documents : List String) → List PaginationRow → Route → (now : ℕ) → List RouteRow → Routed
route_document documents paginations route now rows =
    if not (any (str_eq route.document_sha256) documents)
    then answered unknown_document rows
    else if (length route.pages == 0) && (length route.errored == 0)
    then answered no_verdicts rows
    else checked route now rows
        (page_count_of (live_row pagination_columns (is_for route.document_sha256) paginations))
