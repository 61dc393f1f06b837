-- ===== src/Assertions/Routes/Refused.antt =====
-- src/docketyard/text/route.py, `route_document`: an older file cannot undo a newer verdict.
use docket_yard.Prelude.{
  ℕ, ◌≤◌, ◌≡◌, ◌≢◌, refl, ◌∙◌, ap, String, true, false, ◌&&◌, Option, none, some, List, [], ◌∷◌,
  ◌++◌, str_eq, eq_iff, leb, length, ◌==◌, Bool-cases, inl, inr, arith,
}
use docket_yard.Prelude.Table.{any}
use docket_yard.Assertions.Supersede.{live_row}
use docket_yard.Assertions.Pagination.{PaginationRow, pagination_columns, is_for}
use docket_yard.Assertions.Routes.{
  RouteRow, route_columns, PageVerdict, Route, Routed, answered, unreadable, Step, on_page,
  same_verdict, step_of, onto, plan, checked, above, page_count_of, route_document,
}

-- No row is changed: the file is refused, or a word is answered with the rows as they were.
abbrev pub KeepsRows : List RouteRow → Routed → Type 0
KeepsRows rows (answered w rows') = rows' ≡ rows
KeepsRows rows unreadable = Unit

onto-none : (p : PageVerdict) (s : Option Step) → onto p s none ≡ none
onto-none p none = refl
onto-none p (some s) = refl

module _ (documents : List String) (paginations : List PaginationRow) (route : Route) (now : ℕ)
    (rows : List RouteRow) (p : PageVerdict) (r : RouteRow) where
  step_of-older :
      r.confidence_state ≢ "human"
      → same_verdict route p r ≡ false
      → route.routed_at ≤ r.routed_at
      → step_of route p (some r) ≡ none
  step_of-older machine differs older = elim (Bool-cases (str_eq r.confidence_state "human")) [
    | inl human ↦ absurd (machine ((eq_iff r.confidence_state "human").0 human))
    | inr other ↦
        let late : leb route.routed_at r.routed_at ≡ true = ground arith in
        rw (other, differs, late)
  ]

  plan-none :
      (before after : List PageVerdict)
      → step_of route p (live_row route_columns (on_page route.document_sha256 p.page_no) rows)
        ≡ none
      → plan route rows (before ++ p ∷ after) ≡ none
  plan-none [] after e = rw e
  plan-none (x ∷ before) after e =
      ap
        (onto x
          (step_of route x (live_row route_columns (on_page route.document_sha256 x.page_no) rows)))
        (plan-none before after e)
      ∙ onto-none x
          (step_of route x (live_row route_columns (on_page route.document_sha256 x.page_no) rows))

  checked-keeps :
      (count : Option ℕ)
      → plan route rows route.pages ≡ none
      → KeepsRows rows (checked route now rows count)
  checked-keeps none e = tt
  checked-keeps (some count) e = elim (Bool-cases (above count route)) [
    | inl high ↦ rw high tt
    | inr inside ↦ elim (Bool-cases (length route.pages == 0)) [
      | inl bare ↦ rw (inside, bare) refl
      | inr named ↦ rw (inside, named, e) refl
    ]
  ]

  -- A file that differs, on one of its pages, from a live row of a machine's that was routed no
  -- earlier than the file changes no row at all, of that page or of any other.
  pub route_document-older :
      (before after : List PageVerdict)
      → route.pages ≡ before ++ p ∷ after
      → live_row route_columns (on_page route.document_sha256 p.page_no) rows ≡ some r
      → r.confidence_state ≢ "human"
      → same_verdict route p r ≡ false
      → route.routed_at ≤ r.routed_at
      → KeepsRows rows (route_document documents paginations route now rows)
  unfolding route_document
  route_document-older before after pages live machine differs older =
      let refused =
        ap (plan route rows) pages
        ∙ plan-none before after
            (ap (step_of route p) live ∙ step_of-older machine differs older) in
      elim (Bool-cases (any (str_eq route.document_sha256) documents)) [
        | inr unknown ↦ rw unknown refl
        | inl held ↦ elim (Bool-cases ((length route.pages == 0) && (length route.errored == 0))) [
          | inl bare ↦ rw (held, bare) refl
          | inr named ↦
              rw (held, named)
                (checked-keeps
                  (page_count_of
                    (live_row pagination_columns (is_for route.document_sha256) paginations))
                  refused)
        ]
      ]
