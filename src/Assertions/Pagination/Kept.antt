-- ===== src/Assertions/Pagination/Kept.antt =====
-- src/docketyard/text/paginate.py, `paginate_document`: what a pass may not undo.
use docket_yard.Prelude.{
  ℕ, ◌≤◌, ◌≡◌, ◌≢◌, refl, ◌∙◌, ap, String, Bool, true, false, Option, none, some, List, str_eq,
  if◌then◌else◌, Bool-cases, inl, inr, eq_iff,
}
use docket_yard.Prelude.Table.{any}
use docket_yard.Assertions.Supersede.{live_row}
use docket_yard.Assertions.Supersede.Live.{
  Laws, live_rows, if_changed-live, if_changed-agrees, if_changed-differs,
}
use docket_yard.Assertions.Pagination.{
  PaginationRow, pagination_columns, Pagination, is_for, agrees_with, asserted_row, Word,
  on_live_row, paginate_document, write,
}

abbrev pub pagination_laws : Laws pagination_columns
pagination_laws = record { pointed = λ n r. refl; stamped = λ t r. refl }

-- The live rows of a document.
abbrev pub live_of : String → List PaginationRow → ℕ
live_of sha = live_rows pagination_columns pagination_laws (is_for sha)

abbrev pub live_row_of : String → List PaginationRow → Option PaginationRow
live_row_of sha = live_row pagination_columns (is_for sha)

module _ (documents : List String) (now : ℕ) (p : Pagination) (rows : List PaginationRow) where
  on_live_row-live :
      (o : Option PaginationRow)
      → live_of p.document_sha256 rows ≤ 1
      → live_of p.document_sha256 (on_live_row documents now p rows o).1 ≤ 1
  on_live_row-live (some live) le = elim (Bool-cases (str_eq live.confidence_state "human")) [
    | inl human ↦ rw human le
    | inr machine ↦ rw machine (
        if_changed-live pagination_columns pagination_laws (is_for p.document_sha256)
          (agrees_with p) (asserted_row p now) (some now) rows le)
  ]
  on_live_row-live none le = elim (Bool-cases (any (str_eq p.document_sha256) documents)) [
    | inl held ↦ rw held (
        if_changed-live pagination_columns pagination_laws (is_for p.document_sha256)
          (agrees_with p) (asserted_row p now) (some now) rows le)
    | inr unheld ↦ rw unheld le
  ]

  -- A document that has at most one live row has at most one after the pass, whatever the pass says
  -- of it.
  pub paginate_document-live :
      live_of p.document_sha256 rows ≤ 1
      → live_of p.document_sha256 (paginate_document documents now p rows).1 ≤ 1
  unfolding paginate_document
  paginate_document-live le = on_live_row-live (live_row_of p.document_sha256 rows) le

  module _ (live : PaginationRow) (found : live_row_of p.document_sha256 rows ≡ some live) where
    -- A person's count is left alone: where the live row of the document is a person's, the pass says
    -- so and changes no row.
    pub paginate_document-human :
        live.confidence_state ≡ "human"
        → paginate_document documents now p rows ≡ (Word.human_held, rows)
    unfolding paginate_document
    paginate_document-human human =
        let is_human : str_eq live.confidence_state "human" ≡ true =
          (eq_iff live.confidence_state "human").1 human in
        ap (on_live_row documents now p rows) found ∙ rw is_human

    as_machine :
        live.confidence_state ≢ "human"
        → paginate_document documents now p rows ≡ write now Word.superseded p rows
    unfolding paginate_document
    as_machine machine = elim (Bool-cases (str_eq live.confidence_state "human")) [
      | inl human ↦ absurd (machine ((eq_iff live.confidence_state "human").0 human))
      | inr other ↦ ap (on_live_row documents now p rows) found ∙ rw other
    ]

    -- Where the live row of the document is a machine's and agrees on the outcome, the count, the
    -- text layer and the tool, at whatever version, the pass changes no row.
    pub paginate_document-unchanged :
        live.confidence_state ≢ "human"
        → agrees_with p live ≡ true
        → paginate_document documents now p rows ≡ (Word.unchanged, rows)
    paginate_document-unchanged machine same =
        as_machine machine
        ∙ ap written (
            if_changed-agrees pagination_columns pagination_laws (is_for p.document_sha256)
              (agrees_with p) (asserted_row p now) (some now) rows live found same)
      where
        written : Bool × List PaginationRow → Word × List PaginationRow
        written done = (if done.0 then Word.superseded else Word.unchanged, done.1)

    -- Where it is a machine's and does not agree, it is superseded.
    pub paginate_document-superseded :
        live.confidence_state ≢ "human"
        → agrees_with p live ≡ false
        → (paginate_document documents now p rows).0 ≡ Word.superseded
    paginate_document-superseded machine apart =
        ap (λ (r : Word × List PaginationRow). r.0) (as_machine machine)
        ∙ rw (
            if_changed-differs pagination_columns pagination_laws (is_for p.document_sha256)
              (agrees_with p) (asserted_row p now) (some now) rows live found apart)
