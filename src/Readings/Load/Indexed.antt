-- ===== src/Readings/Load/Indexed.antt =====
-- src/docketyard/text/load.py with src/docketyard/store/page_index.py: what a load shows can be searched.
use mathlib.Core.Bool.{false≢true}
use docket_yard.Prelude.{
  ℕ, ◌≡◌, refl, sym, ◌∙◌, String, Bool, true, false, not, ◌&&◌, Option, none, some, List, [], ◌∷◌,
  str_eq, eq_iff, ◌==◌, Bool-cases, inl, inr, arith, All,
}
use mathlib.Core.Path.{subst}
use docket_yard.Prelude.Table.{any, any-append}
use docket_yard.Fleet.Rows.{is_some}
use docket_yard.Assertions.Supersede.{is_live}
use docket_yard.Readings.Rows.{Header, Reading, Page, TextRow, Measured, Store, text_columns}
use docket_yard.Readings.Pages.{
  Loaded, ok, unreadable, load_page, load_pages, write_page, put_over, text_row, in_role, by_role,
  leave, enter,
}
use docket_yard.Readings.Load.Entries.{entry_of, is_indexed, entered, stays-leave, put_over-Indexed}
use docket_yard.Readings.Load.Branches.{
  Written, Leaves, Leaves-all, is_visible, load_reading-branches, load_page-branches,
}
use docket_yard.Readings.Pins.{Declaration}
use docket_yard.Readings.Load.{Said, record_run, take_in, stamped, with_payload, load_reading}

module _ (display : String → String) (sha : String) (page_no : ℕ) where
  abbrev pub primary : TextRow → Bool
  primary = in_role sha page_no "primary"

  -- Every live primary of the page is in the index.
  abbrev pub IsSearchable : Written → Type 0
  IsSearchable t = All (λ r. is_indexed display primary t.1 r ≡ true) t.0

  keeps_entered :
      (holder : Option TextRow) (n : ℕ) (text : String) (fts : List (ℕ × String)) (r : TextRow)
      → elim holder [ none ↦ true | some held ↦ not (r.text_id == held.text_id) ] ≡ true
      → is_indexed display primary fts r ≡ true
      → is_indexed display primary (enter display n text (leave display holder fts)) r ≡ true
  keeps_entered holder n text fts r apart e =
      elim (Bool-cases (primary r && is_live text_columns r)) [
        | inr dead ↦ rw dead refl
        | inl shown ↦
            let had : any (entry_of display primary r) fts ≡ true = rw shown at e in
            rw shown (
              any-append (entry_of display primary r) (leave display holder fts)
                ((n, display text) ∷ [])
              ∙ rw (left holder apart had) refl)
      ]
    where
      left :
          (o : Option TextRow)
          → elim o [ none ↦ true | some held ↦ not (r.text_id == held.text_id) ] ≡ true
          → any (entry_of display primary r) fts ≡ true
          → any (entry_of display primary r) (leave display o fts) ≡ true
      left none apart had = had
      left (some held) apart had = stays-leave display primary r held fts (ground arith) had

  module _ (h : Header) (page : Page) (digest : String) (now : ℕ) (live : List TextRow)
      (unread : is_some (by_role sha live page_no "human") ≡ false) where
    -- A row that is not shown is not a primary of the page.
    not_covered :
        (a : Option Measured) (n : ℕ)
        → is_visible h page live ≡ false
        → primary (text_row h page a digest now n) ≡ false
    not_covered a n hidden = elim (Bool-cases (primary (text_row h page a digest now n))) [
      | inr other ↦ other
      | inl here ↦
          let same_sha : h.document_sha256 ≡ sha =
            (eq_iff h.document_sha256 sha).0 (ground arith) in
          let same_page : page.page_no ≡ page_no = ground arith in
          let no_human : is_some (by_role h.document_sha256 live page.page_no "human") ≡ false =
            rw (same_sha, same_page) unread in
          let a_primary : str_eq h.reading_role "primary" ≡ true = ground arith in
          absurd (false≢true (sym hidden ∙ rw (no_human, a_primary) refl))
    ]

    written-IsSearchable :
        (a : Option Measured) (holder : Option TextRow) (s : Written)
        → IsSearchable s
        → IsSearchable (write_page display h page digest now (is_visible h page live) holder a s)
    written-IsSearchable a holder s before = elim (Bool-cases (is_visible h page live)) [
      | inl shown ↦
          let insert = text_row h page a digest now in
          let new = (put_over holder insert now s.0).1 in
          rw shown (
            put_over-Indexed display primary s.1
              (enter display new page.text (leave display holder s.1)) holder insert now s.0
              (keeps_entered holder new page.text s.1)
              (entered display primary (insert new) (leave display holder s.1)) before)
      | inr hidden ↦
          let other =
            not_covered a (put_over holder (text_row h page a digest now) now s.0).1 hidden in
          rw hidden (
            put_over-Indexed display primary s.1 s.1 holder (text_row h page a digest now) now s.0
              (λ r _ i. i) (rw other refl) before)
    ]

    load_page-IsSearchable :
        (s : Written)
        → IsSearchable s
        → Leaves IsSearchable (load_page display h page digest now live s)
    load_page-IsSearchable s before =
        load_page-branches display h page digest now live s (Leaves IsSearchable) tt before (λ a.
          written-IsSearchable a (by_role h.document_sha256 live page.page_no h.reading_role) s
            before)

  module _ (digest_of : List ℕ → String) where
    abbrev Searches : Loaded (Said × Store) → Type 0
    Searches unreadable = Unit
    Searches (ok (_, t)) = IsSearchable (t.document_text, t.page_fts)

    record_run-IsSearchable :
        (r : Reading) (digest : String) (d : Option ℕ) (t : Store) (x : Loaded (Bool × Written))
        → Leaves IsSearchable x
        → Searches (record_run r digest d t x)
    record_run-IsSearchable r digest d t unreadable h = tt
    record_run-IsSearchable r digest d t (ok (w, (rows, fts))) h = h

    take_in-IsSearchable :
        (r : Reading) (now : ℕ) (s : Store) (x : Loaded (Option ℕ))
        → is_some (by_role sha s.document_text page_no "human") ≡ false
        → IsSearchable (s.document_text, s.page_fts)
        → Searches (take_in digest_of display r now s x)
    take_in-IsSearchable r now s unreadable unread before = tt
    take_in-IsSearchable r now s (ok d) unread before =
        let digest = digest_of r.payload in
        record_run-IsSearchable r digest d (with_payload digest_of display r now s)
          (load_pages display r.header digest now s.document_text r.pages
            (s.document_text, s.page_fts))
          (Leaves-all display IsSearchable r.header digest now s.document_text r.pages
            (s.document_text, s.page_fts)
            (λ page t. load_page-IsSearchable r.header page digest now s.document_text unread t)
            before)

    -- A load loses no page from the search: where no live row of a page is a human's, and each live
    -- primary row of it has its entry in the index with the text as it is displayed, each live primary
    -- row of the page has its entry after the load, whatever the reading is of.
    pub load_reading-IsSearchable :
        (machine : List String) (declared : List Declaration) (stamp : Option (Header → Option ℕ))
        (now : ℕ) (r : Reading) (s s' : Store) (x : Said)
        → load_reading digest_of display machine declared stamp now r s ≡ ok (x, s')
        → is_some (by_role sha s.document_text page_no "human") ≡ false
        → IsSearchable (s.document_text, s.page_fts)
        → IsSearchable (s'.document_text, s'.page_fts)
    load_reading-IsSearchable machine declared stamp now r s s' x e unread before =
        subst Searches e (
          load_reading-branches digest_of display machine declared stamp now r s Searches tt before
            (λ _ _. before)
            (λ _. take_in-IsSearchable r now s (stamped r.header stamp) unread before))
