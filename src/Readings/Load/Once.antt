-- ===== src/Readings/Load/Once.antt =====
-- src/docketyard/text/load.py, `load_reading`: a page of a document has one live row of a role.
use docket_yard.Prelude.{
  ℕ, ◌≤◌, ◌≡◌, ◌≢◌, refl, sym, String, Bool, true, false, not, ◌&&◌, Option, none, some, List, [],
  ◌∷◌, map, str_eq, ◌==◌, Bool-cases, inl, inr, arith, All, All-imp, Distinct, eq_iff,
}
use mathlib.Core.Path.{subst}
use docket_yard.Assertions.Supersede.Live.{}
use docket_yard.Readings.Rows.{Header, Page, TextRow, Measured}
use docket_yard.Readings.Pages.{load_page, load_pages, text_row, in_role, by_role}
use docket_yard.Readings.Load.Over.{lives, Ready, put_over-other, put_over-here}
use docket_yard.Readings.Load.Branches.{
  Written, Leaves, Leaves-both, Leaves-and_then, Leaves-load_pages, load_page-branches,
}

-- The page and the role that a page of the reading is written at.
abbrev pub aims : Header → String → ℕ → String → Page → Bool
aims h sha page_no role page =
    (str_eq h.document_sha256 sha && page.page_no == page_no) && str_eq h.reading_role role

module _ (display : String → String) (h : Header) (digest : String) (now : ℕ) (live : List TextRow)
    (sha : String) (page_no : ℕ) (role : String) where
  step_other :
      (covers : TextRow → Bool) (bound : ℕ) (page : Page) (s : Written)
      → ((a : Option Measured) (n : ℕ) → covers (text_row h page a digest now n) ≡ false)
      → lives covers s.0 ≤ bound
      → Leaves (λ t. lives covers t.0 ≤ bound) (load_page display h page digest now live s)
  step_other covers bound page s other le =
      load_page-branches display h page digest now live s (Leaves (λ t. lives covers t.0 ≤ bound))
        tt le
        (λ a.
          let kept =
            put_over-other covers (by_role h.document_sha256 live page.page_no h.reading_role)
              (text_row h page a digest now) now s.0 (other a) in
          omega (arith, kept, le))

  Ready-le :
      (covers : TextRow → Bool) (o : Option TextRow) (rows : List TextRow)
      → Ready covers o rows
      → lives covers rows ≤ 1
  Ready-le covers none rows ready = omega (arith, ready)
  Ready-le covers (some held) rows ready = ready.0

  step-Ready :
      (covers : TextRow → Bool) (o : Option TextRow) (page : Page) (s : Written)
      → ((a : Option Measured) (n : ℕ) → covers (text_row h page a digest now n) ≡ false)
      → Ready covers o s.0
      → Leaves (λ t. Ready covers o t.0) (load_page display h page digest now live s)
  step-Ready covers none page s other ready = step_other covers 0 page s other ready
  step-Ready covers (some held) page s other ready =
      Leaves-both _ _ _ (step_other covers 1 page s other ready.0) (
        step_other (λ r. covers r && not (r.text_id == held.text_id)) 0 page s
          (λ a n. rw (other a n)) ready.1)

  step_here :
      (page : Page) (s : Written)
      → aims h sha page_no role page ≡ true
      → Ready (in_role sha page_no role) (by_role sha live page_no role) s.0
      → Leaves
          (λ t. lives (in_role sha page_no role) t.0 ≤ 1)
          (load_page display h page digest now live s)
  step_here page s here ready =
      let same_sha : h.document_sha256 ≡ sha = (eq_iff h.document_sha256 sha).0 (ground arith) in
      let same_role : h.reading_role ≡ role = (eq_iff h.reading_role role).0 (ground arith) in
      let same_page : page.page_no ≡ page_no = ground arith in
      let held : by_role h.document_sha256 live page.page_no h.reading_role
          ≡ by_role sha live page_no role =
        rw (same_sha, same_role, same_page) refl in
      load_page-branches display h page digest now live s
        (Leaves (λ t. lives (in_role sha page_no role) t.0 ≤ 1)) tt
        (Ready-le (in_role sha page_no role) (by_role sha live page_no role) s.0 ready)
        (λ a.
          put_over-here (in_role sha page_no role)
            (by_role h.document_sha256 live page.page_no h.reading_role)
            (text_row h page a digest now) now s.0
            (subst (λ o. Ready (in_role sha page_no role) o s.0) (sym held) ready))

  later :
      (page : Page) (pages : List Page)
      → aims h sha page_no role page ≡ true
      → All (λ n. page.page_no ≢ n) (map (λ (p : Page). p.page_no) pages)
      → All (λ p. aims h sha page_no role p ≡ false) pages
  later page [] here apart = tt
  later page (p ∷ pages) here apart =
      let differs = apart.0 in (ground arith, later page pages here apart.1)

  pub sound :
      (pages : List Page) (s : Written)
      → Distinct (map (λ (p : Page). p.page_no) pages)
      → Ready (in_role sha page_no role) (by_role sha live page_no role) s.0
      → Leaves
          (λ t. lives (in_role sha page_no role) t.0 ≤ 1)
          (load_pages display h digest now live pages s)
  sound [] s distinct ready =
      Ready-le (in_role sha page_no role) (by_role sha live page_no role) s.0 ready
  sound (page ∷ pages) s distinct ready = elim (Bool-cases (aims h sha page_no role page)) [
    | inl here ↦
        Leaves-and_then display (λ t. lives (in_role sha page_no role) t.0 ≤ 1)
          (λ t. lives (in_role sha page_no role) t.0 ≤ 1)
          (load_page display h page digest now live s) (load_pages display h digest now live pages)
          (step_here page s here ready)
          (λ t le.
            Leaves-load_pages display (λ u. lives (in_role sha page_no role) u.0 ≤ 1) h digest now
              live pages t
              (All-imp (λ p. aims h sha page_no role p ≡ false) _ pages
                (λ p other u few. step_other (in_role sha page_no role) 1 p u (λ _ _. other) few)
                (later page pages here distinct.0))
              le)
    | inr other ↦
        Leaves-and_then display
          (λ t. Ready (in_role sha page_no role) (by_role sha live page_no role) t.0)
          (λ t. lives (in_role sha page_no role) t.0 ≤ 1)
          (load_page display h page digest now live s) (load_pages display h digest now live pages)
          (step-Ready (in_role sha page_no role) (by_role sha live page_no role) page s
            (λ _ _. other) ready)
          (λ t kept. sound pages t distinct.1 kept)
  ]
