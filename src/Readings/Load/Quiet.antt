-- ===== src/Readings/Load/Quiet.antt =====
-- src/docketyard/text/load.py, `load_reading`: an answer other than `loaded` writes no row of a page.
use docket_yard.Prelude.{
  ℕ, ◌≡◌, ◌≢◌, refl, ◌∙◌, ap, String, Bool, true, false, Option, List, [], ◌∷◌,
}
use mathlib.Core.Path.{subst}
use docket_yard.Readings.Rows.{Header, Reading, Page, TextRow, Store}
use docket_yard.Readings.Pages.{Loaded, ok, unreadable, load_page, load_pages, or_written, and_then}
use docket_yard.Readings.Load.Branches.{Written, load_reading-branches, load_page-branches}
use docket_yard.Readings.Pins.{Declaration}
use docket_yard.Readings.Load.{Said, record_run, take_in, stamped, with_payload, said, load_reading}

-- Where no row was written, the rows are those of the start.
abbrev Quiet : Written → Loaded (Bool × Written) → Type 0
Quiet s unreadable = Unit
Quiet s (ok (false, t)) = t ≡ s
Quiet s (ok (true, t)) = Unit

-- With no page, whatever the answer.
abbrev QuietOver : List Page → Written → Loaded (Bool × Written) → Type 0
QuietOver [] s unreadable = Unit
QuietOver [] s (ok (w, t)) = t ≡ s
QuietOver (_ ∷ _) s x = Quiet s x

-- Of an answer that is not `loaded`, the same.
abbrev Rests : Written → Loaded (Said × Store) → Type 0
Rests s unreadable = Unit
Rests s (ok (Said.loaded, t)) = Unit
Rests s (ok (_, t)) = (t.document_text ≡ s.0) × (t.page_fts ≡ s.1)

module _ (digest_of : List ℕ → String) (display : String → String) where
  Quiet-load_page :
      (h : Header) (page : Page) (digest : String) (now : ℕ) (live : List TextRow) (s : Written)
      → Quiet s (load_page display h page digest now live s)
  Quiet-load_page h page digest now live s =
      load_page-branches display h page digest now live s (Quiet s) tt refl (λ _. tt)

  Quiet-or_written :
      (w : Bool) (s t : Written) (y : Loaded (Bool × Written))
      → Quiet s (ok (w, t))
      → Quiet t y
      → Quiet s (or_written display w y)
  Quiet-or_written w s t unreadable q r = tt
  Quiet-or_written true s t (ok (more, u)) q r = tt
  Quiet-or_written false s t (ok (true, u)) q r = tt
  Quiet-or_written false s t (ok (false, u)) q r = r ∙ q

  Quiet-and_then :
      (x : Loaded (Bool × Written)) (rest : Written → Loaded (Bool × Written)) (s : Written)
      → Quiet s x
      → ((t : Written) → Quiet t (rest t))
      → Quiet s (and_then display x rest)
  Quiet-and_then unreadable rest s q more = tt
  Quiet-and_then (ok (w, t)) rest s q more = Quiet-or_written w s t (rest t) q (more t)

  Quiet-load_pages :
      (h : Header) (digest : String) (now : ℕ) (live : List TextRow) (pages : List Page)
      (s : Written)
      → Quiet s (load_pages display h digest now live pages s)
  Quiet-load_pages h digest now live [] s = refl
  Quiet-load_pages h digest now live (page ∷ pages) s =
      Quiet-and_then (load_page display h page digest now live s)
        (load_pages display h digest now live pages) s (Quiet-load_page h page digest now live s)
        (Quiet-load_pages h digest now live pages)

  -- No page writes no row.
  quiet-pages :
      (h : Header) (digest : String) (now : ℕ) (live : List TextRow) (pages : List Page)
      (s : Written)
      → QuietOver pages s (load_pages display h digest now live pages s)
  quiet-pages h digest now live [] s = refl
  quiet-pages h digest now live (page ∷ pages) s =
      Quiet-load_pages h digest now live (page ∷ pages) s

  Rests-said :
      (s : Written) (pages : List Page) (w : Bool) (t : Store)
      → QuietOver pages s (ok (w, (t.document_text, t.page_fts)))
      → Rests s (ok (said pages w, t))
  Rests-said s [] w t q = (ap (λ u. u.0) q, ap (λ u. u.1) q)
  Rests-said s (p ∷ ps) true t q = tt
  Rests-said s (p ∷ ps) false t q = (ap (λ u. u.0) q, ap (λ u. u.1) q)

  Rests-record_run :
      (s : Written) (r : Reading) (digest : String) (d : Option ℕ) (t : Store)
      (x : Loaded (Bool × Written))
      → QuietOver r.pages s x
      → Rests s (record_run r digest d t x)
  Rests-record_run s r digest d t unreadable q = tt
  Rests-record_run s r digest d t (ok (w, (rows, fts))) q = Rests-said s r.pages w _ q

  Rests-take_in :
      (r : Reading) (now : ℕ) (s : Store) (x : Loaded (Option ℕ))
      → Rests (s.document_text, s.page_fts) (take_in digest_of display r now s x)
  Rests-take_in r now s unreadable = tt
  Rests-take_in r now s (ok d) =
      let digest = digest_of r.payload in
      Rests-record_run (s.document_text, s.page_fts) r digest d
        (with_payload digest_of display r now s)
        (load_pages display r.header digest now s.document_text r.pages
          (s.document_text, s.page_fts))
        (quiet-pages r.header digest now s.document_text r.pages (s.document_text, s.page_fts))

  Rests-load_reading :
      (machine : List String) (declared : List Declaration) (stamp : Option (Header → Option ℕ))
      (now : ℕ) (r : Reading) (s : Store)
      → Rests
          (s.document_text, s.page_fts)
          (load_reading digest_of display machine declared stamp now r s)
  Rests-load_reading machine declared stamp now r s =
      load_reading-branches digest_of display machine declared stamp now r s
        (Rests (s.document_text, s.page_fts)) tt (refl, refl) (λ _ _. (refl, refl))
        (λ _. Rests-take_in r now s (stamped r.header stamp))

  of_Rests :
      (s : Written) (x : Said) (t : Store)
      → Rests s (ok (x, t))
      → x ≢ Said.loaded
      → (t.document_text ≡ s.0) × (t.page_fts ≡ s.1)
  of_Rests s Said.loaded t kept apart = absurd (apart refl)
  of_Rests s Said.unchanged t kept apart = kept
  of_Rests s Said.restart t kept apart = kept
  of_Rests s Said.run_only t kept apart = kept
  of_Rests s Said.unknown_document t kept apart = kept

  -- Where a load answers anything but `loaded`, the rows of `document_text` and the page index are as
  -- they were.
  pub load_reading-quiet :
      (machine : List String) (declared : List Declaration) (stamp : Option (Header → Option ℕ))
      (now : ℕ) (r : Reading) (s s' : Store) (x : Said)
      → load_reading digest_of display machine declared stamp now r s ≡ ok (x, s')
      → x ≢ Said.loaded
      → (s'.document_text ≡ s.document_text) × (s'.page_fts ≡ s.page_fts)
  load_reading-quiet machine declared stamp now r s s' x e apart =
      of_Rests (s.document_text, s.page_fts) x s'
        (subst (Rests (s.document_text, s.page_fts)) e
          (Rests-load_reading machine declared stamp now r s))
        apart
