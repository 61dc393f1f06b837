-- ===== src/Readings/Load/Live.antt =====
-- src/docketyard/text/load.py, `load_reading`: the live index of `document_text` under a whole load.
use docket_yard.Prelude.{ℕ, ◌≤◌, ◌≡◌, String, Bool, Option, List, map, Distinct}
use mathlib.Core.Path.{subst}
use docket_yard.Readings.Rows.{Header, Reading, Page, Store}
use docket_yard.Readings.Pages.{Loaded, ok, unreadable, load_pages, in_role}
use docket_yard.Readings.Load.Branches.{Written, Leaves, load_reading-branches}
use docket_yard.Readings.Load.Over.{lives, at_start}
use docket_yard.Readings.Load.Once.{sound}
use docket_yard.Readings.Pins.{Declaration}
use docket_yard.Readings.Load.{Said, record_run, take_in, stamped, with_payload, load_reading}

module _ (digest_of : List ℕ → String) (display : String → String) (sha : String) (page_no : ℕ)
    (role : String) where
  abbrev One : Loaded (Said × Store) → Type 0
  One unreadable = Unit
  One (ok (_, t)) = lives (in_role sha page_no role) t.document_text ≤ 1

  One-record_run :
      (r : Reading) (digest : String) (d : Option ℕ) (t : Store) (x : Loaded (Bool × Written))
      → Leaves (λ t. lives (in_role sha page_no role) t.0 ≤ 1) x
      → One (record_run r digest d t x)
  One-record_run r digest d t unreadable one = tt
  One-record_run r digest d t (ok (w, (rows, fts))) one = one

  One-take_in :
      (r : Reading) (now : ℕ) (s : Store) (x : Loaded (Option ℕ))
      → Distinct (map (λ (p : Page). p.page_no) r.pages)
      → lives (in_role sha page_no role) s.document_text ≤ 1
      → One (take_in digest_of display r now s x)
  One-take_in r now s unreadable distinct le = tt
  One-take_in r now s (ok d) distinct le =
      let digest = digest_of r.payload in
      One-record_run r digest d (with_payload digest_of display r now s)
        (load_pages display r.header digest now s.document_text r.pages
          (s.document_text, s.page_fts))
        (sound display r.header digest now s.document_text sha page_no role r.pages
          (s.document_text, s.page_fts) distinct
          (at_start (in_role sha page_no role) s.document_text le))

  -- A load of a reading that reads no page twice keeps the live index: where a page of a document has
  -- at most one live row of a role before, it has at most one after, for every document, page and role.
  pub load_reading-live :
      (machine : List String) (declared : List Declaration) (stamp : Option (Header → Option ℕ))
      (now : ℕ) (r : Reading) (s s' : Store) (x : Said)
      → load_reading digest_of display machine declared stamp now r s ≡ ok (x, s')
      → Distinct (map (λ (p : Page). p.page_no) r.pages)
      → lives (in_role sha page_no role) s.document_text ≤ 1
      → lives (in_role sha page_no role) s'.document_text ≤ 1
  load_reading-live machine declared stamp now r s s' x e distinct le = subst One e (
      load_reading-branches digest_of display machine declared stamp now r s One tt le (λ _ _. le)
        (λ _. One-take_in r now s (stamped r.header stamp) distinct le))
