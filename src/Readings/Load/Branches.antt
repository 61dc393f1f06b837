-- ===== src/Readings/Load/Branches.antt =====
-- src/docketyard/text/load.py, `load_reading` and `_load_page`: what holds on each of their branches
-- holds of their answer.
use docket_yard.Prelude.{
  ℕ, ◌≡◌, String, Bool, true, false, not, ◌&&◌, Option, List, [], ◌∷◌, str_eq, Bool-cases, inl, inr,
  All,
}
use docket_yard.Fleet.Rows.{is_some}
use docket_yard.Prelude.Table.{any}
use docket_yard.Readings.Rows.{Header, Reading, Page, TextRow, Measured, Store}
use docket_yard.Readings.Pages.{
  Loaded, ok, unreadable, load_page, load_pages, load_found, write_page, says_so, or_written,
  and_then, clashes, by_role, by_key, measured_against,
}
use docket_yard.Readings.Pins.{Declaration, pinned}
use docket_yard.Readings.Load.{Said, run_recorded, take_in, stamped, load_reading, barred, pin_key}

module _ {ℓ} (digest_of : List ℕ → String) (display : String → String) (machine : List String)
    (declared : List Declaration) (stamp : Option (Header → Option ℕ)) (now : ℕ) (r : Reading)
    (s : Store) (P : Loaded (Said × Store) → Type ℓ) where
  pub load_reading-branches :
      P unreadable
      → P (ok (Said.unknown_document, s))
      → (any (str_eq r.header.document_sha256) s.document ≡ true
          → run_recorded r.header s.ocr_run ≡ true
          → P (ok (Said.restart, s)))
      → (any (str_eq r.header.document_sha256) s.document ≡ true
          → P (take_in digest_of display r now s (stamped r.header stamp)))
      → P (load_reading digest_of display machine declared stamp now r s)
  unfolding load_reading
  load_reading-branches refused unknown recorded taken =
      elim (Bool-cases (any (str_eq r.header.reading_channel) machine)) [
        | inr other ↦ rw other refused
        | inl model ↦ elim (Bool-cases (any (str_eq r.header.document_sha256) s.document)) [
          | inr missing ↦ rw (model, missing) unknown
          | inl known ↦ elim (Bool-cases (run_recorded r.header s.ocr_run)) [
            | inl found ↦ rw (model, known, found) (recorded known found)
            | inr fresh ↦ elim (Bool-cases (barred r.header (pinned (pin_key r.header) declared))) [
              | inl held ↦ rw (model, known, fresh, held) refused
              | inr free ↦ rw (model, known, fresh, free) (taken known)
            ]
          ]
        ]
      ]

-- `visible`, from the rows that were live at the start.
abbrev pub is_visible : Header → Page → List TextRow → Bool
is_visible h page live =
    str_eq h.reading_role "primary"
    && not (is_some (by_role h.document_sha256 live page.page_no "human"))

abbrev pub Written : Type 0
Written = List TextRow × List (ℕ × String)

module _ {ℓ} (display : String → String) (h : Header) (page : Page) (digest : String) (now : ℕ)
    (live : List TextRow) (s : Written) (P : Loaded (Bool × Written) → Type ℓ) where
  load_found-branches :
      (visible : Bool) (holder : Option TextRow) (m : Loaded (Option Measured))
      → P unreadable
      → P (ok (false, s))
      → ((a : Option Measured)
          → P (ok (true, write_page display h page digest now visible holder a s)))
      → P (load_found display h page digest now visible holder m s)
  load_found-branches visible holder unreadable refused same written = refused
  load_found-branches visible holder (ok a) refused same written =
      elim (Bool-cases (says_so h.key page a holder)) [
        | inl says ↦ rw says same
        | inr apart ↦ rw apart (written a)
      ]

  pub load_page-branches :
      P unreadable
      → P (ok (false, s))
      → ((a : Option Measured)
          → P (
              ok (
                true,
                write_page display h page digest now
                    (is_visible h page live)
                    (by_role h.document_sha256 live page.page_no h.reading_role)
                    a
                    s,
              )))
      → P (load_page display h page digest now live s)
  unfolding load_page
  load_page-branches refused same written =
      let sha = h.document_sha256 in
      let holder = by_role sha live page.page_no h.reading_role in
      elim (Bool-cases (clashes holder (by_key sha live page.page_no h.key))) [
        | inl clash ↦ rw clash refused
        | inr clear ↦ rw clear (
            load_found-branches (is_visible h page live) holder
              (measured_against page.agreement (by_role sha live page.page_no "primary")) refused
              same written)
      ]

-- Of the rows that an answer carries.
abbrev pub Leaves {ℓ} : (Written → Type ℓ) → Loaded (Bool × Written) → Type ℓ
Leaves Q unreadable = Unit
Leaves Q (ok (_, t)) = Q t

module _ {ℓ κ} (P : Written → Type ℓ) (Q : Written → Type κ) where
  pub Leaves-both :
      (x : Loaded (Bool × Written)) → Leaves P x → Leaves Q x → Leaves (λ t. P t × Q t) x
  Leaves-both unreadable p q = tt
  Leaves-both (ok (_, t)) p q = (p, q)

module _ {ℓ κ} (display : String → String) (P : Written → Type ℓ) (Q : Written → Type κ) where
  Leaves-or_written :
      (w : Bool) (y : Loaded (Bool × Written)) → Leaves Q y → Leaves Q (or_written display w y)
  Leaves-or_written w unreadable rest = tt
  Leaves-or_written w (ok (_, u)) rest = rest

  pub Leaves-and_then :
      (x : Loaded (Bool × Written)) (rest : Written → Loaded (Bool × Written))
      → Leaves P x
      → ((t : Written) → P t → Leaves Q (rest t))
      → Leaves Q (and_then display x rest)
  Leaves-and_then unreadable rest first more = tt
  Leaves-and_then (ok (w, t)) rest first more = Leaves-or_written w (rest t) (more t first)

-- What every page keeps, the pages in order keep.
module _ {ℓ} (display : String → String) (P : Written → Type ℓ) (h : Header) (digest : String)
    (now : ℕ) (live : List TextRow) where
  pub Leaves-load_pages :
      (pages : List Page) (s : Written)
      → All
          (λ page. (t : Written) → P t → Leaves P (load_page display h page digest now live t))
          pages
      → P s
      → Leaves P (load_pages display h digest now live pages s)
  Leaves-load_pages [] s keeps start = start
  Leaves-load_pages (page ∷ pages) s keeps start =
      Leaves-and_then display P P (load_page display h page digest now live s)
        (load_pages display h digest now live pages) (keeps.0 s start)
        (λ t p. Leaves-load_pages pages t keeps.1 p)

  pub Leaves-all :
      (pages : List Page) (s : Written)
      → ((page : Page) (t : Written) → P t → Leaves P (load_page display h page digest now live t))
      → P s
      → Leaves P (load_pages display h digest now live pages s)
  Leaves-all [] s keeps start = start
  Leaves-all (page ∷ pages) s keeps start =
      Leaves-and_then display P P (load_page display h page digest now live s)
        (load_pages display h digest now live pages) (keeps page s start)
        (λ t p. Leaves-all pages t keeps p)
