-- ===== src/Readings/Load/Kept.antt =====
-- src/docketyard/text/load.py, `load_reading`: `document_text` is append-only.
use docket_yard.Prelude.{
  ℕ, ◌≡◌, refl, sym, ◌∙◌, ap, String, Bool, Option, none, some, List, [], ◌∷◌, ◌++◌, map, ◌==◌,
  Bool-cases, inl, inr, All, All-append,
}
use mathlib.Core.Path.{subst}
use docket_yard.Prelude.Table.{update_where}
use docket_yard.Assertions.Supersede.{next_id, retire}
use docket_yard.Readings.Rows.{Header, Reading, Page, TextRow, Measured, Store, text_columns}
use docket_yard.Readings.Pages.{Loaded, ok, unreadable, load_page, load_pages, put_over, text_row}
use docket_yard.Readings.Load.Branches.{
  Written, Leaves, Leaves-all, load_reading-branches, load_page-branches,
}
use docket_yard.Readings.Pins.{Declaration}
use docket_yard.Readings.Load.{Said, record_run, take_in, stamped, with_payload, load_reading}

-- A row less the columns that a supersession writes.
abbrev pub reading_of : TextRow → TextRow
reading_of r = record r { superseded_by = none; superseded_at = none }

-- The row of a page of this reading.
abbrev pub IsOf : Header → String → TextRow → Type 0
IsOf h digest r =
    (r.document_sha256 ≡ h.document_sha256)
    × (r.key ≡ h.key)
    × (r.reading_role ≡ h.reading_role)
    × (r.payload_digest ≡ digest)

-- Every row before is a row after at its place, the supersession columns apart, and the rows after
-- those are rows of this reading.
abbrev pub Grows : Header → String → List TextRow → List TextRow → Type 0
Grows h digest rows rows' =
    (new : List TextRow) × (map reading_of rows' ≡ map reading_of rows ++ new)
    × All (IsOf h digest) new

append_nil : {A : Type 0} (xs : List A) → xs ++ [] ≡ xs
append_nil [] = refl
append_nil (x ∷ xs) = rw (append_nil xs)

append_assoc : {A : Type 0} (xs ys zs : List A) → (xs ++ ys) ++ zs ≡ xs ++ (ys ++ zs)
append_assoc [] ys zs = refl
append_assoc (x ∷ xs) ys zs = rw (append_assoc xs ys zs)

reading_of-append :
    (xs ys : List TextRow) → map reading_of (xs ++ ys) ≡ map reading_of xs ++ map reading_of ys
reading_of-append [] ys = refl
reading_of-append (x ∷ xs) ys = rw (reading_of-append xs ys)

module _ (p : TextRow → Bool) (f : TextRow → TextRow)
    (same : (r : TextRow) → reading_of (f r) ≡ reading_of r) where
  reading_of-update :
      (rows : List TextRow) → map reading_of (update_where p f rows) ≡ map reading_of rows
  reading_of-update [] = refl
  reading_of-update (r ∷ rows) = elim (Bool-cases (p r)) [
    | inl hit ↦ rw (hit, same r, reading_of-update rows)
    | inr missed ↦ rw (missed, reading_of-update rows)
  ]

reading_of-retire :
    (row_id now : ℕ) (rows : List TextRow)
    → map reading_of (retire text_columns row_id (some now) rows) ≡ map reading_of rows
unfolding retire
reading_of-retire row_id now rows =
    reading_of-update (λ r. r.text_id == row_id)
      (λ r. text_columns.stamp now (text_columns.point row_id r)) (λ r. refl) rows

put_over-Grows :
    (h : Header) (page : Page) (a : Option Measured) (digest : String) (now : ℕ)
    (holder : Option TextRow) (rows : List TextRow)
    → Grows h digest rows (put_over holder (text_row h page a digest now) now rows).0
put_over-Grows h page a digest now none rows = (
  reading_of (text_row h page a digest now (next_id text_columns rows)) ∷ [],
  reading_of-append rows _,
  ((refl, refl, refl, refl), tt),
)
put_over-Grows h page a digest now (some held) rows =
    let gone = retire text_columns held.text_id (some now) rows in
    let new = next_id text_columns gone in
    (
      reading_of (text_row h page a digest now new) ∷ [],
      reading_of-update (λ r. r.text_id == held.text_id) (text_columns.point new) (λ r. refl)
            (gone ++ text_row h page a digest now new ∷ [])
          ∙ reading_of-append gone (text_row h page a digest now new ∷ [])
          ∙ ap (λ xs. xs ++ reading_of (text_row h page a digest now new) ∷ [])
              (reading_of-retire held.text_id now rows),
      ((refl, refl, refl, refl), tt),
    )

Grows-refl : (h : Header) (digest : String) (rows : List TextRow) → Grows h digest rows rows
Grows-refl h digest rows = ([], sym (append_nil (map reading_of rows)), tt)

Grows-trans :
    (h : Header) (digest : String) (xs ys zs : List TextRow)
    → Grows h digest xs ys
    → Grows h digest ys zs
    → Grows h digest xs zs
Grows-trans h digest xs ys zs (new, e, mine) (more, e', mine') = (
  new ++ more,
  e' ∙ ap (λ us. us ++ more) e ∙ append_assoc (map reading_of xs) new more,
  All-append (IsOf h digest) new more mine mine',
)

-- Of an answer, the rows of its store.
abbrev GrowsTo : Header → String → List TextRow → Loaded (Said × Store) → Type 0
GrowsTo h digest rows unreadable = Unit
GrowsTo h digest rows (ok (_, t)) = Grows h digest rows t.document_text

module _ (digest_of : List ℕ → String) (display : String → String) where
  load_page-Grows :
      (rows : List TextRow) (h : Header) (page : Page) (digest : String) (now : ℕ)
      (live : List TextRow) (s : Written)
      → Grows h digest rows s.0
      → Leaves (λ t. Grows h digest rows t.0) (load_page display h page digest now live s)
  load_page-Grows rows h page digest now live s before =
      load_page-branches display h page digest now live s (Leaves (λ t. Grows h digest rows t.0)) tt
        before
        (λ a. Grows-trans h digest rows s.0 _ before (put_over-Grows h page a digest now _ s.0))

  record_run-Grows :
      (rows : List TextRow) (r : Reading) (digest : String) (d : Option ℕ) (t : Store)
      (x : Loaded (Bool × Written))
      → Leaves (λ t. Grows r.header digest rows t.0) x
      → GrowsTo r.header digest rows (record_run r digest d t x)
  record_run-Grows rows r digest d t unreadable g = tt
  record_run-Grows rows r digest d t (ok (w, (after, fts))) g = g

  take_in-grows :
      (r : Reading) (now : ℕ) (s : Store) (x : Loaded (Option ℕ))
      → GrowsTo r.header (digest_of r.payload) s.document_text (take_in digest_of display r now s x)
  take_in-grows r now s unreadable = tt
  take_in-grows r now s (ok d) =
      let digest = digest_of r.payload in
      record_run-Grows s.document_text r digest d (with_payload digest_of display r now s)
        (load_pages display r.header digest now s.document_text r.pages
          (s.document_text, s.page_fts))
        (Leaves-all display (λ t. Grows r.header digest s.document_text t.0) r.header digest now
          s.document_text r.pages (s.document_text, s.page_fts)
          (λ page t. load_page-Grows s.document_text r.header page digest now s.document_text t)
          (Grows-refl r.header digest s.document_text))

  -- `document_text` is append-only under a load: where it answers, every row before it is a row after
  -- it at the same place with nothing changed but the columns of a supersession, and every row that
  -- follows those is of the reading's document, key and role and names the digest of its file.
  pub load_reading-Grows :
      (machine : List String) (declared : List Declaration) (stamp : Option (Header → Option ℕ))
      (now : ℕ) (r : Reading) (s s' : Store) (x : Said)
      → load_reading digest_of display machine declared stamp now r s ≡ ok (x, s')
      → Grows r.header (digest_of r.payload) s.document_text s'.document_text
  load_reading-Grows machine declared stamp now r s s' x e =
      subst (GrowsTo r.header (digest_of r.payload) s.document_text) e (
        load_reading-branches digest_of display machine declared stamp now r s
          (GrowsTo r.header (digest_of r.payload) s.document_text) tt
          (Grows-refl r.header (digest_of r.payload) s.document_text)
          (λ _ _. Grows-refl r.header (digest_of r.payload) s.document_text)
          (λ _. take_in-grows r now s (stamped r.header stamp)))
