-- ===== src/Readings/Load/Again.antt =====
-- src/docketyard/text/load.py, `load_reading`: the same reading a second time, and a reading that says
-- what the pages say already.
use docket_yard.Prelude.{
  ℕ, suc, ◌≡◌, ◌≢◌, refl, ◌∙◌, String, Bool, true, ◌&&◌, ◌||◌, Option, List, [], ◌∷◌, ◌++◌, length,
  str_eq, arith, eq_iff,
}
use mathlib.Core.Path.{subst}
use docket_yard.Prelude.Table.{any, any-append}
use docket_yard.Readings.Rows.{Header, Reading, TextRow, Store, Run}
use docket_yard.Readings.Pages.{Loaded, ok, unreadable, same_reading_key, load_pages}
use docket_yard.Readings.Load.Branches.{load_reading-branches}
use docket_yard.Readings.Pins.{Declaration}
use docket_yard.Readings.Load.{
  Said, run_recorded, run_row, record_run, take_in, stamped, with_payload, said, load_reading,
  greatest_run,
}

-- The reading's run is recorded, and its document known.
abbrev pub HasRun : Header → Store → Type 0
HasRun h s = (run_recorded h s.ocr_run ≡ true) × (any (str_eq h.document_sha256) s.document ≡ true)

-- What is recorded of an answer that met its document.
abbrev Met : Header → Loaded (Said × Store) → Type 0
Met h unreadable = Unit
Met h (ok (Said.unknown_document, s)) = Unit
Met h (ok (_, s)) = HasRun h s

is_itself : (s : String) → str_eq s s ≡ true
is_itself s = (eq_iff s s).1 refl

or_true : (b : Bool) → (b || true) ≡ true
or_true b = ground arith

own_run :
    (h : Header) (n : ℕ) (d : Option ℕ) (i : ℕ) (rows : List Run)
    → run_recorded h (rows ++ run_row h n d i ∷ []) ≡ true
own_run h n d i rows =
    any-append
      (λ (r : Run).
        (str_eq r.document_sha256 h.document_sha256 && same_reading_key r.key h.key)
        && (str_eq r.reading_channel h.reading_channel && str_eq r.ran_at h.ran_at))
      rows (run_row h n d i ∷ [])
    ∙ rw
        (
          is_itself h.document_sha256,
          is_itself h.key.method,
          is_itself h.key.method_version,
          is_itself h.key.render_profile,
          is_itself h.reading_channel,
          is_itself h.ran_at,
        )
        (or_true (any _ rows))

Met-said : (h : Header) (x : Said) (s : Store) → HasRun h s → Met h (ok (x, s))
Met-said h Said.loaded s has = has
Met-said h Said.unchanged s has = has
Met-said h Said.restart s has = has
Met-said h Said.run_only s has = has
Met-said h Said.unknown_document s has = tt

module _ (digest_of : List ℕ → String) (display : String → String) where
  Met-record_run :
      (r : Reading) (digest : String) (d : Option ℕ) (s : Store)
      (x : Loaded (Bool × (List TextRow × List (ℕ × String))))
      → any (str_eq r.header.document_sha256) s.document ≡ true
      → Met r.header (record_run r digest d s x)
  Met-record_run r digest d s unreadable known = tt
  Met-record_run r digest d s (ok (w, (rows, fts))) known =
      Met-said r.header (said r.pages w) _
        (own_run r.header (length r.pages) d (suc (greatest_run s.ocr_run)) s.ocr_run, known)

  Met-take_in :
      (r : Reading) (now : ℕ) (s : Store) (x : Loaded (Option ℕ))
      → any (str_eq r.header.document_sha256) s.document ≡ true
      → Met r.header (take_in digest_of display r now s x)
  Met-take_in r now s unreadable known = tt
  Met-take_in r now s (ok d) known =
      Met-record_run r (digest_of r.payload) d (with_payload digest_of display r now s)
        (load_pages display r.header (digest_of r.payload) now s.document_text r.pages
          (s.document_text, s.page_fts))
        known

  Met-load_reading :
      (machine : List String) (declared : List Declaration) (stamp : Option (Header → Option ℕ))
      (now : ℕ) (r : Reading) (s : Store)
      → Met r.header (load_reading digest_of display machine declared stamp now r s)
  Met-load_reading machine declared stamp now r s =
      load_reading-branches digest_of display machine declared stamp now r s (Met r.header) tt tt
        (λ known found. (found, known)) (Met-take_in r now s (stamped r.header stamp))

  of_Met :
      (h : Header) (x : Said) (s : Store)
      → Met h (ok (x, s))
      → x ≢ Said.unknown_document
      → HasRun h s
  of_Met h Said.loaded s has apart = has
  of_Met h Said.unchanged s has apart = has
  of_Met h Said.restart s has apart = has
  of_Met h Said.run_only s has apart = has
  of_Met h Said.unknown_document s has apart = absurd (apart refl)

  restarts :
      (machine : List String) (declared : List Declaration) (stamp : Option (Header → Option ℕ))
      (now : ℕ) (r : Reading) (s : Store)
      → any (str_eq r.header.reading_channel) machine ≡ true
      → HasRun r.header s
      → load_reading digest_of display machine declared stamp now r s ≡ ok (Said.restart, s)
  unfolding load_reading
  restarts machine declared stamp now r s model has = rw (model, has.1, has.0)

  -- A reading that met its document is recorded with its run: a second load of it answers `restart`
  -- and leaves the store as it is, whatever the key has been pinned to since, whichever dispatch the
  -- second load names or does not, and whenever it comes, while its channel is a model's.
  pub load_reading-again :
      (machine machine' : List String) (declared declared' : List Declaration)
      (stamp stamp' : Option (Header → Option ℕ)) (now now' : ℕ) (r : Reading) (s s' : Store)
      (x : Said)
      → load_reading digest_of display machine declared stamp now r s ≡ ok (x, s')
      → x ≢ Said.unknown_document
      → any (str_eq r.header.reading_channel) machine' ≡ true
      → load_reading digest_of display machine' declared' stamp' now' r s' ≡ ok (Said.restart, s')
  load_reading-again machine machine' declared declared' stamp stamp' now now' r s s' x e apart
        model =
      restarts machine' declared' stamp' now' r s' model (
        of_Met r.header x s'
          (subst (Met r.header) e (Met-load_reading machine declared stamp now r s)) apart)
