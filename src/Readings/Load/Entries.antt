-- ===== src/Readings/Load/Entries.antt =====
-- src/docketyard/store/page_index.py: the entries of rows, as a row is put over another and one leaves.
use docket_yard.Prelude.{
  ℕ, ◌≡◌, refl, ◌∙◌, String, Bool, true, false, not, ◌&&◌, ◌||◌, Option, none, some, List, [], ◌∷◌,
  ◌++◌, str_eq, eq_iff, ◌==◌, Bool-cases, inl, inr, arith, All, All-imp, All-append,
}
use docket_yard.Prelude.Table.{any, any-append, update_where}
use docket_yard.Assertions.Supersede.{is_live, retire}
use docket_yard.Readings.Rows.{TextRow, text_columns}
use docket_yard.Readings.Pages.{put_over, leave}
use docket_yard.Readings.Load.Branches.{}

module _ (display : String → String) (covers : TextRow → Bool) where
  abbrev pub entry_of : TextRow → ℕ × String → Bool
  entry_of r e = e.0 == r.text_id && str_eq e.1 (display r.text)

  -- A live row that is covered has its entry.
  abbrev pub is_indexed : List (ℕ × String) → TextRow → Bool
  is_indexed fts r = not (covers r && is_live text_columns r) || any (entry_of r) fts

  abbrev pub Indexed : List (ℕ × String) → List TextRow → Type 0
  Indexed fts rows = All (λ r. is_indexed fts r ≡ true) rows

  pub entered :
      (r : TextRow) (fts : List (ℕ × String))
      → is_indexed (fts ++ (r.text_id, display r.text) ∷ []) r ≡ true
  entered r fts =
      let same_text : str_eq (display r.text) (display r.text) ≡ true =
        (eq_iff (display r.text) (display r.text)).1 refl in
      let same_id : (r.text_id == r.text_id) ≡ true = ground arith in
      let there : any (entry_of r) (fts ++ (r.text_id, display r.text) ∷ []) ≡ true =
        any-append (entry_of r) fts ((r.text_id, display r.text) ∷ [])
        ∙ rw (same_id, same_text) (ground arith) in
      rw there (ground arith)

  -- The entries of another row stay when one row leaves.
  pub stays-leave :
      (r held : TextRow) (fts : List (ℕ × String))
      → (r.text_id == held.text_id) ≡ false
      → any (entry_of r) fts ≡ true
      → any (entry_of r) (leave display (some held) fts) ≡ true
  stays-leave r held [] other e = cc
  stays-leave r held (x ∷ fts) other e = elim (Bool-cases (entry_of r x)) [
    | inl met ↦
        let kept : (x.0 == held.text_id && str_eq x.1 (display held.text)) ≡ false = ground arith in
        rw (kept, met) refl
    | inr unmet ↦
        let still : any (entry_of r) fts ≡ true = rw unmet at e in
        let rest = stays-leave r held fts other still in
        elim (Bool-cases (x.0 == held.text_id && str_eq x.1 (display held.text))) [
          | inl gone ↦ rw gone still
          | inr kept ↦ rw (kept, unmet) rest
        ]
  ]

  ended :
      (fts fts' : List (ℕ × String)) (held : TextRow) (f : TextRow → TextRow)
      → ((r : TextRow) → is_live text_columns (f r) ≡ false)
      → ((r : TextRow)
          → (r.text_id == held.text_id) ≡ false
          → is_indexed fts r ≡ true
          → is_indexed fts' r ≡ true)
      → (rows : List TextRow) → Indexed fts rows
      → Indexed fts' (update_where (λ r. r.text_id == held.text_id) f rows)
  ended fts fts' held f dead keep [] h = tt
  ended fts fts' held f dead keep (r ∷ rows) h = elim (Bool-cases (r.text_id == held.text_id)) [
    | inl hit ↦
        let over = dead r in
        rw hit (rw over (ground arith), ended fts fts' held f dead keep rows h.1)
    | inr missed ↦ rw missed (keep r missed h.0, ended fts fts' held f dead keep rows h.1)
  ]

  pub put_over-Indexed :
      (fts fts' : List (ℕ × String)) (holder : Option TextRow) (insert : ℕ → TextRow) (now : ℕ)
      (rows : List TextRow)
      → ((r : TextRow)
          → elim holder [ none ↦ true | some held ↦ not (r.text_id == held.text_id) ] ≡ true
          → is_indexed fts r ≡ true
          → is_indexed fts' r ≡ true)
      → is_indexed fts' (insert (put_over holder insert now rows).1) ≡ true
      → Indexed fts rows
      → Indexed fts' (put_over holder insert now rows).0
  unfolding retire
  put_over-Indexed fts fts' none insert now rows keep new h =
      All-append (λ r. is_indexed fts' r ≡ true) rows _ (All-imp _ _ rows (λ r i. keep r refl i) h)
        (new, tt)
  put_over-Indexed fts fts' (some held) insert now rows keep new h =
      let gone =
        ended fts fts' held (λ r. text_columns.stamp now (text_columns.point held.text_id r))
          (λ r. refl) (λ r other i. keep r (rw other refl) i) rows h in
      let put =
        All-append (λ r. is_indexed fts' r ≡ true)
          (retire text_columns held.text_id (some now) rows) _ gone (new, tt) in
      ended fts' fts' held (text_columns.point _) (λ r. refl) (λ r _ i. i) _ put
