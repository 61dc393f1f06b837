-- ===== src/Readings/Pages.antt =====
-- src/docketyard/text/load.py, `_load_page`, with src/docketyard/store/page_index.py: one page into
-- `document_text` and the page index. `display` is what the index shows of a text.
use docket_yard.Prelude.{
  ℕ, String, Bool, true, false, not, ◌&&◌, ◌||◌, Option, none, some, List, [], ◌∷◌, ◌++◌, str_eq,
  ◌==◌, if◌then◌else◌,
}
use docket_yard.Prelude.Table.{update_where}
use docket_yard.Fleet.Rows.{is_some}
use docket_yard.Assertions.Supersede.{live_row, next_id, retire}
use docket_yard.Readings.Rows.{Key, Agreement, Page, Header, Measured, TextRow, text_columns}

abbrev pub same_reading_key : Key → Key → Bool
same_reading_key a b =
    str_eq a.method b.method
    && (str_eq a.method_version b.method_version && str_eq a.render_profile b.render_profile)

abbrev pub in_role : String → ℕ → String → TextRow → Bool
in_role sha page_no role r =
    (str_eq r.document_sha256 sha && r.page_no == page_no) && str_eq r.reading_role role

abbrev pub at_key : String → ℕ → Key → TextRow → Bool
at_key sha page_no key r =
    (str_eq r.document_sha256 sha && r.page_no == page_no) && same_reading_key r.key key

-- `by_role.get((no, role))` and `by_key.get((no, key))`, of the rows as `_live` found them.
abbrev pub by_role : String → List TextRow → ℕ → String → Option TextRow
by_role sha rows page_no role = live_row text_columns (in_role sha page_no role) rows

abbrev pub by_key : String → List TextRow → ℕ → Key → Option TextRow
by_key sha rows page_no key = live_row text_columns (at_key sha page_no key) rows

-- The answer, or `Unreadable`; `page_index.leave` finds the row that it is given.
pub data Loaded {ℓ} (A : Type ℓ) : Type ℓ where
  ok : A → Loaded A
  unreadable : Loaded A

-- The key is live on the page in another role.
abbrev pub clashes : Option TextRow → Option TextRow → Bool
clashes holder none = false
clashes none (some same) = true
clashes (some held) (some same) = not (same.text_id == held.text_id)

-- The row's quadruple, or `Unreadable` where the live primary is not the one measured against.
abbrev pub measured_against : Option Agreement → Option TextRow → Loaded (Option Measured)
measured_against none primary = ok none
measured_against (some a) none = unreadable
measured_against (some a) (some primary) =
    if same_reading_key primary.key a.against
    then ok (
        some (record {
          against = primary.text_id;
          distance = a.distance;
          method = a.method;
          method_version = a.method_version;
        }))
    else unreadable

abbrev pub same_measured : Option Measured → Option Measured → Bool
same_measured none none = true
same_measured (some a) (some b) =
    (a.against == b.against)
    && (str_eq a.distance b.distance
        && (str_eq a.method b.method && str_eq a.method_version b.method_version))
same_measured _ _ = false

abbrev pub says_so : Key → Page → Option Measured → Option TextRow → Bool
says_so key page agreement none = false
says_so key page agreement (some held) =
    same_reading_key held.key key
    && (str_eq held.text_sha256 page.text_sha256 && same_measured held.agreement agreement)

abbrev pub text_row : Header → Page → Option Measured → (digest : String) (now : ℕ) → ℕ → TextRow
text_row h page agreement digest now i = record {
  text_id = i;
  document_sha256 = h.document_sha256;
  page_no = page.page_no;
  key = h.key;
  reading_channel = h.reading_channel;
  reading_role = h.reading_role;
  route = page.route;
  text = page.text;
  text_sha256 = page.text_sha256;
  engine_confidence = page.engine_confidence;
  agreement = agreement;
  payload_digest = digest;
  payload_member = page.member;
  asserted_at = now;
  superseded_by = none;
  superseded_at = none;
}

-- Retire at itself, insert, repoint: the rows, and the new row's id.
abbrev pub put_over :
    (holder : Option TextRow) → (ℕ → TextRow) → (now : ℕ) → List TextRow → List TextRow × ℕ
put_over none insert now rows =
    let new = next_id text_columns rows in (rows ++ insert new ∷ [], new)
put_over (some held) insert now rows =
    let gone = retire text_columns held.text_id (some now) rows in
    let new = next_id text_columns gone in
    (
      update_where (λ (r : TextRow). r.text_id == held.text_id) (text_columns.point new)
          (gone ++ insert new ∷ []),
      new,
    )

module _ (display : String → String) where
  -- The index's own delete clears one entry that equals what it is given.
  abbrev pub clear_entry : ℕ → String → List (ℕ × String) → List (ℕ × String)
  clear_entry i text [] = []
  clear_entry i text (e ∷ fts) =
      let rest = clear_entry i text fts in if e.0 == i && str_eq e.1 text then fts else e ∷ rest

  -- `page_index.leave`: a delete with the text as it was indexed.
  abbrev pub leave : Option TextRow → List (ℕ × String) → List (ℕ × String)
  leave none fts = fts
  leave (some r) fts = clear_entry r.text_id (display r.text) fts

  -- `page_index.enter`
  abbrev pub enter : ℕ → String → List (ℕ × String) → List (ℕ × String)
  enter text_id text fts = fts ++ (text_id, display text) ∷ []

  abbrev pub write_page :
      Header
      → Page
      → (digest : String) (now : ℕ) → (visible : Bool) (holder : Option TextRow) → Option Measured
      → List TextRow × List (ℕ × String)
      → List TextRow × List (ℕ × String)
  write_page h page digest now visible holder agreement (rows, fts) =
      let (rows', new) = put_over holder (text_row h page agreement digest now) now rows in
      (rows', (if visible then enter new page.text (leave holder fts) else fts))

  -- `_load_page` over the rows that were live at the start: whether a row was written.
  abbrev pub load_found :
      Header
      → Page
      → (digest : String) (now : ℕ) → (visible : Bool) (holder : Option TextRow)
      → Loaded (Option Measured)
      → List TextRow × List (ℕ × String)
      → Loaded (Bool × (List TextRow × List (ℕ × String)))
  load_found h page digest now visible holder unreadable s = unreadable
  load_found h page digest now visible holder (ok agreement) s =
      if says_so h.key page agreement holder
      then ok (false, s)
      else ok (true, write_page h page digest now visible holder agreement s)

  unfoldable pub load_page :
      Header
      → Page
      → (digest : String) (now : ℕ) → (live : List TextRow) → List TextRow × List (ℕ × String)
      → Loaded (Bool × (List TextRow × List (ℕ × String)))
  load_page h page digest now live s =
      let sha = h.document_sha256 in
      let holder = by_role sha live page.page_no h.reading_role in
      let visible =
        str_eq h.reading_role "primary" && not (is_some (by_role sha live page.page_no "human")) in
      if clashes holder (by_key sha live page.page_no h.key)
      then unreadable
      else load_found h page digest now visible holder
          (measured_against page.agreement (by_role sha live page.page_no "primary")) s

  abbrev pub or_written :
      Bool
      → Loaded (Bool × (List TextRow × List (ℕ × String)))
      → Loaded (Bool × (List TextRow × List (ℕ × String)))
  or_written written unreadable = unreadable
  or_written written (ok (more, s)) = ok (written || more, s)

  abbrev pub and_then :
      Loaded (Bool × (List TextRow × List (ℕ × String)))
      → (List TextRow × List (ℕ × String) → Loaded (Bool × (List TextRow × List (ℕ × String))))
      → Loaded (Bool × (List TextRow × List (ℕ × String)))
  and_then unreadable rest = unreadable
  and_then (ok (written, s)) rest = or_written written (rest s)

  abbrev pub load_pages :
      Header
      → (digest : String) (now : ℕ) → (live : List TextRow) → List Page
      → List TextRow × List (ℕ × String)
      → Loaded (Bool × (List TextRow × List (ℕ × String)))
  load_pages h digest now live [] s = ok (false, s)
  load_pages h digest now live (page ∷ pages) s =
      and_then (load_page h page digest now live s) (load_pages h digest now live pages)
