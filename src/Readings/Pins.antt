-- ===== src/Readings/Pins.antt =====
-- src/docketyard/text/load.py: which producer a reading key is pinned to. `t` is the time of the call.
pub mod Moved
mod Tests
use docket_yard.Prelude.{
  ℕ, suc, String, Bool, true, false, not, ◌&&◌, Option, none, some, List, [], ◌∷◌, ◌++◌, max,
  str_eq, ltb, ◌==◌, if◌then◌else◌,
}
use docket_yard.Prelude.Table.{any, find, select, update_where}
use docket_yard.Fleet.Rows.{is_some}

-- channel, render and role
pub record PinKey : Type 0 where
  pub reading_channel : String
  pub render_profile : String
  pub reading_role : String

pub record Producer : Type 0 where
  pub method : String
  pub method_version : String

-- table `producer_declaration`
pub record Declaration : Type 0 where
  pub declaration_id : ℕ
  pub key : PinKey
  pub producer : Producer
  pub declared_by : Option String
  pub declared_at : ℕ
  pub retired_at : Option ℕ
  pub superseded_by : Option ℕ

abbrev pub same_pin : PinKey → PinKey → Bool
same_pin a b =
    str_eq a.reading_channel b.reading_channel
    && (str_eq a.render_profile b.render_profile && str_eq a.reading_role b.reading_role)

abbrev pub same_producer : Producer → Producer → Bool
same_producer a b = str_eq a.method b.method && str_eq a.method_version b.method_version

abbrev pub in_force : PinKey → Declaration → Bool
in_force key d = same_pin d.key key && not (is_some d.retired_at)

abbrev pub producer_of : Option Declaration → Option Producer
producer_of none = none
producer_of (some d) = some d.producer

-- `pins(con).get(key)`; the live index leaves one row for a key.
unfoldable pub pinned : PinKey → List Declaration → Option Producer
pinned key ds = producer_of (find (in_force key) ds)

abbrev greatest : List Declaration → ℕ
greatest [] = 0
greatest (d ∷ ds) = max d.declaration_id (greatest ds)

abbrev pub next_id : List Declaration → ℕ
next_id ds = suc (greatest ds)

abbrev pub declaration : ℕ → PinKey → Producer → Option String → ℕ → Declaration
declaration t key p by i = record {
  declaration_id = i;
  key = key;
  producer = p;
  declared_by = by;
  declared_at = t;
  retired_at = none;
  superseded_by = none;
}

-- `Conflict`, or the rows.
pub data Declared : Type 0 where
  declared : List Declaration → Declared
  conflict : Declared

abbrev pub declare_over :
    ℕ → PinKey → Producer → Option String → List Declaration → Option Producer → Declared
declare_over t key p by ds none = declared (ds ++ declaration t key p by (next_id ds) ∷ [])
declare_over t key p by ds (some held) = if same_producer held p then declared ds else conflict

unfoldable pub declare_producer :
    ℕ → PinKey → Producer → Option String → List Declaration → Declared
unfolding pinned
declare_producer t key p by ds = declare_over t key p by ds (pinned key ds)

-- ORDER BY declaration_id DESC LIMIT 1
abbrev pub latest : List Declaration → Option Declaration
latest [] = none
latest (d ∷ ds) = elim (latest ds) [
  | none ↦ some d
  | some e ↦ if ltb e.declaration_id d.declaration_id then some d else some e
]

abbrev unlinked : PinKey → Declaration → Bool
unlinked key d = same_pin d.key key && not (is_some d.superseded_by)

abbrev pub retired : ℕ → Option Declaration → List Declaration → List Declaration
retired t none ds = ds
retired t (some live) ds =
    update_where (λ (d : Declaration). d.declaration_id == live.declaration_id)
      (λ d. record d { retired_at = some t }) ds

abbrev pub linked : ℕ → Option Declaration → List Declaration → List Declaration
linked new none ds = ds
linked new (some before) ds =
    update_where (λ (d : Declaration). d.declaration_id == before.declaration_id)
      (λ d. record d { superseded_by = some new }) ds

abbrev predecessor : PinKey → List Declaration → Option Declaration → Option Declaration
predecessor key ds (some live) = some live
predecessor key ds none = latest (select (unlinked key) ds)

abbrev pub move :
    ℕ → PinKey → Producer → Option String → List Declaration → Option Declaration → List Declaration
move t key p by ds live =
    let before = predecessor key ds live in
    let cleared = retired t live ds in
    linked (next_id cleared) before (cleared ++ declaration t key p by (next_id cleared) ∷ [])

abbrev pub repoint_over :
    ℕ → PinKey → Producer → Option String → List Declaration → Option Declaration → List Declaration
repoint_over t key p by ds none = move t key p by ds none
repoint_over t key p by ds (some live) =
    let moved = move t key p by ds (some live) in
    if same_producer live.producer p then ds else moved

unfoldable pub repoint_producer :
    ℕ → PinKey → Producer → Option String → List Declaration → List Declaration
repoint_producer t key p by ds = repoint_over t key p by ds (find (in_force key) ds)
