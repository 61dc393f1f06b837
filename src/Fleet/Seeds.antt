-- ===== src/Fleet/Seeds.antt =====
-- tools/fleet/pagequeue.py: the seeds of a pass, `seed_pass` from the route files and `seed_from_list`
-- from a page list. The directories are state: which files they hold, and what those say.
pub mod Routed
mod Tests
use docket_yard.Prelude.{
  ℕ, suc, ◌+◌, String, Bool, true, false, not, ◌&&◌, ◌||◌, Option, none, some, List, [], ◌∷◌, ◌++◌,
  map, length, str_eq, ltb, ◌==◌, if◌then◌else◌,
}
use docket_yard.Prelude.Table.{select, any, find}
use docket_yard.Fleet.Rows.{Queue, is_some}
use docket_yard.Fleet.Passes.{Spec, Source, dots, tabular}
use docket_yard.Fleet.Documents.{Verdict, known, pages_held, seed}

-- A route file: its directory, its document, and the class of each page, if it has one.
pub record RouteFile : Type 0 where
  pub root : String
  pub document_sha256 : String
  pub pages : List (ℕ × Option String)

-- A reading's file, and whether it says `read` with no page failed.
pub record ReadingFile : Type 0 where
  pub root : String
  pub document_sha256 : String
  pub says_whole : Bool

pub record Tree : Type 0 where
  pub routes : List RouteFile
  pub readings : List ReadingFile

abbrev pub is_route : String → String → RouteFile → Bool
is_route root sha f = str_eq f.root root && str_eq f.document_sha256 sha

abbrev pub is_reading : String → String → ReadingFile → Bool
is_reading root sha f = str_eq f.root root && str_eq f.document_sha256 sha

abbrev classed : List (ℕ × Option String) → List ℕ
classed pages = map (λ (p : ℕ × Option String). p.0) (select (λ p. is_some p.1) pages)

abbrev pub routed_pages : Tree → String → String → List ℕ
routed_pages tree root sha = elim (find (is_route root sha) tree.routes) [
  | none ↦ []
  | some f ↦ classed f.pages
]

-- The counts that both seeds keep, and those of a page list.
pub record Counts : Type 0 where
  pub documents : ℕ
  pub pages : ℕ
  pub whole : ℕ
  pub set_aside : ℕ
  pub new : ℕ
  pub missing_reading : ℕ
  pub listed_pages : ℕ
  pub topped_up : ℕ
  pub unrouted_documents : ℕ
  pub unrouted_pages : ℕ
  pub wave_routed : ℕ

-- What a seed has found so far.
pub record Seeding : Type 0 where
  pub tree : Tree
  pub n : Counts
  pub reread : List String
  pub pages : List (String × ℕ)

-- A reading that is read again, and those measured against it, are renamed out of the way.
abbrev renamed : Spec → String → Tree → Tree
renamed spec sha tree = record tree {
  readings =
      select
        (λ (f : ReadingFile). not (
          str_eq f.document_sha256 sha
          && (str_eq f.root spec.root || any (str_eq f.root) spec.invalidates)))
        tree.readings;
}

abbrev is_whole : Option Verdict → Bool
is_whole (some Verdict.whole) = true
is_whole _ = false

abbrev is_open : Option Verdict → Bool
is_open (some Verdict.still_open) = true
is_open _ = false

abbrev says_whole_of : Tree → String → String → Bool
says_whole_of tree root sha = any (λ f. is_reading root sha f && f.says_whole) tree.readings

abbrev aside : Spec → (dry_run : Bool) → String → Seeding → Seeding
aside spec dry_run sha s = record s {
  tree = (if dry_run then s.tree else renamed spec sha s.tree);
  n = record s.n { set_aside = s.n.set_aside + 1 };
  reread = sha ∷ s.reread;
}

abbrev count_missing : Option Verdict → Seeding → Seeding
count_missing k s =
    if is_whole k
    then record s { n = record s.n { missing_reading = s.n.missing_reading + 1 } }
    else s

abbrev owed : Seeding → Seeding
owed s = record s { n = record s.n { documents = s.n.documents + 1 } }

-- `_decide`: whether to queue the document's pages.
unfoldable pub decide :
    (k : Option Verdict) → Spec → (dry_run : Bool) → String → Seeding → Bool × Seeding
decide k spec dry_run sha s =
    let existing = any (is_reading spec.root sha) s.tree.readings in
    let whole_one = record s { n = record s.n { whole = s.n.whole + 1 } } in
    if is_open k
    then (false, s)
    else if is_whole k && existing
    then (false, whole_one)
    else if not (is_some k) && existing && says_whole_of s.tree spec.root sha
    then (false, whole_one)
    else if is_some k || existing
    then (true, owed (aside spec dry_run sha (count_missing k s)))
    else (true, owed s)

abbrev pub empty_counts : Counts
empty_counts = record {
  documents = 0;
  pages = 0;
  whole = 0;
  set_aside = 0;
  new = 0;
  missing_reading = 0;
  listed_pages = 0;
  topped_up = 0;
  unrouted_documents = 0;
  unrouted_pages = 0;
  wave_routed = 0;
}

abbrev pub queue_pages : String → List ℕ → Seeding → Seeding
queue_pages sha nos s = record s { pages = s.pages ++ map (λ page_no. (sha, page_no)) nos }

abbrev pub opening : Tree → Seeding
opening tree = record { tree = tree; n = empty_counts; reread = []; pages = [] }

-- The end of both: what was found is queued, unless the run is dry.
abbrev pub close : (t : ℕ) → String → (dry_run : Bool) → Seeding → Queue → Counts × Tree × Queue
close t pass dry_run s q =
    let n = record s.n { pages = length s.pages } in
    if dry_run
    then (n, s.tree, q)
    else (let done = seed t pass s.pages s.reread q in (record n { new = done.0 }, s.tree, done.1))

abbrev of_class : Option String → ℕ × Option String → Bool
of_class (some c) (page_no, some d) = str_eq c d
of_class _ _ = false

abbrev pub seed_route : String → Spec → (dry_run : Bool) → Queue → RouteFile → Seeding → Seeding
seed_route pass spec dry_run q f s =
    let wanted = map (λ (p : ℕ × Option String). p.0) (select (of_class spec.class) f.pages) in
    let (queue_it, s') = decide (known pass f.document_sha256 q) spec dry_run f.document_sha256 s in
    elim wanted [
      | [] ↦ s
      | page_no ∷ nos ↦ if queue_it then queue_pages f.document_sha256 (page_no ∷ nos) s' else s'
    ]

abbrev pub each : {A S : Type 0} → (A → S → S) → List A → S → S
each f [] s = s
each f (x ∷ xs) s = each f xs (f x s)

-- The files of the route root in their order; none is the ValueError of a pass that has no such seed.
unfoldable pub seed_pass :
    (t : ℕ) → String → Spec → (dry_run : Bool) → Tree → Queue → Option (Counts × Tree × Queue)
seed_pass t pass spec dry_run tree q =
    let files = select (λ (f : RouteFile). str_eq f.root spec.route_root) tree.routes in
    let s = each (seed_route pass spec dry_run q) files (opening tree) in
    elim spec.seeded_from [ Source.route ↦ some (close t pass dry_run s q) | Source.list ↦ none ]

abbrev pub within : List ℕ → ℕ → Bool
within nos page_no = any (λ m. m == page_no) nos

-- `sorted(a | b)`: the numbers of both, each once, in order.
abbrev insert_number : ℕ → List ℕ → List ℕ
insert_number page_no [] = page_no ∷ []
insert_number page_no (m ∷ ms) =
    let rest = insert_number page_no ms in
    if ltb page_no m then page_no ∷ m ∷ ms else if page_no == m then m ∷ ms else m ∷ rest

abbrev pub sorted_union : List ℕ → List ℕ → List ℕ
sorted_union [] [] = []
sorted_union [] (b ∷ bs) = insert_number b (sorted_union [] bs)
sorted_union (a ∷ rest) bs = insert_number a (sorted_union rest bs)

abbrev or_none : Option (List ℕ) → List ℕ
or_none none = []
or_none (some nos) = nos

-- `sorted((held | wanted) & routed)`
abbrev pub owed_pages : (routed : List ℕ) → Option (List ℕ) → List ℕ → List ℕ
owed_pages routed held wanted = select (within routed) (sorted_union (or_none held) wanted)

-- Whether the queue has pages of the document, and the list one that it has never held.
abbrev pub never_held : Option (List ℕ) → List ℕ → Bool
never_held none wanted = false
never_held (some held) wanted = any (λ page_no. not (within held page_no)) wanted

abbrev pub top_up : Spec → (dry_run : Bool) → String → Seeding → Seeding
top_up spec dry_run sha s = record s {
  tree = (if dry_run then s.tree else renamed spec sha s.tree);
  n = record s.n { topped_up = s.n.topped_up + 1; documents = s.n.documents + 1 };
  reread = sha ∷ s.reread;
}

-- The route roots of the passes seeded from routes: image-only documents.
abbrev pub wave_roots : Spec → List String
wave_roots spec =
    select (λ root. not (str_eq root spec.route_root)) (dots.route_root ∷ tabular.route_root ∷ [])

abbrev pub listed_too : List ℕ → Seeding → Seeding
listed_too listed s = record s {
  n = record s.n { listed_pages = s.n.listed_pages + length listed };
}

abbrev pub unrouted_too : List ℕ → List ℕ → Seeding → Seeding
unrouted_too routed listed s = record s {
  n = record s.n {
    unrouted_pages =
        s.n.unrouted_pages + length (select (λ page_no. not (within routed page_no)) listed);
  };
}

-- A document's pages of the list.
unfoldable pub seed_listed :
    String → Spec → (dry_run : Bool) → Queue → String × List ℕ → Seeding → Seeding
seed_listed pass spec dry_run q (sha, listed) s =
    let routed = routed_pages s.tree spec.route_root sha in
    let wanted = select (within routed) listed in
    let s₁ = listed_too listed s in
    let s₂ = unrouted_too routed listed s₁ in
    let held = pages_held pass sha q in
    let (queue_it, s₃) = decide (known pass sha q) spec dry_run sha s₂ in
    let nos = owed_pages routed held wanted in
    if length routed == 0
    then record s₁ { n = record s₁.n { unrouted_documents = s₁.n.unrouted_documents + 1 } }
    else if any (λ root. any (is_route root sha) s.tree.routes) (wave_roots spec)
    then record s₁ { n = record s₁.n { wave_routed = s₁.n.wave_routed + 1 } }
    else if length wanted == 0
    then s₂
    else if never_held held wanted
    then queue_pages sha nos (top_up spec dry_run sha s₂)
    else if queue_it
    then queue_pages sha nos s₃
    else s₃

-- The counts and what is left, or an exception.
pub data Listed : Type 0 where
  value_error : Listed
  unloadable : Listed
  seeded : Counts × Tree × Queue → Listed

-- The documents of the list in their order, for a pass that is seeded from one and has a directory of
-- routes, where the list names a page; "" is the route root of a pass that has none.
unfoldable pub seed_from_list :
    (t : ℕ) → String → Spec → (dry_run : Bool) → List (String × List ℕ) → Tree → Queue → Listed
seed_from_list t pass spec dry_run wanted tree q =
    let s = each (seed_listed pass spec dry_run q) wanted (opening tree) in
    elim spec.seeded_from [
      | Source.route ↦ Listed.value_error
      | Source.list ↦
          if str_eq spec.route_root ""
          then Listed.unloadable
          else if length wanted == 0
          then Listed.value_error
          else Listed.seeded (close t pass dry_run s q)
    ]
