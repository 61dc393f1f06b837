-- ===== src/Readings/Pins/Moved.antt =====
-- src/docketyard/text/load.py: one pin in force for a key, and how it moves.
use docket_yard.Prelude.{
  ℕ, suc, ◌≤◌, ◌≡◌, ◌≢◌, refl, sym, ◌∙◌, ap, String, true, false, Option, none, some, List, [], ◌∷◌,
  ◌++◌, All, Bool-cases, inl, inr, arith, eq_iff, ◌==◌,
}
use mathlib.Core.Bool.{false≢true}
use docket_yard.Prelude.Table.{find, find-append}
use docket_yard.Assertions.Supersede.{Columns}
use docket_yard.Assertions.Supersede.Live.{Laws, live_rows, live_rows-ended, one_more, none_live}
use docket_yard.Readings.Pins.{
  PinKey, Producer, Declaration, same_pin, same_producer, in_force, producer_of, pinned, next_id,
  declaration, Declared, declared, conflict, declare_over, declare_producer, retired, linked, move,
  repoint_over, repoint_producer,
}

same_pin_self : (k : PinKey) → same_pin k k ≡ true
same_pin_self k = rw (
  (eq_iff k.reading_channel k.reading_channel).1 refl,
  (eq_iff k.render_profile k.render_profile).1 refl,
  (eq_iff k.reading_role k.reading_role).1 refl,
)

same_producer_self : (p : Producer) → same_producer p p ≡ true
same_producer_self p =
    rw ((eq_iff p.method p.method).1 refl, (eq_iff p.method_version p.method_version).1 refl)

same_producer-eq : (p q : Producer) → same_producer p q ≡ true → p ≡ q
same_producer-eq p q e =
    let m : p.method ≡ q.method = (eq_iff p.method q.method).0 (ground arith) in
    let v : p.method_version ≡ q.method_version =
      (eq_iff p.method_version q.method_version).0 (ground arith) in
    rw (m, v)

-- A declaration lives until it is retired.
abbrev pub pin_columns : Columns Declaration
pin_columns = record {
  id_of = λ d. d.declaration_id;
  superseded_by = λ d. d.retired_at;
  point = λ t d. record d { retired_at = some t };
  stamp = λ t d. d;
}

abbrev pub pin_laws : Laws pin_columns
pin_laws = record { pointed = λ t d. refl; stamped = λ t d. refl }

module _ (key : PinKey) where
  abbrev pub pins_of : List Declaration → ℕ
  pins_of = live_rows pin_columns pin_laws (λ d. same_pin d.key key)

  count-none : (ds : List Declaration) → pins_of ds ≡ 0 → All (λ d. in_force key d ≡ false) ds
  count-none [] e = tt
  count-none (d ∷ ds) e = elim (Bool-cases (in_force key d)) [
    | inl now ↦ let clash : suc (pins_of ds) ≡ 0 = rw now at e in absurd (omega arith)
    | inr not_now ↦ (not_now, count-none ds (rw not_now at e))
  ]

  retired-none :
      (t : ℕ) (ds : List Declaration) (live : Option Declaration)
      → find (in_force key) ds ≡ live
      → pins_of ds ≤ 1
      → pins_of (retired t live ds) ≡ 0
  retired-none t ds none e le = none_live pin_columns pin_laws (λ d. same_pin d.key key) ds e
  retired-none t ds (some live) e le =
      live_rows-ended pin_columns pin_laws (λ d. same_pin d.key key)
        (λ d. d.declaration_id == live.declaration_id) (λ d. record d { retired_at = some t })
        (λ d. refl) ds live e (ground arith) le

  linked-pins :
      (new : ℕ) (before : Option Declaration) (ds : List Declaration)
      → pins_of (linked new before ds) ≡ pins_of ds
  linked-pins new none ds = refl
  linked-pins new (some b) [] = refl
  linked-pins new (some b) (d ∷ ds) = elim (Bool-cases (d.declaration_id == b.declaration_id)) [
    | inl hit ↦ rw (hit, linked-pins new (some b) ds)
    | inr miss ↦ rw (miss, linked-pins new (some b) ds)
  ]

  linked-producer :
      (new : ℕ) (before : Option Declaration) (ds : List Declaration)
      → producer_of (find (in_force key) (linked new before ds))
        ≡ producer_of (find (in_force key) ds)
  linked-producer new none ds = refl
  linked-producer new (some b) [] = refl
  linked-producer new (some b) (d ∷ ds) = elim (Bool-cases (d.declaration_id == b.declaration_id)) [
    | inl hit ↦ elim (Bool-cases (in_force key d)) [
      | inl now ↦ rw (hit, now)
      | inr not_now ↦ rw (hit, not_now) (linked-producer new (some b) ds)
    ]
    | inr miss ↦ elim (Bool-cases (in_force key d)) [
      | inl now ↦ rw (miss, now)
      | inr not_now ↦ rw (miss, not_now) (linked-producer new (some b) ds)
    ]
  ]

  module _ (t : ℕ) (p : Producer) (by : Option String) (ds : List Declaration)
      (one : pins_of ds ≤ 1) where
    move-pins :
        (live : Option Declaration)
        → find (in_force key) ds ≡ live
        → (pins_of (move t key p by ds live) ≤ 1)
          × (producer_of (find (in_force key) (move t key p by ds live)) ≡ some p)
    move-pins live e =
        let cleared = retired t live ds in
        let new = next_id cleared in
        let row = declaration t key p by new in
        let cleared_none = retired-none t ds live e one in
        let more = one_more pin_columns pin_laws (λ d. same_pin d.key key) cleared row in
        let its_key : same_pin key key ≡ true = same_pin_self key in
        let last : find (in_force key) (row ∷ []) ≡ some row = rw its_key in
        let found : find (in_force key) (cleared ++ row ∷ []) ≡ some row =
          find-append (in_force key) cleared (row ∷ []) (count-none cleared cleared_none) ∙ last in
        (
          rw (linked-pins new _ (cleared ++ row ∷ [])) (omega (arith, cleared_none, more)),
          linked-producer new _ (cleared ++ row ∷ []) ∙ ap producer_of found,
        )

    -- A pin that is moved is in force at once, and it is the only one of its key, whatever was pinned
    -- before.
    pub pinned-repoint_producer :
        (pinned key (repoint_producer t key p by ds) ≡ some p)
        × (pins_of (repoint_producer t key p by ds) ≤ 1)
    unfolding repoint_producer pinned
    pinned-repoint_producer = repointed (find (in_force key) ds) refl
      where
        repointed :
            (live : Option Declaration)
            → find (in_force key) ds ≡ live
            → (producer_of (find (in_force key) (repoint_over t key p by ds live)) ≡ some p)
              × (pins_of (repoint_over t key p by ds live) ≤ 1)
        repointed none e = ((move-pins none e).1, (move-pins none e).0)
        repointed (some live) e = elim (Bool-cases (same_producer live.producer p)) [
          | inl same ↦
              rw same (ap producer_of e ∙ ap some (same_producer-eq live.producer p same), one)
          | inr apart ↦ rw apart ((move-pins (some live) e).1, (move-pins (some live) e).0)
        ]

    -- What a declaration comes to: the producer in force, the only one of its key, and a second
    -- declaration that changes nothing; or a refusal, where another producer is in force.
    abbrev pub IsDeclared : Declared → Type 0
    IsDeclared (declared ds') =
        (pinned key ds' ≡ some p)
        × (pins_of ds' ≤ 1)
        × (declare_producer t key p by ds' ≡ declared ds')
    IsDeclared conflict = (q : Producer) × (pinned key ds ≡ some q) × (q ≢ p)

    again :
        (rows : List Declaration)
        → pinned key rows ≡ some p
        → declare_producer t key p by rows ≡ declared rows
    unfolding declare_producer
    again rows e = ap (declare_over t key p by rows) e ∙ rw (same_producer_self p)

    declare_over-IsDeclared :
        (held : Option Producer)
        → pinned key ds ≡ held
        → IsDeclared (declare_over t key p by ds held)
    unfolding pinned
    declare_over-IsDeclared none e =
        let row = declaration t key p by (next_id ds) in
        let its_key : same_pin key key ≡ true = same_pin_self key in
        let last : find (in_force key) (row ∷ []) ≡ some row = rw its_key in
        let unpinned = no_producer (find (in_force key) ds) e in
        let free = none_live pin_columns pin_laws (λ d. same_pin d.key key) ds unpinned in
        let found : find (in_force key) (ds ++ row ∷ []) ≡ some row =
          find-append (in_force key) ds (row ∷ []) (count-none ds free) ∙ last in
        let more = one_more pin_columns pin_laws (λ d. same_pin d.key key) ds row in
        (
          ap producer_of found,
          omega (arith, free, more),
          again (ds ++ row ∷ []) (ap producer_of found),
        )
      where
        no_producer : (o : Option Declaration) → producer_of o ≡ none → o ≡ none
        no_producer none e = refl
        no_producer (some d) e = cc
    declare_over-IsDeclared (some q) e = elim (Bool-cases (same_producer q p)) [
      | inl same ↦
          let held : pinned key ds ≡ some p = e ∙ ap some (same_producer-eq q p same) in
          rw same (held, one, again ds held)
      | inr apart ↦ rw apart (
        q,
        e,
        (λ eq. false≢true (sym apart ∙ (ap (λ x. same_producer x p) eq ∙ same_producer_self p))),
      )
    ]

    -- A declaration leaves its producer in force, the only one of its key, and to declare it again
    -- changes nothing; or it is refused, and then another producer is in force.
    pub declare_producer-IsDeclared : IsDeclared (declare_producer t key p by ds)
    unfolding declare_producer
    declare_producer-IsDeclared = declare_over-IsDeclared (pinned key ds) refl
