-- ===== src/Capture/Walk/Proof.antt =====
-- src/docketyard/capture/walk.py, `reconcile_empty_month`: when a month is written down as empty.
use docket_yard.Prelude.{
  ℕ, zero, suc, ◌+◌, ◌≤◌, ◌<◌, ◌≡◌, ◌≢◌, refl, sym, ◌∙◌, ap, Bool, true, false, not, ◌&&◌, ◌||◌,
  Option, none, some, List, [], min, max, if◌then◌else◌, Bool-cases, Option-cases, inl, inr, arith,
  ◌==◌,
}
use docket_yard.Fleet.Rows.{is_some}
use docket_yard.Capture.Slice.{Action, SliceResult, Status, status}
use docket_yard.Capture.Months.{Slice}
use docket_yard.Capture.Walk.{
  SliceRow, walked_whole, Window, answered, unread, lost, nearest, trusted, Finding, is_lost, side,
  look, reconcile_empty_month, Outside, judged, equal_totals, or_zero,
}

-- A done month `n`, no more than twelve off, whose own total `t` is that of the window from it over `m`.
pub record Proves (whole : ℕ → Bool) (window : ℕ → ℕ → Window) (m n t : ℕ) : Type 0 where
  pub walked : whole n ≡ true
  pub near : (n ≤ m + 12) × (m ≤ n + 12)
  pub other : n ≢ m
  pub own : trusted (window n n) ≡ some t
  pub across : trusted (window (min m n) (max m n)) ≡ some t

module _ (whole : ℕ → Bool) where
  nearest-after :
      (left m n : ℕ)
      → nearest whole true left m ≡ some n
      → (whole n ≡ true) × (m < n) × (n ≤ m + left)
  nearest-after zero m n e = cc
  nearest-after (suc left) m n e = elim (Bool-cases (whole (suc m))) [
    | inl found ↦
        let same : suc m ≡ n = ground arith in (rw (sym same) found, omega arith, omega arith)
    | inr going ↦
        let far = nearest-after left (suc m) n (rw going at e) in
        (far.0, omega (arith, far.1), omega (arith, far.2))
  ]

  nearest-before :
      (left m n : ℕ)
      → nearest whole false left m ≡ some n
      → (whole n ≡ true) × (n < m) × (m ≤ n + left)
  nearest-before zero m n e = cc
  nearest-before (suc left) zero n e = cc
  nearest-before (suc left) (suc m) n e = elim (Bool-cases (whole m)) [
    | inl found ↦ let same : m ≡ n = ground arith in (rw (sym same) found, omega arith, omega arith)
    | inr going ↦
        let far = nearest-before left m n (rw going at e) in
        (far.0, omega (arith, far.1), omega (arith, far.2))
  ]

none≢some-pair : (n t : ℕ) (p : Option (ℕ × ℕ)) → p ≡ none → p ≢ some (n, t)
none≢some-pair n t p e f = absurd (ground (arith, sym e ∙ f))

pair-injective :
    (n k u t : ℕ)
    → (let pair : Option (ℕ × ℕ) = some (n, u) in pair ≡ some (k, t))
    → (n ≡ k) × (u ≡ t)
pair-injective n k u t e = (cc, cc)

agreed :
    (n k t : ℕ) (x y : Option ℕ) (p : Option (ℕ × ℕ))
    → p ≡ none
    → (if equal_totals x y then some (n, or_zero x) else p) ≡ some (k, t)
    → (n ≡ k) × (x ≡ some t) × (y ≡ some t)
agreed n k t none y p fresh e = absurd (none≢some-pair k t p fresh e)
agreed n k t (some a) none p fresh e = absurd (none≢some-pair k t p fresh e)
agreed n k t (some a) (some b) p fresh e = elim (Bool-cases (a == b)) [
  | inl same ↦
      let both = pair-injective n k a t (rw same at e) in
      let equal : a ≡ b = ground arith in (both.0, ap some both.1, ap some (sym equal ∙ both.1))
  | inr apart ↦ absurd (none≢some-pair k t p fresh (rw apart at e))
]

-- A side adds a proof only for its neighbour, whose total both windows report.
side-proof :
    (n : ℕ) (adjacent : Bool) (own across : Window) (f : Finding) (k t : ℕ)
    → f.proof ≡ none
    → (side n adjacent own across f).proof ≡ some (k, t)
    → (n ≡ k) × (trusted own ≡ some t) × (trusted across ≡ some t)
side-proof n adjacent own across f k t fresh e = elim (Bool-cases (is_lost own)) [
  | inl gone ↦ absurd (none≢some-pair k t f.proof fresh (rw gone at e))
  | inr asked ↦ elim (Bool-cases (is_lost across)) [
    | inl gone ↦ absurd (none≢some-pair k t f.proof fresh (rw (asked, gone) at e))
    | inr answered_too ↦
        agreed n k t (trusted own) (trusted across) f.proof fresh (rw (asked, answered_too) at e)
  ]
]

module _ (whole : ℕ → Bool) (window : ℕ → ℕ → Window) (m : ℕ) where
  look-after :
      (f : Finding) (n t : ℕ)
      → f.proof ≡ none
      → (look whole window true m f).proof ≡ some (n, t)
      → Proves whole window m n t
  look-after f n t fresh e = elim (Option-cases (nearest whole true 12 m)) [
    | inl nowhere ↦ absurd (none≢some-pair n t f.proof fresh (rw (nowhere, look) at e))
    | inr (k, found) ↦
        let said =
          side-proof k (k == (m + 1)) (window k k) (window m k) f n t fresh
            (rw (found, look) at e) in
        let far = nearest-after whole 12 m n (found ∙ ap some said.0) in
        let low : min m n ≡ m = omega (arith, far.1) in
        let high : max m n ≡ n = omega (arith, far.1) in
        record {
          walked = far.0;
          near = (far.2, omega (arith, far.1));
          other = λ same. omega (arith, far.1, same);
          own = rw (said.0) at said.1;
          across = rw (low, high) (rw (said.0) at said.2);
        }
  ]

  look-before :
      (f : Finding) (n t : ℕ)
      → f.proof ≡ none
      → (look whole window false m f).proof ≡ some (n, t)
      → Proves whole window m n t
  look-before f n t fresh e = elim (Option-cases (nearest whole false 12 m)) [
    | inl nowhere ↦ absurd (none≢some-pair n t f.proof fresh (rw (nowhere, look) at e))
    | inr (k, found) ↦
        let said =
          side-proof k ((k + 1) == m) (window k k) (window k m) f n t fresh
            (rw (found, look) at e) in
        let far = nearest-before whole 12 m n (found ∙ ap some said.0) in
        let low : min m n ≡ n = omega (arith, far.1) in
        let high : max m n ≡ m = omega (arith, far.1) in
        record {
          walked = far.0;
          near = (omega (arith, far.1), far.2);
          other = λ same. omega (arith, far.1, same);
          own = rw (said.0) at said.1;
          across = rw (low, high) (rw (said.0) at said.2);
        }
  ]

  -- A proof names a month that is walked whole, another one and at most twelve off, whose own window
  -- and the window from it over this month were both answered under the filter with the total named,
  -- below the cap.
  pub reconcile_empty_month-Proves :
      (n t : ℕ)
      → (reconcile_empty_month whole window m).proof ≡ some (n, t)
      → Proves whole window m n t
  unfolding reconcile_empty_month
  reconcile_empty_month-Proves n t e =
      let blank : Finding = record { proof = none; compared = false; ledger = [] } in
      elim (Option-cases (look whole window true m blank).proof) [
        | inl unproven ↦
            look-before (look whole window true m blank) n t unproven (rw unproven at e)
        | inr (found, proven) ↦ look-after blank n t refl (rw proven at e)
      ]

side-compared :
    (n : ℕ) (adjacent : Bool) (own across : Window) (f : Finding)
    → f.compared ≡ true
    → (side n adjacent own across f).compared ≡ true
side-compared n adjacent own across f h = elim (Bool-cases (is_lost own)) [
  | inl gone ↦ rw gone h
  | inr asked ↦ elim (Bool-cases (is_lost across)) [
    | inl gone ↦ rw (asked, gone) h
    | inr both ↦ rw (asked, both, h)
  ]
]

module _ (whole : ℕ → Bool) (window : ℕ → ℕ → Window) (m a b : ℕ) where
  look-compared : (f : Finding) → f.compared ≡ true → (look whole window false m f).compared ≡ true
  look-compared f h = elim (Option-cases (nearest whole false 12 m)) [
    | inl nowhere ↦ rw (nowhere, look) h
    | inr (k, found) ↦
        rw (found, look) (side-compared k ((k + 1) == m) (window k k) (window k m) f h)
  ]

  -- The next month is done, and both its windows gave totals.
  module _ (next : whole (suc m) ≡ true) (own : trusted (window (suc m) (suc m)) ≡ some a)
      (across : trusted (window m (suc m)) ≡ some b) where
    answers : (w : Window) (t : ℕ) → trusted w ≡ some t → is_lost w ≡ false
    answers (answered n t' asserted) t e = refl
    answers unread t e = cc
    answers lost t e = cc

    look-adjacent : (f : Finding) → (look whole window true m f).compared ≡ true
    look-adjacent f =
        let one : (suc m == (m + 1)) ≡ true = ground arith in
        rw
          (
            next,
            look,
            answers (window (suc m) (suc m)) a own,
            answers (window m (suc m)) b across,
            own,
            across,
            one,
          )
          (ground arith)

    reconcile_empty_month-compared : (reconcile_empty_month whole window m).compared ≡ true
    unfolding reconcile_empty_month
    reconcile_empty_month-compared =
        let blank : Finding = record { proof = none; compared = false; ledger = [] } in
        elim (Bool-cases (is_some (look whole window true m blank).proof)) [
          | inl proven ↦ rw proven (look-adjacent blank)
          | inr unproven ↦
              rw unproven (look-compared (look whole window true m blank) (look-adjacent blank))
        ]

unexpected :
    (r : SliceResult) (expected : Bool)
    → expected ≡ false
    → status (if r.envelope_on_first_page then record r { expected_empty = expected } else r)
      ≢ Status.empty
unfolding status
unexpected r expected h e = absurd (ground arith)

module _ (action : Action) (s : Slice) (o : Outside) (rows : List SliceRow) (r : SliceResult)
    (m : ℕ) (month : s.month ≡ some m) where
  -- A month that was not declared empty is written down as empty only with a proof.
  pub judged-Proves :
      r.expected_empty ≡ false
      → status (judged action s o rows r) ≡ Status.empty
      → (n : ℕ) × (t : ℕ) × Proves (walked_whole action rows) o.window m n t
  unfolding judged status
  judged-Proves undeclared e =
      elim (Option-cases (reconcile_empty_month (walked_whole action rows) o.window m).proof) [
        | inl unproven ↦
            let f = reconcile_empty_month (walked_whole action rows) o.window m in
            absurd (
              unexpected r (is_some f.proof || (r.expected_empty && not f.compared))
                (rw (unproven, undeclared)) (rw month at e))
        | inr (p, found) ↦ (
          p.0,
          p.1,
          reconcile_empty_month-Proves (walked_whole action rows) o.window m p.0 p.1 found,
        )
      ]

  -- A month, declared or not, is not written down as empty when the next month is walked whole, its
  -- own window and the one over both gave totals that count, and no proof was had.
  pub judged-contradicted :
      (a b : ℕ)
      → walked_whole action rows (suc m) ≡ true
      → trusted (o.window (suc m) (suc m)) ≡ some a
      → trusted (o.window m (suc m)) ≡ some b
      → (reconcile_empty_month (walked_whole action rows) o.window m).proof ≡ none
      → status (judged action s o rows r) ≢ Status.empty
  unfolding judged status
  judged-contradicted a b next own across unproven e =
      let spoken =
        reconcile_empty_month-compared (walked_whole action rows) o.window m a b next own across in
      let f = reconcile_empty_month (walked_whole action rows) o.window m in
      unexpected r (is_some f.proof || (r.expected_empty && not f.compared))
        (rw (unproven, spoken) (ground arith)) (rw month at e)
