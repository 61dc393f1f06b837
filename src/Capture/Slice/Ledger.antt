-- ===== src/Capture/Slice/Ledger.antt =====
-- src/docketyard/capture/walk.py, `capture_slice`: an induction rule for its loop, and what the
-- verdicts recorded of its captures add up to.
use docket_yard.Prelude.{
  ℕ, zero, suc, ◌+◌, ◌-◌, ◌≤◌, ◌≡◌, ◌≢◌, refl, Bool, true, false, List, [], ◌∷◌, arith, length, leb,
  Bool-cases, inl, inr, if◌then◌else◌,
}
use mathlib.Core.Path.{subst}
use docket_yard.Capture.Slice.{
  Action, Reply, parsed, unparsed, failed, Verdict, Paging, Move, returns, retries, turns, raises,
  Paged, ended, raised, spent, round, slice_pages, start, capture_slice,
}

-- The rows of the asserted captures.
abbrev pub asserted_rows : List Verdict → ℕ
asserted_rows [] = 0
asserted_rows (v ∷ vs) = (if v.filter_asserted then v.row_count else 0) + asserted_rows vs

-- `P page` holds where the loop asks for the page, and `Q` where it ends.
module _ (P : ℕ → Paging → Type 0) (Q : Paging → Type 0) where
  abbrev pub Moves : ℕ → Move → Type 0
  Moves page (returns p) = Q p
  Moves page (retries p) = P page p
  Moves page (turns p) = P (page + 1) p
  Moves page raises = Unit

  abbrev pub Ends : Paged → Type 0
  Ends (ended p) = Q p
  Ends (raised p) = Unit
  Ends spent = Unit

  pub Ends-ended : (o : Paged) (p : Paging) → o ≡ ended p → Ends o → Q p
  Ends-ended (ended p') p e h = let same : p' ≡ p = ground arith in subst Q same h
  Ends-ended (raised p') p e h = cc
  Ends-ended spent p e h = cc

  module _ (action : Action) (per_page pages : ℕ) (reply : ℕ → ℕ → Reply)
      (step : (page : ℕ) (refreshed : Bool) (r : Reply) (p : Paging)
        → P page p
        → Moves page (round action per_page page refreshed r p))
      (stops : (page : ℕ) (p : Paging) → P page p → Q p) where
    after_move :
        (page : ℕ) (m : Move) (p : Paging) (again next : Paging → Paged)
        → ((p : Paging) → P page p → Ends (again p))
        → ((p : Paging) → P (page + 1) p → Ends (next p))
        → Moves page m
        → Ends (elim m [
          | returns p' ↦ ended p'
          | retries p' ↦ again p'
          | turns p' ↦ next p'
          | raises ↦ raised p
        ])
    after_move page (returns p') p again next a n h = h
    after_move page (retries p') p again next a n h = a p' h
    after_move page (turns p') p again next a n h = n p' h
    after_move page raises p again next a n h = tt

    pub slice_pages_ind :
        (rounds page : ℕ) (refreshed : Bool) (p : Paging)
        → P page p
        → Ends (slice_pages action per_page pages reply rounds page refreshed p)
    unfolding slice_pages
    slice_pages_ind zero page refreshed p h = tt
    slice_pages_ind (suc rounds) page refreshed p h = elim (Bool-cases (leb page pages)) [
      | inr over ↦ rw (over, Ends) (stops page p h)
      | inl on ↦
          rw (on, Ends)
            (after_move page (round action per_page page refreshed (reply p.result.captures page) p)
              p (slice_pages action per_page pages reply rounds page true)
              (slice_pages action per_page pages reply rounds (page + 1) refreshed)
              (slice_pages_ind rounds page true) (slice_pages_ind rounds (page + 1) refreshed)
              (step page refreshed (reply p.result.captures page) p h))
    ]

-- Every capture has one verdict, and the rows counted are those of the asserted captures.
pub record IsLedger (p : Paging) : Type 0 where
  pub judged : p.result.captures ≡ length p.ledger
  pub counted : p.result.rows ≡ asserted_rows p.ledger

pub round-IsLedger :
    (action : Action) (per_page page : ℕ) (refreshed : Bool) (r : Reply) (p : Paging)
    → IsLedger p
    → Moves (λ _. IsLedger) IsLedger page (round action per_page page refreshed r p)
unfolding round
round-IsLedger action per_page page refreshed failed p h = tt
round-IsLedger action per_page page refreshed (unparsed envelope) p h = ground arith
round-IsLedger action per_page page refreshed (parsed n total asserted) p h = ground arith

-- If the client does not raise, a slice has one verdict for each capture it made, and the rows it
-- counts are those of the captures whose filter was asserted, whatever the endpoint answered.
pub slice-IsLedger :
    (action : Action) (per_page pages : ℕ) (expected_empty : Bool) (reply : ℕ → ℕ → Reply)
    (p : Paging)
    → capture_slice action per_page pages expected_empty reply ≡ ended p
    → IsLedger p
unfolding capture_slice
slice-IsLedger action per_page pages expected_empty reply p done =
    Ends-ended (λ _. IsLedger) IsLedger (capture_slice action per_page pages expected_empty reply) p
      done
      (slice_pages_ind (λ _. IsLedger) IsLedger action per_page pages reply
        (round-IsLedger action per_page) (λ page p h. h) (pages + 2) 1 false (start expected_empty)
        (record { judged = refl; counted = refl }))

-- Each round that gets a reply makes one capture, and a retry is made only before the nonce is fresh.
abbrev Counts : ℕ → Bool → Move → Type 0
Counts n refreshed (returns p) = p.result.captures ≡ n + 1
Counts n refreshed (retries p) = (p.result.captures ≡ n + 1) × (refreshed ≡ false)
Counts n refreshed (turns p) = p.result.captures ≡ n + 1
Counts n refreshed raises = Unit

round-Counts :
    (action : Action) (per_page page : ℕ) (refreshed : Bool) (r : Reply) (p : Paging)
    → Counts p.result.captures refreshed (round action per_page page refreshed r p)
unfolding round
round-Counts action per_page page refreshed failed p = tt
round-Counts action per_page page refreshed (unparsed envelope) p = ground arith
round-Counts action per_page page refreshed (parsed n total asserted) p = ground arith

-- The captures that are made when the loop is over, however it is.
abbrev pub captures_of : Paged → ℕ
captures_of (ended p) = p.result.captures
captures_of (raised p) = p.result.captures
captures_of spent = 0

abbrev IsOver : ℕ → Paged → Type 0
IsOver n o = (o ≢ spent) × (captures_of o ≤ n)

-- The rounds that the loop may still make: one for each page left, and the retry.
abbrev rounds_left : (pages page : ℕ) (refreshed : Bool) → ℕ
rounds_left pages page refreshed = (suc pages - page) + (if refreshed then 0 else 1)

module _ (action : Action) (per_page pages : ℕ) (reply : ℕ → ℕ → Reply) where
  over : (p : Paging) (n : ℕ) → p.result.captures ≤ n → IsOver n (ended p)
  over p n le = ((λ e. cc), le)

  after_move-IsOver :
      (bound : ℕ) (refreshed : Bool) (m : Move) (p : Paging) (again next : Paging → Paged)
      → p.result.captures + 1 ≤ bound
      → ((p' : Paging)
          → p'.result.captures ≡ p.result.captures + 1
          → refreshed ≡ false
          → IsOver bound (again p'))
      → ((p' : Paging) → p'.result.captures ≡ p.result.captures + 1 → IsOver bound (next p'))
      → Counts p.result.captures refreshed m
      → IsOver bound (elim m [
        | returns p' ↦ ended p'
        | retries p' ↦ again p'
        | turns p' ↦ next p'
        | raises ↦ raised p
      ])
  after_move-IsOver bound refreshed (returns p') p again next le a f h =
      over p' bound (omega (arith, h, le))
  after_move-IsOver bound refreshed (retries p') p again next le a f h = a p' h.0 h.1
  after_move-IsOver bound refreshed (turns p') p again next le a f h = f p' h
  after_move-IsOver bound refreshed raises p again next le a f h = ((λ e. cc), omega (arith, le))

  slice_pages-IsOver :
      (rounds page bound : ℕ) (refreshed : Bool) (p : Paging)
      → suc (rounds_left pages page refreshed) ≤ rounds
      → p.result.captures + rounds_left pages page refreshed ≤ bound
      → IsOver bound (slice_pages action per_page pages reply rounds page refreshed p)
  unfolding slice_pages
  slice_pages-IsOver zero page bound refreshed p enough le = absurd (omega (arith, enough))
  slice_pages-IsOver (suc rounds) page bound refreshed p enough le =
      elim (Bool-cases (leb page pages)) [
        | inr past ↦ rw (past, slice_pages) (over p bound (omega (arith, le)))
        | inl on ↦
            let more : page ≤ pages = ground arith in
            rw (on, slice_pages)
              (after_move-IsOver bound refreshed
                (round action per_page page refreshed (reply p.result.captures page) p) p
                (slice_pages action per_page pages reply rounds page true)
                (slice_pages action per_page pages reply rounds (page + 1) refreshed)
                (omega (arith, le, more))
                (λ p' e fresh.
                  let enough' : suc (suc pages - page + 1) ≤ suc rounds = rw fresh at enough in
                  let le' : p.result.captures + (suc pages - page + 1) ≤ bound = rw fresh at le in
                  slice_pages-IsOver rounds page bound true p' (omega (arith, enough'))
                    (omega (arith, e, le')))
                (λ p' e.
                  slice_pages-IsOver rounds (page + 1) bound refreshed p'
                    (omega (arith, enough, more)) (omega (arith, e, le, more)))
                (round-Counts action per_page page refreshed (reply p.result.captures page) p))
      ]

-- Whatever the endpoint answers, the loop is over in a round for each page, one for the one retry and
-- one that finds no page left: it returns or the client raises, and at most one request more than the
-- pages has been answered by then.
pub captures-capture_slice :
    (action : Action) (per_page pages : ℕ) (expected_empty : Bool) (reply : ℕ → ℕ → Reply)
    → (capture_slice action per_page pages expected_empty reply ≢ spent)
      × (captures_of (capture_slice action per_page pages expected_empty reply) ≤ pages + 1)
unfolding capture_slice
captures-capture_slice action per_page pages expected_empty reply =
    slice_pages-IsOver action per_page pages reply (pages + 2) 1 (pages + 1) false
      (start expected_empty) (omega arith) (omega arith)
