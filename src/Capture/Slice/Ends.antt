-- ===== src/Capture/Slice/Ends.antt =====
-- src/docketyard/capture/walk.py, `capture_slice`: what a slice that ended holds.
use docket_yard.Prelude.{
  ℕ, ◌+◌, ◌≤◌, ◌<◌, ◌≡◌, refl, Bool, true, false, not, ◌&&◌, ◌||◌, some, arith, ltb, ◌==◌,
  Bool-cases, inl, inr, min, Option-cases,
}
use docket_yard.Fleet.Rows.{is_some}
use docket_yard.Capture.Slice.{
  Action, Status, status, reconciles, counts_rows, display_cap, page_clamp, verdict, Reply, parsed,
  unparsed, failed, Paging, ended, round, on_asserted, on_unparsed, start, capture_slice,
}
use docket_yard.Capture.Slice.Ledger.{Moves, slice_pages_ind, Ends-ended}

-- While the loop runs: nothing is decided, past the first page a total is known, and a total that
-- reached the cap is marked so.
record IsRunning (page : ℕ) (p : Paging) : Type 0 where
  open_ended : p.result.complete ≡ false
  trusted : p.result.quarantined ≡ false
  rowed : p.result.envelope_on_first_page ≡ false
  first : 1 ≤ page
  later : 1 < page → is_some p.result.total ≡ true
  capping : (t : ℕ) → p.result.total ≡ some t → p.result.capped ≡ false → t < display_cap

-- A slice that ends done has a total, below the cap, that its rows match.
abbrev IsWhole : Action → Paging → Type 0
IsWhole action p =
    counts_rows action ≡ true
    → status p.result ≡ Status.done
    → (t : ℕ) × (p.result.total ≡ some t) × (p.result.rows ≡ t) × (t < display_cap)

stops-IsWhole : (action : Action) (page : ℕ) (p : Paging) → IsRunning page p → IsWhole action p
unfolding status
stops-IsWhole action page p h c e = absurd (ground arith)

unparsed-IsWhole :
    (action : Action) (page : ℕ) (refreshed envelope : Bool) (p : Paging)
    → IsRunning page p
    → Moves IsRunning (IsWhole action) page (on_unparsed action page refreshed envelope p)
unfolding reconciles status
unparsed-IsWhole action page refreshed envelope p h =
    elim (Bool-cases (ltb 1 page && envelope && reconciles action p.result)) [
      | inl finished ↦ elim (Option-cases p.result.total) [
        | inl none_yet ↦
            let known : is_some p.result.total ≡ true = h.later (ground arith) in
            absurd (ground arith)
        | inr (t, e) ↦ rw finished (λ c d. (t, e, ground arith, h.capping t e (ground arith)))
      ]
      | inr going ↦ elim (Bool-cases (ltb 1 page && envelope && not refreshed)) [
        | inl again ↦
            rw (going, again)
              (record {
                open_ended = h.open_ended;
                trusted = h.trusted;
                rowed = h.rowed;
                first = h.first;
                later = h.later;
                capping = h.capping;
              })
        | inr over ↦ rw (going, over) (λ c d. absurd (ground arith))
      ]
    ]

asserted-IsWhole :
    (action : Action) (per_page page n total : ℕ) (p : Paging)
    → IsRunning page p
    → Moves IsRunning (IsWhole action) page (on_asserted action per_page n total p)
unfolding reconciles status
asserted-IsWhole action per_page page n total p h =
    elim (Bool-cases ((n == 0) || ltb n (min per_page page_clamp))) [
      | inl short ↦ rw short (λ c e. (total, refl, ground arith, ground arith))
      | inr full ↦ rw full (record {
        open_ended = h.open_ended;
        trusted = h.trusted;
        rowed = h.rowed;
        first = ground arith;
        later = λ _. refl;
        capping = λ t e nc. ground arith;
      })
    ]

round-IsWhole :
    (action : Action) (per_page page : ℕ) (refreshed : Bool) (r : Reply) (p : Paging)
    → IsRunning page p
    → Moves IsRunning (IsWhole action) page (round action per_page page refreshed r p)
unfolding round status
round-IsWhole action per_page page refreshed failed p h = tt
round-IsWhole action per_page page refreshed (unparsed envelope) p h =
    unparsed-IsWhole action page refreshed envelope
      (record p { result = record p.result { captures = p.result.captures + 1 } })
      (record {
        open_ended = h.open_ended;
        trusted = h.trusted;
        rowed = h.rowed;
        first = h.first;
        later = h.later;
        capping = h.capping;
      })
round-IsWhole action per_page page refreshed (parsed n total true) p h =
    asserted-IsWhole action per_page page n total
      (verdict true n total false
        (record p { result = record p.result { captures = p.result.captures + 1 } }))
      (record {
        open_ended = h.open_ended;
        trusted = h.trusted;
        rowed = h.rowed;
        first = h.first;
        later = h.later;
        capping = h.capping;
      })
round-IsWhole action per_page page refreshed (parsed n total false) p h =
    λ c e. absurd (ground arith)

record IsAsking (page : ℕ) (p : Paging) : Type 0 where
  unmet : p.result.envelope_on_first_page ≡ false
  at : 1 ≤ page
  fresh : page ≡ 1 → (p.result.captures ≡ 0) × (p.result.rows ≡ 0)

-- A slice that met the envelope on its first page made one request and took no row.
abbrev IsVoid : Paging → Type 0
IsVoid p =
    status p.result ≡ Status.empty
    → (p.result.expected_empty ≡ true) × (p.result.captures ≡ 1) × (p.result.rows ≡ 0)

round-IsVoid :
    (action : Action) (per_page page : ℕ) (refreshed : Bool) (r : Reply) (p : Paging)
    → IsAsking page p
    → Moves IsAsking IsVoid page (round action per_page page refreshed r p)
unfolding round status
round-IsVoid action per_page page refreshed failed p h = tt
round-IsVoid action per_page page refreshed (unparsed envelope) p h = ground arith
round-IsVoid action per_page page refreshed (parsed n total asserted) p h = ground arith

module _ (action : Action) (per_page pages : ℕ) (expected_empty : Bool) (reply : ℕ → ℕ → Reply)
    (p : Paging) (done : capture_slice action per_page pages expected_empty reply ≡ ended p) where
  -- If the client does not raise, a slice of a table whose total counts rows is done only if its
  -- rows are exactly the total that the endpoint last reported, and that is below the display cap.
  pub slice-done :
      counts_rows action ≡ true
      → status p.result ≡ Status.done
      → (t : ℕ) × (p.result.total ≡ some t) × (p.result.rows ≡ t) × (t < display_cap)
  unfolding capture_slice
  slice-done =
      Ends-ended IsRunning (IsWhole action)
        (capture_slice action per_page pages expected_empty reply) p done
        (slice_pages_ind IsRunning (IsWhole action) action per_page pages reply
          (round-IsWhole action per_page) (stops-IsWhole action) (pages + 2) 1 false
          (start expected_empty)
          (record {
            open_ended = refl;
            trusted = refl;
            rowed = refl;
            first = omega arith;
            later = λ lt. absurd (omega arith);
            capping = λ t e nc. absurd (ground arith);
          }))

  -- If the client does not raise, a slice is empty only if one request was made, that took no row,
  -- and the slice was declared so.
  pub slice-empty :
      status p.result ≡ Status.empty
      → (p.result.expected_empty ≡ true) × (p.result.captures ≡ 1) × (p.result.rows ≡ 0)
  unfolding capture_slice status
  slice-empty =
      Ends-ended IsAsking IsVoid (capture_slice action per_page pages expected_empty reply) p done (
        slice_pages_ind IsAsking IsVoid action per_page pages reply (round-IsVoid action per_page)
          (λ page p h e. absurd (ground arith)) (pages + 2) 1 false (start expected_empty)
          (record { unmet = refl; at = omega arith; fresh = λ _. (refl, refl) }))
