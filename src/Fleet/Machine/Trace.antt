-- ===== src/Fleet/Machine/Trace.antt =====
-- tools/fleet/pagequeue.py: the queue refines, for each page, the ticket and its moves.
use mathlib.Core.Bool.{false≢true}
use docket_yard.Prelude.{ℕ, ◌≡◌, refl, sym, ap, ◌∙◌, Bool, true, false, some, List, [], ◌∷◌, All}
use docket_yard.Fleet.Rows.{Job, Queue, row}
use docket_yard.Fleet.Rows.Sound.{IsWellFormed}
use docket_yard.Fleet.Machine.{Call, perform, run}
use docket_yard.Fleet.Machine.Invariant.{perform-IsWellFormed}
use docket_yard.Fleet.Machine.Ticket.{
  Ticket, free, held, answered, given_up, astray, ticket, Moves, lapses, runs_out, leases, extends,
  gives_back, answers, tries_again, gives_up, is_failed_free, is_failed_held, Goes, stays, moves,
}
use docket_yard.Fleet.Machine.Refines.{is_seed, perform-IsMoved}

-- The moves of calls in a row.
pub data Trace (i : ℕ) : List Call → Ticket → Ticket → Type 0 where
  ends : {k : Ticket} → Trace i [] k k
  goes_on :
      {c : Call} {cs : List Call} {a b d : Ticket}
      → Goes i c a b
      → Trace i cs b d
      → Trace i (c ∷ cs) a d

-- The queue refines the ticket: whatever calls but a seed are made on a well-formed file, in whatever
-- order and at whatever times, the page of each number keeps a row, and call by call that row's ticket
-- makes the ticket's own moves. A lease is taken by a claim, of a free page with an attempt left, for
-- the worker that claims; it is extended by that worker, and ends by its release, answer or failure, by
-- the operator's hand, or by a reap or a claim once it has run out.
pub run-Trace :
    (cs : List Call) (q : Queue) (i : ℕ) (j : Job)
    → IsWellFormed q
    → row i q.job ≡ some j
    → All (λ c. is_seed c ≡ false) cs
    → (k : Job) × (row i (run cs q).job ≡ some k) × Trace i cs (ticket j) (ticket k)
unfolding run
run-Trace [] q i j w found h = (j, found, ends)
run-Trace (c ∷ cs) q i j w found h =
    let first = perform-IsMoved i j q found w c h.0 in
    let (k, at, rest) =
      run-Trace cs (perform c q) i first.job (perform-IsWellFormed c q w) first.at h.1 in
    (k, at, goes_on first.goes rest)

abbrev pub is_over : Ticket → Bool
is_over (free left) = false
is_over (held worker until left) = false
is_over answered = true
is_over given_up = true
is_over astray = true

Moves-open : {i : ℕ} {c : Call} {a b : Ticket} → Moves i c a b → is_over a ≡ false
Moves-open (lapses t worker until left at over more) = refl
Moves-open (runs_out t worker until left at over more) = refl
Moves-open (leases t worker pass n lease_seconds left left' e) = refl
Moves-open (extends t worker is lease_seconds until left) = refl
Moves-open (gives_back worker is until left left' e) = refl
Moves-open (answers t worker raw until left) = refl
Moves-open (tries_again t worker error until left more) = refl
Moves-open (gives_up t worker error final until left e) = refl
Moves-open (is_failed_free t error by_page left) = refl
Moves-open (is_failed_held t error by_page worker until left) = refl

Goes-over : {i : ℕ} {c : Call} {a b : Ticket} → Goes i c a b → is_over a ≡ true → b ≡ a
Goes-over stays over = refl
Goes-over (moves m rest) over = absurd (false≢true (sym (Moves-open m) ∙ over))

Trace-over : {i : ℕ} {cs : List Call} {a b : Ticket} → Trace i cs a b → is_over a ≡ true → b ≡ a
Trace-over ends over = refl
Trace-over (goes_on first rest) over =
    let same = Goes-over first over in Trace-over rest (ap is_over same ∙ over) ∙ same

-- In a well-formed file a page that is answered or given up stays so, whatever calls but a seed are made.
pub run-over :
    (cs : List Call) (q : Queue) (i : ℕ) (j : Job)
    → IsWellFormed q
    → row i q.job ≡ some j
    → All (λ c. is_seed c ≡ false) cs
    → is_over (ticket j) ≡ true
    → (k : Job) × (row i (run cs q).job ≡ some k) × (ticket k ≡ ticket j)
run-over cs q i j w found h over =
    let (k, at, trace) = run-Trace cs q i j w found h in (k, at, Trace-over trace over)
