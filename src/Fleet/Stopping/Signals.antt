-- ===== src/Fleet/Stopping/Signals.antt =====
-- tools/fleet/stopping.py: what a reader does with the signals it gets, in whatever order.
use docket_yard.Prelude.{
  ℕ, ◌≡◌, refl, Bool, true, none, some, List, [], ◌∷◌, arith, String, map, min, if◌then◌else◌,
}
use docket_yard.Fleet.Rows.{Queue, is_some}
use docket_yard.Fleet.Rows.Sound.{IsWellFormed}
use docket_yard.Fleet.Lease.{Claimed, claim}
use docket_yard.Fleet.Answers.Yield.{release-drop}
use docket_yard.Fleet.Stopping.{
  Signal, sigterm, sigint, catching, Stop, install, returned, keyboard_interrupt, arrive, asked,
  yield_now,
}

-- The state after signals that the process outlives.
abbrev pub after_all : List Signal → Stop → Stop
after_all [] stop = stop
after_all (s ∷ rest) stop = after_all rest (arrive s stop).1

first-kept :
    (rest : List Signal) (stop : Stop) (s : Signal)
    → stop.signal_name ≡ some s
    → (after_all rest stop).signal_name ≡ some s
unfolding arrive
first-kept [] stop s h = h
first-kept (sigterm ∷ rest) stop s h = first-kept rest (arrive sigterm stop).1 s (ground arith)
first-kept (sigint ∷ rest) stop s h = first-kept rest (arrive sigint stop).1 s (ground arith)

-- The first signal wins: whatever follows it, the reader stays asked to stop, with or without a
-- stop file, and names that signal and no other.
pub first_signal :
    (has_file exists : Bool) (s : Signal) (rest : List Signal)
    → ((after_all (s ∷ rest) (install has_file)).signal_name ≡ some s)
      × (asked exists (after_all (s ∷ rest) (install has_file)) ≡ true)
unfolding asked
first_signal has_file exists s rest =
    let named = first-kept rest (arrive s (install has_file)).1 s (first s) in (named, rw named)
  where
    first : (z : Signal) → (arrive z (install has_file)).1.signal_name ≡ some z
    first = unfold arrive in elim [ sigterm ↦ refl | sigint ↦ refl ]

-- Control-C ends the reader exactly when some signal has come before it, and no other signal ever
-- raises: in every state that signals lead to, SIGTERM returns, and SIGINT interrupts if and only
-- if a first signal is recorded.
pub interrupt_iff :
    (has_file : Bool) (signals : List Signal)
    → ((arrive sigterm (after_all signals (install has_file))).0 ≡ returned)
      × ((arrive sigint (after_all signals (install has_file))).0 ≡ (
          if is_some (after_all signals (install has_file)).signal_name
          then keyboard_interrupt
          else returned))
unfolding arrive
interrupt_iff has_file signals =
    let fits = kept signals (install has_file) (λ e. refl) in (ground arith, ground (arith, fits))
  where
    kept :
        (more : List Signal) (stop : Stop)
        → (stop.signal_name ≡ none → stop.on_sigint ≡ catching)
        → (after_all more stop).signal_name ≡ none
        → (after_all more stop).on_sigint ≡ catching
    kept [] stop h = h
    kept (sigterm ∷ more) stop h = kept more (arrive sigterm stop).1 (λ e. ground (arith, h))
    kept (sigint ∷ more) stop h = kept more (arrive sigint stop).1 (λ e. ground (arith, h))

-- A reader that yields before the page `i` of a claim on a well-formed file keeps the pages before it and
-- costs the others nothing: the rows are those that a claim of so many pages would have left.
pub yield_now-claim :
    (t : ℕ) (name pass : String) (n lease_seconds i : ℕ) (stop : Stop) (q : Queue)
    → IsWellFormed q
    → (yield_now name
        (map (λ (c : Claimed). c.job_id) (claim t name pass n lease_seconds q).0)
        i
        stop
        (claim t name pass n lease_seconds q).1).2.job
      ≡ (claim t name pass (min i n) lease_seconds q).1.job
unfolding yield_now
yield_now-claim t name pass n lease_seconds i stop q w =
    release-drop t name pass n lease_seconds q w i
