-- ===== src/Fleet/Stopping.antt =====
-- tools/fleet/stopping.py: how a reader is told to stop, and the yield that it then makes.
pub mod Signals
mod Tests
use docket_yard.Prelude.{
  ℕ, String, Bool, true, false, Option, none, some, List, drop, if◌then◌else◌,
}
use docket_yard.Fleet.Rows.{Queue}
use docket_yard.Fleet.Lease.{release}

pub data Signal : Type 0 where
  sigterm sigint : Signal

-- What this process does with SIGINT: `Stop`'s own handler, or Python's after it is put back.
pub data Handler : Type 0 where
  catching default_int_handler : Handler

pub record Stop : Type 0 where
  pub has_file : Bool
  pub signal_name : Option Signal
  pub on_sigint : Handler

-- `Stop(stop_file).install()`, in the main thread; `has_file` says whether a stop file was named.
abbrev pub install : Bool → Stop
install has_file = record { has_file = has_file; signal_name = none; on_sigint = catching }

pub data Caught : Type 0 where
  returned keyboard_interrupt : Caught

-- `_catch`
unfoldable pub catch : Signal → Stop → Caught × Stop
catch s stop = elim stop.signal_name [
  | none ↦ (returned, record stop { signal_name = some s })
  | some first ↦ elim s [
    | sigterm ↦ (returned, stop)
    | sigint ↦ (keyboard_interrupt, record stop { on_sigint = default_int_handler })
  ]
]

-- A signal that arrives: SIGINT goes to the handler in place.
unfoldable pub arrive : Signal → Stop → Caught × Stop
unfolding catch
arrive sigterm stop = catch sigterm stop
arrive sigint stop = elim stop.on_sigint [
  | catching ↦ catch sigint stop
  | default_int_handler ↦ (keyboard_interrupt, stop)
]

-- `stop()`, where `exists` says whether the stop file is on disk now.
unfoldable pub asked : Bool → Stop → Bool
asked exists stop = elim stop.signal_name [
  | some s ↦ true
  | none ↦ if stop.has_file then exists else false
]

-- `checkpoint_complete` prints its line only for a signal.
abbrev pub tells_broker : Stop → Bool
tells_broker stop = elim stop.signal_name [ some s ↦ true | none ↦ false ]

-- `yield_now`: the exit status, whether the broker is told, and the queue with the rest released.
unfoldable pub yield_now : String → List ℕ → ℕ → Stop → Queue → ℕ × Bool × Queue
yield_now name ids i stop q = (0, tells_broker stop, release name (drop i ids) q)
