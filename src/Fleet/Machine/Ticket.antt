-- ===== src/Fleet/Machine/Ticket.antt =====
-- tools/fleet/pagequeue.py: the queue as one page meets it. A page is free, held under a lease, answered
-- or given up, and a call makes moves of it that depend on nothing else.
use docket_yard.Prelude.{
  ℕ, suc, ◌+◌, ◌-◌, ◌<◌, ◌≡◌, String, Bool, true, false, ◌||◌, Option, none, some, List, ◌==◌,
}
use docket_yard.Fleet.Rows.{State, Job}
use docket_yard.Fleet.Machine.{Call, reap, claim, extend, release, done, fail, cmd_fail}

-- What a page is, with the attempts that are left to it.
pub data Ticket : Type 0 where
  free : (left : ℕ) → Ticket
  held : (worker : String) (until left : ℕ) → Ticket
  answered given_up astray : Ticket

-- A leased row without an owner or an end is astray.
abbrev pub ticket_of : State → Option String → Option ℕ → ℕ → Ticket
ticket_of State.pending o u left = free left
ticket_of State.leased (some worker) (some until) left = held worker until left
ticket_of State.leased _ _ left = astray
ticket_of State.done o u left = answered
ticket_of State.failed o u left = given_up

abbrev pub ticket : Job → Ticket
ticket j = ticket_of j.state j.lease_owner j.lease_until (j.max_attempts - j.attempts)

-- The time at which a call takes back the leases that have run out.
abbrev pub reaps : Call → Option ℕ
reaps (reap t) = some t
reaps (claim t worker pass n lease_seconds) = some t
reaps _ = none

-- The moves of the page of a number.
pub data Moves (i : ℕ) : Call → Ticket → Ticket → Type 0 where
  lapses :
      {c : Call} (t : ℕ) (worker : String) (until left : ℕ)
      → reaps c ≡ some t
      → until < t
      → 0 < left
      → Moves i c (held worker until left) (free left)
  runs_out :
      {c : Call} (t : ℕ) (worker : String) (until left : ℕ)
      → reaps c ≡ some t
      → until < t
      → left ≡ 0
      → Moves i c (held worker until left) given_up
  leases :
      (t : ℕ) (worker pass : String) (n lease_seconds left left' : ℕ)
      → left ≡ suc left'
      → Moves i
          (claim t worker pass n lease_seconds)
          (free left)
          (held worker (t + lease_seconds) left')
  extends :
      (t : ℕ) (worker : String) (is : List ℕ) (lease_seconds until left : ℕ)
      → Moves i
          (extend t worker is lease_seconds)
          (held worker until left)
          (held worker (t + lease_seconds) left)
  gives_back :
      (worker : String) (is : List ℕ) (until left left' : ℕ)
      → left' ≡ suc left
      → Moves i (release worker is) (held worker until left) (free left')
  answers :
      (t : ℕ) (worker raw : String) (until left : ℕ)
      → Moves i (done t worker i raw) (held worker until left) answered
  tries_again :
      (t : ℕ) (worker error : String) (until left : ℕ)
      → 0 < left
      → Moves i (fail t worker i error false) (held worker until left) (free left)
  gives_up :
      (t : ℕ) (worker error : String) (final : Bool) (until left : ℕ)
      → (final || left == 0) ≡ true
      → Moves i (fail t worker i error final) (held worker until left) given_up
  is_failed_free :
      (t : ℕ) (error : String) (by_page : Bool) (left : ℕ)
      → Moves i (cmd_fail t i error by_page) (free left) given_up
  is_failed_held :
      (t : ℕ) (error : String) (by_page : Bool) (worker : String) (until left : ℕ)
      → Moves i (cmd_fail t i error by_page) (held worker until left) given_up

-- Moves of one call, one after another.
pub data Goes (i : ℕ) (c : Call) : Ticket → Ticket → Type 0 where
  stays : {k : Ticket} → Goes i c k k
  moves : {a b d : Ticket} → Moves i c a b → Goes i c b d → Goes i c a d

pub Goes-trans : {i : ℕ} {c : Call} {a b d : Ticket} → Goes i c a b → Goes i c b d → Goes i c a d
Goes-trans stays more = more
Goes-trans (moves m rest) more = moves m (Goes-trans rest more)

abbrev pub once : {i : ℕ} {c : Call} {a b : Ticket} → Moves i c a b → Goes i c a b
once m = moves m stays
