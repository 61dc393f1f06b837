-- ===== src/Fleet/Machine/Rows.antt =====
-- tools/fleet/pagequeue.py: the moves that each statement makes of a row that it takes.
use docket_yard.Prelude.{
  ℕ, ◌+◌, ◌-◌, ◌<◌, ◌≡◌, refl, String, Bool, true, false, ◌||◌, Option, none, some, List, eq_iff,
  leb, Bool-cases, inl, inr, arith,
}
use docket_yard.Fleet.Rows.{State, Job, is_leased, is_pending, owned_by, past, is_some}
use docket_yard.Fleet.Rows.Sound.{IsSound}
use docket_yard.Fleet.Lease.{expired, reap_row, lease_row, release_row, holds, waiting}
use docket_yard.Fleet.Answers.{done_row, fail_row, cmd_fail_row, is_open}
use docket_yard.Fleet.Machine.{Call, claim, extend, release, done, fail, cmd_fail}
use docket_yard.Fleet.Machine.Ticket.{
  free, held, ticket_of, ticket, reaps, Moves, lapses, runs_out, leases, extends, gives_back,
  answers, tries_again, gives_up, is_failed_free, is_failed_held,
}

-- A leased row of a sound table is a ticket held by its owner until its end.
pub held_as :
    (j : Job)
    → IsSound j
    → is_leased j.state ≡ true
    → (worker : String) × (until : ℕ) × (j.lease_owner ≡ some worker)
      × (j.lease_until ≡ some until)
      × (ticket j ≡ held worker until (j.max_attempts - j.attempts))
held_as j s e = of j.state j.lease_owner j.lease_until e s.owner_iff s.until_iff
  where
    of :
        (st : State) (o : Option String) (u : Option ℕ)
        → is_leased st ≡ true
        → is_some o ≡ is_leased st
        → is_some u ≡ is_leased st
        → (worker : String) × (until : ℕ) × (o ≡ some worker)
          × (u ≡ some until)
          × (ticket_of st o u (j.max_attempts - j.attempts)
              ≡ held worker until (j.max_attempts - j.attempts))
    of State.leased (some w) (some u) e a b = (w, u, refl, refl, refl)
    of State.leased none u e a b = absurd (ground arith)
    of State.leased (some w) none e a b = absurd (ground arith)
    of State.pending o u e a b = absurd (ground arith)
    of State.done o u e a b = absurd (ground arith)
    of State.failed o u e a b = absurd (ground arith)

pub free_as : (j : Job) → is_pending j.state ≡ true → ticket j ≡ free (j.max_attempts - j.attempts)
free_as j e = of j.state e
  where
    of :
        (st : State)
        → is_pending st ≡ true
        → ticket_of st j.lease_owner j.lease_until (j.max_attempts - j.attempts)
          ≡ free (j.max_attempts - j.attempts)
    of State.pending e = refl
    of State.leased e = absurd (ground arith)
    of State.done e = absurd (ground arith)
    of State.failed e = absurd (ground arith)

leased_as :
    (st : State) (o : Option String) (worker : String) (until left : ℕ)
    → is_leased st ≡ true
    → o ≡ some worker
    → ticket_of st o (some until) left ≡ held worker until left
leased_as State.leased o worker until left e owned = rw owned refl
leased_as State.pending o worker until left e owned = absurd (ground arith)
leased_as State.done o worker until left e owned = absurd (ground arith)
leased_as State.failed o worker until left e owned = absurd (ground arith)

module _ (i : ℕ) (j : Job) (s : IsSound j) where
  pub reap_row-Moves :
      (c : Call) (t : ℕ)
      → reaps c ≡ some t
      → expired t j ≡ true
      → Moves i c (ticket j) (ticket (reap_row t j))
  reap_row-Moves c t at e =
      let (worker, until, owner, ends, is) = held_as j s (ground arith) in
      let over : until < t =
        (let late : past t j.lease_until ≡ true = ground arith in
          let known : past t (some until) ≡ true = rw ends at late in ground arith) in
      elim (Bool-cases (leb j.max_attempts j.attempts)) [
        | inl spent ↦
            rw (is, spent)
              (runs_out t worker until (j.max_attempts - j.attempts) at over (ground arith))
        | inr left ↦
            rw (is, left)
              (lapses t worker until (j.max_attempts - j.attempts) at over (ground arith))
      ]

  pub lease_row-Moves :
      (t : ℕ) (worker pass : String) (n lease_seconds : ℕ)
      → waiting pass j ≡ true
      → Moves i
          (claim t worker pass n lease_seconds)
          (ticket j)
          (ticket (lease_row worker (t + lease_seconds) j))
  lease_row-Moves t worker pass n lease_seconds e =
      let is = free_as j (ground arith) in
      let more : j.attempts < j.max_attempts = ground arith in
      rw is (
        leases t worker pass n lease_seconds (j.max_attempts - j.attempts)
          (j.max_attempts - (j.attempts + 1)) (omega (arith, more)))

  mine :
      (worker owner : String) (l : ℕ)
      → holds worker l j ≡ true
      → j.lease_owner ≡ some owner
      → owner ≡ worker
  mine worker owner l e owned =
      let own : owned_by worker j.lease_owner ≡ true = ground arith in
      (eq_iff owner worker).0 (rw owned at own)

  pub release_row-Moves :
      (worker : String) (is : List ℕ) (l : ℕ)
      → holds worker l j ≡ true
      → Moves i (release worker is) (ticket j) (ticket (release_row j))
  release_row-Moves worker is l e =
      let (owner, until, owned, ends, now) = held_as j s (ground arith) in
      let same = mine worker owner l e owned in
      let spent = s.attempt_spent (ground arith) in
      let bound = s.within in
      rw (now, same)
        (gives_back worker is until (j.max_attempts - j.attempts)
          (j.max_attempts - (j.attempts - 1)) (omega (arith, spent, bound)))

  pub extend_row-Moves :
      (t : ℕ) (worker : String) (is : List ℕ) (lease_seconds l : ℕ)
      → holds worker l j ≡ true
      → Moves i
          (extend t worker is lease_seconds)
          (ticket j)
          (ticket (record j { lease_until = some (t + lease_seconds) }))
  extend_row-Moves t worker is lease_seconds l e =
      let (owner, until, owned, ends, now) = held_as j s (ground arith) in
      let same = mine worker owner l e owned in
      let later =
        leased_as j.state j.lease_owner owner (t + lease_seconds) (j.max_attempts - j.attempts)
          (ground arith) owned in
      rw (now, later, same) (extends t worker is lease_seconds until (j.max_attempts - j.attempts))

  pub done_row-Moves :
      (t : ℕ) (worker raw : String)
      → holds worker i j ≡ true
      → Moves i (done t worker i raw) (ticket j) (ticket (done_row t j))
  done_row-Moves t worker raw e =
      let (owner, until, owned, ends, now) = held_as j s (ground arith) in
      rw (now, mine worker owner i e owned)
        (answers t worker raw until (j.max_attempts - j.attempts))

  pub fail_row-Moves :
      (t : ℕ) (worker error : String) (final : Bool)
      → holds worker i j ≡ true
      → Moves i
          (fail t worker i error final)
          (ticket j)
          (ticket (fail_row t (final || leb j.max_attempts j.attempts) error j))
  fail_row-Moves t worker error final e =
      let (owner, until, owned, ends, now) = held_as j s (ground arith) in
      let same = mine worker owner i e owned in
      elim (Bool-cases (final || leb j.max_attempts j.attempts)) [
        | inl ended ↦
            rw (now, same, ended)
              (gives_up t worker error final until (j.max_attempts - j.attempts) (ground arith))
        | inr left ↦
            let open_end : final ≡ false = ground arith in
            rw (now, same, left, open_end)
              (tries_again t worker error until (j.max_attempts - j.attempts) (ground arith))
      ]

  pub cmd_fail_row-Moves :
      (t : ℕ) (said error : String) (by_page : Bool)
      → is_open i j ≡ true
      → Moves i (cmd_fail t i error by_page) (ticket j) (ticket (cmd_fail_row t said j))
  cmd_fail_row-Moves t said error by_page e = elim (Bool-cases (is_pending j.state)) [
    | inl waits ↦
        rw (free_as j waits) (is_failed_free t error by_page (j.max_attempts - j.attempts))
    | inr other ↦
        let (owner, until, owned, ends, now) = held_as j s (ground arith) in
        rw now (is_failed_held t error by_page owner until (j.max_attempts - j.attempts))
  ]
