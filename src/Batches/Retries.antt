-- ===== src/Batches/Retries.antt =====
-- src/docketyard/store/batches.py, `under_lock`: how long it waits, and what it waits for.
use docket_yard.Prelude.{
  ℕ, zero, suc, ◌+◌, ◌*◌, ◌≤◌, ◌<◌, ◌≡◌, ap, String, true, false, arith, List, some,
}
use docket_yard.Batches.{
  Tried, landed, troubled, wait, lock_backoff_cap, on_attempt, given_up, attempts_from, under_lock,
  Thing, Weather, apply_batch, with_retries,
}

wait-le : (n : ℕ) → wait n ≤ lock_backoff_cap
wait-le n = omega arith

module _ {A : Type 0} (do_once : ℕ → Tried A) where
  on_attempt-bounds :
      (r : Tried A) (attempt waited made time : ℕ) (again : Tried A × ℕ × ℕ)
      → (again.1 ≤ made) × (again.2 ≤ time)
      → attempt + 1 ≤ made
      → waited ≤ time
      → ((on_attempt attempt waited again r).1 ≤ made)
        × ((on_attempt attempt waited again r).2 ≤ time)
  on_attempt-bounds (landed a) attempt waited made time again h le le' = (le, le')
  on_attempt-bounds (troubled label true) attempt waited made time again h le le' = h
  on_attempt-bounds (troubled label false) attempt waited made time again h le le' = (le, le')

  attempts_from-bounds :
      (left attempt waited : ℕ)
      → ((attempts_from do_once left attempt waited).1 ≤ attempt + left + 1)
        × ((attempts_from do_once left attempt waited).2 ≤ waited + left * lock_backoff_cap)
  attempts_from-bounds zero attempt waited = (omega arith, omega arith)
  attempts_from-bounds (suc left) attempt waited =
      let rest = attempts_from-bounds left (suc attempt) (waited + wait attempt) in
      on_attempt-bounds (do_once attempt) attempt waited (attempt + suc left + 1)
        (waited + suc left * lock_backoff_cap)
        (attempts_from do_once left (suc attempt) (waited + wait attempt))
        (omega (arith, rest.0), omega (arith, rest.1, wait-le attempt)) (omega arith) (omega arith)

  -- A transaction is attempted at most once more than it may be retried, and the waits between the
  -- attempts are at most a minute for each retry.
  pub under_lock-bounds :
      (lock_retries : ℕ)
      → ((under_lock do_once lock_retries).1 ≤ lock_retries + 1)
        × ((under_lock do_once lock_retries).2 ≤ lock_retries * lock_backoff_cap)
  unfolding under_lock
  under_lock-bounds lock_retries =
      let h = attempts_from-bounds lock_retries 0 0 in (omega (arith, h.0), omega (arith, h.1))

  -- An attempt meets the lock.
  abbrev pub MeetsLock : ℕ → Type 0
  MeetsLock attempt = (label : String) × (do_once attempt ≡ troubled label true)

  attempts_from-clears :
      (k left attempt waited : ℕ) (a : A)
      → k ≤ left
      → ((j : ℕ) → j < k → MeetsLock (attempt + j))
      → do_once (attempt + k) ≡ landed a
      → (attempts_from do_once left attempt waited).0 ≡ landed a
  attempts_from-clears zero zero attempt waited a le held clear =
      let here : attempt + 0 ≡ attempt = omega arith in rw here at clear
  attempts_from-clears zero (suc left) attempt waited a le held clear =
      let here : attempt + 0 ≡ attempt = omega arith in
      let now : do_once attempt ≡ landed a = rw here at clear in rw (now, on_attempt)
  attempts_from-clears (suc k) zero attempt waited a le held clear = absurd (omega arith)
  attempts_from-clears (suc k) (suc left) attempt waited a le held clear =
      let here : attempt + 0 ≡ attempt = omega arith in
      let shift : attempt + suc k ≡ suc attempt + k = omega arith in
      let (label, first) = held 0 (omega arith) in
      let locked : do_once attempt ≡ troubled label true = rw here at first in
      rw (locked, on_attempt)
        (attempts_from-clears k left (suc attempt) (waited + wait attempt) a (omega arith)
          (λ j lt.
            let next : attempt + suc j ≡ suc attempt + j = omega arith in
            rw next at (held (suc j) (omega arith)))
          (rw shift at clear))

-- A lock that is met at the first attempts and is gone by one that is still allowed costs the batch
-- nothing: it lands with the counts and the store of that attempt, from the store as it was.
pub with_retries-clears :
    {T S : Type 0} (weather : ℕ → Weather T S) (lock_retries k : ℕ)
    (batch : List (String × Thing T)) (s : S) (r : List String × S)
    → k ≤ lock_retries
    → ((j : ℕ) → j < k → MeetsLock (λ attempt. apply_batch (weather attempt) batch s) j)
    → apply_batch (weather k) batch s ≡ landed r
    → with_retries weather lock_retries batch s ≡ some r
unfolding with_retries under_lock
with_retries-clears weather lock_retries k batch s r le held clear =
    let once = λ (attempt : ℕ). apply_batch (weather attempt) batch s in
    ap given_up (
      attempts_from-clears once k lock_retries 0 0 r le
        (λ j lt. let same : 0 + j ≡ j = omega arith in rw same (held j lt))
        (let same : 0 + k ≡ k = omega arith in rw same clear))
