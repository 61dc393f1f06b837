-- ===== src/Batches.antt =====
-- src/docketyard/store/batches.py: one document at a time, committed in batches. The store and what
-- applying a document does to it are parameters, by the batch and the attempt; a Counter is the list
-- of the words that it counted.
pub mod Chunks
pub mod Retries
mod Tests
use docket_yard.Prelude.{
  ℕ, zero, suc, ◌+◌, ◌*◌, String, Bool, true, false, not, ◌||◌, Option, none, some, List, [], ◌∷◌,
  ◌++◌, min, length, leb, ◌==◌, if◌then◌else◌,
}
use docket_yard.Prelude.Text.{join}

abbrev pub lock_backoff : ℕ
lock_backoff = 2

abbrev pub lock_backoff_cap : ℕ
lock_backoff_cap = 60

abbrev pub power_of_two : ℕ → ℕ
power_of_two zero = 1
power_of_two (suc n) = 2 * power_of_two n

abbrev pub wait : ℕ → ℕ
wait attempt = min (lock_backoff * power_of_two attempt) lock_backoff_cap

-- `_chunk`
module _ {ℓ} {A : Type ℓ} (size : ℕ) where
  abbrev pub chunk_onto : (batch : List A) → List A → List (List A)
  chunk_onto [] [] = []
  chunk_onto (x ∷ xs) [] = (x ∷ xs) ∷ []
  chunk_onto batch (y ∷ ys) =
      let batch' = batch ++ y ∷ [] in
      let closed = batch' ∷ chunk_onto [] ys in
      let open_yet = chunk_onto batch' ys in if leb size (length batch') then closed else open_yet

  abbrev pub chunk : List A → List (List A)
  chunk = chunk_onto []

-- What a transaction comes to: its answer and the store; or an `OperationalError`, at a label, that
-- says whether it is the lock.
pub data Tried {ℓ} (A : Type ℓ) : Type ℓ where
  landed : A → Tried A
  troubled : (label : String) (locked : Bool) → Tried A

-- `except sqlite3.OperationalError`, the pass to stop.
abbrev pub given_up {ℓ} : {A : Type ℓ} → Tried A → Option A
given_up (landed a) = some a
given_up (troubled label locked) = none

-- What an attempt comes to, when `again` is the attempts after it.
abbrev pub on_attempt {ℓ} :
    {A : Type ℓ} → (attempt waited : ℕ) → (again : Tried A × ℕ × ℕ) → Tried A → Tried A × ℕ × ℕ
on_attempt attempt waited again (landed a) = (landed a, attempt + 1, waited)
on_attempt attempt waited again (troubled label locked) =
    if locked then again else (troubled label locked, attempt + 1, waited)

-- `under_lock`: what the last attempt came to, the attempts made, and the seconds waited. The first
-- of `suc left` attempts is the number `attempt`.
module _ {ℓ} {A : Type ℓ} (do_once : ℕ → Tried A) where
  abbrev pub attempts_from : (left attempt waited : ℕ) → Tried A × ℕ × ℕ
  attempts_from zero attempt waited = (do_once attempt, attempt + 1, waited)
  attempts_from (suc left) attempt waited =
      let again = attempts_from left (suc attempt) (waited + wait attempt) in
      on_attempt attempt waited again (do_once attempt)

  unfoldable pub under_lock : (lock_retries : ℕ) → Tried A × ℕ × ℕ
  under_lock lock_retries = attempts_from lock_retries 0 0

-- An item is a document, or the error that stopped it being made.
pub data Thing (T : Type 0) : Type 0 where
  made : T → Thing T
  broken : Thing T

-- What applying one document does: its word and the store, a refusal, or the store's own trouble.
pub data Outcome (S : Type 0) : Type 0 where
  wrote : (word : String) → S → Outcome S
  refused : Outcome S
  trouble : (locked : Bool) → Outcome S

-- One attempt at one batch: what BEGIN and the commit meet, and what applying a document does.
pub record Weather (T S : Type 0) : Type 0 where
  pub begins : Option Bool
  pub one : T → S → Outcome S
  pub commits : Option Bool

-- `batch[0][0]`
abbrev pub first_label : {T : Type 0} → List (String × Thing T) → String
first_label [] = ""
first_label ((label, _) ∷ _) = label

abbrev pub committed :
    {S : Type 0} → Option Bool → Tried (String × List String × S) → Tried (List String × S)
committed none (landed (at, counts, s)) = landed (counts, s)
committed (some locked) (landed (at, counts, s)) = troubled (join "the commit after " at) locked
committed c (troubled label locked) = troubled label locked

abbrev pub on_batch :
    {S : Type 0}
    → Option (List String × S)
    → List String × S
    → (List String × S → List String × S)
    → List String × S
on_batch none (totals, s) rest = (totals ++ "aborted" ∷ [], s)
on_batch (some (counts, s')) (totals, s) rest = rest (totals ++ counts, s')

module _ {T S : Type 0} where
  -- The loop of `_apply`; a refused document is undone alone, to its savepoint.
  abbrev pub apply_items :
      (T → S → Outcome S)
      → (at : String) → List (String × Thing T)
      → List String
      → S
      → Tried (String × List String × S)
  apply_items one at [] counts s = landed (at, counts, s)
  apply_items one at ((label, broken) ∷ items) counts s =
      apply_items one label items (counts ++ "unreadable" ∷ []) s
  apply_items one at ((label, made t) ∷ items) counts s = elim (one t s) [
    | wrote word s' ↦ apply_items one label items (counts ++ word ∷ []) s'
    | refused ↦ apply_items one label items (counts ++ "failed" ∷ []) s
    | trouble locked ↦ troubled label locked
  ]

  unfoldable pub apply_batch : Weather T S → List (String × Thing T) → S → Tried (List String × S)
  apply_batch w batch s = elim w.begins [
    | some locked ↦ troubled (first_label batch) locked
    | none ↦ committed w.commits (apply_items w.one (first_label batch) batch [] s)
  ]

  -- `_with_retries`; none when the pass must stop.
  unfoldable pub with_retries :
      (ℕ → Weather T S)
      → (lock_retries : ℕ) → List (String × Thing T)
      → S
      → Option (List String × S)
  with_retries weather lock_retries batch s =
      given_up (under_lock (λ attempt. apply_batch (weather attempt) batch s) lock_retries).0

  -- The batches of `run`, numbered from `i`.
  abbrev pub run_batches :
      (ℕ → ℕ → Weather T S)
      → (lock_retries i : ℕ) → List (List (String × Thing T))
      → List String × S
      → List String × S
  run_batches weather lock_retries i [] (totals, s) = (totals, s)
  run_batches weather lock_retries i (batch ∷ batches) (totals, s) =
      on_batch (with_retries (weather i) lock_retries batch s) (totals, s)
        (run_batches weather lock_retries (suc i) batches)

  unfoldable pub run :
      (ℕ → ℕ → Weather T S)
      → (commit_every lock_retries : ℕ) → List (String × Thing T)
      → S
      → List String × S
  run weather commit_every lock_retries items s =
      run_batches weather lock_retries 0 (chunk commit_every items) ([], s)
