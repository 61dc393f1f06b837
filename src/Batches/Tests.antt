-- ===== src/Batches/Tests.antt =====
-- Runs of src/docketyard/store/batches.py over a store that is a list of numbers.
use docket_yard.Prelude.{
  ℕ, zero, suc, ◌<◌, ◌≡◌, refl, String, true, none, some, List, [], ◌∷◌, arith,
}
use docket_yard.Batches.{
  landed, Thing, made, broken, Outcome, wrote, refused, Weather, apply_batch, with_retries, run,
}
use docket_yard.Batches.Chunks.{Accounts, run-Accounts}
use docket_yard.Batches.Retries.{MeetsLock, with_retries-clears}

abbrev three : List ℕ
three = 7 ∷ 8 ∷ 9 ∷ []

-- Zero is refused, and the lock is held at the first commit.
abbrev write : ℕ → List ℕ → Outcome (List ℕ)
write zero s = refused
write (suc n) s = wrote "loaded" (suc n ∷ s)

abbrev weather : ℕ → Weather ℕ (List ℕ)
weather zero = record { begins = none; one = write; commits = some true }
weather (suc n) = record { begins = none; one = write; commits = none }

abbrev items : List (String × Thing ℕ)
items = ("a", made 3) ∷ ("b", made 0) ∷ ("c", broken) ∷ []

run-Accounts_example : Accounts (λ _. weather) 5 3 (run (λ _. weather) 2 5 items []).0
run-Accounts_example = run-Accounts (λ _. weather) 5 2 items []

held : (j : ℕ) → j < 1 → MeetsLock (λ attempt. apply_batch (weather attempt) items []) j
unfolding apply_batch
held zero lt = ("the commit after c", refl)
held (suc j) lt = absurd (omega arith)

clear : apply_batch (weather 1) items [] ≡ landed ("loaded" ∷ "failed" ∷ "unreadable" ∷ [], 3 ∷ [])
unfolding apply_batch
clear = refl

with_retries-clears_example :
    with_retries weather 5 items [] ≡ some ("loaded" ∷ "failed" ∷ "unreadable" ∷ [], 3 ∷ [])
with_retries-clears_example =
    with_retries-clears weather 5 1 items [] ("loaded" ∷ "failed" ∷ "unreadable" ∷ [], 3 ∷ [])
      (omega arith) held clear
