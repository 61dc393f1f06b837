-- ===== src/Batches/Chunks.antt =====
-- src/docketyard/store/batches.py, `_chunk` and the counts of a pass.
use docket_yard.Prelude.{
  ℕ, zero, suc, ◌+◌, ◌≤◌, ◌≡◌, refl, ap, String, Bool, true, false, Option, none, some, List, [],
  ◌∷◌, ◌++◌, All, length, length-append, leb, Bool-cases, Option-cases, inl, inr, arith, ◌⊎◌,
}
use docket_yard.Batches.{
  on_attempt, on_batch, given_up, wait, first_label, chunk_onto, chunk, Tried, landed, troubled,
  Thing, made, broken, Outcome, wrote, refused, trouble, Weather, apply_items, committed,
  apply_batch, with_retries, run_batches, run, under_lock, attempts_from,
}

module _ {ℓ} {A : Type ℓ} where
  abbrev pub concat : List (List A) → List A
  concat [] = []
  concat (xs ∷ xss) = xs ++ concat xss

  append_nil : (xs : List A) → xs ++ [] ≡ xs
  append_nil [] = refl
  append_nil (x ∷ xs) = ap (λ ys. x ∷ ys) (append_nil xs)

  append_assoc : (xs ys zs : List A) → (xs ++ ys) ++ zs ≡ xs ++ (ys ++ zs)
  append_assoc [] ys zs = refl
  append_assoc (x ∷ xs) ys zs = ap (λ l. x ∷ l) (append_assoc xs ys zs)

  module _ (size : ℕ) where
    concat-chunk_onto :
        (batch items : List A) → concat (chunk_onto size batch items) ≡ batch ++ items
    concat-chunk_onto [] [] = refl
    concat-chunk_onto (x ∷ xs) [] = refl
    concat-chunk_onto batch (y ∷ ys) = elim (Bool-cases (leb size (length (batch ++ y ∷ [])))) [
      | inl full ↦ rw (full, concat-chunk_onto [] ys) (append_assoc batch (y ∷ []) ys)
      | inr room ↦
          rw (room, concat-chunk_onto (batch ++ y ∷ []) ys) (append_assoc batch (y ∷ []) ys)
    ]

    -- A chunk is never empty, and no longer than the size.
    abbrev pub IsChunk : List A → Type 0
    IsChunk xs = (1 ≤ length xs) × (length xs ≤ size)

    chunk_onto-IsChunk :
        (batch items : List A) → length batch + 1 ≤ size → All IsChunk (chunk_onto size batch items)
    chunk_onto-IsChunk [] [] room = tt
    chunk_onto-IsChunk (x ∷ xs) [] room = ((omega arith, omega arith), tt)
    chunk_onto-IsChunk batch (y ∷ ys) room =
        elim (Bool-cases (leb size (length (batch ++ y ∷ [])))) [
          | inl full ↦
              let len = length-append batch (y ∷ []) in
              rw full
                ((omega (arith, len), omega (arith, len)), chunk_onto-IsChunk [] ys (omega arith))
          | inr short ↦ rw short (chunk_onto-IsChunk (batch ++ y ∷ []) ys (ground arith))
        ]

    -- The batches of a list of items are those items in order, each batch has one item at least and
    -- no more than the size, which is one or more.
    pub chunk-IsChunk :
        (items : List A)
        → 1 ≤ size
        → (concat (chunk size items) ≡ items) × All IsChunk (chunk size items)
    chunk-IsChunk items some_size =
        (concat-chunk_onto [] items, chunk_onto-IsChunk [] items (omega arith))

-- An applied batch counts one word for each of its items.
abbrev Counted : {S : Type 0} → ℕ → Tried (String × List String × S) → Type 0
Counted n (landed (at, counts, s)) = length counts ≡ n
Counted n (troubled label locked) = Unit

abbrev Committed : {S : Type 0} → ℕ → Tried (List String × S) → Type 0
Committed n (landed (counts, s)) = length counts ≡ n
Committed n (troubled label locked) = Unit

Counted-committed :
    {S : Type 0} (n : ℕ) (c : Option Bool) (r : Tried (String × List String × S))
    → Counted n r
    → Committed n (committed c r)
Counted-committed n none (landed (at, counts, s)) h = h
Counted-committed n (some l) (landed (at, counts, s)) h = tt
Counted-committed n none (troubled label locked) h = tt
Counted-committed n (some l) (troubled label locked) h = tt

counted_one :
    (w : String) (counts : List String) (n : ℕ)
    → length (counts ++ w ∷ []) + n ≡ length counts + suc n
counted_one w counts n = omega (arith, length-append counts (w ∷ []))

zero_plus : (n : ℕ) → 0 + n ≡ n
zero_plus n = omega arith

module _ {T S : Type 0} where
  apply_items-Counted :
      (one : T → S → Outcome S) (at : String) (items : List (String × Thing T))
      (counts : List String) (s : S)
      → Counted (length counts + length items) (apply_items one at items counts s)
  apply_items-Counted one at [] counts s = omega arith
  apply_items-Counted one at ((label, broken) ∷ items) counts s =
      rw (counted_one "unreadable" counts (length items)) at
        (apply_items-Counted one label items (counts ++ "unreadable" ∷ []) s)
  apply_items-Counted one at ((label, made t) ∷ items) counts s =
      after (one t s) (λ w s'. apply_items-Counted one label items (counts ++ w ∷ []) s')
    where
      after :
          (o : Outcome S)
          → ((w : String) (s' : S)
              → Counted
                  (length (counts ++ w ∷ []) + length items)
                  (apply_items one label items (counts ++ w ∷ []) s'))
          → Counted (length counts + suc (length items)) (elim o [
            | wrote word s' ↦ apply_items one label items (counts ++ word ∷ []) s'
            | refused ↦ apply_items one label items (counts ++ "failed" ∷ []) s
            | trouble locked ↦ troubled label locked
          ])
      after (wrote word s') ih = rw (counted_one word counts (length items)) at (ih word s')
      after refused ih = rw (counted_one "failed" counts (length items)) at (ih "failed" s)
      after (trouble locked) ih = tt

  apply_batch-Committed :
      (w : Weather T S) (batch : List (String × Thing T)) (s : S)
      → Committed (length batch) (apply_batch w batch s)
  unfolding apply_batch
  apply_batch-Committed w batch s = elim (Option-cases w.begins) [
    | inr (locked, e) ↦ rw (e, committed) tt
    | inl e ↦ rw e (
        Counted-committed (length batch) w.commits
          (apply_items w.one (first_label batch) batch [] s)
          (rw (zero_plus (length batch)) at
            (apply_items-Counted w.one (first_label batch) batch [] s)))
  ]

module _ {A : Type 0} (do_once : ℕ → Tried A) (P : Tried A → Type 0)
    (holds : (attempt : ℕ) → P (do_once attempt)) where
  after_attempt :
      (r : Tried A) (attempt waited : ℕ) (again : Tried A × ℕ × ℕ)
      → P r
      → P again.0
      → P (on_attempt attempt waited again r).0
  after_attempt (landed a) attempt waited again p q = p
  after_attempt (troubled label true) attempt waited again p q = q
  after_attempt (troubled label false) attempt waited again p q = p

  attempts_from-holds : (left attempt waited : ℕ) → P (attempts_from do_once left attempt waited).0
  attempts_from-holds zero attempt waited = holds attempt
  attempts_from-holds (suc left) attempt waited =
      after_attempt (do_once attempt) attempt waited
        (attempts_from do_once left (suc attempt) (waited + wait attempt)) (holds attempt)
        (attempts_from-holds left (suc attempt) (waited + wait attempt))

module _ {T S : Type 0} (weather : ℕ → ℕ → Weather T S) (lock_retries : ℕ) where
  abbrev Whole : ℕ → Option (List String × S) → Type 0
  Whole n none = Unit
  Whole n (some (counts, s)) = length counts ≡ n

  with_retries-Whole :
      (i : ℕ) (batch : List (String × Thing T)) (s : S)
      → Whole (length batch) (with_retries (weather i) lock_retries batch s)
  unfolding with_retries under_lock
  with_retries-Whole i batch s =
      after (attempts_from (λ attempt. apply_batch (weather i attempt) batch s) lock_retries 0 0).0
        (attempts_from-holds (λ attempt. apply_batch (weather i attempt) batch s)
          (Committed (length batch)) (λ attempt. apply_batch-Committed (weather i attempt) batch s)
          lock_retries 0 0)
    where
      after :
          (r : Tried (List String × S))
          → Committed (length batch) r
          → Whole (length batch) (given_up r)
      after (landed (counts, s')) h = h
      after (troubled label locked) h = tt

  -- The words counted by a pass of `n` items that had counted some before.
  abbrev pub Accounts : ℕ → List String → Type 0
  Accounts n totals =
      (length totals ≡ n)
      ⊎ ((done_so_far : List String) × (totals ≡ done_so_far ++ "aborted" ∷ [])
          × (length done_so_far ≤ n))

  run_batches-Accounts :
      (i : ℕ) (batches : List (List (String × Thing T))) (totals : List String) (s : S)
      → Accounts
          (length totals + length (concat batches))
          (run_batches weather lock_retries i batches (totals, s)).0
  run_batches-Accounts i [] totals s = inl (omega arith)
  run_batches-Accounts i (batch ∷ batches) totals s =
      after (with_retries (weather i) lock_retries batch s) (with_retries-Whole i batch s)
        (λ counts s'. run_batches-Accounts (suc i) batches (totals ++ counts) s')
    where
      after :
          (r : Option (List String × S))
          → Whole (length batch) r
          → ((counts : List String) (s' : S)
              → Accounts
                  (length (totals ++ counts) + length (concat batches))
                  (run_batches weather lock_retries (suc i) batches (totals ++ counts, s')).0)
          → Accounts
              (length totals + length (batch ++ concat batches))
              (on_batch r (totals, s) (run_batches weather lock_retries (suc i) batches)).0
      after none h ih = inr (totals, refl, omega arith)
      after (some (counts, s')) h ih =
          let sum : length (totals ++ counts) + length (concat batches)
              ≡ length totals + length (batch ++ concat batches) =
            omega (arith, length-append totals counts, length-append batch (concat batches)) in
          rw sum at (ih counts s')

  -- A pass accounts for its items once, whatever the retries: it counts one word for each of them,
  -- or it ends with `aborted` after counting at most so many.
  pub run-Accounts :
      (commit_every : ℕ) (items : List (String × Thing T)) (s : S)
      → Accounts (length items) (run weather commit_every lock_retries items s).0
  unfolding run
  run-Accounts commit_every items s =
      rw (concat-chunk_onto commit_every [] items, zero_plus (length items)) at
        (run_batches-Accounts 0 (chunk commit_every items) [] s)
