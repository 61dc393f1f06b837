-- ===== src/Fleet/Answers/Lease.antt =====
-- `Queue.claim`, `release`, `done` and `fail` of tools/fleet/pagequeue.py together: a page given
-- back, and a page taken over.
use mathlib.Core.Path.{ap₂}
use text.Mathlib.TextPositions.{eq_refl}
use docket_yard.Prelude.{
  ℕ, ◌+◌, ◌≡◌, ◌≢◌, refl, sym, ap, ◌∙◌, String, Bool, true, false, List, [], ◌∷◌, map, arith, All,
  All-imp, Bool-cases, inl, inr, eq_iff, Option-cases,
}
use docket_yard.Prelude.Table.{any, update_where, executemany, any-false_of_All}
use docket_yard.Fleet.Rows.{Job, Queue, is_leased, has_id, owned_by}
use docket_yard.Fleet.Rows.Sound.{IsSound, IsWellFormed, written, row-only}
use docket_yard.Fleet.Lease.{
  waiting, lease_row, release_row, Claimed, claimed, claim, release, holds, reap,
}
use docket_yard.Fleet.Lease.Order.{among, among-waiting}
use docket_yard.Fleet.Lease.Claim.{
  reaped, rows, job-claim, reaped-IsWellFormed, returned-claim, claim-IsWellFormed,
}
use docket_yard.Fleet.Answers.{done}
use docket_yard.Fleet.Lease.Exclusive.{IsHeld, claim-IsHeld}

-- Statements that run over a list, as what they do to each row.
pub executemany-map :
    (p : ℕ → Job → Bool) (f : Job → Job) (is : List ℕ) (jobs : List Job)
    → executemany (λ i. update_where (p i) f) is jobs
      ≡ map (λ j. executemany (λ i. written (p i) f) is j) jobs
executemany-map p f [] jobs = sym (map-self jobs)
  where
    map-self : (js : List Job) → map (λ j. j) js ≡ js
    map-self [] = refl
    map-self (j ∷ js) = ap (λ k. j ∷ k) (map-self js)
executemany-map p f (i ∷ is) jobs = executemany-map p f is (update_where (p i) f jobs) ∙ fused jobs
  where
    fused :
        (js : List Job)
        → map (λ j. executemany (λ k. written (p k) f) is j) (update_where (p i) f js)
          ≡ map (λ j. executemany (λ k. written (p k) f) (i ∷ is) j) js
    fused [] = refl
    fused (j ∷ js) =
        ap (λ k. executemany (λ l. written (p l) f) is (written (p i) f j) ∷ k) (fused js)

module _ (worker : String) where
  abbrev pub given_back : List ℕ → Job → Job
  given_back is j = executemany (λ i. written (holds worker i) release_row) is j

  -- What is not leased is not given back, and neither is a page that is not named.
  given_back-free : (is : List ℕ) (j : Job) → is_leased j.state ≡ false → given_back is j ≡ j
  given_back-free [] j h = refl
  given_back-free (i ∷ is) j h = ground (arith, given_back-free is j h)

  pub given_back-other :
      (rs : List Job) (j : Job)
      → among rs j ≡ false
      → given_back (map (λ (r : Job). r.job_id) rs) j ≡ j
  given_back-other [] j h = refl
  given_back-other (r ∷ rs) j h = ground (arith, given_back-other rs j)

  pub given_back-held :
      (rs : List Job) (j : Job)
      → among rs j ≡ true
      → owned_by worker j.lease_owner ≡ true
      → is_leased j.state ≡ true
      → given_back (map (λ (r : Job). r.job_id) rs) j ≡ release_row j
  given_back-held [] j h o l = absurd (ground arith)
  given_back-held (r ∷ rs) j h o l = elim (Bool-cases (has_id r.job_id j)) [
    | inl found ↦
        ap (given_back (map (λ (r : Job). r.job_id) rs)) (rw (found, o, l))
        ∙ given_back-free (map (λ (r : Job). r.job_id) rs) (release_row j) refl
    | inr other ↦
        ap (given_back (map (λ (r : Job). r.job_id) rs)) (rw other)
        ∙ given_back-held rs j (rw other at h) o l
  ]

pub map-claimed :
    (rs : List Job)
    → map (λ (c : Claimed). c.job_id) (map claimed rs) ≡ map (λ (r : Job). r.job_id) rs
map-claimed [] = refl
map-claimed (r ∷ rs) = ap (λ is. r.job_id ∷ is) (map-claimed rs)

-- A page that was waiting is as it was once it is leased and given back.
pub release_row-lease_row :
    (worker pass : String) (until : ℕ) (j : Job)
    → IsSound j
    → waiting pass j ≡ true
    → release_row (lease_row worker until j) ≡ j
release_row-lease_row worker pass until j s h =
    ground (arith, Option-cases j.lease_owner, Option-cases j.lease_until)

module _ (t : ℕ) (worker pass : String) (n lease_seconds : ℕ) (q : Queue) (w : IsWellFormed q) where
  abbrev step : Job → Job
  step = lease_row worker (t + lease_seconds)

  abbrev picks : List Job
  picks = rows t worker pass n lease_seconds q

  abbrev numbers : List ℕ
  numbers = map (λ (r : Job). r.job_id) picks

  back-row :
      (j : Job)
      → (among picks j ≡ true → waiting pass j ≡ true)
      → IsSound j
      → given_back worker numbers (written (among picks) step j) ≡ j
  back-row j waits s = elim (Bool-cases (among picks j)) [
    | inl mine ↦ rw mine (
        given_back-held worker picks (step j) mine (eq_refl worker) refl
        ∙ release_row-lease_row worker pass (t + lease_seconds) j s (waits mine))
    | inr other ↦ rw other (given_back-other worker picks j other)
  ]

  back-rows :
      (js : List Job)
      → All (λ j. among picks j ≡ true → waiting pass j ≡ true) js
      → All IsSound js
      → map (given_back worker numbers) (update_where (among picks) step js) ≡ js
  back-rows [] h s = refl
  back-rows (j ∷ js) h s = ap₂ (λ a b. a ∷ b) (back-row j h.0 s.0) (back-rows js h.1 s.1)

  -- A worker that gives back every page of a claim leaves the rows as the reap before the claim
  -- left them: no attempt is spent and no lease remains.
  pub release-claim :
      (release worker
        (map (λ (c : Claimed). c.job_id) (claim t worker pass n lease_seconds q).0)
        (claim t worker pass n lease_seconds q).1).job
      ≡ (reap t q).1.job
  unfolding release reap
  release-claim =
      let fit = reaped-IsWellFormed t worker pass n lease_seconds q w in
      ap₂ (λ is js. executemany (λ i. update_where (holds worker i) release_row) is js)
        (ap (map (λ (c : Claimed). c.job_id)) (returned-claim t worker pass n lease_seconds q)
          ∙ map-claimed picks)
        (job-claim t worker pass n lease_seconds q w)
      ∙ executemany-map (holds worker) release_row numbers
          (update_where (among picks) step (reaped t q))
      ∙ back-rows (reaped t q) (among-waiting pass n (reaped t q) fit.ids) fit.rows

  lost-row :
      (before : String) (c : Claimed) (raw : String) (later : ℕ)
      → before ≢ worker
      → IsHeld worker pass (t + lease_seconds) (claim t worker pass n lease_seconds q).1 c
      → done later before c.job_id raw (claim t worker pass n lease_seconds q).1
        ≡ (false, (claim t worker pass n lease_seconds q).1)
  unfolding done
  lost-row before c raw later apart h =
      let q' = (claim t worker pass n lease_seconds q).1 in
      let unheld : any (holds before c.job_id) q'.job ≡ false =
        any-false_of_All (holds before c.job_id) q'.job (
          All-imp (λ j. j.job_id ≡ c.job_id → j ≡ h.job) _ q'.job (λ j only. not-held j only)
            (row-only c.job_id q'.job h.job
              (claim-IsWellFormed t worker pass n lease_seconds q w).ids h.at)) in
      rw unheld
    where
      not-held : (j : Job) → (j.job_id ≡ c.job_id → j ≡ h.job) → holds before c.job_id j ≡ false
      not-held j only = elim (Bool-cases (has_id c.job_id j)) [
        | inl at ↦
            rw (only (ground arith)) (
              ground (arith, h.owner, eq_iff worker before, λ (e : worker ≡ before). apart (sym e)))
        | inr other ↦ rw other
      ]

  -- An answer for a page of the claim from any worker but the one that claimed it is refused,
  -- whatever lease that worker had before, and the file is left as it is.
  pub done-taken_over :
      (before raw : String) (later : ℕ)
      → before ≢ worker
      → All
          (λ c.
            done later before c.job_id raw (claim t worker pass n lease_seconds q).1
            ≡ (false, (claim t worker pass n lease_seconds q).1))
          (claim t worker pass n lease_seconds q).0
  done-taken_over before raw later apart =
      All-imp _ _ _ (λ c h. lost-row before c raw later apart h)
        (claim-IsHeld t worker pass n lease_seconds q w)
