-- ===== src/Fleet/Answers/Yield.antt =====
-- `Queue.claim` and `release` of tools/fleet/pagequeue.py together: a claim given back from a page on.
use mathlib.Core.Path.{ap₂}
use text.Mathlib.TextPositions.{eq_refl}
use docket_yard.Prelude.{
  ℕ, zero, suc, ◌+◌, ◌≡◌, ◌≢◌, refl, sym, ap, ◌∙◌, String, true, false, ◌||◌, List, [], ◌∷◌, map,
  take, drop, min, arith, All, Bool-cases, inl, inr,
}
use docket_yard.Prelude.Table.{update_where, executemany}
use docket_yard.Prelude.Sort.{DistinctOn}
use docket_yard.Fleet.Rows.{Job, Queue, has_id}
use docket_yard.Fleet.Rows.Sound.{IsSound, IsWellFormed, written}
use docket_yard.Fleet.Lease.{waiting, lease_row, release_row, Claimed, claim, release, holds}
use docket_yard.Fleet.Lease.Order.{among, among-waiting, picked-DistinctOn}
use docket_yard.Fleet.Lease.Claim.{reaped, rows, job-claim, reaped-IsWellFormed, returned-claim}
use docket_yard.Fleet.Answers.Lease.{
  executemany-map, given_back, given_back-other, given_back-held, release_row-lease_row,
  map-claimed,
}

module _ {A : Type 0} where
  take-take : (i n : ℕ) (xs : List A) → take i (take n xs) ≡ take (min i n) xs
  take-take zero n xs = let none_left : min 0 n ≡ 0 = omega arith in rw none_left refl
  take-take (suc i) zero xs = let none_left : min (suc i) 0 ≡ 0 = omega arith in rw none_left refl
  take-take (suc i) (suc n) [] =
      let s : min (suc i) (suc n) ≡ suc (min i n) = omega arith in rw s refl
  take-take (suc i) (suc n) (x ∷ xs) =
      let s : min (suc i) (suc n) ≡ suc (min i n) = omega arith in rw (s, take-take i n xs)

drop-map :
    (i : ℕ) (rs : List Job)
    → drop i (map (λ (r : Job). r.job_id) rs) ≡ map (λ (r : Job). r.job_id) (drop i rs)
drop-map zero rs = refl
drop-map (suc i) [] = refl
drop-map (suc i) (r ∷ rs) = drop-map i rs

among-split :
    (i : ℕ) (rs : List Job) (j : Job) → (among (take i rs) j || among (drop i rs) j) ≡ among rs j
among-split zero rs j = refl
among-split (suc i) [] j = refl
among-split (suc i) (r ∷ rs) j = let rest = among-split i rs j in ground arith

among-none :
    (rs : List Job) (r j : Job)
    → All (λ (y : Job). r.job_id ≢ y.job_id) rs
    → has_id r.job_id j ≡ true
    → among rs j ≡ false
among-none [] r j h e = refl
among-none (x ∷ rs) r j h e =
    let apart = h.0 in
    let other : has_id x.job_id j ≡ false = elim (Bool-cases (has_id x.job_id j)) [
      | inr missed ↦ missed
      | inl hit ↦ absurd (apart (ground arith))
    ] in
    rw other (among-none rs r j h.1 e)

-- With distinct numbers, a row of the first is none of the others.
All-drop : (P : Job → Type 0) (i : ℕ) (rs : List Job) → All P rs → All P (drop i rs)
All-drop P zero rs h = h
All-drop P (suc i) [] h = tt
All-drop P (suc i) (r ∷ rs) h = All-drop P i rs h.1

among-apart :
    (i : ℕ) (rs : List Job) (j : Job)
    → DistinctOn (λ (r : Job). r.job_id) rs
    → among (take i rs) j ≡ true
    → among (drop i rs) j ≡ false
among-apart zero rs j d e = absurd (ground arith)
among-apart (suc i) [] j d e = refl
among-apart (suc i) (r ∷ rs) j d e = elim (Bool-cases (has_id r.job_id j)) [
  | inl met ↦ among-none (drop i rs) r j (All-drop (λ (y : Job). r.job_id ≢ y.job_id) i rs d.0) met
  | inr other ↦ among-apart i rs j d.1 (rw other at e)
]

module _ (t : ℕ) (worker pass : String) (n lease_seconds : ℕ) (q : Queue) (w : IsWellFormed q)
    (i : ℕ) where
  abbrev step : Job → Job
  step = lease_row worker (t + lease_seconds)

  abbrev picks : List Job
  picks = rows t worker pass n lease_seconds q

  abbrev later : List ℕ
  later = map (λ (r : Job). r.job_id) (drop i picks)

  kept-row :
      (j : Job)
      → (among picks j ≡ true → waiting pass j ≡ true)
      → IsSound j
      → DistinctOn (λ (r : Job). r.job_id) picks
      → given_back worker later (written (among picks) step j)
        ≡ written (among (take i picks)) step j
  kept-row j waits s d = elim (Bool-cases (among (take i picks) j)) [
    | inl early ↦
        let all : among picks j ≡ true = sym (among-split i picks j) ∙ rw early refl in
        rw (early, all)
          (given_back-other worker (drop i picks) (step j) (among-apart i picks j d early))
    | inr not_early ↦ elim (Bool-cases (among (drop i picks) j)) [
      | inl late ↦
          let all : among picks j ≡ true =
            sym (among-split i picks j) ∙ rw (not_early, late) refl in
          rw (not_early, all)
            (given_back-held worker (drop i picks) (step j) late (eq_refl worker) refl
              ∙ release_row-lease_row worker pass (t + lease_seconds) j s (waits all))
      | inr neither ↦
          let all : among picks j ≡ false =
            sym (among-split i picks j) ∙ rw (not_early, neither) refl in
          rw (not_early, all) (given_back-other worker (drop i picks) j neither)
    ]
  ]

  kept-rows :
      (js : List Job)
      → All (λ j. among picks j ≡ true → waiting pass j ≡ true) js
      → All IsSound js
      → DistinctOn (λ (r : Job). r.job_id) picks
      → map (given_back worker later) (update_where (among picks) step js)
        ≡ update_where (among (take i picks)) step js
  kept-rows [] h s d = refl
  kept-rows (j ∷ js) h s d = ap₂ (λ a b. a ∷ b) (kept-row j h.0 s.0 d) (kept-rows js h.1 s.1 d)

  -- A worker that gives back the pages of a claim from one on keeps what a claim of the pages before it
  -- would have taken.
  pub release-drop :
      (release worker
        (drop i (map (λ (c : Claimed). c.job_id) (claim t worker pass n lease_seconds q).0))
        (claim t worker pass n lease_seconds q).1).job
      ≡ (claim t worker pass (min i n) lease_seconds q).1.job
  unfolding release
  release-drop =
      let fit = reaped-IsWellFormed t worker pass n lease_seconds q w in
      let d = picked-DistinctOn pass n (reaped t q) fit.ids in
      ap₂ (λ is js. executemany (λ i. update_where (holds worker i) release_row) is js)
        (ap (λ cs. drop i (map (λ (c : Claimed). c.job_id) cs))
            (returned-claim t worker pass n lease_seconds q)
          ∙ ap (drop i) (map-claimed picks)
          ∙ drop-map i picks)
        (job-claim t worker pass n lease_seconds q w)
      ∙ executemany-map (holds worker) release_row later
          (update_where (among picks) step (reaped t q))
      ∙ kept-rows (reaped t q) (among-waiting pass n (reaped t q) fit.ids) fit.rows d
      ∙ ap (λ rs. update_where (among rs) step (reaped t q)) (take-take i n _)
      ∙ sym (job-claim t worker pass (min i n) lease_seconds q w)
