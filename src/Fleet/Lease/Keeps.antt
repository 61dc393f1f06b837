-- ===== src/Fleet/Lease/Keeps.antt =====
-- `Queue._reap`, `extend` and `release` of tools/fleet/pagequeue.py keep the file well formed.
use docket_yard.Prelude.{
  ℕ, ◌+◌, String, ◌≡◌, refl, Bool, true, some, List, [], ◌∷◌, arith, All-intro,
}
use docket_yard.Prelude.Table.{update_where, executemany}
use docket_yard.Fleet.Rows.{Job, Reading, Queue}
use docket_yard.Fleet.Rows.Sound.{IsWellFormed, TablesFit, Keeps, update-TablesFit}
use docket_yard.Fleet.Lease.{expired, reap_row, reap, holds, extend, release_row, release}

pub reap_row-Keeps : (t : ℕ) (j : Job) → expired t j ≡ true → Keeps j (reap_row t j)
reap_row-Keeps t j e = record {
  id = ground arith;
  key = ground arith;
  done = ground arith;
  sound = λ s. ground arith;
}

pub reap-IsWellFormed : (t : ℕ) (q : Queue) → IsWellFormed q → IsWellFormed (reap t q).1
unfolding reap
reap-IsWellFormed t q w =
    update-TablesFit (expired t) (reap_row t) q.job q.result (All-intro _ q.job (reap_row-Keeps t))
      w

pub extend_row-Keeps :
    (worker : String) (i until : ℕ) (j : Job)
    → holds worker i j ≡ true
    → Keeps j (record j { lease_until = some until })
extend_row-Keeps worker i until j e = record {
  id = refl;
  key = refl;
  done = refl;
  sound = λ s. ground arith;
}

pub release_row-Keeps :
    (worker : String) (i : ℕ) (j : Job) → holds worker i j ≡ true → Keeps j (release_row j)
release_row-Keeps worker i j e = record {
  id = refl;
  key = refl;
  done = ground arith;
  sound = λ s. ground arith;
}

-- Statements that each keep the tables fit do so in a row.
executemany-TablesFit :
    (p : ℕ → Job → Bool) (f : Job → Job)
    → ((i : ℕ) (j : Job) → p i j ≡ true → Keeps j (f j))
    → (is : List ℕ) (jobs : List Job) (results : List Reading) → TablesFit jobs results
    → TablesFit (executemany (λ i. update_where (p i) f) is jobs) results
executemany-TablesFit p f h [] jobs results fit = fit
executemany-TablesFit p f h (i ∷ is) jobs results fit =
    executemany-TablesFit p f h is _ results
      (update-TablesFit (p i) f jobs results (All-intro _ jobs (h i)) fit)

pub extend-IsWellFormed :
    (t : ℕ) (worker : String) (job_ids : List ℕ) (lease_seconds : ℕ) (q : Queue)
    → IsWellFormed q
    → IsWellFormed (extend t worker job_ids lease_seconds q)
unfolding extend
extend-IsWellFormed t worker job_ids lease_seconds q =
    executemany-TablesFit (holds worker) _ (λ i. extend_row-Keeps worker i (t + lease_seconds))
      job_ids q.job q.result

pub release-IsWellFormed :
    (worker : String) (job_ids : List ℕ) (q : Queue)
    → IsWellFormed q
    → IsWellFormed (release worker job_ids q)
unfolding release
release-IsWellFormed worker job_ids q =
    executemany-TablesFit (holds worker) release_row (release_row-Keeps worker) job_ids q.job
      q.result
