-- ===== src/Fleet/Documents/Keeps.antt =====
-- `Queue.seed` of tools/fleet/pagequeue.py keeps the file well formed, and so does the collection.
use docket_yard.Prelude.{
  ℕ, suc, ◌≤◌, ◌≡◌, ◌≢◌, refl, ap, ◌∙◌, String, Bool, true, false, not, ◌&&◌, List, [], ◌∷◌, ◌++◌,
  arith, All, All-imp, All-imp₂, All-append, Bool-cases, inl, inr, ◌==◌, eq_iff,
}
use docket_yard.Prelude.Table.{
  any, select, delete_where, executemany, any-append, any-false, any-delete_where, All-select,
  All-select_self, Distinct-select, Distinct-insert, Distinct-key,
}
use docket_yard.Fleet.Rows.{Job, Reading, Queue, is_done}
use docket_yard.Fleet.Rows.Sound.{IsWellFormed, TablesFit, answers, is_done_as, page_key}
use docket_yard.Fleet.Documents.{
  is_of, forget, greatest, fresh_row, same_page, insert_page, seed, mark_collected,
}

module _ (pass sha : String) (jobs : List Job) (results : List Reading)
    (fit : TablesFit jobs results) where
  -- The job numbers whose answers go.
  abbrev goes : ℕ → Bool
  goes i = any (λ j. is_of pass sha j && (j.job_id == i)) jobs

  -- No row that stays has the number of one that goes.
  stays-goes : All (λ j. is_of pass sha j ≡ false → goes j.job_id ≡ false) jobs
  stays-goes =
      All-imp (λ j. All (λ k. j.job_id ≡ k.job_id → j ≡ k) jobs) _ jobs
        (λ j same stays. none_of j stays jobs same)
        (Distinct-key (λ (j : Job). j.job_id) jobs fit.ids)
    where
      none_of :
          (j : Job)
          → is_of pass sha j ≡ false
          → (ks : List Job) → All (λ (k : Job). j.job_id ≡ k.job_id → j ≡ k) ks
          → any (λ k. is_of pass sha k && (k.job_id == j.job_id)) ks ≡ false
      none_of j stays [] h = refl
      none_of j stays (k ∷ ks) h = elim (Bool-cases (k.job_id == j.job_id)) [
        | inl at ↦
            let same : j ≡ k = h.0 (ground arith) in
            let gone : is_of pass sha k ≡ false = rw (← same) stays in
            rw (gone, none_of j stays ks h.1)
        | inr other ↦ ground (arith, none_of j stays ks h.1)
      ]

  forget-answered :
      (j : Job)
      → (is_of pass sha j ≡ false → goes j.job_id ≡ false)
      → not (is_of pass sha j) ≡ true
      → (is_done j.state ≡ true → any (answers j.job_id) results ≡ true)
      → is_done j.state ≡ true
      → any (answers j.job_id) (delete_where (λ (r : Reading). goes r.job_id) results) ≡ true
  forget-answered j free stays had now =
      any-delete_where (answers j.job_id) (λ r. goes r.job_id) results (kept results) ∙ had now
    where
      kept : (rs : List Reading) → All (λ r. answers j.job_id r ≡ true → goes r.job_id ≡ false) rs
      kept [] = tt
      kept (r ∷ rs) = (
        (λ e. let at : j.job_id ≡ r.job_id = ground arith in rw (← at) (free (ground arith))),
        kept rs,
      )

  forget-TablesFit :
      TablesFit
        (delete_where (is_of pass sha) jobs)
        (delete_where (λ (r : Reading). goes r.job_id) results)
  forget-TablesFit = record {
    rows = All-select _ _ jobs fit.rows;
    ids = Distinct-select (λ (j : Job). j.job_id) _ jobs fit.ids;
    keys = Distinct-select page_key _ jobs fit.keys;
    answered = still jobs fit.answered stays-goes;
    earned =
        All-imp₂ _ _ _ (delete_where (λ (r : Reading). goes r.job_id) results)
          (λ r e stays.
            any-delete_where (is_done_as r.job_id) (is_of pass sha) jobs
              (not_of r jobs (any-false _ jobs (ground arith)))
            ∙ e)
          (All-select _ _ results fit.earned)
          (All-select_self (λ (r : Reading). not (goes r.job_id)) results);
  }
    where
      still :
          (js : List Job)
          → All (λ j. is_done j.state ≡ true → any (answers j.job_id) results ≡ true) js
          → All (λ j. is_of pass sha j ≡ false → goes j.job_id ≡ false) js
          → All
              (λ j.
                is_done j.state ≡ true
                → any (answers j.job_id) (delete_where (λ (r : Reading). goes r.job_id) results)
                  ≡ true)
              (delete_where (is_of pass sha) js)
      still [] a h = tt
      still (j ∷ js) a h = elim (Bool-cases (is_of pass sha j)) [
        | inl gone ↦ rw (gone, select) (still js a.1 h.1)
        | inr stays ↦ rw (stays, select) (forget-answered j h.0 (rw stays) a.0, still js a.1 h.1)
      ]

      not_of :
          (r : Reading) (js : List Job)
          → All (λ j. (is_of pass sha j && (j.job_id == r.job_id)) ≡ false) js
          → All (λ j. is_done_as r.job_id j ≡ true → is_of pass sha j ≡ false) js
      not_of r [] h = tt
      not_of r (j ∷ js) h = (λ e. ground arith, not_of r js h.1)

-- The number of a new row is above all the others.
greatest-bound : (jobs : List Job) → All (λ j. j.job_id ≤ greatest jobs) jobs
greatest-bound [] = tt
greatest-bound (j ∷ js) = (omega arith, All-imp _ _ js (λ k h. omega arith) (greatest-bound js))

same_page-false :
    (pass sha : String) (page : ℕ) (j : Job) (t i : ℕ)
    → same_page pass sha page j ≡ false
    → page_key j ≢ page_key (fresh_row t pass sha page i)
same_page-false pass sha page j t i e same = ground (
  arith,
  eq_iff j.pass pass,
  eq_iff j.document_sha256 sha,
  ap (λ (k : String × String × ℕ). k.0) same,
  ap (λ (k : String × String × ℕ). k.1) same,
  ap (λ (k : String × String × ℕ). k.2) same,
)

module _ (t : ℕ) (pass : String) (results : List Reading) where
  insert_fresh :
      (sha : String) (page : ℕ) (jobs : List Job)
      → any (same_page pass sha page) jobs ≡ false
      → TablesFit jobs results
      → TablesFit (jobs ++ fresh_row t pass sha page (suc (greatest jobs)) ∷ []) results
  insert_fresh sha page jobs e fit =
      let new = fresh_row t pass sha page (suc (greatest jobs)) in
      record {
        rows = All-append _ jobs (new ∷ []) fit.rows (ground arith, tt);
        ids =
            Distinct-insert (λ (j : Job). j.job_id) new jobs
              (All-imp _ _ jobs (λ j h. omega arith) (greatest-bound jobs)) fit.ids;
        keys =
            Distinct-insert page_key new jobs
              (All-imp _ _ jobs (λ j h. same_page-false pass sha page j t (suc (greatest jobs)) h)
                (any-false (same_page pass sha page) jobs e))
              fit.keys;
        answered = All-append _ jobs (new ∷ []) fit.answered ((λ h. cc), tt);
        earned =
            All-imp _ _ results (λ r h. any-append (is_done_as r.job_id) jobs (new ∷ []) ∙ rw h)
              fit.earned;
      }

  insert_page-TablesFit :
      (page : String × ℕ) (s : ℕ × List Job)
      → TablesFit s.1 results
      → TablesFit (insert_page t pass page s).1 results
  insert_page-TablesFit (sha, page) (n, jobs) fit =
      elim (Bool-cases (any (same_page pass sha page) jobs)) [
        | inl there ↦ rw there fit
        | inr fresh ↦ rw fresh (insert_fresh sha page jobs fresh fit)
      ]

  insert_pages-TablesFit :
      (pages : List (String × ℕ)) (s : ℕ × List Job)
      → TablesFit s.1 results
      → TablesFit (executemany (insert_page t pass) pages s).1 results
  insert_pages-TablesFit [] s fit = fit
  insert_pages-TablesFit (p ∷ pages) s fit =
      insert_pages-TablesFit pages (insert_page t pass p s) (insert_page-TablesFit p s fit)

forget_all-IsWellFormed :
    (pass : String) (reread : List String) (q : Queue)
    → IsWellFormed q
    → IsWellFormed (executemany (forget pass) reread q)
forget_all-IsWellFormed pass [] q w = w
forget_all-IsWellFormed pass (sha ∷ reread) q w =
    forget_all-IsWellFormed pass reread (forget pass sha q)
      (forget-TablesFit pass sha q.job q.result w)

pub seed-IsWellFormed :
    (t : ℕ) (pass : String) (pages : List (String × ℕ)) (reread : List String) (q : Queue)
    → IsWellFormed q
    → IsWellFormed (seed t pass pages reread q).1
unfolding seed
seed-IsWellFormed t pass pages reread q w =
    let q' = executemany (forget pass) reread q in
    insert_pages-TablesFit t pass q'.result pages (0, q'.job)
      (forget_all-IsWellFormed pass reread q w)

pub mark_collected-IsWellFormed :
    (pass sha : String) (ran_at : ℕ) (outcome : String) (pages_read pages_failed : ℕ) (q : Queue)
    → IsWellFormed q
    → IsWellFormed (mark_collected pass sha ran_at outcome pages_read pages_failed q)
unfolding mark_collected
mark_collected-IsWellFormed pass sha ran_at outcome pages_read pages_failed q w = w
