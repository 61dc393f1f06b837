-- ===== src/Fleet/Documents/Seeded.antt =====
-- `Queue.seed` of tools/fleet/pagequeue.py: what is on the queue after a seed.
use docket_yard.Prelude.{
  ℕ, suc, ◌+◌, ◌≡◌, refl, ap, String, true, false, not, List, [], ◌∷◌, arith, All, All-imp,
  All-append, Bool-cases, inl, inr, eq_iff, str_eq, length, length-append,
}
use docket_yard.Prelude.Table.{
  any, executemany, any-append, any-false_of_All, All-select, All-select_self,
}
use docket_yard.Fleet.Rows.{Job, Queue, is_pending}
use docket_yard.Fleet.Documents.{
  is_of, written_of, forget, greatest, fresh_row, same_page, insert_page, seed,
}

abbrev pub HasPage : String → List Job → String × ℕ → Type 0
HasPage pass jobs (sha, page) = any (same_page pass sha page) jobs ≡ true

fresh-same :
    (t : ℕ) (pass sha : String) (page i : ℕ)
    → same_page pass sha page (fresh_row t pass sha page i) ≡ true
fresh-same t pass sha page i = ground (arith, eq_iff pass pass, eq_iff sha sha)

module _ (t : ℕ) (pass : String) where
  insert_page-HasPage :
      (p : String × ℕ) (s : ℕ × List Job) → HasPage pass (insert_page t pass p s).1 p
  insert_page-HasPage (sha, page) (n, jobs) =
      elim (Bool-cases (any (same_page pass sha page) jobs)) [
        | inl there ↦ rw there there
        | inr fresh ↦
            rw (fresh, any-append)
              (ground (arith, fresh-same t pass sha page (suc (greatest jobs))))
      ]

  insert_page-keeps :
      (p r : String × ℕ) (s : ℕ × List Job)
      → HasPage pass s.1 r
      → HasPage pass (insert_page t pass p s).1 r
  insert_page-keeps (sha, page) (sha', page') (n, jobs) h =
      elim (Bool-cases (any (same_page pass sha page) jobs)) [
        | inl there ↦ rw there h
        | inr fresh ↦ rw (fresh, any-append, h)
      ]

  insert_pages-keeps :
      (pages : List (String × ℕ)) (r : String × ℕ) (s : ℕ × List Job)
      → HasPage pass s.1 r
      → HasPage pass (executemany (insert_page t pass) pages s).1 r
  insert_pages-keeps [] r s h = h
  insert_pages-keeps (p ∷ pages) r s h =
      insert_pages-keeps pages r (insert_page t pass p s) (insert_page-keeps p r s h)

  insert_pages-HasPage :
      (pages : List (String × ℕ)) (s : ℕ × List Job)
      → All (HasPage pass (executemany (insert_page t pass) pages s).1) pages
  insert_pages-HasPage [] s = tt
  insert_pages-HasPage (p ∷ pages) s = (
    insert_pages-keeps pages p (insert_page t pass p s) (insert_page-HasPage p s),
    insert_pages-HasPage pages (insert_page t pass p s),
  )

  insert_page-length :
      (p : String × ℕ) (s : ℕ × List Job)
      → (insert_page t pass p s).0 + length s.1 ≡ s.0 + length (insert_page t pass p s).1
  insert_page-length (sha, page) (n, jobs) =
      elim (Bool-cases (any (same_page pass sha page) jobs)) [
        | inl there ↦ rw there
        | inr fresh ↦ rw (fresh, length-append) (omega arith)
      ]

  insert_pages-length :
      (pages : List (String × ℕ)) (s : ℕ × List Job)
      → (executemany (insert_page t pass) pages s).0 + length s.1
        ≡ s.0 + length (executemany (insert_page t pass) pages s).1
  insert_pages-length [] s = refl
  insert_pages-length (p ∷ pages) s =
      omega (arith, insert_page-length p s, insert_pages-length pages (insert_page t pass p s))

  -- Pages that are there are not inserted again.
  insert_pages-known :
      (pages : List (String × ℕ)) (n : ℕ) (jobs : List Job)
      → All (HasPage pass jobs) pages
      → executemany (insert_page t pass) pages (n, jobs) ≡ (n, jobs)
  insert_pages-known [] n jobs h = refl
  insert_pages-known ((sha, page) ∷ pages) n jobs h = rw h.0 (insert_pages-known pages n jobs h.1)

-- After a seed the queue holds every page of the list, and the number that the seed answers is that
-- of the rows it added to those that the re-read documents had left.
pub seed-HasPage :
    (t : ℕ) (pass : String) (pages : List (String × ℕ)) (reread : List String) (q : Queue)
    → All (HasPage pass (seed t pass pages reread q).1.job) pages
      × ((seed t pass pages reread q).0 + length (executemany (forget pass) reread q).job
          ≡ length (seed t pass pages reread q).1.job)
unfolding seed
seed-HasPage t pass pages reread q =
    let q' = executemany (forget pass) reread q in
    (
      insert_pages-HasPage t pass pages (0, q'.job),
      omega (arith, insert_pages-length t pass pages (0, q'.job)),
    )

-- A second seed of the same list, at any time and with no document to read again, adds nothing and
-- changes nothing.
pub seed-seed :
    (t later : ℕ) (pass : String) (pages : List (String × ℕ)) (reread : List String) (q : Queue)
    → seed later pass pages [] (seed t pass pages reread q).1 ≡ (0, (seed t pass pages reread q).1)
unfolding seed
seed-seed t later pass pages reread q =
    let q' = executemany (forget pass) reread q in
    let jobs = (executemany (insert_page t pass) pages (0, q'.job)).1 in
    ap (λ (s : ℕ × List Job). (s.0, record q' { job = s.1 }))
      (insert_pages-known later pass pages 0 jobs (insert_pages-HasPage t pass pages (0, q'.job)))

-- What a re-read document is once it is forgotten: its rows, if any, are new, and it is not
-- collected.
abbrev pub IsNew : String → String → Job → Type 0
IsNew pass sha j = is_of pass sha j ≡ true → (is_pending j.state ≡ true) × (j.attempts ≡ 0)

abbrev IsForgotten : String → String → Queue → Type 0
IsForgotten pass sha q =
    All (IsNew pass sha) q.job × All (λ c. written_of pass sha c ≡ false) q.collected

module _ (pass sha : String) where
  forget_self : (q : Queue) → IsForgotten pass sha (forget pass sha q)
  forget_self q = (
    All-imp (λ j. not (is_of pass sha j) ≡ true) _ _ (λ j h e. absurd (ground arith))
        (All-select_self (λ j. not (is_of pass sha j)) q.job),
    All-imp (λ c. not (written_of pass sha c) ≡ true) _ _ (λ c h. ground arith)
        (All-select_self (λ c. not (written_of pass sha c)) q.collected),
  )

  forget_all-keeps :
      (others : List String) (q : Queue)
      → IsForgotten pass sha q
      → IsForgotten pass sha (executemany (forget pass) others q)
  forget_all-keeps [] q h = h
  forget_all-keeps (o ∷ others) q h =
      forget_all-keeps others (forget pass o q)
        (All-select _ _ q.job h.0, All-select _ _ q.collected h.1)

  forget_all-IsForgotten :
      (reread : List String) (q : Queue)
      → any (str_eq sha) reread ≡ true
      → IsForgotten pass sha (executemany (forget pass) reread q)
  forget_all-IsForgotten [] q e = absurd (ground arith)
  forget_all-IsForgotten (o ∷ reread) q e = elim (Bool-cases (str_eq sha o)) [
    | inl same ↦
        forget_all-keeps reread (forget pass o q) (rw (← (eq_iff sha o).0 same) (forget_self q))
    | inr other ↦ forget_all-IsForgotten reread (forget pass o q) (rw other at e)
  ]

  insert_pages-IsNew :
      (t : ℕ) (pages : List (String × ℕ)) (s : ℕ × List Job)
      → All (IsNew pass sha) s.1
      → All (IsNew pass sha) (executemany (insert_page t pass) pages s).1
  insert_pages-IsNew t [] s h = h
  insert_pages-IsNew t ((other, page) ∷ pages) (n, jobs) h =
      insert_pages-IsNew t pages (insert_page t pass (other, page) (n, jobs))
        (elim (Bool-cases (any (same_page pass other page) jobs)) [
          | inl there ↦ rw there h
          | inr fresh ↦ rw (fresh, insert_page) (All-append _ jobs _ h ((λ e. (refl, refl)), tt))
        ])

-- A document that a seed reads again starts over: whatever its pages were, each row that it has is
-- pending with no attempt spent, and it no longer counts as collected.
pub seed-reread :
    (t : ℕ) (pass sha : String) (pages : List (String × ℕ)) (reread : List String) (q : Queue)
    → any (str_eq sha) reread ≡ true
    → All (IsNew pass sha) (seed t pass pages reread q).1.job
      × (any (written_of pass sha) (seed t pass pages reread q).1.collected ≡ false)
unfolding seed
seed-reread t pass sha pages reread q e =
    let q' = executemany (forget pass) reread q in
    let gone = forget_all-IsForgotten pass sha reread q e in
    (
      insert_pages-IsNew pass sha t pages (0, q'.job) gone.0,
      any-false_of_All (written_of pass sha) q'.collected gone.1,
    )
