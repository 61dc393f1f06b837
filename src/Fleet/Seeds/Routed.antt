-- ===== src/Fleet/Seeds/Routed.antt =====
-- tools/fleet/pagequeue.py, `seed_from_list`: which pages of a list reach the queue.
use docket_yard.Prelude.{
  ℕ, ◌≡◌, refl, ◌∙◌, ap, String, Bool, true, false, Option, List, [], ◌∷◌, map, length, All,
  All-append, All-map, All-imp, Bool-cases, inl, inr, arith, ◌==◌,
}
use docket_yard.Prelude.Table.{any, select, All-select_self}
use docket_yard.Fleet.Rows.{Queue}
use docket_yard.Fleet.Passes.{Spec}
use docket_yard.Fleet.Documents.{known, pages_held}
use docket_yard.Fleet.Seeds.{
  RouteFile, Tree, is_route, routed_pages, Seeding, decide, queue_pages, within, owed_pages,
  never_held, wave_roots, seed_listed, each, opening, top_up, listed_too, unrouted_too,
}

-- A page that the pass may queue: its own route file gives it a class, and no wave has routed its
-- document.
abbrev pub IsRouted : Spec → Tree → String × ℕ → Type 0
IsRouted spec tree (sha, page_no) =
    (within (routed_pages tree spec.route_root sha) page_no ≡ true)
    × (any (λ root. any (is_route root sha) tree.routes) (wave_roots spec) ≡ false)

module _ (pass : String) (spec : Spec) (dry_run : Bool) (q : Queue) (tree : Tree) where
  -- The routes are those of the tree, and the pages so far may be queued.
  record IsSound (s : Seeding) : Type 0 where
    routes : s.tree.routes ≡ tree.routes
    allowed : All (IsRouted spec tree) s.pages

  decide-routes :
      (sha : String) (s : Seeding)
      → ((decide (known pass sha q) spec dry_run sha s).1.tree.routes ≡ s.tree.routes)
        × ((decide (known pass sha q) spec dry_run sha s).1.pages ≡ s.pages)
  unfolding decide
  decide-routes sha s = ground arith

  queue_pages-IsSound :
      (sha : String) (routed wanted : List ℕ) (held : Option (List ℕ)) (s : Seeding)
      → routed ≡ routed_pages tree spec.route_root sha
      → any (λ root. any (is_route root sha) tree.routes) (wave_roots spec) ≡ false
      → IsSound s
      → IsSound (queue_pages sha (owed_pages routed held wanted) s)
  queue_pages-IsSound sha routed wanted held s its_own unrouted h =
      let nos = owed_pages routed held wanted in
      let inside : All (λ page_no. within routed page_no ≡ true) nos =
        All-select_self (within routed) _ in
      record {
        routes = h.routes;
        allowed =
            All-append (IsRouted spec tree) s.pages (map (λ page_no. (sha, page_no)) nos) h.allowed
              (All-map (IsRouted spec tree) (λ page_no. (sha, page_no)) nos
                (All-imp _ _ nos (λ page_no e. (rw its_own at e, unrouted)) inside));
      }

  same_sound :
      (s s' : Seeding)
      → s'.tree.routes ≡ s.tree.routes
      → s'.pages ≡ s.pages
      → IsSound s
      → IsSound s'
  same_sound s s' r p h = record { routes = r ∙ h.routes; allowed = rw p h.allowed }

  routed-tree :
      (s : Seeding) (sha : String)
      → IsSound s
      → routed_pages s.tree spec.route_root sha ≡ routed_pages tree spec.route_root sha
  routed-tree s sha h =
      ap
        (λ (files : List RouteFile).
          routed_pages (record tree { routes = files }) spec.route_root sha)
        h.routes

  unrouted-tree :
      (s : Seeding) (sha : String)
      → IsSound s
      → any (λ root. any (is_route root sha) s.tree.routes) (wave_roots spec) ≡ false
      → any (λ root. any (is_route root sha) tree.routes) (wave_roots spec) ≡ false
  unrouted-tree s sha h e = rw h.routes at e

  top_up-routes :
      (sha : String) (s : Seeding) → (top_up spec dry_run sha s).tree.routes ≡ s.tree.routes
  top_up-routes sha s = elim (Bool-cases dry_run) [ inl e ↦ rw e | inr e ↦ rw e ]

  seed_listed-IsSound :
      (d : String × List ℕ) (s : Seeding)
      → IsSound s
      → IsSound (seed_listed pass spec dry_run q d s)
  unfolding seed_listed
  seed_listed-IsSound (sha, listed) s h =
      let routed = routed_pages s.tree spec.route_root sha in
      let s₂ = unrouted_too routed listed (listed_too listed s) in
      let s₃ = (decide (known pass sha q) spec dry_run sha s₂).1 in
      let kept = decide-routes sha s₂ in
      let its_own = routed-tree s sha h in
      let wanted = select (within routed) listed in
      let held = pages_held pass sha q in
      elim (Bool-cases (length routed == 0)) [
        | inl e₁ ↦ rw e₁ (same_sound s _ refl refl h)
        | inr e₁ ↦
            elim (Bool-cases
              (any (λ root. any (is_route root sha) s.tree.routes) (wave_roots spec))) [
                | inl e₂ ↦ rw (e₁, e₂) (same_sound s _ refl refl h)
                | inr e₂ ↦ elim (Bool-cases (length wanted == 0)) [
                  | inl e₃ ↦ rw (e₁, e₂, e₃) (same_sound s s₂ refl refl h)
                  | inr e₃ ↦ elim (Bool-cases (never_held held wanted)) [
                    | inl e₄ ↦
                        rw (e₁, e₂, e₃, e₄)
                          (queue_pages-IsSound sha routed wanted held (top_up spec dry_run sha s₂)
                            its_own (unrouted-tree s sha h e₂)
                            (same_sound s (top_up spec dry_run sha s₂) (top_up-routes sha s₂) refl
                              h))
                    | inr e₄ ↦ elim (Bool-cases (decide (known pass sha q) spec dry_run sha s₂).0) [
                      | inl e₅ ↦
                          rw (e₁, e₂, e₃, e₄, e₅)
                            (queue_pages-IsSound sha routed wanted held s₃ its_own
                              (unrouted-tree s sha h e₂) (same_sound s s₃ kept.0 kept.1 h))
                      | inr e₅ ↦ rw (e₁, e₂, e₃, e₄, e₅) (same_sound s s₃ kept.0 kept.1 h)
                    ]
                  ]
                ]
              ]
      ]

  each-IsSound :
      (wanted : List (String × List ℕ)) (s : Seeding)
      → IsSound s
      → IsSound (each (seed_listed pass spec dry_run q) wanted s)
  each-IsSound [] s h = h
  each-IsSound (d ∷ wanted) s h =
      each-IsSound wanted (seed_listed pass spec dry_run q d s) (seed_listed-IsSound d s h)

  -- Every page that a page list queues, of a document never held, topped up or read again, is one that
  -- the pass's own route file gives a class, of a document that no wave has routed.
  pub seed_listed-IsRouted :
      (wanted : List (String × List ℕ))
      → All
          (IsRouted spec tree)
          (each (seed_listed pass spec dry_run q) wanted (opening tree)).pages
  seed_listed-IsRouted wanted =
      (each-IsSound wanted (opening tree) (record { routes = refl; allowed = tt })).allowed
