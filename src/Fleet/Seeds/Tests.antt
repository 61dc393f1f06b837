-- ===== src/Fleet/Seeds/Tests.antt =====
-- A run of tools/fleet/pagequeue.py, `seed_from_list`, on a small tree.
use docket_yard.Prelude.{false, none, some, [], ◌∷◌, All}
use docket_yard.Fleet.Rows.{empty}
use docket_yard.Fleet.Passes.{reread}
use docket_yard.Fleet.Seeds.{Tree, seed_listed, each, opening}
use docket_yard.Fleet.Seeds.Routed.{IsRouted, seed_listed-IsRouted}

abbrev tree : Tree
tree = record {
  routes =
      record {
        root = "route-reread";
        document_sha256 = "aa";
        pages = (1, some "clean") ∷ (2, none) ∷ (3, some "tabular") ∷ [];
      }
      ∷ record { root = "route"; document_sha256 = "bb"; pages = (1, some "degraded") ∷ [] }
      ∷ [];
  readings = [];
}

seed_listed-IsRouted_example :
    All
      (IsRouted reread tree)
      (each
        (seed_listed "reread" reread false empty)
        (("aa", 1 ∷ 2 ∷ 3 ∷ []) ∷ ("bb", 1 ∷ []) ∷ [])
        (opening tree)).pages
seed_listed-IsRouted_example =
    seed_listed-IsRouted "reread" reread false empty tree
      (("aa", 1 ∷ 2 ∷ 3 ∷ []) ∷ ("bb", 1 ∷ []) ∷ [])
