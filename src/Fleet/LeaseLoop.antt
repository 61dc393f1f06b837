-- ===== src/Fleet/LeaseLoop.antt =====
-- tools/fleet/leaseloop.py: what both lease loops do the same way. The node's blobs are a parameter.
pub mod Held
mod Tests
use docket_yard.Prelude.{
  ℕ, ◌-◌, String, Bool, true, false, Option, none, some, List, [], ◌∷◌, leb, ◌&&◌, str_eq, drop,
  if◌then◌else◌,
}
use docket_yard.Prelude.Text.{join}
use docket_yard.Fleet.Rows.{Queue, Producer}
use docket_yard.Fleet.Lease.{Result, ok, err, register, release}
use docket_yard.Fleet.Answers.{fail}
use docket_yard.Fleet.Blob.{Blob, got, missing, corrupt, unavailable, http_error}

abbrev exit_environment : ℕ
exit_environment = 4

-- The index, or `none` for DocumentFailed.
unfoldable pub page_index : ℕ → ℕ → Option ℕ
page_index page page_count = if leb 1 page && leb page page_count then some (page - 1) else none

-- The exit status, if the worker is to stop, and the queue.
unfoldable pub register_or_exit : ℕ → String → String → Producer → Queue → Option ℕ × Queue
register_or_exit t name pass producer q = elim (register t name pass producer q) [
  | ok q' ↦ (none, q')
  | err e ↦ (some exit_environment, q)
]

-- The document held, by its sha, with its chunks; the file of a `Fetched` is on disk exactly while
-- one is held, so the disk is the same option.
pub record Fetched : Type 0 where
  pub held : Option (String × List String)

-- How `path_of` ends: the document, DocumentFailed, or the exception that rises.
pub data PathOf : Type 0 where
  path : (chunks : List String) → PathOf
  document_failed rises : PathOf

abbrev pub keeps : String → Fetched → Option (List String)
keeps sha f = elim f.held [
  | none ↦ none
  | some (name, chunks) ↦ if str_eq name sha then some chunks else none
]

abbrev drop_held : Fetched → Fetched
drop_held f = record f { held = none }

unfoldable pub path_of : (String → Blob) → String → Fetched → PathOf × Fetched
path_of blob_into sha f = elim (keeps sha f) [
  | some chunks ↦ (path chunks, f)
  | none ↦
      let dropped = drop_held f in
      elim (blob_into sha) [
        | got chunks ↦ (path chunks, record dropped { held = some (sha, chunks) })
        | missing ↦ (document_failed, dropped)
        | corrupt ↦ (document_failed, dropped)
        | unavailable ↦ (rises, dropped)
        | http_error code ↦ (rises, dropped)
      ]
]

-- `document_failed`: the page goes back with its attempt spent.
unfoldable pub document_back : ℕ → String → ℕ → String → Queue → Queue
document_back t name job_id e q = (fail t name job_id (join "blob: " e) false q).1

-- `node_unavailable`: the exit status, and the queue, which is as it was if the release did not land.
unfoldable pub node_unavailable : Bool → String → List ℕ → ℕ → Queue → ℕ × Queue
node_unavailable lands name ids i q =
    (exit_environment, if lands then release name (drop i ids) q else q)
