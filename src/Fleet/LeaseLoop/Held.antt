-- ===== src/Fleet/LeaseLoop/Held.antt =====
-- tools/fleet/leaseloop.py: the bounds of a page's index, the one document on the scratch disk, and
-- what a document that does not arrive costs its page.
use docket_yard.Prelude.{
  ℕ, ◌+◌, ◌<◌, ◌≡◌, ◌↔◌, refl, ◌∙◌, String, Bool, true, false, not, some, List, arith, leb, eq_iff,
  if◌then◌else◌,
}
use docket_yard.Prelude.Text.{join}
use docket_yard.Fleet.Answers.Fail.{fail-row}
use docket_yard.Fleet.Rows.{State, Job, Queue, is_pending, is_failed, has_id, row, is_some}
use docket_yard.Fleet.Lease.{holds}
use docket_yard.Fleet.Answers.{fail_row}
use docket_yard.Fleet.Documents.{foreign}
use docket_yard.Fleet.Blob.{Blob}
use docket_yard.Fleet.LeaseLoop.{page_index, Fetched, path, path_of, keeps, document_back}

-- A page number gets an index exactly if it is one of the document's pages, and then the index is
-- in range and one below it: page 0 gets none, so the last page is never read for it.
pub page_index_iff :
    (page page_count i : ℕ)
    → (page_index page page_count ≡ some i) ↔ ((page ≡ i + 1) × (i < page_count))
unfolding page_index
page_index_iff page page_count i =
    ((λ e. (ground arith, ground arith)), λ h. ground (arith, h.0, h.1))

-- After a call for a document the disk holds that document or nothing: never the one before it. It
-- holds it exactly if the call gave it, and a second call then gives the same file without asking
-- the node, whatever the node would say.
pub path_of-held :
    (blob_into later : String → Blob) (sha : String) (f : Fetched) (chunks : List String)
    → ((path_of blob_into sha f).0 ≡ path chunks
        → path_of later sha (path_of blob_into sha f).1
          ≡ (path chunks, (path_of blob_into sha f).1))
      × (is_some (path_of blob_into sha f).1.held ≡ is_some (keeps sha (path_of blob_into sha f).1))
unfolding path_of
path_of-held blob_into later sha f chunks =
    (λ e. ground (arith, eq_iff sha sha), ground (arith, eq_iff sha sha))

-- A document that does not arrive never raises, costs its page the attempt of the claim and no
-- more, and is never the page's own fault: the page waits again while an attempt is left, and a page
-- that it fails makes its document one to be read again.
pub document_back-row :
    (t : ℕ) (name : String) (i : ℕ) (e : String) (q : Queue) (r : Job)
    → row i q.job ≡ some r
    → holds name i r ≡ true
    → (k : Job) × (row i (document_back t name i e q).job ≡ some k)
      × (k.attempts ≡ r.attempts)
      × (is_failed k.state ≡ leb r.max_attempts r.attempts)
      × (is_pending k.state ≡ not (leb r.max_attempts r.attempts))
      × (foreign k ≡ is_failed k.state)
unfolding document_back
document_back-row t name i e q r at held =
    let failed = leb r.max_attempts r.attempts in
    let k = fail_row t failed (join "blob: " e) r in
    let mine : has_id i r ≡ true = ground arith in
    (
      k,
      (fail-row t name i (join "blob: " e) q r at held i).1 ∙ rw (at, mine),
      refl,
      by_test failed,
      by_test' failed,
      blamed failed,
    )
  where
    by_test : (b : Bool) → is_failed (if b then State.failed else State.pending) ≡ b
    by_test true = refl
    by_test false = refl

    by_test' : (b : Bool) → is_pending (if b then State.failed else State.pending) ≡ not b
    by_test' true = refl
    by_test' false = refl

    blamed :
        (b : Bool)
        → foreign (fail_row t b (join "blob: " e) r)
          ≡ is_failed (if b then State.failed else State.pending)
    blamed true = refl
    blamed false = refl
