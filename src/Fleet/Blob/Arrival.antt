-- ===== src/Fleet/Blob/Arrival.antt =====
-- tools/fleet/pagequeue.py, `RemoteQueue.blob_into`: what a blob that arrives is, and whose fault
-- one that does not is.
use docket_yard.Prelude.{◌≡◌, refl, String, true, ◌⊎◌, inl, inr, ◌↔◌, List, arith, eq_iff}
use docket_yard.Fleet.Blob.{
  Answer, body, status, broken, got, missing, unavailable, is_sha256, blob_into,
}

-- A file is kept exactly for an answer whose bytes have the digest that was asked for, under a name
-- that is a SHA-256 in lower-case hexadecimal: no other answer of the node leaves one.
pub blob_into-got :
    (hexdigest : List String → String) (sha : String) (answer : Answer) (chunks : List String)
    → (blob_into hexdigest sha answer ≡ got chunks)
      ↔ ((answer ≡ body chunks) × (hexdigest chunks ≡ sha) × (is_sha256 sha ≡ true))
unfolding blob_into
blob_into-got hexdigest sha (body chunks') chunks = (
  λ e. ground (arith, eq_iff (hexdigest chunks') sha),
  λ h. ground (arith, h.0, h.1, h.2, eq_iff (hexdigest chunks') sha),
)
blob_into-got hexdigest sha (status code detail) chunks =
    (λ e. ground arith, λ h. ground (arith, h.0))
blob_into-got hexdigest sha broken chunks = (λ e. ground arith, λ h. ground (arith, h.0))

-- The fault follows the answer. For a well-formed name the document is to blame exactly for a 404, and
-- the environment, which stops the worker and charges no page, exactly for a 503 or no answer.
pub blob_into-fault :
    (hexdigest : List String → String) (sha : String) (answer : Answer)
    → is_sha256 sha ≡ true
    → ((blob_into hexdigest sha answer ≡ missing)
        ↔ ((detail : String) × (answer ≡ status 404 detail)))
      × ((blob_into hexdigest sha answer ≡ unavailable)
          ↔ ((answer ≡ broken) ⊎ ((detail : String) × (answer ≡ status 503 detail))))
unfolding blob_into
blob_into-fault hexdigest sha (body chunks) named = (
  (λ e. absurd (ground arith), λ (d, h). absurd (ground arith)),
  (λ e. absurd (ground arith), λ h. absurd (ground arith)),
)
blob_into-fault hexdigest sha (status code detail) named = (
  (λ e. (detail, ground arith), λ (d, h). ground arith),
  (λ e. inr (detail, ground arith), λ h. ground arith),
)
blob_into-fault hexdigest sha broken named = (
  (λ e. absurd (ground arith), λ (d, h). absurd (ground arith)),
  (λ e. inl refl, λ h. ground arith),
)
