-- ===== src/Fleet/Blob.antt =====
-- tools/fleet/pagequeue.py, `RemoteQueue.blob_into`, with the three classes of a blob that does not
-- arrive. The network and the digest are parameters.
pub mod Arrival
mod Tests
use docket_yard.Prelude.{
  ℕ, String, Bool, true, false, not, ◌&&◌, ◌||◌, Option, none, some, List, [], ◌∷◌, leb, ◌==◌,
  str_eq, if◌then◌else◌,
}
use docket_yard.Prelude.Text.{is_hex, count_chars}

-- What the node answers: a body in chunks, an HTTP status with its detail, or no answer (a timeout,
-- a refused connection, a body that stopped early).
pub data Answer : Type 0 where
  body : (chunks : List String) → Answer
  status : (code : ℕ) (detail : String) → Answer
  broken : Answer

-- How the call ends: the chunks written to the file, one of the three exceptions, or the HTTP error
-- passed on. Only `got` leaves a file behind: every other end unlinks it, or never opened it.
pub data Blob : Type 0 where
  got : (chunks : List String) → Blob
  missing corrupt unavailable : Blob
  http_error : (code : ℕ) → Blob

-- len(sha) == 64 and not set(sha) - HEX64
abbrev pub is_sha256 : String → Bool
is_sha256 sha = (count_chars sha == 64) && is_hex sha

abbrev refused : ℕ → Blob
refused code =
    if code == 404
    then missing
    else if code == 502
    then corrupt
    else if code == 503
    then unavailable
    else http_error code

-- `hexdigest` is SHA-256 over the chunks, in hexadecimal.
unfoldable pub blob_into : (hexdigest : List String → String) → String → Answer → Blob
blob_into hexdigest sha answer = if not (is_sha256 sha) then missing else elim answer [
  | body chunks ↦ if str_eq (hexdigest chunks) sha then got chunks else corrupt
  | status code detail ↦ refused code
  | broken ↦ unavailable
]
