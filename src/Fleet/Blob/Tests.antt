-- ===== src/Fleet/Blob/Tests.antt =====
-- The theorems on blobs, at an answer of two chunks and at a 503.
use Prim.Native.String.{String}
use docket_yard.Prelude.{List, [], ◌∷◌}

abbrev sha : String
sha = "0123456789abcdef0123456789abcdef0123456789abcdef0123456789abcdef"

-- A digest that is the first chunk.
abbrev hexdigest : List String → String
hexdigest [] = ""
hexdigest (c ∷ cs) = c
