-- ===== src/Prelude/Text.antt =====
-- Texts as the program reads them: joined, cut at a length, tested for a prefix, and counted out.
use Prim.Native.Nat.{ℕ, zero, suc, ◌+◌, ◌/◌, ◌%◌, ◌≤◌}
use mathlib.Core.Path.{◌≡◌, refl}
use native.Mathlib.Omega.{arith}
use Prim.Native.Char.{code}
use Prim.Native.String.{String, compare}
use text.Mathlib.Text.{is_lt}
use mathlib.Core.Path.{◌≡◌, refl}
use mathlib.Core.Bool.{Bool, true, false, ◌&&◌, ◌||◌}
use docket_yard.Prelude.Tests.{◌==◌, ltb, leb, if◌then◌else◌}

-- `s + t`
abbrev pub join : String → String → String
join String.[] t = t
join (String.◌∷◌ c s) t = String.◌∷◌ c (join s t)

-- `s[:n]`
abbrev pub cut : ℕ → String → String
cut zero s = String.[]
cut (suc n) String.[] = String.[]
cut (suc n) (String.◌∷◌ c s) = String.◌∷◌ c (cut n s)

-- `s.startswith(p)`, the prefix first.
abbrev pub starts_with : String → String → Bool
starts_with String.[] s = true
starts_with (String.◌∷◌ c p) String.[] = false
starts_with (String.◌∷◌ c p) (String.◌∷◌ d s) = (code c == code d) && starts_with p s

-- SQLite's order of TEXT.
abbrev pub text_lt : String → String → Bool
text_lt s t = is_lt (compare s t)

digit : ℕ → String
digit n =
    if n == 0
    then "0"
    else if n == 1
    then "1"
    else if n == 2
    then "2"
    else if n == 3
    then "3"
    else if n == 4
    then "4"
    else if n == 5
    then "5"
    else if n == 6
    then "6"
    else if n == 7
    then "7"
    else if n == 8
    then "8"
    else "9"

digits : ℕ → ℕ → String → String
unfolding digit
digits zero n acc = acc
digits (suc fuel) n acc =
    let rest = digits fuel (n / 10) (join (digit (n % 10)) acc) in
    if ltb n 10 then join (digit n) acc else rest

-- A number in decimal. A number has fewer digits than it counts to, so its successor is fuel enough.
unfoldable pub decimal : ℕ → String
unfolding digits
decimal n = digits (suc n) n ""

abbrev lower : ℕ → ℕ
lower c = if leb 65 c && leb c 90 then c + 32 else c

-- `s LIKE p || '%'`, for a `p` with no wildcard: SQLite's LIKE takes A to Z as a to z.
abbrev pub like_prefix : String → String → Bool
like_prefix String.[] s = true
like_prefix (String.◌∷◌ c p) String.[] = false
like_prefix (String.◌∷◌ c p) (String.◌∷◌ d s) =
    (lower (code c) == lower (code d)) && like_prefix p s

abbrev pub count_chars : String → ℕ
count_chars String.[] = 0
count_chars (String.◌∷◌ c s) = suc (count_chars s)

-- Every character is one of 0123456789abcdef.
abbrev pub is_hex : String → Bool
is_hex String.[] = true
is_hex (String.◌∷◌ c s) =
    ((leb b'0' (code c) && leb (code c) b'9') || (leb b'a' (code c) && leb (code c) b'f'))
    && is_hex s

-- A prefix outlives a cut that is no shorter, and LIKE finds every prefix.
pub starts_with-cut :
    (p s : String) (n : ℕ)
    → count_chars p ≤ n
    → starts_with p s ≡ true
    → starts_with p (cut n s) ≡ true
starts_with-cut String.[] s n le h = refl
starts_with-cut (String.◌∷◌ c p) String.[] n le h = absurd (ground arith)
starts_with-cut (String.◌∷◌ c p) (String.◌∷◌ d s) zero le h = absurd (omega arith)
starts_with-cut (String.◌∷◌ c p) (String.◌∷◌ d s) (suc n) le h =
    ground (arith, starts_with-cut p s n (omega arith))

pub like_prefix-starts_with : (p s : String) → starts_with p s ≡ true → like_prefix p s ≡ true
like_prefix-starts_with String.[] s h = refl
like_prefix-starts_with (String.◌∷◌ c p) String.[] h = absurd (ground arith)
like_prefix-starts_with (String.◌∷◌ c p) (String.◌∷◌ d s) h =
    ground (arith, like_prefix-starts_with p s)
