-- ===== src/Accounts/SignIn.antt =====
-- src/docketyard/citator/signin.py: the links that are mailed to a reviewer and the sessions that they
-- mint. A random token is an argument of the call that mints it; the hash of a token and that of an
-- address, which the vault keys, are parameters. `t` is the time of the call, in seconds.
pub mod Keeps
pub mod Spent
pub mod Lives
pub mod Reads
mod Tests
use docket_yard.Prelude.{
  ℕ, ◌+◌, ◌*◌, String, Bool, true, false, not, ◌&&◌, Option, none, some, List, [], ◌∷◌, ◌++◌,
  str_eq, ltb, leb, ◌==◌, if◌then◌else◌,
}
use docket_yard.Prelude.Table.{any, find, count, update_where, delete_where}
use docket_yard.Fleet.Rows.{is_some}

-- table `reviewer`, the columns that signing in reads
pub record Grant : Type 0 where
  pub reviewer_id : ℕ
  pub email_hash : String
  pub credit_name : String
  pub counts_public : Bool
  pub revoked_at : Option ℕ

-- The column `purpose`, which src/docketyard/store/0017_reviewer_sessions.sql adds.
pub data Purpose : Type 0 where
  sign_in_link session : Purpose

-- table `reviewer_token`: what `_mint` inserts, and `used_at`, which it leaves NULL
pub record Token : Type 0 where
  pub token_hash : String
  pub reviewer_id : ℕ
  pub purpose : Purpose
  pub expires_at : ℕ
  pub issued_at : ℕ
  pub used_at : Option ℕ

pub record Accounts : Type 0 where
  pub reviewer : List Grant
  pub reviewer_token : List Token

-- Who is signed in: never the address.
pub record Reviewer : Type 0 where
  pub reviewer_id : ℕ
  pub credit_name : String
  pub counts_public : Bool

abbrev pub sign_in_ttl_minutes : ℕ
sign_in_ttl_minutes = 20

abbrev pub session_ttl_hours : ℕ
session_ttl_hours = 12

abbrev pub sign_in_ttl : ℕ
sign_in_ttl = sign_in_ttl_minutes * 60

abbrev pub session_ttl : ℕ
session_ttl = session_ttl_hours * 3600

abbrev pub is_link : Purpose → Bool
is_link sign_in_link = true
is_link session = false

abbrev pub is_session : Purpose → Bool
is_session sign_in_link = false
is_session session = true

abbrev pub is_live : Grant → Bool
is_live g = not (is_some g.revoked_at)

abbrev pub hashed : String → Token → Bool
hashed k r = str_eq r.token_hash k

abbrev pub token_row : ℕ → String → ℕ → Purpose → ℕ → Token
token_row t k reviewer_id purpose ttl = record {
  token_hash = k;
  reviewer_id = reviewer_id;
  purpose = purpose;
  expires_at = t + ttl;
  issued_at = t;
  used_at = none;
}

-- `_mint`: none is the IntegrityError of a hash that is held.
unfoldable pub mint : ℕ → String → ℕ → Purpose → ℕ → Accounts → Option Accounts
mint t k reviewer_id purpose ttl a =
    if any (hashed k) a.reviewer_token
    then none
    else some (record a {
      reviewer_token = a.reviewer_token ++ token_row t k reviewer_id purpose ttl ∷ [];
    })

abbrev pub reviewer_of : Grant → Reviewer
reviewer_of g = record {
  reviewer_id = g.reviewer_id;
  credit_name = g.credit_name;
  counts_public = g.counts_public;
}

-- The live grant of a number.
abbrev pub grant_of : ℕ → List Grant → Option Grant
grant_of n = find (λ (g : Grant). (g.reviewer_id == n) && is_live g)

abbrev pub as_reviewer : Option Grant → Option Reviewer
as_reviewer none = none
as_reviewer (some g) = some (reviewer_of g)

abbrev pub named_by : List Grant → Option Token → Option Reviewer
named_by grants none = none
named_by grants (some r) = as_reviewer (grant_of r.reviewer_id grants)

abbrev pub is_pending : ℕ → String → Token → Bool
is_pending t k r =
    hashed k r && (is_link r.purpose && (not (is_some r.used_at) && ltb t r.expires_at))

abbrev pub is_in_session : ℕ → String → Token → Bool
is_in_session t k r = hashed k r && (is_session r.purpose && ltb t r.expires_at)

module _ (token_hash email_hash : String → String) where
  -- The token is answered where the address has a live grant.
  abbrev pub answer_link : ℕ → String → Accounts → Option Grant → Option (Option String × Accounts)
  answer_link t fresh a none = some (none, a)
  answer_link t fresh a (some g) =
      elim (mint t (token_hash fresh) g.reviewer_id Purpose.sign_in_link sign_in_ttl a) [
        | none ↦ none
        | some a' ↦ some (some fresh, a')
      ]

  unfoldable pub request_link :
      ℕ → (fresh email : String) → Accounts → Option (Option String × Accounts)
  unfolding mint
  request_link t fresh email a =
      answer_link t fresh a
        (find (λ (g : Grant). str_eq g.email_hash (email_hash email) && is_live g) a.reviewer)

  unfoldable pub pending : ℕ → String → Accounts → Option Reviewer
  pending t token a = named_by a.reviewer (find (is_pending t (token_hash token)) a.reviewer_token)

  -- The UPDATE that spends a link.
  abbrev pub spend : ℕ → String → Accounts → Accounts
  spend t token a = record a {
    reviewer_token =
        update_where (is_pending t (token_hash token)) (λ r. record r { used_at = some t })
          a.reviewer_token;
  }

  -- The spent link is deleted once the session is minted.
  abbrev pub close_link :
      (token fresh : String) → Option Accounts → Option (Option String × Accounts)
  close_link token fresh none = none
  close_link token fresh (some a) = some (
    some fresh,
    record a { reviewer_token = delete_where (hashed (token_hash token)) a.reviewer_token },
  )

  abbrev pub admit_granted :
      ℕ → (token fresh : String) → Accounts → Option Grant → Option (Option String × Accounts)
  admit_granted t token fresh a none = some (none, a)
  admit_granted t token fresh a (some g) =
      close_link token fresh (mint t (token_hash fresh) g.reviewer_id Purpose.session session_ttl a)

  -- Once the link is spent: the session of the live grant that it names.
  abbrev pub admit :
      ℕ → (token fresh : String) → Accounts → Option Token → Option (Option String × Accounts)
  admit t token fresh a none = some (none, a)
  admit t token fresh a (some r) = admit_granted t token fresh a (grant_of r.reviewer_id a.reviewer)

  unfoldable pub sign_in : ℕ → (token fresh : String) → Accounts → Option (Option String × Accounts)
  unfolding mint
  sign_in t token fresh a =
      let spent = spend t token a in
      if count (is_pending t (token_hash token)) a.reviewer_token == 1
      then admit t token fresh spent (find (hashed (token_hash token)) spent.reviewer_token)
      else some (none, spent)

  unfoldable pub whoami : ℕ → Option String → Accounts → Option Reviewer
  whoami t none a = none
  whoami t (some token) a =
      if str_eq token ""
      then none
      else named_by a.reviewer (find (is_in_session t (token_hash token)) a.reviewer_token)

  unfoldable pub sign_out : Option String → Accounts → Accounts
  sign_out none a = a
  sign_out (some token) a = if str_eq token "" then a else record a {
    reviewer_token =
        delete_where (λ r. hashed (token_hash token) r && is_session r.purpose) a.reviewer_token;
  }

unfoldable pub end_all_sessions : ℕ → Accounts → ℕ × Accounts
end_all_sessions n a = (
  count (λ (r : Token). r.reviewer_id == n) a.reviewer_token,
  record a { reviewer_token = delete_where (λ (r : Token). r.reviewer_id == n) a.reviewer_token },
)

unfoldable pub sweep : ℕ → Accounts → ℕ × Accounts
sweep t a = (
  count (λ (r : Token). leb r.expires_at t) a.reviewer_token,
  record a { reviewer_token = delete_where (λ (r : Token). leb r.expires_at t) a.reviewer_token },
)
