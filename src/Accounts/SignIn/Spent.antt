-- ===== src/Accounts/SignIn/Spent.antt =====
-- src/docketyard/citator/signin.py: a link that is pressed is spent for good.
use docket_yard.Prelude.{
  ℕ, ◌≤◌, ◌≡◌, ◌≢◌, refl, String, false, Option, none, some, List, [], ◌∷◌, All, All-imp,
  Bool-cases, inl, inr, arith, str_eq, eq_iff,
}
use docket_yard.Prelude.Table.{count, update_where}
use docket_yard.Accounts.SignIn.{Token, Accounts, is_pending, sign_in}
use docket_yard.Accounts.SignIn.Keeps.{
  Call, asks, presses, leaves, ends, sweeps, withdraws, perform_all, perform_all-Holds, Inserts,
  sign_in-After,
}

-- No link of this hash can be pressed from the time on.
abbrev pub IsDeadRow : ℕ → String → Token → Type 0
IsDeadRow t k r = is_pending t k r ≡ false

uses-IsDeadRow :
    (t : ℕ) (k : String) (t₀ : ℕ) (r : Token)
    → IsDeadRow t k r
    → IsDeadRow t k (record r { used_at = some t₀ })
uses-IsDeadRow t k t₀ r h = ground arith

-- Nothing is pending, and so nothing is counted or spent.
count-dead :
    (t : ℕ) (k : String) (rs : List Token) → All (IsDeadRow t k) rs → count (is_pending t k) rs ≡ 0
count-dead t k [] h = refl
count-dead t k (r ∷ rs) h = rw (h.0) (count-dead t k rs h.1)

update-dead :
    (t : ℕ) (k : String) (f : Token → Token) (rs : List Token)
    → All (IsDeadRow t k) rs
    → update_where (is_pending t k) f rs ≡ rs
update-dead t k f [] h = refl
update-dead t k f (r ∷ rs) h = rw (h.0, update-dead t k f rs h.1)

spent-dead :
    (t t' : ℕ) (k : String) (rs : List Token)
    → t ≤ t'
    → All (IsDeadRow t' k) (update_where (is_pending t k) (λ r. record r { used_at = some t }) rs)
spent-dead t t' k [] le = tt
spent-dead t t' k (r ∷ rs) le = elim (Bool-cases (is_pending t k r)) [
  | inl now ↦ rw now (ground arith, spent-dead t t' k rs le)
  | inr never ↦ rw never (ground arith, spent-dead t t' k rs le)
]

-- A call that mails no link of the hash.
abbrev pub MailsOther : (String → String) → String → Call → Type 0
MailsOther token_hash k (asks t fresh email) = token_hash fresh ≢ k
MailsOther token_hash k _ = Unit

module _ (token_hash email_hash : String → String) (t t' : ℕ) (token : String) where
  Inserts-dead :
      (c : Call)
      → MailsOther token_hash (token_hash token) c
      → Inserts token_hash email_hash
          (IsDeadRow t' (token_hash token))
          (uses-IsDeadRow t' (token_hash token))
          c
  Inserts-dead (asks t₀ fresh email) other = λ n.
      elim (Bool-cases (str_eq (token_hash fresh) (token_hash token))) [
        | inl same ↦ absurd (other ((eq_iff (token_hash fresh) (token_hash token)).0 same))
        | inr apart ↦ rw apart
      ]
  Inserts-dead (presses t₀ pressed fresh) other = λ n. ground arith
  Inserts-dead (leaves token) other = tt
  Inserts-dead (ends n) other = tt
  Inserts-dead (sweeps t₀) other = tt
  Inserts-dead (withdraws t₀ n) other = tt

  pressed-dead :
      (fresh : String) (a a' : Accounts) (answer : Option String)
      → t ≤ t'
      → sign_in token_hash email_hash t token fresh a ≡ some (answer, a')
      → All (IsDeadRow t' (token_hash token)) a'.reviewer_token
  pressed-dead fresh a a' answer le e =
      let k = token_hash token in
      let kept =
        sign_in-After token_hash email_hash (IsDeadRow t' k) (uses-IsDeadRow t' k) t token fresh a
          (λ n. ground arith) (spent-dead t t' k a.reviewer_token le) in
      rw e at kept

  dead-refused :
      (fresh : String) (a : Accounts)
      → All (IsDeadRow t' (token_hash token)) a.reviewer_token
      → sign_in token_hash email_hash t' token fresh a ≡ some (none, a)
  unfolding sign_in
  dead-refused fresh a h = rw (
    count-dead t' (token_hash token) a.reviewer_token h,
    update-dead t' (token_hash token) (λ r. record r { used_at = some t' }) a.reviewer_token h,
  )

  all-Inserts-dead :
      (cs : List Call)
      → All (MailsOther token_hash (token_hash token)) cs
      → All
          (Inserts token_hash email_hash
            (IsDeadRow t' (token_hash token))
            (uses-IsDeadRow t' (token_hash token)))
          cs
  all-Inserts-dead cs others = All-imp _ _ cs Inserts-dead others

  -- A link that was pressed once, whatever came of it, opens no second session: after any calls
  -- that do not mail a link of the same hash, pressing it again at any later time answers none and
  -- changes nothing.
  pub sign_in_again :
      (fresh fresh' : String) (a a' : Accounts) (answer : Option String) (cs : List Call)
      → t ≤ t'
      → sign_in token_hash email_hash t token fresh a ≡ some (answer, a')
      → All (MailsOther token_hash (token_hash token)) cs
      → sign_in token_hash email_hash t' token fresh' (perform_all token_hash email_hash cs a')
        ≡ some (none, perform_all token_hash email_hash cs a')
  sign_in_again fresh fresh' a a' answer cs le e others =
      dead-refused fresh' (perform_all token_hash email_hash cs a') (
        perform_all-Holds token_hash email_hash (IsDeadRow t' (token_hash token))
          (uses-IsDeadRow t' (token_hash token)) cs a' (all-Inserts-dead cs others)
          (pressed-dead fresh a a' answer le e))
