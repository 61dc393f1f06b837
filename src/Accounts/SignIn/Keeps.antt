-- ===== src/Accounts/SignIn/Keeps.antt =====
-- src/docketyard/citator/signin.py: the calls as one machine, and what it keeps of every token's row.
use docket_yard.Prelude.{
  ℕ, String, ◌&&◌, Option, none, some, List, [], ◌∷◌, All, All-append, Bool-cases, inl, inr, str_eq,
  ◌==◌,
}
use docket_yard.Prelude.Table.{any, find, count, update_where, All-select, All-update}
use docket_yard.Accounts.SignIn.{
  Grant, Purpose, Token, Accounts, is_live, hashed, token_row, mint, grant_of, is_pending,
  answer_link, request_link, spend, close_link, admit_granted, admit, sign_in, sign_out,
  end_all_sessions, sweep, sign_in_ttl, session_ttl,
}

-- The calls, the operator's withdrawal of a grant among them.
pub data Call : Type 0 where
  asks : (t : ℕ) (fresh email : String) → Call
  presses : (t : ℕ) (token fresh : String) → Call
  leaves : Option String → Call
  ends : ℕ → Call
  sweeps : ℕ → Call
  withdraws : (t n : ℕ) → Call

-- An exception rolls back.
abbrev pub after_call : Accounts → Option (Option String × Accounts) → Accounts
after_call a none = a
after_call a (some (answer, a')) = a'

abbrev pub withdrawn : ℕ → ℕ → Accounts → Accounts
withdrawn t n a = record a {
  reviewer =
      update_where (λ (g : Grant). g.reviewer_id == n) (λ g. record g { revoked_at = some t })
        a.reviewer;
}

module _ (token_hash email_hash : String → String) where
  abbrev pub perform : Call → Accounts → Accounts
  perform (asks t fresh email) a = after_call a (request_link token_hash email_hash t fresh email a)
  perform (presses t token fresh) a = after_call a (sign_in token_hash email_hash t token fresh a)
  perform (leaves token) a = sign_out token_hash email_hash token a
  perform (ends n) a = (end_all_sessions n a).1
  perform (sweeps t) a = (sweep t a).1
  perform (withdraws t n) a = withdrawn t n a

  abbrev pub perform_all : List Call → Accounts → Accounts
  perform_all [] a = a
  perform_all (c ∷ cs) a = perform_all cs (perform c a)

  -- A property of rows that a press of a link does not end.
  module _ (Q : Token → Type 0)
      (uses : (t : ℕ) (r : Token) → Q r → Q (record r { used_at = some t })) where
    abbrev pub Holds : Accounts → Type 0
    Holds a = All Q a.reviewer_token

    -- The rows that a call may insert satisfy it.
    abbrev pub Inserts : Call → Type 0
    Inserts (asks t fresh email) =
        (n : ℕ) → Q (token_row t (token_hash fresh) n Purpose.sign_in_link sign_in_ttl)
    Inserts (presses t token fresh) =
        (n : ℕ) → Q (token_row t (token_hash fresh) n Purpose.session session_ttl)
    Inserts _ = Unit

    abbrev pub After : Option (Option String × Accounts) → Type 0
    After none = Unit
    After (some (answer, a')) = Holds a'

    abbrev Minted : Option Accounts → Type 0
    Minted none = Unit
    Minted (some a') = Holds a'

    mint-Holds :
        (t : ℕ) (k : String) (n : ℕ) (p : Purpose) (ttl : ℕ) (a : Accounts)
        → Q (token_row t k n p ttl)
        → Holds a
        → Minted (mint t k n p ttl a)
    unfolding mint
    mint-Holds t k n p ttl a row h = elim (Bool-cases (any (hashed k) a.reviewer_token)) [
      | inl held ↦ rw held tt
      | inr free ↦ rw free (All-append Q a.reviewer_token (token_row t k n p ttl ∷ []) h (row, tt))
    ]

    request_link-Holds :
        (t : ℕ) (fresh : String) (a : Accounts) (g : Option Grant)
        → ((n : ℕ) → Q (token_row t (token_hash fresh) n Purpose.sign_in_link sign_in_ttl))
        → Holds a
        → After (answer_link token_hash email_hash t fresh a g)
    request_link-Holds t fresh a none row h = h
    request_link-Holds t fresh a (some g) row h =
        answered (mint t (token_hash fresh) g.reviewer_id Purpose.sign_in_link sign_in_ttl a) (
          mint-Holds t (token_hash fresh) g.reviewer_id Purpose.sign_in_link sign_in_ttl a
            (row g.reviewer_id) h)
      where
        answered :
            (m : Option Accounts)
            → Minted m
            → After (elim m [ none ↦ none | some a' ↦ some (some fresh, a') ])
        answered none h = tt
        answered (some a') h = h

    admit-Holds :
        (t : ℕ) (token fresh : String) (a : Accounts) (r : Option Token)
        → ((n : ℕ) → Q (token_row t (token_hash fresh) n Purpose.session session_ttl))
        → Holds a
        → After (admit token_hash email_hash t token fresh a r)
    admit-Holds t token fresh a none row h = h
    admit-Holds t token fresh a (some r) row h = granted (grant_of r.reviewer_id a.reviewer)
      where
        closed :
            (m : Option Accounts)
            → Minted m
            → After (close_link token_hash email_hash token fresh m)
        closed none h = tt
        closed (some a') h = All-select Q _ a'.reviewer_token h

        granted : (g : Option Grant) → After (admit_granted token_hash email_hash t token fresh a g)
        granted none = h
        granted (some g) =
            closed (mint t (token_hash fresh) g.reviewer_id Purpose.session session_ttl a) (
              mint-Holds t (token_hash fresh) g.reviewer_id Purpose.session session_ttl a
                (row g.reviewer_id) h)

    spend-Holds :
        (t : ℕ) (token : String) (a : Accounts)
        → Holds a
        → Holds (spend token_hash email_hash t token a)
    spend-Holds t token a h =
        All-update Q (is_pending t (token_hash token)) _ a.reviewer_token (λ r e q. uses t r q) h

    After-Holds :
        (a : Accounts) (r : Option (Option String × Accounts))
        → Holds a
        → After r
        → Holds (after_call a r)
    After-Holds a none h k = h
    After-Holds a (some (answer, a')) h k = k

    -- Whatever the rows were, it is enough that they satisfy it once the link is spent.
    pub sign_in-After :
        (t : ℕ) (token fresh : String) (a : Accounts)
        → ((n : ℕ) → Q (token_row t (token_hash fresh) n Purpose.session session_ttl))
        → Holds (spend token_hash email_hash t token a)
        → After (sign_in token_hash email_hash t token fresh a)
    unfolding sign_in
    sign_in-After t token fresh a row h =
        let spent = spend token_hash email_hash t token a in
        elim (Bool-cases (count (is_pending t (token_hash token)) a.reviewer_token == 1)) [
          | inl one ↦ rw one (
              admit-Holds t token fresh spent
                (find (hashed (token_hash token)) spent.reviewer_token) row h)
          | inr none_spent ↦ rw none_spent h
        ]

    sign_out-Holds :
        (token : Option String) (a : Accounts)
        → Holds a
        → Holds (sign_out token_hash email_hash token a)
    unfolding sign_out
    sign_out-Holds none a h = h
    sign_out-Holds (some token) a h = elim (Bool-cases (str_eq token "")) [
      | inl blank ↦ rw blank h
      | inr named ↦ rw named (All-select Q _ a.reviewer_token h)
    ]

    pub perform-Holds : (c : Call) (a : Accounts) → Inserts c → Holds a → Holds (perform c a)
    unfolding request_link end_all_sessions sweep
    perform-Holds (asks t fresh email) a row h =
        After-Holds a (request_link token_hash email_hash t fresh email a) h (
          request_link-Holds t fresh a
            (find (λ (g : Grant). str_eq g.email_hash (email_hash email) && is_live g) a.reviewer)
            row h)
    perform-Holds (presses t token fresh) a row h =
        After-Holds a (sign_in token_hash email_hash t token fresh a) h
          (sign_in-After t token fresh a row (spend-Holds t token a h))
    perform-Holds (leaves token) a row h = sign_out-Holds token a h
    perform-Holds (ends n) a row h = All-select Q _ a.reviewer_token h
    perform-Holds (sweeps t) a row h = All-select Q _ a.reviewer_token h
    perform-Holds (withdraws t n) a row h = h

    pub perform_all-Holds :
        (cs : List Call) (a : Accounts) → All Inserts cs → Holds a → Holds (perform_all cs a)
    perform_all-Holds [] a rows h = h
    perform_all-Holds (c ∷ cs) a rows h =
        perform_all-Holds cs (perform c a) rows.1 (perform-Holds c a rows.0 h)
