-- ===== src/Accounts/SignIn/Lives.antt =====
-- src/docketyard/citator/signin.py: how long a link and a session live, and what ends them.
use docket_yard.Prelude.{
  ℕ, ◌+◌, ◌<◌, ◌≡◌, ◌≢◌, refl, sym, ◌∙◌, ap, String, Bool, true, false, not, ◌&&◌, ◌||◌, Option,
  none, some, List, [], ◌∷◌, All, All-intro, All-imp, Bool-cases, Option-cases, inl, inr, arith,
  str_eq, eq_iff, ltb, ◌*◌, ◌==◌,
}
use mathlib.Core.Bool.{false≢true}
use docket_yard.Prelude.Table.{
  any, any-of_find, All-any, All-select_self, find, find-true, All-find, update_where,
}
use docket_yard.Fleet.Rows.{is_some}
use docket_yard.Accounts.SignIn.{
  Grant, Purpose, sign_in_link, session, Token, Accounts, Reviewer, is_session, is_live, grant_of,
  named_by, as_reviewer, reviewer_of, is_in_session, whoami, sign_in_ttl, session_ttl,
  end_all_sessions, token_row,
}
use docket_yard.Accounts.SignIn.Keeps.{
  Call, asks, presses, leaves, ends, sweeps, withdraws, withdrawn, perform_all, perform_all-Holds,
  Inserts,
}

abbrev ttl : Purpose → ℕ
ttl sign_in_link = sign_in_ttl
ttl session = session_ttl

-- A row expires when its purpose says, and not later.
abbrev HasTtl : Token → Type 0
HasTtl r = r.expires_at ≡ r.issued_at + ttl r.purpose

uses-HasTtl : (t : ℕ) (r : Token) → HasTtl r → HasTtl (record r { used_at = some t })
uses-HasTtl t r h = h

session-lt :
    (t : ℕ) (k : String) (row : Token) (p : Purpose)
    → row.purpose ≡ p
    → is_in_session t k row ≡ true
    → HasTtl row
    → t < row.issued_at + session_ttl
session-lt t k row sign_in_link e met lives =
    let link : is_session row.purpose ≡ false = rw e in absurd (ground arith)
session-lt t k row session e met lives =
    let life : ttl row.purpose ≡ session_ttl = rw e in
    let ends_at : row.expires_at ≡ row.issued_at + session_ttl = rw (lives, life) in ground arith

module _ (token_hash email_hash : String → String) where
  Inserts-HasTtl : (c : Call) → Inserts token_hash email_hash HasTtl uses-HasTtl c
  Inserts-HasTtl (asks t fresh email) = λ n. refl
  Inserts-HasTtl (presses t pressed fresh) = λ n. refl
  Inserts-HasTtl (leaves token) = tt
  Inserts-HasTtl (ends n) = tt
  Inserts-HasTtl (sweeps t) = tt
  Inserts-HasTtl (withdraws t n) = tt

  perform_all-HasTtl :
      (grants : List Grant) (cs : List Call)
      → All HasTtl
          (perform_all token_hash email_hash cs
            (record { reviewer = grants; reviewer_token = [] })).reviewer_token
  perform_all-HasTtl grants cs =
      perform_all-Holds token_hash email_hash HasTtl uses-HasTtl cs
        (record { reviewer = grants; reviewer_token = [] })
        (All-intro (Inserts token_hash email_hash HasTtl uses-HasTtl) cs Inserts-HasTtl) tt

  -- Who a token names: a live grant, by the row found.
  named_by-some :
      (grants : List Grant) (o : Option Token) (r : Reviewer)
      → named_by grants o ≡ some r
      → (row : Token) × (o ≡ some row)
        × (row.reviewer_id ≡ r.reviewer_id)
        × (is_some (grant_of r.reviewer_id grants) ≡ true)
  named_by-some grants none r e = cc
  named_by-some grants (some row) r e = elim (Option-cases (grant_of row.reviewer_id grants)) [
    | inl nobody ↦ let clash : none ≡ some r = sym (ap as_reviewer nobody) ∙ e in cc
    | inr (g, found) ↦
        let said : some (reviewer_of g) ≡ some r = sym (ap as_reviewer found) ∙ e in
        let same : reviewer_of g ≡ r = cc in
        let met =
          find-true (λ (h : Grant). (h.reviewer_id == row.reviewer_id) && is_live h) grants g
            found in
        let numbered : g.reviewer_id ≡ row.reviewer_id = ground arith in
        let its_own : row.reviewer_id ≡ r.reviewer_id =
          sym numbered ∙ ap (λ (x : Reviewer). x.reviewer_id) same in
        (row, refl, its_own, rw (← its_own, found))
  ]

  -- The call is a press that minted the row: its token has the row's hash, and it came at that time.
  abbrev pub opens : Token → Call → Bool
  opens row (presses t pressed fresh) =
      (t == row.issued_at) && str_eq row.token_hash (token_hash fresh)
  opens _ c = false

  abbrev WasOpened : List Call → Token → Type 0
  WasOpened cs r = (not (is_session r.purpose) || any (opens r) cs) ≡ true

  uses-WasOpened :
      (cs : List Call) (t : ℕ) (r : Token)
      → WasOpened cs r
      → WasOpened cs (record r { used_at = some t })
  uses-WasOpened cs t r h = h

  Inserts-WasOpened :
      (cs : List Call) (c : Call)
      → ((r : Token) → opens r c ≡ true → any (opens r) cs ≡ true)
      → Inserts token_hash email_hash (WasOpened cs) (uses-WasOpened cs) c
  Inserts-WasOpened cs (asks t fresh email) h = λ n. refl
  Inserts-WasOpened cs (presses t pressed fresh) h = λ n.
      let row = token_row t (token_hash fresh) n Purpose.session session_ttl in
      let same_time : (t == t) ≡ true = ground arith in
      let same_hash : str_eq (token_hash fresh) (token_hash fresh) ≡ true =
        (eq_iff (token_hash fresh) (token_hash fresh)).1 refl in
      h row (rw (same_time, same_hash) refl)
  Inserts-WasOpened cs (leaves token) h = tt
  Inserts-WasOpened cs (ends n) h = tt
  Inserts-WasOpened cs (sweeps t) h = tt
  Inserts-WasOpened cs (withdraws t n) h = tt

  perform_all-WasOpened :
      (grants : List Grant) (cs : List Call)
      → All
          (WasOpened cs)
          (perform_all token_hash email_hash cs
            (record { reviewer = grants; reviewer_token = [] })).reviewer_token
  perform_all-WasOpened grants cs =
      perform_all-Holds token_hash email_hash (WasOpened cs) (uses-WasOpened cs) cs
        (record { reviewer = grants; reviewer_token = [] })
        (All-imp _ (Inserts token_hash email_hash (WasOpened cs) (uses-WasOpened cs)) cs
          (Inserts-WasOpened cs) (All-any opens cs))
        tt

  -- The row of a session that is in force at `t` for a reviewer, opened by one of the calls less than
  -- twelve hours before.
  abbrev pub in_force : (t : ℕ) (token : String) (reviewer_id : ℕ) → List Call → Token → Bool
  in_force t token reviewer_id cs row =
      (str_eq row.token_hash (token_hash token) && row.reviewer_id == reviewer_id)
      && (ltb t (row.issued_at + 12 * 3600) && (is_session row.purpose && any (opens row) cs))

  -- Whoever a session names, after any calls on a table that began with no token, holds a live grant
  -- at that moment, and the table has a session of that token and of that reviewer, which one of the
  -- calls, the press of a link, opened less than twelve hours before.
  pub whoami-session :
      (t : ℕ) (token : String) (grants : List Grant) (cs : List Call) (r : Reviewer)
      → whoami token_hash email_hash t
          (some token)
          (perform_all token_hash email_hash cs (record { reviewer = grants; reviewer_token = [] }))
        ≡ some r
      → (any
            (in_force t token r.reviewer_id cs)
            (perform_all token_hash email_hash cs
              (record { reviewer = grants; reviewer_token = [] })).reviewer_token
          ≡ true)
        × (is_some (
              grant_of r.reviewer_id
                (perform_all token_hash email_hash cs
                  (record { reviewer = grants; reviewer_token = [] })).reviewer)
            ≡ true)
  unfolding whoami
  whoami-session t token grants cs r e =
      let a =
        perform_all token_hash email_hash cs (record { reviewer = grants; reviewer_token = [] }) in
      elim (Bool-cases (str_eq token "")) [
        | inl blank ↦ let clash : none ≡ some r = rw blank at e in cc
        | inr given ↦
            let p = is_in_session t (token_hash token) in
            let (row, found, its_own, granted) =
              named_by-some a.reviewer (find p a.reviewer_token) r (rw given at e) in
            let met = find-true p a.reviewer_token row found in
            let lives =
              All-find HasTtl p a.reviewer_token row found (perform_all-HasTtl grants cs) in
            let opened =
              All-find (WasOpened cs) p a.reviewer_token row found
                (perform_all-WasOpened grants cs) in
            let young = session-lt t (token_hash token) row row.purpose refl met lives in
            let in_time : ltb t (row.issued_at + 12 * 3600) ≡ true = ground arith in
            let his : (row.reviewer_id == r.reviewer_id) ≡ true = ground arith in
            (
              any-of_find p (in_force t token r.reviewer_id cs) a.reviewer_token row found
                  (ground arith),
              granted,
            )
      ]

  grant_of-withdrawn :
      (t₀ n : ℕ) (grants : List Grant)
      → grant_of n (
          update_where
            (λ (g : Grant). g.reviewer_id == n)
            (λ g. record g { revoked_at = some t₀ })
            grants)
        ≡ none
  grant_of-withdrawn t₀ n [] = refl
  grant_of-withdrawn t₀ n (g ∷ grants) = elim (Bool-cases (g.reviewer_id == n)) [
    | inl his ↦ rw (his, his) (grant_of-withdrawn t₀ n grants)
    | inr other ↦ rw (other, other) (grant_of-withdrawn t₀ n grants)
  ]

  -- A withdrawn reviewer is signed out at once: no session, of any token, names a reviewer whose grant
  -- is withdrawn, nor one whose sessions were all ended.
  pub whoami-withdrawn :
      (t t₀ n : ℕ) (token : Option String) (a : Accounts) (r : Reviewer)
      → r.reviewer_id ≡ n
      → (whoami token_hash email_hash t token (withdrawn t₀ n a) ≢ some r)
        × (whoami token_hash email_hash t token (end_all_sessions n a).1 ≢ some r)
  unfolding whoami end_all_sessions
  whoami-withdrawn t t₀ n none a r his = ((λ e. cc), (λ e. cc))
  whoami-withdrawn t t₀ n (some token) a r his = elim (Bool-cases (str_eq token "")) [
    | inl blank ↦ (
      (λ e. let clash : none ≡ some r = rw blank at e in cc),
      (λ e. let clash : none ≡ some r = rw blank at e in cc),
    )
    | inr given ↦ (
      (λ e.
          let b = withdrawn t₀ n a in
          let p = is_in_session t (token_hash token) in
          let who = named_by-some b.reviewer (find p b.reviewer_token) r (rw given at e) in
          let gone = grant_of-withdrawn t₀ n a.reviewer in
          let still : is_some (grant_of n b.reviewer) ≡ true = rw his at who.3 in
          let not_so : is_some (grant_of n b.reviewer) ≡ false = ap is_some gone in
          false≢true (sym not_so ∙ still)),
      (λ e.
          let b = (end_all_sessions n a).1 in
          let p = is_in_session t (token_hash token) in
          let who = named_by-some b.reviewer (find p b.reviewer_token) r (rw given at e) in
          let kept =
            All-find (λ (x : Token). not (x.reviewer_id == n) ≡ true) p b.reviewer_token who.0 who.1
              (All-select_self (λ (x : Token). not (x.reviewer_id == n)) a.reviewer_token) in
          let same : who.0.reviewer_id ≡ n = who.2 ∙ his in ground arith),
    )
  ]
