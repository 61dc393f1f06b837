-- ===== src/Accounts/SignIn/Reads.antt =====
-- src/docketyard/citator/signin.py: a press keeps what the page behind the link promised, and a sweep
-- takes nothing that a read would answer.
use docket_yard.Prelude.{
  ℕ, ◌+◌, ◌≡◌, ◌≢◌, refl, sym, ◌∙◌, ap, String, Bool, true, false, ◌&&◌, none, some, List, [], ◌∷◌,
  ◌++◌, map, All-imp, All-intro, All-of_map, Distinct, if◌then◌else◌, Bool-cases, Option-cases, inl,
  inr, arith, str_eq, eq_iff, ltb, leb, ◌==◌,
}
use mathlib.Core.Bool.{false≢true}
use docket_yard.Prelude.Table.{
  any, any-false, any-map-eq, find, find-true, find-delete_where, find-append, find-update, count,
  count-one, All-find, delete_where,
}
use docket_yard.Accounts.SignIn.{
  Grant, Purpose, Token, Accounts, Reviewer, is_live, hashed, token_row, mint, grant_of, named_by,
  as_reviewer, is_in_session, is_pending, pending, spend, close_link, admit_granted, admit, sign_in,
  whoami, sweep, session_ttl,
}

module _ (token_hash email_hash : String → String) (t : ℕ) (token : String) (a : Accounts) where
  unexpired_pending :
      (r : Token) → is_pending t (token_hash token) r ≡ true → leb r.expires_at t ≡ false
  unexpired_pending r e = ground arith

  unexpired_session :
      (r : Token) → is_in_session t (token_hash token) r ≡ true → leb r.expires_at t ≡ false
  unexpired_session r e = ground arith

  -- A sweep is not a security measure: at its own moment each link and each session reads after it as
  -- it did before.
  pub reads-sweep :
      (pending token_hash email_hash t token (sweep t a).1
        ≡ pending token_hash email_hash t token a)
      × (whoami token_hash email_hash t (some token) (sweep t a).1
          ≡ whoami token_hash email_hash t (some token) a)
  unfolding pending whoami sweep
  reads-sweep = (
    ap (named_by a.reviewer) (
        find-delete_where (is_pending t (token_hash token)) (λ (r : Token). leb r.expires_at t)
          a.reviewer_token unexpired_pending),
    ap (λ o. if str_eq token "" then none else named_by a.reviewer o)
        (find-delete_where (is_in_session t (token_hash token)) (λ (r : Token). leb r.expires_at t)
          a.reviewer_token unexpired_session),
  )

-- The row that holds a key is the one that a narrower condition finds.
find-key :
    (p : Token → Bool) (k : String) (rs : List Token) (r : Token)
    → ((x : Token) → p x ≡ true → hashed k x ≡ true)
    → Distinct (map (λ (x : Token). x.token_hash) rs)
    → find p rs ≡ some r
    → find (hashed k) rs ≡ some r
find-key p k [] r fixes d e = cc
find-key p k (x ∷ rs) r fixes d e = elim (Bool-cases (p x)) [
  | inl met ↦ rw (fixes x met) (rw met at e)
  | inr unmet ↦
      let later : find p rs ≡ some r = rw unmet at e in
      let at_k : r.token_hash ≡ k = (eq_iff r.token_hash k).0 (fixes r (find-true p rs r later)) in
      let apart : x.token_hash ≢ r.token_hash =
        All-find (λ (y : Token). x.token_hash ≢ y.token_hash) p rs r later
          (All-of_map (λ b. x.token_hash ≢ b) (λ (y : Token). y.token_hash) rs d.0) in
      elim (Bool-cases (hashed k x)) [
        | inl same ↦ absurd (apart ((eq_iff x.token_hash k).0 same ∙ sym at_k))
        | inr other ↦ rw other (find-key p k rs r fixes d.1 later)
      ]
]

module _ (token_hash email_hash : String → String) (t : ℕ) (token fresh : String) (a : Accounts)
    (distinct : Distinct (map (λ (r : Token). r.token_hash) a.reviewer_token))
    (unheld : any (hashed (token_hash fresh)) a.reviewer_token ≡ false)
    (given : str_eq fresh "" ≡ false) where
  unheld-spent :
      any (hashed (token_hash fresh)) (spend token_hash email_hash t token a).reviewer_token ≡ false
  unheld-spent =
      any-map-eq (hashed (token_hash fresh)) _ a.reviewer_token (
        All-intro _ a.reviewer_token (λ r. elim (Bool-cases (is_pending t (token_hash token) r)) [
          | inl e ↦ rw e
          | inr e ↦ rw e
        ]))
      ∙ unheld

  minted_row : ℕ → Token
  minted_row n = token_row t (token_hash fresh) n Purpose.session session_ttl

  entered : ℕ → Accounts
  unfolding minted_row
  entered n = record (spend token_hash email_hash t token a) {
    reviewer_token =
        delete_where (hashed (token_hash token))
          ((spend token_hash email_hash t token a).reviewer_token ++ minted_row n ∷ []);
  }

  module _ (row : Token)
      (found : find (is_pending t (token_hash token)) a.reviewer_token ≡ some row) where
    row-hashed : hashed (token_hash token) row ≡ true
    row-hashed =
        let met = find-true (is_pending t (token_hash token)) a.reviewer_token row found in
        ground arith

    apart :
        (x : Token)
        → is_in_session t (token_hash fresh) x ≡ true
        → hashed (token_hash token) x ≡ false
    apart x e = elim (Bool-cases (hashed (token_hash token) x)) [
      | inr other ↦ other
      | inl same ↦
          let l : x.token_hash ≡ token_hash fresh =
            (eq_iff x.token_hash (token_hash fresh)).0 (ground arith) in
          let k : x.token_hash ≡ token_hash token =
            (eq_iff x.token_hash (token_hash token)).0 same in
          let its : row.token_hash ≡ token_hash token =
            (eq_iff row.token_hash (token_hash token)).0 row-hashed in
          let free =
            All-find (λ r. hashed (token_hash fresh) r ≡ false) (is_pending t (token_hash token))
              a.reviewer_token row found
              (any-false (hashed (token_hash fresh)) a.reviewer_token unheld) in
          absurd
            (false≢true (sym free ∙ (eq_iff row.token_hash (token_hash fresh)).1 (its ∙ sym k ∙ l)))
    ]

    entered-whoami :
        (n : ℕ)
        → find (is_in_session t (token_hash fresh)) (entered n).reviewer_token ≡ some (minted_row n)
    unfolding entered minted_row
    entered-whoami n =
        let tokens = (spend token_hash email_hash t token a).reviewer_token in
        let self : str_eq (token_hash fresh) (token_hash fresh) ≡ true =
          (eq_iff (token_hash fresh) (token_hash fresh)).1 refl in
        let later : ltb t (t + session_ttl) ≡ true = ground arith in
        find-delete_where (is_in_session t (token_hash fresh)) (hashed (token_hash token))
          (tokens ++ minted_row n ∷ []) apart
        ∙ find-append (is_in_session t (token_hash fresh)) tokens (minted_row n ∷ []) (
            All-imp (λ r. hashed (token_hash fresh) r ≡ false) _ tokens (λ r h. rw h)
              (any-false (hashed (token_hash fresh)) tokens unheld-spent))
        ∙ rw (self, later)

    pending_row : is_pending t (token_hash token) row ≡ true
    pending_row = find-true (is_pending t (token_hash token)) a.reviewer_token row found

    hashed_pending :
        (x : Token) → is_pending t (token_hash token) x ≡ true → hashed (token_hash token) x ≡ true
    hashed_pending x e = ground arith

    spent-find :
        find (hashed (token_hash token)) (spend token_hash email_hash t token a).reviewer_token
        ≡ some (record row { used_at = some t })
    spent-find =
        find-update (hashed (token_hash token)) (is_pending t (token_hash token))
          (λ r. record r { used_at = some t }) a.reviewer_token (λ x. refl)
        ∙ rw (
          find-key (is_pending t (token_hash token)) (token_hash token) a.reviewer_token row
              hashed_pending distinct found,
          pending_row,
        )

    pending_once : count (is_pending t (token_hash token)) a.reviewer_token ≡ 1
    pending_once =
        count-one (λ (x : Token). x.token_hash) (is_pending t (token_hash token)) (token_hash token)
          (λ x e. (eq_iff x.token_hash (token_hash token)).0 (hashed_pending x e)) a.reviewer_token
          row distinct found

    sign_in-entered :
        (g : Grant)
        → grant_of row.reviewer_id a.reviewer ≡ some g
        → sign_in token_hash email_hash t token fresh a ≡ some (some fresh, entered g.reviewer_id)
    unfolding sign_in entered minted_row mint
    sign_in-entered g granted =
        let spent = spend token_hash email_hash t token a in
        let once : (count (is_pending t (token_hash token)) a.reviewer_token == 1) ≡ true =
          rw pending_once in
        let minted : mint t (token_hash fresh) g.reviewer_id Purpose.session session_ttl spent
            ≡ some (record spent {
              reviewer_token = spent.reviewer_token ++ minted_row g.reviewer_id ∷ [];
            }) =
          rw unheld-spent in
        rw once (
          ap (admit token_hash email_hash t token fresh spent) spent-find
          ∙ ap (admit_granted token_hash email_hash t token fresh spent) granted
          ∙ ap (close_link token_hash email_hash token fresh) minted)

  -- What the page behind the link said is what the press gives: pressing a pending link opens a session
  -- under a token whose hash is not held, and that session names at once the reviewer that the
  -- page named. Token hashes are the table's primary key.
  pub sign_in-pending :
      (r : Reviewer)
      → pending token_hash email_hash t token a ≡ some r
      → (b : Accounts) × (sign_in token_hash email_hash t token fresh a ≡ some (some fresh, b))
        × (whoami token_hash email_hash t (some fresh) b ≡ some r)
  unfolding pending whoami entered minted_row
  sign_in-pending r e =
      elim (Option-cases (find (is_pending t (token_hash token)) a.reviewer_token)) [
        | inl nothing ↦ let clash : none ≡ some r = sym (ap (named_by a.reviewer) nothing) ∙ e in cc
        | inr (row, found) ↦
            let named : as_reviewer (grant_of row.reviewer_id a.reviewer) ≡ some r =
              sym (ap (named_by a.reviewer) found) ∙ e in
            elim (Option-cases (grant_of row.reviewer_id a.reviewer)) [
              | inl nobody ↦ let clash : none ≡ some r = sym (ap as_reviewer nobody) ∙ named in cc
              | inr (g, granted) ↦
                  let met =
                    find-true (λ (x : Grant). (x.reviewer_id == row.reviewer_id) && is_live x)
                      a.reviewer g granted in
                  let same : g.reviewer_id ≡ row.reviewer_id = ground arith in
                  (
                    entered g.reviewer_id,
                    sign_in-entered row found g granted,
                    rw given (
                        ap (named_by a.reviewer) (entered-whoami row found g.reviewer_id)
                        ∙ (ap (λ n. as_reviewer (grant_of n a.reviewer)) same ∙ named)),
                  )
            ]
      ]
