-- ===== src/Accounts/Subscriptions/Pressed.antt =====
-- src/docketyard/alerts/subscriptions.py: a link that `subscribe` mails, pressed in time, is `confirm`ed.
use docket_yard.Prelude.{
  ℕ, suc, ◌+◌, ◌<◌, ◌≡◌, refl, ◌∙◌, ap, String, Bool, true, false, not, ◌&&◌, ◌||◌, Option, none,
  some, List, [], ◌∷◌, ◌++◌, str_eq, eq_iff, ltb, Bool-cases, inl, inr, arith, All,
}
use mathlib.Core.Path.{subst}
use docket_yard.Prelude.Table.{
  any, find, find-true, find-append, any-append, any-false, update_where,
}
use docket_yard.Fleet.Rows.{is_some}
use docket_yard.Accounts.Follows.{
  greatest, pending_row, secret_of, Follows, Row, Mailed, Ask, numbered, follows, is_active,
  confirm_ttl,
}
use docket_yard.Accounts.Subscriptions.{
  subscribe, subscribe_over, mail, confirm_token, follow_anew, refreshed, confirm, confirm_over,
  confirms, activated,
}
use docket_yard.Accounts.Subscriptions.Steps.{subscribe-branches}

-- The address follows the target, under the number, in force.
abbrev pub follows_now : Ask → ℕ → Row → Bool
follows_now a n r =
    numbered n r && (is_active r.status && follows a.email_hash a.docket_id a.party_id r)

abbrev waits : Ask → ℕ → Row → Bool
waits a n r =
    numbered n r && (not (is_active r.status) && follows a.email_hash a.docket_id a.party_id r)

any-found :
    (p q : Row → Bool) (rows : List Row) (r : Row)
    → find p rows ≡ some r
    → q r ≡ true
    → any q rows ≡ true
any-found p q [] r e h = cc
any-found p q (x ∷ rows) r e h = elim (Bool-cases (p x)) [
  | inl met ↦ let same : x ≡ r = ground arith in rw (same, h)
  | inr other ↦ let rest = any-found p q rows r (rw other at e) h in rw rest (ground arith)
]

-- Of a row that an update hits, what it makes of it; of another, the row.
any-updated :
    (p q hits : Row → Bool) (f : Row → Row) (rows : List Row)
    → ((r : Row) → p r ≡ true → hits r ≡ true)
    → ((r : Row) → p r ≡ true → q (f r) ≡ true)
    → any p rows ≡ true
    → any q (update_where hits f rows) ≡ true
any-updated p q hits f [] hit keeps e = cc
any-updated p q hits f (r ∷ rows) hit keeps e = elim (Bool-cases (p r)) [
  | inl met ↦ rw (hit r met, keeps r met) refl
  | inr other ↦
      let rest = any-updated p q hits f rows hit keeps (rw other at e) in rw rest (ground arith)
]

-- What a refreshed subscription follows is what it followed.
same_follows :
    (h : String) (docket_id party_id : Option ℕ) (cadence : String) (e : Option ℕ) (r : Row)
    → follows h docket_id party_id (record r { cadence = cadence; expires_at = e })
      ≡ follows h docket_id party_id r
same_follows h none p c e r = refl
same_follows h (some d) p c e r = refl

-- A row follows its own target.
own :
    (h : String) (docket_id party_id : Option ℕ) (r : Row)
    → (not (is_some docket_id || is_some party_id) || (is_some docket_id && is_some party_id))
      ≡ false
    → r.email_hash ≡ h
    → r.docket_id ≡ docket_id
    → r.party_id ≡ party_id
    → follows h docket_id party_id r ≡ true
own h none none r one e d p = absurd (ground arith)
own h (some n) party_id r one e d p =
    let same = (eq_iff h h).1 refl in rw (e, d, same) (ground arith)
own h none (some n) r one e d p = let same = (eq_iff h h).1 refl in rw (e, p, same) (ground arith)

module _ (token_hash : String → String) (t u : ℕ) (a : Ask) (soon : u < t + confirm_ttl) where
  -- The link is confirmed: the subscription in force that it answers.
  abbrev Opens : String → Follows → Type 0
  Opens x s =
      (n : ℕ) × ((confirm token_hash u x s).0 ≡ some n)
      × (any (follows_now a n) (confirm token_hash u x s).1.subscription ≡ true)

  abbrev OpensIt : Option (Option String × Follows) → Type 0
  OpensIt none = Unit
  OpensIt (some (none, s)) = Unit
  OpensIt (some (some x, s)) = Opens x s

  misses :
      (k : String) (x : String) (rows : List Row) (ks : List Mailed)
      → token_hash x ≡ k
      → All (λ (y : Mailed). str_eq y.token_sha256 k ≡ false) ks
      → All (λ y. confirms token_hash u x rows y ≡ false) ks
  misses k x rows [] e h = tt
  misses k x rows (y ∷ ks) e h = (rw (e, h.0) refl, misses k x rows ks e h.1)

  activated-follows :
      (n : ℕ) (s : Follows)
      → any (waits a n) s.subscription ≡ true
      → any (follows_now a n) (activated token_hash u n s).subscription ≡ true
  activated-follows n s e =
      any-updated (waits a n) (follows_now a n) (numbered n) _ s.subscription (λ r w. ground arith)
        (λ r w. ground arith) e

  waits-pending :
      (n : ℕ) (rows : List Row)
      → any (waits a n) rows ≡ true
      → any (λ r. numbered n r && not (is_active r.status)) rows ≡ true
  waits-pending n [] e = cc
  waits-pending n (r ∷ rows) e = elim (Bool-cases (waits a n r)) [
    | inl met ↦
        let here : (numbered n r && not (is_active r.status)) ≡ true = ground arith in rw here refl
    | inr other ↦ let rest = waits-pending n rows (rw other at e) in rw rest (ground arith)
  ]

  abbrev sent : String → ℕ → Follows → Follows
  sent k n s = record s { subscription_token = s.subscription_token ++ confirm_token t k n ∷ [] }

  found-sent :
      (fresh : String) (n : ℕ) (s : Follows)
      → any (waits a n) s.subscription ≡ true
      → any (λ (x : Mailed). str_eq x.token_sha256 (token_hash fresh)) s.subscription_token ≡ false
      → find
          (confirms token_hash u fresh s.subscription)
          (sent (token_hash fresh) n s).subscription_token
        ≡ some (confirm_token t (token_hash fresh) n)
  found-sent fresh n s waiting free =
      let same : str_eq (token_hash fresh) (token_hash fresh) ≡ true =
        (eq_iff (token_hash fresh) (token_hash fresh)).1 refl in
      let early : ltb u (t + confirm_ttl) ≡ true = ground arith in
      find-append (confirms token_hash u fresh s.subscription) s.subscription_token
        (confirm_token t (token_hash fresh) n ∷ [])
        (misses (token_hash fresh) fresh s.subscription s.subscription_token refl
          (any-false _ s.subscription_token free))
      ∙ rw (same, early, waits-pending n s.subscription waiting) refl

  sent-Opens :
      (fresh : String) (n : ℕ) (s : Follows)
      → any (waits a n) s.subscription ≡ true
      → any (λ (x : Mailed). str_eq x.token_sha256 (token_hash fresh)) s.subscription_token ≡ false
      → Opens fresh (sent (token_hash fresh) n s)
  unfolding confirm
  sent-Opens fresh n s waiting free =
      let found = found-sent fresh n s waiting free in
      (
        n,
        ap (λ o. (confirm_over token_hash u (sent (token_hash fresh) n s) o).0) found,
        ap
              (λ o.
                any (follows_now a n)
                  (confirm_over token_hash u (sent (token_hash fresh) n s) o).1.subscription)
              found
            ∙ activated-follows n (sent (token_hash fresh) n s) waiting,
      )

  mail-opens :
      (fresh : String) (n : ℕ) (s : Follows)
      → any (waits a n) s.subscription ≡ true
      → OpensIt (mail t fresh (token_hash fresh) n s)
  mail-opens fresh n s waiting =
      elim (Bool-cases
        (any (λ (x : Mailed). str_eq x.token_sha256 (token_hash fresh)) s.subscription_token)) [
          | inl taken ↦ rw (taken, mail) tt
          | inr free ↦ rw (free, mail) (sent-Opens fresh n s waiting free)
        ]

  over-opens :
      (fresh : String) (s : Follows) (o : Option Row)
      → (not (is_some a.docket_id || is_some a.party_id)
          || (is_some a.docket_id && is_some a.party_id))
        ≡ false
      → find (follows a.email_hash a.docket_id a.party_id) s.subscription ≡ o
      → OpensIt (subscribe_over t fresh (token_hash fresh) a s o)
  over-opens fresh s none one e =
      let n = suc (greatest s.subscription) in
      let row =
        pending_row t a (secret_of a.channel a.email_hash a.fresh_secret s.subscription) n in
      let mine = own a.email_hash a.docket_id a.party_id row one refl refl refl in
      let new : waits a n row ≡ true = rw mine (ground arith) in
      mail-opens fresh n (follow_anew t a s)
        (any-append (waits a n) s.subscription (row ∷ []) ∙ rw new (ground arith))
  over-opens fresh s (some r) one e = elim (Bool-cases (is_active r.status)) [
    | inl active ↦ rw active tt
    | inr waiting ↦
        let mine = find-true (follows a.email_hash a.docket_id a.party_id) s.subscription r e in
        let waits_here : any (waits a r.subscription_id) s.subscription ≡ true =
          any-found (follows a.email_hash a.docket_id a.party_id) (waits a r.subscription_id)
            s.subscription r e (rw (waiting, mine) (ground arith)) in
        rw waiting (
          mail-opens fresh r.subscription_id (refreshed t a.cadence r.subscription_id s) (
            any-updated (waits a r.subscription_id) (waits a r.subscription_id)
              (numbered r.subscription_id) _ s.subscription (λ x w. ground arith)
              (λ x w.
                rw
                  (same_follows a.email_hash a.docket_id a.party_id a.cadence
                    (some (t + confirm_ttl)) x)
                  w)
              waits_here))
  ]

  -- Where `subscribe` answers a token, that token, pressed before 48 hours have passed, is confirmed: the
  -- subscription of the address to the docket or the party that was asked for is then active.
  pub subscribe-confirm :
      (fresh x : String) (s s' : Follows)
      → subscribe token_hash t fresh a s ≡ some (some x, s')
      → (n : ℕ) × ((confirm token_hash u x s').0 ≡ some n)
        × (any (follows_now a n) (confirm token_hash u x s').1.subscription ≡ true)
  subscribe-confirm fresh x s s' e = subst OpensIt e (
      subscribe-branches token_hash t fresh a s OpensIt tt tt (λ one.
        over-opens fresh s (find (follows a.email_hash a.docket_id a.party_id) s.subscription) one
          refl))
