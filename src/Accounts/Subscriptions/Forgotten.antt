-- ===== src/Accounts/Subscriptions/Forgotten.antt =====
-- src/docketyard/alerts/subscriptions.py, `unsubscribe` and `sweep`: what is deleted.
use docket_yard.Prelude.{
  ℕ, suc, ◌≤◌, ◌≡◌, refl, ap, String, Bool, true, false, not, ◌&&◌, ◌||◌, Option, none, some, List,
  [], ◌∷◌, str_eq, eq_iff, ◌==◌, Option-cases, Bool-cases, inl, inr, arith, All,
}
use mathlib.Core.Path.{subst}
use docket_yard.Prelude.Table.{any, find, count, select, find-none, All-select, delete_where}
use docket_yard.Accounts.Follows.{
  Follows, Row, Mailed, Alert, AlertEvent, numbered, delete_subscriptions, forget_empty_alerts,
}
use docket_yard.Accounts.Subscriptions.{
  unsubscribe, unsubscribe_over, unsubscribes, named_by, goes_with,
}

abbrev is_daily : Row → Bool
is_daily r = str_eq r.cadence "daily"

-- The subscription itself, and where it is a daily one those that share its digest: the address's
-- daily ones.
abbrev pub is_covered : Row → Row → Bool
is_covered gone r =
    (not (is_daily gone) && numbered gone.subscription_id r)
    || (is_daily gone && (is_daily r && str_eq r.email_hash gone.email_hash))

-- The number of a row that the condition covers.
abbrev pub is_numbered_in : (Row → Bool) → List Row → ℕ → Bool
is_numbered_in p rows n = any (λ r. p r && numbered n r) rows

-- Of an alert that is not of the address, or that has an event.
abbrev pub has_content : String → List AlertEvent → Alert → Bool
has_content h events a =
    not (str_eq a.email_hash h) || any (λ (e : AlertEvent). e.alert_id == a.alert_id) events

goes_alone : (token_hash : String → String) (gone : Row) → goes_with token_hash gone gone ≡ true
goes_alone token_hash gone =
    let same = (eq_iff gone.email_hash gone.email_hash).1 refl in
    elim (Bool-cases (str_eq gone.cadence "daily")) [
      | inl daily ↦ rw (daily, same) refl
      | inr other ↦ rw other (ground arith)
    ]

module _ (token_hash : String → String) where
  found_in :
      (token : String) (s : Follows) (gone : Row)
      → named_by token_hash
          (find (unsubscribes token_hash token) s.subscription_token)
          s.subscription
        ≡ some gone
      → (k : Mailed) × (find (unsubscribes token_hash token) s.subscription_token ≡ some k)
        × (find (numbered k.subscription_id) s.subscription ≡ some gone)
  found_in token s gone e =
      elim (Option-cases (find (unsubscribes token_hash token) s.subscription_token)) [
        | inl lost ↦ absurd (let e' = rw lost at e in cc)
        | inr (k, found) ↦ (k, found, rw found at e)
      ]

  any-hit :
      (p q : Row → Bool) (rows : List Row) (r : Row)
      → find q rows ≡ some r
      → p r ≡ true
      → any (λ x. p x && q x) rows ≡ true
  any-hit p q [] r e h = cc
  any-hit p q (x ∷ rows) r e h = elim (Bool-cases (q x)) [
    | inl met ↦
        let same : x ≡ r = ground arith in let here : p x ≡ true = rw same h in rw (met, here) refl
    | inr other ↦ let rest = any-hit p q rows r (rw other at e) h in rw rest (ground arith)
  ]

  none_of : (p : Mailed → Bool) (ks : List Mailed) → count p ks ≡ 0 → All (λ k. p k ≡ false) ks
  none_of p [] e = tt
  none_of p (k ∷ ks) e = elim (Bool-cases (p k)) [
    | inl met ↦ absurd (let more : suc (count p ks) ≡ 0 = rw met at e in omega (arith, more))
    | inr other ↦ (other, none_of p ks (rw other at e))
  ]

  -- Where one token has the hash, deleting the one that is found leaves none.
  none_left :
      (p d : Mailed → Bool) (ks : List Mailed) (k : Mailed)
      → count p ks ≤ 1
      → find p ks ≡ some k
      → d k ≡ true
      → find p (delete_where d ks) ≡ none
  none_left p d [] k le e h = cc
  none_left p d (x ∷ ks) k le e h = elim (Bool-cases (p x)) [
    | inl met ↦
        let same : x ≡ k = ground arith in
        let gone : d x ≡ true = rw same h in
        let no_more : count p ks ≡ 0 =
          (let few : suc (count p ks) ≤ 1 = rw met at le in omega (arith, few)) in
        rw gone (
          find-none p (delete_where d ks)
            (All-select (λ y. p y ≡ false) (λ y. not (d y)) ks (none_of p ks no_more)))
    | inr other ↦
        let rest = none_left p d ks k (rw other at le) (rw other at e) h in
        elim (Bool-cases (d x)) [ inl hit ↦ rw hit rest | inr missed ↦ rw (missed, other) rest ]
  ]

  covered : (gone : Row) → goes_with token_hash gone ≡ is_covered gone
  covered gone i r = same r i
    where
      same : (r : Row) → goes_with token_hash gone r ≡ is_covered gone r
      same r = ground arith

  abbrev Forgets : String → Follows → Bool × Follows → Type 0
  Forgets token s (false, t) = Unit
  Forgets token s (true, t) =
      (k : Mailed) × (gone : Row) × (find (unsubscribes token_hash token) s.subscription_token
        ≡ some k)
      × (find (numbered k.subscription_id) s.subscription ≡ some gone)
      × (t.subscription ≡ delete_where (is_covered gone) s.subscription)
      × (t.subscription_token
          ≡ delete_where
              (λ (x : Mailed). is_numbered_in (is_covered gone) s.subscription x.subscription_id)
              s.subscription_token)
      × (t.alert_event
          ≡ delete_where
              (λ (x : AlertEvent).
                is_numbered_in (is_covered gone) s.subscription x.subscription_id)
              s.alert_event)
      × (t.alert ≡ select (has_content gone.email_hash t.alert_event) s.alert)
      × (unsubscribe token_hash token t ≡ (false, t))

  kept_alerts :
      (h : String) (events : List AlertEvent) (alerts : List Alert)
      → delete_where
          (λ (a : Alert).
            str_eq a.email_hash h
            && not (any (λ (e : AlertEvent). e.alert_id == a.alert_id) events))
          alerts
        ≡ select (has_content h events) alerts
  kept_alerts h events [] = refl
  kept_alerts h events (a ∷ alerts) =
      let rest = kept_alerts h events alerts in
      elim (Bool-cases (has_content h events a)) [
        | inl held ↦
            let stays : not (
                  str_eq a.email_hash h
                  && not (any (λ (e : AlertEvent). e.alert_id == a.alert_id) events))
                ≡ true =
              ground arith in
            rw (held, stays, rest) refl
        | inr empty ↦
            let goes : not (
                  str_eq a.email_hash h
                  && not (any (λ (e : AlertEvent). e.alert_id == a.alert_id) events))
                ≡ false =
              ground arith in
            rw (empty, goes) rest
      ]

  again :
      (token : String) (s : Follows) (gone : Row) (k : Mailed)
      → count (unsubscribes token_hash token) s.subscription_token ≤ 1
      → find (unsubscribes token_hash token) s.subscription_token ≡ some k
      → find (numbered k.subscription_id) s.subscription ≡ some gone
      → (let t =
            forget_empty_alerts gone.email_hash
              (delete_subscriptions (goes_with token_hash gone) s) in
          unsubscribe token_hash token t ≡ (false, t))
  unfolding unsubscribe
  again token s gone k le found joined =
      let t =
        forget_empty_alerts gone.email_hash (delete_subscriptions (goes_with token_hash gone) s) in
      ap (λ o. unsubscribe_over token_hash t (named_by token_hash o t.subscription))
        (none_left (unsubscribes token_hash token) _ s.subscription_token k le found (
          any-hit (goes_with token_hash gone) (numbered k.subscription_id) s.subscription gone
            joined (goes_alone token_hash gone)))

  forgets :
      (token : String) (s : Follows) (o : Option Row)
      → count (unsubscribes token_hash token) s.subscription_token ≤ 1
      → named_by token_hash
          (find (unsubscribes token_hash token) s.subscription_token)
          s.subscription
        ≡ o
      → Forgets token s (unsubscribe_over token_hash s o)
  forgets token s none le e = tt
  forgets token s (some gone) le e =
      let (k, found, joined) = found_in token s gone e in
      let same = covered gone in
      (
        k,
        gone,
        found,
        joined,
        ap (λ p. delete_where p s.subscription) same,
        ap (λ p. (delete_subscriptions p s).subscription_token) same,
        ap (λ p. (delete_subscriptions p s).alert_event) same,
        kept_alerts gone.email_hash _ s.alert,
        again token s gone k le found joined,
      )

  -- `unsubscribe` of a token that one row holds, where it answers that a row existed: the token's row
  -- names a subscription of the table, and what goes is that one alone, or, if it is a daily one, the
  -- daily ones of its address; with them go the tokens and the alert events of their numbers and no
  -- others; of the alerts stay those of another address and those with an event left; and the same
  -- token again changes nothing and finds nothing.
  pub unsubscribe-forgets :
      (token : String) (s s' : Follows)
      → unsubscribe token_hash token s ≡ (true, s')
      → count (unsubscribes token_hash token) s.subscription_token ≤ 1
      → (k : Mailed) × (gone : Row) × (find (unsubscribes token_hash token) s.subscription_token
          ≡ some k)
        × (find (numbered k.subscription_id) s.subscription ≡ some gone)
        × (s'.subscription ≡ delete_where (is_covered gone) s.subscription)
        × (s'.subscription_token
            ≡ delete_where
                (λ (x : Mailed). is_numbered_in (is_covered gone) s.subscription x.subscription_id)
                s.subscription_token)
        × (s'.alert_event
            ≡ delete_where
                (λ (x : AlertEvent).
                  is_numbered_in (is_covered gone) s.subscription x.subscription_id)
                s.alert_event)
        × (s'.alert ≡ select (has_content gone.email_hash s'.alert_event) s.alert)
        × (unsubscribe token_hash token s' ≡ (false, s'))
  unfolding unsubscribe
  unsubscribe-forgets token s s' e le = subst (Forgets token s) e (
      forgets token s
        (named_by token_hash (find (unsubscribes token_hash token) s.subscription_token)
          s.subscription)
        le refl)
