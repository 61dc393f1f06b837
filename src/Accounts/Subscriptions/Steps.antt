-- ===== src/Accounts/Subscriptions/Steps.antt =====
-- src/docketyard/alerts/subscriptions.py: what every statement of the calls keeps, the calls keep.
use docket_yard.Prelude.{
  ℕ, ◌≡◌, String, Bool, false, not, ◌&&◌, ◌||◌, Option, none, some, List, [], ◌∷◌, ◌++◌, str_eq,
  leb, Bool-cases, inl, inr,
}
use docket_yard.Prelude.Table.{any, find, delete_where}
use docket_yard.Fleet.Rows.{is_some}
use docket_yard.Accounts.Follows.{
  Follows, Ask, Row, Mailed, Suppression, put_token, is_suppressed, recent, follows, is_active,
  confirm_mails_per_hour, delete_subscriptions, forget_empty_alerts,
}
use docket_yard.Accounts.Subscriptions.{
  subscribe, subscribe_over, mail, confirm_token, follow_anew, refreshed, confirm, confirm_over,
  activated, confirms, unsubscribe_token, withdraw_token, unsubscribe, unsubscribe_over, goes_with,
  unsubscribes, named_by, suppress, sweep, has_lapsed,
}
use docket_yard.Accounts.Subscriptions.Build.{build}
use docket_yard.Accounts.Subscriptions.Calls.{Call, after_ask, after_mint, perform, perform_all}

pub record Kept (token_hash : String → String) (P : Follows → Type 0) : Type 0 where
  pub put :
      (k : Mailed) (s : Follows)
      → P s
      → P (record s { subscription_token = s.subscription_token ++ k ∷ [] })
  pub drop :
      (p : Mailed → Bool) (s : Follows)
      → P s
      → P (record s { subscription_token = delete_where p s.subscription_token })
  pub refresh : (t : ℕ) (cadence : String) (n : ℕ) (s : Follows) → P s → P (refreshed t cadence n s)
  pub anew : (t : ℕ) (a : Ask) (s : Follows) → P s → P (follow_anew t a s)
  pub activate : (t n : ℕ) (s : Follows) → P s → P (activated token_hash t n s)
  pub delete : (p : Row → Bool) (s : Follows) → P s → P (delete_subscriptions p s)
  pub forget : (h : String) (s : Follows) → P s → P (forget_empty_alerts h s)
  pub silence :
      (x : Suppression) (s : Follows)
      → P s
      → P (record s { email_suppression = s.email_suppression ++ x ∷ [] })
  pub observe : (n : ℕ) (s : Follows) → P s → P (record s { event = s.event ++ n ∷ [] })
  pub build :
      (cadence : String) (channel : Option String) (matched : List (ℕ × ℕ)) (s : Follows)
      → P s
      → P (build cadence channel matched s)

-- What holds on each branch of `subscribe` holds of its answer.
module _ (token_hash : String → String) (t : ℕ) (fresh : String) (a : Ask) (s : Follows)
    (R : Option (Option String × Follows) → Type 0) where
  pub subscribe-branches :
      R none
      → R (some (none, s))
      → ((not (is_some a.docket_id || is_some a.party_id)
              || (is_some a.docket_id && is_some a.party_id))
            ≡ false
          → R (
              subscribe_over t fresh
                (token_hash fresh)
                a
                s
                (find (follows a.email_hash a.docket_id a.party_id) s.subscription)))
      → R (subscribe token_hash t fresh a s)
  unfolding subscribe
  subscribe-branches refused silent_one asked =
      elim (Bool-cases (
        not (is_some a.docket_id || is_some a.party_id)
        || (is_some a.docket_id && is_some a.party_id))) [
          | inl both ↦ rw both refused
          | inr one ↦ elim (Bool-cases (str_eq a.channel "email" || str_eq a.channel "webhook")) [
            | inr other ↦ rw (one, other) refused
            | inl channel ↦ elim (Bool-cases (is_suppressed a.email_hash s)) [
              | inl silent ↦ rw (one, channel, silent) silent_one
              | inr mailable ↦
                  elim (Bool-cases (leb confirm_mails_per_hour (recent t a.email_hash s))) [
                    | inl full ↦ rw (one, channel, mailable, full) silent_one
                    | inr room ↦ rw (one, channel, mailable, room) (asked one)
                  ]
            ]
          ]
        ]

module _ (token_hash : String → String) (P : Follows → Type 0) (kept : Kept token_hash P) where
  mint-keeps : (k : Mailed) (s : Follows) → P s → P (after_mint s (put_token k s))
  mint-keeps k s p =
      elim (Bool-cases
        (any (λ (x : Mailed). str_eq x.token_sha256 k.token_sha256) s.subscription_token)) [
          | inl taken ↦ rw (taken, after_mint) p
          | inr free ↦ rw (free, after_mint) (kept.put k s p)
        ]

  mail-keeps :
      (t : ℕ) (fresh k : String) (n : ℕ) (s u : Follows)
      → P s
      → P u
      → P (after_ask s (mail t fresh k n u))
  mail-keeps t fresh k n s u p q =
      elim (Bool-cases (any (λ (x : Mailed). str_eq x.token_sha256 k) u.subscription_token)) [
        | inl taken ↦ rw (taken, after_ask) p
        | inr free ↦ rw (free, after_ask) (kept.put (confirm_token t k n) u q)
      ]

  over-keeps :
      (t : ℕ) (fresh k : String) (a : Ask) (s : Follows) (o : Option Row)
      → P s
      → P (after_ask s (subscribe_over t fresh k a s o))
  over-keeps t fresh k a s none p =
      mail-keeps t fresh k _ s (follow_anew t a s) p (kept.anew t a s p)
  over-keeps t fresh k a s (some r) p = elim (Bool-cases (is_active r.status)) [
    | inl active ↦ rw (active, after_ask) p
    | inr waiting ↦ rw waiting (
        mail-keeps t fresh k r.subscription_id s (refreshed t a.cadence r.subscription_id s) p
          (kept.refresh t a.cadence r.subscription_id s p))
  ]

  subscribe-keeps :
      (t : ℕ) (fresh : String) (a : Ask) (s : Follows)
      → P s
      → P (after_ask s (subscribe token_hash t fresh a s))
  subscribe-keeps t fresh a s p =
      subscribe-branches token_hash t fresh a s (λ o. P (after_ask s o)) p p
        (λ _.
          over-keeps t fresh (token_hash fresh) a s
            (find (follows a.email_hash a.docket_id a.party_id) s.subscription) p)

  confirm-keeps : (t : ℕ) (token : String) (s : Follows) → P s → P (confirm token_hash t token s).1
  unfolding confirm
  confirm-keeps t token s p =
      over (find (confirms token_hash t token s.subscription) s.subscription_token)
    where
      over : (o : Option Mailed) → P (confirm_over token_hash t s o).1
      over none = p
      over (some k) = kept.activate t k.subscription_id s p

  unsubscribe-keeps : (token : String) (s : Follows) → P s → P (unsubscribe token_hash token s).1
  unfolding unsubscribe
  unsubscribe-keeps token s p = over (
      named_by token_hash (find (unsubscribes token_hash token) s.subscription_token)
        s.subscription)
    where
      over : (o : Option Row) → P (unsubscribe_over token_hash s o).1
      over none = p
      over (some gone) =
          kept.forget gone.email_hash (delete_subscriptions (goes_with token_hash gone) s)
            (kept.delete (goes_with token_hash gone) s p)

  suppress-keeps :
      (t : ℕ) (h enc reason : String) (s : Follows) → P s → P (suppress t h enc reason s)
  unfolding suppress
  suppress-keeps t h enc reason s p = elim (Bool-cases (is_suppressed h s)) [
    | inl silent ↦ rw silent p
    | inr mailable ↦ rw mailable (kept.silence _ s p)
  ]

  perform-keeps : (c : Call) (s : Follows) → P s → P (perform token_hash c s)
  unfolding unsubscribe_token withdraw_token sweep
  perform-keeps (Call.subscribes t fresh a) s p = subscribe-keeps t fresh a s p
  perform-keeps (Call.confirms t token) s p = confirm-keeps t token s p
  perform-keeps (Call.mints t fresh n) s p = mint-keeps _ s p
  perform-keeps (Call.withdraws token) s p = kept.drop _ s p
  perform-keeps (Call.unsubscribes token) s p = unsubscribe-keeps token s p
  perform-keeps (Call.suppresses t h enc reason) s p = suppress-keeps t h enc reason s p
  perform-keeps (Call.sweeps t) s p = kept.delete (has_lapsed t) s p
  perform-keeps (Call.observes n) s p = kept.observe n s p
  perform-keeps (Call.builds cadence channel matched) s p = kept.build cadence channel matched s p

  pub perform_all-keeps : (cs : List Call) (s : Follows) → P s → P (perform_all token_hash cs s)
  perform_all-keeps [] s p = p
  perform_all-keeps (c ∷ cs) s p =
      perform_all-keeps cs (perform token_hash c s) (perform-keeps c s p)
