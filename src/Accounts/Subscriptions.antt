-- ===== src/Accounts/Subscriptions.antt =====
-- src/docketyard/alerts/subscriptions.py: the calls. A recipient enters as it is normalised, by its hash
-- and ciphertext; the hash of a token is a parameter, and a random token is an argument of the call
-- that mints it. `t` is the time of the call, in seconds; an exception is none.
pub mod Build
pub mod Calls
pub mod Steps
pub mod Suppressed
pub mod Confirmed
pub mod Pressed
pub mod Forgotten
mod Tests
use docket_yard.Prelude.{
  ℕ, suc, ◌+◌, String, Bool, true, false, not, ◌&&◌, ◌||◌, Option, none, some, List, [], ◌∷◌, ◌++◌,
  str_eq, ltb, leb, ◌==◌, if◌then◌else◌,
}
use docket_yard.Prelude.Table.{any, find, count, update_where, delete_where}
use docket_yard.Fleet.Rows.{is_some}
use docket_yard.Accounts.Follows.{
  confirm_ttl, confirm_mails_per_hour, Status, Aim, Row, Mailed, Suppression, Follows, Ask,
  is_active, is_confirming, numbered, is_suppressed, recent, follows, same_number, expires_after,
  expired_by, greatest, head_of, put_token, secret_of, delete_subscriptions, forget_empty_alerts,
  pending_row,
}

abbrev pub confirm_token : ℕ → String → ℕ → Mailed
confirm_token t k n = record {
  token_sha256 = k;
  subscription_id = n;
  purpose = Aim.confirming;
  created_at = t;
  expires_at = some (t + confirm_ttl);
}

-- The token mailed for a subscription.
abbrev pub mail : ℕ → (fresh k : String) → ℕ → Follows → Option (Option String × Follows)
mail t fresh k n s = elim (put_token (confirm_token t k n) s) [
  | none ↦ none
  | some s' ↦ some (some fresh, s')
]

abbrev pub refreshed : ℕ → String → ℕ → Follows → Follows
refreshed t cadence n s = record s {
  subscription =
      update_where (numbered n)
        (λ r. record r { cadence = cadence; expires_at = some (t + confirm_ttl) }) s.subscription;
}

abbrev pub follow_anew : ℕ → Ask → Follows → Follows
follow_anew t a s =
    let secret = secret_of a.channel a.email_hash a.fresh_secret s.subscription in
    let n = suc (greatest s.subscription) in
    record s { subscription = s.subscription ++ pending_row t a secret n ∷ [] }

-- Over the row that the address has on the target, or none.
abbrev pub subscribe_over :
    ℕ → (fresh k : String) → Ask → Follows → Option Row → Option (Option String × Follows)
subscribe_over t fresh k a s none =
    mail t fresh k (suc (greatest s.subscription)) (follow_anew t a s)
subscribe_over t fresh k a s (some r) =
    if is_active r.status
    then some (none, s)
    else mail t fresh k r.subscription_id (refreshed t a.cadence r.subscription_id s)

module _ (token_hash : String → String) where
  unfoldable pub subscribe : ℕ → (fresh : String) → Ask → Follows → Option (Option String × Follows)
  subscribe t fresh a s =
      let h = a.email_hash in
      let row = find (follows h a.docket_id a.party_id) s.subscription in
      let over = subscribe_over t fresh (token_hash fresh) a s row in
      if not (is_some a.docket_id || is_some a.party_id)
        || (is_some a.docket_id && is_some a.party_id)
      then none
      else (if not (str_eq a.channel "email" || str_eq a.channel "webhook")
          then none
          else (if is_suppressed h s
              then some (none, s)
              else (if leb confirm_mails_per_hour (recent t h s) then some (none, s) else over)))

  -- A live confirmation token of a pending subscription.
  abbrev pub confirms : ℕ → String → List Row → Mailed → Bool
  confirms t token rows k =
      (str_eq k.token_sha256 (token_hash token) && is_confirming k.purpose)
      && (expires_after t k.expires_at
          && any (λ (r : Row). numbered k.subscription_id r && not (is_active r.status)) rows)

  abbrev pub activated : ℕ → ℕ → Follows → Follows
  activated t n s = record s {
    subscription =
        update_where (numbered n)
          (λ r. record r {
            status = Status.active;
            high_water_event_id = some (head_of s.event);
            confirmed_at = some t;
            expires_at = none;
          })
          s.subscription;
    subscription_token =
        delete_where (λ (k : Mailed). (k.subscription_id == n) && is_confirming k.purpose)
          s.subscription_token;
  }

  abbrev pub confirm_over : ℕ → Follows → Option Mailed → Option ℕ × Follows
  confirm_over t s none = (none, s)
  confirm_over t s (some k) = (some k.subscription_id, activated t k.subscription_id s)

  -- The subscription that is activated, by its number.
  unfoldable pub confirm : ℕ → String → Follows → Option ℕ × Follows
  confirm t token s = confirm_over t s (find (confirms t token s.subscription) s.subscription_token)

  -- A token that never expires, for one alert.
  unfoldable pub unsubscribe_token : ℕ → (fresh : String) → ℕ → Follows → Option Follows
  unsubscribe_token t fresh n = put_token (record {
    token_sha256 = token_hash fresh;
    subscription_id = n;
    purpose = Aim.unsubscribing;
    created_at = t;
    expires_at = none;
  })

  unfoldable pub withdraw_token : String → Follows → Follows
  withdraw_token token s = record s {
    subscription_token =
        delete_where (λ (k : Mailed). str_eq k.token_sha256 (token_hash token))
          s.subscription_token;
  }

  abbrev pub unsubscribes : String → Mailed → Bool
  unsubscribes token k = str_eq k.token_sha256 (token_hash token) && not (is_confirming k.purpose)

  -- The subscription that the token names, where the two join.
  abbrev pub named_by : Option Mailed → List Row → Option Row
  named_by none rows = none
  named_by (some k) rows = find (numbered k.subscription_id) rows

  -- What goes with a subscription: the address's daily ones with a daily one, and itself alone else.
  abbrev pub goes_with : Row → Row → Bool
  goes_with gone r =
      if str_eq gone.cadence "daily"
      then str_eq r.email_hash gone.email_hash && str_eq r.cadence "daily"
      else r.subscription_id == gone.subscription_id

  abbrev pub unsubscribe_over : Follows → Option Row → Bool × Follows
  unsubscribe_over s none = (false, s)
  unsubscribe_over s (some gone) =
      (true, forget_empty_alerts gone.email_hash (delete_subscriptions (goes_with gone) s))

  unfoldable pub unsubscribe : String → Follows → Bool × Follows
  unsubscribe token s =
      unsubscribe_over s (named_by (find (unsubscribes token) s.subscription_token) s.subscription)

unfoldable pub suppress : ℕ → (email_hash email_enc reason : String) → Follows → Follows
suppress t h enc reason s = if is_suppressed h s then s else record s {
  email_suppression =
      s.email_suppression
      ++ record { email_hash = h; email_enc = enc; reason = reason; created_at = t } ∷ [];
}

abbrev pub has_lapsed : ℕ → Row → Bool
has_lapsed t r = not (is_active r.status) && expired_by t r.expires_at

unfoldable pub sweep : ℕ → Follows → ℕ × Follows
sweep t s = (count (has_lapsed t) s.subscription, delete_subscriptions (has_lapsed t) s)

unfoldable pub for_docket : ℕ → Follows → ℕ
for_docket n s =
    count (λ (r : Row). same_number r.docket_id (some n) && is_active r.status) s.subscription
