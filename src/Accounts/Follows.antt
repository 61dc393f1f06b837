-- ===== src/Accounts/Follows.antt =====
-- src/docketyard/alerts/subscriptions.py: the tables, and the statements that its calls share. A
-- recipient is the hash and the ciphertext that the vault makes of it; times are in seconds.
use docket_yard.Prelude.{
  ℕ, ◌+◌, ◌*◌, String, Bool, true, false, not, ◌&&◌, Option, none, some, List, [], ◌∷◌, ◌++◌, max,
  str_eq, ltb, leb, ◌==◌, if◌then◌else◌,
}
use docket_yard.Prelude.Table.{any, find, count, delete_where}
use docket_yard.Fleet.Rows.{is_some}

abbrev pub confirm_ttl_hours : ℕ
confirm_ttl_hours = 48

abbrev pub confirm_ttl : ℕ
confirm_ttl = confirm_ttl_hours * 3600

abbrev pub confirm_mails_per_hour : ℕ
confirm_mails_per_hour = 3

pub data Status : Type 0 where
  pending active : Status

pub data Aim : Type 0 where
  confirming unsubscribing : Aim

-- The columns of `subscription` that src/docketyard/store/0008_webhooks.sql adds.
pub record Endpoint : Type 0 where
  pub channel : String
  pub secret_enc : Option String

-- table `subscription`, as src/docketyard/store/0007_party_subscriptions.sql builds it, and what is added
pub record Row : Type 0 where
  pub subscription_id : ℕ
  pub email_hash : String
  pub email_enc : String
  pub docket_id : Option ℕ
  pub party_id : Option ℕ
  pub cadence : String
  pub status : Status
  pub high_water_event_id : Option ℕ
  pub created_at : ℕ
  pub confirmed_at : Option ℕ
  pub expires_at : Option ℕ
  pub endpoint : Endpoint

-- table `subscription_token`
pub record Mailed : Type 0 where
  pub token_sha256 : String
  pub subscription_id : ℕ
  pub purpose : Aim
  pub created_at : ℕ
  pub expires_at : Option ℕ

-- table `email_suppression`
pub record Suppression : Type 0 where
  pub email_hash : String
  pub email_enc : String
  pub reason : String
  pub created_at : ℕ

-- tables `alert` and `alert_event`, the columns that a forgetting reads
pub record Alert : Type 0 where
  pub alert_id : ℕ
  pub email_hash : String

pub record AlertEvent : Type 0 where
  pub alert_id : ℕ
  pub subscription_id : ℕ
  pub event_id : ℕ

pub record Follows : Type 0 where
  pub subscription : List Row
  pub subscription_token : List Mailed
  pub email_suppression : List Suppression
  pub alert : List Alert
  pub alert_event : List AlertEvent
  pub event : List ℕ

abbrev pub is_active : Status → Bool
is_active pending = false
is_active active = true

abbrev pub is_confirming : Aim → Bool
is_confirming confirming = true
is_confirming unsubscribing = false

abbrev pub numbered : ℕ → Row → Bool
numbered n r = r.subscription_id == n

abbrev pub is_suppressed : String → Follows → Bool
is_suppressed h s = any (λ (x : Suppression). str_eq x.email_hash h) s.email_suppression

-- The confirmations mailed to an address in the hour before.
abbrev pub recent : ℕ → String → Follows → ℕ
recent t h s =
    count
      (λ (k : Mailed).
        (is_confirming k.purpose && ltb t (k.created_at + 3600))
        && any (λ (r : Row). numbered k.subscription_id r && str_eq r.email_hash h) s.subscription)
      s.subscription_token

abbrev pub same_number : Option ℕ → Option ℕ → Bool
same_number (some a) (some b) = a == b
same_number _ _ = false

-- The row of an address on a docket, or on a party where no docket is named.
abbrev pub follows : String → (docket_id party_id : Option ℕ) → Row → Bool
follows h none party_id r = str_eq r.email_hash h && same_number r.party_id party_id
follows h (some n) party_id r = str_eq r.email_hash h && same_number r.docket_id (some n)

abbrev pub greatest : List Row → ℕ
greatest [] = 0
greatest (r ∷ rs) = max r.subscription_id (greatest rs)

abbrev pub head_of : List ℕ → ℕ
head_of [] = 0
head_of (n ∷ ns) = max n (head_of ns)

-- A token's hash is the row's key: none is the IntegrityError.
abbrev pub put_token : Mailed → Follows → Option Follows
put_token k s =
    if any (λ (x : Mailed). str_eq x.token_sha256 k.token_sha256) s.subscription_token
    then none
    else some (record s { subscription_token = s.subscription_token ++ k ∷ [] })

-- One secret for each endpoint: the one that its owner holds, or the fresh one.
abbrev pub secret_of : (channel h fresh_secret : String) → List Row → Option String
secret_of channel h fresh_secret rows =
    if str_eq channel "webhook"
    then elim (find (λ (r : Row). str_eq r.email_hash h && is_some r.endpoint.secret_enc) rows) [
      | none ↦ some fresh_secret
      | some r ↦ r.endpoint.secret_enc
    ]
    else none

-- ON DELETE CASCADE
abbrev pub delete_subscriptions : (Row → Bool) → Follows → Follows
delete_subscriptions p s = record s {
  subscription = delete_where p s.subscription;
  subscription_token =
      delete_where (λ (k : Mailed). any (λ r. p r && numbered k.subscription_id r) s.subscription)
        s.subscription_token;
  alert_event =
      delete_where
        (λ (e : AlertEvent). any (λ r. p r && numbered e.subscription_id r) s.subscription)
        s.alert_event;
}

-- `_forget_empty_alerts`
abbrev pub forget_empty_alerts : String → Follows → Follows
forget_empty_alerts h s = record s {
  alert =
      delete_where
        (λ (a : Alert).
          str_eq a.email_hash h
          && not (any (λ (e : AlertEvent). e.alert_id == a.alert_id) s.alert_event))
        s.alert;
}

-- What subscribing is asked for; `email_enc` and `fresh_secret` are sealed.
pub record Ask : Type 0 where
  pub email_hash : String
  pub email_enc : String
  pub fresh_secret : String
  pub docket_id : Option ℕ
  pub party_id : Option ℕ
  pub cadence : String
  pub channel : String

abbrev pub pending_row : ℕ → Ask → Option String → ℕ → Row
pending_row t a secret_enc i = record {
  subscription_id = i;
  email_hash = a.email_hash;
  email_enc = a.email_enc;
  docket_id = a.docket_id;
  party_id = a.party_id;
  cadence = a.cadence;
  status = Status.pending;
  high_water_event_id = none;
  created_at = t;
  confirmed_at = none;
  expires_at = some (t + confirm_ttl);
  endpoint = record { channel = a.channel; secret_enc = secret_enc };
}

-- expires_at > t, and expires_at <= t: neither of NULL.
abbrev pub expires_after : ℕ → Option ℕ → Bool
expires_after t none = false
expires_after t (some e) = ltb t e

abbrev pub expired_by : ℕ → Option ℕ → Bool
expired_by t none = false
expired_by t (some e) = leb e t
