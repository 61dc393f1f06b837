-- ===== src/Accounts/Subscriptions/Tests.antt =====
-- Runs of src/docketyard/alerts/subscriptions.py, with the identity as the hash of a token.
use docket_yard.Prelude.{ℕ, ◌≡◌, refl, String, true, false, none, some, List, [], ◌∷◌, arith}
use docket_yard.Prelude.Table.{any, find, select, delete_where}
use docket_yard.Accounts.Follows.{Status, Aim, Row, Mailed, AlertEvent, Follows, Ask, numbered}
use docket_yard.Accounts.Subscriptions.{
  subscribe, confirm, suppress, unsubscribe, sweep, unsubscribes,
}
use docket_yard.Accounts.Subscriptions.Build.{build}
use docket_yard.Accounts.Subscriptions.Calls.{Call, perform_all}
use docket_yard.Accounts.Subscriptions.Suppressed.{suppress-subscribe}
use docket_yard.Accounts.Subscriptions.Pressed.{follows_now, subscribe-confirm}
use docket_yard.Accounts.Subscriptions.Forgotten.{
  is_covered, is_numbered_in, has_content, unsubscribe-forgets,
}

abbrev same_text : String → String
same_text s = s

abbrev nothing_yet : Follows
nothing_yet = record {
  subscription = [];
  subscription_token = [];
  email_suppression = [];
  alert = [];
  alert_event = [];
  event = 4 ∷ 9 ∷ [];
}

abbrev ask_docket : Ask
ask_docket = record {
  email_hash = "h";
  email_enc = "e";
  fresh_secret = "s";
  docket_id = some 55;
  party_id = none;
  cadence = "daily";
  channel = "email";
}

abbrev waiting : Row
waiting = record {
  subscription_id = 1;
  email_hash = "h";
  email_enc = "e";
  docket_id = some 55;
  party_id = none;
  cadence = "daily";
  status = Status.pending;
  high_water_event_id = none;
  created_at = 100;
  confirmed_at = none;
  expires_at = some 172900;
  endpoint = record { channel = "email"; secret_enc = none };
}

abbrev link : Mailed
link = record {
  token_sha256 = "k";
  subscription_id = 1;
  purpose = Aim.confirming;
  created_at = 100;
  expires_at = some 172900;
}

abbrev asked_for : Follows
asked_for = record nothing_yet { subscription = waiting ∷ []; subscription_token = link ∷ [] }

nothing_yet-subscribe :
    subscribe same_text 100 "k" ask_docket nothing_yet ≡ some (some "k", asked_for)
unfolding subscribe
nothing_yet-subscribe = refl

subscribe-confirm_example :
    (n : ℕ) × ((confirm same_text 200 "k" asked_for).0 ≡ some n)
    × (any (follows_now ask_docket n) (confirm same_text 200 "k" asked_for).1.subscription ≡ true)
subscribe-confirm_example =
    subscribe-confirm same_text 100 200 ask_docket (omega arith) "k" "k" nothing_yet asked_for
      nothing_yet-subscribe

abbrev in_force : Row
in_force = record waiting {
  status = Status.active;
  high_water_event_id = some 9;
  confirmed_at = some 200;
  expires_at = none;
}

abbrev following : Follows
following = record nothing_yet { subscription = in_force ∷ [] }

-- A match that was observed before the confirmation, and one after.
abbrev matched : List (ℕ × ℕ)
matched = (1, 4) ∷ (1, 12) ∷ []

built-following : build "daily" none matched following ≡ record following {
  subscription = record in_force { high_water_event_id = some 12 } ∷ [];
  alert = record { alert_id = 1; email_hash = "h" } ∷ [];
  alert_event = record { alert_id = 1; subscription_id = 1; event_id = 12 } ∷ [];
}
built-following = refl

-- Of two subscriptions of an address, the second joins the alert that the first one opened.
built-joined :
    (build "pass" none ((1, 12) ∷ (2, 12) ∷ (2, 15) ∷ []) (record nothing_yet {
      subscription =
          record in_force { cadence = "pass" }
          ∷ record in_force { subscription_id = 2; docket_id = some 56; cadence = "pass" }
          ∷ [];
    })).alert_event
    ≡ record { alert_id = 1; subscription_id = 1; event_id = 12 }
      ∷ record { alert_id = 1; subscription_id = 2; event_id = 12 }
      ∷ record { alert_id = 2; subscription_id = 2; event_id = 15 }
      ∷ []
built-joined = refl

suppress-subscribe_example :
    subscribe same_text 400 "k" ask_docket
      (perform_all same_text (Call.sweeps 350 ∷ []) (suppress 300 "h" "e" "bounce" nothing_yet))
    ≡ some (
      none,
      perform_all same_text (Call.sweeps 350 ∷ []) (suppress 300 "h" "e" "bounce" nothing_yet),
    )
suppress-subscribe_example =
    suppress-subscribe same_text 300 400 "e" "bounce" "k" ask_docket (Call.sweeps 350 ∷ [])
      nothing_yet (refl, refl)

abbrev way_out : Mailed
way_out = record {
  token_sha256 = "u";
  subscription_id = 1;
  purpose = Aim.unsubscribing;
  created_at = 300;
  expires_at = none;
}

abbrev alerted : Follows
alerted = record following {
  subscription_token = way_out ∷ [];
  alert = record { alert_id = 1; email_hash = "h" } ∷ [];
  alert_event = record { alert_id = 1; subscription_id = 1; event_id = 12 } ∷ [];
}

alerted-unsubscribe : unsubscribe same_text "u" alerted ≡ (true, nothing_yet)
unfolding unsubscribe
alerted-unsubscribe = refl

unsubscribe-forgets_example :
    (k : Mailed) × (gone : Row) × (find (unsubscribes same_text "u") alerted.subscription_token
      ≡ some k)
    × (find (numbered k.subscription_id) alerted.subscription ≡ some gone)
    × (nothing_yet.subscription ≡ delete_where (is_covered gone) alerted.subscription)
    × (nothing_yet.subscription_token
        ≡ delete_where
            (λ (x : Mailed).
              is_numbered_in (is_covered gone) alerted.subscription x.subscription_id)
            alerted.subscription_token)
    × (nothing_yet.alert_event
        ≡ delete_where
            (λ (x : AlertEvent).
              is_numbered_in (is_covered gone) alerted.subscription x.subscription_id)
            alerted.alert_event)
    × (nothing_yet.alert
        ≡ select (has_content gone.email_hash nothing_yet.alert_event) alerted.alert)
    × (unsubscribe same_text "u" nothing_yet ≡ (false, nothing_yet))
unsubscribe-forgets_example =
    unsubscribe-forgets same_text "u" alerted nothing_yet alerted-unsubscribe (omega arith)

-- A link that is not pressed in 48 hours takes its subscription with it.
asked_for-sweep : sweep 172900 asked_for ≡ (1, nothing_yet)
unfolding sweep
asked_for-sweep = refl
