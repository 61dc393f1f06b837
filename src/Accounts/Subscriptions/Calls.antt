-- ===== src/Accounts/Subscriptions/Calls.antt =====
-- src/docketyard/alerts/subscriptions.py: the calls as one machine, with what the ledger and the builder
-- of alerts add beside them.
use docket_yard.Prelude.{ℕ, String, Option, none, some, List, [], ◌∷◌, ◌++◌}
use docket_yard.Accounts.Follows.{Follows, Ask}
use docket_yard.Accounts.Subscriptions.Build.{build}
use docket_yard.Accounts.Subscriptions.{
  subscribe, confirm, unsubscribe_token, withdraw_token, unsubscribe, suppress, sweep,
}

pub data Call : Type 0 where
  subscribes : (t : ℕ) (fresh : String) → Ask → Call
  confirms : (t : ℕ) (token : String) → Call
  mints : (t : ℕ) (fresh : String) (subscription_id : ℕ) → Call
  withdraws : (token : String) → Call
  unsubscribes : (token : String) → Call
  suppresses : (t : ℕ) (email_hash email_enc reason : String) → Call
  sweeps : (t : ℕ) → Call
  observes : (event_id : ℕ) → Call
  builds : (cadence : String) (channel : Option String) → (matched : List (ℕ × ℕ)) → Call

-- An exception rolls back.
abbrev pub after_ask : Follows → Option (Option String × Follows) → Follows
after_ask s none = s
after_ask s (some (answer, s')) = s'

abbrev pub after_mint : Follows → Option Follows → Follows
after_mint s none = s
after_mint s (some s') = s'

module _ (token_hash : String → String) where
  abbrev pub perform : Call → Follows → Follows
  perform (subscribes t fresh a) s = after_ask s (subscribe token_hash t fresh a s)
  perform (confirms t token) s = (confirm token_hash t token s).1
  perform (mints t fresh n) s = after_mint s (unsubscribe_token token_hash t fresh n s)
  perform (withdraws token) s = withdraw_token token_hash token s
  perform (unsubscribes token) s = (unsubscribe token_hash token s).1
  perform (suppresses t h enc reason) s = suppress t h enc reason s
  perform (sweeps t) s = (sweep t s).1
  perform (observes n) s = record s { event = s.event ++ n ∷ [] }
  perform (builds cadence channel matched) s = build cadence channel matched s

  abbrev pub perform_all : List Call → Follows → Follows
  perform_all [] s = s
  perform_all (c ∷ cs) s = perform_all cs (perform c s)
