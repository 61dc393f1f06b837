-- ===== src/Accounts/Subscriptions/Confirmed.antt =====
-- src/docketyard/alerts/subscriptions.py, `confirm`: no event is alerted that was observed before it.
use docket_yard.Prelude.{ℕ, ◌≤◌, ◌≡◌, String, Bool, false, not, ◌&&◌, Option, none, some, leb, All}
use docket_yard.Accounts.Follows.{Follows, Row, numbered, is_active, head_of}

-- The high-water mark leaves out every event up to `e`.
abbrev pub marks_from : ℕ → Option ℕ → Bool
marks_from e none = false
marks_from e (some m) = leb e m

-- An active subscription of the number that would alert an event from before.
abbrev pub backfills : ℕ → ℕ → Row → Bool
backfills e n r = (numbered n r && is_active r.status) && not (marks_from e r.high_water_event_id)

module _ (token_hash : String → String) (e n : ℕ) where
  abbrev Fresh : Follows → Type 0
  Fresh s = (e ≤ head_of s.event) × All (λ r. backfills e n r ≡ false) s.subscription

module _ (token_hash : String → String) where
  abbrev Starts : ℕ → Follows → Option ℕ × Follows → Type 0
  Starts n s (none, s') = Unit
  Starts n s (some m, s') = m ≡ n → Fresh token_hash (head_of s.event) n s'
