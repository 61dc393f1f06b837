-- ===== src/Accounts/Subscriptions/Build.antt =====
-- src/docketyard/alerts/build.py, `pending_events` and `build`: the events that subscriptions are owed
-- go into alerts, and every subscription's mark moves to the last of them. Which events match a
-- subscription's docket or party is an argument, in the order of the sort; lateness is left out.
use docket_yard.Prelude.{
  ℕ, suc, String, Bool, true, false, not, ◌&&◌, ◌||◌, Option, none, some, List, [], ◌∷◌, ◌++◌, map,
  max, str_eq, ltb, ◌==◌, if◌then◌else◌,
}
use docket_yard.Prelude.Table.{any, find, update_where}
use docket_yard.Accounts.Follows.{Follows, Row, Alert, AlertEvent, numbered, is_active, same_number}

pub record Carried : Type 0 where
  pub subscription_id : ℕ
  pub email_hash : String
  pub channel : String
  pub event_id : ℕ

-- event_id > high_water_event_id: not of NULL.
abbrev pub is_past : ℕ → Option ℕ → Bool
is_past e none = false
is_past e (some m) = ltb m e

abbrev pub is_served : Option String → Row → Bool
is_served none r = true
is_served (some channel) r = str_eq r.endpoint.channel channel

-- The active subscription of a number, where the cadence and the channel are the ones that are built,
-- owes an event past its mark.
abbrev pub owes : (cadence : String) (channel : Option String) (n e : ℕ) → Row → Bool
owes cadence channel n e r =
    (numbered n r && is_active r.status)
    && ((str_eq r.cadence cadence && is_served channel r) && is_past e r.high_water_event_id)

-- Of the events that match subscriptions, those that are owed.
abbrev pub pending_events :
    (cadence : String) (channel : Option String)
    → (matched : List (ℕ × ℕ)) → List Row
    → List Carried
pending_events cadence channel [] rows = []
pending_events cadence channel ((n, e) ∷ matched) rows =
    let more = pending_events cadence channel matched rows in
    elim (find (owes cadence channel n e) rows) [
      | none ↦ more
      | some r ↦
          record {
            subscription_id = n;
            email_hash = r.email_hash;
            channel = r.endpoint.channel;
            event_id = e;
          }
          ∷ more
    ]

-- One alert for a group: the address and the channel alone for a digest, and the subscription else.
pub record Group : Type 0 where
  pub email_hash : String
  pub channel : String
  pub subscription_id : Option ℕ

abbrev same_group : Group → Group → Bool
same_group a b =
    (str_eq a.email_hash b.email_hash && str_eq a.channel b.channel)
    && ((not (is_named a.subscription_id) && not (is_named b.subscription_id))
        || same_number a.subscription_id b.subscription_id)
  where
    is_named : Option ℕ → Bool
    is_named none = false
    is_named (some n) = true

abbrev own_group : (cadence : String) → Carried → Group
own_group cadence c = record {
  email_hash = c.email_hash;
  channel = c.channel;
  subscription_id = (if str_eq cadence "daily" then none else some c.subscription_id);
}

-- An event of a recipient joins the group that claimed it first.
abbrev same_claim : Carried → Carried × Group → Bool
same_claim c (x, g) =
    (str_eq x.email_hash c.email_hash && str_eq x.channel c.channel) && x.event_id == c.event_id

abbrev group_of : (cadence : String) → (claimed : List (Carried × Group)) → Carried → Group
group_of cadence claimed c = elim (find (same_claim c) claimed) [
  | none ↦ own_group cadence c
  | some (x, g) ↦ g
]

abbrev join_group : Group → Carried → List (Group × List Carried) → List (Group × List Carried)
join_group g c [] = (g, c ∷ []) ∷ []
join_group g c ((h, items) ∷ groups) =
    let more = join_group g c groups in
    if same_group h g then (h, items ++ c ∷ []) ∷ groups else (h, items) ∷ more

abbrev pub group_events :
    (cadence : String)
    → (claimed : List (Carried × Group)) → List (Group × List Carried)
    → (carried : List Carried) → List (Group × List Carried)
group_events cadence claimed groups [] = groups
group_events cadence claimed groups (c ∷ carried) =
    let g = group_of cadence claimed c in
    group_events cadence (claimed ++ (c, g) ∷ []) (join_group g c groups) carried

abbrev last_alert : List Alert → ℕ
last_alert [] = 0
last_alert (a ∷ alerts) = max a.alert_id (last_alert alerts)

-- An alert for each group, and a row for each event that it carries.
abbrev pub insert_alerts :
    List (Group × List Carried) → List Alert × List AlertEvent → List Alert × List AlertEvent
insert_alerts [] placed = placed
insert_alerts ((g, items) ∷ groups) (alerts, events) =
    let n = suc (last_alert alerts) in
    let row : Carried → AlertEvent =
      (λ c. record { alert_id = n; subscription_id = c.subscription_id; event_id = c.event_id }) in
    insert_alerts groups
      (alerts ++ record { alert_id = n; email_hash = g.email_hash } ∷ [], events ++ map row items)

-- The last event carried for a subscription: its entry of `marks_all`.
abbrev pub last_carried : ℕ → List Carried → ℕ
last_carried n [] = 0
last_carried n (x ∷ xs) =
    let rest = last_carried n xs in if x.subscription_id == n then max x.event_id rest else rest

abbrev pub is_carried : ℕ → List Carried → Bool
is_carried n = any (λ (x : Carried). x.subscription_id == n)

abbrev pub build :
    (cadence : String) (channel : Option String) → (matched : List (ℕ × ℕ)) → Follows → Follows
build cadence channel matched s =
    let carried = pending_events cadence channel matched s.subscription in
    let placed = insert_alerts (group_events cadence [] [] carried) (s.alert, s.alert_event) in
    record s {
      subscription =
          update_where (λ r. is_carried r.subscription_id carried)
            (λ r. record r { high_water_event_id = some (last_carried r.subscription_id carried) })
            s.subscription;
      alert = placed.0;
      alert_event = placed.1;
    }
