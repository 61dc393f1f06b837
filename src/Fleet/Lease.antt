-- ===== src/Fleet/Lease.antt =====
-- tools/fleet/pagequeue.py, `Queue`: registration and the lease. `t` is the time of the call.
pub mod Order
pub mod Keeps
pub mod Claim
pub mod Exclusive
use docket_yard.Prelude.{
  ℕ, ◌+◌, ◌-◌, String, Bool, true, false, ◌&&◌, ◌||◌, Option, none, some, List, [], ◌∷◌, ◌++◌, map,
  str_eq, ltb, leb, ◌==◌, if◌then◌else◌, take, length,
}
use docket_yard.Prelude.Table.{select, count, any, all, update_where, executemany}
use docket_yard.Prelude.Sort.{sort_by}
use docket_yard.Prelude.Text.{join, decimal, text_lt}
use docket_yard.Fleet.Rows.{
  State, Job, Producer, Worker, Queue, is_pending, is_leased, has_id, owned_by, past,
}
use docket_yard.Fleet.Passes.{Spec, passes}

pub data Fault : Type 0 where
  key_error key_mismatch value_error unloadable : Fault

pub data Result {ℓ} (A : Type ℓ) : Type ℓ where
  ok : A → Result A
  err : Fault → Result A

-- `producer.get(k)`
abbrev get : String → Producer → Option String
get k [] = none
get k ((i, v) ∷ p) = let rest = get k p in if str_eq i k then some v else rest

-- `got == want`, with `got` the producer's values at the keys of `want`.
unfoldable pub declares : Producer → Producer → Bool
declares want producer = all (λ (k, v). owned_by v (get k producer)) want

named : String → Worker → Bool
named n w = str_eq w.name n

-- INSERT INTO worker ... ON CONFLICT (name) DO UPDATE
enrol : Worker → List Worker → List Worker
unfolding named
enrol w ws =
    if any (named w.name) ws
    then update_where (named w.name)
        (λ old. record old { pass = w.pass; producer = w.producer; last_seen = w.last_seen }) ws
    else ws ++ w ∷ []

unfoldable pub register : ℕ → String → String → Producer → Queue → Result Queue
unfolding declares enrol
register t name pass producer q = elim (passes pass) [
  | none ↦ err key_error
  | some spec ↦
      if declares spec.key producer
      then ok (record q {
        worker =
            enrol
              (record {
                name = name;
                pass = pass;
                producer = producer;
                first_seen = t;
                last_seen = t;
              })
              q.worker;
      })
      else err key_mismatch
]

-- UPDATE worker SET last_seen
seen : ℕ → String → List Worker → List Worker
unfolding named
seen t name = update_where (named name) (λ w. record w { last_seen = t })

-- 'lease expired on attempt ' || attempts
abbrev pub lease_expired : ℕ → String
lease_expired n = join "lease expired on attempt " (decimal n)

abbrev pub expired : ℕ → Job → Bool
expired t j = is_leased j.state && past t j.lease_until

abbrev pub reap_row : ℕ → Job → Job
reap_row t j =
    if leb j.max_attempts j.attempts
    then record j {
      state = State.failed;
      finished_at = some t;
      error = some (lease_expired j.attempts);
      lease_owner = none;
      lease_until = none;
    }
    else record j {
      state = State.pending;
      finished_at = none;
      lease_owner = none;
      lease_until = none;
    }

-- `_reap`, which `reap` runs in a transaction of its own.
unfoldable pub reap : ℕ → Queue → ℕ × Queue
reap t q = (count (expired t) q.job, record q { job = update_where (expired t) (reap_row t) q.job })

abbrev pub claimable_row : ℕ → String → Job → Bool
claimable_row t pass j =
    str_eq j.pass pass
    && ltb j.attempts j.max_attempts
    && (is_pending j.state || (is_leased j.state && past t j.lease_until))

unfoldable pub claimable : ℕ → String → Queue → ℕ
claimable t pass q = count (claimable_row t pass) q.job

-- ORDER BY document_sha256, page_no
abbrev pub ahead : Job → Job → Bool
ahead a b =
    text_lt a.document_sha256 b.document_sha256
    || (str_eq a.document_sha256 b.document_sha256 && ltb a.page_no b.page_no)

abbrev pub waiting : String → Job → Bool
waiting pass j = str_eq j.pass pass && (is_pending j.state && ltb j.attempts j.max_attempts)

abbrev pub picked : String → ℕ → List Job → List Job
picked pass n jobs = take n (sort_by ahead (select (waiting pass) jobs))

abbrev pub lease_row : String → ℕ → Job → Job
lease_row worker until j = record j {
  state = State.leased;
  attempts = j.attempts + 1;
  lease_owner = some worker;
  lease_until = some until;
}

-- A row as `claim` returns it: the attempts are those before this claim.
pub record Claimed : Type 0 where
  pub job_id : ℕ
  pub document_sha256 : String
  pub page_no : ℕ
  pub attempts : ℕ

abbrev pub claimed : Job → Claimed
claimed j = record {
  job_id = j.job_id;
  document_sha256 = j.document_sha256;
  page_no = j.page_no;
  attempts = j.attempts;
}

unfoldable pub claim : ℕ → String → String → ℕ → ℕ → Queue → List Claimed × Queue
unfolding reap seen
claim t worker pass n lease_seconds q =
    let q' = (reap t q).1 in
    let rows = picked pass n q'.job in
    let until = t + lease_seconds in
    (
      map claimed rows,
      record q' {
        job =
            executemany (λ (r : Job). update_where (has_id r.job_id) (lease_row worker until)) rows
              q'.job;
        worker = seen t worker q'.worker;
      },
    )

-- job_id = ? AND lease_owner = ? AND state = 'leased'
abbrev pub holds : String → ℕ → Job → Bool
holds worker i j = has_id i j && (owned_by worker j.lease_owner && is_leased j.state)

unfoldable pub extend : ℕ → String → List ℕ → ℕ → Queue → Queue
unfolding seen
extend t worker job_ids lease_seconds q = record q {
  job =
      executemany
        (λ i.
          update_where (holds worker i) (λ j. record j { lease_until = some (t + lease_seconds) }))
        job_ids q.job;
  worker = seen t worker q.worker;
}

abbrev pub release_row : Job → Job
release_row j = record j {
  state = State.pending;
  lease_owner = none;
  lease_until = none;
  attempts = j.attempts - 1;
}

unfoldable pub release : String → List ℕ → Queue → Queue
release worker job_ids q = record q {
  job = executemany (λ i. update_where (holds worker i) release_row) job_ids q.job;
}
