-- ===== src/Fleet/Rows.antt =====
-- tools/fleet/pagequeue.py, `SCHEMA`: the four tables of the queue's SQLite file, a row each.
-- A time is a whole number of seconds, and a stamp written by `now()` is the second that it names.
pub mod Sound
use docket_yard.Prelude.{
  ℕ, String, Bool, true, false, Option, none, some, List, [], str_eq, ltb, ◌==◌, ◌∷◌, if◌then◌else◌,
}

pub data State : Type 0 where
  pending leased done failed : State

abbrev pub is_pending : State → Bool
is_pending State.pending = true
is_pending _ = false

abbrev pub is_leased : State → Bool
is_leased State.leased = true
is_leased _ = false

abbrev pub is_done : State → Bool
is_done State.done = true
is_done _ = false

abbrev pub is_failed : State → Bool
is_failed State.failed = true
is_failed _ = false

-- table `job`
pub record Job : Type 0 where
  pub job_id : ℕ
  pub pass : String
  pub document_sha256 : String
  pub page_no : ℕ
  pub state : State
  pub attempts : ℕ
  pub max_attempts : ℕ
  pub lease_owner : Option String
  pub lease_until : Option ℕ
  pub error : Option String
  pub created_at : ℕ
  pub finished_at : Option ℕ

-- table `result`
pub record Reading : Type 0 where
  pub job_id : ℕ
  pub worker : String
  pub raw : String
  pub finished_at : ℕ

-- What a worker says that it is: the entries of the `producer` object.
abbrev pub Producer : Type 0
Producer = List (String × String)

-- table `worker`
pub record Worker : Type 0 where
  pub name : String
  pub pass : String
  pub producer : Producer
  pub first_seen : ℕ
  pub last_seen : ℕ

-- table `collected`
pub record Collected : Type 0 where
  pub pass : String
  pub document_sha256 : String
  pub ran_at : ℕ
  pub outcome : String
  pub pages_read : ℕ
  pub pages_failed : ℕ

-- The file.
pub record Queue : Type 0 where
  pub job : List Job
  pub result : List Reading
  pub worker : List Worker
  pub collected : List Collected

abbrev pub empty : Queue
empty = record { job = []; result = []; worker = []; collected = [] }

-- The conditions on a row that the statements share. A comparison with NULL does not hold.
abbrev pub has_id : ℕ → Job → Bool
has_id i j = j.job_id == i

-- The row of a number.
abbrev pub row : ℕ → List Job → Option Job
row i [] = none
row i (j ∷ js) = let rest = row i js in if has_id i j then some j else rest

abbrev pub owned_by : String → Option String → Bool
owned_by w none = false
owned_by w (some o) = str_eq o w

abbrev pub past : ℕ → Option ℕ → Bool
past t none = false
past t (some u) = ltb u t

abbrev pub is_some {ℓ} : {A : Type ℓ} → Option A → Bool
is_some none = false
is_some (some a) = true
