-- ===== src/Fleet/Documents.antt =====
-- tools/fleet/pagequeue.py, `Queue`: documents. Seeding their pages, what the queue knows of them,
-- and their collection. `t` is the time of the call.
pub mod Keeps
pub mod Seeded
pub mod Verdicts
use mathlib.Core.Option
use docket_yard.Prelude.{
  ℕ, suc, ◌+◌, String, Bool, true, false, not, ◌&&◌, ◌||◌, Option, none, some, List, [], ◌∷◌, ◌++◌,
  map, max, str_eq, ltb, ◌==◌, if◌then◌else◌,
}
use docket_yard.Prelude.Table.{select, any, find, delete_where, executemany}
use docket_yard.Prelude.Sort.{sort_by}
use docket_yard.Prelude.Text.{like_prefix, text_lt}
use docket_yard.Fleet.Rows.{
  State, Job, Reading, Producer, Worker, Collected, Queue, is_pending, is_leased, is_failed,
}
use docket_yard.Fleet.Rows.Sound.{answers}
use docket_yard.Fleet.Passes.{page_owned}

-- WHERE pass = ? AND document_sha256 = ?
abbrev pub is_of : String → String → Job → Bool
is_of pass sha j = str_eq j.pass pass && str_eq j.document_sha256 sha

abbrev pub written_of : String → String → Collected → Bool
written_of pass sha c = str_eq c.pass pass && str_eq c.document_sha256 sha

-- The three DELETEs of a document that is read again.
abbrev pub forget : String → String → Queue → Queue
forget pass sha q = record q {
  result =
      delete_where (λ (r : Reading). any (λ j. is_of pass sha j && (j.job_id == r.job_id)) q.job)
        q.result;
  job = delete_where (is_of pass sha) q.job;
  collected = delete_where (written_of pass sha) q.collected;
}

-- INTEGER PRIMARY KEY: one more than the greatest in use.
abbrev greatest : List Job → ℕ
greatest [] = 0
greatest (j ∷ js) = max j.job_id (greatest js)

abbrev fresh_row : ℕ → String → String → ℕ → ℕ → Job
fresh_row t pass sha page i = record {
  job_id = i;
  pass = pass;
  document_sha256 = sha;
  page_no = page;
  state = State.pending;
  attempts = 0;
  max_attempts = 3;
  lease_owner = none;
  lease_until = none;
  error = none;
  created_at = t;
  finished_at = none;
}

abbrev same_page : String → String → ℕ → Job → Bool
same_page pass sha page j = is_of pass sha j && (j.page_no == page)

-- INSERT OR IGNORE INTO job; the number beside the rows is what `total_changes` has grown by.
abbrev insert_page : ℕ → String → String × ℕ → ℕ × List Job → ℕ × List Job
insert_page t pass (sha, page) (n, jobs) =
    if any (same_page pass sha page) jobs
    then (n, jobs)
    else (n + 1, jobs ++ fresh_row t pass sha page (suc (greatest jobs)) ∷ [])

unfoldable pub seed : ℕ → String → List (String × ℕ) → List String → Queue → ℕ × Queue
seed t pass pages reread q =
    let q' = executemany (forget pass) reread q in
    let (new, jobs) = executemany (insert_page t pass) pages (0, q'.job) in
    (new, record q' { job = jobs })

-- `None` if the pass has no page of the document.
unfoldable pub pages_held : String → String → Queue → Option (List ℕ)
pages_held pass sha q = elim (select (is_of pass sha) q.job) [
  | [] ↦ none
  | j ∷ js ↦ some (map (λ (r : Job). r.page_no) (j ∷ js))
]

-- The answers "open", "whole" and "reread"; `none` is None.
pub data Verdict : Type 0 where
  still_open whole reread : Verdict

-- state = 'failed' AND error NOT LIKE 'page:%'
abbrev pub foreign : Job → Bool
foreign j =
    is_failed j.state && elim j.error [ none ↦ false | some e ↦ not (like_prefix page_owned e) ]

unfoldable pub known : String → String → Queue → Option Verdict
known pass sha q =
    if not (any (is_of pass sha) q.job)
    then none
    else if not (any (written_of pass sha) q.collected)
    then some still_open
    else if any (λ j. is_of pass sha j && foreign j) q.job
    then some reread
    else some whole

abbrev pub is_owed : Job → Bool
is_owed j = is_pending j.state || is_leased j.state

-- GROUP BY document_sha256, a group once. SQL promises the groups in no order.
abbrev groups : String → List Job → List String
groups pass [] = []
groups pass (j ∷ js) =
    let rest = groups pass js in
    if str_eq j.pass pass && not (any (str_eq j.document_sha256) rest)
    then j.document_sha256 ∷ rest
    else rest

unfoldable pub collectable : String → Queue → List String
collectable pass q =
    select
      (λ sha.
        not (any (written_of pass sha) q.collected)
        && not (any (λ j. is_of pass sha j && is_owed j) q.job))
      (groups pass q.job)

-- A row of `job LEFT JOIN result`.
pub record Page : Type 0 where
  pub job_id : ℕ
  pub page_no : ℕ
  pub state : State
  pub error : Option String
  pub raw : Option String
  pub worker : Option String

abbrev page_of : List Reading → Job → Page
page_of results j =
    let found = find (answers j.job_id) results in
    record {
      job_id = j.job_id;
      page_no = j.page_no;
      state = j.state;
      error = j.error;
      raw = Option.map (λ (r : Reading). r.raw) found;
      worker = Option.map (λ (r : Reading). r.worker) found;
    }

unfoldable pub pages_of : String → String → Queue → List Page
pages_of pass sha q =
    map (page_of q.result)
      (sort_by (λ (a b : Job). ltb a.page_no b.page_no) (select (is_of pass sha) q.job))

-- INSERT OR REPLACE INTO collected, of a reading document's date, outcome and counts.
unfoldable pub mark_collected : String → String → ℕ → String → ℕ → ℕ → Queue → Queue
mark_collected pass sha ran_at outcome pages_read pages_failed q = record q {
  collected =
      delete_where (written_of pass sha) q.collected
      ++ (record {
        pass = pass;
        document_sha256 = sha;
        ran_at = ran_at;
        outcome = outcome;
        pages_read = pages_read;
        pages_failed = pages_failed;
      })
        ∷ [];
}

unfoldable pub producers : String → Queue → List Producer
producers pass q =
    map (λ (w : Worker). w.producer)
      (sort_by (λ (a b : Worker). text_lt a.name b.name)
        (select (λ (w : Worker). str_eq w.pass pass) q.worker))
