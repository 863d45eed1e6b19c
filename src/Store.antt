-- ===== src/Store.antt =====
-- The SQLite state store (orchestrator/state_store.py): one list of rows for each table, and one
-- function for each method. `now` and `day` are the clock's reading in the method.
mod Rows
pub mod Issues
pub mod Runs
pub mod Active
pub mod Usage
pub mod Balance
pub use Rows.*
use tac_master.Shared.{
  ℕ, suc, ◌+◌, String, Bool, true, false, ◌&&◌, Option, none, some, List, [], ◌∷◌, ◌++◌, Text,
  if◌then◌else◌, ◌==◌, nat_eq, string_eq, find_row, update_rows, count_rows, any_row, select_rows,
  length, Result, ok, err, integrity_error,
}

-- ON CONFLICT(url) DO UPDATE leaves added_at and last_polled_at as they are.
unfoldable pub upsert_repo : ℕ → String → Text → Bool → String → String → Bool → Store → Store
upsert_repo now url slug is_self workflow model_set auto_merge s = record s {
  repos =
      if any_row (λ r. r.url == url) s.repos
      then update_rows (λ r. r.url == url)
          (λ r. record r {
            slug = slug;
            is_self = is_self;
            default_workflow = workflow;
            model_set = model_set;
            auto_merge = auto_merge;
          })
          s.repos
      else s.repos
        ++ record {
          url = url;
          slug = slug;
          is_self = is_self;
          default_workflow = workflow;
          model_set = model_set;
          auto_merge = auto_merge;
          added_at = now;
          last_polled_at = none;
        }
          ∷ [];
}

unfoldable pub mark_polled : ℕ → String → Store → Store
mark_polled now url s = record s {
  repos = update_rows (λ r. r.url == url) (λ r. record r { last_polled_at = some now }) s.repos;
}

-- The row that `seen_issue` inserts.
abbrev pub new_issue : ℕ → String → ℕ → Text → Option ℕ → IssueRow
new_issue now url n title comment = record {
  repo_url = url;
  issue_number = n;
  title = title;
  status = IssueStatus.seen;
  first_seen_at = now;
  last_updated_at = now;
  last_comment_id = comment;
}

-- The row of an issue is inserted once, which takes a row of its repository (a foreign key), and
-- updated from then on. The status from before the update is returned.
unfoldable pub seen_issue : ℕ → String → ℕ → Text → Option ℕ → Store → Result (IssueStatus × Store)
seen_issue now url n title comment s = elim (find_row (is_issue url n) s.issues) [
  | none ↦
      if any_row (λ r. r.url == url) s.repos
      then ok (
        IssueStatus.seen,
        record s { issues = s.issues ++ new_issue now url n title comment ∷ [] },
      )
      else err integrity_error
  | some row ↦ ok (
    row.status,
    record s {
      issues =
          update_rows (is_issue url n)
            (λ r. record r { title = title; last_updated_at = now; last_comment_id = comment })
            s.issues;
    },
  )
]

unfoldable pub set_issue_status : ℕ → String → ℕ → IssueStatus → Store → Store
set_issue_status now url n status s = record s {
  issues =
      update_rows (is_issue url n) (λ r. record r { status = status; last_updated_at = now })
        s.issues;
}

-- The row that `create_run` inserts.
abbrev pub new_run : ℕ → String → String → ℕ → String → String → Option Text → RunRow
new_run now adw_id url n workflow model_set cleo_task_id = record {
  adw_id = adw_id;
  repo_url = url;
  issue_number = n;
  workflow = workflow;
  model_set = model_set;
  cleo_task_id = cleo_task_id;
  worktree_path = none;
  status = RunStatus.pending;
  started_at = some now;
  ended_at = none;
  pid = none;
  tokens_used = 0;
}

-- adw_id is the primary key, and repo_url a foreign key.
unfoldable pub create_run :
    ℕ → String → String → ℕ → String → String → Option Text → Store → Result (Unit {0} × Store)
create_run now adw_id url n workflow model_set cleo_task_id s =
    if any_row (is_run adw_id) s.runs
    then err integrity_error
    else if any_row (λ r. r.url == url) s.repos
    then ok (
      tt,
      record s { runs = s.runs ++ new_run now adw_id url n workflow model_set cleo_task_id ∷ [] },
    )
    else err integrity_error

-- `update_run(adw_id, **kwargs)`: `change` sets the columns that the keywords name.
unfoldable pub update_run : String → (RunRow → RunRow) → Store → Store
update_run adw_id change s = record s { runs = update_rows (is_run adw_id) change s.runs }

-- `active_runs_count()`
unfoldable pub active_runs_count : Store → ℕ
active_runs_count s = count_rows (λ r. is_active r.status) s.runs

-- `active_runs_count(repo_url)`, which counts all runs where that is empty
unfoldable pub active_runs_count_of : String → Store → ℕ
active_runs_count_of url s =
    if url == ""
    then count_rows (λ r. is_active r.status) s.runs
    else count_rows (λ r. is_active r.status && r.repo_url == url) s.runs

unfoldable pub list_active_runs : Store → List RunRow
list_active_runs s = select_rows (λ r. is_active r.status) s.runs

unfoldable pub get_cleo_task_id : String → Store → Option Text
get_cleo_task_id adw_id s = elim (find_row (is_run adw_id) s.runs) [
  | none ↦ none
  | some row ↦ row.cleo_task_id
]

unfoldable pub set_agent_instance_cleo_task_id : String → Text → Store → Store
set_agent_instance_cleo_task_id adw_id task s = record s {
  agent_instances =
      update_rows (is_instance adw_id) (λ r. record r { cleo_task_id = some task })
        s.agent_instances;
}

-- The primary key is AUTOINCREMENT and no row is ever deleted, so it counts the rows.
unfoldable pub start_phase : ℕ → String → String → Store → Result (ℕ × Store)
start_phase now adw_id phase s =
    let id = suc (length s.phases) in
    if any_row (is_run adw_id) s.runs
    then ok (
      id,
      record s {
        phases =
            s.phases
            ++ record {
              id = id;
              adw_id = adw_id;
              phase = phase;
              status = "running";
              started_at = now;
              ended_at = none;
              tokens_used = 0;
            }
              ∷ [];
      },
    )
    else err integrity_error

unfoldable pub end_phase : ℕ → ℕ → String → ℕ → Store → Store
end_phase now phase_id status tokens s = record s {
  phases =
      update_rows (λ r. r.id == phase_id)
        (λ r. record r { status = status; ended_at = some now; tokens_used = tokens }) s.phases;
}

unfoldable pub record_event : ℕ → String → Payload → Option String → Option String → Store → Store
record_event now kind payload url adw_id s = record s {
  events =
      s.events
      ++ record { ts = now; repo_url = url; adw_id = adw_id; kind = kind; payload = payload } ∷ [];
}

-- INSERT … ON CONFLICT(day, repo_url) DO UPDATE, which adds to the counters of the row.
unfoldable pub add_usage : String → String → ℕ → ℕ → List UsageRow → List UsageRow
add_usage day key tokens runs usage =
    if any_row (is_usage day key) usage
    then update_rows (is_usage day key)
        (λ r. record r { tokens_used = r.tokens_used + tokens; runs_count = r.runs_count + runs })
        usage
    else usage ++ record { day = day; repo_url = key; tokens_used = tokens; runs_count = runs } ∷ []

abbrev pub global_key : String
global_key = "__global__"

unfoldable pub add_tokens : String → String → ℕ → Store → Store
unfolding add_usage
add_tokens day url tokens s = record s {
  budget_usage = add_usage day global_key tokens 0 (add_usage day url tokens 0 s.budget_usage);
}

unfoldable pub add_run_count : String → String → ℕ → Store → Store
unfolding add_usage
add_run_count day url n s = record s {
  budget_usage = add_usage day global_key 0 n (add_usage day url 0 n s.budget_usage);
}

unfoldable pub usage_today : String → String → Store → ℕ × ℕ
usage_today day url s = elim (find_row (is_usage day url) s.budget_usage) [
  | none ↦ (0, 0)
  | some row ↦ (row.tokens_used, row.runs_count)
]
