-- ===== src/Store/Rows.antt =====
-- The tables' rows. Where the program only stores and compares a text it is a `String`; what it
-- takes apart, such as a title, is a `Text`. The surrogate keys of issues and events are left out,
-- since the program never reads them.
use tac_master.Shared.{
  ℕ, String, Text, Bool, true, false, ◌&&◌, Option, none, some, List, [], ◌==◌, nat_eq, string_eq,
}

pub data IssueStatus : Type 0 where
  seen queued dispatched completed failed aborted skipped : IssueStatus

pub data RunStatus : Type 0 where
  pending running succeeded incomplete failed aborted : RunStatus

pub record RepoRow : Type 0 where
  pub url : String
  pub slug : Text
  pub is_self : Bool
  pub default_workflow : String
  pub model_set : String
  pub auto_merge : Bool
  pub added_at : ℕ
  pub last_polled_at : Option ℕ

pub record IssueRow : Type 0 where
  pub repo_url : String
  pub issue_number : ℕ
  pub title : Text
  pub status : IssueStatus
  pub first_seen_at : ℕ
  pub last_updated_at : ℕ
  pub last_comment_id : Option ℕ

pub record RunRow : Type 0 where
  pub adw_id : String
  pub repo_url : String
  pub issue_number : ℕ
  pub workflow : String
  pub model_set : String
  pub cleo_task_id : Option Text
  pub worktree_path : Option String
  pub status : RunStatus
  pub started_at : Option ℕ
  pub ended_at : Option ℕ
  pub pid : Option ℕ
  pub tokens_used : ℕ

pub record PhaseRow : Type 0 where
  pub id : ℕ
  pub adw_id : String
  pub phase : String
  pub status : String
  pub started_at : ℕ
  pub ended_at : Option ℕ
  pub tokens_used : ℕ

-- Why a dispatch is refused: the cap, with the value and the limit that the message shows.
pub data Refusal : Type 0 where
  global_concurrent repo_concurrent global_tokens global_runs repo_tokens repo_runs :
      (value limit : ℕ) → Refusal

-- The JSON of an event's payload, by the keys that say what it is about; the texts of exceptions
-- and the names of scripts, runtimes and log files are left out.
pub data Payload : Type 0 where
  poll_error : String → Payload
  dispatch_refused : String → ℕ → Refusal → Payload
  lessons_injected : String → List String → Payload
  spawn_error : String → Payload
  lead_started : String → ℕ → String → ℕ → Payload
  hang_timeout : String → ℕ → Payload
  run_finished : String → RunStatus → Payload

pub record EventRow : Type 0 where
  pub ts : ℕ
  pub repo_url : Option String
  pub adw_id : Option String
  pub kind : String
  pub payload : Payload

pub record UsageRow : Type 0 where
  pub day : String
  pub repo_url : String
  pub tokens_used : ℕ
  pub runs_count : ℕ

-- Of agent_instances only the two columns that the store's own methods use.
pub record InstanceRow : Type 0 where
  pub adw_id : Option String
  pub cleo_task_id : Option Text

-- token_ledger, which orchestrator/token_tracker.py declares.
pub record LedgerRow : Type 0 where
  pub adw_id : String
  pub repo_url : String
  pub phase_name : String
  pub file_path : String
  pub model : Text
  pub input_tokens : ℕ
  pub output_tokens : ℕ
  pub cache_write : ℕ
  pub cache_read : ℕ
  pub cost_usd : ℕ
  pub attributed_at : ℕ

pub record Store : Type 0 where
  pub repos : List RepoRow
  pub issues : List IssueRow
  pub runs : List RunRow
  pub phases : List PhaseRow
  pub events : List EventRow
  pub budget_usage : List UsageRow
  pub agent_instances : List InstanceRow
  pub token_ledger : List LedgerRow

abbrev pub empty : Store
empty = record {
  repos = [];
  issues = [];
  runs = [];
  phases = [];
  events = [];
  budget_usage = [];
  agent_instances = [];
  token_ledger = [];
}

-- WHERE repo_url=? AND issue_number=?
abbrev pub is_issue : String → ℕ → IssueRow → Bool
is_issue url n r = r.repo_url == url && r.issue_number == n

-- WHERE adw_id=?
abbrev pub is_run : String → RunRow → Bool
is_run adw_id r = r.adw_id == adw_id

-- WHERE day=? AND repo_url=?
abbrev pub is_usage : String → String → UsageRow → Bool
is_usage day url r = r.day == day && r.repo_url == url

-- WHERE adw_id=?, where the column may be NULL
abbrev pub is_instance : String → InstanceRow → Bool
is_instance adw_id r = elim r.adw_id [ none ↦ false | some id ↦ id == adw_id ]

-- status IN ('pending', 'running')
abbrev pub is_active : RunStatus → Bool
is_active RunStatus.pending = true
is_active RunStatus.running = true
is_active _ = false
