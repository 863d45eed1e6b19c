-- ===== src/Examples/Samples.antt =====
-- The sample configuration, world and stores.
use tac_master.Shared.{
  String, true, false, ◌≢◌, none, some, List, [], ◌∷◌, codes, arith, ok, eq_iff,
}
use tac_master.Store.{
  Store, RunRow, RunStatus, RepoRow, IssueRow, IssueStatus, empty, new_run, global_key,
}
use tac_master.Config.{RepoConfig, BudgetEntry, RawBudget, BudgetsConfig}
use tac_master.GitHub.{Issue, Comment, GitHub}
use tac_master.Tokens.{assistant, result}
use tac_master.Tokens.Attribution.{PhaseFile}
use tac_master.Dispatch.Launch.{Answers}
use tac_master.Dispatch.Poll.Steps.{all_none, all_more}
use tac_master.Dispatch.Poll.Caps.{AllNamed}
use tac_master.Dispatch.Reap.{Outside, gone, loaded, absent, CleoAnswers}
use tac_master.Daemon.{World}

abbrev pub url : String
url = "https://github.com/acme/app"

abbrev pub day : String
day = "2026-04-08"

abbrev pub repo : RepoConfig
repo = record {
  url = url;
  is_self = false;
  default_workflow = "sdlc";
  model_set = "base";
  triggers = "new_issue" ∷ "comment_adw" ∷ [];
  trigger_labels = [];
  auto_merge = false;
  runtime = codes "native";
}

abbrev pub nothing_raw : RawBudget
nothing_raw = record {
  max_tokens_per_day = none;
  max_runs_per_day = none;
  max_concurrent_runs = none;
  max_tokens_per_run = none;
}

abbrev pub entry : BudgetEntry
entry = record {
  max_tokens_per_day = 100;
  max_runs_per_day = 3;
  max_concurrent_runs = 2;
  max_tokens_per_run = 50;
}

abbrev pub cfg : BudgetsConfig
cfg = record {
  global = record {
    max_concurrent_runs = none;
    max_tokens_per_day = none;
    max_runs_per_day = none;
  };
  defaults = entry;
  repos = [];
  warn_at_pct = some 80;
}

abbrev pub issue : Issue
issue = record {
  number = 7;
  title = codes "[T42] Fix the login";
  body = [];
  labels = [];
  comments_count = 1;
}

abbrev pub comment : Comment
comment = record { id = 3; body = codes " ADW " }

abbrev pub github : GitHub
github = record {
  issues = λ _. some (record { is_pull_request = false; issue = issue } ∷ []);
  comments = λ _ _. some (comment ∷ []);
}

abbrev pub answers : Answers
answers = record {
  clone = ok tt;
  token = "ab12cd34";
  worktree = "/srv/trees/ab12cd34";
  lessons = ok [];
  environment = ok tt;
  spawn = ok 4321;
}

abbrev pub files : List PhaseFile
files =
    record {
      phase_name = "planner";
      file_path = "/srv/agents/ab12cd34/planner/raw_output.jsonl";
      lines =
          some (
            assistant
              (record {
                input_tokens = 10;
                output_tokens = 5;
                cache_creation_input_tokens = 0;
                cache_read_input_tokens = 2;
              })
              (codes "claude-sonnet-4"))
          ∷ some (result (some 900) none)
          ∷ [];
    }
    ∷ []

abbrev pub cleo : CleoAnswers
cleo = record { parent_title = some (codes "Fix the login"); added = true; new_task_id = none }

abbrev pub outside : Outside
outside = record {
  probe = gone;
  clone_state = loaded true false;
  tree_state = absent;
  root_state = absent;
  files = files;
  cleo = cleo;
  own_reflect = false;
  home_reflect = true;
}

abbrev pub world : World
world = record { now = 100; gh = github; answers = λ _ _. answers; outside = λ _. outside }

abbrev pub known : RepoRow
known = record {
  url = url;
  slug = codes "acme/app";
  is_self = false;
  default_workflow = "sdlc";
  model_set = "base";
  auto_merge = false;
  added_at = 1;
  last_polled_at = none;
}

abbrev pub seen : IssueRow
seen = record {
  repo_url = url;
  issue_number = 7;
  title = codes "[T42] Fix the login";
  status = IssueStatus.seen;
  first_seen_at = 2;
  last_updated_at = 2;
  last_comment_id = none;
}

-- A store with the repository and its issue.
abbrev pub stocked : Store
stocked = record empty { repos = known ∷ []; issues = seen ∷ [] }

abbrev pub run : RunRow
run = record (new_run 5 "ab12cd34" url 7 "sdlc" "base" none) {
  status = RunStatus.running;
  worktree_path = some "/srv/trees/ab12cd34";
  pid = some 4321;
}

-- The same with a run.
abbrev pub busy : Store
busy = record stocked { runs = run ∷ [] }

-- The same with a run that was never spawned.
abbrev pub leaked : Store
leaked = record stocked { runs = record run { pid = none } ∷ [] }

pub url-not_global : url ≢ global_key
url-not_global e = absurd (ground (arith, e, eq_iff url global_key))

pub repos-AllNamed : AllNamed (repo ∷ [])
repos-AllNamed = all_more url-not_global all_none
