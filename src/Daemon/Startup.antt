-- ===== src/Daemon/Startup.antt =====
-- The start of the daemon (main and cmd_doctor of orchestrator/daemon.py), without the dry run. What
-- the environment, the file system and the commands answer is given.
pub mod Guards
use tac_master.Shared.{
  ℕ, suc, ◌+◌, String, Bool, true, false, not, ◌&&◌, ◌||◌, Option, none, some, List, [], ◌∷◌, ◌++◌,
  if◌then◌else◌, ◌==◌, string_eq, any_row, ◌≡◌, refl, sym, ap, ◌∙◌, Bool-cases, inl, inr, ◌⊎◌,
  Result, ok, err, external_error, Exec, pure, ◌>>=◌, ◌>>◌,
}
use tac_master.Store.{Store}
use tac_master.Orchestrator.Tables.{limit}
use tac_master.Config.{RepoConfig, BudgetsConfig}
use tac_master.Config.Validator.{Document, Warning, validate_all, has_fatal}
use tac_master.Tokens.{Prices}
use tac_master.Dispatch.Poll.{poll_once}
use tac_master.Dispatch.Reap.{reap_finished_runs}
use tac_master.Daemon.{World, run_cycles}

-- What `cmd_doctor` asks, none where a call raises.
pub record Checks : Type 0 where
  pub github_user : Bool
  pub github_pat : Bool
  pub anthropic_api_key : Bool
  pub github_auth : Option Bool
  pub has_adws : Bool
  pub has_claude : Bool
  pub claude_found : Bool
  pub claude_runs : Option Bool
  -- The images of the repositories that use podman, in their order.
  pub images : List String
  pub podman_found : Bool
  pub podman_runs : Bool
  pub image_built : String → Option Bool
  -- whether the query for the names of the tables answers
  pub tables_answer : Bool
  pub has_prices : Bool

-- The SQLite file: the names of its tables, without those that SQLite makes for an index, and the
-- rows of the tables that the daemon's steps read and write.
pub record Database : Type 0 where
  pub tables : List String
  pub store : Store

-- Where a part raises while it is opened, after how many of its tables; none where it opens.
pub record Openings : Type 0 where
  pub state_store : Option ℕ
  pub knowledge_base : Option ℕ
  pub token_tracker : Option ℕ

abbrev pub has_table : String → List String → Bool
has_table name tables = any_row (λ t. t == name) tables

-- CREATE TABLE IF NOT EXISTS
unfoldable pub create_table : String → List String → List String
unfolding any_row
create_table name tables = if has_table name tables then tables else tables ++ name ∷ []

unfoldable pub create_tables : List String → List String → List String
unfolding create_table
create_tables [] tables = tables
create_tables (name ∷ names) tables = create_tables names (create_table name tables)

-- The schemas of the three parts, in their order.
abbrev pub store_tables : List String
store_tables =
    "repos" ∷ "issues" ∷ "runs" ∷ "phases" ∷ "events" ∷ "budget_usage" ∷ "schema_version"
    ∷ "orchestrator_agents" ∷ "agent_instances" ∷ "chat_messages" ∷ "system_logs" ∷ []

abbrev pub knowledge_tables : List String
knowledge_tables = "lessons" ∷ "lessons_fts" ∷ []

abbrev pub tracker_tables : List String
tracker_tables = "token_ledger" ∷ []

-- `required`
abbrev pub required_tables : List String
required_tables =
    "repos" ∷ "issues" ∷ "runs" ∷ "phases" ∷ "events" ∷ "budget_usage" ∷ "token_ledger" ∷ "lessons"
    ∷ []

-- The `__init__` of a part: whether it ends, and the tables.
unfoldable pub open_part : List String → Option ℕ → List String → Bool × List String
unfolding create_tables limit
open_part names none tables = (true, create_tables names tables)
open_part names (some n) tables = (false, create_tables (limit n names) tables)

-- `StateStore`, `KnowledgeBase`, what is built between them where it does not raise, `TokenTracker`.
unfoldable pub open_parts : Openings → Bool → List String → Bool × List String
unfolding open_part
open_parts o built tables =
    let store = open_part store_tables o.state_store tables in
    let knowledge = open_part knowledge_tables o.knowledge_base store.1 in
    let tracker = open_part tracker_tables o.token_tracker knowledge.1 in
    if store.0
    then (if knowledge.0
        then (if built then tracker else (false, knowledge.1))
        else (false, knowledge.1))
    else (false, store.1)

abbrev pub problem : Bool → ℕ
problem true = 0
problem false = 1

abbrev pub problem_of : Option Bool → ℕ
problem_of none = 1
problem_of (some b) = problem b

-- The loop over the images: each is asked for once, and a call that raises ends it.
unfoldable pub image_problems : (String → Option Bool) → List String → List String → ℕ
unfolding any_row
image_problems built seen [] = 0
image_problems built seen (image ∷ images) = elim (any_row (λ i. i == image) seen) [
  | true ↦ image_problems built seen images
  | false ↦ elim (built image) [
    | none ↦ 1
    | some b ↦ problem b + image_problems built (image ∷ seen) images
  ]
]

unfoldable pub podman_problems : Checks → ℕ
unfolding image_problems
podman_problems c = elim c.images [
  | [] ↦ 0
  | ◌∷◌ image images ↦
      if not c.podman_found
      then 1
      else if not c.podman_runs
      then 1
      else image_problems c.image_built [] (image ∷ images)
]

-- `required - set(tables)`, where there is something left of it
unfoldable pub is_missing : List String → Bool
unfolding any_row
is_missing tables = any_row (λ name. not (has_table name tables)) required_tables

-- `cmd_doctor`: the number of problems, and the database that it leaves.
unfoldable pub cmd_doctor : Checks → Openings → Database → ℕ × Database
unfolding podman_problems open_parts is_missing
cmd_doctor c openings d =
    let opened = open_parts openings true d.tables in
    (
      problem c.github_user
          + problem c.github_pat
          + problem c.anthropic_api_key
          + problem_of c.github_auth
          + problem c.has_adws
          + problem c.has_claude
          + (if c.claude_found then problem_of c.claude_runs else 1)
          + podman_problems c
          + problem (opened.0 && c.tables_answer && not (is_missing opened.1))
          + problem c.has_prices,
      record d { tables = opened.1 },
    )

pub record Args : Type 0 where
  pub once : Bool
  pub doctor : Bool

module _ (day : String) (cfg : BudgetsConfig) (repos : List RepoConfig) (prices : Prices) where
  -- The end of `main`: with --once an exception is not caught.
  unfoldable pub serve : Args → World → List World → Exec Store ℕ
  unfolding poll_once reap_finished_runs run_cycles
  serve args w ws =
      if args.once
      then (poll_once w.now day cfg w.gh w.answers repos
          >> (reap_finished_runs w.now day prices w.outside >> pure 0))
      else (run_cycles day cfg repos prices ws >> pure 0)

  -- `main`: whether the configuration loads, the two files, the doctor's answers, how the parts open
  -- and whether what `_build_system` builds between them does not raise, the world of the one cycle,
  -- and those of the turns. The result is the exit code.
  unfoldable pub main :
      Args
      → Bool
      → Document
      → Document
      → Checks
      → Openings
      → Bool
      → World
      → List World
      → Exec Database ℕ
  unfolding cmd_doctor open_parts
  main args loads repos_yaml budgets_yaml checks openings built w ws d =
      let examined = cmd_doctor checks openings d in
      let opened = open_parts openings built d.tables in
      let served = serve args w ws d.store in
      if not loads then (ok 2, d) else elim (validate_all repos_yaml budgets_yaml) [
        | err e ↦ (err e, d)
        | ok warnings ↦
            if has_fatal warnings
            then (ok 3, d)
            else if args.doctor
            then (ok examined.0, examined.1)
            else if opened.0
            then (served.0, record { tables = opened.1; store = served.1 })
            else (err external_error, record d { tables = opened.1 })
      ]
