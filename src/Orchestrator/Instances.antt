-- ===== src/Orchestrator/Instances.antt =====
-- AgentInstanceRepo of orchestrator/db_repositories.py.
use tac_master.Shared.{
  ℕ, String, Bool, true, false, Option, none, some, List, [], ◌∷◌, ◌++◌, if◌then◌else◌, ◌==◌,
  string_eq, find_row, update_rows, any_row, select_rows, Result, ok, err, integrity_error,
}
use tac_master.Orchestrator.Tables.{
  AgentInstanceRow, Db, Metadata, Json, txt, num, is_value, order_by,
}
use tac_master.Orchestrator.Agents.{is_agent}

-- WHERE id = ?
abbrev pub is_instance_id : String → AgentInstanceRow → Bool
is_instance_id instance_id r = r.id == instance_id

-- `d[key] = value`: a key that is there keeps its place.
unfoldable pub put : String → Json → Metadata → Metadata
put key value [] = (key, value) ∷ []
put key value ((k, v) ∷ rest) =
    if k == key then (key, value) ∷ rest else (k, v) ∷ put key value rest

unfoldable pub put_if : String → Option Json → Metadata → Metadata
unfolding put
put_if key none metadata = metadata
put_if key (some value) metadata = put key value metadata

-- `{**(metadata or {}), **extra}`
unfoldable pub merged_metadata : Option ℕ → Option String → Metadata → Metadata
unfolding put_if
merged_metadata issue_number cleo_task_id metadata =
    put_if "cleo_task_id" (elim cleo_task_id [ none ↦ none | some t ↦ some (txt t) ])
      (put_if "issue_number" (elim issue_number [ none ↦ none | some n ↦ some (num n) ]) metadata)

-- The columns that a caller of `create` gives.
pub record NewInstance : Type 0 where
  pub orchestrator_agent_id : String
  pub adw_id : Option String
  pub session_id : Option String
  pub status : String
  pub phase : Option String
  pub issue_number : Option ℕ
  pub cleo_task_id : Option String
  pub name : String
  pub model : String
  pub system_prompt : Option String
  pub working_dir : Option String
  pub git_worktree : Option String
  pub metadata : Metadata

abbrev pub instance_row : ℕ → String → NewInstance → AgentInstanceRow
unfolding merged_metadata
instance_row now id given = record {
  id = id;
  orchestrator_agent_id = given.orchestrator_agent_id;
  name = given.name;
  model = given.model;
  system_prompt = given.system_prompt;
  working_dir = given.working_dir;
  git_worktree = given.git_worktree;
  status = given.status;
  session_id = given.session_id;
  adw_id = given.adw_id;
  adw_step = given.phase;
  input_tokens = 0;
  output_tokens = 0;
  total_cost = 0;
  archived = false;
  metadata = merged_metadata given.issue_number given.cleo_task_id given.metadata;
  created_at = now;
  updated_at = now;
}

-- id is the primary key, and orchestrator_agent_id a foreign key.
unfoldable pub create : ℕ → String → NewInstance → Db → Result (AgentInstanceRow × Db)
create now id given db =
    if any_row (is_instance_id id) db.agent_instances
    then err integrity_error
    else if any_row (is_agent given.orchestrator_agent_id) db.orchestrator_agents
    then ok (
      instance_row now id given,
      record db { agent_instances = db.agent_instances ++ instance_row now id given ∷ [] },
    )
    else err integrity_error

unfoldable pub get : String → Db → Option AgentInstanceRow
get instance_id db = find_row (is_instance_id instance_id) db.agent_instances

unfoldable pub list_for_adw : String → Db → List AgentInstanceRow
unfolding order_by
list_for_adw adw_id db =
    order_by (λ r. r.created_at) (select_rows (λ r. is_value adw_id r.adw_id) db.agent_instances)

unfoldable pub list_for_orchestrator : String → Db → List AgentInstanceRow
unfolding order_by
list_for_orchestrator agent_id db =
    order_by (λ r. r.created_at)
      (select_rows (λ r. r.orchestrator_agent_id == agent_id) db.agent_instances)

unfoldable pub update_instance : String → (AgentInstanceRow → AgentInstanceRow) → Db → Db
update_instance instance_id change db = record db {
  agent_instances = update_rows (is_instance_id instance_id) change db.agent_instances;
}

-- The phase is left as it is where none is given.
unfoldable pub update_status : ℕ → String → String → Option String → Db → Db
unfolding update_instance
update_status now instance_id status (some phase) =
    update_instance instance_id
      (λ r. record r { status = status; adw_step = some phase; updated_at = now })
update_status now instance_id status none =
    update_instance instance_id (λ r. record r { status = status; updated_at = now })

unfoldable pub update_costs : ℕ → String → ℕ → ℕ → ℕ → Db → Db
unfolding update_instance
update_costs now instance_id input_tokens output_tokens total_cost =
    update_instance instance_id (λ r. record r {
      input_tokens = input_tokens;
      output_tokens = output_tokens;
      total_cost = total_cost;
      updated_at = now;
    })

unfoldable pub complete : ℕ → String → String → Db → Db
unfolding update_instance
complete now instance_id status =
    update_instance instance_id
      (λ r. record r { status = status; archived = true; updated_at = now })
