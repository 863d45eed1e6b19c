-- ===== src/Orchestrator/Agents.antt =====
-- OrchestratorAgentRepo of orchestrator/db_repositories.py. `id` is the fresh key that
-- `uuid.uuid4` gives, with its prefix, and `now` the clock's reading.
use tac_master.Shared.{
  ℕ, String, Bool, true, false, not, Option, none, some, List, [], ◌∷◌, ◌++◌, if◌then◌else◌, ◌==◌,
  string_eq, leb, find_row, update_rows, any_row, select_rows, Result, ok, err, integrity_error,
}
use tac_master.Orchestrator.Tables.{OrchestratorRow, Db, Metadata}

-- WHERE id = ?
abbrev pub is_agent : String → OrchestratorRow → Bool
is_agent agent_id r = r.id == agent_id

unfoldable pub create :
    ℕ
    → String
    → Option String
    → String
    → Option String
    → Metadata
    → Option String
    → Db
    → Result (OrchestratorRow × Db)
create now id session_id status system_prompt metadata working_dir db =
    let row : OrchestratorRow = record {
      id = id;
      session_id = session_id;
      system_prompt = system_prompt;
      status = status;
      working_dir = working_dir;
      input_tokens = 0;
      output_tokens = 0;
      total_cost = 0;
      archived = false;
      metadata = metadata;
      created_at = now;
      updated_at = now;
    } in
    if any_row (is_agent id) db.orchestrator_agents
    then err integrity_error
    else ok (row, record db { orchestrator_agents = db.orchestrator_agents ++ row ∷ [] })

unfoldable pub get : String → Db → Option OrchestratorRow
get agent_id db = find_row (is_agent agent_id) db.orchestrator_agents

-- ORDER BY created_at DESC LIMIT 1: of rows of the same second the first.
unfoldable pub latest : List OrchestratorRow → Option OrchestratorRow
latest [] = none
latest (r ∷ rows) = elim (latest rows) [
  | none ↦ some r
  | some best ↦ if leb best.created_at r.created_at then some r else some best
]

unfoldable pub get_active : Db → Option OrchestratorRow
unfolding latest
get_active db = latest (select_rows (λ r. not r.archived) db.orchestrator_agents)

-- UPDATE orchestrator_agents SET … WHERE id = ?
unfoldable pub update_agent : String → (OrchestratorRow → OrchestratorRow) → Db → Db
update_agent agent_id change db = record db {
  orchestrator_agents = update_rows (is_agent agent_id) change db.orchestrator_agents;
}

unfoldable pub update_status : ℕ → String → String → Db → Db
unfolding update_agent
update_status now agent_id status =
    update_agent agent_id (λ r. record r { status = status; updated_at = now })

unfoldable pub update_session : ℕ → String → Option String → Db → Db
unfolding update_agent
update_session now agent_id session_id =
    update_agent agent_id (λ r. record r { session_id = session_id; updated_at = now })

unfoldable pub update_costs : ℕ → String → ℕ → ℕ → ℕ → Db → Db
unfolding update_agent
update_costs now agent_id input_tokens output_tokens total_cost = update_agent agent_id (λ r.
    record r {
      input_tokens = input_tokens;
      output_tokens = output_tokens;
      total_cost = total_cost;
      updated_at = now;
    })

unfoldable pub archive : ℕ → String → Db → Db
unfolding update_agent
archive now agent_id = update_agent agent_id (λ r. record r { archived = true; updated_at = now })
