-- ===== src/Orchestrator/Session.antt =====
-- OrchestratorAgentModel (orchestrator/orchestrator_agent.py): the session's lifecycle over the
-- repositories. Its connection enforces foreign keys.
pub mod Saves
use tac_master.Shared.{
  ℕ, ◌+◌, String, Bool, true, false, Option, none, some, List, [], ◌∷◌, if◌then◌else◌, ◌==◌,
  string_eq, Result, ok, err, value_error,
}
use tac_master.Orchestrator.Tables.{OrchestratorRow, ChatRow, LogRow, Db, Metadata, Json, num}
use tac_master.Orchestrator.Agents
use tac_master.Orchestrator.Chat
use tac_master.Orchestrator.Logs

unfoldable pub spawn_session : ℕ → String → String → Option String → Db → Result (String × Db)
unfolding Agents.create
spawn_session now id system_prompt working_dir db =
    elim (Agents.create now id none "idle" (some system_prompt) [] working_dir db) [
      | err e ↦ err e
      | ok (row, after) ↦ ok (row.id, after)
    ]

unfoldable pub resume_session : String → Db → Result OrchestratorRow
unfolding Agents.get
resume_session agent_id db = elim (Agents.get agent_id db) [
  | none ↦ err value_error
  | some row ↦ if row.archived then err value_error else ok row
]

-- The metadata that is attached to the row of a message.
abbrev pub message_metadata : ℕ → ℕ → ℕ → Metadata
message_metadata cost input_tokens output_tokens =
    ("input_tokens", num input_tokens)
    ∷ ("output_tokens", num output_tokens)
    ∷ ("cost_usd", num cost)
    ∷ []

-- One transaction: the message and the totals. Where it raises, nothing of it is written.
unfoldable pub record_response :
    ℕ → String → String → String → String → ℕ → ℕ → ℕ → Db → Result (ChatRow × Db)
unfolding Chat.insert Agents.get Agents.update_costs
record_response now id agent_id message sender cost input_tokens output_tokens db =
    elim (Chat.insert now id agent_id sender message
      (message_metadata cost input_tokens output_tokens) "orchestrator" none none db) [
        | err e ↦ err e
        | ok (chat_row, inserted) ↦ elim (Agents.get agent_id inserted) [
          | none ↦ err value_error
          | some current ↦ ok (
            chat_row,
            Agents.update_costs now agent_id (current.input_tokens + input_tokens)
                (current.output_tokens + output_tokens) (current.total_cost + cost) inserted,
          )
        ]
      ]

-- `_type_to_level.get(log_type, "INFO")`
unfoldable pub level_of : String → String
level_of log_type = if log_type == "thinking" then "DEBUG" else "INFO"

-- The row that `log_block` inserts.
abbrev pub log_entry : ℕ → String → String → String → String → Metadata → LogRow
log_entry now id agent_id log_type content payload = record {
  id = id;
  orchestrator_agent_id = some agent_id;
  agent_id = none;
  session_id = none;
  adw_id = none;
  adw_step = none;
  level = level_of log_type;
  log_type = log_type;
  event_type = none;
  content = content;
  payload = payload;
  summary = none;
  entry_index = none;
  timestamp = now;
}

unfoldable pub log_block :
    ℕ → String → String → String → String → Metadata → Db → Result (LogRow × Db)
unfolding Logs.insert
log_block now id agent_id log_type content payload =
    Logs.insert (log_entry now id agent_id log_type content payload)

unfoldable pub close_session : ℕ → String → Db → Db
unfolding Agents.archive
close_session = Agents.archive
