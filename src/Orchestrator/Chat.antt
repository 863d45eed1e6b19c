-- ===== src/Orchestrator/Chat.antt =====
-- ChatMessageRepo of orchestrator/db_repositories.py.
pub mod History
use tac_master.Shared.{
  ℕ, String, Bool, true, false, Option, none, some, List, [], ◌∷◌, ◌++◌, if◌then◌else◌, ◌==◌,
  string_eq, update_rows, any_row, select_rows, Result, ok, err, integrity_error,
}
use tac_master.Orchestrator.Tables.{ChatRow, Db, Metadata, order_by, limit}
use tac_master.Orchestrator.Agents.{is_agent}
use tac_master.Orchestrator.Instances.{is_instance_id}

abbrev pub is_message : String → ChatRow → Bool
is_message message_id r = r.id == message_id

-- agent_id is NULL or names a row of agent_instances.
unfoldable pub refers : Option String → Db → Bool
refers none db = true
refers (some agent_id) db = any_row (is_instance_id agent_id) db.agent_instances

-- The row is checked for its primary key and for both foreign keys.
unfoldable pub insert :
    ℕ
    → String
    → String
    → String
    → String
    → Metadata
    → String
    → Option String
    → Option String
    → Db
    → Result (ChatRow × Db)
unfolding refers
insert now id orchestrator_agent_id sender message metadata receiver agent_id session_id db =
    let row : ChatRow = record {
      id = id;
      orchestrator_agent_id = orchestrator_agent_id;
      sender_type = sender;
      receiver_type = receiver;
      message = message;
      summary = none;
      agent_id = agent_id;
      session_id = session_id;
      metadata = metadata;
      created_at = now;
      updated_at = now;
    } in
    if any_row (is_message id) db.chat_messages
    then err integrity_error
    else if any_row (is_agent orchestrator_agent_id) db.orchestrator_agents
    then if refers agent_id db
      then ok (row, record db { chat_messages = db.chat_messages ++ row ∷ [] })
      else err integrity_error
    else err integrity_error

unfoldable pub get_history : String → ℕ → Db → List ChatRow
unfolding order_by limit
get_history orchestrator_agent_id n db = limit n (
    order_by (λ r. r.created_at)
      (select_rows (λ r. r.orchestrator_agent_id == orchestrator_agent_id) db.chat_messages))

unfoldable pub update_summary : ℕ → String → String → Db → Db
update_summary now message_id summary db = record db {
  chat_messages =
      update_rows (is_message message_id)
        (λ r. record r { summary = some summary; updated_at = now }) db.chat_messages;
}
