-- ===== src/Orchestrator/Logs.antt =====
-- SystemLogRepo of orchestrator/db_repositories.py.
use tac_master.Shared.{
  ℕ, String, Bool, true, Option, none, some, List, [], ◌∷◌, ◌++◌, if◌then◌else◌, ◌==◌, string_eq,
  update_rows, any_row, select_rows, Result, ok, err, integrity_error,
}
use tac_master.Orchestrator.Tables.{LogRow, Db, is_value, order_by, limit}
use tac_master.Orchestrator.Agents.{is_agent}
use tac_master.Orchestrator.Chat.{refers}

abbrev pub is_log : String → LogRow → Bool
is_log log_id r = r.id == log_id

unfoldable pub refers_orchestrator : Option String → Db → Bool
refers_orchestrator none db = true
refers_orchestrator (some id) db = any_row (is_agent id) db.orchestrator_agents

-- INSERT of a row, whose id and timestamp are fresh and whose summary is NULL.
unfoldable pub insert : LogRow → Db → Result (LogRow × Db)
unfolding refers refers_orchestrator
insert row db =
    if any_row (is_log row.id) db.system_logs
    then err integrity_error
    else if refers_orchestrator row.orchestrator_agent_id db
    then if refers row.agent_id db
      then ok (row, record db { system_logs = db.system_logs ++ row ∷ [] })
      else err integrity_error
    else err integrity_error

unfoldable pub get_for_session : String → ℕ → Db → List LogRow
unfolding order_by limit
get_for_session session_id n db = limit n (
    order_by (λ r. r.timestamp)
      (select_rows (λ r. is_value session_id r.session_id) db.system_logs))

unfoldable pub get_for_adw : String → ℕ → Db → List LogRow
unfolding order_by limit
get_for_adw adw_id n db =
    limit n
      (order_by (λ r. r.timestamp) (select_rows (λ r. is_value adw_id r.adw_id) db.system_logs))

unfoldable pub update_summary : String → String → Db → Db
update_summary log_id summary db = record db {
  system_logs =
      update_rows (is_log log_id) (λ r. record r { summary = some summary }) db.system_logs;
}
