-- ===== src/Orchestrator/Session/Saves.antt =====
-- When a response is saved, and when a session can be resumed.
use tac_master.Shared.{
  ℕ, String, true, false, ◌≡◌, ◌↔◌, ◌⊎◌, none, some, arith, Bool-cases, Option-cases, inl, inr,
  any_row, find_row, any-of_find, any-none_of_find, ok, err, Exception, integrity_error,
}
use tac_master.Orchestrator.Tables.{OrchestratorRow, Db}
use tac_master.Orchestrator.Agents.{is_agent, get}
use tac_master.Orchestrator.Chat.{is_message}
use tac_master.Orchestrator.Session.{record_response, resume_session}

-- A response is saved exactly when its key is new and its session has a row. Otherwise the database
-- refuses it: the `ValueError` for a session without a row is never raised.
pub record_response_fails :
    (now : ℕ) (id oid message sender : String) (cost input_tokens output_tokens : ℕ) (db : Db)
    (e : Exception)
    → (record_response now id oid message sender cost input_tokens output_tokens db ≡ err e) ↔ (
        (e ≡ integrity_error)
        × ((any_row (is_message id) db.chat_messages ≡ true) ⊎ (get oid db ≡ none)))
unfolding record_response get
record_response_fails now id oid message sender cost input_tokens output_tokens db e =
    elim (Bool-cases (any_row (is_message id) db.chat_messages)) [
      | inl taken ↦ rw taken (ground arith)
      | inr free ↦ elim (Option-cases (find_row (is_agent oid) db.orchestrator_agents)) [
        | inl gone ↦
            rw
              (
                record_response,
                free,
                any-none_of_find (is_agent oid) db.orchestrator_agents gone,
                gone,
              )
              (ground arith)
        | inr (r, found) ↦
            rw
              (
                record_response,
                free,
                any-of_find (is_agent oid) db.orchestrator_agents r found,
                found,
              )
              (ground arith)
      ]
    ]

-- A session is resumed exactly when it has a row that is not archived, and then with that row.
pub resume_session_iff :
    (oid : String) (db : Db) (row : OrchestratorRow)
    → (resume_session oid db ≡ ok row) ↔ ((get oid db ≡ some row) × (row.archived ≡ false))
unfolding resume_session get
resume_session_iff oid db row = ground arith
