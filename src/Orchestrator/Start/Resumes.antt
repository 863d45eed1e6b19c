-- ===== src/Orchestrator/Start/Resumes.antt =====
-- A service that is bridge_started again goes on with the conversation.
use tac_master.Shared.{
  ℕ, String, true, ◌≡◌, refl, sym, ◌∙◌, some, ok, str_eq_self, find_row, Option-cases, inl, inr,
  not, select_rows,
}
use tac_master.Orchestrator.Tables.{OrchestratorRow, Db}
use tac_master.Orchestrator.Agents.{get_active, latest}
use tac_master.Orchestrator.Client.{truthy, get_session_id, resume_session}
use tac_master.Orchestrator.Conversation.{Conversation, view}
use tac_master.Orchestrator.Service.{Service}
use tac_master.Orchestrator.Service.Says.{Fresh}
use tac_master.Orchestrator.Service.Converses.{Ready, session-view}
use tac_master.Orchestrator.Start.{
  resolve_existing_session_id, new_client, new_service, hydrate, start_service, start_bridge,
}

module _ (uuid : ℕ → String) (now : ℕ) (cwd system_prompt model cli sid : String) (db : Db)
    (drawn : ℕ) (row : OrchestratorRow) (c : Conversation) where
  abbrev again : Service
  again =
      hydrate now (some sid)
        (new_service row.id (some sid) (new_client cwd system_prompt model cli) db drawn)

  again-Ready :
      truthy (some sid) ≡ true
      → view row.id db ≡ some c
      → c.session_id ≡ some sid
      → Fresh uuid drawn db.chat_messages
      → Ready uuid row.id true again c
  unfolding hydrate resume_session truthy find_row
  again-Ready named seen session fresh =
      rw (hydrate, named, session-view row.id db c seen ∙ session, str_eq_self sid)
        (record {
          same = refl;
          mode = refl;
          seen = seen;
          session = λ _. sym session;
          fresh = fresh;
        })

  again-session : truthy (some sid) ≡ true → again.client.session_id ≡ some sid
  unfolding hydrate resume_session truthy find_row
  again-session named = elim (Option-cases (get_session_id row.id db)) [
    | inl e ↦ rw (hydrate, named, e) refl
    | inr (stored, e) ↦ rw (hydrate, named, e) refl
  ]

resolved :
    (sid : String) (db : Db) (row : OrchestratorRow)
    → get_active db ≡ some row
    → row.session_id ≡ some sid
    → truthy (some sid) ≡ true
    → resolve_existing_session_id db ≡ some sid
unfolding resolve_existing_session_id get_active
resolved sid db row active recorded named =
    let chosen : latest
          (select_rows (λ (r : OrchestratorRow). not r.archived) db.orchestrator_agents)
        ≡ some row =
      active in
    rw (resolve_existing_session_id, chosen, recorded, named) refl

bridge_started :
    (uuid : ℕ → String) (now : ℕ) (cwd system_prompt model cli sid : String) (db : Db) (drawn : ℕ)
    (row : OrchestratorRow) (c : Conversation)
    → get_active db ≡ some row
    → start_service uuid now cwd system_prompt model cli (some sid) db drawn
      ≡ ok (again uuid now cwd system_prompt model cli sid db drawn row c)
unfolding start_service get_active
bridge_started uuid now cwd system_prompt model cli sid db drawn row c active =
    let chosen : latest
          (select_rows (λ (r : OrchestratorRow). not r.archived) db.orchestrator_agents)
        ≡ some row =
      active in
    rw (start_service, chosen) refl

-- A bridge that starts where a session of the active row is recorded goes on with it: the service
-- takes over the row's orchestrator and is ready for the next turn of its conversation, in a session
-- that counts as resumed, and its client resumes the recorded session. It holds for a row that is
-- found under its id, and for keys that are not drawn yet.
pub start_bridge-Ready :
    (uuid : ℕ → String) (now : ℕ) (cwd system_prompt model cli sid : String) (db : Db) (drawn : ℕ)
    (row : OrchestratorRow) (c : Conversation)
    → get_active db ≡ some row
    → row.session_id ≡ some sid
    → truthy (some sid) ≡ true
    → view row.id db ≡ some c
    → c.session_id ≡ some sid
    → Fresh uuid drawn db.chat_messages
    → (s : Service) × (start_bridge uuid now cwd system_prompt model cli db drawn ≡ ok s)
      × Ready uuid row.id true s c
      × (s.client.session_id ≡ some sid)
unfolding start_bridge
start_bridge-Ready uuid now cwd system_prompt model cli sid db drawn row c active recorded named
      seen session fresh =
    (
      again uuid now cwd system_prompt model cli sid db drawn row c,
      rw (start_bridge, resolved sid db row active recorded named)
          (bridge_started uuid now cwd system_prompt model cli sid db drawn row c active),
      again-Ready uuid now cwd system_prompt model cli sid db drawn row c named seen session fresh,
      again-session uuid now cwd system_prompt model cli sid db drawn row c named,
    )
