-- ===== src/Orchestrator/Client/Resume.antt =====
-- Which session the client resumes.
use tac_master.Shared.{
  ℕ, String, true, false, ◌≡◌, refl, ap, ◌∙◌, Option, none, some, [], ◌∷◌, ◌++◌, arith, Bool-cases,
  Option-cases, inl, inr, find_row, find-update, find-append, any-of_find, any-none_of_find,
  find-eq_some, str_eq_self, eq_iff, ◌==◌, string_eq,
}
use tac_master.Orchestrator.Tables.{OrchestratorRow, Db}
use tac_master.Orchestrator.Agents.{is_agent, get, update_agent}
use tac_master.Orchestrator.Client.{
  Client, or_else, get_session_id, update_session_id, upsert_orchestrator, resume_session,
}

-- An UPDATE of the row leaves it under its id.
get-update_agent :
    (oid : String) (f : OrchestratorRow → OrchestratorRow) (db : Db) (r : OrchestratorRow)
    → ((r : OrchestratorRow) → (f r).id ≡ r.id)
    → get oid db ≡ some r
    → get oid (update_agent oid f db) ≡ some (f r)
unfolding get update_agent
get-update_agent oid f db r id found =
    let row : find_row (is_agent oid) db.orchestrator_agents ≡ some r = found in
    find-update (is_agent oid) (is_agent oid) f (λ x. ap (λ k. k == oid) (id x))
      db.orchestrator_agents
    ∙ rw row (rw (find-eq_some (is_agent oid) db.orchestrator_agents r row) refl)

session-found :
    (oid : String) (db : Db) (r : OrchestratorRow)
    → get oid db ≡ some r
    → get_session_id oid db ≡ r.session_id
unfolding get_session_id get
session-found oid db r found =
    let row : find_row (is_agent oid) db.orchestrator_agents ≡ some r = found in
    rw (get_session_id, row) refl

session-update_agent :
    (oid : String) (f : OrchestratorRow → OrchestratorRow) (db : Db) (r : OrchestratorRow)
    → ((r : OrchestratorRow) → (f r).id ≡ r.id)
    → get oid db ≡ some r
    → get_session_id oid (update_agent oid f db) ≡ (f r).session_id
session-update_agent oid f db r id found =
    session-found oid (update_agent oid f db) (f r) (get-update_agent oid f db r id found)

-- The row that an INSERT OR IGNORE adds.
abbrev added_row : ℕ → String → String → Option String → OrchestratorRow
added_row now oid sid dir = record {
  id = oid;
  session_id = some sid;
  system_prompt = none;
  status = "idle";
  working_dir = dir;
  input_tokens = 0;
  output_tokens = 0;
  total_cost = 0;
  archived = false;
  metadata = [];
  created_at = now;
  updated_at = now;
}

abbrev added : ℕ → String → String → Option String → Db → Db
added now oid sid dir db = record db {
  orchestrator_agents = db.orchestrator_agents ++ added_row now oid sid dir ∷ [];
}

abbrev upserted : ℕ → String → Option String → OrchestratorRow → OrchestratorRow
upserted now sid dir r = record r {
  session_id = some sid;
  status = "idle";
  working_dir = or_else dir r.working_dir;
  updated_at = now;
}

upsert-session :
    (now : ℕ) (oid sid : String) (dir : Option String) (db : Db)
    → get_session_id oid (upsert_orchestrator now oid (some sid) "idle" dir none db) ≡ some sid
unfolding upsert_orchestrator get update_agent find_row
upsert-session now oid sid dir db =
    elim (Option-cases (find_row (is_agent oid) db.orchestrator_agents)) [
      | inr (r, found) ↦
          rw (upsert_orchestrator, any-of_find (is_agent oid) db.orchestrator_agents r found)
            (session-update_agent oid (upserted now sid dir) db r (λ _. refl) found)
      | inl gone ↦
          rw (upsert_orchestrator, any-none_of_find (is_agent oid) db.orchestrator_agents gone)
            (session-update_agent oid (upserted now sid dir) (added now oid sid dir db)
              (added_row now oid sid dir) (λ _. refl)
              (find-append (is_agent oid) db.orchestrator_agents (added_row now oid sid dir ∷ [])
                ∙ rw (gone, str_eq_self oid) refl))
    ]

stored-session :
    (now : ℕ) (oid sid stored : String) (db : Db)
    → get_session_id oid db ≡ some stored
    → get_session_id oid (update_session_id now oid sid db) ≡ some sid
unfolding get_session_id update_session_id update_agent get
stored-session now oid sid stored db e =
    elim (Option-cases (find_row (is_agent oid) db.orchestrator_agents)) [
      | inl gone ↦ absurd (ground (arith, e, gone))
      | inr (r, found) ↦
          session-update_agent oid
            (λ (row : OrchestratorRow). record row { session_id = some sid; updated_at = now }) db r
            (λ _. refl) found
    ]

-- To resume a session always succeeds, also for an orchestrator that has no row, which gets one: the
-- client uses the given session from then on, and the table holds it.
pub resume_session-session :
    (now : ℕ) (oid sid : String) (cwd : Option String) (client : Client) (db : Db)
    → (let (accepted, resumed, after) = resume_session now oid sid cwd (client, db) in
        (accepted ≡ true)
        × (resumed.session_id ≡ some sid)
        × (resumed.session_loaded ≡ true)
        × (get_session_id oid after ≡ some sid))
unfolding resume_session
resume_session-session now oid sid cwd client db = elim (Option-cases (get_session_id oid db)) [
  | inl e ↦ rw (resume_session, e) (refl, refl, refl, upsert-session now oid sid _ db)
  | inr (stored, e) ↦ elim (Bool-cases (stored == sid)) [
    | inl same ↦
        rw (resume_session, e, same) (refl, refl, refl, e ∙ ap some ((eq_iff stored sid).0 same))
    | inr other ↦
        rw (resume_session, e, other) (refl, refl, refl, stored-session now oid sid stored db e)
  ]
]
