-- ===== src/Orchestrator/Start.antt =====
-- How the service starts: `OrchestratorService.__init__`, and the session that the daemon's bridge
-- looks up for it (orchestrator/daemon.py). `cwd` and `system_prompt` are resolved from files.
pub mod Resumes
use tac_master.Shared.{
  ℕ, suc, String, Bool, true, false, Option, none, some, List, [], ◌∷◌, if◌then◌else◌, Result, ok,
  err,
}
use tac_master.Orchestrator.Tables.{OrchestratorRow, Db}
use tac_master.Orchestrator.Agents.{get_active}
use tac_master.Orchestrator.Session.{spawn_session}
use tac_master.Orchestrator.Client.{Client, truthy, resume_session}
use tac_master.Orchestrator.Service.{Service}

-- `_resolve_existing_session_id`
unfoldable pub resolve_existing_session_id : Db → Option String
unfolding get_active truthy
resolve_existing_session_id db = elim (get_active db) [
  | none ↦ none
  | some row ↦ if truthy row.session_id then row.session_id else none
]

abbrev pub new_client : String → String → String → String → Client
new_client cwd system_prompt model cli = record {
  session_id = none;
  session_loaded = false;
  cwd = some cwd;
  system_prompt = some system_prompt;
  model = model;
  cli = cli;
  proc = none;
}

-- The service on the row `orchestrator_id`, before a session is resumed.
abbrev pub new_service : String → Option String → Client → Db → ℕ → Service
new_service orchestrator_id session_id client db drawn = record {
  orchestrator_id = orchestrator_id;
  session_id = session_id;
  started_with_session = elim session_id [ none ↦ false | some sid ↦ true ];
  is_executing = false;
  active_proc = none;
  client = client;
  db = db;
  drawn = drawn;
  posted = [];
  spawned = [];
}

-- The client takes over a session that is given and not "".
unfoldable pub hydrate : ℕ → Option String → Service → Service
unfolding truthy resume_session
hydrate now none s = s
hydrate now (some sid) s =
    let (accepted, client, db) = resume_session now s.orchestrator_id sid none (s.client, s.db) in
    if truthy (some sid) then record s { client = client; db = db } else s

module _ (uuid : ℕ → String) (now : ℕ) (cwd system_prompt model cli : String) where
  -- The active row is taken over, or a new one made.
  unfoldable pub start_service : Option String → Db → ℕ → Result Service
  unfolding get_active spawn_session hydrate
  start_service session_id db drawn =
      let client = new_client cwd system_prompt model cli in
      elim (get_active db) [
        | some row ↦ ok (hydrate now session_id (new_service row.id session_id client db drawn))
        | none ↦ elim (spawn_session now (uuid drawn) system_prompt (some cwd) db) [
          | err e ↦ err e
          | ok (id, after) ↦
              ok (hydrate now session_id (new_service id session_id client after (suc drawn)))
        ]
      ]

  -- The start by the daemon's bridge.
  unfoldable pub start_bridge : Db → ℕ → Result Service
  start_bridge db drawn = start_service (resolve_existing_session_id db) db drawn
