-- ===== src/Orchestrator/Service.antt =====
-- OrchestratorService (orchestrator/orchestrator_service.py): a turn in its three phases, the
-- history and the interrupt. The keys that `uuid.uuid4` draws are `uuid 0`, `uuid 1`, …, each with
-- its prefix. `now` is the clock's reading in a turn. The posts to the dashboard are listed in the
-- order in which their tasks are made; their answers change nothing.
pub mod Says
pub mod Lines
pub mod Refines
pub mod Converses
pub mod Whole
pub mod Interrupt
use Prim.Native.String.{◌++◌ as cat}
use tac_master.Shared.{
  ℕ, zero, suc, ◌+◌, String, Bool, true, false, Option, none, some, List, [], ◌∷◌, ◌++◌,
  if◌then◌else◌, Exec, Result, ok, err, pure, raise, modify, ◌>>=◌, ◌>>◌,
}
use tac_master.Orchestrator.Tables.{OrchestratorRow, ChatRow, Db, Metadata, txt}
use tac_master.Orchestrator.Agents
use tac_master.Orchestrator.Chat
use tac_master.Orchestrator.Session
use tac_master.Orchestrator.Client.{
  StreamEvent, text_block, thinking_block, tool_use_block, result_message, ResultMessage, Obj,
  Client, Streaming, truthy, get_session_id, update_session_id, set_status, resume_session,
  build_command, stream_line,
}

-- What a post to /events says.
pub data Post : Type 0 where
  orchestrator_chat : (id message : String) → Post
  text_chunk : (id message : String) → Post
  thinking : (id thought : String) → Post
  tool_use : (id name tool_use_id : String) (input : Metadata) → Post
  orchestrator_status :
      (session_id : Option String) (input_tokens output_tokens cost : ℕ) (tools_used : List String)
      → Post
  chat_stream_complete : Post

pub record Service : Type 0 where
  pub orchestrator_id : String
  pub session_id : Option String
  pub started_with_session : Bool
  pub is_executing : Bool
  -- the process that `interrupt` terminates, by its number
  pub active_proc : Option ℕ
  pub client : Client
  pub db : Db
  -- how many keys are drawn
  pub drawn : ℕ
  pub posted : List Post
  -- the commands that were started
  pub spawned : List (List String)

-- `getattr(self._client, "_proc", None)`
unfoldable pub client_proc : Client → Option ℕ
client_proc client = client.proc

-- The variables of `_run_phases`, and whether the client's stream has captured a session id.
pub record Turn : Type 0 where
  pub service : Service
  pub session_captured : Bool
  pub tools_used : List String
  pub result_msg : Option ResultMessage

abbrev pub post : Post → Service → Service
post p s = record s { posted = s.posted ++ p ∷ [] }

-- `text[:n]`
unfoldable pub prefix : ℕ → String → String
prefix zero text = ""
prefix (suc n) String.[] = ""
prefix (suc n) (String.◌∷◌ c text) = String.◌∷◌ c (prefix n text)

abbrev pub thinking_text : String → String
thinking_text thought = cat "Orchestrator thinking: " (cat (prefix 100 thought) "…")

abbrev pub thinking_payload : String → String → Metadata
thinking_payload thought orchestrator_id =
    ("type", txt "thinking_block")
    ∷ ("thinking", txt thought)
    ∷ ("orchestrator_agent_id", txt orchestrator_id)
    ∷ []

abbrev pub tool_text : String → String
tool_text name = cat "Orchestrator using tool: " name

-- The tool's input, a nested object, is left out.
abbrev pub tool_payload : String → String → String → Metadata
tool_payload name tool_use_id orchestrator_id =
    ("type", txt "tool_use_block")
    ∷ ("tool_name", txt name)
    ∷ ("tool_use_id", txt tool_use_id)
    ∷ ("orchestrator_agent_id", txt orchestrator_id)
    ∷ []

unfoldable pub hold_proc : Service → Service
unfolding client_proc
hold_proc s = elim s.active_proc [
  | none ↦ record s { active_proc = client_proc s.client }
  | some proc ↦ s
]

abbrev pub or_none : Option ℕ → ℕ
or_none none = 0
or_none (some n) = n

-- The parts of a turn that draw no key.
module _ (now : ℕ) where
  -- `send_message` up to its stream: the session id is loaded once, the command is built and
  -- started, and the row says "executing".
  unfoldable pub begin_stream : Service → Service
  unfolding get_session_id build_command set_status
  begin_stream s =
      let client = if s.client.session_loaded then s.client else record s.client {
        session_id = get_session_id s.orchestrator_id s.db;
        session_loaded = true;
      } in
      record s {
        client = client;
        spawned = s.spawned ++ build_command client none [] ∷ [];
        db = set_status now s.orchestrator_id "executing" s.db;
        is_executing = true;
      }

  -- The two `finally` blocks, the client's first.
  unfoldable pub end_stream : Service → Service
  unfolding set_status
  end_stream s = record s {
    db = set_status now s.orchestrator_id "idle" s.db;
    is_executing = false;
    active_proc = none;
  }

  -- A session id is written to the table in a session that was not resumed.
  unfoldable pub keep_session : Option String → Service → Service
  unfolding truthy Agents.update_session
  keep_session sid s =
      if truthy sid
      then record s {
        session_id = sid;
        db =
            if s.started_with_session
            then s.db
            else Agents.update_session now s.orchestrator_id sid s.db;
      }
      else s

  unfoldable pub phase_three : List String → Option ResultMessage → Service → Service
  unfolding keep_session
  phase_three tools_used none s = post chat_stream_complete s
  phase_three tools_used (some result) s = post chat_stream_complete (
      post
        (orchestrator_status result.session_id result.input_tokens result.output_tokens
          (or_none result.cost_usd) tools_used)
        (keep_session result.session_id s))

module _ (uuid : ℕ → String) (now : ℕ) where
  -- A row that cannot be saved is logged as an error, and its post has the id "error".
  unfoldable pub save_text : String → Service → String × Service
  save_text text s =
      elim (Session.record_response now (uuid s.drawn) s.orchestrator_id text "orchestrator" 0 0 0
        s.db) [
          | err e ↦ ("error", record s { drawn = suc s.drawn })
          | ok (row, after) ↦ (row.id, record s { drawn = suc s.drawn; db = after })
        ]

  unfoldable pub save_block : String → String → Metadata → Service → String × Service
  save_block log_type content payload s =
      elim (Session.log_block now (uuid s.drawn) s.orchestrator_id log_type content payload s.db) [
        | err e ↦ ("error", record s { drawn = suc s.drawn })
        | ok (row, after) ↦ (row.id, record s { drawn = suc s.drawn; db = after })
      ]

  -- The body of the streaming loop for one event, after the handle of the process is taken.
  unfoldable pub on_event : StreamEvent → Turn → Turn
  unfolding save_text save_block
  on_event (text_block text) turn =
      let (id, saved) = save_text text turn.service in
      record turn { service = post (text_chunk id text) saved }
  on_event (thinking_block thought) turn =
      let (id, saved) =
        save_block "thinking" (thinking_text thought)
          (thinking_payload thought turn.service.orchestrator_id) turn.service in
      record turn { service = post (thinking id thought) saved }
  on_event (tool_use_block tool_use_id name input) turn =
      let (id, saved) =
        save_block "tool_use" (tool_text name)
          (tool_payload name tool_use_id turn.service.orchestrator_id) turn.service in
      record turn {
        service = post (tool_use id name tool_use_id input) saved;
        tools_used = turn.tools_used ++ name ∷ [];
      }
  on_event (result_message result) turn = record turn { result_msg = some result }

  unfoldable pub on_events : List StreamEvent → Turn → Turn
  unfolding hold_proc on_event
  on_events [] turn = turn
  on_events (event ∷ events) turn =
      on_events events (on_event event (record turn { service = hold_proc turn.service }))

  -- A line of the command's output: what the client does with it, and then its events.
  unfoldable pub on_line : Option Obj → Turn → Turn
  unfolding stream_line on_events
  on_line line turn =
      let (events, st) = stream_line now turn.service.orchestrator_id line (record {
        client = turn.service.client;
        db = turn.service.db;
        session_captured = turn.session_captured;
      }) in
      on_events events (record turn {
        service = record turn.service { client = st.client; db = st.db };
        session_captured = st.session_captured;
      })

  unfoldable pub on_lines : List (Option Obj) → Turn → Turn
  unfolding on_line
  on_lines [] turn = turn
  on_lines (line ∷ lines) turn = on_lines lines (on_line line turn)

  -- Phase 2, on the lines of the command's output.
  unfoldable pub stream : List (Option Obj) → Service → Turn
  unfolding on_lines begin_stream end_stream
  stream lines s =
      let turn = on_lines lines (record {
        service = begin_stream now s;
        session_captured = false;
        tools_used = [];
        result_msg = none;
      }) in
      record turn { service = end_stream now turn.service }

  -- `_run_phases`, consumed to its end: after the lines the stream ends, or raises as `ending` says.
  unfoldable pub run_phases :
      String → List (Option Obj) → Result (Unit {0}) → Exec Service (Unit {0})
  unfolding stream phase_three
  run_phases message lines ending s =
      elim (Session.record_response now (uuid s.drawn) s.orchestrator_id message "user" 0 0 0
        s.db) [
          | err e ↦ (err e, record s { drawn = suc s.drawn })
          | ok (row, after) ↦
              let turn = stream lines (
                post (orchestrator_chat row.id message)
                  (record s { drawn = suc s.drawn; db = after })) in
              elim ending [
                | err e ↦ (err e, turn.service)
                | ok _ ↦ (ok tt, phase_three now turn.tools_used turn.result_msg turn.service)
              ]
        ]

-- `interrupt`: the process that it terminates.
unfoldable pub interrupt : Service → Option ℕ
interrupt s = if s.is_executing then s.active_proc else none

unfoldable pub load_chat_history : ℕ → Service → List ChatRow
unfolding Chat.get_history
load_chat_history n s = Chat.get_history s.orchestrator_id n s.db
