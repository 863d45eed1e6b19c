-- ===== src/Orchestrator/Client.antt =====
-- The client of the claude command (orchestrator/claude_sdk_client.py). The lines that the command
-- prints are given, decoded; a line is `none` where it is blank or no JSON. A line that is JSON but no
-- object raises, and so it ends the stream: it is given as the exception that ends the turn.
pub mod Resume
use tac_master.Shared.{
  ℕ, zero, suc, ◌+◌, String, Bool, true, false, not, ◌&&◌, Option, none, some, List, [], ◌∷◌, ◌++◌,
  if◌then◌else◌, ◌==◌, string_eq, find_row, any_row,
}
use tac_master.Orchestrator.Tables.{OrchestratorRow, Db, Metadata}
use tac_master.Orchestrator.Agents.{is_agent, get, update_agent}

pub record ResultMessage : Type 0 where
  pub subtype : String
  pub session_id : Option String
  pub result : Option String
  pub error : Option String
  pub input_tokens : ℕ
  pub output_tokens : ℕ
  pub cache_read_input_tokens : ℕ
  pub cache_creation_input_tokens : ℕ
  pub cost_usd : Option ℕ

pub data StreamEvent : Type 0 where
  text_block : String → StreamEvent
  thinking_block : String → StreamEvent
  tool_use_block : (id name : String) (input : Metadata) → StreamEvent
  result_message : ResultMessage → StreamEvent

-- An entry of a message's content, with "" and {} for the keys it lacks.
pub record ContentItem : Type 0 where
  pub type : String
  pub text : String
  pub thinking : String
  pub id : String
  pub name : String
  pub input : Metadata

-- A decoded line, with the defaults for the keys it lacks: "" for the type, 0 for usage.
pub record Obj : Type 0 where
  pub type : String
  pub subtype : Option String
  pub session_id : Option String
  pub content : List ContentItem
  pub result : Option String
  pub error : Option String
  pub input_tokens : ℕ
  pub output_tokens : ℕ
  pub cache_read_input_tokens : ℕ
  pub cache_creation_input_tokens : ℕ
  pub cost_usd : Option ℕ
  pub total_cost_usd : Option ℕ

pub record Client : Type 0 where
  pub session_id : Option String
  pub session_loaded : Bool
  pub cwd : Option String
  pub system_prompt : Option String
  pub model : String
  pub cli : String
  -- an attribute `_proc`, where there is one; no method of the client sets it
  pub proc : Option ℕ

-- Whether `if value` takes the branch.
unfoldable pub truthy : Option String → Bool
truthy none = false
truthy (some s) = not (s == "")

abbrev pub or_else : Option String → Option String → Option String
or_else none other = other
or_else (some s) other = some s

unfoldable pub get_session_id : String → Db → Option String
unfolding get
get_session_id orchestrator_id db = elim (get orchestrator_id db) [
  | none ↦ none
  | some row ↦ row.session_id
]

unfoldable pub update_session_id : ℕ → String → String → Db → Db
unfolding update_agent
update_session_id now orchestrator_id sid =
    update_agent orchestrator_id (λ r. record r { session_id = some sid; updated_at = now })

unfoldable pub accumulate_tokens : ℕ → String → ℕ → ℕ → ℕ → Db → Db
unfolding update_agent
accumulate_tokens now orchestrator_id input_tokens output_tokens cost =
    update_agent orchestrator_id (λ r. record r {
      input_tokens = r.input_tokens + input_tokens;
      output_tokens = r.output_tokens + output_tokens;
      total_cost = r.total_cost + cost;
      updated_at = now;
    })

unfoldable pub set_status : ℕ → String → String → Db → Db
unfolding update_agent
set_status now orchestrator_id status =
    update_agent orchestrator_id (λ r. record r { status = status; updated_at = now })

-- INSERT OR IGNORE, then an UPDATE with COALESCE.
unfoldable pub upsert_orchestrator :
    ℕ → String → Option String → String → Option String → Option String → Db → Db
unfolding update_agent
upsert_orchestrator now orchestrator_id sid status working_dir system_prompt db =
    update_agent orchestrator_id
      (λ r. record r {
        session_id = or_else sid r.session_id;
        status = status;
        working_dir = or_else working_dir r.working_dir;
        updated_at = now;
      })
      (if any_row (is_agent orchestrator_id) db.orchestrator_agents then db else record db {
        orchestrator_agents =
            db.orchestrator_agents
            ++ record {
              id = orchestrator_id;
              session_id = sid;
              system_prompt = system_prompt;
              status = status;
              working_dir = working_dir;
              input_tokens = 0;
              output_tokens = 0;
              total_cost = 0;
              archived = false;
              metadata = [];
              created_at = now;
              updated_at = now;
            }
              ∷ [];
      })

unfoldable pub create_session :
    ℕ → String → Option String → Option String → Client × Db → String × Client × Db
unfolding upsert_orchestrator truthy
create_session now orchestrator_id system_prompt cwd (client, db) =
    let prompt = if truthy system_prompt then system_prompt else client.system_prompt in
    let dir = if truthy cwd then cwd else client.cwd in
    (
      orchestrator_id,
      record client { system_prompt = prompt; cwd = dir; session_id = none; session_loaded = true },
      upsert_orchestrator now orchestrator_id none "idle" dir prompt db,
    )

unfoldable pub resume_session :
    ℕ → String → String → Option String → Client × Db → Bool × Client × Db
unfolding get_session_id upsert_orchestrator update_session_id truthy
resume_session now orchestrator_id sid cwd (client, db) =
    let dir = if truthy cwd then cwd else client.cwd in
    let resumed = record client { cwd = dir; session_id = some sid; session_loaded = true } in
    elim (get_session_id orchestrator_id db) [
      | none ↦
          (true, resumed, upsert_orchestrator now orchestrator_id (some sid) "idle" dir none db)
      | some stored ↦ (
        true,
        resumed,
        if stored == sid then db else update_session_id now orchestrator_id sid db,
      )
    ]

-- `_parse_content_blocks`: an entry of another type is dropped.
unfoldable pub parse_content_blocks : List ContentItem → List StreamEvent
parse_content_blocks [] = []
parse_content_blocks (item ∷ content) =
    let blocks = parse_content_blocks content in
    if item.type == "text"
    then text_block item.text ∷ blocks
    else if item.type == "thinking"
    then thinking_block item.thinking ∷ blocks
    else if item.type == "tool_use"
    then tool_use_block item.id item.name item.input ∷ blocks
    else blocks

unfoldable pub option_arg : String → Option String → List String
unfolding truthy
option_arg flag none = []
option_arg flag (some value) = if truthy (some value) then flag ∷ value ∷ [] else []

-- `_build_command`; `max_turns` is in decimal digits, or not given.
unfoldable pub build_command : Client → Option String → List String → List String
unfolding option_arg
build_command client max_turns extra_args =
    client.cli
    ∷ "--print"
    ∷ "--verbose"
    ∷ "--output-format"
    ∷ "stream-json"
    ∷ "--input-format"
    ∷ "text"
    ∷ "--dangerously-skip-permissions"
    ∷ "--model"
    ∷ client.model
    ∷ (option_arg "--resume" client.session_id
        ++ (option_arg "--system-prompt" client.system_prompt
            ++ (elim max_turns [ none ↦ [] | some n ↦ "--max-turns" ∷ n ∷ [] ] ++ extra_args)))

-- The variables of `_stream`: the client's and whether the session id has been captured.
pub record Streaming : Type 0 where
  pub client : Client
  pub db : Db
  pub session_captured : Bool

-- The first session id of a stream that is not empty is stored in memory and in the table.
unfoldable pub capture : ℕ → String → Option String → Streaming → Streaming
unfolding update_session_id truthy
capture now orchestrator_id none st = st
capture now orchestrator_id (some sid) st =
    if truthy (some sid) && not st.session_captured
    then record {
      client = record st.client { session_id = some sid };
      db = update_session_id now orchestrator_id sid st.db;
      session_captured = true;
    }
    else st

-- `obj.get("cost_usd") or obj.get("total_cost_usd")`
unfoldable pub line_cost : Option ℕ → Option ℕ → Option ℕ
line_cost (some (suc n)) total = some (suc n)
line_cost (some zero) total = total
line_cost none total = total

abbrev pub or_zero : Option ℕ → ℕ
or_zero none = 0
or_zero (some n) = n

abbrev pub or_text : String → Option String → String
or_text text none = text
or_text text (some s) = s

unfoldable pub on_result : ℕ → String → Obj → Streaming → List StreamEvent × Streaming
unfolding capture accumulate_tokens line_cost
on_result now orchestrator_id obj st =
    let cost = line_cost obj.cost_usd obj.total_cost_usd in
    let captured = capture now orchestrator_id obj.session_id st in
    (
      result_message (record {
        subtype = or_text "error" obj.subtype;
        session_id = captured.client.session_id;
        result = obj.result;
        error = obj.error;
        input_tokens = obj.input_tokens;
        output_tokens = obj.output_tokens;
        cache_read_input_tokens = obj.cache_read_input_tokens;
        cache_creation_input_tokens = obj.cache_creation_input_tokens;
        cost_usd = cost;
      })
          ∷ [],
      record captured {
        db =
            accumulate_tokens now orchestrator_id obj.input_tokens obj.output_tokens (or_zero cost)
              captured.db;
      },
    )

-- The body of `_stream`'s loop, with the events that it yields; `none` is a line that is skipped.
unfoldable pub stream_line : ℕ → String → Option Obj → Streaming → List StreamEvent × Streaming
unfolding capture parse_content_blocks on_result
stream_line now orchestrator_id none st = ([], st)
stream_line now orchestrator_id (some obj) st =
    if obj.type == "system"
    then (
      [],
      if or_text "" obj.subtype == "init"
          then capture now orchestrator_id obj.session_id st
          else st,
    )
    else if obj.type == "assistant"
    then (parse_content_blocks obj.content, st)
    else if obj.type == "result"
    then on_result now orchestrator_id obj st
    else ([], st)
