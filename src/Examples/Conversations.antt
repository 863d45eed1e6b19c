-- ===== src/Examples/Conversations.antt =====
-- The theorems on the orchestrator's service, at a sample session.
use tac_master.Shared.{
  ℕ, zero, suc, ◌<◌, ◌≤◌, String, true, false, ◌≡◌, refl, ap, Option, none, some, List, [], ◌∷◌,
  ◌++◌, codes, length, ◌==◌, string_eq, eq_iff, Bool-cases, inl, inr, arith, ok, find_row, any_row,
  select_rows,
}
use tac_master.Orchestrator.Tables.{OrchestratorRow, ChatRow, Db, no_rows}
use tac_master.Orchestrator.Agents
use tac_master.Orchestrator.Chat
use tac_master.Orchestrator.Chat.{is_message}
use tac_master.Orchestrator.Chat.History.{chat_of, get_history-insert}
use tac_master.Orchestrator.Client.{Client, Obj, ContentItem, get_session_id}
use tac_master.Orchestrator.Client
use tac_master.Orchestrator.Conversation.{Conversation, view}
use tac_master.Orchestrator.Service.{Service, Turn, run_phases, on_lines, interrupt, begin_stream}
use tac_master.Orchestrator.Service.Says.{Distinct, Fresh}
use tac_master.Orchestrator.Service.Converses.{Ready, hear_turn}
use tac_master.Orchestrator.Service.Interrupt.{yields, interrupt-on_lines}
use tac_master.Orchestrator.Service.Whole.{left_by, run_phases-left_by}
use tac_master.Orchestrator.Start.{start_bridge, new_client, new_service}
use tac_master.Orchestrator.Start.Resumes.{start_bridge-Ready}

-- Keys that never repeat: the n-th has n letters.
key : ℕ → String
key zero = ""
key (suc n) = String.◌∷◌ "x" (key n)

length-key : (n : ℕ) → length (codes (key n)) ≡ n
unfolding key
length-key zero = refl
length-key (suc n) = ap suc (length-key n)

key-Distinct : Distinct key
key-Distinct m n low = elim (Bool-cases (key m == key n)) [
  | inl e ↦ absurd (
      omega (
        arith,
        length-key m,
        length-key n,
        ap (λ s. length (codes s)) ((eq_iff (key m) (key n)).0 e),
      ))
  | inr e ↦ e
]

abbrev row : OrchestratorRow
row = record {
  id = "oa-1";
  session_id = some "s1";
  system_prompt = none;
  status = "idle";
  working_dir = none;
  input_tokens = 5;
  output_tokens = 7;
  total_cost = 0;
  archived = false;
  metadata = [];
  created_at = 1;
  updated_at = 1;
}

abbrev tables : Db
tables = record no_rows { orchestrator_agents = row ∷ [] }

abbrev idle : Conversation
idle = record {
  messages = [];
  input_tokens = 5;
  output_tokens = 7;
  total_cost = 0;
  session_id = some "s1";
  status = "idle";
}

abbrev service : Service
service = new_service "oa-1" none (new_client "/srv" "You are" "sonnet" "claude") tables 0

nothing_drawn : Fresh key 0 []
unfolding any_row
nothing_drawn n low = refl

service-Ready : Ready key "oa-1" false service idle
unfolding view find_row
service-Ready = record {
  same = refl;
  mode = refl;
  seen = refl;
  session = λ h. absurd (ground (arith, h));
  fresh = nothing_drawn;
}

abbrev line : String → Obj
line type = record {
  type = type;
  subtype = none;
  session_id = none;
  content = [];
  result = none;
  error = none;
  input_tokens = 0;
  output_tokens = 0;
  cache_read_input_tokens = 0;
  cache_creation_input_tokens = 0;
  cost_usd = none;
  total_cost_usd = none;
}

abbrev hello : ContentItem
hello = record { type = "text"; text = "Hello"; thinking = ""; id = ""; name = ""; input = [] }

abbrev output : List (Option Obj)
output =
    some (record (line "system") { subtype = some "init"; session_id = some "s2" })
    ∷ none
    ∷ some (record (line "assistant") { content = hello ∷ [] })
    ∷ some (record (line "result") {
      subtype = some "success";
      session_id = some "s2";
      input_tokens = 10;
      output_tokens = 20;
      total_cost_usd = some 3;
    })
    ∷ []

run_phases-left_by_example :
    ((run_phases key 9 "Hi" output (ok tt) service).0 ≡ ok tt)
    × (view "oa-1" (run_phases key 9 "Hi" output (ok tt) service).1.db
        ≡ some (left_by (ok tt) false "Hi" output idle))
run_phases-left_by_example =
    run_phases-left_by key 9 "Hi" output (ok tt) service idle key-Distinct service-Ready

abbrev started : Service
started = begin_stream 9 service

-- A turn under way, with a client that has a process.
abbrev turn : Turn
turn = record {
  service = record started { client = record started.client { proc = some 4321 } };
  session_captured = false;
  tools_used = [];
  result_msg = none;
}

interrupt-on_lines_example : interrupt (on_lines key 9 output turn).service ≡ some 4321
unfolding begin_stream any_row yields
interrupt-on_lines_example = interrupt-on_lines key 9 output turn

start_bridge-Ready_example :
    (s : Service) × (start_bridge key 9 "/srv" "You are" "sonnet" "claude" tables 0 ≡ ok s)
    × Ready key "oa-1" true s idle
    × (s.client.session_id ≡ some "s1")
unfolding view find_row Agents.get_active Client.truthy select_rows
start_bridge-Ready_example =
    start_bridge-Ready key 9 "/srv" "You are" "sonnet" "claude" "s1" tables 0 row idle refl refl
      refl refl refl nothing_drawn

abbrev said : ℕ → String → String → ChatRow
said now id message = record {
  id = id;
  orchestrator_agent_id = "oa-1";
  sender_type = "user";
  receiver_type = "orchestrator";
  message = message;
  summary = none;
  agent_id = none;
  session_id = none;
  metadata = [];
  created_at = now;
  updated_at = now;
}

abbrev with_one : Db
with_one = record tables { chat_messages = said 1 "cm-1" "Hi" ∷ [] }

abbrev with_two : Db
with_two = record tables { chat_messages = said 1 "cm-1" "Hi" ∷ said 2 "cm-2" "Hello?" ∷ [] }

get_history-insert_example :
    (length (chat_of "oa-1" with_one) < 1
      → Chat.get_history "oa-1" 1 with_two
        ≡ Chat.get_history "oa-1" 1 with_one ++ said 2 "cm-2" "Hello?" ∷ [])
    × (1 ≤ length (chat_of "oa-1" with_one)
        → Chat.get_history "oa-1" 1 with_two ≡ Chat.get_history "oa-1" 1 with_one)
unfolding Chat.insert any_row select_rows
get_history-insert_example =
    get_history-insert 2 "cm-2" "oa-1" "user" "Hello?" [] "orchestrator" none none with_one with_two
      (said 2 "cm-2" "Hello?") 1 refl (omega arith)

-- The conversation after the sample turn.
heard : left_by (ok tt) false "Hi" output idle ≡ record {
  messages = ("user", "Hi") ∷ ("orchestrator", "Hello") ∷ [];
  input_tokens = 15;
  output_tokens = 27;
  total_cost = 3;
  session_id = some "s2";
  status = "idle";
}
unfolding hear_turn Client.line_cost
heard = refl
