-- ===== src/Orchestrator/Tables.antt =====
-- The tables of SCHEMA_V2 (orchestrator/state_store.py), one list of rows each, and the order in
-- which their rows are read. A cost is an exact number.
pub mod Limits
use tac_master.Shared.{
  ℕ, zero, suc, String, Bool, false, Option, none, some, List, [], ◌∷◌, if◌then◌else◌, ◌==◌,
  string_eq, leb,
}

-- A JSON object, as far as the callers write one: its keys with texts and numbers. `json.loads`
-- reads back what `json.dumps` wrote, so the column holds the object itself.
pub data Json : Type 0 where
  txt : String → Json
  num : ℕ → Json

abbrev pub Metadata : Type 0
Metadata = List (String × Json)

pub record OrchestratorRow : Type 0 where
  pub id : String
  pub session_id : Option String
  pub system_prompt : Option String
  pub status : String
  pub working_dir : Option String
  pub input_tokens : ℕ
  pub output_tokens : ℕ
  pub total_cost : ℕ
  pub archived : Bool
  pub metadata : Metadata
  pub created_at : ℕ
  pub updated_at : ℕ

pub record AgentInstanceRow : Type 0 where
  pub id : String
  pub orchestrator_agent_id : String
  pub name : String
  pub model : String
  pub system_prompt : Option String
  pub working_dir : Option String
  pub git_worktree : Option String
  pub status : String
  pub session_id : Option String
  pub adw_id : Option String
  pub adw_step : Option String
  pub input_tokens : ℕ
  pub output_tokens : ℕ
  pub total_cost : ℕ
  pub archived : Bool
  pub metadata : Metadata
  pub created_at : ℕ
  pub updated_at : ℕ

pub record ChatRow : Type 0 where
  pub id : String
  pub orchestrator_agent_id : String
  pub sender_type : String
  pub receiver_type : String
  pub message : String
  pub summary : Option String
  pub agent_id : Option String
  pub session_id : Option String
  pub metadata : Metadata
  pub created_at : ℕ
  pub updated_at : ℕ

pub record LogRow : Type 0 where
  pub id : String
  pub orchestrator_agent_id : Option String
  pub agent_id : Option String
  pub session_id : Option String
  pub adw_id : Option String
  pub adw_step : Option String
  pub level : String
  pub log_type : String
  pub event_type : Option String
  pub content : String
  pub payload : Metadata
  pub summary : Option String
  pub entry_index : Option ℕ
  pub timestamp : ℕ

pub record Db : Type 0 where
  pub orchestrator_agents : List OrchestratorRow
  pub agent_instances : List AgentInstanceRow
  pub chat_messages : List ChatRow
  pub system_logs : List LogRow

abbrev pub no_rows : Db
no_rows = record {
  orchestrator_agents = [];
  agent_instances = [];
  chat_messages = [];
  system_logs = [];
}

-- WHERE column = ?, where the column may be NULL
abbrev pub is_value : String → Option String → Bool
is_value key none = false
is_value key (some value) = value == key

-- ORDER BY key ASC: rows with the same key stay in the order of their insertion.
module _ {A : Type 0} (key : A → ℕ) where
  unfoldable pub insert_by : A → List A → List A
  insert_by x [] = x ∷ []
  insert_by x (y ∷ ys) = if leb (key x) (key y) then x ∷ y ∷ ys else y ∷ insert_by x ys

  unfoldable pub order_by : List A → List A
  unfolding insert_by
  order_by [] = []
  order_by (x ∷ xs) = insert_by x (order_by xs)

-- LIMIT n
unfoldable pub limit {ℓ} : {A : Type ℓ} → ℕ → List A → List A
limit zero xs = []
limit (suc n) [] = []
limit (suc n) (x ∷ xs) = x ∷ limit n xs
