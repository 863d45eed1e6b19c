-- ===== src/Orchestrator/Conversation.antt =====
-- A conversation as its user sees it, apart from tables, keys, clocks and logs: what was said, the
-- totals, the session and the status. `view` reads it off the tables.
use tac_master.Shared.{
  ℕ, ◌+◌, String, true, false, ◌≡◌, refl, ap, ◌∙◌, Option, none, some, List, [], ◌∷◌, ◌++◌,
  if◌then◌else◌, ◌==◌, string_eq, find_row, update_rows, any_row, find-update, arith, Option-cases,
  inl, inr, ok, err, Exception, integrity_error, ◌⊎◌, Bool-cases, find-eq_some, any-of_find,
  str_eq_self,
}
use tac_master.Orchestrator.Tables.{OrchestratorRow, ChatRow, LogRow, Metadata, Db}
use tac_master.Orchestrator.Agents.{is_agent, update_agent, get, update_costs}
use tac_master.Orchestrator.Chat.{is_message, refers}
use tac_master.Orchestrator.Session.{message_metadata, record_response, log_block, log_entry}
use tac_master.Orchestrator.Logs.{is_log}

pub record Conversation : Type 0 where
  -- who said what, in order
  pub messages : List (String × String)
  pub input_tokens : ℕ
  pub output_tokens : ℕ
  pub total_cost : ℕ
  pub session_id : Option String
  pub status : String

unfoldable pub messages_of : String → List ChatRow → List (String × String)
messages_of oid [] = []
messages_of oid (r ∷ rows) =
    let rest = messages_of oid rows in
    if r.orchestrator_agent_id == oid then (r.sender_type, r.message) ∷ rest else rest

abbrev pub seen_row : List (String × String) → OrchestratorRow → Conversation
seen_row messages r = record {
  messages = messages;
  input_tokens = r.input_tokens;
  output_tokens = r.output_tokens;
  total_cost = r.total_cost;
  session_id = r.session_id;
  status = r.status;
}

abbrev pub on_some {ℓ κ} : {A : Type ℓ} {B : Type κ} → (A → B) → Option A → Option B
on_some f none = none
on_some f (some a) = some (f a)

unfoldable pub view : String → Db → Option Conversation
unfolding messages_of
view oid db =
    on_some (seen_row (messages_of oid db.chat_messages))
      (find_row (is_agent oid) db.orchestrator_agents)

messages-append :
    (oid : String) (rows : List ChatRow) (r : ChatRow)
    → (r.orchestrator_agent_id == oid) ≡ true
    → messages_of oid (rows ++ r ∷ []) ≡ messages_of oid rows ++ (r.sender_type, r.message) ∷ []
unfolding messages_of
messages-append oid [] r h = ground arith
messages-append oid (x ∷ rows) r h = ground (arith, messages-append oid rows r)

-- An UPDATE of the row that leaves its id alone changes the view as it changes the row.
pub view-update_agent :
    (oid : String) (f : OrchestratorRow → OrchestratorRow) (g : Conversation → Conversation)
    (db : Db)
    → ((r : OrchestratorRow) → (f r).id ≡ r.id)
    → ((ms : List (String × String)) (r : OrchestratorRow) → seen_row ms (f r) ≡ g (seen_row ms r))
    → view oid (update_agent oid f db) ≡ on_some g (view oid db)
unfolding view update_agent
view-update_agent oid f g db id same =
    elim (Option-cases (find_row (is_agent oid) db.orchestrator_agents)) [
      | inl e ↦ rw (found, e) refl
      | inr (r, e) ↦
          rw (found, e)
            (rw (find-eq_some (is_agent oid) db.orchestrator_agents r e)
              (ap some (same (messages_of oid db.chat_messages) r)))
    ]
  where
    found :
        find_row (is_agent oid) (update_rows (is_agent oid) f db.orchestrator_agents)
        ≡ elim (find_row (is_agent oid) db.orchestrator_agents) [
          | none ↦ none
          | some x ↦ some (if is_agent oid x then f x else x)
        ]
    found =
        find-update (is_agent oid) (is_agent oid) f (λ x. ap (λ k. k == oid) (id x))
          db.orchestrator_agents

pub view-row :
    (oid : String) (db : Db) {c : Conversation}
    → view oid db ≡ some c
    → (r : OrchestratorRow) × (get oid db ≡ some r)
      × (seen_row (messages_of oid db.chat_messages) r ≡ c)
unfolding view get
view-row oid db {c} h = elim (Option-cases (find_row (is_agent oid) db.orchestrator_agents)) [
  | inl e ↦ absurd (ground (arith, e, h))
  | inr (r, e) ↦ (r, e, ground (arith, e, h))
]

view-found :
    (oid : String) (db : Db) (r : OrchestratorRow)
    → get oid db ≡ some r
    → view oid db ≡ some (seen_row (messages_of oid db.chat_messages) r)
unfolding view get
view-found oid db r found = rw found refl

-- What one message adds.
abbrev pub with_message : String → String → ℕ → ℕ → ℕ → Conversation → Conversation
with_message sender message cost input_tokens output_tokens c = record c {
  messages = c.messages ++ (sender, message) ∷ [];
  input_tokens = c.input_tokens + input_tokens;
  output_tokens = c.output_tokens + output_tokens;
  total_cost = c.total_cost + cost;
}

-- The row that `record_response` inserts.
abbrev pub response_row : ℕ → String → String → String → String → ℕ → ℕ → ℕ → ChatRow
response_row now id oid message sender cost input_tokens output_tokens = record {
  id = id;
  orchestrator_agent_id = oid;
  sender_type = sender;
  receiver_type = "orchestrator";
  message = message;
  summary = none;
  agent_id = none;
  session_id = none;
  metadata = message_metadata cost input_tokens output_tokens;
  created_at = now;
  updated_at = now;
}

module _ (now : ℕ) (id oid message sender : String) (cost input_tokens output_tokens : ℕ)
    (db : Db) where
  abbrev new_row : ChatRow
  new_row = response_row now id oid message sender cost input_tokens output_tokens

  abbrev inserted : Db
  inserted = record db { chat_messages = db.chat_messages ++ new_row ∷ [] }

  view-inserted :
      {c : Conversation}
      → view oid db ≡ some c
      → view oid inserted ≡ some (record c { messages = c.messages ++ (sender, message) ∷ [] })
  unfolding get
  view-inserted {c} h =
      let (r, found, same) = view-row oid db h in
      view-found oid inserted r found
      ∙ ap (λ ms. some (seen_row ms r))
          (messages-append oid db.chat_messages new_row (str_eq_self oid))
      ∙ ap
          (λ (d : Conversation).
            some (record d { messages = d.messages ++ (sender, message) ∷ [] }))
          same

  -- A message of a known session, under a fresh key, is said and counted.
  pub view-record_response :
      {c : Conversation}
      → view oid db ≡ some c
      → any_row (is_message id) db.chat_messages ≡ false
      → (after : Db) × (record_response now id oid message sender cost input_tokens output_tokens db
          ≡ ok (new_row, after))
        × (after.chat_messages ≡ db.chat_messages ++ new_row ∷ [])
        × (view oid after ≡ some (with_message sender message cost input_tokens output_tokens c))
  unfolding record_response update_costs get
  view-record_response {c} h fresh =
      let (r, found, same) = view-row oid db h in
      let known = any-of_find (is_agent oid) db.orchestrator_agents r found in
      let after =
        update_costs now oid (r.input_tokens + input_tokens) (r.output_tokens + output_tokens)
          (r.total_cost + cost) inserted in
      (
        after,
        rw (record_response, fresh, known, found) refl,
        refl,
        view-update_agent oid
              (λ (row : OrchestratorRow). record row {
                input_tokens = r.input_tokens + input_tokens;
                output_tokens = r.output_tokens + output_tokens;
                total_cost = r.total_cost + cost;
                updated_at = now;
              })
              (λ (d : Conversation). record d {
                input_tokens = r.input_tokens + input_tokens;
                output_tokens = r.output_tokens + output_tokens;
                total_cost = r.total_cost + cost;
              })
              inserted (λ _. refl) (λ _ _. refl)
            ∙ rw (view-inserted h) (
                ap
                  (λ (d : Conversation). some (record c {
                    messages = c.messages ++ (sender, message) ∷ [];
                    input_tokens = d.input_tokens + input_tokens;
                    output_tokens = d.output_tokens + output_tokens;
                    total_cost = d.total_cost + cost;
                  }))
                  same),
      )

-- A log entry changes nothing of what was said, whether its row can be inserted or not.
pub log_block-view :
    (now : ℕ) (id oid log_type content : String) (payload : Metadata) (db : Db)
    → ((e : Exception) × (log_block now id oid log_type content payload db ≡ err e))
      ⊎ ((row : LogRow) × (after : Db) × (log_block now id oid log_type content payload db
            ≡ ok (row, after))
          × (view oid after ≡ view oid db)
          × (after.chat_messages ≡ db.chat_messages))
unfolding log_block refers view
log_block-view now id oid log_type content payload db =
    elim (Bool-cases (any_row (is_log id) db.system_logs)) [
      | inl taken ↦ inl (integrity_error, rw taken refl)
      | inr free ↦ elim (Bool-cases (any_row (is_agent oid) db.orchestrator_agents)) [
        | inl known ↦ inr (
          entry,
          record db { system_logs = db.system_logs ++ entry ∷ [] },
          rw (free, known) refl,
          refl,
          refl,
        )
        | inr unknown ↦ inl (integrity_error, rw (free, unknown) refl)
      ]
    ]
  where
    entry : LogRow
    entry = log_entry now id oid log_type content payload
