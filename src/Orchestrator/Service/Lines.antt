-- ===== src/Orchestrator/Service/Lines.antt =====
-- What a line of the claude command's output does to the conversation.
use mathlib.Core.List.{append_assoc, append-nil}
use tac_master.Shared.{
  ℕ, ◌+◌, String, Bool, true, not, ◌&&◌, ◌≡◌, refl, ap, sym, ◌∙◌, Option, none, some, List, [], ◌∷◌,
  ◌++◌, map, if◌then◌else◌, ◌==◌, string_eq, Bool-cases, inl, inr,
}
use tac_master.Orchestrator.Tables.{OrchestratorRow, ChatRow}
use tac_master.Orchestrator.Client.{
  StreamEvent, text_block, thinking_block, tool_use_block, result_message, ResultMessage,
  ContentItem, Obj, Streaming, truthy, capture, parse_content_blocks, stream_line,
  update_session_id, accumulate_tokens, line_cost, or_zero, or_text,
}
use tac_master.Orchestrator.Conversation.{Conversation, view, view-update_agent, on_some}
use tac_master.Orchestrator.Service.Says.{heard_all}

-- The texts of a message's content, in order.
unfoldable pub texts_of : List ContentItem → List String
texts_of [] = []
texts_of (item ∷ content) =
    let rest = texts_of content in if item.type == "text" then item.text ∷ rest else rest

abbrev pub orchestrator_says : String → String × String
orchestrator_says text = ("orchestrator", text)

abbrev pub answered : List String → Conversation → Conversation
answered texts c = record c { messages = c.messages ++ map orchestrator_says texts }

-- Whether the session of this turn is known, the conversation, and the session that it had at the
-- last result.
abbrev pub Heard : Type 0
Heard = Bool × Conversation × Option (Option String)

-- The first session id of a turn is the conversation's from then on.
unfoldable pub named : Option String → Heard → Heard
unfolding truthy
named sid (known, c, answer) =
    let first = truthy sid && not known in
    (if first then true else known, if first then record c { session_id = sid } else c, answer)

abbrev pub charged : Obj → Conversation → Conversation
charged obj c = record c {
  input_tokens = c.input_tokens + obj.input_tokens;
  output_tokens = c.output_tokens + obj.output_tokens;
  total_cost = c.total_cost + or_zero (line_cost obj.cost_usd obj.total_cost_usd);
}

-- A line names the session, says texts, or ends an answer with what it cost.
unfoldable pub hear_line : Option Obj → Heard → Heard
unfolding named texts_of
hear_line none h = h
hear_line (some obj) h =
    if obj.type == "system"
    then if or_text "" obj.subtype == "init" then named obj.session_id h else h
    else if obj.type == "assistant"
    then (h.0, answered (texts_of obj.content) h.1, h.2)
    else if obj.type == "result"
    then (let (known, c, _) = named obj.session_id h in (known, charged obj c, some c.session_id))
    else h

unfoldable pub hear_lines : List (Option Obj) → Heard → Heard
unfolding hear_line
hear_lines [] h = h
hear_lines (line ∷ lines) h = hear_lines lines (hear_line line h)

answered-nil : (c : Conversation) → c ≡ answered [] c
answered-nil c = ap (λ ms. record c { messages = ms }) (sym (append-nil c.messages))

pub heard_all-parse :
    (content : List ContentItem) (c : Conversation)
    → heard_all (parse_content_blocks content) c ≡ answered (texts_of content) c
unfolding parse_content_blocks texts_of
heard_all-parse [] c = answered-nil c
heard_all-parse (item ∷ content) c = elim (Bool-cases (item.type == "text")) [
  | inl e ↦ rw e (
      heard_all-parse content
        (record c { messages = c.messages ++ ("orchestrator", item.text) ∷ [] })
      ∙ ap (λ ms. record c { messages = ms })
          (append_assoc c.messages (("orchestrator", item.text) ∷ [])
            (map orchestrator_says (texts_of content))))
  | inr e ↦ elim (Bool-cases (item.type == "thinking")) [
    | inl f ↦ rw (e, f) (heard_all-parse content c)
    | inr f ↦ elim (Bool-cases (item.type == "tool_use")) [
      | inl g ↦ rw (e, f, g) (heard_all-parse content c)
      | inr g ↦ rw (e, f, g) (heard_all-parse content c)
    ]
  ]
]

abbrev pub session_of : ResultMessage → Option String
session_of result = result.session_id

-- The session of the last result among the events, or else the one before.
abbrev pub answer_in : List StreamEvent → Option (Option String) → Option (Option String)
answer_in [] answer = answer
answer_in (text_block text ∷ events) answer = answer_in events answer
answer_in (thinking_block thought ∷ events) answer = answer_in events answer
answer_in (tool_use_block id name input ∷ events) answer = answer_in events answer
answer_in (result_message result ∷ events) answer = answer_in events (some result.session_id)

answer_in-parse :
    (content : List ContentItem) (answer : Option (Option String))
    → answer_in (parse_content_blocks content) answer ≡ answer
unfolding parse_content_blocks
answer_in-parse [] answer = refl
answer_in-parse (item ∷ content) answer = elim (Bool-cases (item.type == "text")) [
  | inl e ↦ rw e (answer_in-parse content answer)
  | inr e ↦ elim (Bool-cases (item.type == "thinking")) [
    | inl f ↦ rw (e, f) (answer_in-parse content answer)
    | inr f ↦ elim (Bool-cases (item.type == "tool_use")) [
      | inl g ↦ rw (e, f, g) (answer_in-parse content answer)
      | inr g ↦ rw (e, f, g) (answer_in-parse content answer)
    ]
  ]
]

-- The client's variables hold a conversation, beside the messages `rows`.
pub record Holds (oid : String) (rows : List ChatRow) (st : Streaming) (h : Heard) : Type 0 where
  pub seen : view oid st.db ≡ some h.1
  pub session : st.client.session_id ≡ h.1.session_id
  pub known : st.session_captured ≡ h.0
  pub chat : st.db.chat_messages ≡ rows

module _ (now : ℕ) (oid : String) (rows : List ChatRow) where
  capture-Holds :
      (sid : Option String) (st : Streaming) (h : Heard)
      → Holds oid rows st h
      → Holds oid rows (capture now oid sid st) (named sid h)
  unfolding capture named truthy update_session_id
  capture-Holds none st h held = held
  capture-Holds (some sid) st h held =
      elim (Bool-cases (not (sid == "") && not st.session_captured)) [
        | inl e ↦
            rw (e, ap (λ k. not (sid == "") && not k) (sym held.known) ∙ e)
              (record {
                seen =
                    view-update_agent oid
                      (λ (r : OrchestratorRow). record r {
                        session_id = some sid;
                        updated_at = now;
                      })
                      (λ (c : Conversation). record c { session_id = some sid }) st.db (λ _. refl)
                      (λ _ _. refl)
                    ∙ ap (on_some (λ (c : Conversation). record c { session_id = some sid }))
                        held.seen;
                session = refl;
                known = refl;
                chat = held.chat;
              })
        | inr e ↦ rw (e, ap (λ k. not (sid == "") && not k) (sym held.known) ∙ e) held
      ]

  accumulate-Holds :
      (obj : Obj) (st : Streaming) (h : Heard)
      → Holds oid rows st h
      → Holds oid rows
          (record st {
            db =
                accumulate_tokens now oid obj.input_tokens obj.output_tokens
                  (or_zero (line_cost obj.cost_usd obj.total_cost_usd))
                  st.db;
          })
          (h.0, charged obj h.1, some h.1.session_id)
  unfolding accumulate_tokens
  accumulate-Holds obj st h held = record {
    seen =
        view-update_agent oid
          (λ (r : OrchestratorRow). record r {
            input_tokens = r.input_tokens + obj.input_tokens;
            output_tokens = r.output_tokens + obj.output_tokens;
            total_cost = r.total_cost + or_zero (line_cost obj.cost_usd obj.total_cost_usd);
            updated_at = now;
          })
          (charged obj) st.db (λ _. refl) (λ _ _. refl)
        ∙ ap (on_some (charged obj)) held.seen;
    session = held.session;
    known = held.known;
    chat = held.chat;
  }

  -- What the client does with a line, and the events that are left to be heard after it.
  abbrev pub LeftToHear : Option Obj → Streaming → Heard → Type 0
  LeftToHear line st h =
      (mid : Heard) × Holds oid rows (stream_line now oid line st).1 mid
      × (heard_all (stream_line now oid line st).0 mid.1 ≡ (hear_line line h).1)
      × (mid.0 ≡ (hear_line line h).0)
      × (answer_in (stream_line now oid line st).0 h.2 ≡ (hear_line line h).2)

  pub stream_line-Holds :
      (line : Option Obj) (st : Streaming) (h : Heard) → Holds oid rows st h → LeftToHear line st h
  unfolding stream_line hear_line
  stream_line-Holds none st h held = (h, held, refl, refl, refl)
  stream_line-Holds (some obj) st h held = elim (Bool-cases (obj.type == "system")) [
    | inl e ↦ elim (Bool-cases (or_text "" obj.subtype == "init")) [
      | inl i ↦
          rw (e, i)
            (named obj.session_id h, capture-Holds obj.session_id st h held, refl, refl, refl)
      | inr i ↦ rw (e, i) (h, held, refl, refl, refl)
    ]
    | inr e ↦ elim (Bool-cases (obj.type == "assistant")) [
      | inl a ↦
          rw (e, a)
            (h, held, heard_all-parse obj.content h.1, refl, answer_in-parse obj.content h.2)
      | inr a ↦ elim (Bool-cases (obj.type == "result")) [
        | inl r ↦
            let held' = capture-Holds obj.session_id st h held in
            rw (e, a, r)
              (
                (
                  (named obj.session_id h).0,
                  charged obj (named obj.session_id h).1,
                  some (named obj.session_id h).1.session_id,
                ),
                accumulate-Holds obj (capture now oid obj.session_id st) (named obj.session_id h)
                    held',
                refl,
                refl,
                ap some held'.session,
              )
        | inr r ↦ rw (e, a, r) (h, held, refl, refl, refl)
      ]
    ]
  ]
