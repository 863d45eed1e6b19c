-- ===== src/Orchestrator/Service/Says.antt =====
-- A turn of the service seen as a conversation: the message and the answer are said, in order.
use tac_master.Shared.{
  ℕ, suc, ◌<◌, ◌≤◌, String, Bool, false, ◌≡◌, refl, ap, sym, ◌∙◌, subst, some, List, [], ◌∷◌, ◌++◌,
  ◌==◌, string_eq, any_row, any-append, arith, Option-cases, inl, inr,
}
use tac_master.Orchestrator.Tables.{ChatRow, Metadata}
use tac_master.Orchestrator.Chat.{is_message}
use tac_master.Orchestrator.Client.{
  StreamEvent, text_block, thinking_block, tool_use_block, result_message,
}
use tac_master.Orchestrator.Service.{
  Service, Turn, Post, text_chunk, thinking, tool_use, post, thinking_text, thinking_payload,
  tool_text, tool_payload, save_text, save_block, on_event, on_events, hold_proc,
}
use tac_master.Orchestrator.Conversation.{
  Conversation, view, with_message, view-record_response, log_block-view,
}

-- The keys that are drawn never repeat.
abbrev pub Distinct : (ℕ → String) → Type 0
Distinct uuid = (m n : ℕ) → m < n → (uuid m == uuid n) ≡ false

-- No message has a key that is still to be drawn.
abbrev pub Fresh : (ℕ → String) → ℕ → List ChatRow → Type 0
Fresh uuid drawn rows = (n : ℕ) → drawn ≤ n → any_row (is_message (uuid n)) rows ≡ false

-- The service of the orchestrator `oid`, resumed or not, holds the conversation `c`.
pub record Tracks (uuid : ℕ → String) (oid : String) (resumed : Bool) (s : Service)
    (c : Conversation) : Type 0 where
  pub same : s.orchestrator_id ≡ oid
  pub mode : s.started_with_session ≡ resumed
  pub seen : view oid s.db ≡ some c
  pub session : s.client.session_id ≡ c.session_id
  pub fresh : Fresh uuid s.drawn s.db.chat_messages

-- What an event adds to the conversation.
abbrev pub say : String → String → Conversation → Conversation
say sender text c = record c { messages = c.messages ++ (sender, text) ∷ [] }

abbrev pub heard : StreamEvent → Conversation → Conversation
heard (text_block text) c = say "orchestrator" text c
heard (thinking_block thought) c = c
heard (tool_use_block id name input) c = c
heard (result_message result) c = c

abbrev pub heard_all : List StreamEvent → Conversation → Conversation
heard_all [] c = c
heard_all (event ∷ events) c = heard_all events (heard event c)

pub with_message-free :
    (sender text : String) (c : Conversation) → with_message sender text 0 0 0 c ≡ say sender text c
with_message-free sender text c = ground arith

module _ (uuid : ℕ → String) (distinct : Distinct uuid) (now : ℕ) (oid : String)
    (resumed : Bool) where
  pub Fresh-append :
      (drawn : ℕ) (rows : List ChatRow) (r : ChatRow)
      → r.id ≡ uuid drawn
      → Fresh uuid drawn rows
      → Fresh uuid (suc drawn) (rows ++ r ∷ [])
  unfolding any_row
  Fresh-append drawn rows r key fresh n low =
      any-append (is_message (uuid n)) rows (r ∷ [])
      ∙ rw (fresh n (omega arith), key, distinct drawn n (omega arith)) refl

  Fresh-later :
      (drawn : ℕ) (rows : List ChatRow) → Fresh uuid drawn rows → Fresh uuid (suc drawn) rows
  Fresh-later drawn rows fresh n low = fresh n (omega arith)

  -- A step that is right for a service's own orchestrator is right for `oid`.
  pub rebase :
      (f : Service → Service) (s : Service) (c d : Conversation)
      → (Tracks uuid s.orchestrator_id resumed s c → Tracks uuid s.orchestrator_id resumed (f s) d)
      → Tracks uuid oid resumed s c
      → Tracks uuid oid resumed (f s) d
  rebase f s c d h t =
      subst (λ o. Tracks uuid o resumed s c → Tracks uuid o resumed (f s) d) t.same h t

  save_text-own :
      (text : String) (s : Service) (c : Conversation)
      → Tracks uuid s.orchestrator_id resumed s c
      → Tracks uuid s.orchestrator_id resumed
          (save_text uuid now text s).1
          (say "orchestrator" text c)
  unfolding save_text
  save_text-own text s c t =
      let (after, done, rows, seen) =
        view-record_response now (uuid s.drawn) s.orchestrator_id text "orchestrator" 0 0 0 s.db
          t.seen (t.fresh s.drawn (omega arith)) in
      rw (save_text, done)
        (record {
          same = refl;
          mode = t.mode;
          seen = seen ∙ ap some (with_message-free "orchestrator" text c);
          session = t.session;
          fresh =
              subst (Fresh uuid (suc s.drawn)) (sym rows)
                (Fresh-append s.drawn s.db.chat_messages _ refl t.fresh);
        })

  save_block-own :
      (log_type content : String) (payload : Metadata) (s : Service) (c : Conversation)
      → Tracks uuid s.orchestrator_id resumed s c
      → Tracks uuid s.orchestrator_id resumed (save_block uuid now log_type content payload s).1 c
  unfolding save_block
  save_block-own log_type content payload s c t =
      elim (log_block-view now (uuid s.drawn) s.orchestrator_id log_type content payload s.db) [
        | inl (e, failed) ↦
            rw (save_block, failed)
              (record {
                same = refl;
                mode = t.mode;
                seen = t.seen;
                session = t.session;
                fresh = Fresh-later s.drawn s.db.chat_messages t.fresh;
              })
        | inr (row, after, done, seen, chat) ↦
            rw (save_block, done)
              (record {
                same = refl;
                mode = t.mode;
                seen = seen ∙ t.seen;
                session = t.session;
                fresh =
                    subst (Fresh uuid (suc s.drawn)) (sym chat)
                      (Fresh-later s.drawn s.db.chat_messages t.fresh);
              })
      ]

  -- A change of the turn's service that leaves what is tracked alone.
  hold-own :
      (s : Service) (c : Conversation)
      → Tracks uuid s.orchestrator_id resumed s c
      → Tracks uuid s.orchestrator_id resumed (hold_proc s) c
  unfolding hold_proc
  hold-own s c t = elim (Option-cases s.active_proc) [
    | inl e ↦
        rw (hold_proc, e)
          (record {
            same = refl;
            mode = t.mode;
            seen = t.seen;
            session = t.session;
            fresh = t.fresh;
          })
    | inr (proc, e) ↦ rw (hold_proc, e) t
  ]

  -- A post changes nothing of the conversation.
  post-Tracks :
      (p : Post) (s : Service) (c : Conversation)
      → Tracks uuid oid resumed s c
      → Tracks uuid oid resumed (post p s) c
  post-Tracks p s c t = record {
    same = t.same;
    mode = t.mode;
    seen = t.seen;
    session = t.session;
    fresh = t.fresh;
  }

  save_block-Tracks :
      (log_type content : String) (payload : Metadata) (p : String → Post) (s : Service)
      (c : Conversation)
      → Tracks uuid oid resumed s c
      → (let (id, saved) = save_block uuid now log_type content payload s in
          Tracks uuid oid resumed (post (p id) saved) c)
  save_block-Tracks log_type content payload p s c t =
      post-Tracks (p (save_block uuid now log_type content payload s).0)
        (save_block uuid now log_type content payload s).1 c
        (rebase (λ s. (save_block uuid now log_type content payload s).1) s c c
          (save_block-own log_type content payload s c) t)

  on_event-Tracks :
      (event : StreamEvent) (turn : Turn) (c : Conversation)
      → Tracks uuid oid resumed turn.service c
      → Tracks uuid oid resumed (on_event uuid now event turn).service (heard event c)
  unfolding on_event
  on_event-Tracks (text_block text) turn c t =
      post-Tracks (text_chunk (save_text uuid now text turn.service).0 text)
        (save_text uuid now text turn.service).1 (say "orchestrator" text c)
        (rebase (λ s. (save_text uuid now text s).1) turn.service c (say "orchestrator" text c)
          (save_text-own text turn.service c) t)
  on_event-Tracks (thinking_block thought) turn c t =
      save_block-Tracks "thinking" (thinking_text thought)
        (thinking_payload thought turn.service.orchestrator_id) (λ id. thinking id thought)
        turn.service c t
  on_event-Tracks (tool_use_block id name input) turn c t =
      save_block-Tracks "tool_use" (tool_text name)
        (tool_payload name id turn.service.orchestrator_id)
        (λ row_id. tool_use row_id name id input) turn.service c t
  on_event-Tracks (result_message result) turn c t = t

  pub on_events-Tracks :
      (events : List StreamEvent) (turn : Turn) (c : Conversation)
      → Tracks uuid oid resumed turn.service c
      → Tracks uuid oid resumed (on_events uuid now events turn).service (heard_all events c)
  unfolding on_events
  on_events-Tracks [] turn c t = t
  on_events-Tracks (event ∷ events) turn c t =
      let held = rebase hold_proc turn.service c c (hold-own turn.service c) t in
      on_events-Tracks events _ (heard event c)
        (on_event-Tracks event (record turn { service = hold_proc turn.service }) c held)
