-- ===== src/Orchestrator/Service/Refines.antt =====
-- A whole turn of the service refines a turn of the conversation.
use tac_master.Shared.{
  ℕ, String, Bool, ◌≡◌, refl, ap, sym, ◌∙◌, subst, Option, List, [], ◌∷◌, string_eq,
}
use tac_master.Orchestrator.Client.{
  StreamEvent, text_block, thinking_block, tool_use_block, result_message, Obj, Streaming,
  stream_line,
}
use tac_master.Orchestrator.Conversation.{on_some}
use tac_master.Orchestrator.Service.{Turn, on_event, on_events, hold_proc, on_line, on_lines}
use tac_master.Orchestrator.Service.Says.{Distinct, Fresh, Tracks, on_events-Tracks}
use tac_master.Orchestrator.Service.Lines.{
  session_of, answer_in, Heard, hear_line, hear_lines, stream_line-Holds,
}

-- The turn holds the conversation, and knows its session or not.
pub record TracksTurn (uuid : ℕ → String) (oid : String) (resumed : Bool) (turn : Turn) (h : Heard)
    : Type 0 where
  pub tracks : Tracks uuid oid resumed turn.service h.1
  pub known : turn.session_captured ≡ h.0
  pub answer : on_some session_of turn.result_msg ≡ h.2

module _ (uuid : ℕ → String) (distinct : Distinct uuid) (now : ℕ) (oid : String)
    (resumed : Bool) where
  on_event-captured :
      (event : StreamEvent) (turn : Turn)
      → (on_event uuid now event turn).session_captured ≡ turn.session_captured
  unfolding on_event
  on_event-captured (text_block text) turn = refl
  on_event-captured (thinking_block thought) turn = refl
  on_event-captured (tool_use_block id name input) turn = refl
  on_event-captured (result_message result) turn = refl

  on_events-captured :
      (events : List StreamEvent) (turn : Turn)
      → (on_events uuid now events turn).session_captured ≡ turn.session_captured
  unfolding on_events
  on_events-captured [] turn = refl
  on_events-captured (event ∷ events) turn =
      on_events-captured events
        (on_event uuid now event (record turn { service = hold_proc turn.service }))
      ∙ on_event-captured event (record turn { service = hold_proc turn.service })

  on_event-answer :
      (event : StreamEvent) (turn : Turn)
      → on_some session_of (on_event uuid now event turn).result_msg
        ≡ answer_in (event ∷ []) (on_some session_of turn.result_msg)
  unfolding on_event
  on_event-answer (text_block text) turn = refl
  on_event-answer (thinking_block thought) turn = refl
  on_event-answer (tool_use_block id name input) turn = refl
  on_event-answer (result_message result) turn = refl

  answer_in-cons :
      (event : StreamEvent) (events : List StreamEvent) (answer : Option (Option String))
      → answer_in events (answer_in (event ∷ []) answer) ≡ answer_in (event ∷ events) answer
  answer_in-cons (text_block text) events answer = refl
  answer_in-cons (thinking_block thought) events answer = refl
  answer_in-cons (tool_use_block id name input) events answer = refl
  answer_in-cons (result_message result) events answer = refl

  on_events-answer :
      (events : List StreamEvent) (turn : Turn)
      → on_some session_of (on_events uuid now events turn).result_msg
        ≡ answer_in events (on_some session_of turn.result_msg)
  unfolding on_events
  on_events-answer [] turn = refl
  on_events-answer (event ∷ events) turn =
      on_events-answer events
        (on_event uuid now event (record turn { service = hold_proc turn.service }))
      ∙ ap (answer_in events)
          (on_event-answer event (record turn { service = hold_proc turn.service }))
      ∙ answer_in-cons event events (on_some session_of turn.result_msg)

  -- The client's part of a line, in the variables of the turn.
  abbrev streaming : Turn → Streaming
  streaming turn = record {
    client = turn.service.client;
    db = turn.service.db;
    session_captured = turn.session_captured;
  }

  on_line-own :
      (line : Option Obj) (turn : Turn) (h : Heard)
      → TracksTurn uuid turn.service.orchestrator_id resumed turn h
      → TracksTurn uuid turn.service.orchestrator_id resumed
          (on_line uuid now line turn)
          (hear_line line h)
  unfolding on_line
  on_line-own line turn h t =
      let own = turn.service.orchestrator_id in
      let (mid, held, texts, known, answer) =
        stream_line-Holds now own turn.service.db.chat_messages line (streaming turn) h (record {
          seen = t.tracks.seen;
          session = t.tracks.session;
          known = t.known;
          chat = refl;
        }) in
      let events = (stream_line now own line (streaming turn)).0 in
      let after = (stream_line now own line (streaming turn)).1 in
      let left : Turn = record turn {
        service = record turn.service { client = after.client; db = after.db };
        session_captured = after.session_captured;
      } in
      record {
        tracks = subst (Tracks uuid own resumed (on_events uuid now events left).service) texts (
            on_events-Tracks uuid distinct now own resumed events left mid.1 (record {
              same = refl;
              mode = t.tracks.mode;
              seen = held.seen;
              session = held.session;
              fresh = subst (Fresh uuid turn.service.drawn) (sym held.chat) t.tracks.fresh;
            }));
        known = on_events-captured events left ∙ held.known ∙ known;
        answer = on_events-answer events left ∙ ap (answer_in events) t.answer ∙ answer;
      }

  on_line-TracksTurn :
      (line : Option Obj) (turn : Turn) (h : Heard)
      → TracksTurn uuid oid resumed turn h
      → TracksTurn uuid oid resumed (on_line uuid now line turn) (hear_line line h)
  on_line-TracksTurn line turn h t =
      subst
        (λ o.
          TracksTurn uuid o resumed turn h
          → TracksTurn uuid o resumed (on_line uuid now line turn) (hear_line line h))
        t.tracks.same (on_line-own line turn h) t

  pub on_lines-TracksTurn :
      (lines : List (Option Obj)) (turn : Turn) (h : Heard)
      → TracksTurn uuid oid resumed turn h
      → TracksTurn uuid oid resumed (on_lines uuid now lines turn) (hear_lines lines h)
  unfolding on_lines hear_lines
  on_lines-TracksTurn [] turn h t = t
  on_lines-TracksTurn (line ∷ lines) turn h t =
      on_lines-TracksTurn lines (on_line uuid now line turn) (hear_line line h)
        (on_line-TracksTurn line turn h t)
