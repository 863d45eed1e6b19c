-- ===== src/Orchestrator/Service/Interrupt.antt =====
-- The process that an interrupt in the middle of a turn terminates.
use tac_master.Shared.{
  ℕ, String, Bool, true, false, not, ◌&&◌, ◌||◌, ◌≡◌, refl, ap, sym, ◌∙◌, Option, none, some, List,
  [], ◌∷◌, ◌==◌, string_eq, if◌then◌else◌, any_row, eq_iff, Result-cases, Option-cases, Bool-cases,
  inl, inr, arith,
}
use tac_master.Orchestrator.Tables.{Metadata}
use tac_master.Orchestrator.Session.{record_response, log_block}
use tac_master.Orchestrator.Client.{
  StreamEvent, text_block, thinking_block, tool_use_block, result_message, ContentItem, Obj,
  Streaming, truthy, capture, parse_content_blocks, on_result, stream_line,
}
use tac_master.Orchestrator.Service.{
  Service, Turn, save_text, save_block, on_event, client_proc, hold_proc, on_events, on_line,
  on_lines, interrupt,
}

-- Whether a turn runs, the process held, and the client's attribute.
abbrev Grip : Type 0
Grip = Bool × Option ℕ × Option ℕ

abbrev grip : Service → Grip
grip s = (s.is_executing, s.active_proc, s.client.proc)

-- A process that is held stays, else the client's is taken.
abbrev pub or_taken : Option ℕ → Option ℕ → Option ℕ
or_taken (some held) proc = some held
or_taken none proc = proc

abbrev taken : Grip → Grip
taken (executing, held, proc) = (executing, or_taken held proc, proc)

taken_twice : (g : Grip) → taken (taken g) ≡ taken g
taken_twice (executing, none, none) = refl
taken_twice (executing, none, some p) = refl
taken_twice (executing, some p, proc) = refl

taken_more :
    (b c : Bool) (g n : Grip)
    → n ≡ (if b then taken g else g)
    → (if c then taken n else n) ≡ (if (if b then true else c) then taken g else g)
taken_more true true g n h = ap taken h ∙ taken_twice g
taken_more true false g n h = h
taken_more false true g n h = ap taken h
taken_more false false g n h = h

-- What `interrupt` reads.
abbrev terminated : Grip → Option ℕ
terminated (executing, held, proc) = if executing then held else none

terminated-taken :
    (b : Bool) (g : Grip)
    → terminated (if b then taken g else g)
      ≡ (if g.0 then if b then or_taken g.1 g.2 else g.1 else none)
terminated-taken true (true, held, proc) = refl
terminated-taken true (false, held, proc) = refl
terminated-taken false (true, held, proc) = refl
terminated-taken false (false, held, proc) = refl

module _ (uuid : ℕ → String) (now : ℕ) where
  save_text-grip : (text : String) (s : Service) → grip (save_text uuid now text s).1 ≡ grip s
  unfolding save_text
  save_text-grip text s =
      elim (Result-cases
        (record_response now (uuid s.drawn) s.orchestrator_id text "orchestrator" 0 0 0 s.db)) [
          | inl (a, e) ↦ rw (save_text, e) refl
          | inr (a, e) ↦ rw (save_text, e) refl
        ]

  save_block-grip :
      (log_type content : String) (payload : Metadata) (s : Service)
      → grip (save_block uuid now log_type content payload s).1 ≡ grip s
  unfolding save_block
  save_block-grip log_type content payload s =
      elim (Result-cases
        (log_block now (uuid s.drawn) s.orchestrator_id log_type content payload s.db)) [
          | inl (a, e) ↦ rw (save_block, e) refl
          | inr (a, e) ↦ rw (save_block, e) refl
        ]

  on_event-grip :
      (event : StreamEvent) (turn : Turn)
      → grip (on_event uuid now event turn).service ≡ grip turn.service
  unfolding on_event
  on_event-grip (text_block text) turn = save_text-grip text turn.service
  on_event-grip (thinking_block thought) turn = save_block-grip _ _ _ turn.service
  on_event-grip (tool_use_block id name input) turn = save_block-grip _ _ _ turn.service
  on_event-grip (result_message result) turn = refl

  hold-grip : (s : Service) → grip (hold_proc s) ≡ taken (grip s)
  unfolding hold_proc client_proc
  hold-grip s = elim (Option-cases s.active_proc) [
    | inl e ↦ rw (hold_proc, e) refl
    | inr (p, e) ↦ rw (hold_proc, e) (rw e refl)
  ]

  more-grip :
      (events : List StreamEvent) (turn : Turn)
      → grip turn.service ≡ taken (grip turn.service)
      → grip (on_events uuid now events turn).service ≡ grip turn.service
  unfolding on_events
  more-grip [] turn h = refl
  more-grip (event ∷ events) turn h =
      let next = on_event uuid now event (record turn { service = hold_proc turn.service }) in
      let same : grip next.service ≡ grip turn.service =
        on_event-grip event (record turn { service = hold_proc turn.service })
        ∙ hold-grip turn.service
        ∙ sym h in
      more-grip events next (same ∙ h ∙ ap taken (sym same)) ∙ same

  on_events-grip :
      (event : StreamEvent) (events : List StreamEvent) (turn : Turn)
      → grip (on_events uuid now (event ∷ events) turn).service ≡ taken (grip turn.service)
  unfolding on_events
  on_events-grip event events turn =
      let next = on_event uuid now event (record turn { service = hold_proc turn.service }) in
      let same : grip next.service ≡ taken (grip turn.service) =
        on_event-grip event (record turn { service = hold_proc turn.service })
        ∙ hold-grip turn.service in
      more-grip events next (same ∙ sym (taken_twice (grip turn.service)) ∙ ap taken (sym same))
      ∙ same

-- An entry of a message that becomes an event.
unfoldable pub is_block : ContentItem → Bool
is_block item = item.type == "text" || item.type == "thinking" || item.type == "tool_use"

-- Whether the stream yields an event for a line: an assistant's message with a block, or a result.
unfoldable pub yields : Option Obj → Bool
unfolding is_block any_row
yields none = false
yields (some obj) = obj.type == "assistant" && any_row is_block obj.content || obj.type == "result"

is_empty : List StreamEvent → Bool
is_empty [] = true
is_empty (event ∷ events) = false

is_empty-parse :
    (content : List ContentItem)
    → is_empty (parse_content_blocks content) ≡ not (any_row is_block content)
unfolding parse_content_blocks is_block any_row is_empty
is_empty-parse [] = refl
is_empty-parse (item ∷ content) = ground (arith, is_empty-parse content)

module _ (now : ℕ) (orchestrator_id : String) where
  proc-capture :
      (sid : Option String) (st : Streaming)
      → (capture now orchestrator_id sid st).client.proc ≡ st.client.proc
  unfolding capture truthy
  proc-capture none st = refl
  proc-capture (some sid) st = elim (Bool-cases (truthy (some sid) && not st.session_captured)) [
    | inl e ↦ rw e refl
    | inr e ↦ rw e refl
  ]

  proc-stream_line :
      (line : Option Obj) (st : Streaming)
      → (stream_line now orchestrator_id line st).1.client.proc ≡ st.client.proc
  unfolding stream_line on_result
  proc-stream_line none st = refl
  proc-stream_line (some obj) st = ground (arith, proc-capture obj.session_id st)

  is_empty-stream_line :
      (line : Option Obj) (st : Streaming)
      → is_empty (stream_line now orchestrator_id line st).0 ≡ not (yields line)
  unfolding stream_line on_result is_empty yields
  is_empty-stream_line none st = refl
  is_empty-stream_line (some obj) st = elim (Bool-cases (obj.type == "system")) [
    | inl e ↦ rw ((eq_iff obj.type "system").0 e) refl
    | inr e ↦ elim (Bool-cases (obj.type == "assistant")) [
      | inl a ↦
          rw ((eq_iff obj.type "assistant").0 a)
            (blocks (any_row is_block obj.content) (is_empty-parse obj.content))
      | inr a ↦ elim (Bool-cases (obj.type == "result")) [
        | inl r ↦ rw ((eq_iff obj.type "result").0 r) refl
        | inr r ↦ rw (e, a, r) refl
      ]
    ]
  ]
    where
      blocks : {b : Bool} (c : Bool) → b ≡ not c → b ≡ not (c || false)
      blocks c h = ground (arith, h)

module _ (uuid : ℕ → String) (now : ℕ) where
  on_list-grip :
      (events : List StreamEvent) (turn : Turn)
      → grip (on_events uuid now events turn).service
        ≡ (if is_empty events then grip turn.service else taken (grip turn.service))
  unfolding is_empty on_events
  on_list-grip [] turn = refl
  on_list-grip (event ∷ events) turn = on_events-grip uuid now event events turn

  on_line-grip :
      (line : Option Obj) (turn : Turn)
      → grip (on_line uuid now line turn).service
        ≡ (if yields line then taken (grip turn.service) else grip turn.service)
  unfolding on_line
  on_line-grip line turn =
      let st : Streaming = record {
        client = turn.service.client;
        db = turn.service.db;
        session_captured = turn.session_captured;
      } in
      let read = stream_line now turn.service.orchestrator_id line st in
      let heard : Turn = record turn {
        service = record turn.service { client = read.1.client; db = read.1.db };
        session_captured = read.1.session_captured;
      } in
      let same : grip heard.service ≡ grip turn.service =
        ap (λ p. (turn.service.is_executing, turn.service.active_proc, p))
          (proc-stream_line now turn.service.orchestrator_id line st) in
      let empty = is_empty-stream_line now turn.service.orchestrator_id line st in
      let choose = λ (b : Bool). if b then grip heard.service else taken (grip heard.service) in
      elim (Bool-cases (yields line)) [
        | inl y ↦ rw y (on_list-grip read.0 heard ∙ ap choose (empty ∙ ap not y) ∙ ap taken same)
        | inr y ↦ rw y (on_list-grip read.0 heard ∙ ap choose (empty ∙ ap not y) ∙ same)
      ]

  on_lines-grip :
      (lines : List (Option Obj)) (turn : Turn)
      → grip (on_lines uuid now lines turn).service
        ≡ (if any_row yields lines then taken (grip turn.service) else grip turn.service)
  unfolding on_lines any_row
  on_lines-grip [] turn = refl
  on_lines-grip (line ∷ lines) turn =
      let next = on_line uuid now line turn in
      on_lines-grip lines next
      ∙ taken_more (yields line) (any_row yields lines) (grip turn.service) (grip next.service)
          (on_line-grip line turn)

-- An interrupt after any lines of a turn terminates nothing where no turn runs; else it terminates
-- the process that the service held before, or, where it held none and a line has yielded an event,
-- the one in the client's attribute, be it none.
pub interrupt-on_lines :
    (uuid : ℕ → String) (now : ℕ) (lines : List (Option Obj)) (turn : Turn)
    → interrupt (on_lines uuid now lines turn).service ≡ (
        if turn.service.is_executing
        then if any_row yields lines
          then or_taken turn.service.active_proc turn.service.client.proc
          else turn.service.active_proc
        else none)
unfolding interrupt
interrupt-on_lines uuid now lines turn =
    ap terminated (on_lines-grip uuid now lines turn)
    ∙ terminated-taken (any_row yields lines) (grip turn.service)
