-- ===== src/Orchestrator/Service/Converses.antt =====
-- `_run_phases` as a turn of the conversation, and what it leaves ready for the next.
use tac_master.Shared.{
  ℕ, String, Bool, true, false, not, ◌&&◌, ◌≡◌, refl, ap, ◌∙◌, subst, Option, none, some, List, [],
  if◌then◌else◌, string_eq, Bool-cases, find_row, inl, inr,
}
use tac_master.Orchestrator.Tables.{OrchestratorRow, Db}
use tac_master.Orchestrator.Agents.{is_agent, get, update_session}
use tac_master.Orchestrator.Client.{Obj, ResultMessage, get_session_id, set_status, truthy}
use tac_master.Orchestrator.Conversation.{Conversation, view, view-row, view-update_agent, on_some}
use tac_master.Orchestrator.Service.{
  Service, Turn, begin_stream, end_stream, keep_session, phase_three, stream, on_lines,
}
use tac_master.Orchestrator.Service.Says.{Distinct, Fresh, Tracks, rebase, say}
use tac_master.Orchestrator.Service.Lines.{Heard, session_of, hear_lines}
use tac_master.Orchestrator.Service.Refines.{TracksTurn, on_lines-TracksTurn}

-- Between turns the client may not have loaded its session yet.
pub record Ready (uuid : ℕ → String) (oid : String) (resumed : Bool) (s : Service)
    (c : Conversation) : Type 0 where
  pub same : s.orchestrator_id ≡ oid
  pub mode : s.started_with_session ≡ resumed
  pub seen : view oid s.db ≡ some c
  pub session : s.client.session_loaded ≡ true → s.client.session_id ≡ c.session_id
  pub fresh : Fresh uuid s.drawn s.db.chat_messages

abbrev pub with_status : String → Conversation → Conversation
with_status status c = record c { status = status }

-- The session of the last result is kept in a session that was not resumed.
unfoldable pub kept : Bool → Option (Option String) → Conversation → Conversation
unfolding truthy
kept resumed none c = c
kept resumed (some sid) c = if truthy sid && not resumed then record c { session_id = sid } else c

-- The turn up to the end of the stream.
unfoldable pub heard_turn : String → List (Option Obj) → Conversation → Heard
unfolding hear_lines
heard_turn message lines c =
    hear_lines lines (false, with_status "executing" (say "user" message c), none)

-- The turn of a conversation: the message, the lines of the answer, and the kept session.
unfoldable pub hear_turn : Bool → String → List (Option Obj) → Conversation → Conversation
unfolding heard_turn kept
hear_turn resumed message lines c =
    let (known, answered, answer) = heard_turn message lines c in
    kept resumed answer (with_status "idle" answered)

view-set_status :
    (now : ℕ) (oid status : String) (db : Db) (c : Conversation)
    → view oid db ≡ some c
    → view oid (set_status now oid status db) ≡ some (with_status status c)
unfolding set_status
view-set_status now oid status db c h =
    view-update_agent oid (λ (r : OrchestratorRow). record r { status = status; updated_at = now })
      (with_status status) db (λ _. refl) (λ _ _. refl)
    ∙ ap (on_some (with_status status)) h

view-update_session :
    (now : ℕ) (oid : String) (sid : Option String) (db : Db) (c : Conversation)
    → view oid db ≡ some c
    → view oid (update_session now oid sid db) ≡ some (record c { session_id = sid })
unfolding update_session
view-update_session now oid sid db c h =
    view-update_agent oid (λ (r : OrchestratorRow). record r { session_id = sid; updated_at = now })
      (λ (d : Conversation). record d { session_id = sid }) db (λ _. refl) (λ _ _. refl)
    ∙ ap (on_some (λ (d : Conversation). record d { session_id = sid })) h

pub session-view :
    (oid : String) (db : Db) (c : Conversation)
    → view oid db ≡ some c
    → get_session_id oid db ≡ c.session_id
unfolding get_session_id get
session-view oid db c h =
    let (r, found, same) = view-row oid db h in
    let row : find_row (is_agent oid) db.orchestrator_agents ≡ some r = found in
    rw (get_session_id, row) (ap (λ (d : Conversation). d.session_id) same)

module _ (uuid : ℕ → String) (distinct : Distinct uuid) (now : ℕ) (resumed : Bool) where
  begin-Tracks :
      (s : Service) (c : Conversation)
      → Ready uuid s.orchestrator_id resumed s c
      → Tracks uuid s.orchestrator_id resumed (begin_stream now s) (with_status "executing" c)
  unfolding begin_stream
  begin-Tracks s c ready = record {
    same = refl;
    mode = ready.mode;
    seen = view-set_status now s.orchestrator_id "executing" s.db c ready.seen;
    session = elim (Bool-cases s.client.session_loaded) [
      | inl e ↦ rw e (ready.session e)
      | inr e ↦ rw e (session-view s.orchestrator_id s.db c ready.seen)
    ];
    fresh = ready.fresh;
  }

  end-own :
      (s : Service) (c : Conversation)
      → Tracks uuid s.orchestrator_id resumed s c
      → Tracks uuid s.orchestrator_id resumed (end_stream now s) (with_status "idle" c)
  unfolding end_stream
  end-own s c t = record {
    same = refl;
    mode = t.mode;
    seen = view-set_status now s.orchestrator_id "idle" s.db c t.seen;
    session = t.session;
    fresh = t.fresh;
  }

  -- What is heard of a stream that begins in a conversation.
  abbrev heard_stream : List (Option Obj) → Conversation → Heard
  heard_stream lines c = hear_lines lines (false, with_status "executing" c, none)

  pub stream-own :
      (lines : List (Option Obj)) (s : Service) (c : Conversation)
      → Ready uuid s.orchestrator_id resumed s c
      → TracksTurn uuid s.orchestrator_id resumed (stream uuid now lines s) (
        (heard_stream lines c).0,
        with_status "idle" (heard_stream lines c).1,
        (heard_stream lines c).2,
      )
  unfolding stream
  stream-own lines s c ready =
      let begun : Turn = record {
        service = begin_stream now s;
        session_captured = false;
        tools_used = [];
        result_msg = none;
      } in
      let t =
        on_lines-TracksTurn uuid distinct now s.orchestrator_id resumed lines begun
          (false, with_status "executing" c, none)
          (record { tracks = begin-Tracks s c ready; known = refl; answer = refl }) in
      let last = (on_lines uuid now lines begun).service in
      let heard = (heard_stream lines c).1 in
      record {
        tracks =
            rebase uuid distinct now s.orchestrator_id resumed (end_stream now) last heard
              (with_status "idle" heard) (end-own last heard) t.tracks;
        known = t.known;
        answer = t.answer;
      }

  keep-view :
      (sid : Option String) (s : Service) (c : Conversation)
      → Tracks uuid s.orchestrator_id resumed s c
      → view s.orchestrator_id (keep_session now sid s).db ≡ some (kept resumed (some sid) c)
  unfolding keep_session kept
  keep-view sid s c t = elim (Bool-cases (truthy sid)) [
    | inl e ↦ elim (Bool-cases resumed) [
      | inl r ↦ rw (keep_session, kept, e, r, t.mode ∙ r) t.seen
      | inr r ↦
          rw (keep_session, kept, e, r, t.mode ∙ r)
            (view-update_session now s.orchestrator_id sid s.db c t.seen)
    ]
    | inr e ↦ rw (keep_session, kept, e) t.seen
  ]

  phase_three-own :
      (tools : List String) (result : Option ResultMessage) (s : Service) (c : Conversation)
      → Tracks uuid s.orchestrator_id resumed s c
      → view s.orchestrator_id (phase_three now tools result s).db
        ≡ some (kept resumed (on_some session_of result) c)
  unfolding phase_three kept
  phase_three-own tools none s c t = t.seen
  phase_three-own tools (some result) s c t = keep-view result.session_id s c t

  pub phase_three-view :
      (tools : List String) (result : Option ResultMessage) (oid : String) (s : Service)
      (c : Conversation)
      → Tracks uuid oid resumed s c
      → view oid (phase_three now tools result s).db
        ≡ some (kept resumed (on_some session_of result) c)
  phase_three-view tools result oid s c t =
      subst
        (λ o.
          Tracks uuid o resumed s c
          → view o (phase_three now tools result s).db
            ≡ some (kept resumed (on_some session_of result) c))
        t.same (phase_three-own tools result s c) t
