-- ===== src/Orchestrator/Service/Whole.antt =====
-- `_run_phases` from its message to its end, whether the stream ends or raises.
use tac_master.Shared.{
  ℕ, suc, String, Bool, ◌≡◌, refl, ap, sym, ◌∙◌, subst, Option, some, List, [], ◌∷◌, ◌++◌, arith,
  Result, ok, err,
}
use tac_master.Orchestrator.Tables.{ChatRow, Db}
use tac_master.Orchestrator.Session.{record_response}
use tac_master.Orchestrator.Client.{Obj}
use tac_master.Orchestrator.Conversation.{Conversation, view, response_row, view-record_response}
use tac_master.Orchestrator.Service.{Service, orchestrator_chat, post, stream, run_phases}
use tac_master.Orchestrator.Service.Says.{Distinct, Fresh, say, with_message-free, Fresh-append}
use tac_master.Orchestrator.Service.Refines.{TracksTurn}
use tac_master.Orchestrator.Service.Converses.{
  Ready, with_status, kept, heard_turn, hear_turn, stream-own, phase_three-view,
}

-- The conversation that a turn leaves, by how its stream ends.
abbrev pub left_by :
    Result (Unit {0}) → Bool → String → List (Option Obj) → Conversation → Conversation
left_by (ok _) resumed message lines c = hear_turn resumed message lines c
left_by (err e) resumed message lines c = with_status "idle" (heard_turn message lines c).1

module _ (uuid : ℕ → String) (distinct : Distinct uuid) (now : ℕ) (message : String)
    (lines : List (Option Obj)) (s : Service) (c : Conversation)
    (ready : Ready uuid s.orchestrator_id s.started_with_session s c) where
  abbrev first_row : ChatRow
  first_row = response_row now (uuid s.drawn) s.orchestrator_id message "user" 0 0 0

  -- The tables hold the message.
  abbrev View : Db → Type 0
  View after =
      (after.chat_messages ≡ s.db.chat_messages ++ first_row ∷ [])
      × (view s.orchestrator_id after ≡ some (say "user" message c))

  saved :
      (after : Db) × (record_response now (uuid s.drawn) s.orchestrator_id message "user" 0 0 0 s.db
        ≡ ok (first_row, after))
      × View after
  saved =
      let (after, done, rows, seen) =
        view-record_response now (uuid s.drawn) s.orchestrator_id message "user" 0 0 0 s.db
          ready.seen (ready.fresh s.drawn (omega arith)) in
      (after, done, (rows, seen ∙ ap some (with_message-free "user" message c)))

  -- The service when the message is saved and posted.
  abbrev asked : Db → Service
  asked after =
      post (orchestrator_chat (uuid s.drawn) message) (record s { drawn = suc s.drawn; db = after })

  asked-Ready :
      (after : Db)
      → after.chat_messages ≡ s.db.chat_messages ++ first_row ∷ []
      → view s.orchestrator_id after ≡ some (say "user" message c)
      → Ready uuid s.orchestrator_id s.started_with_session (asked after) (say "user" message c)
  asked-Ready after rows seen = record {
    same = refl;
    mode = refl;
    seen = seen;
    session = ready.session;
    fresh = subst (Fresh uuid (suc s.drawn)) (sym rows) (
        Fresh-append uuid distinct now s.orchestrator_id s.started_with_session s.drawn
          s.db.chat_messages first_row refl ready.fresh);
  }

  -- The outcome of a turn with this ending.
  abbrev pub Left : Result (Unit {0}) → Type 0
  Left ending =
      ((run_phases uuid now message lines ending s).0 ≡ ending)
      × (view s.orchestrator_id (run_phases uuid now message lines ending s).1.db
          ≡ some (left_by ending s.started_with_session message lines c))

  -- After its message is saved a turn is its stream, and the third phase where that ends.
  asked-stream :
      (after : Db)
      → after.chat_messages ≡ s.db.chat_messages ++ first_row ∷ []
      → view s.orchestrator_id after ≡ some (say "user" message c)
      → TracksTurn uuid s.orchestrator_id s.started_with_session
          (stream uuid now lines (asked after))
          (
            (heard_turn message lines c).0,
            with_status "idle" (heard_turn message lines c).1,
            (heard_turn message lines c).2,
          )
  unfolding heard_turn
  asked-stream after rows seen =
      stream-own uuid distinct now s.started_with_session lines (asked after) (say "user" message c)
        (asked-Ready after rows seen)

  run_phases-leaves : (ending : Result (Unit {0})) → Left ending
  unfolding run_phases hear_turn
  run_phases-leaves (ok u) =
      let (after, done, (rows, seen)) = saved in
      let t = asked-stream after rows seen in
      let turn = stream uuid now lines (asked after) in
      rw (run_phases, done)
        (
          refl,
          phase_three-view uuid distinct now s.started_with_session turn.tools_used turn.result_msg
                s.orchestrator_id turn.service _ t.tracks
              ∙ ap
                  (λ answer. some (
                    kept s.started_with_session answer
                      (with_status "idle" (heard_turn message lines c).1)))
                  t.answer,
        )
  run_phases-leaves (err e) =
      let (after, done, (rows, seen)) = saved in
      rw (run_phases, done) (refl, (asked-stream after rows seen).tracks.seen)

-- A turn refines the turn of the conversation, for keys that never repeat and a service that is
-- ready: its outcome is that of the stream, and the tables show what was said, the totals, the
-- session and the status of the conversation's turn. Where the stream raises, they show what was
-- heard up to there, with the status "idle".
pub run_phases-left_by :
    (uuid : ℕ → String) (now : ℕ) (message : String) (lines : List (Option Obj))
    (ending : Result (Unit {0})) (s : Service) (c : Conversation)
    → Distinct uuid
    → Ready uuid s.orchestrator_id s.started_with_session s c
    → ((run_phases uuid now message lines ending s).0 ≡ ending)
      × (view s.orchestrator_id (run_phases uuid now message lines ending s).1.db
          ≡ some (left_by ending s.started_with_session message lines c))
run_phases-left_by uuid now message lines ending s c distinct ready =
    run_phases-leaves uuid distinct now message lines s c ready ending
