-- ===== src/Dispatch/Reap/Followup.antt =====
-- The follow-up tasks of runs that did not succeed.
use tac_master.Shared.{
  true, false, ◌≡◌, refl, ◌⊎◌, Option, none, some, List, [], ◌∷◌, Text, arith, starts_with, nat_eq,
  Option-cases, Bool-cases, inl, inr,
}
use tac_master.Store.{RunStatus}
use tac_master.Dispatch.Reap.{
  Call, kill_tree, cleo_complete, cleo_update_status, cleo_add, cleo_labels, cleo_note, reflect,
  CleoAnswers, is_followup, followup_title, create_followup_task, follow_up,
}

-- The title of the first `cleo add` among some calls.
abbrev pub added_title : List Call → Option Text
added_title [] = none
added_title (cleo_add task title ∷ calls) = some title
added_title (kill_tree pid ∷ calls) = added_title calls
added_title (cleo_complete task ∷ calls) = added_title calls
added_title (cleo_update_status task status ∷ calls) = added_title calls
added_title (cleo_labels task ∷ calls) = added_title calls
added_title (cleo_note task ∷ calls) = added_title calls
added_title (reflect own ∷ calls) = added_title calls

is_followup-title :
    (final : RunStatus) (title : Text) → is_followup (followup_title final title) ≡ true
unfolding is_followup followup_title starts_with
is_followup-title RunStatus.pending title = refl
is_followup-title RunStatus.running title = refl
is_followup-title RunStatus.succeeded title = refl
is_followup-title RunStatus.incomplete title = refl
is_followup-title RunStatus.failed title = refl
is_followup-title RunStatus.aborted title = refl

-- A task that is created has the title of its parent's follow-up, and its parent is none itself.
create-added :
    (task title : Text) (final : RunStatus) (cleo : CleoAnswers)
    → added_title (create_followup_task task final cleo) ≡ some title
    → (parent : Text) × (cleo.parent_title ≡ some parent)
      × (is_followup parent ≡ false)
      × (title ≡ followup_title final parent)
unfolding create_followup_task
create-added task title final cleo h = elim (Option-cases cleo.parent_title) [
  | inl e ↦ absurd (ground (arith, e, h))
  | inr (parent, e) ↦ elim (Bool-cases (is_followup parent)) [
    | inl f ↦ absurd (ground (arith, e, f, h))
    | inr f ↦ (parent, e, f, ground (arith, e, f, h))
  ]
]

create-followup :
    (task parent : Text) (final : RunStatus) (cleo : CleoAnswers)
    → cleo.parent_title ≡ some parent
    → is_followup parent ≡ true
    → create_followup_task task final cleo ≡ []
unfolding create_followup_task
create-followup task parent final cleo e f = ground (arith, e, f)

-- Follow-ups do not chain. When a run leads to a new task, the run had failed or was incomplete, the
-- new title is its task's with `Fix: ` or `Resume: ` in front, and a run for a task of that new title
-- leads to no further task, whatever it ends as.
pub follow_up-once :
    (task title : Text) (final : RunStatus) (cleo : CleoAnswers) (task' : Text) (final' : RunStatus)
    (cleo' : CleoAnswers)
    → added_title (follow_up (some task) final cleo) ≡ some title
    → cleo'.parent_title ≡ some title
    → ((final ≡ RunStatus.failed) ⊎ (final ≡ RunStatus.incomplete))
      × ((parent : Text) × (cleo.parent_title ≡ some parent)
          × (title ≡ followup_title final parent))
      × (follow_up (some task') final' cleo' ≡ [])
unfolding follow_up
follow_up-once task title final cleo task' final' cleo' h next =
    (cause final h, (origin final h).0, ends final' ((origin final h).1))
  where
    origin :
        (f : RunStatus)
        → added_title (follow_up (some task) f cleo) ≡ some title
        → ((parent : Text) × (cleo.parent_title ≡ some parent) × (title ≡ followup_title f parent))
          × (is_followup title ≡ true)
    origin RunStatus.pending k = absurd (ground (arith, k))
    origin RunStatus.running k = absurd (ground (arith, k))
    origin RunStatus.succeeded k = absurd (ground (arith, k))
    origin RunStatus.aborted k = absurd (ground (arith, k))
    origin RunStatus.failed k =
        let (parent, e, _, t) = create-added task title RunStatus.failed cleo k in
        ((parent, e, t), rw (t, is_followup-title RunStatus.failed parent) refl)
    origin RunStatus.incomplete k =
        let (parent, e, _, t) = create-added task title RunStatus.incomplete cleo k in
        ((parent, e, t), rw (t, is_followup-title RunStatus.incomplete parent) refl)

    cause :
        (f : RunStatus)
        → added_title (follow_up (some task) f cleo) ≡ some title
        → (f ≡ RunStatus.failed) ⊎ (f ≡ RunStatus.incomplete)
    cause RunStatus.pending k = absurd (ground (arith, k))
    cause RunStatus.running k = absurd (ground (arith, k))
    cause RunStatus.succeeded k = absurd (ground (arith, k))
    cause RunStatus.aborted k = absurd (ground (arith, k))
    cause RunStatus.failed k = inl refl
    cause RunStatus.incomplete k = inr refl

    ends : (f : RunStatus) → is_followup title ≡ true → follow_up (some task') f cleo' ≡ []
    ends RunStatus.pending k = refl
    ends RunStatus.running k = refl
    ends RunStatus.succeeded k = refl
    ends RunStatus.aborted k = refl
    ends RunStatus.failed k = create-followup task' title RunStatus.failed cleo' next k
    ends RunStatus.incomplete k = create-followup task' title RunStatus.incomplete cleo' next k
