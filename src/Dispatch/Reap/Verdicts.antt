-- ===== src/Dispatch/Reap/Verdicts.antt =====
-- When a run is taken for hanging or for finished, and what its state files say of it.
use tac_master.Shared.{
  ℕ, ◌+◌, ◌<◌, Bool, true, false, ◌≡◌, ◌↔◌, ◌⊎◌, ◌&&◌, refl, Option, none, some, List, [], ◌∷◌,
  arith, if◌then◌else◌, String,
}
use tac_master.Store.{RunStatus}
use tac_master.Dispatch.Reap.{
  Outside, Probe, gone, not_permitted, alive, still_running, reaped, not_a_child, StateFile, absent,
  unreadable, loaded, hang, finished, verdict, first_state, infer_final_status,
}

-- A run hangs exactly when its process is there, is not waited for, and has run for more than an
-- hour. It is finished exactly when its process is gone or has just been waited for.
pub verdict_iff :
    (now : ℕ) (probe : Probe) (started_at : ℕ)
    → ((verdict now probe started_at ≡ hang) ↔ (
        ((probe ≡ alive still_running) ⊎ (probe ≡ alive not_a_child)) × (started_at + 3600 < now)))
      × ((verdict now probe started_at ≡ finished) ↔ ((probe ≡ gone) ⊎ (probe ≡ alive reaped)))
unfolding verdict
verdict_iff now gone started_at = ground arith
verdict_iff now not_permitted started_at = ground arith
verdict_iff now (alive still_running) started_at = ground arith
verdict_iff now (alive reaped) started_at = ground arith
verdict_iff now (alive not_a_child) started_at = ground arith

-- The first of some state files that can be read.
abbrev pub readable : List StateFile → Option (Bool × Bool)
readable [] = none
readable (absent ∷ rest) = readable rest
readable (unreadable ∷ rest) = readable rest
readable (loaded plan_file all_adws ∷ rest) = some (plan_file, all_adws)

abbrev status_by : Option (Bool × Bool) → RunStatus
status_by none = RunStatus.failed
status_by (some (plan_file, all_adws)) =
    if plan_file && all_adws then RunStatus.succeeded else RunStatus.incomplete

first_state-readable : (files : List StateFile) → first_state files ≡ status_by (readable files)
unfolding first_state
first_state-readable [] = refl
first_state-readable (absent ∷ rest) = first_state-readable rest
first_state-readable (unreadable ∷ rest) = first_state-readable rest
first_state-readable (loaded plan_file all_adws ∷ rest) = refl

-- The status that is inferred for a run with a worktree goes by the first state file that can be read,
-- among the clone's, the worktree's and the one two directories up: succeeded with a plan file and
-- workflows in it, incomplete without one of them, and failed when none can be read.
pub infer_final_status_iff :
    (worktree : String) (o : Outside)
    → let first = readable (o.clone_state ∷ o.tree_state ∷ o.root_state ∷ []) in
      ((infer_final_status (some worktree) o ≡ RunStatus.succeeded) ↔ (first ≡ some (true, true)))
      × ((infer_final_status (some worktree) o ≡ RunStatus.failed) ↔ (first ≡ none))
      × ((infer_final_status (some worktree) o ≡ RunStatus.incomplete) ↔ (
          (first ≡ some (true, false))
          ⊎ (first ≡ some (false, true))
          ⊎ (first ≡ some (false, false))))
unfolding infer_final_status
infer_final_status_iff worktree o =
    by (readable (o.clone_state ∷ o.tree_state ∷ o.root_state ∷ []))
      (first_state (o.clone_state ∷ o.tree_state ∷ o.root_state ∷ []))
      (first_state-readable (o.clone_state ∷ o.tree_state ∷ o.root_state ∷ []))
  where
    by :
        (first : Option (Bool × Bool)) (status : RunStatus)
        → status ≡ status_by first
        → ((status ≡ RunStatus.succeeded) ↔ (first ≡ some (true, true)))
          × ((status ≡ RunStatus.failed) ↔ (first ≡ none))
          × ((status ≡ RunStatus.incomplete) ↔ (
              (first ≡ some (true, false))
              ⊎ (first ≡ some (false, true))
              ⊎ (first ≡ some (false, false))))
    by none status h = ground (arith, h)
    by (some (true, true)) status h = ground (arith, h)
    by (some (true, false)) status h = ground (arith, h)
    by (some (false, true)) status h = ground (arith, h)
    by (some (false, false)) status h = ground (arith, h)
