-- ===== src/Dispatch/Launch.antt =====
-- `_dispatch`: the launch of a run for an issue that qualifies.
pub mod Effect
pub mod Outcome
pub mod Once
use tac_master.Shared.{
  ℕ, zero, String, Bool, true, false, ◌||◌, Option, none, some, List, [], ◌∷◌, Text, codes,
  if◌then◌else◌, ◌==◌, string_eq, text_eq, Exec, Result, ok, err, value_error, pure, lift, gets,
  modify, transaction, try_except, ◌>>=◌, ◌>>◌, lower,
}
use tac_master.Store.{
  Refusal, Store, RunRow, RunStatus, IssueStatus, Payload, dispatch_refused, lessons_injected,
  spawn_error, lead_started, create_run, update_run, record_event, set_issue_status,
  set_agent_instance_cleo_task_id,
}
use tac_master.Config.{RepoConfig, BudgetsConfig}
use tac_master.Budget.{BudgetDecision, allowed, refused, can_dispatch, record_dispatch}
use tac_master.GitHub.{Issue}
use tac_master.Dispatch.TaskId.{extract_cleo_task_id}

-- What the calls out of the program answer during one launch.
pub record Answers : Type 0 where
  -- `ensure_clone` and `sync`, which run git
  pub clone : Result (Unit {0})
  -- `secrets.token_hex(4)`
  pub token : String
  -- the path of the worktree that the run will make
  pub worktree : String
  -- the lessons that `fetch_relevant` finds and `write_prompt_tail` writes, by their adw ids
  pub lessons : Result (List String)
  -- `_build_env`
  pub environment : Result (Unit {0})
  -- `runner.spawn`, with the process id
  pub spawn : Result ℕ

-- `WORKFLOW_SCRIPTS.get`
unfoldable pub workflow_script : String → Option String
workflow_script w =
    if w == "patch"
    then some "adw_patch_iso.py"
    else if w == "plan_build"
    then some "adw_plan_build_iso.py"
    else if w == "plan_build_test"
    then some "adw_plan_build_test_iso.py"
    else if w == "plan_build_test_review"
    then some "adw_plan_build_test_review_iso.py"
    else if w == "sdlc"
    then some "adw_sdlc_iso.py"
    else if w == "sdlc_zte"
    then some "adw_sdlc_zte_iso.py"
    else none

-- `make_runner` (orchestrator/runner.py), up to the runner's own fields.
unfoldable pub make_runner : Text → Result (Unit {0})
unfolding lower
make_runner runtime =
    let kind = lower (if runtime == [] then codes "native" else runtime) in
    if kind == codes "native" || kind == codes "host"
    then ok tt
    else if kind == codes "podman" || kind == codes "container"
    then ok tt
    else err value_error

unfoldable pub link_task : String → Option Text → Exec Store (Unit {0})
unfolding set_agent_instance_cleo_task_id
link_task adw_id none = pure tt
link_task adw_id (some task) = modify (set_agent_instance_cleo_task_id adw_id task)

-- The `try` around the knowledge base. An exception is logged and dropped.
unfoldable pub inject_lessons : ℕ → String → String → Result (List String) → Exec Store (Unit {0})
unfolding record_event
inject_lessons now url adw_id (err e) = pure tt
inject_lessons now url adw_id (ok []) = pure tt
inject_lessons now url adw_id (ok (l ∷ ls)) =
    modify
      (record_event now "knowledge" (lessons_injected adw_id (l ∷ ls)) (some url) (some adw_id))

-- What follows `runner.spawn`.
unfoldable pub start : ℕ → String → ℕ → String → Result ℕ → Exec Store Bool
unfolding update_run set_issue_status record_event
start now url n adw_id (err e) = do
  modify (update_run adw_id (λ r. record r { status = RunStatus.failed; ended_at = some now }))
  modify (record_event now "error" (spawn_error adw_id) (some url) (some adw_id))
  pure false
start now url n adw_id (ok pid) = do
  modify (update_run adw_id (λ r. record r { pid = some pid }))
  modify (set_issue_status now url n IssueStatus.dispatched)
  modify (record_event now "dispatch" (lead_started url n adw_id pid) (some url) (some adw_id))
  pure true

-- From `_build_env` on.
unfoldable pub hand_over :
    ℕ → String → ℕ → String → Result (Unit {0}) → Text → Result ℕ → Exec Store Bool
unfolding start make_runner
hand_over now url n adw_id environment runtime spawn = do
  lift environment
  lift (make_runner runtime)
  start now url n adw_id spawn

-- From the row of the run to the lessons.
unfoldable pub prepare :
    ℕ
    → String
    → String
    → String
    → String
    → Option Text
    → Result (List String)
    → Exec Store (Unit {0})
unfolding update_run record_dispatch link_task inject_lessons
prepare now day url adw_id worktree task lessons = do
  modify (
      update_run adw_id
        (λ r. record r { worktree_path = some worktree; status = RunStatus.running }))
  modify (record_dispatch day url)
  link_task adw_id task
  inject_lessons now url adw_id lessons

module _ (now : ℕ) (day : String) (answers : Answers) (repo : RepoConfig) (issue : Issue) where
  -- From the clone on, for a workflow that is known.
  unfoldable pub launch : Exec Store Bool
  unfolding prepare hand_over
  launch = do
    lift answers.clone
    let task = extract_cleo_task_id issue.title
    transaction (
        create_run now answers.token repo.url issue.number repo.default_workflow repo.model_set
          task)
    prepare now day repo.url answers.token answers.worktree task answers.lessons
    hand_over now repo.url issue.number answers.token answers.environment repo.runtime answers.spawn

  unfoldable pub refuse : Refusal → Exec Store Bool
  unfolding record_event
  refuse why = do
    modify (
        record_event now "budget" (dispatch_refused repo.url issue.number why) (some repo.url) none)
    pure false

  unfoldable pub dispatch : BudgetsConfig → Exec Store Bool
  unfolding launch refuse workflow_script
  dispatch cfg s = elim (can_dispatch cfg day repo.url s) [
    | refused why ↦ refuse why s
    | allowed ↦ elim (workflow_script repo.default_workflow) [
      | none ↦ (ok false, s)
      | some script ↦ launch s
    ]
  ]
