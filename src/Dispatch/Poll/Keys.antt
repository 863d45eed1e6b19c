-- ===== src/Dispatch/Poll/Keys.antt =====
-- The declared keys of the store hold whatever a poll does.
use tac_master.Shared.{
  ℕ, String, Bool, false, ◌≡◌, refl, Option, none, some, List, [], ◌∷◌, Text, modify, Result, ok,
  err, Keeps, Keeps-bind, Keeps-pure, Keeps-lift, Keeps-modify, Keeps-transaction,
}
use tac_master.Store.{
  Payload, spawn_error, lead_started, lessons_injected, Store, RunRow, RunStatus, IssueStatus,
  is_run, is_issue, update_run, set_issue_status, record_event, add_run_count,
  set_agent_instance_cleo_task_id,
}
use tac_master.Store.Runs.{
  IsWellFormed, IsWellFormed-same, runs-IsWellFormed, issues-IsWellFormed, create_run-IsWellFormed,
  seen_issue-IsWellFormed, upsert_repo-IsWellFormed,
}
use tac_master.Config.{RepoConfig, BudgetsConfig}
use tac_master.Budget.{BudgetDecision, allowed, refused, can_dispatch, record_dispatch}
use tac_master.GitHub.{Issue, GitHub}
use tac_master.Dispatch.TaskId.{extract_cleo_task_id}
use tac_master.Dispatch.Trigger.{should_dispatch}
use tac_master.Dispatch.Launch.{
  Answers, workflow_script, make_runner, link_task, inject_lessons, start, hand_over, prepare,
  launch, refuse, dispatch,
}
use tac_master.Dispatch.Poll.Steps.{All, all_none, all_more, KeepsSteps, poll_once-Keeps}
use tac_master.Dispatch.Poll.{poll_once}

update-Keeps :
    (adw_id : String) (f : RunRow → RunRow)
    → ((r : RunRow) → (f r).repo_url ≡ r.repo_url)
    → ((r : RunRow) → (f r).adw_id ≡ r.adw_id)
    → Keeps IsWellFormed (modify (update_run adw_id f))
unfolding update_run
update-Keeps adw_id f url id =
    Keeps-modify (update_run adw_id f) (runs-IsWellFormed (is_run adw_id) f url id)

event-Keeps :
    (now : ℕ) (kind : String) (payload : Payload) (url adw_id : Option String)
    → Keeps IsWellFormed (modify (record_event now kind payload url adw_id))
unfolding record_event
event-Keeps now kind payload url adw_id =
    Keeps-modify (record_event now kind payload url adw_id)
      (λ s v. IsWellFormed-same s _ refl refl refl v)

status-Keeps :
    (now : ℕ) (url : String) (n : ℕ) (status : IssueStatus)
    → Keeps IsWellFormed (modify (set_issue_status now url n status))
unfolding set_issue_status
status-Keeps now url n status =
    Keeps-modify (set_issue_status now url n status)
      (issues-IsWellFormed (is_issue url n) _ (λ r. refl) (λ r. refl))

start-Keeps :
    (now : ℕ) (url : String) (n : ℕ) (adw_id : String) (spawn : Result ℕ)
    → Keeps IsWellFormed (start now url n adw_id spawn)
unfolding start
start-Keeps now url n adw_id (err e) = record {
  at = λ s v.
      (event-Keeps now "error" (spawn_error adw_id) (some url) (some adw_id)).at _
        ((update-Keeps adw_id _ (λ r. refl) (λ r. refl)).at s v);
}
start-Keeps now url n adw_id (ok pid) = record {
  at = λ s v.
      (event-Keeps now "dispatch" (lead_started url n adw_id pid) (some url) (some adw_id)).at _ (
        (status-Keeps now url n IssueStatus.dispatched).at _
          ((update-Keeps adw_id _ (λ r. refl) (λ r. refl)).at s v));
}

link-Keeps : (adw_id : String) (task : Option Text) → Keeps IsWellFormed (link_task adw_id task)
unfolding link_task set_agent_instance_cleo_task_id
link-Keeps adw_id none = Keeps-pure _
link-Keeps adw_id (some task) =
    Keeps-modify (set_agent_instance_cleo_task_id adw_id task)
      (λ s v. IsWellFormed-same s _ refl refl refl v)

lessons-Keeps :
    (now : ℕ) (url adw_id : String) (lessons : Result (List String))
    → Keeps IsWellFormed (inject_lessons now url adw_id lessons)
unfolding inject_lessons
lessons-Keeps now url adw_id (err e) = Keeps-pure _
lessons-Keeps now url adw_id (ok []) = Keeps-pure _
lessons-Keeps now url adw_id (ok (l ∷ ls)) =
    event-Keeps now "knowledge" (lessons_injected adw_id (l ∷ ls)) (some url) (some adw_id)

prepare-Keeps :
    (now : ℕ) (day url adw_id worktree : String) (task : Option Text)
    (lessons : Result (List String))
    → Keeps IsWellFormed (prepare now day url adw_id worktree task lessons)
unfolding prepare record_dispatch add_run_count
prepare-Keeps now day url adw_id worktree task lessons = record {
  at = λ s v.
      let t = record_dispatch day url (
        update_run adw_id
          (λ r. record r { worktree_path = some worktree; status = RunStatus.running }) s) in
      (Keeps-bind (link_task adw_id task) (λ _. inject_lessons now url adw_id lessons)
          (link-Keeps adw_id task) (λ _. lessons-Keeps now url adw_id lessons)).at
        t
        (IsWellFormed-same _ t refl refl refl
          ((update-Keeps adw_id _ (λ r. refl) (λ r. refl)).at s v));
}

launch-Keeps :
    (now : ℕ) (day : String) (answers : Answers) (repo : RepoConfig) (issue : Issue)
    → Keeps IsWellFormed (launch now day answers repo issue)
unfolding launch hand_over
launch-Keeps now day answers repo issue = Keeps-bind _ _ (Keeps-lift answers.clone) (λ _.
    Keeps-bind _ _
      (Keeps-transaction _ (λ s t _ v h. create_run-IsWellFormed now _ _ _ _ _ _ s t v h))
      (λ _.
        Keeps-bind _ _
          (prepare-Keeps now day repo.url answers.token answers.worktree
            (extract_cleo_task_id issue.title) answers.lessons)
          (λ _. Keeps-bind _ _ (Keeps-lift answers.environment) (λ _.
            Keeps-bind _ _ (Keeps-lift (make_runner repo.runtime))
              (λ _. start-Keeps now repo.url issue.number answers.token answers.spawn)))))

pub dispatch-Keeps :
    (now : ℕ) (day : String) (answers : Answers) (repo : RepoConfig) (issue : Issue)
    (cfg : BudgetsConfig)
    → Keeps IsWellFormed (dispatch now day answers repo issue cfg)
unfolding dispatch refuse record_event
dispatch-Keeps now day answers repo issue cfg = record {
  at = λ s v. decided s (can_dispatch cfg day repo.url s) v;
}
  where
    known :
        (s : Store) (script : Option String)
        → IsWellFormed s
        → IsWellFormed
            (elim script as (λ _. Result Bool × Store) [
              | none ↦ (ok false, s)
              | some _ ↦ launch now day answers repo issue s
            ]).1
    known s none v = v
    known s (some _) v = (launch-Keeps now day answers repo issue).at s v

    decided :
        (s : Store) (d : BudgetDecision)
        → IsWellFormed s
        → IsWellFormed
            (elim d as (λ x. Result Bool × Store) [
              | refused why ↦ refuse now day answers repo issue why s
              | allowed ↦ elim (workflow_script repo.default_workflow) [
                | none ↦ (ok false, s)
                | some script ↦ launch now day answers repo issue s
              ]
            ]).1
    decided s (refused why) v = IsWellFormed-same s _ refl refl refl v
    decided s allowed v = known s (workflow_script repo.default_workflow) v

keys-KeepsSteps :
    (now : ℕ) (day : String) (cfg : BudgetsConfig) (gh : GitHub) (answers : String → ℕ → Answers)
    (repos : List RepoConfig)
    → All (KeepsSteps now day cfg gh answers IsWellFormed) repos
unfolding should_dispatch record_event
keys-KeepsSteps now day cfg gh answers [] = all_none
keys-KeepsSteps now day cfg gh answers (repo ∷ repos) =
    all_more
      (record {
        sights = λ issue.
            Keeps-bind _ _
              (Keeps-transaction _
                (λ s t status v h. seen_issue-IsWellFormed now _ _ _ _ s t status v h))
              (λ status. Keeps-pure _);
        dispatches = λ issue. dispatch-Keeps now day (answers repo.url issue.number) repo issue cfg;
        registers = λ s slug v.
            upsert_repo-IsWellFormed now repo.url slug repo.is_self repo.default_workflow
              repo.model_set repo.auto_merge s v;
        reports = λ s v. IsWellFormed-same s _ refl refl refl v;
      })
      (keys-KeepsSteps now day cfg gh answers repos)

-- A poll keeps the declared keys: no two rows for one run or one issue, and none for a repository
-- without a row, whatever GitHub lists, whatever the outside calls answer and wherever an
-- exception is raised.
pub poll_once-IsWellFormed :
    (now : ℕ) (day : String) (cfg : BudgetsConfig) (gh : GitHub) (answers : String → ℕ → Answers)
    (repos : List RepoConfig) (s : Store)
    → IsWellFormed s
    → IsWellFormed (poll_once now day cfg gh answers repos s).1
poll_once-IsWellFormed now day cfg gh answers repos s v =
    (poll_once-Keeps now day cfg gh answers IsWellFormed repos
        (keys-KeepsSteps now day cfg gh answers repos)).at
      s v
