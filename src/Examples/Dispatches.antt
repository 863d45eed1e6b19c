-- ===== src/Examples/Dispatches.antt =====
-- The theorems on polls and launches, at the samples.
use tac_master.Shared.{true, ◌≡◌, ◌↔◌, ◌⊎◌, refl, [], ◌∷◌, ok, any_row, find_row, count_rows, arith}
use tac_master.Store.Active.{runs_of}
use tac_master.Store.{
  Store, IssueStatus, empty, create_run, active_runs_count, active_runs_count_of, usage_today,
}
use tac_master.Store.Issues.{status_of, or_seen}
use tac_master.Store.Runs.{IsWellFormed}
use tac_master.Config.{for_repo}
use tac_master.Budget.{can_dispatch}
use tac_master.Dispatch.TaskId.{extract_cleo_task_id}
use tac_master.Dispatch.Trigger.{should_dispatch, comment_is_adw, looked_at}
use tac_master.Dispatch.Trigger.Reasons.{IsReason, IsOpen, AsksByComment}
use tac_master.Dispatch.Trigger.Decision.{qualifies_iff}
use tac_master.Dispatch.Launch.{launch, dispatch}
use tac_master.Dispatch.Launch.Outcome.{Ending, launch-Ending}
use tac_master.Dispatch.Launch.Once.{dispatched-qualifies_iff}
use tac_master.Dispatch.Poll.{poll_once}
use tac_master.Dispatch.Poll.Caps.{Respects, poll_once-Respects}
use tac_master.Dispatch.Poll.Keys.{poll_once-IsWellFormed}
use tac_master.Daemon.{run_cycles}
use tac_master.Daemon.Cycles.{IsSound, run_cycles-IsSound}
use tac_master.Examples.Samples.{
  url, day, repo, cfg, issue, github, answers, world, stocked, repos-AllNamed,
}
use tac_master.Examples.Stores.{stocked-IsWellFormed}

qualifies_iff_example : ((should_dispatch 9 github repo issue stocked).0 ≡ ok true) ↔ (
    IsReason github repo issue
    × (IsOpen (or_seen (status_of url 7 stocked)) ⊎ AsksByComment github repo issue))
unfolding any_row
qualifies_iff_example = qualifies_iff 9 github repo issue stocked refl

launch-Ending_example :
    Ending 9 day answers repo issue stocked (launch 9 day answers repo issue stocked)
launch-Ending_example = launch-Ending 9 day answers repo issue stocked

abbrev dispatched : Store
dispatched = (dispatch 9 day answers repo issue cfg stocked).1

dispatches : dispatch 9 day answers repo issue cfg stocked ≡ (ok true, dispatched)
unfolding dispatch can_dispatch active_runs_count count_rows for_repo active_runs_count_of
    usage_today find_row create_run any_row extract_cleo_task_id
dispatches = refl

dispatched-qualifies_iff_example :
    ((should_dispatch 30 github repo issue dispatched).0 ≡ ok true)
    ↔ (comment_is_adw (looked_at github repo issue) ≡ true)
unfolding find_row
dispatched-qualifies_iff_example =
    dispatched-qualifies_iff 9 day answers repo issue cfg stocked dispatched IssueStatus.seen 30
      github refl dispatches

stocked-Respects : Respects cfg day stocked
unfolding active_runs_count runs_of usage_today count_rows find_row
stocked-Respects = record {
  concurrent = omega arith;
  repo_concurrent = λ _. omega arith;
  runs = omega arith;
  repo_runs = λ _ _. omega arith;
}

poll_once-Respects_example :
    Respects cfg day (poll_once 9 day cfg github (λ _ _. answers) (repo ∷ []) stocked).1
poll_once-Respects_example =
    poll_once-Respects 9 day cfg github (λ _ _. answers) (repo ∷ []) stocked repos-AllNamed
      stocked-Respects

poll_once-IsWellFormed_example :
    IsWellFormed (poll_once 9 day cfg github (λ _ _. answers) (repo ∷ []) stocked).1
poll_once-IsWellFormed_example =
    poll_once-IsWellFormed 9 day cfg github (λ _ _. answers) (repo ∷ []) stocked
      stocked-IsWellFormed

run_cycles-IsSound_example :
    IsSound cfg day (run_cycles day cfg (repo ∷ []) [] (world ∷ world ∷ []) empty).1
run_cycles-IsSound_example =
    run_cycles-IsSound day cfg (repo ∷ []) [] (world ∷ world ∷ []) repos-AllNamed
