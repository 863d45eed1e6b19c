-- ===== src/Budget.antt =====
-- The budget enforcer (orchestrator/budget.py).
pub mod Caps
use tac_master.Shared.{
  ℕ, ◌+◌, ◌*◌, ◌/◌, String, Bool, true, false, Option, none, some, leb, if◌then◌else◌,
}
use tac_master.Store.{
  Refusal, global_concurrent, repo_concurrent, global_tokens, global_runs, repo_tokens, repo_runs,
  Store, active_runs_count, active_runs_count_of, usage_today, global_key, add_run_count,
  add_tokens,
}
use tac_master.Config.{BudgetsConfig, BudgetEntry, get_or, for_repo}

pub data BudgetDecision : Type 0 where
  allowed : BudgetDecision
  refused : Refusal → BudgetDecision

abbrev pub max_concurrent : BudgetsConfig → ℕ
max_concurrent cfg = get_or cfg.global.max_concurrent_runs 15

abbrev pub max_tokens : BudgetsConfig → ℕ
max_tokens cfg = get_or cfg.global.max_tokens_per_day 10000000

abbrev pub max_runs : BudgetsConfig → ℕ
max_runs cfg = get_or cfg.global.max_runs_per_day 100

-- The checks of `can_dispatch` from the daily counters on.
unfoldable pub check_daily : BudgetsConfig → BudgetEntry → ℕ × ℕ → ℕ × ℕ → BudgetDecision
check_daily cfg entry global repo =
    if leb (max_tokens cfg) global.0
    then refused (global_tokens global.0 (max_tokens cfg))
    else if leb (max_runs cfg) global.1
    then refused (global_runs global.1 (max_runs cfg))
    else if leb entry.max_tokens_per_day repo.0
    then refused (repo_tokens repo.0 entry.max_tokens_per_day)
    else if leb entry.max_runs_per_day repo.1
    then refused (repo_runs repo.1 entry.max_runs_per_day)
    else allowed

unfoldable pub can_dispatch : BudgetsConfig → String → String → Store → BudgetDecision
unfolding check_daily
can_dispatch cfg day url s =
    let active = active_runs_count s in
    let entry = for_repo cfg url in
    let repo_active = active_runs_count_of url s in
    if leb (max_concurrent cfg) active
    then refused (global_concurrent active (max_concurrent cfg))
    else if leb entry.max_concurrent_runs repo_active
    then refused (repo_concurrent repo_active entry.max_concurrent_runs)
    else check_daily cfg entry (usage_today day global_key s) (usage_today day url s)

unfoldable pub record_dispatch : String → String → Store → Store
record_dispatch day url s = add_run_count day url 1 s

unfoldable pub record_tokens : String → String → ℕ → Store → Store
record_tokens day url tokens s = add_tokens day url tokens s

-- `tokens >= max * (pct / 100.0)`, over the integers. The message's number is the percentage.
unfoldable pub warn_if_crossing : BudgetsConfig → String → String → Store → Bool × ℕ
warn_if_crossing cfg day url s =
    let pct = get_or cfg.warn_at_pct 75 in
    let cap = (for_repo cfg url).max_tokens_per_day in
    let tokens = (usage_today day url s).0 in
    if leb (cap * pct) (tokens * 100)
    then (true, 100 * tokens / (if leb cap 1 then 1 else cap))
    else (false, 0)
