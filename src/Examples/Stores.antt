-- ===== src/Examples/Stores.antt =====
-- The theorems on the store, the configuration and the budget, at the samples.
use tac_master.Shared.{
  ◌≡◌, ◌↔◌, refl, none, some, [], ◌∷◌, codes, any_row, string_eq, nat_eq, find_row, count_rows,
  rstrip_slash,
}
use tac_master.Store.{
  repo_tokens, Store, empty, add_tokens, add_run_count, usage_today, active_runs_count,
  active_runs_count_of, new_run,
}
use tac_master.Store.Runs.{IsWellFormed}
use tac_master.Store.Balance.{IsBalanced, empty-IsBalanced, add-IsBalanced}
use tac_master.Config.{BudgetsConfig, load_budgets, for_repo}
use tac_master.Config.Lookup.{last_listed, for_repo-load_budgets}
use tac_master.Budget.{can_dispatch, allowed, refused}
use tac_master.Budget.Caps.{HasRoom, can_dispatch-HasRoom}
use tac_master.Examples.Samples.{url, day, cfg, nothing_raw, stocked, busy, url-not_global, seen}

pub stocked-IsWellFormed : IsWellFormed stocked
unfolding any_row
stocked-IsWellFormed = record {
  runs_unique = tt;
  issues_unique = (refl, tt);
  runs_refer = tt;
  issues_refer = (refl, tt);
}

pub busy-IsWellFormed : IsWellFormed busy
unfolding any_row
busy-IsWellFormed = record {
  runs_unique = (refl, tt);
  issues_unique = (refl, tt);
  runs_refer = (refl, tt);
  issues_refer = (refl, tt);
}

abbrev sighted : Store
sighted = record stocked {
  issues =
      record seen { title = codes "New title"; last_updated_at = 9; last_comment_id = some 3 } ∷ [];
}

add-IsBalanced_example :
    IsBalanced (add_tokens day url 12 empty).budget_usage
    × IsBalanced (add_run_count day url 12 empty).budget_usage
add-IsBalanced_example = add-IsBalanced day url 12 empty url-not_global empty-IsBalanced

abbrev with_run : Store
with_run = record stocked { runs = new_run 5 "ab12cd34" url 7 "sdlc" "base" none ∷ [] }

abbrev budgets : BudgetsConfig
budgets =
    load_budgets cfg.global nothing_raw
      ((codes "https://github.com/acme/app/", record nothing_raw { max_runs_per_day = some 4 })
        ∷ [])
      none

for_repo-load_budgets_example :
    ((for_repo budgets url).max_tokens_per_day ≡ 2000000)
    × ((for_repo budgets url).max_runs_per_day ≡ 4)
    × ((for_repo budgets url).max_concurrent_runs ≡ 5)
    × ((for_repo budgets url).max_tokens_per_run ≡ 500000)
unfolding rstrip_slash last_listed
for_repo-load_budgets_example =
    for_repo-load_budgets cfg.global nothing_raw
      ((codes "https://github.com/acme/app/", record nothing_raw { max_runs_per_day = some 4 })
        ∷ [])
      none url

can_dispatch-HasRoom_example : (can_dispatch cfg day url busy ≡ allowed) ↔ HasRoom cfg day url busy
can_dispatch-HasRoom_example = can_dispatch-HasRoom cfg day url busy

abbrev spent : Store
spent = record stocked {
  budget_usage = record { day = day; repo_url = url; tokens_used = 120; runs_count = 1 } ∷ [];
}

spent-refused : can_dispatch cfg day url spent ≡ refused (repo_tokens 120 100)
unfolding can_dispatch for_repo usage_today find_row active_runs_count active_runs_count_of
    count_rows
spent-refused = refl
