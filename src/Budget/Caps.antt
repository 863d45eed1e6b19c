-- ===== src/Budget/Caps.antt =====
-- When a dispatch is allowed, and when the warning comes.
use tac_master.Shared.{ℕ, ◌*◌, ◌≤◌, ◌<◌, ◌≡◌, ◌↔◌, String, true, arith, Bool-cases, inl, inr, leb}
use tac_master.Store.{
  Refusal, global_concurrent, repo_concurrent, global_tokens, global_runs, repo_tokens, repo_runs,
  Store, active_runs_count, active_runs_count_of, usage_today, global_key,
}
use tac_master.Config.{BudgetsConfig, get_or, for_repo}
use tac_master.Budget.{
  allowed, refused, max_concurrent, max_tokens, max_runs, can_dispatch, warn_if_crossing,
}

-- Every cap that applies to a repository leaves room for one more run.
pub record HasRoom (cfg : BudgetsConfig) (day url : String) (s : Store) : Type 0 where
  pub concurrent : active_runs_count s < max_concurrent cfg
  pub repo_concurrent : active_runs_count_of url s < (for_repo cfg url).max_concurrent_runs
  pub tokens : (usage_today day global_key s).0 < max_tokens cfg
  pub runs : (usage_today day global_key s).1 < max_runs cfg
  pub repo_tokens : (usage_today day url s).0 < (for_repo cfg url).max_tokens_per_day
  pub repo_runs : (usage_today day url s).1 < (for_repo cfg url).max_runs_per_day

-- A dispatch is allowed exactly when every cap, global or of the repository, on concurrent runs,
-- on the day's tokens and on the day's runs, leaves room.
pub can_dispatch-HasRoom :
    (cfg : BudgetsConfig) (day url : String) (s : Store)
    → (can_dispatch cfg day url s ≡ allowed) ↔ HasRoom cfg day url s
unfolding can_dispatch
can_dispatch-HasRoom cfg day url s = (λ h. ground arith, λ h. ground arith)

-- What a refusal says of its cap.
abbrev pub IsReached : BudgetsConfig → String → String → Store → Refusal → Type 0
IsReached cfg day url s (global_concurrent value limit) =
    (value ≡ active_runs_count s) × (limit ≡ max_concurrent cfg) × (limit ≤ value)
IsReached cfg day url s (repo_concurrent value limit) =
    (value ≡ active_runs_count_of url s)
    × (limit ≡ (for_repo cfg url).max_concurrent_runs)
    × (limit ≤ value)
IsReached cfg day url s (global_tokens value limit) =
    (value ≡ (usage_today day global_key s).0) × (limit ≡ max_tokens cfg) × (limit ≤ value)
IsReached cfg day url s (global_runs value limit) =
    (value ≡ (usage_today day global_key s).1) × (limit ≡ max_runs cfg) × (limit ≤ value)
IsReached cfg day url s (repo_tokens value limit) =
    (value ≡ (usage_today day url s).0)
    × (limit ≡ (for_repo cfg url).max_tokens_per_day)
    × (limit ≤ value)
IsReached cfg day url s (repo_runs value limit) =
    (value ≡ (usage_today day url s).1)
    × (limit ≡ (for_repo cfg url).max_runs_per_day)
    × (limit ≤ value)

-- A refusal names a cap that is reached: its limit is the configured one, its value the
-- store's, and the value is not below the limit.
pub refused-IsReached :
    (cfg : BudgetsConfig) (day url : String) (s : Store) (why : Refusal)
    → can_dispatch cfg day url s ≡ refused why
    → IsReached cfg day url s why
unfolding can_dispatch
refused-IsReached cfg day url s (global_concurrent value limit) h = ground arith
refused-IsReached cfg day url s (repo_concurrent value limit) h = ground arith
refused-IsReached cfg day url s (global_tokens value limit) h = ground arith
refused-IsReached cfg day url s (global_runs value limit) h = ground arith
refused-IsReached cfg day url s (repo_tokens value limit) h = ground arith
refused-IsReached cfg day url s (repo_runs value limit) h = ground arith

scaled : (a b p : ℕ) → a ≤ b → p ≤ 100 → a * p ≤ b * 100
scaled a b p h k = grind arith

-- With a warning threshold of at most 100 percent, a repository that is refused for its tokens
-- has crossed the threshold, so the warning is out before the first such refusal.
pub warned-of_refused :
    (cfg : BudgetsConfig) (day url : String) (s : Store) (value limit : ℕ)
    → get_or cfg.warn_at_pct 75 ≤ 100
    → can_dispatch cfg day url s ≡ refused (repo_tokens value limit)
    → (warn_if_crossing cfg day url s).0 ≡ true
unfolding warn_if_crossing
warned-of_refused cfg day url s value limit pct h =
    let (v, l, reached) = refused-IsReached cfg day url s (repo_tokens value limit) h in
    let over : (for_repo cfg url).max_tokens_per_day * get_or cfg.warn_at_pct 75
        ≤ (usage_today day url s).0 * 100 =
      scaled _ _ _ (rw (← v, ← l) reached) pct in
    elim (Bool-cases (
      leb ((for_repo cfg url).max_tokens_per_day * get_or cfg.warn_at_pct 75)
        ((usage_today day url s).0 * 100))) [ inl e ↦ rw e | inr e ↦ absurd (ground arith) ]
