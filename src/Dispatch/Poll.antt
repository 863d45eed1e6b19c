-- ===== src/Dispatch/Poll.antt =====
-- `poll_once` and `_poll_repo`: one poll over the allowlist.
pub mod Steps
pub mod Caps
pub mod Keys
use tac_master.Shared.{
  ℕ, zero, suc, ◌+◌, String, Bool, true, false, Option, none, some, List, [], ◌∷◌, Text, codes,
  if◌then◌else◌, Exec, Result, ok, err, value_error, external_error, Exception, pure, raise, lift,
  modify, try_except, ◌>>=◌, ◌>>◌,
}
use tac_master.Store.{Store, poll_error, upsert_repo, mark_polled, record_event}
use tac_master.Config.{RepoConfig, BudgetsConfig, slug}
use tac_master.GitHub.{Issue, GitHub, list_open_issues}
use tac_master.Dispatch.Trigger.{should_dispatch}
use tac_master.Dispatch.Launch.{Answers, dispatch}

-- `repo.slug` raises an IndexError for a url with no two components.
unfoldable pub slug_of : RepoConfig → Result Text
unfolding slug
slug_of repo = elim (slug (codes repo.url)) [ none ↦ err external_error | some s ↦ ok s ]

module _ (now : ℕ) (day : String) (cfg : BudgetsConfig) (gh : GitHub)
    (answers : String → ℕ → Answers) where
  -- The body of the loop over a repository's issues: 1 for a dispatch that was made.
  unfoldable pub poll_issue : RepoConfig → Issue → Exec Store ℕ
  poll_issue repo issue = do
    qualified ← should_dispatch now gh repo issue
    started ← elim qualified [
      | true ↦ dispatch now day (answers repo.url issue.number) repo issue cfg
      | false ↦ pure false
    ]
    pure (if started then 1 else 0)

  unfoldable pub poll_issues : RepoConfig → List Issue → Exec Store ℕ
  unfolding poll_issue
  poll_issues repo [] = pure 0
  poll_issues repo (issue ∷ issues) = do
    n ← poll_issue repo issue
    m ← poll_issues repo issues
    pure (n + m)

  unfoldable pub poll_repo : RepoConfig → Exec Store ℕ
  unfolding poll_issues slug_of
  poll_repo repo = do
    name ← lift (slug_of repo)
    modify (
        upsert_repo now repo.url name repo.is_self repo.default_workflow repo.model_set
          repo.auto_merge)
    modify (mark_polled now repo.url)
    poll_issues repo (list_open_issues (gh.issues repo.url))

  -- An exception ends the poll of its own repository, whose dispatches are then not counted.
  unfoldable pub poll_once : List RepoConfig → Exec Store ℕ
  unfolding poll_repo record_event
  poll_once [] = pure 0
  poll_once (repo ∷ repos) = do
    n ← try_except (poll_repo repo) (λ e. do
      modify (record_event now "error" (poll_error repo.url) (some repo.url) none)
      pure 0)
    m ← poll_once repos
    pure (n + m)
