-- ===== src/Dispatch/Poll/Steps.antt =====
-- An invariant of each step of a poll is an invariant of the poll, whatever raises.
use tac_master.Shared.{
  ℕ, ◌+◌, String, Bool, true, false, none, some, List, [], ◌∷◌, Exec, pure, Keeps, Keeps-bind,
  Keeps-pure, Keeps-try, Keeps-lift, Keeps-modify,
}
use tac_master.Store.{Store, upsert_repo, mark_polled, record_event, poll_error}
use tac_master.Config.{RepoConfig, BudgetsConfig}
use tac_master.GitHub.{Issue, GitHub, list_open_issues}
use tac_master.Dispatch.Launch.{Answers, dispatch}
use tac_master.Dispatch.Trigger.{should_dispatch}
use tac_master.Dispatch.Poll.{poll_issue, poll_issues, poll_repo, poll_once, slug_of}

pub data All {A : Type 0} (P : A → Type 0) : List A → Type 0 where
  all_none : All P []
  all_more : {x : A} {xs : List A} → P x → All P xs → All P (x ∷ xs)

-- The steps of a poll of one repository.
pub record KeepsSteps (now : ℕ) (day : String) (cfg : BudgetsConfig) (gh : GitHub)
    (answers : String → ℕ → Answers) (P : Store → Type 0) (repo : RepoConfig) : Type 0 where
  pub sights : (issue : Issue) → Keeps P (should_dispatch now gh repo issue)
  pub dispatches :
      (issue : Issue) → Keeps P (dispatch now day (answers repo.url issue.number) repo issue cfg)
  pub registers :
      (s : Store) (slug : List ℕ)
      → P s
      → P (
          mark_polled now repo.url (
            upsert_repo now repo.url slug repo.is_self repo.default_workflow repo.model_set
              repo.auto_merge s))
  pub reports :
      (s : Store) → P s → P (record_event now "error" (poll_error repo.url) (some repo.url) none s)

module _ (now : ℕ) (day : String) (cfg : BudgetsConfig) (gh : GitHub)
    (answers : String → ℕ → Answers) (P : Store → Type 0) where
  poll_issue-Keeps :
      (repo : RepoConfig) (issue : Issue)
      → KeepsSteps now day cfg gh answers P repo
      → Keeps P (poll_issue now day cfg gh answers repo issue)
  unfolding poll_issue
  poll_issue-Keeps repo issue steps =
      Keeps-bind _ _ (steps.sights issue)
        (λ qualified. Keeps-bind _ _ (started qualified) (λ b. Keeps-pure _))
    where
      started :
          (qualified : Bool)
          → Keeps P (elim qualified as (λ _. Exec Store Bool) [
            | true ↦ dispatch now day (answers repo.url issue.number) repo issue cfg
            | false ↦ pure false
          ])
      started true = steps.dispatches issue
      started false = Keeps-pure _

  poll_issues-Keeps :
      (repo : RepoConfig) (issues : List Issue)
      → KeepsSteps now day cfg gh answers P repo
      → Keeps P (poll_issues now day cfg gh answers repo issues)
  unfolding poll_issues
  poll_issues-Keeps repo [] steps = Keeps-pure _
  poll_issues-Keeps repo (issue ∷ issues) steps =
      Keeps-bind _ _ (poll_issue-Keeps repo issue steps)
        (λ n. Keeps-bind _ _ (poll_issues-Keeps repo issues steps) (λ m. Keeps-pure _))

  poll_repo-Keeps :
      (repo : RepoConfig)
      → KeepsSteps now day cfg gh answers P repo
      → Keeps P (poll_repo now day cfg gh answers repo)
  unfolding poll_repo
  poll_repo-Keeps repo steps = Keeps-bind _ _ (Keeps-lift (slug_of repo)) (λ name. record {
    at = λ s h.
        (poll_issues-Keeps repo (list_open_issues (gh.issues repo.url)) steps).at _
          (steps.registers s name h);
  })

  pub poll_once-Keeps :
      (repos : List RepoConfig)
      → All (KeepsSteps now day cfg gh answers P) repos
      → Keeps P (poll_once now day cfg gh answers repos)
  unfolding poll_once
  poll_once-Keeps [] all_none = Keeps-pure _
  poll_once-Keeps (repo ∷ repos) (all_more steps all) =
      Keeps-bind _ _
        (Keeps-try _ _ (poll_repo-Keeps repo steps)
          (λ e. Keeps-bind _ _ (Keeps-modify _ steps.reports) (λ _. Keeps-pure 0)))
        (λ n. Keeps-bind _ _ (poll_once-Keeps repos all) (λ m. Keeps-pure (n + m)))
