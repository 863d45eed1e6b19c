-- ===== src/Dispatch/Launch/Once.antt =====
-- An issue after the launch of its run.
use tac_master.Shared.{
  ℕ, String, Bool, true, false, ◌≡◌, ◌↔◌, ap, ◌∙◌, sym, Option, none, some, arith, string_eq,
  nat_eq, str_eq_self, Result, ok, inl, inr, find_row,
}
use tac_master.Store.{Store, IssueStatus, set_issue_status, is_issue}
use tac_master.Store.Issues.{row_status, status_of, status-set_issue_status}
use tac_master.Store.Runs.{has_repo}
use tac_master.Config.{RepoConfig, BudgetsConfig}
use tac_master.Budget.{BudgetDecision, allowed, refused, can_dispatch}
use tac_master.GitHub.{Issue, GitHub}
use tac_master.Dispatch.Launch.{Answers, launch, refuse, dispatch, workflow_script}
use tac_master.Dispatch.Launch.Outcome.{untouched, inserted, marked, launch-Ending}
use tac_master.Dispatch.Trigger.{
  should_dispatch, is_terminal, comment_is_adw, looked_at, has_reason,
}
use tac_master.Dispatch.Trigger.Decision.{should_dispatch-qualifies}

module _ (now : ℕ) (day : String) (answers : Answers) (repo : RepoConfig) (issue : Issue) where
  decided :
      (d : BudgetDecision) (script : Option String) (s u : Store)
      → elim d as (λ _. Result Bool × Store) [
        | refused why ↦ refuse now day answers repo issue why s
        | allowed ↦ elim script [
          | none ↦ (ok false, s)
          | some name ↦ launch now day answers repo issue s
        ]
      ]
        ≡ (ok true, u)
      → launch now day answers repo issue s ≡ (ok true, u)
  unfolding refuse
  decided (refused why) script s u h = absurd (ground (arith, h))
  decided allowed none s u h = absurd (ground (arith, h))
  decided allowed (some name) s u h = h

  -- A dispatch that succeeds is a launch that does.
  dispatch-launch :
      (cfg : BudgetsConfig) (s u : Store)
      → dispatch now day answers repo issue cfg s ≡ (ok true, u)
      → launch now day answers repo issue s ≡ (ok true, u)
  unfolding dispatch
  dispatch-launch cfg s u h =
      decided (can_dispatch cfg day repo.url s) (workflow_script repo.default_workflow) s u h

  launch-status :
      (s u : Store) (status : IssueStatus)
      → status_of repo.url issue.number s ≡ some status
      → launch now day answers repo issue s ≡ (ok true, u)
      → (status_of repo.url issue.number u ≡ some IssueStatus.dispatched)
        × (has_repo u.repos repo.url ≡ true)
  launch-status s u status known h = elim (launch-Ending now day answers repo issue s) [
    | untouched e k ↦ absurd (ground (arith, h, k))
    | inserted fresh repo_known run ↦
        let same : (launch now day answers repo issue s).1 ≡ u =
          ap (λ (x : Result Bool × Store). x.1) h in
        let won : (launch now day answers repo issue s).0 ≡ ok true =
          ap (λ (x : Result Bool × Store). x.0) h in
        let issues : u.issues
            ≡ (set_issue_status now repo.url issue.number IssueStatus.dispatched s).issues =
          ap (λ (x : Store). x.issues) (sym same)
          ∙ run.issues
          ∙ ap (λ r. (marked now repo.url issue.number r s).issues) won in
        (
          ap (λ rows. row_status (find_row (is_issue repo.url issue.number) rows)) issues
              ∙ status-set_issue_status now repo.url issue.number IssueStatus.dispatched s repo.url
                  issue.number
              ∙ rw (known, str_eq_self repo.url) (ground arith),
          ap (λ (x : Store). has_repo x.repos repo.url) (sym same)
              ∙ ap (λ rows. has_repo rows repo.url) run.repos
              ∙ repo_known,
        )
  ]

-- Once its dispatch has succeeded, an issue that had been seen qualifies again exactly when its last
-- comment, as a later poll reads it, is `adw`. That it is the very comment which the dispatch was for
-- makes no difference.
pub dispatched-qualifies_iff :
    (now : ℕ) (day : String) (answers : Answers) (repo : RepoConfig) (issue : Issue)
    (cfg : BudgetsConfig) (s u : Store) (status : IssueStatus) (later : ℕ) (gh : GitHub)
    → status_of repo.url issue.number s ≡ some status
    → dispatch now day answers repo issue cfg s ≡ (ok true, u)
    → ((should_dispatch later gh repo issue u).0 ≡ ok true)
      ↔ (comment_is_adw (looked_at gh repo issue) ≡ true)
unfolding has_reason is_terminal
dispatched-qualifies_iff now day answers repo issue cfg s u status later gh seen h =
    let (marked, known) =
      launch-status now day answers repo issue s u status seen
        (dispatch-launch now day answers repo issue cfg s u h) in
    let iff = should_dispatch-qualifies later gh repo issue u known in
    (
      λ q. elim ((iff.0 q).1) [
        | inl unmarked ↦ absurd (ground (arith, unmarked, marked))
        | inr adw ↦ adw
      ],
      λ adw. iff.1 (ground (arith, adw), inr adw),
    )
