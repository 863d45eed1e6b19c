-- ===== src/Dispatch/Trigger/Decision.antt =====
-- When an issue qualifies, by the status that the store has for it and its last comment.
use tac_master.Shared.{
  ℕ, String, Bool, true, false, ◌≡◌, ◌↔◌, ◌⊎◌, inl, inr, some, arith, if◌then◌else◌, ◌==◌, nat_eq,
  string_eq, ok, transaction, transaction-ok, bind-ok, ◌&&◌,
}
use tac_master.Dispatch.Trigger.Reasons.{
  IsReason, IsOpen, AsksByComment, has_reason-IsReason, IsReason-has_reason, is_terminal-IsOpen,
  IsOpen-is_terminal, comment_is_adw-AsksByComment, AsksByComment-comment_is_adw,
}
use tac_master.Store.{Store, IssueStatus, seen_issue}
use tac_master.Store.Issues.{status_of, or_seen, status-seen_issue, seen_issue_known}
use tac_master.Store.Runs.{has_repo}
use tac_master.Config.{RepoConfig}
use tac_master.GitHub.{Issue, GitHub}
use tac_master.Dispatch.Trigger.{
  should_dispatch, has_reason, qualifies, looked_at, comment_is_adw, comment_id, is_terminal,
}

IsOpen-or_asked :
    (gh : GitHub) (repo : RepoConfig) (issue : Issue) (status : IssueStatus)
    → (is_terminal status ≡ false) ⊎ (comment_is_adw (looked_at gh repo issue) ≡ true)
    → IsOpen status ⊎ AsksByComment gh repo issue
IsOpen-or_asked gh repo issue status (inl e) = inl (is_terminal-IsOpen status e)
IsOpen-or_asked gh repo issue status (inr e) = inr (comment_is_adw-AsksByComment gh repo issue e)

settled_or_asked :
    (gh : GitHub) (repo : RepoConfig) (issue : Issue) (status : IssueStatus)
    → IsOpen status ⊎ AsksByComment gh repo issue
    → (is_terminal status ≡ false) ⊎ (comment_is_adw (looked_at gh repo issue) ≡ true)
settled_or_asked gh repo issue status (inl o) = inl (IsOpen-is_terminal status o)
settled_or_asked gh repo issue status (inr a) = inr (AsksByComment-comment_is_adw gh repo issue a)

module _ (now : ℕ) (gh : GitHub) (repo : RepoConfig) (issue : Issue) (s : Store)
    (known : has_repo s.repos repo.url ≡ true) where
  -- The status on record, `seen` for an issue that is new.
  abbrev pub recorded : IssueStatus
  recorded = or_seen (status_of repo.url issue.number s)

  abbrev pub asked_by_comment : Bool
  asked_by_comment = comment_is_adw (looked_at gh repo issue)

  should_dispatch_lem :
      (t : Store) × (seen_issue now repo.url issue.number issue.title
          (comment_id (looked_at gh repo issue))
          s
        ≡ ok (recorded, t))
      × (should_dispatch now gh repo issue s
          ≡ (ok (qualifies (has_reason gh repo issue) asked_by_comment recorded), t))
  unfolding should_dispatch
  should_dispatch_lem =
      let (t, h) =
        seen_issue_known now repo.url issue.number issue.title
          (comment_id (looked_at gh repo issue)) s known in
      (
        t,
        h,
        bind-ok
            (transaction (
              seen_issue now repo.url issue.number issue.title
                (comment_id (looked_at gh repo issue))))
            _ s
            (transaction-ok
              (seen_issue now repo.url issue.number issue.title
                (comment_id (looked_at gh repo issue)))
              s h),
      )

-- The decision by the values of its two tests.
pub should_dispatch-qualifies :
    (now : ℕ) (gh : GitHub) (repo : RepoConfig) (issue : Issue) (s : Store)
    → has_repo s.repos repo.url ≡ true
    → ((should_dispatch now gh repo issue s).0 ≡ ok true) ↔ (
        (has_reason gh repo issue ≡ true)
        × ((is_terminal (or_seen (status_of repo.url issue.number s)) ≡ false)
            ⊎ (comment_is_adw (looked_at gh repo issue) ≡ true)))
unfolding qualifies
should_dispatch-qualifies now gh repo issue s known =
    let (t, h, e) = should_dispatch_lem now gh repo issue s known in
    rw e (λ q. ground arith, λ q. ground arith)

-- For a repository that is registered, an issue qualifies exactly when there is a reason to run it,
-- that is, for a trigger the repository has, no comment yet (`new_issue`), a label among the
-- repository's trigger labels (`label`) or a last comment that is `adw` up to case and white space
-- around it (`comment_adw`), and the status on record is `seen` or `queued` or the last comment
-- asks for a run with `adw` in that way.
pub qualifies_iff :
    (now : ℕ) (gh : GitHub) (repo : RepoConfig) (issue : Issue) (s : Store)
    → has_repo s.repos repo.url ≡ true
    → ((should_dispatch now gh repo issue s).0 ≡ ok true) ↔ (
        IsReason gh repo issue
        × (IsOpen (or_seen (status_of repo.url issue.number s)) ⊎ AsksByComment gh repo issue))
qualifies_iff now gh repo issue s known =
    let status = or_seen (status_of repo.url issue.number s) in
    let decides = should_dispatch-qualifies now gh repo issue s known in
    (
      λ q.
          let (r, p) = decides.0 q in
          (has_reason-IsReason gh repo issue r, IsOpen-or_asked gh repo issue status p),
      λ (r, p).
          decides.1 (IsReason-has_reason gh repo issue r, settled_or_asked gh repo issue status p),
    )

-- Deciding whether an issue qualifies records it, and changes the status of no issue.
pub status-should_dispatch :
    (now : ℕ) (gh : GitHub) (repo : RepoConfig) (issue : Issue) (s : Store) (url : String) (n : ℕ)
    → has_repo s.repos repo.url ≡ true
    → status_of url n (should_dispatch now gh repo issue s).1 ≡ (
        if repo.url == url && issue.number == n
        then some (or_seen (status_of repo.url issue.number s))
        else status_of url n s)
status-should_dispatch now gh repo issue s url n known =
    let (t, h, e) = should_dispatch_lem now gh repo issue s known in
    rw e
      (status-seen_issue now repo.url issue.number issue.title
        (comment_id (looked_at gh repo issue)) s t _ url n h).1
