-- ===== src/Dispatch/Trigger.antt =====
-- `_should_dispatch`: whether an issue qualifies for a run.
pub mod Decision
pub mod Reasons
use tac_master.Shared.{
  ℕ, String, Bool, true, false, not, ◌&&◌, ◌||◌, Option, none, some, List, [], ◌∷◌, Text, codes,
  if◌then◌else◌, ◌==◌, nat_eq, string_eq, text_eq, Exec, pure, transaction, ◌>>=◌, strip, lower,
}
use tac_master.Store.{Store, IssueStatus, seen_issue}
use tac_master.Config.{RepoConfig}
use tac_master.GitHub.{Issue, Comment, GitHub, list_comments}

unfoldable pub contains : String → List String → Bool
contains k [] = false
contains k (x ∷ xs) = if x == k then true else contains k xs

-- `any(label in wanted for label in labels)`
unfoldable pub any_label : List String → List String → Bool
unfolding contains
any_label wanted [] = false
any_label wanted (label ∷ labels) = if contains label wanted then true else any_label wanted labels

unfoldable pub last_comment : List Comment → Option Comment
last_comment [] = none
last_comment (c ∷ []) = some c
last_comment (c ∷ d ∷ rest) = last_comment (d ∷ rest)

-- `last.body.strip().lower() == "adw"`
unfoldable pub is_adw : Comment → Bool
unfolding strip lower
is_adw c = lower (strip c.body) == codes "adw"

-- The comment that `comment_adw` looks at, where it looks at one.
unfoldable pub looked_at : GitHub → RepoConfig → Issue → Option Comment
unfolding last_comment list_comments
looked_at gh repo issue =
    if contains "comment_adw" repo.triggers && not (issue.comments_count == 0)
    then last_comment (list_comments (gh.comments repo.url issue.number))
    else none

unfoldable pub comment_is_adw : Option Comment → Bool
unfolding is_adw
comment_is_adw none = false
comment_is_adw (some c) = is_adw c

abbrev pub comment_id : Option Comment → Option ℕ
comment_id none = none
comment_id (some c) = some c.id

-- `reason is not None`
unfoldable pub has_reason : GitHub → RepoConfig → Issue → Bool
unfolding any_label looked_at comment_is_adw
has_reason gh repo issue =
    contains "new_issue" repo.triggers && issue.comments_count == 0
    || contains "label" repo.triggers && any_label repo.trigger_labels issue.labels
    || comment_is_adw (looked_at gh repo issue)

-- `_TERMINAL_ISSUE_STATUSES`
unfoldable pub is_terminal : IssueStatus → Bool
is_terminal IssueStatus.dispatched = true
is_terminal IssueStatus.completed = true
is_terminal IssueStatus.failed = true
is_terminal IssueStatus.aborted = true
is_terminal IssueStatus.skipped = true
is_terminal IssueStatus.seen = false
is_terminal IssueStatus.queued = false

unfoldable pub qualifies : Bool → Bool → IssueStatus → Bool
unfolding is_terminal
qualifies reason adw status = if reason then (if is_terminal status then adw else true) else false

unfoldable pub should_dispatch : ℕ → GitHub → RepoConfig → Issue → Exec Store Bool
unfolding has_reason qualifies looked_at comment_is_adw
should_dispatch now gh repo issue = do
  let comment = looked_at gh repo issue
  status ← transaction (seen_issue now repo.url issue.number issue.title (comment_id comment))
  pure (qualifies (has_reason gh repo issue) (comment_is_adw comment) status)
