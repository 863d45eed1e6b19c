-- ===== src/Dispatch/Trigger/Reasons.antt =====
-- The reasons for which `_should_dispatch` runs an issue.
use tac_master.Shared.{
  String, true, false, not, ◌&&◌, ◌≡◌, refl, ap, sym, ◌∙◌, ◌≢◌, ◌⊎◌, inl, inr, some, List, [], ◌∷◌,
  ◌++◌, arith, ◌==◌, nat_eq, string_eq, text_eq, codes, eq_iff, text_beq_iff, Bool-cases, strip,
  lower,
}
use tac_master.Orchestrator.Tables.Limits.{In}
use tac_master.Store.{IssueStatus}
use tac_master.Config.{RepoConfig}
use tac_master.GitHub.{Issue, Comment, GitHub, list_comments}
use tac_master.Dispatch.Trigger.{
  contains, any_label, last_comment, is_adw, looked_at, comment_is_adw, has_reason, is_terminal,
}

contains-In : (k : String) (xs : List String) → contains k xs ≡ true → In k xs
unfolding contains
contains-In k [] h = absurd (ground (arith, h))
contains-In k (x ∷ xs) h = elim (Bool-cases (x == k)) [
  | inl e ↦ inl (sym ((eq_iff x k).0 e))
  | inr e ↦ inr (contains-In k xs (ground (arith, h, e)))
]

In-contains : (k : String) (xs : List String) → In k xs → contains k xs ≡ true
unfolding contains
In-contains k [] i = absurd i
In-contains k (x ∷ xs) (inl e) = rw ((eq_iff x k).1 (sym e)) refl
In-contains k (x ∷ xs) (inr i) = ground (arith, In-contains k xs i)

abbrev pub IsShared : List String → List String → Type 0
IsShared wanted labels = (label : String) × In label labels × In label wanted

any_label-IsShared :
    (wanted labels : List String) → any_label wanted labels ≡ true → IsShared wanted labels
unfolding any_label
any_label-IsShared wanted [] h = absurd (ground (arith, h))
any_label-IsShared wanted (l ∷ ls) h = elim (Bool-cases (contains l wanted)) [
  | inl e ↦ (l, inl refl, contains-In l wanted e)
  | inr e ↦
      let (label, i, w) = any_label-IsShared wanted ls (ground (arith, h, e)) in (label, inr i, w)
]

IsShared-any_label :
    (wanted labels : List String) (label : String)
    → In label labels
    → In label wanted
    → any_label wanted labels ≡ true
unfolding any_label
IsShared-any_label wanted [] label i w = absurd i
IsShared-any_label wanted (l ∷ ls) label (inl e) w = rw (sym e, In-contains label wanted w) refl
IsShared-any_label wanted (l ∷ ls) label (inr i) w =
    ground (arith, IsShared-any_label wanted ls label i w)

-- The comments end in one that is `adw`, up to case and white space around it.
abbrev pub EndsInAdw : List Comment → Type 0
EndsInAdw cs =
    (earlier : List Comment) × (last : Comment) × (cs ≡ earlier ++ last ∷ [])
    × (lower (strip last.body) ≡ codes "adw")

comment_is_adw-EndsInAdw :
    (cs : List Comment) → comment_is_adw (last_comment cs) ≡ true → EndsInAdw cs
unfolding last_comment comment_is_adw is_adw
comment_is_adw-EndsInAdw [] h = absurd (ground (arith, h))
comment_is_adw-EndsInAdw (c ∷ []) h =
    ([], c, refl, (text_beq_iff (lower (strip c.body)) (codes "adw")).0 h)
comment_is_adw-EndsInAdw (c ∷ d ∷ rest) h =
    let (earlier, last, e, a) = comment_is_adw-EndsInAdw (d ∷ rest) h in
    (c ∷ earlier, last, ap (λ cs. c ∷ cs) e, a)

last-append : (earlier : List Comment) (c : Comment) → last_comment (earlier ++ c ∷ []) ≡ some c
unfolding last_comment
last-append [] c = refl
last-append (x ∷ []) c = refl
last-append (x ∷ y ∷ rest) c = last-append (y ∷ rest) c

EndsInAdw-comment_is_adw :
    (cs : List Comment) → EndsInAdw cs → comment_is_adw (last_comment cs) ≡ true
unfolding comment_is_adw is_adw
EndsInAdw-comment_is_adw cs (earlier, last, e, a) =
    rw (e, last-append earlier last) ((text_beq_iff (lower (strip last.body)) (codes "adw")).1 a)

module _ (gh : GitHub) (repo : RepoConfig) (issue : Issue) where
  -- Triggers have `comment_adw`, and of the comments that the issue has the last is `adw`.
  abbrev pub AsksByComment : Type 0
  AsksByComment =
      In "comment_adw" repo.triggers
      × (issue.comments_count ≢ 0)
      × EndsInAdw (list_comments (gh.comments repo.url issue.number))

  -- A new issue, a label or a comment, each only where the repository has that trigger.
  abbrev pub IsReason : Type 0
  IsReason =
      (In "new_issue" repo.triggers × (issue.comments_count ≡ 0))
      ⊎ (In "label" repo.triggers × IsShared repo.trigger_labels issue.labels)
      ⊎ AsksByComment

  looked_at-none :
      (contains "comment_adw" repo.triggers && not (issue.comments_count == 0)) ≡ false
      → comment_is_adw (looked_at gh repo issue) ≡ false
  unfolding looked_at comment_is_adw
  looked_at-none h = rw h refl

  looked_at-last :
      (contains "comment_adw" repo.triggers && not (issue.comments_count == 0)) ≡ true
      → looked_at gh repo issue ≡ last_comment (list_comments (gh.comments repo.url issue.number))
  unfolding looked_at
  looked_at-last h = rw h refl

  pub comment_is_adw-AsksByComment : comment_is_adw (looked_at gh repo issue) ≡ true → AsksByComment
  comment_is_adw-AsksByComment h =
      elim (Bool-cases (contains "comment_adw" repo.triggers && not (issue.comments_count == 0))) [
        | inl e ↦ (
          contains-In "comment_adw" repo.triggers (ground (arith, e)),
          ground (arith, e),
          comment_is_adw-EndsInAdw (list_comments (gh.comments repo.url issue.number))
              (ap comment_is_adw (sym (looked_at-last e)) ∙ h),
        )
        | inr e ↦ absurd (ground (arith, looked_at-none e, h))
      ]

  pub AsksByComment-comment_is_adw : AsksByComment → comment_is_adw (looked_at gh repo issue) ≡ true
  AsksByComment-comment_is_adw (i, n, a) =
      let c = In-contains "comment_adw" repo.triggers i in
      ap comment_is_adw (looked_at-last (ground (arith, c, n)))
      ∙ EndsInAdw-comment_is_adw (list_comments (gh.comments repo.url issue.number)) a

  pub has_reason-IsReason : has_reason gh repo issue ≡ true → IsReason
  unfolding has_reason
  has_reason-IsReason h = elim (Bool-cases (comment_is_adw (looked_at gh repo issue))) [
    | inl a ↦ inr (inr (comment_is_adw-AsksByComment a))
    | inr a ↦ elim (Bool-cases (contains "new_issue" repo.triggers && issue.comments_count == 0)) [
      | inl e ↦ inl (contains-In "new_issue" repo.triggers (ground (arith, e)), ground (arith, e))
      | inr e ↦ inr (
          inl (
            contains-In "label" repo.triggers (ground (arith, h, a, e)),
            any_label-IsShared repo.trigger_labels issue.labels (ground (arith, h, a, e)),
          ))
    ]
  ]

  pub IsReason-has_reason : IsReason → has_reason gh repo issue ≡ true
  unfolding has_reason
  IsReason-has_reason (inl (i, z)) = ground (arith, In-contains "new_issue" repo.triggers i, z)
  IsReason-has_reason (inr (inl (i, (l, j, w)))) = ground (
    arith,
    In-contains "label" repo.triggers i,
    IsShared-any_label repo.trigger_labels issue.labels l j w,
  )
  IsReason-has_reason (inr (inr a)) = ground (arith, AsksByComment-comment_is_adw a)

-- The statuses that are not terminal.
abbrev pub IsOpen : IssueStatus → Type 0
IsOpen status = (status ≡ IssueStatus.seen) ⊎ (status ≡ IssueStatus.queued)

pub is_terminal-IsOpen : (status : IssueStatus) → is_terminal status ≡ false → IsOpen status
unfolding is_terminal
is_terminal-IsOpen IssueStatus.seen h = inl refl
is_terminal-IsOpen IssueStatus.queued h = inr refl
is_terminal-IsOpen IssueStatus.dispatched h = absurd (ground (arith, h))
is_terminal-IsOpen IssueStatus.completed h = absurd (ground (arith, h))
is_terminal-IsOpen IssueStatus.failed h = absurd (ground (arith, h))
is_terminal-IsOpen IssueStatus.aborted h = absurd (ground (arith, h))
is_terminal-IsOpen IssueStatus.skipped h = absurd (ground (arith, h))

pub IsOpen-is_terminal : (status : IssueStatus) → IsOpen status → is_terminal status ≡ false
unfolding is_terminal
IsOpen-is_terminal status (inl e) = ap is_terminal e
IsOpen-is_terminal status (inr e) = ap is_terminal e
