-- ===== src/Store/Issues.antt =====
-- What `seen_issue` and `set_issue_status` do to the recorded status of each issue.
use tac_master.Shared.{
  ℕ, String, Bool, ◌≡◌, ◌↔◌, refl, Option, none, some, List, [], ◌∷◌, ◌++◌, Text, arith, true,
  false, ◌&&◌, Option-cases, inl, inr, if◌then◌else◌, ◌==◌, nat_eq, string_eq, eq_iff, find_row,
  update_rows, any_row, find-update, find-append, find-eq_some, ok, err, integrity_error,
}
use tac_master.Store.Rows.{Store, IssueStatus, IssueRow, is_issue}
use tac_master.Store.{new_issue, seen_issue, set_issue_status}

abbrev pub row_status : Option IssueRow → Option IssueStatus
row_status none = none
row_status (some r) = some r.status

-- The status that the table holds for an issue.
abbrev pub status_of : String → ℕ → Store → Option IssueStatus
status_of url n s = row_status (find_row (is_issue url n) s.issues)

abbrev pub or_seen : Option IssueStatus → IssueStatus
or_seen none = IssueStatus.seen
or_seen (some status) = status

-- The two keys of an issue, compared in one test.
find-same :
    (url : String) (n : ℕ) (url' : String) (n' : ℕ) (rows : List IssueRow)
    → (url == url' && n == n') ≡ true
    → find_row (is_issue url' n') rows ≡ find_row (is_issue url n) rows
find-same url n url' n' rows h = ground (arith, eq_iff url url')

row_status-update :
    (url : String) (n : ℕ) (p : IssueRow → Bool) (f : IssueRow → IssueRow) (rows : List IssueRow)
    → ((r : IssueRow) → is_issue url n (f r) ≡ is_issue url n r)
    → ((r : IssueRow) → (f r).status ≡ r.status)
    → row_status (find_row (is_issue url n) (update_rows p f rows))
      ≡ row_status (find_row (is_issue url n) rows)
row_status-update url n p f rows key stat = elim (Option-cases (find_row (is_issue url n) rows)) [
  | inl e ↦ rw (find-update (is_issue url n) p f key rows, e) refl
  | inr (r, e) ↦ rw (find-update (is_issue url n) p f key rows, e) (ground (arith, stat r))
]

abbrev resighted : ℕ → Text → Option ℕ → IssueRow → IssueRow
resighted now title comment r = record r {
  title = title;
  last_updated_at = now;
  last_comment_id = comment;
}

abbrev restated : ℕ → IssueStatus → IssueRow → IssueRow
restated now status r = record r { status = status; last_updated_at = now }

-- A sighting returns the recorded status, `seen` for an issue that is new, and leaves that status
-- recorded. No other issue's status changes.
pub status-seen_issue :
    (now : ℕ) (url : String) (n : ℕ) (title : Text) (comment : Option ℕ) (s t : Store)
    (status : IssueStatus) (url' : String) (n' : ℕ)
    → seen_issue now url n title comment s ≡ ok (status, t)
    → (status ≡ or_seen (status_of url n s))
      × (status_of url' n' t
          ≡ (if url == url' && n == n' then some status else status_of url' n' s))
unfolding seen_issue find_row
status-seen_issue now url n title comment s t status url' n' h =
    elim (Option-cases (find_row (is_issue url n) s.issues)) [
      | inl e ↦ ground (
        arith,
        e,
        eq_iff url url',
        find-append (is_issue url' n') s.issues (new_issue now url n title comment ∷ []),
        find-same url n url' n' s.issues,
      )
      | inr (r, e) ↦ ground (
        arith,
        e,
        row_status-update url' n' (is_issue url n) (λ (r : IssueRow). resighted now title comment r)
            s.issues (λ (r : IssueRow). refl) (λ (r : IssueRow). refl),
        find-same url n url' n' s.issues,
      )
    ]

-- A new status is recorded for the issue that has a row, and for no other; an issue with no row
-- gets none.
pub status-set_issue_status :
    (now : ℕ) (url : String) (n : ℕ) (status : IssueStatus) (s : Store) (url' : String) (n' : ℕ)
    → status_of url' n' (set_issue_status now url n status s) ≡ (
        if url == url' && n == n'
        then elim (status_of url' n' s) [ none ↦ none | some _ ↦ some status ]
        else status_of url' n' s)
unfolding set_issue_status
status-set_issue_status now url n status s url' n' =
    elim (Option-cases (find_row (is_issue url' n') s.issues)) [
      | inl e ↦ ground (
        arith,
        e,
        find-update (is_issue url' n') (is_issue url n) (restated now status)
            (λ (r : IssueRow). refl) s.issues,
      )
      | inr (r, e) ↦ ground (
        arith,
        e,
        eq_iff url url',
        eq_iff r.repo_url url',
        eq_iff r.repo_url url,
        find-eq_some (is_issue url' n') s.issues r,
        find-update (is_issue url' n') (is_issue url n) (restated now status)
            (λ (r : IssueRow). refl) s.issues,
      )
    ]

-- A sighting fails only for a new issue of a repository that has no row.
pub seen_issue_fails :
    (now : ℕ) (url : String) (n : ℕ) (title : Text) (comment : Option ℕ) (s : Store)
    → (seen_issue now url n title comment s ≡ err integrity_error)
      ↔ ((status_of url n s ≡ none) × (any_row (λ r. r.url == url) s.repos ≡ false))
unfolding seen_issue
seen_issue_fails now url n title comment s =
    elim (Option-cases (find_row (is_issue url n) s.issues)) [
      | inl e ↦ ground (arith, e)
      | inr (r, e) ↦ ground (arith, e)
    ]

pub seen_issue_known :
    (now : ℕ) (url : String) (n : ℕ) (title : Text) (comment : Option ℕ) (s : Store)
    → any_row (λ r. r.url == url) s.repos ≡ true
    → (t : Store) × (seen_issue now url n title comment s ≡ ok (or_seen (status_of url n s), t))
unfolding seen_issue
seen_issue_known now url n title comment s known =
    elim (Option-cases (find_row (is_issue url n) s.issues)) [
      | inl e ↦ (
        record s { issues = s.issues ++ new_issue now url n title comment ∷ [] },
        ground (arith, e),
      )
      | inr (r, e) ↦ (
        record s { issues = update_rows (is_issue url n) (resighted now title comment) s.issues },
        ground (arith, e),
      )
    ]

-- A sighting writes to the table of issues only.
pub seen_issue_frame :
    (now : ℕ) (url : String) (n : ℕ) (title : Text) (comment : Option ℕ) (s : Store)
    {status : IssueStatus} {t : Store}
    → seen_issue now url n title comment s ≡ ok (status, t)
    → (t.runs ≡ s.runs) × (t.budget_usage ≡ s.budget_usage) × (t.repos ≡ s.repos)
unfolding seen_issue
seen_issue_frame now url n title comment s {status} {t} h =
    elim (Option-cases (find_row (is_issue url n) s.issues)) [
      | inl e ↦ ground (arith, e)
      | inr (r, e) ↦ ground (arith, e)
    ]
