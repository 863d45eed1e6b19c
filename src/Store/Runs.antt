-- ===== src/Store/Runs.antt =====
-- The runs table: its primary key, its foreign key, and the counts of active runs.
use tac_master.Shared.{
  ℕ, String, Bool, ◌≡◌, refl, ◌∙◌, Option, List, [], ◌∷◌, ◌++◌, Text, arith, true, false,
  Bool-cases, Option-cases, inl, inr, ◌==◌, nat_eq, string_eq, eq_iff, find_row, update_rows,
  any_row, any-update, any-none_of_find, any-append, Unique, Unique-update, Unique-append,
  Exception, ok, err, integrity_error,
}
use tac_master.Store.Rows.{Store, RepoRow, IssueRow, RunRow, IssueStatus, is_run, is_issue}
use tac_master.Store.{new_run, new_issue, seen_issue, create_run, upsert_repo, mark_polled}

abbrev pub same_run : RunRow → RunRow → Bool
same_run r q = is_run r.adw_id q

abbrev pub same_issue : IssueRow → IssueRow → Bool
same_issue r q = is_issue r.repo_url r.issue_number q

abbrev pub has_repo : List RepoRow → String → Bool
has_repo repos url = any_row (λ r. r.url == url) repos

-- A foreign key: the repository of each row has a row itself.
abbrev pub Refers : {A : Type 0} → (A → String) → List RepoRow → List A → Type 0
Refers url repos [] = Unit
Refers url repos (r ∷ rows) = (has_repo repos (url r) ≡ true) × Refers url repos rows

-- The keys that the schema declares: unique issues and runs, each of a repository with a row.
pub record IsWellFormed (s : Store) : Type 0 where
  pub runs_unique : Unique same_run s.runs
  pub issues_unique : Unique same_issue s.issues
  pub runs_refer : Refers (λ (r : RunRow). r.repo_url) s.repos s.runs
  pub issues_refer : Refers (λ (r : IssueRow). r.repo_url) s.repos s.issues

module _ {A : Type 0} (url : A → String) where
  Refers-append :
      (repos : List RepoRow) (rows : List A) (r : A)
      → has_repo repos (url r) ≡ true
      → Refers url repos rows
      → Refers url repos (rows ++ r ∷ [])
  Refers-append repos [] r h u = (h, tt)
  Refers-append repos (q ∷ rows) r h u = (u.0, Refers-append repos rows r h u.1)

  Refers-update :
      (repos : List RepoRow) (p : A → Bool) (f : A → A)
      → ((r : A) → url (f r) ≡ url r)
      → (rows : List A) → Refers url repos rows
      → Refers url repos (update_rows p f rows)
  unfolding update_rows
  Refers-update repos p f keeps [] u = tt
  Refers-update repos p f keeps (r ∷ rows) u = (
    elim (Bool-cases (p r)) [ inl e ↦ rw (e, keeps r) u.0 | inr e ↦ rw e u.0 ],
    Refers-update repos p f keeps rows u.1,
  )

  Refers-grow :
      (repos more : List RepoRow)
      → ((u : String) → has_repo repos u ≡ true → has_repo more u ≡ true)
      → (rows : List A) → Refers url repos rows
      → Refers url more rows
  Refers-grow repos more grow [] h = tt
  Refers-grow repos more grow (r ∷ rows) h =
      (grow (url r) h.0, Refers-grow repos more grow rows h.1)

-- The tables with declared keys are the only ones that matter.
pub IsWellFormed-same :
    (s t : Store)
    → t.repos ≡ s.repos
    → t.issues ≡ s.issues
    → t.runs ≡ s.runs
    → IsWellFormed s
    → IsWellFormed t
IsWellFormed-same s t repos issues runs v = record {
  runs_unique = rw runs v.runs_unique;
  issues_unique = rw issues v.issues_unique;
  runs_refer = rw (repos, runs) v.runs_refer;
  issues_refer = rw (repos, issues) v.issues_refer;
}

same_run_comm : (r q : RunRow) → same_run r q ≡ same_run q r
same_run_comm r q = ground (arith, eq_iff r.adw_id q.adw_id, eq_iff q.adw_id r.adw_id)

same_issue_comm : (r q : IssueRow) → same_issue r q ≡ same_issue q r
same_issue_comm r q = ground (arith, eq_iff r.repo_url q.repo_url, eq_iff q.repo_url r.repo_url)

-- An UPDATE that leaves the keys of the issues alone keeps the store well formed.
pub issues-IsWellFormed :
    (p : IssueRow → Bool) (f : IssueRow → IssueRow)
    → ((r : IssueRow) → (f r).repo_url ≡ r.repo_url)
    → ((r : IssueRow) → (f r).issue_number ≡ r.issue_number)
    → (s : Store) → IsWellFormed s
    → IsWellFormed (record s { issues = update_rows p f s.issues })
issues-IsWellFormed p f url number s v = record {
  runs_unique = v.runs_unique;
  issues_unique =
      Unique-update same_issue p f (λ x y. rw (url x, number x)) (λ x y. rw (url y, number y))
        s.issues v.issues_unique;
  runs_refer = v.runs_refer;
  issues_refer =
      Refers-update (λ (r : IssueRow). r.repo_url) s.repos p f url s.issues v.issues_refer;
}

-- So does one that leaves the keys of the runs alone.
pub runs-IsWellFormed :
    (p : RunRow → Bool) (f : RunRow → RunRow)
    → ((r : RunRow) → (f r).repo_url ≡ r.repo_url)
    → ((r : RunRow) → (f r).adw_id ≡ r.adw_id)
    → (s : Store) → IsWellFormed s
    → IsWellFormed (record s { runs = update_rows p f s.runs })
runs-IsWellFormed p f url id s v = record {
  runs_unique =
      Unique-update same_run p f (λ x y. rw (id x)) (λ x y. rw (id y)) s.runs v.runs_unique;
  issues_unique = v.issues_unique;
  runs_refer = Refers-update (λ (r : RunRow). r.repo_url) s.repos p f url s.runs v.runs_refer;
  issues_refer = v.issues_refer;
}

pub create_run-ok :
    (now : ℕ) (adw_id url : String) (n : ℕ) (workflow model_set : String) (task : Option Text)
    (s t : Store)
    → create_run now adw_id url n workflow model_set task s ≡ ok (tt, t)
    → (any_row (is_run adw_id) s.runs ≡ false)
      × (has_repo s.repos url ≡ true)
      × (t ≡ record s { runs = s.runs ++ new_run now adw_id url n workflow model_set task ∷ [] })
unfolding create_run
create_run-ok now adw_id url n workflow model_set task s t h = ground arith

pub create_run-err :
    (now : ℕ) (adw_id url : String) (n : ℕ) (workflow model_set : String) (task : Option Text)
    (s : Store) (e : Exception)
    → create_run now adw_id url n workflow model_set task s ≡ err e
    → create_run now adw_id url n workflow model_set task s ≡ err integrity_error
unfolding create_run
create_run-err now adw_id url n workflow model_set task s e h = ground arith

-- An insert keeps the declared keys.
pub create_run-IsWellFormed :
    (now : ℕ) (adw_id url : String) (n : ℕ) (workflow model_set : String) (task : Option Text)
    (s t : Store)
    → IsWellFormed s
    → create_run now adw_id url n workflow model_set task s ≡ ok (tt, t)
    → IsWellFormed t
create_run-IsWellFormed now adw_id url n workflow model_set task s t v h =
    let (fresh, known, e) = create_run-ok now adw_id url n workflow model_set task s t h in
    rw e (record {
      runs_unique = Unique-append same_run same_run_comm s.runs _ fresh v.runs_unique;
      issues_unique = v.issues_unique;
      runs_refer = Refers-append (λ (r : RunRow). r.repo_url) s.repos s.runs _ known v.runs_refer;
      issues_refer = v.issues_refer;
    })

pub seen_issue-IsWellFormed :
    (now : ℕ) (url : String) (n : ℕ) (title : Text) (comment : Option ℕ) (s t : Store)
    (status : IssueStatus)
    → IsWellFormed s
    → seen_issue now url n title comment s ≡ ok (status, t)
    → IsWellFormed t
unfolding seen_issue
seen_issue-IsWellFormed now url n title comment s t status v h =
    elim (Option-cases (find_row (is_issue url n) s.issues)) [
      | inl e ↦
          let known : has_repo s.repos url ≡ true = ground (arith, e) in
          let eq : t ≡ record s { issues = s.issues ++ new_issue now url n title comment ∷ [] } =
            ground (arith, e) in
          rw eq (record {
            runs_unique = v.runs_unique;
            issues_unique =
                Unique-append same_issue same_issue_comm s.issues _
                  (any-none_of_find (is_issue url n) s.issues e) v.issues_unique;
            runs_refer = v.runs_refer;
            issues_refer =
                Refers-append (λ (r : IssueRow). r.repo_url) s.repos s.issues _ known
                  v.issues_refer;
          })
      | inr (r, e) ↦
          let change : IssueRow → IssueRow =
            λ r. record r { title = title; last_updated_at = now; last_comment_id = comment } in
          let eq : t ≡ record s { issues = update_rows (is_issue url n) change s.issues } =
            ground (arith, e) in
          rw eq (issues-IsWellFormed (is_issue url n) change (λ r. refl) (λ r. refl) s v)
    ]

has_repo-upsert :
    (now : ℕ) (url : String) (slug : Text) (is_self : Bool) (workflow model_set : String)
    (merge : Bool) (s : Store) (u : String)
    → has_repo s.repos u ≡ true
    → has_repo (upsert_repo now url slug is_self workflow model_set merge s).repos u ≡ true
unfolding upsert_repo
has_repo-upsert now url slug is_self workflow model_set merge s u h =
    elim (Bool-cases (has_repo s.repos url)) [
      | inl e ↦ rw e (any-update (λ r. r.url == u) (λ r. r.url == url) _ (λ r. refl) s.repos ∙ h)
      | inr e ↦ rw (e, any-append (λ r. r.url == u) s.repos _, h) refl
    ]

repos-IsWellFormed :
    (s : Store) (more : List RepoRow)
    → ((u : String) → has_repo s.repos u ≡ true → has_repo more u ≡ true)
    → IsWellFormed s
    → IsWellFormed (record s { repos = more })
repos-IsWellFormed s more grow v = record {
  runs_unique = v.runs_unique;
  issues_unique = v.issues_unique;
  runs_refer = Refers-grow (λ (r : RunRow). r.repo_url) s.repos more grow s.runs v.runs_refer;
  issues_refer =
      Refers-grow (λ (r : IssueRow). r.repo_url) s.repos more grow s.issues v.issues_refer;
}

-- Registering a repository and stamping its poll keep the store well formed.
pub upsert_repo-IsWellFormed :
    (now : ℕ) (url : String) (slug : Text) (is_self : Bool) (workflow model_set : String)
    (merge : Bool) (s : Store)
    → IsWellFormed s
    → IsWellFormed
        (mark_polled now url (upsert_repo now url slug is_self workflow model_set merge s))
unfolding upsert_repo mark_polled
upsert_repo-IsWellFormed now url slug is_self workflow model_set merge s v =
    let up = upsert_repo now url slug is_self workflow model_set merge s in
    repos-IsWellFormed s (mark_polled now url up).repos
      (λ u h.
        any-update (λ r. r.url == u) (λ r. r.url == url) _ (λ r. refl) up.repos
        ∙ has_repo-upsert now url slug is_self workflow model_set merge s u h)
      v
