-- ===== src/Dispatch/Launch/Effect.antt =====
-- A launch that gets past the clone and the insert of its run: the store that it has prepared when
-- it hands over to the runner, and what each end of it makes of that.
use tac_master.Shared.{
  ℕ, String, Bool, true, false, ◌≡◌, refl, ◌∙◌, ap, Option, none, some, List, [], ◌∷◌, ◌++◌, Text,
  string_eq, str_eq_self, any_row, update_rows, update-fresh, Result, ok, err, inl, inr, Exception,
  Result-cases, integrity_error,
}
use tac_master.Store.{Store, RunRow, RunStatus, is_run, new_run, create_run, add_run_count}
use tac_master.Store.Runs.{has_repo, create_run-ok, create_run-err}
use tac_master.Config.{RepoConfig}
use tac_master.GitHub.{Issue}
use tac_master.Dispatch.TaskId.{extract_cleo_task_id}
use tac_master.Dispatch.Launch.{Answers, prepare, hand_over, launch}

pub update-last :
    (adw_id : String) (f : RunRow → RunRow) (runs rows : List RunRow) (row : RunRow)
    → runs ≡ rows ++ row ∷ []
    → row.adw_id ≡ adw_id
    → any_row (is_run adw_id) rows ≡ false
    → update_rows (is_run adw_id) f runs ≡ rows ++ f row ∷ []
update-last adw_id f runs rows row h k fresh =
    rw (h, update-fresh (λ r. true) (is_run adw_id) f rows row fresh, k, str_eq_self adw_id) refl

-- `prepare` never raises, and its run is the last of the table, running, with no process yet.
pub prepare_lem :
    (now : ℕ) (day url adw_id worktree : String) (task : Option Text)
    (lessons : Result (List String)) (s : Store) (rows : List RunRow) (row : RunRow)
    → s.runs ≡ rows ++ row ∷ []
    → row.adw_id ≡ adw_id
    → any_row (is_run adw_id) rows ≡ false
    → let t = (prepare now day url adw_id worktree task lessons s).1 in
      ((prepare now day url adw_id worktree task lessons s).0 ≡ ok tt)
      × (t.runs
          ≡ rows ++ record row { worktree_path = some worktree; status = RunStatus.running } ∷ [])
      × (t.issues ≡ s.issues)
      × (t.repos ≡ s.repos)
      × (t.budget_usage ≡ (add_run_count day url 1 s).budget_usage)
unfolding prepare add_run_count
prepare_lem now day url adw_id worktree none (err e) s rows row h k fresh =
    (refl, update-last adw_id _ s.runs rows row h k fresh, refl, refl, refl)
prepare_lem now day url adw_id worktree none (ok []) s rows row h k fresh =
    (refl, update-last adw_id _ s.runs rows row h k fresh, refl, refl, refl)
prepare_lem now day url adw_id worktree none (ok (l ∷ ls)) s rows row h k fresh =
    (refl, update-last adw_id _ s.runs rows row h k fresh, refl, refl, refl)
prepare_lem now day url adw_id worktree (some task) (err e) s rows row h k fresh =
    (refl, update-last adw_id _ s.runs rows row h k fresh, refl, refl, refl)
prepare_lem now day url adw_id worktree (some task) (ok []) s rows row h k fresh =
    (refl, update-last adw_id _ s.runs rows row h k fresh, refl, refl, refl)
prepare_lem now day url adw_id worktree (some task) (ok (l ∷ ls)) s rows row h k fresh =
    (refl, update-last adw_id _ s.runs rows row h k fresh, refl, refl, refl)

-- The row of a run that is handed to the runner: running, and with no process yet.
abbrev pub running_row : ℕ → Answers → RepoConfig → Issue → RunRow
running_row now answers repo issue =
    let row =
      new_run now answers.token repo.url issue.number repo.default_workflow repo.model_set
        (extract_cleo_task_id issue.title) in
    record row { worktree_path = some answers.worktree; status = RunStatus.running }

-- A store with the run handed over in it, and counted.
pub record IsPrepared (now : ℕ) (day : String) (answers : Answers) (repo : RepoConfig)
    (issue : Issue) (s t : Store) : Type 0 where
  pub runs : t.runs ≡ s.runs ++ running_row now answers repo issue ∷ []
  pub issues : t.issues ≡ s.issues
  pub repos : t.repos ≡ s.repos
  pub usage : t.budget_usage ≡ (add_run_count day repo.url 1 s).budget_usage

-- How a launch can go: it raises with nothing written, or it hands over a prepared store.
pub data Launched (now : ℕ) (day : String) (answers : Answers) (repo : RepoConfig) (issue : Issue)
    (s : Store) (out : Result Bool × Store) : Type 0 where
  nothing : (e : Exception) → out ≡ (err e, s) → Launched now day answers repo issue s out
  handed :
      (t : Store)
      → any_row (is_run answers.token) s.runs ≡ false
      → has_repo s.repos repo.url ≡ true
      → IsPrepared now day answers repo issue s t
      → out
        ≡ hand_over now repo.url issue.number answers.token answers.environment repo.runtime
            answers.spawn t
      → Launched now day answers repo issue s out

module _ (now : ℕ) (day : String) (answers : Answers) (repo : RepoConfig) (issue : Issue)
    (s : Store) (cloned : answers.clone ≡ ok tt) where
  abbrev created : Result (Unit {0} × Store)
  created =
      create_run now answers.token repo.url issue.number repo.default_workflow repo.model_set
        (extract_cleo_task_id issue.title) s

  launch-not_created :
      created ≡ err integrity_error → launch now day answers repo issue s ≡ (err integrity_error, s)
  unfolding launch create_run any_row
  launch-not_created h = rw (cloned, h)

  launch-created :
      (t u : Store)
      → created ≡ ok (tt, t)
      → prepare now day repo.url answers.token answers.worktree
          (extract_cleo_task_id issue.title)
          answers.lessons
          t
        ≡ (ok tt, u)
      → launch now day answers repo issue s
        ≡ hand_over now repo.url issue.number answers.token answers.environment repo.runtime
            answers.spawn u
  unfolding launch create_run any_row
  launch-created t u h k = rw (cloned, h, k)

-- A launch either raises with nothing written, when the clone fails or the run's row is refused, or
-- hands the runner a store in which the run is inserted and counted and all else is as it was.
pub launch-Launched :
    (now : ℕ) (day : String) (answers : Answers) (repo : RepoConfig) (issue : Issue) (s : Store)
    → Launched now day answers repo issue s (launch now day answers repo issue s)
launch-Launched now day answers repo issue s = elim (Result-cases answers.clone) [
  | inr (e, h) ↦ nothing e (unfold launch in rw h)
  | inl (_, h) ↦ elim (Result-cases (created now day answers repo issue s h)) [
    | inr (e, k) ↦
        nothing integrity_error
          (launch-not_created now day answers repo issue s h (create_run-err _ _ _ _ _ _ _ s e k))
    | inl ((_, t), k) ↦
        let row =
          new_run now answers.token repo.url issue.number repo.default_workflow repo.model_set
            (extract_cleo_task_id issue.title) in
        let (fresh, known, inserted) =
          create_run-ok now answers.token repo.url issue.number repo.default_workflow repo.model_set
            (extract_cleo_task_id issue.title) s t k in
        let (done, runs, issues, repos, usage) =
          prepare_lem now day repo.url answers.token answers.worktree
            (extract_cleo_task_id issue.title) answers.lessons t s.runs row
            (ap (λ (x : Store). x.runs) inserted) refl fresh in
        let u : Store =
          (prepare now day repo.url answers.token answers.worktree
            (extract_cleo_task_id issue.title) answers.lessons t).1 in
        handed u fresh known
          (record {
            runs = runs;
            issues = issues ∙ ap (λ (x : Store). x.issues) inserted;
            repos = repos ∙ ap (λ (x : Store). x.repos) inserted;
            usage =
                usage
                ∙ ap (λ (x : Store). (add_run_count day repo.url 1 x).budget_usage) inserted
                ∙ (unfold add_run_count in refl);
          })
          (launch-created now day answers repo issue s h t u k (λ i. (done i, u)))
  ]
]
