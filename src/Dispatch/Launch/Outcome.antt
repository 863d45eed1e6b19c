-- ===== src/Dispatch/Launch/Outcome.antt =====
-- What a launch leaves behind, for each way that it ends.
use tac_master.Shared.{
  ℕ, String, Bool, true, false, ◌≡◌, refl, ◌∙◌, some, List, [], ◌∷◌, ◌++◌, string_eq, any_row,
  Result, ok, err, lift, ◌>>◌, Exception,
}
use tac_master.Store.{
  Store, RunRow, RunStatus, IssueStatus, is_run, add_run_count, set_issue_status,
}
use tac_master.Config.{RepoConfig}
use tac_master.GitHub.{Issue}
use tac_master.Dispatch.Launch.{Answers, start, hand_over, launch, make_runner}
use tac_master.Dispatch.Launch.Effect.{
  Launched, nothing, handed, running_row, update-last, launch-Launched,
}
use tac_master.Store.Runs.{has_repo}

-- The run's row at the end, by what `_build_env`, `make_runner` and `spawn` answered: it has its
-- process, it has failed, or it stands as running with no process.
abbrev pub ended_row : ℕ → Result (Unit {0}) → Result (Unit {0}) → Result ℕ → RunRow → RunRow
ended_row now (err e) runner spawn row = row
ended_row now (ok _) (err e) spawn row = row
ended_row now (ok _) (ok _) (ok pid) row = record row { pid = some pid }
ended_row now (ok _) (ok _) (err e) row = record row {
  status = RunStatus.failed;
  ended_at = some now;
}

pub ended_row_keys :
    (now : ℕ) (environment runner : Result (Unit {0})) (spawn : Result ℕ) (row : RunRow)
    → ((ended_row now environment runner spawn row).repo_url ≡ row.repo_url)
      × ((ended_row now environment runner spawn row).adw_id ≡ row.adw_id)
ended_row_keys now (err e) runner spawn row = (refl, refl)
ended_row_keys now (ok _) (err e) spawn row = (refl, refl)
ended_row_keys now (ok _) (ok _) (ok pid) row = (refl, refl)
ended_row_keys now (ok _) (ok _) (err e) row = (refl, refl)

abbrev pub reply : Result (Unit {0}) → Result (Unit {0}) → Result ℕ → Result Bool
reply (err e) runner spawn = err e
reply (ok _) (err e) spawn = err e
reply (ok _) (ok _) (ok pid) = ok true
reply (ok _) (ok _) (err e) = ok false

-- The issue is marked where the launch succeeded, and nowhere else.
abbrev pub marked : ℕ → String → ℕ → Result Bool → Store → Store
marked now url n (ok true) s = set_issue_status now url n IssueStatus.dispatched s
marked now url n (ok false) s = s
marked now url n (err e) s = s

-- The effect of a launch that inserted its run.
pub record HasRun (now : ℕ) (day : String) (answers : Answers) (repo : RepoConfig) (issue : Issue)
    (s : Store) (out : Result Bool × Store) : Type 0 where
  pub replies : out.0 ≡ reply answers.environment (make_runner repo.runtime) answers.spawn
  pub runs :
      out.1.runs
      ≡ s.runs
        ++ ended_row now answers.environment
            (make_runner repo.runtime)
            answers.spawn
            (running_row now answers repo issue)
          ∷ []
  pub issues : out.1.issues ≡ (marked now repo.url issue.number out.0 s).issues
  pub repos : out.1.repos ≡ s.repos
  pub usage : out.1.budget_usage ≡ (add_run_count day repo.url 1 s).budget_usage

module _ (now : ℕ) (url : String) (n : ℕ) (adw_id : String) (t : Store) (rows : List RunRow)
    (row : RunRow) (last : t.runs ≡ rows ++ row ∷ []) (key : row.adw_id ≡ adw_id)
    (fresh : any_row (is_run adw_id) rows ≡ false) where
  abbrev resumed : Result (Unit {0}) → Result (Unit {0}) → Result ℕ → Result Bool × Store
  resumed environment runner spawn =
      (lift environment >> (lift runner >> start now url n adw_id spawn)) t

  resumed_lem :
      (environment runner : Result (Unit {0})) (spawn : Result ℕ)
      → let out = resumed environment runner spawn in
        (out.0 ≡ reply environment runner spawn)
        × (out.1.runs ≡ rows ++ ended_row now environment runner spawn row ∷ [])
        × (out.1.issues ≡ (marked now url n out.0 t).issues)
        × (out.1.repos ≡ t.repos)
        × (out.1.budget_usage ≡ t.budget_usage)
  unfolding start
  resumed_lem (err e) runner spawn = (refl, last, refl, refl, refl)
  resumed_lem (ok _) (err e) spawn = (refl, last, refl, refl, refl)
  resumed_lem (ok _) (ok _) (ok pid) =
      (refl, update-last adw_id _ t.runs rows row last key fresh, refl, refl, refl)
  resumed_lem (ok _) (ok _) (err e) =
      (refl, update-last adw_id _ t.runs rows row last key fresh, refl, refl, refl)

marked-issues :
    (now : ℕ) (url : String) (n : ℕ) (r : Result Bool) (s t : Store)
    → t.issues ≡ s.issues
    → (marked now url n r t).issues ≡ (marked now url n r s).issues
unfolding set_issue_status
marked-issues now url n (ok true) s t h = rw h
marked-issues now url n (ok false) s t h = h
marked-issues now url n (err e) s t h = h

-- A launch raises with nothing written, or its run is the last row of the table, counted for the
-- day once. The run has its process and the issue is marked as dispatched exactly when the
-- launch succeeds; it is marked as failed, and the issue left alone, when the runner raises.
pub data Ending (now : ℕ) (day : String) (answers : Answers) (repo : RepoConfig) (issue : Issue)
    (s : Store) (out : Result Bool × Store) : Type 0 where
  untouched : (e : Exception) → out ≡ (err e, s) → Ending now day answers repo issue s out
  inserted :
      any_row (is_run answers.token) s.runs ≡ false
      → has_repo s.repos repo.url ≡ true
      → HasRun now day answers repo issue s out
      → Ending now day answers repo issue s out

pub launch-Ending :
    (now : ℕ) (day : String) (answers : Answers) (repo : RepoConfig) (issue : Issue) (s : Store)
    → Ending now day answers repo issue s (launch now day answers repo issue s)
unfolding hand_over
launch-Ending now day answers repo issue s = go (launch-Launched now day answers repo issue s)
  where
    go :
        Launched now day answers repo issue s (launch now day answers repo issue s)
        → Ending now day answers repo issue s (launch now day answers repo issue s)
    go (nothing e h) = untouched e h
    go (handed t fresh known p h) =
        let (replies, runs, issues, repos, usage) =
          resumed_lem now repo.url issue.number answers.token t s.runs
            (running_row now answers repo issue) p.runs refl fresh answers.environment
            (make_runner repo.runtime) answers.spawn in
        inserted fresh known (
          rw (h, hand_over)
            (record {
              replies = replies;
              runs = runs;
              issues = issues ∙ marked-issues now repo.url issue.number _ s t p.issues;
              repos = repos ∙ p.repos;
              usage = usage ∙ p.usage;
            }))
