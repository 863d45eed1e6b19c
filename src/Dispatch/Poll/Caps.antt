-- ===== src/Dispatch/Poll/Caps.antt =====
-- The caps on concurrent runs and on the day's runs hold whatever a poll finds and starts.
use tac_master.Shared.{
  ℕ, ◌+◌, ◌≤◌, String, Bool, false, ◌≡◌, ◌≢◌, refl, ◌∙◌, ◌&&◌, ◌||◌, none, some, List, [], ◌∷◌,
  ◌++◌, arith, if◌then◌else◌, ◌==◌, string_eq, eq_iff, str_eq_self, count_rows, count-append,
  Result, ok, Keeps, Keeps-bind, Keeps-pure, Keeps-transaction,
}
use tac_master.Store.{
  Store, RunRow, is_active, active_runs_count, usage_today, global_key, upsert_repo, mark_polled,
  record_event, add_run_count,
}
use tac_master.Store.Active.{runs_of, runs_of-active_runs_count_of}
use tac_master.Store.Issues.{seen_issue_frame}
use tac_master.Store.Usage.{usage-add_run_count}
use tac_master.Config.{RepoConfig, BudgetsConfig, for_repo}
use tac_master.Budget.{max_concurrent, max_runs, can_dispatch, BudgetDecision, allowed, refused}
use tac_master.Budget.Caps.{HasRoom, can_dispatch-HasRoom}
use tac_master.GitHub.{Issue, GitHub}
use tac_master.Dispatch.Launch.{Answers, dispatch, launch, refuse, workflow_script, make_runner}
use tac_master.Dispatch.Launch.Outcome.{
  Ending, untouched, inserted, launch-Ending, ended_row, ended_row_keys,
}
use tac_master.Dispatch.Launch.Effect.{running_row}
use tac_master.Dispatch.Trigger.{should_dispatch}
use tac_master.Dispatch.Poll.Steps.{All, all_none, all_more, KeepsSteps, poll_once-Keeps}
use tac_master.Dispatch.Poll.{poll_once}

-- No cap on runs is exceeded: at any time, globally and per repository, and on the day.
pub record Respects (cfg : BudgetsConfig) (day : String) (s : Store) : Type 0 where
  pub concurrent : active_runs_count s ≤ max_concurrent cfg
  pub repo_concurrent : (url : String) → runs_of url s ≤ (for_repo cfg url).max_concurrent_runs
  pub runs : (usage_today day global_key s).1 ≤ max_runs cfg
  pub repo_runs :
      (url : String)
      → url ≢ global_key
      → (usage_today day url s).1 ≤ (for_repo cfg url).max_runs_per_day

-- The caps look at two tables only.
pub Respects-same :
    (cfg : BudgetsConfig) (day : String) (s t : Store)
    → t.runs ≡ s.runs
    → t.budget_usage ≡ s.budget_usage
    → Respects cfg day s
    → Respects cfg day t
unfolding active_runs_count runs_of usage_today
Respects-same cfg day s t runs usage h = record {
  concurrent = rw runs h.concurrent;
  repo_concurrent = λ url. rw runs (h.repo_concurrent url);
  runs = rw usage h.runs;
  repo_runs = λ url ne. rw usage (h.repo_runs url ne);
}

count-one : {A : Type 0} (p : A → Bool) (x : A) → count_rows p (x ∷ []) ≡ (if p x then 1 else 0)
unfolding count_rows
count-one p x = omega arith

active-append :
    (s t : Store) (r : RunRow) (url : String)
    → t.runs ≡ s.runs ++ r ∷ []
    → (active_runs_count t ≤ active_runs_count s + 1)
      × (runs_of url t ≤ runs_of url s + (if r.repo_url == url then 1 else 0))
unfolding active_runs_count runs_of
active-append s t r url h = (
  rw h (
      ground (
        arith,
        count-append (λ (r : RunRow). is_active r.status) s.runs (r ∷ []),
        count-one (λ (r : RunRow). is_active r.status) r,
      )),
  rw h (
      ground (
        arith,
        count-append (λ (r : RunRow). is_active r.status && r.repo_url == url) s.runs (r ∷ []),
        count-one (λ (r : RunRow). is_active r.status && r.repo_url == url) r,
      )),
)

usage-same :
    (day key : String) (s t : Store)
    → t.budget_usage ≡ s.budget_usage
    → usage_today day key t ≡ usage_today day key s
unfolding usage_today
usage-same day key s t h = rw h

module _ (now : ℕ) (day : String) (answers : Answers) (repo : RepoConfig) (issue : Issue)
    (cfg : BudgetsConfig) (ne : repo.url ≢ global_key) where
  launch-Respects :
      (s : Store) (out : Result Bool × Store)
      → HasRoom cfg day repo.url s
      → Ending now day answers repo issue s out
      → Respects cfg day s
      → Respects cfg day out.1
  launch-Respects s out room (untouched e h) v = rw h v
  launch-Respects s out room (inserted fresh known run) v = record {
    concurrent = omega (arith, (active repo.url).0);
    repo_concurrent = λ url. ground (
      arith,
      (active url).1,
      v.repo_concurrent url,
      room.repo_concurrent,
      runs_of-active_runs_count_of repo.url s,
      eq_iff repo.url url,
      owner,
    );
    runs = ground (
      arith,
      counted global_key,
      room.runs,
      str_eq_self global_key,
      str_eq_self day,
      eq_iff repo.url global_key,
    );
    repo_runs = λ url n. ground (
      arith,
      counted url,
      room.repo_runs,
      v.repo_runs url n,
      eq_iff repo.url url,
      eq_iff global_key url,
      n,
      str_eq_self day,
    );
  }
    where
      row : RunRow
      row =
          ended_row now answers.environment (make_runner repo.runtime) answers.spawn
            (running_row now answers repo issue)

      owner : row.repo_url ≡ repo.url
      owner =
          (ended_row_keys now answers.environment (make_runner repo.runtime) answers.spawn
            (running_row now answers repo issue)).0

      active :
          (url : String)
          → (active_runs_count out.1 ≤ active_runs_count s + 1)
            × (runs_of url out.1 ≤ runs_of url s + (if row.repo_url == url then 1 else 0))
      active url = active-append s out.1 row url run.runs

      counted :
          (key : String)
          → usage_today day key out.1 ≡ (
              if day == day && (repo.url == key || global_key == key)
              then ((usage_today day key s).0, (usage_today day key s).1 + 1)
              else usage_today day key s)
      counted key =
          usage-same day key (add_run_count day repo.url 1 s) out.1 run.usage
          ∙ usage-add_run_count day repo.url 1 s day key ne

module _ (now : ℕ) (day : String) (cfg : BudgetsConfig) where
  pub dispatch-Respects :
      (answers : Answers) (repo : RepoConfig) (issue : Issue)
      → repo.url ≢ global_key
      → Keeps (Respects cfg day) (dispatch now day answers repo issue cfg)
  unfolding dispatch
  dispatch-Respects answers repo issue ne = record {
    at = λ s v. decided s (can_dispatch cfg day repo.url s) refl v;
  }
    where
      decided :
          (s : Store) (d : BudgetDecision)
          → can_dispatch cfg day repo.url s ≡ d
          → Respects cfg day s
          → Respects cfg day
              (elim d as (λ x. Result Bool × Store) [
                | refused why ↦ refuse now day answers repo issue why s
                | allowed ↦ elim (workflow_script repo.default_workflow) [
                  | none ↦ (ok false, s)
                  | some script ↦ launch now day answers repo issue s
                ]
              ]).1
      decided s (refused why) e v = Respects-same cfg day s _ refl refl v
      decided s allowed e v =
          elim (workflow_script repo.default_workflow)
            as (λ w.
              Respects cfg day
                (elim w as (λ x. Result Bool × Store) [
                  | none ↦ (ok false, s)
                  | some script ↦ launch now day answers repo issue s
                ]).1) [
                  | none ↦ v
                  | some script ↦
                      launch-Respects now day answers repo issue cfg ne s _
                        ((can_dispatch-HasRoom cfg day repo.url s).0 e)
                        (launch-Ending now day answers repo issue s) v
                ]

  should_dispatch-Respects :
      (gh : GitHub) (repo : RepoConfig) (issue : Issue)
      → Keeps (Respects cfg day) (should_dispatch now gh repo issue)
  unfolding should_dispatch
  should_dispatch-Respects gh repo issue =
      Keeps-bind _ _
        (Keeps-transaction _ (λ s t a v h.
          let (runs, usage, _) = seen_issue_frame now _ _ _ _ s h in
          Respects-same cfg day s t runs usage v))
        (λ status. Keeps-pure _)

  caps-KeepsSteps :
      (gh : GitHub) (answers : String → ℕ → Answers) (repo : RepoConfig)
      → repo.url ≢ global_key
      → KeepsSteps now day cfg gh answers (Respects cfg day) repo
  unfolding upsert_repo mark_polled record_event
  caps-KeepsSteps gh answers repo ne = record {
    sights = should_dispatch-Respects gh repo;
    dispatches = λ issue. dispatch-Respects (answers repo.url issue.number) repo issue ne;
    registers = λ s slug v. Respects-same cfg day s _ refl refl v;
    reports = λ s v. Respects-same cfg day s _ refl refl v;
  }

-- Every repository of the allowlist has a url that is not the key of the global counters.
abbrev pub AllNamed : List RepoConfig → Type 0
AllNamed = All (λ (repo : RepoConfig). repo.url ≢ global_key)

repos-KeepsSteps :
    (now : ℕ) (day : String) (cfg : BudgetsConfig) (gh : GitHub) (answers : String → ℕ → Answers)
    (repos : List RepoConfig)
    → AllNamed repos
    → All (KeepsSteps now day cfg gh answers (Respects cfg day)) repos
repos-KeepsSteps now day cfg gh answers [] all_none = all_none
repos-KeepsSteps now day cfg gh answers (repo ∷ repos) (all_more ne all) =
    all_more (caps-KeepsSteps now day cfg gh answers repo ne)
      (repos-KeepsSteps now day cfg gh answers repos all)

-- A poll that starts within the caps on concurrent runs and on the day's runs, globally and for
-- each repository, ends within them, whatever GitHub lists, whatever the outside calls answer and
-- wherever an exception is raised, given that no repository's url is the key of the global
-- counters.
pub poll_once-Respects :
    (now : ℕ) (day : String) (cfg : BudgetsConfig) (gh : GitHub) (answers : String → ℕ → Answers)
    (repos : List RepoConfig) (s : Store)
    → AllNamed repos
    → Respects cfg day s
    → Respects cfg day (poll_once now day cfg gh answers repos s).1
poll_once-Respects now day cfg gh answers repos s all v =
    (poll_once-Keeps now day cfg gh answers (Respects cfg day) repos
        (repos-KeepsSteps now day cfg gh answers repos all)).at
      s v
