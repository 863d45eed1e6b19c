-- ===== src/Dispatch/Reap.antt =====
-- `reap_finished_runs`: the runs that ended or hang. Calls out of the program are returned in their
-- order; each is guarded by a `try`, so none of them can end the reaping.
pub mod Verdicts
pub mod Status
pub mod Statuses
pub mod Whole
pub mod Caps
pub mod Followup
use tac_master.Shared.{
  ℕ, zero, suc, ◌+◌, ◌-◌, String, Bool, true, false, ◌&&◌, ◌||◌, Option, none, some, List, [], ◌∷◌,
  ◌++◌, Text, codes, if◌then◌else◌, ◌==◌, text_eq, ltb, starts_with, Exec, pure, modify, gets,
  try_except, ◌>>=◌, ◌>>◌,
}
use tac_master.Store.{
  Store, RunRow, RunStatus, IssueStatus, hang_timeout, run_finished, update_run, set_issue_status,
  record_event, list_active_runs, get_cleo_task_id,
}
use tac_master.Tokens.{Prices}
use tac_master.Tokens.Attribution.{PhaseFile, attribute_run}

-- `os.waitpid(pid, WNOHANG)`
pub data Wait : Type 0 where
  still_running reaped not_a_child : Wait

-- `os.kill(pid, 0)`
pub data Probe : Type 0 where
  gone not_permitted : Probe
  alive : Wait → Probe

-- A path where adw_state.json may be: `loaded` says whether `plan_file` and `all_adws` are set.
pub data StateFile : Type 0 where
  absent unreadable : StateFile
  loaded : Bool → Bool → StateFile

pub data Call : Type 0 where
  -- SIGKILL for the run's process group
  kill_tree : ℕ → Call
  cleo_complete : Text → Call
  cleo_update_status : Text → String → Call
  cleo_add : Text → Text → Call
  cleo_labels : Text → Call
  cleo_note : Text → Call
  -- the reflection script of the worktree, or of tac-master itself
  reflect : Bool → Call

-- The answers of `cleo` to one follow-up.
pub record CleoAnswers : Type 0 where
  -- the title of the task, where it could be fetched
  pub parent_title : Option Text
  -- the exit code of `cleo add` is 0
  pub added : Bool
  -- the new task's id, where the output gives one
  pub new_task_id : Option Text

-- What is outside of the program at one run.
pub record Outside : Type 0 where
  pub probe : Probe
  pub clone_state : StateFile
  pub tree_state : StateFile
  pub root_state : StateFile
  pub files : List PhaseFile
  pub cleo : CleoAnswers
  pub own_reflect : Bool
  pub home_reflect : Bool

unfoldable pub first_state : List StateFile → RunStatus
first_state [] = RunStatus.failed
first_state (absent ∷ rest) = first_state rest
first_state (unreadable ∷ rest) = first_state rest
first_state (loaded plan_file all_adws ∷ rest) =
    if plan_file && all_adws then RunStatus.succeeded else RunStatus.incomplete

-- `_infer_final_status`, over its candidates
unfoldable pub infer_final_status : Option String → Outside → RunStatus
unfolding first_state
infer_final_status none o = first_state (o.clone_state ∷ [])
infer_final_status (some worktree) o =
    first_state (o.clone_state ∷ o.tree_state ∷ o.root_state ∷ [])

-- A linked task, where the id is not empty.
unfoldable pub linked : Option Text → Option Text
linked none = none
linked (some task) = if task == [] then none else some task

-- `_update_cleo_task_status`
unfoldable pub update_cleo_task_status : Option Text → RunStatus → List Call
update_cleo_task_status none final = []
update_cleo_task_status (some task) RunStatus.succeeded = cleo_complete task ∷ []
update_cleo_task_status (some task) RunStatus.incomplete = cleo_update_status task "blocked" ∷ []
update_cleo_task_status (some task) _ = cleo_update_status task "failed" ∷ []

unfoldable pub is_followup : Text → Bool
unfolding starts_with
is_followup title = starts_with title (codes "Fix:") || starts_with title (codes "Resume:")

unfoldable pub followup_title : RunStatus → Text → Text
followup_title RunStatus.failed title = codes "Fix: " ++ title
followup_title _ title = codes "Resume: " ++ title

abbrev label_calls : Option Text → List Call
label_calls none = []
label_calls (some id) = if id == [] then [] else cleo_labels id ∷ []

-- `_create_followup_task`
unfoldable pub create_followup_task : Text → RunStatus → CleoAnswers → List Call
unfolding is_followup followup_title
create_followup_task task final cleo = elim cleo.parent_title [
  | none ↦ []
  | some title ↦
      if is_followup title
      then []
      else cleo_add task (followup_title final title)
        ∷ (if cleo.added then label_calls cleo.new_task_id ++ cleo_note task ∷ [] else [])
]

-- `if final_status in ("failed", "incomplete")`
unfoldable pub follow_up : Option Text → RunStatus → CleoAnswers → List Call
unfolding create_followup_task
follow_up none final cleo = []
follow_up (some task) RunStatus.failed cleo = create_followup_task task RunStatus.failed cleo
follow_up (some task) RunStatus.incomplete cleo =
    create_followup_task task RunStatus.incomplete cleo
follow_up (some task) _ cleo = []

-- `_run_reflect`
unfoldable pub run_reflect : Option String → Outside → List Call
run_reflect none o = []
run_reflect (some worktree) o =
    if o.own_reflect then reflect true ∷ [] else if o.home_reflect then reflect false ∷ [] else []

-- What the probe and the wait say of a run with a process.
pub data Verdict : Type 0 where
  skip hang finished : Verdict

-- `_RUN_HANG_TIMEOUT_SECONDS`
abbrev pub hang_timeout_seconds : ℕ
hang_timeout_seconds = 3600

-- `run.get("started_at") or 0`
abbrev pub started : RunRow → ℕ
started r = elim r.started_at [ none ↦ 0 | some at ↦ at ]

unfoldable pub verdict : ℕ → Probe → ℕ → Verdict
verdict now gone started_at = finished
verdict now not_permitted started_at = skip
verdict now (alive reaped) started_at = finished
verdict now (alive still_running) started_at =
    if ltb hang_timeout_seconds (now - started_at) then hang else skip
verdict now (alive not_a_child) started_at =
    if ltb hang_timeout_seconds (now - started_at) then hang else skip

unfoldable pub issue_end : RunStatus → IssueStatus
issue_end RunStatus.succeeded = IssueStatus.completed
issue_end _ = IssueStatus.failed

module _ (now : ℕ) (day : String) (prices : Prices) where
  unfoldable pub attribute : RunRow → Outside → Exec Store (Unit {0})
  unfolding attribute_run
  attribute r o = elim r.worktree_path [
    | none ↦ pure tt
    | some worktree ↦
        try_except (attribute_run now prices r.adw_id r.repo_url day o.files >> pure tt)
          (λ e. pure tt)
  ]

  -- The row of a run and of its issue, and an event, at its end.
  unfoldable pub mark_hang : RunRow → Store → Store
  unfolding update_run set_issue_status record_event
  mark_hang r s =
      record_event now "error" (hang_timeout r.adw_id (now - started r)) (some r.repo_url)
        (some r.adw_id)
        (set_issue_status now r.repo_url r.issue_number IssueStatus.failed (
          update_run r.adw_id (λ q. record q { status = RunStatus.failed; ended_at = some now }) s))

  unfoldable pub mark_finished : RunRow → RunStatus → Store → Store
  unfolding update_run set_issue_status record_event issue_end
  mark_finished r final s =
      record_event now "phase_end" (run_finished r.adw_id final) (some r.repo_url) (some r.adw_id) (
        set_issue_status now r.repo_url r.issue_number (issue_end final)
          (update_run r.adw_id (λ q. record q { status = final; ended_at = some now }) s))

  unfoldable pub finish : RunRow → Outside → Exec Store (List Call)
  unfolding infer_final_status attribute mark_finished get_cleo_task_id linked
      update_cleo_task_status follow_up run_reflect
  finish r o = do
    let final = infer_final_status r.worktree_path o
    attribute r o
    modify (mark_finished r final)
    task ← gets (λ s. linked (get_cleo_task_id r.adw_id s))
    pure (
        update_cleo_task_status task final
        ++ follow_up task final o.cleo
        ++ run_reflect r.worktree_path o)

  unfoldable pub conclude : Verdict → RunRow → ℕ → Outside → Exec Store (List Call)
  unfolding mark_hang finish
  conclude skip r pid o = pure []
  conclude hang r pid o = do modify (mark_hang r); pure (kill_tree pid ∷ [])
  conclude finished r pid o = finish r o

  -- `if not pid: continue`
  unfoldable pub reap_pid : Option ℕ → RunRow → Outside → Exec Store (List Call)
  unfolding conclude verdict
  reap_pid none r o = pure []
  reap_pid (some zero) r o = pure []
  reap_pid (some (suc pid)) r o = conclude (verdict now o.probe (started r)) r (suc pid) o

  unfoldable pub reap_run : RunRow → Outside → Exec Store (List Call)
  unfolding reap_pid
  reap_run r o = reap_pid r.pid r o

  unfoldable pub reap_runs : (String → Outside) → List RunRow → Exec Store (List Call)
  unfolding reap_run
  reap_runs outside [] = pure []
  reap_runs outside (r ∷ rows) = do
    calls ← reap_run r (outside r.adw_id)
    rest ← reap_runs outside rows
    pure (calls ++ rest)

  unfoldable pub reap_finished_runs : (String → Outside) → Exec Store (List Call)
  unfolding reap_runs
  reap_finished_runs outside s = reap_runs outside (list_active_runs s) s
