-- ===== src/Dispatch/Reap/Status.antt =====
-- The status that reaping leaves on a run and on its issue.
use tac_master.Shared.{
  ℕ, zero, suc, String, ◌≡◌, refl, Option, none, some, List, [], ◌∷◌, ◌++◌, string_eq, nat_eq,
  find_row, update_rows, Result, ok, try-quiet, bind-ok, Option-cases, inl, inr,
}
use tac_master.Store.{
  Store, RunRow, RunStatus, is_run, update_run, set_issue_status, get_cleo_task_id, record_event,
}
use tac_master.Tokens.{Prices}
use tac_master.Tokens.Attribution.{attribute_run}
use tac_master.Tokens.Frame.{IsTokensOnly, attribute_run-IsTokensOnly, same-IsTokensOnly}
use tac_master.Dispatch.Reap.{
  Call, kill_tree, linked, update_cleo_task_status, follow_up, run_reflect, Outside, Verdict, skip,
  hang, finished, verdict, started, infer_final_status, issue_end, attribute, mark_hang,
  mark_finished, finish, conclude, reap_pid, reap_run,
}

abbrev pub status_in : Option RunRow → Option RunStatus
status_in none = none
status_in (some r) = some r.status

-- The status that the table holds for a run.
abbrev pub run_status : String → Store → Option RunStatus
run_status adw_id s = status_in (find_row (is_run adw_id) s.runs)

module _ (now : ℕ) (day : String) (prices : Prices) (r : RunRow) (o : Outside) where
  attribute-lem :
      (s : Store)
      → ((attribute now day prices r o s).0 ≡ ok tt)
        × IsTokensOnly r.adw_id s (attribute now day prices r o s).1
  unfolding attribute
  attribute-lem s = elim (Option-cases r.worktree_path) [
    | inl e ↦ rw (e, attribute) (refl, same-IsTokensOnly r.adw_id s)
    | inr (worktree, e) ↦
        rw (e, attribute, try-quiet (attribute_run now prices r.adw_id r.repo_url day o.files) s)
          (refl, attribute_run-IsTokensOnly now prices r.adw_id r.repo_url day o.files s)
  ]

  -- The status that the run ends with, where it ends.
  abbrev pub concluded : Verdict → Option RunStatus
  concluded skip = none
  concluded hang = some RunStatus.failed
  concluded finished = some (infer_final_status r.worktree_path o)

  abbrev pub ended_by : Option ℕ → Option RunStatus
  ended_by none = none
  ended_by (some zero) = none
  ended_by (some (suc pid)) = concluded (verdict now o.probe (started r))

  abbrev pub ended : Option RunStatus
  ended = ended_by r.pid

  -- The rows of a run that ended and of its issue.
  pub record IsClosed (final : RunStatus) (s t : Store) : Type 0 where
    pub tokens : Store
    pub only_tokens : IsTokensOnly r.adw_id s tokens
    pub runs :
        t.runs
        ≡ update_rows
            (is_run r.adw_id)
            (λ (q : RunRow). record q { status = final; ended_at = some now })
            tokens.runs
    pub issues :
        t.issues ≡ (set_issue_status now r.repo_url r.issue_number (issue_end final) s).issues
    pub repos : t.repos ≡ s.repos
    pub usage : t.budget_usage ≡ tokens.budget_usage

  -- What reaping does with a run: nothing, or it closes the run, and it never raises.
  pub data Reaped (end : Option RunStatus) (s : Store) (out : Result (List Call) × Store)
      : Type 0 where
    left : end ≡ none → out ≡ (ok [], s) → Reaped end s out
    closed :
        (final : RunStatus) (calls : List Call)
        → end ≡ some final
        → out.0 ≡ ok calls
        → IsClosed final s out.1
        → Reaped end s out

  finish-IsClosed :
      (s : Store)
      → (calls : List Call) × ((finish now day prices r o s).0 ≡ ok calls)
        × IsClosed (infer_final_status r.worktree_path o) s (finish now day prices r o s).1
  unfolding finish mark_finished update_run set_issue_status record_event
  finish-IsClosed s =
      let final = infer_final_status r.worktree_path o in
      let (done, only) = attribute-lem s in
      let u : Store = (attribute now day prices r o s).1 in
      let task = linked (get_cleo_task_id r.adw_id (mark_finished now day prices r final u)) in
      let calls =
        update_cleo_task_status task final
        ++ follow_up task final o.cleo
        ++ run_reflect r.worktree_path o in
      let e : finish now day prices r o s ≡ (ok calls, mark_finished now day prices r final u) =
        bind-ok (attribute now day prices r o) _ s (λ i. (done i, u)) in
      (
        calls,
        rw e refl,
        rw e (record {
          tokens = u;
          only_tokens = only;
          runs = refl;
          issues = rw only.issues refl;
          repos = only.repos;
          usage = refl;
        }),
      )

  hang-IsClosed : (s : Store) → IsClosed RunStatus.failed s (mark_hang now day prices r s)
  unfolding mark_hang update_run set_issue_status record_event issue_end
  hang-IsClosed s = record {
    tokens = s;
    only_tokens = same-IsTokensOnly r.adw_id s;
    runs = refl;
    issues = refl;
    repos = refl;
    usage = refl;
  }

  conclude-Reaped :
      (s : Store) (v : Verdict) (pid : ℕ)
      → Reaped (concluded v) s (conclude now day prices v r pid o s)
  unfolding conclude
  conclude-Reaped s skip pid = left refl refl
  conclude-Reaped s hang pid =
      closed RunStatus.failed (kill_tree pid ∷ []) refl refl (hang-IsClosed s)
  conclude-Reaped s finished pid =
      let (calls, e, c) = finish-IsClosed s in
      closed (infer_final_status r.worktree_path o) calls refl e c

  pid-Reaped :
      (s : Store) (pid : Option ℕ) → Reaped (ended_by pid) s (reap_pid now day prices pid r o s)
  unfolding reap_pid
  pid-Reaped s none = left refl refl
  pid-Reaped s (some zero) = left refl refl
  pid-Reaped s (some (suc p)) = conclude-Reaped s (verdict now o.probe (started r)) (suc p)

  pub reap_run-Reaped : (s : Store) → Reaped ended s (reap_run now day prices r o s)
  unfolding reap_run
  reap_run-Reaped s = pid-Reaped s r.pid
