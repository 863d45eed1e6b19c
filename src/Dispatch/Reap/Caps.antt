-- ===== src/Dispatch/Reap/Caps.antt =====
-- Reaping frees slots and takes none, and it keeps the declared keys of the store.
use tac_master.Shared.{
  ℕ, zero, suc, ◌≤◌, String, false, ◌≡◌, refl, ◌∙◌, sym, ◌&&◌, Option, none, some, List, [], ◌∷◌,
  arith, ◌==◌, string_eq, count-shrink, update_rows, Bool-cases, inl, inr,
}
use tac_master.Store.Active.{runs_of}
use tac_master.Store.{
  Store, RunRow, RunStatus, is_run, is_active, active_runs_count, usage_today, set_issue_status,
  is_issue, IssueRow, list_active_runs, global_key,
}
use tac_master.Store.Runs.{IsWellFormed, IsWellFormed-same, runs-IsWellFormed, issues-IsWellFormed}
use tac_master.Config.{BudgetsConfig}
use tac_master.Tokens.{Prices}
use tac_master.Tokens.Frame.{IsTokensOnly}
use tac_master.Dispatch.Poll.Caps.{Respects}
use tac_master.Dispatch.Reap.{
  Outside, StateFile, absent, unreadable, loaded, Verdict, skip, hang, finished, verdict, started,
  issue_end, first_state, infer_final_status, reap_run, reap_runs, reap_finished_runs,
}
use tac_master.Dispatch.Reap.Status.{IsClosed, left, closed, ended_by, concluded, reap_run-Reaped}
use tac_master.Dispatch.Reap.Whole.{reap_runs-step}

first_state-ends : (files : List StateFile) → is_active (first_state files) ≡ false
unfolding first_state
first_state-ends [] = refl
first_state-ends (absent ∷ rest) = first_state-ends rest
first_state-ends (unreadable ∷ rest) = first_state-ends rest
first_state-ends (loaded plan_file all_adws ∷ rest) = elim (Bool-cases (plan_file && all_adws)) [
  | inl e ↦ rw e refl
  | inr e ↦ rw e refl
]

infer-ends :
    (worktree : Option String) (o : Outside) → is_active (infer_final_status worktree o) ≡ false
unfolding infer_final_status
infer-ends none o = first_state-ends (o.clone_state ∷ [])
infer-ends (some worktree) o = first_state-ends (o.clone_state ∷ o.tree_state ∷ o.root_state ∷ [])

-- How far a store is below another one.
record IsBelow (s t : Store) : Type 0 where
  concurrent : active_runs_count t ≤ active_runs_count s
  repo_concurrent : (url : String) → runs_of url t ≤ runs_of url s
  counts : (day key : String) → (usage_today day key t).1 ≡ (usage_today day key s).1

IsBelow-Respects :
    (cfg : BudgetsConfig) (day : String) (s t : Store)
    → IsBelow s t
    → Respects cfg day s
    → Respects cfg day t
IsBelow-Respects cfg day s t b v = record {
  concurrent = omega (arith, b.concurrent, v.concurrent);
  repo_concurrent = λ url. omega (arith, b.repo_concurrent url, v.repo_concurrent url);
  runs = omega (arith, b.counts day global_key, v.runs);
  repo_runs = λ url n. omega (arith, b.counts day url, v.repo_runs url n);
}

tokens-IsBelow : (key : String) (s t : Store) → IsTokensOnly key s t → IsBelow s t
unfolding active_runs_count runs_of
tokens-IsBelow key s t h = elim h.runs [
  | inl e ↦ record {
    concurrent = rw e (omega arith);
    repo_concurrent = λ url. rw e (omega arith);
    counts = h.counts;
  }
  | inr (n, e) ↦ record {
    concurrent = rw e (
        count-shrink (λ (r : RunRow). is_active r.status) (is_run key)
          (λ (q : RunRow). record q { tokens_used = n }) (λ x k. k) s.runs);
    repo_concurrent = λ url. rw e (
        count-shrink (λ (r : RunRow). is_active r.status && r.repo_url == url) (is_run key)
          (λ (q : RunRow). record q { tokens_used = n }) (λ x k. k) s.runs);
    counts = h.counts;
  }
]

module _ (now : ℕ) (day : String) (prices : Prices) where
  concluded-ends :
      (r : RunRow) (o : Outside) (v : Verdict) (final : RunStatus)
      → concluded now day prices r o v ≡ some final
      → is_active final ≡ false
  concluded-ends r o skip final h = ground (arith, h)
  concluded-ends r o hang final h = ground (arith, h)
  concluded-ends r o finished final h = ground (arith, h, infer-ends r.worktree_path o)

  ended-ends :
      (r : RunRow) (o : Outside) (pid : Option ℕ) (final : RunStatus)
      → ended_by now day prices r o pid ≡ some final
      → is_active final ≡ false
  ended-ends r o none final h = ground (arith, h)
  ended-ends r o (some zero) final h = ground (arith, h)
  ended-ends r o (some (suc p)) final h =
      concluded-ends r o (verdict now o.probe (started r)) final h

  closed-IsBelow :
      (r : RunRow) (o : Outside) (final : RunStatus) (s t : Store)
      → is_active final ≡ false
      → IsClosed now day prices r o final s t
      → IsBelow s t
  unfolding active_runs_count runs_of usage_today
  closed-IsBelow r o final s t e c =
      let b = tokens-IsBelow r.adw_id s c.tokens c.only_tokens in
      let close = λ (q : RunRow). record q { status = final; ended_at = some now } in
      record {
        concurrent = rw c.runs (
            omega (
              arith,
              b.concurrent,
              count-shrink (λ (r : RunRow). is_active r.status) (is_run r.adw_id) close
                  (λ x k. ground (arith, e, k)) c.tokens.runs,
            ));
        repo_concurrent = λ url. rw c.runs (
            omega (
              arith,
              b.repo_concurrent url,
              count-shrink (λ (r : RunRow). is_active r.status && r.repo_url == url)
                  (is_run r.adw_id) close (λ x k. ground (arith, e, k)) c.tokens.runs,
            ));
        counts = λ day key. rw c.usage (b.counts day key);
      }

  tokens-IsWellFormed :
      (key : String) (s t : Store) → IsTokensOnly key s t → IsWellFormed s → IsWellFormed t
  tokens-IsWellFormed key s t h v = elim h.runs [
    | inl e ↦ IsWellFormed-same s t h.repos h.issues e v
    | inr (n, e) ↦
        IsWellFormed-same
          (record s {
            runs = update_rows (is_run key) (λ (q : RunRow). record q { tokens_used = n }) s.runs;
          })
          t h.repos h.issues e
          (runs-IsWellFormed (is_run key) (λ (q : RunRow). record q { tokens_used = n }) (λ q. refl)
            (λ q. refl) s v)
  ]

  closed-IsWellFormed :
      (r : RunRow) (o : Outside) (final : RunStatus) (s t : Store)
      → IsClosed now day prices r o final s t
      → IsWellFormed s
      → IsWellFormed t
  unfolding set_issue_status
  closed-IsWellFormed r o final s t c v =
      let close = λ (q : RunRow). record q { status = final; ended_at = some now } in
      let u = c.tokens in
      let restated =
        λ (q : IssueRow). record q { status = issue_end final; last_updated_at = now } in
      let w =
        runs-IsWellFormed (is_run r.adw_id) close (λ q. refl) (λ q. refl) u
          (tokens-IsWellFormed r.adw_id s u c.only_tokens v) in
      IsWellFormed-same _ t (c.repos ∙ sym c.only_tokens.repos)
        (c.issues ∙ rw c.only_tokens.issues refl) c.runs
        (issues-IsWellFormed (is_issue r.repo_url r.issue_number) restated (λ q. refl) (λ q. refl)
          (record u { runs = update_rows (is_run r.adw_id) close u.runs }) w)

  reap_run-Respects :
      (cfg : BudgetsConfig) (today : String) (r : RunRow) (o : Outside) (s : Store)
      → Respects cfg today s
      → Respects cfg today (reap_run now day prices r o s).1
  reap_run-Respects cfg today r o s v = elim (reap_run-Reaped now day prices r o s) [
    | left e h ↦ rw h v
    | closed final calls e _ c ↦
        IsBelow-Respects cfg today s (reap_run now day prices r o s).1
          (closed-IsBelow r o final s (reap_run now day prices r o s).1
            (ended-ends r o r.pid final e) c)
          v
  ]

  reap_run-IsWellFormed :
      (r : RunRow) (o : Outside) (s : Store)
      → IsWellFormed s
      → IsWellFormed (reap_run now day prices r o s).1
  reap_run-IsWellFormed r o s v = elim (reap_run-Reaped now day prices r o s) [
    | left e h ↦ rw h v
    | closed final calls e _ c ↦
        closed-IsWellFormed r o final s (reap_run now day prices r o s).1 c v
  ]

  -- What reaping one run keeps, the reaping of all keeps.
  reap_runs-keeps :
      (P : Store → Type 0) (outside : String → Outside)
      → ((r : RunRow) (s : Store) → P s → P (reap_run now day prices r (outside r.adw_id) s).1)
      → (rows : List RunRow) (s : Store) → P s
      → P (reap_runs now day prices outside rows s).1
  unfolding reap_runs
  reap_runs-keeps P outside step [] s v = v
  reap_runs-keeps P outside step (r ∷ rows) s v =
      rw (reap_runs-step now day prices outside r rows s) (
        reap_runs-keeps P outside step rows (reap_run now day prices r (outside r.adw_id) s).1
          (step r s v))

-- Reaping keeps the caps on concurrent runs and on any day's runs, and the declared keys of the
-- store, whatever became of the processes and whatever their files hold.
pub reap_finished_runs-Respects :
    (now : ℕ) (day : String) (prices : Prices) (outside : String → Outside) (cfg : BudgetsConfig)
    (today : String) (s : Store)
    → Respects cfg today s
    → IsWellFormed s
    → Respects cfg today (reap_finished_runs now day prices outside s).1
      × IsWellFormed (reap_finished_runs now day prices outside s).1
unfolding reap_finished_runs
reap_finished_runs-Respects now day prices outside cfg today s v w = (
  reap_runs-keeps now day prices (Respects cfg today) outside
      (λ r s v. reap_run-Respects now day prices cfg today r (outside r.adw_id) s v)
      (list_active_runs s) s v,
  reap_runs-keeps now day prices IsWellFormed outside
      (λ r s w. reap_run-IsWellFormed now day prices r (outside r.adw_id) s w) (list_active_runs s)
      s w,
)
