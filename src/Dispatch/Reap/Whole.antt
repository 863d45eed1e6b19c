-- ===== src/Dispatch/Reap/Whole.antt =====
-- The statuses after one reaping of all active runs.
use tac_master.Shared.{
  ℕ, String, false, ◌≡◌, refl, ap, ◌∙◌, sym, Option, none, some, List, [], ◌∷◌, ◌++◌, arith,
  if◌then◌else◌, ◌==◌, string_eq, nat_eq, eq_iff, find_row, any_row, select_rows, find-none_of_any,
  ok, Option-cases, Bool-cases, inl, inr, Unique, bind-state, pure-state, pure, ◌>>=◌,
}
use tac_master.Store.{Store, RunRow, RunStatus, is_run, list_active_runs, is_active}
use tac_master.Store.Runs.{same_run}
use tac_master.Tokens.{Prices}
use tac_master.Dispatch.Reap.{Call, Outside, reap_run, reap_runs, reap_finished_runs}
use tac_master.Dispatch.Reap.Status.{run_status, left, closed, ended, reap_run-Reaped}
use tac_master.Dispatch.Reap.Statuses.{
  after, status-update, tokens-status, Unique-select, find-select,
}

module _ (now : ℕ) (day : String) (prices : Prices) where
  -- Reaping one run gives it the status that it ended with, and touches the status of no other run.
  status-reap_run :
      (r : RunRow) (o : Outside) (s : Store) (adw_id : String)
      → run_status adw_id (reap_run now day prices r o s).1 ≡ (
          if r.adw_id == adw_id
          then after (λ x. x) (ended now day prices r o) (run_status adw_id s)
          else run_status adw_id s)
  status-reap_run r o s adw_id = elim (reap_run-Reaped now day prices r o s) [
    | left e h ↦ rw (e, h) (ground arith)
    | closed final calls e _ c ↦
        rw
          (
            e,
            c.runs,
            status-update adw_id r.adw_id
                (λ (q : RunRow). record q { status = final; ended_at = some now }) c.tokens.runs
                (some final) (λ (q : RunRow). refl) (λ (q : RunRow). refl),
            tokens-status r.adw_id s c.tokens adw_id c.only_tokens,
          )
          refl
  ]

  reap_run-ok :
      (r : RunRow) (o : Outside) (s : Store)
      → (calls : List Call) × ((reap_run now day prices r o s).0 ≡ ok calls)
  reap_run-ok r o s = elim (reap_run-Reaped now day prices r o s) [
    | left e h ↦ ([], rw h refl)
    | closed final calls e h c ↦ (calls, h)
  ]

  -- The runs are reaped one after the other, since reaping one never raises.
  pub reap_runs-step :
      (outside : String → Outside) (r : RunRow) (rows : List RunRow) (s : Store)
      → (reap_runs now day prices outside (r ∷ rows) s).1
        ≡ (reap_runs now day prices outside rows
            (reap_run now day prices r (outside r.adw_id) s).1).1
  unfolding reap_runs
  reap_runs-step outside r rows s =
      let (calls, h) = reap_run-ok r (outside r.adw_id) s in
      rw
        (bind-state (reap_run now day prices r (outside r.adw_id))
          (λ calls. reap_runs now day prices outside rows >>= λ rest. pure (calls ++ rest)) s h)
        (pure-state (reap_runs now day prices outside rows) (λ rest. calls ++ rest)
          (reap_run now day prices r (outside r.adw_id) s).1)

  reap_runs-ok :
      (outside : String → Outside) (rows : List RunRow) (s : Store)
      → (calls : List Call) × ((reap_runs now day prices outside rows s).0 ≡ ok calls)
  unfolding reap_runs
  reap_runs-ok outside [] s = ([], refl)
  reap_runs-ok outside (r ∷ rows) s =
      let (calls, h) = reap_run-ok r (outside r.adw_id) s in
      let (more, k) =
        reap_runs-ok outside rows (reap_run now day prices r (outside r.adw_id) s).1 in
      (
        calls ++ more,
        rw
            (
              bind-state (reap_run now day prices r (outside r.adw_id))
                  (λ calls. reap_runs now day prices outside rows >>= λ rest. pure (calls ++ rest))
                  s h,
              k,
            )
            refl,
      )

  -- The status after the rows of a list are reaped, by the row of the run among them.
  abbrev landed : Outside → Option RunRow → Option RunStatus → Option RunStatus
  landed o none old = old
  landed o (some r) old = after (λ x. x) (ended now day prices r o) old

  landed-cons :
      (outside : String → Outside) (r : RunRow) (rows : List RunRow) (adw_id : String)
      (old : Option RunStatus)
      → any_row (is_run r.adw_id) rows ≡ false
      → landed (outside adw_id) (find_row (is_run adw_id) rows) (
          if r.adw_id == adw_id
          then after (λ x. x) (ended now day prices r (outside r.adw_id)) old
          else old)
        ≡ landed (outside adw_id) (find_row (is_run adw_id) (r ∷ rows)) old
  unfolding find_row
  landed-cons outside r rows adw_id old u = elim (Bool-cases (r.adw_id == adw_id)) [
    | inl e ↦
        let same : adw_id ≡ r.adw_id = sym ((eq_iff r.adw_id adw_id).0 e) in
        rw (e, same, find-none_of_any (is_run r.adw_id) rows u) refl
    | inr e ↦ rw e refl
  ]

  status-reap_runs :
      (outside : String → Outside) (rows : List RunRow) (s : Store) (adw_id : String)
      → Unique same_run rows
      → run_status adw_id (reap_runs now day prices outside rows s).1
        ≡ landed (outside adw_id) (find_row (is_run adw_id) rows) (run_status adw_id s)
  unfolding reap_runs find_row
  status-reap_runs outside [] s adw_id u = refl
  status-reap_runs outside (r ∷ rows) s adw_id u =
      let t : Store = (reap_run now day prices r (outside r.adw_id) s).1 in
      ap (run_status adw_id) (reap_runs-step outside r rows s)
      ∙ status-reap_runs outside rows t adw_id u.1
      ∙ ap (landed (outside adw_id) (find_row (is_run adw_id) rows))
          (status-reap_run r (outside r.adw_id) s adw_id)
      ∙ landed-cons outside r rows adw_id (run_status adw_id s) u.0

  -- The status of a run after a reaping, by its row before it.
  abbrev pub reaped_status : Outside → Option RunRow → Option RunStatus
  reaped_status o none = none
  reaped_status o (some r) =
      if is_active r.status
      then after (λ x. x) (ended now day prices r o) (some r.status)
      else some r.status

  reaped-landed :
      (adw_id : String) (o : Outside) (s : Store)
      → Unique same_run s.runs
      → landed o
          (find_row (is_run adw_id) (select_rows (λ r. is_active r.status) s.runs))
          (run_status adw_id s)
        ≡ reaped_status o (find_row (is_run adw_id) s.runs)
  reaped-landed adw_id o s u = elim (Option-cases (find_row (is_run adw_id) s.runs)) [
    | inl e ↦ rw (find-select adw_id (λ (r : RunRow). is_active r.status) s.runs u, e) refl
    | inr (r, e) ↦
        rw (find-select adw_id (λ (r : RunRow). is_active r.status) s.runs u, e)
          (elim (Bool-cases (is_active r.status)) [ inl a ↦ rw a refl | inr a ↦ rw a refl ])
  ]

-- Reaping never raises. In a store with unique runs it gives each active run the status that
-- the run ended with: failed for one that hangs, the status inferred from its state files for one whose
-- process is gone. An active run that goes on, or that has no process id, keeps its status, and so
-- does every run that is not active.
pub reap_finished_runs-status :
    (now : ℕ) (day : String) (prices : Prices) (outside : String → Outside) (s : Store)
    (adw_id : String)
    → Unique same_run s.runs
    → ((calls : List Call) × ((reap_finished_runs now day prices outside s).0 ≡ ok calls))
      × (run_status adw_id (reap_finished_runs now day prices outside s).1
          ≡ reaped_status now day prices (outside adw_id) (find_row (is_run adw_id) s.runs))
unfolding reap_finished_runs list_active_runs
reap_finished_runs-status now day prices outside s adw_id u = (
  reap_runs-ok now day prices outside (select_rows (λ r. is_active r.status) s.runs) s,
  status-reap_runs now day prices outside (select_rows (λ r. is_active r.status) s.runs) s adw_id
        (Unique-select (λ r. is_active r.status) s.runs u)
      ∙ reaped-landed now day prices adw_id (outside adw_id) s u,
)

-- A run that was never given a process id is active, and counts against the caps, for ever: no
-- reaping changes its status.
pub reap_finished_runs-no_pid :
    (now : ℕ) (day : String) (prices : Prices) (outside : String → Outside) (s : Store)
    (adw_id : String) (r : RunRow)
    → Unique same_run s.runs
    → find_row (is_run adw_id) s.runs ≡ some r
    → r.pid ≡ none
    → run_status adw_id (reap_finished_runs now day prices outside s).1 ≡ some r.status
reap_finished_runs-no_pid now day prices outside s adw_id r u h k =
    (reap_finished_runs-status now day prices outside s adw_id u).1 ∙ rw (h, k) (ground arith)
