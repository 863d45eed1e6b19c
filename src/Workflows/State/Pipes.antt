-- ===== src/Workflows/State/Pipes.antt =====
-- A state that one script prints and the next one reads.
use tac_master.Shared.{ℕ, true, ◌≡◌, refl, Option, some, ok}
use tac_master.Workflows.State.{
  Value, null, StateData, AdwState, get, validate, from_stdin, piped, to_stdout, truthy_value,
  field, get_key, as_model_set,
}
use tac_master.Workflows.State.Parts.{Parts-assemble, assemble-Parts}

next_state :
    (s : AdwState)
    → truthy_value (get "adw_id" null s) ≡ true
    → from_stdin (piped (to_stdout s))
      ≡ ok (some (record { adw_id = get "adw_id" null s; values = to_stdout s }))
unfolding from_stdin to_stdout field get_key
next_state s truthy = rw truthy

-- A valid state that is printed and piped to the next script is read there as a valid state, with
-- the model set lost: it is "base" again, whatever it was. The other nine fields arrive.
pub from_stdin-to_stdout :
    (as_int : Value → Option ℕ) (s : AdwState) (v : StateData)
    → validate as_int s.values ≡ some v
    → truthy_value (get "adw_id" null s) ≡ true
    → (next : AdwState) × (from_stdin (piped (to_stdout s)) ≡ ok (some next))
      × (validate as_int next.values ≡ some (record v { model_set = some "base" }))
unfolding validate to_stdout get field get_key as_model_set
from_stdin-to_stdout as_int s v valid truthy =
    let p = assemble-Parts _ _ _ _ _ _ _ _ _ _ v valid in
    (
      record { adw_id = get "adw_id" null s; values = to_stdout s },
      next_state s truthy,
      Parts-assemble _ _ _ _ _ _ _ _ _ _ (record v { model_set = some "base" })
          (record {
            adw_id_read = p.adw_id_read;
            issue_number_read = p.issue_number_read;
            branch_name_read = p.branch_name_read;
            plan_file_read = p.plan_file_read;
            issue_class_read = p.issue_class_read;
            worktree_path_read = p.worktree_path_read;
            backend_port_read = p.backend_port_read;
            frontend_port_read = p.frontend_port_read;
            model_set_read = refl;
            all_adws_read = p.all_adws_read;
          }),
    )
