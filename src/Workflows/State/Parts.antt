-- ===== src/Workflows/State/Parts.antt =====
-- The ten fields of a state that was validated.
use tac_master.Shared.{ℕ, String, ◌≡◌, ap, Option, none, some, List, string_eq, arith}
use tac_master.Workflows.State.{StateData, assemble}

module _ (adw_id : Option String)
    (issue_number branch_name plan_file issue_class worktree_path : Option (Option String))
    (backend_port frontend_port : Option (Option ℕ)) (model_set : Option (Option String))
    (all_adws : Option (List String)) where
  -- Each field is read, as the field of `v`.
  pub record Parts (v : StateData) : Type 0 where
    pub adw_id_read : adw_id ≡ some v.adw_id
    pub issue_number_read : issue_number ≡ some v.issue_number
    pub branch_name_read : branch_name ≡ some v.branch_name
    pub plan_file_read : plan_file ≡ some v.plan_file
    pub issue_class_read : issue_class ≡ some v.issue_class
    pub worktree_path_read : worktree_path ≡ some v.worktree_path
    pub backend_port_read : backend_port ≡ some v.backend_port
    pub frontend_port_read : frontend_port ≡ some v.frontend_port
    pub model_set_read : model_set ≡ some v.model_set
    pub all_adws_read : all_adws ≡ some v.all_adws

  pub Parts-assemble :
      (v : StateData)
      → Parts v
      → assemble adw_id issue_number branch_name plan_file issue_class worktree_path backend_port
          frontend_port model_set all_adws
        ≡ some v
  unfolding assemble
  Parts-assemble v p = rw (
    p.adw_id_read, p.issue_number_read, p.branch_name_read, p.plan_file_read, p.issue_class_read,
    p.worktree_path_read, p.backend_port_read, p.frontend_port_read, p.model_set_read,
    p.all_adws_read,
  )

pub assemble-Parts :
    (a : Option String) (b c d e f : Option (Option String)) (g h : Option (Option ℕ))
    (i : Option (Option String)) (j : Option (List String)) (v : StateData)
    → assemble a b c d e f g h i j ≡ some v
    → Parts a b c d e f g h i j v
unfolding assemble
assemble-Parts none b c d e f g h i j v done = absurd (ground (arith, done))
assemble-Parts (some a) none c d e f g h i j v done = absurd (ground (arith, done))
assemble-Parts (some a) (some b) none d e f g h i j v done = absurd (ground (arith, done))
assemble-Parts (some a) (some b) (some c) none e f g h i j v done = absurd (ground (arith, done))
assemble-Parts (some a) (some b) (some c) (some d) none f g h i j v done =
    absurd (ground (arith, done))
assemble-Parts (some a) (some b) (some c) (some d) (some e) none g h i j v done =
    absurd (ground (arith, done))
assemble-Parts (some a) (some b) (some c) (some d) (some e) (some f) none h i j v done =
    absurd (ground (arith, done))
assemble-Parts (some a) (some b) (some c) (some d) (some e) (some f) (some g) none i j v done =
    absurd (ground (arith, done))
assemble-Parts (some a) (some b) (some c) (some d) (some e) (some f) (some g) (some h) none j v
      done =
    absurd (ground (arith, done))
assemble-Parts (some a) (some b) (some c) (some d) (some e) (some f) (some g) (some h) (some i) none
      v done =
    absurd (ground (arith, done))
assemble-Parts (some a) (some b) (some c) (some d) (some e) (some f) (some g) (some h) (some i)
      (some j) v done =
    record {
      adw_id_read = ap (λ w. some w.adw_id) same;
      issue_number_read = ap (λ w. some w.issue_number) same;
      branch_name_read = ap (λ w. some w.branch_name) same;
      plan_file_read = ap (λ w. some w.plan_file) same;
      issue_class_read = ap (λ w. some w.issue_class) same;
      worktree_path_read = ap (λ w. some w.worktree_path) same;
      backend_port_read = ap (λ w. some w.backend_port) same;
      frontend_port_read = ap (λ w. some w.frontend_port) same;
      model_set_read = ap (λ w. some w.model_set) same;
      all_adws_read = ap (λ w. some w.all_adws) same;
    }
  where
    same :
        (record {
          adw_id = a;
          issue_number = b;
          branch_name = c;
          plan_file = d;
          issue_class = e;
          worktree_path = f;
          backend_port = g;
          frontend_port = h;
          model_set = i;
          all_adws = j;
        })
        ≡ v
    same = ground (arith, done)
