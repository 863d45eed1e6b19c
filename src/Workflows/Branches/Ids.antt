-- ===== src/Workflows/Branches/Ids.antt =====
-- The state that an id stands for.
use tac_master.Shared.{
  ℕ, String, false, not, ◌≡◌, refl, ap, Option, none, some, [], ◌∷◌, inl, inr, Bool-cases,
  Option-cases, if◌then◌else◌, ◌==◌, string_eq, ok, any_row,
}
use tac_master.Workflows.State.{
  Value, number, text, AdwState, StateData, Files, Data, object, get_key, set_key, field, update,
  new_state, validate, model_dump, save, load, as_model_set, as_issue_class, assemble,
}
use tac_master.Workflows.State.Reload.{validate-model_dump, reload}
use tac_master.Workflows.Branches.{new_adw, ensure_adw_id}

-- The id that is asked for, or the fresh one.
abbrev pub wanted : Option String → String → String
wanted none fresh = fresh
wanted (some id) fresh = if id == "" then fresh else id

module _ (as_int : Value → Option ℕ) (reads : (n : ℕ) → as_int (number n) ≡ some n)
    (issue_number : String) (files : Files) where
  abbrev first : String → StateData
  first id = record {
    adw_id = id;
    issue_number = some issue_number;
    branch_name = none;
    plan_file = none;
    issue_class = none;
    worktree_path = none;
    backend_port = none;
    frontend_port = none;
    model_set = some "base";
    all_adws = [];
  }

  abbrev first_values : String → Data
  first_values id = ("adw_id", text id) ∷ ("issue_number", text issue_number) ∷ []

  first-valid : (id : String) → validate as_int (first_values id) ≡ some (first id)
  unfolding validate field get_key as_issue_class as_model_set assemble any_row
  first-valid id = refl

  new_adw-ok :
      (id : String)
      → (id == "") ≡ false
      → new_adw as_int issue_number id files
        ≡ ok (id, set_key id (object (model_dump (first id))) files)
  unfolding new_adw new_state update set_key any_row save
  new_adw-ok id filled = rw (new_adw, filled, save, first-valid id) refl

  new_adw-loads :
      (id : String)
      → (id == "") ≡ false
      → (after : Files) × (s : AdwState) × (new_adw as_int issue_number id files ≡ ok (id, after))
        × (load as_int id after ≡ some s)
  new_adw-loads id filled =
      let v = first id in
      (
        set_key id (object (model_dump v)) files,
        record { adw_id = text id; values = model_dump v },
        new_adw-ok id filled,
        reload as_int reads id files v
            (validate-model_dump as_int reads (first_values id) v (first-valid id)) (ap not filled),
      )

-- An id is always returned, the one that is asked for where that is not empty, and a state can be
-- loaded for it; given that a natural number is read as the int that it is and that the id drawn is
-- not empty.
pub ensure_adw_id-loads :
    (as_int : Value → Option ℕ) (issue_number : String) (given : Option String) (fresh : String)
    (files : Files)
    → ((n : ℕ) → as_int (number n) ≡ some n)
    → (fresh == "") ≡ false
    → (after : Files) × (s : AdwState) × (ensure_adw_id as_int issue_number given fresh files
        ≡ ok (wanted given fresh, after))
      × (load as_int (wanted given fresh) after ≡ some s)
unfolding ensure_adw_id
ensure_adw_id-loads as_int issue_number none fresh files reads filled =
    new_adw-loads as_int reads issue_number files fresh filled
ensure_adw_id-loads as_int issue_number (some id) fresh files reads filled =
    elim (Bool-cases (id == "")) [
      | inl e ↦ rw (ensure_adw_id, e) (new_adw-loads as_int reads issue_number files fresh filled)
      | inr e ↦ elim (Option-cases (load as_int id files)) [
        | inl l ↦ rw (ensure_adw_id, e, l) (new_adw-loads as_int reads issue_number files id e)
        | inr (s, l) ↦ rw (ensure_adw_id, e, l) (files, s, refl, l)
      ]
    ]
