-- ===== src/Workflows/State/Reload.antt =====
-- A state that is saved and read again.
use tac_master.Shared.{
  ℕ, String, true, ◌≡◌, refl, ap, sym, ◌∙◌, Option, none, some, List, [], ◌∷◌, ◌==◌, string_eq,
  any_row, arith, ok, Option-cases, Bool-cases, inl, inr, subst, str_eq_self,
}
use tac_master.Workflows.State.{
  Value, null, text, texts, number, Data, StateData, AdwState, Files, object, field, validate,
  model_dump, save, load, as_text, as_optional, as_issue_class, as_model_set, opt_text, opt_number,
  get_key, set_key, get, truthy_value, one_of, new_state, flag, fraction,
}
use tac_master.Workflows.State.Parts.{Parts-assemble, assemble-Parts}

optional-text : (o : Option String) → as_optional as_text (opt_text o) ≡ some o
optional-text none = refl
optional-text (some s) = refl

optional-number :
    (as_int : Value → Option ℕ)
    → ((n : ℕ) → as_int (number n) ≡ some n)
    → (o : Option ℕ) → as_optional as_int (opt_number o) ≡ some o
optional-number as_int reads none = refl
optional-number as_int reads (some n) = rw (reads n)

one_of-again :
    (allowed : List String) (t s : String) → one_of allowed t ≡ some s → one_of allowed s ≡ some s
one_of-again allowed t s h = elim (Bool-cases (any_row (λ a. a == t) allowed)) [
  | inl e ↦ subst (λ r. one_of allowed r ≡ some r) {x = t} (ground (arith, e, h)) (rw e)
  | inr e ↦ absurd (ground (arith, e, h))
]

inner :
    (o : Option String) (s : String)
    → elim o [ none ↦ none | some a ↦ some (some a) ] ≡ some (some s)
    → o ≡ some s
inner none s h = absurd (ground (arith, h))
inner (some a) s h = ground (arith, h)

issue_class-text :
    (value : Value) (s : String) → as_issue_class value ≡ some s → as_issue_class (text s) ≡ some s
unfolding as_issue_class
issue_class-text (text t) s h = one_of-again ("/chore" ∷ "/bug" ∷ "/feature" ∷ "/patch" ∷ []) t s h
issue_class-text null s h = absurd (ground (arith, h))
issue_class-text (flag b) s h = absurd (ground (arith, h))
issue_class-text (number n) s h = absurd (ground (arith, h))
issue_class-text (texts ts) s h = absurd (ground (arith, h))
issue_class-text (fraction n) s h = absurd (ground (arith, h))

model_set-text :
    (value : Value) (s : String) → as_model_set value ≡ some s → as_model_set (text s) ≡ some s
unfolding as_model_set
model_set-text (text t) s h = one_of-again ("base" ∷ "heavy" ∷ []) t s h
model_set-text null s h = absurd (ground (arith, h))
model_set-text (flag b) s h = absurd (ground (arith, h))
model_set-text (number n) s h = absurd (ground (arith, h))
model_set-text (texts ts) s h = absurd (ground (arith, h))
model_set-text (fraction n) s h = absurd (ground (arith, h))

module _ (read : Value → Option String)
    (stays : (value : Value) (s : String) → read value ≡ some s → read (text s) ≡ some s) where
  optional-again :
      (value : Value) (o : Option String)
      → as_optional read value ≡ some o
      → as_optional read (opt_text o) ≡ some o
  optional-again value none h = refl
  optional-again null (some s) h = absurd (ground (arith, h))
  optional-again (text t) (some s) h = rw (stays (text t) s (inner (read (text t)) s h))
  optional-again (flag b) (some s) h = rw (stays (flag b) s (inner (read (flag b)) s h))
  optional-again (number n) (some s) h = rw (stays (number n) s (inner (read (number n)) s h))
  optional-again (texts ts) (some s) h = rw (stays (texts ts) s (inner (read (texts ts)) s h))
  optional-again (fraction n) (some s) h = rw (stays (fraction n) s (inner (read (fraction n)) s h))

module _ {ℓ} {A : Type ℓ} (key : String) (value : A) where
  pub get_key-set_key :
      (entries : List (String × A)) → get_key key (set_key key value entries) ≡ some value
  unfolding get_key set_key
  get_key-set_key [] = rw (str_eq_self key)
  get_key-set_key ((k, v) ∷ rest) = ground (arith, str_eq_self key, get_key-set_key rest)

  pub set_key-again :
      (entries : List (String × A))
      → set_key key value (set_key key value entries) ≡ set_key key value entries
  unfolding set_key
  set_key-again [] = rw (str_eq_self key)
  set_key-again ((k, v) ∷ rest) = ground (arith, str_eq_self key, set_key-again rest)

module _ (as_int : Value → Option ℕ) (reads : (n : ℕ) → as_int (number n) ≡ some n) where
  -- What was validated once is read again as it is.
  pub validate-model_dump :
      (values : Data) (v : StateData)
      → validate as_int values ≡ some v
      → validate as_int (model_dump v) ≡ some v
  unfolding validate model_dump field get_key
  validate-model_dump values v done =
      let p = assemble-Parts _ _ _ _ _ _ _ _ _ _ v done in
      Parts-assemble _ _ _ _ _ _ _ _ _ _ v (record {
        adw_id_read = refl;
        issue_number_read = optional-text v.issue_number;
        branch_name_read = optional-text v.branch_name;
        plan_file_read = optional-text v.plan_file;
        issue_class_read =
            optional-again as_issue_class issue_class-text (field "issue_class" null values)
              v.issue_class p.issue_class_read;
        worktree_path_read = optional-text v.worktree_path;
        backend_port_read = optional-number as_int reads v.backend_port;
        frontend_port_read = optional-number as_int reads v.frontend_port;
        model_set_read =
            optional-again as_model_set model_set-text (field "model_set" (text "base") values)
              v.model_set p.model_set_read;
        all_adws_read = refl;
      })

  validate-adw_id :
      (values : Data) (v : StateData)
      → validate as_int values ≡ some v
      → as_text (field "adw_id" null values) ≡ some v.adw_id
  unfolding validate
  validate-adw_id values v done = let p = assemble-Parts _ _ _ _ _ _ _ _ _ _ v done in p.adw_id_read

  pub reload :
      (id : String) (files : Files) (v : StateData)
      → validate as_int (model_dump v) ≡ some v
      → truthy_value (text v.adw_id) ≡ true
      → load as_int id (set_key id (object (model_dump v)) files)
        ≡ some (record { adw_id = text v.adw_id; values = model_dump v })
  unfolding load new_state
  reload id files v valid truthy =
      rw (load, get_key-set_key id (object (model_dump v)) files, valid, truthy)

  resave :
      (id : String) (files : Files) (v : StateData)
      → validate as_int (model_dump v) ≡ some v
      → save as_int
          (record { adw_id = text id; values = model_dump v })
          (set_key id (object (model_dump v)) files)
        ≡ ok (set_key id (object (model_dump v)) files)
  unfolding save
  resave id files v valid = rw (save, valid, set_key-again id (object (model_dump v)) files)

-- A save that succeeds wrote what was validated.
save-ok :
    (as_int : Value → Option ℕ) (s : AdwState) (id : String) (files after : Files)
    → s.adw_id ≡ text id
    → save as_int s files ≡ ok after
    → (v : StateData) × (validate as_int s.values ≡ some v)
      × (set_key id (object (model_dump v)) files ≡ after)
unfolding save
save-ok as_int s id files after named done = elim (Option-cases (validate as_int s.values)) [
  | inl e ↦ absurd (ground (arith, named, e, done))
  | inr (v, e) ↦ (v, e, ground (arith, named, e, done))
]

-- After a state is saved under its own id, loading that id gives a state that is valid with the same
-- ten fields, and saving this one leaves the files as they are; given that a natural number is read
-- as the int that it is.
pub load-save :
    (as_int : Value → Option ℕ) (s : AdwState) (id : String) (files after : Files)
    → ((n : ℕ) → as_int (number n) ≡ some n)
    → s.adw_id ≡ text id
    → get "adw_id" null s ≡ text id
    → truthy_value (text id) ≡ true
    → save as_int s files ≡ ok after
    → (loaded : AdwState) × (load as_int id after ≡ some loaded)
      × (loaded.adw_id ≡ s.adw_id)
      × (validate as_int loaded.values ≡ validate as_int s.values)
      × (save as_int loaded after ≡ ok after)
unfolding get validate
load-save as_int s id files after reads named own truthy done =
    let (v, valid, written) = save-ok as_int s id files after named done in
    let again = validate-model_dump as_int reads s.values v valid in
    let same : v.adw_id ≡ id = ground (arith, validate-adw_id as_int reads s.values v valid, own) in
    (
      record { adw_id = text v.adw_id; values = model_dump v },
      subst
          (λ a. load as_int id a ≡ some (record { adw_id = text v.adw_id; values = model_dump v }))
          written
          (reload as_int reads id files v again
            (subst (λ t. truthy_value (text t) ≡ true) (sym same) truthy)),
      ap text same ∙ sym named,
      again ∙ sym valid,
      subst (λ t. save as_int (record { adw_id = text t; values = model_dump v }) after ≡ ok after)
          (sym same)
          (subst (λ a. save as_int (record { adw_id = text id; values = model_dump v }) a ≡ ok a)
            written (resave as_int reads id files v again)),
    )
