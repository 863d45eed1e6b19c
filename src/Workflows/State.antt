-- ===== src/Workflows/State.antt =====
-- ADWState (adws/adw_modules/state.py), the state that the workflow scripts share, with the model
-- ADWStateData of its file (adws/adw_modules/data_types.py). Reading an int of a JSON value is
-- pydantic's and is a parameter.
pub mod Parts
pub mod Reload
pub mod Pipes
use tac_master.Shared.{
  ℕ, String, Bool, true, false, not, ◌||◌, Option, none, some, List, [], ◌∷◌, ◌++◌, if◌then◌else◌,
  ◌==◌, string_eq, nat_eq, any_row, codes, Result, ok, err, external_error, value_error,
}
use tac_master.Tokens.{occurs}

-- A JSON value: the numbers that are not natural by their text, lists only of strings, no objects.
pub data Value : Type 0 where
  null : Value
  flag : Bool → Value
  number : ℕ → Value
  text : String → Value
  texts : List String → Value
  fraction : String → Value

-- A dict with strings for keys, in the order of their insertion.
unfoldable pub get_key {ℓ} : {A : Type ℓ} → String → List (String × A) → Option A
get_key key [] = none
get_key key ((k, v) ∷ rest) = if k == key then some v else get_key key rest

unfoldable pub set_key {ℓ} : {A : Type ℓ} → String → A → List (String × A) → List (String × A)
set_key key value [] = (key, value) ∷ []
set_key key value ((k, v) ∷ rest) =
    if k == key then (key, value) ∷ rest else (k, v) ∷ set_key key value rest

abbrev pub Data : Type 0
Data = List (String × Value)

-- `bool(value)`
abbrev pub truthy_value : Value → Bool
truthy_value null = false
truthy_value (flag b) = b
truthy_value (number n) = not (n == 0)
truthy_value (text s) = not (s == "")
truthy_value (texts []) = false
truthy_value (texts (_ ∷ _)) = true
truthy_value (fraction n) = true

abbrev pub or_value : Value → Option Value → Value
or_value default none = default
or_value default (some v) = v

-- `values.get(key, default)`
unfoldable pub field : String → Value → Data → Value
unfolding get_key
field key default values = or_value default (get_key key values)

pub record AdwState : Type 0 where
  pub adw_id : Value
  pub values : Data

-- `ADWState(adw_id)`
unfoldable pub new_state : Value → Result AdwState
new_state adw_id =
    if truthy_value adw_id
    then ok (record { adw_id = adw_id; values = ("adw_id", adw_id) ∷ [] })
    else err external_error

abbrev pub core_fields : List String
core_fields =
    "adw_id" ∷ "issue_number" ∷ "branch_name" ∷ "plan_file" ∷ "issue_class" ∷ "worktree_path"
    ∷ "backend_port" ∷ "frontend_port" ∷ "model_set" ∷ "all_adws" ∷ []

-- `update(**kwargs)`
unfoldable pub update : Data → AdwState → AdwState
unfolding set_key any_row
update [] s = s
update ((key, value) ∷ rest) s = update rest (
    if any_row (λ f. f == key) core_fields
    then record s { values = set_key key value s.values }
    else s)

unfoldable pub get : String → Value → AdwState → Value
unfolding field
get key default s = field key default s.values

-- `append_adw_id`: `in` looks through a list or a string, and only a list has `append`.
unfoldable pub append_adw_id : String → AdwState → Result AdwState
unfolding get set_key any_row
append_adw_id adw_id s = elim (get "all_adws" (texts []) s) [
  | texts all_adws ↦
      if any_row (λ a. a == adw_id) all_adws
      then ok s
      else ok (record s { values = set_key "all_adws" (texts (all_adws ++ adw_id ∷ [])) s.values })
  | null ↦ err external_error
  | flag b ↦ err external_error
  | number n ↦ err external_error
  | text t ↦ if occurs (codes adw_id) (codes t) then ok s else err external_error
  | fraction n ↦ err external_error
]

-- `get_working_directory`, with the repository's directory.
unfoldable pub get_working_directory : Value → AdwState → Value
unfolding get
get_working_directory main_repo s =
    let worktree_path = get "worktree_path" null s in
    if truthy_value worktree_path then worktree_path else main_repo

pub record StateData : Type 0 where
  pub adw_id : String
  pub issue_number : Option String
  pub branch_name : Option String
  pub plan_file : Option String
  pub issue_class : Option String
  pub worktree_path : Option String
  pub backend_port : Option ℕ
  pub frontend_port : Option ℕ
  pub model_set : Option String
  pub all_adws : List String

infixl 5 ◌>>=◌
abbrev pub ◌>>=◌ {ℓ ℓ'} : {A : Type ℓ} {B : Type ℓ'} → Option A → (A → Option B) → Option B
◌>>=◌ none f = none
◌>>=◌ (some a) f = f a

-- The fields of a model: none where the value is refused.
abbrev as_text : Value → Option String
as_text (text s) = some s
as_text null = none
as_text (flag b) = none
as_text (number n) = none
as_text (texts ts) = none
as_text (fraction n) = none

abbrev as_optional {ℓ} : {A : Type ℓ} → (Value → Option A) → Value → Option (Option A)
as_optional read null = some none
as_optional read (text s) = elim (read (text s)) [ none ↦ none | some a ↦ some (some a) ]
as_optional read (flag b) = elim (read (flag b)) [ none ↦ none | some a ↦ some (some a) ]
as_optional read (number n) = elim (read (number n)) [ none ↦ none | some a ↦ some (some a) ]
as_optional read (texts ts) = elim (read (texts ts)) [ none ↦ none | some a ↦ some (some a) ]
as_optional read (fraction n) = elim (read (fraction n)) [ none ↦ none | some a ↦ some (some a) ]

abbrev one_of : List String → String → Option String
one_of allowed s = if any_row (λ a. a == s) allowed then some s else none

-- `IssueClassSlashCommand`
unfoldable pub as_issue_class : Value → Option String
unfolding any_row
as_issue_class value = as_text value >>= one_of ("/chore" ∷ "/bug" ∷ "/feature" ∷ "/patch" ∷ [])

-- `ModelSet`
unfoldable pub as_model_set : Value → Option String
unfolding any_row
as_model_set value = as_text value >>= one_of ("base" ∷ "heavy" ∷ [])

abbrev as_texts : Value → Option (List String)
as_texts (texts ts) = some ts
as_texts null = none
as_texts (flag b) = none
as_texts (number n) = none
as_texts (text s) = none
as_texts (fraction n) = none

abbrev opt_text : Option String → Value
opt_text none = null
opt_text (some s) = text s

abbrev opt_number : Option ℕ → Value
opt_number none = null
opt_number (some n) = number n

-- `model_dump()`
unfoldable pub model_dump : StateData → Data
model_dump v =
    ("adw_id", text v.adw_id)
    ∷ ("issue_number", opt_text v.issue_number)
    ∷ ("branch_name", opt_text v.branch_name)
    ∷ ("plan_file", opt_text v.plan_file)
    ∷ ("issue_class", opt_text v.issue_class)
    ∷ ("worktree_path", opt_text v.worktree_path)
    ∷ ("backend_port", opt_number v.backend_port)
    ∷ ("frontend_port", opt_number v.frontend_port)
    ∷ ("model_set", opt_text v.model_set)
    ∷ ("all_adws", texts v.all_adws)
    ∷ []

-- A state file: JSON that is an object, or anything else.
pub data Content : Type 0 where
  unreadable : Content
  object : Data → Content

-- The state files, by the id in their path.
abbrev pub Files : Type 0
Files = List (String × Content)

-- What standard input gives to `from_stdin`.
pub data Stdin : Type 0 where
  terminal : Stdin
  blank : Stdin
  malformed : Stdin
  not_object : Stdin
  piped : Data → Stdin

-- `from_stdin`: a value that is no object has no `get`.
unfoldable pub from_stdin : Stdin → Result (Option AdwState)
unfolding field
from_stdin terminal = ok none
from_stdin blank = ok none
from_stdin malformed = ok none
from_stdin not_object = err external_error
from_stdin (piped values) =
    let adw_id = field "adw_id" null values in
    if truthy_value adw_id then ok (some (record { adw_id = adw_id; values = values })) else ok none

-- `to_stdout`: the object that it prints.
unfoldable pub to_stdout : AdwState → Data
unfolding get
to_stdout s =
    ("adw_id", get "adw_id" null s)
    ∷ ("issue_number", get "issue_number" null s)
    ∷ ("branch_name", get "branch_name" null s)
    ∷ ("plan_file", get "plan_file" null s)
    ∷ ("issue_class", get "issue_class" null s)
    ∷ ("worktree_path", get "worktree_path" null s)
    ∷ ("backend_port", get "backend_port" null s)
    ∷ ("frontend_port", get "frontend_port" null s)
    ∷ ("all_adws", get "all_adws" (texts []) s)
    ∷ []

-- The model of ten fields that are read, none where one of them is refused.
unfoldable pub assemble :
    (adw_id : Option String)
    (issue_number branch_name plan_file issue_class worktree_path : Option (Option String))
    (backend_port frontend_port : Option (Option ℕ)) (model_set : Option (Option String))
    (all_adws : Option (List String))
    → Option StateData
assemble adw_id_read issue_number_read branch_name_read plan_file_read issue_class_read
      worktree_path_read backend_port_read frontend_port_read model_set_read all_adws_read =
    do
      adw_id ← adw_id_read
      issue_number ← issue_number_read
      branch_name ← branch_name_read
      plan_file ← plan_file_read
      issue_class ← issue_class_read
      worktree_path ← worktree_path_read
      backend_port ← backend_port_read
      frontend_port ← frontend_port_read
      model_set ← model_set_read
      all_adws ← all_adws_read
      some (record {
        adw_id = adw_id;
        issue_number = issue_number;
        branch_name = branch_name;
        plan_file = plan_file;
        issue_class = issue_class;
        worktree_path = worktree_path;
        backend_port = backend_port;
        frontend_port = frontend_port;
        model_set = model_set;
        all_adws = all_adws;
      })

-- `as_int`: the int that pydantic reads, none where it refuses the value.
module _ (as_int : Value → Option ℕ) where
  -- `ADWStateData(...)`: a field that is not given has its default.
  unfoldable pub validate : Data → Option StateData
  unfolding field any_row
  validate values =
      assemble (as_text (field "adw_id" null values))
        (as_optional as_text (field "issue_number" null values))
        (as_optional as_text (field "branch_name" null values))
        (as_optional as_text (field "plan_file" null values))
        (as_optional as_issue_class (field "issue_class" null values))
        (as_optional as_text (field "worktree_path" null values))
        (as_optional as_int (field "backend_port" null values))
        (as_optional as_int (field "frontend_port" null values))
        (as_optional as_model_set (field "model_set" (text "base") values))
        (as_texts (field "all_adws" (texts []) values))

  -- `save`: the path needs a string, and a value that is refused raises before the file is opened.
  unfoldable pub save : AdwState → Files → Result Files
  save s files = elim s.adw_id [
    | text id ↦ elim (validate s.values) [
      | none ↦ err value_error
      | some v ↦ ok (set_key id (object (model_dump v)) files)
    ]
    | null ↦ err external_error
    | flag b ↦ err external_error
    | number n ↦ err external_error
    | texts ts ↦ err external_error
    | fraction n ↦ err external_error
  ]

  -- `load`
  unfoldable pub load : String → Files → Option AdwState
  load adw_id files = elim (get_key adw_id files) [
    | none ↦ none
    | some unreadable ↦ none
    | some (object values) ↦ elim (validate values) [
      | none ↦ none
      | some v ↦ elim (new_state (text v.adw_id)) [
        | err e ↦ none
        | ok s ↦ some (record s { values = model_dump v })
      ]
    ]
  ]
