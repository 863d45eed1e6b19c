-- ===== src/Config/Validator.antt =====
-- The checks of the configuration files at startup (orchestrator/config_validator.py), on what
-- yaml.safe_load makes of them. A message is the problem that it names.
pub mod Usable
pub mod Fatal
use tac_master.Shared.{
  ℕ, suc, String, Bool, true, false, not, ◌&&◌, Option, none, some, List, [], ◌∷◌, ◌++◌,
  if◌then◌else◌, ◌==◌, string_eq, nat_eq, Text, text_eq, codes, any_row, Result, ok, err,
  external_error,
}
use tac_master.Tokens.{occurs}

-- A value, with natural numbers; a list or a mapping by its elements or its keys as texts.
pub data Leaf : Type 0 where
  null : Leaf
  flag : Bool → Leaf
  number : ℕ → Leaf
  text : Text → Leaf
  collection : List Text → Leaf

abbrev pub Entry : Type 0
Entry = List (String × Leaf)

-- An element of a list in a file: anything but a mapping, or one.
pub data Item : Type 0 where
  scalar : Leaf → Item
  mapping : Entry → Item

-- The value of a key of a file: a scalar, a list, or a mapping.
pub data Node : Type 0 where
  leaf : Leaf → Node
  items : List Item → Node
  section : Entry → Node

-- A file: one that cannot be read, a value that is no mapping, or a mapping.
pub data Document : Type 0 where
  unreadable : Document
  other : Leaf → Document
  document : List (String × Node) → Document

pub data Problem : Type 0 where
  cannot_parse is_empty not_a_list no_entries missing_global missing_max_tokens : Problem
  missing_field wrong_type : String → Problem
  not_a_mapping missing_url placeholder unknown_workflow : ℕ → Problem

pub data Warning : Type 0 where
  fatal : Problem → Warning
  warning : Problem → Warning

unfoldable pub value_of {ℓ} : {A : Type ℓ} → String → List (String × A) → Option A
value_of key [] = none
value_of key ((k, v) ∷ rest) = if k == key then some v else value_of key rest

abbrev pub is_true : Leaf → Bool
is_true null = false
is_true (flag b) = b
is_true (number n) = not (n == 0)
is_true (text s) = not (s == [])
is_true (collection []) = false
is_true (collection (_ ∷ _)) = true

abbrev pub or_empty : Option Leaf → Leaf
or_empty none = text []
or_empty (some v) = v

-- `PLACEHOLDER in url`, none where the value is not searched.
unfoldable pub has_placeholder : Leaf → Option Bool
unfolding occurs any_row
has_placeholder null = none
has_placeholder (flag b) = none
has_placeholder (number n) = none
has_placeholder (text s) = some (occurs (codes "OWNER") s)
has_placeholder (collection parts) = some (any_row (λ p. p == codes "OWNER") parts)

unfoldable pub placeholder_warning : ℕ → Leaf → Result (List Warning)
unfolding has_placeholder
placeholder_warning i url = elim (has_placeholder url) [
  | none ↦ err external_error
  | some b ↦ ok (if b then fatal (placeholder i) ∷ [] else [])
]

abbrev pub known_workflows : List Text
known_workflows =
    codes "patch"
    ∷ codes "plan_build"
    ∷ codes "plan_build_test"
    ∷ codes "plan_build_test_review"
    ∷ codes "sdlc"
    ∷ codes "sdlc_zte"
    ∷ []

-- A list or a mapping is not hashable.
unfoldable pub workflow_warning : ℕ → Leaf → Result (List Warning)
unfolding any_row
workflow_warning i null = ok []
workflow_warning i (flag b) = ok (if b then warning (unknown_workflow i) ∷ [] else [])
workflow_warning i (number n) = ok (if n == 0 then [] else warning (unknown_workflow i) ∷ [])
workflow_warning i (text s) = ok (
    if (s == [])
    then []
    else if any_row (λ w. w == s) known_workflows
    then []
    else warning (unknown_workflow i) ∷ [])
workflow_warning i (collection []) = ok []
workflow_warning i (collection (_ ∷ _)) = err external_error

abbrev pub append_all : Result (List Warning) → Result (List Warning) → Result (List Warning)
append_all (ok ws) (ok more) = ok (ws ++ more)
append_all (ok ws) (err e) = err e
append_all (err e) more = err e

-- The body of the loop over the repositories of repos.yaml.
unfoldable pub entry_warnings : ℕ → Entry → Result (List Warning)
unfolding placeholder_warning workflow_warning value_of
entry_warnings i entry =
    let url = or_empty (value_of "url" entry) in
    append_all (if is_true url then placeholder_warning i url else ok (fatal (missing_url i) ∷ []))
      (workflow_warning i (or_empty (value_of "default_workflow" entry)))

unfoldable pub repo_warnings : ℕ → List Item → Result (List Warning)
unfolding entry_warnings
repo_warnings i [] = ok []
repo_warnings i (scalar v ∷ rest) =
    append_all (ok (warning (not_a_mapping i) ∷ [])) (repo_warnings (suc i) rest)
repo_warnings i (mapping entry ∷ rest) =
    append_all (entry_warnings i entry) (repo_warnings (suc i) rest)

abbrev pub is_int : Node → Bool
is_int (leaf null) = false
is_int (leaf (flag b)) = true
is_int (leaf (number n)) = true
is_int (leaf (text s)) = false
is_int (leaf (collection parts)) = false
is_int (items xs) = false
is_int (section e) = false

abbrev pub list_of : Option Node → Option (List Item)
list_of none = none
list_of (some (leaf v)) = none
list_of (some (items xs)) = some xs
list_of (some (section e)) = none

-- The check of a required field: whether its value has the type.
abbrev pub field_warnings : String → (Node → Bool) → Option Node → List Warning
field_warnings name fits none = fatal (missing_field name) ∷ []
field_warnings name fits (some v) = if fits v then [] else warning (wrong_type name) ∷ []

abbrev pub is_items : Node → Bool
is_items (leaf v) = false
is_items (items xs) = true
is_items (section e) = false

-- `validate_repos_yaml`: a file that is no mapping, but true, has no `get`.
unfoldable pub validate_repos_yaml : Document → Result (List Warning)
unfolding value_of
validate_repos_yaml unreadable = ok (fatal cannot_parse ∷ [])
validate_repos_yaml (other v) = if is_true v then err external_error else ok (fatal is_empty ∷ [])
validate_repos_yaml (document []) = ok (fatal is_empty ∷ [])
validate_repos_yaml (document (first ∷ rest)) =
    let fields = first ∷ rest in
    let checked =
      field_warnings "version" is_int (value_of "version" fields)
      ++ field_warnings "repos" is_items (value_of "repos" fields) in
    elim (list_of (value_of "repos" fields)) [
      | none ↦ ok (checked ++ fatal not_a_list ∷ [])
      | some [] ↦ ok (checked ++ warning no_entries ∷ [])
      | some (item ∷ more) ↦ append_all (ok checked) (repo_warnings 0 (item ∷ more))
    ]

-- `"max_tokens_per_day" in ...`, none where the value is not searched.
abbrev holds_text : Text → List Item → Bool
holds_text wanted [] = false
holds_text wanted (scalar (text s) ∷ rest) = if s == wanted then true else holds_text wanted rest
holds_text wanted (scalar null ∷ rest) = holds_text wanted rest
holds_text wanted (scalar (flag b) ∷ rest) = holds_text wanted rest
holds_text wanted (scalar (number n) ∷ rest) = holds_text wanted rest
holds_text wanted (scalar (collection parts) ∷ rest) = holds_text wanted rest
holds_text wanted (mapping e ∷ rest) = holds_text wanted rest

unfoldable pub has_max_tokens : Node → Option Bool
unfolding occurs value_of any_row
has_max_tokens (leaf null) = none
has_max_tokens (leaf (flag b)) = none
has_max_tokens (leaf (number n)) = none
has_max_tokens (leaf (text s)) = some (occurs (codes "max_tokens_per_day") s)
has_max_tokens (leaf (collection parts)) =
    some (any_row (λ p. p == codes "max_tokens_per_day") parts)
has_max_tokens (items xs) = some (holds_text (codes "max_tokens_per_day") xs)
has_max_tokens (section e) = elim (value_of "max_tokens_per_day" e) [
  | none ↦ some false
  | some v ↦ some true
]

unfoldable pub global_warnings : Option Node → Result (List Warning)
unfolding has_max_tokens
global_warnings none = ok (fatal missing_global ∷ [])
global_warnings (some node) = elim (has_max_tokens node) [
  | none ↦ err external_error
  | some b ↦ ok (if b then [] else fatal missing_max_tokens ∷ [])
]

-- The loop over the repositories of budgets.yaml, which passes over what is no mapping.
unfoldable pub budget_warnings : ℕ → List Item → Result (List Warning)
unfolding placeholder_warning value_of
budget_warnings i [] = ok []
budget_warnings i (scalar v ∷ rest) = budget_warnings (suc i) rest
budget_warnings i (mapping entry ∷ rest) =
    append_all (placeholder_warning i (or_empty (value_of "url" entry)))
      (budget_warnings (suc i) rest)

-- `data.get("repos") or []`, as far as it is a loop: true and a number are not iterable, and the parts
-- of a string and the keys of a mapping are no mappings.
unfoldable pub repos_of : Option Node → Result (List Item)
repos_of none = ok []
repos_of (some (leaf null)) = ok []
repos_of (some (leaf (flag b))) = if b then err external_error else ok []
repos_of (some (leaf (number n))) = if n == 0 then ok [] else err external_error
repos_of (some (leaf (text s))) = ok []
repos_of (some (leaf (collection parts))) = ok []
repos_of (some (items xs)) = ok xs
repos_of (some (section e)) = ok []

-- `validate_budgets_yaml`
unfoldable pub validate_budgets_yaml : Document → Result (List Warning)
unfolding value_of
validate_budgets_yaml unreadable = ok (fatal cannot_parse ∷ [])
validate_budgets_yaml (other v) = if is_true v then err external_error else ok (fatal is_empty ∷ [])
validate_budgets_yaml (document []) = ok (fatal is_empty ∷ [])
validate_budgets_yaml (document (first ∷ rest)) =
    let fields = first ∷ rest in
    append_all (global_warnings (value_of "global" fields))
      (elim (repos_of (value_of "repos" fields)) [ err e ↦ err e | ok xs ↦ budget_warnings 0 xs ])

-- `validate_all`
unfoldable pub validate_all : Document → Document → Result (List Warning)
validate_all repos budgets = append_all (validate_repos_yaml repos) (validate_budgets_yaml budgets)

abbrev pub is_fatal : Warning → Bool
is_fatal (fatal p) = true
is_fatal (warning p) = false

-- `has_fatal`
unfoldable pub has_fatal : List Warning → Bool
unfolding any_row
has_fatal warnings = any_row is_fatal warnings
