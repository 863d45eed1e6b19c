-- ===== src/Workflows/Branches.antt =====
-- The branch and the id of a workflow (find_existing_branch_for_issue, create_or_find_branch and
-- ensure_adw_id of adws/adw_modules/workflow_ops.py, create_branch of adws/adw_modules/git_ops.py).
-- What git and the agents answer is given.
pub mod Outcome
pub mod Ids
use tac_master.Shared.{
  ℕ, zero, suc, ◌-◌, String, Bool, true, false, not, ◌&&◌, Option, none, some, List, [], ◌∷◌, ◌++◌,
  if◌then◌else◌, ◌==◌, string_eq, nat_eq, Text, codes, starts_with, length, Result, ok, err,
  external_error,
}
use Prim.Native.Char.{code}
use Prim.Native.String.{◌++◌ as concat}
use tac_master.Tokens.{occurs}
use tac_master.Workflows.Retry.{AgentPromptResponse}
use tac_master.Workflows.State.{
  Value, null, flag, number, text, texts, fraction, AdwState, Files, Data, get, get_key, update,
  truthy_value, new_state, save, load,
}
use tac_master.Workflows.Classify.{strip_str, classify_issue, generate_branch_name}

-- `s.replace(part, "")`: `skip` more characters belong to an occurrence.
unfoldable pub without_part : String → ℕ → String → String
unfolding starts_with
without_part part skip String.[] = ""
without_part part (suc skip) (String.◌∷◌ c s) = without_part part skip s
without_part part zero (String.◌∷◌ c s) = elim (starts_with (code c ∷ codes s) (codes part)) [
  | true ↦ without_part part (length (codes part) - 1) s
  | false ↦ String.◌∷◌ c (without_part part zero s)
]

abbrev onto_line : String → List String → List String
onto_line start [] = start ∷ []
onto_line start (line ∷ rest) = concat start line ∷ rest

-- `s.split("\n")`
unfoldable pub split_lines : String → List String
split_lines String.[] = "" ∷ []
split_lines (String.◌∷◌ c s) =
    let rest = split_lines s in if code c == 10 then "" ∷ rest else onto_line (String.◌∷◌ c "") rest

-- `f"-{name}-{value}-" in branch`
abbrev pub names : Text → String → String → Bool
names prefix value branch = occurs (prefix ++ codes value ++ codes "-") (codes branch)

-- The name of the branch in a line of `git branch -a`.
unfoldable pub branch_of : String → String
unfolding strip_str without_part
branch_of line = without_part "remotes/origin/" 0 (without_part "* " 0 (strip_str line))

-- The loop of `find_existing_branch_for_issue`, with an id where one is given.
unfoldable pub first_branch : String → Option String → List String → Option String
unfolding branch_of occurs
first_branch issue_number adw_id [] = none
first_branch issue_number adw_id (line ∷ lines) =
    let rest = first_branch issue_number adw_id lines in
    let branch = branch_of line in
    if names (codes "-issue-") issue_number branch
    then elim adw_id [
      | none ↦ some branch
      | some id ↦ if names (codes "-adw-") id branch then some branch else rest
    ]
    else rest

-- `find_existing_branch_for_issue`, on the output of `git branch -a`, none where git fails.
unfoldable pub find_existing_branch_for_issue :
    String → Option String → Option String → Option String
unfolding first_branch strip_str split_lines
find_existing_branch_for_issue issue_number adw_id none = none
find_existing_branch_for_issue issue_number adw_id (some stdout) =
    first_branch issue_number adw_id (split_lines (strip_str stdout))

-- What git answers: what a checkout writes to stderr, none where it succeeds, and the branches.
pub record Git : Type 0 where
  pub checkout : String → Option String
  pub checkout_new : String → Option String
  pub checkout_remote : String → Option String
  pub branches : Option String

pub record Workspace : Type 0 where
  pub current : String
  pub state : AdwState

-- A command that checks out `branch` where it succeeds.
abbrev pub run_checkout : Option String → String → Workspace → Option String × Workspace
run_checkout none branch w = (none, record w { current = branch })
run_checkout (some stderr) branch w = (some stderr, w)

-- `create_branch`: the error, and the workspace.
unfoldable pub create_branch : Git → String → Workspace → Option String × Workspace
unfolding occurs
create_branch git branch w = elim (git.checkout_new branch) [
  | none ↦ (none, record w { current = branch })
  | some stderr ↦
      if occurs (codes "already exists") (codes stderr)
      then run_checkout (git.checkout branch) branch w
      else (some stderr, w)
]

-- The branch and the error that are returned, or a raise.
abbrev pub BranchResult : Type 0
BranchResult = Result (String × Option String) × Workspace

abbrev pub failed : String → String → Workspace → BranchResult
failed what stderr w = (ok ("", some (concat what stderr)), w)

abbrev pub set_text : String → String → AdwState → AdwState
set_text key value s = update ((key, text value) ∷ []) s

-- Step 1: the branch of the state is checked out, or made from the remote's.
unfoldable pub use_branch : Git → String → Workspace → BranchResult
use_branch git branch w =
    if w.current == branch then (ok (branch, none), w) else elim (git.checkout branch) [
      | none ↦ (ok (branch, none), record w { current = branch })
      | some e ↦ elim (git.checkout_remote branch) [
        | none ↦ (ok (branch, none), record w { current = branch })
        | some stderr ↦ failed "Failed to checkout branch: " stderr w
      ]
    ]

-- Step 2: a branch that is there already.
unfoldable pub use_existing : Git → String → Workspace → BranchResult
use_existing git branch w = elim (git.checkout branch) [
  | none ↦ (
    ok (branch, none),
    record { current = branch; state = set_text "branch_name" branch w.state },
  )
  | some stderr ↦ failed "Failed to checkout branch: " stderr w
]

-- The end of step 3: no name, and the None that is then handed to git, raises.
unfoldable pub use_new : Git → Option String × Option String → Workspace → BranchResult
use_new git (name, some error) w =
    if error == ""
    then (err external_error, w)
    else failed "Failed to generate branch name: " error w
use_new git (none, none) w = (err external_error, w)
use_new git (some name, none) w =
    let (error, after) = create_branch git name w in
    elim error [
      | some stderr ↦ failed "Failed to create branch: " stderr after
      | none ↦ (ok (name, none), record after { state = set_text "branch_name" name after.state })
    ]

-- Step 3: an error that is empty is not seen, and the None command raises when its slash is taken off.
unfoldable pub classify_and_create :
    Git → AgentPromptResponse → AgentPromptResponse → Workspace → BranchResult
unfolding classify_issue generate_branch_name
classify_and_create git classified generated w = elim (classify_issue classified).1 [
  | some error ↦
      if error == ""
      then (err external_error, record w { state = update (("issue_class", null) ∷ []) w.state })
      else failed "Failed to classify issue: " error w
  | none ↦ elim (classify_issue classified).0 [
    | none ↦ (err external_error, w)
    | some command ↦
        use_new git (generate_branch_name generated)
          (record w { state = set_text "issue_class" command w.state })
  ]
]

-- A value as an optional string; ids and names in a state are strings.
abbrev pub text_of : Value → Option String
text_of (text s) = if s == "" then none else some s
text_of null = none
text_of (flag b) = none
text_of (number n) = none
text_of (texts ts) = none
text_of (fraction n) = none

-- `create_or_find_branch`, in a state whose branch is a string or missing and which has no "branch".
unfoldable pub create_or_find_branch :
    Git → AgentPromptResponse → AgentPromptResponse → String → Workspace → BranchResult
unfolding find_existing_branch_for_issue
create_or_find_branch git classified generated issue_number w =
    elim (text_of (get "branch_name" null w.state)) [
      | some branch ↦ use_branch git branch w
      | none ↦
          elim (find_existing_branch_for_issue issue_number (text_of (get "adw_id" null w.state))
            git.branches) [
              | some branch ↦
                  if branch == ""
                  then classify_and_create git classified generated w
                  else use_existing git branch w
              | none ↦ classify_and_create git classified generated w
            ]
    ]

-- `ensure_adw_id`: the id of a state that is there, or of a new state; `fresh` is what make_adw_id
-- draws.
unfoldable pub new_adw : (Value → Option ℕ) → String → String → Files → Result (String × Files)
new_adw as_int issue_number id files = elim (new_state (text id)) [
  | err e ↦ err e
  | ok s ↦
      elim (save as_int (update (("adw_id", text id) ∷ ("issue_number", text issue_number) ∷ []) s)
        files) [ err e ↦ err e | ok after ↦ ok (id, after) ]
]

unfoldable pub ensure_adw_id :
    (Value → Option ℕ) → String → Option String → String → Files → Result (String × Files)
ensure_adw_id as_int issue_number none fresh files = new_adw as_int issue_number fresh files
ensure_adw_id as_int issue_number (some id) fresh files =
    if id == "" then new_adw as_int issue_number fresh files else elim (load as_int id files) [
      | some s ↦ ok (id, files)
      | none ↦ new_adw as_int issue_number id files
    ]
