-- ===== src/Workflows/Specs.antt =====
-- The plan and the spec file of a workflow, and a patch (ensure_plan_exists, find_spec_file and
-- create_and_implement_patch of adws/adw_modules/workflow_ops.py). What git, the file system and the
-- agents answer is given.
pub mod Found
use tac_master.Shared.{
  ℕ, zero, suc, String, Bool, true, false, not, ◌&&◌, ◌||◌, Option, none, some, List, [], ◌∷◌,
  if◌then◌else◌, ◌==◌, string_eq, nat_eq, Text, codes, starts_with, is_digit, select_rows, Result,
  ok, err, value_error,
}
use Prim.Native.Char.{code}
use Prim.Native.String.{◌++◌ as concat}
use mathlib.Core.List.{reverse}
use tac_master.Tokens.{occurs}
use tac_master.Workflows.Retry.{AgentPromptResponse, RetryCode}
use tac_master.Workflows.State.{Value, null, text, AdwState, get}
use tac_master.Workflows.Classify.{strip_str}
use tac_master.Workflows.Branches.{split_lines, text_of}

-- `s.endswith(suffix)`
unfoldable pub ends_with : String → String → Bool
unfolding starts_with
ends_with s suffix = starts_with (reverse (codes s)) (reverse (codes suffix))

unfoldable pub begins_with : String → String → Bool
unfolding starts_with
begins_with s prefix = starts_with (codes s) (codes prefix)

-- `os.path.join(directory, path)`
unfoldable pub path_join : String → String → String
unfolding begins_with ends_with
path_join directory path =
    if begins_with path "/"
    then path
    else if (directory == "") || ends_with directory "/"
    then concat directory path
    else concat directory (concat "/" path)

-- `files[0]`, where there is one
abbrev pub first_of : List String → Option String
first_of [] = none
first_of (f ∷ fs) = some f

abbrev pub in_worktree : Option String → String → String
in_worktree none path = path
in_worktree (some worktree) path = path_join worktree path

-- The file of the state, where it exists.
unfoldable pub spec_of_state : (String → Bool) → Option String → Option String → Option String
spec_of_state exists worktree none = none
spec_of_state exists worktree (some spec_file) =
    let path = in_worktree worktree spec_file in if exists path then some path else none

-- The first spec file in the output of `git diff origin/main --name-only`.
unfoldable pub spec_of_diff : Option String → Option String → Option String
unfolding select_rows
spec_of_diff worktree none = none
spec_of_diff worktree (some stdout) =
    elim (first_of (
      select_rows (λ f. begins_with f "specs/" && ends_with f ".md")
        (split_lines (strip_str stdout)))) [ none ↦ none | some f ↦ some (in_worktree worktree f) ]

-- The digits at the start.
unfoldable pub digits_of : String → String
unfolding is_digit
digits_of String.[] = ""
digits_of (String.◌∷◌ c s) =
    let rest = digits_of s in if is_digit (code c) then String.◌∷◌ c rest else ""

unfoldable pub drop_str : ℕ → String → String
drop_str zero s = s
drop_str (suc n) String.[] = ""
drop_str (suc n) (String.◌∷◌ c s) = drop_str n s

-- The group of `re.search(r"issue-(\d+)", branch_name)`
unfoldable pub issue_of_branch : String → Option String
unfolding starts_with digits_of drop_str
issue_of_branch String.[] = none
issue_of_branch (String.◌∷◌ c s) =
    let later = issue_of_branch s in
    let digits = digits_of (drop_str 5 s) in
    if starts_with (code c ∷ codes s) (codes "issue-") && not (digits == "")
    then some digits
    else later

abbrev pub id_text : Option String → String
id_text none = "None"
id_text (some id) = id

abbrev pub spec_pattern : String → String → Option String → String
spec_pattern directory issue_number adw_id =
    path_join directory (
      concat "specs/issue-" (concat issue_number (concat "-adw-" (concat (id_text adw_id) "*.md"))))

-- The first file that the pattern of the branch's issue matches.
unfoldable pub spec_of_branch :
    (String → List String) → String → Option String → Option String → Option String → Option String
spec_of_branch glob cwd worktree adw_id none = none
spec_of_branch glob cwd worktree adw_id (some branch) = elim (issue_of_branch branch) [
  | none ↦ none
  | some issue_number ↦
      first_of (glob (spec_pattern (elim worktree [ none ↦ cwd | some w ↦ w ]) issue_number adw_id))
]

abbrev pub or_found : Option String → Option String → Option String
or_found none other = other
or_found (some f) other = some f

-- `find_spec_file`
unfoldable pub find_spec_file :
    (String → Bool) → (String → List String) → String → Option String → AdwState → Option String
unfolding get
find_spec_file exists glob cwd diff s =
    let worktree = text_of (get "worktree_path" null s) in
    or_found (spec_of_state exists worktree (text_of (get "plan_file" null s))) (
      or_found (spec_of_diff worktree diff) (
        spec_of_branch glob cwd worktree (text_of (get "adw_id" null s))
          (text_of (get "branch_name" null s))))

-- `ensure_plan_exists`, on the branch that is checked out and the files that match.
unfoldable pub ensure_plan_exists :
    (String → List String) → String → String → AdwState → Result String
unfolding occurs get
ensure_plan_exists glob branch issue_number s = elim (text_of (get "plan_file" null s)) [
  | some plan_file ↦ ok plan_file
  | none ↦
      if occurs (codes (concat "-" (concat issue_number "-"))) (codes branch)
      then elim (first_of (glob (concat "specs/*" (concat issue_number "*.md")))) [
        | some plan ↦ ok plan
        | none ↦ err value_error
      ]
      else err value_error
]

abbrev failed_response : String → AgentPromptResponse
failed_response output = record {
  output = output;
  success = false;
  session_id = none;
  retry_code = RetryCode.no_retry;
}

-- `create_and_implement_patch`: the answer of the planner, and that of the implementor to a path.
unfoldable pub create_and_implement_patch :
    AgentPromptResponse → (String → AgentPromptResponse) → Option String × AgentPromptResponse
unfolding strip_str occurs ends_with
create_and_implement_patch planned implement =
    let patch_file_path = strip_str planned.output in
    if not planned.success
    then (none, failed_response (concat "Failed to create patch plan: " planned.output))
    else if not (occurs (codes "specs/patch/") (codes patch_file_path))
        || not (ends_with patch_file_path ".md")
    then (none, failed_response (concat "Invalid patch plan path: " patch_file_path))
    else (some patch_file_path, implement patch_file_path)
