-- ===== src/Examples/Checkouts.antt =====
-- The theorems on the branch and the id of a workflow, at a sample repository.
use tac_master.Shared.{
  Option, String, false, true, ◌≡◌, refl, none, some, [], ◌∷◌, ok, string_eq, any_row, is_space,
  select_rows, starts_with,
}
use tac_master.Workflows.Retry.{AgentPromptResponse, RetryCode}
use tac_master.Workflows.Classify.{classify_issue, strip_str, lstrip_str, rstrip_str}
use tac_master.Workflows.Classify.Tokens.{classify_issue-command}
use tac_master.Workflows.State.{text, AdwState, Files, load, field, get_key, get}
use tac_master.Workflows.Specs.{
  find_spec_file, spec_of_state, spec_of_diff, begins_with, ends_with, path_join,
}
use tac_master.Workflows.Specs.Found.{IsFound, find_spec_file-IsFound}
use tac_master.Examples.Lessons.{int_of}
use tac_master.Workflows.Branches.{
  Git, Workspace, create_or_find_branch, ensure_adw_id, find_existing_branch_for_issue, split_lines,
}
use tac_master.Workflows.Branches.Outcome.{Lands, create_or_find_branch-Lands}
use tac_master.Workflows.Branches.Ids.{ensure_adw_id-loads}

abbrev answer : AgentPromptResponse
answer = record {
  output = "Based on specs/issue-7/plan.md this is /bug, or rather /feature";
  success = true;
  session_id = none;
  retry_code = RetryCode.no_retry;
}

classify_issue-command_example : classify_issue answer ≡ (some "/feature", none)
unfolding any_row
classify_issue-command_example =
    classify_issue-command answer "Based on specs/issue-7/plan.md this is /bug, or rather"
      "/feature" refl refl

abbrev git : Git
git = record {
  checkout = λ branch. none;
  checkout_new = λ branch. none;
  checkout_remote = λ branch. none;
  branches = some "* main\n  remotes/origin/feature-issue-7-adw-ab12cd34-login";
}

abbrev fresh_state : AdwState
fresh_state = record { adw_id = text "ab12cd34"; values = ("adw_id", text "ab12cd34") ∷ [] }

abbrev workspace : Workspace
workspace = record { current = "main"; state = fresh_state }

found :
    find_existing_branch_for_issue "7" (some "ab12cd34") git.branches
    ≡ some "feature-issue-7-adw-ab12cd34-login"
unfolding find_existing_branch_for_issue
found = refl

create_or_find_branch-Lands_example :
    Lands workspace (create_or_find_branch git answer answer "7" workspace)
create_or_find_branch-Lands_example = create_or_find_branch-Lands git answer answer "7" workspace

ensure_adw_id-loads_example :
    (after : Files) × (s : AdwState) × (ensure_adw_id int_of "7" none "ab12cd34" []
      ≡ ok ("ab12cd34", after))
    × (load int_of "ab12cd34" after ≡ some s)
ensure_adw_id-loads_example = ensure_adw_id-loads int_of "7" none "ab12cd34" [] (λ n. refl) refl

abbrev built : AdwState
built = record {
  adw_id = text "ab12cd34";
  values =
      ("adw_id", text "ab12cd34")
      ∷ ("plan_file", text "specs/gone.md")
      ∷ ("worktree_path", text "/trees/ab12cd34")
      ∷ [];
}

abbrev changed : Option String
changed = some "src/app.py\nspecs/issue-7.md"

found_spec :
    find_spec_file (λ f. false) (λ p. []) "/srv" changed built
    ≡ some "/trees/ab12cd34/specs/issue-7.md"
unfolding find_spec_file get field get_key spec_of_state spec_of_diff split_lines strip_str
    lstrip_str rstrip_str is_space select_rows begins_with ends_with path_join starts_with
found_spec = refl

find_spec_file-IsFound_example :
    IsFound
      (λ f. false)
      (λ p. [])
      "/srv"
      (some "/trees/ab12cd34")
      (some "specs/gone.md")
      changed
      (some "ab12cd34")
      none
      (find_spec_file (λ f. false) (λ p. []) "/srv" changed built)
unfolding get field get_key
find_spec_file-IsFound_example = find_spec_file-IsFound (λ f. false) (λ p. []) "/srv" changed built
