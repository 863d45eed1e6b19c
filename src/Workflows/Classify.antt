-- ===== src/Workflows/Classify.antt =====
-- The classification of an issue from the answer of the agent (_extract_classify_token,
-- classify_issue and generate_branch_name of adws/adw_modules/workflow_ops.py). The removal of stale
-- spec files is left out.
pub mod Tokens
use tac_master.Shared.{
  ℕ, zero, suc, ◌-◌, String, Bool, true, false, not, ◌||◌, ◌&&◌, Option, none, some, List, [], ◌∷◌,
  if◌then◌else◌, ◌==◌, string_eq, nat_eq, Text, codes, starts_with, is_space, is_word, any_row,
  length,
}
use Prim.Native.Char.{code}
use Prim.Native.String.{◌++◌ as concat}
use tac_master.Workflows.Retry.{AgentPromptResponse}

unfoldable pub lstrip_str : String → String
unfolding is_space
lstrip_str String.[] = ""
lstrip_str (String.◌∷◌ c s) = if is_space (code c) then lstrip_str s else String.◌∷◌ c s

unfoldable pub rstrip_str : String → String
unfolding is_space
rstrip_str String.[] = ""
rstrip_str (String.◌∷◌ c s) =
    let rest = rstrip_str s in if is_space (code c) && (rest == "") then "" else String.◌∷◌ c rest

-- `s.strip()`
unfoldable pub strip_str : String → String
unfolding lstrip_str rstrip_str
strip_str s = rstrip_str (lstrip_str s)

abbrev pub commands : List String
commands = "/chore" ∷ "/bug" ∷ "/feature" ∷ "/patch" ∷ []

abbrev pub tokens : List String
tokens = "/chore" ∷ "/bug" ∷ "/feature" ∷ "/patch" ∷ "0" ∷ []

-- `[/\w]`
unfoldable pub blocks : ℕ → Bool
unfolding is_word
blocks c = (c == b'/') || is_word c

-- `(?![/\w])`, after the first `n` code points
unfoldable pub ends_after : ℕ → Text → Bool
unfolding blocks
ends_after n [] = true
ends_after zero (c ∷ s) = not (blocks c)
ends_after (suc n) (c ∷ s) = ends_after n s

-- The first alternative that matches at the start of a text.
unfoldable pub token_at : List String → Text → Option String
unfolding starts_with ends_after
token_at [] s = none
token_at (t ∷ ts) s =
    if starts_with s (codes t) && ends_after (length (codes t)) s then some t else token_at ts s

-- `pattern.findall(raw_output)`: `skip` more code points belong to a match, and `after` tells whether
-- the code point before is one that no token follows.
unfoldable pub find_tokens : ℕ → Bool → Text → List String
unfolding token_at blocks
find_tokens skip after [] = []
find_tokens (suc skip) after (c ∷ s) = find_tokens skip (blocks c) s
find_tokens zero after (c ∷ s) = elim (if after then none else token_at tokens (c ∷ s)) [
  | none ↦ find_tokens zero (blocks c) s
  | some t ↦ t ∷ find_tokens (length (codes t) - 1) (blocks c) s
]

-- `matches[-1]`
unfoldable pub last_token : List String → Option String
last_token [] = none
last_token (t ∷ []) = some t
last_token (t ∷ next ∷ rest) = last_token (next ∷ rest)

-- `_extract_classify_token`
unfoldable pub extract_classify_token : String → String
unfolding find_tokens last_token strip_str
extract_classify_token raw_output = elim (last_token (find_tokens 0 false (codes raw_output))) [
  | none ↦ strip_str raw_output
  | some t ↦ t
]

-- `classify_issue`: the command and the error.
unfoldable pub classify_issue : AgentPromptResponse → Option String × Option String
unfolding any_row
classify_issue response =
    let issue_command = extract_classify_token response.output in
    if not response.success
    then (none, some response.output)
    else if issue_command == "0"
    then (none, some (concat "No command selected: " response.output))
    else if not (any_row (λ c. c == issue_command) commands)
    then (none, some (concat "Invalid command selected: " response.output))
    else (some issue_command, none)

-- `generate_branch_name`, after the slash is taken off the command.
unfoldable pub generate_branch_name : AgentPromptResponse → Option String × Option String
unfolding strip_str
generate_branch_name response =
    if not response.success
    then (none, some response.output)
    else (some (strip_str response.output), none)
