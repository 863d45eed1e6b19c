-- ===== src/Dispatch/TaskId.antt =====
-- `_extract_cleo_task_id`: the match of `\[?(T\d+)\]?` at the start of a title, over ASCII digits.
pub mod Title
use tac_master.Shared.{
  ℕ, Bool, true, false, Option, none, some, List, [], ◌∷◌, ◌++◌, Text, if◌then◌else◌, ◌==◌, nat_eq,
  is_digit,
}

-- The longest run of digits at the start.
unfoldable pub take_digits : Text → Text
unfolding is_digit
take_digits [] = []
take_digits (c ∷ s) = let rest = take_digits s in if is_digit c then c ∷ rest else []

abbrev with_digits : Text → Option Text
with_digits [] = none
with_digits (d ∷ ds) = some (b'T' ∷ d ∷ ds)

-- `T\d+`
unfoldable pub match_task : Text → Option Text
unfolding take_digits
match_task [] = none
match_task (c ∷ s) = if c == b'T' then with_digits (take_digits s) else none

-- A `[` at the start must be taken by `\[?`, since no task id begins with one.
unfoldable pub extract_cleo_task_id : Text → Option Text
unfolding match_task
extract_cleo_task_id [] = none
extract_cleo_task_id (c ∷ s) = if c == b'[' then match_task s else match_task (c ∷ s)
