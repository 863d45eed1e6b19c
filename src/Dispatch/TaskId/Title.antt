-- ===== src/Dispatch/TaskId/Title.antt =====
-- The title that `create_issue_from_task` gives an issue, and the task id read back from it.
use tac_master.Shared.{
  ℕ, true, false, ◌≡◌, refl, some, [], ◌∷◌, ◌++◌, Text, nat_eq, is_digit, arith,
}
use tac_master.Dispatch.TaskId.{take_digits, match_task, extract_cleo_task_id}

-- f"[{task_id}] {task_title}"
unfoldable pub issue_title : Text → Text → Text
issue_title task_id title = b'[' ∷ (task_id ++ (b']' ∷ b' ' ∷ title))

abbrev AllDigits : Text → Type 0
AllDigits [] = Unit
AllDigits (c ∷ s) = (is_digit c ≡ true) × AllDigits s

take_digits-append :
    (ds rest : Text) (c : ℕ)
    → AllDigits ds
    → is_digit c ≡ false
    → take_digits (ds ++ (c ∷ rest)) ≡ ds
unfolding take_digits
take_digits-append [] rest c all stop = rw stop
take_digits-append (d ∷ ds) rest c all stop = ground (arith, take_digits-append ds rest c all.1)

-- The id of a task, `T` with at least one digit, is read back from the title of the issue that is
-- created for it, whatever the task's own title.
pub extract-issue_title :
    (d : ℕ) (ds title : Text)
    → AllDigits (d ∷ ds)
    → extract_cleo_task_id (issue_title (b'T' ∷ d ∷ ds) title) ≡ some (b'T' ∷ d ∷ ds)
unfolding extract_cleo_task_id match_task issue_title is_digit
extract-issue_title d ds title all = rw (take_digits-append (d ∷ ds) (b' ' ∷ title) b']' all refl)
