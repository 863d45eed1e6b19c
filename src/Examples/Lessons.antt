-- ===== src/Examples/Lessons.antt =====
-- The theorems on the knowledge base and on the workflows' state, at sample values.
use tac_master.Shared.{
  ℕ, ◌≤◌, ◌*◌, String, Bool, false, ◌≡◌, refl, Option, none, some, List, [], ◌∷◌, ◌++◌, map, codes,
  Text, text_eq, length, ◌==◌, string_eq, arith, ok, count_rows, find_row, any_row, select_rows,
}
use tac_master.Orchestrator.Tables.{limit}
use tac_master.Orchestrator.Tables.Limits.{smaller}
use tac_master.Knowledge.{
  Lesson, KnowledgeBase, Given, is_lesson, in_repo, upsert, fetch_relevant, sanitize_fts, join,
  quoted,
}
use tac_master.Knowledge.Retrieval.{matches, fetch_relevant-fills}
use tac_master.Knowledge.Upserts.{IsKeyed, IsWritten, upsert-find, upsert-IsKeyed}
use tac_master.Knowledge.Queries.{AreTokens, quotes, sanitize_fts-tokens}
use tac_master.Workflows.State.{
  Value, null, flag, number, text, texts, fraction, AdwState, Files, StateData, field, get,
  validate, save, load, from_stdin, piped, to_stdout, set_key, get_key, model_dump, as_issue_class,
  as_model_set, assemble, object,
}
use tac_master.Workflows.State.Reload.{load-save}
use tac_master.Workflows.State.Pipes.{from_stdin-to_stdout}

abbrev pub int_of : Value → Option ℕ
int_of (number n) = some n
int_of null = none
int_of (flag b) = none
int_of (text s) = none
int_of (texts ts) = none
int_of (fraction n) = none

abbrev planned : AdwState
planned = record {
  adw_id = text "ab12cd34";
  values =
      ("adw_id", text "ab12cd34")
      ∷ ("issue_number", text "7")
      ∷ ("model_set", text "heavy")
      ∷ ("backend_port", number 9101)
      ∷ [];
}

abbrev valid : StateData
valid = record {
  adw_id = "ab12cd34";
  issue_number = some "7";
  branch_name = none;
  plan_file = none;
  issue_class = none;
  worktree_path = none;
  backend_port = some 9101;
  frontend_port = none;
  model_set = some "heavy";
  all_adws = [];
}

planned-valid : validate int_of planned.values ≡ some valid
unfolding validate field get_key as_issue_class as_model_set any_row assemble
planned-valid = refl

abbrev saved : Files
saved = ("ab12cd34", object (model_dump valid)) ∷ []

planned-saved : save int_of planned [] ≡ ok saved
unfolding save set_key
planned-saved = rw (save, planned-valid) refl

load-save_example :
    (loaded : AdwState) × (load int_of "ab12cd34" saved ≡ some loaded)
    × (loaded.adw_id ≡ planned.adw_id)
    × (validate int_of loaded.values ≡ validate int_of planned.values)
    × (save int_of loaded saved ≡ ok saved)
unfolding get field get_key
load-save_example =
    load-save int_of planned "ab12cd34" [] saved (λ n. refl) refl refl refl planned-saved

from_stdin-to_stdout_example :
    (next : AdwState) × (from_stdin (piped (to_stdout planned)) ≡ ok (some next))
    × (validate int_of next.values ≡ some (record valid { model_set = some "base" }))
unfolding get field get_key
from_stdin-to_stdout_example = from_stdin-to_stdout int_of planned valid planned-valid refl

abbrev given : Given
given = record {
  adw_id = "ab12cd34";
  repo_url = "https://github.com/acme/app";
  title = "Fix the login";
  body = "Check the session first";
  issue_number = some 7;
  workflow = some "sdlc";
  result = some "succeeded";
  tags = codes "login" ∷ codes "auth" ∷ codes "login" ∷ [];
  markdown_path = none;
}

abbrev no_lessons : KnowledgeBase
no_lessons = record { lessons = []; last_id = 0 }

no_lessons-IsKeyed : IsKeyed no_lessons
unfolding count_rows
no_lessons-IsKeyed = record {
  adw_ids = λ adw_id. omega arith;
  ids = λ id. omega arith;
  given = λ id above. refl;
}

abbrev one_lesson : KnowledgeBase
one_lesson = (upsert 5 given no_lessons).1

one_lesson-IsKeyed : IsKeyed one_lesson
one_lesson-IsKeyed = upsert-IsKeyed 5 given no_lessons no_lessons-IsKeyed

upsert-IsKeyed_example : IsKeyed (upsert 9 given one_lesson).1
upsert-IsKeyed_example = upsert-IsKeyed 9 given one_lesson one_lesson-IsKeyed

upsert-find_example :
    ((l : Lesson) × (find_row (is_lesson given.adw_id) (upsert 9 given one_lesson).1.lessons
        ≡ some l)
      × IsWritten 9 given one_lesson.last_id
          (find_row (is_lesson given.adw_id) one_lesson.lessons)
          l)
    × ((adw_id : String)
        → (given.adw_id == adw_id) ≡ false
        → find_row (is_lesson adw_id) (upsert 9 given one_lesson).1.lessons
          ≡ find_row (is_lesson adw_id) one_lesson.lessons)
upsert-find_example = upsert-find 9 given one_lesson

abbrev as_listed : Text → List Lesson → List Lesson
as_listed q ls = ls

fetch_relevant-fills_example :
    (length (
        fetch_relevant as_listed (codes "login (again)") "https://github.com/acme/app" 3 one_lesson)
      ≡ smaller 3 (
          length
            (matches as_listed (codes "login (again)") "https://github.com/acme/app" 3 one_lesson)))
    × ((p : Lesson → Bool)
        → count_rows p (
            fetch_relevant as_listed
              (codes "login (again)")
              "https://github.com/acme/app"
              3
              one_lesson)
          ≤ count_rows p one_lesson.lessons)
    × ((rest : List Lesson) × (fetch_relevant as_listed
            (codes "login (again)")
            "https://github.com/acme/app"
            3
            one_lesson
          ≡ limit 3 (
              select_rows (in_repo (some "https://github.com/acme/app")) (
                matches as_listed
                  (codes "login (again)")
                  "https://github.com/acme/app"
                  3
                  one_lesson))
            ++ rest))
fetch_relevant-fills_example =
    fetch_relevant-fills as_listed (codes "login (again)") "https://github.com/acme/app" 3
      one_lesson (λ q p ls. omega arith) one_lesson-IsKeyed.adw_ids

sanitize_fts-tokens_example :
    (ts : List Text) × (sanitize_fts (codes "Fix \"login\" - ok?")
      ≡ join (codes " OR ") (map quoted ts))
    × AreTokens ts
    × (length ts ≤ 20)
    × (quotes (sanitize_fts (codes "Fix \"login\" - ok?")) ≡ 2 * length ts)
sanitize_fts-tokens_example = sanitize_fts-tokens (codes "Fix \"login\" - ok?")
