-- ===== src/Examples/Phases.antt =====
-- The theorems on the workflows, at small agents.
use tac_master.Shared.{
  Option, String, map, ℕ, zero, suc, ◌≤◌, Bool, true, false, ◌≡◌, ◌↔◌, ◌⊎◌, refl, none, some, List,
  [], ◌∷◌, inl, ◌-◌, length, ◌==◌, string_eq,
}
use tac_master.Workflows.Tests.{TestResult, Response, Agents, total_failures}
use tac_master.Workflows.Tests.Outcome.{total_failures-unchecked}
use tac_master.Workflows.Review.{
  blocker, ReviewIssue, ReviewResponse, ReviewResult, max_review_attempts, review_rounds,
}
use tac_master.Workflows.Review.Screenshots.{
  own_url, all_exist, upload_review_screenshots, upload_review_screenshots-own_url,
}
use tac_master.Workflows.Review.Passes.{Ending, review_rounds-passes}
use tac_master.Workflows.Retry.{
  AgentPromptResponse, timeout_error, no_retry, pad_delays, prompt_claude_code_with_retry,
}
use tac_master.Workflows.Retry.Attempts.{StopsAfter, prompt_claude_code_with_retry-stops}
use tac_master.Workflows.Zte.{Phase, plan, build, test, review, document, ship, zero_touch}
use tac_master.Workflows.Zte.Shipping.{ships, zero_touch-ships}

-- Tests of which one fails in every round, though each is said to be resolved.
abbrev flaky : ℕ → Response × ℕ
flaky n = (
  record { success = true; output = some (record { test_name = "login"; passed = false } ∷ []) },
  n,
)

abbrev repair : TestResult → ℕ → Bool × ℕ
repair t n = (true, suc n)

-- An agent that never gets the tests to run.
abbrev broken : Agents ℕ
broken = record {
  run_tests = λ n. (record { success = false; output = none }, n);
  resolve_test = repair;
  run_e2e_tests = flaky;
  resolve_e2e_test = repair;
}

total_failures-unchecked_example : total_failures broken true 0 ≡ 0
total_failures-unchecked_example = total_failures-unchecked broken 0 (inl refl)

abbrev only_documents_fail : Phase → ℕ
only_documents_fail document = 1
only_documents_fail plan = 0
only_documents_fail build = 0
only_documents_fail test = 0
only_documents_fail review = 0
only_documents_fail ship = 0

zero_touch-ships_example :
    ((ships (zero_touch only_documents_fail).phases ≡ true) ↔ (
      (only_documents_fail plan ≡ 0)
      × (only_documents_fail build ≡ 0)
      × (only_documents_fail test ≡ 0)
      × (only_documents_fail review ≡ 0)))
    × (((zero_touch only_documents_fail).code ≡ 0)
        ↔ ((ships (zero_touch only_documents_fail).phases ≡ true) × (only_documents_fail ship ≡ 0)))
    × (((zero_touch only_documents_fail).code ≡ 0) ⊎ ((zero_touch only_documents_fail).code ≡ 1))
zero_touch-ships_example = zero_touch-ships only_documents_fail

-- A prompt that times out twice and succeeds then.
abbrev twice_late : ℕ → AgentPromptResponse × ℕ
twice_late zero =
    (record { output = "late"; success = false; session_id = none; retry_code = timeout_error }, 1)
twice_late (suc zero) =
    (record { output = "late"; success = false; session_id = none; retry_code = timeout_error }, 2)
twice_late (suc (suc n)) =
    (record { output = "done"; success = true; session_id = some "s"; retry_code = no_retry }, n)

twice_late_delays :
    prompt_claude_code_with_retry twice_late 4 none 0
    ≡ some (
      (
        record { output = "done"; success = true; session_id = some "s"; retry_code = no_retry },
        1 ∷ 3 ∷ [],
      ),
      0,
    )
unfolding prompt_claude_code_with_retry
twice_late_delays = refl

prompt_claude_code_with_retry-stops_example :
    (delays : List ℕ) × (pad_delays (4 - 3) (1 ∷ 3 ∷ 5 ∷ []) ≡ some delays)
    × (4 ≤ length delays)
    × (n : ℕ) × StopsAfter twice_late n 4 delays 0
        (prompt_claude_code_with_retry twice_late 4 none 0)
prompt_claude_code_with_retry-stops_example = prompt_claude_code_with_retry-stops twice_late 4 0

abbrev overflow : ReviewIssue
overflow = record {
  review_issue_number = 1;
  issue_description = "The table is too wide";
  issue_resolution = "Wrap it";
  issue_severity = blocker;
  screenshot_path = "b.png";
  screenshot_url = none;
}

-- A reviewer that finds a blocker in every review, and counts its reviews.
abbrev strict : ℕ → ReviewResponse × ℕ
strict n = (
  record {
    success = true;
    output = some (record {
      success = false;
      review_issues = overflow ∷ [];
      screenshots = "a.png" ∷ "b.png" ∷ [];
      screenshot_urls = [];
    });
  },
  suc n,
)

abbrev plan_patch : ReviewIssue → ℕ → Option String × ℕ
plan_patch issue n = (some "specs/patch.md", n)

abbrev implement_patch : String → ℕ → Bool × ℕ
implement_patch plan_file n = (true, n)

strict_reviews :
    review_rounds strict plan_patch implement_patch false max_review_attempts 0 none 0 ≡ (
      some (record {
        success = false;
        review_issues = overflow ∷ [];
        screenshots = "a.png" ∷ "b.png" ∷ [];
        screenshot_urls = [];
      }),
      2,
    )
unfolding review_rounds
strict_reviews = refl

review_rounds-passes_example :
    (v : ℕ) × Ending strict plan_patch implement_patch false 0 v
      (review_rounds strict plan_patch implement_patch false max_review_attempts 0 none 0)
review_rounds-passes_example = review_rounds-passes strict plan_patch implement_patch false 0

abbrev too_wide : ReviewResult
too_wide = record {
  success = false;
  review_issues = overflow ∷ [];
  screenshots = "a.png" ∷ "b.png" ∷ [];
  screenshot_urls = [];
}

abbrev bucket : String → Option String
bucket path = some "https://files/b.png"

upload_review_screenshots-own_url_example :
    (upload_review_screenshots (λ path. true) bucket too_wide).review_issues
    ≡ map (own_url (λ path. true) bucket too_wide.screenshots) too_wide.review_issues
unfolding all_exist
upload_review_screenshots-own_url_example =
    upload_review_screenshots-own_url (λ path. true) bucket too_wide refl

-- The same upload without the file "a.png".
abbrev only_second : String → Bool
only_second path = path == "b.png"

second_url_missing :
    (upload_review_screenshots only_second bucket too_wide).review_issues ≡ overflow ∷ []
unfolding upload_review_screenshots
second_url_missing = refl
