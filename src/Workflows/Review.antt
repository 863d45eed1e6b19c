-- ===== src/Workflows/Review.antt =====
-- The loop of the review phase (adws/adw_review_iso.py). The agents that review, plan a patch and
-- implement it are the parameters `review`, `plan` and `implement`, over what they act on, `W`. The
-- summary of a review is left out.
pub mod Passes
pub mod Screenshots
use tac_master.Shared.{
  ℕ, zero, suc, ◌-◌, String, Bool, true, false, ◌||◌, Option, none, some, List, [], ◌∷◌,
  if◌then◌else◌, leb,
}

pub data Severity : Type 0 where
  skippable tech_debt blocker : Severity

pub record ReviewIssue : Type 0 where
  pub review_issue_number : ℕ
  pub screenshot_path : String
  pub screenshot_url : Option String
  pub issue_description : String
  pub issue_resolution : String
  pub issue_severity : Severity

pub record ReviewResult : Type 0 where
  pub success : Bool
  pub review_issues : List ReviewIssue
  pub screenshots : List String
  pub screenshot_urls : List String

-- An agent's answer: whether it succeeded, and the result in its output where `parse_json` reads
-- one.
pub record ReviewResponse : Type 0 where
  pub success : Bool
  pub output : Option ReviewResult

abbrev pub max_review_attempts : ℕ
max_review_attempts = 3

abbrev pub failed_review : ReviewResult
failed_review = record {
  success = false;
  review_issues = [];
  screenshots = [];
  screenshot_urls = [];
}

-- `run_review`, from the agent's answer.
unfoldable pub review_result : ReviewResponse → ReviewResult
review_result response = elim response.success [
  | false ↦ failed_review
  | true ↦ elim response.output [ none ↦ failed_review | some result ↦ result ]
]

unfoldable pub is_blocker : ReviewIssue → Bool
is_blocker issue = elim issue.issue_severity [
  | skippable ↦ false
  | tech_debt ↦ false
  | blocker ↦ true
]

unfoldable pub blocker_issues : List ReviewIssue → List ReviewIssue
unfolding is_blocker
blocker_issues [] = []
blocker_issues (issue ∷ issues) =
    let rest = blocker_issues issues in if is_blocker issue then issue ∷ rest else rest

-- `not blocker_issues`
unfoldable pub no_issues : List ReviewIssue → Bool
no_issues [] = true
no_issues (issue ∷ issues) = false

-- `plan` gives the file that its output names where it succeeded.
module _ {W : Type 0} (review : W → ReviewResponse × W) (plan : ReviewIssue → W → Option String × W)
    (implement : String → W → Bool × W) where
  unfoldable pub resolve_blocker_issues : List ReviewIssue → W → W
  resolve_blocker_issues [] w = w
  resolve_blocker_issues (issue ∷ issues) w = elim (plan issue w).0 [
    | none ↦ resolve_blocker_issues issues (plan issue w).1
    | some plan_file ↦ resolve_blocker_issues issues (implement plan_file (plan issue w).1).1
  ]

  -- The loop of `main`, with `left` turns to go of `max_review_attempts`, after `attempt` of them.
  unfoldable pub review_rounds : Bool → ℕ → ℕ → Option ReviewResult → W → Option ReviewResult × W
  unfolding review_result blocker_issues no_issues resolve_blocker_issues
  review_rounds skip_resolution zero attempt before w = (before, w)
  review_rounds skip_resolution (suc left) attempt before w =
      let result = review_result (review w).0 in
      let blockers = blocker_issues result.review_issues in
      let resolved = resolve_blocker_issues blockers (review w).1 in
      let rest = review_rounds skip_resolution left (suc attempt) (some result) resolved in
      if no_issues blockers || skip_resolution
      then (some result, (review w).1)
      else if leb (max_review_attempts - 1) (suc attempt)
      then (some result, resolved)
      else rest
