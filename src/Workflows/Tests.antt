-- ===== src/Workflows/Tests.antt =====
-- The test phase (adws/adw_test_iso.py): rounds of a test run and of resolving its failures. The
-- agents that run the tests and resolve a failure are the parameters `run` and `resolve`, over what
-- they act on, `W`.
pub mod Rounds
pub mod Outcome
use tac_master.Shared.{
  ℕ, zero, suc, ◌+◌, ◌-◌, String, Bool, true, false, not, ◌&&◌, Option, none, some, List, [], ◌∷◌,
  if◌then◌else◌, ◌==◌, nat_eq, length, ltb,
}

pub record TestResult : Type 0 where
  pub test_name : String
  pub passed : Bool

-- An agent's answer: whether it succeeded, and the results in its output where `parse_json` reads
-- them.
pub record Response : Type 0 where
  pub success : Bool
  pub output : Option (List TestResult)

-- `(results, passed_count, failed_count)`
pub record Results : Type 0 where
  pub results : List TestResult
  pub passed_count : ℕ
  pub failed_count : ℕ

abbrev pub no_results : Results
no_results = record { results = []; passed_count = 0; failed_count = 0 }

-- `sum(1 for test in results if test.passed)`
unfoldable pub count_passed : List TestResult → ℕ
count_passed [] = 0
count_passed (t ∷ ts) = (if t.passed then 1 else 0) + count_passed ts

-- `[test for test in results if not test.passed]`
unfoldable pub failed_tests : List TestResult → List TestResult
failed_tests [] = []
failed_tests (t ∷ ts) = let rest = failed_tests ts in if t.passed then rest else t ∷ rest

-- `parse_test_results` and `parse_e2e_test_results`
unfoldable pub parse_test_results : Option (List TestResult) → Results
unfolding count_passed
parse_test_results none = no_results
parse_test_results (some results) = record {
  results = results;
  passed_count = count_passed results;
  failed_count = length results - count_passed results;
}

module _ {W : Type 0} (run : W → Response × W) (resolve : TestResult → W → Bool × W) where
  -- `resolve_failed_tests`: the numbers of resolved and of unresolved tests.
  unfoldable pub resolve_failed_tests : List TestResult → W → (ℕ × ℕ) × W
  resolve_failed_tests [] w = ((0, 0), w)
  resolve_failed_tests (t ∷ ts) w =
      let (success, w₁) = resolve t w in
      let ((resolved, unresolved), w₂) = resolve_failed_tests ts w₁ in
      (if success then (suc resolved, unresolved) else (resolved, suc unresolved), w₂)

  -- `run_tests_with_resolution`, with `remaining` attempts left, the results of the attempt before and
  -- its response.
  unfoldable pub test_rounds : ℕ → Results → Option Response → W → (Results × Option Response) × W
  unfolding resolve_failed_tests parse_test_results failed_tests
  test_rounds zero before response w = ((before, response), w)
  test_rounds (suc remaining) before response w =
      let (answer, w₁) = run w in
      elim answer.success [
        | false ↦ ((before, some answer), w₁)
        | true ↦ elim ((parse_test_results answer.output).failed_count == 0) [
          | true ↦ ((parse_test_results answer.output, some answer), w₁)
          | false ↦ elim (remaining == 0) [
            | true ↦ ((parse_test_results answer.output, some answer), w₁)
            | false ↦
                elim (ltb 0
                  (resolve_failed_tests (failed_tests (parse_test_results answer.output).results)
                    w₁).0.0) [
                      | true ↦
                          test_rounds remaining (parse_test_results answer.output) (some answer)
                            (resolve_failed_tests
                              (failed_tests (parse_test_results answer.output).results) w₁).1
                      | false ↦ (
                        (parse_test_results answer.output, some answer),
                        (resolve_failed_tests
                            (failed_tests (parse_test_results answer.output).results) w₁).1,
                      )
                    ]
          ]
        ]
      ]

  -- `run_e2e_tests_with_resolution`, which also stops where there are no results.
  unfoldable pub e2e_rounds : ℕ → Results → W → Results × W
  unfolding resolve_failed_tests parse_test_results failed_tests
  e2e_rounds zero before w = (before, w)
  e2e_rounds (suc remaining) before w =
      let (answer, w₁) = run w in
      elim answer.success [
        | false ↦ (before, w₁)
        | true ↦ elim (length (parse_test_results answer.output).results == 0) [
          | true ↦ (parse_test_results answer.output, w₁)
          | false ↦ elim ((parse_test_results answer.output).failed_count == 0) [
            | true ↦ (parse_test_results answer.output, w₁)
            | false ↦ elim (remaining == 0) [
              | true ↦ (parse_test_results answer.output, w₁)
              | false ↦
                  elim (ltb 0
                    (resolve_failed_tests (failed_tests (parse_test_results answer.output).results)
                      w₁).0.0) [
                        | true ↦
                            e2e_rounds remaining (parse_test_results answer.output)
                              (resolve_failed_tests
                                (failed_tests (parse_test_results answer.output).results) w₁).1
                        | false ↦ (
                          parse_test_results answer.output,
                          (resolve_failed_tests
                              (failed_tests (parse_test_results answer.output).results) w₁).1,
                        )
                      ]
            ]
          ]
        ]
      ]

-- `MAX_TEST_RETRY_ATTEMPTS` and `MAX_E2E_TEST_RETRY_ATTEMPTS`
abbrev pub max_test_attempts : ℕ
max_test_attempts = 4

abbrev pub max_e2e_attempts : ℕ
max_e2e_attempts = 2

-- The agents of the two kinds of tests.
pub record Agents (W : Type 0) : Type 0 where
  pub run_tests : W → Response × W
  pub resolve_test : TestResult → W → Bool × W
  pub run_e2e_tests : W → Response × W
  pub resolve_e2e_test : TestResult → W → Bool × W

-- `e2e_failed if not skip_e2e and e2e_results else 0`
unfoldable pub e2e_failures : Results → ℕ
e2e_failures r = if length r.results == 0 then 0 else r.failed_count

-- The `total_failures` of `main`: with none of them the phase exits with 0.
unfoldable pub total_failures : {W : Type 0} → Agents W → Bool → W → ℕ
unfolding test_rounds e2e_rounds e2e_failures
total_failures agents skip_e2e w =
    let unit =
      test_rounds agents.run_tests agents.resolve_test max_test_attempts no_results none w in
    let e2e =
      e2e_rounds agents.run_e2e_tests agents.resolve_e2e_test max_e2e_attempts no_results unit.1 in
    unit.0.0.failed_count + (if skip_e2e then 0 else e2e_failures e2e.0)
