-- ===== src/Workflows/Tests/Rounds.antt =====
-- How often the rounds run the tests.
use tac_master.Shared.{
  ℕ, zero, suc, ◌+◌, ◌≤◌, Bool, ◌≡◌, refl, Option, none, some, List, [], ◌∷◌, arith,
}
use tac_master.Workflows.Tests.{
  TestResult, Response, Results, no_results, failed_tests, parse_test_results, resolve_failed_tests,
  test_rounds, max_test_attempts,
}
use tac_master.Workflows.Tests.Outcome.{not_run, passes, last, stuck, again, round}

module _ {W : Type 0} (run : W → Response × W) (resolve : TestResult → W → Bool × W) where
  -- The agents, with a count of the test runs beside what they act on.
  abbrev pub counting : W × ℕ → Response × (W × ℕ)
  counting (w, n) = ((run w).0, ((run w).1, suc n))

  abbrev pub passing : TestResult → W × ℕ → Bool × (W × ℕ)
  passing t (w, n) = ((resolve t w).0, ((resolve t w).1, n))

  resolve-count :
      (ts : List TestResult) (w : W × ℕ) → (resolve_failed_tests counting passing ts w).1.1 ≡ w.1
  unfolding resolve_failed_tests
  resolve-count [] w = refl
  resolve-count (t ∷ ts) (w, n) = resolve-count ts ((resolve t w).1, n)

  rounds-count :
      (m : ℕ) (before : Results) (response : Option Response) (w : W × ℕ)
      → (test_rounds counting passing m before response w).1.1 ≤ w.1 + m
  unfolding test_rounds
  rounds-count zero before response w = omega arith
  rounds-count (suc m) before response (w, n) =
      let results = (parse_test_results (run w).0.output).results in
      let repaired =
        resolve_failed_tests counting passing (failed_tests results) ((run w).1, suc n) in
      let kept : repaired.1.1 ≡ suc n = resolve-count (failed_tests results) ((run w).1, suc n) in
      elim (round counting passing m before response (w, n)) [
        | not_run e h ↦ rw h (omega arith)
        | passes e p h ↦ rw h (omega arith)
        | last e p z h ↦ rw h (omega arith)
        | stuck e p g h ↦ rw h (omega (arith, kept))
        | again e p z g h ↦ rw h (
            omega (
              arith,
              kept,
              rounds-count m (parse_test_results (run w).0.output) (some (run w).0) repaired.1,
            ))
      ]

-- Whatever the agents answer, the tests are run four times at most.
pub test_rounds-bounded :
    {W : Type 0} (run : W → Response × W) (resolve : TestResult → W → Bool × W) (w : W)
    → (test_rounds
        (counting run resolve)
        (passing run resolve)
        max_test_attempts
        no_results
        none
        (w, 0)).1.1
      ≤ max_test_attempts
test_rounds-bounded run resolve w =
    omega (arith, rounds-count run resolve max_test_attempts no_results none (w, 0))
