-- ===== src/Workflows/Tests/Outcome.antt =====
-- What the rounds of tests report at their end.
use tac_master.Shared.{
  ℕ, zero, suc, ◌<◌, Bool, true, false, ◌≡◌, refl, ◌⊎◌, Option, none, some, ◌==◌, nat_eq, ltb,
  arith, Bool-cases, inl, inr,
}
use tac_master.Workflows.Tests.{
  TestResult, Response, Results, no_results, failed_tests, parse_test_results, resolve_failed_tests,
  test_rounds, Agents, total_failures, max_test_attempts,
}

module _ {W : Type 0} (run : W → Response × W) (resolve : TestResult → W → Bool × W) where
  abbrev parsed : W → Results
  parsed w = parse_test_results (run w).0.output

  abbrev repaired : W → (ℕ × ℕ) × W
  repaired w = resolve_failed_tests run resolve (failed_tests (parsed w).results) (run w).1

  -- One round: it is the last one, or it resolved some failure and goes on.
  pub data Round (remaining : ℕ) (before : Results) (w : W) (out : (Results × Option Response) × W)
      : Type 0 where
    not_run :
        (run w).0.success ≡ false
        → out ≡ ((before, some (run w).0), (run w).1)
        → Round remaining before w out
    passes :
        (run w).0.success ≡ true
        → (parsed w).failed_count ≡ 0
        → out ≡ ((parsed w, some (run w).0), (run w).1)
        → Round remaining before w out
    last :
        (run w).0.success ≡ true
        → 0 < (parsed w).failed_count
        → remaining ≡ 0
        → out ≡ ((parsed w, some (run w).0), (run w).1)
        → Round remaining before w out
    stuck :
        (run w).0.success ≡ true
        → 0 < (parsed w).failed_count
        → (repaired w).0.0 ≡ 0
        → out ≡ ((parsed w, some (run w).0), (repaired w).1)
        → Round remaining before w out
    again :
        (run w).0.success ≡ true
        → 0 < (parsed w).failed_count
        → 0 < remaining
        → 0 < (repaired w).0.0
        → out ≡ test_rounds run resolve remaining (parsed w) (some (run w).0) (repaired w).1
        → Round remaining before w out

  pub round :
      (remaining : ℕ) (before : Results) (response : Option Response) (w : W)
      → Round remaining before w (test_rounds run resolve (suc remaining) before response w)
  unfolding test_rounds
  round remaining before response w = elim (Bool-cases (run w).0.success) [
    | inr e ↦ not_run e (ground (arith, e))
    | inl e ↦ elim (Bool-cases ((parsed w).failed_count == 0)) [
      | inl p ↦ passes e (ground arith) (ground (arith, e, p))
      | inr p ↦ elim (Bool-cases (remaining == 0)) [
        | inl z ↦ last e (ground arith) (ground arith) (ground (arith, e, p, z))
        | inr z ↦ elim (Bool-cases (ltb 0 (repaired w).0.0)) [
          | inl g ↦
              again e (ground arith) (ground arith) (ground arith) (ground (arith, e, p, z, g))
          | inr g ↦ stuck e (ground arith) (ground arith) (ground (arith, e, p, z, g))
        ]
      ]
    ]
  ]

  -- The results at the end belong to the response at the end.
  abbrev IsReported : Results × Option Response → Type 0
  IsReported end =
      (answer : Response) × (end.1 ≡ some answer)
      × (answer.success ≡ true → end.0 ≡ parse_test_results answer.output)

  end-IsReported :
      (n : ℕ) (before : Results) (w : W) (out : (Results × Option Response) × W)
      → Round n before w out
      → (0 < n
          → IsReported (test_rounds run resolve n (parsed w) (some (run w).0) (repaired w).1).0)
      → IsReported out.0
  end-IsReported n before w out (not_run e h) more =
      ((run w).0, rw h refl, λ s. absurd (ground (arith, e, s)))
  end-IsReported n before w out (passes e p h) more = ((run w).0, rw h refl, λ s. rw h refl)
  end-IsReported n before w out (last e p z h) more = ((run w).0, rw h refl, λ s. rw h refl)
  end-IsReported n before w out (stuck e p g h) more = ((run w).0, rw h refl, λ s. rw h refl)
  end-IsReported n before w out (again e p z g h) more = rw h (more z)

  rounds-IsReported :
      (n : ℕ) (before : Results) (response : Option Response) (w : W)
      → 0 < n
      → IsReported (test_rounds run resolve n before response w).0
  rounds-IsReported zero before response w z = absurd (omega arith)
  rounds-IsReported (suc n) before response w z =
      end-IsReported n before w _ (round n before response w)
        (rounds-IsReported n (parsed w) (some (run w).0) (repaired w).1)

-- The four rounds of tests end with a response, and where the tests could be run in the last round,
-- the results are that round's: those of its output, with each failed test counted.
pub test_rounds-reports :
    {W : Type 0} (run : W → Response × W) (resolve : TestResult → W → Bool × W) (w : W)
    → let out = (test_rounds run resolve max_test_attempts no_results none w).0 in
      (answer : Response) × (out.1 ≡ some answer)
      × (answer.success ≡ true → out.0 ≡ parse_test_results answer.output)
test_rounds-reports run resolve w =
    rounds-IsReported run resolve max_test_attempts no_results none w (omega arith)

-- A test phase whose tests could not be run, or whose output is no list of results, in its first round
-- counts no failures when end-to-end tests are skipped, and so it passes.
pub total_failures-unchecked :
    {W : Type 0} (agents : Agents W) (w : W)
    → ((agents.run_tests w).0.success ≡ false) ⊎ ((agents.run_tests w).0.output ≡ none)
    → total_failures agents true w ≡ 0
unfolding total_failures parse_test_results
total_failures-unchecked agents w failed =
    elim (round agents.run_tests agents.resolve_test 3 no_results none w) [
      | not_run e h ↦ rw h refl
      | passes e p h ↦ rw h (ground (arith, p))
      | last e p z h ↦ absurd (omega arith)
      | stuck e p g h ↦ absurd (ground (arith, e, p, failed))
      | again e p z g h ↦ absurd (ground (arith, e, p, failed))
    ]
