-- ===== src/Workflows/Zte/Shipping.antt =====
-- When the pipeline ships.
use tac_master.Shared.{ℕ, Bool, true, false, ◌≡◌, ◌↔◌, ◌⊎◌, List, [], ◌∷◌, nat_eq, arith}
use tac_master.Workflows.Zte.{
  Phase, plan, build, test, review, document, ship, required, optional, zero_touch,
}

abbrev pub ships : List Phase → Bool
ships [] = false
ships (ship ∷ phases) = true
ships (plan ∷ phases) = ships phases
ships (build ∷ phases) = ships phases
ships (test ∷ phases) = ships phases
ships (review ∷ phases) = ships phases
ships (document ∷ phases) = ships phases

-- The pipeline starts the ship phase exactly when the plan, build, test and review phases exit with 0,
-- whatever the documentation phase does. It exits with 0 exactly when it ships and the ship phase
-- exits with 0, and with 1 otherwise.
pub zero_touch-ships :
    (code : Phase → ℕ)
    → ((ships (zero_touch code).phases ≡ true)
        ↔ ((code plan ≡ 0) × (code build ≡ 0) × (code test ≡ 0) × (code review ≡ 0)))
      × (((zero_touch code).code ≡ 0) ↔ ((ships (zero_touch code).phases ≡ true) × (code ship ≡ 0)))
      × (((zero_touch code).code ≡ 0) ⊎ ((zero_touch code).code ≡ 1))
unfolding zero_touch required optional
zero_touch-ships code = ground arith
