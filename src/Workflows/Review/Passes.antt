-- ===== src/Workflows/Review/Passes.antt =====
-- Which review the review phase ends with.
use tac_master.Shared.{
  String, Bool, true, false, ◌||◌, ◌≡◌, ◌⊎◌, refl, Option, none, some, if◌then◌else◌, Bool-cases,
  inl, inr,
}
use tac_master.Workflows.Review.{
  ReviewIssue, ReviewResult, ReviewResponse, max_review_attempts, review_result, blocker_issues,
  no_issues, resolve_blocker_issues, review_rounds,
}

module _ {W : Type 0} (review : W → ReviewResponse × W) (plan : ReviewIssue → W → Option String × W)
    (implement : String → W → Bool × W) (skip_resolution : Bool) where
  -- The result of a review, whether nothing is left to resolve after it, and the state after its
  -- blockers are resolved.
  abbrev reviewed : W → ReviewResult
  reviewed w = review_result (review w).0

  abbrev is_done : W → Bool
  is_done w = no_issues (blocker_issues (reviewed w).review_issues) || skip_resolution

  abbrev resolved : W → W
  resolved w =
      resolve_blocker_issues review plan implement (blocker_issues (reviewed w).review_issues)
        (review w).1

  abbrev pub Ending : W → W → Option ReviewResult × W → Type 0
  Ending w v end =
      (((is_done w ≡ true) × (v ≡ w)) ⊎ ((is_done w ≡ false) × (v ≡ resolved w)))
      × (end ≡ (some (reviewed v), if is_done v then (review v).1 else resolved v))

  -- The review phase ends with the first review where that leaves nothing to resolve, and with the
  -- review after the first resolution otherwise, so that no third review is made. Blockers of that
  -- review are resolved, and the phase ends without a review of what this did.
  pub review_rounds-passes :
      (w : W)
      → (v : W) × Ending w v
          (review_rounds review plan implement skip_resolution max_review_attempts 0 none w)
  unfolding review_rounds
  review_rounds-passes w = elim (Bool-cases (is_done w)) [
    | inl e ↦ (w, (inl (e, refl), rw e refl))
    | inr e ↦ elim (Bool-cases (is_done (resolved w))) [
      | inl f ↦ (resolved w, (inr (e, refl), rw (e, f) refl))
      | inr f ↦ (resolved w, (inr (e, refl), rw (e, f) refl))
    ]
  ]
