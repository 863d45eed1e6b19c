-- ===== src/Webhook/Access.antt =====
-- Which requests get as far as a dispatch.
use tac_master.Shared.{
  ℕ, String, true, false, ◌≡◌, ◌≢◌, ◌↔◌, refl, sym, ◌∙◌, ap, Option, some, List, [], ◌++◌, Text,
  codes, text_eq, arith, ok, Bool-cases, Option-cases, inl, inr, text_beq_iff, text_differ,
  starts_with, string_eq, nat_eq, if◌then◌else◌, ◌&&◌, not, err, external_error,
}
use tac_master.Store.{Store}
use tac_master.Config.{RepoConfig, BudgetsConfig, find_repo}
use tac_master.Dispatch.Launch.{Answers}
use tac_master.Webhook.{
  Delivery, matched, match_delivery, is_triggered, verify_signature, compare_digest, is_ascii,
  github_webhook, invalid_signature,
}

module _ {Body : Type 0} (hmac : Text → Body → Text) (secret : Text) (body : Body)
    (header : Text) where
  -- What a header that is not the digest is verified as.
  forged-verify_signature :
      header ≢ codes "sha256=" ++ hmac secret body
      → is_ascii (hmac secret body) ≡ true
      → verify_signature hmac body secret header ≡ (
          if starts_with header (codes "sha256=") && not (is_ascii header)
          then err external_error
          else ok false)
  unfolding verify_signature compare_digest is_ascii
  forged-verify_signature forged digest = ground (
    arith,
    digest,
    text_differ (codes "sha256=" ++ hmac secret body) header (λ same. forged (sym same)),
  )

-- With a secret configured, a request whose signature header is not the digest of its body, a digest
-- being ASCII text, changes nothing. It is answered with 401, except that a header that starts with
-- `sha256=` and is not ASCII makes the handler raise.
pub github_webhook-forged :
    {Body : Type 0} (now : ℕ) (day : String) (cfg : BudgetsConfig) (repos : List RepoConfig)
    (answers : String → ℕ → Answers) (hmac : Text → Body → Text) (parse : Body → Option Delivery)
    (secret : Text) (body : Body) (header : Text) (s : Store)
    → secret ≢ []
    → header ≢ codes "sha256=" ++ hmac secret body
    → is_ascii (hmac secret body) ≡ true
    → github_webhook now day cfg repos answers hmac parse secret body header s ≡ (
      if starts_with header (codes "sha256=") && not (is_ascii header)
          then err external_error
          else ok invalid_signature,
      s,
    )
unfolding github_webhook
github_webhook-forged now day cfg repos answers hmac parse secret body header s set forged digest =
    let raises = starts_with header (codes "sha256=") && not (is_ascii header) in
    let verified = forged-verify_signature hmac secret body header forged digest in
    elim (Bool-cases raises) [
      | inl e ↦ rw (text_differ secret [] set, verified, e) refl
      | inr e ↦ rw (text_differ secret [] set, verified, e) refl
    ]

-- A delivery is matched exactly when its repository is on the allowlist, it names an issue, and one of
-- that repository's triggers fires; the match is for the listed url and the delivery's issue.
pub match_delivery_iff :
    (repos : List RepoConfig) (d : Delivery) (url : String) (number : ℕ) (title : Text)
    → (match_delivery repos d ≡ matched url number title) ↔ (
        (d.repository ≢ [])
        × (d.issue_number ≢ 0)
        × (number ≡ d.issue_number)
        × (title ≡ d.issue_title)
        × ((repo : RepoConfig) × (find_repo repos d.repository ≡ some repo)
            × (is_triggered repo d ≡ true)
            × (url ≡ repo.url)))
unfolding match_delivery
match_delivery_iff repos d url number title = elim (Option-cases (find_repo repos d.repository)) [
  | inl e ↦ (λ h. absurd (ground (arith, e, h)), λ h. absurd (ground (arith, e, h.4)))
  | inr (repo, e) ↦ (
    λ h. (
      (λ z. absurd (ground (arith, e, h, z, text_beq_iff d.repository []))),
      (λ z. absurd (ground (arith, e, h, z))),
      ground (arith, e, h),
      ground (arith, e, h),
      (repo, e, ground (arith, e, h), ground (arith, e, h)),
    ),
    λ h.
        let (set, numbered, n, t, (found, f, fires, u)) = h in
        let same : found ≡ repo = ground (arith, e, f) in
        let triggers : is_triggered repo d ≡ true = ap (λ r. is_triggered r d) (sym same) ∙ fires in
        let listed : url ≡ repo.url = u ∙ ap (λ (r : RepoConfig). r.url) same in
        rw (n, t, listed, text_differ d.repository [] set) (ground (arith, e, triggers, numbered)),
  )
]
