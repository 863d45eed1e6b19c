-- ===== src/Webhook/Sound.antt =====
-- What a request keeps.
use tac_master.Shared.{
  ℕ, String, ◌≡◌, ◌≢◌, refl, Option, none, some, List, [], ◌∷◌, Text, codes, ◌==◌, text_eq, arith,
  Exec, pure, transaction, try_except, ◌>>◌, Keeps, Keeps-pure, Keeps-bind, Keeps-try,
  Keeps-transaction, Bool-cases, Result-cases, true, false, inl, inr, rstrip_slash,
}
use tac_master.Store.{Store, seen_issue, global_key}
use tac_master.Store.Issues.{seen_issue_frame}
use tac_master.Store.Runs.{seen_issue-IsWellFormed}
use tac_master.Config.{RepoConfig, BudgetsConfig, find_repo}
use tac_master.Dispatch.Launch.{Answers, dispatch}
use tac_master.Dispatch.Poll.Steps.{all_none, all_more}
use tac_master.Dispatch.Poll.Caps.{AllNamed, Respects-same, dispatch-Respects}
use tac_master.Dispatch.Poll.Keys.{dispatch-Keeps}
use tac_master.Daemon.Cycles.{IsSound}
use tac_master.Webhook.{
  Delivery, Match, no_match, matched, match_delivery, fake_issue, verify_signature, Response,
  ignored, accepted, dispatch_from_webhook, handle_delivery, handle_payload, github_webhook,
}

find-named :
    (repos : List RepoConfig) (url : Text) (repo : RepoConfig)
    → AllNamed repos
    → find_repo repos url ≡ some repo
    → repo.url ≢ global_key
unfolding find_repo
find-named [] url repo all_none h = absurd (ground (arith, h))
find-named (r ∷ rest) url repo (all_more named all) h =
    elim (Bool-cases (rstrip_slash (codes r.url) == rstrip_slash url)) [
      | inl e ↦ (let same : repo ≡ r = ground (arith, e, h) in rw same named)
      | inr e ↦ find-named rest url repo all (ground (arith, e, h))
    ]

module _ (now : ℕ) (day : String) (cfg : BudgetsConfig) (repos : List RepoConfig)
    (answers : String → ℕ → Answers) (named : AllNamed repos) where
  sight-IsSound :
      (url : String) (number : ℕ) (title : Text)
      → Keeps (IsSound cfg day) (transaction (seen_issue now url number title none))
  sight-IsSound url number title = Keeps-transaction _ (λ s t status v h.
      let (runs, usage, _) = seen_issue_frame now url number title none s h in
      record {
        caps = Respects-same cfg day s t runs usage v.caps;
        keys = seen_issue-IsWellFormed now url number title none s t status v.keys h;
      })

  launch-IsSound :
      (repo : RepoConfig) (number : ℕ) (title : Text)
      → repo.url ≢ global_key
      → Keeps
          (IsSound cfg day)
          (dispatch now day (answers repo.url number) repo (fake_issue number title) cfg)
  launch-IsSound repo number title ne = record {
    at = λ s v. record {
      caps =
          (dispatch-Respects now day cfg (answers repo.url number) repo (fake_issue number title)
              ne).at
            s v.caps;
      keys =
          (dispatch-Keeps now day (answers repo.url number) repo (fake_issue number title) cfg).at s
            v.keys;
    };
  }

  abbrev background : String → ℕ → Text → RepoConfig → Exec Store (Unit {0})
  background url number title repo =
      try_except
        (transaction (seen_issue now url number title none)
          >> (dispatch now day (answers repo.url number) repo (fake_issue number title) cfg
              >> pure tt))
        (λ e. pure tt)

  background-IsSound :
      (url : String) (number : ℕ) (title : Text) (repo : RepoConfig)
      → repo.url ≢ global_key
      → Keeps (IsSound cfg day) (background url number title repo)
  background-IsSound url number title repo ne =
      Keeps-try _ _
        (Keeps-bind _ _ (sight-IsSound url number title)
          (λ _. Keeps-bind _ _ (launch-IsSound repo number title ne) (λ _. Keeps-pure tt)))
        (λ e. Keeps-pure tt)

  dispatch-IsSound :
      (url : String) (number : ℕ) (title : Text)
      → Keeps (IsSound cfg day) (dispatch_from_webhook now day cfg repos answers url number title)
  unfolding dispatch_from_webhook
  dispatch-IsSound url number title = record {
    at = λ s v. from s (find_repo repos (codes url)) refl v;
  }
    where
      from :
          (s : Store) (found : Option RepoConfig)
          → find_repo repos (codes url) ≡ found
          → IsSound cfg day s
          → IsSound cfg day
              (elim found as (λ _. Exec Store (Unit {0})) [
                | none ↦ pure tt
                | some repo ↦ background url number title repo
              ]
                s).1
      from s none e v = v
      from s (some repo) e v =
          (background-IsSound url number title repo (find-named repos (codes url) repo named e)).at
            s v

  handle-IsSound :
      (d : Delivery) → Keeps (IsSound cfg day) (handle_delivery now day cfg repos answers d)
  unfolding handle_delivery
  handle-IsSound d = at (match_delivery repos d)
    where
      at :
          (m : Match)
          → Keeps (IsSound cfg day) (elim m as (λ _. Exec Store Response) [
            | no_match ↦ pure ignored
            | matched url number title ↦
                dispatch_from_webhook now day cfg repos answers url number title >> pure accepted
          ])
      at no_match = Keeps-pure _
      at (matched url number title) =
          Keeps-bind _ _ (dispatch-IsSound url number title) (λ _. Keeps-pure _)

  payload-IsSound :
      (parsed : Option Delivery)
      → Keeps (IsSound cfg day) (handle_payload now day cfg repos answers parsed)
  unfolding handle_payload
  payload-IsSound none = Keeps-pure _
  payload-IsSound (some d) = handle-IsSound d

-- A request to the webhook, with the dispatch that it starts, keeps the caps on concurrent runs and
-- on the day's runs and the declared keys of the store, given that no repository's url is the
-- key of the global counters.
pub github_webhook-IsSound :
    {Body : Type 0} (now : ℕ) (day : String) (cfg : BudgetsConfig) (repos : List RepoConfig)
    (answers : String → ℕ → Answers) (hmac : Text → Body → Text) (parse : Body → Option Delivery)
    (secret : Text) (body : Body) (header : Text) (s : Store)
    → AllNamed repos
    → IsSound cfg day s
    → IsSound cfg day (github_webhook now day cfg repos answers hmac parse secret body header s).1
unfolding github_webhook
github_webhook-IsSound now day cfg repos answers hmac parse secret body header s named v =
    let handled = (payload-IsSound now day cfg repos answers named (parse body)).at s v in
    elim (Bool-cases (secret == [])) [
      | inl e ↦ rw e handled
      | inr e ↦ elim (Result-cases (verify_signature hmac body secret header)) [
        | inl (true, k) ↦ rw (e, k) handled
        | inl (false, k) ↦ rw (e, k) v
        | inr (x, k) ↦ rw (e, k) v
      ]
    ]
