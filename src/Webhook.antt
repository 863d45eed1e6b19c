-- ===== src/Webhook.antt =====
-- The webhook server (orchestrator/webhook_server.py): the request handler with its background task.
-- HMAC-SHA256 is `hmac`, with its digest in hexadecimal; a body that is no JSON is `none`.
pub mod Access
pub mod Sound
use tac_master.Shared.{
  ℕ, String, Bool, true, false, ◌&&◌, ◌||◌, Option, none, some, List, [], ◌∷◌, ◌++◌, Text, codes,
  if◌then◌else◌, ◌==◌, nat_eq, string_eq, text_eq, Exec, pure, transaction, try_except, ◌>>=◌, ◌>>◌,
  starts_with, strip, lower, ltb, Result, ok, err, external_error, raise,
}
use tac_master.Store.{Store, seen_issue}
use tac_master.Config.{RepoConfig, BudgetsConfig, find_repo}
use tac_master.GitHub.{Issue}
use tac_master.Dispatch.Trigger.{contains}
use tac_master.Dispatch.Launch.{Answers, dispatch}

-- A delivery, by what the server reads of it; a missing key is empty, and a missing number 0.
pub record Delivery : Type 0 where
  pub event : String
  pub action : String
  pub repository : Text
  pub issue_number : ℕ
  pub issue_title : Text
  pub label : String
  pub comment_body : Text

-- The repository's url, the issue's number and its title, or no match.
pub data Match : Type 0 where
  no_match : Match
  matched : String → ℕ → Text → Match

-- `body == "adw" or body.startswith("adw_")`, of the stripped body in lower case
unfoldable pub is_adw_command : Text → Bool
unfolding strip lower starts_with
is_adw_command body =
    lower (strip body) == codes "adw" || starts_with (lower (strip body)) (codes "adw_")

-- One of the three triggers.
unfoldable pub is_triggered : RepoConfig → Delivery → Bool
unfolding contains is_adw_command
is_triggered repo d =
    d.event == "issues" && d.action == "opened" && contains "new_issue" repo.triggers
    || d.event == "issues"
      && d.action == "labeled"
      && contains "label" repo.triggers
      && contains d.label repo.trigger_labels
    || d.event == "issue_comment"
      && d.action == "created"
      && contains "comment_adw" repo.triggers
      && is_adw_command d.comment_body

-- `_should_dispatch`
unfoldable pub match_delivery : List RepoConfig → Delivery → Match
unfolding find_repo is_triggered
match_delivery repos d =
    if d.repository == [] then no_match else elim (find_repo repos d.repository) [
      | none ↦ no_match
      | some repo ↦
          if d.issue_number == 0
          then no_match
          else if is_triggered repo d
          then matched repo.url d.issue_number d.issue_title
          else no_match
    ]

-- The issue that the background task makes up.
abbrev pub fake_issue : ℕ → Text → Issue
fake_issue number title = record {
  number = number;
  title = title;
  body = [];
  labels = [];
  comments_count = 0;
}

-- A `str` of ASCII characters only.
unfoldable pub is_ascii : Text → Bool
is_ascii [] = true
is_ascii (c ∷ s) = if ltb c 128 then is_ascii s else false

-- `hmac.compare_digest` of two strings, which raises a TypeError where one is not ASCII.
unfoldable pub compare_digest : Text → Text → Result Bool
unfolding is_ascii
compare_digest a b = if is_ascii a && is_ascii b then ok (a == b) else err external_error

-- `_verify_signature`
unfoldable pub verify_signature :
    {Body : Type 0} → (Text → Body → Text) → Body → Text → Text → Result Bool
unfolding starts_with compare_digest
verify_signature hmac body secret header =
    if starts_with header (codes "sha256=")
    then compare_digest (codes "sha256=" ++ hmac secret body) header
    else ok false

pub data Response : Type 0 where
  -- 401, 400, and 202 with either status
  invalid_signature invalid_json ignored accepted : Response

module _ (now : ℕ) (day : String) (cfg : BudgetsConfig) (repos : List RepoConfig)
    (answers : String → ℕ → Answers) where
  -- `_dispatch_from_webhook`
  unfoldable pub dispatch_from_webhook : String → ℕ → Text → Exec Store (Unit {0})
  unfolding find_repo dispatch seen_issue
  dispatch_from_webhook url number title = elim (find_repo repos (codes url)) [
    | none ↦ pure tt
    | some repo ↦
        try_except
          (transaction (seen_issue now url number title none)
            >> (dispatch now day (answers repo.url number) repo (fake_issue number title) cfg
                >> pure tt))
          (λ e. pure tt)
  ]

  unfoldable pub handle_delivery : Delivery → Exec Store Response
  unfolding match_delivery dispatch_from_webhook
  handle_delivery d = elim (match_delivery repos d) [
    | no_match ↦ pure ignored
    | matched url number title ↦ do dispatch_from_webhook url number title; pure accepted
  ]

  unfoldable pub handle_payload : Option Delivery → Exec Store Response
  unfolding handle_delivery
  handle_payload none = pure invalid_json
  handle_payload (some d) = handle_delivery d

  -- `github_webhook`, with its background task; where it raises, the server answers with 500
  unfoldable pub github_webhook :
      {Body : Type 0}
      → (Text → Body → Text)
      → (Body → Option Delivery)
      → Text
      → Body
      → Text
      → Exec Store Response
  unfolding verify_signature handle_payload
  github_webhook hmac parse secret body header =
      if secret == []
      then handle_payload (parse body)
      else elim (verify_signature hmac body secret header) [
        | err e ↦ raise e
        | ok true ↦ handle_payload (parse body)
        | ok false ↦ pure invalid_signature
      ]
