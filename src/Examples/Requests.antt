-- ===== src/Examples/Requests.antt =====
-- The theorems on the webhook and on the ports, at small requests.
use tac_master.Shared.{
  starts_with, refl, ◌++◌, err, external_error, ℕ, ◌+◌, ◌<◌, Bool, true, false, ◌&&◌, ◌≡◌, ◌↔◌,
  Option, none, some, [], ◌∷◌, Text, codes, arith, Text,
}
use tac_master.Store.{empty}
use tac_master.Daemon.Cycles.{IsSound, empty-IsSound}
use tac_master.Webhook.{Delivery, github_webhook, is_ascii}
use tac_master.Webhook.Access.{github_webhook-forged}
use tac_master.Webhook.Sound.{github_webhook-IsSound}
use tac_master.Workflows.Ports.{find_next_available_ports}
use tac_master.Workflows.Ports.Search.{find_next_available_ports_iff}
use tac_master.Examples.Samples.{url, day, repo, cfg, answers, repos-AllNamed}

abbrev opened : Delivery
opened = record {
  event = "issues";
  action = "opened";
  repository = codes url;
  issue_number = 7;
  issue_title = codes "Fix the login";
  label = "";
  comment_body = [];
}

-- A digest of one character.
abbrev digest : Text → ℕ → Text
digest secret body = b'x' ∷ []

abbrev read : ℕ → Option Delivery
read body = some opened

-- The header `sha256=é`.
abbrev accented : Text
accented = codes "sha256=" ++ 233 ∷ []

github_webhook-forged_example :
    github_webhook 9 day cfg (repo ∷ []) (λ _ _. answers) digest read (codes "key") 0 accented empty
    ≡ (err external_error, empty)
unfolding is_ascii starts_with
github_webhook-forged_example =
    github_webhook-forged 9 day cfg (repo ∷ []) (λ _ _. answers) digest read (codes "key") 0
      accented empty (λ e. ground (arith, e)) (λ e. ground (arith, e)) refl

github_webhook-IsSound_example :
    IsSound cfg day
      (github_webhook 9 day cfg (repo ∷ []) (λ _ _. answers) digest read [] 0 [] empty).1
github_webhook-IsSound_example =
    github_webhook-IsSound 9 day cfg (repo ∷ []) (λ _ _. answers) digest read [] 0 [] empty
      repos-AllNamed (empty-IsSound cfg day)

abbrev hash : Text → ℕ
hash adw_id = 3

abbrev all_taken : ℕ → Bool
all_taken port = false

find_next_available_ports_iff_example :
    ((backend frontend : ℕ)
      → find_next_available_ports hash all_taken (codes "ab12cd34") ≡ some (backend, frontend)
      → (index : ℕ) × (index < 15)
        × (backend ≡ 9100 + index)
        × (frontend ≡ 9200 + index)
        × (all_taken backend ≡ true)
        × (all_taken frontend ≡ true))
    × ((find_next_available_ports hash all_taken (codes "ab12cd34") ≡ none) ↔ (
        (index : ℕ) → index < 15 → (all_taken (9100 + index) && all_taken (9200 + index)) ≡ false))
find_next_available_ports_iff_example =
    find_next_available_ports_iff hash all_taken (codes "ab12cd34")
