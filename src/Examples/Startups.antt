-- ===== src/Examples/Startups.antt =====
-- The theorems on the start of the daemon, at a configuration with a placeholder.
use tac_master.Shared.{
  true, false, not, ◌&&◌, ◌≡◌, refl, inl, none, some, [], ◌∷◌, codes, ok, any_row, string_eq,
}
use tac_master.Config.Validator.{
  Document, document, leaf, items, section, mapping, number, text, fatal, placeholder, validate_all,
  has_fatal, value_of, has_placeholder, repo_warnings, entry_warnings, placeholder_warning,
  workflow_warning, validate_repos_yaml, validate_budgets_yaml, global_warnings, has_max_tokens,
  budget_warnings, repos_of,
}
use tac_master.Config.Validator.Usable.{usable_repos, usable_budgets, usable_items, is_filled}
use tac_master.Config.Validator.Fatal.{validate_all-fatal}
use tac_master.Tokens.{occurs}
use tac_master.Daemon.Startup.{Args, Checks, Openings, Database, main}
use tac_master.Daemon.Startup.Guards.{IsGuarded, main-IsGuarded}
use tac_master.Examples.Samples.{day, cfg, repo, world, stocked}

abbrev repos_yaml : Document
repos_yaml = document (
    ("version", leaf (number 1))
    ∷ ("repos", items (mapping (("url", text (codes "https://github.com/OWNER/app")) ∷ []) ∷ []))
    ∷ [])

abbrev budgets_yaml : Document
budgets_yaml = document (
    ("version", leaf (number 1))
    ∷ ("global", section (("max_tokens_per_day", number 2000000) ∷ []))
    ∷ [])

checked : validate_all repos_yaml budgets_yaml ≡ ok (fatal (placeholder 0) ∷ [])
unfolding validate_all validate_repos_yaml validate_budgets_yaml repo_warnings entry_warnings
    placeholder_warning workflow_warning global_warnings has_max_tokens budget_warnings repos_of
    has_placeholder value_of occurs any_row
checked = refl

not_usable : usable_repos repos_yaml && usable_budgets budgets_yaml ≡ false
unfolding usable_repos usable_items is_filled has_placeholder value_of occurs
not_usable = refl

validate_all-fatal_example :
    has_fatal (fatal (placeholder 0) ∷ [])
    ≡ not (usable_repos repos_yaml && usable_budgets budgets_yaml)
validate_all-fatal_example =
    validate_all-fatal repos_yaml budgets_yaml (fatal (placeholder 0) ∷ []) checked

abbrev checks : Checks
checks = record {
  github_user = true;
  github_pat = true;
  anthropic_api_key = true;
  github_auth = some true;
  has_adws = true;
  has_claude = true;
  claude_found = true;
  claude_runs = some true;
  images = [];
  podman_found = false;
  podman_runs = false;
  image_built = λ image. none;
  tables_answer = true;
  has_prices = true;
}

abbrev examining : Args
examining = record { once = false; doctor = true }

abbrev openings : Openings
openings = record { state_store = none; knowledge_base = none; token_tracker = none }

abbrev database : Database
database = record { tables = "runs" ∷ []; store = stocked }

main-IsGuarded_example :
    IsGuarded true (usable_repos repos_yaml && usable_budgets budgets_yaml) openings database (
      main day cfg
        (repo ∷ [])
        []
        examining
        true
        repos_yaml
        budgets_yaml
        checks
        openings
        true
        world
        (world ∷ [])
        database)
main-IsGuarded_example =
    main-IsGuarded day cfg (repo ∷ []) [] examining true repos_yaml budgets_yaml checks openings
      true world (world ∷ []) database (fatal (placeholder 0) ∷ []) checked (inl not_usable)
