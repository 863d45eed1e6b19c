-- ===== src/Config.antt =====
-- The validated configuration (orchestrator/config.py): the allowlist and the budgets. The YAML
-- files are read by a library; `RawBudget` is one of its mappings, a field being `none` where the
-- key is missing.
pub mod Lookup
pub mod Validator
use tac_master.Shared.{
  ℕ, String, Bool, Option, none, some, List, [], ◌∷◌, ◌++◌, Text, codes, if◌then◌else◌, ◌==◌,
  text_eq, rstrip_slash, split_slash, without_git,
}

pub record RepoConfig : Type 0 where
  pub url : String
  pub is_self : Bool
  pub default_workflow : String
  pub model_set : String
  pub triggers : List String
  pub trigger_labels : List String
  pub auto_merge : Bool
  pub runtime : Text

-- `max_tokens_per_run` is not read by the program.
pub record BudgetEntry : Type 0 where
  pub max_tokens_per_day : ℕ
  pub max_runs_per_day : ℕ
  pub max_concurrent_runs : ℕ
  pub max_tokens_per_run : ℕ

pub record RawBudget : Type 0 where
  pub max_tokens_per_day : Option ℕ
  pub max_runs_per_day : Option ℕ
  pub max_concurrent_runs : Option ℕ
  pub max_tokens_per_run : Option ℕ

-- The `global` mapping, whose keys are looked up where they are used.
pub record GlobalBudget : Type 0 where
  pub max_concurrent_runs : Option ℕ
  pub max_tokens_per_day : Option ℕ
  pub max_runs_per_day : Option ℕ

pub record BudgetsConfig : Type 0 where
  pub global : GlobalBudget
  pub defaults : BudgetEntry
  -- a dict, keyed by the url without its final slashes
  pub repos : List (Text × BudgetEntry)
  pub warn_at_pct : Option ℕ

abbrev pub get_or : {A : Type 0} → Option A → A → A
get_or none d = d
get_or (some a) d = a

-- `{**defaults_raw, **entry}`: the entry's own values win.
abbrev pub merged : {A : Type 0} → Option A → Option A → Option A
merged none d = d
merged (some a) d = some a

-- `BudgetEntry(**raw)`
unfoldable pub entry_of : RawBudget → BudgetEntry
entry_of raw = record {
  max_tokens_per_day = get_or raw.max_tokens_per_day 2000000;
  max_runs_per_day = get_or raw.max_runs_per_day 20;
  max_concurrent_runs = get_or raw.max_concurrent_runs 5;
  max_tokens_per_run = get_or raw.max_tokens_per_run 500000;
}

unfoldable pub merge_raw : RawBudget → RawBudget → RawBudget
merge_raw defaults entry = record {
  max_tokens_per_day = merged entry.max_tokens_per_day defaults.max_tokens_per_day;
  max_runs_per_day = merged entry.max_runs_per_day defaults.max_runs_per_day;
  max_concurrent_runs = merged entry.max_concurrent_runs defaults.max_concurrent_runs;
  max_tokens_per_run = merged entry.max_tokens_per_run defaults.max_tokens_per_run;
}

-- `repos[url] = entry`, on a dict
unfoldable pub set_entry :
    Text → BudgetEntry → List (Text × BudgetEntry) → List (Text × BudgetEntry)
set_entry key e [] = (key, e) ∷ []
set_entry key e ((k, v) ∷ rest) =
    let others = set_entry key e rest in if k == key then (key, e) ∷ rest else (k, v) ∷ others

unfoldable pub get_entry : Text → List (Text × BudgetEntry) → Option BudgetEntry
get_entry key [] = none
get_entry key ((k, v) ∷ rest) = if k == key then some v else get_entry key rest

-- The loop of `load_budgets` over `raw["repos"]`, each with its url.
unfoldable pub load_entries :
    RawBudget → List (Text × RawBudget) → List (Text × BudgetEntry) → List (Text × BudgetEntry)
unfolding entry_of merge_raw set_entry
load_entries defaults [] repos = repos
load_entries defaults ((url, entry) ∷ raw) repos =
    load_entries defaults raw
      (set_entry (rstrip_slash url) (entry_of (merge_raw defaults entry)) repos)

unfoldable pub load_budgets :
    GlobalBudget → RawBudget → List (Text × RawBudget) → Option ℕ → BudgetsConfig
unfolding load_entries
load_budgets global defaults raw warn_at_pct = record {
  global = global;
  defaults = entry_of defaults;
  repos = load_entries defaults raw [];
  warn_at_pct = warn_at_pct;
}

unfoldable pub for_repo : BudgetsConfig → String → BudgetEntry
unfolding get_entry rstrip_slash
for_repo cfg url = get_or (get_entry (rstrip_slash (codes url)) cfg.repos) cfg.defaults

-- `ReposConfig.find`
unfoldable pub find_repo : List RepoConfig → Text → Option RepoConfig
unfolding rstrip_slash
find_repo [] url = none
find_repo (r ∷ rest) url =
    if rstrip_slash (codes r.url) == rstrip_slash url then some r else find_repo rest url

-- The last two components of the url, as OWNER/REPO; an IndexError is `none`.
unfoldable pub last_two : List Text → Option Text
last_two (owner ∷ repo ∷ []) = some (owner ++ b'/' ∷ repo)
last_two (x ∷ rest) = last_two rest
last_two [] = none

unfoldable pub slug : Text → Option Text
unfolding last_two rstrip_slash split_slash without_git
slug url = last_two (split_slash (without_git (rstrip_slash url)))
