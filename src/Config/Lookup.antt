-- ===== src/Config/Lookup.antt =====
-- Which entry a repository's budget is: `load_budgets` followed by `for_repo`.
use tac_master.Shared.{
  ℕ, String, ◌≡◌, refl, Option, none, some, List, [], ◌∷◌, Text, codes, arith, if◌then◌else◌, ◌==◌,
  text_eq, text_beq_iff, rstrip_slash,
}
use tac_master.Config.{
  BudgetEntry, RawBudget, GlobalBudget, entry_of, merge_raw, set_entry, get_entry, load_entries,
  load_budgets, for_repo,
}

-- The last entry of the file for a url, up to final slashes.
unfoldable pub last_listed : Text → List (Text × RawBudget) → Option RawBudget
last_listed key [] = none
last_listed key ((url, entry) ∷ raw) = elim (last_listed key raw) [
  | some later ↦ some later
  | none ↦ if rstrip_slash url == key then some entry else none
]

get_entry-set_entry :
    (key key' : Text) (e : BudgetEntry) (repos : List (Text × BudgetEntry))
    → get_entry key' (set_entry key e repos)
      ≡ (if key == key' then some e else get_entry key' repos)
unfolding get_entry set_entry
get_entry-set_entry key key' e [] = refl
get_entry-set_entry key key' e ((k, v) ∷ rest) = ground (
  arith,
  get_entry-set_entry key key' e rest,
  text_beq_iff k key,
  text_beq_iff k key',
  text_beq_iff key key',
)

get_entry-load_entries :
    (key : Text) (defaults : RawBudget) (raw : List (Text × RawBudget))
    (repos : List (Text × BudgetEntry))
    → get_entry key (load_entries defaults raw repos) ≡ elim (last_listed key raw) [
      | some entry ↦ some (entry_of (merge_raw defaults entry))
      | none ↦ get_entry key repos
    ]
unfolding load_entries last_listed
get_entry-load_entries key defaults [] repos = refl
get_entry-load_entries key defaults ((url, entry) ∷ raw) repos =
    let e = entry_of (merge_raw defaults entry) in
    ground (
      arith,
      get_entry-load_entries key defaults raw (set_entry (rstrip_slash url) e repos),
      get_entry-set_entry (rstrip_slash url) key e repos,
    )

-- A number of the entry where it gives one, else of the file's defaults, else the built-in one.
abbrev pub first_given : Option ℕ → Option ℕ → ℕ → ℕ
first_given (some n) default built_in = n
first_given none (some n) built_in = n
first_given none none built_in = built_in

-- What the last entry for a url gives for a field.
abbrev pub given_by : (RawBudget → Option ℕ) → Option RawBudget → Option ℕ
given_by field none = none
given_by field (some entry) = field entry

-- Each of the four numbers of a repository's budget is the one that the last entry listed for its
-- url gives, else the file's default, else the built-in number: 2000000 tokens and 20 runs a day,
-- 5 runs at a time and 500000 tokens a run.
pub for_repo-load_budgets :
    (global : GlobalBudget) (defaults : RawBudget) (raw : List (Text × RawBudget)) (pct : Option ℕ)
    (url : String)
    → let entry = last_listed (rstrip_slash (codes url)) raw in
      let budget = for_repo (load_budgets global defaults raw pct) url in
      (budget.max_tokens_per_day
        ≡ first_given
            (given_by (λ e. e.max_tokens_per_day) entry)
            defaults.max_tokens_per_day
            2000000)
      × (budget.max_runs_per_day
          ≡ first_given (given_by (λ e. e.max_runs_per_day) entry) defaults.max_runs_per_day 20)
      × (budget.max_concurrent_runs
          ≡ first_given
              (given_by (λ e. e.max_concurrent_runs) entry)
              defaults.max_concurrent_runs
              5)
      × (budget.max_tokens_per_run
          ≡ first_given
              (given_by (λ e. e.max_tokens_per_run) entry)
              defaults.max_tokens_per_run
              500000)
unfolding for_repo load_budgets get_entry
for_repo-load_budgets global defaults raw pct url =
    ground (arith, get_entry-load_entries (rstrip_slash (codes url)) defaults raw [])
