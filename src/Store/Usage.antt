-- ===== src/Store/Usage.antt =====
-- The daily counters: what each write adds to them, and that the global row stays the sum of the
-- repositories' rows.
use tac_master.Shared.{
  ℕ, ◌+◌, String, ◌≡◌, ◌≢◌, ◌||◌, refl, Option, none, some, List, [], ◌∷◌, arith, ◌&&◌, Bool-cases,
  Option-cases, inl, inr, if◌then◌else◌, ◌==◌, nat_eq, string_eq, eq_iff, find_row, any_row,
  find-update, find-append, find-none_of_any, find-eq_some, any-none_of_find,
}
use tac_master.Store.Rows.{Store, UsageRow, is_usage}
use tac_master.Store.{add_usage, add_run_count, usage_today, global_key}

abbrev pub counters : Option UsageRow → ℕ × ℕ
counters none = (0, 0)
counters (some r) = (r.tokens_used, r.runs_count)

-- The counters of a day and a key, as `usage_today` reads them.
abbrev pub usage_of : String → String → List UsageRow → ℕ × ℕ
usage_of day key rows = counters (find_row (is_usage day key) rows)

abbrev pub bump : ℕ → ℕ → UsageRow → UsageRow
bump tokens runs r = record r {
  tokens_used = r.tokens_used + tokens;
  runs_count = r.runs_count + runs;
}

pub usage-add_usage :
    (day key : String) (tokens runs : ℕ) (rows : List UsageRow) (day' key' : String)
    → usage_of day' key' (add_usage day key tokens runs rows) ≡ (
        if day == day' && key == key'
        then ((usage_of day' key' rows).0 + tokens, (usage_of day' key' rows).1 + runs)
        else usage_of day' key' rows)
unfolding add_usage find_row
usage-add_usage day key tokens runs rows day' key' =
    elim (Bool-cases (any_row (is_usage day key) rows)) [
      | inl e ↦ elim (Option-cases (find_row (is_usage day' key') rows)) [
        | inl f ↦ ground (
          arith,
          e,
          f,
          eq_iff day day',
          eq_iff key key',
          any-none_of_find (is_usage day key) rows,
          find-update (is_usage day' key') (is_usage day key) (bump tokens runs)
              (λ (r : UsageRow). refl) rows,
        )
        | inr (r, f) ↦ ground (
          arith,
          e,
          f,
          eq_iff day day',
          eq_iff key key',
          find-eq_some (is_usage day' key') rows r,
          eq_iff r.day day',
          eq_iff r.day day,
          eq_iff r.repo_url key,
          eq_iff r.repo_url key',
          find-update (is_usage day' key') (is_usage day key) (bump tokens runs)
              (λ (r : UsageRow). refl) rows,
        )
      ]
      | inr e ↦ ground (
        arith,
        e,
        eq_iff day day',
        eq_iff key key',
        find-none_of_any (is_usage day key) rows,
        find-append (is_usage day' key') rows
            (record { day = day; repo_url = key; tokens_used = tokens; runs_count = runs } ∷ []),
      )
    ]

pub usage_today_lem :
    (day key : String) (s : Store) → usage_today day key s ≡ usage_of day key s.budget_usage
unfolding usage_today
usage_today_lem day key s = elim (Option-cases (find_row (is_usage day key) s.budget_usage)) [
  | inl e ↦ ground (arith, e)
  | inr (r, e) ↦ ground (arith, e)
]

-- A run is counted for its repository and once more for the whole day, and for nothing else.
pub usage-add_run_count :
    (day url : String) (n : ℕ) (s : Store) (day' key : String)
    → url ≢ global_key
    → usage_today day' key (add_run_count day url n s) ≡ (
        if day == day' && (url == key || global_key == key)
        then ((usage_today day' key s).0, (usage_today day' key s).1 + n)
        else usage_today day' key s)
unfolding add_run_count
usage-add_run_count day url n s day' key ne = ground (
  arith,
  ne,
  usage_today_lem day' key s,
  usage_today_lem day' key (add_run_count day url n s),
  eq_iff url key,
  eq_iff global_key key,
  eq_iff url global_key,
  usage-add_usage day global_key 0 n (add_usage day url 0 n s.budget_usage) day' key,
  usage-add_usage day url 0 n s.budget_usage day' key,
)
