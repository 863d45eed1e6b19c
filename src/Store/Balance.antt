-- ===== src/Store/Balance.antt =====
-- The global row of budget_usage holds the sum of the repositories' rows, day by day.
use tac_master.Shared.{
  ℕ, ◌+◌, String, Bool, ◌≡◌, ◌≢◌, refl, ◌∙◌, List, [], ◌∷◌, ◌++◌, arith, true, ◌&&◌, not,
  Bool-cases, inl, inr, if◌then◌else◌, ◌==◌, nat_eq, string_eq, eq_iff, str_eq_self, find_row,
  update_rows, any_row, Unique, Unique-update, Unique-append, update-none, any-congr, sym,
}
use tac_master.Store.Rows.{Store, UsageRow, is_usage}
use tac_master.Store.Usage.{usage_of, bump, usage-add_usage}
use tac_master.Store.{add_usage, add_tokens, add_run_count, global_key}

-- A row of the day that is not the global one.
is_repo_row : String → UsageRow → Bool
is_repo_row day r = r.day == day && not (r.repo_url == global_key)

-- One of the day's counters summed over every row but the global one.
pub repo_sum : (UsageRow → ℕ) → String → List UsageRow → ℕ
repo_sum count day [] = 0
repo_sum count day (r ∷ rows) = (if is_repo_row day r then count r else 0) + repo_sum count day rows

abbrev pub same_usage : UsageRow → UsageRow → Bool
same_usage r q = is_usage r.day r.repo_url q

module _ (count : UsageRow → ℕ) (day : String) where
  repo_sum-append :
      (rows : List UsageRow) (r : UsageRow)
      → repo_sum count day (rows ++ r ∷ [])
        ≡ repo_sum count day rows + (if is_repo_row day r then count r else 0)
  unfolding repo_sum
  repo_sum-append [] r = omega arith
  repo_sum-append (q ∷ rows) r = omega (arith, repo_sum-append rows r)

  -- One row has the key, so an update of it adds its amount once.
  repo_sum-update :
      (q : UsageRow → Bool) (f : UsageRow → UsageRow) (amount : ℕ) (repo : Bool)
      → ((r : UsageRow)
          → q r ≡ true
          → (is_repo_row day r ≡ repo)
            × (is_repo_row day (f r) ≡ repo)
            × (count (f r) ≡ count r + amount)
            × ((x : UsageRow) → same_usage r x ≡ q x))
      → (rows : List UsageRow) → Unique same_usage rows
      → any_row q rows ≡ true
      → repo_sum count day (update_rows q f rows)
        ≡ repo_sum count day rows + (if repo then amount else 0)
  unfolding repo_sum any_row update_rows
  repo_sum-update q f amount repo at [] u h = cc
  repo_sum-update q f amount repo at (r ∷ rows) u h = elim (Bool-cases (q r)) [
    | inl e ↦
        let (before, after, grows, key) = at r e in
        let rest : update_rows q f rows ≡ rows =
          update-none q f rows (sym (any-congr (same_usage r) q key rows) ∙ u.0) in
        rw (e, rest, after) (ground (arith, before, grows))
    | inr e ↦ rw e (omega (arith, repo_sum-update q f amount repo at rows u.1 (rw e at h)))
  ]

counted : String → String → String → Bool
counted day day' key = day' == day && not (key == global_key)

repo_sum-add_usage :
    (count : UsageRow → ℕ) (day day' key : String) (tokens runs amount : ℕ)
    → ((r : UsageRow) → count (bump tokens runs r) ≡ count r + amount)
    → count (record { day = day'; repo_url = key; tokens_used = tokens; runs_count = runs })
      ≡ amount
    → (rows : List UsageRow) → Unique same_usage rows
    → repo_sum count day (add_usage day' key tokens runs rows)
      ≡ repo_sum count day rows + (if counted day day' key then amount else 0)
unfolding add_usage counted is_repo_row
repo_sum-add_usage count day day' key tokens runs amount grows new rows u =
    elim (Bool-cases (any_row (is_usage day' key) rows)) [
      | inl e ↦ rw e (
          repo_sum-update count day (is_usage day' key) (bump tokens runs) amount
            (day' == day && not (key == global_key)) at rows u e)
      | inr e ↦
          rw
            (
              e,
              repo_sum-append count day rows
                  (record { day = day'; repo_url = key; tokens_used = tokens; runs_count = runs }),
            )
            (rw new)
    ]
  where
    at :
        (r : UsageRow)
        → is_usage day' key r ≡ true
        → (is_repo_row day r ≡ (day' == day && not (key == global_key)))
          × (is_repo_row day (bump tokens runs r) ≡ (day' == day && not (key == global_key)))
          × (count (bump tokens runs r) ≡ count r + amount)
          × ((x : UsageRow) → same_usage r x ≡ is_usage day' key x)
    at r h =
        let d : r.day ≡ day' = (eq_iff r.day day').0 (ground arith) in
        let k : r.repo_url ≡ key = (eq_iff r.repo_url key).0 (ground arith) in
        (cc, cc, grows r, λ x. cc)

Unique-add_usage :
    (day key : String) (tokens runs : ℕ) (rows : List UsageRow)
    → Unique same_usage rows
    → Unique same_usage (add_usage day key tokens runs rows)
unfolding add_usage
Unique-add_usage day key tokens runs rows u = elim (Bool-cases (any_row (is_usage day key) rows)) [
  | inl e ↦ rw e (
      Unique-update same_usage (is_usage day key) (bump tokens runs) (λ x y. refl) (λ x y. refl)
        rows u)
  | inr e ↦ rw e (Unique-append same_usage same_usage_comm rows _ e u)
]
  where
    same_usage_comm : (r q : UsageRow) → same_usage r q ≡ same_usage q r
    same_usage_comm r q = ground (
      arith,
      eq_iff r.day q.day,
      eq_iff q.day r.day,
      eq_iff r.repo_url q.repo_url,
      eq_iff q.repo_url r.repo_url,
    )

-- The rows' keys are unique, and every day's global counters are the sums of the others'.
pub record IsBalanced (rows : List UsageRow) : Type 0 where
  pub unique : Unique same_usage rows
  pub tokens :
      (day : String) → (usage_of day global_key rows).0 ≡ repo_sum (λ r. r.tokens_used) day rows
  pub runs :
      (day : String) → (usage_of day global_key rows).1 ≡ repo_sum (λ r. r.runs_count) day rows

pub empty-IsBalanced : IsBalanced []
unfolding find_row repo_sum
empty-IsBalanced = record { unique = tt; tokens = λ day. refl; runs = λ day. refl }

add_both : String → String → ℕ → ℕ → List UsageRow → List UsageRow
add_both day key tokens runs rows =
    add_usage day global_key tokens runs (add_usage day key tokens runs rows)

add_both-IsBalanced :
    (day key : String) (tokens runs : ℕ) (rows : List UsageRow)
    → key ≢ global_key
    → IsBalanced rows
    → IsBalanced (add_both day key tokens runs rows)
unfolding add_both counted
add_both-IsBalanced day key tokens runs rows ne b =
    let once = Unique-add_usage day key tokens runs rows b.unique in
    record {
      unique = Unique-add_usage day global_key tokens runs _ once;
      tokens = λ d. ground (
        arith,
        b.tokens d,
        eq_iff key global_key,
        str_eq_self global_key,
        ne,
        eq_iff day d,
        usage-add_usage day global_key tokens runs (add_usage day key tokens runs rows) d
            global_key,
        usage-add_usage day key tokens runs rows d global_key,
        repo_sum-add_usage (λ r. r.tokens_used) d day global_key tokens runs tokens (λ r. refl) refl
            (add_usage day key tokens runs rows) once,
        repo_sum-add_usage (λ r. r.tokens_used) d day key tokens runs tokens (λ r. refl) refl rows
            b.unique,
      );
      runs = λ d. ground (
        arith,
        b.runs d,
        eq_iff key global_key,
        str_eq_self global_key,
        ne,
        eq_iff day d,
        usage-add_usage day global_key tokens runs (add_usage day key tokens runs rows) d
            global_key,
        usage-add_usage day key tokens runs rows d global_key,
        repo_sum-add_usage (λ r. r.runs_count) d day global_key tokens runs runs (λ r. refl) refl
            (add_usage day key tokens runs rows) once,
        repo_sum-add_usage (λ r. r.runs_count) d day key tokens runs runs (λ r. refl) refl rows
            b.unique,
      );
    }

-- After the counters of a repository are raised, by tokens or by runs, the global counters of every
-- day are still the sums over the repositories. A repository is not named like the global row.
pub add-IsBalanced :
    (day url : String) (n : ℕ) (s : Store)
    → url ≢ global_key
    → IsBalanced s.budget_usage
    → IsBalanced (add_tokens day url n s).budget_usage
      × IsBalanced (add_run_count day url n s).budget_usage
unfolding add_tokens add_run_count add_both
add-IsBalanced day url n s ne b = (
  add_both-IsBalanced day url n 0 s.budget_usage ne b,
  add_both-IsBalanced day url 0 n s.budget_usage ne b,
)
