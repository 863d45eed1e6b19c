-- ===== src/Tokens/Credit.antt =====
-- What one attribution credits, by the outcome of its loop over the files.
use tac_master.Shared.{
  ℕ, ◌+◌, String, ◌≡◌, ◌≢◌, refl, ◌∙◌, ◌&&◌, ◌||◌, none, some, List, [], ◌∷◌, arith, if◌then◌else◌,
  ◌==◌, string_eq, ltb, eq_iff, str_eq_self, find_row, find-update, find-eq_some, ok, transaction,
  transaction-ok, Bool-cases, inl, inr, bind-ok,
}
use tac_master.Store.{
  Store, RunRow, LedgerRow, is_run, update_run, add_tokens, add_usage, usage_today, global_key,
}
use tac_master.Store.Usage.{usage-add_usage, usage_today_lem}
use tac_master.Tokens.{Prices, TokenUsage, no_usage, total_tokens}
use tac_master.Tokens.Attribution.{
  PhaseAttribution, attribute_files, attribute_ledger, current_tokens, credit, attribute_found,
}
use tac_master.Tokens.Ledger.{
  ledger_tokens, AllEntered, no_file, entered, attribute_files-IsAttributed, attribute-known,
}

-- The tokens on the row of a run.
abbrev pub tokens_of : String → Store → ℕ
tokens_of adw_id s = elim (find_row (is_run adw_id) s.runs) [ none ↦ 0 | some r ↦ r.tokens_used ]

module _ (now : ℕ) (prices : Prices) (adw_id url day : String) (files : List PhaseAttribution) where
  abbrev pub credited : TokenUsage → Store → Store
  credited u t =
      if ltb 0 (total_tokens u) then credit now prices adw_id url day (total_tokens u) t else t

  ledger-ok :
      (s : Store) (u : TokenUsage) (ledger : List LedgerRow)
      → attribute_files now prices adw_id url files no_usage s.token_ledger ≡ ok (u, ledger)
      → attribute_ledger now prices adw_id url files s ≡ ok (u, record s { token_ledger = ledger })
  unfolding attribute_ledger
  ledger-ok s u ledger h = ground (arith, h)

  pub run-ok :
      (s : Store) (u : TokenUsage) (ledger : List LedgerRow)
      → attribute_files now prices adw_id url files no_usage s.token_ledger ≡ ok (u, ledger)
      → attribute_found now prices adw_id url day files s
        ≡ (ok u, credited u (record s { token_ledger = ledger }))
  unfolding attribute_found
  run-ok s u ledger h =
      bind-ok (transaction (attribute_ledger now prices adw_id url files)) _ s
        (transaction-ok (attribute_ledger now prices adw_id url files) s (ledger-ok s u ledger h))

  tokens-credit :
      (t : Store) (n : ℕ) (r : RunRow)
      → find_row (is_run adw_id) t.runs ≡ some r
      → tokens_of adw_id (credit now prices adw_id url day n t) ≡ tokens_of adw_id t + n
  unfolding credit current_tokens update_run add_tokens
  tokens-credit t n r h = ground (
    arith,
    h,
    find-update (is_run adw_id) (is_run adw_id)
        (λ (r : RunRow). record r { tokens_used = current_tokens now prices adw_id url t + n })
        (λ (r : RunRow). refl) t.runs,
    find-eq_some (is_run adw_id) t.runs r,
  )

  usage-credit :
      (t : Store) (n : ℕ) (day' key : String)
      → url ≢ global_key
      → usage_today day' key (credit now prices adw_id url day n t) ≡ (
          if day == day' && (url == key || global_key == key)
          then ((usage_today day' key t).0 + n, (usage_today day' key t).1)
          else usage_today day' key t)
  unfolding credit add_tokens update_run
  usage-credit t n day' key ne = ground (
    arith,
    ne,
    usage_today_lem day' key t,
    usage_today_lem day' key (credit now prices adw_id url day n t),
    eq_iff url key,
    eq_iff global_key key,
    eq_iff url global_key,
    usage-add_usage day global_key n 0 (add_usage day url n 0 t.budget_usage) day' key,
    usage-add_usage day url n 0 t.budget_usage day' key,
  )

  -- The tokens of a run of it are the ledger's new ones, and they are counted for the run, for its
  -- repository and for the day.
  pub record IsCredited (s : Store) (u : TokenUsage) (t : Store) : Type 0 where
    pub ledger : ledger_tokens t.token_ledger ≡ ledger_tokens s.token_ledger + total_tokens u
    pub run : tokens_of adw_id t ≡ tokens_of adw_id s + total_tokens u
    pub repo :
        usage_today day url t
        ≡ ((usage_today day url s).0 + total_tokens u, (usage_today day url s).1)
    pub global :
        usage_today day global_key t
        ≡ ((usage_today day global_key s).0 + total_tokens u, (usage_today day global_key s).1)

  pub credited-IsCredited :
      (s : Store) (u : TokenUsage) (rows : List LedgerRow) (r : RunRow)
      → url ≢ global_key
      → find_row (is_run adw_id) s.runs ≡ some r
      → attribute_files now prices adw_id url files no_usage s.token_ledger ≡ ok (u, rows)
      → IsCredited s u (credited u (record s { token_ledger = rows }))
  unfolding credit add_tokens update_run total_tokens usage_today
  credited-IsCredited s u rows r ne known h =
      let a =
        attribute_files-IsAttributed now prices adw_id url files no_usage s.token_ledger u rows h in
      let t : Store = record s { token_ledger = rows } in
      elim (Bool-cases (ltb 0 (total_tokens u))) [
        | inl e ↦ rw e (record {
          ledger = omega (arith, a.tokens);
          run = tokens-credit t (total_tokens u) r known;
          repo =
              ground (
                arith,
                usage-credit t (total_tokens u) day url ne,
                str_eq_self url,
                str_eq_self day,
              );
          global = ground (
            arith,
            usage-credit t (total_tokens u) day global_key ne,
            str_eq_self global_key,
            str_eq_self day,
          );
        })
        | inr e ↦ rw e (record {
          ledger = ground (arith, e, a.tokens);
          run = ground (arith, e);
          repo = ground (arith, e);
          global = ground (arith, e);
        })
      ]

  pub credited-ledger : (u : TokenUsage) (t : Store) → (credited u t).token_ledger ≡ t.token_ledger
  unfolding credit add_tokens update_run
  credited-ledger u t = elim (Bool-cases (ltb 0 (total_tokens u))) [
    | inl e ↦ rw e refl
    | inr e ↦ rw e refl
  ]

  pub all-entered :
      (left : List PhaseAttribution) (total : TokenUsage) (ledger : List LedgerRow)
      → AllEntered adw_id ledger left
      → attribute_files now prices adw_id url left total ledger ≡ ok (total, ledger)
  unfolding attribute_files
  all-entered [] total ledger no_file = refl
  all-entered (file ∷ left) total ledger (entered e rest) =
      attribute-known now prices adw_id url file left total ledger e
      ∙ all-entered left total ledger rest
