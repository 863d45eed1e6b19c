-- ===== src/Tokens/Frame.antt =====
-- What attribution leaves alone, whether it raises or not.
use tac_master.Shared.{
  ℕ, ◌+◌, String, ◌≡◌, refl, ◌⊎◌, List, arith, string_eq, ltb, update_rows, err, Exception,
  transaction, transaction-err, bind-err, Bool-cases, Result-cases, inl, inr,
}
use tac_master.Store.{
  Store, RunRow, LedgerRow, is_run, update_run, add_tokens, add_usage, usage_today, global_key,
}
use tac_master.Store.Usage.{usage-add_usage, usage_today_lem}
use tac_master.Tokens.{Prices, TokenUsage, no_usage, total_tokens}
use tac_master.Tokens.Attribution.{
  PhaseFile, PhaseAttribution, discover_phase_files, attribute_files, attribute_ledger,
  current_tokens, credit, attribute_found, attribute_run,
}
use tac_master.Tokens.Credit.{credited, run-ok}

pub record IsTokensOnly (adw_id : String) (s t : Store) : Type 0 where
  pub repos : t.repos ≡ s.repos
  pub issues : t.issues ≡ s.issues
  pub runs :
      (t.runs ≡ s.runs)
      ⊎ ((n : ℕ) × (t.runs
            ≡ update_rows (is_run adw_id) (λ (q : RunRow). record q { tokens_used = n }) s.runs))
  pub counts : (day key : String) → (usage_today day key t).1 ≡ (usage_today day key s).1

pub same-IsTokensOnly : (adw_id : String) (s : Store) → IsTokensOnly adw_id s s
same-IsTokensOnly adw_id s = record {
  repos = refl;
  issues = refl;
  runs = inl refl;
  counts = λ day key. refl;
}

module _ (now : ℕ) (prices : Prices) (adw_id url day : String) (files : List PhaseAttribution) where
  credited-IsTokensOnly :
      (u : TokenUsage) (s : Store) (rows : List LedgerRow)
      → IsTokensOnly adw_id s
          (credited now prices adw_id url day files u (record s { token_ledger = rows }))
  unfolding credit add_tokens update_run usage_today
  credited-IsTokensOnly u s rows = elim (Bool-cases (ltb 0 (total_tokens u))) [
    | inl e ↦ rw e (record {
      repos = refl;
      issues = refl;
      runs = inr (
        current_tokens now prices adw_id url (record s { token_ledger = rows }) + total_tokens u,
        refl,
      );
      counts = λ day' key. ground (
        arith,
        usage_today_lem day' key s,
        usage_today_lem day' key
            (credit now prices adw_id url day (total_tokens u) (record s { token_ledger = rows })),
        usage-add_usage day global_key (total_tokens u) 0
            (add_usage day url (total_tokens u) 0 s.budget_usage) day' key,
        usage-add_usage day url (total_tokens u) 0 s.budget_usage day' key,
      );
    })
    | inr e ↦
        rw e (record { repos = refl; issues = refl; runs = inl refl; counts = λ day' key. refl })
  ]

  ledger-err :
      (s : Store) (e : Exception)
      → attribute_files now prices adw_id url files no_usage s.token_ledger ≡ err e
      → attribute_ledger now prices adw_id url files s ≡ err e
  unfolding attribute_ledger
  ledger-err s e h = ground (arith, h)

  run-err :
      (s : Store) (e : Exception)
      → attribute_files now prices adw_id url files no_usage s.token_ledger ≡ err e
      → attribute_found now prices adw_id url day files s ≡ (err e, s)
  unfolding attribute_found
  run-err s e h =
      bind-err (transaction (attribute_ledger now prices adw_id url files)) _ s
        (transaction-err (attribute_ledger now prices adw_id url files) s (ledger-err s e h))

  attribute_found-IsTokensOnly :
      (s : Store) → IsTokensOnly adw_id s (attribute_found now prices adw_id url day files s).1
  attribute_found-IsTokensOnly s =
      elim (Result-cases (attribute_files now prices adw_id url files no_usage s.token_ledger)) [
        | inl ((u, rows), h) ↦
            rw (run-ok now prices adw_id url day files s u rows h) (credited-IsTokensOnly u s rows)
        | inr (e, h) ↦ rw (run-err s e h) (same-IsTokensOnly adw_id s)
      ]

pub attribute_run-IsTokensOnly :
    (now : ℕ) (prices : Prices) (adw_id url day : String) (files : List PhaseFile) (s : Store)
    → IsTokensOnly adw_id s (attribute_run now prices adw_id url day files s).1
unfolding attribute_run
attribute_run-IsTokensOnly now prices adw_id url day files s =
    elim (Result-cases (discover_phase_files files)) [
      | inl (found, h) ↦
          rw (attribute_run, h) (attribute_found-IsTokensOnly now prices adw_id url day found s)
      | inr (e, h) ↦ rw (attribute_run, h) (same-IsTokensOnly adw_id s)
    ]
