-- ===== src/Tokens/Totals.antt =====
-- `attribute_run` as a whole: what it credits, when it raises, and that a second run of it credits
-- nothing.
use tac_master.Shared.{
  ℕ, ◌+◌, ◌*◌, String, true, ◌≡◌, ◌≢◌, refl, some, List, [], ◌∷◌, ◌++◌, arith, string_eq, any_row,
  find_row, Result, Exception, ok, err, is_ok, ◌∙◌, ◌⊎◌, Bool-cases, Result-cases, inl, inr,
}
use tac_master.Store.{Store, RunRow, LedgerRow, is_run, global_key}
use tac_master.Tokens.{Prices, TokenUsage, no_usage, total_tokens, price, price_book}
use tac_master.Tokens.Prices.{price-ok}
use tac_master.Tokens.Attribution.{
  PhaseFile, PhaseAttribution, discover_phase_files, is_entry, ledger_row, add_priced,
  attribute_files, attribute_found, attribute_run,
}
use tac_master.Tokens.Ledger.{
  ledger_cost, AllReport, attribute_files-IsAttributed, attribute-known, attribute-new,
}
use tac_master.Tokens.Credit.{
  credited, run-ok, IsCredited, credited-IsCredited, credited-ledger, all-entered,
}

module _ (now : ℕ) (entries : Prices) (adw_id url day : String)
    (files : List PhaseAttribution) where
  files-is_ok :
      (left : List PhaseAttribution) (total : TokenUsage) (ledger : List LedgerRow)
      → is_ok (attribute_files now (price_book entries) adw_id url left total ledger) ≡ true
  unfolding attribute_files
  files-is_ok [] total ledger = refl
  files-is_ok (file ∷ left) total ledger =
      elim (Result-cases (price (price_book entries) file.usage)) [
        | inl (cost, p) ↦
            elim (Bool-cases (any_row (is_entry adw_id file.phase_name file.file_path) ledger)) [
              | inl e ↦
                  rw (attribute-known now (price_book entries) adw_id url file left total ledger e)
                    (files-is_ok left total ledger)
              | inr e ↦
                  rw
                    (attribute-new now (price_book entries) adw_id url file left total ledger cost e
                      p)
                    (files-is_ok left (add_priced total file.usage cost)
                      (ledger ++ ledger_row now adw_id url file cost ∷ []))
            ]
        | inr (x, p) ↦ absurd (ground (arith, p, price-ok entries file.usage))
      ]

  files-ok :
      (s : Store)
      → (u : TokenUsage) × (rows : List LedgerRow) × (attribute_files now
            (price_book entries)
            adw_id
            url
            files
            no_usage
            s.token_ledger
          ≡ ok (u, rows))
  files-ok s =
      elim (Result-cases
        (attribute_files now (price_book entries) adw_id url files no_usage s.token_ledger)) [
          | inl ((u, rows), h) ↦ (u, rows, h)
          | inr (x, h) ↦ absurd (ground (arith, h, files-is_ok files no_usage s.token_ledger))
        ]

module _ (now : ℕ) (prices : Prices) (adw_id url day : String) (files : List PhaseFile)
    (s : Store) where
  run-found :
      (found : List PhaseAttribution)
      → discover_phase_files files ≡ ok found
      → attribute_run now prices adw_id url day files s
        ≡ attribute_found now prices adw_id url day found s
  unfolding attribute_run attribute_found
  run-found found h = rw (attribute_run, h) refl

  run-raises :
      (e : Exception)
      → discover_phase_files files ≡ err e
      → attribute_run now prices adw_id url day files s ≡ (err e, s)
  unfolding attribute_run
  run-raises e h = rw (attribute_run, h) refl

-- Attribution raises exactly where reading one of the files does, and then leaves the store as it
-- is. Else, for a run with a row, of a repository whose url is not the key of the global counters,
-- and with the tracker's own book of prices, the ledger's tokens grow by the total that it returns,
-- and so do the run's, and the day's of the repository and of all.
pub attribute_run-IsCredited :
    (now : ℕ) (entries : Prices) (adw_id url day : String) (files : List PhaseFile) (s : Store)
    (r : RunRow)
    → url ≢ global_key
    → find_row (is_run adw_id) s.runs ≡ some r
    → ((e : Exception) × (discover_phase_files files ≡ err e)
        × (attribute_run now (price_book entries) adw_id url day files s ≡ (err e, s)))
      ⊎ ((found : List PhaseAttribution) × (discover_phase_files files ≡ ok found)
          × ((u : TokenUsage) × (t : Store) × (attribute_run now
                  (price_book entries)
                  adw_id
                  url
                  day
                  files
                  s
                ≡ (ok u, t))
              × IsCredited now (price_book entries) adw_id url day found s u t))
attribute_run-IsCredited now entries adw_id url day files s r ne known =
    let prices = price_book entries in
    elim (Result-cases (discover_phase_files files)) [
      | inl (found, d) ↦
          let (u, rows, h) = files-ok now entries adw_id url day found s in
          inr (
            found,
            d,
            (
              u,
              credited now prices adw_id url day found u (record s { token_ledger = rows }),
              run-found now prices adw_id url day files s found d
                  ∙ run-ok now prices adw_id url day found s u rows h,
              credited-IsCredited now prices adw_id url day found s u rows r ne known h,
            ),
          )
      | inr (e, d) ↦ inl (e, d, run-raises now prices adw_id url day files s e d)
    ]

found-again :
    (now later : ℕ) (entries : Prices) (adw_id url day tomorrow : String)
    (files : List PhaseAttribution) (s : Store)
    → let t = (attribute_found now (price_book entries) adw_id url day files s).1 in
      attribute_found later (price_book entries) adw_id url tomorrow files t ≡ (ok no_usage, t)
unfolding total_tokens
found-again now later entries adw_id url day tomorrow files s =
    let prices = price_book entries in
    let (u, rows, h) = files-ok now entries adw_id url day files s in
    let t : Store = credited now prices adw_id url day files u (record s { token_ledger = rows }) in
    let ledger : t.token_ledger ≡ rows =
      credited-ledger now prices adw_id url day files u (record s { token_ledger = rows }) in
    let enters =
      (attribute_files-IsAttributed now prices adw_id url files no_usage s.token_ledger u rows
        h).enters in
    rw (run-ok now prices adw_id url day files s u rows h) (
      run-ok later prices adw_id url tomorrow files t no_usage t.token_ledger (
        all-entered later prices adw_id url tomorrow files files no_usage t.token_ledger
          (rw ledger enters)))

-- What a second attribution of the same files returns.
abbrev pub second_time : Result (List PhaseAttribution) → Result TokenUsage
second_time (err e) = err e
second_time (ok found) = ok no_usage

-- Attribution is idempotent: a second one of the same files, whenever it happens, leaves the whole
-- store as it is; it finds no tokens and no cost, or raises as the first did where reading a file
-- raises.
pub attribute_run-again :
    (now later : ℕ) (entries : Prices) (adw_id url day tomorrow : String) (files : List PhaseFile)
    (s : Store)
    → let t = (attribute_run now (price_book entries) adw_id url day files s).1 in
      attribute_run later (price_book entries) adw_id url tomorrow files t
      ≡ (second_time (discover_phase_files files), t)
unfolding attribute_run attribute_found
attribute_run-again now later entries adw_id url day tomorrow files s =
    elim (Result-cases (discover_phase_files files)) [
      | inl (found, d) ↦
          rw (attribute_run, d) (found-again now later entries adw_id url day tomorrow found s)
      | inr (e, d) ↦ rw (attribute_run, d) refl
    ]

-- Where the files can be read and each reports its own cost, the cost that attribution returns is
-- twice what it writes to the ledger.
pub attribute_run-cost :
    (now : ℕ) (entries : Prices) (adw_id url day : String) (files : List PhaseFile)
    (found : List PhaseAttribution) (s : Store)
    → discover_phase_files files ≡ ok found
    → AllReport found
    → (u : TokenUsage) × (t : Store) × (attribute_run now
          (price_book entries)
          adw_id
          url
          day
          files
          s
        ≡ (ok u, t))
      × (ledger_cost s.token_ledger * 2 + u.cost_usd ≡ ledger_cost t.token_ledger * 2)
attribute_run-cost now entries adw_id url day files found s d reported =
    let prices = price_book entries in
    let (u, rows, h) = files-ok now entries adw_id url day found s in
    let t : Store = record s { token_ledger = rows } in
    (
      u,
      credited now prices adw_id url day found u t,
      run-found now prices adw_id url day files s found d
          ∙ run-ok now prices adw_id url day found s u rows h,
      rw (credited-ledger now prices adw_id url day found u t) (
          omega (
            arith,
            (attribute_files-IsAttributed now prices adw_id url found no_usage s.token_ledger u rows
                  h).costs
                reported,
          )),
    )
