-- ===== src/Tokens/Ledger.antt =====
-- What the attribution of a run's files adds to the ledger and to the counters.
use tac_master.Shared.{
  ℕ, ◌+◌, ◌<◌, String, Bool, true, false, ◌≡◌, refl, ◌∙◌, sym, List, [], ◌∷◌, ◌++◌, arith,
  string_eq, str_eq_self, any_row, any-append, ok, Bool-cases, Result-cases, inl, inr,
}
use tac_master.Store.{LedgerRow}
use tac_master.Tokens.{Prices, TokenUsage, total_tokens, add, price}
use tac_master.Tokens.Attribution.{
  PhaseAttribution, is_entry, ledger_row, add_priced, attribute_files,
}

pub ledger_tokens : List LedgerRow → ℕ
ledger_tokens [] = 0
ledger_tokens (r ∷ rows) =
    r.input_tokens + r.output_tokens + r.cache_write + r.cache_read + ledger_tokens rows

pub ledger_cost : List LedgerRow → ℕ
ledger_cost [] = 0
ledger_cost (r ∷ rows) = r.cost_usd + ledger_cost rows

ledger_tokens-append :
    (rows : List LedgerRow) (r : LedgerRow)
    → ledger_tokens (rows ++ r ∷ [])
      ≡ ledger_tokens rows + (r.input_tokens + r.output_tokens + r.cache_write + r.cache_read)
unfolding ledger_tokens
ledger_tokens-append [] r = omega arith
ledger_tokens-append (q ∷ rows) r = omega (arith, ledger_tokens-append rows r)

ledger_cost-append :
    (rows : List LedgerRow) (r : LedgerRow)
    → ledger_cost (rows ++ r ∷ []) ≡ ledger_cost rows + r.cost_usd
unfolding ledger_cost
ledger_cost-append [] r = omega arith
ledger_cost-append (q ∷ rows) r = omega (arith, ledger_cost-append rows r)

-- Every file of the run has its row.
pub data AllEntered (adw_id : String) (ledger : List LedgerRow)
    : List PhaseAttribution → Type 0 where
  no_file : AllEntered adw_id ledger []
  entered :
      {file : PhaseAttribution} {files : List PhaseAttribution}
      → any_row (is_entry adw_id file.phase_name file.file_path) ledger ≡ true
      → AllEntered adw_id ledger files
      → AllEntered adw_id ledger (file ∷ files)

abbrev same_entry : LedgerRow → LedgerRow → Bool
same_entry r q = is_entry r.adw_id r.phase_name r.file_path q

-- Every file reports its own cost.
pub data AllReport : List PhaseAttribution → Type 0 where
  none_left : AllReport []
  reports :
      {file : PhaseAttribution} {files : List PhaseAttribution}
      → 0 < file.usage.cost_usd
      → AllReport files
      → AllReport (file ∷ files)

module _ (now : ℕ) (prices : Prices) (adw_id url : String) where
  -- What the loop does: it makes one row for each new file, and adds up what it wrote.
  pub record IsAttributed (files : List PhaseAttribution) (total : TokenUsage)
      (ledger : List LedgerRow) (total' : TokenUsage) (ledger' : List LedgerRow) : Type 0 where
    pub tokens :
        ledger_tokens ledger + total_tokens total' ≡ ledger_tokens ledger' + total_tokens total
    pub keeps :
        (phase path : String)
        → any_row (is_entry adw_id phase path) ledger ≡ true
        → any_row (is_entry adw_id phase path) ledger' ≡ true
    pub enters : AllEntered adw_id ledger' files
    pub costs :
        AllReport files
        → ledger_cost ledger + ledger_cost ledger + total'.cost_usd
          ≡ ledger_cost ledger' + ledger_cost ledger' + total.cost_usd

  pub attribute-known :
      (file : PhaseAttribution) (files : List PhaseAttribution) (total : TokenUsage)
      (ledger : List LedgerRow)
      → any_row (is_entry adw_id file.phase_name file.file_path) ledger ≡ true
      → attribute_files now prices adw_id url (file ∷ files) total ledger
        ≡ attribute_files now prices adw_id url files total ledger
  unfolding attribute_files
  attribute-known file files total ledger h = ground (arith, h)

  pub attribute-new :
      (file : PhaseAttribution) (files : List PhaseAttribution) (total : TokenUsage)
      (ledger : List LedgerRow) (cost : ℕ)
      → any_row (is_entry adw_id file.phase_name file.file_path) ledger ≡ false
      → price prices file.usage ≡ ok cost
      → attribute_files now prices adw_id url (file ∷ files) total ledger
        ≡ attribute_files now prices adw_id url files
            (add_priced total file.usage cost)
            (ledger ++ ledger_row now adw_id url file cost ∷ [])
  unfolding attribute_files
  attribute-new file files total ledger cost h p = ground (arith, h, p)

  row-IsAttributed :
      (file : PhaseAttribution) (total : TokenUsage) (ledger : List LedgerRow) (cost : ℕ)
      → price prices file.usage ≡ ok cost
      → IsAttributed
          (file ∷ [])
          total
          ledger
          (add_priced total file.usage cost)
          (ledger ++ ledger_row now adw_id url file cost ∷ [])
  unfolding add_priced ledger_row total_tokens add price any_row
  row-IsAttributed file total ledger cost p =
      let u = file.usage in
      record {
        tokens = omega (arith, ledger_tokens-append ledger (ledger_row now adw_id url file cost));
        keeps = λ phase path k. ground (
          arith,
          k,
          any-append (is_entry adw_id phase path) ledger (ledger_row now adw_id url file cost ∷ []),
        );
        enters =
            entered
              (ground (
                arith,
                any-append (is_entry adw_id file.phase_name file.file_path) ledger
                    (ledger_row now adw_id url file cost ∷ []),
                str_eq_self adw_id,
                str_eq_self file.phase_name,
                str_eq_self file.file_path,
              ))
              no_file;
        costs = λ r. elim r [
          | reports pos _ ↦
              ground
                (arith, pos, p, ledger_cost-append ledger (ledger_row now adw_id url file cost))
        ];
      }

  more-IsAttributed :
      {file : PhaseAttribution} {files : List PhaseAttribution} {total mid total' : TokenUsage}
      {ledger between ledger' : List LedgerRow}
      → IsAttributed (file ∷ []) total ledger mid between
      → IsAttributed files mid between total' ledger'
      → IsAttributed (file ∷ files) total ledger total' ledger'
  more-IsAttributed a b = record {
    tokens = omega (arith, a.tokens, b.tokens);
    keeps = λ phase path k. b.keeps phase path (a.keeps phase path k);
    enters = elim a.enters [ entered k _ ↦ entered (b.keeps _ _ k) b.enters ];
    costs = λ r. elim r [
      | reports pos rest ↦ omega (arith, a.costs (reports pos none_left), b.costs rest)
    ];
  }

  pub attribute_files-IsAttributed :
      (files : List PhaseAttribution) (total : TokenUsage) (ledger : List LedgerRow)
      (total' : TokenUsage) (ledger' : List LedgerRow)
      → attribute_files now prices adw_id url files total ledger ≡ ok (total', ledger')
      → IsAttributed files total ledger total' ledger'
  unfolding attribute_files
  attribute_files-IsAttributed [] total ledger total' ledger' h =
      let same : total' ≡ total = ground (arith, h) in
      let rows : ledger' ≡ ledger = ground (arith, h) in
      rw (same, rows)
        (record { tokens = refl; keeps = λ phase path k. k; enters = no_file; costs = λ _. refl })
  attribute_files-IsAttributed (file ∷ files) total ledger total' ledger' h =
      elim (Bool-cases (any_row (is_entry adw_id file.phase_name file.file_path) ledger)) [
        | inl e ↦
            more-IsAttributed {mid = total} {between = ledger}
              (record {
                tokens = refl;
                keeps = λ phase path k. k;
                enters = entered e no_file;
                costs = λ _. refl;
              })
              (attribute_files-IsAttributed files total ledger total' ledger'
                (sym (attribute-known file files total ledger e) ∙ h))
        | inr e ↦ elim (Result-cases (price prices file.usage)) [
          | inl (cost, p) ↦ more-IsAttributed (row-IsAttributed file total ledger cost p) (
              attribute_files-IsAttributed files _ _ total' ledger'
                (sym (attribute-new file files total ledger cost e p) ∙ h))
          | inr (x, p) ↦ absurd (ground (arith, e, p, h))
        ]
      ]
