-- ===== src/Tokens/Attribution.antt =====
-- `attribute_run` and `scan_all_active`: the ledger, the run's total and the daily counters.
use tac_master.Shared.{
  ℕ, ◌+◌, String, Bool, true, false, ◌&&◌, Option, none, some, List, [], ◌∷◌, ◌++◌, if◌then◌else◌,
  ◌==◌, ltb, string_eq, any_row, find_row, Exec, Result, ok, err, pure, raise, transaction, modify,
  ◌>>=◌, ◌>>◌,
}
use tac_master.Store.{Store, RunRow, LedgerRow, is_run, update_run, add_tokens}
use tac_master.Tokens.{Prices, TokenUsage, no_usage, total_tokens, add, price, Line, parse_lines}

-- A raw_output.jsonl that `discover_phase_files` finds, with what it holds.
pub record PhaseFile : Type 0 where
  pub phase_name : String
  pub file_path : String
  pub lines : List (Option Line)

pub record PhaseAttribution : Type 0 where
  pub phase_name : String
  pub file_path : String
  pub usage : TokenUsage

-- `discover_phase_files`, on the files that are there.
unfoldable pub discover_phase_files : List PhaseFile → Result (List PhaseAttribution)
unfolding parse_lines
discover_phase_files [] = ok []
discover_phase_files (file ∷ files) = elim (parse_lines file.lines no_usage) [
  | err e ↦ err e
  | ok usage ↦ elim (discover_phase_files files) [
    | err e ↦ err e
    | ok out ↦
        ok
          (record { phase_name = file.phase_name; file_path = file.file_path; usage = usage } ∷ out)
  ]
]

-- WHERE adw_id=? AND phase_name=? AND file_path=?
abbrev pub is_entry : String → String → String → LedgerRow → Bool
is_entry adw_id phase path r = r.adw_id == adw_id && r.phase_name == phase && r.file_path == path

unfoldable pub ledger_row : ℕ → String → String → PhaseAttribution → ℕ → LedgerRow
ledger_row now adw_id url att cost = record {
  adw_id = adw_id;
  repo_url = url;
  phase_name = att.phase_name;
  file_path = att.file_path;
  model = att.usage.model;
  input_tokens = att.usage.input_tokens;
  output_tokens = att.usage.output_tokens;
  cache_write = att.usage.cache_creation_input_tokens;
  cache_read = att.usage.cache_read_input_tokens;
  cost_usd = cost;
  attributed_at = now;
}

-- `run_total.add(att.usage)` and `run_total.cost_usd += cost`
unfoldable pub add_priced : TokenUsage → TokenUsage → ℕ → TokenUsage
unfolding add
add_priced total u cost = record (add total u) { cost_usd = (add total u).cost_usd + cost }

module _ (now : ℕ) (prices : Prices) (adw_id url : String) where
  -- The loop over the attributions, inside one transaction.
  unfoldable pub attribute_files :
      List PhaseAttribution → TokenUsage → List LedgerRow → Result (TokenUsage × List LedgerRow)
  unfolding price ledger_row add_priced
  attribute_files [] total ledger = ok (total, ledger)
  attribute_files (att ∷ attributions) total ledger =
      elim (any_row (is_entry adw_id att.phase_name att.file_path) ledger) [
        | true ↦ attribute_files attributions total ledger
        | false ↦ elim (price prices att.usage) [
          | err e ↦ err e
          | ok cost ↦
              attribute_files attributions (add_priced total att.usage cost)
                (ledger ++ ledger_row now adw_id url att cost ∷ [])
        ]
      ]

  unfoldable pub attribute_ledger : List PhaseAttribution → Store → Result (TokenUsage × Store)
  unfolding attribute_files
  attribute_ledger files s = elim (attribute_files files no_usage s.token_ledger) [
    | err e ↦ err e
    | ok (total, ledger) ↦ ok (total, record s { token_ledger = ledger })
  ]

  -- `row["tokens_used"] or 0`, and 0 without a row
  unfoldable pub current_tokens : Store → ℕ
  current_tokens s = elim (find_row (is_run adw_id) s.runs) [ none ↦ 0 | some r ↦ r.tokens_used ]

  unfoldable pub credit : String → ℕ → Store → Store
  unfolding current_tokens update_run add_tokens
  credit day tokens s =
      add_tokens day url tokens
        (update_run adw_id (λ r. record r { tokens_used = current_tokens s + tokens }) s)

  -- `attribute_run` after the files are read
  unfoldable pub attribute_found : String → List PhaseAttribution → Exec Store TokenUsage
  unfolding attribute_ledger credit total_tokens
  attribute_found day attributions = do
    run_total ← transaction (attribute_ledger attributions)
    modify
        (λ s. if ltb 0 (total_tokens run_total) then credit day (total_tokens run_total) s else s)
    pure run_total

  unfoldable pub attribute_run : String → List PhaseFile → Exec Store TokenUsage
  unfolding discover_phase_files attribute_found
  attribute_run day files = elim (discover_phase_files files) [
    | err e ↦ raise e
    | ok attributions ↦ attribute_found day attributions
  ]

-- `scan_all_active`, over every run of the table, active or not. `found` gives the files that are
-- there for a run with a worktree.
module _ (now : ℕ) (day : String) (prices : Prices) (found : String → String → List PhaseFile) where
  unfoldable pub scan_runs : List RunRow → Exec Store ℕ
  unfolding attribute_run total_tokens
  scan_runs [] = pure 0
  scan_runs (r ∷ rows) = elim r.worktree_path [
    | none ↦ scan_runs rows
    | some worktree ↦ do
      usage ← attribute_run now prices r.adw_id r.repo_url day (found worktree r.adw_id)
      updated ← scan_runs rows
      pure ((if ltb 0 (total_tokens usage) then 1 else 0) + updated)
  ]

  unfoldable pub scan_all_active : Exec Store ℕ
  unfolding scan_runs
  scan_all_active s = scan_runs s.runs s
