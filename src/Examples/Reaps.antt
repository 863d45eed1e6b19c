-- ===== src/Examples/Reaps.antt =====
-- The theorems on reaping and on the tokens of a run, at the samples.
use tac_master.Shared.{
  ◌+◌, ◌*◌, true, false, ◌<◌, ◌≡◌, ◌↔◌, ◌⊎◌, refl, Option, Bool, ◌∷◌, none, some, List, [], codes,
  ok, err, Exception, external_error, find_row, count_rows, arith, Bool-cases, inl, inr, ◌==◌,
  string_eq,
}
use tac_master.Store.Active.{runs_of}
use tac_master.Store.{Store, RunStatus, active_runs_count, usage_today}
use tac_master.Store.Runs.{IsWellFormed}
use tac_master.Config.{for_repo, get_entry}
use tac_master.Tokens.{TokenUsage, price_book, malformed}
use tac_master.Tokens.Attribution.{PhaseFile, PhaseAttribution, discover_phase_files, attribute_run}
use tac_master.Tokens.Ledger.{none_left, reports, ledger_cost}
use tac_master.Tokens.Credit.{IsCredited}
use tac_master.Tokens.Totals.{
  second_time, attribute_run-IsCredited, attribute_run-again, attribute_run-cost,
}
use tac_master.Dispatch.Poll.Caps.{Respects}
use tac_master.Dispatch.Reap.{Call, reap_finished_runs, verdict, infer_final_status, CleoAnswers}
use tac_master.Dispatch.Reap.{alive, gone, still_running, reaped, not_a_child, hang, finished}
use tac_master.Dispatch.Reap.Verdicts.{readable, verdict_iff, infer_final_status_iff}
use tac_master.Dispatch.Reap.Status.{run_status}
use tac_master.Dispatch.Reap.Whole.{reap_finished_runs-status}
use tac_master.Dispatch.Reap.Caps.{reap_finished_runs-Respects}
use tac_master.Examples.Samples.{url, day, cfg, files, outside, busy, run, url-not_global}
use tac_master.Examples.Stores.{busy-IsWellFormed}

abbrev found : List PhaseAttribution
found =
    record {
      phase_name = "planner";
      file_path = "/srv/agents/ab12cd34/planner/raw_output.jsonl";
      usage = record {
        input_tokens = 10;
        output_tokens = 5;
        cache_creation_input_tokens = 0;
        cache_read_input_tokens = 2;
        cost_usd = 900;
        model = codes "claude-sonnet-4";
      };
    }
    ∷ []

attribute_run-IsCredited_example :
    ((e : Exception) × (discover_phase_files files ≡ err e)
      × (attribute_run 9 (price_book []) "ab12cd34" url day files busy ≡ (err e, busy)))
    ⊎ ((found : List PhaseAttribution) × (discover_phase_files files ≡ ok found)
        × ((u : TokenUsage) × (t : Store) × (attribute_run 9
                (price_book [])
                "ab12cd34"
                url
                day
                files
                busy
              ≡ (ok u, t))
            × IsCredited 9 (price_book []) "ab12cd34" url day found busy u t))
unfolding find_row
attribute_run-IsCredited_example =
    attribute_run-IsCredited 9 [] "ab12cd34" url day files busy run url-not_global refl

attribute_run-again_example :
    attribute_run 20
      (price_book [])
      "ab12cd34"
      url
      day
      files
      (attribute_run 9 (price_book []) "ab12cd34" url day files busy).1
    ≡ (
      second_time (discover_phase_files files),
      (attribute_run 9 (price_book []) "ab12cd34" url day files busy).1,
    )
attribute_run-again_example = attribute_run-again 9 20 [] "ab12cd34" url day day files busy

attribute_run-cost_example :
    (u : TokenUsage) × (t : Store) × (attribute_run 9 (price_book []) "ab12cd34" url day files busy
      ≡ (ok u, t))
    × (ledger_cost busy.token_ledger * 2 + u.cost_usd ≡ ledger_cost t.token_ledger * 2)
unfolding discover_phase_files
attribute_run-cost_example =
    attribute_run-cost 9 [] "ab12cd34" url day files found busy refl
      (reports (omega arith) none_left)

-- A line that is no object stops the attribution.
abbrev unreadable : List PhaseFile
unreadable =
    record { phase_name = "sdlc_planner"; file_path = "b"; lines = some malformed ∷ [] } ∷ files

unreadable-raises : discover_phase_files unreadable ≡ err external_error
unfolding discover_phase_files
unreadable-raises = refl

reap_finished_runs-status_example :
    ((calls : List Call) × ((reap_finished_runs 100 day [] (λ _. outside) busy).0 ≡ ok calls))
    × (run_status "ab12cd34" (reap_finished_runs 100 day [] (λ _. outside) busy).1
        ≡ some RunStatus.incomplete)
unfolding find_row verdict infer_final_status
reap_finished_runs-status_example =
    reap_finished_runs-status 100 day [] (λ _. outside) busy "ab12cd34"
      busy-IsWellFormed.runs_unique

busy-Respects : Respects cfg day busy
unfolding active_runs_count runs_of usage_today count_rows find_row for_repo get_entry
busy-Respects = record {
  concurrent = omega arith;
  repo_concurrent = λ other. elim (Bool-cases (url == other)) [
    | inl e ↦ rw e (omega arith)
    | inr e ↦ rw e (omega arith)
  ];
  runs = omega arith;
  repo_runs = λ _ _. omega arith;
}

reap_finished_runs-Respects_example :
    Respects cfg day (reap_finished_runs 100 day [] (λ _. outside) busy).1
    × IsWellFormed (reap_finished_runs 100 day [] (λ _. outside) busy).1
reap_finished_runs-Respects_example =
    reap_finished_runs-Respects 100 day [] (λ _. outside) cfg day busy busy-Respects
      busy-IsWellFormed

abbrev cleo_later : CleoAnswers
cleo_later = record {
  parent_title = some (codes "Fix: Fix the login");
  added = true;
  new_task_id = none;
}

verdict_iff_example :
    ((verdict 4000 (alive still_running) 5 ≡ hang) ↔ (
      ((alive still_running ≡ alive still_running) ⊎ (alive still_running ≡ alive not_a_child))
      × (5 + 3600 < 4000)))
    × ((verdict 4000 (alive still_running) 5 ≡ finished)
        ↔ ((alive still_running ≡ gone) ⊎ (alive still_running ≡ alive reaped)))
verdict_iff_example = verdict_iff 4000 (alive still_running) 5

abbrev first_readable : Option (Bool × Bool)
first_readable = readable (outside.clone_state ∷ outside.tree_state ∷ outside.root_state ∷ [])

infer_final_status_iff_example :
    ((infer_final_status (some "/srv/trees/ab12cd34") outside ≡ RunStatus.succeeded)
      ↔ (first_readable ≡ some (true, true)))
    × ((infer_final_status (some "/srv/trees/ab12cd34") outside ≡ RunStatus.failed)
        ↔ (first_readable ≡ none))
    × ((infer_final_status (some "/srv/trees/ab12cd34") outside ≡ RunStatus.incomplete) ↔ (
        (first_readable ≡ some (true, false))
        ⊎ (first_readable ≡ some (false, true))
        ⊎ (first_readable ≡ some (false, false))))
infer_final_status_iff_example = infer_final_status_iff "/srv/trees/ab12cd34" outside
