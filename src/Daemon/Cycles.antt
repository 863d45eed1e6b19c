-- ===== src/Daemon/Cycles.antt =====
-- What the loop keeps.
use tac_master.Shared.{
  String, List, [], ◌∷◌, Keeps, Keeps-bind, Keeps-pure, Keeps-try, arith, count_rows, find_row,
}
use tac_master.Store.Active.{runs_of}
use tac_master.Store.{Store, empty, active_runs_count, usage_today}
use tac_master.Store.Runs.{IsWellFormed}
use tac_master.Config.{RepoConfig, BudgetsConfig}
use tac_master.Tokens.{Prices}
use tac_master.Dispatch.Poll.Caps.{Respects, AllNamed, poll_once-Respects}
use tac_master.Dispatch.Poll.Keys.{poll_once-IsWellFormed}
use tac_master.Dispatch.Reap.Caps.{reap_finished_runs-Respects}
use tac_master.Dispatch.Poll.{poll_once}
use tac_master.Dispatch.Reap.{reap_finished_runs}
use tac_master.Daemon.{World, cycle, run_cycles}

-- The caps and the keys together.
pub record IsSound (cfg : BudgetsConfig) (day : String) (s : Store) : Type 0 where
  pub caps : Respects cfg day s
  pub keys : IsWellFormed s

module _ (day : String) (cfg : BudgetsConfig) (repos : List RepoConfig) (prices : Prices)
    (named : AllNamed repos) where
  poll-IsSound :
      (w : World) → Keeps (IsSound cfg day) (poll_once w.now day cfg w.gh w.answers repos)
  poll-IsSound w = record {
    at = λ s v. record {
      caps = poll_once-Respects w.now day cfg w.gh w.answers repos s named v.caps;
      keys = poll_once-IsWellFormed w.now day cfg w.gh w.answers repos s v.keys;
    };
  }

  reap-IsSound :
      (w : World) → Keeps (IsSound cfg day) (reap_finished_runs w.now day prices w.outside)
  reap-IsSound w = record {
    at = λ s v.
        let (caps, keys) =
          reap_finished_runs-Respects w.now day prices w.outside cfg day s v.caps v.keys in
        record { caps = caps; keys = keys };
  }

  cycle-IsSound : (w : World) → Keeps (IsSound cfg day) (cycle day cfg repos prices w)
  unfolding cycle
  cycle-IsSound w =
      Keeps-try _ _
        (Keeps-bind _ _ (poll-IsSound w)
          (λ n. Keeps-bind _ _ (reap-IsSound w) (λ _. Keeps-pure tt)))
        (λ e. Keeps-pure tt)

  cycles-IsSound : (ws : List World) → Keeps (IsSound cfg day) (run_cycles day cfg repos prices ws)
  unfolding run_cycles
  cycles-IsSound [] = Keeps-pure tt
  cycles-IsSound (w ∷ ws) = Keeps-bind _ _ (cycle-IsSound w) (λ _. cycles-IsSound ws)

pub empty-IsSound : (cfg : BudgetsConfig) (day : String) → IsSound cfg day empty
unfolding active_runs_count runs_of usage_today count_rows find_row
empty-IsSound cfg day = record {
  caps = record {
    concurrent = omega arith;
    repo_concurrent = λ url. omega arith;
    runs = omega arith;
    repo_runs = λ url ne. omega arith;
  };
  keys = record { runs_unique = tt; issues_unique = tt; runs_refer = tt; issues_refer = tt };
}

-- From an empty store, after any number of the loop's turns within a day, no cap on concurrent runs or
-- on the day's runs is exceeded, globally or for a repository, and the declared keys hold. It holds
-- whatever GitHub lists, whatever becomes of the processes and wherever an exception is raised,
-- given that no repository's url is the key of the global counters.
pub run_cycles-IsSound :
    (day : String) (cfg : BudgetsConfig) (repos : List RepoConfig) (prices : Prices)
    (ws : List World)
    → AllNamed repos
    → IsSound cfg day (run_cycles day cfg repos prices ws empty).1
run_cycles-IsSound day cfg repos prices ws named =
    (cycles-IsSound day cfg repos prices named ws).at empty (empty-IsSound cfg day)
