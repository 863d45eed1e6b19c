-- ===== src/Daemon.antt =====
-- The daemon (orchestrator/daemon.py): cycles of a poll and a reaping, and its start. The orchestrator's
-- advice on an issue changes nothing of a dispatch and is left out.
pub mod Cycles
pub mod Startup
use tac_master.Shared.{ℕ, String, Bool, List, [], ◌∷◌, Exec, pure, try_except, ◌>>=◌, ◌>>◌}
use tac_master.Store.{Store}
use tac_master.Config.{RepoConfig, BudgetsConfig}
use tac_master.GitHub.{GitHub}
use tac_master.Tokens.{Prices}
use tac_master.Dispatch.Launch.{Answers}
use tac_master.Dispatch.Poll.{poll_once}
use tac_master.Dispatch.Reap.{Outside, reap_finished_runs}

-- What the world is like in one cycle.
pub record World : Type 0 where
  pub now : ℕ
  pub gh : GitHub
  pub answers : String → ℕ → Answers
  pub outside : String → Outside

module _ (day : String) (cfg : BudgetsConfig) (repos : List RepoConfig) (prices : Prices) where
  -- One turn of the loop: an exception ends the turn and is logged.
  unfoldable pub cycle : World → Exec Store (Unit {0})
  unfolding poll_once reap_finished_runs
  cycle w =
      try_except
        (poll_once w.now day cfg w.gh w.answers repos
          >> (reap_finished_runs w.now day prices w.outside >> pure tt))
        (λ e. pure tt)

  -- The loop, for as many turns as it makes before a shutdown.
  unfoldable pub run_cycles : List World → Exec Store (Unit {0})
  unfolding cycle
  run_cycles [] = pure tt
  run_cycles (w ∷ ws) = cycle w >> run_cycles ws
