-- ===== src/Workflows/Zte.antt =====
-- The zero-touch pipeline (adws/adw_sdlc_zte_iso.py): the phases that run, by the exit codes of
-- the phases' scripts.
pub mod Shipping
use tac_master.Shared.{ℕ, Bool, true, false, List, [], ◌∷◌, ◌++◌, if◌then◌else◌, ◌==◌, nat_eq}

pub data Phase : Type 0 where
  plan build test review document ship : Phase

-- An exit code of the pipeline, with the phases that it started.
pub record Exit : Type 0 where
  pub code : ℕ
  pub phases : List Phase

-- `main`. `code` gives the exit code of a phase's script.
module _ (code : Phase → ℕ) where
  -- A phase whose failure ends the pipeline.
  unfoldable pub required : Phase → Exit → Exit
  required phase rest = record {
    code = if code phase == 0 then rest.code else 1;
    phases = phase ∷ (if code phase == 0 then rest.phases else []);
  }

  -- A phase whose failure is only reported.
  unfoldable pub optional : Phase → Exit → Exit
  optional phase rest = record { code = rest.code; phases = phase ∷ rest.phases }

  unfoldable pub zero_touch : Exit
  unfolding required optional
  zero_touch = required plan (
      required build (
        required test
          (required review (optional document (required ship (record { code = 0; phases = [] }))))))
