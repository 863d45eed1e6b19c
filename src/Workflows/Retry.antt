-- ===== src/Workflows/Retry.antt =====
-- The retries of an agent's prompt (adws/adw_modules/agent.py). The prompt itself, which runs the
-- command line of Claude Code, is a function on a state of its own. A delay is in seconds.
pub mod Attempts
use tac_master.Shared.{
  ℕ, zero, suc, ◌+◌, ◌-◌, Bool, true, false, ◌||◌, Option, none, some, List, [], ◌∷◌, ◌++◌, length,
  String, if◌then◌else◌,
}

pub data RetryCode : Type 0 where
  claude_code_error timeout_error execution_error error_during_execution no_retry : RetryCode

pub record AgentPromptResponse : Type 0 where
  pub output : String
  pub success : Bool
  pub session_id : Option String
  pub retry_code : RetryCode

unfoldable pub is_none : RetryCode → Bool
is_none no_retry = true
is_none claude_code_error = false
is_none timeout_error = false
is_none execution_error = false
is_none error_during_execution = false

-- The answers after which there is no retry: the other four codes are all in the list of those
-- that are retried.
unfoldable pub is_final : AgentPromptResponse → Bool
unfolding is_none
is_final response = response.success || is_none response.retry_code

-- `retry_delays[-1]`; `none` is the IndexError.
unfoldable pub last_delay : List ℕ → Option ℕ
last_delay [] = none
last_delay (d ∷ []) = some d
last_delay (d ∷ e ∷ delays) = last_delay (e ∷ delays)

-- The loop that appends delays, `missing` of them.
unfoldable pub pad_delays : ℕ → List ℕ → Option (List ℕ)
unfolding last_delay
pad_delays zero delays = some delays
pad_delays (suc missing) delays = elim (last_delay delays) [
  | none ↦ none
  | some d ↦ pad_delays missing (delays ++ ((d + 2) ∷ []))
]

module _ {W : Type 0} (prompt : W → AgentPromptResponse × W) where
  abbrev Prompted : Type 0
  Prompted = (AgentPromptResponse × List ℕ) × W

  unfoldable pub slept : ℕ → Option Prompted → Option Prompted
  slept d none = none
  slept d (some ((response, delays), w)) = some ((response, d ∷ delays), w)

  -- An attempt with `left` more to go, with the delays before those; the result holds the delays
  -- that were slept.
  unfoldable pub attempts : ℕ → List ℕ → W → Option Prompted
  unfolding is_final slept
  attempts zero delays w = some (((prompt w).0, []), (prompt w).1)
  attempts (suc left) [] w =
      if is_final (prompt w).0 then some (((prompt w).0, []), (prompt w).1) else none
  attempts (suc left) (d ∷ delays) w =
      let rest = attempts left delays (prompt w).1 in
      if is_final (prompt w).0 then some (((prompt w).0, []), (prompt w).1) else slept d rest

  unfoldable pub prompt_claude_code_with_retry : ℕ → Option (List ℕ) → W → Option Prompted
  unfolding pad_delays attempts
  prompt_claude_code_with_retry max_retries none w =
      elim (pad_delays (max_retries - 3) (1 ∷ 3 ∷ 5 ∷ [])) [
        | none ↦ none
        | some delays ↦ attempts max_retries delays w
      ]
  prompt_claude_code_with_retry max_retries (some retry_delays) w =
      elim (pad_delays (max_retries - length retry_delays) retry_delays) [
        | none ↦ none
        | some delays ↦ attempts max_retries delays w
      ]
