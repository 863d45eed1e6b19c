-- ===== src/Workflows/Retry/Attempts.antt =====
-- Which answer the retries of an agent's prompt return, and after which delays.
use tac_master.Shared.{
  ℕ, zero, suc, ◌+◌, ◌-◌, ◌<◌, ◌≤◌, true, false, ◌≡◌, ◌⊎◌, refl, sym, subst, ap, Option, none, some,
  List, [], ◌∷◌, ◌++◌, length, length-append, arith, Bool-cases, inl, inr,
}
use tac_master.Workflows.Retry.{
  AgentPromptResponse, is_final, last_delay, pad_delays, slept, attempts,
  prompt_claude_code_with_retry,
}

unfoldable pub take : ℕ → List ℕ → List ℕ
take zero delays = []
take (suc n) [] = []
take (suc n) (d ∷ delays) = d ∷ take n delays

last_delay-some : (d : ℕ) (delays : List ℕ) → (e : ℕ) × (last_delay (d ∷ delays) ≡ some e)
unfolding last_delay
last_delay-some d [] = (d, refl)
last_delay-some d (e ∷ delays) = last_delay-some e delays

pad_delays-long :
    (missing d : ℕ) (delays : List ℕ)
    → (padded : List ℕ) × (pad_delays missing (d ∷ delays) ≡ some padded)
      × (length padded ≡ missing + length (d ∷ delays))
unfolding pad_delays
pad_delays-long zero d delays = (d ∷ delays, refl, omega arith)
pad_delays-long (suc missing) d delays =
    let (e, last) = last_delay-some d delays in
    let (padded, made, long) = pad_delays-long missing d (delays ++ ((e + 2) ∷ [])) in
    let grown = length-append delays ((e + 2) ∷ []) in
    (padded, rw (pad_delays, last) made, omega arith)

module _ {W : Type 0} (prompt : W → AgentPromptResponse × W) where
  -- The state after `n` prompts in a row, and the answer to the next.
  unfoldable pub prompted : ℕ → W → W
  prompted zero w = w
  prompted (suc n) w = prompted n (prompt w).1

  abbrev answer : ℕ → W → AgentPromptResponse
  answer n w = (prompt (prompted n w)).0

  -- The attempts stop after `n` retries.
  abbrev pub StopsAfter : ℕ → ℕ → List ℕ → W → Option ((AgentPromptResponse × List ℕ) × W) → Type 0
  StopsAfter n max_retries delays w result =
      (n ≤ max_retries)
      × (result ≡ some ((answer n w, take n delays), prompted (suc n) w))
      × ((i : ℕ) → i < n → is_final (answer i w) ≡ false)
      × ((is_final (answer n w) ≡ true) ⊎ (n ≡ max_retries))

  attempts-stop :
      (left : ℕ) (delays : List ℕ) (w : W)
      → left ≤ length delays
      → (n : ℕ) × StopsAfter n left delays w (attempts prompt left delays w)
  unfolding attempts take prompted slept
  attempts-stop zero delays w h = (0, (omega arith, refl, λ i l. absurd (omega arith), inr refl))
  attempts-stop (suc left) [] w h = absurd (omega arith)
  attempts-stop (suc left) (d ∷ delays) w h = elim (Bool-cases (is_final (prompt w).0)) [
    | inl e ↦ (0, (omega arith, rw e refl, λ i l. absurd (omega arith), inl e))
    | inr e ↦
        let (n, (low, same, earlier, end)) = attempts-stop left delays (prompt w).1 (omega arith) in
        (suc n, (omega arith, rw (e, same) refl, before n e earlier, last n end))
  ]
    where
      before :
          (n : ℕ)
          → is_final (prompt w).0 ≡ false
          → ((i : ℕ) → i < n → is_final (answer i (prompt w).1) ≡ false)
          → (i : ℕ) → i < suc n
          → is_final (answer i w) ≡ false
      before n e earlier zero l = e
      before n e earlier (suc i) l = earlier i (omega arith)

      last :
          (n : ℕ)
          → ((is_final (answer n (prompt w).1) ≡ true) ⊎ (n ≡ left))
          → (is_final (answer (suc n) w) ≡ true) ⊎ (suc n ≡ suc left)
      last n (inl e) = inl e
      last n (inr e) = inr (ap suc e)

  -- With the default delays, a prompt with retries always has an answer. It stops after a number of
  -- retries that is at most the maximum, and returns the answer to the last prompt; every earlier
  -- answer was one to retry, and this one is final or the retries are used up. There are as
  -- many delays as retries, at least, and it has slept the first of them, one for each retry.
  pub prompt_claude_code_with_retry-stops :
      (max_retries : ℕ) (w : W)
      → (delays : List ℕ) × (pad_delays (max_retries - 3) (1 ∷ 3 ∷ 5 ∷ []) ≡ some delays)
        × (max_retries ≤ length delays)
        × (n : ℕ) × StopsAfter n max_retries delays w
            (prompt_claude_code_with_retry prompt max_retries none w)
  unfolding prompt_claude_code_with_retry
  prompt_claude_code_with_retry-stops max_retries w =
      let (delays, made, long) = pad_delays-long (max_retries - 3) 1 (3 ∷ 5 ∷ []) in
      let (n, stops) = attempts-stop max_retries delays w (omega arith) in
      (
        delays,
        made,
        omega arith,
        n,
        subst (λ r. StopsAfter n max_retries delays w r) (sym (same delays made)) stops,
      )
    where
      same :
          (delays : List ℕ)
          → pad_delays (max_retries - 3) (1 ∷ 3 ∷ 5 ∷ []) ≡ some delays
          → prompt_claude_code_with_retry prompt max_retries none w
            ≡ attempts prompt max_retries delays w
      same delays made = rw (prompt_claude_code_with_retry, made) refl
