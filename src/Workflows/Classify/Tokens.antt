-- ===== src/Workflows/Classify/Tokens.antt =====
-- Which token an answer is read as.
use tac_master.Shared.{
  ℕ, zero, suc, ◌-◌, ◌≤◌, String, Bool, true, false, ◌≡◌, refl, ap, ◌∙◌, none, some, List, [], ◌∷◌,
  ◌++◌, inl, inr, Bool-cases, Option-cases, if◌then◌else◌, ◌==◌, string_eq, nat_eq, Text, codes,
  starts_with, any_row, length, arith, subst, eq_iff, is_word, is_digit,
}
use Prim.Native.Char.{code}
use Prim.Native.String.append
use Prim.Native.String.{◌++◌ as concat}
use tac_master.Workflows.Retry.{AgentPromptResponse}
use tac_master.Workflows.Classify.{
  blocks, tokens, token_at, find_tokens, last_token, extract_classify_token, ends_after, commands,
  classify_issue,
}

-- No token holds a space.
abbrev NoSpace : Text → Type 0
NoSpace s = any_row (λ c. c == b' ') s ≡ false

abbrev AllNoSpace : List String → Type 0
AllNoSpace [] = Unit
AllNoSpace (t ∷ ts) = NoSpace (codes t) × AllNoSpace ts

tokens-NoSpace : AllNoSpace tokens
unfolding any_row
tokens-NoSpace = (refl, (refl, (refl, (refl, (refl, tt)))))

-- What starts before a space and holds none ends before it.
length-starts_with :
    (s rest part : Text)
    → NoSpace part
    → starts_with (s ++ b' ' ∷ rest) part ≡ true
    → length part ≤ length s
unfolding starts_with any_row
length-starts_with s rest [] h e = omega arith
length-starts_with [] rest (c ∷ part) h e = absurd (ground (arith, h, e))
length-starts_with (d ∷ s) rest (c ∷ part) h e =
    ground (arith, length-starts_with s rest part (ground (arith, h)) (ground (arith, e)))

length-token_at :
    (ts : List String) (s rest : Text) (t : String)
    → AllNoSpace ts
    → token_at ts (s ++ b' ' ∷ rest) ≡ some t
    → length (codes t) ≤ length s
unfolding token_at
length-token_at [] s rest t h e = absurd (ground (arith, e))
length-token_at (u ∷ ts) s rest t h e =
    elim (Bool-cases (starts_with (s ++ b' ' ∷ rest) (codes u))) [
      | inr n ↦ length-token_at ts s rest t h.1 (ground (arith, n, e))
      | inl y ↦ elim (Bool-cases (ends_after (length (codes u)) (s ++ b' ' ∷ rest))) [
        | inr n ↦ length-token_at ts s rest t h.1 (ground (arith, n, y, e))
        | inl z ↦
            subst (λ v. length (codes v) ≤ length s) {x = u} (ground (arith, e, y, z))
              (length-starts_with s rest (codes u) h.0 y)
      ]
    ]

last_token-cons :
    (t u : String) (ts : List String) → last_token ts ≡ some u → last_token (t ∷ ts) ≡ some u
unfolding last_token
last_token-cons t u [] e = absurd (ground (arith, e))
last_token-cons t u (next ∷ ts) e = e

-- A token at the end, after a space, is the last that is found.
module _ (t : String)
    (own : (after : Bool) → last_token (find_tokens 0 after (b' ' ∷ codes t)) ≡ some t) where
  find_tokens-last :
      (before : Text) (skip : ℕ) (after : Bool)
      → skip ≤ length before
      → last_token (find_tokens skip after (before ++ b' ' ∷ codes t)) ≡ some t
  unfolding find_tokens
  find_tokens-last [] zero after fits = own after
  find_tokens-last [] (suc skip) after fits = absurd (omega arith)
  find_tokens-last (c ∷ before) (suc skip) after fits =
      find_tokens-last before skip (blocks c) (omega arith)
  find_tokens-last (c ∷ before) zero true fits = find_tokens-last before 0 (blocks c) (omega arith)
  find_tokens-last (c ∷ before) zero false fits =
      elim (Option-cases (token_at tokens (c ∷ before ++ b' ' ∷ codes t))) [
        | inl e ↦ rw (find_tokens, e) (find_tokens-last before 0 (blocks c) (omega arith))
        | inr (u, e) ↦
            let short = length-token_at tokens (c ∷ before) (codes t) u tokens-NoSpace e in
            rw (find_tokens, e)
              (last_token-cons u t
                (find_tokens (length (codes u) - 1) (blocks c) (before ++ b' ' ∷ codes t))
                (find_tokens-last before (length (codes u) - 1) (blocks c) (omega (arith, short))))
      ]

codes-concat : (s t : String) → codes (concat s t) ≡ codes s ++ codes t
codes-concat String.[] t = ap codes (append.nil t)
codes-concat (String.◌∷◌ c s) t =
    ap codes (append.cons c s t) ∙ ap (λ r. code c ∷ r) (codes-concat s t)

module _ (P : String → Type 0) where
  abbrev AllOf : List String → Type 0
  AllOf [] = Unit
  AllOf (t ∷ ts) = P t × AllOf ts

  of_listed : (t : String) (ts : List String) → AllOf ts → any_row (λ u. u == t) ts ≡ true → P t
  unfolding any_row
  of_listed t [] h e = absurd (ground (arith, e))
  of_listed t (u ∷ ts) h e = elim (Bool-cases (u == t)) [
    | inl y ↦ subst P ((eq_iff u t).0 y) h.0
    | inr n ↦ of_listed t ts h.1 (ground (arith, n, e))
  ]

-- A token alone, after a space, is found.
abbrev IsFound : String → Type 0
IsFound t =
    (last_token (find_tokens 0 true (b' ' ∷ codes t)) ≡ some t)
    × (last_token (find_tokens 0 false (b' ' ∷ codes t)) ≡ some t)

tokens-IsFound : AllOf IsFound tokens
unfolding find_tokens last_token token_at blocks is_word is_digit starts_with ends_after
tokens-IsFound = ((refl, refl), ((refl, refl), ((refl, refl), ((refl, refl), ((refl, refl), tt)))))

own_tokens :
    (t : String)
    → IsFound t
    → (after : Bool) → last_token (find_tokens 0 after (b' ' ∷ codes t)) ≡ some t
own_tokens t found true = found.0
own_tokens t found false = found.1

-- An answer that ends with a space and a token is read as that token, whatever stands before it.
pub extract_classify_token-last :
    (before token : String)
    → any_row (λ u. u == token) tokens ≡ true
    → extract_classify_token (concat before (concat " " token)) ≡ token
unfolding extract_classify_token
extract_classify_token-last before token listed =
    let found = of_listed IsFound token tokens tokens-IsFound listed in
    let split : codes (concat before (concat " " token)) ≡ codes before ++ b' ' ∷ codes token =
      codes-concat before (concat " " token)
      ∙ ap (λ r. codes before ++ r) (codes-concat " " token) in
    rw
      (
        extract_classify_token,
        split,
        find_tokens-last token (own_tokens token found) (codes before) 0 false (omega arith),
      )
      refl

abbrev IsCommand : String → Type 0
IsCommand t =
    (any_row (λ u. u == t) tokens ≡ true)
    × ((t == "0") ≡ false)
    × (any_row (λ u. u == t) commands ≡ true)

commands-IsCommand : AllOf IsCommand commands
unfolding any_row
commands-IsCommand =
    ((refl, refl, refl), ((refl, refl, refl), ((refl, refl, refl), ((refl, refl, refl), tt))))

-- An issue is classified by the command that ends the agent's answer after a space, whatever stands
-- before it; an agent that fails gives no command and its output as the error.
pub classify_issue-command :
    (response : AgentPromptResponse) (before command : String)
    → any_row (λ u. u == command) commands ≡ true
    → response.output ≡ concat before (concat " " command)
    → classify_issue response
      ≡ (if response.success then (some command, none) else (none, some response.output))
unfolding classify_issue
classify_issue-command response before command listed ends =
    let (token, not_zero, known) = of_listed IsCommand command commands commands-IsCommand listed in
    let read : extract_classify_token response.output ≡ command =
      ap extract_classify_token ends ∙ extract_classify_token-last before command token in
    elim (Bool-cases response.success) [
      | inl e ↦ rw (e, read, not_zero, known) refl
      | inr e ↦ rw e refl
    ]
