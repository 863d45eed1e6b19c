-- ===== src/Knowledge/Queries.antt =====
-- The expression that a search hands to the full-text index.
use tac_master.Shared.{
  ℕ, zero, suc, ◌*◌, ◌≤◌, true, false, ◌≡◌, refl, inl, inr, List, [], ◌∷◌, ◌++◌, map, ◌==◌, nat_eq,
  Text, text_eq, codes, arith, length, leb, select_rows, count_rows, count-append, is_space,
  is_word, Bool-cases,
}
use tac_master.Orchestrator.Tables.{limit}
use tac_master.Orchestrator.Tables.Limits.{length-limit}
use tac_master.Knowledge.{cleaned, split_words, query_tokens, quoted, sanitize_fts, join}

abbrev IsWord : Text → Type 0
IsWord [] = Unit
IsWord (c ∷ t) = (is_word c ≡ true) × IsWord t

abbrev pub quotes : Text → ℕ
quotes t = count_rows (λ c. c == b'"') t

abbrev AllWords : List Text → Type 0
AllWords [] = Unit
AllWords (t ∷ ts) = IsWord t × AllWords ts

-- Words of three letters or more, from word characters alone.
abbrev pub AreTokens : List Text → Type 0
AreTokens [] = Unit
AreTokens (t ∷ ts) = (3 ≤ length t) × IsWord t × AreTokens ts

-- After cleaning, what is not white space is a word character.
abbrev IsCleaned : Text → Type 0
IsCleaned [] = Unit
IsCleaned (c ∷ t) = (is_space c ≡ false → is_word c ≡ true) × IsCleaned t

space-is_space : is_space b' ' ≡ true
unfolding is_space
space-is_space = refl

cleaned-IsCleaned : (s : Text) → IsCleaned (cleaned s)
unfolding cleaned
cleaned-IsCleaned [] = tt
cleaned-IsCleaned (c ∷ s) = (
  elim (Bool-cases (is_word c)) [
    | inl w ↦ rw w (λ e. w)
    | inr n ↦ elim (Bool-cases (is_space c)) [
      | inl e ↦ rw (n, e) (λ h. absurd (ground (arith, e, h)))
      | inr e ↦ rw (n, e) (λ h. absurd (ground (arith, space-is_space, h)))
    ]
  ],
  cleaned-IsCleaned s,
)

IsWord-append : (t : Text) (c : ℕ) → IsWord t → is_word c ≡ true → IsWord (t ++ c ∷ [])
IsWord-append [] c h w = (w, tt)
IsWord-append (d ∷ t) c h w = (h.0, IsWord-append t c h.1 w)

split_words-AllWords : (word s : Text) → IsWord word → IsCleaned s → AllWords (split_words word s)
unfolding split_words
split_words-AllWords word [] h k = elim (Bool-cases (word == [])) [
  | inl e ↦ rw e tt
  | inr e ↦ rw e (h, tt)
]
split_words-AllWords word (c ∷ s) h k = elim (Bool-cases (is_space c)) [
  | inl sp ↦ elim (Bool-cases (word == [])) [
    | inl e ↦ rw (split_words, sp, e) (split_words-AllWords [] s tt k.1)
    | inr e ↦ rw (split_words, sp, e) (h, split_words-AllWords [] s tt k.1)
  ]
  | inr sp ↦
      rw (split_words, sp)
        (split_words-AllWords (word ++ c ∷ []) s (IsWord-append word c h (k.0 sp)) k.1)
]

select-AreTokens :
    (ts : List Text) → AllWords ts → AreTokens (select_rows (λ t. leb 3 (length t)) ts)
unfolding select_rows
select-AreTokens [] h = tt
select-AreTokens (t ∷ ts) h = elim (Bool-cases (leb 3 (length t))) [
  | inl e ↦ rw e (ground (arith, e), h.0, select-AreTokens ts h.1)
  | inr e ↦ rw e (select-AreTokens ts h.1)
]

limit-AreTokens : (n : ℕ) (ts : List Text) → AreTokens ts → AreTokens (limit n ts)
unfolding limit
limit-AreTokens zero ts h = tt
limit-AreTokens (suc n) [] h = tt
limit-AreTokens (suc n) (t ∷ ts) h = (h.0, h.1, limit-AreTokens n ts h.2)

word-not_quote : (c : ℕ) → is_word c ≡ true → (c == b'"') ≡ false
unfolding is_word
word-not_quote c w = ground (arith, w)

word-quotes : (t : Text) → IsWord t → quotes t ≡ 0
unfolding count_rows
word-quotes [] h = refl
word-quotes (c ∷ t) h = rw (word-not_quote c h.0) (omega (arith, word-quotes t h.1))

quoted-quotes : (t : Text) → IsWord t → quotes (quoted t) ≡ 2
unfolding count_rows
quoted-quotes t h = omega (arith, count-append (λ c. c == b'"') t (b'"' ∷ []), word-quotes t h)

join-quotes :
    (ts : List Text) → AreTokens ts → quotes (join (codes " OR ") (map quoted ts)) ≡ 2 * length ts
unfolding join count_rows
join-quotes [] h = refl
join-quotes (t ∷ []) h = quoted-quotes t h.1
join-quotes (t ∷ next ∷ ts) h = omega (
  arith,
  count-append (λ c. c == b'"') (quoted t ++ codes " OR ")
      (join (codes " OR ") (map quoted (next ∷ ts))),
  count-append (λ c. c == b'"') (quoted t) (codes " OR "),
  quoted-quotes t h.1,
  join-quotes (next ∷ ts) h.2,
)

-- Whatever the query holds, the expression is made of at most twenty tokens joined by OR, each of
-- three word characters or more in double quotes, and no other double quote stands in it.
pub sanitize_fts-tokens :
    (query : Text)
    → (ts : List Text) × (sanitize_fts query ≡ join (codes " OR ") (map quoted ts))
      × AreTokens ts
      × (length ts ≤ 20)
      × (quotes (sanitize_fts query) ≡ 2 * length ts)
unfolding sanitize_fts query_tokens
sanitize_fts-tokens query =
    let long = select_rows (λ t. leb 3 (length t)) (split_words [] (cleaned query)) in
    let tokens = limit-AreTokens 20 long (
      select-AreTokens (split_words [] (cleaned query))
        (split_words-AllWords [] (cleaned query) tt (cleaned-IsCleaned query))) in
    (
      limit 20 long,
      refl,
      tokens,
      ground (arith, length-limit 20 long),
      join-quotes (limit 20 long) tokens,
    )
