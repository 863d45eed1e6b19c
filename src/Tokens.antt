-- ===== src/Tokens.antt =====
-- The token tracker (orchestrator/token_tracker.py): the price book and the usage that a run's
-- transcripts report. A price is in hundredths of a dollar for a million tokens, and so a cost is in
-- 10⁻⁸ dollars; a reported cost is not negative.
pub mod Prices
pub mod Attribution
pub mod Ledger
pub mod Credit
pub mod Totals
pub mod Frame
use tac_master.Shared.{
  ℕ, ◌+◌, ◌*◌, Bool, true, false, ◌&&◌, not, Option, none, some, List, [], ◌∷◌, ◌++◌, Text, codes,
  if◌then◌else◌, ◌==◌, nat_eq, text_eq, ltb, Result, ok, err, external_error, starts_with, lower,
}

pub record ModelPrice : Type 0 where
  pub input : ℕ
  pub output : ℕ
  pub cache_write : ℕ
  pub cache_read : ℕ

-- `PriceBook.prices`, in the order of the dict.
abbrev pub Prices : Type 0
Prices = List (Text × ModelPrice)

unfoldable pub price_of : Text → Prices → Option ModelPrice
price_of name [] = none
price_of name ((key, price) ∷ prices) = if key == name then some price else price_of name prices

-- `PriceBook.__init__`, from the entries of the file.
unfoldable pub price_book : Prices → Prices
unfolding price_of
price_book entries = elim (price_of (codes "default") entries) [
  | none ↦
      entries
      ++ (
        codes "default",
        record { input = 1500; output = 7500; cache_write = 1875; cache_read = 150 },
      )
        ∷ []
  | some price ↦ entries
]

-- `for key in self.prices: if m.startswith(key)`
unfoldable pub price_of_prefix : Text → Prices → Option ModelPrice
unfolding starts_with
price_of_prefix m [] = none
price_of_prefix m ((key, price) ∷ prices) =
    if starts_with m key then some price else price_of_prefix m prices

-- `family in m`
unfoldable pub occurs : Text → Text → Bool
unfolding starts_with
occurs part [] = starts_with [] part
occurs part (c ∷ s) = if starts_with (c ∷ s) part then true else occurs part s

-- `self.prices["default"]`, which raises a KeyError where there is none
unfoldable pub default_price : Prices → Result ModelPrice
unfolding price_of
default_price prices = elim (price_of (codes "default") prices) [
  | none ↦ err external_error
  | some price ↦ ok price
]

-- `self.prices.get(family, self.prices["default"])`, whose default is evaluated first
unfoldable pub family_price : Text → Prices → Result ModelPrice
unfolding price_of default_price
family_price family prices = elim (default_price prices) [
  | err e ↦ err e
  | ok fallback ↦ elim (price_of family prices) [ none ↦ ok fallback | some price ↦ ok price ]
]

-- `PriceBook.lookup`
unfoldable pub lookup : Prices → Text → Result ModelPrice
unfolding price_of price_of_prefix occurs default_price family_price lower
lookup prices model =
    if model == [] then default_price prices else elim (price_of (lower model) prices) [
      | some price ↦ ok price
      | none ↦ elim (price_of_prefix (lower model) prices) [
        | some price ↦ ok price
        | none ↦
            if occurs (codes "opus") (lower model)
            then family_price (codes "opus") prices
            else if occurs (codes "sonnet") (lower model)
            then family_price (codes "sonnet") prices
            else if occurs (codes "haiku") (lower model)
            then family_price (codes "haiku") prices
            else default_price prices
      ]
    ]

-- The dataclass `Usage`.
pub record TokenUsage : Type 0 where
  pub input_tokens : ℕ
  pub output_tokens : ℕ
  pub cache_creation_input_tokens : ℕ
  pub cache_read_input_tokens : ℕ
  pub cost_usd : ℕ
  pub model : Text

abbrev pub no_usage : TokenUsage
no_usage = record {
  input_tokens = 0;
  output_tokens = 0;
  cache_creation_input_tokens = 0;
  cache_read_input_tokens = 0;
  cost_usd = 0;
  model = [];
}

unfoldable pub total_tokens : TokenUsage → ℕ
total_tokens u =
    u.input_tokens + u.output_tokens + u.cache_creation_input_tokens + u.cache_read_input_tokens

-- `total.add(other)`
unfoldable pub add : TokenUsage → TokenUsage → TokenUsage
add total other = record {
  input_tokens = total.input_tokens + other.input_tokens;
  output_tokens = total.output_tokens + other.output_tokens;
  cache_creation_input_tokens =
      total.cache_creation_input_tokens + other.cache_creation_input_tokens;
  cache_read_input_tokens = total.cache_read_input_tokens + other.cache_read_input_tokens;
  cost_usd = total.cost_usd + other.cost_usd;
  model = if not (other.model == []) && total.model == [] then other.model else total.model;
}

-- `Usage.price`
unfoldable pub price : Prices → TokenUsage → Result ℕ
unfolding lookup
price prices u = if ltb 0 u.cost_usd then ok u.cost_usd else elim (lookup prices u.model) [
  | err e ↦ err e
  | ok p ↦ ok (
      u.input_tokens * p.input
      + u.output_tokens * p.output
      + u.cache_creation_input_tokens * p.cache_write
      + u.cache_read_input_tokens * p.cache_read)
]

-- The four counts of a `usage` block, 0 for one that is missing or null.
pub record Counts : Type 0 where
  pub input_tokens : ℕ
  pub output_tokens : ℕ
  pub cache_creation_input_tokens : ℕ
  pub cache_read_input_tokens : ℕ

-- A line of a transcript that is JSON, by its `type`. A part that `_extract_usage` reads may not be
-- what it takes, such as a count that `int` refuses: then it raises, here for the first such part.
pub data Line : Type 0 where
  -- what is no object or not UTF-8, an assistant's message or a top-level `usage` with such a part
  malformed : Line
  -- an assistant's message, with its `usage` and its `model`
  assistant : Counts → Text → Line
  -- a result, with `total_cost_usd` where it is a number, and `usage` where it is not empty: its
  -- counts, or what reading them raises
  result : Option ℕ → Option (Result Counts) → Line
  -- any other, with a top-level `usage` where it has `input_tokens`
  other : Option Counts → Line

unfoldable pub usage_from : Counts → Text → TokenUsage
usage_from c model = record {
  input_tokens = c.input_tokens;
  output_tokens = c.output_tokens;
  cache_creation_input_tokens = c.cache_creation_input_tokens;
  cache_read_input_tokens = c.cache_read_input_tokens;
  cost_usd = 0;
  model = model;
}

-- `if isinstance(cost, (int, float)): total.cost_usd = float(cost)`
unfoldable pub set_cost : Option ℕ → TokenUsage → TokenUsage
set_cost none total = total
set_cost (some cost) total = record total { cost_usd = cost }

unfoldable pub extract_usage : Line → TokenUsage → Result TokenUsage
unfolding add usage_from set_cost
extract_usage malformed total = err external_error
extract_usage (assistant counts model) total = ok (add total (usage_from counts model))
extract_usage (result cost none) total = ok (set_cost cost total)
extract_usage (result cost (some read)) total =
    if total.input_tokens == 0
    then elim read [
      | err e ↦ err e
      | ok counts ↦ ok (add (set_cost cost total) (usage_from counts []))
    ]
    else ok (set_cost cost total)
extract_usage (other none) total = ok total
extract_usage (other (some counts)) total = ok (add total (usage_from counts []))

-- `parse_jsonl_file`, on the lines that could be read: `none` for one that is blank or not JSON.
unfoldable pub parse_lines : List (Option Line) → TokenUsage → Result TokenUsage
unfolding extract_usage
parse_lines [] total = ok total
parse_lines (none ∷ lines) total = parse_lines lines total
parse_lines (some line ∷ lines) total = elim (extract_usage line total) [
  | err e ↦ err e
  | ok total' ↦ parse_lines lines total'
]
