-- ===== src/Tokens/Prices.antt =====
-- Every price that the tracker looks up in its own book is there.
use tac_master.Shared.{
  true, ◌≡◌, refl, none, some, [], ◌∷◌, ◌++◌, Text, codes, arith, text_eq, is_ok, ok, Option-cases,
  inl, inr,
}
use tac_master.Tokens.{
  ModelPrice, Prices, price_of, price_book, default_price, family_price, lookup, TokenUsage, price,
}

price_of-last :
    (name : Text) (entries : Prices) (p : ModelPrice)
    → price_of name entries ≡ none
    → price_of name (entries ++ (name, p) ∷ []) ≡ some p
unfolding price_of
price_of-last name [] p h = ground (arith, (text_eq.test_iff name name).1 refl)
price_of-last name ((key, q) ∷ entries) p h = ground (arith, price_of-last name entries p)

-- The price that `default_price` finds in a book.
abbrev fallback : ModelPrice
fallback = record { input = 1500; output = 7500; cache_write = 1875; cache_read = 150 }

pub default-price_book :
    (entries : Prices) → (p : ModelPrice) × (default_price (price_book entries) ≡ ok p)
unfolding default_price price_book
default-price_book entries = elim (Option-cases (price_of (codes "default") entries)) [
  | inl e ↦ (fallback, ground (arith, e, price_of-last (codes "default") entries fallback e))
  | inr (p, e) ↦ (p, ground (arith, e))
]

family-ok :
    (family : Text) (prices : Prices) (p : ModelPrice)
    → default_price prices ≡ ok p
    → (q : ModelPrice) × (family_price family prices ≡ ok q)
unfolding family_price
family-ok family prices p h = elim (Option-cases (price_of family prices)) [
  | inl e ↦ (p, ground (arith, h, e))
  | inr (q, e) ↦ (q, ground (arith, h, e))
]

lookup-is_ok :
    (prices : Prices) (model : Text) (p : ModelPrice)
    → default_price prices ≡ ok p
    → is_ok (lookup prices model) ≡ true
unfolding lookup
lookup-is_ok prices model p h =
    let (opus, a) = family-ok (codes "opus") prices p h in
    let (sonnet, b) = family-ok (codes "sonnet") prices p h in
    let (haiku, c) = family-ok (codes "haiku") prices p h in ground (arith, a, b, c)

-- The lookup of a model never raises, with the book that the tracker builds from any file.
pub price-ok : (entries : Prices) (u : TokenUsage) → is_ok (price (price_book entries) u) ≡ true
unfolding price
price-ok entries u =
    let (p, h) = default-price_book entries in
    ground (arith, lookup-is_ok (price_book entries) u.model p h)
