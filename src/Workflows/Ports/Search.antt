-- ===== src/Workflows/Ports/Search.antt =====
-- The search for a free pair of ports.
use tac_master.Shared.{
  ℕ, zero, suc, ◌+◌, ◌-◌, ◌%◌, ◌<◌, ◌≤◌, Bool, true, false, ◌&&◌, ◌≡◌, ◌≢◌, ◌↔◌, refl, sym, ap, ◌∙◌,
  none, some, Text, arith, if◌then◌else◌, leb, Bool-cases, Option-cases, inl, inr,
}
use tac_master.Workflows.Ports.{
  port_index, get_ports_for_adw, search_ports, find_next_available_ports, base36,
}

module _ (available : ℕ → Bool) (base : ℕ) where
  abbrev is_free : ℕ → Bool
  is_free index = available (9100 + index) && available (9200 + index)

  search-found :
      (left offset backend frontend : ℕ)
      → search_ports available base left offset ≡ some (backend, frontend)
      → (index : ℕ) × (index < 15)
        × (backend ≡ 9100 + index)
        × (frontend ≡ 9200 + index)
        × (is_free index ≡ true)
  unfolding search_ports
  search-found zero offset backend frontend h = absurd (ground (arith, h))
  search-found (suc left) offset backend frontend h =
      elim (Bool-cases (is_free ((base + offset) % 15))) [
        | inl e ↦ ((base + offset) % 15, omega arith, ground (arith, e, h), ground (arith, e, h), e)
        | inr e ↦ search-found left (suc offset) backend frontend (ground (arith, e, h))
      ]

  -- The positions from `offset` on that a search without result has passed.
  search-none :
      (left offset at : ℕ)
      → search_ports available base left offset ≡ none
      → offset ≤ at
      → at < offset + left
      → is_free ((base + at) % 15) ≡ false
  unfolding search_ports
  search-none zero offset at h low high = absurd (omega arith)
  search-none (suc left) offset at h low high = elim (Bool-cases (is_free ((base + offset) % 15))) [
    | inl e ↦ absurd (ground (arith, e, h))
    | inr e ↦ elim (Bool-cases (leb at offset)) [
      | inl here ↦ (let same : at ≡ offset = ground arith in rw same e)
      | inr later ↦
          search-none left (suc offset) at (ground (arith, e, h)) (ground arith) (omega arith)
    ]
  ]

-- The position at which a search from `base` meets an index.
abbrev position : ℕ → ℕ → ℕ
position base index = if leb base index then index - base else index + 15 - base

position_lem :
    (base index : ℕ)
    → base < 15
    → index < 15
    → (position base index < 15) × ((base + position base index) % 15 ≡ index)
position_lem base index b i = elim (Bool-cases (leb base index)) [
  | inl e ↦ rw e (ground arith, ground arith)
  | inr e ↦ rw e (ground arith, ground arith)
]

port_index-bound : (hash : Text → ℕ) (adw_id : Text) → port_index hash adw_id < 15
unfolding port_index
port_index-bound hash adw_id = elim (Option-cases (base36 8 adw_id none)) [
  | inl e ↦ rw (port_index, e) (omega arith)
  | inr (v, e) ↦ rw (port_index, e) (omega arith)
]

differ : true ≢ false
differ h = ground (arith, h)

both_of : (a b : Bool) → (a && b) ≡ true → (a ≡ true) × (b ≡ true)
both_of true b h = (refl, h)
both_of false b h = absurd (ground (arith, h))

find-search :
    (hash : Text → ℕ) (available : ℕ → Bool) (adw_id : Text)
    → find_next_available_ports hash available adw_id
      ≡ search_ports available (port_index hash adw_id) 15 0
unfolding find_next_available_ports get_ports_for_adw
find-search hash available adw_id =
    let same : 9100 + port_index hash adw_id - 9100 ≡ port_index hash adw_id = omega arith in
    ap (λ base. search_ports available base 15 0) same

search-pair :
    (available : ℕ → Bool) (base backend frontend : ℕ)
    → search_ports available base 15 0 ≡ some (backend, frontend)
    → (index : ℕ) × (index < 15)
      × (backend ≡ 9100 + index)
      × (frontend ≡ 9200 + index)
      × (available backend ≡ true)
      × (available frontend ≡ true)
search-pair available base backend frontend h =
    let (index, low, b, f, free) = search-found available base 15 0 backend frontend h in
    let (up, down) = both_of (available (9100 + index)) (available (9200 + index)) free in
    (index, low, b, f, ap available b ∙ up, ap available f ∙ down)

search-none_iff :
    (available : ℕ → Bool) (base : ℕ)
    → base < 15
    → (search_ports available base 15 0 ≡ none)
      ↔ ((index : ℕ) → index < 15 → (available (9100 + index) && available (9200 + index)) ≡ false)
search-none_iff available base bound = (missed, exhausted)
  where
    missed :
        search_ports available base 15 0 ≡ none
        → (index : ℕ) → index < 15
        → (available (9100 + index) && available (9200 + index)) ≡ false
    missed h index low =
        let (near, at) = position_lem base index bound low in
        ap (λ i. available (9100 + i) && available (9200 + i)) (sym at)
        ∙ search-none available base 15 0 (position base index) h (omega arith) near

    exhausted :
        ((index : ℕ) → index < 15 → (available (9100 + index) && available (9200 + index)) ≡ false)
        → search_ports available base 15 0 ≡ none
    exhausted all = elim (Option-cases (search_ports available base 15 0)) [
      | inl e ↦ e
      | inr ((backend, frontend), e) ↦
          let (index, low, b, f, free) = search-found available base 15 0 backend frontend e in
          absurd (differ (sym free ∙ all index low))
    ]

-- The ports that are found are a pair of the fifteen, for the backend from 9100 and for the frontend
-- from 9200 on, and both can be bound. None is found exactly when no pair of the fifteen is free.
pub find_next_available_ports_iff :
    (hash : Text → ℕ) (available : ℕ → Bool) (adw_id : Text)
    → ((backend frontend : ℕ)
        → find_next_available_ports hash available adw_id ≡ some (backend, frontend)
        → (index : ℕ) × (index < 15)
          × (backend ≡ 9100 + index)
          × (frontend ≡ 9200 + index)
          × (available backend ≡ true)
          × (available frontend ≡ true))
      × ((find_next_available_ports hash available adw_id ≡ none) ↔ (
          (index : ℕ)
          → index < 15
          → (available (9100 + index) && available (9200 + index)) ≡ false))
find_next_available_ports_iff hash available adw_id = rw (find-search hash available adw_id) (
  search-pair available (port_index hash adw_id),
  search-none_iff available (port_index hash adw_id) (port_index-bound hash adw_id),
)
