-- ===== src/Workflows/Ports.antt =====
-- The ports of a run's worktree (adws/adw_modules/worktree_ops.py). Whether a port can be bound is
-- the operating system's answer, and `hash` is Python's; an id is of ASCII code points.
pub mod Search
use tac_master.Shared.{
  ℕ, zero, suc, ◌+◌, ◌*◌, ◌-◌, ◌%◌, Bool, true, false, ◌&&◌, ◌||◌, Option, none, some, List, [],
  ◌∷◌, Text, if◌then◌else◌, leb, is_digit,
}

unfoldable pub is_upper : ℕ → Bool
is_upper c = leb b'A' c && leb c b'Z'

unfoldable pub is_lower : ℕ → Bool
is_lower c = leb b'a' c && leb c b'z'

-- The value of a digit in base 36, `none` for a character that is not alphanumeric.
unfoldable pub digit_value : ℕ → Option ℕ
unfolding is_digit is_upper is_lower
digit_value c =
    if is_digit c
    then some (c - b'0')
    else if is_upper c
    then some (c - b'A' + 10)
    else if is_lower c
    then some (c - b'a' + 10)
    else none

-- `int(id_chars, 36)` over the alphanumeric characters among the first `n`; `before` is `none` while
-- there are none, when `int` raises a ValueError.
unfoldable pub base36 : ℕ → Text → Option ℕ → Option ℕ
unfolding digit_value
base36 zero s before = before
base36 (suc n) [] before = before
base36 (suc n) (c ∷ s) before = elim (digit_value c) [
  | none ↦ base36 n s before
  | some d ↦ elim before [ none ↦ base36 n s (some d) | some v ↦ base36 n s (some (v * 36 + d)) ]
]

module _ (hash : Text → ℕ) where
  unfoldable pub port_index : Text → ℕ
  unfolding base36
  port_index adw_id = elim (base36 8 adw_id none) [ none ↦ hash adw_id % 15 | some v ↦ v % 15 ]

  unfoldable pub get_ports_for_adw : Text → ℕ × ℕ
  unfolding port_index
  get_ports_for_adw adw_id = (9100 + port_index adw_id, 9200 + port_index adw_id)

module _ (available : ℕ → Bool) where
  -- The loop over the offsets from `offset` on, with `left` of them to go.
  unfoldable pub search_ports : ℕ → ℕ → ℕ → Option (ℕ × ℕ)
  search_ports base_index zero offset = none
  search_ports base_index (suc left) offset =
      let index = (base_index + offset) % 15 in
      let rest = search_ports base_index left (suc offset) in
      if available (9100 + index) && available (9200 + index)
      then some (9100 + index, 9200 + index)
      else rest

-- `find_next_available_ports` with its 15 attempts; `none` is the RuntimeError.
unfoldable pub find_next_available_ports : (Text → ℕ) → (ℕ → Bool) → Text → Option (ℕ × ℕ)
unfolding get_ports_for_adw search_ports
find_next_available_ports hash available adw_id =
    search_ports available ((get_ports_for_adw hash adw_id).0 - 9100) 15 0
