-- ===== src/Shared/Codes.antt =====
-- Text that the program walks, as the list of its code points.
use Prim.Native.Nat.{ℕ, zero, suc, ◌+◌}
use Prim.Native.Char.{code}
use Prim.Native.String.{String}
use mathlib.Core.Path.{◌≡◌}
use mathlib.Core.Logic.{◌↔◌, ◌≢◌, inl, inr}
use mathlib.Core.Bool.{Bool, true, false, ◌&&◌, ◌||◌}
use mathlib.Core.List.{List, [], ◌∷◌, map, reverse}
use native.Mathlib.Omega.{arith}
use tac_master.Shared.Tests.{Bool-cases, leb, if◌then◌else◌, Testable, ◌==◌, nat_eq, nat_beq}

abbrev pub Text : Type 0
Text = List ℕ

abbrev pub codes : String → Text
codes String.[] = []
codes (String.◌∷◌ c s) = code c ∷ codes s

abbrev pub text_beq : Text → Text → Bool
text_beq [] [] = true
text_beq [] (y ∷ ys) = false
text_beq (x ∷ xs) [] = false
text_beq (x ∷ xs) (y ∷ ys) = nat_beq x y && text_beq xs ys

pub text_beq_iff : (s t : Text) → (text_beq s t ≡ true) ↔ (s ≡ t)
text_beq_iff [] [] = ground arith
text_beq_iff [] (y ∷ ys) = ground arith
text_beq_iff (x ∷ xs) [] = ground arith
text_beq_iff (x ∷ xs) (y ∷ ys) = ground (arith, text_beq_iff xs ys)

instance abbrev pub text_eq : Testable Text
text_eq = record { test = text_beq; test_iff = text_beq_iff }

-- The code points that `str.strip` removes, of ASCII.
unfoldable pub is_space : ℕ → Bool
is_space c = c == 32 || leb 9 c && leb c 13 || leb 28 c && leb c 31

unfoldable pub lstrip : Text → Text
unfolding is_space
lstrip [] = []
lstrip (c ∷ s) = if is_space c then lstrip s else c ∷ s

unfoldable pub strip : Text → Text
unfolding lstrip
strip s = reverse (lstrip (reverse (lstrip s)))

-- `str.lower`, on ASCII.
unfoldable pub lower : Text → Text
lower = map (λ c. if leb b'A' c && leb c b'Z' then c + 32 else c)

unfoldable pub starts_with : Text → Text → Bool
starts_with s [] = true
starts_with [] (p ∷ ps) = false
starts_with (c ∷ s) (p ∷ ps) = c == p && starts_with s ps

unfoldable pub is_digit : ℕ → Bool
is_digit c = leb b'0' c && leb c b'9'

-- `\w`
unfoldable pub is_word : ℕ → Bool
unfolding is_digit
is_word c = is_digit c || (leb b'A' c && leb c b'Z') || (leb b'a' c && leb c b'z') || (c == b'_')

unfoldable pub lstrip_slash : Text → Text
lstrip_slash [] = []
lstrip_slash (c ∷ s) = if c == b'/' then lstrip_slash s else c ∷ s

-- `s.rstrip("/")`
unfoldable pub rstrip_slash : Text → Text
unfolding lstrip_slash
rstrip_slash s = reverse (lstrip_slash (reverse s))

abbrev onto_head : ℕ → List Text → List Text
onto_head c [] = (c ∷ []) ∷ []
onto_head c (piece ∷ rest) = (c ∷ piece) ∷ rest

-- `s.split("/")`
unfoldable pub split_slash : Text → List Text
split_slash [] = [] ∷ []
split_slash (c ∷ s) = let rest = split_slash s in if c == b'/' then [] ∷ rest else onto_head c rest

-- `s.replace(".git", "")`: `skip` more code points belong to an occurrence.
unfoldable pub without_git_from : ℕ → Text → Text
unfolding starts_with
without_git_from skip [] = []
without_git_from zero (c ∷ s) =
    let inside = without_git_from 3 s in
    let outside = without_git_from zero s in
    if starts_with (c ∷ s) (codes ".git") then inside else c ∷ outside
without_git_from (suc skip) (c ∷ s) = without_git_from skip s

unfoldable pub without_git : Text → Text
unfolding without_git_from
without_git = without_git_from 0

pub text_differ : (s t : Text) → s ≢ t → text_beq s t ≡ false
text_differ s t h = elim (Bool-cases (text_beq s t)) [
  | inl e ↦ absurd (h ((text_beq_iff s t).0 e))
  | inr e ↦ e
]
