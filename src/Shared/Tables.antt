-- ===== src/Shared/Tables.antt =====
-- SELECT, UPDATE and COUNT with a WHERE clause, over a table as the list of its rows.
use Prim.Native.Nat.{ℕ, suc, ◌+◌, ◌<◌, ◌≤◌}
use mathlib.Core.Path.{◌≡◌, refl}
use mathlib.Core.Bool.{Bool, true, false}
use mathlib.Core.Option.{Option, none, some}
use mathlib.Core.List.{List, [], ◌∷◌, ◌++◌}
use native.Mathlib.Omega.{arith}
use tac_master.Shared.Tests.{if◌then◌else◌}

module _ {ℓ} {A : Type ℓ} where
  unfoldable pub find_row : (A → Bool) → List A → Option A
  find_row p [] = none
  find_row p (x ∷ xs) = if p x then some x else find_row p xs

  unfoldable pub update_rows : (A → Bool) → (A → A) → List A → List A
  update_rows p f [] = []
  update_rows p f (x ∷ xs) = (if p x then f x else x) ∷ update_rows p f xs

  unfoldable pub count_rows : (A → Bool) → List A → ℕ
  count_rows p [] = 0
  count_rows p (x ∷ xs) = (if p x then 1 else 0) + count_rows p xs

  unfoldable pub any_row : (A → Bool) → List A → Bool
  any_row p [] = false
  any_row p (x ∷ xs) = if p x then true else any_row p xs

  unfoldable pub select_rows : (A → Bool) → List A → List A
  select_rows p [] = []
  select_rows p (x ∷ xs) = let rest = select_rows p xs in if p x then x ∷ rest else rest

module _ {ℓ} {A : Type ℓ} (p q : A → Bool) (f : A → A) where
  -- An UPDATE that leaves the columns of `p` alone finds the same row, changed if it was selected.
  pub find-update :
      ((x : A) → p (f x) ≡ p x)
      → (xs : List A)
      → find_row p (update_rows q f xs)
        ≡ elim (find_row p xs) [ none ↦ none | some x ↦ some (if q x then f x else x) ]
  unfolding find_row update_rows
  find-update keeps [] = refl
  find-update keeps (x ∷ xs) = ground (arith, keeps x, find-update keeps xs)

  pub count-update :
      ((x : A) → q x ≡ true → p (f x) ≡ p x)
      → (xs : List A) → count_rows p (update_rows q f xs) ≡ count_rows p xs
  unfolding count_rows update_rows
  count-update keeps [] = refl
  count-update keeps (x ∷ xs) = ground (arith, keeps x, count-update keeps xs)

  pub count-shrink :
      ((x : A) → p (f x) ≡ true → p x ≡ true)
      → (xs : List A) → count_rows p (update_rows q f xs) ≤ count_rows p xs
  unfolding count_rows update_rows
  count-shrink keeps [] = omega arith
  count-shrink keeps (x ∷ xs) = ground (arith, keeps x, count-shrink keeps xs)

  pub any-update :
      ((x : A) → p (f x) ≡ p x) → (xs : List A) → any_row p (update_rows q f xs) ≡ any_row p xs
  unfolding any_row update_rows
  any-update keeps [] = refl
  any-update keeps (x ∷ xs) = ground (arith, keeps x, any-update keeps xs)

  -- Where no row is selected yet, an UPDATE after an INSERT changes the inserted row alone.
  pub update-fresh :
      (xs : List A) (x : A)
      → any_row q xs ≡ false
      → update_rows q f (xs ++ x ∷ []) ≡ xs ++ (if q x then f x else x) ∷ []
  unfolding any_row update_rows
  update-fresh [] x none_yet = refl
  update-fresh (y ∷ xs) x none_yet = ground (arith, update-fresh xs x)

module _ {ℓ} {A : Type ℓ} (p : A → Bool) where
  pub count-append : (xs ys : List A) → count_rows p (xs ++ ys) ≡ count_rows p xs + count_rows p ys
  unfolding count_rows
  count-append [] ys = omega arith
  count-append (x ∷ xs) ys = omega (arith, count-append xs ys)

  pub find-append :
      (xs ys : List A)
      → find_row p (xs ++ ys) ≡ elim (find_row p xs) [ none ↦ find_row p ys | some x ↦ some x ]
  unfolding find_row
  find-append [] ys = refl
  find-append (x ∷ xs) ys = ground (arith, find-append xs ys)

  pub any-append :
      (xs ys : List A) → any_row p (xs ++ ys) ≡ (if any_row p xs then true else any_row p ys)
  unfolding any_row
  any-append [] ys = refl
  any-append (x ∷ xs) ys = ground (arith, any-append xs ys)

  pub find-none_of_any : (xs : List A) → any_row p xs ≡ false → find_row p xs ≡ none
  unfolding find_row any_row
  find-none_of_any [] h = refl
  find-none_of_any (x ∷ xs) h = ground (arith, find-none_of_any xs)

  pub any-of_find : (xs : List A) (x : A) → find_row p xs ≡ some x → any_row p xs ≡ true
  unfolding find_row any_row
  any-of_find [] x h = ground arith
  any-of_find (y ∷ xs) x h = ground (arith, any-of_find xs x)

  pub any-none_of_find : (xs : List A) → find_row p xs ≡ none → any_row p xs ≡ false
  unfolding find_row any_row
  any-none_of_find [] h = refl
  any-none_of_find (x ∷ xs) h = ground (arith, any-none_of_find xs)

  pub find-eq_some : (xs : List A) (x : A) → find_row p xs ≡ some x → p x ≡ true
  unfolding find_row
  find-eq_some [] x h = ground arith
  find-eq_some (y ∷ xs) x h = ground (arith, find-eq_some xs x)

  pub count-pos_of_find : (xs : List A) (x : A) → find_row p xs ≡ some x → 0 < count_rows p xs
  unfolding find_row count_rows
  count-pos_of_find [] x h = ground arith
  count-pos_of_find (y ∷ xs) x h = ground (arith, count-pos_of_find xs x)

module _ {ℓ} {A : Type ℓ} where
  abbrev pub length : List A → ℕ
  length [] = 0
  length (x ∷ xs) = suc (length xs)

  pub length-append : (xs ys : List A) → length (xs ++ ys) ≡ length xs + length ys
  length-append [] ys = omega arith
  length-append (x ∷ xs) ys = omega (arith, length-append xs ys)
