-- ===== src/Shared/Keys.antt =====
-- A table with a unique key: no row has the key of one before it.
use mathlib.Core.Path.{◌≡◌, refl, ◌∙◌}
use mathlib.Core.Bool.{Bool, false}
use mathlib.Core.List.{List, [], ◌∷◌, ◌++◌}
use native.Mathlib.Omega.{arith}
use tac_master.Shared.Tests.{if◌then◌else◌}
use tac_master.Shared.Tables.{update_rows, any_row, any-update, any-append}

module _ {ℓ} {A : Type ℓ} where
  abbrev pub Unique : (A → A → Bool) → List A → Type 0
  Unique same [] = Unit
  Unique same (x ∷ xs) = (any_row (same x) xs ≡ false) × Unique same xs

  -- Where the head's key is selected by `q`, no later row is.
  pub update-none :
      (q : A → Bool) (f : A → A) (xs : List A) → any_row q xs ≡ false → update_rows q f xs ≡ xs
  unfolding any_row update_rows
  update-none q f [] h = refl
  update-none q f (x ∷ xs) h = ground (arith, update-none q f xs)

  pub any-congr :
      (p q : A → Bool) → ((x : A) → p x ≡ q x) → (xs : List A) → any_row p xs ≡ any_row q xs
  unfolding any_row
  any-congr p q same [] = refl
  any-congr p q same (x ∷ xs) = ground (arith, same x, any-congr p q same xs)

module _ {ℓ} {A : Type ℓ} (same : A → A → Bool) (q : A → Bool) (f : A → A) where
  -- An UPDATE that leaves the key alone keeps it unique.
  pub Unique-update :
      ((x y : A) → same (f x) y ≡ same x y)
      → ((x y : A) → same x (f y) ≡ same x y)
      → (xs : List A) → Unique same xs
      → Unique same (update_rows q f xs)
  unfolding update_rows
  Unique-update left right [] h = tt
  Unique-update left right (x ∷ xs) h = (
    any-congr (same (if q x then f x else x)) (same x) (head x) (update_rows q f xs)
        ∙ any-update (same x) q f (right x) xs
        ∙ h.0,
    Unique-update left right xs h.1,
  )
    where
      head : (x y : A) → same (if q x then f x else x) y ≡ same x y
      head x y = ground (arith, left x y)

module _ {ℓ} {A : Type ℓ} (same : A → A → Bool) where
  -- An INSERT of a key that no row has keeps it unique.
  pub Unique-append :
      ((x y : A) → same x y ≡ same y x)
      → (xs : List A) (y : A) → any_row (same y) xs ≡ false
      → Unique same xs
      → Unique same (xs ++ y ∷ [])
  unfolding any_row
  Unique-append comm [] y new h = (refl, tt)
  Unique-append comm (x ∷ xs) y new h = (
    ground (arith, any-append (same x) xs (y ∷ []), comm x y, h.0),
    Unique-append comm xs y (ground arith) h.1,
  )
