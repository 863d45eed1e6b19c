-- ===== src/Orchestrator/Tables/Limits.antt =====
-- What LIMIT and a WHERE clause leave of a list of rows.
use tac_master.Shared.{
  ℕ, zero, suc, ◌+◌, ◌≤◌, Bool, true, false, not, ◌≡◌, refl, ap, sym, ◌∙◌, ◌⊎◌, inl, inr, List, [],
  ◌∷◌, ◌++◌, if◌then◌else◌, arith, length, any_row, select_rows, count_rows, leb, subst, Bool-cases,
}
use tac_master.Orchestrator.Tables.{limit}

abbrev pub smaller : ℕ → ℕ → ℕ
smaller m n = if leb m n then m else n

module _ {ℓ} {A : Type ℓ} where
  pub append_nil : (xs : List A) → xs ++ [] ≡ xs
  append_nil [] = refl
  append_nil (x ∷ xs) = ap (λ zs. x ∷ zs) (append_nil xs)

  pub length-limit : (n : ℕ) (xs : List A) → length (limit n xs) ≡ smaller n (length xs)
  unfolding limit
  length-limit zero xs = ground arith
  length-limit (suc n) [] = ground arith
  length-limit (suc n) (x ∷ xs) = ground (arith, length-limit n xs)

  pub limit-all : (n : ℕ) (xs : List A) → length xs ≤ n → limit n xs ≡ xs
  unfolding limit
  limit-all zero [] h = refl
  limit-all zero (x ∷ xs) h = absurd (omega arith)
  limit-all (suc n) [] h = refl
  limit-all (suc n) (y ∷ xs) h = ap (λ zs. y ∷ zs) (limit-all n xs (omega arith))

module _ {A : Type 0} where
  abbrev pub In : A → List A → Type 0
  In x [] = ⊥
  In x (y ∷ ys) = (x ≡ y) ⊎ In x ys

module _ {A : Type 0} (p : A → Bool) where
  pub length-split :
      (xs : List A)
      → length (select_rows p xs) + length (select_rows (λ x. not (p x)) xs) ≡ length xs
  unfolding select_rows
  length-split [] = refl
  length-split (x ∷ xs) = ground (arith, length-split xs)

  pub count-split :
      (q : A → Bool) (xs : List A)
      → count_rows q (select_rows p xs) + count_rows q (select_rows (λ x. not (p x)) xs)
        ≡ count_rows q xs
  unfolding select_rows count_rows
  count-split q [] = refl
  count-split q (x ∷ xs) = ground (arith, count-split q xs)

  pub count-limit : (n : ℕ) (xs : List A) → count_rows p (limit n xs) ≤ count_rows p xs
  unfolding count_rows limit
  count-limit zero xs = omega arith
  count-limit (suc n) [] = omega arith
  count-limit (suc n) (x ∷ xs) = ground (arith, count-limit n xs)

  pub length-select_limit :
      (n : ℕ) (xs : List A) → length (select_rows p (limit n xs)) ≤ length (select_rows p xs)
  unfolding select_rows limit
  length-select_limit zero xs = omega arith
  length-select_limit (suc n) [] = omega arith
  length-select_limit (suc n) (x ∷ xs) = ground (arith, length-select_limit n xs)

  pub count-select_limit :
      (q : A → Bool) (n : ℕ) (xs : List A)
      → count_rows q (select_rows p (limit n xs)) ≤ count_rows q (select_rows p xs)
  unfolding count_rows select_rows limit
  count-select_limit q zero xs = omega arith
  count-select_limit q (suc n) [] = omega arith
  count-select_limit q (suc n) (x ∷ xs) = ground (arith, count-select_limit q n xs)

  pub select-all : ((x : A) → p x ≡ true) → (xs : List A) → select_rows p xs ≡ xs
  unfolding select_rows
  select-all h [] = refl
  select-all h (x ∷ xs) = ground (arith, h x, select-all h xs)

  pub any-count : (xs : List A) → any_row p xs ≡ true → 1 ≤ count_rows p xs
  unfolding any_row count_rows
  any-count [] h = absurd (ground (arith, h))
  any-count (x ∷ xs) h = ground (arith, any-count xs)

  pub any-In : (x : A) (xs : List A) → In x xs → p x ≡ true → any_row p xs ≡ true
  unfolding any_row
  any-In x [] i h = absurd i
  any-In x (y ∷ ys) (inl e) h = rw (sym e, h)
  any-In x (y ∷ ys) (inr i) h = ground (arith, any-In x ys i h)

  select-kept : (y : A) (ys : List A) → p y ≡ true → y ∷ select_rows p ys ≡ select_rows p (y ∷ ys)
  unfolding select_rows
  select-kept y ys h = rw h

  select-dropped : (y : A) (ys : List A) → p y ≡ false → select_rows p ys ≡ select_rows p (y ∷ ys)
  unfolding select_rows
  select-dropped y ys h = rw h

  pub In-select : (x : A) (xs : List A) → In x xs → p x ≡ true → In x (select_rows p xs)
  unfolding select_rows
  In-select x [] i h = absurd i
  In-select x (y ∷ ys) (inl e) h =
      let here : In x (y ∷ select_rows p ys) = inl e in
      subst (λ zs. In x zs) (select-kept y ys (ap p (sym e) ∙ h)) here
  In-select x (y ∷ ys) (inr i) h = elim (Bool-cases (p y)) [
    | inl kept ↦
        let there : In x (y ∷ select_rows p ys) = inr (In-select x ys i h) in
        subst (λ zs. In x zs) (select-kept y ys kept) there
    | inr dropped ↦ subst (λ zs. In x zs) (select-dropped y ys dropped) (In-select x ys i h)
  ]

  pub select-congr :
      (q : A → Bool) (xs : List A)
      → ((x : A) → In x xs → p x ≡ q x)
      → select_rows p xs ≡ select_rows q xs
  unfolding select_rows
  select-congr q [] h = refl
  select-congr q (x ∷ xs) h = ground (arith, h x (inl refl), select-congr q xs (λ y i. h y (inr i)))

module _ {A : Type 0} where
  pub In-limit : (x : A) (n : ℕ) (xs : List A) → In x (limit n xs) → In x xs
  unfolding limit
  In-limit x zero xs i = absurd i
  In-limit x (suc n) [] i = absurd i
  In-limit x (suc n) (y ∷ ys) (inl e) = inl e
  In-limit x (suc n) (y ∷ ys) (inr i) = inr (In-limit x n ys i)
