-- ===== src/Shared/Statements.antt =====
-- Statements that change a state and may raise. What was written before a raise stays written, so
-- the state comes back beside the exception too.

use mathlib.Core.Bool.{Bool, true, false}
use mathlib.Core.Path.{◌≡◌, refl}
use mathlib.Core.Logic.{◌⊎◌, inl, inr}

pub data Exception : Type 0 where
  -- `sqlite3.IntegrityError`
  integrity_error : Exception
  -- `ValueError`
  value_error : Exception
  -- any other
  external_error : Exception

pub data Result {ℓ} (A : Type ℓ) : Type ℓ where
  ok : A → Result A
  err : Exception → Result A

abbrev pub is_ok {ℓ} : {A : Type ℓ} → Result A → Bool
is_ok (ok a) = true
is_ok (err e) = false

abbrev pub Exec : Type 0 → Type 0 → Type 0
Exec S A = S → Result A × S

module _ {S A : Type 0} where
  abbrev pub pure : A → Exec S A
  pure a s = (ok a, s)

  abbrev pub raise : Exception → Exec S A
  raise e s = (err e, s)

  abbrev pub lift : Result A → Exec S A
  lift r s = (r, s)

  abbrev pub gets : (S → A) → Exec S A
  gets f s = (ok (f s), s)

  -- `try: body` / `except Exception: handler`
  abbrev pub try_except : Exec S A → (Exception → Exec S A) → Exec S A
  try_except body handler s =
      let (result, after) = body s in elim result [ ok a ↦ (ok a, after) | err e ↦ handler e after ]

  -- One transaction: an operation that raises is rolled back.
  abbrev pub transaction : (S → Result (A × S)) → Exec S A
  transaction f s = elim (f s) [ ok (a, after) ↦ (ok a, after) | err e ↦ (err e, s) ]

abbrev pub modify : {S : Type 0} → (S → S) → Exec S (Unit {0})
modify f s = (ok tt, f s)

module _ {S A B : Type 0} where
  abbrev pub and_then : Result A → (A → Exec S B) → Exec S B
  and_then (ok a) f s = f a s
  and_then (err e) f s = (err e, s)

  infixl 5 ◌>>=◌ ◌>>◌
  abbrev pub ◌>>=◌ : Exec S A → (A → Exec S B) → Exec S B
  ◌>>=◌ m f s = let (r, after) = m s in and_then r f after

  abbrev pub ◌>>◌ : Exec S A → Exec S B → Exec S B
  m >> n = m >>= λ _. n

pub Result-cases {ℓ} :
    {A : Type ℓ} (r : Result A) → ((a : A) × (r ≡ ok a)) ⊎ ((e : Exception) × (r ≡ err e))
Result-cases (ok a) = inl (a, refl)
Result-cases (err e) = inr (e, refl)

pub transaction-ok :
    {S A : Type 0} (f : S → Result (A × S)) (s : S) {a : A} {t : S}
    → f s ≡ ok (a, t)
    → transaction f s ≡ (ok a, t)
transaction-ok f s h = rw (h, transaction)

pub transaction-err :
    {S A : Type 0} (f : S → Result (A × S)) (s : S) {e : Exception}
    → f s ≡ err e
    → transaction f s ≡ (err e, s)
transaction-err f s h = rw (h, transaction)

pub bind-ok :
    {S A B : Type 0} (m : Exec S A) (k : A → Exec S B) (s : S) {a : A} {t : S}
    → m s ≡ (ok a, t)
    → (m >>= k) s ≡ k a t
bind-ok m k s h = rw h

pub bind-err :
    {S A B : Type 0} (m : Exec S A) (k : A → Exec S B) (s : S) {e : Exception} {t : S}
    → m s ≡ (err e, t)
    → (m >>= k) s ≡ (err e, t)
bind-err m k s h = rw h

-- A body whose exception is only logged.
pub try-quiet :
    {S A : Type 0} (m : Exec S A) (s : S)
    → try_except (m >> pure tt) (λ e. pure tt) s ≡ (ok tt, (m s).1)
try-quiet {S} {A} m s = go (m s)
  where
    go :
        (out : Result A × S)
        → (let (result, after) = and_then out.0 (λ _. pure tt) out.1 in
            elim result as (λ _. Result (Unit {0}) × S) [
              | ok a ↦ (ok a, after)
              | err e ↦ (ok tt, after)
            ])
          ≡ (ok tt, out.1)
    go (ok a, t) = refl
    go (err e, t) = refl

pub bind-state :
    {S A B : Type 0} (m : Exec S A) (k : A → Exec S B) (s : S) {a : A}
    → (m s).0 ≡ ok a
    → (m >>= k) s ≡ k a (m s).1
bind-state m k s h = rw h refl

pub pure-state :
    {S A B : Type 0} (m : Exec S A) (f : A → B) (s : S) → ((m >>= λ a. pure (f a)) s).1 ≡ (m s).1
pure-state m f s = elim (Result-cases (m s).0) [ inl (a, h) ↦ rw h refl | inr (e, h) ↦ rw h refl ]
