-- ===== src/Shared/Invariants.antt =====
-- Invariants of statements, with a rule for each way to build one. `Keeps P m`: from a state with
-- `P` the statement ends in one with `P`, whether it returns or raises.
use mathlib.Core.Path.{◌≡◌, refl}
use tac_master.Shared.Statements.{
  Exec, Result, ok, err, Exception, pure, lift, modify, try_except, transaction, and_then, ◌>>=◌,
}

pub record Keeps {S A : Type 0} (P : S → Type 0) (m : Exec S A) : Type 0 where
  pub at : (s : S) → P s → P (m s).1

module _ {S A : Type 0} {P : S → Type 0} where
  pub Keeps-lift : (answer : Result A) → Keeps P (lift answer)
  Keeps-lift answer = record { at = λ s unchanged. unchanged }

  pub Keeps-pure : (value : A) → Keeps P (pure value)
  Keeps-pure value = Keeps-lift (ok value)

  pub Keeps-try :
      (body : Exec S A) (handler : Exception → Exec S A)
      → Keeps P body
      → ((e : Exception) → Keeps P (handler e))
      → Keeps P (try_except body handler)
  Keeps-try body handler kb kh = record {
    at = λ s h. let (r, after) = body s in handled r after (kb.at s h);
  }
    where
      handled :
          (r : Result A) (t : S)
          → P t
          → P (elim r as (λ x. Result A × S) [ ok a ↦ (ok a, t) | err e ↦ handler e t ]).1
      handled (ok a) t h = h
      handled (err e) t h = (kh e).at t h

  pub Keeps-transaction :
      (f : S → Result (A × S))
      → ((s t : S) (a : A) → P s → f s ≡ ok (a, t) → P t)
      → Keeps P (transaction f)
  Keeps-transaction f step = record { at = λ s h. rolled s (f s) refl h }
    where
      rolled :
          (s : S) (r : Result (A × S))
          → f s ≡ r
          → P s
          → P (elim r as (λ x. Result A × S) [ ok (a, t) ↦ (ok a, t) | err e ↦ (err e, s) ]).1
      rolled s (ok (a, t)) e h = step s t a h e
      rolled s (err e) _ h = h

pub Keeps-modify :
    {S : Type 0} {P : S → Type 0} (f : S → S) → ((s : S) → P s → P (f s)) → Keeps P (modify f)
Keeps-modify f step = record { at = step }

pub Keeps-bind :
    {S A B : Type 0} {P : S → Type 0} (m : Exec S A) (f : A → Exec S B)
    → Keeps P m
    → ((a : A) → Keeps P (f a))
    → Keeps P (m >>= f)
Keeps-bind {S} {A} {B} {P} m f km kf = record {
  at = λ s h. let (r, after) = m s in continued r after (km.at s h);
}
  where
    continued : (r : Result A) (t : S) → P t → P (and_then r f t).1
    continued (ok a) t h = (kf a).at t h
    continued (err e) t h = h

pub ruleset keeps_rules =
    (Keeps-pure, Keeps-lift, Keeps-try, Keeps-transaction, Keeps-modify, Keeps-bind)
