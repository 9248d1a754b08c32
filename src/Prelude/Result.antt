-- ===== src/Prelude/Result.antt =====
-- `Result`, with the `?` operator as the bind of `do`.
use mathlib.Core.Path.{◌≡◌, refl}
use mathlib.Core.Logic.{◌⊎◌, inl, inr}
use mathlib.Core.Option.{Option, none, some}

pub data Result {ℓ κ} (E : Type ℓ) (A : Type κ) : Type (ℓ ⊔ κ) where
  ok : A → Result E A
  err : E → Result E A

module _ {ℓ κ} {E : Type ℓ} {A : Type κ} where
  infixl 5 ◌>>=◌
  abbrev pub ◌>>=◌ {μ} : {B : Type μ} → Result E A → (A → Result E B) → Result E B
  ok a >>= f = f a
  err e >>= f = err e

  -- `ok_or`
  abbrev pub ok_or : Option A → E → Result E A
  ok_or none e = err e
  ok_or (some a) e = ok a

  pub Result-cases : (m : Result E A) → ((a : A) × (m ≡ ok a)) ⊎ ((e : E) × (m ≡ err e))
  Result-cases (ok a) = inl (a, refl)
  Result-cases (err e) = inr (e, refl)

  -- What a bind that succeeds went through.
  pub >>=-eq-ok {μ} :
      {B : Type μ} (first : Result E A) (rest : A → Result E B) {answer : B}
      → (first >>= rest) ≡ ok answer
      → (middle : A) × (first ≡ ok middle) × (rest middle ≡ ok answer)
  >>=-eq-ok (ok middle) rest whole = (middle, refl, whole)
  >>=-eq-ok (err failure) rest whole = absurd (cc)
