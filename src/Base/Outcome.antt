-- ===== src/Base/Outcome.antt =====
-- A value, or the exception that was raised instead.
use mathlib.Core.Path.{◌≡◌, refl}

pub data Result (E A : Type 0) : Type 0 where
  ok : A → Result E A
  err : E → Result E A

module _ {E : Type 0} where
  infixl 5 ◌>>=◌
  abbrev pub ◌>>=◌ : {A B : Type 0} → Result E A → (A → Result E B) → Result E B
  ok value >>= next = next value
  err raised >>= next = err raised

  -- Inversion of a chain that succeeds.
  pub >>=-eq-ok :
      {A B : Type 0} {y : B} (first : Result E A) (next : A → Result E B)
      → (first >>= next) ≡ ok y
      → (x : A) × (first ≡ ok x) × (next x ≡ ok y)
  >>=-eq-ok (ok x) next e = (x, refl, e)
  >>=-eq-ok (err raised) next e = cc

  pub ok-injective : {A : Type 0} {x y : A} → ◌≡◌ {A = Result E A} (ok x) (ok y) → x ≡ y
  ok-injective e = cc

  pub >>=-ok : {A : Type 0} (first : Result E A) → (first >>= λ x. ok x) ≡ first
  >>=-ok (ok x) = refl
  >>=-ok (err raised) = refl
