-- ===== src/Base/Result.antt =====
-- The pair of a value and an error that a Go function returns, of which one is nil.
use mathlib.Core.Path.{◌≡◌, refl}

pub data Result {ℓ} (E : Type 0) (A : Type ℓ) : Type ℓ where
  ok : A → Result E A
  err : E → Result E A

module _ {ℓ κ} {E : Type 0} {A : Type ℓ} {B : Type κ} where
  infixl 5 ◌>>=◌
  -- `if err != nil { return err }` before the rest.
  abbrev pub ◌>>=◌ : Result E A → (A → Result E B) → Result E B
  err e >>= rest = err e
  ok a >>= rest = rest a

  -- A call and the rest both succeeded.
  pub both_ok :
      (call : Result E A) (rest : A → Result E B) {b : B}
      → call >>= rest ≡ ok b
      → (a : A) × (call ≡ ok a) × (rest a ≡ ok b)
  both_ok (err e) rest h = cc
  both_ok (ok a) rest h = (a, refl, h)

pub ok-injective {ℓ} :
    {E : Type 0} {A : Type ℓ} (a b : A) → ◌≡◌ {A = Result E A} (ok a) (ok b) → a ≡ b
ok-injective a b h = cc
