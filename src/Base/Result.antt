-- ===== src/Base/Result.antt =====
-- Results that may be exceptions, and postconditions on them.
use mathlib.Core.Path.{◌≡◌, refl}
use mathlib.Core.Bool.{Bool, true, false}

-- What a function returns or raises: `err` carries the exception.
pub data Result {ℓ κ} (E : Type ℓ) (A : Type κ) : Type (ℓ ⊔ κ) where
  ok : A → Result E A
  err : E → Result E A

infixl 5 ◌>>=◌ ◌>>◌
abbrev pub ◌>>=◌ {ℓ κ μ} :
    {E : Type ℓ} {A : Type κ} {B : Type μ} → Result E A → (A → Result E B) → Result E B
ok a >>= f = f a
err e >>= f = err e

abbrev pub ◌>>◌ {ℓ κ μ} :
    {E : Type ℓ} {A : Type κ} {B : Type μ} → Result E A → Result E B → Result E B
m >> k = m >>= λ _. k

-- A postcondition: `P` holds of the value that is returned, or `R` of the error.
pub data Post {ℓ} {E A : Type ℓ} (P : A → Type ℓ) (R : E → Type ℓ) : Result E A → Type ℓ where
  returned : {a : A} → P a → Post P R (ok a)
  raised : {e : E} → R e → Post P R (err e)

module _ {ℓ} {E A : Type ℓ} {P : A → Type ℓ} {R : E → Type ℓ} where
  pub and_then :
      {B : Type ℓ} {Q : B → Type ℓ} {r : Result E A} {f : A → Result E B}
      → Post P R r
      → ((a : A) → P a → Post Q R (f a))
      → Post Q R (r >>= f)
  and_then (returned {a} h) k = k a h
  and_then (raised h) k = raised h

  pub value_of : {a : A} → Post P R (ok a) → P a
  value_of (returned h) = h

  pub error_of : {e : E} → Post P R (err e) → R e
  error_of (raised h) = h

-- `if not test: raise e`
abbrev pub require : {E : Type 0} → Bool → E → Result E (Unit {0})
require true e = ok tt
require false e = err e

abbrev pub Any {ℓ} : {A : Type ℓ} → A → Type ℓ
Any a = Unit

pub require-Post : {E : Type 0} (b : Bool) (e : E) → Post (λ _. b ≡ true) Any (require b e)
require-Post true e = returned refl
require-Post false e = raised tt

pub result-Post {ℓ} : {E A : Type ℓ} (r : Result E A) → Post Any Any r
result-Post (ok a) = returned tt
result-Post (err e) = raised tt

pub weaken {ℓ} :
    {E A : Type ℓ} {P Q : A → Type ℓ} {R : E → Type ℓ} {r : Result E A}
    → Post P R r
    → ((a : A) → P a → Q a)
    → Post Q R r
weaken (returned {a} h) k = returned (k a h)
weaken (raised h) k = raised h

pub ok_injective : {E A : Type 0} {a b : A} → ◌≡◌ {A = Result E A} (ok a) (ok b) → a ≡ b
ok_injective e = cc
