-- ===== src/Common/Fallible.antt =====
-- `Result<T, E>` of the source, in do blocks.
use mathlib.Core.Path.{◌≡◌, refl}
use mathlib.Core.Option.{Option, none, some}

pub data Result {ℓ κ} (E : Type ℓ) (A : Type κ) : Type (ℓ ⊔ κ) where
  err : E → Result E A
  ok : A → Result E A

module _ {ℓ κ μ} {E : Type ℓ} {A : Type κ} {B : Type μ} where
  -- `result.and_then(next)`; the `?` of the source is this with the rest of the function.
  abbrev pub and_then : (A → Result E B) → Result E A → Result E B
  and_then next (err e) = err e
  and_then next (ok a) = next a

  infixl 5 ◌>>=◌
  abbrev pub ◌>>=◌ : Result E A → (A → Result E B) → Result E B
  r >>= next = and_then next r

  -- A `?` chain that succeeds went through its first step.
  pub and_then-eq-ok :
      (r : Result E A) (next : A → Result E B) {b : B} (returned : (r >>= next) ≡ ok b)
      → (a : A) × (r ≡ ok a) × (next a ≡ ok b)
  and_then-eq-ok (err e) next returned = cc
  and_then-eq-ok (ok a) next returned = (a, refl, returned)

pub ok-injective {ℓ κ} :
    {E : Type ℓ} {A : Type κ} (a b : A) → ◌≡◌ {A = Result E A} (ok a) (ok b) → a ≡ b
ok-injective a b h = cc

infixl 5 ◌>>◌
abbrev pub ◌>>◌ {ℓ μ} : {E : Type ℓ} {B : Type μ} → Result E (Unit {0}) → Result E B → Result E B
first >> second = and_then (λ _. second) first

-- `option.ok_or(e)`
abbrev pub ok_or {ℓ κ} : {E : Type ℓ} {A : Type κ} → E → Option A → Result E A
ok_or e none = err e
ok_or e (some a) = ok a
