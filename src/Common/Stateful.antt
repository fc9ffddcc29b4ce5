-- ===== src/Common/Stateful.antt =====
-- Results with a state behind them.
use mathlib.Core.Path.{◌≡◌, refl}
use mathlib.Core.Logic.{◌⊎◌, inl, inr}
use agentspace.Common.Fallible.{Result, ok, err}

module _ {ℓ} {S : Type ℓ} {E A B : Type 0} where
  -- The rest of a function behind a `?`.
  infixl 5 ◌▸◌
  abbrev pub ◌▸◌ : Result E A × S → (A → S → Result E B × S) → Result E B × S
  (err e, s) ▸ next = (err e, s)
  (ok a, s) ▸ next = next a s

  pub ▸-eq-ok :
      (r : Result E A × S) (next : A → S → Result E B × S) (b : B) (s' : S)
      → (r ▸ next) ≡ (ok b, s')
      → (a : A) × (s : S) × (r ≡ (ok a, s)) × (next a s ≡ (ok b, s'))
  ▸-eq-ok (err e, s) next b s' h = cc
  ▸-eq-ok (ok a, s) next b s' h = (a, s, refl, h)

  pub ▸-eq-err :
      (r : Result E A × S) (next : A → S → Result E B × S) (e : E) (s' : S)
      → (r ▸ next) ≡ (err e, s')
      → (r ≡ (err e, s')) ⊎ ((a : A) × (s : S) × (r ≡ (ok a, s)) × (next a s ≡ (err e, s')))
  ▸-eq-err (err d, s) next e s' h = inl (cc)
  ▸-eq-err (ok a, s) next e s' h = inr (a, s, refl, h)

  -- What holds behind each step holds behind the chain.
  pub ▸-keeps :
      (P : S → Type 0) (r : Result E A × S) (next : A → S → Result E B × S)
      → P r.1
      → ((a : A) (s : S) → r ≡ (ok a, s) → P s → P (next a s).1)
      → P (r ▸ next).1
  ▸-keeps P (err e, s) next h k = h
  ▸-keeps P (ok a, s) next h k = k a s refl h
