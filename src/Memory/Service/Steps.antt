-- ===== src/Memory/Service/Steps.antt =====
-- What an operation that was carried out went through.
use agentspace.Common.{
  ◌≡◌, refl, ap, ◌⊎◌, inl, inr, Bool, true, false, nat_eq, list_eq, option_eq, ok, err,
}
use agentspace.Memory.Error.{M, MemoryError}
use agentspace.Memory.Path.{path_eq}
use agentspace.Memory.Service.{carry_out, answer, fail_if}

module _ {ℓ} {S : Type ℓ} {A B : Type 0} where
  pub carry_out-eq-ok :
      (plan : M A) (change : A → S → M B × S) (s s' : S) (b : B)
      → carry_out plan change s ≡ (ok b, s')
      → (a : A) × (plan ≡ ok a) × (change a s ≡ (ok b, s'))
  carry_out-eq-ok (err e) change s s' b h = cc
  carry_out-eq-ok (ok a) change s s' b h = (a, refl, h)

  pub carry_out-eq-err :
      (plan : M A) (change : A → S → M B × S) (s s' : S) (e : MemoryError)
      → carry_out plan change s ≡ (err e, s')
      → (s ≡ s') ⊎ ((a : A) × (change a s ≡ (err e, s')))
  carry_out-eq-err (err d) change s s' e h = inl (ap (λ r. r.1) h)
  carry_out-eq-err (ok a) change s s' e h = inr (a, h)

  pub answer-eq-ok :
      (f : A → B) (r : M A × S) (s' : S) (b : B)
      → answer f r ≡ (ok b, s')
      → (a : A) × (r ≡ (ok a, s')) × (f a ≡ b)
  answer-eq-ok f (err e, s) s' b h = cc
  answer-eq-ok f (ok a, s) s' b h = (a, cc, cc)

  pub answer-eq-err :
      (f : A → B) (r : M A × S) (s' : S) (e : MemoryError)
      → answer f r ≡ (err e, s')
      → r ≡ (err e, s')
  answer-eq-err f (err d, s) s' e h = cc
  answer-eq-err f (ok a, s) s' e h = cc

pub fail_if-eq-ok : (b : Bool) (e : MemoryError) → fail_if b e ≡ ok tt → b ≡ false
fail_if-eq-ok true e h = cc
fail_if-eq-ok false e h = refl
