-- ===== src/Common/Equality.antt =====
-- `==` of the source: an interface with one operator, for numbers, lists and what is built of them.
use mathlib.Core.Path.{◌≡◌, refl, sym, ap, ◌∙◌}
use mathlib.Core.Logic.{◌↔◌, ◌≢◌}
use mathlib.Core.Bool.{Bool, true, false, ◌&&◌, ◌||◌}
use mathlib.Core.List.{List, [], ◌∷◌}
use mathlib.Core.Option.{Option, none, some}
use Prim.Native.Nat.{ℕ}
use native.Mathlib.Omega.{arith}
use agentspace.Common.Tests.{nat_beq}

-- `PartialEq` of the source: the test, and that it decides equality.
pub record PartialEq {ℓ} (A : Type ℓ) : Type ℓ where
  pub eq : A → A → Bool
  pub eq_iff : (x y : A) → (eq x y ≡ true) ↔ (x ≡ y)

infix 50 ◌==◌
abbrev pub ◌==◌ {κ} : {K : Type κ} ⦃p : PartialEq K⦄ → K → K → Bool
◌==◌ ⦃p⦄ a b = p.eq a b

pub nat_beq_iff : (a b : ℕ) → (nat_beq a b ≡ true) ↔ (a ≡ b)
nat_beq_iff a b = ground arith

instance abbrev pub nat_eq : PartialEq ℕ
nat_eq = record { eq = nat_beq; eq_iff = nat_beq_iff }

module _ {ℓ} {A : Type ℓ} ⦃e : PartialEq A⦄ where
  unfoldable pub list_beq : List A → List A → Bool
  list_beq [] [] = true
  list_beq [] (y ∷ ys) = false
  list_beq (x ∷ xs) [] = false
  list_beq (x ∷ xs) (y ∷ ys) = x == y && list_beq xs ys

  pub list_beq_iff : (xs ys : List A) → (list_beq xs ys ≡ true) ↔ (xs ≡ ys)
  unfolding list_beq
  list_beq_iff [] [] = (λ _. refl, λ _. refl)
  list_beq_iff [] (y ∷ ys) = (λ h. cc, λ h. cc)
  list_beq_iff (x ∷ xs) [] = (λ h. cc, λ h. cc)
  list_beq_iff (x ∷ xs) (y ∷ ys) = ground (arith, e.eq_iff x y, list_beq_iff xs ys)

  unfoldable pub option_beq : Option A → Option A → Bool
  option_beq none none = true
  option_beq none (some b) = false
  option_beq (some a) none = false
  option_beq (some a) (some b) = a == b

  pub option_beq_iff : (a b : Option A) → (option_beq a b ≡ true) ↔ (a ≡ b)
  unfolding option_beq
  option_beq_iff none none = (λ _. refl, λ _. refl)
  option_beq_iff none (some b) = (λ h. cc, λ h. cc)
  option_beq_iff (some a) none = (λ h. cc, λ h. cc)
  option_beq_iff (some a) (some b) = ground (arith, e.eq_iff a b)

instance abbrev pub list_eq {ℓ} : {A : Type ℓ} ⦃e : PartialEq A⦄ → PartialEq (List A)
list_eq = record { eq = list_beq; eq_iff = list_beq_iff }

instance abbrev pub option_eq {ℓ} : {A : Type ℓ} ⦃e : PartialEq A⦄ → PartialEq (Option A)
option_eq = record { eq = option_beq; eq_iff = option_beq_iff }

module _ {ℓ} {A : Type ℓ} ⦃e : PartialEq A⦄ where
  pub eq_refl : (a : A) → (a == a) ≡ true
  eq_refl a = (e.eq_iff a a).1 refl

  pub ne→beq-false : (a b : A) → a ≢ b → (a == b) ≡ false
  ne→beq-false a b h = ground (arith, e.eq_iff a b)

  -- `xs.contains(&a)`
  unfoldable pub contains : List A → A → Bool
  contains [] a = false
  contains (x ∷ xs) a = x == a || contains xs a

unfoldable pub pair_beq {ℓ κ} :
    {A : Type ℓ} {B : Type κ} ⦃p : PartialEq A⦄ ⦃q : PartialEq B⦄ → A × B → A × B → Bool
pair_beq x y = x.0 == y.0 && x.1 == y.1

pub pair_beq_iff {ℓ κ} :
    {A : Type ℓ} {B : Type κ} ⦃p : PartialEq A⦄ ⦃q : PartialEq B⦄ (x y : A × B)
    → (pair_beq x y ≡ true) ↔ (x ≡ y)
unfolding pair_beq
pair_beq_iff ⦃p⦄ ⦃q⦄ (a, b) (c, d) = ground (arith, p.eq_iff a c, q.eq_iff b d)

instance abbrev pub pair_eq {ℓ κ} :
    {A : Type ℓ} {B : Type κ} ⦃p : PartialEq A⦄ ⦃q : PartialEq B⦄ → PartialEq (A × B)
pair_eq = record { eq = pair_beq; eq_iff = pair_beq_iff }

-- `#[derive(PartialEq)]`: the test on the parts that a value is made of.
module _ {ℓ κ} {A : Type ℓ} {B : Type κ} (parts : A → B) (whole : B → A) where
  pub derived_iff :
      ⦃q : PartialEq B⦄ (back : (a : A) → whole (parts a) ≡ a) (x y : A)
      → ((parts x == parts y) ≡ true) ↔ (x ≡ y)
  derived_iff ⦃q⦄ back x y = (
    λ h. sym (back x) ∙ (ap whole ((q.eq_iff (parts x) (parts y)).0 h) ∙ back y),
    λ e. (q.eq_iff (parts x) (parts y)).1 (ap parts e),
  )

  abbrev pub derived : ⦃q : PartialEq B⦄ → ((a : A) → whole (parts a) ≡ a) → PartialEq A
  derived back = record { eq = λ x y. parts x == parts y; eq_iff = derived_iff back }
