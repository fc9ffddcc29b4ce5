-- ===== src/Common/Assoc.antt =====
-- Association lists: the first entry of a key counts.
use mathlib.Core.Path.{◌≡◌, refl, sym, ◌∙◌}
use mathlib.Core.Logic.{◌≢◌, inl, inr}
use mathlib.Core.Bool.{false}
use mathlib.Core.Option.{Option, none, some}
use mathlib.Core.List.{List, [], ◌∷◌}
use agentspace.Common.Tests.{if◌then◌else◌, Bool-cases}
use agentspace.Common.Equality.{PartialEq, ◌==◌, ne→beq-false}

module _ {ℓ κ} {K : Type ℓ} {V : Type κ} ⦃p : PartialEq K⦄ where
  unfoldable pub look_up : K → List (K × V) → Option V
  look_up k [] = none
  look_up k ((j, v) ∷ m) = let rest = look_up k m in if j == k then some v else rest

  unfoldable pub delete : K → List (K × V) → List (K × V)
  delete k [] = []
  delete k ((j, v) ∷ m) = let rest = delete k m in if j == k then rest else (j, v) ∷ rest

  -- The entry in front, and no other of its key.
  abbrev pub put : K → V → List (K × V) → List (K × V)
  put k v m = (k, v) ∷ delete k m

  pub look_up-delete_same : (k : K) (m : List (K × V)) → look_up k (delete k m) ≡ none
  unfolding look_up delete
  look_up-delete_same k [] = refl
  look_up-delete_same k ((j, v) ∷ m) = elim (Bool-cases (j == k)) [
    | inl e ↦ rw e (look_up-delete_same k m)
    | inr e ↦ rw (e, e) (look_up-delete_same k m)
  ]

  pub look_up-delete_other :
      (k j : K) (m : List (K × V)) → j ≢ k → look_up j (delete k m) ≡ look_up j m
  unfolding look_up delete
  look_up-delete_other k j [] h = refl
  look_up-delete_other k j ((i, v) ∷ m) h = elim (Bool-cases (i == k)) [
    | inl e ↦
        let differ : (i == j) ≡ false = ne→beq-false i j (λ q. h (sym q ∙ (p.eq_iff i k).0 e)) in
        rw (e, differ) (look_up-delete_other k j m h)
    | inr e ↦ rw (e, look_up-delete_other k j m h) refl
  ]

  pub look_up-put_same : (k : K) (v : V) (m : List (K × V)) → look_up k (put k v m) ≡ some v
  unfolding look_up
  look_up-put_same k v m = rw ((p.eq_iff k k).1 refl) refl

  pub look_up-put_other :
      (k j : K) (v : V) (m : List (K × V)) → j ≢ k → look_up j (put k v m) ≡ look_up j m
  unfolding look_up
  look_up-put_other k j v m h =
      rw (ne→beq-false k j (λ e. h (sym e))) (look_up-delete_other k j m h)
