-- ===== src/Common/Order.antt =====
-- The order of texts, and lists sorted by it.

use mathlib.Core.Path.{◌≡◌, refl, sym, ap, ◌∙◌, subst}
use mathlib.Core.Logic.{inl, inr}
use mathlib.Core.Bool.{Bool, true, false, ◌&&◌, ◌||◌}
use mathlib.Core.List.{List, [], ◌∷◌}
use native.Mathlib.Omega.{arith}
use agentspace.Common.Tests.{ltb, if◌then◌else◌, Bool-cases}
use agentspace.Common.Equality.{◌==◌, nat_eq, list_beq, list_beq_iff, list_eq, contains}
use agentspace.Common.Text.{Bytes}

-- `Ord` of the source on texts.
unfoldable pub bytes_ltb : Bytes → Bytes → Bool
bytes_ltb s [] = false
bytes_ltb [] (d ∷ t) = true
bytes_ltb (b ∷ s) (d ∷ t) = ltb b d || (b == d && bytes_ltb s t)

unfoldable pub insert_sorted : Bytes → List Bytes → List Bytes
insert_sorted x [] = x ∷ []
insert_sorted x (y ∷ ys) =
    let rest = insert_sorted x ys in if bytes_ltb y x then y ∷ rest else x ∷ y ∷ ys

-- `tags.sort()`
unfoldable pub sort : List Bytes → List Bytes
unfolding insert_sorted
sort [] = []
sort (x ∷ xs) = insert_sorted x (sort xs)

-- `tags.dedup()`: no item that is equal to the one before it.
unfoldable pub dedup : List Bytes → List Bytes
dedup [] = []
dedup (x ∷ []) = x ∷ []
dedup (x ∷ y ∷ ys) = let rest = dedup (y ∷ ys) in if x == y then rest else x ∷ rest

pub bytes_ltb_asym : (s t : Bytes) → bytes_ltb s t ≡ true → bytes_ltb t s ≡ false
unfolding bytes_ltb
bytes_ltb_asym s [] h = cc
bytes_ltb_asym [] (d ∷ t) h = refl
bytes_ltb_asym (b ∷ s) (d ∷ t) h = ground (arith, bytes_ltb_asym s t)

pub bytes_ltb_total :
    (s t : Bytes) → bytes_ltb s t ≡ false → (t == s) ≡ false → bytes_ltb t s ≡ true
unfolding bytes_ltb list_beq
bytes_ltb_total [] [] h k = cc
bytes_ltb_total (b ∷ s) [] h k = refl
bytes_ltb_total [] (d ∷ t) h k = cc
bytes_ltb_total (b ∷ s) (d ∷ t) h k = ground (arith, bytes_ltb_total s t)

-- In order, with repetitions and without.
unfoldable pub IsSorted : List Bytes → Type 0
IsSorted [] = Unit
IsSorted (x ∷ []) = Unit
IsSorted (x ∷ y ∷ ys) = (bytes_ltb y x ≡ false) × IsSorted (y ∷ ys)

abbrev pub IsIncreasing : List Bytes → Type 0
IsIncreasing [] = Unit
IsIncreasing (x ∷ []) = Unit
IsIncreasing (x ∷ y ∷ ys) = (bytes_ltb x y ≡ true) × IsIncreasing (y ∷ ys)

insert_sorted-IsSorted_behind :
    (x y : Bytes) (ys : List Bytes)
    → bytes_ltb x y ≡ false
    → IsSorted (y ∷ ys)
    → IsSorted (insert_sorted x ys)
    → IsSorted (y ∷ insert_sorted x ys)
unfolding insert_sorted IsSorted
insert_sorted-IsSorted_behind x y [] h sorted k = (h, k)
insert_sorted-IsSorted_behind x y (z ∷ zs) h (first, rest) k = elim (Bool-cases (bytes_ltb z x)) [
  | inl e ↦ rw e (first, rw e at k)
  | inr e ↦ rw e (h, rw e at k)
]

pub insert_sorted-IsSorted :
    (x : Bytes) (ys : List Bytes) → IsSorted ys → IsSorted (insert_sorted x ys)
unfolding insert_sorted IsSorted
insert_sorted-IsSorted x [] h = tt
insert_sorted-IsSorted x (y ∷ ys) h = elim (Bool-cases (bytes_ltb y x)) [
  | inl e ↦ rw e (
      insert_sorted-IsSorted_behind x y ys (bytes_ltb_asym y x e) h
        (insert_sorted-IsSorted x ys (IsSorted-tail y ys h)))
  | inr e ↦ rw e (e, h)
]
  where
    IsSorted-tail : (y : Bytes) (ys : List Bytes) → IsSorted (y ∷ ys) → IsSorted ys
    IsSorted-tail y [] h = tt
    IsSorted-tail y (z ∷ zs) h = h.1

pub sort-IsSorted : (xs : List Bytes) → IsSorted (sort xs)
unfolding sort
sort-IsSorted [] = unfold IsSorted in tt
sort-IsSorted (x ∷ xs) = insert_sorted-IsSorted x (sort xs) (sort-IsSorted xs)

-- `dedup` keeps the first item.
dedup_head : (x : Bytes) (xs : List Bytes) → (ys : List Bytes) × (dedup (x ∷ xs) ≡ x ∷ ys)
unfolding dedup
dedup_head x [] = ([], refl)
dedup_head x (y ∷ ys) = elim (Bool-cases (x == y)) [
  | inl e ↦
      let (rest, h) = dedup_head y ys in
      (rest, rw e (h ∙ ap (λ z. z ∷ rest) (sym ((list_beq_iff x y).0 e))))
  | inr e ↦ (dedup (y ∷ ys), rw e refl)
]

pub dedup-IsIncreasing : (xs : List Bytes) → IsSorted xs → IsIncreasing (dedup xs)
unfolding dedup IsSorted
dedup-IsIncreasing [] h = tt
dedup-IsIncreasing (x ∷ []) h = tt
dedup-IsIncreasing (x ∷ y ∷ ys) (first, h) = elim (Bool-cases (x == y)) [
  | inl e ↦ rw e (dedup-IsIncreasing (y ∷ ys) h)
  | inr e ↦
      let (rest, k) = dedup_head y ys in
      let sorted : IsIncreasing (y ∷ rest) = subst IsIncreasing k (dedup-IsIncreasing (y ∷ ys) h) in
      rw (e, k) (bytes_ltb_total y x first e, sorted)
]

contains-insert_sorted :
    (x : Bytes) (ys : List Bytes) (t : Bytes)
    → contains (insert_sorted x ys) t ≡ ((x == t) || contains ys t)
unfolding insert_sorted contains
contains-insert_sorted x [] t = refl
contains-insert_sorted x (y ∷ ys) t = elim (Bool-cases (bytes_ltb y x)) [
  | inl e ↦ rw (e, contains-insert_sorted x ys t) (or_swap (y == t) (x == t) (contains ys t))
  | inr e ↦ rw e refl
]
  where
    or_swap : (a b d : Bool) → (a || (b || d)) ≡ (b || (a || d))
    or_swap a b d = ground arith

pub contains-sort : (xs : List Bytes) (t : Bytes) → contains (sort xs) t ≡ contains xs t
unfolding sort contains
contains-sort [] t = refl
contains-sort (x ∷ xs) t =
    contains-insert_sorted x (sort xs) t ∙ ap (λ b. (x == t) || b) (contains-sort xs t)

pub contains-dedup : (xs : List Bytes) (t : Bytes) → contains (dedup xs) t ≡ contains xs t
unfolding dedup contains
contains-dedup [] t = refl
contains-dedup (x ∷ []) t = refl
contains-dedup (x ∷ y ∷ ys) t = elim (Bool-cases (x == y)) [
  | inl e ↦
      rw (e, contains-dedup (y ∷ ys) t, (list_beq_iff x y).0 e) (or_same (y == t) (contains ys t))
  | inr e ↦ rw (e, contains-dedup (y ∷ ys) t) refl
]
  where
    or_same : (a d : Bool) → (a || d) ≡ (a || (a || d))
    or_same a d = ground arith
