-- ===== src/ClientService/Config/Keyed.antt =====
-- Lists of items with a key: sorted by it (`sort_by` with the order of the keys), and searched for
-- it. Where no key occurs twice, a sorted list is determined by what is found for each key.
use agentspace.Common.{
  ◌≡◌, refl, sym, ap, ◌∙◌, ◌≢◌, ◌↔◌, ◌⊎◌, inl, inr, true, false, Option, none, some, List, [], ◌∷◌,
  arith, if◌then◌else◌, Bool-cases, All, ◌==◌, nat_eq, list_eq, option_eq, eq_refl, ne→beq-false,
  Bytes,
}
use agentspace.Common.{Distinct, bytes_ltb, bytes_ltb_total}
use mathlib.Core.Bool.{true≢false}
use mathlib.Core.Option.{none-ne-some}
use agentspace.ClientService.Config.Document.{find}

bytes_ltb_trans :
    (s t u : Bytes) → bytes_ltb s t ≡ true → bytes_ltb t u ≡ true → bytes_ltb s u ≡ true
unfolding bytes_ltb
bytes_ltb_trans s t [] h k = cc
bytes_ltb_trans s [] (e ∷ u) h k = cc
bytes_ltb_trans [] (d ∷ t) (e ∷ u) h k = refl
bytes_ltb_trans (b ∷ s) (d ∷ t) (e ∷ u) h k = ground (arith, bytes_ltb_trans s t u)

bytes_ltb_irrefl : (s : Bytes) → bytes_ltb s s ≡ false
unfolding bytes_ltb
bytes_ltb_irrefl [] = refl
bytes_ltb_irrefl (b ∷ s) = ground (arith, bytes_ltb_irrefl s)

module _ {A : Type 0} (key : A → Bytes) where
  unfoldable pub insert_by : A → List A → List A
  insert_by x [] = x ∷ []
  insert_by x (y ∷ ys) =
      let rest = insert_by x ys in if bytes_ltb (key y) (key x) then y ∷ rest else x ∷ y ∷ ys

  unfoldable pub sort_by : List A → List A
  unfolding insert_by
  sort_by [] = []
  sort_by (x ∷ xs) = insert_by x (sort_by xs)

  -- The first item of a key.
  abbrev pub find_by : Bytes → List A → Option A
  find_by k xs = find (λ x. key x == k) xs

  abbrev pub keys_of : List A → List Bytes
  keys_of [] = []
  keys_of (x ∷ xs) = key x ∷ keys_of xs

  -- No key occurs twice.
  abbrev pub Unique : List A → Type 0
  Unique xs = Distinct (keys_of xs)

  abbrev Away : Bytes → List A → Type 0
  Away k xs = All (λ y. k ≢ key y) xs

  abbrev Above : Bytes → List A → Type 0
  Above k xs = All (λ y. bytes_ltb k (key y) ≡ true) xs

  abbrev pub Ascending : List A → Type 0
  Ascending [] = Unit
  Ascending (x ∷ xs) = Above (key x) xs × Ascending xs

  to_away : (k : Bytes) (xs : List A) → All (λ j. k ≢ j) (keys_of xs) → Away k xs
  to_away k [] h = tt
  to_away k (x ∷ xs) (h, hs) = (h, to_away k xs hs)

  All-insert_by : (P : A → Type 0) (x : A) (ys : List A) → P x → All P ys → All P (insert_by x ys)
  unfolding insert_by
  All-insert_by P x [] p h = (p, tt)
  All-insert_by P x (y ∷ ys) p (h, hs) = elim (Bool-cases (bytes_ltb (key y) (key x))) [
    | inl e ↦ rw e (h, All-insert_by P x ys p hs)
    | inr e ↦ rw e (p, (h, hs))
  ]

  All-sort_by : (P : A → Type 0) (xs : List A) → All P xs → All P (sort_by xs)
  unfolding sort_by
  All-sort_by P [] h = tt
  All-sort_by P (x ∷ xs) (h, hs) = All-insert_by P x (sort_by xs) h (All-sort_by P xs hs)

  find_by-insert_by :
      (k : Bytes) (x : A) (ys : List A)
      → Away (key x) ys
      → find_by k (insert_by x ys) ≡ find_by k (x ∷ ys)
  unfolding insert_by find
  find_by-insert_by k x [] h = refl
  find_by-insert_by k x (y ∷ ys) (h, hs) = elim (Bool-cases (bytes_ltb (key y) (key x))) [
    | inl e ↦ rw (e, find_by-insert_by k x ys hs) (swapped (Bool-cases (key y == k)))
    | inr e ↦ rw e refl
  ]
    where
      swapped :
          ((key y == k) ≡ true) ⊎ ((key y == k) ≡ false)
          → (if key y == k then some y else (if key x == k then some x else find_by k ys))
            ≡ (if key x == k then some x else (if key y == k then some y else find_by k ys))
      swapped (inl e) =
          let apart : (key x == k) ≡ false =
            ne→beq-false (key x) k (λ q. h (q ∙ sym ((list_eq.eq_iff (key y) k).0 e))) in
          rw (e, apart) refl
      swapped (inr e) = rw e refl

  -- Sorting does not change what is found for a key.
  pub find_by-sort_by :
      (k : Bytes) (xs : List A) → Unique xs → find_by k (sort_by xs) ≡ find_by k xs
  unfolding sort_by find
  find_by-sort_by k [] h = refl
  find_by-sort_by k (x ∷ xs) (h, hs) =
      find_by-insert_by k x (sort_by xs)
        (All-sort_by (λ y. key x ≢ key y) xs (to_away (key x) xs h))
      ∙ rw (find_by-sort_by k xs hs) refl

  Above-trans : (j k : Bytes) (xs : List A) → bytes_ltb j k ≡ true → Above k xs → Above j xs
  Above-trans j k [] h hs = tt
  Above-trans j k (x ∷ xs) h (g, gs) = (bytes_ltb_trans j k (key x) h g, Above-trans j k xs h gs)

  insert_by-Ascending :
      (x : A) (ys : List A) → Away (key x) ys → Ascending ys → Ascending (insert_by x ys)
  unfolding insert_by
  insert_by-Ascending x [] h k = (tt, tt)
  insert_by-Ascending x (y ∷ ys) (h, hs) (above, k) =
      elim (Bool-cases (bytes_ltb (key y) (key x))) [
        | inl e ↦ rw e (
          All-insert_by (λ z. bytes_ltb (key y) (key z) ≡ true) x ys e above,
          insert_by-Ascending x ys hs k,
        )
        | inr e ↦
            let below : bytes_ltb (key x) (key y) ≡ true =
              bytes_ltb_total (key y) (key x) e (ne→beq-false (key x) (key y) h) in
            rw e ((below, Above-trans (key x) (key y) ys below above), (above, k))
      ]

  pub sort_by-Ascending : (xs : List A) → Unique xs → Ascending (sort_by xs)
  unfolding sort_by
  sort_by-Ascending [] h = tt
  sort_by-Ascending (x ∷ xs) (h, hs) =
      insert_by-Ascending x (sort_by xs)
        (All-sort_by (λ y. key x ≢ key y) xs (to_away (key x) xs h)) (sort_by-Ascending xs hs)

  find_by-Above : (k : Bytes) (xs : List A) → Above k xs → find_by k xs ≡ none
  unfolding find
  find_by-Above k [] h = refl
  find_by-Above k (x ∷ xs) (h, hs) =
      let apart : (key x == k) ≡ false =
        ne→beq-false (key x) k
          (λ e. true≢false (sym h ∙ (ap (λ j. bytes_ltb k j) e ∙ bytes_ltb_irrefl k))) in
      rw (apart, find_by-Above k xs hs) refl

  find_by_head : (x : A) (xs : List A) → find_by (key x) (x ∷ xs) ≡ some x
  unfolding find
  find_by_head x xs = rw (eq_refl (key x)) refl

  find_by_other :
      (k : Bytes) (x : A) (xs : List A) → (key x == k) ≡ false → find_by k (x ∷ xs) ≡ find_by k xs
  unfolding find
  find_by_other k x xs h = rw h refl

  find_by_nil : (k : Bytes) → find_by k [] ≡ none
  unfolding find
  find_by_nil k = refl

  some-not-absent :
      (x : A) (xs ys : List A)
      → find_by (key x) (x ∷ xs) ≡ find_by (key x) ys
      → find_by (key x) ys ≢ none
  some-not-absent x xs ys e k = none-ne-some x (sym k ∙ (sym e ∙ find_by_head x xs))

  same_head :
      (x y : A) (xs ys : List A)
      → key x ≡ key y
      → find_by (key x) (x ∷ xs) ≡ find_by (key x) (y ∷ ys)
      → x ≡ y
  same_head x y xs ys same e =
      let both : some x ≡ some y =
        sym (find_by_head x xs) ∙ (e ∙ (ap (λ k. find_by k (y ∷ ys)) same ∙ find_by_head y ys)) in
      cc

  same_tail :
      (x y : A) (xs ys : List A)
      → key x ≡ key y
      → Above (key x) xs
      → Above (key y) ys
      → ((k : Bytes) → find_by k (x ∷ xs) ≡ find_by k (y ∷ ys))
      → (k : Bytes) → find_by k xs ≡ find_by k ys
  same_tail x y xs ys same hx gy e k = elim (Bool-cases (key x == k)) [
    | inl q ↦
        let at_x : key x ≡ k = (list_eq.eq_iff (key x) k).0 q in
        ap (λ j. find_by j xs) (sym at_x)
        ∙ (find_by-Above (key x) xs hx
            ∙ (sym (find_by-Above (key y) ys gy) ∙ ap (λ j. find_by j ys) (sym same ∙ at_x)))
    | inr q ↦
        sym (find_by_other k x xs q)
        ∙ (e k ∙ find_by_other k y ys (ap (λ j. j == k) (sym same) ∙ q))
  ]

  -- Two sorted lists in which the same is found for every key are equal.
  pub Ascending-ext :
      (xs ys : List A)
      → Ascending xs
      → Ascending ys
      → ((k : Bytes) → find_by k xs ≡ find_by k ys)
      → xs ≡ ys
  Ascending-ext [] [] h g e = refl
  Ascending-ext [] (y ∷ ys) h g e =
      absurd (some-not-absent y ys [] (sym (e (key y))) (find_by_nil (key y)))
  Ascending-ext (x ∷ xs) [] h g e =
      absurd (some-not-absent x xs [] (e (key x)) (find_by_nil (key x)))
  Ascending-ext (x ∷ xs) (y ∷ ys) (hx, h) (gy, g) e = elim (Bool-cases (key x == key y)) [
    | inl q ↦
        let same : key x ≡ key y = (list_eq.eq_iff (key x) (key y)).0 q in
        ap (λ z. z ∷ xs) (same_head x y xs ys same (e (key x)))
        ∙ ap (λ zs. y ∷ zs) (Ascending-ext xs ys h g (same_tail x y xs ys same hx gy e))
    | inr q ↦ elim (Bool-cases (bytes_ltb (key y) (key x))) [
      | inl below ↦ absurd (
          some-not-absent y ys (x ∷ xs) (sym (e (key y)))
            (find_by-Above (key y) (x ∷ xs) (below, Above-trans (key y) (key x) xs below hx)))
      | inr above ↦
          let below : bytes_ltb (key x) (key y) ≡ true = bytes_ltb_total (key y) (key x) above q in
          absurd (
            some-not-absent x xs (y ∷ ys) (e (key x))
              (find_by-Above (key x) (y ∷ ys) (below, Above-trans (key x) (key y) ys below gy)))
    ]
  ]

  -- Sorted, two lists are equal exactly when the same is found for every key.
  pub sort_by_iff :
      (xs ys : List A)
      → Unique xs
      → Unique ys
      → (sort_by xs ≡ sort_by ys) ↔ ((k : Bytes) → find_by k xs ≡ find_by k ys)
  sort_by_iff xs ys h g = (
    λ e k. sym (find_by-sort_by k xs h) ∙ (ap (λ zs. find_by k zs) e ∙ find_by-sort_by k ys g),
    λ e.
        Ascending-ext (sort_by xs) (sort_by ys) (sort_by-Ascending xs h) (sort_by-Ascending ys g)
          (λ k. find_by-sort_by k xs h ∙ (e k ∙ sym (find_by-sort_by k ys g))),
  )
