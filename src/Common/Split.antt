-- ===== src/Common/Split.antt =====
-- The laws of the functions on text: splitting and joining, prefixes and suffixes, searching.
use agentspace.Common.Tests.{Bool-cases}
use mathlib.Core.List.{head?}
use agentspace.Common.Lists.{drop, length, All, length-append, All-append}
use agentspace.Common.Equality.{
  ◌==◌, nat_eq, list_eq, list_beq, list_beq_iff, nat_beq_iff, eq_refl, ne→beq-false,
}
use agentspace.Common.Text.{
  Bytes, Lacks, strip_suffix, contains_byte, push_head, split, join, prepend, find_byte, shift,
}
use Prim.Native.Nat.{ℕ, suc, ◌<◌}
use mathlib.Core.Path.{◌≡◌, refl, ap, ◌∙◌}
use mathlib.Core.Logic.{◌≢◌, inl, inr}
use mathlib.Core.Bool.{false}
use mathlib.Core.List.{List, [], ◌∷◌, ◌++◌}
use mathlib.Core.Option.{Option, none, some}
use native.Mathlib.Omega.{arith}

module _ (sep : ℕ) where
  pub split-ne-nil : (s : Bytes) → split sep s ≢ []
  unfolding split
  split-ne-nil [] h = cc
  split-ne-nil (c ∷ s) h = ground arith

  push_head-Lacks :
      (c : ℕ) (ps : List Bytes) → c ≢ sep → All (Lacks sep) ps → All (Lacks sep) (push_head c ps)
  push_head-Lacks c [] n h = ((n, tt), tt)
  push_head-Lacks c (p ∷ ps) n (h, hs) = ((n, h), hs)

  -- No part of a split holds the separator.
  pub split-Lacks : (s : Bytes) → All (Lacks sep) (split sep s)
  unfolding split
  split-Lacks [] = (tt, tt)
  split-Lacks (c ∷ s) = elim (Bool-cases (c == sep)) [
    | inl e ↦ rw e (tt, split-Lacks s)
    | inr n ↦
        rw n
          (push_head-Lacks c (split sep s) (λ e. ground (arith, nat_beq_iff c sep)) (split-Lacks s))
  ]

  join-push_head : (c : ℕ) (ps : List Bytes) → join sep (push_head c ps) ≡ c ∷ join sep ps
  unfolding join
  join-push_head c [] = refl
  join-push_head c (p ∷ []) = refl
  join-push_head c (p ∷ q ∷ ps) = refl

  join-nil_cons : (ps : List Bytes) → ps ≢ [] → join sep ([] ∷ ps) ≡ sep ∷ join sep ps
  unfolding join
  join-nil_cons [] h = absurd (h refl)
  join-nil_cons (p ∷ ps) h = refl

  -- Joining the parts of a split gives the text back.
  pub join-split : (s : Bytes) → join sep (split sep s) ≡ s
  unfolding split
  join-split [] = unfold join in refl
  join-split (c ∷ s) = elim (Bool-cases (c == sep)) [
    | inl e ↦
        rw e (
          join-nil_cons (split sep s) (split-ne-nil s) ∙ cc (join-split s, (nat_beq_iff c sep).0 e))
    | inr n ↦ rw n (join-push_head c (split sep s) ∙ ap (λ t. c ∷ t) (join-split s))
  ]

  split-cons_ne : (c : ℕ) (s : Bytes) → c ≢ sep → split sep (c ∷ s) ≡ push_head c (split sep s)
  unfolding split
  split-cons_ne c s n = rw (ne→beq-false c sep n)

  pub split-Lacks_self : (p : Bytes) → Lacks sep p → split sep p ≡ p ∷ []
  unfolding split
  split-Lacks_self [] h = refl
  split-Lacks_self (c ∷ p) (n, h) = rw (ne→beq-false c sep n, split-Lacks_self p h)

  pub split-append_sep : (p s : Bytes) → Lacks sep p → split sep (p ++ sep ∷ s) ≡ p ∷ split sep s
  unfolding split
  split-append_sep [] s h = rw (eq_refl sep)
  split-append_sep (c ∷ p) s (n, h) = rw (ne→beq-false c sep n, split-append_sep p s h)

  -- Splitting a join gives the parts back.
  pub split-join : (ps : List Bytes) → ps ≢ [] → All (Lacks sep) ps → split sep (join sep ps) ≡ ps
  unfolding join
  split-join [] n h = absurd (n refl)
  split-join (p ∷ []) n (h, _) = split-Lacks_self p h
  split-join (p ∷ q ∷ ps) n (h, hs) =
      split-append_sep p (join sep (q ∷ ps)) h ∙ ap (λ t. p ∷ t) (split-join (q ∷ ps) (λ e. cc) hs)

prepend-eq-some :
    (c : ℕ) (o : Option Bytes) (t : Bytes)
    → prepend c o ≡ some t
    → (r : Bytes) × (o ≡ some r) × (t ≡ c ∷ r)
prepend-eq-some c none t h = cc
prepend-eq-some c (some r) t h = (r, refl, cc)

-- What is left of a suffix that was stripped, with the suffix, is the text.
pub strip_suffix_sound : (p s t : Bytes) → strip_suffix p s ≡ some t → s ≡ t ++ p
unfolding strip_suffix
strip_suffix_sound p [] t h = elim (Bool-cases (p == [])) [
  | inl e ↦ ground (arith, list_beq_iff p [])
  | inr n ↦ ground arith
]
strip_suffix_sound p (c ∷ s) t h = elim (Bool-cases (p == (c ∷ s))) [
  | inl e ↦ ground (arith, list_beq_iff p (c ∷ s))
  | inr n ↦
      let (r, er, et) = prepend-eq-some c (strip_suffix p s) t (rw n at h) in
      rw et (ap (λ x. c ∷ x) (strip_suffix_sound p s r er))
]

longer-ne : (p : Bytes) (c : ℕ) (s : Bytes) → p ≢ c ∷ (s ++ p)
longer-ne p c s e = omega (arith, ap (λ (x : Bytes). length x) e, length-append s p)

pub strip_suffix-append : (p t : Bytes) → strip_suffix p (t ++ p) ≡ some t
unfolding strip_suffix list_beq
strip_suffix-append [] [] = refl
strip_suffix-append (c ∷ p) [] = rw (eq_refl (c ∷ p))
strip_suffix-append p (c ∷ t) =
    rw (ne→beq-false p (c ∷ (t ++ p)) (longer-ne p c t), strip_suffix-append p t)

-- A byte that is not found is in no place.
pub contains_byte-false : (b : ℕ) (s : Bytes) → contains_byte b s ≡ false → Lacks b s
unfolding contains_byte
contains_byte-false b [] h = tt
contains_byte-false b (c ∷ s) h = elim (Bool-cases (c == b)) [
  | inl e ↦ cc (h, e)
  | inr n ↦ ((λ e. ground (arith, nat_beq_iff c b)), contains_byte-false b s (rw n at h))
]

pub Lacks-contains_byte : (b : ℕ) (s : Bytes) → Lacks b s → contains_byte b s ≡ false
unfolding contains_byte
Lacks-contains_byte b [] h = refl
Lacks-contains_byte b (c ∷ s) (n, h) = rw (ne→beq-false c b n, Lacks-contains_byte b s h)

-- What the whole of a join lacks, each part lacks, and the other way round but for the separator.
pub Lacks-join : (b sep : ℕ) (ps : List Bytes) → sep ≢ b → All (Lacks b) ps → Lacks b (join sep ps)
unfolding join
Lacks-join b sep [] n h = tt
Lacks-join b sep (p ∷ []) n (h, _) = h
Lacks-join b sep (p ∷ q ∷ ps) n (h, hs) =
    All-append (λ c. c ≢ b) p (sep ∷ join sep (q ∷ ps)) h (n, Lacks-join b sep (q ∷ ps) n hs)

shift-eq-some : (o : Option ℕ) (n : ℕ) → shift o ≡ some n → (m : ℕ) × (o ≡ some m) × (n ≡ suc m)
shift-eq-some none n h = cc
shift-eq-some (some m) n h = (m, refl, cc)

-- A byte that is found stands at the offset that is returned.
pub find_byte_sound :
    (b : ℕ) (s : Bytes) (n : ℕ)
    → find_byte b s ≡ some n
    → (n < length s) × (head? (drop n s) ≡ some b)
unfolding find_byte
find_byte_sound b [] n h = cc
find_byte_sound b (c ∷ s) n h = elim (Bool-cases (c == b)) [
  | inl e ↦
      let same : 0 ≡ n = (let h2 : some 0 ≡ some n = (rw e at h) in (cc)) in
      rw (← same) (omega arith, ap some ((nat_beq_iff c b).0 e))
  | inr e ↦
      let (m, found, next) = shift-eq-some (find_byte b s) n (rw e at h) in
      let (below, here) = find_byte_sound b s m found in rw next (omega arith, here)
]
