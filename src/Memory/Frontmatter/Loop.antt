-- ===== src/Memory/Frontmatter/Loop.antt =====
-- The loop of `split_frontmatter` ends: every round looks on behind the marker that it found.
use agentspace.Common.{
  ℕ, zero, suc, ◌+◌, ◌*◌, ◌≤◌, ◌<◌, ◌≡◌, refl, sym, ap, ◌∙◌, ◌≢◌, inl, inr, true, Option, none,
  some, [], ◌∷◌, arith, Bool-cases, length, drop, length-drop, drop_all, ◌==◌, nat_eq, list_eq,
  option_eq, Bytes, starts_with, shift,
}
use native.Mathlib.Nat.{suc-add, zero-add}
use mathlib.Core.Option.{some-injective}
use agentspace.Memory.Frontmatter.{
  marker, find_str, at_line_end, at_marker, Round, missing, again, parts, split_from,
  split_frontmatter,
}

abbrev next_start : Round → ℕ
next_start (again n) = n
next_start _ = 0

again-injective : {m n : ℕ} → again m ≡ again n → m ≡ n
again-injective h = ap next_start h

parts≢again : {y b : Bytes} {n : ℕ} → parts y b ≢ again n
parts≢again h = cc

starts_with-length : (p s : Bytes) → starts_with p s ≡ true → length p ≤ length s
unfolding starts_with
starts_with-length [] s h = omega arith
starts_with-length (b ∷ p) [] h = cc
starts_with-length (b ∷ p) (d ∷ s) h = elim (Bool-cases (b == d)) [
  | inl e ↦ omega (arith, starts_with-length p s (rw e at h))
  | inr e ↦ cc
]

shift-cases :
    (found : Option ℕ) (r : ℕ) → shift found ≡ some r → (n : ℕ) × (found ≡ some n) × (suc n ≡ r)
shift-cases none r h = cc
shift-cases (some n) r h = (n, refl, some-injective _ _ h)

-- A marker that is found lies in the text.
find_str-bound : (s : Bytes) (r : ℕ) → find_str marker s ≡ some r → r + 4 ≤ length s
unfolding find_str
find_str-bound [] r h = unfold starts_with in cc
find_str-bound (b ∷ s) r h = elim (Bool-cases (starts_with marker (b ∷ s))) [
  | inl e ↦
      let first : 0 ≡ r = some-injective _ _ (rw e at h) in
      omega (arith, starts_with-length marker (b ∷ s) e, first)
  | inr e ↦
      let (n, found, next) = shift-cases (find_str marker s) r (rw e at h) in
      omega (arith, find_str-bound s n found, next)
]

-- A round at a marker that goes on goes on behind the marker.
at_line_end-again :
    (s rest : Bytes) (i n : ℕ) (line_end : Option Bytes)
    → at_line_end s i rest line_end ≡ again n
    → n ≡ i + 4
unfolding at_line_end
at_line_end-again s rest i n none h = elim (Bool-cases (rest == [])) [
  | inl e ↦ absurd (parts≢again (rw e at h))
  | inr e ↦ sym (again-injective (rw e at h))
]
at_line_end-again s rest i n (some t) h = absurd (parts≢again h)

at_marker-again :
    (s : Bytes) (i n : ℕ)
    → at_marker s i (find_str marker (drop i s)) ≡ again n
    → (i + 4 ≤ n) × (n ≤ length s)
unfolding at_marker
at_marker-again s i n h = by_found (find_str marker (drop i s)) refl h
  where
    by_found :
        (found : Option ℕ)
        → find_str marker (drop i s) ≡ found
        → at_marker s i found ≡ again n
        → (i + 4 ≤ n) × (n ≤ length s)
    by_found none e k = cc
    by_found (some r) e k =
        let next : n ≡ (i + r) + 4 = at_line_end-again s _ (i + r) n _ k in
        let bound : r + 4 ≤ length (drop i s) = find_str-bound (drop i s) r e in
        (omega (arith, next), omega (arith, next, bound, length-drop i s))

find_str-nil : find_str marker [] ≡ none
unfolding find_str starts_with
find_str-nil = refl

split_from-continue :
    (s : Bytes) (fuel extra i : ℕ)
    → length s < fuel * 4 + i
    → split_from s (fuel + extra) i ≡ split_from s fuel i
split_from-continue s zero extra i h = rw zero-add (behind_end extra ∙ sym (behind_end 0))
  where
    behind_end : (fuel : ℕ) → split_from s fuel i ≡ none
    behind_end zero = unfold split_from in refl
    behind_end (suc fuel) =
        unfold split_from at_marker in rw (drop_all i s (omega arith), find_str-nil) refl
split_from-continue s (suc fuel) extra i h =
    by_round (at_marker s i (find_str marker (drop i s))) refl
      (λ n a. split_from-continue s fuel extra n (omega (arith, a.1)))
  where
    by_round :
        (round : Round)
        → at_marker s i (find_str marker (drop i s)) ≡ round
        → ((n : ℕ)
            → (i + 4 ≤ n) × (n ≤ length s)
            → split_from s (fuel + extra) n ≡ split_from s fuel n)
        → split_from s (suc fuel + extra) i ≡ split_from s (suc fuel) i
    by_round missing e k = rw suc-add (unfold split_from in rw e refl)
    by_round (again n) e k = rw suc-add (unfold split_from in rw e (k n (at_marker-again s i n e)))
    by_round (parts y b) e k = rw suc-add (unfold split_from in rw e refl)

pub split_frontmatter_total :
    (s : Bytes) (extra : ℕ) → split_from s (suc (length s) + extra) 0 ≡ split_frontmatter s
unfolding split_frontmatter
split_frontmatter_total s extra = split_from-continue s (suc (length s)) extra 0 (omega arith)
