-- ===== src/ClientService/Config/Snapshot/History.antt =====
-- Snapshots in the order of their insertion, and what is found among them.
use agentspace.Common.{
  ℕ, suc, ◌+◌, ◌≤◌, ◌<◌, ◌≡◌, refl, sym, ap, ◌∙◌, ◌≢◌, inl, inr, false, none, some, List, [], ◌∷◌,
  ◌++◌, arith, ltb, if◌then◌else◌, Bool-cases, length, All, ◌==◌, nat_eq, list_eq, option_eq,
  eq_refl, ne→beq-false, Bytes,
}
use agentspace.Common.{Distinct}
use mathlib.Core.Bool.{true≢false}
use agentspace.ClientService.Config.Document.{find}
use agentspace.ClientService.Config.Snapshot.{Snapshot, find_generation, find_source, max_from}

-- The snapshots are numbered in the order of their insertion.
abbrev pub Numbered : ℕ → List Snapshot → Type 0
Numbered n [] = Unit
Numbered n (s ∷ rest) = (s.generation ≡ n) × Numbered (suc n) rest

abbrev pub sources_of : List Snapshot → List Bytes
sources_of [] = []
sources_of (s ∷ rest) = s.source_sha256 ∷ sources_of rest

pub max_from-Numbered :
    (m : ℕ) (xs : List Snapshot) → Numbered (suc m) xs → max_from m xs ≡ m + length xs
unfolding max_from
max_from-Numbered m [] h = omega arith
max_from-Numbered m (x ∷ xs) (h, hs) =
    let step : (if ltb m x.generation then x.generation else m) ≡ suc m = ground arith in
    rw step (omega (arith, max_from-Numbered (suc m) xs hs))

pub Numbered-snoc :
    (m : ℕ) (xs : List Snapshot) (x : Snapshot)
    → Numbered m xs
    → x.generation ≡ m + length xs
    → Numbered m (xs ++ x ∷ [])
Numbered-snoc m [] x h k = (omega (arith, k), tt)
Numbered-snoc m (y ∷ xs) x (h, hs) k = (h, Numbered-snoc (suc m) xs x hs (omega (arith, k)))

find_generation_below :
    (n m : ℕ) (xs : List Snapshot) → m < n → Numbered n xs → find_generation xs m ≡ none
unfolding find_generation find
find_generation_below n m [] lt h = refl
find_generation_below n m (x ∷ xs) lt (h, hs) =
    let apart : (x.generation == m) ≡ false = ne→beq-false x.generation m (omega arith) in
    rw (apart, find_generation_below (suc n) m xs (omega arith) hs) refl

pub find_generation-snoc :
    (n : ℕ) (xs : List Snapshot) (x : Snapshot)
    → Numbered n xs
    → x.generation ≡ n + length xs
    → find_generation (xs ++ x ∷ []) x.generation ≡ some x
unfolding find_generation find
find_generation-snoc n [] x h k = rw (eq_refl x.generation) refl
find_generation-snoc n (y ∷ xs) x (h, hs) k =
    let apart : (y.generation == x.generation) ≡ false =
      ne→beq-false y.generation x.generation (omega (arith, k)) in
    rw apart (find_generation-snoc (suc n) xs x hs (omega (arith, k)))

-- What is found by its digest is found by its generation too.
pub find_source-find_generation :
    (n : ℕ) (xs : List Snapshot) (digest : Bytes) (x : Snapshot)
    → Numbered n xs
    → find_source xs digest ≡ some x
    → (find_generation xs x.generation ≡ some x) × (x.source_sha256 ≡ digest) × (n ≤ x.generation)
unfolding find_source find_generation find
find_source-find_generation n [] digest x h k = cc
find_source-find_generation n (y ∷ xs) digest x (h, hs) k =
    elim (Bool-cases (y.source_sha256 == digest)) [
      | inl e ↦
          let same : y ≡ x = some_inj (rw e at k) in
          (
            rw (sym same) (rw (eq_refl y.generation) refl),
            ap (λ (s : Snapshot). s.source_sha256) (sym same)
                ∙ (list_eq.eq_iff y.source_sha256 digest).0 e,
            omega (arith, ap (λ (s : Snapshot). s.generation) same),
          )
      | inr e ↦
          let (found, digested, above) =
            find_source-find_generation (suc n) xs digest x hs (rw e at k) in
          let apart : (y.generation == x.generation) ≡ false =
            ne→beq-false y.generation x.generation (omega arith) in
          (rw apart found, digested, omega arith)
    ]
  where
    some_inj : some y ≡ some x → y ≡ x
    some_inj q = cc

pub find_source_absent :
    (xs : List Snapshot) (digest : Bytes)
    → find_source xs digest ≡ none
    → All (λ d. d ≢ digest) (sources_of xs)
unfolding find_source find
find_source_absent [] digest h = tt
find_source_absent (x ∷ xs) digest h = elim (Bool-cases (x.source_sha256 == digest)) [
  | inl e ↦ absurd (none_apart (rw e at h))
  | inr e ↦ (
    (λ k. true≢false (sym ((list_eq.eq_iff x.source_sha256 digest).1 k) ∙ e)),
    find_source_absent xs digest (rw e at h),
  )
]
  where
    none_apart : some x ≢ none
    none_apart q = cc

pub Distinct-snoc :
    (xs : List Snapshot) (x : Snapshot)
    → Distinct (sources_of xs)
    → All (λ d. d ≢ x.source_sha256) (sources_of xs)
    → Distinct (sources_of (xs ++ x ∷ []))
Distinct-snoc [] x h k = (tt, tt)
Distinct-snoc (y ∷ ys) x (h, hs) (k, ks) = (apart ys h, Distinct-snoc ys x hs ks)
  where
    apart :
        (zs : List Snapshot)
        → All (λ d. y.source_sha256 ≢ d) (sources_of zs)
        → All (λ d. y.source_sha256 ≢ d) (sources_of (zs ++ x ∷ []))
    apart [] q = (k, tt)
    apart (z ∷ zs) (q, qs) = (q, apart zs qs)
