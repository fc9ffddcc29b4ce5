-- ===== src/Memory/Links/Parts.antt =====
-- Texts of names that are joined by slashes: they hold no scheme.
use agentspace.Common.{
  ℕ, zero, suc, ◌≡◌, refl, sym, ◌≢◌, false, List, [], ◌∷◌, ◌++◌, arith, replicate, All, nat_beq_iff,
  nat_eq, list_eq, option_eq, Bytes, codes, Lacks, starts_with, contains_str, join,
}
use mathlib.Core.Path.{subst}
use agentspace.Memory.Path.{slash}
use agentspace.Memory.Path.Resolve.{IsFileName}

-- Names that are not empty and hold no slash make a text with no two slashes side by side.
abbrev pub IsPart : Bytes → Type 0
IsPart s = (s ≢ []) × Lacks slash s

abbrev NoDouble : Bytes → Type 0
NoDouble [] = Unit
NoDouble (c ∷ []) = Unit
NoDouble (c ∷ d ∷ s) = ((c ≡ slash) → (d ≢ slash)) × NoDouble (d ∷ s)

NoDouble-Lacks : (s : Bytes) → Lacks slash s → NoDouble s
NoDouble-Lacks [] h = tt
NoDouble-Lacks (c ∷ []) h = tt
NoDouble-Lacks (c ∷ d ∷ s) (n, h) = ((λ e. absurd (n e)), NoDouble-Lacks (d ∷ s) h)

NoDouble-append :
    (p : Bytes) (c : ℕ) (s : Bytes)
    → p ≢ []
    → Lacks slash p
    → c ≢ slash
    → NoDouble (c ∷ s)
    → NoDouble (p ++ slash ∷ c ∷ s)
NoDouble-append [] c s n h m k = absurd (n refl)
NoDouble-append (a ∷ []) c s n (l, h) m k = ((λ e. absurd (l e)), ((λ e. m), k))
NoDouble-append (a ∷ b ∷ p) c s n (l, h) m k =
    ((λ e. absurd (l e)), NoDouble-append (b ∷ p) c s (λ e. cc) h m k)

join-head :
    (p : Bytes) (ps : List Bytes)
    → IsPart p
    → (c : ℕ) × (s : Bytes) × (join slash (p ∷ ps) ≡ c ∷ s) × (c ≢ slash)
unfolding join
join-head [] ps (n, h) = absurd (n refl)
join-head (c ∷ p) [] (n, (m, h)) = (c, p, refl, m)
join-head (c ∷ p) (q ∷ ps) (n, (m, h)) = (c, p ++ slash ∷ join slash (q ∷ ps), refl, m)

pub NoDouble-join : (ps : List Bytes) → All IsPart ps → NoDouble (join slash ps)
unfolding join
NoDouble-join [] h = tt
NoDouble-join (p ∷ []) ((n, h), _) = NoDouble-Lacks p h
NoDouble-join (p ∷ q ∷ ps) ((n, h), (k, hs)) =
    let (c, s, e, m) = join-head q ps k in
    let inner : NoDouble (c ∷ s) = rw e at (NoDouble-join (q ∷ ps) (k, hs)) in
    subst (λ t. NoDouble (p ++ slash ∷ t)) (sym e) (NoDouble-append p c s n h m inner)

starts_with_scheme : (s : Bytes) → NoDouble s → starts_with (codes "://") s ≡ false
unfolding starts_with
starts_with_scheme [] h = refl
starts_with_scheme (a ∷ []) h = ground arith
starts_with_scheme (a ∷ b ∷ []) h = ground arith
starts_with_scheme (a ∷ b ∷ c ∷ s) (_, (n, _)) =
    ground (arith, nat_beq_iff b slash, nat_beq_iff c slash)

NoDouble-tail : (c : ℕ) (s : Bytes) → NoDouble (c ∷ s) → NoDouble s
NoDouble-tail c [] h = tt
NoDouble-tail c (d ∷ s) h = h.1

pub contains_scheme : (s : Bytes) → NoDouble s → contains_str (codes "://") s ≡ false
unfolding contains_str
contains_scheme [] h = starts_with_scheme [] h
contains_scheme (c ∷ s) h =
    rw (starts_with_scheme (c ∷ s) h, contains_scheme s (NoDouble-tail c s h))

pub IsFileName-IsPart : (ps : List Bytes) → All IsFileName ps → All IsPart ps
IsFileName-IsPart [] h = tt
IsFileName-IsPart (p ∷ ps) (h, hs) = ((h.nonempty, h.no_slash), IsFileName-IsPart ps hs)

pub replicate-IsPart : (n : ℕ) → All IsPart (replicate n (codes ".."))
replicate-IsPart zero = tt
replicate-IsPart (suc n) = (((λ e. cc), omega arith), replicate-IsPart n)

pub IsPart-Lacks : (ps : List Bytes) → All IsPart ps → All (Lacks slash) ps
IsPart-Lacks [] h = tt
IsPart-Lacks (p ∷ ps) ((_, h), hs) = (h, IsPart-Lacks ps hs)
