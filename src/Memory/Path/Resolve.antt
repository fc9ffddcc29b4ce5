-- ===== src/Memory/Path/Resolve.antt =====
-- Where a page path lies on disk.
use agentspace.Common.{
  snoc_inj, ℕ, suc, ◌-◌, ◌<◌, none, some, List, [], ◌∷◌, ◌++◌, ◌≡◌, ◌≢◌, refl, sym, ap, ◌∙◌, arith,
  list_eq, nat_eq, ne→beq-false, Bytes, codes, Lacks, ok, and_then-eq-ok, length, take, All,
  append_assoc, append-nil, All-take, All-append, length-append, take-length_append,
}
use mathlib.Core.List.{append_cancel_right}
use agentspace.Memory.Path.{
  PagePath, slash, markdown_extension, Stat, FilePath, symbolic_link, reject_symlink, resolve_from,
  file_components, resolve_within, last_or, file_stem, set_extension, relative_file_path,
  before_last_dot,
}
use agentspace.Memory.Path.Valid.{IsSegment, IsValid}

-- No path on the way from `current` down the components is a symbolic link.
abbrev pub NoSymlinks : Stat → FilePath → List Bytes → Type 0
NoSymlinks stat current [] = Unit
NoSymlinks stat current (c ∷ rest) =
    (stat (current ++ c ∷ []) ≢ ok symbolic_link) × NoSymlinks stat (current ++ c ∷ []) rest

reject_symlink_sound :
    (stat : Stat) (path : FilePath)
    → reject_symlink stat path ≡ ok tt
    → stat path ≢ ok symbolic_link
unfolding reject_symlink
reject_symlink_sound stat path h e = ground arith

resolve_from_sound :
    (stat : Stat) (current : FilePath) (rest : List Bytes) (full : FilePath)
    → resolve_from stat current rest ≡ ok full
    → (full ≡ current ++ rest) × NoSymlinks stat current rest
unfolding resolve_from
resolve_from_sound stat current [] full h = (cc (append-nil current), tt)
resolve_from_sound stat current (c ∷ rest) full h =
    let (u, clear, more) = and_then-eq-ok (reject_symlink stat (current ++ c ∷ [])) _ h in
    let (same, below) = resolve_from_sound stat (current ++ c ∷ []) rest full more in
    (same ∙ append_assoc current (c ∷ []) rest, (reject_symlink_sound stat _ clear, below))

-- A page path resolves only to the root with the page's components below it, and then no path
-- from the root down to the file itself is a symbolic link.
pub resolve_within_sound :
    (stat : Stat) (root : FilePath) (p : PagePath) (full : FilePath)
    → resolve_within stat root p ≡ ok full
    → (full ≡ root ++ file_components p) × NoSymlinks stat root (file_components p)
unfolding resolve_within
resolve_within_sound stat root p full h = resolve_from_sound stat root (file_components p) full h

pub init-append-last :
    (d : Bytes) (ss : List Bytes) → ss ≢ [] → take (length ss - 1) ss ++ last_or d ss ∷ [] ≡ ss
unfolding last_or
init-append-last d [] n = absurd (n refl)
init-append-last d (s ∷ []) n = refl
init-append-last d (s ∷ t ∷ ss) n =
    let e : suc (suc (length ss)) - 1 ≡ suc (suc (length ss) - 1) = omega arith in
    rw e (ap (λ r. s ∷ r) (init-append-last s (t ∷ ss) (λ e. cc)))

pub All-last :
    (d : Bytes) (ss : List Bytes) → ss ≢ [] → (P : Bytes → Type 0) → All P ss → P (last_or d ss)
unfolding last_or
All-last d [] n P h = absurd (n refl)
All-last d (s ∷ []) n P (h, _) = h
All-last d (s ∷ t ∷ ss) n P (_, h) = All-last s (t ∷ ss) (λ e. cc) P h

-- A name that a directory can hold: joined to a directory it neither leaves it nor descends.
pub record IsFileName (s : Bytes) : Type 0 where
  pub nonempty : s ≢ []
  pub not_dot : s ≢ codes "."
  pub not_dots : s ≢ codes ".."
  pub no_slash : Lacks slash s

pub All-IsFileName : (ss : List Bytes) → All IsSegment ss → All (Lacks slash) ss → All IsFileName ss
All-IsFileName [] h k = tt
All-IsFileName (s ∷ ss) (h, hs) (k, ks) = (
  record { nonempty = h.nonempty; not_dot = h.not_dot; not_dots = h.not_dots; no_slash = k },
  All-IsFileName ss hs ks,
)

pub suffixed-IsFileName : (s : Bytes) → Lacks slash s → IsFileName (s ++ markdown_extension)
suffixed-IsFileName s h = record {
  nonempty = λ e. longer s [] (omega arith) e;
  not_dot = λ e. longer s (codes ".") (omega arith) e;
  not_dots = λ e. longer s (codes "..") (omega arith) e;
  no_slash = All-append (λ c. c ≢ slash) s markdown_extension h (omega arith);
}
  where
    longer : (s t : Bytes) → length t < 3 → s ++ markdown_extension ≢ t
    longer s t k e =
        omega (arith, ap (λ (x : Bytes). length x) e, length-append s markdown_extension)

-- Every component below the root, of a valid page path, is a name that neither leaves its directory
-- nor descends, so the file of a page lies beneath the root.
pub file_components-IsFileName : (p : PagePath) → IsValid p → All IsFileName (file_components p)
unfolding file_components
file_components-IsFileName p v =
    All-append IsFileName (take (length p.segments - 1) p.segments) _
      (All-take IsFileName (length p.segments - 1) p.segments
        (All-IsFileName p.segments v.names v.no_slash))
      (
        suffixed-IsFileName (file_stem p)
            (unfold file_stem in All-last [] p.segments v.some_name (Lacks slash) v.no_slash),
        tt,
      )

-- Two valid page paths with the same file are the same page path.
pub file_components_inj :
    (p q : PagePath) → IsValid p → IsValid q → file_components p ≡ file_components q → p ≡ q
unfolding file_components file_stem
file_components_inj p q v w h =
    let (dirs, names) = snoc_inj _ _ _ _ h in
    let stems =
      append_cancel_right (last_or [] p.segments) (last_or [] q.segments) markdown_extension
        names in
    ap (λ ss. record { segments = ss })
      (sym (init-append-last [] p.segments v.some_name)
        ∙ (ap (λ ds. ds ++ last_or [] p.segments ∷ []) dirs
            ∙ (ap (λ l. take (length q.segments - 1) q.segments ++ l ∷ []) stems
                ∙ init-append-last [] q.segments w.some_name)))

before_last_dot_absent : (s : Bytes) → Lacks b'.' s → before_last_dot s ≡ none
unfolding before_last_dot
before_last_dot_absent [] h = refl
before_last_dot_absent (c ∷ s) (n, h) = rw (before_last_dot_absent s h, ne→beq-false c b'.' n)

before_last_dot_present : (s e : Bytes) → Lacks b'.' e → before_last_dot (s ++ b'.' ∷ e) ≡ some s
unfolding before_last_dot
before_last_dot_present [] e h = rw (before_last_dot_absent e h)
before_last_dot_present (c ∷ s) e h = rw (before_last_dot_present s e h)

-- A file name with no dot in it gets the suffix behind it, so for such a last name
-- `relative_file_path` is where `resolve_within` looks.
pub relative_file_path_plain :
    (p : PagePath) → Lacks b'.' (file_stem p) → relative_file_path p ≡ file_components p
unfolding relative_file_path file_components set_extension
relative_file_path_plain p h = rw (before_last_dot_absent (file_stem p) h)

last_or-append : (d a : Bytes) (ss : List Bytes) → last_or d (ss ++ a ∷ []) ≡ a
unfolding last_or
last_or-append d a [] = refl
last_or-append d a (s ∷ ss) = last_or-append s a ss

relative_file_path-append :
    (dirs : List Bytes) (a : Bytes)
    → relative_file_path (record { segments = dirs ++ a ∷ [] }) ≡ dirs ++ set_extension a ∷ []
unfolding relative_file_path file_stem
relative_file_path-append dirs a =
    let e : length (dirs ++ a ∷ []) - 1 ≡ length dirs =
      omega (arith, length-append dirs (a ∷ [])) in
    rw (e, take-length_append dirs (a ∷ []), last_or-append [] a dirs)

set_extension_dot :
    (c : ℕ) (s e : Bytes)
    → Lacks b'.' e
    → set_extension (c ∷ s ++ b'.' ∷ e) ≡ c ∷ s ++ markdown_extension
unfolding set_extension
set_extension_dot c s e h = rw (before_last_dot_present (c ∷ s) e h)

-- A last name that has a dot behind its first byte loses what stands from its last dot on:
-- page paths that differ only there get the same relative file path.
pub relative_file_path_collides :
    (dirs : List Bytes) (c : ℕ) (s e f : Bytes)
    → Lacks b'.' e
    → Lacks b'.' f
    → relative_file_path (record { segments = dirs ++ (c ∷ s ++ b'.' ∷ e) ∷ [] })
      ≡ relative_file_path (record { segments = dirs ++ (c ∷ s ++ b'.' ∷ f) ∷ [] })
relative_file_path_collides dirs c s e f he hf =
    relative_file_path-append dirs _
    ∙ (ap (λ n. dirs ++ n ∷ []) (set_extension_dot c s e he ∙ sym (set_extension_dot c s f hf))
        ∙ sym (relative_file_path-append dirs _))
