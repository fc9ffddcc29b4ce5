-- ===== src/Memory/Links/Relative.antt =====
-- A relative target leads back to the page that it was made for.
use agentspace.Common.{
  ℕ, ◌+◌, ◌-◌, ◌≤◌, ◌≡◌, refl, sym, ap, ◌∙◌, ◌≢◌, false, some, List, [], ◌∷◌, ◌++◌, append-nil,
  append_assoc, length, drop, replicate, All, All-append, All-take, All-drop, nat_eq, list_beq,
  list_eq, option_eq, ne→beq-false, ok, Bytes, codes, Lacks, starts_with, join, trim, split-join,
}
use mathlib.Core.Path.{subst}
use mathlib.Core.List.{concat-ne-nil}
use agentspace.Memory.Path.{
  PagePath, slash, markdown_extension, max_path_length, parse, as_str, last_or,
}
use agentspace.Memory.Path.Valid.{IsSegment, IsValid}
use agentspace.Memory.Path.RoundTrip.{parse-as_str_file, join-ne-nil, join-starts_with}
use agentspace.Memory.Path.Resolve.{
  IsFileName, suffixed-IsFileName, All-IsFileName, init-append-last, All-last,
}
use agentspace.Memory.Links.{
  pop, resolve_parts, resolve_plain, resolve_relative_target, common, relative_target,
}
use agentspace.Memory.Links.Parts.{
  IsPart, NoDouble-join, contains_scheme, IsFileName-IsPart, replicate-IsPart, IsPart-Lacks,
}
use agentspace.Memory.Links.Segments.{before_fragment_plain, file_parts, resolve_file_parts}

-- The names of a directory that page paths can lie in.
abbrev pub IsDir : List Bytes → Type 0
IsDir ds = All IsSegment ds × All (Lacks slash) ds

join-snoc :
    (sep : ℕ) (ps : List Bytes) (a t : Bytes)
    → join sep (ps ++ a ∷ []) ++ t ≡ join sep (ps ++ (a ++ t) ∷ [])
unfolding join
join-snoc sep [] a t = refl
join-snoc sep (p ∷ []) a t = append_assoc p (sep ∷ a) t
join-snoc sep (p ∷ q ∷ ps) a t =
    append_assoc p (sep ∷ join sep (q ∷ ps ++ a ∷ [])) t
    ∙ ap (λ r. p ++ sep ∷ r) (join-snoc sep (q ∷ ps) a t)

-- A target of parts that are all proper parts goes through the tests of the resolver.
resolve_relative_target_parts :
    (base_dir : List Bytes) (p : Bytes) (ps : List Bytes)
    → All IsPart (p ∷ ps)
    → (let t = join slash (p ∷ ps) in
        trim t ≡ t
        → Lacks b'#' t
        → Lacks b'?' t
        → starts_with (codes "mailto:") t ≡ false
        → resolve_relative_target base_dir t ≡ resolve_plain base_dir t)
unfolding resolve_relative_target
resolve_relative_target_parts base_dir p ps ((n, l), h) tidy hash query mail =
    let t = join slash (p ∷ ps) in
    rw (
      tidy,
      before_fragment_plain t hash query,
      ne→beq-false t [] (join-ne-nil slash p ps n),
      contains_scheme t (NoDouble-join (p ∷ ps) ((n, l), h)),
      mail,
      rw append-nil at (join-starts_with slash p ps [] n l),
    )

resolve_plain_parts :
    (base_dir ps : List Bytes) (s : Bytes) (ss : List Bytes) (q : PagePath)
    → ps ≢ []
    → All IsPart ps
    → resolve_parts base_dir ps ≡ s ∷ ss
    → parse (join slash (s ∷ ss)) ≡ ok q
    → resolve_plain base_dir (join slash ps) ≡ some q
unfolding resolve_plain list_beq
resolve_plain_parts base_dir ps s ss q n h r e =
    rw (split-join slash ps n (IsPart-Lacks ps h), r, e)

module _ (base_dir : List Bytes) (q : PagePath) (v : IsValid q) where
  parts-IsPart : All IsPart (file_parts base_dir q.segments)
  parts-IsPart =
      let names = All-IsFileName q.segments v.names v.no_slash in
      let k = common base_dir (pop q.segments) in
      All-append IsPart (replicate (length base_dir - k) (codes "..")) _
        (replicate-IsPart (length base_dir - k))
        (IsFileName-IsPart _ (
          All-append IsFileName (drop k (pop q.segments)) _
            (All-drop IsFileName k (pop q.segments)
              (All-take IsFileName (length q.segments - 1) q.segments names))
            (last_name, tt)))
    where
      last_name : IsFileName (last_or [] q.segments ++ markdown_extension)
      last_name =
          suffixed-IsFileName (last_or [] q.segments)
            (All-last [] q.segments v.some_name (Lacks slash) v.no_slash)

  relative_target-join : relative_target base_dir q ≡ join slash (file_parts base_dir q.segments)
  unfolding relative_target
  relative_target-join =
      let k = common base_dir (pop q.segments) in
      let ups = replicate (length base_dir - k) (codes "..") in
      let dirs = drop k (pop q.segments) in
      let l = last_or [] q.segments in
      ap (λ t. join slash t ++ markdown_extension) (sym (append_assoc ups dirs (l ∷ [])))
      ∙ (join-snoc slash (ups ++ dirs) l markdown_extension
          ∙ ap (λ t. join slash t) (append_assoc ups dirs ((l ++ markdown_extension) ∷ [])))

  resolved-parts :
      resolve_parts base_dir (file_parts base_dir q.segments)
      ≡ pop q.segments ++ (last_or [] q.segments ++ markdown_extension) ∷ []
  resolved-parts =
      resolve_file_parts base_dir q.segments
        (All-take IsFileName (length q.segments - 1) q.segments
          (All-IsFileName q.segments v.names v.no_slash))
        (suffixed-IsFileName (last_or [] q.segments)
          (All-last [] q.segments v.some_name (Lacks slash) v.no_slash))

  file-as_str :
      join slash (pop q.segments ++ (last_or [] q.segments ++ markdown_extension) ∷ [])
      ≡ as_str q ++ markdown_extension
  unfolding as_str
  file-as_str =
      sym (join-snoc slash (pop q.segments) (last_or [] q.segments) markdown_extension)
      ∙ ap (λ t. join slash t ++ markdown_extension) (init-append-last [] q.segments v.some_name)

cons-of_ne {ℓ} : {A : Type ℓ} (xs : List A) → xs ≢ [] → (y : A) × (ys : List A) × (xs ≡ y ∷ ys)
cons-of_ne [] n = absurd (n refl)
cons-of_ne (x ∷ xs) n = (x, xs, refl)

file_parts-ne-nil : (from ss : List Bytes) → file_parts from ss ≢ []
file_parts-ne-nil from ss h =
    let k = common from (pop ss) in
    let ups = replicate (length from - k) (codes "..") in
    concat-ne-nil (last_or [] ss ++ markdown_extension) (ups ++ drop k (pop ss))
      (append_assoc ups (drop k (pop ss)) _ ∙ h)

-- The relative target that `relative_target` writes for a page, seen from any directory, resolves
-- from that directory to the page again, if the page path is valid and at most 509 bytes long, and
-- the target starts and ends with no white space, holds no `#` and no `?`, and does not start with
-- `mailto:`.
pub resolve-relative_target :
    (base_dir : List Bytes) (q : PagePath)
    → IsValid q
    → length (as_str q) + 3 ≤ max_path_length
    → trim (relative_target base_dir q) ≡ relative_target base_dir q
    → Lacks b'#' (relative_target base_dir q)
    → Lacks b'?' (relative_target base_dir q)
    → starts_with (codes "mailto:") (relative_target base_dir q) ≡ false
    → resolve_relative_target base_dir (relative_target base_dir q) ≡ some q
resolve-relative_target base_dir q v short tidy hash query mail =
    let out = pop q.segments ++ (last_or [] q.segments ++ markdown_extension) ∷ [] in
    let (p, ps, e) =
      cons-of_ne (file_parts base_dir q.segments) (file_parts-ne-nil base_dir q.segments) in
    let (s, ss, f) = cons-of_ne out (concat-ne-nil _ (pop q.segments)) in
    let parts = rw e at (parts-IsPart base_dir q v) in
    subst
      (λ t.
        trim t ≡ t
        → Lacks b'#' t
        → Lacks b'?' t
        → starts_with (codes "mailto:") t ≡ false
        → resolve_relative_target base_dir t ≡ some q)
      (sym (rw e at (relative_target-join base_dir q v)))
      (λ a b c d.
        resolve_relative_target_parts base_dir p ps parts a b c d
        ∙ resolve_plain_parts base_dir (p ∷ ps) s ss q (λ h. cc) parts
            (rw (e, f) at (resolved-parts base_dir q v))
            (rw (← rw f at (file-as_str base_dir q v)) at (parse-as_str_file q v short)))
      tidy hash query mail
