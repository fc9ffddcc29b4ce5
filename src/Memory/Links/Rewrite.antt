-- ===== src/Memory/Links/Rewrite.antt =====
-- What `rewrite_links` changes, and what it leaves.
use agentspace.Common.{
  ℕ, zero, suc, ◌+◌, ◌-◌, ◌≤◌, ◌≡◌, refl, sym, ap, ◌∙◌, inl, inr, Bool, true, false, ◌||◌, some,
  List, [], ◌∷◌, ◌++◌, append_assoc, arith, if◌then◌else◌, Bool-cases, take, drop, slice,
  take-append-drop, drop-drop, ◌==◌, nat_eq, list_eq, option_eq, Bytes,
}
use native.Mathlib.Nat.{zero-add, suc-add}
use agentspace.Memory.Path.{PagePath, path_eq}
use agentspace.Memory.Links.{
  ParsedLink, parse_links, rewrite_from, rewrite_links, relative_target, base_dir_of,
}
use agentspace.Memory.Links.Scan.{AreLinks, parse_links_total}

-- A body with each link's target replaced by what `target` gives for the link, and every byte
-- outside the targets as it was.
unfoldable pub weave : (ParsedLink → Bytes) → Bytes → ℕ → List ParsedLink → Bytes
weave target body cursor [] = drop cursor body
weave target body cursor (l ∷ ls) =
    slice cursor l.target_start body ++ (target l ++ weave target body l.target_end ls)

-- The new target of a link: the destination, seen from the page, for a link to the source.
unfoldable pub retarget : List Bytes → PagePath → PagePath → ParsedLink → Bytes
retarget base_dir source destination l =
    if l.resolved == some source then relative_target base_dir destination else l.raw_target

-- Does a link lead to the page?
unfoldable pub any_to : PagePath → List ParsedLink → Bool
any_to source [] = false
any_to source (l ∷ ls) = l.resolved == some source || any_to source ls

take-add {ℓ} :
    {A : Type ℓ} (m n : ℕ) (xs : List A) → take (m + n) xs ≡ take m xs ++ take n (drop m xs)
take-add zero n xs = rw zero-add
take-add (suc m) zero [] = rw suc-add
take-add (suc m) (suc n) [] = rw suc-add
take-add (suc m) n (x ∷ xs) = rw suc-add (ap (λ t. x ∷ t) (take-add m n xs))

slice-append-drop {ℓ} :
    {A : Type ℓ} (i j : ℕ) (xs : List A) → i ≤ j → slice i j xs ++ drop j xs ≡ drop i xs
slice-append-drop i j xs h =
    let e : i + (j - i) ≡ j = omega arith in
    ap (λ k. slice i j xs ++ drop k xs) (sym e)
    ∙ (ap (λ t. slice i j xs ++ t) (sym (drop-drop (j - i) i xs))
        ∙ take-append-drop (j - i) (drop i xs))

slice-append-slice {ℓ} :
    {A : Type ℓ} (i j k : ℕ) (xs : List A)
    → i ≤ j
    → j ≤ k
    → slice i k xs ≡ slice i j xs ++ slice j k xs
slice-append-slice i j k xs h l =
    let whole : k - i ≡ (j - i) + (k - j) = omega arith in
    let e : i + (j - i) ≡ j = omega arith in
    ap (λ n. take n (drop i xs)) whole
    ∙ (take-add (j - i) (k - j) (drop i xs)
        ∙ ap (λ t. slice i j xs ++ take (k - j) t) (drop-drop (j - i) i xs ∙ ap (λ n. drop n xs) e))

module _ (base_dir : List Bytes) (body : Bytes) where
  -- What stands before the first link can be split off at any point.
  weave_skip :
      (target : ParsedLink → Bytes) (cursor next index : ℕ) (ls : List ParsedLink)
      → cursor ≤ next
      → next ≤ index
      → AreLinks base_dir body index ls
      → weave target body cursor ls ≡ slice cursor next body ++ weave target body next ls
  unfolding weave
  weave_skip target cursor next index [] h k a = sym (slice-append-drop cursor next body h)
  weave_skip target cursor next index (l ∷ ls) h k (a, _) =
      ap (λ t. t ++ (target l ++ weave target body l.target_end ls))
        (slice-append-slice cursor next l.target_start body h (omega (arith, a.after)))
      ∙ append_assoc (slice cursor next body) (slice next l.target_start body) _

  module _ (source destination : PagePath) where
    abbrev new_target : ParsedLink → Bytes
    new_target = retarget base_dir source destination

    -- A link that keeps its target adds nothing of its own.
    weave_same :
        (cursor index : ℕ) (l : ParsedLink) (ls : List ParsedLink)
        → cursor ≤ index
        → AreLinks base_dir body index (l ∷ ls)
        → (l.resolved == some source) ≡ false
        → weave new_target body cursor (l ∷ ls) ≡ weave new_target body cursor ls
    unfolding weave retarget
    weave_same cursor index l ls h (a, as') e =
        rw (e, a.target)
          (ap (λ t. slice cursor l.target_start body ++ t)
              (sym (
                weave_skip new_target l.target_start l.target_end (l.target_end + 1) ls a.ordered
                  (omega arith) as'))
            ∙ sym (
                weave_skip new_target cursor l.target_start (l.target_end + 1) ls
                  (omega (arith, a.after)) (omega (arith, a.ordered)) as'))

    weave_changed :
        (cursor : ℕ) (l : ParsedLink) (ls : List ParsedLink)
        → (l.resolved == some source) ≡ true
        → weave new_target body cursor (l ∷ ls)
          ≡ slice cursor l.target_start body
            ++ (relative_target base_dir destination ++ weave new_target body l.target_end ls)
    unfolding weave retarget
    weave_changed cursor l ls e = rw e

    rewrite_from-weave :
        (cursor index : ℕ) (ls : List ParsedLink)
        → cursor ≤ index
        → AreLinks base_dir body index ls
        → rewrite_from base_dir body source destination ls cursor
          ≡ (weave new_target body cursor ls, any_to source ls)
    unfolding rewrite_from any_to
    rewrite_from-weave cursor index [] h a = unfold weave in refl
    rewrite_from-weave cursor index (l ∷ ls) h (a, as') =
        elim (Bool-cases (l.resolved == some source)) [
          | inl e ↦
              rw (e, rewrite_from-weave l.target_end (l.target_end + 1) ls (omega arith) as')
                (ap (λ t. (t, true)) (sym (weave_changed cursor l ls e)))
          | inr e ↦
              rw
                (
                  e,
                  rewrite_from-weave cursor (l.target_end + 1) ls
                      (omega (arith, a.after, a.ordered)) as',
                )
                (ap (λ t. (t, any_to source ls)) (sym (weave_same cursor index l ls h (a, as') e)))
        ]

    weave_none :
        (cursor index : ℕ) (ls : List ParsedLink)
        → cursor ≤ index
        → AreLinks base_dir body index ls
        → any_to source ls ≡ false
        → weave new_target body cursor ls ≡ drop cursor body
    unfolding any_to
    weave_none cursor index [] h a n = unfold weave in refl
    weave_none cursor index (l ∷ ls) h (a, as') n =
        weave_same cursor index l ls h (a, as') (ground arith)
        ∙ weave_none cursor (l.target_end + 1) ls (omega (arith, a.after, a.ordered)) as'
            (ground arith)

module _ (page_path : PagePath) (body : Bytes) (source destination : PagePath) where
  -- Rewriting the links of a body gives the body with the target of every link to the source
  -- replaced by the destination as seen from the page, every other target and every byte outside
  -- the targets as it was; it reports a change exactly when a link leads to the source.
  pub rewrite_links-weave : rewrite_links page_path body source destination ≡ (
    weave (retarget (base_dir_of page_path) source destination) body 0 (parse_links page_path body),
    any_to source (parse_links page_path body),
  )
  unfolding rewrite_links
  rewrite_links-weave =
      rewrite_from-weave (base_dir_of page_path) body source destination 0 0
        (parse_links page_path body) (omega arith) (parse_links_total page_path body).1

  -- A rewrite that reports no change returns the body itself.
  pub rewrite_links_unchanged :
      (rewrite_links page_path body source destination).1 ≡ false
      → (rewrite_links page_path body source destination).0 ≡ body
  rewrite_links_unchanged h = rw rewrite_links-weave (
      weave_none (base_dir_of page_path) body source destination 0 0 (parse_links page_path body)
        (omega arith) (parse_links_total page_path body).1 (rw rewrite_links-weave at h))
