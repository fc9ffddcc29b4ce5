-- ===== src/Memory/Service/Report/Counts.antt =====
-- `list_tags` counts each tag on every page that parses.
use agentspace.Common.{bytes_ltb, bytes_ltb_total}
use agentspace.Common.{
  ℕ, suc, ◌+◌, ◌≡◌, refl, sym, ap, ◌∙◌, inl, inr, Bool, true, false, List, [], ◌∷◌, ◌++◌, arith,
  Bool-cases, ◌==◌, nat_eq, list_beq_iff, list_eq, option_eq, ne→beq-false, ok, ◌>>=◌,
  and_then-eq-ok, ok-injective, Bytes,
}
use mathlib.Core.Path.{subst}
use mathlib.Core.Bool.{true≢false}
use agentspace.Memory.Crates.{Crates}
use agentspace.Memory.Error.{M}
use agentspace.Memory.Path.{PagePath, as_str}
use agentspace.Memory.Model.{TagCount}
use agentspace.Memory.Frontmatter.{parse_document}
use agentspace.Memory.Store.{MemoryStore}
use agentspace.Memory.Service.Report.{count_tag, count_tags, count_pages, list_tags, tags_of}

abbrev pub one_if : Bool → ℕ
one_if true = 1
one_if false = 0

abbrev count_if : Bool → ℕ → ℕ
count_if true n = n
count_if false n = 0

-- How often a tag stands in a list of tags, and in a list of counts.
abbrev pub occurrences : Bytes → List Bytes → ℕ
occurrences t [] = 0
occurrences t (tag ∷ tags) = one_if (tag == t) + occurrences t tags

abbrev pub count_of : Bytes → List TagCount → ℕ
count_of t [] = 0
count_of t (entry ∷ rest) = count_if (entry.tag == t) entry.count + count_of t rest

abbrev pub IsOrdered : List TagCount → Type 0
IsOrdered [] = Unit
IsOrdered (e ∷ []) = Unit
IsOrdered (e ∷ f ∷ rest) = (bytes_ltb e.tag f.tag ≡ true) × IsOrdered (f ∷ rest)

count_if_one : (b : Bool) → count_if b 1 ≡ one_if b
count_if_one true = refl
count_if_one false = refl

count_if-suc : (b : Bool) (n : ℕ) → count_if b (suc n) ≡ one_if b + count_if b n
count_if-suc true n = omega arith
count_if-suc false n = omega arith

count_of-count_tag :
    (t tag : Bytes) (counts : List TagCount)
    → count_of t (count_tag tag counts) ≡ one_if (tag == t) + count_of t counts
unfolding count_tag
count_of-count_tag t tag [] = ap (λ n. n + 0) (count_if_one (tag == t))
count_of-count_tag t tag (entry ∷ rest) = elim (Bool-cases (tag == entry.tag)) [
  | inl e ↦
      rw (e, count_if-suc (entry.tag == t) entry.count, (list_beq_iff tag entry.tag).0 e)
        (omega arith)
  | inr e ↦ elim (Bool-cases (bytes_ltb tag entry.tag)) [
    | inl k ↦ rw (e, k, count_if_one (tag == t)) refl
    | inr k ↦ rw (e, k, count_of-count_tag t tag rest) (omega arith)
  ]
]

count_tag-IsOrdered_behind :
    (tag : Bytes) (e : TagCount) (rest : List TagCount)
    → bytes_ltb e.tag tag ≡ true
    → IsOrdered (e ∷ rest)
    → IsOrdered (count_tag tag rest)
    → IsOrdered (e ∷ count_tag tag rest)
unfolding count_tag
count_tag-IsOrdered_behind tag e [] h ordered k = (h, tt)
count_tag-IsOrdered_behind tag e (f ∷ rest) h (first, ordered) k =
    elim (Bool-cases (tag == f.tag)) [
      | inl q ↦ rw q (first, rw q at k)
      | inr q ↦ elim (Bool-cases (bytes_ltb tag f.tag)) [
        | inl l ↦ rw (q, l) (h, rw (q, l) at k)
        | inr l ↦ rw (q, l) (first, rw (q, l) at k)
      ]
    ]

count_tag-IsOrdered :
    (tag : Bytes) (counts : List TagCount) → IsOrdered counts → IsOrdered (count_tag tag counts)
unfolding count_tag
count_tag-IsOrdered tag [] h = tt
count_tag-IsOrdered tag (entry ∷ rest) h = elim (Bool-cases (tag == entry.tag)) [
  | inl e ↦ rw e (recount rest h)
  | inr e ↦ elim (Bool-cases (bytes_ltb tag entry.tag)) [
    | inl k ↦ rw (e, k) (k, h)
    | inr k ↦
        let above : bytes_ltb entry.tag tag ≡ true = bytes_ltb_total tag entry.tag k (
          ne→beq-false entry.tag tag
            (λ q. true≢false (sym ((list_beq_iff tag entry.tag).1 (sym q)) ∙ e))) in
        rw (e, k)
          (count_tag-IsOrdered_behind tag entry rest above h
            (count_tag-IsOrdered tag rest (tail rest h)))
  ]
]
  where
    recount :
        (rest : List TagCount)
        → IsOrdered (entry ∷ rest)
        → IsOrdered (record entry { count = suc entry.count } ∷ rest)
    recount [] k = tt
    recount (f ∷ rest) k = k

    tail : (rest : List TagCount) → IsOrdered (entry ∷ rest) → IsOrdered rest
    tail [] k = tt
    tail (f ∷ rest) k = k.1

count_tags_lem :
    (t : Bytes) (tags : List Bytes) (counts : List TagCount)
    → IsOrdered counts
    → IsOrdered (count_tags tags counts)
      × (count_of t (count_tags tags counts) ≡ occurrences t tags + count_of t counts)
unfolding count_tags
count_tags_lem t [] counts h = (h, omega arith)
count_tags_lem t (tag ∷ tags) counts h =
    let (ordered, total) =
      count_tags_lem t tags (count_tag tag counts) (count_tag-IsOrdered tag counts h) in
    (ordered, omega (arith, total, count_of-count_tag t tag counts))

occurrences-append :
    (t : Bytes) (xs ys : List Bytes)
    → occurrences t (xs ++ ys) ≡ occurrences t xs + occurrences t ys
occurrences-append t [] ys = omega arith
occurrences-append t (x ∷ xs) ys = omega (arith, occurrences-append t xs ys)

module _ (c : Crates) (store : MemoryStore) where
  -- All tags of all pages that parse, page after page.
  unfoldable pub all_tags : store.State → List PagePath → M (List Bytes)
  all_tags s [] = ok []
  all_tags s (path ∷ paths) = do
    (bytes, _) ← store.read_bytes path s
    rest ← all_tags s paths
    ok (tags_of c (parse_document c bytes (as_str path)) ++ rest)

  IsCount : List TagCount → List TagCount → List Bytes → Type 0
  IsCount before counts tags =
      IsOrdered counts × ((t : Bytes) → count_of t counts ≡ occurrences t tags + count_of t before)

  count_pages-all_tags :
      (s : store.State) (paths : List PagePath) (before counts : List TagCount)
      → IsOrdered before
      → count_pages c store s paths before ≡ ok counts
      → (tags : List Bytes) × (all_tags s paths ≡ ok tags) × IsCount before counts tags
  unfolding count_pages all_tags IsCount
  count_pages-all_tags s [] before counts ordered h =
      let same = ok-injective _ _ h in
      (
        [],
        refl,
        (
          subst IsOrdered same ordered,
          λ t. ap (count_of t) (sym same) ∙ from_zero (count_of t before),
        ),
      )
    where
      from_zero : (n : ℕ) → n ≡ 0 + n
      from_zero n = omega arith
  count_pages-all_tags s (path ∷ paths) before counts ordered h =
      let ((bytes, revision), read, after_read) = and_then-eq-ok (store.read_bytes path s) _ h in
      let here = tags_of c (parse_document c bytes (as_str path)) in
      let (tags, rest, (ordered', totals)) =
        count_pages-all_tags s paths (count_tags here before) counts
          (count_tags_lem [] here before ordered).0 after_read in
      (
        here ++ tags,
        rw (read, rest) refl,
        (
          ordered',
          λ t. omega (
            arith,
            totals t,
            (count_tags_lem t here before ordered).1,
            occurrences-append t here tags,
          ),
        ),
      )

  pub list_tags-all_tags :
      (s : store.State) (counts : List TagCount)
      → list_tags c store s ≡ ok counts
      → (pages : List PagePath) × (tags : List Bytes) × (store.list_pages s ≡ ok pages)
        × (all_tags s pages ≡ ok tags)
        × IsOrdered counts
        × ((t : Bytes) → count_of t counts ≡ occurrences t tags)
  unfolding list_tags IsCount
  list_tags-all_tags s counts h =
      let (pages, listed, after_list) = and_then-eq-ok (store.list_pages s) _ h in
      let (tags, all, (ordered, totals)) = count_pages-all_tags s pages [] counts tt after_list in
      (pages, tags, listed, all, ordered, λ t. omega (arith, totals t))
