-- ===== src/Memory/Path/RoundTrip.antt =====
-- Parsing the text of a page path, and its file name, gives the page path back.
use agentspace.Common.{
  ℕ, ◌+◌, ◌≤◌, ◌<◌, false, none, List, [], ◌∷◌, ◌++◌, ◌≡◌, ◌≢◌, refl, sym, ◌∙◌, arith, list_eq,
  nat_eq, ne→beq-false, Bytes, Lacks, ok, err, lt→ltb, length, All, starts_with, strip_suffix,
  split, join, split-join, All-append, append-nil, length-append, strip_suffix-append,
}
use agentspace.Memory.Error.{invalid_path, path_too_long}
use agentspace.Memory.Path.{
  PagePath, max_path_length, slash, markdown_extension, trimmed, parse, as_str,
}
use agentspace.Memory.Path.Valid.{IsSegment, IsValid, parse_complete, as_str-parse}

module _ (sep : ℕ) where
  pub join-ne-nil : (s : Bytes) (ss : List Bytes) → s ≢ [] → join sep (s ∷ ss) ≢ []
  unfolding join
  join-ne-nil [] ss n h = absurd (n refl)
  join-ne-nil (c ∷ s) [] n h = cc
  join-ne-nil (c ∷ s) (t ∷ ss) n h = cc

  pub join-starts_with :
      (s : Bytes) (ss : List Bytes) (rest : Bytes)
      → s ≢ []
      → Lacks sep s
      → starts_with (sep ∷ []) (join sep (s ∷ ss) ++ rest) ≡ false
  unfolding join starts_with
  join-starts_with [] ss rest n h = absurd (n refl)
  join-starts_with (c ∷ s) [] rest n (k, _) = rw (ne→beq-false sep c (λ e. k (sym e)))
  join-starts_with (c ∷ s) (t ∷ ss) rest n (k, _) = rw (ne→beq-false sep c (λ e. k (sym e)))

append-ne-nil : (s t : Bytes) → s ≢ [] → s ++ t ≢ []
append-ne-nil [] t n h = n refl
append-ne-nil (c ∷ s) t n h = cc

as_str-ne-nil : (p : PagePath) → IsValid p → as_str p ≢ []
unfolding as_str
as_str-ne-nil p v = go p.segments v.some_name v.names
  where
    go : (ss : List Bytes) → ss ≢ [] → All IsSegment ss → join slash ss ≢ []
    go [] n h = absurd (n refl)
    go (s ∷ ss) n (h, hs) = join-ne-nil slash s ss h.nonempty

as_str-relative :
    (p : PagePath) (rest : Bytes) → IsValid p → starts_with (slash ∷ []) (as_str p ++ rest) ≡ false
unfolding as_str
as_str-relative p rest v = go p.segments v.some_name v.names v.no_slash
  where
    go :
        (ss : List Bytes)
        → ss ≢ []
        → All IsSegment ss
        → All (Lacks slash) ss
        → starts_with (slash ∷ []) (join slash ss ++ rest) ≡ false
    go [] n h k = absurd (n refl)
    go (s ∷ ss) n (h, hs) (k, ks) = join-starts_with slash s ss rest h.nonempty k

module _ (p : PagePath) (v : IsValid p) where
  split-as_str : split slash (as_str p) ≡ p.segments
  unfolding as_str
  split-as_str = split-join slash p.segments v.some_name v.no_slash

  -- A text that the code trims to the text of `p` parses to `p`, if its other tests pass.
  parse-of_trimmed :
      (rest : Bytes)
      → trimmed (as_str p ++ rest) ≡ as_str p
      → Lacks b'\\' rest
      → length (as_str p ++ rest) ≤ max_path_length
      → parse (as_str p ++ rest) ≡ ok p
  parse-of_trimmed rest t plain short = parse_complete (as_str p ++ rest) p (record {
    nonempty = append-ne-nil (as_str p) rest (as_str-ne-nil p v);
    short = short;
    relative = as_str-relative p rest v;
    no_backslash = All-append (λ c. c ≢ b'\\') (as_str p) rest v.no_backslash plain;
    parts = rw (t, split-as_str);
    names = rw (t, split-as_str) v.names;
    few = rw (t, split-as_str) v.few;
  })

trimmed_suffix : (s : Bytes) → trimmed (s ++ markdown_extension) ≡ s
unfolding trimmed
trimmed_suffix s = rw (strip_suffix-append markdown_extension s)

trimmed_plain : (s : Bytes) → strip_suffix markdown_extension s ≡ none → trimmed s ≡ s
unfolding trimmed
trimmed_plain s e = rw e

-- The text of a valid page path parses to that page path, if the text does not itself end in
-- `.md`.
pub parse-as_str :
    (p : PagePath)
    → IsValid p
    → strip_suffix markdown_extension (as_str p) ≡ none
    → parse (as_str p) ≡ ok p
parse-as_str p v e = rw append-nil at (
    parse-of_trimmed p v [] (rw append-nil (trimmed_plain (as_str p) e)) tt (rw append-nil v.short))

-- The text of a valid page path with `.md` behind it, which is the name of its file below the
-- store's root, parses to that page path if it is at most 512 bytes long.
pub parse-as_str_file :
    (p : PagePath)
    → IsValid p
    → length (as_str p) + 3 ≤ max_path_length
    → parse (as_str p ++ markdown_extension) ≡ ok p
parse-as_str_file p v h =
    parse-of_trimmed p v markdown_extension (trimmed_suffix (as_str p)) (omega arith)
      (omega (arith, length-append (as_str p) markdown_extension))

pub parse-as_str_file_too_long :
    (p : PagePath)
    → IsValid p
    → max_path_length < length (as_str p) + 3
    → parse (as_str p ++ markdown_extension)
      ≡ err (invalid_path (as_str p ++ markdown_extension) path_too_long)
unfolding parse
parse-as_str_file_too_long p v h = rw (
  ne→beq-false (as_str p ++ markdown_extension) []
      (append-ne-nil (as_str p) markdown_extension (as_str-ne-nil p v)),
  lt→ltb max_path_length (length (as_str p ++ markdown_extension))
      (omega (arith, length-append (as_str p) markdown_extension)),
)

-- A text of a page path that ends in `.md` parses to a page path with another text, so the text of
-- the page path that `a.md.md` gives names another page.
pub parse-as_str_suffix :
    (p q : PagePath) (s : Bytes)
    → as_str p ≡ s ++ markdown_extension
    → parse (as_str p) ≡ ok q
    → as_str q ≡ s
parse-as_str_suffix p q s e h = as_str-parse (as_str p) q h ∙ (rw e (trimmed_suffix s))
