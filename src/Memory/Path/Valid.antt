-- ===== src/Memory/Path/Valid.antt =====
-- What `PagePath::parse` accepts, and what every page path that it returns satisfies.
use agentspace.Common.{
  ◌≤◌, ◌==◌, false, List, [], ◌∷◌, ◌++◌, ◌≡◌, ◌≢◌, ◌↔◌, refl, sym, ap, ◌∙◌, arith, list_eq, nat_eq,
  list_beq_iff, ne→beq-false, Bytes, codes, Lacks, ok, length, All, starts_with, strip_suffix,
  contains_byte, split, split-Lacks, split-ne-nil, contains_byte-false, Lacks-contains_byte,
  ltb-false→le, le→ltb-false, and_then-eq-ok, inl, inr, ltb, Option-cases, strip_suffix_sound,
  join-split, append-nil, All-append_left, length-append,
}
use agentspace.Memory.Path.{
  PagePath, max_path_segments, max_path_length, max_segment_length, slash, markdown_extension,
  has_control, check_segment, check_segments, trimmed, count_segments, parse, as_str,
}

-- One name of a page path.
pub record IsSegment (s : Bytes) : Type 0 where
  pub nonempty : s ≢ []
  pub not_dot : s ≢ codes "."
  pub not_dots : s ≢ codes ".."
  pub short : length s ≤ max_segment_length
  pub printable : has_control s ≡ false

-- The input that `parse` accepts, said without the order of its tests.
pub record Accepts (input : Bytes) (p : PagePath) : Type 0 where
  pub nonempty : input ≢ []
  pub short : length input ≤ max_path_length
  pub relative : starts_with (slash ∷ []) input ≡ false
  pub no_backslash : Lacks b'\\' input
  pub parts : p.segments ≡ split slash (trimmed input)
  pub names : All IsSegment (split slash (trimmed input))
  pub few : length (split slash (trimmed input)) ≤ max_path_segments

check_segment_sound : (input raw : Bytes) → check_segment input raw ≡ ok tt → IsSegment raw
unfolding check_segment
check_segment_sound input raw h = record {
  nonempty = ground (arith, list_beq_iff raw []);
  not_dot = ground (arith, list_beq_iff raw (codes "."));
  not_dots = ground (arith, list_beq_iff raw (codes ".."));
  short = ground arith;
  printable = ground arith;
}

check_segment_complete : (input raw : Bytes) → IsSegment raw → check_segment input raw ≡ ok tt
unfolding check_segment
check_segment_complete input raw s = rw (
  ne→beq-false raw [] s.nonempty,
  ne→beq-false raw (codes ".") s.not_dot,
  ne→beq-false raw (codes "..") s.not_dots,
  le→ltb-false max_segment_length (length raw) s.short,
  s.printable,
)

check_segments_sound :
    (input : Bytes) (raws segments : List Bytes)
    → check_segments input raws ≡ ok segments
    → (segments ≡ raws) × All IsSegment raws
unfolding check_segments
check_segments_sound input [] segments h = (cc, tt)
check_segments_sound input (raw ∷ rest) segments h =
    let (u, good, more) = and_then-eq-ok (check_segment input raw) _ h in
    let (tail, goods, last) = and_then-eq-ok (check_segments input rest) _ more in
    let (same, all) = check_segments_sound input rest tail goods in
    (cc, (check_segment_sound input raw good, all))

check_segments_complete :
    (input : Bytes) (raws : List Bytes) → All IsSegment raws → check_segments input raws ≡ ok raws
unfolding check_segments
check_segments_complete input [] h = refl
check_segments_complete input (raw ∷ rest) (s, h) =
    rw (check_segment_complete input raw s, check_segments_complete input rest h)

count_segments_sound :
    (input : Bytes) (segments : List Bytes) (p : PagePath)
    → count_segments input segments ≡ ok p
    → (p.segments ≡ segments) × (length segments ≤ max_path_segments)
unfolding count_segments
count_segments_sound input segments p h = ground arith

module _ (input : Bytes) (p : PagePath) (parsed : parse input ≡ ok p) where
  input-ne-nil : (input == []) ≡ false
  unfolding parse
  input-ne-nil = ground arith

  input-short : ltb max_path_length (length input) ≡ false
  unfolding parse
  input-short = ground arith

  input-relative : starts_with (slash ∷ []) input ≡ false
  unfolding parse
  input-relative = ground arith

  input-no_backslash : contains_byte b'\\' input ≡ false
  unfolding parse
  input-no_backslash = ground arith

  input-segments :
      (segments : List Bytes) × (check_segments input (split slash (trimmed input)) ≡ ok segments)
      × (count_segments input segments ≡ ok p)
  unfolding parse
  input-segments =
      and_then-eq-ok (check_segments input (split slash (trimmed input))) _
        (rw (input-ne-nil, input-short, input-relative, input-no_backslash) at parsed)

pub parse_sound : (input : Bytes) (p : PagePath) → parse input ≡ ok p → Accepts input p
parse_sound input p h =
    let (segments, checked, counted) = input-segments input p h in
    let (same, names) = check_segments_sound input (split slash (trimmed input)) segments checked in
    let (kept, few) = count_segments_sound input segments p counted in
    record {
      nonempty = λ e. ground (arith, list_beq_iff input [], input-ne-nil input p h);
      short = ltb-false→le _ _ (input-short input p h);
      relative = input-relative input p h;
      no_backslash = contains_byte-false b'\\' input (input-no_backslash input p h);
      parts = kept ∙ same;
      names = names;
      few = rw same at few;
    }

pub parse_complete : (input : Bytes) (p : PagePath) → Accepts input p → parse input ≡ ok p
unfolding parse
parse_complete input p a =
    rw
      (
        ne→beq-false input [] a.nonempty,
        le→ltb-false max_path_length (length input) a.short,
        a.relative,
        Lacks-contains_byte b'\\' input a.no_backslash,
        check_segments_complete input (split slash (trimmed input)) a.names,
        le→ltb-false max_path_segments (length (split slash (trimmed input))) a.few,
      )
      (ap (λ s. ok (record { segments = s })) (sym a.parts))

-- `parse` returns a page path exactly for an input that is not empty, of at most 512 bytes, that
-- does not start with `/` and holds no backslash, and whose parts between slashes, a final `.md`
-- left off, are at most 32 names, each not empty, not `.` or `..`, of at most 128 bytes and with no
-- control character; the page path has exactly those parts.
pub parse_iff : (input : Bytes) (p : PagePath) → (parse input ≡ ok p) ↔ Accepts input p
parse_iff input p = (parse_sound input p, parse_complete input p)

-- What holds of every page path in the system.
pub record IsValid (p : PagePath) : Type 0 where
  pub some_name : p.segments ≢ []
  pub names : All IsSegment p.segments
  pub no_slash : All (Lacks slash) p.segments
  pub few : length p.segments ≤ max_path_segments
  pub no_backslash : Lacks b'\\' (as_str p)
  pub short : length (as_str p) ≤ max_path_length

-- The text of a parsed path is the input with a final `.md` left off.
pub as_str-parse : (input : Bytes) (p : PagePath) → parse input ≡ ok p → as_str p ≡ trimmed input
unfolding as_str
as_str-parse input p h = rw (parse_sound input p h).parts (join-split slash (trimmed input))

-- Leaving a suffix off: what is left is a first part of the text.
trimmed_prefix : (input : Bytes) → (rest : Bytes) × (input ≡ trimmed input ++ rest)
unfolding trimmed
trimmed_prefix input = elim (Option-cases (strip_suffix markdown_extension input)) [
  | inl e ↦ ([], rw e (sym (append-nil input)))
  | inr (t, e) ↦ (markdown_extension, rw e (strip_suffix_sound markdown_extension input t e))
]

-- Every path that `parse` returns is valid: it has a name, each name is a safe file name without a
-- separator, there are at most 32 of them, and the text of the path holds no backslash and is at
-- most 512 bytes long.
pub parse-IsValid : (input : Bytes) (p : PagePath) → parse input ≡ ok p → IsValid p
parse-IsValid input p h =
    let a = parse_sound input p h in
    let (rest, whole) = trimmed_prefix input in
    record {
      some_name = rw a.parts (split-ne-nil slash (trimmed input));
      names = rw a.parts a.names;
      no_slash = rw a.parts (split-Lacks slash (trimmed input));
      few = rw a.parts a.few;
      no_backslash =
          rw (as_str-parse input p h)
            (All-append_left (λ c. c ≢ b'\\') (trimmed input) rest (rw (← whole) a.no_backslash));
      short = rw (as_str-parse input p h) (
          omega (
            arith,
            a.short,
            ap (λ (s : Bytes). length s) whole,
            length-append (trimmed input) rest,
          ));
    }
