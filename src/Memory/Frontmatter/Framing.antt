-- ===== src/Memory/Frontmatter/Framing.antt =====
-- The frame of a page document: what `render_document` writes is found again by `parse_document`.
use agentspace.Common.{
  ℕ, ◌+◌, ◌≡◌, refl, sym, ap, ◌∙◌, Bool, true, false, ◌||◌, some, [], ◌∷◌, ◌++◌, append_assoc,
  arith, if◌then◌else◌, length, drop, take-length_append, drop-length_append, drop-drop, ◌==◌,
  nat_eq, list_beq, list_eq, option_eq, ok, ◌>>=◌, Bytes, starts_with, strip_prefix, contains_str,
  is_utf8,
}
use native.Mathlib.Nat.{zero-add}
use agentspace.Memory.Crates.{Crates}
use agentspace.Memory.Model.{PageMetadata}
use agentspace.Memory.Frontmatter.{
  newline, frontmatter_delimiter, marker, strip_line_end, strip_opening_delimiter, find_str,
  at_line_end, at_marker, parts, split_from, split_frontmatter, normalize_body, frame_document,
  parse_metadata, parse_document, metadata_mapping, render_document,
}

-- The end of a text that has no marker cannot be completed to one by a marker behind it.
starts_with-marker_append :
    (a : ℕ) (y t : Bytes)
    → starts_with marker (a ∷ y) ≡ false
    → starts_with marker (a ∷ (y ++ (marker ++ t))) ≡ false
unfolding starts_with
starts_with-marker_append a [] t h = ground arith
starts_with-marker_append a (b ∷ []) t h = ground arith
starts_with-marker_append a (b ∷ d ∷ []) t h = ground arith
starts_with-marker_append a (b ∷ d ∷ e ∷ y) t h = h

or_false : (a b : Bool) → (a || b) ≡ false → (a ≡ false) × (b ≡ false)
or_false true b h = cc
or_false false b h = (refl, h)

find_str-marker :
    (y t : Bytes)
    → contains_str marker y ≡ false
    → find_str marker (y ++ (marker ++ t)) ≡ some (length y)
unfolding find_str contains_str
find_str-marker [] t h = unfold starts_with in refl
find_str-marker (a ∷ y) t h =
    let (first, rest) = or_false (starts_with marker (a ∷ y)) (contains_str marker y) h in
    rw (starts_with-marker_append a y t first, find_str-marker y t rest) refl

-- The blank line before the body, which an empty body does not have.
abbrev blank_line : Bytes → Bytes
blank_line body = if body == [] then [] else newline ∷ body

at_line_end-frame :
    (y t body : Bytes)
    → at_line_end
        (y ++ t)
        (length y)
        (newline ∷ blank_line body)
        (strip_line_end (newline ∷ blank_line body))
      ≡ parts y body
unfolding at_line_end strip_line_end strip_prefix list_beq
at_line_end-frame y t [] = rw (take-length_append y t)
at_line_end-frame y t (b ∷ body) = rw (take-length_append y t)

drop-marker : (y t : Bytes) → drop (length y + 4) (y ++ (marker ++ t)) ≡ t
drop-marker y t =
    sym (drop-drop 4 (length y) (y ++ (marker ++ t)))
    ∙ ap (drop 4) (drop-length_append y (marker ++ t))

split_frontmatter-frame :
    (y body : Bytes)
    → contains_str marker y ≡ false
    → split_frontmatter (y ++ (marker ++ newline ∷ blank_line body)) ≡ some (y, body)
unfolding split_frontmatter split_from at_marker
split_frontmatter-frame y body h =
    rw
      (
        find_str-marker y (newline ∷ blank_line body) h,
        zero-add,
        drop-marker y (newline ∷ blank_line body),
        at_line_end-frame y (marker ++ newline ∷ blank_line body) body,
      )
      refl

strip_opening_delimiter-open :
    (t : Bytes) → strip_opening_delimiter (frontmatter_delimiter ++ newline ∷ t) ≡ some t
unfolding strip_opening_delimiter strip_prefix
strip_opening_delimiter-open t = refl

strip_opening_delimiter-frame_document :
    (y body : Bytes)
    → strip_opening_delimiter (frame_document (y ++ newline ∷ []) body)
      ≡ some (y ++ (marker ++ newline ∷ blank_line body))
unfolding frame_document
strip_opening_delimiter-frame_document y body =
    strip_opening_delimiter-open _
    ∙ ap some (append_assoc y (newline ∷ []) (frontmatter_delimiter ++ newline ∷ blank_line body))

-- A document in the frame that `render_document` writes, around a YAML text without a line that
-- starts with `---`, is parsed to the metadata in the YAML text and to the body as it was framed.
pub parse_document-frame_document :
    (c : Crates) (y body path_hint : Bytes)
    → contains_str marker y ≡ false
    → is_utf8 (frame_document (y ++ newline ∷ []) body) ≡ true
    → parse_document c (frame_document (y ++ newline ∷ []) body) path_hint
      ≡ (parse_metadata c y path_hint >>= λ metadata. ok (metadata, body))
unfolding parse_document
parse_document-frame_document c y body path_hint h valid =
    rw (valid, strip_opening_delimiter-frame_document y body, split_frontmatter-frame y body h) refl

-- A page that is rendered is parsed to what the YAML text of its metadata holds and to its body
-- in canonical form, if the serializer succeeds and gives UTF-8 text that ends in a line break and
-- has no line that starts with `---` behind its first.
pub parse_document-render_document :
    (c : Crates) (metadata : PageMetadata c) (y body path_hint : Bytes)
    → c.to_string (c.mapping (metadata_mapping c metadata)) ≡ ok (y ++ newline ∷ [])
    → contains_str marker y ≡ false
    → is_utf8 (frame_document (y ++ newline ∷ []) (normalize_body body)) ≡ true
    → (render_document c metadata body >>= λ document. parse_document c document path_hint)
      ≡ (parse_metadata c y path_hint >>= λ parsed. ok (parsed, normalize_body body))
unfolding render_document
parse_document-render_document c metadata y body path_hint serialized h valid =
    rw serialized (parse_document-frame_document c y (normalize_body body) path_hint h valid)
