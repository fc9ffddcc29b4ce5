-- ===== src/Memory/Frontmatter/Tests.antt =====
-- Documents at concrete texts.
use agentspace.Common.{
  look_up, delete, suc, ◌+◌, ◌≡◌, refl, none, some, [], ◌∷◌, ◌++◌, length, nat_eq, list_beq,
  list_eq, option_eq, ok, ◌>>=◌, Bytes, codes, starts_with, strip_prefix, contains_str, is_utf8,
}
use agentspace.Memory.Crates.{Crates}
use agentspace.Memory.Sample.{Value, Entries, crates, crates_reading, yaml_line, value_beq, text}
use agentspace.Memory.Sample.Mapping.{crates_laws}
use agentspace.Memory.Frontmatter.Fields.{MappingLaws}
use agentspace.Memory.Frontmatter.Metadata.{parse_document-render_document_page}
use agentspace.Memory.Model.{PageMetadata}
use agentspace.Memory.Frontmatter.{
  newline, normalize_body, trim_end_newlines, drop_newlines, frame_document, split_from,
  split_frontmatter, strip_line_end, find_str, parse_metadata, parse_document, render_document,
  metadata_mapping,
}
use agentspace.Memory.Frontmatter.Framing.{
  parse_document-frame_document, parse_document-render_document,
}
use agentspace.Memory.Frontmatter.Body.{normalize_body_idem}
use agentspace.Memory.Frontmatter.Loop.{split_frontmatter_total}

abbrev hello : Bytes
hello = codes "Hello" ++ newline ∷ []

normalize-hello : normalize_body (hello ++ newline ∷ newline ∷ []) ≡ hello
unfolding normalize_body trim_end_newlines drop_newlines list_beq
normalize-hello = refl

-- A line that only starts with the delimiter ends nothing.
split_past_dashes :
    split_frontmatter (codes "a: b" ++ newline ∷ codes "---x" ++ newline ∷ codes "---")
    ≡ some (codes "a: b" ++ newline ∷ codes "---x", [])
unfolding split_frontmatter find_str starts_with strip_line_end strip_prefix list_beq
split_past_dashes = refl

abbrev page_text : Bytes
page_text = codes "a: b" ++ newline ∷ codes "---" ++ newline ∷ codes "Hello"

split_frontmatter_total_example :
    split_from page_text (suc (length page_text) + 3) 0 ≡ split_frontmatter page_text
split_frontmatter_total_example = split_frontmatter_total page_text 3

normalize_body_idem_example :
    normalize_body (normalize_body (codes "Hello")) ≡ normalize_body (codes "Hello")
normalize_body_idem_example = normalize_body_idem (codes "Hello")

parse_document-frame_document_example :
    parse_document crates (frame_document (yaml_line ++ newline ∷ []) hello) (codes "alice")
    ≡ (parse_metadata crates yaml_line (codes "alice") >>= λ metadata. ok (metadata, hello))
unfolding contains_str starts_with is_utf8 frame_document list_beq
parse_document-frame_document_example =
    parse_document-frame_document crates yaml_line hello (codes "alice") refl refl

abbrev metadata : PageMetadata crates
metadata = record {
  schema_version = 1;
  title = codes "Alice";
  tags = codes "person" ∷ [];
  created_at = codes "t0";
  updated_at = codes "t0";
  created_by = none;
  updated_by = none;
  extra = crates.empty;
}

parse_document-render_document_example :
    (render_document crates metadata (codes "Hello") >>= λ document.
    parse_document crates document (codes "alice"))
    ≡ (parse_metadata crates yaml_line (codes "alice") >>= λ parsed.
        ok (parsed, normalize_body (codes "Hello")))
unfolding contains_str starts_with is_utf8 frame_document list_beq normalize_body trim_end_newlines
    drop_newlines
parse_document-render_document_example =
    parse_document-render_document crates metadata yaml_line (codes "Hello") (codes "alice") refl
      refl refl

-- The same page with a further field, and a reader that gives back what was rendered.
abbrev noted : Bytes
noted = codes "source"

abbrev with_extra : (parsed : Entries) → PageMetadata (crates_reading parsed)
with_extra parsed = record {
  schema_version = 1;
  title = codes "Alice";
  tags = codes "person" ∷ [];
  created_at = codes "t0";
  updated_at = codes "t1";
  created_by = some (codes "one");
  updated_by = none;
  extra = (text noted, text (codes "import")) ∷ [];
}

abbrev rendered_fields : Entries
rendered_fields = metadata_mapping (crates_reading []) (with_extra [])

abbrev reading : Crates
reading = crates_reading rendered_fields

abbrev reading_laws : MappingLaws reading
reading_laws = crates_laws rendered_fields

abbrev kept : PageMetadata reading
kept = with_extra rendered_fields

parse_document-render_document_page_example :
    (extra : Entries) × ((render_document reading kept (codes "Hello") >>= λ document.
    parse_document reading document (codes "alice"))
      ≡ ok (record kept { extra = extra }, normalize_body (codes "Hello")))
    × ((k : Value) → reading_laws.get k extra ≡ reading_laws.get k kept.extra)
unfolding contains_str starts_with is_utf8 frame_document list_beq normalize_body trim_end_newlines
    drop_newlines metadata_mapping look_up delete value_beq
parse_document-render_document_page_example =
    parse_document-render_document_page reading reading_laws kept yaml_line (codes "Hello")
      (codes "alice") refl refl refl refl (refl, (refl, (refl, (refl, (refl, (refl, (refl, tt)))))))
