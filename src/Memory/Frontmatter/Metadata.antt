-- ===== src/Memory/Frontmatter/Metadata.antt =====
-- The metadata of a page, rendered and parsed.
use agentspace.Common.{
  ◌≡◌, refl, sym, ap, ◌∙◌, inl, inr, true, false, Option, none, some, List, [], ◌∷◌, ◌++◌, map,
  take, All, nat_eq, list_beq, list_eq, option_eq, contains, ok, ◌>>=◌, Bytes, codes, contains_str,
  is_utf8,
}
use agentspace.Memory.Crates.{Crates}
use agentspace.Memory.Model.{PageMetadata}
use agentspace.Memory.Frontmatter.{
  take_u64, take_string, take_string_sequence, take_datetime, parse_fields, parse_metadata,
  parse_document, render_document, normalize_body, frame_document, marker, newline,
  metadata_mapping, string_of,
}
use agentspace.Memory.Frontmatter.Fields.{or_get, MappingLaws, get-insert_entries}
use agentspace.Memory.Frontmatter.Keys.{
  Field, set, set_text, apply, text, look, dropped, get-apply, get-dropped_other, get-dropped,
  get-apply_other, all_differ, all_strings-map,
}
use agentspace.Memory.Frontmatter.Framing.{parse_document-render_document}

abbrev pub reserved : List Bytes
reserved =
    codes "schema_version"
    ∷ codes "title"
    ∷ codes "tags"
    ∷ codes "created_at"
    ∷ codes "updated_at"
    ∷ codes "created_by"
    ∷ codes "updated_by"
    ∷ []

module _ (c : Crates) (laws : MappingLaws c) (metadata : PageMetadata c) where
  abbrev fields : List (Field c)
  fields =
      set (codes "schema_version") (c.number metadata.schema_version)
      ∷ set (codes "title") (c.string metadata.title)
      ∷ set (codes "tags") (c.sequence (map c.string metadata.tags))
      ∷ set (codes "created_at") (c.string (c.to_rfc3339 metadata.created_at))
      ∷ set (codes "updated_at") (c.string (c.to_rfc3339 metadata.updated_at))
      ∷ set_text (codes "created_by") metadata.created_by
      ∷ set_text (codes "updated_by") metadata.updated_by
      ∷ []

  get-metadata_mapping :
      (k : c.Value)
      → laws.get k (metadata_mapping c metadata)
        ≡ or_get (laws.get k metadata.extra) (laws.get k (apply c fields c.empty))
  unfolding metadata_mapping
  get-metadata_mapping k = get-insert_entries c laws metadata.extra (apply c fields c.empty) k

  -- A key that the other fields do not have.
  abbrev IsFree : Bytes → Type 0
  IsFree j = laws.get (c.string j) metadata.extra ≡ none

  taken :
      (j : Bytes) (keys : List Bytes)
      → IsFree j
      → contains keys j ≡ false
      → (c.remove (c.string j) (dropped c keys (metadata_mapping c metadata))).0
        ≡ look c j fields none
  taken j keys free new =
      laws.remove_value (c.string j) _
      ∙ (get-dropped_other c laws (c.string j) keys (metadata_mapping c metadata)
            (all_differ c laws j keys new)
          ∙ (get-metadata_mapping (c.string j)
              ∙ (ap (λ o. or_get o (laws.get (c.string j) (apply c fields c.empty))) free
                  ∙ (get-apply c laws j fields c.empty
                      ∙ ap (look c j fields) (laws.get_empty (c.string j))))))

  string_of-text : (v : Option Bytes) → string_of c (or_get (text c v) none) ≡ v
  string_of-text none = refl
  string_of-text (some s) = laws.as_string_string s

  parse_fields-metadata_mapping :
      (path_hint : Bytes)
      → All IsFree reserved
      → parse_fields c path_hint (metadata_mapping c metadata)
        ≡ ok (record metadata { extra = dropped c reserved (metadata_mapping c metadata) })
  unfolding parse_fields take_u64 take_string take_string_sequence take_datetime look contains
      list_beq
  parse_fields-metadata_mapping path_hint (f1, (f2, (f3, (f4, (f5, (f6, (f7, _))))))) =
      rw
        (
          taken (codes "schema_version") [] f1 refl,
          taken (codes "title") (codes "schema_version" ∷ []) f2 refl,
          taken (codes "tags") (codes "schema_version" ∷ codes "title" ∷ []) f3 refl,
          taken (codes "created_at") (take 3 reserved) f4 refl,
          taken (codes "updated_at") (take 4 reserved) f5 refl,
          taken (codes "created_by") (take 5 reserved) f6 refl,
          taken (codes "updated_by") (take 6 reserved) f7 refl,
          laws.as_u64_number metadata.schema_version,
          laws.as_string_string metadata.title,
          laws.as_sequence_sequence (map c.string metadata.tags),
          all_strings-map c laws metadata.tags,
          laws.as_string_string (c.to_rfc3339 metadata.created_at),
          laws.as_string_string (c.to_rfc3339 metadata.updated_at),
          laws.parse_to_rfc3339 metadata.created_at,
          laws.parse_to_rfc3339 metadata.updated_at,
          string_of-text metadata.created_by,
          string_of-text metadata.updated_by,
        )
        refl

  -- What is left behind the fields is what the metadata had beside them.
  get-extra :
      (k : c.Value)
      → All IsFree reserved
      → laws.get k (dropped c reserved (metadata_mapping c metadata)) ≡ laws.get k metadata.extra
  get-extra k free =
      elim (get-dropped c laws metadata.extra k reserved (metadata_mapping c metadata) free) [
        | inl differ ↦
            get-dropped_other c laws k reserved (metadata_mapping c metadata) differ
            ∙ (get-metadata_mapping k
                ∙ (ap (or_get (laws.get k metadata.extra))
                      (get-apply_other c laws k fields c.empty differ ∙ laws.get_empty k)
                    ∙ or_get-none (laws.get k metadata.extra)))
        | inr (gone, absent) ↦ gone ∙ sym absent
      ]
    where
      or_get-none : (o : Option c.Value) → or_get o none ≡ o
      or_get-none none = refl
      or_get-none (some v) = refl

  parse_metadata-text :
      (y path_hint : Bytes)
      → c.from_str y ≡ ok (c.mapping (metadata_mapping c metadata))
      → parse_metadata c y path_hint ≡ parse_fields c path_hint (metadata_mapping c metadata)
  unfolding parse_metadata
  parse_metadata-text y path_hint read =
      rw (read, laws.as_mapping_mapping (metadata_mapping c metadata)) refl

  -- The mapping of a page's metadata gives the metadata back, with further fields that are found
  -- under the same keys, if no further field has the name of one of the seven and the mapping is a
  -- map by its keys.
  pub parse_fields-metadata_mapping_lem :
      (path_hint : Bytes)
      → All (λ j. laws.get (c.string j) metadata.extra ≡ none) reserved
      → (extra : c.Mapping) × (parse_fields c path_hint (metadata_mapping c metadata)
          ≡ ok (record metadata { extra = extra }))
        × ((k : c.Value) → laws.get k extra ≡ laws.get k metadata.extra)
  parse_fields-metadata_mapping_lem path_hint free = (
    dropped c reserved (metadata_mapping c metadata),
    parse_fields-metadata_mapping path_hint free,
    λ k. get-extra k free,
  )

  -- A page that is rendered is parsed to its metadata, with further fields that are found under the
  -- same keys, and to its body in canonical form. The YAML text is what the serializer gives and
  -- reads back, UTF-8, ends in a line break and has no line that starts with `---` behind its first;
  -- no further field has the name of one of the seven, and the mapping is a map by its keys.
  pub parse_document-render_document_page :
      (y body path_hint : Bytes)
      → c.to_string (c.mapping (metadata_mapping c metadata)) ≡ ok (y ++ newline ∷ [])
      → c.from_str y ≡ ok (c.mapping (metadata_mapping c metadata))
      → contains_str marker y ≡ false
      → is_utf8 (frame_document (y ++ newline ∷ []) (normalize_body body)) ≡ true
      → All (λ j. laws.get (c.string j) metadata.extra ≡ none) reserved
      → (extra : c.Mapping) × ((render_document c metadata body >>= λ document.
            parse_document c document path_hint)
          ≡ ok (record metadata { extra = extra }, normalize_body body))
        × ((k : c.Value) → laws.get k extra ≡ laws.get k metadata.extra)
  parse_document-render_document_page y body path_hint serialized read plain valid free =
      let (extra, fields_back, same) = parse_fields-metadata_mapping_lem path_hint free in
      (
        extra,
        parse_document-render_document c metadata y body path_hint serialized plain valid
            ∙ ap (λ r. r >>= λ parsed. ok (parsed, normalize_body body))
                (parse_metadata-text y path_hint read ∙ fields_back),
        same,
      )
