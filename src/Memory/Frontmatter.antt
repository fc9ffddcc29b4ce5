-- ===== src/Memory/Frontmatter.antt =====
-- services/memory_rs/src/frontmatter.rs: a page document is a YAML block between two lines `---`,
-- and a Markdown body.
pub mod Framing
pub mod Fields
pub mod Keys
pub mod Metadata
pub mod Body
pub mod Loop
mod Tests
use mathlib.Core.List.{reverse}
use agentspace.Common.{
  ℕ, zero, suc, ◌+◌, ◌-◌, Option, none, some, List, [], ◌∷◌, ◌++◌, map, arith, if◌then◌else◌,
  length, take, drop, ◌==◌, nat_eq, list_eq, option_eq, Result, ok, err, ◌>>=◌, ◌>>◌, ok_or, Bytes,
  codes, starts_with, strip_prefix, shift, trim, is_utf8,
}
use agentspace.Memory.Crates.{Crates}
use agentspace.Memory.Error.{
  M, MemoryError, invalid_frontmatter, yaml, not_utf8, missing_open, missing_close, not_a_mapping,
  missing_field, not_rfc3339,
}
use agentspace.Memory.Model.{PageMetadata}

abbrev pub newline : ℕ
newline = 10

abbrev pub carriage_return : ℕ
carriage_return = 13

abbrev pub frontmatter_delimiter : Bytes
frontmatter_delimiter = codes "---"

-- The text behind a line break of either kind, if one stands at the start.
abbrev or_else {ℓ} : {A : Type ℓ} → Option A → Option A → Option A
or_else none b = b
or_else (some a) b = some a

unfoldable pub strip_line_end : Bytes → Option Bytes
strip_line_end s =
    or_else (strip_prefix (carriage_return ∷ newline ∷ []) s) (strip_prefix (newline ∷ []) s)

unfoldable pub strip_opening_delimiter : Bytes → Option Bytes
strip_opening_delimiter text =
    or_else (strip_prefix (frontmatter_delimiter ++ carriage_return ∷ newline ∷ []) text)
      (strip_prefix (frontmatter_delimiter ++ newline ∷ []) text)

-- The line break and the delimiter that the loop of `split_frontmatter` looks for.
abbrev pub marker : Bytes
marker = newline ∷ frontmatter_delimiter

-- `text.find(part)`
unfoldable pub find_str : Bytes → Bytes → Option ℕ
find_str p [] = if starts_with p [] then some 0 else none
find_str p (c ∷ s) =
    let rest = shift (find_str p s) in if starts_with p (c ∷ s) then some 0 else rest

-- What one round of the loop comes to: no further marker, a marker that is no delimiter line and
-- where to look on, or the two parts.
pub data Round : Type 0 where
  missing : Round
  again : ℕ → Round
  parts : Bytes → Bytes → Round

abbrev or_self : Option Bytes → Bytes → Bytes
or_self none s = s
or_self (some t) _ = t

unfoldable pub at_line_end : Bytes → ℕ → Bytes → Option Bytes → Round
at_line_end after_open marker_index rest none =
    if rest == [] then parts (take marker_index after_open) [] else again (marker_index + 4)
at_line_end after_open marker_index rest (some after_delimiter_line) =
    parts (take marker_index after_open)
      (or_self (strip_line_end after_delimiter_line) after_delimiter_line)

unfoldable pub at_marker : Bytes → ℕ → Option ℕ → Round
unfolding at_line_end
at_marker after_open search_start none = missing
at_marker after_open search_start (some relative) =
    let marker_index = search_start + relative in
    let rest = drop (marker_index + 4) after_open in
    at_line_end after_open marker_index rest (strip_line_end rest)

abbrev continue : (ℕ → Option (Bytes × Bytes)) → Round → Option (Bytes × Bytes)
continue look missing = none
continue look (again search_start) = look search_start
continue look (parts yaml_text body) = some (yaml_text, body)

-- The loop, on fuel. Every round goes on at least four bytes later.
unfoldable pub split_from : Bytes → ℕ → ℕ → Option (Bytes × Bytes)
unfolding at_marker
split_from after_open zero search_start = none
split_from after_open (suc fuel) search_start =
    continue (split_from after_open fuel)
      (at_marker after_open search_start (find_str marker (drop search_start after_open)))

unfoldable pub split_frontmatter : Bytes → Option (Bytes × Bytes)
unfolding split_from
split_frontmatter after_open = split_from after_open (suc (length after_open)) 0

unfoldable pub drop_newlines : Bytes → Bytes
drop_newlines [] = []
drop_newlines (b ∷ s) = let rest = drop_newlines s in if b == newline then rest else b ∷ s

-- `body.trim_end_matches('\n')`
unfoldable pub trim_end_newlines : Bytes → Bytes
trim_end_newlines s = reverse (drop_newlines (reverse s))

unfoldable pub normalize_body : Bytes → Bytes
normalize_body body =
    let trimmed = trim_end_newlines body in if trimmed == [] then [] else trimmed ++ newline ∷ []

-- The document around the YAML text that the serializer gave.
unfoldable pub frame_document : Bytes → Bytes → Bytes
frame_document yaml_text normalized_body =
    let ending = if normalized_body == [] then [] else newline ∷ normalized_body in
    frontmatter_delimiter ++ newline ∷ (yaml_text ++ (frontmatter_delimiter ++ newline ∷ ending))

module _ (c : Crates) where
  open c use {Value, Mapping, Time}

  abbrev pub u64_of : Option Value → Option ℕ
  u64_of none = none
  u64_of (some v) = c.as_u64 v

  abbrev pub string_of : Option Value → Option Bytes
  string_of none = none
  string_of (some v) = c.as_string v

  abbrev push_front : Bytes → Option (List Bytes) → Option (List Bytes)
  push_front s none = none
  push_front s (some ss) = some (s ∷ ss)

  abbrev push_string : Option Bytes → Option (List Bytes) → Option (List Bytes)
  push_string none rest = none
  push_string (some s) rest = push_front s rest

  abbrev pub all_strings : List Value → Option (List Bytes)
  all_strings [] = some []
  all_strings (v ∷ vs) = push_string (c.as_string v) (all_strings vs)

  abbrev strings_of_items : Option (List Value) → Option (List Bytes)
  strings_of_items none = none
  strings_of_items (some items) = all_strings items

  abbrev pub strings_of : Option Value → Option (List Bytes)
  strings_of none = none
  strings_of (some v) = strings_of_items (c.as_sequence v)

  unfoldable pub take_u64 : Bytes → Mapping → Option ℕ × Mapping
  take_u64 key m = let (v, rest) = c.remove (c.string key) m in (u64_of v, rest)

  unfoldable pub take_string : Bytes → Mapping → Option Bytes × Mapping
  take_string key m = let (v, rest) = c.remove (c.string key) m in (string_of v, rest)

  unfoldable pub take_string_sequence : Bytes → Mapping → Option (List Bytes) × Mapping
  take_string_sequence key m = let (v, rest) = c.remove (c.string key) m in (strings_of v, rest)

  abbrev or_empty : Result Bytes Bytes → Bytes
  or_empty (err e) = []
  or_empty (ok s) = s

  abbrev raw_of : Option Bytes → Value → Bytes
  raw_of (some raw) other = raw
  raw_of none other = trim (or_empty (c.to_string other))

  abbrev parse_time : Bytes → Bytes → Bytes → M (Option Time)
  parse_time key path_hint raw =
      let parsed = c.parse_rfc3339 raw in
      ok_or (invalid_frontmatter path_hint (not_rfc3339 key)) parsed >>= λ t. ok (some t)

  abbrev pub datetime_of : Bytes → Bytes → Option Value → M (Option Time)
  datetime_of key path_hint none = ok none
  datetime_of key path_hint (some v) = parse_time key path_hint (raw_of (c.as_string v) v)

  unfoldable pub take_datetime : Bytes → Bytes → Mapping → M (Option Time) × Mapping
  take_datetime key path_hint m =
      let (v, rest) = c.remove (c.string key) m in (datetime_of key path_hint v, rest)

  abbrev required {ℓ} : {A : Type ℓ} → Bytes → Bytes → Option A → Result MemoryError A
  required path_hint key = ok_or (invalid_frontmatter path_hint (missing_field key))

  -- `?` on a call that also changes the mapping.
  abbrev from_yaml : Result Bytes Value → M Value
  from_yaml (err e) = err (yaml e)
  from_yaml (ok v) = ok v

  unfoldable pub parse_fields : Bytes → Mapping → M (PageMetadata c)
  unfolding take_u64 take_string take_string_sequence take_datetime
  parse_fields path_hint m0 =
      let (version, m1) = take_u64 (codes "schema_version") m0 in
      let (name, m2) = take_string (codes "title") m1 in
      let (labels, m3) = take_string_sequence (codes "tags") m2 in
      let (created, m4) = take_datetime (codes "created_at") path_hint m3 in
      let (updated, m5) = take_datetime (codes "updated_at") path_hint m4 in
      let (creator, m6) = take_string (codes "created_by") m5 in
      let (updater, m7) = take_string (codes "updated_by") m6 in
      do
        schema_version ← required path_hint (codes "schema_version") version
        title ← required path_hint (codes "title") name
        tags ← required path_hint (codes "tags") labels
        created_opt ← created
        created_at ← required path_hint (codes "created_at") created_opt
        updated_opt ← updated
        updated_at ← required path_hint (codes "updated_at") updated_opt
        ok (record {
          schema_version = schema_version;
          title = title;
          tags = tags;
          created_at = created_at;
          updated_at = updated_at;
          created_by = creator;
          updated_by = updater;
          extra = m7;
        })

  unfoldable pub parse_metadata : Bytes → Bytes → M (PageMetadata c)
  unfolding parse_fields
  parse_metadata yaml_text path_hint = do
    value ← from_yaml (c.from_str yaml_text)
    m ← ok_or (invalid_frontmatter path_hint not_a_mapping) (c.as_mapping value)
    parse_fields path_hint m

  abbrev parse_text : Bytes → Bytes → M (PageMetadata c × Bytes)
  parse_text text path_hint = do
    after_open ← ok_or (invalid_frontmatter path_hint missing_open) (strip_opening_delimiter text)
    (yaml_text, body) ←
        ok_or (invalid_frontmatter path_hint missing_close) (split_frontmatter after_open)
    metadata ← parse_metadata yaml_text path_hint
    ok (metadata, body)

  unfoldable pub parse_document : Bytes → Bytes → M (PageMetadata c × Bytes)
  unfolding parse_metadata split_frontmatter strip_opening_delimiter
  parse_document bytes path_hint =
      if is_utf8 bytes
      then parse_text bytes path_hint
      else err (invalid_frontmatter path_hint not_utf8)

  abbrev insert_string : Bytes → Bytes → Mapping → Mapping
  insert_string key v = c.insert (c.string key) (c.string v)

  abbrev pub insert_optional : Bytes → Option Bytes → Mapping → Mapping
  insert_optional key none m = m
  insert_optional key (some v) m = insert_string key v m

  abbrev pub insert_entries : List (Value × Value) → Mapping → Mapping
  insert_entries [] m = m
  insert_entries ((key, v) ∷ rest) m = insert_entries rest (c.insert key v m)

  unfoldable pub metadata_mapping : PageMetadata c → Mapping
  metadata_mapping metadata =
      let m1 =
        c.insert (c.string (codes "schema_version")) (c.number metadata.schema_version) c.empty in
      let m2 = insert_string (codes "title") metadata.title m1 in
      let m3 = c.insert (c.string (codes "tags")) (c.sequence (map c.string metadata.tags)) m2 in
      let m4 = insert_string (codes "created_at") (c.to_rfc3339 metadata.created_at) m3 in
      let m5 = insert_string (codes "updated_at") (c.to_rfc3339 metadata.updated_at) m4 in
      let m6 = insert_optional (codes "created_by") metadata.created_by m5 in
      let m7 = insert_optional (codes "updated_by") metadata.updated_by m6 in
      insert_entries (c.entries metadata.extra) m7

  abbrev yaml_error : Result Bytes Bytes → M Bytes
  yaml_error (err e) = err (yaml e)
  yaml_error (ok s) = ok s

  unfoldable pub render_document : PageMetadata c → Bytes → M Bytes
  unfolding metadata_mapping normalize_body frame_document
  render_document metadata body = do
    yaml_text ← yaml_error (c.to_string (c.mapping (metadata_mapping metadata)))
    ok (frame_document yaml_text (normalize_body body))
