-- ===== src/Memory/Service.antt =====
-- services/memory_rs/src/service.rs: validation, tags, and the metadata of a write. The child
-- modules hold the operations.
pub mod Pages
pub mod Steps
pub mod Write
pub mod Remove
pub mod Referrers
pub mod Move
pub mod Tags
pub mod Query
pub mod Report
pub mod Check
mod Tests
use agentspace.Common.{sort, dedup}
use agentspace.Common.{
  ℕ, zero, suc, ◌*◌, Bool, true, false, not, Option, none, some, List, [], ◌∷◌, map, arith, ltb,
  length, ◌==◌, nat_eq, list_eq, option_eq, ok, err, ◌>>=◌, ◌>>◌, ok_or, Bytes, codes, trim,
}
use agentspace.Memory.Crates.{Crates}
use agentspace.Memory.Error.{
  M, MemoryError, invalid_path, not_found, already_exists, conflict, too_large, title_empty,
  tag_empty, title_required,
}
use agentspace.Memory.Path.{PagePath, as_str, path_eq}
use agentspace.Memory.Model.{PageMetadata, WritePageRequest, schema_version_now}
use agentspace.Memory.Frontmatter.{parse_document}

abbrev pub max_title_length : ℕ
max_title_length = 256

abbrev pub max_tag_length : ℕ
max_tag_length = 64

abbrev pub max_tags : ℕ
max_tags = 64

abbrev pub max_body_bytes : ℕ
max_body_bytes = 1024 * 1024

-- `if failed { return Err(e) }`
abbrev pub fail_if : Bool → MemoryError → M (Unit {0})
fail_if true e = err e
fail_if false e = ok tt

unfoldable pub validate_title : Bytes → M (Unit {0})
validate_title title =
    fail_if (title == []) (invalid_path (codes "title") title_empty)
    >> fail_if (ltb max_title_length (length title)) (too_large "title" max_title_length)

abbrev validate_tag : Bytes → M (Unit {0})
validate_tag tag =
    fail_if (trim tag == []) (invalid_path (codes "tag") tag_empty)
    >> fail_if (ltb max_tag_length (length tag)) (too_large "tag" max_tag_length)

abbrev validate_each : List Bytes → M (Unit {0})
validate_each [] = ok tt
validate_each (tag ∷ tags) = validate_tag tag >> validate_each tags

unfoldable pub validate_tags : List Bytes → M (Unit {0})
validate_tags tags =
    fail_if (ltb max_tags (length tags)) (too_large "tags" max_tags) >> validate_each tags

unfoldable pub validate_body : Bytes → M (Unit {0})
validate_body body =
    fail_if (ltb max_body_bytes (length body)) (too_large "page body" max_body_bytes)

abbrev pub if_given : (Bytes → M (Unit {0})) → Option Bytes → M (Unit {0})
if_given check none = ok tt
if_given check (some x) = check x

abbrev pub if_tags : Option (List Bytes) → M (Unit {0})
if_tags none = ok tt
if_tags (some tags) = validate_tags tags

abbrev pub or_default {ℓ} : {A : Type ℓ} → A → Option A → A
or_default a none = a
or_default a (some b) = b

-- `a.or(b)`
abbrev pub or_option {ℓ} : {A : Type ℓ} → Option A → Option A → Option A
or_option none b = b
or_option (some a) b = some a

module _ (c : Crates) where
  unfoldable pub normalize_tag : Bytes → Bytes
  normalize_tag tag = c.to_lowercase (trim tag)

  unfoldable pub normalize_tags : List Bytes → List Bytes
  unfolding normalize_tag sort dedup
  normalize_tags tags = dedup (sort (map normalize_tag tags))

  abbrev pub Stored : Type 0
  Stored = Option (Bytes × Bytes)

  -- A page that is not there is no failure.
  unfoldable pub optional : M (Bytes × Bytes) → M Stored
  optional (ok found) = ok (some found)
  optional (err (not_found _)) = ok none
  optional (err e) = err e

  unfoldable pub check_revision : PagePath → Option Bytes → Bytes → M (Unit {0})
  check_revision path none actual = ok tt
  check_revision path (some expected) actual =
      fail_if (not (expected == actual)) (conflict (as_str path) (some expected) actual)

  -- May the page be written over what is stored?
  unfoldable pub check_write : PagePath → Bool → Option Bytes → Stored → M (Unit {0})
  unfolding check_revision
  check_write path overwrite (some expected) (some (_, actual)) =
      check_revision path (some expected) actual
  check_write path overwrite (some expected) none = err (not_found (as_str path))
  check_write path overwrite none (some _) = fail_if (not overwrite) (already_exists (as_str path))
  check_write path overwrite none none = ok tt

  abbrev update_metadata : WritePageRequest → c.Time → PageMetadata c → PageMetadata c
  update_metadata request now previous = record previous {
    title = or_default previous.title request.title;
    tags = or_default previous.tags (retag request.tags);
    updated_at = now;
    updated_by = or_option request.actor previous.updated_by;
  }
    where
      retag : Option (List Bytes) → Option (List Bytes)
      retag none = none
      retag (some tags) = some (normalize_tags tags)

  abbrev create_metadata : WritePageRequest → c.Time → Bytes → PageMetadata c
  create_metadata request now title = record {
    schema_version = schema_version_now;
    title = title;
    tags = normalize_tags (or_default [] request.tags);
    created_at = now;
    updated_at = now;
    created_by = request.actor;
    updated_by = request.actor;
    extra = c.empty;
  }

  unfoldable pub next_metadata : WritePageRequest → c.Time → Stored → M (PageMetadata c)
  unfolding normalize_tags
  next_metadata request now (some (bytes, _)) = do
    (previous, _) ← parse_document c bytes (as_str request.path)
    ok (update_metadata request now previous)
  next_metadata request now none = do
    title ← ok_or (invalid_path (as_str request.path) title_required) request.title
    ok (create_metadata request now title)

-- A plan that is carried out by one change of the store, unless it fails.
abbrev pub carry_out {ℓ} : {S : Type ℓ} {A B : Type 0} → M A → (A → S → M B × S) → S → M B × S
carry_out (err e) change s = (err e, s)
carry_out (ok a) change s = change a s

abbrev pub answer {ℓ} : {S : Type ℓ} {A B : Type 0} → (A → B) → M A × S → M B × S
answer f (err e, s) = (err e, s)
answer f (ok a, s) = (ok (f a), s)
