-- ===== src/Memory/Service/Pages.antt =====
-- services/memory_rs/src/service.rs: the operations on one page, which plan while they hold the
-- lock and then make one change of the store.
use agentspace.Common.{
  Bool, true, false, List, [], ◌∷◌, ltb, if◌then◌else◌, length, ◌==◌, nat_eq, list_eq, option_eq,
  ok, err, ◌>>=◌, ◌>>◌, Bytes,
}
use agentspace.Memory.Crates.{Crates}
use agentspace.Memory.Error.{M, invalid_path, already_exists, too_large, same_destination}
use agentspace.Memory.Path.{PagePath, as_str, path_eq}
use agentspace.Memory.Links.{rewrite_links}
use agentspace.Memory.Model.{
  PageMetadata, Page, WritePageRequest, MovePageRequest, MoveOutcome, RemovePageRequest,
}
use agentspace.Memory.Frontmatter.{parse_document, render_document, normalize_body}
use agentspace.Memory.Store.{MemoryStore}
use agentspace.Memory.Service.{
  max_body_bytes, fail_if, validate_title, validate_body, if_given, if_tags, check_revision,
  check_write, next_metadata, optional, Stored, carry_out, answer,
}

module _ (c : Crates) (store : MemoryStore) where
  unfoldable pub read_optional : PagePath → store.State → M (Stored c)
  unfolding optional
  read_optional path s = optional c (store.read_bytes path s)

  unfoldable pub validate_write : WritePageRequest → M (Unit {0})
  unfolding validate_body validate_title
  validate_write request =
      validate_body request.body >> if_given validate_title request.title >> if_tags request.tags

  -- What `write_page` decides under the lock before it changes the store.
  unfoldable pub plan_write : WritePageRequest → c.Time → store.State → M (PageMetadata c × Bytes)
  unfolding read_optional check_write next_metadata
  plan_write request now s = do
    existing ← read_optional request.path s
    _ ← check_write c request.path request.overwrite request.expected_revision existing
    metadata ← next_metadata c request now existing
    bytes ← render_document c metadata request.body
    _ ← fail_if (ltb max_body_bytes (length bytes)) (too_large "page document" max_body_bytes)
    ok (metadata, bytes)

  abbrev pub written : WritePageRequest → PageMetadata c → Bytes → Page c
  written request metadata revision = record {
    path = request.path;
    metadata = metadata;
    body = normalize_body request.body;
    revision = revision;
  }

  -- The change that a planned write makes.
  abbrev pub install :
      WritePageRequest → PageMetadata c × Bytes → store.State → M (Page c) × store.State
  install request (metadata, bytes) t =
      answer (written request metadata) (store.write_bytes request.path bytes t)

  unfoldable pub write_page : WritePageRequest → c.Time → store.State → M (Page c) × store.State
  unfolding validate_write plan_write
  write_page request now s =
      carry_out (validate_write request >> store.lock s >> plan_write request now s)
        (install request) s

  unfoldable pub read_page : PagePath → store.State → M (Page c)
  read_page path s = do
    (bytes, revision) ← store.read_bytes path s
    (metadata, body) ← parse_document c bytes (as_str path)
    ok (record { path = path; metadata = metadata; body = body; revision = revision })

  unfoldable pub plan_remove : RemovePageRequest → store.State → M (Unit {0})
  unfolding check_revision
  plan_remove request s = do
    (_, revision) ← store.read_bytes request.path s
    check_revision c request.path request.expected_revision revision

  abbrev pub erase : RemovePageRequest → Unit {0} → store.State → M (Unit {0}) × store.State
  erase request _ t = store.remove_file request.path t

  unfoldable pub remove_page : RemovePageRequest → store.State → M (Unit {0}) × store.State
  unfolding plan_remove
  remove_page request s = carry_out (store.lock s >> plan_remove request s) (erase request) s

  abbrev pub Replacements : Type 0
  Replacements = List (PagePath × Bytes)

  abbrev pub add_if_changed :
      PagePath → PageMetadata c → Bytes × Bool → M Replacements → M Replacements
  add_if_changed path metadata (new_body, false) rest = rest
  add_if_changed path metadata (new_body, true) rest = do
    new_bytes ← render_document c metadata new_body
    replacements ← rest
    ok ((path, new_bytes) ∷ replacements)

  -- A page whose document does not parse is passed over.
  unfoldable pub rewrite_page :
      MovePageRequest → PagePath → M (PageMetadata c × Bytes) → M Replacements → M Replacements
  rewrite_page request path (err e) rest = rest
  rewrite_page request path (ok (metadata, body)) rest =
      add_if_changed path metadata (rewrite_links path body request.source request.destination) rest

  abbrev pub read_and_rewrite :
      MovePageRequest → store.State → PagePath → M Replacements → M Replacements
  read_and_rewrite request s path rest = do
    (bytes, _) ← store.read_bytes path s
    rewrite_page request path (parse_document c bytes (as_str path)) rest

  -- The loop of `move_page` over the pages.
  unfoldable pub replacements_of : MovePageRequest → store.State → List PagePath → M Replacements
  unfolding rewrite_page
  replacements_of request s [] = ok []
  replacements_of request s (path ∷ paths) =
      let rest = replacements_of request s paths in
      if path == request.source then rest else read_and_rewrite request s path rest

  abbrev pub check_destination : MovePageRequest → Bool → M (Unit {0})
  check_destination request taken = fail_if taken (already_exists (as_str request.destination))

  -- What `move_page` decides under the lock: the revision, the source's bytes, the replacements.
  unfoldable pub plan_move : MovePageRequest → store.State → M (Bytes × (Bytes × Replacements))
  unfolding check_revision replacements_of
  plan_move request s = do
    (_, revision) ← store.read_bytes request.source s
    _ ← check_revision c request.source request.expected_revision revision
    taken ← store.exists request.destination s
    _ ← check_destination request taken
    pages ← store.list_pages s
    replacements ← replacements_of request s pages
    (source_bytes, _) ← store.read_bytes request.source s
    ok (revision, (source_bytes, replacements))

  abbrev pub names : Replacements → List Bytes
  names [] = []
  names ((path, _) ∷ rest) = as_str path ∷ names rest

  abbrev pub moved : MovePageRequest → Bytes → Replacements → MoveOutcome
  moved request revision replacements = record {
    source = as_str request.source;
    destination = as_str request.destination;
    revision = revision;
    updated_referrers = names replacements;
  }

  -- The change that a planned move makes.
  abbrev pub relocate :
      MovePageRequest → Bytes × (Bytes × Replacements) → store.State → M MoveOutcome × store.State
  relocate request (revision, (source_bytes, replacements)) t =
      answer (λ _. moved request revision replacements)
        (store.commit_move request.source request.destination source_bytes replacements t)

  -- What `move_page` does before it plans.
  abbrev pub preamble : MovePageRequest → store.State → M (Unit {0})
  preamble request s =
      fail_if (request.source == request.destination)
        (invalid_path (as_str request.source) same_destination)
      >> store.lock s

  unfoldable pub move_page : MovePageRequest → store.State → M MoveOutcome × store.State
  unfolding plan_move
  move_page request s = carry_out (preamble request s >> plan_move request s) (relocate request) s
