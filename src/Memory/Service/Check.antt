-- ===== src/Memory/Service/Check.antt =====
-- services/memory_rs/src/service.rs: `check`, the integrity report, with the records of
-- services/memory_rs/src/model.rs that it fills.
pub mod Clean
mod Tests
use agentspace.Common.{bytes_ltb}
use agentspace.Common.{
  ℕ, zero, suc, ◌+◌, Bool, true, false, ◌&&◌, ◌||◌, Option, none, some, List, [], ◌∷◌, ◌++◌, arith,
  if◌then◌else◌, ◌==◌, nat_eq, list_eq, option_eq, contains, ok, err, ◌>>=◌, ◌>>◌, Bytes,
}
use agentspace.Memory.Crates.{Crates}
use agentspace.Memory.Error.{M, MemoryError}
use agentspace.Memory.Path.{PagePath, as_str, path_eq}
use agentspace.Memory.Model.{PageMetadata}
use agentspace.Memory.Frontmatter.{parse_document}
use agentspace.Memory.Links.{ParsedLink, parse_links}
use agentspace.Memory.Store.{MemoryStore, ScannedFile}

-- The texts of an issue, one constructor for each.
pub data Message : Type 0 where
  invalid_name : Message
  failed : MemoryError → Message
  duplicate_tag : Bytes → Message
  broken_link : Bytes → Message

pub record CheckIssue : Type 0 where
  pub path : Option Bytes
  pub message : Message

pub record CheckReport : Type 0 where
  pub issues : List CheckIssue

-- `CheckReport::is_clean`
unfoldable pub is_clean : CheckReport → Bool
is_clean report = empty report.issues
  where
    empty : List CheckIssue → Bool
    empty [] = true
    empty (issue ∷ issues) = false

-- `Ord` of page paths: their segments, one after the other.
unfoldable pub segments_ltb : List Bytes → List Bytes → Bool
segments_ltb xs [] = false
segments_ltb [] (y ∷ ys) = true
segments_ltb (x ∷ xs) (y ∷ ys) = bytes_ltb x y || (x == y && segments_ltb xs ys)

-- `BTreeSet::insert`, the set by its items in order.
unfoldable pub insert_path : PagePath → List PagePath → List PagePath
unfolding segments_ltb
insert_path p [] = p ∷ []
insert_path p (q ∷ qs) =
    let rest = insert_path p qs in
    if p == q then q ∷ qs else if segments_ltb p.segments q.segments then p ∷ q ∷ qs else q ∷ rest

abbrev pub insert_parsed : Option PagePath → List PagePath → List PagePath
insert_parsed none paths = paths
insert_parsed (some p) paths = insert_path p paths

unfoldable pub valid_paths : List ScannedFile → List PagePath
unfolding insert_path
valid_paths [] = []
valid_paths (entry ∷ entries) = insert_parsed entry.parsed (valid_paths entries)

abbrev pub issue_about : PagePath → Message → CheckIssue
issue_about path text = record { path = some (as_str path); message = text }

abbrev pub name_issue : ScannedFile → Option PagePath → List CheckIssue
name_issue entry none = record { path = some entry.relative_path; message = invalid_name } ∷ []
name_issue entry (some p) = []

unfoldable pub name_issues : List ScannedFile → List CheckIssue
name_issues [] = []
name_issues (entry ∷ entries) = name_issue entry entry.parsed ++ name_issues entries

-- A tag that was seen before is reported.
unfoldable pub tag_issues : PagePath → List Bytes → List Bytes → List CheckIssue
tag_issues path seen [] = []
tag_issues path seen (tag ∷ tags) =
    let rest = tag_issues path (tag ∷ seen) tags in
    if contains seen tag then issue_about path (duplicate_tag tag) ∷ rest else rest

abbrev pub link_issue : PagePath → List PagePath → Option PagePath → List CheckIssue
link_issue path valid none = []
link_issue path valid (some target) =
    if contains valid target then [] else issue_about path (broken_link (as_str target)) ∷ []

unfoldable pub link_issues : PagePath → List PagePath → List ParsedLink → List CheckIssue
link_issues path valid [] = []
link_issues path valid (link ∷ links) =
    link_issue path valid link.resolved ++ link_issues path valid links

module _ (c : Crates) where
  abbrev pub document_issues :
      PagePath → List PagePath → M (PageMetadata c × Bytes) → List CheckIssue
  document_issues path valid (err e) = issue_about path (failed e) ∷ []
  document_issues path valid (ok (metadata, body)) =
      tag_issues path [] metadata.tags ++ link_issues path valid (parse_links path body)

  unfoldable pub page_issues : PagePath → List PagePath → M (Bytes × Bytes) → List CheckIssue
  unfolding tag_issues link_issues
  page_issues path valid (err e) = issue_about path (failed e) ∷ []
  page_issues path valid (ok (bytes, revision)) =
      document_issues path valid (parse_document c bytes (as_str path))

module _ (c : Crates) (store : MemoryStore) where
  unfoldable pub all_page_issues : store.State → List PagePath → List PagePath → List CheckIssue
  unfolding page_issues
  all_page_issues s valid [] = []
  all_page_issues s valid (path ∷ paths) =
      page_issues c path valid (store.read_bytes path s) ++ all_page_issues s valid paths

  unfoldable pub check : store.State → M CheckReport
  unfolding name_issues valid_paths all_page_issues
  check s = do
    scanned ← store.scan s
    ok (record {
      issues = name_issues scanned ++ all_page_issues s (valid_paths scanned) (valid_paths scanned);
    })
