-- ===== src/Memory/Service/Report.antt =====
-- services/memory_rs/src/service.rs: `list_tags` and `links`, which read every page.
pub mod Counts
pub mod Backlinks
mod Tests
use agentspace.Common.{bytes_ltb}
use agentspace.Common.{
  ℕ, zero, suc, ◌+◌, Bool, true, false, not, Option, none, some, List, [], ◌∷◌, ◌++◌, arith,
  if◌then◌else◌, ◌==◌, nat_eq, list_eq, option_eq, ok, err, ◌>>=◌, ◌>>◌, Bytes,
}
use agentspace.Memory.Crates.{Crates}
use agentspace.Memory.Error.{M}
use agentspace.Memory.Path.{PagePath, as_str, path_eq}
use agentspace.Memory.Model.{PageMetadata, TagCount, PageLink, Backlink, LinksReport}
use agentspace.Memory.Frontmatter.{parse_document}
use agentspace.Memory.Links.{ParsedLink, parse_links}
use agentspace.Memory.Store.{MemoryStore}
use agentspace.Memory.Service.Pages.{read_page}

-- `*counts.entry(tag).or_insert(0) += 1`, the map by its entries in order.
unfoldable pub count_tag : Bytes → List TagCount → List TagCount
count_tag tag [] = record { tag = tag; count = 1 } ∷ []
count_tag tag (entry ∷ rest) =
    let others = count_tag tag rest in
    if tag == entry.tag
    then record entry { count = suc entry.count } ∷ rest
    else if bytes_ltb tag entry.tag
    then record { tag = tag; count = 1 } ∷ entry ∷ rest
    else entry ∷ others

unfoldable pub count_tags : List Bytes → List TagCount → List TagCount
unfolding count_tag
count_tags [] counts = counts
count_tags (tag ∷ tags) counts = count_tags tags (count_tag tag counts)

-- A page whose document does not parse has no tags.
abbrev pub tags_of : (c : Crates) → M (PageMetadata c × Bytes) → List Bytes
tags_of c (err e) = []
tags_of c (ok (metadata, body)) = metadata.tags

-- The links of one page to another, as backlinks.
unfoldable pub backlinks_in : PagePath → PagePath → List ParsedLink → List Backlink
backlinks_in path other [] = []
backlinks_in path other (link ∷ links) =
    let rest = backlinks_in path other links in
    if link.resolved == some path
    then record { from = as_str other; text = link.text; raw_target = link.raw_target } ∷ rest
    else rest

abbrev pub backlinks_from :
    (c : Crates) → PagePath → PagePath → M (PageMetadata c × Bytes) → List Backlink
backlinks_from c path other (err e) = []
backlinks_from c path other (ok (metadata, body)) = backlinks_in path other (parse_links other body)

module _ (c : Crates) (store : MemoryStore) where
  unfoldable pub count_pages : store.State → List PagePath → List TagCount → M (List TagCount)
  unfolding count_tags
  count_pages s [] counts = ok counts
  count_pages s (path ∷ paths) counts = do
    (bytes, _) ← store.read_bytes path s
    count_pages s paths (count_tags (tags_of c (parse_document c bytes (as_str path))) counts)

  unfoldable pub list_tags : store.State → M (List TagCount)
  unfolding count_pages
  list_tags s = do pages ← store.list_pages s; count_pages s pages []

  unfoldable pub is_broken : store.State → Option PagePath → M Bool
  is_broken s none = ok false
  is_broken s (some resolved) = do exists ← store.exists resolved s; ok (not exists)

  abbrev text_of : Option PagePath → Option Bytes
  text_of none = none
  text_of (some p) = some (as_str p)

  unfoldable pub outgoing_of : store.State → List ParsedLink → M (List PageLink)
  unfolding is_broken
  outgoing_of s [] = ok []
  outgoing_of s (link ∷ links) = do
    broken ← is_broken s link.resolved
    rest ← outgoing_of s links
    ok (
        record {
          text = link.text;
          raw_target = link.raw_target;
          resolved_path = text_of link.resolved;
          broken = broken;
        }
        ∷ rest)

  unfoldable pub backlinks_of : store.State → PagePath → List PagePath → M (List Backlink)
  backlinks_of s path [] = ok []
  backlinks_of s path (other ∷ others) =
      let rest = backlinks_of s path others in
      if other == path then rest else of_page other (store.read_bytes other s) rest
    where
      of_page : PagePath → M (Bytes × Bytes) → M (List Backlink) → M (List Backlink)
      of_page other read rest = do
        (bytes, _) ← read
        more ← rest
        ok (backlinks_from c path other (parse_document c bytes (as_str other)) ++ more)

  abbrev backlinks_if : Bool → store.State → PagePath → M (List Backlink)
  backlinks_if false s path = ok []
  backlinks_if true s path = do pages ← store.list_pages s; backlinks_of s path pages

  unfoldable pub links : PagePath → Bool → store.State → M LinksReport
  unfolding backlinks_of outgoing_of
  links path include_backlinks s = do
    page ← read_page c store path s
    outgoing ← outgoing_of s (parse_links path page.body)
    backlinks ← backlinks_if include_backlinks s path
    ok (record { path = as_str path; outgoing = outgoing; backlinks = backlinks })
