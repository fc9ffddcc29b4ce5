-- ===== src/Memory/Service/Query.antt =====
-- services/memory_rs/src/service.rs: `query_pages` and `list_pages`.
pub mod Limit
pub mod Filters
mod Tests
use agentspace.Common.{
  ℕ, zero, suc, ◌+◌, Bool, true, false, not, ◌&&◌, ◌||◌, Option, none, some, List, [], ◌∷◌, ◌++◌,
  map, arith, ltb, leb, if◌then◌else◌, length, take, ◌==◌, nat_eq, list_eq, option_eq, contains, ok,
  err, ◌>>=◌, ◌>>◌, Bytes, contains_str, join,
}
use agentspace.Memory.Crates.{Crates}
use agentspace.Memory.Error.{M, MemoryError, too_large}
use agentspace.Memory.Path.{PagePath, as_str, path_eq}
use agentspace.Memory.Model.{PageMetadata, PageSummary, ListFilter, QueryRequest}
use agentspace.Memory.Frontmatter.{parse_document}
use agentspace.Memory.Store.{MemoryStore}
use agentspace.Memory.Service.{fail_if, normalize_tag, or_default}

abbrev pub max_query_length : ℕ
max_query_length = 512

abbrev pub default_list_limit : ℕ
default_list_limit = 200

unfoldable pub is_under : PagePath → PagePath → Bool
is_under prefix candidate =
    leb (length prefix.segments) (length candidate.segments)
    && (take (length prefix.segments) candidate.segments == prefix.segments)

abbrev pub excluded : Option PagePath → PagePath → Bool
excluded none path = false
excluded (some under) path = not (is_under under path)

unfoldable pub has_all : List Bytes → List Bytes → Bool
has_all [] tags = true
has_all (tag ∷ wanted) tags = contains tags tag && has_all wanted tags

-- What one round of the loop comes to.
pub data Verdict (c : Crates) : Type 0 where
  skip : Verdict c
  fail : MemoryError → Verdict c
  hit : PageSummary c → Verdict c

module _ (c : Crates) where
  unfoldable pub haystack : PagePath → PageMetadata c → Bytes → Bytes
  haystack path metadata body =
      c.to_lowercase
        (as_str path ++ 32 ∷ (metadata.title ++ 32 ∷ (join 32 metadata.tags ++ 32 ∷ body)))

  abbrev pub has_text : Bytes → Bytes → Bool
  has_text needle hay = needle == [] || contains_str needle hay

  abbrev pub summary : PagePath → PageMetadata c → PageSummary c
  summary path metadata = record {
    path = as_str path;
    title = metadata.title;
    tags = metadata.tags;
    updated_at = metadata.updated_at;
  }

  unfoldable pub judge : Bytes → List Bytes → PagePath → M (PageMetadata c × Bytes) → Verdict c
  unfolding has_all haystack
  judge needle with_tags path (err e) = skip
  judge needle with_tags path (ok (metadata, body)) =
      if not (with_tags == []) && not (has_all with_tags metadata.tags)
      then skip
      else if has_text needle (haystack path metadata body)
      then hit (summary path metadata)
      else skip

  abbrev pub judge_read : Bytes → List Bytes → PagePath → M (Bytes × Bytes) → Verdict c
  judge_read needle with_tags path (err e) = fail e
  judge_read needle with_tags path (ok (bytes, revision)) =
      judge needle with_tags path (parse_document c bytes (as_str path))

  -- `if results.len() >= limit { break }`, behind the push; `count` results stand before.
  abbrev pub next : (ℕ → M (List (PageSummary c))) → ℕ → ℕ → Verdict c → M (List (PageSummary c))
  next look limit count skip = look count
  next look limit count (fail e) = err e
  next look limit count (hit x) =
      let rest = look (suc count) in
      if leb limit (suc count) then ok (x ∷ []) else rest >>= λ xs. ok (x ∷ xs)

  -- The loop over the pages, `verdict` being what it finds out about one page.
  unfoldable pub collect : (PagePath → Verdict c) → ℕ → ℕ → List PagePath → M (List (PageSummary c))
  collect verdict limit count [] = ok []
  collect verdict limit count (path ∷ paths) =
      next (λ n. collect verdict limit n paths) limit count (verdict path)

module _ (c : Crates) (store : MemoryStore) where
  unfoldable pub page_verdict : QueryRequest → store.State → PagePath → Verdict c
  unfolding is_under judge
  page_verdict request s path =
      let needle = c.to_lowercase request.text in
      let with_tags = map (normalize_tag c) request.filter.with_tags in
      let read = store.read_bytes path s in
      if excluded request.filter.under path then skip else judge_read c needle with_tags path read

  abbrev pub limit_of : QueryRequest → ℕ
  limit_of request = or_default default_list_limit request.filter.limit

  unfoldable pub query_pages : QueryRequest → store.State → M (List (PageSummary c))
  unfolding collect page_verdict
  query_pages request s = do
    _ ←
        fail_if (ltb max_query_length (length request.text))
          (too_large "query text" max_query_length)
    pages ← store.list_pages s
    collect c (page_verdict request s) (limit_of request) 0 pages

  unfoldable pub list_pages : ListFilter → store.State → M (List (PageSummary c))
  unfolding query_pages
  list_pages filter s = query_pages (record { text = []; filter = filter }) s
