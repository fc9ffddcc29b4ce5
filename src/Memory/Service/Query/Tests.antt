-- ===== src/Memory/Service/Query/Tests.antt =====
-- Queries of a small store in memory.
use agentspace.Common.{
  All, delete, look_up, ◌≡◌, refl, none, some, [], ◌∷◌, ◌++◌, arith, take, nat_eq, list_beq,
  option_beq, list_eq, option_eq, contains, ok, ◌>>=◌, Bytes, codes, starts_with, strip_prefix,
  contains_str, join, trim, is_utf8,
}
use agentspace.Memory.Sample.{crates, yaml_line, value_beq}
use agentspace.Memory.Path.{PagePath, as_str, path_eq, path_beq}
use agentspace.Memory.Model.{PageSummary, QueryRequest}
use agentspace.Memory.Frontmatter.{parse_document, find_str, split_frontmatter, strip_line_end}
use agentspace.Memory.Store.{MemoryStore}
use agentspace.Memory.Store.InMemory.{in_memory}
use agentspace.Memory.Service.{normalize_tag}
use agentspace.Memory.Service.Query.{query_pages, page_verdict, limit_of}
use agentspace.Memory.Service.Query.Filters.{IsMatch, query_pages-IsMatch}
use agentspace.Memory.Service.Query.Limit.{outcomes, all_ok, at_least_one, query_pages-outcomes}

abbrev store : MemoryStore
store = in_memory crates

abbrev alice : PagePath
alice = record { segments = codes "alice" ∷ [] }

abbrev carol : PagePath
carol = record { segments = codes "carol" ∷ [] }

abbrev document : Bytes → Bytes
document body = codes "---" ++ 10 ∷ yaml_line ++ (10 ∷ []) ++ codes "---" ++ 10 ∷ 10 ∷ body

abbrev pages : store.State
pages = (alice, document (codes "Hello")) ∷ (carol, document (codes "[x](alice.md)")) ∷ []

abbrev for_hello : QueryRequest
for_hello = record {
  text = codes "Hello";
  filter = record { under = none; with_tags = codes "person" ∷ []; limit = some 0 };
}

abbrev alice_summary : PageSummary crates
alice_summary = record {
  path = codes "alice";
  title = codes "Alice";
  tags = codes "person" ∷ [];
  updated_at = codes "t0";
}

-- A limit of 0 gives one result all the same.
limit_zero : query_pages crates store for_hello pages ≡ ok (alice_summary ∷ [])
unfolding query_pages page_verdict look_up delete path_beq list_beq parse_document is_utf8
    split_frontmatter find_str starts_with strip_line_end value_beq strip_prefix option_beq
    normalize_tag contains as_str join trim contains_str
limit_zero = refl

query_pages-outcomes_example : query_pages crates store for_hello pages ≡ (
    store.list_pages pages >>= λ listed. all_ok (
      take
        (at_least_one (limit_of crates store for_hello))
        (outcomes crates (page_verdict crates store for_hello pages) listed)))
query_pages-outcomes_example = query_pages-outcomes crates store for_hello pages (omega arith)

query_pages-IsMatch_example : All (IsMatch crates store for_hello pages) (alice_summary ∷ [])
query_pages-IsMatch_example =
    query_pages-IsMatch crates store for_hello pages (alice_summary ∷ []) limit_zero
