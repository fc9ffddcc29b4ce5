-- ===== src/Memory/Service/Report/Tests.antt =====
-- Tags and links of a small store in memory.
use agentspace.Common.{
  delete, look_up, ◌≡◌, refl, not, List, [], ◌∷◌, ◌++◌, nat_eq, list_beq, option_beq, list_eq,
  option_eq, ok, Bytes, codes, starts_with, strip_prefix, is_utf8,
}
use agentspace.Memory.Sample.{crates, yaml_line, value_beq}
use agentspace.Memory.Path.{PagePath, path_eq, path_beq}
use agentspace.Memory.Links.{rewrite_links, parse_links}
use agentspace.Memory.Model.{TagCount}
use agentspace.Memory.Frontmatter.{parse_document, find_str, split_frontmatter, strip_line_end}
use agentspace.Memory.Store.{MemoryStore}
use agentspace.Memory.Store.InMemory.{in_memory}
use agentspace.Memory.Service.Report.{list_tags, count_tag, backlinks_in}
use agentspace.Memory.Service.Report.Counts.{
  all_tags, IsOrdered, count_of, occurrences, list_tags-all_tags,
}
use agentspace.Memory.Service.Report.Backlinks.{is_empty, rewrite_links-backlinks_in}

abbrev store : MemoryStore
store = in_memory crates

abbrev alice : PagePath
alice = record { segments = codes "alice" ∷ [] }

abbrev carol : PagePath
carol = record { segments = codes "carol" ∷ [] }

abbrev document : Bytes → Bytes
document body = codes "---" ++ 10 ∷ yaml_line ++ (10 ∷ []) ++ codes "---" ++ 10 ∷ 10 ∷ body

abbrev pages : store.State
pages = (alice, document (codes "Hello")) ∷ (carol, document (codes "[x](alice.md)")) ∷ []

abbrev counts : List TagCount
counts = record { tag = codes "person"; count = 2 } ∷ []

two_persons : list_tags crates store pages ≡ ok counts
unfolding list_tags count_tag look_up delete path_beq list_beq parse_document is_utf8
    split_frontmatter find_str starts_with strip_line_end value_beq strip_prefix option_beq
two_persons = refl

list_tags-all_tags_example :
    (listed : List PagePath) × (tags : List Bytes) × (store.list_pages pages ≡ ok listed)
    × (all_tags crates store pages listed ≡ ok tags)
    × IsOrdered counts
    × ((t : Bytes) → count_of t counts ≡ occurrences t tags)
list_tags-all_tags_example = list_tags-all_tags crates store pages counts two_persons

rewrite_links-backlinks_in_example :
    (rewrite_links carol (codes "[x](alice.md)") alice carol).1
    ≡ not (is_empty (backlinks_in alice carol (parse_links carol (codes "[x](alice.md)"))))
rewrite_links-backlinks_in_example =
    rewrite_links-backlinks_in alice carol carol (codes "[x](alice.md)")
