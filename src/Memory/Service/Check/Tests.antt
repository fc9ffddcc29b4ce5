-- ===== src/Memory/Service/Check/Tests.antt =====
-- The integrity report of a small store in memory.
use agentspace.Common.{bytes_ltb}
use agentspace.Common.{
  ◌≡◌, refl, List, [], ◌∷◌, ◌++◌, All, nat_eq, list_beq, option_beq, list_eq, option_eq, contains,
  ok, look_up, delete, Bytes, codes, starts_with, strip_prefix, strip_suffix, contains_byte,
  contains_str, find_byte, split, join, trim, is_utf8,
}
use agentspace.Memory.Sample.{crates, yaml_line, value_beq}
use agentspace.Memory.Path.{
  PagePath, path_eq, path_beq, parse, check_segments, has_control, trimmed, parent,
}
use agentspace.Memory.Links.{parse_links, parse_links_from, resolve_relative_target, base_dir_of}
use agentspace.Memory.Frontmatter.{parse_document, find_str, split_frontmatter, strip_line_end}
use agentspace.Memory.Store.{MemoryStore, ScannedFile}
use agentspace.Memory.Store.InMemory.{in_memory}
use agentspace.Memory.Service.Check.{
  CheckReport, check, is_clean, valid_paths, all_page_issues, segments_ltb,
}
use agentspace.Memory.Service.Check.Clean.{IsPage, is_scanned, check_clean}

abbrev store : MemoryStore
store = in_memory crates

abbrev alice : PagePath
alice = record { segments = codes "alice" ∷ [] }

abbrev carol : PagePath
carol = record { segments = codes "carol" ∷ [] }

abbrev document : Bytes → Bytes
document body = codes "---" ++ 10 ∷ yaml_line ++ (10 ∷ []) ++ codes "---" ++ 10 ∷ 10 ∷ body

abbrev pages : store.State
pages = (alice, document (codes "Hello")) ∷ (carol, document (codes "[x](alice.md)")) ∷ []

abbrev report : CheckReport
report = record { issues = [] }

two_sound_pages : check crates store pages ≡ ok report
unfolding check valid_paths segments_ltb bytes_ltb all_page_issues look_up delete path_beq list_beq
    option_beq contains parse_document is_utf8 split_frontmatter find_str starts_with strip_line_end
    strip_prefix value_beq parse_links parse_links_from find_byte resolve_relative_target
    contains_byte split trim strip_suffix parse check_segments has_control trimmed base_dir_of
    parent contains_str join
two_sound_pages = refl

check_clean_example :
    (scanned : List ScannedFile) × (store.scan pages ≡ ok scanned)
    × All (IsPage crates store pages (valid_paths scanned)) scanned
    × ((t : PagePath) → contains (valid_paths scanned) t ≡ is_scanned scanned t)
unfolding is_clean
check_clean_example = check_clean crates store pages report two_sound_pages refl
