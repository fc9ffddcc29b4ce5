-- ===== src/Memory/Service/Tags.antt =====
-- `normalize_tags`: the tags of a page in order, each once.
use agentspace.Common.{
  sort, IsIncreasing, sort-IsSorted, dedup-IsIncreasing, contains-sort, contains-dedup,
}
use agentspace.Common.{◌≡◌, ◌∙◌, List, map, nat_eq, list_eq, option_eq, contains, Bytes}
use agentspace.Memory.Crates.{Crates}
use agentspace.Memory.Service.{normalize_tag, normalize_tags}

-- The tags of a page are in increasing order, without repetition, and are exactly the normalized
-- forms of the tags that were given.
pub normalize_tags-IsIncreasing :
    (c : Crates) (tags : List Bytes)
    → IsIncreasing (normalize_tags c tags)
      × ((t : Bytes) → contains (normalize_tags c tags) t ≡ contains (map (normalize_tag c) tags) t)
unfolding normalize_tags
normalize_tags-IsIncreasing c tags =
    let normalized = map (normalize_tag c) tags in
    (
      dedup-IsIncreasing (sort normalized) (sort-IsSorted normalized),
      λ t. contains-dedup (sort normalized) t ∙ contains-sort normalized t,
    )
