-- ===== src/Memory/Links/Tests.antt =====
-- Links at concrete bodies.
use agentspace.Common.{
  suc, ◌≡◌, refl, true, false, some, [], ◌∷◌, arith, length, nat_eq, list_beq, option_beq, list_eq,
  option_eq, ok, Bytes, codes, starts_with, strip_suffix, contains_byte, contains_str, find_byte,
  split, join, trim,
}
use agentspace.Memory.Path.{
  PagePath, has_control, check_segments, parse, as_str, parent, path_beq, trimmed,
}
use agentspace.Memory.Path.Valid.{parse-IsValid}
use agentspace.Memory.Links.{
  parse_links, parse_links_from, rewrite_links, relative_target, resolve_relative_target,
  base_dir_of,
}
use agentspace.Memory.Links.Scan.{AreLinks, parse_links_total}
use agentspace.Memory.Links.Rewrite.{weave, retarget, any_to, rewrite_links-weave}
use agentspace.Memory.Links.Relative.{resolve-relative_target}

abbrev alice : PagePath
alice = record { segments = codes "people" ∷ codes "alice" ∷ [] }

abbrev project : PagePath
project = record { segments = codes "projects" ∷ codes "agentspace" ∷ [] }

abbrev renamed : PagePath
renamed = record { segments = codes "projects" ∷ codes "renamed" ∷ [] }

abbrev body : Bytes
body = codes "See [A](../projects/agentspace.md) ![x](y.png)."

parse-project : parse (codes "projects/agentspace") ≡ ok project
unfolding parse check_segments split strip_suffix starts_with contains_byte list_beq has_control
    trimmed
parse-project = refl

rewritten :
    rewrite_links alice body project renamed
    ≡ (codes "See [A](../projects/renamed.md) ![x](y.png).", true)
unfolding rewrite_links parse_links resolve_relative_target relative_target parse check_segments
    split strip_suffix starts_with contains_byte contains_str list_beq has_control option_beq
    path_beq parent find_byte trim join trimmed
rewritten = refl

untouched : (rewrite_links alice (codes "[B](bob.md)") project renamed).1 ≡ false
unfolding rewrite_links parse_links resolve_relative_target relative_target parse check_segments
    split strip_suffix starts_with contains_byte contains_str list_beq has_control option_beq
    path_beq parent find_byte trim join trimmed
untouched = refl

parse_links_total_example :
    (parse_links_from (base_dir_of alice) body (suc (length body)) 0
      ≡ some (parse_links alice body))
    × AreLinks (base_dir_of alice) body 0 (parse_links alice body)
parse_links_total_example = parse_links_total alice body

rewrite_links-weave_example : rewrite_links alice body project renamed ≡ (
  weave (retarget (base_dir_of alice) project renamed) body 0 (parse_links alice body),
  any_to project (parse_links alice body),
)
rewrite_links-weave_example = rewrite_links-weave alice body project renamed

resolve-relative_target_example :
    resolve_relative_target (codes "people" ∷ []) (relative_target (codes "people" ∷ []) project)
    ≡ some project
unfolding relative_target as_str join trim starts_with list_beq
resolve-relative_target_example =
    resolve-relative_target (codes "people" ∷ []) project
      (parse-IsValid (codes "projects/agentspace") project parse-project) (omega arith) refl
      (omega arith) (omega arith) refl
