-- ===== src/Memory/Service/Report/Backlinks.antt =====
-- Backlinks of a page, and the pages that a move of it rewrites.
use agentspace.Common.{
  ◌≡◌, refl, ap, ◌∙◌, inl, inr, Bool, true, false, not, some, List, [], ◌∷◌, Bool-cases, ◌==◌,
  nat_eq, list_eq, option_eq, Bytes,
}
use agentspace.Memory.Path.{PagePath, path_eq}
use agentspace.Memory.Model.{Backlink}
use agentspace.Memory.Links.{ParsedLink, parse_links, rewrite_links}
use agentspace.Memory.Links.Rewrite.{any_to, rewrite_links-weave}
use agentspace.Memory.Service.Report.{backlinks_in}

abbrev pub is_empty : List Backlink → Bool
is_empty [] = true
is_empty (b ∷ bs) = false

any_to-backlinks_in :
    (path other : PagePath) (links : List ParsedLink)
    → any_to path links ≡ not (is_empty (backlinks_in path other links))
unfolding any_to backlinks_in
any_to-backlinks_in path other [] = refl
any_to-backlinks_in path other (link ∷ links) = elim (Bool-cases (link.resolved == some path)) [
  | inl e ↦ rw e refl
  | inr e ↦ rw e (any_to-backlinks_in path other links)
]

-- A move of a page, to any destination, rewrites exactly the bodies from which the report of its
-- links names a backlink.
pub rewrite_links-backlinks_in :
    (path other destination : PagePath) (body : Bytes)
    → (rewrite_links other body path destination).1
      ≡ not (is_empty (backlinks_in path other (parse_links other body)))
rewrite_links-backlinks_in path other destination body =
    ap (λ r. r.1) (rewrite_links-weave other body path destination)
    ∙ any_to-backlinks_in path other (parse_links other body)
