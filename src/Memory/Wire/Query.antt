-- ===== src/Memory/Wire/Query.antt =====
-- The tags of a list request, which the client joins with commas.
use agentspace.Common.{
  ◌≡◌, refl, ◌≢◌, some, List, [], ◌∷◌, All, nat_eq, list_eq, option_eq, ne→beq-false, Bytes, Lacks,
  join, trim, split-join,
}
use agentspace.Memory.Wire.{tags, comma, trimmed_names}

-- A tag that the comma-separated form carries.
pub record IsPlainTag (tag : Bytes) : Type 0 where
  pub no_comma : Lacks comma tag
  pub not_empty : tag ≢ []
  pub trimmed : trim tag ≡ tag

trimmed_names_id : (names : List Bytes) → All IsPlainTag names → trimmed_names names ≡ names
trimmed_names_id [] h = refl
trimmed_names_id (tag ∷ rest) (plain, h) =
    rw (plain.trimmed, ne→beq-false tag [] plain.not_empty, trimmed_names_id rest h) refl

all_lack : (names : List Bytes) → All IsPlainTag names → All (Lacks comma) names
all_lack [] h = tt
all_lack (tag ∷ rest) (plain, h) = (plain.no_comma, all_lack rest h)

-- The tags that the client joins with commas are the tags that the server reads, if there is one at
-- least and none is empty, holds a comma or has white space at its ends.
pub tags-join :
    (names : List Bytes)
    → names ≢ []
    → All IsPlainTag names
    → tags (some (join comma names)) ≡ names
unfolding tags
tags-join names some_name h =
    rw (split-join comma names some_name (all_lack names h)) (trimmed_names_id names h)
