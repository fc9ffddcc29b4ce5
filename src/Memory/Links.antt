-- ===== src/Memory/Links.antt =====
-- services/memory_rs/src/links.rs: inline Markdown links between pages, found, resolved and
-- rewritten. Offsets are byte offsets into the body.
pub mod Scan
pub mod Rewrite
pub mod Relative
pub mod Parts
pub mod Segments
mod Tests
use mathlib.Core.List.{head?}
use agentspace.Common.{
  ℕ, zero, suc, ◌+◌, ◌-◌, ◌==◌, Bool, true, false, ◌||◌, ◌&&◌, Option, none, some, List, [], ◌∷◌,
  ◌++◌, list_eq, nat_eq, option_eq, Bytes, codes, Result, ok, err, ltb, if◌then◌else◌, length, take,
  drop, replicate, slice, starts_with, contains_str, find_byte, split, join, trim,
}
use agentspace.Memory.Path.{PagePath, path_eq, slash, markdown_extension, parse, parent, last_or}

pub record ParsedLink : Type 0 where
  pub text : Bytes
  pub raw_target : Bytes
  pub resolved : Option PagePath
  pub target_start : ℕ
  pub target_end : ℕ

abbrev pub result_ok {ℓ} : {A : Type ℓ} {E : Type 0} → Result E A → Option A
result_ok (ok a) = some a
result_ok (err _) = none

-- `text.split(['#', '?']).next()`
unfoldable pub before_fragment : Bytes → Bytes
before_fragment [] = []
before_fragment (c ∷ s) =
    let rest = before_fragment s in if c == b'#' || c == b'?' then [] else c ∷ rest

-- `segments.pop()`
abbrev pub pop : List Bytes → List Bytes
pop segments = take (length segments - 1) segments

unfoldable pub resolve_part : List Bytes → Bytes → List Bytes
resolve_part segments part =
    if part == [] || part == codes "."
    then segments
    else if part == codes ".."
    then pop segments
    else segments ++ part ∷ []

unfoldable pub resolve_parts : List Bytes → List Bytes → List Bytes
unfolding resolve_part
resolve_parts segments [] = segments
resolve_parts segments (part ∷ parts) = resolve_parts (resolve_part segments part) parts

unfoldable pub resolve_plain : List Bytes → Bytes → Option PagePath
unfolding resolve_parts
resolve_plain base_dir target =
    let segments = resolve_parts base_dir (split slash target) in
    if segments == [] then none else result_ok (parse (join slash segments))

unfoldable pub resolve_relative_target : List Bytes → Bytes → Option PagePath
unfolding before_fragment resolve_plain
resolve_relative_target base_dir raw_target =
    let without_fragment = before_fragment (trim raw_target) in
    if without_fragment == []
    then none
    else if contains_str (codes "://") without_fragment
        || starts_with (codes "mailto:") without_fragment
    then none
    else if starts_with (slash ∷ []) without_fragment
    then none
    else resolve_plain base_dir without_fragment

-- The loop that counts the directories that both lists start with.
unfoldable pub common : List Bytes → List Bytes → ℕ
common [] to_dirs = 0
common (d ∷ ds) [] = 0
common (d ∷ ds) (t ∷ ts) = let rest = suc (common ds ts) in if d == t then rest else 0

unfoldable pub relative_parts : List Bytes → List Bytes → List Bytes
unfolding common last_or
relative_parts from_dir to_segments =
    let to_dirs = pop to_segments in
    let shared = common from_dir to_dirs in
    replicate (length from_dir - shared) (codes "..")
    ++ (drop shared to_dirs ++ last_or [] to_segments ∷ [])

unfoldable pub relative_target : List Bytes → PagePath → Bytes
unfolding relative_parts
relative_target from_dir to_path =
    join slash (relative_parts from_dir to_path.segments) ++ markdown_extension

-- `page_path.parent().map_or_else(Vec::new, …)`
abbrev segments_of : Option PagePath → List Bytes
segments_of none = []
segments_of (some p) = p.segments

unfoldable pub base_dir_of : PagePath → List Bytes
base_dir_of page_path = segments_of (parent page_path)

-- What one round of the loop in `parse_links` comes to: `break`, `continue` from a new index, or a
-- link and the index to go on from.
pub data Round : Type 0 where
  stop : Round
  skip : ℕ → Round
  found : ParsedLink → ℕ → Round

module _ (base_dir : List Bytes) (body : Bytes) where
  unfoldable pub at_paren : ℕ → ℕ → ℕ → Option ℕ → Round
  at_paren bracket_pos close_bracket paren_open none = stop
  at_paren bracket_pos close_bracket paren_open (some close_paren_rel) =
      let close_paren = paren_open + 1 + close_paren_rel in
      let raw_target = slice (paren_open + 1) close_paren body in
      found
        (record {
          text = slice (bracket_pos + 1) close_bracket body;
          raw_target = raw_target;
          resolved = resolve_relative_target base_dir raw_target;
          target_start = paren_open + 1;
          target_end = close_paren;
        })
        (close_paren + 1)

  unfoldable pub at_close : ℕ → Option ℕ → Round
  unfolding at_paren
  at_close bracket_pos none = stop
  at_close bracket_pos (some close_bracket_rel) =
      let close_bracket = bracket_pos + 1 + close_bracket_rel in
      let after_close = close_bracket + 1 in
      if head? (drop after_close body) == some b'('
      then at_paren bracket_pos close_bracket after_close
          (find_byte b')' (drop (after_close + 1) body))
      else skip (bracket_pos + 1)

  unfoldable pub at_open : ℕ → Option ℕ → Round
  unfolding at_close
  at_open index none = stop
  at_open index (some open_bracket) =
      let bracket_pos = index + open_bracket in
      if ltb 0 bracket_pos && head? (drop (bracket_pos - 1) body) == some b'!'
      then skip (bracket_pos + 1)
      else at_close bracket_pos (find_byte b']' (drop (bracket_pos + 1) body))

  unfoldable pub scan_round : ℕ → Round
  unfolding at_open
  scan_round index = at_open index (find_byte b'[' (drop index body))

  abbrev continue : (ℕ → Option (List ParsedLink)) → Round → Option (List ParsedLink)
  continue rest stop = some []
  continue rest (skip index) = rest index
  continue rest (found link index) = push link (rest index)
    where
      push : ParsedLink → Option (List ParsedLink) → Option (List ParsedLink)
      push link none = none
      push link (some links) = some (link ∷ links)

  -- The loop, on fuel: `none` means that the fuel ran out.
  unfoldable pub parse_links_from : ℕ → ℕ → Option (List ParsedLink)
  unfolding scan_round
  parse_links_from zero index = none
  parse_links_from (suc fuel) index = continue (parse_links_from fuel) (scan_round index)

abbrev pub links_or_empty : Option (List ParsedLink) → List ParsedLink
links_or_empty none = []
links_or_empty (some links) = links

-- Every round goes on from a later index, so one more round than there are bytes is enough.
unfoldable pub parse_links : PagePath → Bytes → List ParsedLink
unfolding parse_links_from base_dir_of
parse_links page_path body =
    links_or_empty (parse_links_from (base_dir_of page_path) body (suc (length body)) 0)

-- The loop of `rewrite_links`: what it appends from `cursor` on, and whether it changed a link.
module _ (base_dir : List Bytes) (body : Bytes) (source destination : PagePath) where
  unfoldable pub rewrite_from : List ParsedLink → ℕ → Bytes × Bool
  rewrite_from [] cursor = (drop cursor body, false)
  rewrite_from (link ∷ links) cursor =
      let changed : Bytes × Bool = (
        slice cursor link.target_start body
            ++ (relative_target base_dir destination ++ (rewrite_from links link.target_end).0),
        true,
      ) in
      let same = rewrite_from links cursor in if link.resolved == some source then changed else same

unfoldable pub rewrite_links : PagePath → Bytes → PagePath → PagePath → Bytes × Bool
unfolding rewrite_from base_dir_of
rewrite_links page_path body source destination =
    rewrite_from (base_dir_of page_path) body source destination (parse_links page_path body) 0
