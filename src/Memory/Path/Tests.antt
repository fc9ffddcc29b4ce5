-- ===== src/Memory/Path/Tests.antt =====
-- Page paths at concrete inputs.
use agentspace.Common.{
  ◌+◌, ◌≤◌, ◌<◌, ◌≡◌, refl, ◌↔◌, none, [], ◌∷◌, ◌++◌, arith, if◌then◌else◌, length, replicate, ◌==◌,
  nat_eq, list_beq, list_eq, option_eq, ok, err, Bytes, codes, starts_with, strip_suffix,
  contains_byte, split, join,
}
use agentspace.Memory.Error.{invalid_path, path_too_long, segment_dots, io_not_found}
use agentspace.Memory.Path.{
  PagePath, slash, markdown_extension, max_path_length, has_control, check_segments, parse, as_str,
  trimmed, Stat, FilePath, directory, resolve_within, file_components, relative_file_path,
  file_stem, resolve_from, reject_symlink,
}
use agentspace.Memory.Path.Valid.{Accepts, IsValid, parse_iff, parse-IsValid, as_str-parse}
use agentspace.Memory.Path.RoundTrip.{parse-as_str, parse-as_str_file_too_long}
use agentspace.Memory.Path.Resolve.{NoSymlinks, resolve_within_sound, relative_file_path_plain}

abbrev alice : PagePath
alice = record { segments = codes "people" ∷ codes "alice" ∷ [] }

parse-alice : parse (codes "people/alice.md") ≡ ok alice
unfolding parse check_segments split strip_suffix starts_with contains_byte list_beq has_control
    trimmed
parse-alice = refl

parse-traversal :
    parse (codes "people/../../etc") ≡ err (invalid_path (codes "people/../../etc") segment_dots)
unfolding parse check_segments split strip_suffix starts_with contains_byte list_beq has_control
    trimmed
parse-traversal = refl

alice-IsValid : IsValid alice
alice-IsValid = parse-IsValid (codes "people/alice.md") alice parse-alice

parse_iff_example :
    (parse (codes "people/alice.md") ≡ ok alice) ↔ Accepts (codes "people/alice.md") alice
parse_iff_example = parse_iff (codes "people/alice.md") alice

parse-IsValid_example : IsValid alice
parse-IsValid_example = parse-IsValid (codes "people/alice.md") alice parse-alice

as_str-parse_example : as_str alice ≡ trimmed (codes "people/alice.md")
as_str-parse_example = as_str-parse (codes "people/alice.md") alice parse-alice

no_suffix : strip_suffix markdown_extension (as_str alice) ≡ none
unfolding as_str join strip_suffix list_beq
no_suffix = refl

short : length (as_str alice) + 3 ≤ max_path_length
unfolding as_str join
short = omega arith

parse-as_str_example : parse (as_str alice) ≡ ok alice
parse-as_str_example = parse-as_str alice alice-IsValid no_suffix

-- Four names of 127 bytes: 511 bytes with the slashes.
abbrev long_input : Bytes
long_input =
    let part = replicate 127 b'a' in part ++ slash ∷ (part ++ slash ∷ (part ++ slash ∷ part))

abbrev long_page : PagePath
long_page = let part = replicate 127 b'a' in record { segments = part ∷ part ∷ part ∷ part ∷ [] }

parse-long : parse long_input ≡ ok long_page
unfolding parse check_segments split strip_suffix starts_with contains_byte list_beq has_control
    trimmed
parse-long = refl

long_page-too_long : max_path_length < length (as_str long_page) + 3
unfolding as_str join
long_page-too_long = omega arith

parse-as_str_file_too_long_example :
    parse (as_str long_page ++ markdown_extension)
    ≡ err (invalid_path (as_str long_page ++ markdown_extension) path_too_long)
parse-as_str_file_too_long_example =
    parse-as_str_file_too_long long_page (parse-IsValid long_input long_page parse-long)
      long_page-too_long

abbrev twice : PagePath
twice = record { segments = codes "a.md" ∷ [] }

parse-twice : parse (codes "a.md.md") ≡ ok twice
unfolding parse check_segments split strip_suffix starts_with contains_byte list_beq has_control
    trimmed
parse-twice = refl

-- A host on which the directory is there and the file is not.
abbrev host : Stat
host path = if length path == 2 then ok directory else err io_not_found

abbrev store_root : FilePath
store_root = codes "memory" ∷ []

abbrev alice_file : FilePath
alice_file = codes "memory" ∷ codes "people" ∷ codes "alice.md" ∷ []

resolve-alice : resolve_within host store_root alice ≡ ok alice_file
unfolding resolve_within file_components file_stem resolve_from reject_symlink
resolve-alice = refl

resolve_within_sound_example :
    (alice_file ≡ store_root ++ file_components alice)
    × NoSymlinks host store_root (file_components alice)
resolve_within_sound_example = resolve_within_sound host store_root alice alice_file resolve-alice

relative_file_path_plain_example : relative_file_path alice ≡ file_components alice
relative_file_path_plain_example = relative_file_path_plain alice (unfold file_stem in omega arith)
