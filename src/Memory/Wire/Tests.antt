-- ===== src/Memory/Wire/Tests.antt =====
-- The wire at concrete errors, tags and pages.
use agentspace.Common.{
  ◌≡◌, refl, none, some, [], ◌∷◌, arith, nat_eq, list_beq, list_eq, option_eq, ok, Bytes, codes,
  starts_with, strip_suffix, contains_byte, split, join, trim,
}
use agentspace.Memory.Error.{MemoryError, command_not_allowed, kind}
use agentspace.Memory.Sample.{crates}
use agentspace.Memory.Path.{
  PagePath, as_str, parse, markdown_extension, check_segments, has_control, trimmed,
}
use agentspace.Memory.Path.Valid.{parse-IsValid}
use agentspace.Memory.Model.{Page}
use agentspace.Memory.Wire.{from_error, into_memory_error, tags, comma, from_page, try_from}
use agentspace.Memory.Wire.Transport.{remote, into_memory_error-from_error}
use agentspace.Memory.Wire.Query.{IsPlainTag}
use agentspace.Memory.Wire.PageRoundTrip.{try_from-from_page}

abbrev display : MemoryError → Bytes
display e = codes (unfold kind in kind e)

abbrev rejected : MemoryError
rejected = command_not_allowed (codes "rm")

into_memory_error-from_error_example :
    into_memory_error (from_error display rejected) ≡ remote display rejected
into_memory_error-from_error_example = into_memory_error-from_error display rejected

-- A tag with a comma comes back as two tags.
comma_splits : tags (some (join comma (codes "a,b" ∷ []))) ≡ codes "a" ∷ codes "b" ∷ []
unfolding tags split join trim list_beq
comma_splits = refl

plain_a : IsPlainTag (codes "a")
unfolding trim
plain_a = record { no_comma = (λ e. omega arith, tt); not_empty = λ e. cc; trimmed = refl }

abbrev alice : PagePath
alice = record { segments = codes "alice" ∷ [] }

parse-alice : parse (codes "alice") ≡ ok alice
unfolding parse check_segments split strip_suffix starts_with contains_byte list_beq has_control
    trimmed
parse-alice = refl

abbrev page : Page crates
page = record {
  path = alice;
  metadata = record {
    schema_version = 7;
    title = codes "Alice";
    tags = codes "person" ∷ [];
    created_at = codes "t0";
    updated_at = codes "t1";
    created_by = some (codes "one");
    updated_by = none;
    extra = crates.empty;
  };
  body = codes "Hello";
  revision = codes "r";
}

plain_path : strip_suffix markdown_extension (as_str alice) ≡ none
unfolding strip_suffix as_str list_beq join
plain_path = refl

try_from-from_page_example : try_from crates (from_page crates page []) ≡ ok page
try_from-from_page_example =
    try_from-from_page crates page [] (parse-IsValid (codes "alice") alice parse-alice) plain_path
