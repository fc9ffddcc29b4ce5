-- ===== src/Memory/Service/Tests.antt =====
-- The operations on pages at a small store in memory.
use agentspace.Common.{bytes_ltb, insert_sorted, sort, dedup}
use agentspace.Common.{
  look_up, delete, ◌≡◌, refl, ◌≢◌, false, none, some, List, [], ◌∷◌, ◌++◌, nat_eq, list_beq,
  option_beq, list_eq, option_eq, contains, ok, err, Bytes, codes, starts_with, strip_prefix,
  strip_suffix, contains_byte, contains_str, find_byte, split, join, trim, is_utf8,
}
use agentspace.Memory.Sample.{crates, yaml_line, value_beq}
use agentspace.Memory.Path.{
  PagePath, as_str, path_eq, path_beq, parse, check_segments, has_control, trimmed, parent,
}
use agentspace.Memory.Error.{already_exists, not_found}
use agentspace.Memory.Links.{
  rewrite_links, parse_links, parse_links_from, relative_target, resolve_relative_target,
  base_dir_of,
}
use agentspace.Memory.Model.{
  Page, WritePageRequest, RemovePageRequest, MovePageRequest, MoveOutcome, revision_of, hex,
}
use agentspace.Memory.Frontmatter.{
  parse_document, render_document, trim_end_newlines, drop_newlines, find_str, split_frontmatter,
  strip_line_end,
}
use agentspace.Memory.Store.{MemoryStore, StoreLaws}
use agentspace.Memory.Store.InMemory.{in_memory, in_memory-StoreLaws}
use agentspace.Memory.Service.{
  validate_title, validate_tags, normalize_tags, normalize_tag, optional, check_write,
  next_metadata,
}
use agentspace.Memory.Service.Pages.{
  write_page, remove_page, move_page, validate_write, plan_write, plan_move, plan_remove,
  replacements_of,
}
use agentspace.Memory.Service.Write.{IsWritten, write_page-eq-ok, write_page-write_page_stale}
use agentspace.Memory.Service.Remove.{IsExpected, remove_page-eq-ok}
use agentspace.Memory.Service.Move.{IsMoved, move_page-eq-ok}

abbrev store : MemoryStore
store = in_memory crates

abbrev laws : StoreLaws crates store
laws = in_memory-StoreLaws crates

abbrev alice : PagePath
alice = record { segments = codes "alice" ∷ [] }

abbrev bob : PagePath
bob = record { segments = codes "bob" ∷ [] }

abbrev carol : PagePath
carol = record { segments = codes "carol" ∷ [] }

abbrev document : Bytes → Bytes
document body = codes "---" ++ 10 ∷ yaml_line ++ (10 ∷ []) ++ codes "---" ++ 10 ∷ 10 ∷ body

abbrev hello : Bytes
hello = codes "Hello" ++ (10 ∷ [])

abbrev creation : WritePageRequest
creation = record {
  path = alice;
  title = some (codes "Alice");
  tags = some (codes "b" ∷ codes "a" ∷ codes "b" ∷ []);
  body = codes "Hello";
  overwrite = false;
  expected_revision = none;
  actor = none;
}

abbrev created : Page crates
created = record {
  path = alice;
  metadata = record {
    schema_version = 1;
    title = codes "Alice";
    tags = codes "a" ∷ codes "b" ∷ [];
    created_at = codes "t1";
    updated_at = codes "t1";
    created_by = none;
    updated_by = none;
    extra = crates.empty;
  };
  body = hello;
  revision = revision_of crates (document hello);
}

create-alice :
    write_page crates store creation (codes "t1") [] ≡ (ok created, (alice, document hello) ∷ [])
unfolding write_page plan_write validate_write validate_title validate_tags normalize_tags sort
    insert_sorted bytes_ltb dedup normalize_tag optional check_write next_metadata look_up delete
    render_document list_beq trim trim_end_newlines drop_newlines
create-alice = refl

write_page-eq-ok_example :
    IsWritten crates store laws creation created [] ((alice, document hello) ∷ [])
write_page-eq-ok_example =
    write_page-eq-ok crates store laws creation (codes "t1") [] _ created create-alice

abbrev alice_only : store.State
alice_only = (alice, document hello) ∷ []

create_again :
    write_page crates store creation (codes "t2") alice_only
    ≡ (err (already_exists (as_str alice)), alice_only)
unfolding write_page plan_write validate_write validate_title validate_tags normalize_tags sort
    insert_sorted bytes_ltb dedup normalize_tag optional check_write next_metadata look_up delete
    render_document list_beq trim trim_end_newlines drop_newlines path_beq
create_again = refl

-- A second writer that has seen an older revision.
abbrev late : WritePageRequest
late = record creation { body = codes "Late"; expected_revision = some (codes "0") }

hello-revision : revision_of crates (document hello) ≢ codes "0"
unfolding revision_of hex
hello-revision e = cc

write_page-write_page_stale_example :
    write_page crates store late (codes "t2") alice_only ≢ (ok created, alice_only)
write_page-write_page_stale_example =
    write_page-write_page_stale crates store laws creation late (codes "t1") (codes "t2") []
      alice_only alice_only created created (codes "0") create-alice refl refl hello-revision

abbrev removal : RemovePageRequest
removal = record { path = alice; expected_revision = some (revision_of crates (document hello)) }

remove-alice : remove_page crates store removal alice_only ≡ (ok tt, [])
unfolding remove_page plan_remove look_up delete path_beq list_beq revision_of hex
remove-alice = refl

remove_page-eq-ok_example :
    ((bytes : Bytes) × (laws.contents alice alice_only ≡ some bytes)
      × IsExpected crates (some (revision_of crates (document hello))) bytes)
    × (laws.contents alice [] ≡ none)
    × ((q : PagePath) → q ≢ alice → laws.contents q [] ≡ laws.contents q alice_only)
remove_page-eq-ok_example = remove_page-eq-ok crates store laws removal alice_only [] remove-alice

abbrev removal_of_bob : RemovePageRequest
removal_of_bob = record { path = bob; expected_revision = none }

remove-bob :
    remove_page crates store removal_of_bob alice_only ≡ (err (not_found (as_str bob)), alice_only)
unfolding remove_page plan_remove look_up delete path_beq list_beq
remove-bob = refl

abbrev link_to : Bytes → Bytes
link_to target = codes "[x](" ++ target ++ codes ".md)" ++ (10 ∷ [])

abbrev with_referrer : store.State
with_referrer = (alice, document hello) ∷ (carol, document (link_to (codes "alice"))) ∷ []

abbrev relocation : MovePageRequest
relocation = record { source = alice; destination = bob; expected_revision = none; actor = none }

abbrev relocated : MoveOutcome
relocated = record {
  source = codes "alice";
  destination = codes "bob";
  revision = revision_of crates (document hello);
  updated_referrers = codes "carol" ∷ [];
}

abbrev after_relocation : store.State
after_relocation = (bob, document hello) ∷ (carol, document (link_to (codes "bob"))) ∷ []

move-alice : move_page crates store relocation with_referrer ≡ (ok relocated, after_relocation)
unfolding move_page plan_move replacements_of look_up delete path_beq list_beq option_beq contains
    as_str join parse_document is_utf8 split_frontmatter find_str starts_with strip_line_end
    strip_prefix value_beq render_document rewrite_links parse_links parse_links_from find_byte
    relative_target resolve_relative_target contains_byte split trim strip_suffix parse
    check_segments has_control trimmed base_dir_of parent trim_end_newlines drop_newlines
    contains_str
move-alice = refl

move_page-eq-ok_example :
    IsMoved crates store laws relocation relocated with_referrer after_relocation
move_page-eq-ok_example =
    move_page-eq-ok crates store laws relocation relocated with_referrer after_relocation move-alice

abbrev relocation_to_carol : MovePageRequest
relocation_to_carol = record relocation { destination = carol }

move_to_taken :
    move_page crates store relocation_to_carol with_referrer
    ≡ (err (already_exists (as_str carol)), with_referrer)
unfolding move_page plan_move look_up path_beq list_beq
move_to_taken = refl

abbrev given_tags : List Bytes
given_tags = codes " b" ∷ codes "a" ∷ codes "b" ∷ []
