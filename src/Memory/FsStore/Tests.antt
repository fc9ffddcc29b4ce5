-- ===== src/Memory/FsStore/Tests.antt =====
-- The file system store at concrete files.
use agentspace.Common.{
  ◌≡◌, refl, sym, ◌∙◌, ◌≢◌, Bool, false, not, ◌&&◌, none, some, List, [], ◌∷◌, ◌++◌, if◌then◌else◌,
  All, ◌==◌, nat_eq, list_beq, list_eq, option_eq, ne→beq-false, contains, Result, ok, err, look_up,
  delete, Bytes, codes, starts_with, strip_suffix, contains_byte, split, join,
}
use agentspace.Memory.Error.{IoError, io_other, io, invalid_path, symlink}
use agentspace.Memory.Path.{
  PagePath, FilePath, FileType, regular, symbolic_link, path_eq, path_beq, last_or, parse,
  file_components, resolve_within, reject_symlink, check_segments, has_control,
}
use agentspace.Memory.Path.Valid.{IsValid, parse-IsValid}
use agentspace.Memory.Store.{paths_of}
use agentspace.Memory.FsStore.Pages.{commit_move-eq-ok}
use agentspace.Memory.FsStore.Atomic.{commit_move-eq-err}
use agentspace.Memory.Sample.{crates}
use agentspace.Common.{decimal}
use agentspace.Memory.FsStore.{
  commit_move, write_bytes, run_transaction, stage_change, stage_all, backup_file, resolved,
  transaction_path_for,
}
use agentspace.Memory.FsStore.Disk.{FileSystem}
use agentspace.Memory.FsStore.Names.{IsPageFile, stage-ne-backup}
use agentspace.Memory.FsStore.Steps.{stage_of, backup_of}
use agentspace.Memory.FsStore.Backups.{Rollback}
use agentspace.Memory.FsStore.ReadWrite.{IsWrite, write_bytes-IsWrite}
use agentspace.Memory.FsStore.Lost.{run_transaction_source_lost}
use agentspace.Memory.FsStore.InMemoryDisk.{
  Files, is_present, disk_in_memory, disk_laws, renaming_of_present, removal_of_present,
}

abbrev pid : Bytes
pid = codes "41"

abbrev root : FilePath
root = codes "mem" ∷ []

abbrev alice : PagePath
alice = record { segments = codes "people" ∷ codes "alice" ∷ [] }

abbrev bob : PagePath
bob = record { segments = codes "people" ∷ codes "bob" ∷ [] }

abbrev notes : PagePath
notes = record { segments = codes "notes" ∷ [] }

abbrev alice_file : FilePath
alice_file = codes "mem" ∷ codes "people" ∷ codes "alice.md" ∷ []

abbrev bob_file : FilePath
bob_file = codes "mem" ∷ codes "people" ∷ codes "bob.md" ∷ []

abbrev notes_file : FilePath
notes_file = codes "mem" ∷ codes "notes.md" ∷ []

abbrev files : Files
files = (alice_file, codes "a") ∷ (notes_file, codes "n") ∷ []

abbrev never : FilePath → FilePath → Bool
never x y = false

abbrev plain : Files → FilePath → Result IoError FileType
plain s x = ok regular

parse-alice : parse (codes "people/alice") ≡ ok alice
unfolding parse list_beq starts_with contains_byte check_segments split strip_suffix has_control
parse-alice = refl

alice-IsValid : IsValid alice
alice-IsValid = parse-IsValid (codes "people/alice") alice parse-alice

parse-notes : parse (codes "notes") ≡ ok notes
unfolding parse list_beq starts_with contains_byte check_segments split strip_suffix has_control
parse-notes = refl

notes-IsValid : IsValid notes
notes-IsValid = parse-IsValid (codes "notes") notes parse-notes

parse-bob : parse (codes "people/bob") ≡ ok bob
unfolding parse list_beq starts_with contains_byte check_segments split strip_suffix has_control
parse-bob = refl

bob-IsValid : IsValid bob
bob-IsValid = parse-IsValid (codes "people/bob") bob parse-bob

alice-IsPageFile : IsPageFile alice_file
alice-IsPageFile = record {
  directory = codes "mem" ∷ codes "people" ∷ [];
  stem = codes "alice";
  named = refl;
}

abbrev replacements : List (PagePath × Bytes)
replacements = (notes, codes "m") ∷ []

abbrev moved_files : Files
moved_files = (notes_file, codes "m") ∷ (bob_file, codes "b") ∷ []

commit_move-moved :
    commit_move (disk_in_memory never plain) pid root alice bob (codes "b") replacements (7, files)
    ≡ (ok tt, (8, moved_files))
unfolding commit_move resolve_within reject_symlink look_up list_beq path_beq contains delete
    decimal
commit_move-moved = refl

commit_move-eq-ok_example :
    (look_up (root ++ file_components alice) moved_files ≡ none)
    × (look_up (root ++ file_components bob) moved_files ≡ some (codes "b"))
    × All
        (λ (p, new_bytes). look_up (root ++ file_components p) moved_files ≡ some new_bytes)
        replacements
    × ((q : PagePath)
        → IsValid q
        → q ≢ alice
        → q ≢ bob
        → contains (paths_of replacements) q ≡ false
        → look_up (root ++ file_components q) moved_files
          ≡ look_up (root ++ file_components q) files)
commit_move-eq-ok_example =
    commit_move-eq-ok (disk_in_memory never plain) (disk_laws never plain) pid root alice bob
      (codes "b") replacements (7, files) (8, moved_files) alice-IsValid bob-IsValid
      (notes-IsValid, tt) commit_move-moved

-- The staged file of the destination cannot be moved into its place.
abbrev bob_staged : FilePath
bob_staged = codes "mem" ∷ codes "people" ∷ codes ".bob.md.stage-41-7" ∷ []

abbrev not_to_bob : FilePath → FilePath → Bool
not_to_bob x y = x == bob_staged

commit_move-failed :
    commit_move
      (disk_in_memory not_to_bob plain)
      pid
      root
      alice
      bob
      (codes "b")
      replacements
      (7, files)
    ≡ (err (io (io_other 5)), (8, files))
unfolding commit_move resolve_within reject_symlink look_up list_beq path_beq contains delete
    decimal
commit_move-failed = refl

bob_staged-named : stage_of pid 7 bob_file ≡ bob_staged
unfolding transaction_path_for last_or decimal
bob_staged-named = refl

staged-not-backup : (o : FilePath) → not_to_bob (backup_of pid 7 o) o ≡ false
staged-not-backup o =
    ne→beq-false (backup_of pid 7 o) bob_staged
      (λ e. stage-ne-backup pid bob_file o 7 (bob_staged-named ∙ sym e))

rolls_back : Rollback (disk_in_memory not_to_bob plain) (disk_laws not_to_bob plain) pid 7
rolls_back = record {
  restores = λ o s page there.
      renaming_of_present (backup_of pid 7 o) o s (look_up (backup_of pid 7 o) s) _ there
        (staged-not-backup o);
  removes = λ y s there. removal_of_present y s (look_up y s) there;
}

commit_move-eq-err_example :
    look_up (root ++ file_components alice) files ≡ look_up (root ++ file_components alice) files
commit_move-eq-err_example =
    commit_move-eq-err (disk_in_memory not_to_bob plain) (disk_laws not_to_bob plain) pid root alice
      bob (codes "b") replacements (io (io_other 5)) (7, files) (8, files) rolls_back
      (λ p s s' full h. h) alice-IsValid bob-IsValid (notes-IsValid, tt) commit_move-failed alice

write_bytes-IsWrite_example :
    IsWrite crates
      (disk_in_memory never plain)
      (disk_laws never plain)
      pid
      root
      alice
      (codes "new")
      (7, files)
      (write_bytes crates (disk_in_memory never plain) pid root alice (codes "new") (7, files))
write_bytes-IsWrite_example =
    write_bytes-IsWrite crates (disk_in_memory never plain) (disk_laws never plain) pid root alice
      (codes "new") (7, files) alice-IsValid

-- Once the source has been moved aside, the page that is replaced has become a symbolic link.
abbrev breaking : Files → FilePath → Result IoError FileType
breaking s x =
    if x == notes_file && not (is_present (look_up alice_file s))
    then ok symbolic_link
    else ok regular

abbrev broken : FileSystem
broken = disk_in_memory never breaking

abbrev s1 : Files
s1 = (stage_change broken pid bob_file (codes "b") 7 files).1

abbrev bob_change : FilePath × FilePath
bob_change = (bob_staged, bob_file)

abbrev notes_change : FilePath × FilePath
notes_change = (codes "mem" ∷ codes ".notes.md.stage-41-7" ∷ [], notes_file)

abbrev alice_aside : FilePath
alice_aside = codes "mem" ∷ codes "people" ∷ codes ".alice.md.backup-41-7" ∷ []

abbrev s2 : Files
s2 = (stage_all broken pid root 7 replacements (bob_change ∷ []) s1).1

abbrev s3 : Files
s3 = (backup_file broken pid alice_file 7 s2).1

stage-bob : stage_change broken pid bob_file (codes "b") 7 files ≡ (ok bob_change, s1)
unfolding stage_change last_or decimal
stage-bob = refl

stage-notes :
    stage_all broken pid root 7 replacements (bob_change ∷ []) s1
    ≡ (ok (bob_change ∷ notes_change ∷ []), s2)
unfolding stage_all resolve_within reject_symlink list_beq look_up delete decimal
stage-notes = refl

backup-alice : backup_file broken pid alice_file 7 s2 ≡ (ok (alice_aside, alice_file), s3)
unfolding backup_file stage_all stage_change look_up list_beq delete decimal resolve_within
    reject_symlink
backup-alice = refl

resolved-broken : resolved broken root notes s3 ≡ err (invalid_path (codes "mem/notes.md") symlink)
unfolding backup_file stage_all stage_change look_up list_beq delete decimal resolve_within
    reject_symlink join
resolved-broken = refl

run_transaction_source_lost_example :
    (run_transaction broken pid root 7 alice_file bob_file (codes "b") replacements files
      ≡ (err (invalid_path (codes "mem/notes.md") symlink), s3))
    × (look_up alice_file s3 ≡ none)
    × (look_up alice_file s2 ≢ none)
    × (look_up (backup_of pid 7 alice_file) s3 ≡ look_up alice_file s2)
run_transaction_source_lost_example =
    run_transaction_source_lost broken (disk_laws never breaking) pid root 7 alice_file bob_file
      (codes "b") (codes "m") notes [] bob_change (alice_aside, alice_file)
      (bob_change ∷ notes_change ∷ []) (invalid_path (codes "mem/notes.md") symlink) files s1 s2 s3
      alice-IsPageFile stage-bob stage-notes backup-alice resolved-broken
