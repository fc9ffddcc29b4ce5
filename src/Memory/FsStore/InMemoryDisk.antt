-- ===== src/Memory/FsStore/InMemoryDisk.antt =====
-- A file system in memory, with chosen failures: the files in a list, a test of the renames that
-- fail, and what `symlink_metadata` says of a path.
use agentspace.Common.{
  ◌≡◌, refl, sym, ap, ◌∙◌, ◌≢◌, Bool, true, false, Option, none, some, List, [], ◌++◌, nat_eq,
  list_eq, option_eq, Result, ok, err, look_up, delete, put, look_up-delete_same,
  look_up-delete_other, look_up-put_same, look_up-put_other, Bytes,
}
use agentspace.Memory.Error.{IoError, io_not_found, io_other}
use agentspace.Memory.Path.{FilePath, FileType}
use agentspace.Memory.FsStore.Disk.{FileSystem, FileSystemLaws}

abbrev pub Files : Type 0
Files = List (FilePath × Bytes)

abbrev pub is_present : Option Bytes → Bool
is_present none = false
is_present (some _) = true

abbrev pub read_from : Option Bytes → Result IoError Bytes
read_from none = err io_not_found
read_from (some bytes) = ok bytes

abbrev pub bytes_or_nil : Option Bytes → Bytes
bytes_or_nil none = []
bytes_or_nil (some bytes) = bytes

abbrev pub removal : FilePath → Files → Option Bytes → Result IoError (Unit {0}) × Files
removal x s none = (err io_not_found, s)
removal x s (some _) = (ok tt, delete x s)

abbrev pub renaming :
    FilePath → FilePath → Files → Option Bytes → Bool → Result IoError (Unit {0}) × Files
renaming x y s found true = (err (io_other 5), s)
renaming x y s none false = (err io_not_found, s)
renaming x y s (some bytes) false = (ok tt, put y bytes (delete x s))

pub present_true : (o : Option Bytes) → is_present o ≡ true → o ≢ none
present_true none h k = cc
present_true (some b) h k = cc

pub present_false : (o : Option Bytes) → is_present o ≡ false → o ≡ none
present_false none h = refl
present_false (some b) h = cc

pub read_present : (o : Option Bytes) (bytes : Bytes) → read_from o ≡ ok bytes → o ≡ some bytes
read_present none bytes h = cc
read_present (some b) bytes h = cc

pub read_absent : (o : Option Bytes) → read_from o ≡ err io_not_found → o ≡ none
read_absent none h = refl
read_absent (some b) h = cc

pub renaming-eq-ok :
    (x y : FilePath) (s : Files) (o : Option Bytes) (b : Bool)
    → x ≢ y
    → (renaming x y s o b).0 ≡ ok tt
    → (o ≢ none)
      × (look_up y (renaming x y s o b).1 ≡ o)
      × (look_up x (renaming x y s o b).1 ≡ none)
renaming-eq-ok x y s o true n h = cc
renaming-eq-ok x y s none false n h = cc
renaming-eq-ok x y s (some bytes) false n h = (
  (λ e. cc),
  look_up-put_same y bytes (delete x s),
  look_up-put_other y x bytes (delete x s) n ∙ look_up-delete_same x s,
)

pub renaming-others :
    (x y z : FilePath) (s : Files) (o : Option Bytes) (b : Bool)
    → x ≢ z
    → y ≢ z
    → look_up z (renaming x y s o b).1 ≡ look_up z s
renaming-others x y z s o true n k = refl
renaming-others x y z s none false n k = refl
renaming-others x y z s (some bytes) false n k =
    look_up-put_other y z bytes (delete x s) (λ e. k (sym e))
    ∙ look_up-delete_other x z s (λ e. n (sym e))

pub renaming-eq-err :
    (x y z : FilePath) (s : Files) (o : Option Bytes) (b : Bool) (e : IoError)
    → (renaming x y s o b).0 ≡ err e
    → look_up z (renaming x y s o b).1 ≡ look_up z s
renaming-eq-err x y z s o true e h = refl
renaming-eq-err x y z s none false e h = refl
renaming-eq-err x y z s (some bytes) false e h = cc

pub removal-eq-ok :
    (x : FilePath) (s : Files) (o : Option Bytes)
    → (removal x s o).0 ≡ ok tt
    → look_up x (removal x s o).1 ≡ none
removal-eq-ok x s none h = cc
removal-eq-ok x s (some b) h = look_up-delete_same x s

pub removal-others :
    (x y : FilePath) (s : Files) (o : Option Bytes)
    → x ≢ y
    → look_up y (removal x s o).1 ≡ look_up y s
removal-others x y s none h = refl
removal-others x y s (some b) h = look_up-delete_other x y s (λ e. h (sym e))

pub removal-eq-err :
    (x y : FilePath) (s : Files) (o : Option Bytes) (e : IoError)
    → (removal x s o).0 ≡ err e
    → look_up y (removal x s o).1 ≡ look_up y s
removal-eq-err x y s none e h = refl
removal-eq-err x y s (some b) e h = cc

pub removal_of_present :
    (x : FilePath) (s : Files) (o : Option Bytes) → o ≢ none → (removal x s o).0 ≡ ok tt
removal_of_present x s none h = absurd (h refl)
removal_of_present x s (some b) h = refl

pub renaming_of_present :
    (x y : FilePath) (s : Files) (o : Option Bytes) (b : Bool)
    → o ≢ none
    → b ≡ false
    → (renaming x y s o b).0 ≡ ok tt
renaming_of_present x y s o true h k = cc
renaming_of_present x y s none false h k = absurd (h refl)
renaming_of_present x y s (some bytes) false h k = refl

module _ (fails : FilePath → FilePath → Bool)
    (metadata : Files → FilePath → Result IoError FileType) where
  abbrev pub disk_in_memory : FileSystem
  disk_in_memory = record {
    State = Files;
    symlink_metadata = metadata;
    is_file = λ x s. is_present (look_up x s);
    exists = λ x s. is_present (look_up x s);
    read = λ x s. read_from (look_up x s);
    create_dir_all = λ x s. (ok tt, s);
    create = λ x s. (ok tt, put x [] s);
    write_all = λ x bytes s. (ok tt, put x (bytes_or_nil (look_up x s) ++ bytes) s);
    sync_all = λ x s. (ok tt, s);
    rename = λ x y s. renaming x y s (look_up x s) (fails x y);
    remove_file = λ x s. removal x s (look_up x s);
    open_lock = λ x s. ok tt;
    flock = λ s. ok tt;
  }

  abbrev pub disk_laws : FileSystemLaws disk_in_memory
  disk_laws = record {
    file = look_up;
    is_file_true = λ x s. present_true (look_up x s);
    is_file_false = λ x s. present_false (look_up x s);
    exists_false = λ x s. present_false (look_up x s);
    read_ok = λ x s. read_present (look_up x s);
    read_not_found = λ x s. read_absent (look_up x s);
    create_dir_all_files = λ d x s. refl;
    create_ok = λ x s h. look_up-put_same x [] s;
    create_others = λ x y s n. look_up-put_other x y [] s (λ e. n (sym e));
    write_all_ok = λ x bytes s empty h.
        look_up-put_same x (bytes_or_nil (look_up x s) ++ bytes) s
        ∙ ap (λ o. some (bytes_or_nil o ++ bytes)) empty;
    write_all_others = λ x y bytes s n. look_up-put_other x y _ s (λ e. n (sym e));
    sync_all_files = λ x y s. refl;
    rename_ok = λ x y s. renaming-eq-ok x y s (look_up x s) (fails x y);
    rename_others = λ x y z s. renaming-others x y z s (look_up x s) (fails x y);
    rename_err = λ x y z s. renaming-eq-err x y z s (look_up x s) (fails x y);
    remove_ok = λ x s. removal-eq-ok x s (look_up x s);
    remove_others = λ x y s. removal-others x y s (look_up x s);
    remove_err = λ x y s. removal-eq-err x y s (look_up x s);
  }
