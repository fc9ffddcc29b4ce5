-- ===== src/Memory/FsStore.antt =====
-- services/memory_rs/src/fs_store.rs: the store over a directory of Markdown files. What the source
-- mutates is threaded: the counter of temporary files and the disk as a pair, and the lists
-- `staged`, `backups` and `installed` as arguments.
pub mod Disk
pub mod Names
pub mod Steps
pub mod Staging
pub mod Backups
pub mod Install
pub mod Commit
pub mod Checked
pub mod Pages
pub mod Undo
pub mod UndoInstall
pub mod Atomic
pub mod ReadWrite
pub mod Lost
pub mod InMemoryDisk
mod Tests
use agentspace.Common.{
  ℕ, zero, suc, ◌+◌, ◌-◌, ◌%◌, ◌^◌, Bool, not, ◌||◌, List, [], ◌∷◌, ◌++◌, arith, length, take, ◌==◌,
  nat_eq, list_eq, option_eq, contains, Result, ok, err, ◌>>=◌, ◌>>◌, Bytes, codes,
}
use agentspace.Common.{decimal}
use agentspace.Memory.Crates.{Crates}
use agentspace.Memory.Error.{
  M, IoError, invalid_path, not_found, already_exists, lock, io, io_not_found, io_other,
  duplicate_replacement,
}
use agentspace.Memory.Path.{PagePath, FilePath, path_eq, as_str, resolve_within, last_or}
use agentspace.Memory.Model.{revision_of}
use agentspace.Memory.Service.{fail_if}
use agentspace.Memory.FsStore.Disk.{FileSystem, ◌▸◌, as_memory, on_err}

abbrev pub lock_file_name : Bytes
lock_file_name = codes ".memory.lock"

-- `file_name()`, or `"page"` where there is none.
abbrev pub file_name_of : FilePath → Bytes
file_name_of destination = last_or (codes "page") destination

abbrev pub parent_of : FilePath → FilePath
parent_of destination = take (length destination - 1) destination

abbrev pub with_file_name : FilePath → Bytes → FilePath
with_file_name destination name = parent_of destination ++ name ∷ []

-- `fetch_add` on an `AtomicU64`, which wraps around.
unfoldable pub next_counter : ℕ → ℕ
next_counter n = (n + 1) % 2 ^ 64

module _ (process_id : Bytes) where
  unfoldable pub temp_path_for : FilePath → ℕ → FilePath
  temp_path_for destination counter = with_file_name destination (
      b'.'
      ∷ (file_name_of destination ++ (codes ".tmp-" ++ (process_id ++ b'-' ∷ decimal counter))))

  unfoldable pub transaction_path_for : FilePath → Bytes → ℕ → FilePath
  transaction_path_for destination marker transaction_id = with_file_name destination (
      b'.'
      ∷ (file_name_of destination
          ++ (b'.' ∷ (marker ++ b'-' ∷ (process_id ++ b'-' ∷ decimal transaction_id)))))

module _ (fs : FileSystem) where
  abbrev pub FileOutcome : Type 0
  FileOutcome = Result IoError (Unit {0}) × fs.State

  -- A step on the disk, with the counter beside it.
  abbrev pub on_disk :
      {A : Type 0} → (fs.State → M A × fs.State) → ℕ × fs.State → M A × (ℕ × fs.State)
  on_disk step t = let after = step t.1 in (after.0, (t.0, after.1))

  -- The closure that both writers of files start with.
  unfoldable pub write_synced : FilePath → Bytes → fs.State → FileOutcome
  write_synced path bytes s =
      fs.create path s ▸ (λ _ s1. fs.write_all path bytes s1) ▸ (λ _ s2. fs.sync_all path s2)

  -- `if let Err(error) = … { remove_file(temporary); return Err(error) }`
  abbrev pub or_remove : FilePath → FileOutcome → M (Unit {0}) × fs.State
  or_remove temporary r = on_err (λ s. (fs.remove_file temporary s).1) (as_memory r)

  unfoldable pub write_atomically : FilePath → FilePath → Bytes → fs.State → M (Unit {0}) × fs.State
  unfolding write_synced
  write_atomically temporary destination bytes s =
      or_remove temporary (write_synced temporary bytes s) ▸ λ _ s1.
      or_remove temporary (fs.rename temporary destination s1)

  unfoldable pub cleanup_staged : List (FilePath × FilePath) → fs.State → fs.State
  cleanup_staged [] s = s
  cleanup_staged ((temporary, _) ∷ rest) s = cleanup_staged rest (fs.remove_file temporary s).1

  -- From the last to the first.
  unfoldable pub restore_backups : List (FilePath × FilePath) → fs.State → fs.State
  restore_backups [] s = s
  restore_backups ((backup, original) ∷ rest) s =
      (fs.rename backup original (restore_backups rest s)).1

  unfoldable pub remove_installed : List FilePath → fs.State → fs.State
  remove_installed [] s = s
  remove_installed (path ∷ rest) s = (fs.remove_file path (remove_installed rest s)).1

  unfoldable pub remove_backups : List (FilePath × FilePath) → fs.State → fs.State
  remove_backups [] s = s
  remove_backups ((backup, _) ∷ rest) s = remove_backups rest (fs.remove_file backup s).1

module _ (fs : FileSystem) (process_id : Bytes) where
  -- The change that is staged: its temporary file and its destination.
  unfoldable pub stage_change : FilePath → Bytes → ℕ → fs.State → M (FilePath × FilePath) × fs.State
  unfolding transaction_path_for write_synced
  stage_change destination bytes transaction_id s =
      let temporary = transaction_path_for process_id destination (codes "stage") transaction_id in
      as_memory (fs.create_dir_all (parent_of destination) s)
      ▸ (λ _ s1. or_remove fs temporary (write_synced fs temporary bytes s1))
      ▸ (λ _ s2. (ok (temporary, destination), s2))

  unfoldable pub backup_file : FilePath → ℕ → fs.State → M (FilePath × FilePath) × fs.State
  unfolding transaction_path_for
  backup_file original transaction_id s =
      let backup = transaction_path_for process_id original (codes "backup") transaction_id in
      as_memory (fs.rename original backup s) ▸ λ _ s1. (ok (backup, original), s1)

module _ (fs : FileSystem) where
  unfoldable pub install_all :
      List (FilePath × FilePath)
      → List (FilePath × FilePath)
      → List (FilePath × FilePath)
      → List FilePath
      → fs.State
      → M (Unit {0}) × fs.State
  unfolding cleanup_staged restore_backups remove_installed
  install_all staged backups [] installed s = (ok tt, s)
  install_all staged backups ((temporary, destination) ∷ rest) installed s =
      on_err
        (λ t.
          cleanup_staged fs staged (restore_backups fs backups (remove_installed fs installed t)))
        (as_memory (fs.rename temporary destination s))
      ▸ λ _ s1. install_all staged backups rest (installed ++ destination ∷ []) s1

module _ (fs : FileSystem) (root : FilePath) where
  abbrev pub resolved : PagePath → fs.State → M FilePath
  resolved p s = resolve_within (fs.symlink_metadata s) root p

  unfoldable pub with_lock : fs.State → M (Unit {0})
  with_lock s = elim (fs.open_lock (root ++ lock_file_name ∷ []) s) as (λ _. M (Unit {0})) [
    | err e ↦ err (io e)
    | ok _ ↦ elim (fs.flock s) as (λ _. M (Unit {0})) [ err text ↦ err (lock text) | ok _ ↦ ok tt ]
  ]

  unfoldable pub exists : PagePath → fs.State → M Bool
  exists p s = do full_path ← resolved p s; ok (fs.is_file full_path s)

  abbrev pub removal_error :
      PagePath → Result IoError (Unit {0}) × fs.State → M (Unit {0}) × fs.State
  removal_error p (err io_not_found, s) = (err (not_found (as_str p)), s)
  removal_error p (err (io_other n), s) = (err (io (io_other n)), s)
  removal_error p (ok u, s) = (ok u, s)

  unfoldable pub remove_file : PagePath → ℕ × fs.State → M (Unit {0}) × (ℕ × fs.State)
  remove_file p t = (resolved p t.1, t) ▸ λ full_path t1.
      on_disk fs (λ s. removal_error p (fs.remove_file full_path s)) t1

  -- The loop that checks the replacements, with the paths seen so far.
  unfoldable pub check_replacements :
      PagePath → PagePath → List PagePath → List (PagePath × Bytes) → fs.State → M (Unit {0})
  check_replacements source destination unique_paths [] s = ok tt
  check_replacements source destination unique_paths ((p, _) ∷ rest) s = do
    fail_if (p == source || p == destination || contains unique_paths p)
        (invalid_path (as_str p) duplicate_replacement)
    full_path ← resolved p s
    fail_if (not (fs.is_file full_path s)) (not_found (as_str p))
    check_replacements source destination (p ∷ unique_paths) rest s

  -- What `commit_move` asks before it changes anything: the files of the two pages.
  unfoldable pub check_move :
      PagePath → PagePath → List (PagePath × Bytes) → fs.State → M (FilePath × FilePath)
  unfolding check_replacements
  check_move source destination replacements s = do
    source_full ← resolved source s
    destination_full ← resolved destination s
    fail_if (not (fs.is_file source_full s)) (not_found (as_str source))
    fail_if (fs.exists destination_full s) (already_exists (as_str destination))
    check_replacements source destination [] replacements s
    ok (source_full, destination_full)

module _ (c : Crates) (fs : FileSystem) (root : FilePath) where
  abbrev pub bytes_read : PagePath → Result IoError Bytes → M (Bytes × Bytes)
  bytes_read p (ok bytes) = ok (bytes, revision_of c bytes)
  bytes_read p (err io_not_found) = err (not_found (as_str p))
  bytes_read p (err (io_other n)) = err (io (io_other n))

  unfoldable pub read_bytes : PagePath → fs.State → M (Bytes × Bytes)
  read_bytes p s = do full_path ← resolved fs root p s; bytes_read p (fs.read full_path s)

module _ (c : Crates) (fs : FileSystem) (process_id : Bytes) (root : FilePath) where
  unfoldable pub write_bytes : PagePath → Bytes → ℕ × fs.State → M Bytes × (ℕ × fs.State)
  unfolding temp_path_for write_atomically next_counter
  write_bytes p bytes t = (resolved fs root p t.1, t) ▸ λ full_path t1.
      on_disk fs (λ s. as_memory (fs.create_dir_all (parent_of full_path) s)) t1 ▸ λ _ t2.
      on_disk fs (write_atomically fs (temp_path_for process_id full_path t2.0) full_path bytes)
        (next_counter t2.0, t2.1)
      ▸ λ _ t3. (ok (revision_of c bytes), t3)

module _ (fs : FileSystem) (process_id : Bytes) (root : FilePath) where
  unfoldable pub stage_all :
      ℕ
      → List (PagePath × Bytes)
      → List (FilePath × FilePath)
      → fs.State
      → M (List (FilePath × FilePath)) × fs.State
  unfolding stage_change cleanup_staged
  stage_all transaction_id [] staged s = (ok staged, s)
  stage_all transaction_id ((p, bytes) ∷ rest) staged s =
      (resolved fs root p s, s) ▸ λ full_path s1.
      on_err (cleanup_staged fs staged)
        (stage_change fs process_id full_path bytes transaction_id s1)
      ▸ λ change s2. stage_all transaction_id rest (staged ++ change ∷ []) s2

  unfoldable pub backup_all :
      ℕ
      → List (FilePath × FilePath)
      → List (PagePath × Bytes)
      → List (FilePath × FilePath)
      → fs.State
      → M (List (FilePath × FilePath)) × fs.State
  unfolding backup_file cleanup_staged restore_backups
  backup_all transaction_id staged [] backups s = (ok backups, s)
  backup_all transaction_id staged ((p, _) ∷ rest) backups s =
      (resolved fs root p s, s) ▸ λ full_path s1.
      on_err (λ t. cleanup_staged fs staged (restore_backups fs backups t))
        (backup_file fs process_id full_path transaction_id s1)
      ▸ λ moved s2. backup_all transaction_id staged rest (backups ++ moved ∷ []) s2

  -- What `commit_move` does once the transaction has its number.
  unfoldable pub run_transaction :
      ℕ → FilePath → FilePath → Bytes → List (PagePath × Bytes) → fs.State → M (Unit {0}) × fs.State
  unfolding stage_change backup_file stage_all backup_all install_all remove_backups cleanup_staged
  run_transaction transaction_id source_full destination_full bytes replacements s =
      stage_change fs process_id destination_full bytes transaction_id s ▸ λ change s1.
      stage_all transaction_id replacements (change ∷ []) s1 ▸ λ staged s2.
      on_err (cleanup_staged fs staged) (backup_file fs process_id source_full transaction_id s2)
      ▸ λ moved s3. backup_all transaction_id staged replacements (moved ∷ []) s3 ▸ λ backups s4.
          install_all fs staged backups staged [] s4 ▸ λ _ s5. (ok tt, remove_backups fs backups s5)

  unfoldable pub commit_move :
      PagePath
      → PagePath
      → Bytes
      → List (PagePath × Bytes)
      → ℕ × fs.State
      → M (Unit {0}) × (ℕ × fs.State)
  unfolding check_move run_transaction next_counter
  commit_move source destination bytes replacements t =
      (check_move fs root source destination replacements t.1, t) ▸ λ full t1.
      on_disk fs (run_transaction t1.0 full.0 full.1 bytes replacements) (next_counter t1.0, t1.1)
