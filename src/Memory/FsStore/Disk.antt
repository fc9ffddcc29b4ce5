-- ===== src/Memory/FsStore/Disk.antt =====
-- What the file system store calls of the host (`std::fs`), as a record of operations on a state
-- with the laws that it relies on.
use agentspace.Common.{
  ◌≡◌, ◌≢◌, refl, Bool, true, false, Option, none, some, [], Bytes, Result, ok, err,
}
pub use agentspace.Common.{◌▸◌, ▸-eq-ok, ▸-eq-err, ▸-keeps}
use agentspace.Memory.Error.{M, MemoryError, IoError, io, io_not_found}
use agentspace.Memory.Path.{FilePath, Stat}

-- Each call that changes the disk gives the next state, after a failure as well.
pub record FileSystem : Type 1 where
  pub State : Type 0
  pub symlink_metadata : State → Stat
  pub is_file : FilePath → State → Bool
  pub exists : FilePath → State → Bool
  pub read : FilePath → State → Result IoError Bytes
  pub create_dir_all : FilePath → State → Result IoError (Unit {0}) × State
  -- `File::create`, and `write_all` and `sync_all` on the file that it opened.
  pub create : FilePath → State → Result IoError (Unit {0}) × State
  pub write_all : FilePath → Bytes → State → Result IoError (Unit {0}) × State
  pub sync_all : FilePath → State → Result IoError (Unit {0}) × State
  pub rename : FilePath → FilePath → State → Result IoError (Unit {0}) × State
  pub remove_file : FilePath → State → Result IoError (Unit {0}) × State
  -- `OpenOptions::open` of the lock file, and `FileExt::lock`, whose error is its text.
  pub open_lock : FilePath → State → Result IoError (Unit {0})
  pub flock : State → Result Bytes (Unit {0})

-- What a file holds, and which files a call leaves alone. A call that fails may still have changed
-- the file that it was given, except for `rename` and `remove_file`, which do all or nothing.
pub record FileSystemLaws (fs : FileSystem) : Type 0 where
  pub file : FilePath → fs.State → Option Bytes
  pub is_file_true : (x : FilePath) (s : fs.State) → fs.is_file x s ≡ true → file x s ≢ none
  pub is_file_false : (x : FilePath) (s : fs.State) → fs.is_file x s ≡ false → file x s ≡ none
  pub exists_false : (x : FilePath) (s : fs.State) → fs.exists x s ≡ false → file x s ≡ none
  pub read_ok :
      (x : FilePath) (s : fs.State) (bytes : Bytes) → fs.read x s ≡ ok bytes → file x s ≡ some bytes
  pub read_not_found :
      (x : FilePath) (s : fs.State) → fs.read x s ≡ err io_not_found → file x s ≡ none
  pub create_dir_all_files :
      (d x : FilePath) (s : fs.State) → file x (fs.create_dir_all d s).1 ≡ file x s
  pub create_ok :
      (x : FilePath) (s : fs.State) → (fs.create x s).0 ≡ ok tt → file x (fs.create x s).1 ≡ some []
  pub create_others : (x y : FilePath) (s : fs.State) → x ≢ y → file y (fs.create x s).1 ≡ file y s
  pub write_all_ok :
      (x : FilePath) (bytes : Bytes) (s : fs.State)
      → file x s ≡ some []
      → (fs.write_all x bytes s).0 ≡ ok tt
      → file x (fs.write_all x bytes s).1 ≡ some bytes
  pub write_all_others :
      (x y : FilePath) (bytes : Bytes) (s : fs.State)
      → x ≢ y
      → file y (fs.write_all x bytes s).1 ≡ file y s
  pub sync_all_files : (x y : FilePath) (s : fs.State) → file y (fs.sync_all x s).1 ≡ file y s
  pub rename_ok :
      (x y : FilePath) (s : fs.State)
      → x ≢ y
      → (fs.rename x y s).0 ≡ ok tt
      → (file x s ≢ none)
        × (file y (fs.rename x y s).1 ≡ file x s)
        × (file x (fs.rename x y s).1 ≡ none)
  pub rename_others :
      (x y z : FilePath) (s : fs.State) → x ≢ z → y ≢ z → file z (fs.rename x y s).1 ≡ file z s
  pub rename_err :
      (x y z : FilePath) (s : fs.State) (e : IoError)
      → (fs.rename x y s).0 ≡ err e
      → file z (fs.rename x y s).1 ≡ file z s
  pub remove_ok :
      (x : FilePath) (s : fs.State)
      → (fs.remove_file x s).0 ≡ ok tt
      → file x (fs.remove_file x s).1 ≡ none
  pub remove_others :
      (x y : FilePath) (s : fs.State) → x ≢ y → file y (fs.remove_file x s).1 ≡ file y s
  pub remove_err :
      (x y : FilePath) (s : fs.State) (e : IoError)
      → (fs.remove_file x s).0 ≡ err e
      → file y (fs.remove_file x s).1 ≡ file y s

module _ {ℓ} {S : Type ℓ} {A : Type 0} where
  -- `From<std::io::Error>`
  abbrev pub as_memory : Result IoError A × S → M A × S
  as_memory (err e, s) = (err (io e), s)
  as_memory (ok a, s) = (ok a, s)

  -- `if let Err(error) = … { undo; return Err(error) }`
  abbrev pub on_err : (S → S) → M A × S → M A × S
  on_err undo (err e, s) = (err e, undo s)
  on_err undo (ok a, s) = (ok a, s)

  pub on_err-eq-ok :
      (undo : S → S) (r : M A × S) (a : A) (s : S) → on_err undo r ≡ (ok a, s) → r ≡ (ok a, s)
  on_err-eq-ok undo (err e, s) a s' h = cc
  on_err-eq-ok undo (ok b, s) a s' h = h

  pub as_memory-eq-ok :
      (r : Result IoError A × S) (a : A) (s : S)
      → as_memory r ≡ (ok a, s)
      → (r.0 ≡ ok a) × (r.1 ≡ s)
  as_memory-eq-ok (err e, s) a t h = cc
  as_memory-eq-ok (ok b, s) a t h = (cc, cc)

  pub as_memory-eq-err :
      (r : Result IoError A × S) (e : MemoryError) (s : S)
      → as_memory r ≡ (err e, s)
      → (i : IoError) × (r.0 ≡ err i) × (r.1 ≡ s)
  as_memory-eq-err (err i, s) e t h = (i, refl, cc)
  as_memory-eq-err (ok b, s) e t h = cc

  pub on_err-eq-err :
      (undo : S → S) (r : M A × S) (e : MemoryError) (s' : S)
      → on_err undo r ≡ (err e, s')
      → (s : S) × (r ≡ (err e, s)) × (undo s ≡ s')
  on_err-eq-err undo (err d, s) e s' h = (s, cc, cc)
  on_err-eq-err undo (ok b, s) e s' h = cc

  pub as_memory-keeps : (P : S → Type 0) (r : Result IoError A × S) → P r.1 → P (as_memory r).1
  as_memory-keeps P (err e, s) h = h
  as_memory-keeps P (ok a, s) h = h

  pub on_err-keeps :
      (P : S → Type 0) (undo : S → S) (r : M A × S)
      → P r.1
      → ((s : S) → P s → P (undo s))
      → P (on_err undo r).1
  on_err-keeps P undo (err e, s) h k = k s h
  on_err-keeps P undo (ok a, s) h k = h
