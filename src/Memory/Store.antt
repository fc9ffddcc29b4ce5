-- ===== src/Memory/Store.antt =====
-- services/memory_rs/src/store.rs: the storage that the memory service stands on, and what its
-- documentation promises.
pub mod InMemory
use agentspace.Common.{
  ◌≡◌, ◌≢◌, Bool, false, Option, none, some, List, [], ◌∷◌, All, ok, err, Bytes, contains,
}
use agentspace.Memory.Crates.{Crates}
use agentspace.Memory.Error.{M, MemoryError, not_found}
use agentspace.Memory.Model.{revision_of}
use agentspace.Memory.Path.{PagePath, path_eq}

pub record ScannedFile : Type 0 where
  pub relative_path : Bytes
  pub parsed : Option PagePath

-- The trait: what reads takes the state of the store, what changes it gives the next state too,
-- after a failure as well. `lock` is the part of `with_lock` that runs before the operation.
pub record MemoryStore : Type 1 where
  pub State : Type 0
  pub lock : State → M (Unit {0})
  pub read_bytes : PagePath → State → M (Bytes × Bytes)
  pub exists : PagePath → State → M Bool
  pub list_pages : State → M (List PagePath)
  pub scan : State → M (List ScannedFile)
  pub write_bytes : PagePath → Bytes → State → M Bytes × State
  pub remove_file : PagePath → State → M (Unit {0}) × State
  pub commit_move :
      PagePath → PagePath → Bytes → List (PagePath × Bytes) → State → M (Unit {0}) × State

abbrev pub paths_of : List (PagePath × Bytes) → List PagePath
paths_of [] = []
paths_of ((p, _) ∷ rest) = p ∷ paths_of rest

-- The documented behaviour, by what each page holds.
pub record StoreLaws (c : Crates) (store : MemoryStore) : Type 0 where
  pub contents : PagePath → store.State → Option Bytes
  pub read_ok :
      (p : PagePath) (s : store.State) (bytes revision : Bytes)
      → store.read_bytes p s ≡ ok (bytes, revision)
      → (contents p s ≡ some bytes) × (revision ≡ revision_of c bytes)
  pub read_not_found :
      (p : PagePath) (s : store.State) (name : Bytes)
      → store.read_bytes p s ≡ err (not_found name)
      → contents p s ≡ none
  pub exists_false :
      (p : PagePath) (s : store.State) → store.exists p s ≡ ok false → contents p s ≡ none
  pub write_ok :
      (p : PagePath) (bytes revision : Bytes) (s s' : store.State)
      → store.write_bytes p bytes s ≡ (ok revision, s')
      → (revision ≡ revision_of c bytes)
        × (contents p s' ≡ some bytes)
        × ((q : PagePath) → q ≢ p → contents q s' ≡ contents q s)
  pub write_err :
      (p : PagePath) (bytes : Bytes) (e : MemoryError) (s s' : store.State)
      → store.write_bytes p bytes s ≡ (err e, s')
      → (q : PagePath) → contents q s' ≡ contents q s
  pub remove_ok :
      (p : PagePath) (s s' : store.State)
      → store.remove_file p s ≡ (ok tt, s')
      → (contents p s' ≡ none) × ((q : PagePath) → q ≢ p → contents q s' ≡ contents q s)
  pub remove_err :
      (p : PagePath) (e : MemoryError) (s s' : store.State)
      → store.remove_file p s ≡ (err e, s')
      → (q : PagePath) → contents q s' ≡ contents q s
  pub commit_ok :
      (source destination : PagePath) (bytes : Bytes) (replacements : List (PagePath × Bytes))
      (s s' : store.State)
      → store.commit_move source destination bytes replacements s ≡ (ok tt, s')
      → (contents source s' ≡ none)
        × (contents destination s' ≡ some bytes)
        × All (λ (p, new_bytes). contents p s' ≡ some new_bytes) replacements
        × ((q : PagePath)
            → q ≢ source
            → q ≢ destination
            → contains (paths_of replacements) q ≡ false
            → contents q s' ≡ contents q s)
  pub commit_err :
      (source destination : PagePath) (bytes : Bytes) (replacements : List (PagePath × Bytes))
      (e : MemoryError) (s s' : store.State)
      → store.commit_move source destination bytes replacements s ≡ (err e, s')
      → (q : PagePath) → contents q s' ≡ contents q s
