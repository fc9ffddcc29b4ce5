-- ===== src/Memory/FsStore/Lost.antt =====
-- A move that loses its source: the `?` in the loop that moves pages aside returns without undoing
-- what was done by then.
use agentspace.Common.{
  ℕ, ◌≡◌, refl, sym, ◌≢◌, none, List, [], ◌∷◌, nat_eq, list_eq, option_eq, ok, err, Bytes, codes,
}
use agentspace.Memory.Error.{MemoryError}
use agentspace.Memory.Path.{PagePath, FilePath}
use agentspace.Memory.FsStore.{
  resolved, stage_change, stage_all, backup_file, backup_all, run_transaction,
}
use agentspace.Memory.FsStore.Names.{IsPageFile, transaction_path_ne}
use agentspace.Memory.FsStore.Disk.{FileSystem, FileSystemLaws}
use agentspace.Memory.FsStore.Steps.{backup_of, backup_file-eq-ok}

module _ (fs : FileSystem) (laws : FileSystemLaws fs) (process_id : Bytes) (root : FilePath)
    (id : ℕ) where
  -- If the source has been moved aside and then the first replacement does not resolve, the
  -- transaction returns that error and leaves the source aside: its page is gone.
  pub run_transaction_source_lost :
      (source destination : FilePath) (bytes new_bytes : Bytes) (p : PagePath)
      (rest : List (PagePath × Bytes)) (change moved : FilePath × FilePath)
      (staged : List (FilePath × FilePath)) (e : MemoryError) (s s1 s2 s3 : fs.State)
      → IsPageFile source
      → stage_change fs process_id destination bytes id s ≡ (ok change, s1)
      → stage_all fs process_id root id ((p, new_bytes) ∷ rest) (change ∷ []) s1 ≡ (ok staged, s2)
      → backup_file fs process_id source id s2 ≡ (ok moved, s3)
      → resolved fs root p s3 ≡ err e
      → (run_transaction fs process_id root id source destination bytes ((p, new_bytes) ∷ rest) s
          ≡ (err e, s3))
        × (laws.file source s3 ≡ none)
        × (laws.file source s2 ≢ none)
        × (laws.file (backup_of process_id id source) s3 ≡ laws.file source s2)
  unfolding run_transaction backup_all
  run_transaction_source_lost source destination bytes new_bytes p rest change moved staged e s s1
        s2 s3 page h1 h2 h3 h4 =
      let (_, done) =
        backup_file-eq-ok fs laws process_id id source s2 s3 moved
          (λ k. transaction_path_ne process_id source source (codes "backup") id page (sym k)) h3 in
      (rw (h1, h2, h3, h4) refl, done.gone, done.there, done.kept)
