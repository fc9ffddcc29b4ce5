-- ===== src/Memory/FsStore/Steps.antt =====
-- What each step on the disk changes: the writing of a file, its removal after a failure, the
-- staging of a change, and the backup of a file.
use agentspace.Common.{
  ℕ, ◌≡◌, refl, sym, ap, ◌∙◌, ◌≢◌, inl, inr, none, some, [], nat_eq, list_eq, option_eq, ok, err,
  ok-injective, Bytes, codes,
}
use agentspace.Memory.Error.{MemoryError, IoError}
use agentspace.Memory.Path.{FilePath}
use agentspace.Memory.FsStore.{
  parent_of, transaction_path_for, write_synced, or_remove, write_atomically, stage_change,
  backup_file, FileOutcome,
}
use agentspace.Memory.FsStore.Disk.{
  FileSystem, FileSystemLaws, ◌▸◌, ▸-eq-ok, ▸-eq-err, ▸-keeps, as_memory, as_memory-eq-ok,
  as_memory-eq-err, as_memory-keeps, on_err-keeps,
}

module _ (fs : FileSystem) (laws : FileSystemLaws fs) where
  write_synced-keeps :
      (x y : FilePath) (bytes : Bytes) (s : fs.State)
      → x ≢ y
      → laws.file y (write_synced fs x bytes s).1 ≡ laws.file y s
  unfolding write_synced
  write_synced-keeps x y bytes s h =
      ▸-keeps (λ t. laws.file y t ≡ laws.file y s) (fs.create x s ▸ λ _ s1. fs.write_all x bytes s1)
        (λ _ s2. fs.sync_all x s2)
        (▸-keeps (λ t. laws.file y t ≡ laws.file y s) (fs.create x s)
          (λ _ s1. fs.write_all x bytes s1) (laws.create_others x y s h)
          (λ _ t _ k. laws.write_all_others x y bytes t h ∙ k))
        (λ _ t _ k. laws.sync_all_files x y t ∙ k)

  write_synced-eq-ok :
      (x : FilePath) (bytes : Bytes) (s s' : fs.State)
      → write_synced fs x bytes s ≡ (ok tt, s')
      → laws.file x s' ≡ some bytes
  unfolding write_synced
  write_synced-eq-ok x bytes s s' h =
      let (u, s2, written, synced) = ▸-eq-ok _ _ _ _ h in
      let (v, s1, created, wrote) = ▸-eq-ok _ _ _ _ written in
      let empty_file : laws.file x s1 ≡ some [] =
        sym (ap (λ r. laws.file x r.1) created) ∙ laws.create_ok x s (ap (λ r. r.0) created) in
      let full_file : laws.file x s2 ≡ some bytes =
        sym (ap (λ r. laws.file x r.1) wrote)
        ∙ laws.write_all_ok x bytes s1 empty_file (ap (λ r. r.0) wrote) in
      sym (ap (λ r. laws.file x r.1) synced) ∙ (laws.sync_all_files x x s2 ∙ full_file)

  or_remove-keeps :
      (x y : FilePath) (r : FileOutcome fs) (s : fs.State)
      → x ≢ y
      → laws.file y r.1 ≡ laws.file y s
      → laws.file y (or_remove fs x r).1 ≡ laws.file y s
  or_remove-keeps x y r s h k =
      on_err-keeps (λ t. laws.file y t ≡ laws.file y s) (λ t. (fs.remove_file x t).1) (as_memory r)
        (as_memory-keeps (λ t. laws.file y t ≡ laws.file y s) r k)
        (λ t e. laws.remove_others x y t h ∙ e)

  or_remove-eq-ok :
      (x : FilePath) (r : FileOutcome fs) (s : fs.State)
      → or_remove fs x r ≡ (ok tt, s)
      → r ≡ (ok tt, s)
  or_remove-eq-ok x (err e, s) t h = cc
  or_remove-eq-ok x (ok tt, s) t h = cc

  -- A write that succeeds leaves the bytes at the destination, and no other file is changed but the
  -- temporary one, which is gone.
  pub write_atomically-eq-ok :
      (temporary destination : FilePath) (bytes : Bytes) (s s' : fs.State)
      → temporary ≢ destination
      → write_atomically fs temporary destination bytes s ≡ (ok tt, s')
      → (laws.file destination s' ≡ some bytes)
        × ((y : FilePath) → temporary ≢ y → destination ≢ y → laws.file y s' ≡ laws.file y s)
  unfolding write_atomically
  write_atomically-eq-ok x d bytes s s' apart h =
      let (u, s1, wrote, moved) = ▸-eq-ok _ _ _ _ h in
      let wrote : write_synced fs x bytes s ≡ (ok tt, s1) = or_remove-eq-ok x _ s1 wrote in
      let moved : fs.rename x d s1 ≡ (ok tt, s') = or_remove-eq-ok x _ s' moved in
      let (there, got, gone) = laws.rename_ok x d s1 apart (ap (λ r. r.0) moved) in
      (
        sym (ap (λ r. laws.file d r.1) moved) ∙ (got ∙ write_synced-eq-ok x bytes s s1 wrote),
        λ y h k.
            sym (ap (λ r. laws.file y r.1) moved)
            ∙ (laws.rename_others x d y s1 h k
                ∙ (sym (ap (λ r. laws.file y r.1) wrote) ∙ write_synced-keeps x y bytes s h)),
      )

  -- A write that fails changes no file but the temporary one.
  pub write_atomically-eq-err :
      (temporary destination y : FilePath) (bytes : Bytes) (e : MemoryError) (s s' : fs.State)
      → temporary ≢ y
      → write_atomically fs temporary destination bytes s ≡ (err e, s')
      → laws.file y s' ≡ laws.file y s
  unfolding write_atomically
  write_atomically-eq-err x d y bytes e s s' h failed =
      elim (▸-eq-err (or_remove fs x (write_synced fs x bytes s))
        (λ _ s1. or_remove fs x (fs.rename x d s1)) e s' failed) [
          | inl k ↦
              sym (ap (λ r. laws.file y r.1) k)
              ∙ or_remove-keeps x y (write_synced fs x bytes s) s h
                  (write_synced-keeps x y bytes s h)
          | inr (u, s1, wrote, k) ↦
              let wrote : write_synced fs x bytes s ≡ (ok tt, s1) = or_remove-eq-ok x _ s1 wrote in
              rename_failed s1 (fs.rename x d s1) (laws.rename_err x d y s1) k
              ∙ (sym (ap (λ r. laws.file y r.1) wrote) ∙ write_synced-keeps x y bytes s h)
        ]
    where
      rename_failed :
          (s1 : fs.State) (r : FileOutcome fs)
          → ((i : IoError) → r.0 ≡ err i → laws.file y r.1 ≡ laws.file y s1)
          → or_remove fs x r ≡ (err e, s')
          → laws.file y s' ≡ laws.file y s1
      rename_failed s1 (err i, t) same k =
          sym (ap (λ r. laws.file y r.1) k) ∙ (laws.remove_others x y t h ∙ same i refl)
      rename_failed s1 (ok u, t) same k = cc

module _ (process_id : Bytes) (id : ℕ) where
  abbrev pub stage_of : FilePath → FilePath
  stage_of d = transaction_path_for process_id d (codes "stage") id

  abbrev pub backup_of : FilePath → FilePath
  backup_of d = transaction_path_for process_id d (codes "backup") id

module _ (fs : FileSystem) (laws : FileSystemLaws fs) (process_id : Bytes) (id : ℕ) where
  pub stage_change-keeps :
      (d y : FilePath) (bytes : Bytes) (s : fs.State)
      → stage_of process_id id d ≢ y
      → laws.file y (stage_change fs process_id d bytes id s).1 ≡ laws.file y s
  unfolding stage_change
  stage_change-keeps d y bytes s h =
      ▸-keeps Same
        (as_memory (fs.create_dir_all (parent_of d) s) ▸ λ _ s1.
          or_remove fs (stage_of process_id id d)
            (write_synced fs (stage_of process_id id d) bytes s1))
        (λ _ s2. (ok (stage_of process_id id d, d), s2))
        (▸-keeps Same (as_memory (fs.create_dir_all (parent_of d) s))
          (λ _ s1.
            or_remove fs (stage_of process_id id d)
              (write_synced fs (stage_of process_id id d) bytes s1))
          (as_memory-keeps Same (fs.create_dir_all (parent_of d) s)
            (laws.create_dir_all_files (parent_of d) y s))
          (λ _ t _ k.
            or_remove-keeps fs laws (stage_of process_id id d) y _ s h
              (write_synced-keeps fs laws (stage_of process_id id d) y bytes t h ∙ k)))
        (λ _ t _ k. k)
    where
      Same : fs.State → Type 0
      Same t = laws.file y t ≡ laws.file y s

  pub stage_change-eq-ok :
      (d : FilePath) (bytes : Bytes) (s s' : fs.State) (change : FilePath × FilePath)
      → stage_change fs process_id d bytes id s ≡ (ok change, s')
      → (change ≡ (stage_of process_id id d, d))
        × (laws.file (stage_of process_id id d) s' ≡ some bytes)
  unfolding stage_change
  stage_change-eq-ok d bytes s s' change h =
      let (u, s2, written, last) =
        ▸-eq-ok
          (as_memory (fs.create_dir_all (parent_of d) s) ▸ λ _ s1.
            or_remove fs (stage_of process_id id d)
              (write_synced fs (stage_of process_id id d) bytes s1))
          (λ _ s2. (ok (stage_of process_id id d, d), s2)) change s' h in
      let (v, s1, _, wrote) =
        ▸-eq-ok (as_memory (fs.create_dir_all (parent_of d) s))
          (λ _ s1.
            or_remove fs (stage_of process_id id d)
              (write_synced fs (stage_of process_id id d) bytes s1))
          u s2 written in
      let wrote : write_synced fs (stage_of process_id id d) bytes s1 ≡ (ok tt, s2) =
        or_remove-eq-ok fs laws (stage_of process_id id d) _ s2 wrote in
      (
        ok-injective {E = MemoryError} change (stage_of process_id id d, d)
            (ap (λ r. r.0) (sym last)),
        ap (λ r. laws.file (stage_of process_id id d) r.1) (sym last)
            ∙ write_synced-eq-ok fs laws (stage_of process_id id d) bytes s1 s2 wrote,
      )

  pub backup_file-eq-err :
      (o y : FilePath) (e : MemoryError) (s s' : fs.State)
      → backup_file fs process_id o id s ≡ (err e, s')
      → laws.file y s' ≡ laws.file y s
  unfolding backup_file
  backup_file-eq-err o y e s s' h =
      elim (▸-eq-err (as_memory (fs.rename o (backup_of process_id id o) s))
        (λ _ s1. (ok (backup_of process_id id o, o), s1)) e s' h) [
          | inl k ↦
              let (i, failed, after) = as_memory-eq-err _ _ _ k in
              ap (laws.file y) (sym after)
              ∙ laws.rename_err o (backup_of process_id id o) y s i failed
          | inr (u, s1, moved, k) ↦ cc
        ]

  pub record BackedUp (o : FilePath) (s s' : fs.State) : Type 0 where
    pub there : laws.file o s ≢ none
    pub kept : laws.file (backup_of process_id id o) s' ≡ laws.file o s
    pub gone : laws.file o s' ≡ none
    pub others :
        (y : FilePath) → o ≢ y → backup_of process_id id o ≢ y → laws.file y s' ≡ laws.file y s

  pub backup_file-eq-ok :
      (o : FilePath) (s s' : fs.State) (moved : FilePath × FilePath)
      → o ≢ backup_of process_id id o
      → backup_file fs process_id o id s ≡ (ok moved, s')
      → (moved ≡ (backup_of process_id id o, o)) × BackedUp o s s'
  unfolding backup_file
  backup_file-eq-ok o s s' moved apart h =
      let (u, s1, renamed, last) =
        ▸-eq-ok (as_memory (fs.rename o (backup_of process_id id o) s))
          (λ _ s1. (ok (backup_of process_id id o, o), s1)) moved s' h in
      let (fine, after) = as_memory-eq-ok _ _ _ renamed in
      let same : (fs.rename o (backup_of process_id id o) s).1 ≡ s' = after ∙ ap (λ r. r.1) last in
      let (there, kept, gone) = laws.rename_ok o (backup_of process_id id o) s apart fine in
      (
        ok-injective {E = MemoryError} moved (backup_of process_id id o, o)
            (ap (λ r. r.0) (sym last)),
        record {
          there = there;
          kept = ap (laws.file (backup_of process_id id o)) (sym same) ∙ kept;
          gone = ap (laws.file o) (sym same) ∙ gone;
          others = λ y h k.
              ap (laws.file y) (sym same)
              ∙ laws.rename_others o (backup_of process_id id o) y s h k;
        },
      )
