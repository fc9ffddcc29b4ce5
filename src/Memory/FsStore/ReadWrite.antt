-- ===== src/Memory/FsStore/ReadWrite.antt =====
-- Reading, writing and removing one page.
use agentspace.Common.{
  ℕ, ◌≡◌, refl, sym, ap, ◌∙◌, ◌≢◌, inl, inr, none, some, ◌++◌, nat_eq, list_eq, option_eq, Result,
  ok, err, and_then-eq-ok, ok-injective, Bytes,
}
use agentspace.Memory.Crates.{Crates}
use agentspace.Memory.Error.{M, MemoryError, IoError, io_not_found, io_other}
use agentspace.Memory.Path.{PagePath, FilePath, file_components}
use agentspace.Memory.Path.Valid.{IsValid}
use agentspace.Memory.Path.Resolve.{resolve_within_sound}
use agentspace.Memory.Model.{revision_of}
use agentspace.Memory.FsStore.{
  resolved, temp_path_for, write_atomically, next_counter, on_disk, parent_of, bytes_read,
  read_bytes, write_bytes, removal_error, remove_file,
}
use agentspace.Memory.FsStore.Names.{full-IsPageFile, full_path_inj, temp_path_ne}
use agentspace.Memory.FsStore.Disk.{
  FileSystem, FileSystemLaws, ◌▸◌, ▸-eq-ok, ▸-eq-err, as_memory, as_memory-keeps,
}
use agentspace.Memory.FsStore.Steps.{write_atomically-eq-ok, write_atomically-eq-err}
use agentspace.Memory.FsStore.Staging.{resolved_step}
use agentspace.Memory.FsStore.Pages.{contents_of}

module _ (c : Crates) (fs : FileSystem) (laws : FileSystemLaws fs) (root : FilePath) where
  -- What is read is what the page holds, and its revision; not found means that it holds nothing.
  pub read_bytes-eq-ok :
      (p : PagePath) (t : ℕ × fs.State) (bytes revision : Bytes)
      → read_bytes c fs root p t.1 ≡ ok (bytes, revision)
      → (contents_of fs laws root p t ≡ some bytes) × (revision ≡ revision_of c bytes)
  unfolding read_bytes
  read_bytes-eq-ok p t bytes revision h =
      let (full, at, got) = and_then-eq-ok (resolved fs root p t.1) _ h in
      let same = (resolve_within_sound (fs.symlink_metadata t.1) root p full at).0 in
      let (found, revised) = taken (fs.read full t.1) got in
      (ap (λ x. laws.file x t.1) (sym same) ∙ laws.read_ok full t.1 bytes found, revised)
    where
      taken :
          (r : Result IoError Bytes)
          → bytes_read c fs root p r ≡ ok (bytes, revision)
          → (r ≡ ok bytes) × (revision ≡ revision_of c bytes)
      taken (ok b) k =
          let same : (b, revision_of c b) ≡ (bytes, revision) =
            ok-injective {E = MemoryError} _ _ k in
          let first : b ≡ bytes = ap (λ x. x.0) same in
          (ap (λ x. ok x) first, sym (ap (λ x. x.1) same) ∙ ap (revision_of c) first)
      taken (err io_not_found) k = cc
      taken (err (io_other n)) k = cc

module _ (c : Crates) (fs : FileSystem) (laws : FileSystemLaws fs) (process_id : Bytes)
    (root : FilePath) where
  -- A write: on success the page holds the bytes and no other page has changed; on failure no page
  -- has changed.
  abbrev pub IsWrite : PagePath → Bytes → ℕ × fs.State → M Bytes × (ℕ × fs.State) → Type 0
  IsWrite p bytes t (ok revision, t') =
      (revision ≡ revision_of c bytes)
      × (contents_of fs laws root p t' ≡ some bytes)
      × ((q : PagePath)
          → IsValid q
          → q ≢ p
          → contents_of fs laws root q t' ≡ contents_of fs laws root q t)
  IsWrite p bytes t (err e, t') =
      (q : PagePath) → contents_of fs laws root q t' ≡ contents_of fs laws root q t

  abbrev make_parent : FilePath → ℕ × fs.State → M (Unit {0}) × (ℕ × fs.State)
  make_parent full t1 = on_disk fs (λ s. as_memory (fs.create_dir_all (parent_of full) s)) t1

  abbrev write_there : FilePath → Bytes → ℕ × fs.State → M (Unit {0}) × (ℕ × fs.State)
  write_there full bytes t2 =
      on_disk fs (write_atomically fs (temp_path_for process_id full t2.0) full bytes)
        (next_counter t2.0, t2.1)

  made :
      (y full : FilePath) (t : ℕ × fs.State)
      → laws.file y (make_parent full t).1.1 ≡ laws.file y t.1
  made y full t =
      as_memory-keeps (λ s. laws.file y s ≡ laws.file y t.1)
        (fs.create_dir_all (parent_of full) t.1) (laws.create_dir_all_files (parent_of full) y t.1)

  success_lem :
      (p : PagePath) (bytes revision : Bytes) (t t' : ℕ × fs.State)
      → IsValid p
      → write_bytes c fs process_id root p bytes t ≡ (ok revision, t')
      → IsWrite p bytes t (ok revision, t')
  unfolding write_bytes
  success_lem p bytes revision t t' v h =
      let full = root ++ file_components p in
      let (_, more) =
        resolved_step fs root p t.1 t
          (λ full t1. make_parent full t1 ▸ λ _ t2.
            write_there full bytes t2 ▸ λ _ t3. (ok (revision_of c bytes), t3))
          revision t' h in
      let (_, t2, h2, more) =
        ▸-eq-ok (make_parent full t)
          (λ _ t2. write_there full bytes t2 ▸ λ _ t3. (ok (revision_of c bytes), t3)) revision t'
          more in
      let (u, t3, h3, last) =
        ▸-eq-ok (write_there full bytes t2) (λ _ t3. (ok (revision_of c bytes), t3)) revision t'
          more in
      let page = full-IsPageFile root p in
      let (held, others) =
        write_atomically-eq-ok fs laws (temp_path_for process_id full t2.0) full bytes t2.1 t3.1
          (temp_path_ne process_id full full t2.0 page) (ap (λ r. (r.0, r.1.1)) h3) in
      let same : t3 ≡ t' = ap (λ r. r.1) last in
      (
        ok-injective {E = MemoryError} revision _ (ap (λ r. r.0) (sym last)),
        ap (λ r. laws.file full r.1) (sym same) ∙ held,
        λ q w n.
            let y = root ++ file_components q in
            ap (λ r. laws.file y r.1) (sym same)
            ∙ (others y (temp_path_ne process_id full y t2.0 (full-IsPageFile root q))
                  (λ e. n (sym (full_path_inj root p q v w e)))
                ∙ (sym (ap (λ r. laws.file y r.1.1) h2) ∙ made y full t)),
      )

  failure_lem :
      (p : PagePath) (bytes : Bytes) (e : MemoryError) (t t' : ℕ × fs.State)
      → write_bytes c fs process_id root p bytes t ≡ (err e, t')
      → IsWrite p bytes t (err e, t')
  unfolding write_bytes
  failure_lem p bytes e t t' h q =
      let y = root ++ file_components q in
      elim (▸-eq-err (resolved fs root p t.1, t)
        (λ full t1. make_parent full t1 ▸ λ _ t2.
          write_there full bytes t2 ▸ λ _ t3. (ok (revision_of c bytes), t3))
        e t' h) [
          | inl failed ↦ ap (λ r. laws.file y r.1.1) (sym failed)
          | inr (full, t1, found, more) ↦
              elim (▸-eq-err (make_parent full t1)
                (λ _ t2. write_there full bytes t2 ▸ λ _ t3. (ok (revision_of c bytes), t3)) e t'
                more) [
                  | inl failed ↦
                      sym (ap (λ r. laws.file y r.1.1) failed)
                      ∙ (made y full t1 ∙ ap (λ r. laws.file y r.1.1) (sym found))
                  | inr (_, t2, h2, more) ↦
                      elim (▸-eq-err (write_there full bytes t2)
                        (λ _ t3. (ok (revision_of c bytes), t3)) e t' more) [
                          | inl failed ↦
                              write_atomically-eq-err fs laws (temp_path_for process_id full t2.0)
                                full y bytes e t2.1 t'.1
                                (temp_path_ne process_id full y t2.0 (full-IsPageFile root q))
                                (ap (λ r. (r.0, r.1.1)) failed)
                              ∙ (sym (ap (λ r. laws.file y r.1.1) h2)
                                  ∙ (made y full t1 ∙ ap (λ r. laws.file y r.1.1) (sym found)))
                          | inr (_, t3, _, last) ↦ cc
                        ]
                ]
        ]

  -- Every write of a page, whether it succeeds or fails, is the documented write.
  pub write_bytes-IsWrite :
      (p : PagePath) (bytes : Bytes) (t : ℕ × fs.State)
      → IsValid p
      → IsWrite p bytes t (write_bytes c fs process_id root p bytes t)
  write_bytes-IsWrite p bytes t v = go (write_bytes c fs process_id root p bytes t) refl
    where
      go :
          (r : M Bytes × (ℕ × fs.State))
          → write_bytes c fs process_id root p bytes t ≡ r
          → IsWrite p bytes t r
      go (ok revision, t') h = success_lem p bytes revision t t' v h
      go (err e, t') h = failure_lem p bytes e t t' h

module _ (fs : FileSystem) (laws : FileSystemLaws fs) (root : FilePath) where
  abbrev pub IsRemoval : PagePath → ℕ × fs.State → M (Unit {0}) × (ℕ × fs.State) → Type 0
  IsRemoval p t (ok _, t') =
      (contents_of fs laws root p t' ≡ none)
      × ((q : PagePath)
          → IsValid q
          → q ≢ p
          → contents_of fs laws root q t' ≡ contents_of fs laws root q t)
  IsRemoval p t (err e, t') =
      (q : PagePath) → contents_of fs laws root q t' ≡ contents_of fs laws root q t

  outcome_lem :
      (p : PagePath) (t : ℕ × fs.State) (full : FilePath) (v : IsValid p)
      → full ≡ root ++ file_components p
      → (r : Result IoError (Unit {0}) × fs.State) → fs.remove_file full t.1 ≡ r
      → IsRemoval p t (on_disk fs (λ s. removal_error fs root p r) t)
  outcome_lem p t full v at (ok u, s) h = (
    ap (λ x. laws.file x s) (sym at)
        ∙ (ap (λ r. laws.file full r.1) (sym h) ∙ laws.remove_ok full t.1 (ap (λ r. r.0) h)),
    λ q w n.
        ap (λ r. laws.file (root ++ file_components q) r.1) (sym h)
        ∙ laws.remove_others full (root ++ file_components q) t.1
            (λ e. n (sym (full_path_inj root p q v w (sym at ∙ e)))),
  )
  outcome_lem p t full v at (err io_not_found, s) h = λ q.
      ap (λ r. laws.file (root ++ file_components q) r.1) (sym h)
      ∙ laws.remove_err full (root ++ file_components q) t.1 io_not_found (ap (λ r. r.0) h)
  outcome_lem p t full v at (err (io_other n), s) h = λ q.
      ap (λ r. laws.file (root ++ file_components q) r.1) (sym h)
      ∙ laws.remove_err full (root ++ file_components q) t.1 (io_other n) (ap (λ r. r.0) h)

  -- Every removal of a page, whether it succeeds or fails, is the documented removal.
  pub remove_file-IsRemoval :
      (p : PagePath) (t : ℕ × fs.State) → IsValid p → IsRemoval p t (remove_file fs root p t)
  unfolding remove_file
  remove_file-IsRemoval p t v = go (resolved fs root p t.1) refl
    where
      go :
          (r : M FilePath)
          → resolved fs root p t.1 ≡ r
          → IsRemoval p t (
              (r, t) ▸ λ full t1.
              on_disk fs (λ s. removal_error fs root p (fs.remove_file full s)) t1)
      go (err e) h = λ q. refl
      go (ok full) h =
          outcome_lem p t full v (resolve_within_sound (fs.symlink_metadata t.1) root p full h).0
            (fs.remove_file full t.1) refl
