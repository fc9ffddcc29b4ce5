-- ===== src/Memory/FsStore/Undo.antt =====
-- A move that fails while pages are moved aside: what it has done by then is undone.
use agentspace.Common.{
  ℕ, ◌≡◌, sym, ap, ◌∙◌, ◌≢◌, inl, inr, List, [], ◌∷◌, ◌++◌, All, nat_eq, list_eq, option_eq, ok,
  err, Bytes, codes,
}
use agentspace.Common.{Distinct}
use agentspace.Memory.Error.{MemoryError}
use agentspace.Memory.Path.{PagePath, FilePath, file_components, path_eq}
use agentspace.Memory.Store.{paths_of}
use agentspace.Memory.FsStore.{resolved, cleanup_staged, restore_backups, backup_file, backup_all}
use agentspace.Memory.FsStore.Names.{IsPageFile, full-IsPageFile, transaction_path_ne}
use agentspace.Memory.FsStore.Disk.{
  FileSystem, FileSystemLaws, ◌▸◌, ▸-eq-err, on_err, on_err-eq-ok, on_err-eq-err,
}
use agentspace.Memory.FsStore.Steps.{backup_of, backup_file-eq-ok, backup_file-eq-err}
use agentspace.Memory.FsStore.Staging.{targets_of, destinations_of, cleanup_staged-keeps}
use agentspace.Memory.FsStore.Backups.{
  Moved, Untouched, Rollback, IsSaved, BackedUpAll, backup_step, restore_backups-pages,
}
use agentspace.Memory.FsStore.Install.{Fresh-snoc}

module _ (fs : FileSystem) (laws : FileSystemLaws fs) (process_id : Bytes) (id : ℕ)
    (rollback : Rollback fs laws process_id id) where
  -- The pages are moved back, and the staged files removed.
  undo_backups :
      (staged moved : Moved) (s0 s : fs.State)
      → BackedUpAll fs laws process_id id moved s0 s
      → (y : FilePath) → IsPageFile y
      → All (λ c. c.0 ≢ y) staged
      → laws.file y (cleanup_staged fs staged (restore_backups fs moved s)) ≡ laws.file y s0
  undo_backups staged moved s0 s h y page apart =
      cleanup_staged-keeps fs laws process_id id y staged (restore_backups fs moved s) apart
      ∙ restore_backups-pages fs laws process_id id rollback moved s0 s h.saved h.distinct h.pages y
          page

  pub same-IsSaved :
      (moved : Moved) (s0 s t : fs.State)
      → ((y : FilePath) → laws.file y t ≡ laws.file y s)
      → All (λ (b, o). IsSaved fs laws process_id id s0 s b o) moved
      → All (λ (b, o). IsSaved fs laws process_id id s0 t b o) moved
  same-IsSaved [] s0 s t same h = tt
  same-IsSaved ((b, o) ∷ rest) s0 s t same (h, hs) = (
    record { named = h.named; page = h.page; there = h.there; kept = same b ∙ h.kept },
    same-IsSaved rest s0 s t same hs,
  )

  pub backup_all-eq-err :
      (root : FilePath) (reps : List (PagePath × Bytes)) (staged moved : Moved) (e : MemoryError)
      (s0 s s' : fs.State)
      → All
          (λ p. (t : fs.State) → resolved fs root p t ≡ ok (root ++ file_components p))
          (paths_of reps)
      → Distinct (destinations_of (targets_of root reps))
      → All (λ d. Untouched d moved) (destinations_of (targets_of root reps))
      → BackedUpAll fs laws process_id id moved s0 s
      → backup_all fs process_id root id staged reps moved s ≡ (err e, s')
      → (y : FilePath) → IsPageFile y
      → All (λ c. c.0 ≢ y) staged
      → laws.file y s' ≡ laws.file y s0
  unfolding backup_all
  backup_all-eq-err root [] staged moved e s0 s s' steady distinct fresh h k y page apart = cc
  backup_all-eq-err root ((p, bytes) ∷ rest) staged moved e s0 s s' (at, steady) (d, distinct)
        (u, fresh) h k y page apart =
      let o = root ++ file_components p in
      let p_page = full-IsPageFile root p in
      let undo = λ (t : fs.State). cleanup_staged fs staged (restore_backups fs moved t) in
      let next = λ (change : FilePath × FilePath) (s2 : fs.State).
        backup_all fs process_id root id staged rest (moved ++ change ∷ []) s2 in
      let opened : (on_err undo (backup_file fs process_id o id s) ▸ next) ≡ (err e, s') =
        ap
          (λ r.
            ◌▸◌ {S = fs.State} {E = MemoryError} (r, s)
              (λ full s1. on_err undo (backup_file fs process_id full id s1) ▸ next))
          (sym (at s))
        ∙ k in
      elim (▸-eq-err (on_err undo (backup_file fs process_id o id s)) next e s' opened) [
        | inl failed ↦
            let (t, refused, undone) =
              on_err-eq-err undo (backup_file fs process_id o id s) e s' failed in
            let same =
              λ (x : FilePath). backup_file-eq-err fs laws process_id id o x e s t refused in
            ap (laws.file y) (sym undone)
            ∙ (cleanup_staged-keeps fs laws process_id id y staged (restore_backups fs moved t)
                  apart
                ∙ restore_backups-pages fs laws process_id id rollback moved s0 t
                    (same-IsSaved moved s0 s t same h.saved) h.distinct
                    (λ x q v. same x ∙ h.pages x q v) y page)
        | inr (change, s1, wrapped, following) ↦
            let (named, done) =
              backup_file-eq-ok fs laws process_id id o s s1 change
                (λ q. transaction_path_ne process_id o o (codes "backup") id p_page (sym q))
                (on_err-eq-ok undo (backup_file fs process_id o id s) change s1 wrapped) in
            backup_all-eq-err root rest staged (moved ++ (backup_of process_id id o, o) ∷ []) e s0
              s1 s' steady distinct
              (Fresh-snoc fs laws process_id id moved _ o (destinations_of (targets_of root rest)) d
                fresh)
              (backup_step fs laws process_id id moved s0 s s1 o p_page u h done)
              (ap (λ c. next c s1) (sym named) ∙ following) y page apart
      ]
