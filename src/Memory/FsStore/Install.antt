-- ===== src/Memory/FsStore/Install.antt =====
-- The loops of a move behind the staging: moving pages aside, and moving the staged files into
-- their places.
use agentspace.Common.{
  ℕ, ◌≡◌, refl, sym, ap, ◌∙◌, ◌≢◌, some, List, [], ◌∷◌, ◌++◌, append-nil, append_assoc, All,
  All-append, nat_eq, list_eq, option_eq, ok, ok-injective, Bytes, codes,
}
use agentspace.Common.{Distinct}
use mathlib.Core.Path.{subst}
use agentspace.Memory.Error.{MemoryError}
use agentspace.Memory.Path.{PagePath, FilePath, file_components}
use agentspace.Memory.FsStore.{
  restore_backups, remove_backups, remove_installed, cleanup_staged, backup_file, backup_all,
  install_all,
}
use agentspace.Memory.FsStore.Names.{
  IsPageFile, full-IsPageFile, transaction_path_ne, transaction_path_inj,
}
use agentspace.Memory.FsStore.Disk.{
  FileSystem, FileSystemLaws, ◌▸◌, ▸-eq-ok, as_memory, as_memory-eq-ok, on_err, on_err-eq-ok,
}
use agentspace.Memory.FsStore.Steps.{stage_of, backup_of, backup_file-eq-ok}
use agentspace.Memory.FsStore.Staging.{targets_of, destinations_of, staged_of, resolved_step}
use agentspace.Memory.FsStore.Backups.{Moved, Untouched, BackedUpAll, backup_step}

-- The pages that are moved aside in a loop over the replacements.
abbrev pub moved_of : Bytes → ℕ → List FilePath → Moved
moved_of process_id id [] = []
moved_of process_id id (o ∷ rest) = (backup_of process_id id o, o) ∷ moved_of process_id id rest

module _ (fs : FileSystem) (laws : FileSystemLaws fs) (process_id : Bytes) (id : ℕ) where
  pub Fresh-snoc :
      (moved : Moved) (b o : FilePath) (ds : List FilePath)
      → All (λ d. o ≢ d) ds
      → All (λ d. Untouched d moved) ds
      → All (λ d. Untouched d (moved ++ (b, o) ∷ [])) ds
  Fresh-snoc moved b o [] h k = tt
  Fresh-snoc moved b o (d ∷ ds) (h, hs) (k, ks) =
      (All-append (λ (_, q). q ≢ d) moved _ k (h, tt), Fresh-snoc moved b o ds hs ks)

  pub backup_all-eq-ok :
      (root : FilePath) (reps : List (PagePath × Bytes)) (staged moved result : Moved)
      (s0 s s' : fs.State)
      → Distinct (destinations_of (targets_of root reps))
      → All (λ d. Untouched d moved) (destinations_of (targets_of root reps))
      → BackedUpAll fs laws process_id id moved s0 s
      → backup_all fs process_id root id staged reps moved s ≡ (ok result, s')
      → (result ≡ moved ++ moved_of process_id id (destinations_of (targets_of root reps)))
        × BackedUpAll fs laws process_id id result s0 s'
  unfolding backup_all
  backup_all-eq-ok root [] staged moved result s0 s s' distinct fresh h e =
      let same : moved ≡ result = ok-injective {E = MemoryError} moved result (ap (λ r. r.0) e) in
      (
        cc (append-nil moved),
        subst (λ r. BackedUpAll fs laws process_id id r s0 s') same
            (subst (λ t. BackedUpAll fs laws process_id id moved s0 t) (ap (λ r. r.1) e) h),
      )
  backup_all-eq-ok root ((p, bytes) ∷ rest) staged moved result s0 s s' (apart, distinct) (u, fresh)
        h e =
      let undo = λ (t : fs.State). cleanup_staged fs staged (restore_backups fs moved t) in
      let next = λ (change : FilePath × FilePath) (s2 : fs.State).
        backup_all fs process_id root id staged rest (moved ++ change ∷ []) s2 in
      let (_, more) =
        resolved_step fs root p s s
          (λ full s1. on_err undo (backup_file fs process_id full id s1) ▸ next) result s' e in
      let o = root ++ file_components p in
      let page = full-IsPageFile root p in
      let (change, s1, wrapped, following) =
        ▸-eq-ok (on_err undo (backup_file fs process_id o id s)) next result s' more in
      let (named, done) =
        backup_file-eq-ok fs laws process_id id o s s1 change
          (λ k. transaction_path_ne process_id o o (codes "backup") id page (sym k))
          (on_err-eq-ok undo (backup_file fs process_id o id s) change s1 wrapped) in
      let (listed, all_done) =
        backup_all-eq-ok root rest staged (moved ++ (backup_of process_id id o, o) ∷ []) result s0
          s1 s' distinct (Fresh-snoc moved _ o (destinations_of (targets_of root rest)) apart fresh)
          (backup_step fs laws process_id id moved s0 s s1 o page u h done)
          (ap (λ c. next c s1) (sym named) ∙ following) in
      (listed ∙ append_assoc moved _ _, all_done)

  pub remove_backups-keeps :
      (y : FilePath) (moved : Moved) (s : fs.State)
      → All (λ (b, _). b ≢ y) moved
      → laws.file y (remove_backups fs moved s) ≡ laws.file y s
  unfolding remove_backups
  remove_backups-keeps y [] s h = refl
  remove_backups-keeps y ((b, o) ∷ rest) s (h, hs) =
      remove_backups-keeps y rest (fs.remove_file b s).1 hs ∙ laws.remove_others b y s h

  -- The staged files of the targets are moved to their destinations.
  pub install_all-eq-ok :
      (targets : List (FilePath × Bytes)) (staged moved : Moved) (installed : List FilePath)
      (s s' : fs.State)
      → All IsPageFile (destinations_of targets)
      → Distinct (destinations_of targets)
      → All (λ (d, bytes). laws.file (stage_of process_id id d) s ≡ some bytes) targets
      → install_all fs staged moved (staged_of process_id id (destinations_of targets)) installed s
        ≡ (ok tt, s')
      → All (λ (d, bytes). laws.file d s' ≡ some bytes) targets
        × ((y : FilePath)
            → IsPageFile y
            → All (λ d. d ≢ y) (destinations_of targets)
            → laws.file y s' ≡ laws.file y s)
  unfolding install_all
  install_all-eq-ok [] staged moved installed s s' pages distinct h e =
      (tt, λ y p k. ap (λ r. laws.file y r.1) (sym e))
  install_all-eq-ok ((d, bytes) ∷ rest) staged moved installed s s' (page, pages) (apart, distinct)
        (h, hs) e =
      let undo = λ (t : fs.State).
        cleanup_staged fs staged (restore_backups fs moved (remove_installed fs installed t)) in
      let next = λ (_ : Unit {0}) (s1 : fs.State).
        install_all fs staged moved (staged_of process_id id (destinations_of rest))
          (installed ++ d ∷ []) s1 in
      let (u, s1, wrapped, more) =
        ▸-eq-ok (on_err undo (as_memory (fs.rename (stage_of process_id id d) d s))) next tt s' e in
      let renamed =
        on_err-eq-ok undo (as_memory (fs.rename (stage_of process_id id d) d s)) u s1 wrapped in
      let (fine, after) = as_memory-eq-ok (fs.rename (stage_of process_id id d) d s) u s1 renamed in
      let (_, got, _) =
        laws.rename_ok (stage_of process_id id d) d s
          (transaction_path_ne process_id d d (codes "stage") id page) fine in
      let others : (y : FilePath)
          → stage_of process_id id d ≢ y
          → d ≢ y
          → laws.file y s1 ≡ laws.file y s =
        λ y n m.
          ap (laws.file y) (sym after) ∙ laws.rename_others (stage_of process_id id d) d y s n m in
      let (held, kept) =
        install_all-eq-ok rest staged moved (installed ++ d ∷ []) s1 s' pages distinct
          (still rest s s1 d page pages apart others hs) more in
      (
        (
          kept d page (turned d (destinations_of rest) apart)
              ∙ (ap (laws.file d) (sym after) ∙ (got ∙ h)),
          held,
        ),
        λ y p (k, ks).
            kept y p ks ∙ others y (transaction_path_ne process_id d y (codes "stage") id p) k,
      )
    where
      turned : (d : FilePath) (ds : List FilePath) → All (λ e. d ≢ e) ds → All (λ e. e ≢ d) ds
      turned d [] h = tt
      turned d (e ∷ ds) (h, hs) = ((λ k. h (sym k)), turned d ds hs)

      still :
          (targets : List (FilePath × Bytes)) (s s1 : fs.State) (d : FilePath)
          → IsPageFile d
          → All IsPageFile (destinations_of targets)
          → All (λ e. d ≢ e) (destinations_of targets)
          → ((y : FilePath) → stage_of process_id id d ≢ y → d ≢ y → laws.file y s1 ≡ laws.file y s)
          → All (λ (e, bytes). laws.file (stage_of process_id id e) s ≡ some bytes) targets
          → All (λ (e, bytes). laws.file (stage_of process_id id e) s1 ≡ some bytes) targets
      still [] s s1 d page pages apart others h = tt
      still ((e, bytes) ∷ rest) s s1 d page (p, pages) (n, apart) others (h, hs) = (
        others (stage_of process_id id e)
              (λ k. n (transaction_path_inj process_id d e (codes "stage") id page p k))
              (λ k. transaction_path_ne process_id e d (codes "stage") id page (sym k))
            ∙ h,
        still rest s s1 d page pages apart others hs,
      )
