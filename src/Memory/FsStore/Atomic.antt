-- ===== src/Memory/FsStore/Atomic.antt =====
-- A move is all or nothing: a transaction that fails leaves every page as it was.
use agentspace.Common.{
  ℕ, ◌≡◌, refl, sym, ap, ◌∙◌, ◌≢◌, inl, inr, none, List, [], ◌∷◌, ◌++◌, All, nat_eq, list_eq,
  option_eq, ok, err, Bytes, codes,
}
use mathlib.Core.Path.{subst}
use agentspace.Memory.Error.{MemoryError}
use agentspace.Memory.Path.{PagePath, FilePath, file_components, path_eq}
use agentspace.Memory.Path.Valid.{IsValid}
use agentspace.Memory.Store.{paths_of}
use agentspace.Memory.FsStore.{
  resolved, cleanup_staged, stage_change, stage_all, backup_file, backup_all, install_all,
  run_transaction, check_move, commit_move, next_counter, on_disk,
}
use agentspace.Memory.FsStore.Names.{IsPageFile, full-IsPageFile, transaction_path_ne}
use agentspace.Memory.FsStore.Disk.{FileSystem, FileSystemLaws, ▸-eq-err, on_err, on_err-eq-err}
use agentspace.Memory.FsStore.Steps.{
  backup_of, stage_change-keeps, stage_change-eq-ok, backup_file-eq-err,
}
use agentspace.Memory.FsStore.Staging.{
  targets_of, destinations_of, staged_of, cleanup_staged-keeps, stage_all-keeps,
}
use agentspace.Memory.FsStore.Backups.{Moved, Untouched, Rollback}
use agentspace.Memory.FsStore.Install.{moved_of, backup_all-eq-ok}
use agentspace.Memory.FsStore.Commit.{
  AreApart, finish, from_install, from_backups, from_source, from_staging, stage_both, source_aside,
  fresh_of,
}
use agentspace.Memory.FsStore.Checked.{IsChecked, check_move-eq-ok, checked-AreApart}
use agentspace.Memory.FsStore.Pages.{contents_of}
use agentspace.Memory.FsStore.Undo.{backup_all-eq-err}
use agentspace.Memory.FsStore.UndoInstall.{install_from_start}

module _ (process_id : Bytes) (id : ℕ) where
  staged_not_page :
      (ds : List FilePath) (y : FilePath)
      → IsPageFile y
      → All (λ c. c.0 ≢ y) (staged_of process_id id ds)
  staged_not_page [] y p = tt
  staged_not_page (d ∷ ds) y p =
      (transaction_path_ne process_id d y (codes "stage") id p, staged_not_page ds y p)

  all_moved_lem :
      (ds : List FilePath) (P : FilePath → Type 0)
      → All (λ d. Untouched d (moved_of process_id id ds) → P d) ds
  all_moved_lem [] P = tt
  all_moved_lem (d ∷ ds) P = (
    λ (n, u). absurd (n refl),
    later (backup_of process_id id d) d (moved_of process_id id ds) ds (all_moved_lem ds P),
  )
    where
      later :
          (b d : FilePath) (moved : Moved) (es : List FilePath)
          → All (λ e. Untouched e moved → P e) es
          → All (λ e. Untouched e ((b, d) ∷ moved) → P e) es
      later b d moved [] h = tt
      later b d moved (e ∷ es) (h, hs) = ((λ (n, u). h u), later b d moved es hs)

module _ (fs : FileSystem) (laws : FileSystemLaws fs) (process_id : Bytes) (id : ℕ)
    (rollback : Rollback fs laws process_id id) where
  abbrev Same : fs.State → fs.State → Type 0
  Same s s' = (y : FilePath) → IsPageFile y → laws.file y s' ≡ laws.file y s

  -- Behind the staging.
  source_failed :
      (root source destination : FilePath) (reps : List (PagePath × Bytes)) (e : MemoryError)
      (s s' : fs.State)
      → AreApart source destination (destinations_of (targets_of root reps))
      → All
          (λ p. (t : fs.State) → resolved fs root p t ≡ ok (root ++ file_components p))
          (paths_of reps)
      → laws.file destination s ≡ none
      → from_source fs laws process_id id root reps source
          (staged_of process_id id (destination ∷ destinations_of (targets_of root reps)))
          s
        ≡ (err e, s')
      → Same s s'
  source_failed root source destination reps e s s' a steady free h y page =
      let ds = destinations_of (targets_of root reps) in
      let staged = staged_of process_id id (destination ∷ ds) in
      let apart = staged_not_page process_id id (destination ∷ ds) y page in
      let fresh =
        fresh_of fs laws process_id id (backup_of process_id id source) source ds a.source_apart in
      elim (▸-eq-err (on_err (cleanup_staged fs staged) (backup_file fs process_id source id s))
        (from_backups fs laws process_id id root reps staged) e s' h) [
          | inl failed ↦
              let (t, refused, undone) =
                on_err-eq-err (cleanup_staged fs staged) (backup_file fs process_id source id s) e
                  s' failed in
              ap (laws.file y) (sym undone)
              ∙ (cleanup_staged-keeps fs laws process_id id y staged t apart
                  ∙ backup_file-eq-err fs laws process_id id source y e s t refused)
          | inr (moved, s3, wrapped, more) ↦
              let (named, aside) =
                source_aside fs laws process_id id root reps source staged moved s s3 a.source_page
                  wrapped in
              elim (▸-eq-err (backup_all fs process_id root id staged reps (moved ∷ []) s3)
                (from_install fs laws process_id id root reps staged) e s' more) [
                  | inl failed ↦
                      backup_all-eq-err fs laws process_id id rollback root reps staged _ e s s3 s'
                        steady a.distinct fresh aside
                        (ap (λ m. backup_all fs process_id root id staged reps (m ∷ []) s3)
                            (sym named)
                          ∙ failed)
                        y page apart
                  | inr (backups, s4, done, rest) ↦
                      let (listed, all_aside) =
                        backup_all-eq-ok fs laws process_id id root reps staged _ backups s s3 s4
                          a.distinct fresh aside
                          (ap (λ m. backup_all fs process_id root id staged reps (m ∷ []) s3)
                              (sym named)
                            ∙ done) in
                      elim (▸-eq-err (install_all fs staged backups staged [] s4)
                        (finish fs laws process_id id root reps backups) e s' rest) [
                          | inl failed ↦
                              install_from_start fs laws process_id id rollback (destination ∷ ds)
                                staged backups e s s4 s' (a.destination_page, a.other_pages)
                                (
                                  (λ u. free),
                                  subst (λ m. All (λ d. Untouched d m → laws.file d s ≡ none) ds)
                                      (sym listed)
                                      (all_moved_lem process_id id (source ∷ ds)
                                        (λ d. laws.file d s ≡ none)).1,
                                )
                                all_aside failed y page apart
                          | inr (u, s5, _, last) ↦ cc
                        ]
                ]
        ]

  run_transaction-eq-err :
      (root source destination : FilePath) (bytes : Bytes) (reps : List (PagePath × Bytes))
      (e : MemoryError) (s s' : fs.State)
      → AreApart source destination (destinations_of (targets_of root reps))
      → All
          (λ p. (t : fs.State) → resolved fs root p t ≡ ok (root ++ file_components p))
          (paths_of reps)
      → laws.file destination s ≡ none
      → run_transaction fs process_id root id source destination bytes reps s ≡ (err e, s')
      → Same s s'
  unfolding run_transaction
  run_transaction-eq-err root source destination bytes reps e s s' a steady free h y page =
      let keeps = λ (x : FilePath) (p : IsPageFile x).
        stage_change-keeps fs laws process_id id destination x bytes s
          (transaction_path_ne process_id destination x (codes "stage") id p) in
      elim (▸-eq-err (stage_change fs process_id destination bytes id s)
        (from_staging fs laws process_id id root reps source) e s' h) [
          | inl failed ↦ sym (ap (λ r. laws.file y r.1) failed) ∙ keeps y page
          | inr (change, s1, done, more) ↦
              elim (▸-eq-err (stage_all fs process_id root id reps (change ∷ []) s1)
                (from_source fs laws process_id id root reps source) e s' more) [
                  | inl failed ↦
                      let (named, _) =
                        stage_change-eq-ok fs laws process_id id destination bytes s s1 change
                          done in
                      sym (ap (λ r. laws.file y r.1) failed)
                      ∙ (stage_all-keeps fs laws process_id id root y reps (change ∷ []) s1 page (
                        (λ k.
                            transaction_path_ne process_id destination y (codes "stage") id page
                              (ap (λ (c : FilePath × FilePath). c.0) (sym named) ∙ k)),
                        tt,
                      )
                          ∙ (sym (ap (λ r. laws.file y r.1) done) ∙ keeps y page))
                  | inr (staged, s2, all_done, rest) ↦
                      let (listed, _, kept) =
                        stage_both fs laws process_id id root destination bytes reps change staged s
                          s1 s2 a.destination_page a.destination_apart a.distinct done all_done in
                      source_failed root source destination reps e s2 s' a steady
                        (kept destination a.destination_page ∙ free)
                        (ap (λ l. from_source fs laws process_id id root reps source l s2)
                            (sym listed)
                          ∙ rest)
                        y page
                      ∙ kept y page
                ]
        ]

module _ (fs : FileSystem) (laws : FileSystemLaws fs) (process_id : Bytes) (root : FilePath) where
  -- Whether a page resolves does not change.
  abbrev pub Steady : Type 0
  Steady =
      (p : PagePath) (s s' : fs.State) (full : FilePath)
      → resolved fs root p s ≡ ok full
      → resolved fs root p s' ≡ ok full

  steady_all :
      (source destination : PagePath) (s : fs.State) (ps : List PagePath)
      → Steady
      → All (IsChecked fs laws root source destination [] s) ps
      → All (λ p. (t : fs.State) → resolved fs root p t ≡ ok (root ++ file_components p)) ps
  steady_all source destination s [] steady h = tt
  steady_all source destination s (p ∷ ps) steady (h, hs) =
      ((λ t. steady p s t _ h.resolves), steady_all source destination s ps steady hs)

  -- A move that fails leaves every page as it was, if whether a page resolves does not change, a
  -- file that was moved aside can be moved back, and a file that is there can be removed.
  pub commit_move-eq-err :
      (source destination : PagePath) (bytes : Bytes) (reps : List (PagePath × Bytes))
      (e : MemoryError) (t t' : ℕ × fs.State)
      → Rollback fs laws process_id t.0
      → Steady
      → IsValid source
      → IsValid destination
      → All IsValid (paths_of reps)
      → commit_move fs process_id root source destination bytes reps t ≡ (err e, t')
      → (q : PagePath) → contents_of fs laws root q t' ≡ contents_of fs laws root q t
  unfolding commit_move
  commit_move-eq-err source destination bytes reps e t t' rollback steady v w vs h q =
      let next = λ (full : FilePath × FilePath) (t1 : ℕ × fs.State).
        on_disk fs (run_transaction fs process_id root t1.0 full.0 full.1 bytes reps)
          (next_counter t1.0, t1.1) in
      elim (▸-eq-err (check_move fs root source destination reps t.1, t) next e t' h) [
        | inl failed ↦ ap (λ r. contents_of fs laws root q r.1) (sym failed)
        | inr (full, t1, found, more) ↦
            let checked =
              check_move-eq-ok fs laws root source destination reps t.1 full
                (ap (λ r. r.0) found) in
            let run : run_transaction fs process_id root t.0 (root ++ file_components source)
                  (root ++ file_components destination) bytes reps t.1
                ≡ (err e, t'.1) =
              ap
                (λ (f : FilePath × FilePath).
                  run_transaction fs process_id root t.0 f.0 f.1 bytes reps t.1)
                (sym checked.named)
              ∙ (ap (λ r. run_transaction fs process_id root r.1.0 full.0 full.1 bytes reps r.1.1)
                    found
                  ∙ ap (λ r. (r.0, r.1.1)) more) in
            run_transaction-eq-err fs laws process_id t.0 rollback root _ _ bytes reps e t.1 t'.1
              (checked-AreApart fs laws root source destination reps t.1 full v w vs checked)
              (steady_all source destination t.1 (paths_of reps) steady checked.replaced)
              checked.free run (root ++ file_components q) (full-IsPageFile root q)
      ]
