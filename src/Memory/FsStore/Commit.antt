-- ===== src/Memory/FsStore/Commit.antt =====
-- A move that succeeds: what `commit_move` checks, and what its transaction leaves on the disk.
use agentspace.Common.{
  ℕ, ◌≡◌, refl, sym, ap, ◌∙◌, ◌≢◌, none, some, List, [], ◌∷◌, All, nat_eq, list_eq, option_eq, ok,
  Bytes, codes,
}
use agentspace.Common.{Distinct}
use mathlib.Core.Path.{subst}
use agentspace.Memory.Error.{M}
use agentspace.Memory.Path.{PagePath, FilePath, path_eq}
use agentspace.Memory.FsStore.{
  cleanup_staged, remove_backups, stage_change, stage_all, backup_file, backup_all, install_all,
  run_transaction,
}
use agentspace.Memory.FsStore.Names.{IsPageFile, transaction_path_ne}
use agentspace.Memory.FsStore.Disk.{FileSystem, FileSystemLaws, ◌▸◌, ▸-eq-ok, on_err, on_err-eq-ok}
use agentspace.Memory.FsStore.Steps.{
  stage_of, backup_of, stage_change-keeps, stage_change-eq-ok, backup_file-eq-ok,
}
use agentspace.Memory.FsStore.Staging.{
  targets_of, destinations_of, staged_of, Staged, apart_from, All-IsPageFile, stage_all-eq-ok,
}
use agentspace.Memory.FsStore.Backups.{Moved, Untouched, BackedUpAll, backup_step}
use agentspace.Memory.FsStore.Install.{
  moved_of, backup_all-eq-ok, remove_backups-keeps, install_all-eq-ok,
}

-- What the transaction is started with: page files, no two of them the same.
pub record AreApart (source destination : FilePath) (others : List FilePath) : Type 0 where
  pub source_page : IsPageFile source
  pub destination_page : IsPageFile destination
  pub other_pages : All IsPageFile others
  pub differ : source ≢ destination
  pub source_apart : All (λ d. source ≢ d) others
  pub destination_apart : All (λ d. destination ≢ d) others
  pub distinct : Distinct others

pub turned : (d : FilePath) (ds : List FilePath) → All (λ e. d ≢ e) ds → All (λ e. e ≢ d) ds
turned d [] h = tt
turned d (e ∷ ds) (h, hs) = ((λ k. h (sym k)), turned d ds hs)

module _ (fs : FileSystem) (laws : FileSystemLaws fs) (process_id : Bytes) (id : ℕ) where
  -- Before anything is moved aside.
  pub nothing_moved : (s : fs.State) → BackedUpAll fs laws process_id id [] s s
  nothing_moved s = record {
    saved = tt;
    distinct = tt;
    gone = tt;
    pages = λ y p u. refl;
    stages = λ d. refl;
  }

  pub fresh_of :
      (b source : FilePath) (ds : List FilePath)
      → All (λ d. source ≢ d) ds
      → All (λ d. Untouched d ((b, source) ∷ [])) ds
  fresh_of b source [] h = tt
  fresh_of b source (d ∷ ds) (h, hs) = ((h, tt), fresh_of b source ds hs)

  pub later-Staged :
      (targets : List (FilePath × Bytes)) (s s' : fs.State)
      → ((d : FilePath)
          → laws.file (stage_of process_id id d) s' ≡ laws.file (stage_of process_id id d) s)
      → Staged fs laws process_id id targets s
      → Staged fs laws process_id id targets s'
  later-Staged [] s s' same h = tt
  later-Staged ((d, bytes) ∷ rest) s s' same (h, hs) = (same d ∙ h, later-Staged rest s s' same hs)

  pub moved_not_page :
      (ds : List FilePath) (y : FilePath)
      → IsPageFile y
      → All (λ (b, _). b ≢ y) (moved_of process_id id ds)
  moved_not_page [] y h = tt
  moved_not_page (d ∷ ds) y h =
      (transaction_path_ne process_id d y (codes "backup") id h, moved_not_page ds y h)

  pub moved_of-Untouched :
      (ds : List FilePath) (y : FilePath)
      → All (λ d. d ≢ y) ds
      → Untouched y (moved_of process_id id ds)
  moved_of-Untouched [] y h = tt
  moved_of-Untouched (d ∷ ds) y (h, hs) = (h, moved_of-Untouched ds y hs)

  pub stage_both :
      (root destination : FilePath) (bytes : Bytes) (reps : List (PagePath × Bytes))
      (change : FilePath × FilePath) (staged : Moved) (s s1 s2 : fs.State)
      → IsPageFile destination
      → All (λ d. destination ≢ d) (destinations_of (targets_of root reps))
      → Distinct (destinations_of (targets_of root reps))
      → stage_change fs process_id destination bytes id s ≡ (ok change, s1)
      → stage_all fs process_id root id reps (change ∷ []) s1 ≡ (ok staged, s2)
      → (staged ≡ staged_of process_id id (destination ∷ destinations_of (targets_of root reps)))
        × Staged fs laws process_id id ((destination, bytes) ∷ targets_of root reps) s2
        × ((y : FilePath) → IsPageFile y → laws.file y s2 ≡ laws.file y s)
  stage_both root d bytes reps change staged s s1 s2 page apart distinct h k =
      let (named, written) = stage_change-eq-ok fs laws process_id id d bytes s s1 change h in
      let (listed, holding, others) =
        stage_all-eq-ok fs laws process_id id root reps (change ∷ []) staged s1 s2 distinct k in
      let rest = destinations_of (targets_of root reps) in
      (
        listed ∙ ap (λ c. c ∷ staged_of process_id id rest) named,
        (
          others (stage_of process_id id d)
                (apart_from fs laws process_id id d rest page (All-IsPageFile root reps) apart)
              ∙ written,
          holding,
        ),
        λ y p.
            others y (no_stage rest y p)
            ∙ (sym (ap (λ r. laws.file y r.1) h)
                ∙ stage_change-keeps fs laws process_id id d y bytes s
                    (transaction_path_ne process_id d y (codes "stage") id p)),
      )
    where
      no_stage :
          (ds : List FilePath) (y : FilePath)
          → IsPageFile y
          → All (λ d. stage_of process_id id d ≢ y) ds
      no_stage [] y p = tt
      no_stage (d ∷ ds) y p =
          (transaction_path_ne process_id d y (codes "stage") id p, no_stage ds y p)

  -- The pages after a move.
  pub record IsMoved (root : FilePath) (source destination : FilePath) (bytes : Bytes)
      (reps : List (PagePath × Bytes)) (s s' : fs.State) : Type 0 where
    pub gone : laws.file source s' ≡ none
    pub held :
        All
          (λ (d, new_bytes). laws.file d s' ≡ some new_bytes)
          ((destination, bytes) ∷ targets_of root reps)
    pub others :
        (y : FilePath)
        → IsPageFile y
        → source ≢ y
        → All (λ d. d ≢ y) (destination ∷ destinations_of (targets_of root reps))
        → laws.file y s' ≡ laws.file y s

  pub source_aside :
      (root : FilePath) (reps : List (PagePath × Bytes)) (source : FilePath) (staged : Moved)
      (moved : FilePath × FilePath) (s2 s3 : fs.State)
      → IsPageFile source
      → on_err (cleanup_staged fs staged) (backup_file fs process_id source id s2) ≡ (ok moved, s3)
      → (moved ≡ (backup_of process_id id source, source))
        × BackedUpAll fs laws process_id id ((backup_of process_id id source, source) ∷ []) s2 s3
  source_aside root reps source staged moved s2 s3 page wrapped =
      let (named, done) =
        backup_file-eq-ok fs laws process_id id source s2 s3 moved
          (λ k. transaction_path_ne process_id source source (codes "backup") id page (sym k))
          (on_err-eq-ok (cleanup_staged fs staged) (backup_file fs process_id source id s2) moved s3
            wrapped) in
      (named, backup_step fs laws process_id id [] s2 s2 s3 source page tt (nothing_moved s2) done)

  installed :
      (root source destination : FilePath) (bytes : Bytes) (reps : List (PagePath × Bytes))
      (staged backups : Moved) (s s2 s4 s5 s' : fs.State)
      → AreApart source destination (destinations_of (targets_of root reps))
      → staged ≡ staged_of process_id id (destination ∷ destinations_of (targets_of root reps))
      → Staged fs laws process_id id ((destination, bytes) ∷ targets_of root reps) s2
      → ((y : FilePath) → IsPageFile y → laws.file y s2 ≡ laws.file y s)
      → backups ≡ moved_of process_id id (source ∷ destinations_of (targets_of root reps))
      → BackedUpAll fs laws process_id id backups s2 s4
      → install_all fs staged backups staged [] s4 ≡ (ok tt, s5)
      → remove_backups fs backups s5 ≡ s'
      → IsMoved root source destination bytes reps s s'
  installed root source destination bytes reps staged backups s s2 s4 s5 s' a listed holding kept
        all_moved done h5 last =
      let targets = (destination, bytes) ∷ targets_of root reps in
      let ds = destinations_of (targets_of root reps) in
      let (held, others) =
        install_all-eq-ok fs laws process_id id targets staged backups [] s4 s5
          (a.destination_page, a.other_pages) (a.destination_apart, a.distinct)
          (later-Staged targets s2 s4 done.stages holding)
          (ap (λ l. install_all fs staged backups l [] s4) (sym listed) ∙ h5) in
      let same : (y : FilePath) → IsPageFile y → laws.file y s' ≡ laws.file y s5 = λ y p.
        ap (laws.file y) (sym last)
        ∙ remove_backups-keeps fs laws process_id id y backups s5 (
            subst (λ m. All (λ (b, _). b ≢ y) m) (sym all_moved)
              (moved_not_page (source ∷ ds) y p)) in
      let all_gone : BackedUpAll fs laws process_id id (moved_of process_id id (source ∷ ds)) s2
          s4 =
        subst (λ m. BackedUpAll fs laws process_id id m s2 s4) all_moved done in
      record {
        gone =
            same source a.source_page
            ∙ (others source a.source_page
                  ((λ e. a.differ (sym e)), turned source ds a.source_apart)
                ∙ all_gone.gone.0);
        held = later targets s5 s' (a.destination_page, a.other_pages) same held;
        others = λ y p n u.
            same y p
            ∙ (others y p u ∙ (all_gone.pages y p (n, moved_of-Untouched ds y u.1) ∙ kept y p));
      }
    where
      later :
          (targets : List (FilePath × Bytes)) (s5 s' : fs.State)
          → All IsPageFile (destinations_of targets)
          → ((y : FilePath) → IsPageFile y → laws.file y s' ≡ laws.file y s5)
          → All (λ (d, new_bytes). laws.file d s5 ≡ some new_bytes) targets
          → All (λ (d, new_bytes). laws.file d s' ≡ some new_bytes) targets
      later [] s5 s' pages same h = tt
      later ((d, b) ∷ rest) s5 s' (p, pages) same (h, hs) =
          (same d p ∙ h, later rest s5 s' pages same hs)

  module _ (root : FilePath) (reps : List (PagePath × Bytes)) where
    -- What is left of the transaction behind each of its steps.
    abbrev pub finish : Moved → Unit {0} → fs.State → M (Unit {0}) × fs.State
    finish moved _ s = (ok tt, remove_backups fs moved s)

    abbrev pub from_install : Moved → Moved → fs.State → M (Unit {0}) × fs.State
    from_install staged moved s = install_all fs staged moved staged [] s ▸ finish moved

    abbrev pub from_backups : Moved → FilePath × FilePath → fs.State → M (Unit {0}) × fs.State
    from_backups staged moved s =
        backup_all fs process_id root id staged reps (moved ∷ []) s ▸ from_install staged

    abbrev pub from_source : FilePath → Moved → fs.State → M (Unit {0}) × fs.State
    from_source source staged s =
        on_err (cleanup_staged fs staged) (backup_file fs process_id source id s)
        ▸ from_backups staged

    abbrev pub from_staging : FilePath → FilePath × FilePath → fs.State → M (Unit {0}) × fs.State
    from_staging source change s =
        stage_all fs process_id root id reps (change ∷ []) s ▸ from_source source

  pub run_transaction-eq-ok :
      (root source destination : FilePath) (bytes : Bytes) (reps : List (PagePath × Bytes))
      (s s' : fs.State)
      → AreApart source destination (destinations_of (targets_of root reps))
      → run_transaction fs process_id root id source destination bytes reps s ≡ (ok tt, s')
      → IsMoved root source destination bytes reps s s'
  unfolding run_transaction
  run_transaction-eq-ok root source destination bytes reps s s' a h =
      let ds = destinations_of (targets_of root reps) in
      let (change, s1, h1, k1) =
        ▸-eq-ok (stage_change fs process_id destination bytes id s) (from_staging root reps source)
          tt s' h in
      let (staged, s2, h2, k2) =
        ▸-eq-ok (stage_all fs process_id root id reps (change ∷ []) s1)
          (from_source root reps source) tt s' k1 in
      let (listed, holding, kept) =
        stage_both root destination bytes reps change staged s s1 s2 a.destination_page
          a.destination_apart a.distinct h1 h2 in
      let (moved, s3, wrapped, k3) =
        ▸-eq-ok (on_err (cleanup_staged fs staged) (backup_file fs process_id source id s2))
          (from_backups root reps staged) tt s' k2 in
      let (named, aside) = source_aside root reps source staged moved s2 s3 a.source_page wrapped in
      let (backups, s4, h4, k4) =
        ▸-eq-ok (backup_all fs process_id root id staged reps (moved ∷ []) s3)
          (from_install root reps staged) tt s' k3 in
      let (all_moved, done) =
        backup_all-eq-ok fs laws process_id id root reps staged
          ((backup_of process_id id source, source) ∷ []) backups s2 s3 s4 a.distinct
          (fresh_of (backup_of process_id id source) source ds a.source_apart) aside
          (ap (λ m. backup_all fs process_id root id staged reps (m ∷ []) s3) (sym named) ∙ h4) in
      let (_, s5, h5, k5) =
        ▸-eq-ok (install_all fs staged backups staged [] s4) (finish root reps backups) tt s' k4 in
      installed root source destination bytes reps staged backups s s2 s4 s5 s' a listed holding
        kept all_moved done h5 (ap (λ r. r.1) k5)
