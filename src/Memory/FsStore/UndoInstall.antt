-- ===== src/Memory/FsStore/UndoInstall.antt =====
-- A move that fails while the staged files are moved into their places.
use agentspace.Common.{
  ℕ, ◌≡◌, refl, sym, ap, ◌∙◌, ◌≢◌, ◌⊎◌, inl, inr, none, List, [], ◌∷◌, ◌++◌, Bool-cases,
  Option-cases, All, All-append, All-append_left, All-append_right, ◌==◌, nat_eq, list_eq,
  option_eq, Result, ok, err, Bytes, codes,
}
use agentspace.Common.{Distinct}
use mathlib.Core.Path.{subst}
use mathlib.Core.Bool.{true≢false}
use agentspace.Memory.Error.{MemoryError, IoError}
use agentspace.Memory.Path.{FilePath, path_eq}
use agentspace.Memory.FsStore.{cleanup_staged, restore_backups, remove_installed, install_all}
use agentspace.Memory.FsStore.Names.{IsPageFile, transaction_path_ne, stage-ne-backup}
use agentspace.Memory.FsStore.Disk.{
  FileSystem, FileSystemLaws, ▸-eq-err, on_err, on_err-eq-ok, on_err-eq-err, as_memory,
  as_memory-eq-ok, as_memory-eq-err,
}
use agentspace.Memory.FsStore.Steps.{stage_of}
use agentspace.Memory.FsStore.Staging.{staged_of, cleanup_staged-keeps}
use agentspace.Memory.FsStore.Backups.{
  Moved, Untouched, originals_of, Rollback, IsSaved, BackedUpAll, restore_backups-pages,
}
use agentspace.Memory.FsStore.Undo.{same-IsSaved}

module _ (fs : FileSystem) (laws : FileSystemLaws fs) (process_id : Bytes) (id : ℕ)
    (rollback : Rollback fs laws process_id id) where
  -- While the staged files are moved into their places: the pages that lie aside, and the places
  -- that have been filled, which held nothing if no page was moved from there.
  record Installing (moved : Moved) (filled : List FilePath) (s0 s : fs.State) : Type 0 where
    saved : All (λ (b, o). IsSaved fs laws process_id id s0 s b o) moved
    distinct : Distinct (originals_of moved)
    free : All (λ d. Untouched d moved → laws.file d s0 ≡ none) filled
    places : All IsPageFile filled
    pages :
        (y : FilePath)
        → IsPageFile y
        → Untouched y moved
        → All (λ d. d ≢ y) filled
        → laws.file y s ≡ laws.file y s0

  removed : (y : FilePath) (s : fs.State) → laws.file y (fs.remove_file y s).1 ≡ none
  removed y s = elim (Option-cases (laws.file y s)) [
    | inl e ↦ gone ((fs.remove_file y s).0) refl e
    | inr (bytes, e) ↦ laws.remove_ok y s (rollback.removes y s (λ k. cc))
  ]
    where
      gone :
          (r : Result IoError (Unit {0}))
          → (fs.remove_file y s).0 ≡ r
          → laws.file y s ≡ none
          → laws.file y (fs.remove_file y s).1 ≡ none
      gone (err i) h e = laws.remove_err y y s i h ∙ e
      gone (ok tt) h e = laws.remove_ok y s h

  remove_installed-keeps :
      (filled : List FilePath) (y : FilePath) (s : fs.State)
      → All (λ d. d ≢ y) filled
      → laws.file y (remove_installed fs filled s) ≡ laws.file y s
  unfolding remove_installed
  remove_installed-keeps [] y s h = refl
  remove_installed-keeps (d ∷ rest) y s (h, hs) =
      laws.remove_others d y (remove_installed fs rest s) h ∙ remove_installed-keeps rest y s hs

  -- A page is either none of the filled places, or it is one, and nothing is there any more.
  remove_installed-cases :
      (filled : List FilePath) (y : FilePath) (s : fs.State) (P : FilePath → Type 0)
      → All P filled
      → All (λ d. d ≢ y) filled ⊎ ((laws.file y (remove_installed fs filled s) ≡ none) × P y)
  unfolding remove_installed
  remove_installed-cases [] y s P h = inl tt
  remove_installed-cases (d ∷ rest) y s P (h, hs) = elim (Bool-cases (d == y)) [
    | inl e ↦
        let same = (list_eq.eq_iff d y).0 e in
        inr (
          ap (λ x. laws.file x (fs.remove_file d (remove_installed fs rest s)).1) (sym same)
              ∙ removed d (remove_installed fs rest s),
          subst P same h,
        )
    | inr e ↦
        let apart : d ≢ y = λ k. true≢false (sym ((list_eq.eq_iff d y).1 k) ∙ e) in
        elim (remove_installed-cases rest y s P hs) [
          | inl u ↦ inl (apart, u)
          | inr (gone, p) ↦
              inr (laws.remove_others d y (remove_installed fs rest s) apart ∙ gone, p)
        ]
  ]

  remove_installed-IsSaved :
      (moved : Moved) (filled : List FilePath) (s0 s : fs.State)
      → All IsPageFile filled
      → All (λ (b, o). IsSaved fs laws process_id id s0 s b o) moved
      → All (λ (b, o). IsSaved fs laws process_id id s0 (remove_installed fs filled s) b o) moved
  remove_installed-IsSaved [] filled s0 s places h = tt
  remove_installed-IsSaved ((b, o) ∷ rest) filled s0 s places (h, hs) = (
    record {
      named = h.named;
      page = h.page;
      there = h.there;
      kept = remove_installed-keeps filled b s (no_backup filled places) ∙ h.kept;
    },
    remove_installed-IsSaved rest filled s0 s places hs,
  )
    where
      no_backup : (ds : List FilePath) → All IsPageFile ds → All (λ d. d ≢ b) ds
      no_backup [] k = tt
      no_backup (d ∷ ds) (k, ks) = (
        (λ e. transaction_path_ne process_id o d (codes "backup") id k (sym (e ∙ h.named))),
        no_backup ds ks,
      )

  undo_installed :
      (staged moved : Moved) (filled : List FilePath) (s0 s : fs.State)
      → Installing moved filled s0 s
      → (y : FilePath) → IsPageFile y
      → All (λ c. c.0 ≢ y) staged
      → laws.file y
          (cleanup_staged fs staged (restore_backups fs moved (remove_installed fs filled s)))
        ≡ laws.file y s0
  undo_installed staged moved filled s0 s h y page apart =
      cleanup_staged-keeps fs laws process_id id y staged _ apart
      ∙ restore_backups-pages fs laws process_id id rollback moved s0 (remove_installed fs filled s)
          (remove_installed-IsSaved moved filled s0 s h.places h.saved) h.distinct
          (λ x q u.
            elim (remove_installed-cases filled x s (λ d. Untouched d moved → laws.file d s0 ≡ none)
              h.free) [
                | inl v ↦ remove_installed-keeps filled x s v ∙ h.pages x q u v
                | inr (gone, was) ↦ gone ∙ sym (was u)
              ])
          y page

  install-IsSaved :
      (moved : Moved) (s0 s s1 : fs.State) (d : FilePath)
      → IsPageFile d
      → ((y : FilePath) → stage_of process_id id d ≢ y → d ≢ y → laws.file y s1 ≡ laws.file y s)
      → All (λ (b, o). IsSaved fs laws process_id id s0 s b o) moved
      → All (λ (b, o). IsSaved fs laws process_id id s0 s1 b o) moved
  install-IsSaved [] s0 s s1 d page others h = tt
  install-IsSaved ((b, o) ∷ rest) s0 s s1 d page others (h, hs) = (
    record {
      named = h.named;
      page = h.page;
      there = h.there;
      kept =
          others b (λ e. stage-ne-backup process_id d o id (e ∙ h.named))
            (λ e. transaction_path_ne process_id o d (codes "backup") id page (sym (e ∙ h.named)))
          ∙ h.kept;
    },
    install-IsSaved rest s0 s s1 d page others hs,
  )

  install_step :
      (moved : Moved) (filled : List FilePath) (s0 s s1 : fs.State) (d : FilePath)
      → IsPageFile d
      → (Untouched d moved → laws.file d s0 ≡ none)
      → ((y : FilePath) → stage_of process_id id d ≢ y → d ≢ y → laws.file y s1 ≡ laws.file y s)
      → Installing moved filled s0 s
      → Installing moved (filled ++ d ∷ []) s0 s1
  install_step moved filled s0 s s1 d page free others h = record {
    saved = install-IsSaved moved s0 s s1 d page others h.saved;
    distinct = h.distinct;
    free = All-append (λ d. Untouched d moved → laws.file d s0 ≡ none) filled _ h.free (free, tt);
    places = All-append IsPageFile filled _ h.places (page, tt);
    pages = λ y p u k.
        others y (transaction_path_ne process_id d y (codes "stage") id p)
          (All-append_right (λ e. e ≢ y) filled (d ∷ []) k).0
        ∙ h.pages y p u (All-append_left (λ e. e ≢ y) filled (d ∷ []) k);
  }

  install_all-eq-err :
      (ds : List FilePath) (staged moved : Moved) (filled : List FilePath) (e : MemoryError)
      (s0 s s' : fs.State)
      → All IsPageFile ds
      → All (λ d. Untouched d moved → laws.file d s0 ≡ none) ds
      → Installing moved filled s0 s
      → install_all fs staged moved (staged_of process_id id ds) filled s ≡ (err e, s')
      → (y : FilePath) → IsPageFile y
      → All (λ c. c.0 ≢ y) staged
      → laws.file y s' ≡ laws.file y s0
  unfolding install_all
  install_all-eq-err [] staged moved filled e s0 s s' pages free h k y page apart = cc
  install_all-eq-err (d ∷ ds) staged moved filled e s0 s s' (p, pages) (f, free) h k y page apart =
      let undo = λ (t : fs.State).
        cleanup_staged fs staged (restore_backups fs moved (remove_installed fs filled t)) in
      let next = λ (_ : Unit {0}) (s1 : fs.State).
        install_all fs staged moved (staged_of process_id id ds) (filled ++ d ∷ []) s1 in
      let call = as_memory (fs.rename (stage_of process_id id d) d s) in
      elim (▸-eq-err (on_err undo call) next e s' k) [
        | inl failed ↦
            let (t, refused, undone) = on_err-eq-err undo call e s' failed in
            let (i, wrong, after) =
              as_memory-eq-err (fs.rename (stage_of process_id id d) d s) e t refused in
            let same : (x : FilePath) → laws.file x t ≡ laws.file x s = λ x.
              ap (laws.file x) (sym after)
              ∙ laws.rename_err (stage_of process_id id d) d x s i wrong in
            ap (laws.file y) (sym undone)
            ∙ undo_installed staged moved filled s0 t
                record {
                  saved = same-IsSaved fs laws process_id id rollback moved s0 s t same h.saved;
                  distinct = h.distinct;
                  free = h.free;
                  places = h.places;
                  pages = λ x q u v. same x ∙ h.pages x q u v;
                }
                y page apart
        | inr (u, s1, wrapped, following) ↦
            let (fine, after) =
              as_memory-eq-ok (fs.rename (stage_of process_id id d) d s) u s1
                (on_err-eq-ok undo call u s1 wrapped) in
            install_all-eq-err ds staged moved (filled ++ d ∷ []) e s0 s1 s' pages free
              (install_step moved filled s0 s s1 d p f
                (λ x n m.
                  ap (laws.file x) (sym after)
                  ∙ laws.rename_others (stage_of process_id id d) d x s n m)
                h)
              following y page apart
      ]

  pub install_from_start :
      (ds : List FilePath) (staged moved : Moved) (e : MemoryError) (s0 s s' : fs.State)
      → All IsPageFile ds
      → All (λ d. Untouched d moved → laws.file d s0 ≡ none) ds
      → BackedUpAll fs laws process_id id moved s0 s
      → install_all fs staged moved (staged_of process_id id ds) [] s ≡ (err e, s')
      → (y : FilePath) → IsPageFile y
      → All (λ c. c.0 ≢ y) staged
      → laws.file y s' ≡ laws.file y s0
  install_from_start ds staged moved e s0 s s' pages free h k =
      install_all-eq-err ds staged moved [] e s0 s s' pages free
        record {
          saved = h.saved;
          distinct = h.distinct;
          free = tt;
          places = tt;
          pages = λ y p u v. h.pages y p u;
        }
        k
