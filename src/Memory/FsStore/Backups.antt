-- ===== src/Memory/FsStore/Backups.antt =====
-- The second half of a move: the pages that it changes are moved aside, and moved back from the
-- last to the first when it fails.
use agentspace.Common.{
  ℕ, ◌≡◌, refl, sym, ap, ◌∙◌, ◌≢◌, ◌⊎◌, inl, inr, none, List, [], ◌∷◌, ◌++◌, Bool-cases, All,
  All-append, All-append_left, All-append_right, ◌==◌, nat_eq, list_eq, option_eq, ok, Bytes, codes,
}
use agentspace.Common.{Distinct}
use mathlib.Core.Path.{subst}
use mathlib.Core.Bool.{true≢false}
use agentspace.Memory.Path.{FilePath}
use agentspace.Memory.FsStore.{restore_backups}
use agentspace.Memory.FsStore.Names.{
  IsPageFile, transaction_path_ne, transaction_path_inj, stage-ne-backup,
}
use agentspace.Memory.FsStore.Disk.{FileSystem, FileSystemLaws}
use agentspace.Memory.FsStore.Steps.{stage_of, backup_of, BackedUp}

abbrev pub Moved : Type 0
Moved = List (FilePath × FilePath)

abbrev pub originals_of : Moved → List FilePath
originals_of [] = []
originals_of ((_, o) ∷ rest) = o ∷ originals_of rest

-- No file that was moved aside is the given one.
abbrev pub Untouched : FilePath → Moved → Type 0
Untouched y moved = All (λ (_, o). o ≢ y) moved

Distinct-snoc :
    (moved : Moved) (b o : FilePath)
    → Distinct (originals_of moved)
    → Untouched o moved
    → Distinct (originals_of (moved ++ (b, o) ∷ []))
Distinct-snoc [] b o h k = (tt, tt)
Distinct-snoc ((c, q) ∷ rest) b o (h, hs) (k, ks) = (apart rest h, Distinct-snoc rest b o hs ks)
  where
    apart :
        (rest : Moved)
        → All (λ y. q ≢ y) (originals_of rest)
        → All (λ y. q ≢ y) (originals_of (rest ++ (b, o) ∷ []))
    apart [] h = (k, tt)
    apart ((_, r) ∷ rest) (h, hs) = (h, apart rest hs)

-- What undoing a move needs of the disk: a file that the transaction moved
-- aside can be moved back, and a file
-- that is there can be removed.
pub record Rollback (fs : FileSystem) (laws : FileSystemLaws fs) (process_id : Bytes) (id : ℕ)
    : Type 0 where
  pub restores :
      (o : FilePath) (s : fs.State)
      → IsPageFile o
      → laws.file (backup_of process_id id o) s ≢ none
      → (fs.rename (backup_of process_id id o) o s).0 ≡ ok tt
  pub removes :
      (y : FilePath) (s : fs.State) → laws.file y s ≢ none → (fs.remove_file y s).0 ≡ ok tt

module _ (fs : FileSystem) (laws : FileSystemLaws fs) (process_id : Bytes) (id : ℕ) where
  -- A page that lies aside with the content that it had.
  pub record IsSaved (s0 s : fs.State) (b o : FilePath) : Type 0 where
    pub named : b ≡ backup_of process_id id o
    pub page : IsPageFile o
    pub there : laws.file o s0 ≢ none
    pub kept : laws.file b s ≡ laws.file o s0

  pub record BackedUpAll (moved : Moved) (s0 s : fs.State) : Type 0 where
    pub saved : All (λ (b, o). IsSaved s0 s b o) moved
    pub distinct : Distinct (originals_of moved)
    pub gone : All (λ (_, o). laws.file o s ≡ none) moved
    pub pages : (y : FilePath) → IsPageFile y → Untouched y moved → laws.file y s ≡ laws.file y s0
    pub stages :
        (d : FilePath)
        → laws.file (stage_of process_id id d) s ≡ laws.file (stage_of process_id id d) s0

  after-IsSaved :
      (moved : Moved) (s0 s s1 : fs.State) (o : FilePath)
      → IsPageFile o
      → Untouched o moved
      → All (λ (b, q). IsSaved s0 s b q) moved
      → ((y : FilePath) → o ≢ y → backup_of process_id id o ≢ y → laws.file y s1 ≡ laws.file y s)
      → All (λ (b, q). IsSaved s0 s1 b q) moved
  after-IsSaved [] s0 s s1 o page fresh saved others = tt
  after-IsSaved ((b, q) ∷ rest) s0 s s1 o page (n, fresh) (h, saved) others = (
    record {
      named = h.named;
      page = h.page;
      there = h.there;
      kept =
          others b
            (λ e. transaction_path_ne process_id q o (codes "backup") id page (sym (e ∙ h.named)))
            (λ e. n (
              sym (
                transaction_path_inj process_id o q (codes "backup") id page h.page (e ∙ h.named))))
          ∙ h.kept;
    },
    after-IsSaved rest s0 s s1 o page fresh saved others,
  )

  gone_after :
      (moved : Moved) (s s1 : fs.State) (o : FilePath)
      → IsPageFile o
      → (All (λ (b, q). IsPageFile q) moved)
      → Untouched o moved
      → All (λ (_, q). laws.file q s ≡ none) moved
      → ((y : FilePath) → o ≢ y → backup_of process_id id o ≢ y → laws.file y s1 ≡ laws.file y s)
      → All (λ (_, q). laws.file q s1 ≡ none) moved
  gone_after [] s s1 o page pages fresh gone others = tt
  gone_after ((b, q) ∷ rest) s s1 o page (p, pages) (n, fresh) (h, gone) others = (
    others q (λ e. n (sym e)) (transaction_path_ne process_id o q (codes "backup") id p) ∙ h,
    gone_after rest s s1 o page pages fresh gone others,
  )

  pub saved_pages :
      (moved : Moved) (s0 s : fs.State)
      → All (λ (b, q). IsSaved s0 s b q) moved
      → All (λ (b, q). IsPageFile q) moved
  saved_pages [] s0 s h = tt
  saved_pages ((b, q) ∷ rest) s0 s (h, hs) = (h.page, saved_pages rest s0 s hs)

  pub backup_step :
      (moved : Moved) (s0 s s1 : fs.State) (o : FilePath)
      → IsPageFile o
      → Untouched o moved
      → BackedUpAll moved s0 s
      → BackedUp fs laws process_id id o s s1
      → BackedUpAll (moved ++ (backup_of process_id id o, o) ∷ []) s0 s1
  backup_step moved s0 s s1 o page fresh h k =
      let same : laws.file o s ≡ laws.file o s0 = h.pages o page fresh in
      record {
        saved =
            All-append (λ (b, q). IsSaved s0 s1 b q) moved _
              (after-IsSaved moved s0 s s1 o page fresh h.saved k.others)
              (
                record {
                  named = refl;
                  page = page;
                  there = λ e. k.there (same ∙ e);
                  kept = k.kept ∙ same;
                },
                tt,
              );
        distinct = Distinct-snoc moved _ o h.distinct fresh;
        gone =
            All-append (λ (_, q). laws.file q s1 ≡ none) moved _
              (gone_after moved s s1 o page (saved_pages moved s0 s h.saved) fresh h.gone k.others)
              (k.gone, tt);
        pages = λ y p u.
            k.others y (All-append_right (λ (_, q). q ≢ y) moved _ u).0
              (transaction_path_ne process_id o y (codes "backup") id p)
            ∙ h.pages y p (All-append_left (λ (_, q). q ≢ y) moved _ u);
        stages = λ d.
            k.others (stage_of process_id id d)
              (λ e. transaction_path_ne process_id d o (codes "stage") id page (sym e))
              (λ e. stage-ne-backup process_id d o id (sym e))
            ∙ h.stages d;
      }

module _ (fs : FileSystem) (laws : FileSystemLaws fs) (process_id : Bytes) (id : ℕ)
    (rollback : Rollback fs laws process_id id) where
  record Restored (moved : Moved) (s0 s s' : fs.State) : Type 0 where
    back : All (λ (_, o). laws.file o s' ≡ laws.file o s0) moved
    pages : (y : FilePath) → IsPageFile y → Untouched y moved → laws.file y s' ≡ laws.file y s
    backups :
        (o : FilePath)
        → IsPageFile o
        → Untouched o moved
        → laws.file (backup_of process_id id o) s' ≡ laws.file (backup_of process_id id o) s

  flipped :
      (q : FilePath) (moved : Moved) → All (λ y. q ≢ y) (originals_of moved) → Untouched q moved
  flipped q [] h = tt
  flipped q ((_, o) ∷ rest) (h, hs) = ((λ e. h (sym e)), flipped q rest hs)

  back_after :
      (o : FilePath) (moved : Moved) (s0 t s' : fs.State)
      → All (λ (_, q). IsPageFile q) moved
      → Untouched o moved
      → ((y : FilePath) → backup_of process_id id o ≢ y → o ≢ y → laws.file y s' ≡ laws.file y t)
      → All (λ (_, q). laws.file q t ≡ laws.file q s0) moved
      → All (λ (_, q). laws.file q s' ≡ laws.file q s0) moved
  back_after o [] s0 t s' pages fresh others h = tt
  back_after o ((_, q) ∷ rest) s0 t s' (p, pages) (n, fresh) others (h, hs) = (
    others q (transaction_path_ne process_id o q (codes "backup") id p) (λ e. n (sym e)) ∙ h,
    back_after o rest s0 t s' pages fresh others hs,
  )

  restore_backups_lem :
      (moved : Moved) (s0 s : fs.State)
      → All (λ (b, o). IsSaved fs laws process_id id s0 s b o) moved
      → Distinct (originals_of moved)
      → Restored moved s0 s (restore_backups fs moved s)
  unfolding restore_backups
  restore_backups_lem [] s0 s h k = record {
    back = tt;
    pages = λ y p u. refl;
    backups = λ o p u. refl;
  }
  restore_backups_lem ((b, o) ∷ rest) s0 s (h, hs) (apart, k) =
      let r = restore_backups_lem rest s0 s hs k in
      let t = restore_backups fs rest s in
      let fresh : Untouched o rest = flipped o rest apart in
      let lies : laws.file b t ≡ laws.file o s0 =
        ap (λ x. laws.file x t) h.named
        ∙ (r.backups o h.page fresh ∙ (ap (λ x. laws.file x s) (sym h.named) ∙ h.kept)) in
      let fine : (fs.rename b o t).0 ≡ ok tt =
        ap (λ x. (fs.rename x o t).0) h.named
        ∙ rollback.restores o t h.page
            (λ e. h.there (sym lies ∙ (ap (λ x. laws.file x t) h.named ∙ e))) in
      let b_ne : b ≢ o =
        λ e. transaction_path_ne process_id o o (codes "backup") id h.page (sym h.named ∙ e) in
      let (_, got, _) = laws.rename_ok b o t b_ne fine in
      let others : (y : FilePath)
          → backup_of process_id id o ≢ y
          → o ≢ y
          → laws.file y (fs.rename b o t).1 ≡ laws.file y t =
        λ y n m. laws.rename_others b o y t (λ e. n (sym h.named ∙ e)) m in
      record {
        back = (
          got ∙ lies,
          back_after o rest s0 t _ (saved_pages fs laws process_id id rest s0 s hs) fresh others
              r.back,
        );
        pages = λ y p (n, u).
            others y (transaction_path_ne process_id o y (codes "backup") id p) n ∙ r.pages y p u;
        backups = λ q p (n, u).
            others (backup_of process_id id q)
              (λ e. n (transaction_path_inj process_id o q (codes "backup") id h.page p e))
              (λ e. transaction_path_ne process_id q o (codes "backup") id h.page (sym e))
            ∙ r.backups q p u;
      }

  among :
      (y : FilePath) (moved : Moved)
      → (P : FilePath → Type 0) → All (λ (_, o). P o) moved
      → Untouched y moved ⊎ P y
  among y [] P h = inl tt
  among y ((b, o) ∷ rest) P (h, hs) = elim (Bool-cases (o == y)) [
    | inl e ↦ inr (subst P ((list_eq.eq_iff o y).0 e) h)
    | inr e ↦ elim (among y rest P hs) [
      | inl u ↦ inl ((λ k. true≢false (sym ((list_eq.eq_iff o y).1 k) ∙ e)), u)
      | inr p ↦ inr p
    ]
  ]

  -- Restoring brings every page back, where the pages that were not moved aside are as they were.
  pub restore_backups-pages :
      (moved : Moved) (s0 s : fs.State)
      → All (λ (b, o). IsSaved fs laws process_id id s0 s b o) moved
      → Distinct (originals_of moved)
      → ((y : FilePath) → IsPageFile y → Untouched y moved → laws.file y s ≡ laws.file y s0)
      → (y : FilePath) → IsPageFile y
      → laws.file y (restore_backups fs moved s) ≡ laws.file y s0
  restore_backups-pages moved s0 s saved distinct pages y page =
      let r = restore_backups_lem moved s0 s saved distinct in
      elim (among y moved (λ o. laws.file o (restore_backups fs moved s) ≡ laws.file o s0) r.back) [
        | inl u ↦ r.pages y page u ∙ pages y page u
        | inr e ↦ e
      ]
