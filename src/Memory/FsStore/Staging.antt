-- ===== src/Memory/FsStore/Staging.antt =====
-- The first half of a move: every new content is written to a file of its own beside its
-- destination, and no page is touched.
use agentspace.Common.{
  ℕ, ◌≡◌, refl, sym, ap, ◌∙◌, ◌≢◌, some, List, [], ◌∷◌, ◌++◌, append-nil, append_assoc, All,
  All-append, nat_eq, list_eq, option_eq, ok, Bytes, codes,
}
use agentspace.Common.{Distinct}
use agentspace.Memory.Error.{M}
use agentspace.Memory.Path.{PagePath, FilePath, file_components}
use agentspace.Memory.Path.Resolve.{resolve_within_sound}
use agentspace.Memory.FsStore.{resolved, stage_change, cleanup_staged, stage_all}
use agentspace.Memory.FsStore.Names.{
  IsPageFile, full-IsPageFile, transaction_path_ne, transaction_path_inj,
}
use agentspace.Memory.FsStore.Disk.{
  FileSystem, FileSystemLaws, ◌▸◌, ▸-eq-ok, ▸-keeps, on_err, on_err-eq-ok, on_err-keeps,
}
use agentspace.Memory.FsStore.Steps.{stage_of, stage_change-keeps, stage_change-eq-ok}

abbrev pub targets_of : FilePath → List (PagePath × Bytes) → List (FilePath × Bytes)
targets_of root [] = []
targets_of root ((p, bytes) ∷ rest) = (root ++ file_components p, bytes) ∷ targets_of root rest

abbrev pub destinations_of : List (FilePath × Bytes) → List FilePath
destinations_of [] = []
destinations_of ((d, _) ∷ rest) = d ∷ destinations_of rest

-- The names of the staged files.
abbrev pub staged_of : Bytes → ℕ → List FilePath → List (FilePath × FilePath)
staged_of process_id id [] = []
staged_of process_id id (d ∷ rest) = (stage_of process_id id d, d) ∷ staged_of process_id id rest

module _ (fs : FileSystem) (root : FilePath) where
  -- A step that succeeds behind `resolve_within` runs at the file of the page.
  pub resolved_step :
      {T : Type 0} {B : Type 0} (p : PagePath) (s : fs.State) (t : T)
      (next : FilePath → T → M B × T) (b : B) (t' : T)
      → ((resolved fs root p s, t) ▸ next) ≡ (ok b, t')
      → (resolved fs root p s ≡ ok (root ++ file_components p))
        × (next (root ++ file_components p) t ≡ (ok b, t'))
  resolved_step p s t next b t' h =
      let (full, t0, found, more) = ▸-eq-ok (resolved fs root p s, t) next b t' h in
      let at : resolved fs root p s ≡ ok full = ap (λ r. r.0) found in
      let same = (resolve_within_sound (fs.symlink_metadata s) root p full at).0 in
      (
        at ∙ ap (λ x. ok x) same,
        ap (λ x. next x t) (sym same) ∙ (ap (λ r. next full r.1) found ∙ more),
      )

pub All-IsPageFile :
    (root : FilePath) (reps : List (PagePath × Bytes))
    → All IsPageFile (destinations_of (targets_of root reps))
All-IsPageFile root [] = tt
All-IsPageFile root ((p, bytes) ∷ rest) = (full-IsPageFile root p, All-IsPageFile root rest)

module _ (fs : FileSystem) (laws : FileSystemLaws fs) (process_id : Bytes) (id : ℕ) where
  -- The staged files hold the new contents.
  abbrev pub Staged : List (FilePath × Bytes) → fs.State → Type 0
  Staged targets s = All (λ (d, bytes). laws.file (stage_of process_id id d) s ≡ some bytes) targets

  pub stage_step :
      {B : Type 0} (d : FilePath) (bytes : Bytes) (undo : fs.State → fs.State)
      (next : FilePath × FilePath → fs.State → M B × fs.State) (b : B) (s s' : fs.State)
      → (on_err undo (stage_change fs process_id d bytes id s) ▸ next) ≡ (ok b, s')
      → (s1 : fs.State) × (next (stage_of process_id id d, d) s1 ≡ (ok b, s'))
        × (laws.file (stage_of process_id id d) s1 ≡ some bytes)
        × ((y : FilePath) → stage_of process_id id d ≢ y → laws.file y s1 ≡ laws.file y s)
  stage_step d bytes undo next b s s' h =
      let (change, s1, wrapped, more) =
        ▸-eq-ok (on_err undo (stage_change fs process_id d bytes id s)) next b s' h in
      let staging = on_err-eq-ok undo (stage_change fs process_id d bytes id s) change s1 wrapped in
      let (named, written) = stage_change-eq-ok fs laws process_id id d bytes s s1 change staging in
      (
        s1,
        ap (λ k. next k s1) (sym named) ∙ more,
        written,
        λ y k.
            ap (λ r. laws.file y r.1) (sym staging)
            ∙ stage_change-keeps fs laws process_id id d y bytes s k,
      )

  pub apart_from :
      (d : FilePath) (ds : List FilePath)
      → IsPageFile d
      → All IsPageFile ds
      → All (λ e. d ≢ e) ds
      → All (λ e. stage_of process_id id e ≢ stage_of process_id id d) ds
  apart_from d [] h hs k = tt
  apart_from d (e ∷ ds) h (g, hs) (n, k) = (
    λ same. n (sym (transaction_path_inj process_id e d (codes "stage") id g h same)),
    apart_from d ds h hs k,
  )

  pub stage_all-eq-ok :
      (root : FilePath) (reps : List (PagePath × Bytes))
      (staged result : List (FilePath × FilePath)) (s s' : fs.State)
      → Distinct (destinations_of (targets_of root reps))
      → stage_all fs process_id root id reps staged s ≡ (ok result, s')
      → (result ≡ staged ++ staged_of process_id id (destinations_of (targets_of root reps)))
        × Staged (targets_of root reps) s'
        × ((y : FilePath)
            → All (λ d. stage_of process_id id d ≢ y) (destinations_of (targets_of root reps))
            → laws.file y s' ≡ laws.file y s)
  unfolding stage_all
  stage_all-eq-ok root [] staged result s s' distinct h =
      (cc (append-nil staged), tt, λ y k. ap (λ r. laws.file y r.1) (sym h))
  stage_all-eq-ok root ((p, bytes) ∷ rest) staged result s s' (apart, distinct) h =
      let (_, more) =
        resolved_step fs root p s s
          (λ full s1.
            on_err (cleanup_staged fs staged) (stage_change fs process_id full bytes id s1)
            ▸ λ change s2. stage_all fs process_id root id rest (staged ++ change ∷ []) s2)
          result s' h in
      let (s1, following, written, kept) =
        stage_step (root ++ file_components p) bytes (cleanup_staged fs staged)
          (λ change s2. stage_all fs process_id root id rest (staged ++ change ∷ []) s2) result s s'
          more in
      let (listed, holding, others) = stage_all-eq-ok root rest _ result s1 s' distinct following in
      (
        listed ∙ append_assoc staged _ _,
        (
          others (stage_of process_id id (root ++ file_components p))
                (apart_from _ _ (full-IsPageFile root p) (All-IsPageFile root rest) apart)
              ∙ written,
          holding,
        ),
        λ y (k, ks). others y ks ∙ kept y k,
      )

  pub cleanup_staged-keeps :
      (y : FilePath) (staged : List (FilePath × FilePath)) (s : fs.State)
      → All (λ change. change.0 ≢ y) staged
      → laws.file y (cleanup_staged fs staged s) ≡ laws.file y s
  unfolding cleanup_staged
  cleanup_staged-keeps y [] s h = refl
  cleanup_staged-keeps y ((t, d) ∷ rest) s (h, hs) =
      cleanup_staged-keeps y rest (fs.remove_file t s).1 hs ∙ laws.remove_others t y s h

  -- However the staging ends, no page has changed.
  pub stage_all-keeps :
      (root y : FilePath) (reps : List (PagePath × Bytes)) (staged : List (FilePath × FilePath))
      (s : fs.State)
      → IsPageFile y
      → All (λ change. change.0 ≢ y) staged
      → laws.file y (stage_all fs process_id root id reps staged s).1 ≡ laws.file y s
  unfolding stage_all
  stage_all-keeps root y [] staged s page h = refl
  stage_all-keeps root y ((p, bytes) ∷ rest) staged s page h =
      ▸-keeps (λ t. laws.file y t ≡ laws.file y s) (resolved fs root p s, s)
        (λ full s1.
          on_err (cleanup_staged fs staged) (stage_change fs process_id full bytes id s1)
          ▸ λ change s2. stage_all fs process_id root id rest (staged ++ change ∷ []) s2)
        refl
        (λ full s1 _ same.
          ▸-keeps (λ t. laws.file y t ≡ laws.file y s)
            (on_err (cleanup_staged fs staged) (stage_change fs process_id full bytes id s1))
            (λ change s2. stage_all fs process_id root id rest (staged ++ change ∷ []) s2)
            (on_err-keeps (λ t. laws.file y t ≡ laws.file y s) (cleanup_staged fs staged)
              (stage_change fs process_id full bytes id s1)
              (stage_change-keeps fs laws process_id id full y bytes s1 (apart full) ∙ same)
              (λ t k. cleanup_staged-keeps y staged t h ∙ k))
            (λ change s2 done k.
              stage_all-keeps root y rest _ s2 page (
                All-append (λ change. change.0 ≢ y) staged (change ∷ []) h
                  ((λ e. apart full (named full s1 change s2 done ∙ e)), tt))
              ∙ k))
    where
      apart : (d : FilePath) → stage_of process_id id d ≢ y
      apart d = transaction_path_ne process_id d y (codes "stage") id page

      named :
          (full : FilePath) (s1 : fs.State) (change : FilePath × FilePath) (s2 : fs.State)
          → on_err (cleanup_staged fs staged) (stage_change fs process_id full bytes id s1)
            ≡ (ok change, s2)
          → stage_of process_id id full ≡ change.0
      named full s1 change s2 done =
          ap (λ (c : FilePath × FilePath). c.0)
            (sym
              (stage_change-eq-ok fs laws process_id id full bytes s1 s2 change (
                on_err-eq-ok (cleanup_staged fs staged)
                  (stage_change fs process_id full bytes id s1) change s2 done)).0)
