-- ===== src/Memory/FsStore/Pages.antt =====
-- The store seen as the contents of its pages: what a move, a write and a removal that succeed or
-- fail leave there.
use agentspace.Common.{
  ℕ, ◌≡◌, sym, ap, ◌∙◌, ◌≢◌, inl, inr, false, Option, none, some, List, [], ◌∷◌, ◌++◌, Bool-cases,
  All, ◌==◌, nat_eq, list_eq, option_eq, contains, ok, Bytes,
}
use mathlib.Core.Bool.{true≢false}
use agentspace.Memory.Path.{PagePath, FilePath, file_components, path_eq}
use agentspace.Memory.Path.Valid.{IsValid}
use agentspace.Memory.Store.{paths_of}
use agentspace.Memory.FsStore.{run_transaction, check_move, commit_move, next_counter, on_disk}
use agentspace.Memory.FsStore.Names.{full-IsPageFile, full_path_inj}
use agentspace.Memory.FsStore.Disk.{FileSystem, FileSystemLaws, ▸-eq-ok}
use agentspace.Memory.FsStore.Staging.{targets_of, destinations_of}
use agentspace.Memory.FsStore.Commit.{run_transaction-eq-ok}
use agentspace.Memory.FsStore.Checked.{check_move-eq-ok, checked-AreApart}

module _ (fs : FileSystem) (laws : FileSystemLaws fs) (root : FilePath) where
  -- What the store holds for a page: the file where the page lies.
  abbrev pub contents_of : PagePath → ℕ × fs.State → Option Bytes
  contents_of p t = laws.file (root ++ file_components p) t.1

module _ (fs : FileSystem) (laws : FileSystemLaws fs) (process_id : Bytes) (root : FilePath) where
  abbrev holds : PagePath → ℕ × fs.State → Option Bytes
  holds p t = contents_of fs laws root p t

  held_at :
      (reps : List (PagePath × Bytes)) (t : ℕ × fs.State)
      → All (λ (d, new_bytes). laws.file d t.1 ≡ some new_bytes) (targets_of root reps)
      → All (λ (p, new_bytes). holds p t ≡ some new_bytes) reps
  held_at [] t h = tt
  held_at ((p, bytes) ∷ rest) t (h, hs) = (h, held_at rest t hs)

  not_at :
      (q : PagePath) (reps : List (PagePath × Bytes))
      → IsValid q
      → All IsValid (paths_of reps)
      → contains (paths_of reps) q ≡ false
      → All (λ d. d ≢ root ++ file_components q) (destinations_of (targets_of root reps))
  unfolding contains
  not_at q [] v vs h = tt
  not_at q ((p, bytes) ∷ rest) v (w, vs) h = elim (Bool-cases (p == q)) [
    | inl e ↦ absurd (true≢false (rw e at h))
    | inr e ↦ (
      (λ k. true≢false (sym ((path_eq.eq_iff p q).1 (full_path_inj root p q w v k)) ∙ e)),
      not_at q rest v vs (rw e at h),
    )
  ]

  -- Over any file system, a move that succeeds is the documented move of pages: the source is gone,
  -- the destination holds the bytes, each replaced page holds its new bytes, and every other page is
  -- as it was.
  pub commit_move-eq-ok :
      (source destination : PagePath) (bytes : Bytes) (reps : List (PagePath × Bytes))
      (t t' : ℕ × fs.State)
      → IsValid source
      → IsValid destination
      → All IsValid (paths_of reps)
      → commit_move fs process_id root source destination bytes reps t ≡ (ok tt, t')
      → (contents_of fs laws root source t' ≡ none)
        × (contents_of fs laws root destination t' ≡ some bytes)
        × All (λ (p, new_bytes). contents_of fs laws root p t' ≡ some new_bytes) reps
        × ((q : PagePath)
            → IsValid q
            → q ≢ source
            → q ≢ destination
            → contains (paths_of reps) q ≡ false
            → contents_of fs laws root q t' ≡ contents_of fs laws root q t)
  unfolding commit_move
  commit_move-eq-ok source destination bytes reps t t' v w vs h =
      let (full, t1, found, more) =
        ▸-eq-ok (check_move fs root source destination reps t.1, t)
          (λ full t1.
            on_disk fs (run_transaction fs process_id root t1.0 full.0 full.1 bytes reps)
              (next_counter t1.0, t1.1))
          tt t' h in
      let checked =
        check_move-eq-ok fs laws root source destination reps t.1 full (ap (λ r. r.0) found) in
      let run : run_transaction fs process_id root t1.0 (root ++ file_components source)
            (root ++ file_components destination) bytes reps t.1
          ≡ (ok tt, t'.1) =
        ap
          (λ (f : FilePath × FilePath).
            run_transaction fs process_id root t1.0 f.0 f.1 bytes reps t.1)
          (sym checked.named)
        ∙ (ap (λ r. run_transaction fs process_id root t1.0 full.0 full.1 bytes reps r.1.1) found
            ∙ ap (λ r. (r.0, r.1.1)) more) in
      let m =
        run_transaction-eq-ok fs laws process_id t1.0 root (root ++ file_components source)
          (root ++ file_components destination) bytes reps t.1 t'.1
          (checked-AreApart fs laws root source destination reps t.1 full v w vs checked) run in
      (
        m.gone,
        m.held.0,
        held_at reps t' m.held.1,
        λ q x n k u.
            m.others (root ++ file_components q) (full-IsPageFile root q)
              (λ e. n (sym (full_path_inj root source q v x e)))
              ((λ e. k (sym (full_path_inj root destination q w x e))), not_at q reps x vs u),
      )
