-- ===== src/Memory/FsStore/Checked.antt =====
-- What `commit_move` checks before it changes anything: two pages, the first there and the second
-- not, and replacements that are there, none of them twice or one of the two.
use agentspace.Common.{
  ◌≡◌, refl, sym, ap, ◌∙◌, ◌≢◌, Bool, true, false, not, ◌||◌, none, List, [], ◌∷◌, ◌++◌, All, ◌==◌,
  nat_eq, list_eq, option_eq, contains, ok, and_then-eq-ok, ok-injective, Bytes,
}
use agentspace.Common.{Distinct}
use mathlib.Core.Bool.{true≢false}
use agentspace.Memory.Error.{
  MemoryError, invalid_path, not_found, already_exists, duplicate_replacement,
}
use agentspace.Memory.Path.{PagePath, FilePath, file_components, path_eq, as_str}
use agentspace.Memory.Path.Valid.{IsValid}
use agentspace.Memory.Path.Resolve.{resolve_within_sound}
use agentspace.Memory.Store.{paths_of}
use agentspace.Memory.Service.{fail_if}
use agentspace.Memory.Service.Steps.{fail_if-eq-ok}
use agentspace.Memory.FsStore.{resolved, check_replacements, check_move}
use agentspace.Memory.FsStore.Names.{full-IsPageFile, full_path_inj}
use agentspace.Memory.FsStore.Disk.{FileSystem, FileSystemLaws}
use agentspace.Memory.FsStore.Staging.{targets_of, destinations_of, All-IsPageFile}
use agentspace.Memory.FsStore.Commit.{AreApart}

differs : (p q : PagePath) → (p == q) ≡ false → p ≢ q
differs p q h e = true≢false (sym ((path_eq.eq_iff p q).1 e) ∙ h)

or-false : (a b : Bool) → (a || b) ≡ false → (a ≡ false) × (b ≡ false)
or-false true b h = cc
or-false false b h = (refl, h)

not-false : (b : Bool) → not b ≡ false → b ≡ true
not-false true h = refl
not-false false h = cc

module _ (fs : FileSystem) (laws : FileSystemLaws fs) (root : FilePath) where
  pub record IsChecked (source destination : PagePath) (seen : List PagePath) (s : fs.State)
      (p : PagePath) : Type 0 where
    pub not_source : p ≢ source
    pub not_destination : p ≢ destination
    pub unseen : contains seen p ≡ false
    pub there : laws.file (root ++ file_components p) s ≢ none
    pub resolves : resolved fs root p s ≡ ok (root ++ file_components p)

  weaken :
      (source destination q : PagePath) (seen : List PagePath) (s : fs.State) (ps : List PagePath)
      → All (IsChecked source destination (q ∷ seen) s) ps
      → All (IsChecked source destination seen s) ps × All (λ p. q ≢ p) ps
  unfolding contains
  weaken source destination q seen s [] h = (tt, tt)
  weaken source destination q seen s (p ∷ ps) (h, hs) =
      let (first, second) = or-false (q == p) (contains seen p) h.unseen in
      let (k, ks) = weaken source destination q seen s ps hs in
      (
        (
          record {
            not_source = h.not_source;
            not_destination = h.not_destination;
            unseen = second;
            there = h.there;
            resolves = h.resolves;
          },
          k,
        ),
        (differs q p first, ks),
      )

  check_replacements-eq-ok :
      (source destination : PagePath) (seen : List PagePath) (reps : List (PagePath × Bytes))
      (s : fs.State)
      → check_replacements fs root source destination seen reps s ≡ ok tt
      → All (IsChecked source destination seen s) (paths_of reps) × Distinct (paths_of reps)
  unfolding check_replacements
  check_replacements-eq-ok source destination seen [] s h = (tt, tt)
  check_replacements-eq-ok source destination seen ((p, bytes) ∷ rest) s h =
      let (_, unique, more) =
        and_then-eq-ok
          (fail_if (p == source || p == destination || contains seen p)
            (invalid_path (as_str p) duplicate_replacement))
          _ h in
      let (full, at, more) = and_then-eq-ok (resolved fs root p s) _ more in
      let (_, present, more) =
        and_then-eq-ok (fail_if (not (fs.is_file full s)) (not_found (as_str p))) _ more in
      let same = (resolve_within_sound (fs.symlink_metadata s) root p full at).0 in
      let (pair, third) =
        or-false (p == source || p == destination) (contains seen p) (fail_if-eq-ok _ _ unique) in
      let (first, second) = or-false (p == source) (p == destination) pair in
      let (all_checked, distinct) =
        check_replacements-eq-ok source destination (p ∷ seen) rest s more in
      let (weaker, apart) = weaken source destination p seen s (paths_of rest) all_checked in
      (
        (
          record {
            not_source = differs p source first;
            not_destination = differs p destination second;
            unseen = third;
            there = λ e.
                laws.is_file_true full s (not-false (fs.is_file full s) (fail_if-eq-ok _ _ present))
                  (ap (λ x. laws.file x s) same ∙ e);
            resolves = at ∙ ap (λ x. ok x) same;
          },
          weaker,
        ),
        (apart, distinct),
      )

  pub apart_at :
      (p : PagePath) (reps : List (PagePath × Bytes))
      → IsValid p
      → All IsValid (paths_of reps)
      → All (λ q. p ≢ q) (paths_of reps)
      → All (λ d. root ++ file_components p ≢ d) (destinations_of (targets_of root reps))
  apart_at p [] v vs h = tt
  apart_at p ((q, bytes) ∷ rest) v (w, vs) (h, hs) =
      ((λ e. h (full_path_inj root p q v w e)), apart_at p rest v vs hs)

  distinct_at :
      (reps : List (PagePath × Bytes))
      → All IsValid (paths_of reps)
      → Distinct (paths_of reps)
      → Distinct (destinations_of (targets_of root reps))
  distinct_at [] vs h = tt
  distinct_at ((q, bytes) ∷ rest) (v, vs) (h, hs) = (apart_at q rest v vs h, distinct_at rest vs hs)

  pub record MoveChecked (source destination : PagePath) (reps : List (PagePath × Bytes))
      (s : fs.State) (full : FilePath × FilePath) : Type 0 where
    pub named : full ≡ (root ++ file_components source, root ++ file_components destination)
    pub there : laws.file (root ++ file_components source) s ≢ none
    pub free : laws.file (root ++ file_components destination) s ≡ none
    pub replaced : All (IsChecked source destination [] s) (paths_of reps)
    pub distinct : Distinct (paths_of reps)

  pub check_move-eq-ok :
      (source destination : PagePath) (reps : List (PagePath × Bytes)) (s : fs.State)
      (full : FilePath × FilePath)
      → check_move fs root source destination reps s ≡ ok full
      → MoveChecked source destination reps s full
  unfolding check_move
  check_move-eq-ok source destination reps s full h =
      let (source_full, at1, more) = and_then-eq-ok (resolved fs root source s) _ h in
      let (destination_full, at2, more) = and_then-eq-ok (resolved fs root destination s) _ more in
      let (_, present, more) =
        and_then-eq-ok (fail_if (not (fs.is_file source_full s)) (not_found (as_str source))) _
          more in
      let (_, absent, more) =
        and_then-eq-ok
          (fail_if (fs.exists destination_full s) (already_exists (as_str destination))) _ more in
      let (_, checked, last) =
        and_then-eq-ok (check_replacements fs root source destination [] reps s) _ more in
      let same1 = (resolve_within_sound (fs.symlink_metadata s) root source source_full at1).0 in
      let same2 =
        (resolve_within_sound (fs.symlink_metadata s) root destination destination_full at2).0 in
      let (replaced, distinct) = check_replacements-eq-ok source destination [] reps s checked in
      record {
        named =
            sym (ok-injective {E = MemoryError} (source_full, destination_full) full last)
            ∙ (ap (λ x. (x, destination_full)) same1
                ∙ ap (λ y. (root ++ file_components source, y)) same2);
        there = λ e.
            laws.is_file_true source_full s
              (not-false (fs.is_file source_full s) (fail_if-eq-ok _ _ present))
              (ap (λ x. laws.file x s) same1 ∙ e);
        free =
            ap (λ x. laws.file x s) (sym same2)
            ∙ laws.exists_false destination_full s (fail_if-eq-ok _ _ absent);
        replaced = replaced;
        distinct = distinct;
      }

  apart_from_checked :
      (p source destination : PagePath) (s : fs.State) (ps : List PagePath)
      → ((q : PagePath) → IsChecked source destination [] s q → p ≢ q)
      → All (IsChecked source destination [] s) ps
      → All (λ q. p ≢ q) ps
  apart_from_checked p source destination s [] f h = tt
  apart_from_checked p source destination s (q ∷ ps) f (h, hs) =
      (f q h, apart_from_checked p source destination s ps f hs)

  pub checked-AreApart :
      (source destination : PagePath) (reps : List (PagePath × Bytes)) (s : fs.State)
      (full : FilePath × FilePath)
      → IsValid source
      → IsValid destination
      → All IsValid (paths_of reps)
      → MoveChecked source destination reps s full
      → AreApart
          (root ++ file_components source)
          (root ++ file_components destination)
          (destinations_of (targets_of root reps))
  checked-AreApart source destination reps s full v w vs m = record {
    source_page = full-IsPageFile root source;
    destination_page = full-IsPageFile root destination;
    other_pages = All-IsPageFile root reps;
    differ = λ e. m.there (ap (λ x. laws.file x s) e ∙ m.free);
    source_apart = apart_at source reps v vs (
        apart_from_checked source source destination s (paths_of reps)
          (λ q k e. k.not_source (sym e)) m.replaced);
    destination_apart = apart_at destination reps w vs (
        apart_from_checked destination source destination s (paths_of reps)
          (λ q k e. k.not_destination (sym e)) m.replaced);
    distinct = distinct_at reps vs m.distinct;
  }
