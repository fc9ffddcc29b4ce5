-- ===== src/ClientService/Config/Skills/Mounts.antt =====
-- What the content check of the skills of a document leaves of their mount paths.
use agentspace.Common.{
  ◌≡◌, refl, sym, ap, ◌∙◌, ◌≢◌, inl, inr, Bool, true, false, Option, none, some, List, [], ◌∷◌,
  ◌++◌, if◌then◌else◌, Bool-cases, All, ◌==◌, nat_eq, list_eq, option_eq, contains, Result, ok, err,
  look_up, put, look_up-put_same, look_up-put_other, Bytes,
}
use agentspace.Common.{Distinct}
use mathlib.Core.Path.{subst}
use mathlib.Core.Bool.{true≢false}
use agentspace.ClientService.Config.Skills.{
  SkillContentIssue, SkillVolumeDeclaration, SkillMetadata, MountPaths, collision, check_volumes,
  check_paths, is_valid_mount_path, is_safe_relative_path, check_metadata, check_metadata_file,
  is_there, validate_skill_content, skill_markdown_file, skill_metadata_file, duplicate_volume_id,
  invalid_skill_mount_path, missing_skill_markdown, invalid_skill_file_path, invalid_skill_metadata,
  unsupported_schema_version,
}

abbrev pub mount_paths_of : List SkillVolumeDeclaration → List Bytes
mount_paths_of [] = []
mount_paths_of (v ∷ vs) = v.mount_path ∷ mount_paths_of vs

append_nil_both : {A : Type 0} (xs ys : List A) → xs ++ ys ≡ [] → (xs ≡ []) × (ys ≡ [])
append_nil_both [] ys h = (refl, h)
append_nil_both (x ∷ xs) ys h = cc

snoc_not_nil : {A : Type 0} (xs : List A) (y : A) → xs ++ y ∷ [] ≢ []
snoc_not_nil [] y h = cc
snoc_not_nil (x ∷ xs) y h = cc

put_absent :
    (p q : Bytes) (v : Bytes) (m : MountPaths)
    → look_up q (put p v m) ≡ none
    → (p ≢ q) × (look_up q m ≡ none)
put_absent p q v m h = elim (Bool-cases (p == q)) [
  | inl e ↦
      let at : p ≡ q = (list_eq.eq_iff p q).0 e in
      absurd (wrong (sym (look_up-put_same p v m) ∙ (ap (λ j. look_up j (put p v m)) at ∙ h)))
  | inr e ↦
      let apart : p ≢ q = λ k. true≢false (sym ((list_eq.eq_iff p q).1 k) ∙ e) in
      (apart, sym (look_up-put_other p q v m (λ k. apart (sym k))) ∙ h)
]
  where
    wrong : some v ≢ none
    wrong k = cc

-- The mount paths of one skill that was found without issues.
pub record IsClean (volumes : List SkillVolumeDeclaration) (before after : MountPaths)
    : Type 0 where
  pub valid : All (λ p. is_valid_mount_path p ≡ true) (mount_paths_of volumes)
  pub distinct : Distinct (mount_paths_of volumes)
  pub fresh : All (λ p. look_up p before ≡ none) (mount_paths_of volumes)
  pub taken :
      (q : Bytes)
      → look_up q after ≡ none
      → (look_up q before ≡ none) × All (λ p. p ≢ q) (mount_paths_of volumes)

found-nil :
    (skill_id path : Bytes) (fits : Bool) (previous : Option Bytes)
    → (if fits
        then collision skill_id path previous
        else invalid_skill_mount_path skill_id path ∷ [])
      ≡ []
    → (fits ≡ true) × (previous ≡ none)
found-nil skill_id path true none h = (refl, refl)
found-nil skill_id path true (some p) h = cc
found-nil skill_id path false previous h = cc

split_fresh :
    (p v : Bytes) (m : MountPaths) (ps : List Bytes)
    → All (λ q. look_up q (put p v m) ≡ none) ps
    → All (λ q. p ≢ q) ps × All (λ q. look_up q m ≡ none) ps
split_fresh p v m [] h = (tt, tt)
split_fresh p v m (q ∷ ps) (h, hs) =
    let (apart, absent) = put_absent p q v m h in
    let (aparts, absents) = split_fresh p v m ps hs in ((apart, aparts), (absent, absents))

pub check_volumes-IsClean :
    (skill_id : Bytes) (resource_ids : List Bytes) (volumes : List SkillVolumeDeclaration)
    (issues : List SkillContentIssue) (before : MountPaths)
    → (check_volumes skill_id resource_ids volumes issues before).0 ≡ []
    → (issues ≡ [])
      × IsClean volumes before (check_volumes skill_id resource_ids volumes issues before).1
unfolding check_volumes
check_volumes-IsClean skill_id ids [] issues before h =
    (h, record { valid = tt; distinct = tt; fresh = tt; taken = λ q k. (k, tt) })
check_volumes-IsClean skill_id ids (volume ∷ volumes) issues before h =
    let fits = is_valid_mount_path volume.mount_path in
    let duplicate : List SkillContentIssue =
      if contains ids volume.id then duplicate_volume_id skill_id volume.id ∷ [] else [] in
    let found : List SkillContentIssue =
      if fits
      then collision skill_id volume.mount_path (look_up volume.mount_path before)
      else invalid_skill_mount_path skill_id volume.mount_path ∷ [] in
    let later : MountPaths = if fits then put volume.mount_path skill_id before else before in
    let (all_nil, rest) =
      check_volumes-IsClean skill_id (volume.id ∷ ids) volumes (issues ++ (duplicate ++ found))
        later h in
    let (first, second) = append_nil_both issues (duplicate ++ found) all_nil in
    let (_, third) = append_nil_both duplicate found second in
    let (ok_path, absent) =
      found-nil skill_id volume.mount_path fits (look_up volume.mount_path before) third in
    let later_is : later ≡ put volume.mount_path skill_id before = rw ok_path refl in
    let (apart, fresh) =
      split_fresh volume.mount_path skill_id before (mount_paths_of volumes)
        (subst (λ m. All (λ q. look_up q m ≡ none) (mount_paths_of volumes)) later_is rest.fresh) in
    (
      first,
      record {
        valid = (ok_path, rest.valid);
        distinct = (apart, rest.distinct);
        fresh = (absent, fresh);
        taken = λ q k.
            let (gone, others) = rest.taken q k in
            let (n, before_absent) =
              put_absent volume.mount_path q skill_id before
                (ap (λ m. look_up q m) (sym later_is) ∙ gone) in
            (before_absent, (n, others));
      },
    )

module _ (from_str : Bytes → Result Bytes SkillMetadata) where
  abbrev pub volumes_in : Result Bytes SkillMetadata → List SkillVolumeDeclaration
  volumes_in (ok metadata) = metadata.volumes
  volumes_in (err text) = []

  abbrev pub volumes_at : Option Bytes → List SkillVolumeDeclaration
  volumes_at none = []
  volumes_at (some content) = volumes_in (from_str content)

  -- The volumes that the files of a skill declare.
  abbrev pub volumes_of : List (Bytes × Bytes) → List SkillVolumeDeclaration
  volumes_of files = volumes_at (look_up skill_metadata_file files)

  nothing-IsClean : (before : MountPaths) → IsClean [] before before
  nothing-IsClean before = record { valid = tt; distinct = tt; fresh = tt; taken = λ q k. (k, tt) }

  metadata-IsClean :
      (skill_id : Bytes) (content : Option Bytes) (issues : List SkillContentIssue)
      (before : MountPaths)
      → (check_metadata_file from_str skill_id content issues before).0 ≡ []
      → (issues ≡ [])
        × IsClean
            (volumes_at content)
            before
            (check_metadata_file from_str skill_id content issues before).1
  metadata-IsClean skill_id none issues before h = (h, nothing-IsClean before)
  metadata-IsClean skill_id (some content) issues before h = go (from_str content) h
    where
      go :
          (r : Result Bytes SkillMetadata)
          → (check_metadata from_str skill_id r issues before).0 ≡ []
          → (issues ≡ [])
            × IsClean (volumes_in r) before (check_metadata from_str skill_id r issues before).1
      go (err text) k = absurd (snoc_not_nil issues (invalid_skill_metadata skill_id text) k)
      go (ok metadata) k = elim (Bool-cases (metadata.schema_version == 1)) [
        | inl e ↦
            rw e (check_volumes-IsClean skill_id [] metadata.volumes issues before (rw e at k))
        | inr e ↦ absurd (
            snoc_not_nil issues (unsupported_schema_version skill_id metadata.schema_version)
              (rw e at k))
      ]

  all_safe :
      (skill_id : Bytes) (files : List (Bytes × Bytes))
      → check_paths skill_id files ≡ []
      → All (λ (path, _). is_safe_relative_path path ≡ true) files
  all_safe skill_id [] h = tt
  all_safe skill_id ((path, text) ∷ files) h = elim (Bool-cases (is_safe_relative_path path)) [
    | inl e ↦ (e, all_safe skill_id files (rw e at h))
    | inr e ↦ absurd (wrong (rw e at h))
  ]
    where
      wrong : invalid_skill_file_path skill_id path ∷ check_paths skill_id files ≢ []
      wrong k = cc

  -- A skill whose content has no issue has its entry document, only safe paths, and volumes whose
  -- mount paths are valid and new.
  pub validate_skill_content-IsClean :
      (skill_id : Bytes) (files : List (Bytes × Bytes)) (before : MountPaths)
      → (validate_skill_content from_str skill_id files [] before).0 ≡ []
      → (look_up skill_markdown_file files ≢ none)
        × All (λ (path, _). is_safe_relative_path path ≡ true) files
        × IsClean
            (volumes_of files)
            before
            (validate_skill_content from_str skill_id files [] before).1
  unfolding validate_skill_content
  validate_skill_content-IsClean skill_id files before h =
      let entry : List SkillContentIssue =
        if is_there from_str (look_up skill_markdown_file files)
        then []
        else missing_skill_markdown skill_id ∷ [] in
      let (none_found, clean) =
        metadata-IsClean skill_id (look_up skill_metadata_file files)
          (entry ++ check_paths skill_id files) before h in
      let (first, second) = append_nil_both entry (check_paths skill_id files) none_found in
      (there (look_up skill_markdown_file files) first, all_safe skill_id files second, clean)
    where
      there :
          (o : Option Bytes)
          → (if is_there from_str o then [] else missing_skill_markdown skill_id ∷ []) ≡ []
          → o ≢ none
      there none k e = cc
      there (some text) k e = cc
