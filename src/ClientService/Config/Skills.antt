-- ===== src/ClientService/Config/Skills.antt =====
-- services/client_service_rs/src/config/skill_validation.rs: the content of a skill. The reader of
-- agentspace.json (serde_json) is an argument. An issue is its code with what it is about.
pub mod Mounts
use agentspace.Common.{
  ℕ, zero, suc, ◌+◌, ◌-◌, ◌/◌, Bool, true, false, not, ◌&&◌, ◌||◌, Option, none, some, List, [],
  ◌∷◌, ◌++◌, arith, if◌then◌else◌, drop, ◌==◌, nat_eq, list_eq, option_eq, contains, Result, ok,
  err, look_up, put, Bytes, codes, starts_with, contains_byte, split,
}
use agentspace.ClientService.Models.{split_once, is_ascii_lowercase, is_ascii_uppercase}

abbrev pub skill_markdown_file : Bytes
skill_markdown_file = codes "SKILL.md"

abbrev pub skill_metadata_file : Bytes
skill_metadata_file = codes "agentspace.json"

abbrev pub reserved_mount_paths : List Bytes
reserved_mount_paths =
    codes "/workspace"
    ∷ codes "/root/.copilot"
    ∷ codes "/mnt/all-skills"
    ∷ codes "/skills"
    ∷ codes "/root/.config/opencode/skills"
    ∷ []

pub data SkillContentIssue : Type 0 where
  missing_skill_markdown : Bytes → SkillContentIssue
  invalid_skill_file_path : Bytes → Bytes → SkillContentIssue
  invalid_skill_metadata : Bytes → Bytes → SkillContentIssue
  unsupported_schema_version : Bytes → ℕ → SkillContentIssue
  duplicate_volume_id : Bytes → Bytes → SkillContentIssue
  invalid_skill_mount_path : Bytes → Bytes → SkillContentIssue
  skill_mount_path_collision : Bytes → Bytes → Bytes → SkillContentIssue

pub data SkillVolumeMode : Type 0 where
  ro rw : SkillVolumeMode

pub record SkillVolumeDeclaration : Type 0 where
  pub id : Bytes
  pub mount_path : Bytes
  pub advertise : Bool
  pub mode : SkillVolumeMode

pub record SkillMetadata : Type 0 where
  pub schema_version : ℕ
  pub volumes : List SkillVolumeDeclaration

abbrev is_ascii_alphabetic : ℕ → Bool
is_ascii_alphabetic b = is_ascii_lowercase b || is_ascii_uppercase b

-- A drive such as `C:` in front.
abbrev is_drive : Option (Bytes × Bytes) → Bool
is_drive (some (b ∷ [], _)) = is_ascii_alphabetic b
is_drive (some ([], _)) = false
is_drive (some (b ∷ c ∷ s, _)) = false
is_drive none = false

-- The loop over the components, with whether a file component has been seen.
unfoldable pub check_components : Bool → List Bytes → Bool
check_components has_file_component [] = has_file_component
check_components has_file_component (component ∷ rest) =
    if component == codes ".."
    then false
    else check_components (has_file_component || not (component == [] || component == codes "."))
        rest

-- `is_absolute` of a path is that it starts with `/`, which the first test has excluded.
unfoldable pub is_safe_relative_path : Bytes → Bool
unfolding check_components split_once
is_safe_relative_path path =
    not (path == [] || starts_with (codes "/") path || contains_byte b'\\' path)
    && not (is_drive (split_once b':' path))
    && check_components false (split b'/' path)

abbrev all_normal : List Bytes → Bool
all_normal [] = true
all_normal (component ∷ rest) =
    not (component == [])
    && not (component == codes ".")
    && not (component == codes "..")
    && all_normal rest

abbrev ends_with_slash : Bytes → Bool
ends_with_slash [] = false
ends_with_slash (c ∷ []) = c == b'/'
ends_with_slash (c ∷ d ∷ s) = ends_with_slash (d ∷ s)

unfoldable pub is_normalized : Bytes → Bool
is_normalized mount_path =
    starts_with (codes "/") mount_path
    && not (mount_path == codes "/")
    && not (ends_with_slash mount_path)
    && all_normal (drop 1 (split b'/' mount_path))

abbrev pub overlaps_any : Bytes → List Bytes → Bool
overlaps_any mount_path [] = false
overlaps_any mount_path (reserved ∷ rest) =
    mount_path == reserved
    || starts_with (reserved ++ codes "/") mount_path
    || overlaps_any mount_path rest

unfoldable pub is_valid_mount_path : Bytes → Bool
unfolding is_normalized
is_valid_mount_path mount_path =
    is_normalized mount_path && not (overlaps_any mount_path reserved_mount_paths)

-- The mount paths that are taken, each with the skill that declared it.
abbrev pub MountPaths : Type 0
MountPaths = List (Bytes × Bytes)

abbrev pub Checked : Type 0
Checked = List SkillContentIssue × MountPaths

abbrev collision : Bytes → Bytes → Option Bytes → List SkillContentIssue
collision skill_id mount_path none = []
collision skill_id mount_path (some previous) =
    skill_mount_path_collision skill_id mount_path previous ∷ []

-- The loop over the volumes of one skill.
unfoldable pub check_volumes :
    Bytes → List Bytes → List SkillVolumeDeclaration → List SkillContentIssue → MountPaths → Checked
unfolding is_valid_mount_path
check_volumes skill_id resource_ids [] issues mount_paths = (issues, mount_paths)
check_volumes skill_id resource_ids (volume ∷ volumes) issues mount_paths =
    let seen = contains resource_ids volume.id in
    let duplicate = if seen then duplicate_volume_id skill_id volume.id ∷ [] else [] in
    let fits = is_valid_mount_path volume.mount_path in
    let found =
      if fits
      then collision skill_id volume.mount_path (look_up volume.mount_path mount_paths)
      else invalid_skill_mount_path skill_id volume.mount_path ∷ [] in
    check_volumes skill_id (volume.id ∷ resource_ids) volumes (issues ++ (duplicate ++ found))
      (if fits then put volume.mount_path skill_id mount_paths else mount_paths)

abbrev pub check_paths : Bytes → List (Bytes × Bytes) → List SkillContentIssue
check_paths skill_id [] = []
check_paths skill_id ((path, _) ∷ files) =
    let rest = check_paths skill_id files in
    if is_safe_relative_path path then rest else invalid_skill_file_path skill_id path ∷ rest

module _ (from_str : Bytes → Result Bytes SkillMetadata) where
  abbrev pub check_metadata :
      Bytes → Result Bytes SkillMetadata → List SkillContentIssue → MountPaths → Checked
  check_metadata skill_id (err text) issues mount_paths =
      (issues ++ invalid_skill_metadata skill_id text ∷ [], mount_paths)
  check_metadata skill_id (ok metadata) issues mount_paths =
      if metadata.schema_version == 1
      then check_volumes skill_id [] metadata.volumes issues mount_paths
      else (issues ++ unsupported_schema_version skill_id metadata.schema_version ∷ [], mount_paths)

  abbrev pub check_metadata_file :
      Bytes → Option Bytes → List SkillContentIssue → MountPaths → Checked
  check_metadata_file skill_id none issues mount_paths = (issues, mount_paths)
  check_metadata_file skill_id (some content) issues mount_paths =
      check_metadata skill_id (from_str content) issues mount_paths

  abbrev pub is_there : Option Bytes → Bool
  is_there none = false
  is_there (some _) = true

  unfoldable pub validate_skill_content :
      Bytes → List (Bytes × Bytes) → List SkillContentIssue → MountPaths → Checked
  unfolding check_volumes is_safe_relative_path
  validate_skill_content skill_id files issues mount_paths =
      check_metadata_file skill_id (look_up skill_metadata_file files)
        (issues
          ++ ((if is_there (look_up skill_markdown_file files)
                then []
                else missing_skill_markdown skill_id ∷ [])
              ++ check_paths skill_id files))
        mount_paths
