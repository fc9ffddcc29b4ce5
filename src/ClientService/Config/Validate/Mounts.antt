-- ===== src/ClientService/Config/Validate/Mounts.antt =====
-- The mount paths of all skills of a document.
use agentspace.Common.{
  ◌≡◌, refl, ◌≢◌, true, none, List, [], ◌∷◌, ◌++◌, All, All-append, nat_eq, list_eq, option_eq,
  Result, look_up, Bytes,
}
use agentspace.Common.{Distinct}
use agentspace.ClientService.Config.Document.{Skill}
use agentspace.ClientService.Config.Skills.{
  SkillContentIssue, SkillVolumeDeclaration, SkillMetadata, MountPaths, is_valid_mount_path,
  validate_skill_content, is_safe_relative_path, skill_markdown_file,
}
use agentspace.ClientService.Config.Skills.Mounts.{
  mount_paths_of, IsClean, volumes_of, validate_skill_content-IsClean,
}
use agentspace.ClientService.Config.Validate.{Issues, as_issues, validate_skills}

module _ (from_str : Bytes → Result Bytes SkillMetadata) where
  -- The mount paths that the skills declare, in order.
  abbrev pub all_mount_paths : List Skill → List Bytes
  all_mount_paths [] = []
  all_mount_paths (s ∷ skills) =
      mount_paths_of (volumes_of from_str s.files) ++ all_mount_paths skills

  no_issues :
      (id : Bytes) (issues : List SkillContentIssue) (rest : Issues)
      → as_issues id issues ++ rest ≡ []
      → (issues ≡ []) × (rest ≡ [])
  no_issues id [] rest h = (refl, h)
  no_issues id (issue ∷ issues) rest h = cc

  away_from :
      (p : Bytes) (ps qs : List Bytes)
      → All (λ q. p ≢ q) ps
      → All (λ q. p ≢ q) qs
      → All (λ q. p ≢ q) (ps ++ qs)
  away_from p ps qs h k = All-append (λ q. p ≢ q) ps qs h k

  Distinct-append :
      (ps qs : List Bytes)
      → Distinct ps
      → Distinct qs
      → All (λ q. All (λ p. p ≢ q) ps) qs
      → Distinct (ps ++ qs)
  Distinct-append [] qs h k apart = k
  Distinct-append (p ∷ ps) qs (h, hs) k apart =
      let (heads, tails) = heads_and_tails qs apart in
      (away_from p ps qs h heads, Distinct-append ps qs hs k tails)
    where
      heads_and_tails :
          (rs : List Bytes)
          → All (λ q. All (λ r. r ≢ q) (p ∷ ps)) rs
          → All (λ q. p ≢ q) rs × All (λ q. All (λ r. r ≢ q) ps) rs
      heads_and_tails [] u = (tt, tt)
      heads_and_tails (r ∷ rs) ((u, us), more) =
          let (heads, tails) = heads_and_tails rs more in ((u, heads), (us, tails))

  map_taken :
      (volumes : List SkillVolumeDeclaration) (before after : MountPaths) (qs : List Bytes)
      → IsClean volumes before after
      → All (λ q. look_up q after ≡ none) qs
      → All (λ q. look_up q before ≡ none) qs
        × All (λ q. All (λ p. p ≢ q) (mount_paths_of volumes)) qs
  map_taken volumes before after [] c h = (tt, tt)
  map_taken volumes before after (q ∷ qs) c (h, hs) =
      let (absent, apart) = c.taken q h in
      let (absents, aparts) = map_taken volumes before after qs c hs in
      ((absent, absents), (apart, aparts))

  -- The skills of a document that are found without issues.
  pub record AreClean (skills : List Skill) (before : MountPaths) : Type 0 where
    pub valid : All (λ p. is_valid_mount_path p ≡ true) (all_mount_paths skills)
    pub distinct : Distinct (all_mount_paths skills)
    pub fresh : All (λ p. look_up p before ≡ none) (all_mount_paths skills)
    pub entries : All (λ (s : Skill). look_up skill_markdown_file s.files ≢ none) skills
    pub paths :
        All (λ (s : Skill). All (λ (path, _). is_safe_relative_path path ≡ true) s.files) skills

  -- If the check of the skills of a document finds no issue, every skill has its entry document and
  -- only safe relative file paths, the mount paths of all its volumes are valid and were not taken
  -- before, and no two volumes of the document, in one skill or in two, have the same.
  pub validate_skills-AreClean :
      (skills : List Skill) (before : MountPaths)
      → validate_skills from_str skills before ≡ []
      → AreClean skills before
  unfolding validate_skills
  validate_skills-AreClean [] before h = record {
    valid = tt;
    distinct = tt;
    fresh = tt;
    entries = tt;
    paths = tt;
  }
  validate_skills-AreClean (s ∷ skills) before h =
      let checked = validate_skill_content from_str s.id s.files [] before in
      let (first, others) =
        no_issues s.id checked.0 (validate_skills from_str skills checked.1) h in
      let (entry, safe, clean) =
        validate_skill_content-IsClean from_str s.id s.files before first in
      let rest = validate_skills-AreClean skills checked.1 others in
      let volumes = volumes_of from_str s.files in
      let (absent, apart) =
        map_taken volumes before checked.1 (all_mount_paths skills) clean rest.fresh in
      record {
        valid =
            All-append (λ p. is_valid_mount_path p ≡ true) (mount_paths_of volumes) _ clean.valid
              rest.valid;
        distinct =
            Distinct-append (mount_paths_of volumes) (all_mount_paths skills) clean.distinct
              rest.distinct apart;
        fresh =
            All-append (λ p. look_up p before ≡ none) (mount_paths_of volumes) _ clean.fresh absent;
        entries = (entry, rest.entries);
        paths = (safe, rest.paths);
      }
