-- ===== src/ClientService/Config/Validate.antt =====
-- services/client_service_rs/src/config/validate.rs: the checks on a whole document. An issue is its
-- code with what it is about; the texts are made of these.
pub mod Sound
pub mod Mounts
pub mod Declared
pub mod Passes
pub mod Consistent
use agentspace.Common.{
  ℕ, zero, suc, ◌+◌, ◌/◌, Bool, true, false, not, ◌&&◌, Option, none, some, List, [], ◌∷◌, ◌++◌,
  arith, if◌then◌else◌, ◌==◌, nat_eq, list_eq, option_eq, contains, Result, ok, err, Bytes, codes,
  trim,
}
use agentspace.ClientService.Models.{
  harness_as_str, validate_alpha_dash_id, validate_alphanumeric_dash_id,
}
use agentspace.ClientService.Config.Document.{
  SecretName, ConfigValue, literal, secret, EnvEntries, KernelConfig, Connection, Skill,
  AgentCliConfig, Agent, Gateway, ConfigDocument, entry_keys,
}
use agentspace.ClientService.Config.Canonical.{secret_key, connection_key, skill_key, agent_key}
use agentspace.ClientService.Config.Keyed.{keys_of}
use agentspace.ClientService.Config.Resolver.{entries_or_nil}
use agentspace.ClientService.Config.Skills.{
  SkillContentIssue, SkillMetadata, MountPaths, validate_skill_content,
}

pub record SecretReference : Type 0 where
  pub name : SecretName
  pub field : Bytes

pub data ValidationIssue : Type 0 where
  invalid_metadata_name : ValidationIssue
  invalid_connection_id invalid_skill_id invalid_agent_id invalid_gateway_id :
      Bytes → ValidationIssue
  builtin_skill_collision : Bytes → ValidationIssue
  skill_content : Bytes → SkillContentIssue → ValidationIssue
  unresolved_connection_reference : Bytes → Bytes → ValidationIssue
  unresolved_cli_connection_reference : Bytes → Bytes → ValidationIssue
  unresolved_skill_reference : Bytes → Bytes → ValidationIssue
  unresolved_agent_reference : Bytes → Bytes → ValidationIssue
  env_conflict : Bytes → ValidationIssue
  duplicate_gateway_key : Bytes → Bytes → ValidationIssue
  unresolved_secret_reference : SecretReference → ValidationIssue

abbrev pub Issues : Type 0
Issues = List ValidationIssue

-- A loop that pushes what it finds for each item.
abbrev pub for_each {ℓ} : {A : Type ℓ} {B : Type 0} → (A → List B) → List A → List B
for_each f [] = []
for_each f (x ∷ xs) = f x ++ for_each f xs

-- `if failed { issues.push(issue) }`
abbrev pub issue_if : Bool → ValidationIssue → Issues
issue_if true issue = issue ∷ []
issue_if false issue = []

unfoldable pub collect_value : Bytes → ConfigValue → List SecretReference
collect_value field (literal value) = []
collect_value field (secret name) = record { name = name; field = field } ∷ []

abbrev collect_option : Bytes → Option ConfigValue → List SecretReference
collect_option field none = []
collect_option field (some value) = collect_value field value

-- The entries of one map; `prefix` ends in `/`.
unfoldable pub collect_env : Bytes → EnvEntries → List SecretReference
unfolding collect_value
collect_env prefix [] = []
collect_env prefix ((key, value) ∷ rest) =
    collect_value (prefix ++ key) value ++ collect_env prefix rest

abbrev pub connection_references : Connection → List SecretReference
connection_references c =
    collect_value (codes "connections/" ++ (c.id ++ codes "/url")) c.url
    ++ collect_option (codes "connections/" ++ (c.id ++ codes "/apiKey")) c.api_key

abbrev pub kernel_references : KernelConfig → List SecretReference
kernel_references k =
    collect_env (codes "kernelConfigs/" ++ (harness_as_str k.harness ++ codes "/env/"))
      (entries_or_nil k.env)

abbrev pub agent_references : Agent → List SecretReference
agent_references a =
    collect_value (codes "agents/" ++ (a.id ++ codes "/systemPrompt")) a.system_prompt
    ++ collect_env (codes "agents/" ++ (a.id ++ codes "/env/")) (entries_or_nil a.env)

abbrev pub gateway_references : Gateway → List SecretReference
gateway_references g =
    collect_env (codes "gateways/" ++ (g.id ++ codes "/env/")) (entries_or_nil g.env)
    ++ collect_env (codes "gateways/" ++ (g.id ++ codes "/secrets/")) g.secrets

unfoldable pub secret_references : ConfigDocument → List SecretReference
unfolding collect_env collect_value
secret_references d =
    for_each connection_references d.spec.connections
    ++ (for_each kernel_references d.spec.kernel_configs
        ++ (for_each agent_references d.spec.agents ++ for_each gateway_references d.spec.gateways))

unfoldable pub validate_identities : ConfigDocument → Issues
unfolding validate_alpha_dash_id validate_alphanumeric_dash_id
validate_identities d =
    for_each
      (λ (c : Connection).
        issue_if (not (validate_alpha_dash_id c.id)) (invalid_connection_id c.id))
      d.spec.connections
    ++ for_each
        (λ (s : Skill). issue_if (not (validate_alphanumeric_dash_id s.id)) (invalid_skill_id s.id))
        d.spec.skills

unfoldable pub validate_skill_builtin_collisions : ConfigDocument → List Bytes → Issues
unfolding contains
validate_skill_builtin_collisions d builtin =
    for_each (λ (s : Skill). issue_if (contains builtin s.id) (builtin_skill_collision s.id))
      d.spec.skills

abbrev pub as_issues : Bytes → List SkillContentIssue → Issues
as_issues id [] = []
as_issues id (issue ∷ issues) = skill_content id issue ∷ as_issues id issues

module _ (from_str : Bytes → Result Bytes SkillMetadata) where
  -- The loop over the skills, with the mount paths that are taken.
  unfoldable pub validate_skills : List Skill → MountPaths → Issues
  unfolding validate_skill_content
  validate_skills [] mount_paths = []
  validate_skills (s ∷ skills) mount_paths =
      let checked = validate_skill_content from_str s.id s.files [] mount_paths in
      as_issues s.id checked.0 ++ validate_skills skills checked.1

abbrev pub is_given {ℓ} : {A : Type ℓ} → Option A → Bool
is_given none = false
is_given (some _) = true

unfoldable pub validate_env_exclusive : Bytes → Option EnvEntries → Option Bytes → Issues
validate_env_exclusive resource env env_text =
    issue_if (is_given env && is_given env_text) (env_conflict resource)

abbrev pub reference_issue : List Bytes → (Bytes → ValidationIssue) → Option Bytes → Issues
reference_issue ids issue none = []
reference_issue ids issue (some id) = issue_if (not (contains ids id)) (issue id)

abbrev pub cli_connection : Option AgentCliConfig → Option Bytes
cli_connection none = none
cli_connection (some cli) = cli.connection

module _ (connection_ids skill_ids builtin : List Bytes) (check_skill_refs : Bool) where
  unfoldable pub validate_agent : Agent → Issues
  unfolding contains validate_env_exclusive validate_alpha_dash_id
  validate_agent a =
      issue_if (not (validate_alpha_dash_id a.id)) (invalid_agent_id a.id)
      ++ (reference_issue connection_ids (unresolved_connection_reference a.id) a.connection
          ++ (reference_issue connection_ids (unresolved_cli_connection_reference a.id)
                (cli_connection a.cli)
              ++ (for_each
                    (λ skill.
                      issue_if
                        (check_skill_refs
                          && not (contains skill_ids skill)
                          && not (contains builtin skill))
                        (unresolved_skill_reference a.id skill))
                    a.skills
                  ++ validate_env_exclusive (codes "agent/" ++ a.id) a.env a.env_text)))

unfoldable pub validate_kernels : ConfigDocument → Issues
unfolding validate_env_exclusive
validate_kernels d =
    for_each
      (λ (k : KernelConfig).
        validate_env_exclusive (codes "kernelConfig/" ++ harness_as_str k.harness) k.env k.env_text)
      d.spec.kernel_configs

unfoldable pub validate_gateway : List Bytes → Gateway → Issues
unfolding contains validate_env_exclusive validate_alpha_dash_id
validate_gateway agent_ids g =
    issue_if (not (validate_alpha_dash_id g.id)) (invalid_gateway_id g.id)
    ++ (issue_if (not (contains agent_ids g.agent)) (unresolved_agent_reference g.id g.agent)
        ++ (validate_env_exclusive (codes "gateway/" ++ g.id) g.env g.env_text
            ++ for_each
                (λ key.
                  issue_if (contains (entry_keys g.secrets) key) (duplicate_gateway_key g.id key))
                (entry_keys (entries_or_nil g.env))))

unfoldable pub validate_secret_refs : ConfigDocument → List Bytes → Issues
unfolding secret_references contains
validate_secret_refs d declared =
    for_each
      (λ (r : SecretReference).
        issue_if (not (contains declared r.name.text)) (unresolved_secret_reference r))
      (secret_references d)

abbrev pub if_issues : Issues → Result Issues (Unit {0})
if_issues [] = ok tt
if_issues (issue ∷ issues) = err (issue ∷ issues)

module _ (from_str : Bytes → Result Bytes SkillMetadata) where
  unfoldable pub find_issues : ConfigDocument → List Bytes → Bool → Issues
  unfolding validate_identities validate_skill_builtin_collisions validate_skills validate_agent
      validate_kernels validate_gateway validate_secret_refs trim
  find_issues d builtin check_skill_refs =
      issue_if (trim d.metadata_name == []) invalid_metadata_name
      ++ (validate_identities d
          ++ (validate_skill_builtin_collisions d builtin
              ++ (validate_skills from_str d.spec.skills []
                  ++ (for_each
                        (validate_agent (keys_of connection_key d.spec.connections)
                          (keys_of skill_key d.spec.skills) builtin check_skill_refs)
                        d.spec.agents
                      ++ (validate_kernels d
                          ++ (for_each (validate_gateway (keys_of agent_key d.spec.agents))
                                d.spec.gateways
                              ++ validate_secret_refs d (keys_of secret_key d.spec.secrets)))))))

  unfoldable pub validate_inner : ConfigDocument → List Bytes → Bool → Result Issues (Unit {0})
  unfolding find_issues
  validate_inner d builtin check_skill_refs = if_issues (find_issues d builtin check_skill_refs)

  unfoldable pub validate : ConfigDocument → List Bytes → Result Issues (Unit {0})
  unfolding validate_inner
  validate d builtin = validate_inner d builtin true

  unfoldable pub validate_mutation : ConfigDocument → Result Issues (Unit {0})
  unfolding validate_inner
  validate_mutation d = validate_inner d [] false

abbrev pub default_metadata_name : Bytes
default_metadata_name = codes "local"

unfoldable pub metadata_name_or_default : Bytes → Bytes
unfolding trim
metadata_name_or_default name = if trim name == [] then default_metadata_name else name
