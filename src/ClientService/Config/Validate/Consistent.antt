-- ===== src/ClientService/Config/Validate/Consistent.antt =====
-- What a document must satisfy to be accepted.
use agentspace.Common.{
  ◌≡◌, ◌⊎◌, Bool, true, false, Option, none, some, List, [], All, ◌==◌, nat_eq, list_eq, option_eq,
  contains, Result, Bytes, trim,
}
use agentspace.ClientService.Models.{validate_alpha_dash_id, validate_alphanumeric_dash_id}
use agentspace.ClientService.Config.Document.{
  EnvEntries, KernelConfig, Connection, Skill, Agent, Gateway, ConfigDocument, entry_keys,
}
use agentspace.ClientService.Config.Canonical.{secret_key, connection_key, skill_key, agent_key}
use agentspace.ClientService.Config.Keyed.{keys_of}
use agentspace.ClientService.Config.Resolver.{entries_or_nil}
use agentspace.ClientService.Config.Skills.{SkillMetadata}
use agentspace.ClientService.Config.Validate.{
  SecretReference, secret_references, validate_skills, cli_connection,
}

-- The id is one of those that are there.
abbrev pub Resolves : List Bytes → Option Bytes → Type 0
Resolves ids none = Unit
Resolves ids (some id) = contains ids id ≡ true

abbrev pub IsExclusive : Option EnvEntries → Option Bytes → Type 0
IsExclusive env env_text = (env ≡ none) ⊎ (env_text ≡ none)

pub record IsAgent (connection_ids skill_ids builtin : List Bytes) (check_skill_refs : Bool)
    (a : Agent) : Type 0 where
  pub id : validate_alpha_dash_id a.id ≡ true
  pub connection : Resolves connection_ids a.connection
  pub cli : Resolves connection_ids (cli_connection a.cli)
  pub skills :
      check_skill_refs ≡ true
      → All (λ s. (contains skill_ids s ≡ true) ⊎ (contains builtin s ≡ true)) a.skills
  pub exclusive : IsExclusive a.env a.env_text

pub record IsGateway (agent_ids : List Bytes) (g : Gateway) : Type 0 where
  pub id : validate_alpha_dash_id g.id ≡ true
  pub agent : contains agent_ids g.agent ≡ true
  pub exclusive : IsExclusive g.env g.env_text
  pub apart :
      All (λ key. contains (entry_keys g.secrets) key ≡ false) (entry_keys (entries_or_nil g.env))

pub record IsConsistent (from_str : Bytes → Result Bytes SkillMetadata) (builtin : List Bytes)
    (check_skill_refs : Bool) (d : ConfigDocument) : Type 0 where
  pub named : (trim d.metadata_name == []) ≡ false
  pub connections : All (λ (c : Connection). validate_alpha_dash_id c.id ≡ true) d.spec.connections
  pub skills : All (λ (s : Skill). validate_alphanumeric_dash_id s.id ≡ true) d.spec.skills
  pub no_collision : All (λ (s : Skill). contains builtin s.id ≡ false) d.spec.skills
  pub content : validate_skills from_str d.spec.skills [] ≡ []
  pub agents :
      All
        (IsAgent
          (keys_of connection_key d.spec.connections)
          (keys_of skill_key d.spec.skills)
          builtin
          check_skill_refs)
        d.spec.agents
  pub kernels : All (λ (k : KernelConfig). IsExclusive k.env k.env_text) d.spec.kernel_configs
  pub gateways : All (IsGateway (keys_of agent_key d.spec.agents)) d.spec.gateways
  pub secrets :
      All
        (λ (r : SecretReference). contains (keys_of secret_key d.spec.secrets) r.name.text ≡ true)
        (secret_references d)
