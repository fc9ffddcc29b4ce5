-- ===== src/ClientService/Config/Validate/Sound.antt =====
-- What a document without issues is: every reference in it leads somewhere.
use agentspace.Common.{
  ◌≡◌, refl, ◌↔◌, ◌⊎◌, Bool, true, false, not, ◌&&◌, List, [], ◌∷◌, ◌++◌, ◌==◌, nat_eq, list_eq,
  option_eq, contains, Result, ok, Bytes, codes, trim,
}
use agentspace.ClientService.Models.{
  harness_as_str, validate_alpha_dash_id, validate_alphanumeric_dash_id,
}
use agentspace.ClientService.Config.Document.{
  KernelConfig, Connection, Skill, Agent, Gateway, ConfigDocument, entry_keys,
}
use agentspace.ClientService.Config.Canonical.{secret_key, connection_key, skill_key, agent_key}
use agentspace.ClientService.Config.Keyed.{keys_of}
use agentspace.ClientService.Config.Resolver.{entries_or_nil}
use agentspace.ClientService.Config.Skills.{SkillMetadata}
use agentspace.ClientService.Config.Validate.{
  SecretReference, Issues, issue_if, secret_references, validate_identities,
  validate_skill_builtin_collisions, validate_skills, validate_env_exclusive, cli_connection,
  validate_agent, validate_kernels, validate_gateway, validate_secret_refs, if_issues, find_issues,
  validate_inner, invalid_metadata_name, invalid_connection_id, invalid_skill_id, invalid_agent_id,
  invalid_gateway_id, builtin_skill_collision, unresolved_connection_reference,
  unresolved_cli_connection_reference, unresolved_skill_reference, unresolved_agent_reference,
  duplicate_gateway_key, unresolved_secret_reference,
}
use agentspace.ClientService.Config.Validate.Passes.{
  and_iff, for_each_iff, issue_if_iff, issue_unless_iff, reference_iff, IsExclusive-iff, skill_iff,
  All_under,
}
use agentspace.ClientService.Config.Validate.Consistent.{
  IsExclusive, IsAgent, IsGateway, IsConsistent,
}

validate_agent_iff :
    (connection_ids skill_ids builtin : List Bytes) (check : Bool) (a : Agent)
    → (validate_agent connection_ids skill_ids builtin check a ≡ [])
      ↔ IsAgent connection_ids skill_ids builtin check a
unfolding validate_agent
validate_agent_iff cs ss builtin check a =
    let skill_ok = λ (s : Bytes). (contains ss s ≡ true) ⊎ (contains builtin s ≡ true) in
    let under = All_under skill_ok check a.skills in
    let all = and_iff _ _ (issue_unless_iff (validate_alpha_dash_id a.id) (invalid_agent_id a.id)) (
      and_iff _ _ (reference_iff cs (unresolved_connection_reference a.id) a.connection) (
        and_iff _ _
          (reference_iff cs (unresolved_cli_connection_reference a.id) (cli_connection a.cli))
          (and_iff _ _
            (for_each_iff (λ s. check ≡ true → skill_ok s)
              (λ skill.
                issue_if (check && not (contains ss skill) && not (contains builtin skill))
                  (unresolved_skill_reference a.id skill))
              a.skills
              (λ s.
                skill_iff check (contains ss s) (contains builtin s)
                  (unresolved_skill_reference a.id s)))
            (IsExclusive-iff (codes "agent/" ++ a.id) a.env a.env_text)))) in
    (
      (λ h.
          let (h1, (h2, (h3, (h4, h5)))) = all.0 h in
          record { id = h1; connection = h2; cli = h3; skills = under.0 h4; exclusive = h5 }),
      (λ k. all.1 (k.id, (k.connection, (k.cli, (under.1 k.skills, k.exclusive))))),
    )

validate_gateway_iff :
    (agent_ids : List Bytes) (g : Gateway)
    → (validate_gateway agent_ids g ≡ []) ↔ IsGateway agent_ids g
unfolding validate_gateway
validate_gateway_iff ids g =
    let all =
      and_iff _ _ (issue_unless_iff (validate_alpha_dash_id g.id) (invalid_gateway_id g.id)) (
        and_iff _ _
          (issue_unless_iff (contains ids g.agent) (unresolved_agent_reference g.id g.agent))
          (and_iff _ _ (IsExclusive-iff (codes "gateway/" ++ g.id) g.env g.env_text) (
            for_each_iff (λ key. contains (entry_keys g.secrets) key ≡ false)
              (λ key.
                issue_if (contains (entry_keys g.secrets) key) (duplicate_gateway_key g.id key))
              (entry_keys (entries_or_nil g.env))
              (λ key.
                issue_if_iff (contains (entry_keys g.secrets) key)
                  (duplicate_gateway_key g.id key))))) in
    (
      (λ h.
          let (h1, (h2, (h3, h4))) = all.0 h in
          record { id = h1; agent = h2; exclusive = h3; apart = h4 }),
      (λ k. all.1 (k.id, (k.agent, (k.exclusive, k.apart)))),
    )

if_issues_iff : (issues : Issues) → (if_issues issues ≡ ok tt) ↔ (issues ≡ [])
if_issues_iff [] = ((λ _. refl), (λ _. refl))
if_issues_iff (issue ∷ issues) = ((λ h. cc), (λ h. cc))

-- The checks on a document pass exactly when its identities are well-formed, its skills are in
-- order, and all its references to connections, agents and secrets (and, where they are checked, to
-- skills) lead to something that is declared.
pub validate_inner_iff :
    (from_str : Bytes → Result Bytes SkillMetadata) (builtin : List Bytes) (check_skill_refs : Bool)
    (d : ConfigDocument)
    → (validate_inner from_str d builtin check_skill_refs ≡ ok tt)
      ↔ IsConsistent from_str builtin check_skill_refs d
unfolding validate_inner find_issues validate_identities validate_skill_builtin_collisions
    validate_kernels validate_secret_refs
validate_inner_iff from_str builtin check d =
    let passed = if_issues_iff (find_issues from_str d builtin check) in
    let declared = keys_of secret_key d.spec.secrets in
    let all = and_iff _ _ (issue_if_iff (trim d.metadata_name == []) invalid_metadata_name) (
      and_iff _ _
        (and_iff _ _
          (for_each_iff (λ (c : Connection). validate_alpha_dash_id c.id ≡ true)
            (λ (c : Connection).
              issue_if (not (validate_alpha_dash_id c.id)) (invalid_connection_id c.id))
            d.spec.connections
            (λ c. issue_unless_iff (validate_alpha_dash_id c.id) (invalid_connection_id c.id)))
          (for_each_iff (λ (s : Skill). validate_alphanumeric_dash_id s.id ≡ true)
            (λ (s : Skill).
              issue_if (not (validate_alphanumeric_dash_id s.id)) (invalid_skill_id s.id))
            d.spec.skills
            (λ s. issue_unless_iff (validate_alphanumeric_dash_id s.id) (invalid_skill_id s.id))))
        (and_iff _ _
          (for_each_iff (λ (s : Skill). contains builtin s.id ≡ false)
            (λ (s : Skill). issue_if (contains builtin s.id) (builtin_skill_collision s.id))
            d.spec.skills
            (λ s. issue_if_iff (contains builtin s.id) (builtin_skill_collision s.id)))
          (and_iff {P = validate_skills from_str d.spec.skills [] ≡ []}
            (validate_skills from_str d.spec.skills []) _ ((λ h. h), (λ h. h))
            (and_iff _ _
              (for_each_iff _ _ d.spec.agents (
                validate_agent_iff (keys_of connection_key d.spec.connections)
                  (keys_of skill_key d.spec.skills) builtin check))
              (and_iff _ _
                (for_each_iff (λ (k : KernelConfig). IsExclusive k.env k.env_text)
                  (λ (k : KernelConfig).
                    validate_env_exclusive (codes "kernelConfig/" ++ harness_as_str k.harness) k.env
                      k.env_text)
                  d.spec.kernel_configs
                  (λ k.
                    IsExclusive-iff (codes "kernelConfig/" ++ harness_as_str k.harness) k.env
                      k.env_text))
                (and_iff _ _
                  (for_each_iff _ _ d.spec.gateways
                    (validate_gateway_iff (keys_of agent_key d.spec.agents)))
                  (for_each_iff (λ (r : SecretReference). contains declared r.name.text ≡ true)
                    (λ (r : SecretReference).
                      issue_if (not (contains declared r.name.text))
                        (unresolved_secret_reference r))
                    (secret_references d)
                    (λ r.
                      issue_unless_iff (contains declared r.name.text)
                        (unresolved_secret_reference r))))))))) in
    (
      (λ h.
          let (h1, ((h2, h3), (h4, (h5, (h6, (h7, (h8, h9))))))) = all.0 (passed.0 h) in
          record {
            named = h1;
            connections = h2;
            skills = h3;
            no_collision = h4;
            content = h5;
            agents = h6;
            kernels = h7;
            gateways = h8;
            secrets = h9;
          }),
      (λ k. passed.1 (
          all.1 (
            k.named,
            (
              (k.connections, k.skills),
              (k.no_collision, (k.content, (k.agents, (k.kernels, (k.gateways, k.secrets))))),
            ),
          ))),
    )
