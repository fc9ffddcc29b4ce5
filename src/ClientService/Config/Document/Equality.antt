-- ===== src/ClientService/Config/Document/Equality.antt =====
-- The equality that `#[derive(PartialEq)]` writes for the records of the document: that of the
-- fields.
use agentspace.Common.{
  ℕ, zero, suc, ◌≡◌, refl, Bool, true, false, Option, List, PartialEq, nat_eq, list_eq, option_eq,
  Bytes,
}
use agentspace.Common.{derived, pair_eq}
use agentspace.ClientService.Models.{
  HarnessName, CliHarnessName, GatewayType, ConnectionApiFlavor, harness_eq, cli_eq, gateway_eq,
  flavor_eq,
}
use agentspace.ClientService.Config.Document.{
  SecretName, ConfigValue, literal, secret, SecretDeclaration, KernelConfig, Connection, Skill,
  AgentCliConfig, Agent, Gateway, ConfigSpec, ConfigDocument, EnvEntries,
}

-- The tests that `#[derive(PartialEq)]` writes.
abbrev bool_code : Bool → ℕ
bool_code true = 1
bool_code false = 0

abbrev bool_of : ℕ → Bool
bool_of zero = false
bool_of (suc n) = true

bool_back : (b : Bool) → bool_of (bool_code b) ≡ b
bool_back true = refl
bool_back false = refl

instance pub bool_eq : PartialEq Bool
bool_eq = derived bool_code bool_of bool_back

instance pub secret_name_eq : PartialEq SecretName
secret_name_eq = derived (λ n. n.text) (λ t. record { text = t }) (λ n. refl)

abbrev value_parts : ConfigValue → ℕ × Bytes
value_parts (literal s) = (0, s)
value_parts (secret n) = (1, n.text)

abbrev value_of : ℕ × Bytes → ConfigValue
value_of (zero, s) = literal s
value_of (suc n, s) = secret (record { text = s })

value_back : (v : ConfigValue) → value_of (value_parts v) ≡ v
value_back (literal s) = refl
value_back (secret n) = refl

instance pub config_value_eq : PartialEq ConfigValue
config_value_eq = derived value_parts value_of value_back

instance pub secret_declaration_eq : PartialEq SecretDeclaration
secret_declaration_eq =
    derived {B = SecretName × Option Bytes} (λ d. (d.name, d.description))
      (λ t. record { name = t.0; description = t.1 }) (λ d. refl)

instance pub kernel_config_eq : PartialEq KernelConfig
kernel_config_eq =
    derived {B = HarnessName × (Option EnvEntries × Option Bytes)}
      (λ k. (k.harness, (k.env, k.env_text)))
      (λ t. record { harness = t.0; env = t.1.0; env_text = t.1.1 }) (λ k. refl)

instance pub connection_eq : PartialEq Connection
connection_eq =
    derived {B = Bytes × (Bytes × (ConfigValue × (ConnectionApiFlavor × Option ConfigValue)))}
      (λ c. (c.id, (c.name, (c.url, (c.api_flavor, c.api_key)))))
      (λ t. record {
        id = t.0;
        name = t.1.0;
        url = t.1.1.0;
        api_flavor = t.1.1.1.0;
        api_key = t.1.1.1.1;
      })
      (λ c. refl)

instance pub skill_eq : PartialEq Skill
skill_eq =
    derived {B = Bytes × List (Bytes × Bytes)} (λ s. (s.id, s.files))
      (λ t. record { id = t.0; files = t.1 }) (λ s. refl)

instance pub cli_config_eq : PartialEq AgentCliConfig
cli_config_eq =
    derived {B = CliHarnessName × Option Bytes} (λ c. (c.harness, c.connection))
      (λ t. record { harness = t.0; connection = t.1 }) (λ c. refl)

instance pub agent_eq : PartialEq Agent
agent_eq =
    derived
      {B = Bytes
        × (Bytes
            × (HarnessName
                × (Option Bytes
                    × (Option AgentCliConfig
                        × (ConfigValue × (List Bytes × (Option EnvEntries × Option Bytes)))))))}
      (λ a. (
        a.id,
        (
          a.name,
          (a.harness, (a.connection, (a.cli, (a.system_prompt, (a.skills, (a.env, a.env_text)))))),
        ),
      ))
      (λ t. record {
        id = t.0;
        name = t.1.0;
        harness = t.1.1.0;
        connection = t.1.1.1.0;
        cli = t.1.1.1.1.0;
        system_prompt = t.1.1.1.1.1.0;
        skills = t.1.1.1.1.1.1.0;
        env = t.1.1.1.1.1.1.1.0;
        env_text = t.1.1.1.1.1.1.1.1;
      })
      (λ a. refl)

instance pub gateway_config_eq : PartialEq Gateway
gateway_config_eq =
    derived
      {B = Bytes
        × (Bytes
            × (GatewayType × (Bytes × (Bool × (Option EnvEntries × (Option Bytes × EnvEntries))))))}
      (λ g. (
        g.id,
        (g.name, (g.gateway_type, (g.agent, (g.enabled, (g.env, (g.env_text, g.secrets)))))),
      ))
      (λ t. record {
        id = t.0;
        name = t.1.0;
        gateway_type = t.1.1.0;
        agent = t.1.1.1.0;
        enabled = t.1.1.1.1.0;
        env = t.1.1.1.1.1.0;
        env_text = t.1.1.1.1.1.1.0;
        secrets = t.1.1.1.1.1.1.1;
      })
      (λ g. refl)

instance pub spec_eq : PartialEq ConfigSpec
spec_eq =
    derived
      {B = List SecretDeclaration
        × (List KernelConfig × (List Connection × (List Skill × (List Agent × List Gateway))))}
      (λ s. (s.secrets, (s.kernel_configs, (s.connections, (s.skills, (s.agents, s.gateways))))))
      (λ t. record {
        secrets = t.0;
        kernel_configs = t.1.0;
        connections = t.1.1.0;
        skills = t.1.1.1.0;
        agents = t.1.1.1.1.0;
        gateways = t.1.1.1.1.1;
      })
      (λ s. refl)

instance pub document_eq : PartialEq ConfigDocument
document_eq =
    derived {B = Bytes × ConfigSpec} (λ d. (d.metadata_name, d.spec))
      (λ t. record { metadata_name = t.0; spec = t.1 }) (λ d. refl)
