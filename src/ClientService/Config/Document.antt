-- ===== src/ClientService/Config/Document.antt =====
-- services/client_service_rs/src/config/value.rs and document.rs: names of secrets, values that may
-- refer to one, and the configuration document. A map of the source is the list of its entries in
-- the order of their keys.
pub mod Equality
use agentspace.Common.{
  ℕ, zero, suc, Bool, false, ◌&&◌, ◌||◌, Option, none, some, List, [], ◌∷◌, ◌++◌, if◌then◌else◌,
  ◌==◌, nat_eq, list_eq, option_eq, Bytes, join,
}
use agentspace.Common.{pair_eq}
use agentspace.ClientService.Models.{
  HarnessName, CliHarnessName, GatewayType, ConnectionApiFlavor, all_bytes, is_ascii_uppercase,
  is_ascii_digit, harness_eq, cli_eq, gateway_eq, flavor_eq,
}

pub record SecretName : Type 0 where
  pub text : Bytes

unfoldable pub is_valid : Bytes → Bool
is_valid [] = false
is_valid (first ∷ rest) =
    is_ascii_uppercase first
    && all_bytes (λ b. is_ascii_uppercase b || is_ascii_digit b || b == b'_') rest

-- `SecretName::new`
unfoldable pub new_secret_name : Bytes → Option SecretName
unfolding is_valid
new_secret_name value = if is_valid value then some (record { text = value }) else none

pub data ConfigValue : Type 0 where
  literal : Bytes → ConfigValue
  secret : SecretName → ConfigValue

abbrev pub EnvEntries : Type 0
EnvEntries = List (Bytes × ConfigValue)

pub record SecretDeclaration : Type 0 where
  pub name : SecretName
  pub description : Option Bytes

pub record KernelConfig : Type 0 where
  pub harness : HarnessName
  pub env : Option EnvEntries
  pub env_text : Option Bytes

pub record Connection : Type 0 where
  pub id : Bytes
  pub name : Bytes
  pub url : ConfigValue
  pub api_flavor : ConnectionApiFlavor
  pub api_key : Option ConfigValue

pub record Skill : Type 0 where
  pub id : Bytes
  pub files : List (Bytes × Bytes)

pub record AgentCliConfig : Type 0 where
  pub harness : CliHarnessName
  pub connection : Option Bytes

pub record Agent : Type 0 where
  pub id : Bytes
  pub name : Bytes
  pub harness : HarnessName
  pub connection : Option Bytes
  pub cli : Option AgentCliConfig
  pub system_prompt : ConfigValue
  pub skills : List Bytes
  pub env : Option EnvEntries
  pub env_text : Option Bytes

pub record Gateway : Type 0 where
  pub id : Bytes
  pub name : Bytes
  pub gateway_type : GatewayType
  pub agent : Bytes
  pub enabled : Bool
  pub env : Option EnvEntries
  pub env_text : Option Bytes
  pub secrets : EnvEntries

pub record ConfigSpec : Type 0 where
  pub secrets : List SecretDeclaration
  pub kernel_configs : List KernelConfig
  pub connections : List Connection
  pub skills : List Skill
  pub agents : List Agent
  pub gateways : List Gateway

pub record ConfigDocument : Type 0 where
  pub metadata_name : Bytes
  pub spec : ConfigSpec

-- The first item that a test holds of.
unfoldable pub find {ℓ} : {A : Type ℓ} → (A → Bool) → List A → Option A
find test [] = none
find test (x ∷ xs) = let rest = find test xs in if test x then some x else rest

unfoldable pub connection : ConfigDocument → Bytes → Option Connection
unfolding find
connection document id = find (λ item. item.id == id) document.spec.connections

unfoldable pub gateway : ConfigDocument → Bytes → Option Gateway
unfolding find
gateway document id = find (λ item. item.id == id) document.spec.gateways

abbrev pub any_declared : Bytes → List SecretDeclaration → Bool
any_declared name [] = false
any_declared name (item ∷ items) = item.name.text == name || any_declared name items

unfoldable pub secret_declared : ConfigDocument → Bytes → Bool
secret_declared document name = any_declared name document.spec.secrets

-- `env.keys()`
abbrev pub entry_keys : EnvEntries → List Bytes
entry_keys [] = []
entry_keys ((key, _) ∷ rest) = key ∷ entry_keys rest

-- Literal entries as lines, the others left out.
abbrev literal_lines : EnvEntries → List Bytes
literal_lines [] = []
literal_lines ((key, literal value) ∷ rest) = (key ++ b'=' ∷ value) ∷ literal_lines rest
literal_lines ((key, secret name) ∷ rest) = literal_lines rest

unfoldable pub env_to_text : Option EnvEntries → Option Bytes → Bytes
env_to_text env (some text) = text
env_to_text none none = []
env_to_text (some env) none = join 10 (literal_lines env)
