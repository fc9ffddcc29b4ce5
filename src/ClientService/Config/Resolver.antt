-- ===== src/ClientService/Config/Resolver.antt =====
-- services/client_service_rs/src/config/resolver.rs: values that refer to secrets, resolved when
-- they are needed. The vector `missing` is threaded. The secret store is its `resolve`, an
-- argument; an error of it is kept as a text.
pub mod GatewayEnv
pub mod Injection
use agentspace.Common.{
  ℕ, zero, suc, ◌+◌, ◌/◌, Option, none, some, List, [], ◌∷◌, ◌++◌, arith, ◌==◌, nat_eq, list_eq,
  option_eq, Result, ok, err, put, Bytes, codes,
}
use agentspace.Common.{◌▸◌}
use agentspace.ClientService.Models.{HarnessName, harness_as_str, harness_eq, Env, parse_env_vars}
use agentspace.ClientService.Config.Document.{
  ConfigValue, literal, secret, EnvEntries, Connection, Agent, KernelConfig, Gateway,
  ConfigDocument, connection, gateway, find, env_to_text,
}

pub record MissingSecret : Type 0 where
  pub name : Bytes
  pub field : Bytes

pub data ResolveError : Type 0 where
  missing_secrets : List MissingSecret → ResolveError
  store_error : Bytes → ResolveError

-- `SecretStore::resolve`
abbrev pub SecretStore : Type 0
SecretStore = Bytes → Result Bytes (Option Bytes)

abbrev pub Missing : Type 0
Missing = List MissingSecret

pub record ResolvedConnection : Type 0 where
  pub url : Option Bytes
  pub api_key : Option Bytes

abbrev pub or_missing :
    Bytes
    → Bytes
    → Result Bytes (Option Bytes)
    → Missing
    → Result ResolveError (Option Bytes) × Missing
or_missing name field (err text) missing = (err (store_error text), missing)
or_missing name field (ok none) missing =
    (ok none, missing ++ record { name = name; field = field } ∷ [])
or_missing name field (ok (some resolved)) missing = (ok (some resolved), missing)

abbrev pub insert_resolved : Bytes → Option Bytes → Env → Env
insert_resolved key none env = env
insert_resolved key (some resolved) env = put key resolved env

abbrev pub entries_or_nil : Option EnvEntries → EnvEntries
entries_or_nil none = []
entries_or_nil (some entries) = entries

-- `if missing.is_empty() { Ok(env) } else { Err(Missing(missing)) }`
abbrev pub unless_missing : Result ResolveError Env × Missing → Result ResolveError Env
unless_missing (err e, missing) = err e
unless_missing (ok env, []) = ok env
unless_missing (ok env, m ∷ missing) = err (missing_secrets (m ∷ missing))

module _ (store : SecretStore) where
  unfoldable pub resolve_one :
      ConfigValue → Bytes → Missing → Result ResolveError (Option Bytes) × Missing
  resolve_one (literal value) field missing = (ok (some value), missing)
  resolve_one (secret name) field missing = or_missing name.text field (store name.text) missing

  -- The loop over structured entries; `prefix` is the field's text up to the key.
  unfoldable pub resolve_entries :
      Bytes → EnvEntries → Env → Missing → Result ResolveError Env × Missing
  unfolding resolve_one
  resolve_entries prefix [] env missing = (ok env, missing)
  resolve_entries prefix ((key, value) ∷ rest) env missing =
      resolve_one value (prefix ++ key) missing ▸ λ resolved m.
      resolve_entries prefix rest (insert_resolved key resolved env) m

  abbrev resolve_key :
      Bytes → Option ConfigValue → Missing → Result ResolveError (Option Bytes) × Missing
  resolve_key field none missing = (ok none, missing)
  resolve_key field (some value) missing = resolve_one value field missing

  abbrev connection_fields :
      Bytes → Option Connection → Missing → Result ResolveError ResolvedConnection × Missing
  connection_fields id none missing = (ok (record { url = none; api_key = none }), missing)
  connection_fields id (some c) missing =
      resolve_one c.url (codes "connections/" ++ (id ++ codes "/url")) missing ▸ λ url m.
      resolve_key (codes "connections/" ++ (id ++ codes "/apiKey")) c.api_key m ▸ λ api_key m2.
      (ok (record { url = url; api_key = api_key }), m2)

  unfoldable pub resolve_connection :
      ConfigDocument → Bytes → Missing → Result ResolveError ResolvedConnection × Missing
  unfolding resolve_one connection
  resolve_connection document id missing = connection_fields id (connection document id) missing

  abbrev pub agent_env : Bytes → Option Agent → Missing → Result ResolveError Env × Missing
  agent_env id none missing = (ok [], missing)
  agent_env id (some agent) missing =
      resolve_entries (codes "agents/" ++ (id ++ codes "/env/")) (entries_or_nil agent.env)
        (parse_env_vars (env_to_text agent.env agent.env_text)) missing

  unfoldable pub resolve_agent_env :
      ConfigDocument → Bytes → Missing → Result ResolveError Env × Missing
  unfolding resolve_entries find env_to_text parse_env_vars
  resolve_agent_env document id missing =
      agent_env id (find (λ (item : Agent). item.id == id) document.spec.agents) missing

  abbrev kernel_env :
      HarnessName → Option KernelConfig → Missing → Result ResolveError Env × Missing
  kernel_env harness none missing = (ok [], missing)
  kernel_env harness (some kernel) missing =
      resolve_entries (codes "kernelConfigs/" ++ (harness_as_str harness ++ codes "/env/"))
        (entries_or_nil kernel.env) (parse_env_vars (env_to_text kernel.env kernel.env_text))
        missing

  unfoldable pub resolve_kernel_env :
      ConfigDocument → HarnessName → Missing → Result ResolveError Env × Missing
  unfolding resolve_entries find env_to_text parse_env_vars
  resolve_kernel_env document harness missing =
      kernel_env harness
        (find (λ (item : KernelConfig). item.harness == harness) document.spec.kernel_configs)
        missing

  abbrev prompt_of : Bytes → Option Agent → Missing → Result ResolveError (Option Bytes) × Missing
  prompt_of id none missing = (ok none, missing)
  prompt_of id (some agent) missing =
      resolve_one agent.system_prompt (codes "agents/" ++ (id ++ codes "/systemPrompt")) missing

  unfoldable pub resolve_agent_system_prompt :
      ConfigDocument → Bytes → Missing → Result ResolveError (Option Bytes) × Missing
  unfolding resolve_one find
  resolve_agent_system_prompt document id missing =
      prompt_of id (find (λ (item : Agent). item.id == id) document.spec.agents) missing

  abbrev pub gateway_env : Bytes → Option Gateway → Result ResolveError Env
  gateway_env id none = ok []
  gateway_env id (some g) = unless_missing (
      resolve_entries (codes "gateways/" ++ (id ++ codes "/env/")) (entries_or_nil g.env)
        (parse_env_vars (env_to_text g.env g.env_text)) []
      ▸ λ env m. resolve_entries (codes "gateways/" ++ (id ++ codes "/secrets/")) g.secrets env m)

  unfoldable pub resolve_gateway_env : ConfigDocument → Bytes → Result ResolveError Env
  unfolding resolve_entries gateway env_to_text parse_env_vars
  resolve_gateway_env document id = gateway_env id (gateway document id)
