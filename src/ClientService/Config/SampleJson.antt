-- ===== src/ClientService/Config/SampleJson.antt =====
-- A serializer that keeps everything, for the tests.
use agentspace.Common.{◌≡◌, refl, Option, none, some, [], PartialEq, nat_eq, list_eq, option_eq}
use agentspace.Common.{derived, pair_eq}
use agentspace.ClientService.Config.Document.{
  SecretDeclaration, KernelConfig, Connection, Skill, Agent, Gateway,
}
use agentspace.ClientService.Config.Document.Equality.{
  secret_declaration_eq, kernel_config_eq, connection_eq, skill_eq, agent_eq, gateway_config_eq,
}
use agentspace.ClientService.Config.Plan.{Serde}
use agentspace.ClientService.Config.Plan.NoOp.{SerdeLaws}

-- A serializer that keeps everything.
pub data SampleJson : Type 0 where
  secret_json : SecretDeclaration → SampleJson
  kernel_json : KernelConfig → SampleJson
  connection_json : Connection → SampleJson
  skill_json : Skill → SampleJson
  agent_json : Agent → SampleJson
  gateway_json : Gateway → SampleJson

abbrev Parts : Type 0
Parts =
    Option SecretDeclaration
    × (Option KernelConfig × (Option Connection × (Option Skill × (Option Agent × Option Gateway))))

abbrev json_parts : SampleJson → Parts
json_parts (secret_json x) = (some x, (none, (none, (none, (none, none)))))
json_parts (kernel_json x) = (none, (some x, (none, (none, (none, none)))))
json_parts (connection_json x) = (none, (none, (some x, (none, (none, none)))))
json_parts (skill_json x) = (none, (none, (none, (some x, (none, none)))))
json_parts (agent_json x) = (none, (none, (none, (none, (some x, none)))))
json_parts (gateway_json x) = (none, (none, (none, (none, (none, some x)))))

abbrev json_whole : Parts → SampleJson
json_whole (some x, _) = secret_json x
json_whole (none, (some x, _)) = kernel_json x
json_whole (none, (none, (some x, _))) = connection_json x
json_whole (none, (none, (none, (some x, _)))) = skill_json x
json_whole (none, (none, (none, (none, (some x, _))))) = agent_json x
json_whole (none, (none, (none, (none, (none, some x))))) = gateway_json x
json_whole (none, (none, (none, (none, (none, none))))) =
    skill_json (record { id = []; files = [] })

json_back : (j : SampleJson) → json_whole (json_parts j) ≡ j
json_back (secret_json x) = refl
json_back (kernel_json x) = refl
json_back (connection_json x) = refl
json_back (skill_json x) = refl
json_back (agent_json x) = refl
json_back (gateway_json x) = refl

pub json_test : PartialEq SampleJson
json_test = derived {B = Parts} json_parts json_whole json_back

abbrev pub serde : Serde
serde = record {
  Json = SampleJson;
  json_eq = json_test;
  secret_json = secret_json;
  kernel_json = kernel_json;
  connection_json = connection_json;
  skill_json = skill_json;
  agent_json = agent_json;
  gateway_json = gateway_json;
}

pub serde_laws : SerdeLaws serde
serde_laws = record {
  secrets = λ x y e. cc;
  kernels = λ x y e. cc;
  connections = λ x y e. cc;
  skills = λ x y e. cc;
  agents = λ x y e. cc;
  gateways = λ x y e. cc;
}
