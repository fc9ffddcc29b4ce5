-- ===== src/ClientService/Config/Tests.antt =====
-- The configuration at a small document.
use agentspace.Common.{
  ◌≤◌, ◌≡◌, refl, ◌↔◌, true, false, Option, none, some, List, [], ◌∷◌, ◌++◌, arith, All, ◌==◌,
  nat_eq, list_beq, list_eq, option_eq, contains, Result, ok, err, look_up, Bytes, codes,
  starts_with, contains_byte, split, trim,
}
use agentspace.Common.{pair_eq}
use agentspace.ClientService.Models.{codex, responses, discord_gateway, Env, parse_env_line}
use agentspace.ClientService.Config.Document.{
  SecretName, literal, secret, EnvEntries, Connection, Skill, Agent, Gateway, ConfigDocument, find,
  gateway, secret_declared,
}
use agentspace.ClientService.Config.Document.Equality.{
  secret_declaration_eq, kernel_config_eq, connection_eq, skill_eq, agent_eq, gateway_config_eq,
}
use agentspace.ClientService.Config.Canonical.{typed_equal, IsUnique, SameContents, typed_equal_iff}
use agentspace.ClientService.Config.Plan.{plan, diff_collection, action_of}
use agentspace.ClientService.Config.Plan.Diff.{entry_of, entry_for, diff_collection_lem}
use agentspace.ClientService.Config.Plan.NoOp.{plan_no_op_iff}
use agentspace.ClientService.Config.Plan.Collection.{NoOps}
use agentspace.ClientService.Config.Snapshot.{
  yaml, InMemoryState, empty_state, Snapshot, insert_and_activate,
}
use agentspace.ClientService.Config.Snapshot.Reachable.{
  IsWellFormed, IsInserted, Reachable, started, inserted, Reachable-IsWellFormed,
  insert_and_activate-IsInserted, generations_bounded, insertions,
}
use agentspace.ClientService.Config.Resolver.{
  MissingSecret, missing_secrets, resolve_gateway_env, resolve_agent_env,
}
use agentspace.ClientService.Config.Resolver.GatewayEnv.{
  readable, IsResolved, gateway_unset, resolve_gateway_env-IsResolved,
}
use agentspace.ClientService.Config.Resolver.Injection.{resolve_agent_env_injects}
use agentspace.ClientService.Config.Skills.{SkillMetadata, SkillVolumeDeclaration, rw}
use agentspace.ClientService.Config.Validate.{validate_inner, validate_skills}
use agentspace.ClientService.Config.Validate.Consistent.{IsConsistent}
use agentspace.ClientService.Config.Validate.Sound.{validate_inner_iff}
use agentspace.ClientService.Config.Validate.Mounts.{AreClean, validate_skills-AreClean}
use agentspace.ClientService.Config.Validate.Declared.{missing-secret_declared}
use agentspace.ClientService.Config.SampleJson.{json_test, serde, serde_laws}

abbrev token : SecretName
token = record { text = codes "TOKEN" }

abbrev main_connection : Connection
main_connection = record {
  id = codes "main";
  name = codes "Main";
  url = literal (codes "http");
  api_flavor = responses;
  api_key = some (secret token);
}

abbrev agent_named : Bytes → Option EnvEntries → Agent
agent_named id env = record {
  id = id;
  name = codes "Agent";
  harness = codex;
  connection = some (codes "main");
  cli = none;
  system_prompt = literal (codes "Hi");
  skills = codes "notes" ∷ [];
  env = env;
  env_text = none;
}

abbrev coder : Agent
coder = agent_named (codes "coder") none

abbrev writer : Agent
writer = agent_named (codes "writer") (some ((codes "A", literal (codes "1")) ∷ []))

abbrev bot : Gateway
bot = record {
  id = codes "bot";
  name = codes "Bot";
  gateway_type = discord_gateway;
  agent = codes "coder";
  enabled = true;
  env = none;
  env_text = some (codes "MODE=x");
  secrets = (codes "KEY", secret token) ∷ [];
}

abbrev notes_files : List (Bytes × Bytes)
notes_files = (codes "SKILL.md", codes "# Notes") ∷ (codes "agentspace.json", codes "{}") ∷ []

abbrev notes : Skill
notes = record { id = codes "notes"; files = notes_files }

abbrev document_of : List Agent → ConfigDocument
document_of agents = record {
  metadata_name = codes "local";
  spec = record {
    secrets = record { name = token; description = none } ∷ [];
    kernel_configs = [];
    connections = main_connection ∷ [];
    skills = notes ∷ [];
    agents = agents;
    gateways = bot ∷ [];
  };
}

abbrev left : ConfigDocument
left = document_of (coder ∷ writer ∷ [])

abbrev right : ConfigDocument
right = document_of (writer ∷ coder ∷ [])

left-IsUnique : IsUnique left
left-IsUnique = record {
  secrets = (tt, tt);
  kernel_configs = tt;
  connections = (tt, tt);
  skills = (tt, tt);
  agents = (((λ e. cc), tt), (tt, tt));
  gateways = (tt, tt);
}

right-IsUnique : IsUnique right
right-IsUnique = record {
  secrets = (tt, tt);
  kernel_configs = tt;
  connections = (tt, tt);
  skills = (tt, tt);
  agents = (((λ e. cc), tt), (tt, tt));
  gateways = (tt, tt);
}

typed_equal_iff_example : (typed_equal left right ≡ true) ↔ SameContents left right
typed_equal_iff_example = typed_equal_iff left right left-IsUnique right-IsUnique

plan_no_op_iff_example : NoOps json_test (plan serde left right) ↔ (typed_equal left right ≡ true)
plan_no_op_iff_example =
    plan_no_op_iff serde serde_laws left right left-IsUnique right-IsUnique refl

diff_collection_lem_example :
    entry_of nat_eq
      (codes "b")
      (diff_collection nat_eq (codes "skill") ((codes "a", 1) ∷ []) ((codes "b", 2) ∷ []))
    ≡ entry_for nat_eq (codes "skill") (codes "b") (
        action_of nat_eq
          (look_up (codes "b") ((codes "a", 1) ∷ []))
          (look_up (codes "b") ((codes "b", 2) ∷ [])))
diff_collection_lem_example =
    diff_collection_lem nat_eq (codes "skill") (codes "b") ((codes "a", 1) ∷ [])
      ((codes "b", 2) ∷ [])

-- The digest of a source is the source.
abbrev digest : Bytes → Bytes
digest s = s

abbrev after_one : InMemoryState
after_one = (insert_and_activate digest yaml (codes "a") (codes "s") (codes "t0") empty_state).1

abbrev after_two : InMemoryState
after_two = (insert_and_activate digest yaml (codes "b") (codes "s") (codes "t1") after_one).1

two_reached : Reachable digest after_two
two_reached =
    inserted {s = after_one} yaml (codes "b") (codes "s") (codes "t1")
      (inserted {s = empty_state} yaml (codes "a") (codes "s") (codes "t0") started)

Reachable-IsWellFormed_example : IsWellFormed digest after_two
Reachable-IsWellFormed_example = Reachable-IsWellFormed digest after_two two_reached

insert_and_activate-IsInserted_example :
    IsInserted digest
      (codes "a")
      after_two
      (insert_and_activate digest yaml (codes "a") (codes "s") (codes "t2") after_two).0
      (insert_and_activate digest yaml (codes "a") (codes "s") (codes "t2") after_two).1
insert_and_activate-IsInserted_example =
    insert_and_activate-IsInserted digest yaml (codes "a") (codes "s") (codes "t2") after_two
      (Reachable-IsWellFormed digest after_two two_reached)

generations_bounded_example :
    All
      (λ (x : Snapshot). (1 ≤ x.generation) × (x.generation ≤ insertions digest two_reached))
      after_two.snapshots
generations_bounded_example = generations_bounded digest after_two two_reached

abbrev nothing_set : Bytes → Option Bytes
nothing_set name = none

found_bot : gateway left (codes "bot") ≡ some bot
unfolding gateway list_beq
found_bot = refl

resolve_gateway_env-IsResolved_example :
    IsResolved nothing_set
      (codes "bot")
      bot
      (gateway_unset nothing_set (codes "bot") bot)
      (resolve_gateway_env (readable nothing_set) left (codes "bot"))
resolve_gateway_env-IsResolved_example =
    resolve_gateway_env-IsResolved nothing_set left (codes "bot") bot found_bot tt (tt, tt)

-- One entry whose value goes on with a line of its own.
abbrev smuggler : Agent
smuggler =
    agent_named (codes "smuggler")
      (some ((codes "A", literal (codes "1" ++ 10 ∷ codes "PATH=x")) ∷ []))

found_smuggler :
    find (λ (item : Agent). item.id == codes "smuggler") (smuggler ∷ []) ≡ some smuggler
unfolding find list_beq
found_smuggler = refl

path_line : parse_env_line (codes "PATH=x") ≡ some (codes "PATH", codes "x")
unfolding parse_env_line list_beq trim starts_with
path_line = refl

resolve_agent_env_injects_example :
    (env : Env) × (resolve_agent_env
        (readable nothing_set)
        (document_of (smuggler ∷ []))
        (codes "smuggler")
        []
      ≡ (ok env, []))
    × (look_up (codes "A") env ≡ some (codes "1" ++ 10 ∷ codes "PATH=x"))
    × (look_up (codes "PATH") env ≡ some (codes "x"))
resolve_agent_env_injects_example =
    resolve_agent_env_injects (readable nothing_set) (document_of (smuggler ∷ []))
      (codes "smuggler") smuggler (codes "A") (codes "1") (codes "PATH=x") (codes "PATH")
      (codes "x") [] found_smuggler refl refl (omega arith) (omega arith) path_line (λ e. cc)

abbrev volume : SkillVolumeDeclaration
volume = record { id = codes "cache"; mount_path = codes "/data"; advertise = false; mode = rw }

abbrev metadata_of : Bytes → Result Bytes SkillMetadata
metadata_of text = ok (record { schema_version = 1; volumes = volume ∷ [] })

validate_inner_iff_example :
    (validate_inner metadata_of left (codes "extra" ∷ []) true ≡ ok tt)
    ↔ IsConsistent metadata_of (codes "extra" ∷ []) true left
validate_inner_iff_example = validate_inner_iff metadata_of (codes "extra" ∷ []) true left

clean_skills : validate_skills metadata_of (notes ∷ []) [] ≡ []
unfolding validate_skills look_up list_beq starts_with contains_byte split contains
clean_skills = refl

validate_skills-AreClean_example : AreClean metadata_of (notes ∷ []) []
validate_skills-AreClean_example = validate_skills-AreClean metadata_of (notes ∷ []) [] clean_skills

left_validated : validate_inner metadata_of left [] true ≡ ok tt
unfolding validate_inner list_beq split look_up starts_with contains_byte
left_validated = refl

abbrev key_missing : List MissingSecret
key_missing = record { name = codes "TOKEN"; field = codes "gateways/bot/secrets/KEY" } ∷ []

bot_missing :
    resolve_gateway_env (readable nothing_set) left (codes "bot")
    ≡ err (missing_secrets key_missing)
unfolding resolve_gateway_env list_beq
bot_missing = refl

missing-secret_declared_example :
    All (λ (m : MissingSecret). secret_declared left m.name ≡ true) key_missing
missing-secret_declared_example =
    missing-secret_declared metadata_of [] true nothing_set left (codes "bot") bot key_missing
      left_validated found_bot tt (tt, tt) bot_missing
