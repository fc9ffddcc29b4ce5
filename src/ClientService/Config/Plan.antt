-- ===== src/ClientService/Config/Plan.antt =====
-- services/client_service_rs/src/config/plan.rs: the changes that lead from one document to another.
-- A `BTreeMap` that is only asked for keys is an association list.
pub mod Diff
pub mod NoOp
pub mod Collection
use agentspace.Common.{
  ℕ, zero, suc, ◌+◌, Bool, true, false, Option, none, some, List, [], ◌∷◌, ◌++◌, arith,
  if◌then◌else◌, PartialEq, nat_eq, list_eq, option_eq, look_up, put, Bytes, codes,
}
use agentspace.Common.{sort, dedup}
use agentspace.ClientService.Config.Document.{
  SecretDeclaration, KernelConfig, Connection, Skill, Agent, Gateway, ConfigDocument,
}
use agentspace.ClientService.Config.Canonical.{
  secret_key, kernel_key, connection_key, skill_key, agent_key, gateway_key,
}

pub data PlanAction : Type 0 where
  create update remove no_op : PlanAction

pub record PlanEntry : Type 0 where
  pub kind : Bytes
  pub id : Bytes
  pub action : PlanAction

-- `serde_json::to_value` for each kind of resource; it does not fail on these.
pub record Serde : Type 1 where
  pub Json : Type 0
  pub json_eq : PartialEq Json
  pub secret_json : SecretDeclaration → Json
  pub kernel_json : KernelConfig → Json
  pub connection_json : Connection → Json
  pub skill_json : Skill → Json
  pub agent_json : Agent → Json
  pub gateway_json : Gateway → Json

module _ {A V : Type 0} (key : A → Bytes) (value : A → V) where
  abbrev pub collect : List (Bytes × V) → List A → List (Bytes × V)
  collect acc [] = acc
  collect acc (item ∷ items) = collect (put (key item) (value item) acc) items

  -- `items.iter().map(to_entry).collect()`: of two items of a key the later one counts.
  unfoldable pub map_of : List A → List (Bytes × V)
  map_of items = collect [] items

abbrev pub map_keys : {V : Type 0} → List (Bytes × V) → List Bytes
map_keys [] = []
map_keys ((k, _) ∷ m) = k ∷ map_keys m

module _ {V : Type 0} (p : PartialEq V) where
  -- What happens to an id; none is the `continue` of the loop.
  unfoldable pub action_of : Option V → Option V → Option PlanAction
  action_of none (some after) = some create
  action_of (some before) none = some remove
  action_of (some before) (some after) = if p.eq before after then some no_op else some update
  action_of none none = none

  abbrev pub push_action : Bytes → Bytes → Option PlanAction → List PlanEntry → List PlanEntry
  push_action kind id none entries = entries
  push_action kind id (some action) entries =
      record { kind = kind; id = id; action = action } ∷ entries

  unfoldable pub diff_ids :
      Bytes → List Bytes → List (Bytes × V) → List (Bytes × V) → List PlanEntry
  unfolding action_of
  diff_ids kind [] current next = []
  diff_ids kind (id ∷ ids) current next =
      push_action kind id (action_of (look_up id current) (look_up id next))
        (diff_ids kind ids current next)

  unfoldable pub diff_collection : Bytes → List (Bytes × V) → List (Bytes × V) → List PlanEntry
  unfolding diff_ids sort dedup
  diff_collection kind current next =
      diff_ids kind (dedup (sort (map_keys current ++ map_keys next))) current next

-- `plan`: the entries of all kinds, one kind behind the other.
unfoldable pub plan : Serde → ConfigDocument → ConfigDocument → List PlanEntry
unfolding diff_collection map_of
plan c current next =
    diff_collection c.json_eq (codes "secret")
      (map_of secret_key c.secret_json current.spec.secrets)
      (map_of secret_key c.secret_json next.spec.secrets)
    ++ (diff_collection c.json_eq (codes "kernelConfig")
          (map_of kernel_key c.kernel_json current.spec.kernel_configs)
          (map_of kernel_key c.kernel_json next.spec.kernel_configs)
        ++ (diff_collection c.json_eq (codes "connection")
              (map_of connection_key c.connection_json current.spec.connections)
              (map_of connection_key c.connection_json next.spec.connections)
            ++ (diff_collection c.json_eq (codes "skill")
                  (map_of skill_key c.skill_json current.spec.skills)
                  (map_of skill_key c.skill_json next.spec.skills)
                ++ (diff_collection c.json_eq (codes "agent")
                      (map_of agent_key c.agent_json current.spec.agents)
                      (map_of agent_key c.agent_json next.spec.agents)
                    ++ diff_collection c.json_eq (codes "gateway")
                        (map_of gateway_key c.gateway_json current.spec.gateways)
                        (map_of gateway_key c.gateway_json next.spec.gateways)))))

-- The counts of the summary of `to_json`.
abbrev pub action_beq : PlanAction → PlanAction → Bool
action_beq create create = true
action_beq update update = true
action_beq remove remove = true
action_beq no_op no_op = true
action_beq _ _ = false

unfoldable pub summary_count : PlanAction → List PlanEntry → ℕ
summary_count action [] = 0
summary_count action (entry ∷ entries) =
    let rest = summary_count action entries in
    if action_beq entry.action action then suc rest else rest
