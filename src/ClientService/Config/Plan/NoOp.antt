-- ===== src/ClientService/Config/Plan/NoOp.antt =====
-- A plan with no change, against the equality that forgets order.
use agentspace.Common.{
  ◌≡◌, ◌↔◌, true, List, All-append, All-append_left, All-append_right, PartialEq, nat_eq, list_eq,
  option_eq, Bytes, codes,
}
use agentspace.ClientService.Config.Document.{ConfigDocument}
use agentspace.ClientService.Config.Keyed.{find_by}
use agentspace.ClientService.Config.Canonical.{
  secret_key, kernel_key, connection_key, skill_key, agent_key, gateway_key, typed_equal, IsUnique,
  SameContents, typed_equal_iff,
}
use agentspace.ClientService.Config.Plan.{no_op, PlanEntry, Serde, map_of, diff_collection, plan}
use agentspace.ClientService.Config.Plan.Collection.{Injective, NoOps, collection_no_op}

-- The serializer tells resources of a kind apart.
pub record SerdeLaws (c : Serde) : Type 0 where
  pub secrets : Injective c.secret_json
  pub kernels : Injective c.kernel_json
  pub connections : Injective c.connection_json
  pub skills : Injective c.skill_json
  pub agents : Injective c.agent_json
  pub gateways : Injective c.gateway_json

module _ (c : Serde) (laws : SerdeLaws c) (l r : ConfigDocument) (u : IsUnique l)
    (v : IsUnique r) where
  abbrev pub p : PartialEq c.Json
  p = c.json_eq

  abbrev secrets_diff : List PlanEntry
  secrets_diff =
      diff_collection p (codes "secret") (map_of secret_key c.secret_json l.spec.secrets)
        (map_of secret_key c.secret_json r.spec.secrets)

  secrets_iff :
      NoOps p secrets_diff
      ↔ ((k : Bytes) → find_by secret_key k l.spec.secrets ≡ find_by secret_key k r.spec.secrets)
  secrets_iff =
      collection_no_op secret_key c.secret_json p (codes "secret") l.spec.secrets r.spec.secrets
        laws.secrets u.secrets v.secrets

  abbrev kernels_diff : List PlanEntry
  kernels_diff =
      diff_collection p (codes "kernelConfig")
        (map_of kernel_key c.kernel_json l.spec.kernel_configs)
        (map_of kernel_key c.kernel_json r.spec.kernel_configs)

  kernels_iff : NoOps p kernels_diff ↔ (
      (k : Bytes)
      → find_by kernel_key k l.spec.kernel_configs ≡ find_by kernel_key k r.spec.kernel_configs)
  kernels_iff =
      collection_no_op kernel_key c.kernel_json p (codes "kernelConfig") l.spec.kernel_configs
        r.spec.kernel_configs laws.kernels u.kernel_configs v.kernel_configs

  abbrev connections_diff : List PlanEntry
  connections_diff =
      diff_collection p (codes "connection")
        (map_of connection_key c.connection_json l.spec.connections)
        (map_of connection_key c.connection_json r.spec.connections)

  connections_iff : NoOps p connections_diff ↔ (
      (k : Bytes)
      → find_by connection_key k l.spec.connections ≡ find_by connection_key k r.spec.connections)
  connections_iff =
      collection_no_op connection_key c.connection_json p (codes "connection") l.spec.connections
        r.spec.connections laws.connections u.connections v.connections

  abbrev skills_diff : List PlanEntry
  skills_diff =
      diff_collection p (codes "skill") (map_of skill_key c.skill_json l.spec.skills)
        (map_of skill_key c.skill_json r.spec.skills)

  skills_iff :
      NoOps p skills_diff
      ↔ ((k : Bytes) → find_by skill_key k l.spec.skills ≡ find_by skill_key k r.spec.skills)
  skills_iff =
      collection_no_op skill_key c.skill_json p (codes "skill") l.spec.skills r.spec.skills
        laws.skills u.skills v.skills

  abbrev agents_diff : List PlanEntry
  agents_diff =
      diff_collection p (codes "agent") (map_of agent_key c.agent_json l.spec.agents)
        (map_of agent_key c.agent_json r.spec.agents)

  agents_iff :
      NoOps p agents_diff
      ↔ ((k : Bytes) → find_by agent_key k l.spec.agents ≡ find_by agent_key k r.spec.agents)
  agents_iff =
      collection_no_op agent_key c.agent_json p (codes "agent") l.spec.agents r.spec.agents
        laws.agents u.agents v.agents

  abbrev gateways_diff : List PlanEntry
  gateways_diff =
      diff_collection p (codes "gateway") (map_of gateway_key c.gateway_json l.spec.gateways)
        (map_of gateway_key c.gateway_json r.spec.gateways)

  gateways_iff : NoOps p gateways_diff ↔ (
      (k : Bytes) → find_by gateway_key k l.spec.gateways ≡ find_by gateway_key k r.spec.gateways)
  gateways_iff =
      collection_no_op gateway_key c.gateway_json p (codes "gateway") l.spec.gateways
        r.spec.gateways laws.gateways u.gateways v.gateways

  all_parts : NoOps p (plan c l r) → l.metadata_name ≡ r.metadata_name → SameContents l r
  unfolding plan
  all_parts h named =
      let Q = λ (e : PlanEntry). e.action ≡ no_op in
      let h1 = All-append_right Q secrets_diff _ h in
      let h2 = All-append_right Q kernels_diff _ h1 in
      let h3 = All-append_right Q connections_diff _ h2 in
      let h4 = All-append_right Q skills_diff _ h3 in
      record {
        metadata_name = named;
        secrets = secrets_iff.0 (All-append_left Q secrets_diff _ h);
        kernel_configs = kernels_iff.0 (All-append_left Q kernels_diff _ h1);
        connections = connections_iff.0 (All-append_left Q connections_diff _ h2);
        skills = skills_iff.0 (All-append_left Q skills_diff _ h3);
        agents = agents_iff.0 (All-append_left Q agents_diff gateways_diff h4);
        gateways = gateways_iff.0 (All-append_right Q agents_diff gateways_diff h4);
      }

  no_parts : SameContents l r → NoOps p (plan c l r)
  unfolding plan
  no_parts s =
      let Q = λ (e : PlanEntry). e.action ≡ no_op in
      All-append Q secrets_diff _ (secrets_iff.1 s.secrets) (
        All-append Q kernels_diff _ (kernels_iff.1 s.kernel_configs) (
          All-append Q connections_diff _ (connections_iff.1 s.connections) (
            All-append Q skills_diff _ (skills_iff.1 s.skills) (
              All-append Q agents_diff gateways_diff (agents_iff.1 s.agents)
                (gateways_iff.1 s.gateways)))))

  -- Between two documents of the same name in which no identity occurs twice, the plan consists of
  -- no-ops exactly when the two are equal to `typed_equal`, provided that the serializer tells
  -- resources apart.
  pub plan_no_op_iff :
      l.metadata_name ≡ r.metadata_name → NoOps p (plan c l r) ↔ (typed_equal l r ≡ true)
  plan_no_op_iff named =
      let equal = typed_equal_iff l r u v in
      ((λ h. equal.1 (all_parts h named)), (λ e. no_parts (equal.0 e)))
