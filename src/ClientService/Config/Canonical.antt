-- ===== src/ClientService/Config/Canonical.antt =====
-- services/client_service_rs/src/config/canonical.rs: the canonical order of a document, and the
-- equality that forgets the order of its collections.
use agentspace.Common.{◌≡◌, ap, ◌↔◌, Bool, true, ◌==◌, nat_eq, list_eq, option_eq, Bytes}
use agentspace.ClientService.Models.{harness_as_str}
use agentspace.ClientService.Config.Document.{
  SecretDeclaration, KernelConfig, Connection, Skill, Agent, Gateway, ConfigSpec, ConfigDocument,
}
use agentspace.ClientService.Config.Document.Equality.{document_eq}
use agentspace.ClientService.Config.Keyed.{sort_by, find_by, Unique, sort_by_iff}

-- The keys that the collections are sorted by.
abbrev pub secret_key : SecretDeclaration → Bytes
secret_key item = item.name.text

abbrev pub kernel_key : KernelConfig → Bytes
kernel_key item = harness_as_str item.harness

abbrev pub connection_key : Connection → Bytes
connection_key item = item.id

abbrev pub skill_key : Skill → Bytes
skill_key item = item.id

abbrev pub agent_key : Agent → Bytes
agent_key item = item.id

abbrev pub gateway_key : Gateway → Bytes
gateway_key item = item.id

unfoldable pub canonical_spec : ConfigSpec → ConfigSpec
unfolding sort_by
canonical_spec spec = record {
  secrets = sort_by secret_key spec.secrets;
  kernel_configs = sort_by kernel_key spec.kernel_configs;
  connections = sort_by connection_key spec.connections;
  skills = sort_by skill_key spec.skills;
  agents = sort_by agent_key spec.agents;
  gateways = sort_by gateway_key spec.gateways;
}

unfoldable pub canonical_document : ConfigDocument → ConfigDocument
unfolding canonical_spec
canonical_document document = record {
  metadata_name = document.metadata_name;
  spec = canonical_spec document.spec;
}

unfoldable pub typed_equal : ConfigDocument → ConfigDocument → Bool
unfolding canonical_document
typed_equal left right = canonical_document left == canonical_document right

-- No identity occurs twice in a collection.
pub record IsUnique (d : ConfigDocument) : Type 0 where
  pub secrets : Unique secret_key d.spec.secrets
  pub kernel_configs : Unique kernel_key d.spec.kernel_configs
  pub connections : Unique connection_key d.spec.connections
  pub skills : Unique skill_key d.spec.skills
  pub agents : Unique agent_key d.spec.agents
  pub gateways : Unique gateway_key d.spec.gateways

-- The same name, and for every identity the same resource: the view of a document that forgets the
-- order of its collections.
pub record SameContents (l r : ConfigDocument) : Type 0 where
  pub metadata_name : l.metadata_name ≡ r.metadata_name
  pub secrets :
      (k : Bytes) → find_by secret_key k l.spec.secrets ≡ find_by secret_key k r.spec.secrets
  pub kernel_configs :
      (k : Bytes)
      → find_by kernel_key k l.spec.kernel_configs ≡ find_by kernel_key k r.spec.kernel_configs
  pub connections :
      (k : Bytes)
      → find_by connection_key k l.spec.connections ≡ find_by connection_key k r.spec.connections
  pub skills : (k : Bytes) → find_by skill_key k l.spec.skills ≡ find_by skill_key k r.spec.skills
  pub agents : (k : Bytes) → find_by agent_key k l.spec.agents ≡ find_by agent_key k r.spec.agents
  pub gateways :
      (k : Bytes) → find_by gateway_key k l.spec.gateways ≡ find_by gateway_key k r.spec.gateways

module _ (l r : ConfigDocument) (u : IsUnique l) (v : IsUnique r) where
  same-contents : canonical_document l ≡ canonical_document r → SameContents l r
  unfolding canonical_document canonical_spec
  same-contents e = record {
    metadata_name = ap (λ (d : ConfigDocument). d.metadata_name) e;
    secrets =
        (sort_by_iff secret_key l.spec.secrets r.spec.secrets u.secrets v.secrets).0
          (ap (λ (d : ConfigDocument). d.spec.secrets) e);
    kernel_configs =
        (sort_by_iff kernel_key l.spec.kernel_configs r.spec.kernel_configs u.kernel_configs
            v.kernel_configs).0
          (ap (λ (d : ConfigDocument). d.spec.kernel_configs) e);
    connections =
        (sort_by_iff connection_key l.spec.connections r.spec.connections u.connections
            v.connections).0
          (ap (λ (d : ConfigDocument). d.spec.connections) e);
    skills =
        (sort_by_iff skill_key l.spec.skills r.spec.skills u.skills v.skills).0
          (ap (λ (d : ConfigDocument). d.spec.skills) e);
    agents =
        (sort_by_iff agent_key l.spec.agents r.spec.agents u.agents v.agents).0
          (ap (λ (d : ConfigDocument). d.spec.agents) e);
    gateways =
        (sort_by_iff gateway_key l.spec.gateways r.spec.gateways u.gateways v.gateways).0
          (ap (λ (d : ConfigDocument). d.spec.gateways) e);
  }

  same-canonical : SameContents l r → canonical_document l ≡ canonical_document r
  unfolding canonical_document canonical_spec
  same-canonical s =
      let e1 =
        (sort_by_iff secret_key l.spec.secrets r.spec.secrets u.secrets v.secrets).1 s.secrets in
      let e2 =
        (sort_by_iff kernel_key l.spec.kernel_configs r.spec.kernel_configs u.kernel_configs
            v.kernel_configs).1
          s.kernel_configs in
      let e3 =
        (sort_by_iff connection_key l.spec.connections r.spec.connections u.connections
            v.connections).1
          s.connections in
      let e4 = (sort_by_iff skill_key l.spec.skills r.spec.skills u.skills v.skills).1 s.skills in
      let e5 = (sort_by_iff agent_key l.spec.agents r.spec.agents u.agents v.agents).1 s.agents in
      let e6 =
        (sort_by_iff gateway_key l.spec.gateways r.spec.gateways u.gateways v.gateways).1
          s.gateways in
      λ i. record {
        metadata_name = s.metadata_name i;
        spec = record {
          secrets = e1 i;
          kernel_configs = e2 i;
          connections = e3 i;
          skills = e4 i;
          agents = e5 i;
          gateways = e6 i;
        };
      }

  -- Two documents in which no identity occurs twice are equal to `typed_equal` exactly when they
  -- have the same name and, for every identity of each kind, the same resource.
  pub typed_equal_iff : (typed_equal l r ≡ true) ↔ SameContents l r
  unfolding typed_equal
  typed_equal_iff = (
    λ h. same-contents ((document_eq.eq_iff (canonical_document l) (canonical_document r)).0 h),
    λ s. (document_eq.eq_iff (canonical_document l) (canonical_document r)).1 (same-canonical s),
  )
