-- ===== src/ClientService/Config/Validate/Declared.antt =====
-- Validation and resolution together: what can be missing when a gateway of a validated document
-- starts.
use agentspace.Common.{
  ◌≡◌, refl, inl, inr, Bool, true, Option, none, some, List, [], ◌∷◌, ◌++◌, Bool-cases, All,
  All-append, All-append_left, All-append_right, ◌==◌, nat_eq, list_eq, option_eq, contains, Result,
  ok, err, Bytes, codes,
}
use agentspace.Common.{Distinct}
use mathlib.Core.Path.{subst}
use agentspace.ClientService.Config.Document.{
  literal, secret, EnvEntries, Gateway, SecretDeclaration, ConfigDocument, gateway, find,
  secret_declared, any_declared, entry_keys,
}
use agentspace.ClientService.Config.Canonical.{secret_key}
use agentspace.ClientService.Config.Keyed.{keys_of}
use agentspace.ClientService.Config.Resolver.{
  MissingSecret, ResolveError, missing_secrets, Missing, entries_or_nil, resolve_gateway_env,
}
use agentspace.ClientService.Config.Resolver.GatewayEnv.{
  readable, if_unset, unset, gateway_unset, IsResolved, resolve_gateway_env-IsResolved,
}
use agentspace.ClientService.Config.Skills.{SkillMetadata}
use agentspace.ClientService.Config.Validate.{
  SecretReference, for_each, collect_env, connection_references, kernel_references,
  agent_references, gateway_references, secret_references, validate_inner,
}
use agentspace.ClientService.Config.Validate.Sound.{validate_inner_iff}

module _ (values : Bytes → Option Bytes) (P : Bytes → Type 0) where
  -- What is unset is among the references that are collected.
  unset_among :
      (prefix other : Bytes) (entries : EnvEntries)
      → All (λ (r : SecretReference). P r.name.text) (collect_env other entries)
      → All (λ (m : MissingSecret). P m.name) (unset values prefix entries)
  unfolding collect_env
  unset_among prefix other [] h = tt
  unset_among prefix other ((key, literal value) ∷ rest) h = unset_among prefix other rest h
  unset_among prefix other ((key, secret name) ∷ rest) (h, hs) =
      All-append (λ (m : MissingSecret). P m.name)
        (if_unset values name.text (prefix ++ key) (values name.text)) (unset values prefix rest)
        (one (values name.text)) (unset_among prefix other rest hs)
    where
      one :
          (o : Option Bytes)
          → All (λ (m : MissingSecret). P m.name) (if_unset values name.text (prefix ++ key) o)
      one none = (h, tt)
      one (some v) = tt

  among_found :
      (id : Bytes) (gateways : List Gateway) (g : Gateway)
      → find (λ (item : Gateway). item.id == id) gateways ≡ some g
      → All (λ (r : SecretReference). P r.name.text) (for_each gateway_references gateways)
      → All (λ (r : SecretReference). P r.name.text) (gateway_references g)
  unfolding find
  among_found id [] g h k = cc
  among_found id (x ∷ xs) g h k = elim (Bool-cases (x.id == id)) [
    | inl e ↦
        subst (λ (y : Gateway). All (λ (r : SecretReference). P r.name.text) (gateway_references y))
          (some_inj (rw e at h))
          (All-append_left (λ (r : SecretReference). P r.name.text) (gateway_references x) _ k)
    | inr e ↦
        among_found id xs g (rw e at h)
          (All-append_right (λ (r : SecretReference). P r.name.text) (gateway_references x) _ k)
  ]
    where
      some_inj : some x ≡ some g → x ≡ g
      some_inj q = cc

  reported :
      (id : Bytes) (g : Gateway) (missing ms : Missing)
      (r : Result ResolveError (List (Bytes × Bytes)))
      → IsResolved values id g missing r
      → r ≡ err (missing_secrets ms)
      → missing ≡ ms
  reported id g [] ms (ok env) h k = cc
  reported id g [] ms (err e) h k = absurd h
  reported id g (m ∷ missing) ms r h k = cc

keys_declared :
    (name : Bytes) (d : ConfigDocument)
    → contains (keys_of secret_key d.spec.secrets) name ≡ true
    → secret_declared d name ≡ true
unfolding secret_declared contains
keys_declared name d h = go d.spec.secrets h
  where
    go :
        (items : List SecretDeclaration)
        → contains (keys_of secret_key items) name ≡ true
        → any_declared name items ≡ true
    go [] k = cc
    go (item ∷ items) k = elim (Bool-cases (item.name.text == name)) [
      | inl e ↦ rw e refl
      | inr e ↦ rw e (go items (rw e at k))
    ]

all_declared :
    (d : ConfigDocument) (ms : Missing)
    → All (λ (m : MissingSecret). contains (keys_of secret_key d.spec.secrets) m.name ≡ true) ms
    → All (λ (m : MissingSecret). secret_declared d m.name ≡ true) ms
all_declared d [] h = tt
all_declared d (m ∷ ms) (h, hs) = (keys_declared m.name d h, all_declared d ms hs)

-- When the environment of a gateway of a validated document cannot be resolved because secrets are
-- missing, each of them is declared in the document: it only lacks a value.
pub missing-secret_declared :
    (from_str : Bytes → Result Bytes SkillMetadata) (builtin : List Bytes) (check_skill_refs : Bool)
    (values : Bytes → Option Bytes) (d : ConfigDocument) (id : Bytes) (g : Gateway)
    (missing : Missing)
    → validate_inner from_str d builtin check_skill_refs ≡ ok tt
    → gateway d id ≡ some g
    → Distinct (entry_keys (entries_or_nil g.env))
    → Distinct (entry_keys g.secrets)
    → resolve_gateway_env (readable values) d id ≡ err (missing_secrets missing)
    → All (λ (m : MissingSecret). secret_declared d m.name ≡ true) missing
unfolding secret_references gateway
missing-secret_declared from_str builtin check values d id g missing validated found d1 d2 failed =
    let Declared = λ (name : Bytes). contains (keys_of secret_key d.spec.secrets) name ≡ true in
    let Q = λ (r : SecretReference). Declared r.name.text in
    let consistent = (validate_inner_iff from_str builtin check d).0 validated in
    let h1 =
      All-append_right Q (for_each connection_references d.spec.connections) _ consistent.secrets in
    let h2 = All-append_right Q (for_each kernel_references d.spec.kernel_configs) _ h1 in
    let h3 = All-append_right Q (for_each agent_references d.spec.agents) _ h2 in
    let refs = among_found values Declared id d.spec.gateways g found h3 in
    let prefix1 = codes "gateways/" ++ (id ++ codes "/env/") in
    let prefix2 = codes "gateways/" ++ (id ++ codes "/secrets/") in
    let other1 = codes "gateways/" ++ (g.id ++ codes "/env/") in
    let other2 = codes "gateways/" ++ (g.id ++ codes "/secrets/") in
    let D = λ (m : MissingSecret). Declared m.name in
    let R = λ (r : SecretReference). Declared r.name.text in
    let env_refs = collect_env other1 (entries_or_nil g.env) in
    let all_unset : All D (gateway_unset values id g) =
      All-append D (unset values prefix1 (entries_or_nil g.env)) (unset values prefix2 g.secrets)
        (unset_among values Declared prefix1 other1 (entries_or_nil g.env)
          (All-append_left R env_refs (collect_env other2 g.secrets) refs))
        (unset_among values Declared prefix2 other2 g.secrets
          (All-append_right R env_refs (collect_env other2 g.secrets) refs)) in
    let same =
      reported values Declared id g (gateway_unset values id g) missing
        (resolve_gateway_env (readable values) d id)
        (resolve_gateway_env-IsResolved values d id g found d1 d2) failed in
    all_declared d missing (subst (All D) same all_unset)
