-- ===== src/ClientService/Config/Resolver/GatewayEnv.antt =====
-- The environment of a gateway: complete, or every secret that is missing for it.
use agentspace.Common.{
  ◌≡◌, refl, sym, ap, ◌∙◌, ◌≢◌, inl, inr, Option, none, some, [], ◌∷◌, ◌++◌, append-nil,
  append_assoc, if◌then◌else◌, Bool-cases, All, ◌==◌, nat_eq, list_eq, option_eq, ne→beq-false,
  Result, ok, err, look_up, put, look_up-put_same, look_up-put_other, Bytes, codes,
}
use agentspace.Common.{Distinct, ◌▸◌}
use mathlib.Core.Path.{subst}
use mathlib.Core.Bool.{true≢false}
use agentspace.ClientService.Models.{Env, parse_env_vars}
use agentspace.ClientService.Config.Document.{
  ConfigValue, literal, secret, EnvEntries, Gateway, ConfigDocument, gateway, env_to_text,
  entry_keys,
}
use agentspace.ClientService.Config.Resolver.{
  ResolveError, missing_secrets, SecretStore, Missing, or_missing, insert_resolved, entries_or_nil,
  resolve_one, resolve_entries, unless_missing, gateway_env, resolve_gateway_env,
}

-- A store that can be read: what each name is set to.
module _ (values : Bytes → Option Bytes) where
  abbrev pub readable : SecretStore
  readable name = ok (values name)

  -- The value that an entry stands for.
  abbrev pub value_of : ConfigValue → Option Bytes
  value_of (literal value) = some value
  value_of (secret name) = values name.text

  abbrev pub if_unset : Bytes → Bytes → Option Bytes → Missing
  if_unset name field none = record { name = name; field = field } ∷ []
  if_unset name field (some _) = []

  -- The references to secrets that are not set, with their fields.
  abbrev pub unset : Bytes → EnvEntries → Missing
  unset prefix [] = []
  unset prefix ((key, literal value) ∷ rest) = unset prefix rest
  unset prefix ((key, secret name) ∷ rest) =
      if_unset name.text (prefix ++ key) (values name.text) ++ unset prefix rest

  abbrev applied : EnvEntries → Env → Env
  applied [] env = env
  applied ((key, value) ∷ rest) env = applied rest (insert_resolved key (value_of value) env)

  one_lem :
      (name field : Bytes) (found : Option Bytes) (missing : Missing)
      → or_missing name field (ok found) missing ≡ (ok found, missing ++ if_unset name field found)
  one_lem name field none missing = refl
  one_lem name field (some value) missing =
      ap (λ m. (ok (some value), m)) (sym (append-nil missing))

  resolve_entries_lem :
      (prefix : Bytes) (entries : EnvEntries) (env : Env) (missing : Missing)
      → resolve_entries readable prefix entries env missing
        ≡ (ok (applied entries env), missing ++ unset prefix entries)
  unfolding resolve_entries resolve_one
  resolve_entries_lem prefix [] env missing = ap (λ m. (ok env, m)) (sym (append-nil missing))
  resolve_entries_lem prefix ((key, literal value) ∷ rest) env missing =
      resolve_entries_lem prefix rest (put key value env) missing
  resolve_entries_lem prefix ((key, secret name) ∷ rest) env missing =
      ap
        (λ r. r ▸ λ resolved m.
          resolve_entries readable prefix rest (insert_resolved key resolved env) m)
        (one_lem name.text (prefix ++ key) (values name.text) missing)
      ∙ (resolve_entries_lem prefix rest (insert_resolved key (values name.text) env) _
          ∙ ap (λ m. (ok (applied rest (insert_resolved key (values name.text) env)), m))
              (append_assoc missing _ (unset prefix rest)))

  abbrev pub HasValue : EnvEntries → Type 0
  HasValue entries = All (λ (_, value). value_of value ≢ none) entries

  -- What an environment holds for a key, an entry of the list before what was there.
  abbrev pub held : Bytes → EnvEntries → Option Bytes → Option Bytes
  held k [] old = old
  held k ((key, value) ∷ rest) old =
      let below = held k rest old in if key == k then value_of value else below

  held_away :
      (k : Bytes) (entries : EnvEntries) (old : Option Bytes)
      → All (λ j. k ≢ j) (entry_keys entries)
      → held k entries old ≡ old
  held_away k [] old h = refl
  held_away k ((key, value) ∷ rest) old (n, h) =
      rw (ne→beq-false key k (λ e. n (sym e))) (held_away k rest old h)

  look_up-insert_resolved :
      (key k : Bytes) (v : Option Bytes) (env : Env)
      → v ≢ none
      → look_up k (insert_resolved key v env) ≡ (if key == k then v else look_up k env)
  look_up-insert_resolved key k none env h = absurd (h refl)
  look_up-insert_resolved key k (some value) env h = elim (Bool-cases (key == k)) [
    | inl e ↦
        let at : key ≡ k = (list_eq.eq_iff key k).0 e in
        rw e (ap (λ j. look_up j (put key value env)) (sym at) ∙ look_up-put_same key value env)
    | inr e ↦ rw e (
        look_up-put_other key k value env
          (λ q. true≢false (sym ((list_eq.eq_iff key k).1 (sym q)) ∙ e)))
  ]

  applied_lem :
      (k : Bytes) (entries : EnvEntries) (env : Env)
      → Distinct (entry_keys entries)
      → HasValue entries
      → look_up k (applied entries env) ≡ held k entries (look_up k env)
  applied_lem k [] env d s = refl
  applied_lem k ((key, value) ∷ rest) env (apart, d) (h, s) =
      applied_lem k rest (insert_resolved key (value_of value) env) d s
      ∙ elim (Bool-cases (key == k)) [
        | inl e ↦
            let at : key ≡ k = (list_eq.eq_iff key k).0 e in
            rw e (
              held_away k rest _ (subst (λ j. All (λ i. j ≢ i) (entry_keys rest)) at apart)
              ∙ (look_up-insert_resolved key k (value_of value) env h ∙ rw e refl))
        | inr e ↦
            rw e
              (ap (held k rest) (look_up-insert_resolved key k (value_of value) env h ∙ rw e refl))
      ]

  if_unset_nil :
      (name field : Bytes) (found : Option Bytes) → if_unset name field found ≡ [] → found ≢ none
  if_unset_nil name field none h k = cc
  if_unset_nil name field (some v) h k = cc

  append_nil_both : (xs ys : Missing) → xs ++ ys ≡ [] → (xs ≡ []) × (ys ≡ [])
  append_nil_both [] ys h = (refl, h)
  append_nil_both (x ∷ xs) ys h = cc

  unset-HasValue :
      (prefix : Bytes) (entries : EnvEntries) → unset prefix entries ≡ [] → HasValue entries
  unset-HasValue prefix [] h = tt
  unset-HasValue prefix ((key, literal value) ∷ rest) h = ((λ e. cc), unset-HasValue prefix rest h)
  unset-HasValue prefix ((key, secret name) ∷ rest) h =
      let (first, others) =
        append_nil_both (if_unset name.text (prefix ++ key) (values name.text)) (unset prefix rest)
          h in
      (
        if_unset_nil name.text (prefix ++ key) (values name.text) first,
        unset-HasValue prefix rest others,
      )

  -- All references of a gateway to secrets that are not set.
  abbrev pub gateway_unset : Bytes → Gateway → Missing
  gateway_unset id g =
      unset (codes "gateways/" ++ (id ++ codes "/env/")) (entries_or_nil g.env)
      ++ unset (codes "gateways/" ++ (id ++ codes "/secrets/")) g.secrets

  -- The result that a gateway is meant to get: all the secrets that are missing, if any is, and else
  -- an environment in which the secrets stand before the structured entries and these before the
  -- text.
  abbrev pub IsResolved : Bytes → Gateway → Missing → Result ResolveError Env → Type 0
  IsResolved id g [] (ok env) =
      (k : Bytes)
      → look_up k env
        ≡ held k g.secrets (
            held k (entries_or_nil g.env)
              (look_up k (parse_env_vars (env_to_text g.env g.env_text))))
  IsResolved id g [] (err e) = ⊥
  IsResolved id g (m ∷ missing) r = r ≡ err (missing_secrets (m ∷ missing))

  finish_lem :
      (id : Bytes) (g : Gateway) (env : Env) (missing : Missing)
      → (missing ≡ [] → IsResolved id g [] (ok env))
      → IsResolved id g missing (unless_missing (ok env, missing))
  finish_lem id g env [] h = h refl
  finish_lem id g env (m ∷ missing) h = refl

  -- With a secret store that can be read, the environment of a gateway is resolved completely or
  -- every reference to a secret that is not set is reported, in order.
  pub resolve_gateway_env-IsResolved :
      (document : ConfigDocument) (id : Bytes) (g : Gateway)
      → gateway document id ≡ some g
      → Distinct (entry_keys (entries_or_nil g.env))
      → Distinct (entry_keys g.secrets)
      → IsResolved id g (gateway_unset id g) (resolve_gateway_env readable document id)
  unfolding resolve_gateway_env
  resolve_gateway_env-IsResolved document id g found d1 d2 =
      let prefix1 = codes "gateways/" ++ (id ++ codes "/env/") in
      let prefix2 = codes "gateways/" ++ (id ++ codes "/secrets/") in
      let text_env = parse_env_vars (env_to_text g.env g.env_text) in
      let ran : gateway_env readable id (some g)
          ≡ unless_missing (
            ok (applied g.secrets (applied (entries_or_nil g.env) text_env)),
            gateway_unset id g,
          ) =
        ap (λ r. unless_missing (r ▸ λ env m. resolve_entries readable prefix2 g.secrets env m))
          (resolve_entries_lem prefix1 (entries_or_nil g.env) text_env [])
        ∙ ap (unless_missing) (
            resolve_entries_lem prefix2 g.secrets (applied (entries_or_nil g.env) text_env)
              (unset prefix1 (entries_or_nil g.env))) in
      subst (IsResolved id g (gateway_unset id g)) (sym (ap (gateway_env readable id) found ∙ ran))
        (finish_lem id g _ (gateway_unset id g) (λ none_missing k.
          let (first, second) =
            append_nil_both (unset prefix1 (entries_or_nil g.env)) (unset prefix2 g.secrets)
              none_missing in
          applied_lem k g.secrets (applied (entries_or_nil g.env) text_env) d2
            (unset-HasValue prefix2 g.secrets second)
          ∙ ap (held k g.secrets) (
              applied_lem k (entries_or_nil g.env) text_env d1
                (unset-HasValue prefix1 (entries_or_nil g.env) first))))
