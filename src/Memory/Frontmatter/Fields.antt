-- ===== src/Memory/Frontmatter/Fields.antt =====
-- The fields of the metadata: what `render_document` inserts is what `parse_metadata` takes.
use agentspace.Common.{
  ℕ, ◌≡◌, refl, sym, ap, ◌∙◌, ◌≢◌, ◌⊎◌, inl, inr, false, Option, none, some, List, [], ◌∷◌,
  Option-cases, All, ◌==◌, nat_eq, list_beq_iff, list_eq, option_eq, Bytes,
}
use mathlib.Core.Bool.{true≢false}
use mathlib.Core.Option.{some-injective, some-ne-none}
use agentspace.Memory.Crates.{Crates}
use agentspace.Memory.Frontmatter.{insert_entries}

abbrev pub or_get {ℓ} : {A : Type ℓ} → Option A → Option A → Option A
or_get none b = b
or_get (some a) b = some a

-- Is there an entry with the key?
abbrev pub HasKey : {K V : Type 0} → K → List (K × V) → Type 0
HasKey k [] = ⊥
HasKey k ((j, v) ∷ rest) = (j ≡ k) ⊎ HasKey k rest

-- What the code relies on: the mapping of serde_yaml_ng is a map by its keys, which can be compared,
-- and its entries are what it holds; the tests on values undo their constructors, and a time is
-- read back from its RFC 3339 text.
pub record MappingLaws (c : Crates) : Type 0 where
  pub get : c.Value → c.Mapping → Option c.Value
  pub same_key : (j k : c.Value) → (j ≡ k) ⊎ (j ≢ k)
  pub get_empty : (k : c.Value) → get k c.empty ≡ none
  pub get_insert_same : (k v : c.Value) (m : c.Mapping) → get k (c.insert k v m) ≡ some v
  pub get_insert_other :
      (j k v : c.Value) (m : c.Mapping) → j ≢ k → get j (c.insert k v m) ≡ get j m
  pub remove_value : (k : c.Value) (m : c.Mapping) → (c.remove k m).0 ≡ get k m
  pub get_remove_same : (k : c.Value) (m : c.Mapping) → get k (c.remove k m).1 ≡ none
  pub get_remove_other : (j k : c.Value) (m : c.Mapping) → j ≢ k → get j (c.remove k m).1 ≡ get j m
  pub entries_sound : (m : c.Mapping) → All (λ (k, v). get k m ≡ some v) (c.entries m)
  pub entries_complete : (m : c.Mapping) (k v : c.Value) → get k m ≡ some v → HasKey k (c.entries m)
  pub as_string_string : (s : Bytes) → c.as_string (c.string s) ≡ some s
  pub as_u64_number : (n : ℕ) → c.as_u64 (c.number n) ≡ some n
  pub as_sequence_sequence : (vs : List c.Value) → c.as_sequence (c.sequence vs) ≡ some vs
  pub as_mapping_mapping : (m : c.Mapping) → c.as_mapping (c.mapping m) ≡ some m
  pub parse_to_rfc3339 : (t : c.Time) → c.parse_rfc3339 (c.to_rfc3339 t) ≡ some t

module _ (c : Crates) (laws : MappingLaws c) where
  pub string_ne : (j k : Bytes) → (j == k) ≡ false → c.string j ≢ c.string k
  string_ne j k h e =
      let same : j ≡ k =
        some-injective _ _
          (sym (laws.as_string_string j) ∙ (ap c.as_string e ∙ laws.as_string_string k)) in
      true≢false (sym ((list_beq_iff j k).1 same) ∙ h)

  -- Entries put into a mapping hide what it held.
  get-insert_entries_present :
      (source m : c.Mapping) (es : List (c.Value × c.Value)) (k w : c.Value)
      → All (λ (j, v). laws.get j source ≡ some v) es
      → laws.get k source ≡ some w
      → HasKey k es ⊎ (laws.get k m ≡ some w)
      → laws.get k (insert_entries c es m) ≡ some w
  get-insert_entries_present source m [] k w sound h (inl has) = absurd has
  get-insert_entries_present source m [] k w sound h (inr held) = held
  get-insert_entries_present source m ((j, v) ∷ es) k w (here, sound) h has =
      get-insert_entries_present source (c.insert j v m) es k w sound h
        (by_key (laws.same_key j k) has)
    where
      by_key :
          (j ≡ k) ⊎ (j ≢ k)
          → HasKey k ((j, v) ∷ es) ⊎ (laws.get k m ≡ some w)
          → HasKey k es ⊎ (laws.get k (c.insert j v m) ≡ some w)
      by_key (inl e) _ = inr (
          ap (λ x. laws.get x (c.insert j v m)) (sym e)
          ∙ (laws.get_insert_same j v m ∙ (sym here ∙ (ap (λ x. laws.get x source) e ∙ h))))
      by_key (inr n) (inl (inl e)) = absurd (n e)
      by_key (inr n) (inl (inr more)) = inl more
      by_key (inr n) (inr held) = inr (laws.get_insert_other k j v m (λ e. n (sym e)) ∙ held)

  get-insert_entries_absent :
      (source m : c.Mapping) (es : List (c.Value × c.Value)) (k : c.Value)
      → All (λ (j, v). laws.get j source ≡ some v) es
      → laws.get k source ≡ none
      → laws.get k (insert_entries c es m) ≡ laws.get k m
  get-insert_entries_absent source m [] k sound h = refl
  get-insert_entries_absent source m ((j, v) ∷ es) k (here, sound) h =
      get-insert_entries_absent source (c.insert j v m) es k sound h
      ∙ laws.get_insert_other k j v m
          (λ e. some-ne-none _ (sym here ∙ (ap (λ x. laws.get x source) (sym e) ∙ h)))

  pub get-insert_entries :
      (source m : c.Mapping) (k : c.Value)
      → laws.get k (insert_entries c (c.entries source) m)
        ≡ or_get (laws.get k source) (laws.get k m)
  get-insert_entries source m k = elim (Option-cases (laws.get k source)) [
    | inl e ↦
        rw e (get-insert_entries_absent source m (c.entries source) k (laws.entries_sound source) e)
    | inr (w, e) ↦ rw e (
        get-insert_entries_present source m (c.entries source) k w (laws.entries_sound source) e
          (inl (laws.entries_complete source k w e)))
  ]
