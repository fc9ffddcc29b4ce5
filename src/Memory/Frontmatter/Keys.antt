-- ===== src/Memory/Frontmatter/Keys.antt =====
-- Fields put into a mapping under literal keys, and taken out of it.
use agentspace.Common.{
  ◌≡◌, refl, sym, ap, ◌∙◌, ◌≢◌, ◌⊎◌, inl, inr, Bool, true, false, Option, none, some, List, [], ◌∷◌,
  map, if◌then◌else◌, Bool-cases, All, ◌==◌, nat_eq, list_beq_iff, list_eq, option_eq, contains,
  Bytes,
}
use agentspace.Memory.Crates.{Crates}
use agentspace.Memory.Frontmatter.{insert_optional, all_strings}
use agentspace.Memory.Frontmatter.Fields.{or_get, MappingLaws, string_ne}

-- The insertions of fields, and a look at what they leave under a key.
pub data Field (c : Crates) : Type 0 where
  set : Bytes → c.Value → Field c
  set_text : Bytes → Option Bytes → Field c

module _ (c : Crates) where
  abbrev pub apply : List (Field c) → c.Mapping → c.Mapping
  apply [] m = m
  apply (set key v ∷ fields) m = apply fields (c.insert (c.string key) v m)
  apply (set_text key v ∷ fields) m = apply fields (insert_optional c key v m)

  abbrev pub text : Option Bytes → Option c.Value
  text none = none
  text (some s) = some (c.string s)

  unfoldable pub look : Bytes → List (Field c) → Option c.Value → Option c.Value
  look j [] before = before
  look j (set key v ∷ fields) before = look j fields (if j == key then some v else before)
  look j (set_text key v ∷ fields) before =
      look j fields (if j == key then or_get (text v) before else before)

  abbrev pub keys_of : List (Field c) → List Bytes
  keys_of [] = []
  keys_of (set key v ∷ fields) = key ∷ keys_of fields
  keys_of (set_text key v ∷ fields) = key ∷ keys_of fields

  -- The removals of fields, in order.
  abbrev pub dropped : List Bytes → c.Mapping → c.Mapping
  dropped [] m = m
  dropped (key ∷ keys) m = dropped keys (c.remove (c.string key) m).1

module _ (c : Crates) (laws : MappingLaws c) where
  get-insert_string :
      (j key : Bytes) (v : c.Value) (m : c.Mapping)
      → laws.get (c.string j) (c.insert (c.string key) v m)
        ≡ (if j == key then some v else laws.get (c.string j) m)
  get-insert_string j key v m = elim (Bool-cases (j == key)) [
    | inl e ↦ rw (e, (list_beq_iff j key).0 e) (laws.get_insert_same (c.string key) v m)
    | inr e ↦
        rw e (laws.get_insert_other (c.string j) (c.string key) v m (string_ne c laws j key e))
  ]

  get-insert_optional :
      (j key : Bytes) (v : Option Bytes) (m : c.Mapping)
      → laws.get (c.string j) (insert_optional c key v m) ≡ (
          if j == key then or_get (text c v) (laws.get (c.string j) m) else laws.get (c.string j) m)
  get-insert_optional j key none m = same (j == key) (laws.get (c.string j) m)
    where
      same : (b : Bool) (held : Option c.Value) → held ≡ (if b then held else held)
      same true held = refl
      same false held = refl
  get-insert_optional j key (some s) m = get-insert_string j key (c.string s) m

  pub get-apply :
      (j : Bytes) (fields : List (Field c)) (m : c.Mapping)
      → laws.get (c.string j) (apply c fields m) ≡ look c j fields (laws.get (c.string j) m)
  unfolding look
  get-apply j [] m = refl
  get-apply j (set key v ∷ fields) m =
      get-apply j fields (c.insert (c.string key) v m)
      ∙ ap (look c j fields) (get-insert_string j key v m)
  get-apply j (set_text key v ∷ fields) m =
      get-apply j fields (insert_optional c key v m)
      ∙ ap (look c j fields) (get-insert_optional j key v m)

  pub get-dropped_other :
      (k : c.Value) (keys : List Bytes) (m : c.Mapping)
      → All (λ key. k ≢ c.string key) keys
      → laws.get k (dropped c keys m) ≡ laws.get k m
  get-dropped_other k [] m h = refl
  get-dropped_other k (key ∷ keys) m (n, h) =
      get-dropped_other k keys (c.remove (c.string key) m).1 h
      ∙ laws.get_remove_other k (c.string key) m n

  get-dropped_absent :
      (k : c.Value) (keys : List Bytes) (m : c.Mapping)
      → laws.get k m ≡ none
      → laws.get k (dropped c keys m) ≡ none
  get-dropped_absent k [] m h = h
  get-dropped_absent k (key ∷ keys) m h =
      get-dropped_absent k keys (c.remove (c.string key) m).1
        (elim (laws.same_key k (c.string key)) [
          | inl e ↦
              ap (λ x. laws.get x (c.remove (c.string key) m).1) e
              ∙ laws.get_remove_same (c.string key) m
          | inr n ↦ laws.get_remove_other k (c.string key) m n ∙ h
        ])

  -- A key is among those that are dropped, or it differs from each.
  pub get-dropped :
      (held : c.Mapping) (k : c.Value) (keys : List Bytes) (m : c.Mapping)
      → All (λ key. laws.get (c.string key) held ≡ none) keys
      → All (λ key. k ≢ c.string key) keys
        ⊎ ((laws.get k (dropped c keys m) ≡ none) × (laws.get k held ≡ none))
  get-dropped held k [] m h = inl tt
  get-dropped held k (key ∷ keys) m (free, h) = elim (laws.same_key k (c.string key)) [
    | inl e ↦ inr (
      get-dropped_absent k keys (c.remove (c.string key) m).1 (
          ap (λ x. laws.get x (c.remove (c.string key) m).1) e
          ∙ laws.get_remove_same (c.string key) m),
      ap (λ x. laws.get x held) e ∙ free,
    )
    | inr n ↦ elim (get-dropped held k keys (c.remove (c.string key) m).1 h) [
      | inl differ ↦ inl (n, differ)
      | inr gone ↦ inr gone
    ]
  ]

  get-insert_optional_other :
      (k : c.Value) (key : Bytes) (v : Option Bytes) (m : c.Mapping)
      → k ≢ c.string key
      → laws.get k (insert_optional c key v m) ≡ laws.get k m
  get-insert_optional_other k key none m n = refl
  get-insert_optional_other k key (some s) m n =
      laws.get_insert_other k (c.string key) (c.string s) m n

  pub get-apply_other :
      (k : c.Value) (fields : List (Field c)) (m : c.Mapping)
      → All (λ key. k ≢ c.string key) (keys_of c fields)
      → laws.get k (apply c fields m) ≡ laws.get k m
  get-apply_other k [] m h = refl
  get-apply_other k (set key v ∷ fields) m (n, h) =
      get-apply_other k fields (c.insert (c.string key) v m) h
      ∙ laws.get_insert_other k (c.string key) v m n
  get-apply_other k (set_text key v ∷ fields) m (n, h) =
      get-apply_other k fields (insert_optional c key v m) h ∙ get-insert_optional_other k key v m n

  pub all_differ :
      (j : Bytes) (keys : List Bytes)
      → contains keys j ≡ false
      → All (λ key. c.string j ≢ c.string key) keys
  unfolding contains
  all_differ j [] h = tt
  all_differ j (key ∷ keys) h = elim (Bool-cases (key == j)) [
    | inl e ↦ cc
    | inr e ↦ (λ k. string_ne c laws key j e (sym k), all_differ j keys (rw e at h))
  ]

  pub all_strings-map : (tags : List Bytes) → all_strings c (map c.string tags) ≡ some tags
  all_strings-map [] = refl
  all_strings-map (tag ∷ tags) = rw (laws.as_string_string tag, all_strings-map tags) refl
