-- ===== src/Memory/Sample/Mapping.antt =====
-- The mapping of the concrete crates is a map by its keys.
use agentspace.Common.{
  ◌≡◌, refl, sym, ap, ◌∙◌, ◌≢◌, ◌⊎◌, inl, inr, false, Option, none, some, List, [], ◌∷◌, Bool-cases,
  All, ◌==◌, nat_eq, list_eq, option_eq, eq_refl, ne→beq-false, look_up, delete,
  look_up-delete_same, look_up-delete_other, look_up-put_same, look_up-put_other, Bytes,
}
use mathlib.Core.Bool.{true≢false}
use agentspace.Memory.Sample.{
  Value, value_eq, Entries, of_bytes, to_bytes, of_values, to_values, of_entries, to_entries,
  distinct, crates_reading,
}
use agentspace.Memory.Frontmatter.Fields.{HasKey, MappingLaws}

pub to_bytes-of_bytes : (s : Bytes) → to_bytes (of_bytes s) ≡ s
to_bytes-of_bytes [] = refl
to_bytes-of_bytes (b ∷ s) = ap (λ t. b ∷ t) (to_bytes-of_bytes s)

pub to_values-of_values : (vs : List Value) → to_values (of_values vs) ≡ vs
to_values-of_values [] = refl
to_values-of_values (v ∷ vs) = ap (λ t. v ∷ t) (to_values-of_values vs)

pub to_entries-of_entries : (m : Entries) → to_entries (of_entries m) ≡ m
to_entries-of_entries [] = refl
to_entries-of_entries ((k, v) ∷ m) = ap (λ t. (k, v) ∷ t) (to_entries-of_entries m)

sound_delete :
    (k v : Value) (m es : Entries)
    → All (λ (j, w). look_up j m ≡ some w) es
    → All (λ (j, w). look_up j ((k, v) ∷ m) ≡ some w) (delete k es)
unfolding delete look_up
sound_delete k v m [] h = tt
sound_delete k v m ((j, w) ∷ es) (here, h) = elim (Bool-cases (j == k)) [
  | inl e ↦ rw e (sound_delete k v m es h)
  | inr e ↦
      let differ : (k == j) ≡ false =
        ne→beq-false k j (λ q. true≢false (sym ((value_eq.eq_iff j k).1 (sym q)) ∙ e)) in
      rw e (rw differ here, sound_delete k v m es h)
]

pub distinct_sound : (m : Entries) → All (λ (k, v). look_up k m ≡ some v) (distinct m)
unfolding distinct
distinct_sound [] = tt
distinct_sound ((k, v) ∷ m) =
    (unfold look_up in rw (eq_refl k) refl, sound_delete k v m (distinct m) (distinct_sound m))

HasKey-delete : (k j : Value) (es : Entries) → k ≢ j → HasKey k es → HasKey k (delete j es)
unfolding delete
HasKey-delete k j [] n h = h
HasKey-delete k j ((i, w) ∷ es) n h = elim (Bool-cases (i == j)) [
  | inl e ↦ rw e (HasKey-delete k j es n (later h ((value_eq.eq_iff i j).0 e)))
  | inr e ↦ rw e (kept h (HasKey-delete k j es n))
]
  where
    later : HasKey k ((i, w) ∷ es) → i ≡ j → HasKey k es
    later (inl q) e = absurd (n (sym q ∙ e))
    later (inr q) e = q

    kept :
        HasKey k ((i, w) ∷ es)
        → (HasKey k es → HasKey k (delete j es))
        → HasKey k ((i, w) ∷ delete j es)
    kept (inl q) more = inl q
    kept (inr q) more = inr (more q)

pub distinct_complete : (m : Entries) (k v : Value) → look_up k m ≡ some v → HasKey k (distinct m)
unfolding distinct look_up
distinct_complete [] k v h = cc
distinct_complete ((j, w) ∷ m) k v h = elim (Bool-cases (j == k)) [
  | inl e ↦ inl ((value_eq.eq_iff j k).0 e)
  | inr e ↦ inr (
      HasKey-delete k j (distinct m) (λ q. true≢false (sym ((value_eq.eq_iff j k).1 (sym q)) ∙ e))
        (distinct_complete m k v (rw e at h)))
]

-- Keys can be compared.
pub same_key : (j k : Value) → (j ≡ k) ⊎ (j ≢ k)
same_key j k = elim (Bool-cases (j == k)) [
  | inl e ↦ inl ((value_eq.eq_iff j k).0 e)
  | inr e ↦ inr (λ q. true≢false (sym ((value_eq.eq_iff j k).1 q) ∙ e))
]

pub look_up_empty : (k : Value) → ◌≡◌ {A = Option Value} (look_up {V = Value} k []) none
unfolding look_up
look_up_empty k = refl

abbrev pub crates_laws : (parsed : Entries) → MappingLaws (crates_reading parsed)
crates_laws parsed = record {
  get = look_up;
  same_key = same_key;
  get_empty = look_up_empty;
  get_insert_same = look_up-put_same;
  get_insert_other = λ j k v m n. look_up-put_other k j v m n;
  remove_value = λ k m. refl;
  get_remove_same = look_up-delete_same;
  get_remove_other = λ j k m n. look_up-delete_other k j m n;
  entries_sound = distinct_sound;
  entries_complete = distinct_complete;
  as_string_string = λ s. ap some (to_bytes-of_bytes s);
  as_u64_number = λ n. refl;
  as_sequence_sequence = λ vs. ap some (to_values-of_values vs);
  as_mapping_mapping = λ m. ap some (to_entries-of_entries m);
  parse_to_rfc3339 = λ t. refl;
}
