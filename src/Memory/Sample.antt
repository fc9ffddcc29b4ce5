-- ===== src/Memory/Sample.antt =====
-- Concrete crates, small enough to compute with: YAML values as labelled trees, one fixed YAML text,
-- and times as texts.
pub mod Mapping
use agentspace.Common.{
  ℕ, zero, suc, ◌+◌, ◌≡◌, refl, ◌↔◌, Bool, true, false, ◌&&◌, Option, none, some, List, [], ◌∷◌,
  ◌++◌, arith, if◌then◌else◌, PartialEq, ◌==◌, nat_eq, list_eq, option_eq, ok, look_up, delete, put,
  Bytes, codes,
}
use agentspace.Memory.Crates.{Crates}

pub data Value : Type 0 where
  leaf : Value
  node : ℕ → Value → Value → Value

unfoldable pub value_beq : Value → Value → Bool
value_beq leaf leaf = true
value_beq leaf (node b l r) = false
value_beq (node a l r) leaf = false
value_beq (node a l r) (node b l' r') = a == b && (value_beq l l' && value_beq r r')

pub value_beq_iff : (v w : Value) → (value_beq v w ≡ true) ↔ (v ≡ w)
unfolding value_beq
value_beq_iff leaf leaf = (λ _. refl, λ _. refl)
value_beq_iff leaf (node b l r) = (λ h. cc, λ h. cc)
value_beq_iff (node a l r) leaf = (λ h. cc, λ h. cc)
value_beq_iff (node a l r) (node b l' r') = ground (arith, value_beq_iff l l', value_beq_iff r r')

instance abbrev pub value_eq : PartialEq Value
value_eq = record { eq = value_beq; eq_iff = value_beq_iff }

abbrev pub Entries : Type 0
Entries = List (Value × Value)

abbrev pub of_bytes : Bytes → Value
of_bytes [] = leaf
of_bytes (b ∷ s) = node b leaf (of_bytes s)

abbrev pub to_bytes : Value → Bytes
to_bytes leaf = []
to_bytes (node b l r) = b ∷ to_bytes r

abbrev pub of_values : List Value → Value
of_values [] = leaf
of_values (v ∷ vs) = node 0 v (of_values vs)

abbrev pub to_values : Value → List Value
to_values leaf = []
to_values (node b v r) = v ∷ to_values r

abbrev pub of_entries : Entries → Value
of_entries [] = leaf
of_entries ((k, v) ∷ m) = node 0 k (node 0 v (of_entries m))

abbrev pub to_entries : Value → Entries
to_entries leaf = []
to_entries (node b k leaf) = []
to_entries (node b k (node d v m)) = (k, v) ∷ to_entries m

-- A value of a kind: its tag and what it holds.
abbrev pub holding : {A : Type 0} → ℕ → (Value → A) → Value → Option A
holding tag f leaf = none
holding tag f (node b l r) = if b == tag then some (f l) else none

abbrev label : Value → ℕ
label leaf = 0
label (node b l r) = b

abbrev pub text : Bytes → Value
text s = node 0 (of_bytes s) leaf

-- The entries of a mapping, the first of each key.
unfoldable pub distinct : Entries → Entries
distinct [] = []
distinct ((k, v) ∷ m) = (k, v) ∷ delete k (distinct m)

abbrev sample_mapping : Entries
sample_mapping =
    (text (codes "schema_version"), node 1 (node 1 leaf leaf) leaf)
    ∷ (text (codes "title"), text (codes "Alice"))
    ∷ (text (codes "tags"), node 2 (of_values (text (codes "person") ∷ [])) leaf)
    ∷ (text (codes "created_at"), text (codes "t0"))
    ∷ (text (codes "updated_at"), text (codes "t0"))
    ∷ []

abbrev pub yaml_line : Bytes
yaml_line = codes "title: Alice"

abbrev pub crates_reading : Entries → Crates
crates_reading parsed = record {
  Value = Value;
  string = text;
  as_string = holding 0 to_bytes;
  number = λ n. node 1 (node n leaf leaf) leaf;
  as_u64 = holding 1 label;
  sequence = λ vs. node 2 (of_values vs) leaf;
  as_sequence = holding 2 to_values;
  Mapping = Entries;
  mapping = λ m. node 3 (of_entries m) leaf;
  as_mapping = holding 3 to_entries;
  empty = [];
  insert = put;
  remove = λ k m. (look_up k m, delete k m);
  entries = distinct;
  from_str = λ s. ok (node 3 (of_entries parsed) leaf);
  to_string = λ v. ok (yaml_line ++ 10 ∷ []);
  Time = Bytes;
  parse_rfc3339 = λ s. some s;
  to_rfc3339 = λ t. t;
  sha256 = λ s. s;
  to_lowercase = λ s. s;
}

abbrev pub crates : Crates
crates = crates_reading sample_mapping
