-- ===== src/Memory/Crates.antt =====
-- What the memory service takes from other crates: YAML values (serde_yaml_ng), points in time
-- (chrono), the digest (sha2), and the Unicode lower case of the standard library. Each is a
-- parameter of what uses it.
use agentspace.Common.{ℕ, Option, List, nat_eq, list_eq, option_eq, Result, Bytes}

pub record Crates : Type 1 where
  -- `serde_yaml_ng::Value`, with the constructors that the code uses and the tests on them.
  pub Value : Type 0
  pub string : Bytes → Value
  pub as_string : Value → Option Bytes
  pub number : ℕ → Value
  pub as_u64 : Value → Option ℕ
  pub sequence : List Value → Value
  pub as_sequence : Value → Option (List Value)
  -- `serde_yaml_ng::Mapping`: `remove` gives the value too, `entries` is the iteration.
  pub Mapping : Type 0
  pub mapping : Mapping → Value
  pub as_mapping : Value → Option Mapping
  pub empty : Mapping
  pub insert : Value → Value → Mapping → Mapping
  pub remove : Value → Mapping → Option Value × Mapping
  pub entries : Mapping → List (Value × Value)
  -- An error is kept as the text that it prints.
  pub from_str : Bytes → Result Bytes Value
  pub to_string : Value → Result Bytes Bytes
  -- `chrono::DateTime<Utc>`
  pub Time : Type 0
  pub parse_rfc3339 : Bytes → Option Time
  pub to_rfc3339 : Time → Bytes
  -- `Sha256::digest` and `str::to_lowercase`
  pub sha256 : Bytes → Bytes
  pub to_lowercase : Bytes → Bytes
