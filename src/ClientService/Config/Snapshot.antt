-- ===== src/ClientService/Config/Snapshot.antt =====
-- services/client_service_rs/src/config/snapshot.rs: the store of snapshots in memory. The digest
-- and the time are arguments. A generation is a natural number: it starts at 1 and grows by 1.
pub mod Reachable
pub mod History
use agentspace.Common.{
  ℕ, zero, suc, ◌+◌, Option, none, some, List, [], ◌∷◌, ◌++◌, arith, ltb, if◌then◌else◌, ◌==◌,
  nat_eq, list_eq, option_eq, Bytes,
}
use agentspace.ClientService.Config.Document.{find}

pub data SourceKind : Type 0 where
  yaml bundle : SourceKind

pub record Snapshot : Type 0 where
  pub generation : ℕ
  pub source_kind : SourceKind
  pub source_bytes : Bytes
  pub source_sha256 : Bytes
  pub semantic_sha256 : Bytes
  pub created_at : Bytes

pub record InMemoryState : Type 0 where
  pub snapshots : List Snapshot
  pub active : Option ℕ

abbrev pub empty_state : InMemoryState
empty_state = record { snapshots = []; active = none }

-- The snapshot of a generation, and of a digest.
unfoldable pub find_generation : List Snapshot → ℕ → Option Snapshot
unfolding find
find_generation snapshots generation = find (λ (s : Snapshot). s.generation == generation) snapshots

unfoldable pub find_source : List Snapshot → Bytes → Option Snapshot
unfolding find
find_source snapshots digest = find (λ (s : Snapshot). s.source_sha256 == digest) snapshots

abbrev pub and_find : List Snapshot → Option ℕ → Option Snapshot
and_find snapshots none = none
and_find snapshots (some generation) = find_generation snapshots generation

unfoldable pub active_snapshot : InMemoryState → Option Snapshot
unfolding find_generation
active_snapshot s = and_find s.snapshots s.active

-- The greatest generation, or the given one if it is greater.
unfoldable pub max_from : ℕ → List Snapshot → ℕ
max_from m [] = m
max_from m (s ∷ rest) = max_from (if ltb m s.generation then s.generation else m) rest

abbrev pub activated : InMemoryState → Snapshot → Option Snapshot → Snapshot × InMemoryState
activated state fresh (some existing) =
    (existing, record state { active = some existing.generation })
activated state fresh none =
    (fresh, record { snapshots = state.snapshots ++ fresh ∷ []; active = some fresh.generation })

module _ (sha256_hex : Bytes → Bytes) where
  unfoldable pub insert_and_activate :
      SourceKind → Bytes → Bytes → Bytes → InMemoryState → Snapshot × InMemoryState
  unfolding find_source max_from
  insert_and_activate source_kind source_bytes semantic_sha256 now state =
      let digest = sha256_hex source_bytes in
      activated state
        record {
          generation = max_from 0 state.snapshots + 1;
          source_kind = source_kind;
          source_bytes = source_bytes;
          source_sha256 = digest;
          semantic_sha256 = semantic_sha256;
          created_at = now;
        }
        (find_source state.snapshots digest)
