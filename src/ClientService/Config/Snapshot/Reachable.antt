-- ===== src/ClientService/Config/Snapshot/Reachable.antt =====
-- The states that the snapshot store can come to.
use agentspace.Common.{
  ℕ, suc, ◌+◌, ◌≤◌, ◌≡◌, refl, sym, ap, ◌∙◌, ◌≢◌, ◌⊎◌, inl, inr, Option, none, some, List, [], ◌∷◌,
  ◌++◌, append-nil, arith, length, length-append, All, All-append, nat_eq, list_eq, option_eq,
  Bytes,
}
use agentspace.Common.{Distinct}
use mathlib.Core.Path.{subst}
use mathlib.Core.Option.{some-injective}
use agentspace.ClientService.Config.Snapshot.{
  SourceKind, Snapshot, InMemoryState, empty_state, find_source, active_snapshot, max_from,
  activated, insert_and_activate,
}
use agentspace.ClientService.Config.Snapshot.History.{
  Numbered, sources_of, max_from-Numbered, Numbered-snoc, find_generation-snoc,
  find_source-find_generation, find_source_absent, Distinct-snoc,
}

module _ (sha256_hex : Bytes → Bytes) where
  pub record IsWellFormed (s : InMemoryState) : Type 0 where
    pub numbered : Numbered 1 s.snapshots
    pub distinct : Distinct (sources_of s.snapshots)
    pub digests : All (λ (x : Snapshot). x.source_sha256 ≡ sha256_hex x.source_bytes) s.snapshots
    pub activated : (s.active ≡ none) ⊎ (active_snapshot s ≢ none)

  -- The store in use: it starts empty, and documents are inserted.
  pub data Reachable : InMemoryState → Type 0 where
    started : Reachable empty_state
    inserted :
        {s : InMemoryState} (kind : SourceKind) (bytes semantic now : Bytes)
        → Reachable s
        → Reachable (insert_and_activate sha256_hex kind bytes semantic now s).1

  -- An insertion into a well-formed store.
  pub record IsInserted (bytes : Bytes) (s : InMemoryState) (x : Snapshot) (s' : InMemoryState)
      : Type 0 where
    pub digest : x.source_sha256 ≡ sha256_hex bytes
    pub active : active_snapshot s' ≡ some x
    pub well_formed : IsWellFormed s'
    pub history :
        (added : List Snapshot) × (s'.snapshots ≡ s.snapshots ++ added) × (length added ≤ 1)
    pub reused :
        (y : Snapshot)
        → find_source s.snapshots (sha256_hex bytes) ≡ some y
        → (x ≡ y) × (s'.snapshots ≡ s.snapshots)
    pub created :
        find_source s.snapshots (sha256_hex bytes) ≡ none
        → (x.source_bytes ≡ bytes) × (s'.snapshots ≡ s.snapshots ++ x ∷ [])

  inserted_lem :
      (bytes : Bytes) (s : InMemoryState) (fresh : Snapshot) (found : Option Snapshot)
      → IsWellFormed s
      → fresh.source_sha256 ≡ sha256_hex bytes
      → fresh.source_bytes ≡ bytes
      → fresh.generation ≡ max_from 0 s.snapshots + 1
      → find_source s.snapshots (sha256_hex bytes) ≡ found
      → IsInserted bytes s (activated s fresh found).0 (activated s fresh found).1
  unfolding active_snapshot
  inserted_lem bytes s fresh (some x) w digest same gen found =
      let (there, digested, above) =
        find_source-find_generation 1 s.snapshots (sha256_hex bytes) x w.numbered found in
      record {
        digest = digested;
        active = there;
        well_formed = record {
          numbered = w.numbered;
          distinct = w.distinct;
          digests = w.digests;
          activated = inr (λ e. some_apart (sym there ∙ e));
        };
        history = ([], sym (append-nil s.snapshots), omega arith);
        reused = λ y e. (some-injective x y (sym found ∙ e), refl);
        created = λ e. absurd (some_apart (sym found ∙ e));
      }
    where
      some_apart : some x ≢ none
      some_apart q = cc
  inserted_lem bytes s fresh none w digest same gen found =
      let numbered : fresh.generation ≡ 1 + length s.snapshots =
        omega (arith, gen, max_from-Numbered 0 s.snapshots w.numbered) in
      let there = find_generation-snoc 1 s.snapshots fresh w.numbered numbered in
      record {
        digest = digest;
        active = there;
        well_formed = record {
          numbered = Numbered-snoc 1 s.snapshots fresh w.numbered numbered;
          distinct = Distinct-snoc s.snapshots fresh w.distinct (
              subst (λ d. All (λ e. e ≢ d) (sources_of s.snapshots)) (sym digest)
                (find_source_absent s.snapshots (sha256_hex bytes) found));
          digests =
              All-append (λ (x : Snapshot). x.source_sha256 ≡ sha256_hex x.source_bytes) s.snapshots
                (fresh ∷ []) w.digests ((digest ∙ ap sha256_hex (sym same)), tt);
          activated = inr (λ e. some_apart (sym there ∙ e));
        };
        history = (fresh ∷ [], refl, omega arith);
        reused = λ y e. absurd (absent_apart y (sym found ∙ e));
        created = λ _. (same, refl);
      }
    where
      some_apart : some fresh ≢ none
      some_apart q = cc

      absent_apart : (y : Snapshot) → ◌≢◌ {A = Option Snapshot} none (some y)
      absent_apart y q = cc

  -- An insertion into a well-formed store returns a snapshot with the digest of the document
  -- and makes it the active one, keeps every snapshot that was there, and leaves the store
  -- well-formed. If a snapshot has that digest already, it is that one and none is added; otherwise
  -- it holds the document and stands behind the others.
  pub insert_and_activate-IsInserted :
      (kind : SourceKind) (bytes semantic now : Bytes) (s : InMemoryState)
      → IsWellFormed s
      → IsInserted bytes s
          (insert_and_activate sha256_hex kind bytes semantic now s).0
          (insert_and_activate sha256_hex kind bytes semantic now s).1
  unfolding insert_and_activate
  insert_and_activate-IsInserted kind bytes semantic now s w =
      inserted_lem bytes s _ (find_source s.snapshots (sha256_hex bytes)) w refl refl refl refl

  -- However documents are inserted, the snapshots are numbered from 1 on, no document is kept twice,
  -- each digest is that of its document, and the active generation is one that is there.
  pub Reachable-IsWellFormed : (s : InMemoryState) → Reachable s → IsWellFormed s
  Reachable-IsWellFormed s started = record {
    numbered = tt;
    distinct = tt;
    digests = tt;
    activated = inl refl;
  }
  Reachable-IsWellFormed s (inserted {s = t} kind bytes semantic now h) =
      (insert_and_activate-IsInserted kind bytes semantic now t
        (Reachable-IsWellFormed t h)).well_formed

  -- The number of insertions.
  unfoldable pub insertions : {s : InMemoryState} → Reachable s → ℕ
  insertions started = 0
  insertions (inserted kind bytes semantic now h) = suc (insertions h)

  Numbered-bounds :
      (n k : ℕ) (xs : List Snapshot)
      → Numbered n xs
      → n + length xs ≤ suc k
      → All (λ (x : Snapshot). (n ≤ x.generation) × (x.generation ≤ k)) xs
  Numbered-bounds n k [] h b = tt
  Numbered-bounds n k (x ∷ xs) (h, hs) b =
      ((omega arith, omega arith), raised xs (Numbered-bounds (suc n) k xs hs (omega arith)))
    where
      raised :
          (ys : List Snapshot)
          → All (λ (y : Snapshot). (suc n ≤ y.generation) × (y.generation ≤ k)) ys
          → All (λ (y : Snapshot). (n ≤ y.generation) × (y.generation ≤ k)) ys
      raised [] q = tt
      raised (y ∷ ys) ((low, high), qs) = ((omega arith, high), raised ys qs)

  length_le_insertions : (s : InMemoryState) (h : Reachable s) → length s.snapshots ≤ insertions h
  unfolding insert_and_activate insertions
  length_le_insertions s started = omega arith
  length_le_insertions s (inserted {s = t} kind bytes semantic now h) =
      let r =
        insert_and_activate-IsInserted kind bytes semantic now t (Reachable-IsWellFormed t h) in
      let (added, same, short) = r.history in
      omega (
        arith,
        length_le_insertions t h,
        length-append t.snapshots added,
        ap (λ (xs : List Snapshot). length xs) same,
      )

  -- A generation is at least 1 and at most the number of insertions so far, so the counter, of 64
  -- bits with a sign, does not overflow before that number does.
  pub generations_bounded :
      (s : InMemoryState) (h : Reachable s)
      → All (λ (x : Snapshot). (1 ≤ x.generation) × (x.generation ≤ insertions h)) s.snapshots
  generations_bounded s h =
      Numbered-bounds 1 (insertions h) s.snapshots (Reachable-IsWellFormed s h).numbered
        (omega (arith, length_le_insertions s h))
