-- ===== src/ClientService/Config/Plan/Diff.antt =====
-- What a plan says of each id.
use agentspace.Common.{
  ◌≡◌, refl, sym, ap, ◌∙◌, ◌⊎◌, inl, inr, Bool, true, false, ◌||◌, Option, none, some, List, [],
  ◌∷◌, ◌++◌, arith, Bool-cases, PartialEq, ◌==◌, nat_eq, list_eq, option_eq, eq_refl, contains,
  look_up, Bytes,
}
use agentspace.Common.{sort, dedup, contains-sort, contains-dedup}
use mathlib.Core.Bool.{true≢false}
use agentspace.ClientService.Config.Document.{find}
use agentspace.ClientService.Config.Plan.{
  PlanAction, PlanEntry, map_keys, action_of, push_action, diff_ids, diff_collection,
}

contains-append :
    (xs ys : List Bytes) (k : Bytes) → contains (xs ++ ys) k ≡ (contains xs k || contains ys k)
unfolding contains
contains-append [] ys k = refl
contains-append (x ∷ xs) ys k =
    rw (contains-append xs ys k) (or_assoc (x == k) (contains xs k) (contains ys k))
  where
    or_assoc : (a b c : Bool) → (a || (b || c)) ≡ ((a || b) || c)
    or_assoc a b c = ground arith

module _ {V : Type 0} where
  look_up_absent :
      (k : Bytes) (m : List (Bytes × V)) → contains (map_keys m) k ≡ false → look_up k m ≡ none
  unfolding contains look_up
  look_up_absent k [] h = refl
  look_up_absent k ((j, v) ∷ m) h = elim (Bool-cases (j == k)) [
    | inl e ↦ absurd (true≢false (rw e at h))
    | inr e ↦ rw e (look_up_absent k m (rw e at h))
  ]

module _ {V : Type 0} (p : PartialEq V) where
  abbrev pub entry_for : Bytes → Bytes → Option PlanAction → Option PlanEntry
  entry_for kind id none = none
  entry_for kind id (some action) = some (record { kind = kind; id = id; action = action })

  -- The entry of an id.
  abbrev pub entry_of : Bytes → List PlanEntry → Option PlanEntry
  entry_of id entries = find (λ (e : PlanEntry). e.id == id) entries

  push_same :
      (kind id : Bytes) (a : Option PlanAction) (entries : List PlanEntry)
      → (a ≡ none → entry_of id entries ≡ none)
      → entry_of id (push_action p kind id a entries) ≡ entry_for kind id a
  unfolding find
  push_same kind id none entries h = h refl
  push_same kind id (some action) entries h = rw (eq_refl id) refl

  push_other :
      (kind j id : Bytes) (a : Option PlanAction) (entries : List PlanEntry)
      → (j == id) ≡ false
      → entry_of id (push_action p kind j a entries) ≡ entry_of id entries
  unfolding find
  push_other kind j id none entries h = refl
  push_other kind j id (some action) entries h = rw h refl

  abbrev at : Bytes → Bytes → List (Bytes × V) → List (Bytes × V) → Option PlanEntry
  at kind id current next = entry_for kind id (action_of p (look_up id current) (look_up id next))

  diff_ids-find :
      (kind id : Bytes) (ids : List Bytes) (current next : List (Bytes × V))
      → (entry_of id (diff_ids p kind ids current next) ≡ at kind id current next)
        ⊎ ((contains ids id ≡ false) × (entry_of id (diff_ids p kind ids current next) ≡ none))
  unfolding diff_ids contains find
  diff_ids-find kind id [] current next = inr (refl, refl)
  diff_ids-find kind id (j ∷ ids) current next = elim (Bool-cases (j == id)) [
    | inl e ↦
        let same : j ≡ id = (list_eq.eq_iff j id).0 e in
        inl (
          ap
            (λ i. entry_of id (
              push_action p kind i (action_of p (look_up i current) (look_up i next))
                (diff_ids p kind ids current next)))
            same
          ∙ push_same kind id (action_of p (look_up id current) (look_up id next))
              (diff_ids p kind ids current next)
              (λ q. elim (diff_ids-find kind id ids current next) [
                | inl found ↦ found ∙ ap (entry_for kind id) q
                | inr (_, gone) ↦ gone
              ]))
    | inr e ↦ elim (diff_ids-find kind id ids current next) [
      | inl found ↦ inl (push_other kind j id _ (diff_ids p kind ids current next) e ∙ found)
      | inr (apart, gone) ↦
          inr (rw e apart, push_other kind j id _ (diff_ids p kind ids current next) e ∙ gone)
    ]
  ]

  pub diff_collection_lem :
      (kind id : Bytes) (current next : List (Bytes × V))
      → entry_of id (diff_collection p kind current next)
        ≡ entry_for kind id (action_of p (look_up id current) (look_up id next))
  unfolding diff_collection
  diff_collection_lem kind id current next =
      let ids = dedup (sort (map_keys current ++ map_keys next)) in
      elim (diff_ids-find kind id ids current next) [
        | inl found ↦ found
        | inr (apart, gone) ↦
            let (out1, out2) =
              or-false (contains (map_keys current) id) (contains (map_keys next) id) (
                sym (contains-append (map_keys current) (map_keys next) id)
                ∙ (sym (contains-sort (map_keys current ++ map_keys next) id)
                    ∙ (sym (contains-dedup (sort (map_keys current ++ map_keys next)) id)
                        ∙ apart))) in
            gone
            ∙ sym (
                unfold action_of in
                rw (look_up_absent id current out1, look_up_absent id next out2) refl)
      ]
    where
      or-false : (a b : Bool) → (a || b) ≡ false → (a ≡ false) × (b ≡ false)
      or-false true b h = cc
      or-false false b h = (refl, h)
