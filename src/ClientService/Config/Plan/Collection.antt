-- ===== src/ClientService/Config/Plan/Collection.antt =====
-- The plan of one collection that consists of no-ops, against the items of the two sides.
use agentspace.Common.{
  ◌≡◌, refl, sym, ap, ◌∙◌, ◌≢◌, ◌↔◌, inl, inr, Option, none, some, List, [], ◌∷◌, Bool-cases, All,
  PartialEq, ◌==◌, nat_eq, list_eq, option_eq, look_up, put, look_up-put_same, look_up-put_other,
  Bytes,
}
use mathlib.Core.Path.{subst}
use mathlib.Core.Bool.{true≢false}
use agentspace.ClientService.Config.Document.{find}
use agentspace.ClientService.Config.Keyed.{find_by, Unique, keys_of}
use agentspace.ClientService.Config.Plan.{
  create, update, remove, no_op, PlanEntry, collect, map_of, action_of, push_action, diff_ids,
  diff_collection,
}
use agentspace.ClientService.Config.Plan.Diff.{entry_for, entry_of, diff_collection_lem}

abbrev pub Injective : {A B : Type 0} → (A → B) → Type 0
Injective {A} f = (x y : A) → f x ≡ f y → x ≡ y

module _ {V : Type 0} (p : PartialEq V) where
  abbrev pub NoOps : List PlanEntry → Type 0
  NoOps entries = All (λ (e : PlanEntry). e.action ≡ no_op) entries

  NoOps-entry_of :
      (id : Bytes) (entries : List PlanEntry) (e : PlanEntry)
      → NoOps entries
      → entry_of p id entries ≡ some e
      → e.action ≡ no_op
  unfolding find
  NoOps-entry_of id [] e h k = cc
  NoOps-entry_of id (d ∷ entries) e (h, hs) k = elim (Bool-cases (d.id == id)) [
    | inl q ↦
        let same : some d ≡ some e = rw q at k in
        let at : d ≡ e = cc in ap (λ (x : PlanEntry). x.action) (sym at) ∙ h
    | inr q ↦ NoOps-entry_of id entries e hs (rw q at k)
  ]

  no_op_sound :
      (kind id : Bytes) (a b : Option V)
      → ((e : PlanEntry) → entry_for p kind id (action_of p a b) ≡ some e → e.action ≡ no_op)
      → a ≡ b
  unfolding action_of
  no_op_sound kind id none none h = refl
  no_op_sound kind id none (some b) h =
      cc (h (record { kind = kind; id = id; action = create }) refl)
  no_op_sound kind id (some a) none h =
      cc (h (record { kind = kind; id = id; action = remove }) refl)
  no_op_sound kind id (some a) (some b) h = elim (Bool-cases (p.eq a b)) [
    | inl q ↦ ap (λ x. some x) ((p.eq_iff a b).0 q)
    | inr q ↦
        let wrong : update ≡ no_op =
          h (record { kind = kind; id = id; action = update }) (rw q refl) in
        cc
  ]

  no_op_complete :
      (kind id : Bytes) (a b : Option V) (entries : List PlanEntry)
      → a ≡ b
      → NoOps entries
      → NoOps (push_action p kind id (action_of p a b) entries)
  unfolding action_of
  no_op_complete kind id none none entries e h = h
  no_op_complete kind id none (some b) entries e h = cc
  no_op_complete kind id (some a) none entries e h = cc
  no_op_complete kind id (some a) (some b) entries e h =
      let same : a ≡ b = some_inj e in rw ((p.eq_iff a b).1 same) (refl, h)
    where
      some_inj : some a ≡ some b → a ≡ b
      some_inj k = cc

  diff_ids-NoOps :
      (kind : Bytes) (ids : List Bytes) (current next : List (Bytes × V))
      → ((k : Bytes) → look_up k current ≡ look_up k next)
      → NoOps (diff_ids p kind ids current next)
  unfolding diff_ids
  diff_ids-NoOps kind [] current next h = tt
  diff_ids-NoOps kind (id ∷ ids) current next h =
      no_op_complete kind id (look_up id current) (look_up id next)
        (diff_ids p kind ids current next) (h id) (diff_ids-NoOps kind ids current next h)

  diff_collection_no_op :
      (kind : Bytes) (current next : List (Bytes × V))
      → NoOps (diff_collection p kind current next)
        ↔ ((k : Bytes) → look_up k current ≡ look_up k next)
  unfolding diff_collection
  diff_collection_no_op kind current next = (
    λ h k. no_op_sound kind k (look_up k current) (look_up k next) (λ e q.
        NoOps-entry_of k (diff_collection p kind current next) e h
          (diff_collection_lem p kind k current next ∙ q)),
    λ h. diff_ids-NoOps kind _ current next h,
  )

module _ {A V : Type 0} (key : A → Bytes) (json : A → V) where
  abbrev json_or : Option V → Option A → Option V
  json_or old none = old
  json_or old (some x) = some (json x)

  look_up-collect_away :
      (k : Bytes) (acc : List (Bytes × V)) (items : List A)
      → All (λ j. k ≢ j) (keys_of key items)
      → look_up k (collect key json acc items) ≡ look_up k acc
  look_up-collect_away k acc [] h = refl
  look_up-collect_away k acc (x ∷ xs) (n, h) =
      look_up-collect_away k (put (key x) (json x) acc) xs h
      ∙ look_up-put_other (key x) k (json x) acc n

  look_up-collect :
      (k : Bytes) (acc : List (Bytes × V)) (items : List A)
      → Unique key items
      → look_up k (collect key json acc items) ≡ json_or (look_up k acc) (find_by key k items)
  unfolding find
  look_up-collect k acc [] h = refl
  look_up-collect k acc (x ∷ xs) (h, hs) = elim (Bool-cases (key x == k)) [
    | inl q ↦
        let at : key x ≡ k = (list_eq.eq_iff (key x) k).0 q in
        rw q (
          look_up-collect_away k (put (key x) (json x) acc) xs
            (subst (λ j. All (λ i. j ≢ i) (keys_of key xs)) at h)
          ∙ (ap (λ j. look_up j (put (key x) (json x) acc)) (sym at)
              ∙ look_up-put_same (key x) (json x) acc))
    | inr q ↦ rw q (
        look_up-collect k (put (key x) (json x) acc) xs hs
        ∙ ap (λ o. json_or o (find_by key k xs))
            (look_up-put_other (key x) k (json x) acc
              (λ e. true≢false (sym ((list_eq.eq_iff (key x) k).1 (sym e)) ∙ q))))
  ]

  json_or_inj : Injective json → (a b : Option A) → json_or none a ≡ json_or none b → a ≡ b
  json_or_inj h none none e = refl
  json_or_inj h none (some b) e = cc
  json_or_inj h (some a) none e = cc
  json_or_inj h (some a) (some b) e =
      let same : json a ≡ json b = some_inj e in ap (λ x. some x) (h a b same)
    where
      some_inj : some (json a) ≡ some (json b) → json a ≡ json b
      some_inj k = cc

  map_of_iff :
      (xs ys : List A)
      → Injective json
      → Unique key xs
      → Unique key ys
      → ((k : Bytes) → look_up k (map_of key json xs) ≡ look_up k (map_of key json ys))
        ↔ ((k : Bytes) → find_by key k xs ≡ find_by key k ys)
  unfolding map_of look_up
  map_of_iff xs ys inj h g = (
    λ e k.
        json_or_inj inj (find_by key k xs) (find_by key k ys)
          (sym (look_up-collect k [] xs h) ∙ (e k ∙ look_up-collect k [] ys g)),
    λ e k.
        look_up-collect k [] xs h
        ∙ (ap (λ o. json_or none o) (e k) ∙ sym (look_up-collect k [] ys g)),
  )

  pub collection_no_op :
      (p : PartialEq V) (kind : Bytes) (xs ys : List A)
      → Injective json
      → Unique key xs
      → Unique key ys
      → NoOps p (diff_collection p kind (map_of key json xs) (map_of key json ys))
        ↔ ((k : Bytes) → find_by key k xs ≡ find_by key k ys)
  collection_no_op p kind xs ys inj h g =
      let first = diff_collection_no_op p kind (map_of key json xs) (map_of key json ys) in
      let second = map_of_iff xs ys inj h g in
      ((λ n. second.0 (first.0 n)), (λ e. first.1 (second.1 e)))
