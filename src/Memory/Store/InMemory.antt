-- ===== src/Memory/Store/InMemory.antt =====
-- A store in memory, which keeps the documented behaviour: an association list of pages.
use agentspace.Common.{
  ◌++◌, codes, look_up, delete, put, look_up-delete_same, look_up-delete_other, look_up-put_same,
  look_up-put_other, ◌≡◌, refl, sym, ap, ◌∙◌, ◌≢◌, inl, inr, Bool, true, false, ◌&&◌, Option, none,
  some, List, [], ◌∷◌, if◌then◌else◌, Bool-cases, All, ◌==◌, nat_eq, list_eq, option_eq, contains,
  ok, err, ok-injective, Bytes,
}
use mathlib.Core.Path.{subst}
use mathlib.Core.Bool.{true≢false}
use agentspace.Memory.Crates.{Crates}
use agentspace.Memory.Error.{M, MemoryError, not_found, internal}
use agentspace.Memory.Path.{PagePath, as_str, path_eq}
use agentspace.Memory.Model.{revision_of}
use agentspace.Memory.Store.{ScannedFile, MemoryStore, StoreLaws, paths_of}

abbrev pub Pages : Type 0
Pages = List (PagePath × Bytes)

abbrev pub put_all : List (PagePath × Bytes) → Pages → Pages
put_all [] s = s
put_all ((p, bytes) ∷ rest) s = put p bytes (put_all rest s)

look_up-put_all_other :
    (q : PagePath) (reps : List (PagePath × Bytes)) (s : Pages)
    → contains (paths_of reps) q ≡ false
    → look_up q (put_all reps s) ≡ look_up q s
unfolding contains
look_up-put_all_other q [] s h = refl
look_up-put_all_other q ((p, bytes) ∷ reps) s h = elim (Bool-cases (p == q)) [
  | inl e ↦ cc
  | inr e ↦
      look_up-put_other p q bytes (put_all reps s)
        (λ k. true≢false (sym ((path_eq.eq_iff p q).1 (sym k)) ∙ e))
      ∙ look_up-put_all_other q reps s (rw e at h)
]

abbrev pub scanned_of : Pages → List ScannedFile
scanned_of [] = []
scanned_of ((p, bytes) ∷ s) =
    record { relative_path = as_str p ++ codes ".md"; parsed = some p } ∷ scanned_of s

module _ (c : Crates) where
  abbrev found : PagePath → Option Bytes → M (Bytes × Bytes)
  found p none = err (not_found (as_str p))
  found p (some bytes) = ok (bytes, revision_of c bytes)

  abbrev is_present : Option Bytes → Bool
  is_present none = false
  is_present (some _) = true

  abbrev removal : PagePath → Pages → Option Bytes → M (Unit {0}) × Pages
  removal p s none = (err (not_found (as_str p)), s)
  removal p s (some _) = (ok tt, delete p s)

  -- Does the state hold what is asked for?
  abbrev holds_all : List (PagePath × Bytes) → Pages → Bool
  holds_all [] s = true
  holds_all ((p, bytes) ∷ rest) s = (look_up p s == some bytes) && holds_all rest s

  abbrev after_move : PagePath → PagePath → Bytes → List (PagePath × Bytes) → Pages → Pages
  after_move source destination bytes reps s =
      put destination bytes (delete source (put_all reps s))

  abbrev committed :
      PagePath → PagePath → Bytes → List (PagePath × Bytes) → Pages → Pages → M (Unit {0}) × Pages
  committed source destination bytes reps s t =
      if (look_up source t == none) && holds_all reps t then (ok tt, t) else (err (internal []), s)

  abbrev pub in_memory : MemoryStore
  in_memory = record {
    State = Pages;
    lock = λ s. ok tt;
    read_bytes = λ p s. found p (look_up p s);
    exists = λ p s. ok (is_present (look_up p s));
    list_pages = λ s. ok (paths_of s);
    scan = λ s. ok (scanned_of s);
    write_bytes = λ p bytes s. (ok (revision_of c bytes), put p bytes s);
    remove_file = λ p s. removal p s (look_up p s);
    commit_move = λ source destination bytes reps s.
        committed source destination bytes reps s (after_move source destination bytes reps s);
  }

  found-eq-ok :
      (p : PagePath) (stored : Option Bytes) (bytes revision : Bytes)
      → found p stored ≡ ok (bytes, revision)
      → (stored ≡ some bytes) × (revision ≡ revision_of c bytes)
  found-eq-ok p none bytes revision h = cc
  found-eq-ok p (some b) bytes revision h =
      let same : (b, revision_of c b) ≡ (bytes, revision) = ok-injective _ _ h in
      let same_bytes : b ≡ bytes = ap (λ t. t.0) same in
      (ap some same_bytes, sym (ap (λ t. t.1) same) ∙ ap (revision_of c) same_bytes)

  found-not_found :
      (p : PagePath) (stored : Option Bytes) (name : Bytes)
      → found p stored ≡ err (not_found name)
      → stored ≡ none
  found-not_found p none name h = refl
  found-not_found p (some b) name h = cc

  is_present-false : (stored : Option Bytes) → is_present stored ≡ false → stored ≡ none
  is_present-false none h = refl
  is_present-false (some b) h = cc

  removal-eq-ok :
      (p : PagePath) (s s' : Pages) (stored : Option Bytes)
      → removal p s stored ≡ (ok tt, s')
      → delete p s ≡ s'
  removal-eq-ok p s s' none h = cc
  removal-eq-ok p s s' (some b) h = ap (λ r. r.1) h

  removal-eq-err :
      (p : PagePath) (s s' : Pages) (e : MemoryError) (stored : Option Bytes)
      → removal p s stored ≡ (err e, s')
      → s ≡ s'
  removal-eq-err p s s' e none h = ap (λ r. r.1) h
  removal-eq-err p s s' e (some b) h = cc

  holds_all_sound :
      (reps : List (PagePath × Bytes)) (s : Pages)
      → holds_all reps s ≡ true
      → All (λ (p, bytes). look_up p s ≡ some bytes) reps
  holds_all_sound [] s h = tt
  holds_all_sound ((p, bytes) ∷ reps) s h = elim (Bool-cases (look_up p s == some bytes)) [
    | inl e ↦
        ((option_eq.eq_iff (look_up p s) (some bytes)).0 e, holds_all_sound reps s (rw e at h))
    | inr e ↦ cc
  ]

  Committed : PagePath → PagePath → Bytes → List (PagePath × Bytes) → Pages → Pages → Type 0
  Committed source destination bytes reps s s' =
      (look_up source s' ≡ none)
      × (look_up destination s' ≡ some bytes)
      × All (λ (p, new_bytes). look_up p s' ≡ some new_bytes) reps
      × ((q : PagePath)
          → q ≢ source
          → q ≢ destination
          → contains (paths_of reps) q ≡ false
          → look_up q s' ≡ look_up q s)

  committed-eq-ok :
      (source destination : PagePath) (bytes : Bytes) (reps : List (PagePath × Bytes))
      (s s' : Pages)
      → committed source destination bytes reps s (after_move source destination bytes reps s)
        ≡ (ok tt, s')
      → Committed source destination bytes reps s s'
  unfolding Committed
  committed-eq-ok source destination bytes reps s s' h =
      elim (Bool-cases (look_up source t == none)) [
        | inl e ↦ elim (Bool-cases (holds_all reps t)) [
          | inl k ↦
              let same : t ≡ s' = ap (λ r. r.1) (rw (e, k) at h) in
              subst (Committed source destination bytes reps s) same (
                (option_eq.eq_iff (look_up source t) none).0 e,
                look_up-put_same destination bytes _,
                holds_all_sound reps t k,
                λ q not_source not_destination not_rewritten.
                    look_up-put_other destination q bytes _ not_destination
                    ∙ (look_up-delete_other source q (put_all reps s) not_source
                        ∙ look_up-put_all_other q reps s not_rewritten),
              )
          | inr k ↦ cc
        ]
        | inr e ↦ cc
      ]
    where
      t : Pages
      t = after_move source destination bytes reps s

  committed-eq-err :
      (source destination : PagePath) (bytes : Bytes) (reps : List (PagePath × Bytes))
      (e : MemoryError) (s t s' : Pages)
      → committed source destination bytes reps s t ≡ (err e, s')
      → s ≡ s'
  committed-eq-err source destination bytes reps e s t s' h =
      elim (Bool-cases ((look_up source t == none) && holds_all reps t)) [
        | inl k ↦ cc
        | inr k ↦ ap (λ r. r.1) (rw k at h)
      ]

  pub in_memory-StoreLaws : StoreLaws c in_memory
  in_memory-StoreLaws = record {
    contents = look_up;
    read_ok = λ p s. found-eq-ok p (look_up p s);
    read_not_found = λ p s. found-not_found p (look_up p s);
    exists_false = λ p s h. is_present-false (look_up p s) (ok-injective _ _ h);
    write_ok = λ p bytes revision s s' h.
        let same : put p bytes s ≡ s' = ap (λ r. r.1) h in
        (
          sym (ok-injective _ _ (ap (λ r. r.0) h)),
          ap (look_up p) (sym same) ∙ look_up-put_same p bytes s,
          λ q differ. ap (look_up q) (sym same) ∙ look_up-put_other p q bytes s differ,
        );
    write_err = λ p bytes e s s' h q. cc;
    remove_ok = λ p s s' h.
        let same = removal-eq-ok p s s' (look_up p s) h in
        (
          ap (look_up p) (sym same) ∙ look_up-delete_same p s,
          λ q differ. ap (look_up q) (sym same) ∙ look_up-delete_other p q s differ,
        );
    remove_err = λ p e s s' h q. ap (look_up q) (sym (removal-eq-err p s s' e (look_up p s) h));
    commit_ok = λ source destination bytes reps s s' h.
        unfold Committed in committed-eq-ok source destination bytes reps s s' h;
    commit_err = λ source destination bytes reps e s s' h q. ap (look_up q) (
        sym (
          committed-eq-err source destination bytes reps e s
            (after_move source destination bytes reps s) s' h));
  }
