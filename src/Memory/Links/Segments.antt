-- ===== src/Memory/Links/Segments.antt =====
-- The parts of a relative target, resolved from a directory.
use agentspace.Common.{
  ℕ, zero, suc, ◌-◌, ◌≤◌, ◌≡◌, refl, sym, ap, ◌∙◌, ◌≢◌, inl, inr, List, [], ◌∷◌, ◌++◌, append-nil,
  append_assoc, arith, Bool-cases, length, take, drop, replicate, length-take, take-append-drop,
  take_all, All, All-append, All-drop, ◌==◌, nat_eq, list_beq, list_beq_iff, list_eq, option_eq,
  ne→beq-false, Bytes, codes, Lacks,
}
use agentspace.Memory.Path.{markdown_extension, last_or}
use agentspace.Memory.Path.Resolve.{IsFileName}
use agentspace.Memory.Links.{before_fragment, pop, resolve_part, resolve_parts, common}

pub before_fragment_plain : (s : Bytes) → Lacks b'#' s → Lacks b'?' s → before_fragment s ≡ s
unfolding before_fragment
before_fragment_plain [] h k = refl
before_fragment_plain (c ∷ s) (n, h) (m, k) =
    rw (ne→beq-false c b'#' n, ne→beq-false c b'?' m, before_fragment_plain s h k)

resolve_part_name :
    (segments : List Bytes) (s : Bytes)
    → s ≢ []
    → s ≢ codes "."
    → s ≢ codes ".."
    → resolve_part segments s ≡ segments ++ s ∷ []
unfolding resolve_part
resolve_part_name segments s a b c =
    rw (ne→beq-false s [] a, ne→beq-false s (codes ".") b, ne→beq-false s (codes "..") c)

resolve_parts_names :
    (segments names : List Bytes)
    → All IsFileName names
    → resolve_parts segments names ≡ segments ++ names
unfolding resolve_parts
resolve_parts_names segments [] h = sym (append-nil segments)
resolve_parts_names segments (s ∷ names) (h, hs) =
    rw (resolve_part_name segments s h.nonempty h.not_dot h.not_dots)
      (resolve_parts_names (segments ++ s ∷ []) names hs ∙ append_assoc segments (s ∷ []) names)

resolve_parts-append :
    (segments ps qs : List Bytes)
    → resolve_parts segments (ps ++ qs) ≡ resolve_parts (resolve_parts segments ps) qs
unfolding resolve_parts
resolve_parts-append segments [] qs = refl
resolve_parts-append segments (p ∷ ps) qs = resolve_parts-append (resolve_part segments p) ps qs

resolve_part_up : (segments : List Bytes) → resolve_part segments (codes "..") ≡ pop segments
unfolding resolve_part list_beq
resolve_part_up segments = refl

resolve_parts-cons :
    (segments : List Bytes) (p : Bytes) (ps : List Bytes)
    → resolve_parts segments (p ∷ ps) ≡ resolve_parts (resolve_part segments p) ps
unfolding resolve_parts
resolve_parts-cons segments p ps = refl

take-take {ℓ} : {A : Type ℓ} (m n : ℕ) (xs : List A) → m ≤ n → take m (take n xs) ≡ take m xs
take-take zero n xs h = refl
take-take (suc m) zero xs h = absurd (omega arith)
take-take (suc m) (suc n) [] h = refl
take-take (suc m) (suc n) (x ∷ xs) h = ap (λ t. x ∷ t) (take-take m n xs (omega arith))

-- Climbing out of the last `n` directories.
resolve_parts_ups :
    (n : ℕ) (segments : List Bytes)
    → n ≤ length segments
    → resolve_parts segments (replicate n (codes "..")) ≡ take (length segments - n) segments
resolve_parts_ups zero segments h = unfold resolve_parts in sym (take_all _ segments (omega arith))
resolve_parts_ups (suc n) segments h =
    let fewer : length (pop segments) ≡ length segments - 1 =
      omega (arith, length-take (length segments - 1) segments) in
    let left : length segments - 1 - n ≡ length segments - suc n = omega arith in
    resolve_parts-cons segments (codes "..") (replicate n (codes ".."))
    ∙ (ap (λ s. resolve_parts s (replicate n (codes ".."))) (resolve_part_up segments)
        ∙ (resolve_parts_ups n (pop segments) (omega arith)
            ∙ (ap (λ k. take (k - n) (pop segments)) fewer
                ∙ (take-take (length segments - 1 - n) (length segments - 1) segments (omega arith)
                    ∙ ap (λ k. take k segments) left))))

common_sound :
    (from to : List Bytes)
    → (common from to ≤ length from) × (take (common from to) from ≡ take (common from to) to)
unfolding common
common_sound [] to = (omega arith, refl)
common_sound (d ∷ ds) [] = (omega arith, refl)
common_sound (d ∷ ds) (t ∷ ts) = elim (Bool-cases (d == t)) [
  | inl e ↦
      let (le, same) = common_sound ds ts in rw e (omega arith, cc (same, (list_beq_iff d t).0 e))
  | inr e ↦ rw e (omega arith, refl)
]

-- The parts with the suffix on the last name.
abbrev pub file_parts : List Bytes → List Bytes → List Bytes
file_parts from ss =
    let k = common from (pop ss) in
    replicate (length from - k) (codes "..")
    ++ (drop k (pop ss) ++ (last_or [] ss ++ markdown_extension) ∷ [])

pub resolve_file_parts :
    (from ss : List Bytes)
    → All IsFileName (pop ss)
    → IsFileName (last_or [] ss ++ markdown_extension)
    → resolve_parts from (file_parts from ss) ≡ pop ss ++ (last_or [] ss ++ markdown_extension) ∷ []
resolve_file_parts from ss h l =
    let k = common from (pop ss) in
    let (le, same) = common_sound from (pop ss) in
    let back : length from - (length from - k) ≡ k = omega arith in
    let names = drop k (pop ss) ++ (last_or [] ss ++ markdown_extension) ∷ [] in
    resolve_parts-append from (replicate (length from - k) (codes "..")) names
    ∙ (ap (λ s. resolve_parts s names)
          (resolve_parts_ups (length from - k) from (omega arith)
            ∙ (ap (λ n. take n from) back ∙ same))
        ∙ (resolve_parts_names (take k (pop ss)) names
              (All-append IsFileName (drop k (pop ss)) _ (All-drop IsFileName k (pop ss) h) (l, tt))
            ∙ (sym (append_assoc (take k (pop ss)) (drop k (pop ss)) _)
                ∙ ap (λ t. t ++ (last_or [] ss ++ markdown_extension) ∷ [])
                    (take-append-drop k (pop ss)))))
