-- ===== src/Memory/Frontmatter/Body.antt =====
-- `normalize_body`: the canonical form of a body.
use agentspace.Common.{
  ◌≡◌, refl, ap, ◌∙◌, inl, inr, [], ◌∷◌, ◌++◌, Bool-cases, ◌==◌, nat_eq, list_beq, list_eq,
  option_eq, Bytes,
}
use mathlib.Core.List.{reverse, reverse-append, reverse-reverse}
use agentspace.Memory.Frontmatter.{newline, drop_newlines, trim_end_newlines, normalize_body}

drop_newlines_idem : (s : Bytes) → drop_newlines (drop_newlines s) ≡ drop_newlines s
unfolding drop_newlines
drop_newlines_idem [] = refl
drop_newlines_idem (b ∷ s) = elim (Bool-cases (b == newline)) [
  | inl e ↦ rw e (drop_newlines_idem s)
  | inr e ↦ rw (e, e) refl
]

drop_newlines-newline : (s : Bytes) → drop_newlines (newline ∷ s) ≡ drop_newlines s
unfolding drop_newlines
drop_newlines-newline s = refl

trim_end_newlines-newline :
    (s : Bytes) → trim_end_newlines (trim_end_newlines s ++ newline ∷ []) ≡ trim_end_newlines s
unfolding trim_end_newlines
trim_end_newlines-newline s =
    ap (λ t. reverse (drop_newlines t))
      (reverse-append (reverse (drop_newlines (reverse s))) (newline ∷ []))
    ∙ rw (reverse-reverse (drop_newlines (reverse s))) (
        ap reverse
          (drop_newlines-newline (drop_newlines (reverse s)) ∙ drop_newlines_idem (reverse s)))

-- A body in canonical form is its own canonical form.
pub normalize_body_idem :
    (body : Bytes) → normalize_body (normalize_body body) ≡ normalize_body body
unfolding normalize_body list_beq trim_end_newlines drop_newlines
normalize_body_idem body = elim (Bool-cases (trim_end_newlines body == [])) [
  | inl e ↦ rw e refl
  | inr e ↦ rw (e, trim_end_newlines-newline body, e) refl
]
