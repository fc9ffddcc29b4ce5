-- ===== src/ClientService/Config/Validate/Passes.antt =====
-- When each test of the validation finds no issue.
use agentspace.Common.{
  ◌≡◌, refl, ◌↔◌, ◌⊎◌, inl, inr, Bool, true, false, not, ◌&&◌, Option, none, some, List, [], ◌∷◌,
  ◌++◌, All, nat_eq, list_eq, option_eq, contains, Bytes,
}
use agentspace.ClientService.Config.Document.{EnvEntries}
use agentspace.ClientService.Config.Validate.{
  ValidationIssue, Issues, for_each, issue_if, validate_env_exclusive, reference_issue,
  env_conflict,
}
use agentspace.ClientService.Config.Validate.Consistent.{Resolves, IsExclusive}

append_iff : {A : Type 0} (xs ys : List A) → (xs ++ ys ≡ []) ↔ ((xs ≡ []) × (ys ≡ []))
append_iff [] ys = ((λ h. (refl, h)), (λ (_, h). h))
append_iff (x ∷ xs) ys = ((λ h. cc), (λ (h, _). cc))

pub and_iff :
    {P Q : Type 0} (xs ys : Issues) → ((xs ≡ []) ↔ P) → ((ys ≡ []) ↔ Q) → (xs ++ ys ≡ []) ↔ (P × Q)
and_iff xs ys p q =
    let both = append_iff xs ys in
    ((λ h. let (x, y) = both.0 h in (p.0 x, q.0 y)), (λ (x, y). both.1 (p.1 x, q.1 y)))

pub for_each_iff :
    {A : Type 0} (P : A → Type 0) (f : A → Issues) (xs : List A)
    → ((x : A) → (f x ≡ []) ↔ P x)
    → (for_each f xs ≡ []) ↔ All P xs
for_each_iff P f [] h = ((λ _. tt), (λ _. refl))
for_each_iff P f (x ∷ xs) h = and_iff (f x) (for_each f xs) (h x) (for_each_iff P f xs h)

pub issue_if_iff : (b : Bool) (issue : ValidationIssue) → (issue_if b issue ≡ []) ↔ (b ≡ false)
issue_if_iff true issue = ((λ h. cc), (λ h. cc))
issue_if_iff false issue = ((λ _. refl), (λ _. refl))

pub issue_unless_iff :
    (b : Bool) (issue : ValidationIssue) → (issue_if (not b) issue ≡ []) ↔ (b ≡ true)
issue_unless_iff true issue = ((λ _. refl), (λ _. refl))
issue_unless_iff false issue = ((λ h. cc), (λ h. cc))

pub reference_iff :
    (ids : List Bytes) (issue : Bytes → ValidationIssue) (o : Option Bytes)
    → (reference_issue ids issue o ≡ []) ↔ Resolves ids o
reference_iff ids issue none = ((λ _. tt), (λ _. refl))
reference_iff ids issue (some id) = issue_unless_iff (contains ids id) (issue id)

pub IsExclusive-iff :
    (resource : Bytes) (env : Option EnvEntries) (env_text : Option Bytes)
    → (validate_env_exclusive resource env env_text ≡ []) ↔ IsExclusive env env_text
unfolding validate_env_exclusive
IsExclusive-iff resource none env_text = ((λ _. inl refl), (λ _. refl))
IsExclusive-iff resource (some env) none = ((λ _. inr refl), (λ _. refl))
IsExclusive-iff resource (some env) (some text) = ((λ h. cc), neither)
  where
    neither : IsExclusive (some env) (some text) → env_conflict resource ∷ [] ≡ []
    neither (inl h) = cc
    neither (inr h) = cc

pub skill_iff :
    (check known builtin : Bool) (issue : ValidationIssue)
    → (issue_if (check && not known && not builtin) issue ≡ [])
      ↔ (check ≡ true → (known ≡ true) ⊎ (builtin ≡ true))
skill_iff false known builtin issue = ((λ _ h. cc), (λ _. refl))
skill_iff true true builtin issue = ((λ _ _. inl refl), (λ _. refl))
skill_iff true false true issue = ((λ _ _. inr refl), (λ _. refl))
skill_iff true false false issue = ((λ h. cc), (λ h. impossible (h refl)))
  where
    impossible : (◌≡◌ {A = Bool} false true) ⊎ (◌≡◌ {A = Bool} false true) → issue ∷ [] ≡ []
    impossible (inl k) = cc
    impossible (inr k) = cc

pub All_under :
    {A : Type 0} (P : A → Type 0) (check : Bool) (xs : List A)
    → All (λ x. check ≡ true → P x) xs ↔ (check ≡ true → All P xs)
All_under P check [] = ((λ _ _. tt), (λ _. tt))
All_under P check (x ∷ xs) =
    let rest = All_under P check xs in
    ((λ (h, hs) e. (h e, rest.0 hs e)), (λ h. ((λ e. (h e).0), rest.1 (λ e. (h e).1))))
