-- ===== src/Memory/Service/Query/Limit.antt =====
-- A query returns the first results, in the order of the pages, up to its limit.
use agentspace.Common.{
  ℕ, suc, ◌-◌, ◌≤◌, ◌≡◌, refl, ap, ◌∙◌, inl, inr, List, [], ◌∷◌, arith, leb, le→ltb-false,
  Bool-cases, length, take, nat_eq, list_eq, option_eq, ok, err, ◌>>=◌,
}
use agentspace.Memory.Crates.{Crates}
use agentspace.Memory.Error.{M}
use agentspace.Memory.Path.{PagePath, path_eq}
use agentspace.Memory.Model.{PageSummary, QueryRequest}
use agentspace.Memory.Store.{MemoryStore}
use agentspace.Memory.Service.Query.{
  max_query_length, Verdict, skip, fail, hit, next, collect, page_verdict, limit_of, query_pages,
}

abbrev outcome : (c : Crates) → Verdict c → List (M (PageSummary c)) → List (M (PageSummary c))
outcome c skip rest = rest
outcome c (fail e) rest = err e ∷ rest
outcome c (hit x) rest = ok x ∷ rest

-- The results and the failures of the pages, in their order.
unfoldable pub outcomes :
    (c : Crates) → (PagePath → Verdict c) → List PagePath → List (M (PageSummary c))
outcomes c verdict [] = []
outcomes c verdict (path ∷ paths) = outcome c (verdict path) (outcomes c verdict paths)

-- All results, or the first failure.
unfoldable pub all_ok : {A : Type 0} → List (M A) → M (List A)
all_ok [] = ok []
all_ok (r ∷ rs) = do x ← r; xs ← all_ok rs; ok (x ∷ xs)

-- The limit as the loop keeps it: it stops behind a result, so that it returns one at least.
abbrev pub at_least_one : ℕ → ℕ
at_least_one n = suc (n - 1)

module _ (c : Crates) (verdict : PagePath → Verdict c) where
  next-outcome :
      (limit count : ℕ) (paths : List PagePath) (v : Verdict c)
      → ((n : ℕ)
          → collect c verdict limit n paths
            ≡ all_ok (take (at_least_one (limit - n)) (outcomes c verdict paths)))
      → next c (λ n. collect c verdict limit n paths) limit count v
        ≡ all_ok (take (at_least_one (limit - count)) (outcome c v (outcomes c verdict paths)))
  next-outcome limit count paths skip h = h count
  next-outcome limit count paths (fail e) h = unfold all_ok in refl
  next-outcome limit count paths (hit x) h = elim (Bool-cases (leb limit (suc count))) [
    | inl e ↦
        let last : (limit - count) - 1 ≡ 0 = ground arith in rw (e, last) (unfold all_ok in refl)
    | inr e ↦
        let more : (limit - count) - 1 ≡ at_least_one (limit - suc count) = ground arith in
        rw (e, more, h (suc count)) (unfold all_ok in refl)
  ]

  collect-outcomes :
      (limit count : ℕ) (paths : List PagePath)
      → collect c verdict limit count paths
        ≡ all_ok (take (at_least_one (limit - count)) (outcomes c verdict paths))
  unfolding collect outcomes
  collect-outcomes limit count [] = unfold all_ok in refl
  collect-outcomes limit count (path ∷ paths) =
      next-outcome limit count paths (verdict path) (λ n. collect-outcomes limit n paths)

-- A query of at most 512 bytes returns the summaries of the pages that match, in the order of the
-- list of pages, up to its limit and at least one, or the first failure among these.
pub query_pages-outcomes :
    (c : Crates) (store : MemoryStore) (request : QueryRequest) (s : store.State)
    → length request.text ≤ max_query_length
    → query_pages c store request s ≡ (
        store.list_pages s >>= λ pages. all_ok (
          take
            (at_least_one (limit_of c store request))
            (outcomes c (page_verdict c store request s) pages)))
unfolding query_pages
query_pages-outcomes c store request s short =
    rw (le→ltb-false max_query_length (length request.text) short) (by_list (store.list_pages s))
  where
    from_zero : (n : ℕ) → n - 0 ≡ n
    from_zero n = omega arith

    by_list :
        (listed : M (List PagePath))
        → (listed >>= λ pages.
            collect c (page_verdict c store request s) (limit_of c store request) 0 pages)
          ≡ (listed >>= λ pages. all_ok (
              take
                (at_least_one (limit_of c store request))
                (outcomes c (page_verdict c store request s) pages)))
    by_list (err e) = refl
    by_list (ok pages) =
        collect-outcomes c (page_verdict c store request s) (limit_of c store request) 0 pages
        ∙ ap
            (λ n.
              all_ok (take (at_least_one n) (outcomes c (page_verdict c store request s) pages)))
            (from_zero (limit_of c store request))
