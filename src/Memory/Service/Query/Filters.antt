-- ===== src/Memory/Service/Query/Filters.antt =====
-- What a page has that a query returns.
use agentspace.Common.{
  ℕ, suc, ◌≡◌, refl, inl, inr, Bool, true, false, not, ◌&&◌, List, [], ◌∷◌, map, ltb, leb,
  Bool-cases, length, All, ◌==◌, nat_eq, list_beq, list_eq, option_eq, contains, ok, err,
  and_then-eq-ok, ok-injective, Bytes,
}
use mathlib.Core.Path.{subst}
use agentspace.Memory.Crates.{Crates}
use agentspace.Memory.Error.{M, too_large}
use agentspace.Memory.Path.{PagePath, as_str, path_eq}
use agentspace.Memory.Model.{PageMetadata, PageSummary, QueryRequest}
use agentspace.Memory.Frontmatter.{parse_document}
use agentspace.Memory.Store.{MemoryStore}
use agentspace.Memory.Service.{fail_if, normalize_tag}
use agentspace.Memory.Service.Query.{
  Verdict, skip, fail, hit, next, collect, judge, judge_read, has_all, has_text, haystack, excluded,
  summary, page_verdict, limit_of, query_pages, max_query_length,
}

module _ (c : Crates) (verdict : PagePath → Verdict c) where
  abbrev IsHit : PageSummary c → Type 0
  IsHit x = (path : PagePath) × (verdict path ≡ hit x)

  next-IsHit :
      (look : ℕ → M (List (PageSummary c))) (limit count : ℕ) (path : PagePath) (v : Verdict c)
      (xs : List (PageSummary c))
      → ((n : ℕ) (ys : List (PageSummary c)) → look n ≡ ok ys → All IsHit ys)
      → verdict path ≡ v
      → next c look limit count v ≡ ok xs
      → All IsHit xs
  next-IsHit look limit count path skip xs rest e h = rest count xs h
  next-IsHit look limit count path (fail d) xs rest e h = cc
  next-IsHit look limit count path (hit x) xs rest e h = elim (Bool-cases (leb limit (suc count))) [
    | inl k ↦ subst (All IsHit) (ok-injective _ _ (rw k at h)) ((path, e), tt)
    | inr k ↦
        let (ys, found, same) = and_then-eq-ok (look (suc count)) _ (rw k at h) in
        subst (All IsHit) (ok-injective _ _ same) ((path, e), rest (suc count) ys found)
  ]

  collect-IsHit :
      (limit : ℕ) (paths : List PagePath) (count : ℕ) (xs : List (PageSummary c))
      → collect c verdict limit count paths ≡ ok xs
      → All IsHit xs
  unfolding collect
  collect-IsHit limit [] count [] h = tt
  collect-IsHit limit [] count (x ∷ xs) h = cc
  collect-IsHit limit (path ∷ paths) count xs h =
      next-IsHit (λ n. collect c verdict limit n paths) limit count path (verdict path) xs
        (λ n. collect-IsHit limit paths n) refl h

module _ (c : Crates) (store : MemoryStore) (request : QueryRequest) (s : store.State) where
  -- A summary of a page that passes each filter of the request.
  pub record IsMatch (x : PageSummary c) : Type 0 where
    pub path : PagePath
    pub bytes : Bytes
    pub revision : Bytes
    pub metadata : PageMetadata c
    pub body : Bytes
    pub readable : store.read_bytes path s ≡ ok (bytes, revision)
    pub parsed : parse_document c bytes (as_str path) ≡ ok (metadata, body)
    pub below : excluded request.filter.under path ≡ false
    pub tagged : has_all (map (normalize_tag c) request.filter.with_tags) metadata.tags ≡ true
    pub worded : has_text c (c.to_lowercase request.text) (haystack c path metadata body) ≡ true
    pub shown : summary c path metadata ≡ x

  tags_pass :
      (wanted tags : List Bytes)
      → (not (wanted == []) && not (has_all wanted tags)) ≡ false
      → has_all wanted tags ≡ true
  unfolding has_all list_beq
  tags_pass [] tags h = refl
  tags_pass (w ∷ wanted) tags h = flip (contains tags w && has_all wanted tags) h
    where
      flip : (b : Bool) → not b ≡ false → b ≡ true
      flip true k = refl
      flip false k = cc

  judge-IsMatch :
      (path : PagePath) (bytes revision : Bytes) (document : M (PageMetadata c × Bytes))
      (x : PageSummary c)
      → excluded request.filter.under path ≡ false
      → store.read_bytes path s ≡ ok (bytes, revision)
      → parse_document c bytes (as_str path) ≡ document
      → judge c
          (c.to_lowercase request.text)
          (map (normalize_tag c) request.filter.with_tags)
          path
          document
        ≡ hit x
      → IsMatch x
  unfolding judge
  judge-IsMatch path bytes revision (err e) x below r p h = cc
  judge-IsMatch path bytes revision (ok (metadata, body)) x below r p h =
      elim (Bool-cases (not (wanted == []) && not (has_all wanted metadata.tags))) [
        | inl k ↦ absurd (skip≢hit (rw k at h))
        | inr k ↦
            elim (Bool-cases
              (has_text c (c.to_lowercase request.text) (haystack c path metadata body))) [
                | inl l ↦ record {
                  path = path;
                  bytes = bytes;
                  revision = revision;
                  metadata = metadata;
                  body = body;
                  readable = r;
                  parsed = p;
                  below = below;
                  tagged = tags_pass wanted metadata.tags k;
                  worded = l;
                  shown = hit-injective (rw (k, l) at h);
                }
                | inr l ↦ absurd (skip≢hit (rw (k, l) at h))
              ]
      ]
    where
      wanted : List Bytes
      wanted = map (normalize_tag c) request.filter.with_tags

      skip≢hit : {x : PageSummary c} → ◌≡◌ {A = Verdict c} skip (hit x) → ⊥
      skip≢hit h = cc

      hit-injective : {x y : PageSummary c} → ◌≡◌ {A = Verdict c} (hit x) (hit y) → x ≡ y
      hit-injective h = cc

  page_verdict-IsMatch :
      (path : PagePath) (x : PageSummary c)
      → page_verdict c store request s path ≡ hit x
      → IsMatch x
  unfolding page_verdict
  page_verdict-IsMatch path x h = elim (Bool-cases (excluded request.filter.under path)) [
    | inl e ↦ cc
    | inr e ↦ of_read (store.read_bytes path s) refl e (rw e at h)
  ]
    where
      of_read :
          (read : M (Bytes × Bytes))
          → store.read_bytes path s ≡ read
          → excluded request.filter.under path ≡ false
          → judge_read c
              (c.to_lowercase request.text)
              (map (normalize_tag c) request.filter.with_tags)
              path
              read
            ≡ hit x
          → IsMatch x
      of_read (err e) r below k = cc
      of_read (ok (bytes, revision)) r below k =
          judge-IsMatch path bytes revision _ x below r refl k

  all-IsMatch :
      (xs : List (PageSummary c))
      → All (IsHit c (page_verdict c store request s)) xs
      → All IsMatch xs
  all-IsMatch [] h = tt
  all-IsMatch (x ∷ xs) ((path, here), h) = (page_verdict-IsMatch path x here, all-IsMatch xs h)

  -- Each summary that a query returns is that of a page that can be read and parsed, lies below the
  -- given path, has every tag of the filter in normalized form, and contains the text in lower case.
  pub query_pages-IsMatch :
      (xs : List (PageSummary c)) → query_pages c store request s ≡ ok xs → All IsMatch xs
  unfolding query_pages
  query_pages-IsMatch xs h =
      let (_, _, after_length) =
        and_then-eq-ok
          (fail_if (ltb max_query_length (length request.text))
            (too_large "query text" max_query_length))
          _ h in
      let (pages, _, collected) = and_then-eq-ok (store.list_pages s) _ after_length in
      all-IsMatch xs (
        collect-IsHit c (page_verdict c store request s) (limit_of c store request) pages 0 xs
          collected)
