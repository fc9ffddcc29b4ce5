-- ===== src/Memory/Service/Referrers.antt =====
-- The pages that a move rewrites, and those that it leaves (`replacements_of`).
use agentspace.Common.{
  ◌≡◌, refl, sym, ap, ◌⊎◌, inl, inr, Bool, true, false, ◌||◌, some, List, [], ◌∷◌, arith,
  Bool-cases, All, ◌==◌, nat_eq, list_eq, option_eq, contains, ok, err, and_then-eq-ok, Bytes,
}
use mathlib.Core.Path.{subst}
use agentspace.Memory.Crates.{Crates}
use agentspace.Memory.Error.{M}
use agentspace.Memory.Path.{PagePath, as_str, path_eq}
use agentspace.Memory.Model.{PageMetadata, MovePageRequest}
use agentspace.Memory.Frontmatter.{parse_document, render_document}
use agentspace.Memory.Store.{MemoryStore, StoreLaws}
use agentspace.Memory.Service.Pages.{Replacements, replacements_of, rewrite_page, add_if_changed}
use agentspace.Memory.Links.{rewrite_links}
use agentspace.Memory.Store.{paths_of}

module _ (c : Crates) (store : MemoryStore) (laws : StoreLaws c store) where
  -- A page that a move rewrites: its document with the links to the source led to the destination.
  pub record IsRewritten (request : MovePageRequest) (s : store.State) (path : PagePath)
      (new_bytes : Bytes) : Type 0 where
    pub old_bytes : Bytes
    pub metadata : PageMetadata c
    pub body : Bytes
    pub held : laws.contents path s ≡ some old_bytes
    pub parsed : parse_document c old_bytes (as_str path) ≡ ok (metadata, body)
    pub changed : (rewrite_links path body request.source request.destination).1 ≡ true
    pub rendered :
        render_document c metadata (rewrite_links path body request.source request.destination).0
        ≡ ok new_bytes

  -- A page that a move leaves: no document of a page, or none with a link to the source.
  pub IsUnaffected : MovePageRequest → store.State → PagePath → Type 0
  IsUnaffected request s path =
      (bytes : Bytes) × (laws.contents path s ≡ some bytes)
      × ((metadata : PageMetadata c) (body : Bytes)
          → parse_document c bytes (as_str path) ≡ ok (metadata, body)
          → (rewrite_links path body request.source request.destination).1 ≡ false)

  -- What one page adds to the replacements.
  Added :
      MovePageRequest
      → store.State
      → PagePath
      → M (Replacements c store)
      → Replacements c store
      → Type 0
  Added request s path rest reps =
      ((rest ≡ ok reps) × IsUnaffected request s path)
      ⊎ ((new_bytes : Bytes) × (others : Replacements c store) × (rest ≡ ok others)
          × (reps ≡ (path, new_bytes) ∷ others)
          × IsRewritten request s path new_bytes)

  add_if_changed-Added :
      (request : MovePageRequest) (s : store.State) (path : PagePath) (old_bytes : Bytes)
      (metadata : PageMetadata c) (body : Bytes) (rewritten : Bytes × Bool)
      (rest : M (Replacements c store)) (reps : Replacements c store)
      → laws.contents path s ≡ some old_bytes
      → parse_document c old_bytes (as_str path) ≡ ok (metadata, body)
      → rewrite_links path body request.source request.destination ≡ rewritten
      → add_if_changed c store path metadata rewritten rest ≡ ok reps
      → Added request s path rest reps
  unfolding Added IsUnaffected
  add_if_changed-Added request s path old_bytes metadata body (new_body, false) rest reps held
        parsed e h =
      inl (
        h,
        (
          old_bytes,
          held,
          λ metadata' body' parsed'. let same : body ≡ body' = cc in rw (← same, e) refl,
        ),
      )
  add_if_changed-Added request s path old_bytes metadata body (new_body, true) rest reps held parsed
        e h =
      let (new_bytes, rendered, after) = and_then-eq-ok (render_document c metadata new_body) _ h in
      let (others, has, same) = and_then-eq-ok rest _ after in
      inr (
        new_bytes,
        others,
        has,
        cc,
        record {
          old_bytes = old_bytes;
          metadata = metadata;
          body = body;
          held = held;
          parsed = parsed;
          changed = ap (λ r. r.1) e;
          rendered = rw e rendered;
        },
      )

  rewrite_page-Added :
      (request : MovePageRequest) (s : store.State) (path : PagePath) (old_bytes : Bytes)
      (document : M (PageMetadata c × Bytes)) (rest : M (Replacements c store))
      (reps : Replacements c store)
      → laws.contents path s ≡ some old_bytes
      → parse_document c old_bytes (as_str path) ≡ document
      → rewrite_page c store request path document rest ≡ ok reps
      → Added request s path rest reps
  unfolding rewrite_page Added IsUnaffected
  rewrite_page-Added request s path old_bytes (err e) rest reps held parsed h =
      inl (h, (old_bytes, held, λ metadata body other. cc))
  rewrite_page-Added request s path old_bytes (ok (metadata, body)) rest reps held parsed h =
      add_if_changed-Added request s path old_bytes metadata body _ rest reps held parsed refl h

  -- What a move does with a page of the list.
  pub IsHandled : MovePageRequest → store.State → List PagePath → PagePath → Type 0
  IsHandled request s rewritten path =
      (path ≡ request.source) ⊎ ((contains rewritten path ≡ true) ⊎ IsUnaffected request s path)

  IsHandled-more :
      (request : MovePageRequest) (s : store.State) (rewritten : List PagePath) (more : PagePath)
      (paths : List PagePath)
      → All (IsHandled request s rewritten) paths
      → All (IsHandled request s (more ∷ rewritten)) paths
  unfolding IsHandled contains
  IsHandled-more request s rewritten more [] h = tt
  IsHandled-more request s rewritten more (path ∷ paths) (h, hs) =
      (one h, IsHandled-more request s rewritten more paths hs)
    where
      one : IsHandled request s rewritten path → IsHandled request s (more ∷ rewritten) path
      one (inl e) = inl e
      one (inr (inl e)) = inr (inl (ground arith))
      one (inr (inr u)) = inr (inr u)

  pub Rewrites : MovePageRequest → store.State → List PagePath → Replacements c store → Type 0
  Rewrites request s paths reps =
      All (λ (path, new_bytes). IsRewritten request s path new_bytes) reps
      × All (IsHandled request s (paths_of reps)) paths

  Rewrites-Added :
      (request : MovePageRequest) (s : store.State) (path : PagePath) (paths : List PagePath)
      (rest : M (Replacements c store)) (reps : Replacements c store)
      → ((others : Replacements c store) → rest ≡ ok others → Rewrites request s paths others)
      → Added request s path rest reps
      → Rewrites request s (path ∷ paths) reps
  unfolding Added Rewrites IsHandled contains
  Rewrites-Added request s path paths rest reps before (inl (same, unaffected)) =
      let (rewritten, handled) = before reps same in (rewritten, (inr (inr unaffected), handled))
  Rewrites-Added request s path paths rest reps before
        (inr (new_bytes, others, same, e, rewritten_here)) =
      let (rewritten, handled) = before others same in
      subst (Rewrites request s (path ∷ paths)) (sym e) (
        (rewritten_here, rewritten),
        (
          inr (
              inl (
                ap (λ b. b || contains (paths_of others) path)
                  ((path_eq.eq_iff path path).1 refl))),
          IsHandled-more request s (paths_of others) path paths handled,
        ),
      )

  pub replacements_of-Rewrites :
      (request : MovePageRequest) (s : store.State) (paths : List PagePath)
      (reps : Replacements c store)
      → replacements_of c store request s paths ≡ ok reps
      → Rewrites request s paths reps
  unfolding replacements_of Rewrites IsHandled
  replacements_of-Rewrites request s [] [] h = (tt, tt)
  replacements_of-Rewrites request s [] (r ∷ rs) h = cc
  replacements_of-Rewrites request s (path ∷ paths) reps h =
      elim (Bool-cases (path == request.source)) [
        | inl e ↦
            let (rewritten, handled) = replacements_of-Rewrites request s paths reps (rw e at h) in
            (rewritten, (inl ((path_eq.eq_iff path request.source).0 e), handled))
        | inr e ↦
            let ((old_bytes, revision), found, after_read) =
              and_then-eq-ok (store.read_bytes path s) _ (rw e at h) in
            let (held, _) = laws.read_ok path s old_bytes revision found in
            Rewrites-Added request s path paths (replacements_of c store request s paths) reps
              (λ others. replacements_of-Rewrites request s paths others)
              (rewrite_page-Added request s path old_bytes _ _ reps held refl after_read)
      ]
