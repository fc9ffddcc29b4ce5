-- ===== src/Memory/Service/Check/Clean.antt =====
-- What a clean report means.
use agentspace.Common.{
  ◌≡◌, refl, sym, ap, ◌∙◌, ◌≢◌, inl, inr, Bool, true, false, ◌||◌, Option, none, some, List, [],
  ◌∷◌, ◌++◌, arith, Bool-cases, All, ◌==◌, nat_eq, option_beq, list_eq, option_eq, contains, ok,
  err, and_then-eq-ok, ok-injective, Bytes,
}
use mathlib.Core.Path.{subst}
use mathlib.Core.Option.{some-injective}
use agentspace.Memory.Crates.{Crates}
use agentspace.Memory.Error.{M}
use agentspace.Memory.Path.{PagePath, as_str, path_eq}
use agentspace.Memory.Model.{PageMetadata}
use agentspace.Memory.Frontmatter.{parse_document}
use agentspace.Memory.Links.{ParsedLink, parse_links}
use agentspace.Memory.Store.{MemoryStore, ScannedFile}
use agentspace.Memory.Service.Check.{
  CheckIssue, CheckReport, segments_ltb, insert_path, valid_paths, name_issues, tag_issues,
  link_issues, page_issues, all_page_issues, check, is_clean, link_issue, name_issue,
  document_issues, insert_parsed,
}

append-eq-nil {ℓ} : {A : Type ℓ} (xs ys : List A) → xs ++ ys ≡ [] → (xs ≡ []) × (ys ≡ [])
append-eq-nil [] ys h = (refl, h)
append-eq-nil (x ∷ xs) ys h = cc

-- Tags without repetition, none of which was seen before.
pub IsFresh : List Bytes → List Bytes → Type 0
IsFresh seen [] = Unit
IsFresh seen (tag ∷ tags) = (contains seen tag ≡ false) × IsFresh (tag ∷ seen) tags

-- A link within the store leads to one of the pages.
pub LeadsTo : List PagePath → ParsedLink → Type 0
LeadsTo pages link =
    (target : PagePath) → link.resolved ≡ some target → contains pages target ≡ true

nonempty : {x : CheckIssue} {xs : List CheckIssue} → (x ∷ xs) ≢ []
nonempty h = cc

tag_issues-IsFresh :
    (path : PagePath) (seen tags : List Bytes) → tag_issues path seen tags ≡ [] → IsFresh seen tags
unfolding tag_issues IsFresh
tag_issues-IsFresh path seen [] h = tt
tag_issues-IsFresh path seen (tag ∷ tags) h = elim (Bool-cases (contains seen tag)) [
  | inl e ↦ cc
  | inr e ↦ (e, tag_issues-IsFresh path (tag ∷ seen) tags (rw e at h))
]

link_issues-LeadsTo :
    (path : PagePath) (pages : List PagePath) (links : List ParsedLink)
    → link_issues path pages links ≡ []
    → All (LeadsTo pages) links
unfolding link_issues LeadsTo
link_issues-LeadsTo path pages [] h = tt
link_issues-LeadsTo path pages (link ∷ links) h =
    let (none_here, none_behind) = append-eq-nil _ (link_issues path pages links) h in
    (of_link link.resolved none_here, link_issues-LeadsTo path pages links none_behind)
  where
    of_link :
        (resolved : Option PagePath)
        → link_issue path pages resolved ≡ []
        → (target : PagePath) → resolved ≡ some target
        → contains pages target ≡ true
    of_link none h target e = cc
    of_link (some found) h target e = elim (Bool-cases (contains pages found)) [
      | inl k ↦ ap (contains pages) (some-injective _ _ (sym e)) ∙ k
      | inr k ↦ absurd (nonempty (rw k at h))
    ]

-- Is the page among the scanned files?
unfoldable pub is_scanned : List ScannedFile → PagePath → Bool
is_scanned [] t = false
is_scanned (entry ∷ entries) t = (entry.parsed == some t) || is_scanned entries t

contains-insert_path :
    (p : PagePath) (qs : List PagePath) (t : PagePath)
    → contains (insert_path p qs) t ≡ ((p == t) || contains qs t)
unfolding insert_path contains
contains-insert_path p [] t = refl
contains-insert_path p (q ∷ qs) t = elim (Bool-cases (p == q)) [
  | inl e ↦ rw (e, (path_eq.eq_iff p q).0 e) (or_same (q == t) (contains qs t))
  | inr e ↦ elim (Bool-cases (segments_ltb p.segments q.segments)) [
    | inl k ↦ rw (e, k) refl
    | inr k ↦ rw (e, k, contains-insert_path p qs t) (or_swap (q == t) (p == t) (contains qs t))
  ]
]
  where
    or_same : (a d : Bool) → (a || d) ≡ (a || (a || d))
    or_same a d = ground arith

    or_swap : (a b d : Bool) → (a || (b || d)) ≡ (b || (a || d))
    or_swap a b d = ground arith

contains-valid_paths :
    (entries : List ScannedFile) (t : PagePath)
    → contains (valid_paths entries) t ≡ is_scanned entries t
unfolding valid_paths is_scanned contains
contains-valid_paths [] t = refl
contains-valid_paths (entry ∷ entries) t = of_entry entry.parsed (contains-valid_paths entries t)
  where
    of_entry :
        (parsed : Option PagePath)
        → contains (valid_paths entries) t ≡ is_scanned entries t
        → contains (insert_parsed parsed (valid_paths entries)) t
          ≡ ((parsed == some t) || is_scanned entries t)
    of_entry none h = unfold option_beq in h
    of_entry (some p) h =
        contains-insert_path p (valid_paths entries) t
        ∙ (unfold option_beq in ap (λ d. (p == t) || d) h)

module _ (c : Crates) (store : MemoryStore) where
  -- A page that can be read and parsed, without a repeated tag, whose links lead to pages.
  pub record IsSound (s : store.State) (pages : List PagePath) (path : PagePath) : Type 0 where
    pub bytes : Bytes
    pub revision : Bytes
    pub metadata : PageMetadata c
    pub body : Bytes
    pub readable : store.read_bytes path s ≡ ok (bytes, revision)
    pub parsed : parse_document c bytes (as_str path) ≡ ok (metadata, body)
    pub fresh : IsFresh [] metadata.tags
    pub linked : All (LeadsTo pages) (parse_links path body)

  page_issues-IsSound :
      (s : store.State) (pages : List PagePath) (path : PagePath) (read : M (Bytes × Bytes))
      → store.read_bytes path s ≡ read
      → page_issues c path pages read ≡ []
      → IsSound s pages path
  unfolding page_issues
  page_issues-IsSound s pages path (err e) r h = cc
  page_issues-IsSound s pages path (ok (bytes, revision)) r h =
      of_document (parse_document c bytes (as_str path)) refl h
    where
      of_document :
          (document : M (PageMetadata c × Bytes))
          → parse_document c bytes (as_str path) ≡ document
          → document_issues c path pages document ≡ []
          → IsSound s pages path
      of_document (err e) p h = cc
      of_document (ok (metadata, body)) p h =
          let (tags_fine, links_fine) = append-eq-nil (tag_issues path [] metadata.tags) _ h in
          record {
            bytes = bytes;
            revision = revision;
            metadata = metadata;
            body = body;
            readable = r;
            parsed = p;
            fresh = tag_issues-IsFresh path [] metadata.tags tags_fine;
            linked = link_issues-LeadsTo path pages (parse_links path body) links_fine;
          }

  all_page_issues-IsSound :
      (s : store.State) (pages paths : List PagePath) (path : PagePath)
      → all_page_issues c store s pages paths ≡ []
      → contains paths path ≡ true
      → IsSound s pages path
  unfolding all_page_issues contains
  all_page_issues-IsSound s pages [] path h found = cc
  all_page_issues-IsSound s pages (p ∷ paths) path h found =
      let (here, behind) = append-eq-nil (page_issues c p pages (store.read_bytes p s)) _ h in
      elim (Bool-cases (p == path)) [
        | inl e ↦
            subst (IsSound s pages) ((path_eq.eq_iff p path).0 e)
              (page_issues-IsSound s pages p (store.read_bytes p s) refl here)
        | inr e ↦ all_page_issues-IsSound s pages paths path behind (rw e at found)
      ]

  -- What a scanned file is in a clean store: a page with a valid path that is sound.
  pub IsPage : store.State → List PagePath → ScannedFile → Type 0
  IsPage s pages entry = (path : PagePath) × (entry.parsed ≡ some path) × IsSound s pages path

  name_issues-parsed :
      (entries : List ScannedFile)
      → name_issues entries ≡ []
      → All (λ entry. (path : PagePath) × (entry.parsed ≡ some path)) entries
  unfolding name_issues
  name_issues-parsed [] h = tt
  name_issues-parsed (entry ∷ entries) h =
      let (here, behind) = append-eq-nil (name_issue entry entry.parsed) _ h in
      (of_entry entry.parsed here, name_issues-parsed entries behind)
    where
      of_entry :
          (parsed : Option PagePath)
          → name_issue entry parsed ≡ []
          → (path : PagePath) × (parsed ≡ some path)
      of_entry none h = cc
      of_entry (some path) h = (path, refl)

  all-IsPage :
      (s : store.State) (pages : List PagePath) (entries : List ScannedFile)
      → All (λ entry. (path : PagePath) × (entry.parsed ≡ some path)) entries
      → ((t : PagePath) → is_scanned entries t ≡ true → IsSound s pages t)
      → All (IsPage s pages) entries
  unfolding IsPage is_scanned
  all-IsPage s pages [] h sound = tt
  all-IsPage s pages (entry ∷ entries) ((path, parsed), h) sound = (
    (
      path,
      parsed,
      sound path (
          ap (λ b. b || is_scanned entries path)
            ((option_eq.eq_iff entry.parsed (some path)).1 parsed)),
    ),
    all-IsPage s pages entries h (λ t k. sound t (behind (entry.parsed == some t) k)),
  )
    where
      behind : {d : Bool} (b : Bool) → d ≡ true → (b || d) ≡ true
      behind true k = refl
      behind false k = k

  -- In a store whose report is clean every scanned file is a page that can be read and parsed, has
  -- no tag twice, and whose links within the store lead to scanned pages.
  pub check_clean :
      (s : store.State) (report : CheckReport)
      → check c store s ≡ ok report
      → is_clean report ≡ true
      → (scanned : List ScannedFile) × (store.scan s ≡ ok scanned)
        × All (IsPage s (valid_paths scanned)) scanned
        × ((t : PagePath) → contains (valid_paths scanned) t ≡ is_scanned scanned t)
  unfolding check is_clean
  check_clean s report h clean =
      let (scanned, scan, made) = and_then-eq-ok (store.scan s) _ h in
      let pages = valid_paths scanned in
      let all_issues = name_issues scanned ++ all_page_issues c store s pages pages in
      let no_issue : all_issues ≡ [] =
        ap (λ r. r.issues) (ok-injective _ _ made) ∙ no_issue_left report.issues clean in
      let (names, sound) = append-eq-nil (name_issues scanned) _ no_issue in
      (
        scanned,
        scan,
        all-IsPage s pages scanned (name_issues-parsed scanned names) (λ t k.
            all_page_issues-IsSound s pages pages t sound (contains-valid_paths scanned t ∙ k)),
        contains-valid_paths scanned,
      )
    where
      no_issue_left :
          (issues : List CheckIssue) → is_clean (record { issues = issues }) ≡ true → issues ≡ []
      no_issue_left [] k = refl
      no_issue_left (issue ∷ issues) k = cc
