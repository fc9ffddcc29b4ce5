-- ===== src/Memory/Service/Write.antt =====
-- `write_page`: what a success changes, and that a failure changes nothing.
use agentspace.Common.{
  ◌≤◌, ◌≡◌, refl, sym, ap, ◌∙◌, ◌≢◌, ◌⊎◌, inl, inr, Bool, true, false, Option, none, some, ltb,
  ltb-false→le, Bool-cases, length, ◌==◌, nat_eq, list_beq_iff, list_eq, option_eq, ok, err, ◌>>◌,
  and_then-eq-ok, Bytes,
}
use mathlib.Core.Path.{subst}
use mathlib.Core.Option.{some-injective}
use agentspace.Memory.Crates.{Crates}
use agentspace.Memory.Error.{
  M, MemoryError, invalid_path, not_found, already_exists, conflict, invalid_frontmatter, too_large,
  command_not_allowed, run_timed_out, run_output_limit_exceeded, run_cancelled, run_launch_failed,
  lock, not_implemented, unavailable, malformed_response, internal, io, yaml,
}
use agentspace.Memory.Path.{PagePath, path_eq}
use agentspace.Memory.Model.{PageMetadata, Page, WritePageRequest, revision_of}
use agentspace.Memory.Frontmatter.{render_document}
use agentspace.Memory.Store.{MemoryStore, StoreLaws}
use agentspace.Memory.Service.{
  max_body_bytes, fail_if, check_revision, check_write, optional, Stored, next_metadata,
}
use agentspace.Memory.Service.Steps.{
  carry_out-eq-ok, carry_out-eq-err, answer-eq-ok, answer-eq-err, fail_if-eq-ok,
}
use agentspace.Memory.Service.Pages.{
  read_optional, validate_write, plan_write, write_page, written, install,
}

pub ReadAnswer : (c : Crates) → M (Bytes × Bytes) → Stored c → Type 0
ReadAnswer c r none = (name : Bytes) × (r ≡ err (not_found name))
ReadAnswer c r (some found) = r ≡ ok found

-- What stands behind the answer of `read_optional`.
pub optional-eq-ok :
    (c : Crates) (r : M (Bytes × Bytes)) (existing : Stored c)
    → optional c r ≡ ok existing
    → ReadAnswer c r existing
unfolding optional ReadAnswer
optional-eq-ok c (ok found) none h = cc
optional-eq-ok c (ok found) (some other) h = cc
optional-eq-ok c (err (not_found name)) none h = (name, refl)
optional-eq-ok c (err (not_found name)) (some other) h = cc
optional-eq-ok c (err (already_exists _)) existing h = cc
optional-eq-ok c (err (conflict _ _ _)) existing h = cc
optional-eq-ok c (err (invalid_frontmatter _ _)) existing h = cc
optional-eq-ok c (err (too_large _ _)) existing h = cc
optional-eq-ok c (err (command_not_allowed _)) existing h = cc
optional-eq-ok c (err run_timed_out) existing h = cc
optional-eq-ok c (err run_output_limit_exceeded) existing h = cc
optional-eq-ok c (err run_cancelled) existing h = cc
optional-eq-ok c (err (run_launch_failed _)) existing h = cc
optional-eq-ok c (err (lock _)) existing h = cc
optional-eq-ok c (err (not_implemented _)) existing h = cc
optional-eq-ok c (err (unavailable _)) existing h = cc
optional-eq-ok c (err (malformed_response _)) existing h = cc
optional-eq-ok c (err (internal _)) existing h = cc
optional-eq-ok c (err (io _)) existing h = cc
optional-eq-ok c (err (yaml _)) existing h = cc
optional-eq-ok c (err (invalid_path _ _)) existing h = cc

pub check_revision-eq-ok :
    (c : Crates) (path : PagePath) (expected actual : Bytes)
    → check_revision c path (some expected) actual ≡ ok tt
    → expected ≡ actual
unfolding check_revision
check_revision-eq-ok c path expected actual h = elim (Bool-cases (expected == actual)) [
  | inl e ↦ (list_beq_iff expected actual).0 e
  | inr e ↦ cc
]

module _ (c : Crates) (store : MemoryStore) (laws : StoreLaws c store) where
  -- May a page be written over what it held?
  abbrev pub IsAllowed : Option Bytes → Bool → Option Bytes → Type 0
  IsAllowed none overwrite old = (overwrite ≡ true) ⊎ (old ≡ none)
  IsAllowed (some expected) overwrite old =
      (bytes : Bytes) × (old ≡ some bytes) × (expected ≡ revision_of c bytes)

  pub record IsWritten (request : WritePageRequest) (page : Page c) (s s' : store.State)
      : Type 0 where
    pub bytes : Bytes
    pub stored : laws.contents request.path s' ≡ some bytes
    pub revision : page.revision ≡ revision_of c bytes
    pub small : length bytes ≤ max_body_bytes
    pub rendered : render_document c page.metadata request.body ≡ ok bytes
    pub others : (q : PagePath) → q ≢ request.path → laws.contents q s' ≡ laws.contents q s
    pub allowed :
        IsAllowed request.expected_revision request.overwrite (laws.contents request.path s)

  check_write-IsAllowed :
      (path : PagePath) (overwrite : Bool) (expected : Option Bytes) (s : store.State)
      (existing : Stored c)
      → ReadAnswer c (store.read_bytes path s) existing
      → check_write c path overwrite expected existing ≡ ok tt
      → IsAllowed expected overwrite (laws.contents path s)
  unfolding check_write ReadAnswer
  check_write-IsAllowed path overwrite (some expected) s (some (bytes, actual)) found h =
      let (held, is_revision) = laws.read_ok path s bytes actual found in
      (bytes, held, check_revision-eq-ok c path expected actual h ∙ is_revision)
  check_write-IsAllowed path overwrite (some expected) s none found h = cc
  check_write-IsAllowed path true none s (some found_bytes) found h = inl refl
  check_write-IsAllowed path false none s (some found_bytes) found h = cc
  check_write-IsAllowed path overwrite none s none (name, found) h =
      inr (laws.read_not_found path s name found)

  -- What a planned write has been through.
  record IsPlanned (request : WritePageRequest) (now : c.Time) (s : store.State)
      (metadata : PageMetadata c) (bytes : Bytes) : Type 0 where
    small : length bytes ≤ max_body_bytes
    rendered : render_document c metadata request.body ≡ ok bytes
    allowed : IsAllowed request.expected_revision request.overwrite (laws.contents request.path s)

  plan_write-eq-ok :
      (request : WritePageRequest) (now : c.Time) (s : store.State) (metadata : PageMetadata c)
      (bytes : Bytes)
      → plan_write c store request now s ≡ ok (metadata, bytes)
      → IsPlanned request now s metadata bytes
  unfolding plan_write read_optional
  plan_write-eq-ok request now s metadata bytes h =
      let (existing, found, after_read) =
        and_then-eq-ok (optional c (store.read_bytes request.path s)) _ h in
      let (_, permitted, after_check) =
        and_then-eq-ok
          (check_write c request.path request.overwrite request.expected_revision existing) _
          after_read in
      let (next, _, after_metadata) =
        and_then-eq-ok (next_metadata c request now existing) _ after_check in
      let (document, rendered, after_render) =
        and_then-eq-ok (render_document c next request.body) _ after_metadata in
      let (_, fits, planned_this) =
        and_then-eq-ok
          (fail_if (ltb max_body_bytes (length document))
            (too_large "page document" max_body_bytes))
          _ after_render in
      let same_metadata : next ≡ metadata = cc in
      let same_bytes : document ≡ bytes = cc in
      record {
        small =
            subst (λ b. length b ≤ max_body_bytes) same_bytes
              (ltb-false→le _ _ (fail_if-eq-ok _ _ fits));
        rendered =
            ap (λ m. render_document c m request.body) (sym same_metadata)
            ∙ (rendered ∙ ap ok same_bytes);
        allowed =
            check_write-IsAllowed request.path request.overwrite request.expected_revision s
              existing (optional-eq-ok c _ existing found) permitted;
      }

  pub write_page-eq-ok :
      (request : WritePageRequest) (now : c.Time) (s s' : store.State) (page : Page c)
      → write_page c store request now s ≡ (ok page, s')
      → IsWritten request page s s'
  unfolding write_page
  write_page-eq-ok request now s s' page h =
      let ((metadata, bytes), planned, changed) =
        carry_out-eq-ok
          (validate_write c store request >> store.lock s >> plan_write c store request now s)
          (install c store request) s s' page h in
      let (_, _, after_lock) =
        and_then-eq-ok (validate_write c store request >> store.lock s) _ planned in
      let plan = plan_write-eq-ok request now s metadata bytes after_lock in
      let (revision, stored, is_page) =
        answer-eq-ok (written c store request metadata) (store.write_bytes request.path bytes s) s'
          page changed in
      let (is_revision, holds, others) = laws.write_ok request.path bytes revision s s' stored in
      record {
        bytes = bytes;
        stored = holds;
        revision = ap (λ p. p.revision) (sym is_page) ∙ is_revision;
        small = plan.small;
        rendered =
            ap (λ p. render_document c p.metadata request.body) (sym is_page) ∙ plan.rendered;
        others = others;
        allowed = plan.allowed;
      }

  -- Over a store that keeps its documented behaviour, a write that fails leaves every page as it
  -- was.
  pub write_page-eq-err :
      (request : WritePageRequest) (now : c.Time) (s s' : store.State) (e : MemoryError)
      → write_page c store request now s ≡ (err e, s')
      → (q : PagePath) → laws.contents q s' ≡ laws.contents q s
  unfolding write_page
  write_page-eq-err request now s s' e h q =
      elim (carry_out-eq-err
        (validate_write c store request >> store.lock s >> plan_write c store request now s)
        (install c store request) s s' e h) [
          | inl same ↦ ap (laws.contents q) (sym same)
          | inr ((metadata, bytes), changed) ↦
              laws.write_err request.path bytes e s s'
                (answer-eq-err (written c store request metadata)
                  (store.write_bytes request.path bytes s) s' e changed)
                q
        ]

  pub write_page-write_page_stale :
      (first second : WritePageRequest) (now later : c.Time) (s s' t : store.State)
      (page next : Page c) (expected : Bytes)
      → write_page c store first now s ≡ (ok page, s')
      → second.path ≡ first.path
      → second.expected_revision ≡ some expected
      → page.revision ≢ expected
      → write_page c store second later s' ≢ (ok next, t)
  write_page-write_page_stale first second now later s s' t page next expected h same wants changed
        k =
      let done = write_page-eq-ok first now s s' page h in
      let again = write_page-eq-ok second later s' t next k in
      let (bytes, held, is_revision) = rw (wants, same) at again.allowed in
      let same_bytes : bytes ≡ done.bytes = some-injective _ _ (sym held ∙ done.stored) in
      changed (done.revision ∙ (ap (revision_of c) (sym same_bytes) ∙ sym is_revision))
