-- ===== src/Memory/Service/Remove.antt =====
-- `remove_page`: what a success changes, and that a failure changes nothing.
use agentspace.Common.{
  ◌≡◌, sym, ap, ◌∙◌, ◌≢◌, inl, inr, Option, none, some, nat_eq, list_eq, option_eq, ok, err, ◌>>◌,
  and_then-eq-ok, Bytes,
}
use agentspace.Memory.Crates.{Crates}
use agentspace.Memory.Error.{MemoryError}
use agentspace.Memory.Path.{PagePath, path_eq}
use agentspace.Memory.Model.{RemovePageRequest, revision_of}
use agentspace.Memory.Store.{MemoryStore, StoreLaws}
use agentspace.Memory.Service.{check_revision}
use agentspace.Memory.Service.Steps.{carry_out-eq-ok, carry_out-eq-err}
use agentspace.Memory.Service.Pages.{erase, plan_remove, remove_page}
use agentspace.Memory.Service.Write.{check_revision-eq-ok}

-- The revision that a request expects, if it expects one, is that of the bytes.
abbrev pub IsExpected : Crates → Option Bytes → Bytes → Type 0
IsExpected c none bytes = Unit
IsExpected c (some expected) bytes = expected ≡ revision_of c bytes

pub check_revision-IsExpected :
    (c : Crates) (path : PagePath) (expected : Option Bytes) (bytes revision : Bytes)
    → revision ≡ revision_of c bytes
    → check_revision c path expected revision ≡ ok tt
    → IsExpected c expected bytes
check_revision-IsExpected c path none bytes revision e h = tt
check_revision-IsExpected c path (some expected) bytes revision e h =
    check_revision-eq-ok c path expected revision h ∙ e

module _ (c : Crates) (store : MemoryStore) (laws : StoreLaws c store) where
  pub remove_page-eq-ok :
      (request : RemovePageRequest) (s s' : store.State)
      → remove_page c store request s ≡ (ok tt, s')
      → ((bytes : Bytes) × (laws.contents request.path s ≡ some bytes)
          × IsExpected c request.expected_revision bytes)
        × (laws.contents request.path s' ≡ none)
        × ((q : PagePath) → q ≢ request.path → laws.contents q s' ≡ laws.contents q s)
  unfolding remove_page plan_remove
  remove_page-eq-ok request s s' h =
      let (_, planned, changed) =
        carry_out-eq-ok (store.lock s >> plan_remove c store request s) (erase c store request) s s'
          tt h in
      let (_, _, after_lock) = and_then-eq-ok (store.lock s) _ planned in
      let ((bytes, revision), found, checked) =
        and_then-eq-ok (store.read_bytes request.path s) _ after_lock in
      let (held, is_revision) = laws.read_ok request.path s bytes revision found in
      let (gone, others) = laws.remove_ok request.path s s' changed in
      (
        (
          bytes,
          held,
          check_revision-IsExpected c request.path request.expected_revision bytes revision
              is_revision checked,
        ),
        gone,
        others,
      )

  -- Over a store that keeps its documented behaviour, a removal that fails leaves every page as it
  -- was.
  pub remove_page-eq-err :
      (request : RemovePageRequest) (e : MemoryError) (s s' : store.State)
      → remove_page c store request s ≡ (err e, s')
      → (q : PagePath) → laws.contents q s' ≡ laws.contents q s
  unfolding remove_page
  remove_page-eq-err request e s s' h q =
      elim (carry_out-eq-err (store.lock s >> plan_remove c store request s) (erase c store request)
        s s' e h) [
          | inl same ↦ ap (laws.contents q) (sym same)
          | inr (_, changed) ↦ laws.remove_err request.path e s s' changed q
        ]
