-- ===== src/Memory/Service/Move.antt =====
-- `move_page`: where the page is then, which pages are rewritten and how, and that a failure
-- changes nothing.
use agentspace.Common.{
  ◌≡◌, sym, ap, ◌∙◌, ◌≢◌, inl, inr, false, none, some, List, All, ◌==◌, nat_eq, list_eq, option_eq,
  contains, ok, err, ◌>>◌, and_then-eq-ok, ok-injective, Bytes,
}
use mathlib.Core.Path.{subst}
use mathlib.Core.Bool.{true≢false}
use mathlib.Core.Option.{some-injective}
use agentspace.Memory.Crates.{Crates}
use agentspace.Memory.Error.{MemoryError, same_destination, invalid_path, already_exists}
use agentspace.Memory.Path.{PagePath, as_str, path_eq}
use agentspace.Memory.Model.{MovePageRequest, MoveOutcome, revision_of}
use agentspace.Memory.Store.{MemoryStore, StoreLaws}
use agentspace.Memory.Service.{fail_if, check_revision}
use agentspace.Memory.Service.Steps.{
  carry_out-eq-ok, carry_out-eq-err, answer-eq-ok, answer-eq-err, fail_if-eq-ok,
}
use agentspace.Memory.Service.Pages.{
  moved, relocate, names, preamble, Replacements, replacements_of, plan_move, move_page,
}
use agentspace.Memory.Store.{paths_of}
use agentspace.Memory.Service.Remove.{IsExpected, check_revision-IsExpected}
use agentspace.Memory.Service.Referrers.{Rewrites, replacements_of-Rewrites}

module _ (c : Crates) (store : MemoryStore) (laws : StoreLaws c store) where
  -- What a move that succeeded has done.
  pub record IsMoved (request : MovePageRequest) (outcome : MoveOutcome) (s s' : store.State)
      : Type 0 where
    pub bytes : Bytes
    pub held : laws.contents request.source s ≡ some bytes
    pub expected : IsExpected c request.expected_revision bytes
    pub distinct : request.source ≢ request.destination
    pub vacant : laws.contents request.destination s ≡ none
    pub gone : laws.contents request.source s' ≡ none
    pub arrived : laws.contents request.destination s' ≡ some bytes
    pub revision : outcome.revision ≡ revision_of c bytes
    pub pages : List PagePath
    pub listed : store.list_pages s ≡ ok pages
    pub replacements : Replacements c store
    pub referrers : outcome.updated_referrers ≡ names c store replacements
    pub rewrites : Rewrites c store laws request s pages replacements
    pub stored : All (λ (p, new_bytes). laws.contents p s' ≡ some new_bytes) replacements
    pub others :
        (q : PagePath)
        → q ≢ request.source
        → q ≢ request.destination
        → contains (paths_of replacements) q ≡ false
        → laws.contents q s' ≡ laws.contents q s

  -- What a planned move has been through.
  record IsPlanned (request : MovePageRequest) (s : store.State) (revision source_bytes : Bytes)
      (reps : Replacements c store) : Type 0 where
    held : laws.contents request.source s ≡ some source_bytes
    expected : IsExpected c request.expected_revision source_bytes
    vacant : laws.contents request.destination s ≡ none
    is_revision : revision ≡ revision_of c source_bytes
    pages : List PagePath
    listed : store.list_pages s ≡ ok pages
    rewrites : Rewrites c store laws request s pages reps

  plan_move-eq-ok :
      (request : MovePageRequest) (s : store.State) (revision source_bytes : Bytes)
      (reps : Replacements c store)
      → plan_move c store request s ≡ ok (revision, (source_bytes, reps))
      → IsPlanned request s revision source_bytes reps
  unfolding plan_move
  plan_move-eq-ok request s revision source_bytes reps h =
      let ((read, read_revision), found, after_read) =
        and_then-eq-ok (store.read_bytes request.source s) _ h in
      let (_, checked, after_check) =
        and_then-eq-ok (check_revision c request.source request.expected_revision read_revision) _
          after_read in
      let (taken, exists, after_exists) =
        and_then-eq-ok (store.exists request.destination s) _ after_check in
      let (_, free, after_free) =
        and_then-eq-ok (fail_if taken (already_exists (as_str request.destination))) _
          after_exists in
      let (pages, listed, after_list) = and_then-eq-ok (store.list_pages s) _ after_free in
      let (replaced, rewrites, after_rewrites) =
        and_then-eq-ok (replacements_of c store request s pages) _ after_list in
      let ((again, again_revision), found_again, planned_this) =
        and_then-eq-ok (store.read_bytes request.source s) _ after_rewrites in
      let same : (read_revision, (again, replaced)) ≡ (revision, (source_bytes, reps)) =
        ok-injective _ _ planned_this in
      let (held, is_revision) = laws.read_ok request.source s read read_revision found in
      let (held_again, _) = laws.read_ok request.source s again again_revision found_again in
      let unchanged : read ≡ source_bytes =
        some-injective _ _ (sym held ∙ held_again) ∙ ap (λ t. t.1.0) same in
      let expected =
        check_revision-IsExpected c request.source request.expected_revision read read_revision
          is_revision checked in
      record {
        held = held ∙ ap some unchanged;
        expected = subst (IsExpected c request.expected_revision) unchanged expected;
        vacant =
            laws.exists_false request.destination s (exists ∙ ap ok (fail_if-eq-ok taken _ free));
        is_revision = sym (ap (λ t. t.0) same) ∙ (is_revision ∙ ap (revision_of c) unchanged);
        pages = pages;
        listed = listed;
        rewrites =
            replacements_of-Rewrites c store laws request s pages reps
              (rewrites ∙ ap (λ t. ok t.1.1) same);
      }

  pub move_page-eq-ok :
      (request : MovePageRequest) (outcome : MoveOutcome) (s s' : store.State)
      → move_page c store request s ≡ (ok outcome, s')
      → IsMoved request outcome s s'
  unfolding move_page
  move_page-eq-ok request outcome s s' h =
      let ((revision, (source_bytes, reps)), planned, changed) =
        carry_out-eq-ok (preamble c store request s >> plan_move c store request s)
          (relocate c store request) s s' outcome h in
      let (_, before, after_lock) = and_then-eq-ok (preamble c store request s) _ planned in
      let (_, differ, _) =
        and_then-eq-ok
          (fail_if (request.source == request.destination)
            (invalid_path (as_str request.source) same_destination))
          (λ _. store.lock s) before in
      let plan = plan_move-eq-ok request s revision source_bytes reps after_lock in
      let (committed, is_committed, is_outcome) =
        answer-eq-ok (λ _. moved c store request revision reps)
          (store.commit_move request.source request.destination source_bytes reps s) s' outcome
          changed in
      let (gone, arrived, stored, others) =
        laws.commit_ok request.source request.destination source_bytes reps s s' is_committed in
      record {
        bytes = source_bytes;
        held = plan.held;
        expected = plan.expected;
        distinct = λ e. true≢false (
            sym ((path_eq.eq_iff request.source request.destination).1 e)
            ∙ fail_if-eq-ok _ _ differ);
        vacant = plan.vacant;
        gone = gone;
        arrived = arrived;
        revision = ap (λ o. o.revision) (sym is_outcome) ∙ plan.is_revision;
        pages = plan.pages;
        listed = plan.listed;
        replacements = reps;
        referrers = ap (λ o. o.updated_referrers) (sym is_outcome);
        rewrites = plan.rewrites;
        stored = stored;
        others = others;
      }

  -- Over a store that keeps its documented behaviour, restoring what a failed move began to change,
  -- a move that fails leaves every page as it was.
  pub move_page-eq-err :
      (request : MovePageRequest) (e : MemoryError) (s s' : store.State)
      → move_page c store request s ≡ (err e, s')
      → (q : PagePath) → laws.contents q s' ≡ laws.contents q s
  unfolding move_page
  move_page-eq-err request e s s' h q =
      elim (carry_out-eq-err (preamble c store request s >> plan_move c store request s)
        (relocate c store request) s s' e h) [
          | inl same ↦ ap (laws.contents q) (sym same)
          | inr ((revision, (source_bytes, reps)), changed) ↦
              laws.commit_err request.source request.destination source_bytes reps e s s'
                (answer-eq-err (λ _. moved c store request revision reps)
                  (store.commit_move request.source request.destination source_bytes reps s) s' e
                  changed)
                q
        ]
