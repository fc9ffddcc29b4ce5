-- ===== src/Memory/Wire/Transport.antt =====
-- Errors that go over the wire: what comes back, and that exit code and status are the same.
use agentspace.Common.{◌≡◌, refl, nat_eq, list_beq, list_eq, option_eq, Bytes}
use agentspace.Memory.Error.{
  M, MemoryError, Reason, message, kind, invalid_path, not_found, already_exists, conflict,
  invalid_frontmatter, too_large, command_not_allowed, run_timed_out, run_output_limit_exceeded,
  run_cancelled, run_launch_failed, lock, not_implemented, unavailable, malformed_response,
  internal, io, yaml,
}
use agentspace.Memory.Error
use agentspace.Memory.Wire.{from_error, into_memory_error, status_for, exit_code_for}

module _ (display : MemoryError → Bytes) where
  -- The error that a remote caller sees: what the envelope names is kept, every other detail is
  -- the printed text, and failures of the host become internal ones.
  unfoldable pub remote : MemoryError → MemoryError
  remote (invalid_path x y) = invalid_path x (Error.Reason.message (display (invalid_path x y)))
  remote (not_found x) = not_found x
  remote (already_exists x) = already_exists x
  remote (conflict x y z) = conflict x y z
  remote (invalid_frontmatter x y) =
      invalid_frontmatter x (Error.Reason.message (display (invalid_frontmatter x y)))
  remote (too_large x y) = too_large "request payload" y
  remote (command_not_allowed x) = command_not_allowed x
  remote run_timed_out = run_timed_out
  remote run_output_limit_exceeded = run_output_limit_exceeded
  remote run_cancelled = run_cancelled
  remote (run_launch_failed x) = run_launch_failed (display (run_launch_failed x))
  remote (lock x) = lock (display (lock x))
  remote (not_implemented x) = not_implemented (display (not_implemented x))
  remote (unavailable x) = unavailable (display (unavailable x))
  remote (malformed_response x) =
      malformed_response (Error.Malformed.message (display (malformed_response x)))
  remote (internal x) = internal (display (internal x))
  remote (io x) = internal (display (io x))
  remote (yaml x) = internal (display (yaml x))

  -- An error that is sent in an envelope is received as the error that a remote caller is meant to
  -- see: with its path, revisions, limit or command, and the printed text where the source keeps
  -- more.
  pub into_memory_error-from_error :
      (e : MemoryError) → into_memory_error (from_error display e) ≡ remote e
  unfolding into_memory_error from_error kind list_beq remote
  into_memory_error-from_error (invalid_path x y) = refl
  into_memory_error-from_error (not_found x) = refl
  into_memory_error-from_error (already_exists x) = refl
  into_memory_error-from_error (conflict x y z) = refl
  into_memory_error-from_error (invalid_frontmatter x y) = refl
  into_memory_error-from_error (too_large x y) = refl
  into_memory_error-from_error (command_not_allowed x) = refl
  into_memory_error-from_error run_timed_out = refl
  into_memory_error-from_error run_output_limit_exceeded = refl
  into_memory_error-from_error run_cancelled = refl
  into_memory_error-from_error (run_launch_failed x) = refl
  into_memory_error-from_error (lock x) = refl
  into_memory_error-from_error (not_implemented x) = refl
  into_memory_error-from_error (unavailable x) = refl
  into_memory_error-from_error (malformed_response x) = refl
  into_memory_error-from_error (internal x) = refl
  into_memory_error-from_error (io x) = refl
  into_memory_error-from_error (yaml x) = refl

  -- A command that runs against the remote service ends with the exit code, and a service behind
  -- another answers with the status, that the local error would give.
  pub exit_code_for-into_memory_error :
      (e : MemoryError)
      → (exit_code_for (into_memory_error (from_error display e)) ≡ exit_code_for e)
        × (status_for (into_memory_error (from_error display e)) ≡ status_for e)
  unfolding exit_code_for status_for remote
  exit_code_for-into_memory_error e = rw (into_memory_error-from_error e) (by_kind e)
    where
      by_kind :
          (e : MemoryError)
          → (exit_code_for (remote e) ≡ exit_code_for e) × (status_for (remote e) ≡ status_for e)
      by_kind (invalid_path x y) = (refl, refl)
      by_kind (not_found x) = (refl, refl)
      by_kind (already_exists x) = (refl, refl)
      by_kind (conflict x y z) = (refl, refl)
      by_kind (invalid_frontmatter x y) = (refl, refl)
      by_kind (too_large x y) = (refl, refl)
      by_kind (command_not_allowed x) = (refl, refl)
      by_kind run_timed_out = (refl, refl)
      by_kind run_output_limit_exceeded = (refl, refl)
      by_kind run_cancelled = (refl, refl)
      by_kind (run_launch_failed x) = (refl, refl)
      by_kind (lock x) = (refl, refl)
      by_kind (not_implemented x) = (refl, refl)
      by_kind (unavailable x) = (refl, refl)
      by_kind (malformed_response x) = (refl, refl)
      by_kind (internal x) = (refl, refl)
      by_kind (io x) = (refl, refl)
      by_kind (yaml x) = (refl, refl)
