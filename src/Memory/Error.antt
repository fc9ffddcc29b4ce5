-- ===== src/Memory/Error.antt =====
-- services/memory_rs/src/error.rs: the errors that every transport and command shares.
use Prim.Native.String.{String}
use agentspace.Common.{ℕ, Option, Bytes, Result}

-- The texts that the code formats into `reason`, one constructor for each.
pub data Reason : Type 0 where
  path_empty path_too_long path_absolute path_backslash : Reason
  segment_empty segment_dots segment_control too_many_segments : Reason
  segment_too_long : Bytes → Reason
  symlink root_symlink root_parent : Reason
  title_empty tag_empty title_required same_destination duplicate_replacement : Reason
  not_utf8 missing_open missing_close not_a_mapping : Reason
  missing_field not_rfc3339 : Bytes → Reason
  message : Bytes → Reason

-- The texts of a malformed response, one constructor for each.
pub data Malformed : Type 0 where
  oversized_frame unknown_tag exit_length : ℕ → Malformed
  invalid_utf8 : Malformed
  message : Bytes → Malformed

-- `std::io::Error`, told apart as far as the code asks its `kind()`.
pub data IoError : Type 0 where
  io_not_found : IoError
  io_other : ℕ → IoError

pub data MemoryError : Type 0 where
  invalid_path : Bytes → Reason → MemoryError
  not_found : Bytes → MemoryError
  already_exists : Bytes → MemoryError
  conflict : Bytes → Option Bytes → Bytes → MemoryError
  invalid_frontmatter : Bytes → Reason → MemoryError
  too_large : String → ℕ → MemoryError
  command_not_allowed : Bytes → MemoryError
  run_timed_out run_output_limit_exceeded run_cancelled : MemoryError
  run_launch_failed : Bytes → MemoryError
  lock : Bytes → MemoryError
  not_implemented : Bytes → MemoryError
  unavailable : Bytes → MemoryError
  malformed_response : Malformed → MemoryError
  internal : Bytes → MemoryError
  io : IoError → MemoryError
  yaml : Bytes → MemoryError

abbrev pub M : Type 0 → Type 0
M A = Result MemoryError A

-- The stable kind of an error, for `--json` output and exit codes.
unfoldable pub kind : MemoryError → String
kind (invalid_path _ _) = "invalid_path"
kind (not_found _) = "not_found"
kind (already_exists _) = "already_exists"
kind (conflict _ _ _) = "conflict"
kind (invalid_frontmatter _ _) = "invalid_frontmatter"
kind (too_large _ _) = "too_large"
kind (command_not_allowed _) = "command_not_allowed"
kind run_timed_out = "run_timed_out"
kind run_output_limit_exceeded = "run_output_limit_exceeded"
kind run_cancelled = "run_cancelled"
kind (run_launch_failed _) = "run_launch_failed"
kind (lock _) = "lock"
kind (not_implemented _) = "not_implemented"
kind (unavailable _) = "unavailable"
kind (malformed_response _) = "malformed_response"
kind (internal _) = "internal"
kind (io _) = "io"
kind (yaml _) = "yaml"
