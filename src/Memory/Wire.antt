-- ===== src/Memory/Wire.antt =====
-- services/memory_rs/src/wire.rs: the JSON shapes of the remote transport; with them the exit codes
-- of services/memory_rs/src/cli.rs and the statuses of services/memory_rs/src/server.rs.
pub mod Transport
pub mod Query
pub mod PageRoundTrip
mod Tests
use agentspace.Common.{
  ℕ, zero, suc, Option, none, some, List, [], ◌∷◌, arith, if◌then◌else◌, ◌==◌, nat_eq, list_eq,
  option_eq, ok, ◌>>=◌, ◌>>◌, Bytes, codes, split, trim,
}
use agentspace.Memory.Error.{
  M, MemoryError, Reason, message, kind, invalid_path, not_found, already_exists, conflict,
  invalid_frontmatter, too_large, command_not_allowed, run_timed_out, run_output_limit_exceeded,
  run_cancelled, run_launch_failed, lock, not_implemented, unavailable, malformed_response,
  internal, io, yaml,
}
use agentspace.Memory.Error
use agentspace.Memory.Crates.{Crates}
use agentspace.Memory.Path.{as_str, parse}
use agentspace.Memory.Model.{Page, PageLink}
use agentspace.Memory.Service.{or_default}

pub record ErrorBody : Type 0 where
  pub kind : Bytes
  pub message : Bytes
  pub path : Option Bytes
  pub expected_revision : Option Bytes
  pub actual_revision : Option Bytes
  pub limit : Option ℕ
  pub command : Option Bytes

-- The text that `Display` prints for an error. What is proved holds for any text.
module _ (display : MemoryError → Bytes) where
  abbrev plain : MemoryError → ErrorBody
  plain e = record {
    kind = codes (kind e);
    message = display e;
    path = none;
    expected_revision = none;
    actual_revision = none;
    limit = none;
    command = none;
  }

  abbrev about_path : Bytes → MemoryError → ErrorBody
  about_path path e = record (plain e) { path = some path }

  unfoldable pub from_error : MemoryError → ErrorBody
  unfolding kind
  from_error (invalid_path path reason) = about_path path (invalid_path path reason)
  from_error (not_found path) = about_path path (not_found path)
  from_error (already_exists path) = about_path path (already_exists path)
  from_error (invalid_frontmatter path reason) = about_path path (invalid_frontmatter path reason)
  from_error (conflict path expected actual) =
      record (about_path path (conflict path expected actual)) {
        expected_revision = expected;
        actual_revision = some actual;
      }
  from_error (too_large what limit) = record (plain (too_large what limit)) { limit = some limit }
  from_error (command_not_allowed command) = record (plain (command_not_allowed command)) {
    command = some command;
  }
  from_error run_timed_out = plain run_timed_out
  from_error run_output_limit_exceeded = plain run_output_limit_exceeded
  from_error run_cancelled = plain run_cancelled
  from_error (run_launch_failed text) = plain (run_launch_failed text)
  from_error (lock text) = plain (lock text)
  from_error (not_implemented feature) = plain (not_implemented feature)
  from_error (unavailable text) = plain (unavailable text)
  from_error (malformed_response text) = plain (malformed_response text)
  from_error (internal text) = plain (internal text)
  from_error (io source) = plain (io source)
  from_error (yaml source) = plain (yaml source)

-- The arms of `match kind.as_str()`, in order.
abbrev choose {ℓ} : {A : Type ℓ} → Bytes → List (Bytes × A) → A → A
choose name [] other = other
choose name ((pattern, a) ∷ arms) other =
    let rest = choose name arms other in if name == pattern then a else rest

unfoldable pub into_memory_error : ErrorBody → MemoryError
into_memory_error body =
    let path = or_default [] body.path in
    choose body.kind
      ((codes "invalid_path", invalid_path path (Error.Reason.message body.message))
        ∷ (codes "not_found", not_found path)
        ∷ (codes "already_exists", already_exists path)
        ∷ (
          codes "conflict",
          conflict path body.expected_revision (or_default [] body.actual_revision),
        )
        ∷ (
          codes "invalid_frontmatter",
          invalid_frontmatter path (Error.Reason.message body.message),
        )
        ∷ (codes "too_large", too_large "request payload" (or_default 0 body.limit))
        ∷ (codes "command_not_allowed", command_not_allowed (or_default [] body.command))
        ∷ (codes "run_timed_out", run_timed_out)
        ∷ (codes "run_output_limit_exceeded", run_output_limit_exceeded)
        ∷ (codes "run_cancelled", run_cancelled)
        ∷ (codes "run_launch_failed", run_launch_failed body.message)
        ∷ (codes "lock", lock body.message)
        ∷ (codes "not_implemented", not_implemented body.message)
        ∷ (codes "unavailable", unavailable body.message)
        ∷ (codes "malformed_response", malformed_response (Error.Malformed.message body.message))
        ∷ [])
      (internal body.message)

unfoldable pub status_for : MemoryError → ℕ
status_for (invalid_path _ _) = 400
status_for (invalid_frontmatter _ _) = 400
status_for (too_large _ _) = 400
status_for (command_not_allowed _) = 400
status_for (not_found _) = 404
status_for (conflict _ _ _) = 409
status_for (already_exists _) = 409
status_for (not_implemented _) = 501
status_for (lock _) = 503
status_for (unavailable _) = 503
status_for run_timed_out = 500
status_for run_output_limit_exceeded = 500
status_for run_cancelled = 500
status_for (run_launch_failed _) = 500
status_for (malformed_response _) = 500
status_for (internal _) = 500
status_for (io _) = 500
status_for (yaml _) = 500

unfoldable pub exit_code_for : MemoryError → ℕ
exit_code_for (invalid_path _ _) = 2
exit_code_for (invalid_frontmatter _ _) = 2
exit_code_for (too_large _ _) = 2
exit_code_for (command_not_allowed _) = 2
exit_code_for (not_found _) = 3
exit_code_for (conflict _ _ _) = 4
exit_code_for (already_exists _) = 4
exit_code_for (not_implemented _) = 5
exit_code_for run_timed_out = 6
exit_code_for run_output_limit_exceeded = 7
exit_code_for run_cancelled = 8
exit_code_for (run_launch_failed _) = 9
exit_code_for (unavailable _) = 10
exit_code_for (malformed_response _) = 11
exit_code_for (lock _) = 1
exit_code_for (io _) = 1
exit_code_for (yaml _) = 1
exit_code_for (internal _) = 1

abbrev pub comma : ℕ
comma = 44

abbrev pub trimmed_names : List Bytes → List Bytes
trimmed_names [] = []
trimmed_names (part ∷ parts) =
    let rest = trimmed_names parts in let tag = trim part in if tag == [] then rest else tag ∷ rest

-- `ListPagesQuery::tags`
unfoldable pub tags : Option Bytes → List Bytes
tags none = []
tags (some with_tag) = trimmed_names (split comma with_tag)

pub record PageWire (c : Crates) : Type 0 where
  pub path : Bytes
  pub schema_version : ℕ
  pub title : Bytes
  pub tags : List Bytes
  pub created_at : c.Time
  pub updated_at : c.Time
  pub created_by : Option Bytes
  pub updated_by : Option Bytes
  pub extra : c.Mapping
  pub revision : Bytes
  pub body : Bytes
  pub outgoing_links : List PageLink

unfoldable pub from_page : (c : Crates) → Page c → List PageLink → PageWire c
from_page c page outgoing_links = record {
  path = as_str page.path;
  schema_version = page.metadata.schema_version;
  title = page.metadata.title;
  tags = page.metadata.tags;
  created_at = page.metadata.created_at;
  updated_at = page.metadata.updated_at;
  created_by = page.metadata.created_by;
  updated_by = page.metadata.updated_by;
  extra = page.metadata.extra;
  revision = page.revision;
  body = page.body;
  outgoing_links = outgoing_links;
}

unfoldable pub try_from : (c : Crates) → PageWire c → M (Page c)
try_from c wire = do
  path ← parse wire.path
  ok (record {
    path = path;
    metadata = record {
      schema_version = wire.schema_version;
      title = wire.title;
      tags = wire.tags;
      created_at = wire.created_at;
      updated_at = wire.updated_at;
      created_by = wire.created_by;
      updated_by = wire.updated_by;
      extra = wire.extra;
    };
    body = wire.body;
    revision = wire.revision;
  })
