-- ===== src/Memory/Runner.antt =====
-- services/memory_rs/src/command_runner.rs: the allowlist, the start of a command, the two tasks
-- that copy its output under one limit, and the outcome.
pub mod Limit
mod Tests
use agentspace.Common.{
  ℕ, suc, ◌+◌, ◌-◌, ◌≤◌, ◌<◌, min, Bool, true, false, List, [], ◌∷◌, ◌++◌, nat_eq, list_eq,
  contains, ◌≡◌, Bytes, codes, Result, ok, err, leb, if◌then◌else◌, length, take,
}

-- An `i32` exit code is its bit pattern, a number below 2 ^ 32.
pub data RunOutcome : Type 0 where
  exited : ℕ → RunOutcome
  timed_out output_limit_exceeded cancelled : RunOutcome
  not_allowed : Bytes → RunOutcome
  launch_failed : Bytes → RunOutcome

abbrev pub allowed_commands : List Bytes
allowed_commands =
    codes "rg"
    ∷ codes "ls"
    ∷ codes "cat"
    ∷ codes "head"
    ∷ codes "tail"
    ∷ codes "wc"
    ∷ codes "stat"
    ∷ codes "pwd"
    ∷ []

abbrev pub missing_command : Bytes
missing_command = codes "<missing>"

unfoldable pub is_allowed : Bytes → Bool
unfolding contains
is_allowed command = contains allowed_commands command

-- `Command::spawn` of the host is a parameter: it gives a child, or the text of an error.
module _ {Child : Type 0} (host : Bytes → List Bytes → Result Bytes Child) where
  abbrev pub launched : Result Bytes Child → Result RunOutcome Child
  launched (ok child) = ok child
  launched (err text) = err (launch_failed text)

  unfoldable pub spawn : List Bytes → Result RunOutcome Child
  spawn [] = err (not_allowed missing_command)
  spawn (program ∷ arguments) =
      if is_allowed program then launched (host program arguments) else err (not_allowed program)

-- Where a copying task stands: before the test of the limit, at the read, behind the read with the
-- bytes read, behind the addition with them and the total before it, and behind the loop.
pub data Phase : Type 0 where
  testing reading finished : Phase
  adding : Bytes → Phase
  writing : Bytes → ℕ → Phase

pub record Task : Type 0 where
  pub phase : Phase
  pub received : Bytes
  pub sink : Bytes

-- The shared counter and flag, and the tasks for standard output and standard error.
pub record World : Type 0 where
  pub total : ℕ
  pub limit_hit : Bool
  pub stdout : Task
  pub stderr : Task

-- The size of the buffer of one read.
abbrev pub buffer_size : ℕ
buffer_size = 8192

-- How many of `read` bytes may be written when `previous_total` were read before them.
unfoldable pub to_write : ℕ → ℕ → ℕ → ℕ
to_write max_bytes previous_total read = min read (max_bytes - min previous_total max_bytes)

-- One atomic step of a task: from the shared total, flag and task to the new ones.
pub data TaskStep (max_bytes : ℕ) : ℕ → Bool → Task → ℕ → Bool → Task → Type 0 where
  test_stops :
      (total : ℕ) (t : Task)
      → t.phase ≡ testing
      → TaskStep max_bytes total true t total true (record t { phase = finished })
  test_passes :
      (total : ℕ) (t : Task)
      → t.phase ≡ testing
      → TaskStep max_bytes total false t total false (record t { phase = reading })
  read_ends :
      (total : ℕ) (hit : Bool) (t : Task)
      → t.phase ≡ reading
      → TaskStep max_bytes total hit t total hit (record t { phase = finished })
  read_some :
      (total : ℕ) (hit : Bool) (t : Task) (chunk : Bytes)
      → t.phase ≡ reading
      → 0 < length chunk
      → length chunk ≤ buffer_size
      → TaskStep max_bytes total hit t total hit
          (record t { phase = adding chunk; received = t.received ++ chunk })
  add_total :
      (total : ℕ) (hit : Bool) (t : Task) (chunk : Bytes)
      → t.phase ≡ adding chunk
      → TaskStep max_bytes total hit t
          (total + length chunk)
          hit
          (record t { phase = writing chunk total })
  write_chunk :
      (total : ℕ) (hit : Bool) (t : Task) (chunk : Bytes) (previous_total : ℕ)
      → t.phase ≡ writing chunk previous_total
      → TaskStep max_bytes total hit t total
          (if leb max_bytes (previous_total + length chunk) then true else hit)
          (record t {
            phase = if leb max_bytes (previous_total + length chunk) then finished else testing;
            sink = t.sink ++ take (to_write max_bytes previous_total (length chunk)) chunk;
          })

-- Either task takes a step, in any order.
pub data Step (max_bytes : ℕ) : World → World → Type 0 where
  step_stdout :
      (w : World) {total : ℕ} {hit : Bool} {t : Task}
      → TaskStep max_bytes w.total w.limit_hit w.stdout total hit t
      → Step max_bytes w (record { total = total; limit_hit = hit; stdout = t; stderr = w.stderr })
  step_stderr :
      (w : World) {total : ℕ} {hit : Bool} {t : Task}
      → TaskStep max_bytes w.total w.limit_hit w.stderr total hit t
      → Step max_bytes w (record { total = total; limit_hit = hit; stdout = w.stdout; stderr = t })

abbrev new_task : Task
new_task = record { phase = testing; received = []; sink = [] }

abbrev pub start : World
start = record { total = 0; limit_hit = false; stdout = new_task; stderr = new_task }

pub data Reach (max_bytes : ℕ) : World → Type 0 where
  here : Reach max_bytes start
  next : {w w' : World} → Reach max_bytes w → Step max_bytes w w' → Reach max_bytes w'

-- What `select!` saw first: the child ended, with its code or with none, waiting failed, or one of
-- the other futures resolved.
pub data Selected : Type 0 where
  child_exited : ℕ → Selected
  child_signalled : Selected
  wait_failed : Bytes → Selected
  slept cancel_resolved limit_notified : Selected

-- `status.code().unwrap_or(-1)`; -1 is the pattern of 32 ones.
unfoldable pub select_outcome : Selected → RunOutcome
select_outcome (child_exited code) = exited code
select_outcome child_signalled = exited 0xffff_ffff
select_outcome (wait_failed text) = launch_failed text
select_outcome slept = timed_out
select_outcome cancel_resolved = cancelled
select_outcome limit_notified = output_limit_exceeded

-- The end of `drive`, when both tasks have been joined.
unfoldable pub drive_outcome : World → Selected → RunOutcome
unfolding select_outcome
drive_outcome w selected = if w.limit_hit then output_limit_exceeded else select_outcome selected
