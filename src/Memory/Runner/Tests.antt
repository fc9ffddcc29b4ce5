-- ===== src/Memory/Runner/Tests.antt =====
-- The allowlist and the limit at concrete runs.
use agentspace.Common.{
  ℕ, ◌+◌, ◌≤◌, ◌<◌, ◌≡◌, refl, false, [], ◌∷◌, arith, length, nat_eq, list_beq, list_eq, option_eq,
  contains, ok, err, Bytes, codes,
}
use agentspace.Memory.Runner.{
  World, Task, finished, test_passes, read_some, read_ends, add_total, write_chunk, step_stdout,
  step_stderr, start, Reach, here, next, buffer_size, child_exited, drive_outcome, spawn,
  is_allowed, not_allowed, to_write,
}
use agentspace.Memory.Runner.Limit.{output_bounded, drive_complete}

refused :
    spawn {Child = ℕ} (λ _ _. ok 1) (codes "rm" ∷ codes "-rf" ∷ []) ≡ err (not_allowed (codes "rm"))
unfolding spawn is_allowed contains list_beq
refused = refl

abbrev chunk : Bytes
chunk = codes "hello"

abbrev ended : Bytes → Task
ended s = record { phase = finished; received = s; sink = s }

-- Standard output reads and writes one chunk under a limit of 10 bytes, and both tasks end.
abbrev last_world : World
last_world = record { total = 5; limit_hit = false; stdout = ended chunk; stderr = ended [] }

chunk_some : 0 < length chunk
chunk_some = omega arith

chunk_fits : length chunk ≤ buffer_size
chunk_fits = omega arith

one_chunk : Reach 10 last_world
unfolding to_write
one_chunk =
    let r1 = next here (step_stdout start (test_passes 0 start.stdout refl)) in
    let r2 = next r1 (step_stdout _ (read_some 0 false _ chunk refl chunk_some chunk_fits)) in
    let r3 = next r2 (step_stdout _ (add_total 0 false _ chunk refl)) in
    let r4 = next r3 (step_stdout _ (write_chunk 5 false _ chunk 0 refl)) in
    let r5 = next r4 (step_stdout _ (test_passes 5 _ refl)) in
    let r6 = next r5 (step_stdout _ (read_ends 5 false _ refl)) in
    let r7 = next r6 (step_stderr _ (test_passes 5 _ refl)) in
    next r7 (step_stderr _ (read_ends 5 false _ refl))

output_bounded_example : (5 + 0 ≤ 10) × (5 + 0 ≤ 5)
output_bounded_example = output_bounded 10 last_world one_chunk

drive_complete_example : (chunk ≡ chunk) × ◌≡◌ {A = Bytes} [] []
unfolding drive_outcome
drive_complete_example = drive_complete 10 last_world (child_exited 0) one_chunk refl refl (λ e. cc)
