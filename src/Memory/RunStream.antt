-- ===== src/Memory/RunStream.antt =====
-- services/memory_rs/src/run_stream.rs: the frames of a `/v1/run` response. A byte is a number
-- below 256; a `u32` is written as four bytes, the high one first.
pub mod Words
pub mod Frames
pub mod Chunks
mod Tests
use agentspace.Common.{
  ℕ, zero, suc, ◌+◌, ◌*◌, ◌/◌, ◌%◌, ◌^◌, ◌==◌, Bool, true, false, Option, none, some, [], ◌∷◌, ◌++◌,
  nat_eq, Bytes, ok, err, ◌>>=◌, ltb, if◌then◌else◌, length, take, drop, is_utf8,
}
use agentspace.Memory.Error.{
  M, malformed_response, oversized_frame, unknown_tag, exit_length, invalid_utf8,
}
use agentspace.Memory.Runner.{
  RunOutcome, exited, timed_out, output_limit_exceeded, cancelled, not_allowed, launch_failed,
}

abbrev pub frame_header_len : ℕ
frame_header_len = 5

abbrev pub max_frame_payload_bytes : ℕ
max_frame_payload_bytes = 1024 * 1024

abbrev pub tag_stdout : ℕ
tag_stdout = 0

abbrev pub tag_stderr : ℕ
tag_stderr = 1

abbrev pub tag_exited : ℕ
tag_exited = 2

abbrev pub tag_timed_out : ℕ
tag_timed_out = 3

abbrev pub tag_output_limit_exceeded : ℕ
tag_output_limit_exceeded = 4

abbrev pub tag_cancelled : ℕ
tag_cancelled = 5

abbrev pub tag_launch_failed : ℕ
tag_launch_failed = 6

abbrev pub tag_not_allowed : ℕ
tag_not_allowed = 7

pub data RunFrame : Type 0 where
  stdout stderr : Bytes → RunFrame
  terminal : RunOutcome → RunFrame

unfoldable pub is_terminal : RunFrame → Bool
is_terminal (stdout _) = false
is_terminal (stderr _) = false
is_terminal (terminal _) = true

-- `to_be_bytes` and `from_be_bytes`.
unfoldable pub to_be_bytes : ℕ → Bytes
to_be_bytes n = (n / 2 ^ 24) % 256 ∷ (n / 2 ^ 16) % 256 ∷ (n / 2 ^ 8) % 256 ∷ n % 256 ∷ []

unfoldable pub from_be_bytes : ℕ → ℕ → ℕ → ℕ → ℕ
from_be_bytes a b c d = a * 2 ^ 24 + b * 2 ^ 16 + c * 2 ^ 8 + d

-- `u32::try_from(len).unwrap_or(MAX_FRAME_PAYLOAD_BYTES)`
unfoldable pub length_u32 : ℕ → ℕ
length_u32 n = if ltb n (2 ^ 32) then n else max_frame_payload_bytes

unfoldable pub frame_of : ℕ → Bytes → Bytes
unfolding length_u32 to_be_bytes
frame_of tag payload = tag ∷ to_be_bytes (length_u32 (length payload)) ++ payload

unfoldable pub encode_chunk : ℕ → Bytes → Bytes
encode_chunk tag payload =
    if ltb max_frame_payload_bytes (length payload)
    then frame_of tag (take max_frame_payload_bytes payload)
    else frame_of tag payload

unfoldable pub encode_terminal : RunOutcome → Bytes
encode_terminal (exited code) = frame_of tag_exited (to_be_bytes code)
encode_terminal timed_out = frame_of tag_timed_out []
encode_terminal output_limit_exceeded = frame_of tag_output_limit_exceeded []
encode_terminal cancelled = frame_of tag_cancelled []
encode_terminal (launch_failed message) = frame_of tag_launch_failed message
encode_terminal (not_allowed command) = frame_of tag_not_allowed command

pub record FrameDecoder : Type 0 where
  pub buffer : Bytes
  pub terminated : Bool

abbrev pub new : FrameDecoder
new = record { buffer = []; terminated = false }

unfoldable pub push : FrameDecoder → Bytes → FrameDecoder
push decoder bytes = record decoder { buffer = decoder.buffer ++ bytes }

unfoldable pub decode_i32 : Bytes → M ℕ
unfolding from_be_bytes
decode_i32 (a ∷ b ∷ c ∷ d ∷ []) = ok (from_be_bytes a b c d)
decode_i32 payload = err (malformed_response (exit_length (length payload)))

unfoldable pub decode_utf8 : Bytes → M Bytes
decode_utf8 payload = if is_utf8 payload then ok payload else err (malformed_response invalid_utf8)

-- The frame that a tag and a payload stand for.
unfoldable pub decode_payload : ℕ → Bytes → M RunFrame
unfolding decode_i32 decode_utf8
decode_payload tag payload =
    if tag == tag_stdout
    then ok (stdout payload)
    else if tag == tag_stderr
    then ok (stderr payload)
    else if tag == tag_exited
    then (do code ← decode_i32 payload; ok (terminal (exited code)))
    else if tag == tag_timed_out
    then ok (terminal timed_out)
    else if tag == tag_output_limit_exceeded
    then ok (terminal output_limit_exceeded)
    else if tag == tag_cancelled
    then ok (terminal cancelled)
    else if tag == tag_launch_failed
    then (do message ← decode_utf8 payload; ok (terminal (launch_failed message)))
    else if tag == tag_not_allowed
    then (do command ← decode_utf8 payload; ok (terminal (not_allowed command)))
    else err (malformed_response (unknown_tag tag))

-- A call returns its result and the decoder behind it.
abbrev pub Answer : Type 0
Answer = M (Option RunFrame) × FrameDecoder

abbrev pub close : M RunFrame → FrameDecoder → Answer
close (err e) decoder = (err e, decoder)
close (ok frame) decoder = (
  ok (some frame),
  record decoder { terminated = if is_terminal frame then true else decoder.terminated },
)

-- The header is there: the bytes behind it are `body`.
unfoldable pub at_header : FrameDecoder → ℕ → ℕ → Bytes → Answer
at_header decoder tag len body =
    if ltb max_frame_payload_bytes len
    then (err (malformed_response (oversized_frame len)), decoder)
    else if ltb (length body) len
    then (ok none, decoder)
    else close (decode_payload tag (take len body)) (record decoder { buffer = drop len body })

-- A buffer shorter than a header waits.
abbrev pub at_buffer : FrameDecoder → Bytes → Answer
at_buffer decoder (tag ∷ a ∷ b ∷ c ∷ d ∷ body) = at_header decoder tag (from_be_bytes a b c d) body
at_buffer decoder _ = (ok none, decoder)

unfoldable pub next_frame : FrameDecoder → Answer
next_frame decoder =
    if decoder.terminated then (ok none, decoder) else at_buffer decoder decoder.buffer
