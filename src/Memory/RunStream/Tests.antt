-- ===== src/Memory/RunStream/Tests.antt =====
-- Frames at concrete bytes.
use agentspace.Common.{
  ℕ, zero, suc, ◌≡◌, refl, ap, true, false, some, List, [], ◌∷◌, ◌++◌, arith, length, nat_eq,
  list_eq, option_eq, ok, err, Bytes, codes,
}
use agentspace.Memory.Error.{malformed_response, unknown_tag}
use agentspace.Memory.Runner.{exited}
use agentspace.Memory.RunStream.{
  RunFrame, stdout, stderr, terminal, is_terminal, FrameDecoder, new, next_frame, encode_chunk,
  encode_terminal, frame_of, to_be_bytes, from_be_bytes, at_header, decode_payload, tag_stdout,
  length_u32,
}
use agentspace.Memory.RunStream.Frames.{encode_frame, next_frame-encode_frame}
use agentspace.Memory.RunStream.Chunks.{receive_all, wire, concat, receive_all_lem}

hello : encode_chunk tag_stdout (codes "hi") ≡ 0 ∷ 0 ∷ 0 ∷ 0 ∷ 2 ∷ codes "hi"
unfolding encode_chunk frame_of to_be_bytes length_u32
hello = refl

unknown :
    (next_frame (record { buffer = 0x7f ∷ 0 ∷ 0 ∷ 0 ∷ 0 ∷ []; terminated = false })).0
    ≡ err (malformed_response (unknown_tag 0x7f))
unfolding next_frame at_header decode_payload from_be_bytes
unknown = refl

next_frame-encode_frame_example :
    next_frame
      (record { buffer = encode_frame (terminal (exited 7)) ++ codes "x"; terminated = false })
    ≡ (
      ok (some (terminal (exited 7))),
      record { buffer = codes "x"; terminated = is_terminal (terminal (exited 7)) },
    )
next_frame-encode_frame_example =
    next_frame-encode_frame (terminal (exited 7)) (codes "x") (omega arith)

-- A text of `n` bytes that is not written out.
fill : ℕ → Bytes
fill zero = []
fill (suc n) = b'a' ∷ fill n

length-fill : (n : ℕ) → length (fill n) ≡ n
unfolding fill
length-fill zero = refl
length-fill (suc n) = ap suc (length-fill n)

abbrev long_message : Bytes
long_message = fill 1048577

long_length : length long_message ≡ 1048577
long_length = length-fill 1048577

abbrev session : List RunFrame
session = stdout (codes "out") ∷ stderr (codes "err") ∷ terminal (exited 0) ∷ []

-- The first piece ends within the header of the second frame.
abbrev pieces : List Bytes
pieces =
    (0 ∷ 0 ∷ 0 ∷ 0 ∷ 3 ∷ codes "out" ++ 1 ∷ 0 ∷ [])
    ∷ (0 ∷ 0 ∷ 3 ∷ codes "err" ++ 2 ∷ 0 ∷ 0 ∷ 0 ∷ 4 ∷ 0 ∷ 0 ∷ 0 ∷ 0 ∷ [])
    ∷ []

same_bytes : concat pieces ≡ wire session
unfolding wire encode_frame encode_chunk encode_terminal frame_of to_be_bytes length_u32
same_bytes = refl

receive_all_lem_example :
    (last : FrameDecoder) × (receive_all new pieces ≡ ok (session, last)) × (last.terminated ≡ true)
unfolding is_terminal
receive_all_lem_example =
    receive_all_lem session pieces (omega arith, refl, (omega arith, refl, (omega arith, refl)))
      same_bytes
