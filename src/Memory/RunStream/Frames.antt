-- ===== src/Memory/RunStream/Frames.antt =====
-- One frame: what is encoded is decoded, and the start of a frame waits.
use agentspace.Common.{
  ℕ, ◌+◌, ◌/◌, ◌%◌, ◌^◌, ◌≤◌, ◌<◌, ◌≡◌, refl, ap, ◌∙◌, Bool, true, false, none, some, List, [], ◌∷◌,
  ◌++◌, arith, if◌then◌else◌, le→ltb-false, lt→ltb, length, length-append, take-length_append,
  drop-length_append, nat_eq, list_eq, option_eq, ok, err, Bytes, is_utf8,
}
use agentspace.Memory.Error.{malformed_response, oversized_frame}
use agentspace.Memory.Runner.{
  exited, timed_out, output_limit_exceeded, cancelled, not_allowed, launch_failed,
}
use agentspace.Memory.RunStream.{
  to_be_bytes, from_be_bytes, length_u32, max_frame_payload_bytes, frame_of, encode_chunk,
  encode_terminal, RunFrame, stdout, stderr, terminal, is_terminal, FrameDecoder, Answer, close,
  at_header, next_frame, decode_payload, decode_i32, decode_utf8, tag_stdout, tag_stderr,
  tag_exited, tag_timed_out, tag_output_limit_exceeded, tag_cancelled, tag_launch_failed,
  tag_not_allowed,
}
use agentspace.Memory.RunStream.Words.{
  from_be_bytes-to_be_bytes, length_u32_small, length-to_be_bytes,
}

-- The bytes that carry a frame.
unfoldable pub encode_frame : RunFrame → Bytes
encode_frame (stdout payload) = encode_chunk tag_stdout payload
encode_frame (stderr payload) = encode_chunk tag_stderr payload
encode_frame (terminal outcome) = encode_terminal outcome

-- The frames that the wire can carry: payloads up to the limit, an `i32` code, and texts.
abbrev pub IsSendable : RunFrame → Type 0
IsSendable (stdout payload) = length payload ≤ max_frame_payload_bytes
IsSendable (stderr payload) = length payload ≤ max_frame_payload_bytes
IsSendable (terminal (exited code)) = code < 2 ^ 32
IsSendable (terminal (launch_failed message)) =
    (length message ≤ max_frame_payload_bytes) × (is_utf8 message ≡ true)
IsSendable (terminal (not_allowed command)) =
    (length command ≤ max_frame_payload_bytes) × (is_utf8 command ≡ true)
IsSendable (terminal _) = Unit

-- A frame as its tag and payload.
pub record Carries (frame : RunFrame) : Type 0 where
  pub tag : ℕ
  pub payload : Bytes
  pub encoded : encode_frame frame ≡ frame_of tag payload
  pub small : length payload ≤ max_frame_payload_bytes
  pub decoded : decode_payload tag payload ≡ ok frame

decode_i32-to_be_bytes : (code : ℕ) → code < 2 ^ 32 → decode_i32 (to_be_bytes code) ≡ ok code
unfolding decode_i32 to_be_bytes from_be_bytes
decode_i32-to_be_bytes code h = ap ok (omega arith)

decode_utf8-valid : (s : Bytes) → is_utf8 s ≡ true → decode_utf8 s ≡ ok s
unfolding decode_utf8
decode_utf8-valid s h = rw h

encode_chunk_small :
    (tag : ℕ) (payload : Bytes)
    → length payload ≤ max_frame_payload_bytes
    → encode_chunk tag payload ≡ frame_of tag payload
unfolding encode_chunk
encode_chunk_small tag payload h = rw (le→ltb-false max_frame_payload_bytes (length payload) h)

exited_payload :
    (code : ℕ)
    → code < 2 ^ 32
    → decode_payload tag_exited (to_be_bytes code) ≡ ok (terminal (exited code))
unfolding decode_payload
exited_payload code h = rw (decode_i32-to_be_bytes code h)

pub carry : (frame : RunFrame) → IsSendable frame → Carries frame
carry (stdout payload) h = record {
  tag = tag_stdout;
  payload = payload;
  encoded = unfold encode_frame in encode_chunk_small tag_stdout payload h;
  small = h;
  decoded = unfold decode_payload in refl;
}
carry (stderr payload) h = record {
  tag = tag_stderr;
  payload = payload;
  encoded = unfold encode_frame in encode_chunk_small tag_stderr payload h;
  small = h;
  decoded = unfold decode_payload in refl;
}
carry (terminal (exited code)) h = record {
  tag = tag_exited;
  payload = to_be_bytes code;
  encoded = unfold encode_frame encode_terminal in refl;
  small = omega (arith, length-to_be_bytes code);
  decoded = exited_payload code h;
}
carry (terminal timed_out) h = record {
  tag = tag_timed_out;
  payload = [];
  encoded = unfold encode_frame encode_terminal in refl;
  small = omega arith;
  decoded = unfold decode_payload in refl;
}
carry (terminal output_limit_exceeded) h = record {
  tag = tag_output_limit_exceeded;
  payload = [];
  encoded = unfold encode_frame encode_terminal in refl;
  small = omega arith;
  decoded = unfold decode_payload in refl;
}
carry (terminal cancelled) h = record {
  tag = tag_cancelled;
  payload = [];
  encoded = unfold encode_frame encode_terminal in refl;
  small = omega arith;
  decoded = unfold decode_payload in refl;
}
carry (terminal (not_allowed command)) (h, k) = record {
  tag = tag_not_allowed;
  payload = command;
  encoded = unfold encode_frame encode_terminal in refl;
  small = h;
  decoded = unfold decode_payload in rw k;
}
carry (terminal (launch_failed message)) (h, k) = record {
  tag = tag_launch_failed;
  payload = message;
  encoded = unfold encode_frame encode_terminal in refl;
  small = h;
  decoded = unfold decode_payload in rw k;
}

abbrev waiting : Bytes → FrameDecoder
waiting buffer = record { buffer = buffer; terminated = false }

frame_of-shape :
    (tag : ℕ) (payload rest : Bytes)
    → length payload ≤ max_frame_payload_bytes
    → (let n = length payload in
        frame_of tag payload ++ rest
        ≡ tag
          ∷ (n / 2 ^ 24) % 256
          ∷ (n / 2 ^ 16) % 256
          ∷ (n / 2 ^ 8) % 256
          ∷ n % 256
          ∷ (payload ++ rest))
unfolding frame_of to_be_bytes
frame_of-shape tag payload rest h = rw (length_u32_small (length payload) h)

at_header-whole :
    (decoder : FrameDecoder) (tag : ℕ) (payload rest : Bytes)
    → length payload ≤ max_frame_payload_bytes
    → at_header decoder tag (length payload) (payload ++ rest)
      ≡ close (decode_payload tag payload) (record decoder { buffer = rest })
unfolding at_header
at_header-whole decoder tag payload rest h = rw (
  le→ltb-false max_frame_payload_bytes (length payload) h,
  le→ltb-false (length (payload ++ rest)) (length payload)
      (omega (arith, length-append payload rest)),
  take-length_append payload rest,
  drop-length_append payload rest,
)

-- A buffer that starts with a whole frame gives what the payload decodes to, and keeps the rest.
pub next_frame-whole :
    (tag : ℕ) (payload rest : Bytes)
    → length payload ≤ max_frame_payload_bytes
    → next_frame (waiting (frame_of tag payload ++ rest))
      ≡ close (decode_payload tag payload) (waiting rest)
unfolding next_frame
next_frame-whole tag payload rest h = rw (
  frame_of-shape tag payload rest h,
  from_be_bytes-to_be_bytes (length payload) (omega arith),
  at_header-whole _ tag payload rest h,
)

-- What the encoder writes for a frame that the wire can carry is decoded to that frame, whatever
-- follows it, and the decoder keeps exactly what follows.
pub next_frame-encode_frame :
    (frame : RunFrame) (rest : Bytes)
    → IsSendable frame
    → next_frame (record { buffer = encode_frame frame ++ rest; terminated = false })
      ≡ (ok (some frame), record { buffer = rest; terminated = is_terminal frame })
next_frame-encode_frame frame rest h =
    let c = carry frame h in
    rw (c.encoded, next_frame-whole c.tag c.payload rest c.small, c.decoded)
      (same (is_terminal frame))
  where
    same :
        (b : Bool)
        → ◌≡◌ {A = Answer}
            (ok (some frame), record { buffer = rest; terminated = if b then true else false })
            (ok (some frame), record { buffer = rest; terminated = b })
    same true = refl
    same false = refl

cons_inj {ℓ} : {A : Type ℓ} {x y : A} {xs ys : List A} → x ∷ xs ≡ y ∷ ys → (x ≡ y) × (xs ≡ ys)
cons_inj h = (cc, cc)

at_header-partial :
    (decoder : FrameDecoder) (tag n : ℕ) (body : Bytes)
    → n ≤ max_frame_payload_bytes
    → length body < n
    → at_header decoder tag n body ≡ (ok none, decoder)
unfolding at_header
at_header-partial decoder tag n body h k =
    rw (le→ltb-false max_frame_payload_bytes n h, lt→ltb (length body) n k)

-- A buffer that ends within the frame waits for more.
pub next_frame-partial :
    (tag : ℕ) (payload buffer rest more : Bytes)
    → length payload ≤ max_frame_payload_bytes
    → buffer ++ rest ≡ frame_of tag payload ++ more
    → length buffer < length payload + 5
    → next_frame (waiting buffer) ≡ (ok none, waiting buffer)
unfolding next_frame
next_frame-partial tag payload [] rest more h e k = refl
next_frame-partial tag payload (t ∷ []) rest more h e k = refl
next_frame-partial tag payload (t ∷ a ∷ []) rest more h e k = refl
next_frame-partial tag payload (t ∷ a ∷ b ∷ []) rest more h e k = refl
next_frame-partial tag payload (t ∷ a ∷ b ∷ c ∷ []) rest more h e k = refl
next_frame-partial tag payload (t ∷ a ∷ b ∷ c ∷ d ∷ body) rest more h e k =
    let (_, e1) = cons_inj (e ∙ frame_of-shape tag payload more h) in
    let (ea, e2) = cons_inj e1 in
    let (eb, e3) = cons_inj e2 in
    let (ec, e4) = cons_inj e3 in
    let (ed, _) = cons_inj e4 in
    rw (ea, eb, ec, ed, from_be_bytes-to_be_bytes (length payload) (omega arith))
      (at_header-partial _ t (length payload) body h (omega arith))

-- A launch failure whose text is longer than a frame may be is encoded whole, and the decoder
-- refuses the frame.
pub next_frame-launch_failed_long :
    (message rest : Bytes)
    → max_frame_payload_bytes < length message
    → length message < 2 ^ 32
    → (next_frame
        (record { buffer = encode_terminal (launch_failed message) ++ rest; terminated = false })).0
      ≡ err (malformed_response (oversized_frame (length message)))
unfolding next_frame encode_terminal frame_of to_be_bytes at_header length_u32
next_frame-launch_failed_long message rest h k = rw (
  lt→ltb (length message) (2 ^ 32) k,
  from_be_bytes-to_be_bytes (length message) k,
  lt→ltb max_frame_payload_bytes (length message) h,
)

pub length-frame_of :
    (tag : ℕ) (payload : Bytes) → length (frame_of tag payload) ≡ length payload + 5
unfolding frame_of to_be_bytes
length-frame_of tag payload = omega arith
