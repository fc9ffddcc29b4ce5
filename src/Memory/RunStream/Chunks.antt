-- ===== src/Memory/RunStream/Chunks.antt =====
-- A stream of frames is decoded whole, however the bytes are cut into pieces.
use agentspace.Common.{
  ℕ, zero, suc, ◌≤◌, ◌<◌, ◌≡◌, refl, ap, ◌∙◌, inl, inr, Bool, true, false, none, some, List, [],
  ◌∷◌, ◌++◌, append_assoc, arith, ltb, ltb→lt, ltb-false→le, Bool-cases, length, length-append,
  nat_eq, list_eq, option_eq, ok, err, ◌>>=◌, Bytes,
}
use agentspace.Memory.Error.{M}
use agentspace.Memory.RunStream.{RunFrame, is_terminal, FrameDecoder, Answer, push, new, next_frame}
use agentspace.Memory.RunStream.Frames.{
  encode_frame, IsSendable, carry, next_frame-encode_frame, next_frame-partial, length-frame_of,
}

-- What a caller does with each piece that arrives: it pushes the piece and takes frames until there
-- is none. The loop is on fuel; a frame takes at least a header off the buffer.
abbrev continue :
    (FrameDecoder → M (List RunFrame × FrameDecoder)) → Answer → M (List RunFrame × FrameDecoder)
continue rest (err e, decoder) = err e
continue rest (ok none, decoder) = ok ([], decoder)
continue rest (ok (some frame), decoder) = do
  (frames, last) ← rest decoder
  ok (frame ∷ frames, last)

unfoldable pub take_frames : ℕ → FrameDecoder → M (List RunFrame × FrameDecoder)
take_frames zero decoder = ok ([], decoder)
take_frames (suc fuel) decoder = continue (take_frames fuel) (next_frame decoder)

unfoldable pub receive : FrameDecoder → Bytes → M (List RunFrame × FrameDecoder)
unfolding take_frames
receive decoder piece = let fed = push decoder piece in take_frames (suc (length fed.buffer)) fed

unfoldable pub receive_all : FrameDecoder → List Bytes → M (List RunFrame × FrameDecoder)
receive_all decoder [] = ok ([], decoder)
receive_all decoder (piece ∷ pieces) = do
  (frames, fed) ← receive decoder piece
  (more, last) ← receive_all fed pieces
  ok (frames ++ more, last)

-- The bytes of a stream.
unfoldable pub wire : List RunFrame → Bytes
wire [] = []
wire (frame ∷ frames) = encode_frame frame ++ wire frames

abbrev pub concat : List Bytes → Bytes
concat [] = []
concat (piece ∷ pieces) = piece ++ concat pieces

-- Chunks, and one terminal frame at the end.
abbrev pub IsStream : List RunFrame → Type 0
IsStream [] = ⊥
IsStream (frame ∷ []) = IsSendable frame × (is_terminal frame ≡ true)
IsStream (frame ∷ next ∷ frames) =
    IsSendable frame × (is_terminal frame ≡ false) × IsStream (next ∷ frames)

-- The frames that the decoder is still to give, when the bytes `rest` are still to arrive.
abbrev Expects : FrameDecoder → List RunFrame → Bytes → Type 0
Expects decoder [] rest = decoder.terminated ≡ true
Expects decoder (frame ∷ frames) rest =
    (decoder.terminated ≡ false)
    × (decoder.buffer ++ rest ≡ wire (frame ∷ frames))
    × IsStream (frame ∷ frames)

-- The decoder holds less than the next frame.
abbrev Starved : FrameDecoder → List RunFrame → Type 0
Starved decoder [] = Unit
Starved decoder (frame ∷ frames) = length decoder.buffer < length (encode_frame frame)

stream_head :
    (frame : RunFrame) (frames : List RunFrame) → IsStream (frame ∷ frames) → IsSendable frame
stream_head frame [] (h, _) = h
stream_head frame (g ∷ gs) (h, _, _) = h

Expects-next :
    (frame : RunFrame) (frames : List RunFrame) (buffer rest : Bytes)
    → IsStream (frame ∷ frames)
    → buffer ++ rest ≡ wire frames
    → Expects (record { buffer = buffer; terminated = is_terminal frame }) frames rest
Expects-next frame [] buffer rest (_, h) e = h
Expects-next frame (g ∷ gs) buffer rest (_, h, k) e = (h, e, k)

append_split {ℓ} :
    {A : Type ℓ} (xs ys zs ws : List A)
    → xs ++ ys ≡ zs ++ ws
    → length zs ≤ length xs
    → (t : List A) × (xs ≡ zs ++ t) × (t ++ ys ≡ ws)
append_split xs ys [] ws e h = (xs, refl, e)
append_split [] ys (z ∷ zs) ws e h = absurd (omega arith)
append_split (x ∷ xs) ys (z ∷ zs) ws e h =
    let (t, p, q) = append_split xs ys zs ws (cc) (omega arith) in (t, cc, q)

-- What taking frames comes to: some of the expected frames, the others still expected, and a
-- decoder that holds less than the next of them.
abbrev Takes : List RunFrame → Bytes → M (List RunFrame × FrameDecoder) → Type 0
Takes frames rest result =
    (got : List RunFrame) × (left : List RunFrame) × (decoder : FrameDecoder) × (result
      ≡ ok (got, decoder))
    × (frames ≡ got ++ left)
    × Expects decoder left rest
    × Starved decoder left

abbrev decoder_of : Bytes → Bool → FrameDecoder
decoder_of buffer terminated = record { buffer = buffer; terminated = terminated }

next_frame-starved :
    (frame : RunFrame) (frames : List RunFrame) (buffer rest : Bytes)
    → IsSendable frame
    → buffer ++ rest ≡ wire (frame ∷ frames)
    → length buffer < length (encode_frame frame)
    → next_frame (decoder_of buffer false) ≡ (ok none, decoder_of buffer false)
unfolding wire
next_frame-starved frame frames buffer rest h e k =
    let c = carry frame h in
    next_frame-partial c.tag c.payload buffer rest (wire frames) c.small
      (e ∙ ap (λ t. t ++ wire frames) c.encoded)
      (omega (arith, k, ap (λ (t : Bytes). length t) c.encoded, length-frame_of c.tag c.payload))

encode_frame-pos : (frame : RunFrame) → IsSendable frame → 0 < length (encode_frame frame)
encode_frame-pos frame h =
    let c = carry frame h in
    omega (arith, ap (λ (t : Bytes). length t) c.encoded, length-frame_of c.tag c.payload)

next_frame-terminated :
    (buffer : Bytes) → next_frame (decoder_of buffer true) ≡ (ok none, decoder_of buffer true)
unfolding next_frame
next_frame-terminated buffer = refl

Takes-cons :
    (run : FrameDecoder → M (List RunFrame × FrameDecoder)) (frame : RunFrame)
    (frames : List RunFrame) (rest : Bytes) (before after : FrameDecoder)
    → next_frame before ≡ (ok (some frame), after)
    → Takes frames rest (run after)
    → Takes (frame ∷ frames) rest (continue run (next_frame before))
Takes-cons run frame frames rest before after e (got, left, decoder, taken, parts, more, hungry) =
    (frame ∷ got, left, decoder, rw (e, taken), ap (λ t. frame ∷ t) parts, more, hungry)

take_frames-Takes :
    (fuel : ℕ) (frames : List RunFrame) (buffer rest : Bytes) (terminated : Bool)
    → length buffer < fuel
    → Expects (decoder_of buffer terminated) frames rest
    → Takes frames rest (take_frames fuel (decoder_of buffer terminated))
unfolding take_frames
take_frames-Takes zero frames buffer rest terminated h e = absurd (omega arith)
take_frames-Takes (suc fuel) [] buffer rest terminated h e =
    ([], [], decoder_of buffer terminated, rw (e, next_frame-terminated buffer), refl, e, tt)
take_frames-Takes (suc fuel) (frame ∷ frames) buffer rest true h (f, e, s) = cc
take_frames-Takes (suc fuel) (frame ∷ frames) buffer rest false h (f, e, s) =
    elim (Bool-cases (ltb (length buffer) (length (encode_frame frame)))) [
      | inl k ↦ (
        [],
        frame ∷ frames,
        decoder_of buffer false,
        rw (
            next_frame-starved frame frames buffer rest (stream_head frame frames s) e
              (ltb→lt _ _ k)),
        refl,
        (f, e, s),
        ltb→lt _ _ k,
      )
      | inr k ↦
          let sendable = stream_head frame frames s in
          let (kept, whole, later) =
            append_split buffer rest (encode_frame frame) (wire frames) (unfold wire in e)
              (ltb-false→le _ _ k) in
          Takes-cons (take_frames fuel) frame frames rest (decoder_of buffer false)
            (decoder_of kept (is_terminal frame))
            (ap (λ b. next_frame (decoder_of b false)) whole
              ∙ next_frame-encode_frame frame kept sendable)
            (take_frames-Takes fuel frames kept rest (is_terminal frame)
              (omega (
                arith,
                encode_frame-pos frame sendable,
                ap (λ (t : Bytes). length t) whole,
                length-append (encode_frame frame) kept,
              ))
              (Expects-next frame frames kept rest s later))
    ]

Expects-push :
    (decoder : FrameDecoder) (frames : List RunFrame) (piece rest : Bytes)
    → Expects decoder frames (piece ++ rest)
    → Expects (push decoder piece) frames rest
unfolding push
Expects-push decoder [] piece rest e = e
Expects-push decoder (frame ∷ frames) piece rest (f, e, s) =
    (f, append_assoc decoder.buffer piece rest ∙ e, s)

receive-Takes :
    (decoder : FrameDecoder) (frames : List RunFrame) (piece rest : Bytes)
    → Expects decoder frames (piece ++ rest)
    → Takes frames rest (receive decoder piece)
unfolding receive
receive-Takes decoder frames piece rest e =
    let fed = push decoder piece in
    take_frames-Takes (suc (length fed.buffer)) frames fed.buffer rest fed.terminated (omega arith)
      (Expects-push decoder frames piece rest e)

-- With nothing left to arrive a starved decoder expects nothing.
Starved-done :
    (decoder : FrameDecoder) (left : List RunFrame)
    → Expects decoder left []
    → Starved decoder left
    → (left ≡ []) × (decoder.terminated ≡ true)
unfolding wire
Starved-done decoder [] e h = (refl, e)
Starved-done decoder (frame ∷ frames) (f, e, s) h = absurd (
    omega (
      arith,
      ap (λ (t : Bytes). length t) e,
      length-append decoder.buffer [],
      length-append (encode_frame frame) (wire frames),
      h,
    ))

receive_all-frames :
    (decoder : FrameDecoder) (frames : List RunFrame) (pieces : List Bytes)
    → Expects decoder frames (concat pieces)
    → Starved decoder frames
    → (last : FrameDecoder) × (receive_all decoder pieces ≡ ok (frames, last))
      × (last.terminated ≡ true)
unfolding receive_all
receive_all-frames decoder frames [] e h =
    let (none_left, ended) = Starved-done decoder frames e h in (decoder, rw none_left, ended)
receive_all-frames decoder frames (piece ∷ pieces) e h =
    let (got, left, fed, taken, parts, more, hungry) =
      receive-Takes decoder frames piece (concat pieces) e in
    let (last, returned, ended) = receive_all-frames fed left pieces more hungry in
    (last, rw (taken, returned, parts), ended)

Starved-new : (frames : List RunFrame) → IsStream frames → Starved new frames
Starved-new [] s = tt
Starved-new (frame ∷ frames) s = encode_frame-pos frame (stream_head frame frames s)

Expects-new :
    (frames : List RunFrame) (bytes : Bytes)
    → IsStream frames
    → bytes ≡ wire frames
    → Expects new frames bytes
Expects-new [] bytes s e = absurd s
Expects-new (frame ∷ frames) bytes s e = (refl, e, s)

-- However the bytes of a stream are cut into pieces, a decoder that is given the pieces in order
-- returns exactly the frames of the stream, in order, without an error, and has then seen the
-- terminal frame. A stream is any number of output chunks that fit a frame and one terminal frame.
pub receive_all_lem :
    (frames : List RunFrame) (pieces : List Bytes)
    → IsStream frames
    → concat pieces ≡ wire frames
    → (last : FrameDecoder) × (receive_all new pieces ≡ ok (frames, last))
      × (last.terminated ≡ true)
receive_all_lem frames pieces s e =
    receive_all-frames new frames pieces (Expects-new frames (concat pieces) s e)
      (Starved-new frames s)
