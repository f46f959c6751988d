-- ===== src/Protocol/Framing.antt =====
-- Frames of protocol.rs: what is written is read back, and no frame passes the limits.
use mathlib.Core.List.{append_assoc, append-nil}
use transfer_assistant.Prelude.{
  ℕ, zero, suc, ◌+◌, ◌≤◌, ◌<◌, ◌≡◌, refl, sym, ap, ◌∙◌, List, [], ◌∷◌, ◌++◌, Result, ok, err, ◌>>=◌,
  map_err, >>=-eq-ok, map_err-eq-ok, ltb, length, arith, length-append, Bool-cases, inl, inr, false,
  All,
}
use transfer_assistant.Io.{Reader, Writer, IoError, read_exact, to_be_bytes, from_be_bytes}
use transfer_assistant.Io.Laws.{
  from_be_bytes-to_be_bytes, length-to_be_bytes, read_exact-append, two_writes, read_exact-eq-ok,
}
use transfer_assistant.Protocol.{
  Codec, ProtocolError, io, decode_error, frame_too_large, max_control_frame_bytes, write_envelope,
  read_body, read_envelope,
}
use transfer_assistant.Protocol.Messages.{Envelope, protocol_major}

module _ (codec : Codec Envelope) where
  -- The bytes of a frame.
  abbrev pub frame : Envelope → List ℕ
  frame envelope =
      to_be_bytes (length (codec.encode_to_vec envelope)) ++ codec.encode_to_vec envelope

  pub write_envelope-frame :
      (w w' : Writer) (envelope : Envelope)
      → write_envelope codec w envelope ≡ ok w'
      → (w'.written ≡ w.written ++ frame envelope)
        × (length (codec.encode_to_vec envelope) ≤ max_control_frame_bytes)
  unfolding write_envelope
  write_envelope-frame w w' envelope h =
      let encoded = codec.encode_to_vec envelope in
      elim (Bool-cases (ltb max_control_frame_bytes (length encoded))) [
        | inl long ↦ cc (rw long at h)
        | inr short ↦ (
          (two_writes io w w' (to_be_bytes (length encoded)) encoded (rw short at h)).0,
          ground arith,
        )
      ]

  -- The envelope that stands in front of `rest` in a stream.
  read_body-frame :
      (envelope : Envelope) (rest : List ℕ) (e : IoError)
      → codec.decode (codec.encode_to_vec envelope) ≡ ok envelope
      → Envelope.protocol_major envelope ≡ protocol_major
      → length (codec.encode_to_vec envelope) ≤ max_control_frame_bytes
      → read_body codec
          (length (codec.encode_to_vec envelope))
          (record { bytes = codec.encode_to_vec envelope ++ rest; broken_by = e })
        ≡ ok (envelope, record { bytes = rest; broken_by = e })
  unfolding read_body
  read_body-frame envelope rest e faithful major fits =
      let short : ltb max_control_frame_bytes (length (codec.encode_to_vec envelope)) ≡ false =
        ground arith in
      rw (short, read_exact-append (codec.encode_to_vec envelope) rest e, faithful) (ground arith)

  pub read_envelope-frame :
      (envelope : Envelope) (rest : List ℕ) (e : IoError)
      → codec.decode (codec.encode_to_vec envelope) ≡ ok envelope
      → Envelope.protocol_major envelope ≡ protocol_major
      → length (codec.encode_to_vec envelope) ≤ max_control_frame_bytes
      → read_envelope codec (record { bytes = frame envelope ++ rest; broken_by = e })
        ≡ ok (envelope, record { bytes = rest; broken_by = e })
  unfolding read_envelope
  read_envelope-frame envelope rest e faithful major fits =
      let encoded = codec.encode_to_vec envelope in
      let size = to_be_bytes (length encoded) in
      let head : read_exact (record { bytes = frame envelope ++ rest; broken_by = e }) 4
          ≡ ok (size, record { bytes = encoded ++ rest; broken_by = e }) =
        ap (λ b. read_exact (record { bytes = b; broken_by = e }) 4)
          (append_assoc size encoded rest)
        ∙ ap (read_exact (record { bytes = size ++ (encoded ++ rest); broken_by = e }))
            (sym (length-to_be_bytes (length encoded)))
        ∙ read_exact-append size (encoded ++ rest) e in
      let count : from_be_bytes size ≡ length encoded =
        from_be_bytes-to_be_bytes (length encoded) (omega arith) in
      rw head (rw count (read_body-frame envelope rest e faithful major fits))

  -- Several envelopes written one behind the other, and so many read.
  unfoldable pub write_frames : Writer → List Envelope → Result ProtocolError Writer
  write_frames w [] = ok w
  write_frames w (m ∷ rest) = write_envelope codec w m >>= λ w1. write_frames w1 rest

  unfoldable pub read_frames : ℕ → Reader → Result ProtocolError (List Envelope × Reader)
  read_frames zero r = ok ([], r)
  read_frames (suc n) r = do
    (m, r1) ← read_envelope codec r
    (rest, r2) ← read_frames n r1
    ok (m ∷ rest, r2)

  -- Any sequence of envelopes of this protocol version that the codec decodes from their encodings
  -- and that is written without an error is read back from the bytes written, in order and leaving
  -- exactly the bytes behind them.
  pub read_frames-write_frames :
      (ms : List Envelope) (w w' : Writer)
      → All (λ m. codec.decode (codec.encode_to_vec m) ≡ ok m) ms
      → All (λ m. Envelope.protocol_major m ≡ protocol_major) ms
      → write_frames w ms ≡ ok w'
      → (sent : List ℕ) × (w'.written ≡ w.written ++ sent)
        × ((rest : List ℕ) (e : IoError)
            → read_frames (length ms) (record { bytes = sent ++ rest; broken_by = e })
              ≡ ok (ms, record { bytes = rest; broken_by = e }))
  unfolding write_frames read_frames
  read_frames-write_frames [] w w' faithful majors h =
      ([], ground (arith, append-nil w.written), λ rest e. refl)
  read_frames-write_frames (m ∷ ms) w w' faithful majors h =
      let (w1, first, others) = >>=-eq-ok (write_envelope codec w m) _ h in
      let (one, fits) = write_envelope-frame w w1 m first in
      let (sent, all, back) = read_frames-write_frames ms w1 w' faithful.1 majors.1 others in
      (
        frame m ++ sent,
        all ∙ ap (λ b. b ++ sent) one ∙ append_assoc w.written (frame m) sent,
        λ rest e. rw (append_assoc (frame m) sent rest) (
            rw (read_envelope-frame m (sent ++ rest) e faithful.0 majors.0 fits)
              (rw (back rest e) refl)),
      )

  read_body-eq-ok :
      (size : ℕ) (r : Reader) (m : Envelope) (r' : Reader)
      → read_body codec size r ≡ ok (m, r')
      → (encoded : List ℕ) × (Envelope.protocol_major m ≡ protocol_major)
        × (size ≤ max_control_frame_bytes)
        × (r.bytes ≡ encoded ++ r'.bytes)
        × (length encoded ≡ size)
  unfolding read_body
  read_body-eq-ok size r m r' h = elim (Bool-cases (ltb max_control_frame_bytes size)) [
    | inl long ↦ cc (rw long at h)
    | inr short ↦
        let (taken, first, later) = >>=-eq-ok (map_err io (read_exact r size)) _ (rw short at h) in
        let (m1, decoded, last) =
          >>=-eq-ok (map_err (λ _. decode_error) (codec.decode taken.0)) _ later in
        let parts =
          read_exact-eq-ok r size taken.0 taken.1 (map_err-eq-ok io (read_exact r size) first) in
        let rest_is : taken.1 ≡ r' = ground arith in
        (
          taken.0,
          ground arith,
          ground arith,
          parts.0 ∙ ap (λ (x : Reader). taken.0 ++ x.bytes) rest_is,
          parts.1,
        )
  ]

  -- A frame that is read has this protocol's major version and takes at most the limit and the four
  -- length bytes off the stream; a longer announced length is refused with nothing of the body
  -- read, whatever follows.
  pub read_envelope_limits :
      (r : Reader)
      → ((m : Envelope) (r' : Reader)
          → read_envelope codec r ≡ ok (m, r')
          → (Envelope.protocol_major m ≡ protocol_major)
            × ((front : List ℕ) × (r.bytes ≡ front ++ r'.bytes)
                × (length front ≤ 4 + max_control_frame_bytes)))
        × ((size rest : List ℕ)
            → r.bytes ≡ size ++ rest
            → length size ≡ 4
            → max_control_frame_bytes < from_be_bytes size
            → read_envelope codec r
              ≡ err (frame_too_large (from_be_bytes size) max_control_frame_bytes))
  unfolding read_envelope
  read_envelope_limits r = (
    λ m r' h.
        let (taken, first, later) = >>=-eq-ok (map_err io (read_exact r 4)) _ h in
        let parts =
          read_exact-eq-ok r 4 taken.0 taken.1 (map_err-eq-ok io (read_exact r 4) first) in
        let (encoded, major, small, body, size) =
          read_body-eq-ok (from_be_bytes taken.0) taken.1 m r' later in
        (
          major,
          (
            taken.0 ++ encoded,
            parts.0 ∙ ap (λ b. taken.0 ++ b) body ∙ sym (append_assoc taken.0 encoded r'.bytes),
            omega (arith, length-append taken.0 encoded, parts.1, size, small),
          ),
        ),
    λ size rest e four long.
        let head : read_exact r 4 ≡ ok (size, record r { bytes = rest }) =
          ap (λ b. read_exact (record { bytes = b; broken_by = r.broken_by }) 4) e
          ∙ ap (read_exact (record { bytes = size ++ rest; broken_by = r.broken_by })) (sym four)
          ∙ read_exact-append size rest r.broken_by in
        rw head (unfold read_body in ground arith),
  )
