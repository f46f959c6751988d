-- ===== src/Transfer/Headers.antt =====
-- Chunk headers of transfer.rs: what is accepted, and that a written header is read back.
use mathlib.Core.List.{append_assoc}
use transfer_assistant.Prelude.{
  ℕ, ◌+◌, ◌-◌, ◌≤◌, ◌<◌, ◌^◌, ◌≡◌, ◌↔◌, refl, sym, ap, ◌∙◌, List, ◌++◌, Text, ok, ltb, length,
  arith, list_beq_iff, nat_eq, false,
}
use transfer_assistant.Io.{Writer, IoError, read_exact, to_be_bytes, from_be_bytes}
use transfer_assistant.Io.Laws.{
  from_be_bytes-to_be_bytes, length-to_be_bytes, read_exact-append, write_all-room,
}
use transfer_assistant.Chunk.{default_chunk_size}
use transfer_assistant.Protocol.{Codec}
use transfer_assistant.Protocol.Messages.{ChunkHeader}
use transfer_assistant.Transfer.{
  max_chunk_header_bytes, validate_header, write_header, read_header, read_header_body,
}

-- A header is accepted exactly if it names this transfer and item, its chunk is not empty and at
-- most 4 MiB long, the chunk ends inside the file, and its hash has 32 bytes; for any file smaller
-- than 2^64 - 1 bytes, although the sum of offset and length saturates.
pub validate_header_ok :
    (h : ChunkHeader) (transfer_id item_id : Text) (file_size : ℕ)
    → file_size < 2 ^ 64 - 1
    → (validate_header h transfer_id item_id file_size ≡ ok tt) ↔ (
        (ChunkHeader.transfer_id h ≡ transfer_id)
        × (ChunkHeader.item_id h ≡ item_id)
        × (1 ≤ h.length)
        × (h.length ≤ default_chunk_size)
        × (h.offset + h.length ≤ file_size)
        × (length h.blake3_hash ≡ 32))
unfolding validate_header
validate_header_ok h transfer_id item_id file_size small = ground (
  arith,
  list_beq_iff nat_eq (ChunkHeader.transfer_id h) transfer_id,
  list_beq_iff nat_eq (ChunkHeader.item_id h) item_id,
)

module _ (codec : Codec ChunkHeader) where
  abbrev pub header_frame : ChunkHeader → List ℕ
  header_frame h = to_be_bytes (length (codec.encode_to_vec h)) ++ codec.encode_to_vec h

  pub write_header_lem :
      (w : Writer) (h : ChunkHeader)
      → length (codec.encode_to_vec h) ≤ max_chunk_header_bytes
      → 4 + length (codec.encode_to_vec h) ≤ w.room
      → (w' : Writer) × (write_header codec w h ≡ ok w')
        × (w'.written ≡ w.written ++ header_frame h)
        × (w'.room ≡ w.room - (4 + length (codec.encode_to_vec h)))
  unfolding write_header
  write_header_lem w h fits room =
      let encoded = codec.encode_to_vec h in
      let size = to_be_bytes (length encoded) in
      let four = length-to_be_bytes (length encoded) in
      let short : ltb max_chunk_header_bytes (length encoded) ≡ false = ground arith in
      let (w1, first, out1, room1) = write_all-room w size (omega (arith, four)) in
      let (w2, second, out2, room2) = write_all-room w1 encoded (omega (arith, four, room1)) in
      (
        w2,
        rw (short, first, second) refl,
        out2 ∙ ap (λ x. x ++ encoded) out1 ∙ append_assoc w.written size encoded,
        omega (arith, four, room1, room2),
      )

  pub read_header-frame :
      (h : ChunkHeader) (rest : List ℕ) (e : IoError)
      → codec.decode (codec.encode_to_vec h) ≡ ok h
      → length (codec.encode_to_vec h) ≤ max_chunk_header_bytes
      → read_header codec (record { bytes = header_frame h ++ rest; broken_by = e })
        ≡ ok (h, record { bytes = rest; broken_by = e })
  unfolding read_header read_header_body
  read_header-frame h rest e faithful fits =
      let encoded = codec.encode_to_vec h in
      let size = to_be_bytes (length encoded) in
      let head : read_exact (record { bytes = header_frame h ++ rest; broken_by = e }) 4
          ≡ ok (size, record { bytes = encoded ++ rest; broken_by = e }) =
        ap (λ b. read_exact (record { bytes = b; broken_by = e }) 4)
          (append_assoc size encoded rest)
        ∙ ap (read_exact (record { bytes = size ++ (encoded ++ rest); broken_by = e }))
            (sym (length-to_be_bytes (length encoded)))
        ∙ read_exact-append size (encoded ++ rest) e in
      let count : from_be_bytes size ≡ length encoded =
        from_be_bytes-to_be_bytes (length encoded) (omega arith) in
      let short : ltb max_chunk_header_bytes (length encoded) ≡ false = ground arith in
      rw head (rw count (rw (short, read_exact-append encoded rest e, faithful) refl))
