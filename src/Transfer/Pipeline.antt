-- ===== src/Transfer/Pipeline.antt =====
-- The two ends of transfer.rs together: what `send_file_chunks` writes, `receive_file_chunks` puts
-- into the target file.
use mathlib.Core.List.{append_assoc}
use transfer_assistant.Prelude.{
  ℕ, suc, ◌+◌, ◌-◌, ◌≤◌, ◌<◌, ◌^◌, ◌≡◌, refl, sym, ap, ◌∙◌, List, ◌∷◌, ◌++◌, Text, ok, ltb, leb,
  ◌==◌, if◌then◌else◌, length, arith, true, Bool, ◌&&◌, length-take, length-drop, take, drop,
}
use transfer_assistant.Io.{Writer, IoError, read_exact}
use transfer_assistant.Io.Laws.{read_exact-append, write_all-room}
use transfer_assistant.Chunk.{ChunkSpec, default_chunk_size}
use transfer_assistant.Protocol.{Codec}
use transfer_assistant.Protocol.Messages.{ChunkHeader}
use transfer_assistant.Storage.{File, Kernel, VerifiedChunk, write_verified_chunk}
use transfer_assistant.Storage.Loops.{MakesProgress}
use transfer_assistant.Storage.Chunks.{Copied, read_chunk_lem, write_verified_chunk-read_chunk}
use transfer_assistant.Transfer.{
  max_chunk_header_bytes, header_of, send_loop, receive_chunk, receive_loop, receive_round,
  when_stored,
}
use transfer_assistant.Transfer.Headers.{
  header_frame, write_header_lem, read_header-frame, validate_header_ok,
}

-- The chunk holds the position.
abbrev pub covers : ℕ → ChunkSpec → Bool
covers i spec = leb spec.offset i && ltb i (spec.offset + spec.length)

-- A chunk that fits a header and lies inside a file of the size.
abbrev pub IsSendable : ℕ → ChunkSpec → Type 0
IsSendable file_size spec =
    (1 ≤ spec.length) × (spec.length ≤ default_chunk_size) × (spec.offset + spec.length ≤ file_size)

-- The room that a header and a chunk take at most.
abbrev pub chunk_room : ℕ
chunk_room = 4 + max_chunk_header_bytes + default_chunk_size

module _ (codec : Codec ChunkHeader) (transfer_id item_id : Text) where
  -- The codec decodes what it encodes and keeps the headers of this item within the limit.
  pub record Encodes : Type 0 where
    pub faithful : (h : ChunkHeader) → codec.decode (codec.encode_to_vec h) ≡ ok h
    pub short :
        (h : ChunkHeader)
        → ChunkHeader.transfer_id h ≡ transfer_id
        → ChunkHeader.item_id h ≡ item_id
        → length h.blake3_hash ≡ 32
        → length (codec.encode_to_vec h) ≤ max_chunk_header_bytes

  -- The bytes of a chunk on the stream.
  abbrev pub chunk_frame : VerifiedChunk → List ℕ
  chunk_frame c = header_frame codec (header_of transfer_id item_id c) ++ c.bytes

  -- A chunk whose bytes and hash have the right lengths.
  abbrev IsMeasured : VerifiedChunk → Type 0
  IsMeasured c = (length c.bytes ≡ ChunkSpec.length c.spec) × (length c.blake3_hash ≡ 32)

  module _ (encodes : Encodes) where
    receive_chunk-frame :
        (c : VerifiedChunk) (file_size : ℕ) (rest : List ℕ) (e : IoError)
        → file_size < 2 ^ 64 - 1
        → IsSendable file_size c.spec
        → length c.bytes ≡ ChunkSpec.length c.spec
        → length c.blake3_hash ≡ 32
        → receive_chunk codec transfer_id item_id file_size
            (record { bytes = chunk_frame c ++ rest; broken_by = e })
          ≡ ok (c, record { bytes = rest; broken_by = e })
    unfolding receive_chunk
    receive_chunk-frame c file_size rest e small sendable size hash =
        let h = header_of transfer_id item_id c in
        let valid =
          (validate_header_ok h transfer_id item_id file_size small).1
            (refl, refl, sendable.0, sendable.1, sendable.2, hash) in
        let is32 : (length c.blake3_hash == 32) ≡ true = ground arith in
        let taken : read_exact (record { bytes = c.bytes ++ rest; broken_by = e }) c.spec.length
            ≡ ok (c.bytes, record { bytes = rest; broken_by = e }) =
          ap (read_exact (record { bytes = c.bytes ++ rest; broken_by = e })) (sym size)
          ∙ read_exact-append c.bytes rest e in
        rw (append_assoc (header_frame codec h) c.bytes rest) (
          rw
            (read_header-frame codec h (c.bytes ++ rest) e (encodes.faithful h)
              (encodes.short h refl refl hash))
            (rw valid (rw taken (rw is32 refl))))

    module _ (kernel : Kernel) (blake3 : List ℕ → List ℕ) (progress : MakesProgress kernel)
        (hash_bytes : (bytes : List ℕ) → length (blake3 bytes) ≡ 32) (source : File)
        (small : length source.contents < 2 ^ 64 - 1) where
      pub chunk_of : ChunkSpec → VerifiedChunk
      chunk_of spec =
          let bytes = take spec.length (drop spec.offset source.contents) in
          record { spec = spec; blake3_hash = blake3 bytes; bytes = bytes }

      length-chunk_of :
          (spec : ChunkSpec)
          → IsSendable (length source.contents) spec
          → length (chunk_of spec).bytes ≡ spec.length
      unfolding chunk_of
      length-chunk_of spec sendable = omega (
        arith,
        length-take spec.length (drop spec.offset source.contents),
        length-drop spec.offset source.contents,
        sendable.2,
      )

      -- One round of the sender.
      pub send_first :
          (spec : ChunkSpec) (rest : List ChunkSpec) (w : Writer) (sent : ℕ)
          → IsSendable (length source.contents) spec
          → chunk_room ≤ w.room
          → (w2 : Writer) × (send_loop codec transfer_id item_id kernel blake3 source
                (spec ∷ rest)
                w
                sent
              ≡ send_loop codec transfer_id item_id kernel blake3 source rest w2 (sent + 1))
            × (w2.written ≡ w.written ++ chunk_frame (chunk_of spec))
            × (w.room ≤ w2.room + chunk_room)
      unfolding send_loop chunk_of
      send_first spec rest w sent sendable room =
          let c = chunk_of spec in
          let h = header_of transfer_id item_id c in
          let size = length-chunk_of spec sendable in
          let fits = encodes.short h refl refl (hash_bytes c.bytes) in
          let got = read_chunk_lem kernel blake3 progress source spec sendable.2 in
          let (w1, first, out1, room1) =
            write_header_lem codec w h fits (omega (arith, fits, room)) in
          let (w2, second, out2, room2) =
            write_all-room w1 c.bytes (omega (arith, fits, room, room1, size, sendable.1)) in
          (
            w2,
            rw got (rw first (rw second refl)),
            out2
                ∙ ap (λ x. x ++ c.bytes) out1
                ∙ append_assoc w.written (header_frame codec h) c.bytes,
            omega (arith, fits, room, room1, room2, size, sendable.1),
          )

      -- One round of the receiver.
      pub receive_first :
          (spec : ChunkSpec) (rest : List ℕ) (e : IoError) (target : File)
          (left received expected : ℕ)
          → IsSendable (length source.contents) spec
          → (after : File) × (receive_loop codec transfer_id item_id kernel blake3
                (length source.contents)
                expected
                (suc left)
                received
                (record { bytes = chunk_frame (chunk_of spec) ++ rest; broken_by = e })
                target
              ≡ (if received + 1 == expected
                  then (after, ok expected)
                  else receive_loop codec transfer_id item_id kernel blake3
                      (length source.contents)
                      expected
                      left
                      (received + 1)
                      (record { bytes = rest; broken_by = e })
                      after))
            × Copied kernel blake3 source.contents target.contents after.contents spec.offset
                spec.length
      unfolding receive_loop receive_round when_stored chunk_of
      receive_first spec rest e target left received expected sendable =
          let c = chunk_of spec in
          let (c2, after, got, wrote, copied) =
            write_verified_chunk-read_chunk kernel blake3 progress source target spec sendable.0
              sendable.2 in
          let known = read_chunk_lem kernel blake3 progress source spec sendable.2 in
          let same : c2 ≡ c = cc in
          let taken =
            receive_chunk-frame c (length source.contents) rest e small sendable
              (length-chunk_of spec sendable) (hash_bytes c.bytes) in
          let stored : write_verified_chunk kernel blake3 target c ≡ (after, ok tt) =
            rw same at wrote in
          (after, rw taken (rw stored refl), copied)
