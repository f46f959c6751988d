-- ===== src/Examples/Streams.antt =====
-- Concrete streams, frames and headers.
use transfer_assistant.Prelude.{
  ◌≡◌, ◌↔◌, refl, ok, err, List, [], ◌∷◌, ◌++◌, ℕ, ◌≤◌, ◌+◌, ◌*◌, length, arith, text, none,
  replicate,
}
use transfer_assistant.Io.{
  Reader, Writer, IoError, timed_out, unexpected_eof, write_all, to_be_bytes, from_be_bytes,
}
use transfer_assistant.Chunk.{default_chunk_size}
use transfer_assistant.Protocol.{Codec, write_envelope, read_envelope, frame_too_large}
use transfer_assistant.Protocol.Messages.{Envelope, ChunkHeader}
use transfer_assistant.Protocol.Framing.{
  write_frames, read_frames, read_frames-write_frames, read_envelope_limits,
}
use transfer_assistant.Transfer.{validate_header}
use transfer_assistant.Transfer.Headers.{validate_header_ok}

abbrev bare : Envelope
bare = record { protocol_major = 1; protocol_minor = 0; payload = none }

-- A codec that knows one message.
abbrev bare_codec : Codec Envelope
bare_codec = record { encode_to_vec = λ m. 8 ∷ 1 ∷ []; decode = λ bytes. ok bare }

abbrev empty_stream : Writer
empty_stream = record { written = []; room = 100; broken_by = timed_out }

abbrev full_stream : Writer
full_stream = record {
  written = 0 ∷ 0 ∷ 0 ∷ 2 ∷ 8 ∷ 1 ∷ 0 ∷ 0 ∷ 0 ∷ 2 ∷ 8 ∷ 1 ∷ [];
  room = 88;
  broken_by = timed_out;
}

read_frames-write_frames_example :
    (sent : List ℕ) × (Writer.written full_stream ≡ [] ++ sent)
    × ((rest : List ℕ) (e : IoError)
        → read_frames bare_codec 2 (record { bytes = sent ++ rest; broken_by = e })
          ≡ ok (bare ∷ bare ∷ [], record { bytes = rest; broken_by = e }))
unfolding write_frames write_envelope write_all to_be_bytes
read_frames-write_frames_example =
    read_frames-write_frames bare_codec (bare ∷ bare ∷ []) empty_stream full_stream
      (refl, (refl, tt)) (refl, (refl, tt)) refl

-- A length of 2 MiB.
abbrev long_stream : Reader
long_stream = record { bytes = 0 ∷ 32 ∷ 0 ∷ 0 ∷ 8 ∷ 1 ∷ []; broken_by = unexpected_eof }

read_envelope_limits_example :
    read_envelope bare_codec long_stream ≡ err (frame_too_large (2 * 1024 * 1024) (1024 * 1024))
unfolding from_be_bytes
read_envelope_limits_example =
    (read_envelope_limits bare_codec long_stream).1 (0 ∷ 32 ∷ 0 ∷ 0 ∷ []) (8 ∷ 1 ∷ []) refl refl
      (omega arith)

abbrev header : ChunkHeader
header = record {
  transfer_id = text "t";
  item_id = text "i";
  chunk_index = 1;
  offset = 4;
  length = 4;
  blake3_hash = replicate 32 7;
}

validate_header_ok_example : (validate_header header (text "t") (text "i") 7 ≡ ok tt) ↔ (
    (text "t" ≡ text "t")
    × (text "i" ≡ text "i")
    × (1 ≤ 4)
    × (4 ≤ default_chunk_size)
    × (4 + 4 ≤ 7)
    × (length header.blake3_hash ≡ 32))
validate_header_ok_example = validate_header_ok header (text "t") (text "i") 7 (omega arith)
