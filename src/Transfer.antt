-- ===== src/Transfer.antt =====
-- native/transfer_core/src/transfer.rs: the chunks of one file over one stream, each behind a header
-- with its place, its length and its hash. The encoding of headers (prost) is the parameter `codec`,
-- the hash (blake3) the parameter `blake3`, and `kernel` is the system's part in file access. Cloning
-- a handle and moving to a blocking thread do not fail here, so `JoinError` does not occur;
-- `shutdown` of the stream leaves the bytes written as they are. The receiver's file is
-- returned with its result, since it keeps what was written before an error.
pub mod Headers
pub mod Pipeline
pub mod Delivery
pub mod Resume
use transfer_assistant.Prelude.{
  ℕ, zero, suc, ◌+◌, ◌-◌, ◌*◌, ◌^◌, min, List, [], ◌∷◌, Bool, not, ◌||◌, Text, ◌=ₜ◌, Result, ok,
  err, ◌>>=◌, ◌>>◌, map_err, ltb, leb, ◌==◌, if◌then◌else◌, length,
}
use transfer_assistant.Io.{
  Reader, Writer, IoError, read_exact, write_all, to_be_bytes, from_be_bytes,
}
use transfer_assistant.Chunk.{
  ChunkPlan, ChunkSpec, ChunkError, ResumeMap, default_chunk_size, missing_chunks,
}
use transfer_assistant.Protocol.{Codec}
use transfer_assistant.Protocol.Messages.{ChunkHeader}
use transfer_assistant.Storage.{
  File, Kernel, VerifiedChunk, StorageError, read_chunk, write_verified_chunk,
}

abbrev pub max_chunk_header_bytes : ℕ
max_chunk_header_bytes = 64 * 1024

pub data TransferIoError : Type 0 where
  io : IoError → TransferIoError
  storage : StorageError → TransferIoError
  chunk_error : ChunkError → TransferIoError
  decode_error : TransferIoError
  header_too_large : ℕ → TransferIoError
  unexpected_chunk : Text → Text → TransferIoError
  invalid_chunk_length : ℕ → TransferIoError
  chunk_outside_file : ℕ → ℕ → ℕ → TransferIoError
  invalid_hash_length : ℕ → TransferIoError

-- `u64::saturating_add`.
abbrev pub saturating_add : ℕ → ℕ → ℕ
saturating_add a b = min (a + b) (2 ^ 64 - 1)

unfoldable pub validate_header : ChunkHeader → Text → Text → ℕ → Result TransferIoError (Unit {0})
validate_header header transfer_id item_id file_size =
    if not (header.transfer_id =ₜ transfer_id) || not (header.item_id =ₜ item_id)
    then err (unexpected_chunk header.transfer_id header.item_id)
    else if (header.length == 0) || ltb default_chunk_size header.length
    then err (invalid_chunk_length header.length)
    else if ltb file_size (saturating_add header.offset header.length)
    then err (chunk_outside_file header.offset header.length file_size)
    else if length header.blake3_hash == 32
    then ok tt
    else err (invalid_hash_length (length header.blake3_hash))

-- The header that `send_file_chunks` writes before a chunk.
abbrev pub header_of : Text → Text → VerifiedChunk → ChunkHeader
header_of transfer_id item_id c = record {
  transfer_id = transfer_id;
  item_id = item_id;
  chunk_index = c.spec.index;
  offset = c.spec.offset;
  length = c.spec.length;
  blake3_hash = c.blake3_hash;
}

-- What follows the write of a chunk, if that succeeds.
pub when_stored :
    (File × Result StorageError (Unit {0}))
    → (File → File × Result TransferIoError ℕ)
    → File × Result TransferIoError ℕ
when_stored (target, err e) next = (target, err (storage e))
when_stored (target, ok _) next = next target

module _ (codec : Codec ChunkHeader) where
  unfoldable pub write_header : Writer → ChunkHeader → Result TransferIoError Writer
  write_header writer header =
      let encoded = codec.encode_to_vec header in
      if ltb max_chunk_header_bytes (length encoded)
      then err (header_too_large (length encoded))
      else (do
        w1 ← map_err io (write_all writer (to_be_bytes (length encoded)))
        map_err io (write_all w1 encoded))

  -- What follows the length.
  pub read_header_body : ℕ → Reader → Result TransferIoError (ChunkHeader × Reader)
  read_header_body size r =
      if ltb max_chunk_header_bytes size then err (header_too_large size) else (do
        (encoded, rest) ← map_err io (read_exact r size)
        header ← map_err (λ _. decode_error) (codec.decode encoded)
        ok (header, rest))

  unfoldable pub read_header : Reader → Result TransferIoError (ChunkHeader × Reader)
  unfolding read_header_body
  read_header r = do
    (length_bytes, rest) ← map_err io (read_exact r 4)
    read_header_body (from_be_bytes length_bytes) rest

  module _ (transfer_id item_id : Text) where
    -- A header and the chunk behind it, in the loop of `receive_file_chunks`.
    pub receive_chunk : ℕ → Reader → Result TransferIoError (VerifiedChunk × Reader)
    receive_chunk file_size reader = do
      (header, r1) ← read_header reader
      validate_header header transfer_id item_id file_size >> (do
        (bytes, r2) ← map_err io (read_exact r1 header.length)
        (if length header.blake3_hash == 32
            then ok (
              record {
                spec = record {
                  index = header.chunk_index;
                  offset = header.offset;
                  length = header.length;
                };
                blake3_hash = header.blake3_hash;
                bytes = bytes;
              },
              r2,
            )
            else err (invalid_hash_length (length header.blake3_hash))))

  module _ (transfer_id item_id : Text) (kernel : Kernel) (blake3 : List ℕ → List ℕ) where
    -- The loop of `send_file_chunks`, with the number of chunks sent so far.
    pub send_loop : File → List ChunkSpec → Writer → ℕ → Result TransferIoError (Writer × ℕ)
    send_loop source [] writer sent = ok (writer, sent)
    send_loop source (spec ∷ rest) writer sent = do
      c ← map_err storage (read_chunk kernel blake3 source spec)
      w1 ← write_header writer (header_of transfer_id item_id c)
      w2 ← map_err io (write_all w1 c.bytes)
      send_loop source rest w2 (sent + 1)

    unfoldable pub send_file_chunks :
        Writer → File → ChunkPlan → ResumeMap → Result TransferIoError (Writer × ℕ)
    unfolding send_loop
    send_file_chunks writer source plan resume = do
      missing ← map_err chunk_error (missing_chunks plan resume)
      send_loop source missing writer 0

    -- A round of the loop, with what was received and what follows the write.
    pub receive_round :
        File
        → Result TransferIoError (VerifiedChunk × Reader)
        → (Reader → File → File × Result TransferIoError ℕ)
        → File × Result TransferIoError ℕ
    receive_round target (err e) next = (target, err e)
    receive_round target (ok (c, reader)) next =
        when_stored (write_verified_chunk kernel blake3 target c) (next reader)

    -- The loop over the rounds that are left.
    pub receive_loop : ℕ → ℕ → ℕ → ℕ → Reader → File → File × Result TransferIoError ℕ
    receive_loop file_size expected zero received reader target = (target, ok 0)
    receive_loop file_size expected (suc left) received reader target =
        receive_round target (receive_chunk transfer_id item_id file_size reader) (λ r after.
          if received + 1 == expected
          then (after, ok expected)
          else receive_loop file_size expected left (received + 1) r after)

    unfoldable pub receive_file_chunks : Reader → File → ℕ → ℕ → File × Result TransferIoError ℕ
    unfolding receive_loop
    receive_file_chunks reader target file_size expected_chunks =
        receive_loop file_size expected_chunks expected_chunks 0 reader target
