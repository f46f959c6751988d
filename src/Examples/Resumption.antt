-- ===== src/Examples/Resumption.antt =====
-- A file of five bytes in chunks of two, of which the receiver already has the middle one.
use transfer_assistant.Prelude.{
  ◌≡◌, refl, ap, ok, err, Result, List, [], ◌∷◌, ◌++◌, ℕ, zero, suc, ◌≤◌, ◌<◌, ◌*◌, length, arith,
  text, take, drop, replicate, true, get_or, ℕ_discrete, length-append, take-append, drop-append,
}
use transfer_assistant.Prelude.Bits.{test_bit}
use transfer_assistant.Io.{Writer, IoError, timed_out}
use transfer_assistant.Chunk.{
  ChunkPlan, ChunkSpec, ResumeMap, new_plan, chunk, contains, missing_chunks, div_ceil,
}
use transfer_assistant.Chunk.Plan.{IsPlan, new_plan-IsPlan}
use transfer_assistant.Protocol.{Codec}
use transfer_assistant.Protocol.Messages.{ChunkHeader}
use transfer_assistant.Storage.{
  File, Kernel, VerifiedChunk, read_chunk, write_verified_chunk, hash_mismatch,
}
use transfer_assistant.Storage.Loops.{MakesProgress}
use transfer_assistant.Storage.Chunks.{
  Copied, write_verified_chunk-Confined, write_verified_chunk-read_chunk,
}
use transfer_assistant.Transfer.{send_file_chunks, receive_file_chunks}
use transfer_assistant.Transfer.Pipeline.{Encodes, covers, chunk_room}
use transfer_assistant.Transfer.Resume.{receive_file_chunks-send_file_chunks}

-- The fields one behind the other, each text behind its length.
abbrev decode_plain : List ℕ → Result (Unit {0}) ChunkHeader
decode_plain (n ∷ m ∷ index ∷ offset ∷ size ∷ bytes) = ok (record {
  transfer_id = take n bytes;
  item_id = take m (drop n bytes);
  chunk_index = index;
  offset = offset;
  length = size;
  blake3_hash = drop m (drop n bytes);
})
decode_plain _ = err tt

abbrev plain_codec : Codec ChunkHeader
plain_codec = record {
  encode_to_vec = λ h.
      length (ChunkHeader.transfer_id h)
      ∷ length (ChunkHeader.item_id h)
      ∷ h.chunk_index
      ∷ h.offset
      ∷ h.length
      ∷ (ChunkHeader.transfer_id h ++ (ChunkHeader.item_id h ++ h.blake3_hash));
  decode = decode_plain;
}

plain_codec-Encodes : Encodes plain_codec (text "t") (text "i")
plain_codec-Encodes = record {
  faithful = λ h.
      let t = ChunkHeader.transfer_id h in
      let i = ChunkHeader.item_id h in
      rw
        (
          drop-append t (i ++ h.blake3_hash),
          take-append t (i ++ h.blake3_hash),
          drop-append i h.blake3_hash,
          take-append i h.blake3_hash,
        )
        refl;
  short = λ h t i hash. omega (
    arith,
    ap length t,
    ap length i,
    length-append (ChunkHeader.transfer_id h) (ChunkHeader.item_id h ++ h.blake3_hash),
    length-append (ChunkHeader.item_id h) h.blake3_hash,
  );
}

-- One byte at a time.
abbrev slow : Kernel
slow = record { read_count = λ offset wanted. ok 1; write_count = λ offset wanted. ok 1 }

slow-MakesProgress : MakesProgress slow
slow-MakesProgress offset wanted h = ((1, refl, omega arith), (1, refl, omega arith))

-- A hash of 32 equal bytes.
abbrev sum_hash : List ℕ → List ℕ
sum_hash bytes = replicate 32 (get_or bytes 0 0)

abbrev source : File
source = record { contents = 1 ∷ 2 ∷ 3 ∷ 4 ∷ 5 ∷ []; cursor = 0 }

abbrev target : File
target = record { contents = 0 ∷ 0 ∷ 3 ∷ 4 ∷ 0 ∷ []; cursor = 0 }

write_verified_chunk-read_chunk_example :
    (c : VerifiedChunk) × (after : File) × (read_chunk slow sum_hash source
        (record { index = 2; offset = 4; length = 1 })
      ≡ ok c)
    × (write_verified_chunk slow sum_hash target c ≡ (after, ok tt))
    × Copied slow sum_hash (File.contents source) (File.contents target) after.contents 4 1
write_verified_chunk-read_chunk_example =
    write_verified_chunk-read_chunk slow sum_hash slow-MakesProgress source target
      (record { index = 2; offset = 4; length = 1 }) (omega arith) (omega arith)

-- A chunk whose first byte changed on the way.
abbrev corrupted : VerifiedChunk
corrupted = record {
  spec = record { index = 0; offset = 0; length = 2 };
  blake3_hash = sum_hash (1 ∷ 2 ∷ []);
  bytes = 9 ∷ 2 ∷ [];
}

write_verified_chunk-Confined_example :
    write_verified_chunk slow sum_hash target corrupted ≡ (target, err (hash_mismatch 0))
write_verified_chunk-Confined_example =
    (write_verified_chunk-Confined slow sum_hash target corrupted).1 refl (λ e. cc)

abbrev plan : ChunkPlan
plan = record { file_size = 5; chunk_size = 2; chunk_count = 3 }

plan-IsPlan : IsPlan plan
unfolding new_plan div_ceil
plan-IsPlan = (new_plan-IsPlan 5 2 plan (omega arith) refl).0

abbrev middle : ResumeMap
middle = record { chunk_count = 3; completed_count = 1; words = 2 ∷ [] }

abbrev stream : Writer
stream = record { written = []; room = 100 * chunk_room; broken_by = timed_out }

room_enough :
    (specs : List ChunkSpec)
    → missing_chunks plan middle ≡ ok specs
    → length specs * chunk_room ≤ 100 * chunk_room
unfolding missing_chunks contains chunk test_bit
room_enough specs h =
    let two : missing_chunks plan middle
        ≡ ok (
            record { index = 0; offset = 0; length = 2 }
            ∷ record { index = 2; offset = 4; length = 1 }
            ∷ []) =
      refl in
    let same : specs
        ≡ record { index = 0; offset = 0; length = 2 }
          ∷ record { index = 2; offset = 4; length = 1 }
          ∷ [] =
      cc in
    rw same (omega arith)

only_middle : (i : ℕ) → contains middle i ≡ true → i ≡ 1
unfolding contains test_bit
only_middle zero m = cc
only_middle (suc zero) m = refl
only_middle (suc (suc zero)) m = cc
only_middle (suc (suc (suc i))) m = ground arith

same_in_middle :
    (b : ℕ) → 2 ≤ b → b < 4 → get_or (File.contents target) b 0 ≡ get_or (File.contents source) b 0
same_in_middle b low high = elim (ℕ_discrete b 2) [
  | yes e ↦ rw e refl
  | no ne ↦ let e : b ≡ 3 = omega (arith, ne) in rw e refl
]

middle_kept :
    (i : ℕ) (spec : ChunkSpec)
    → contains middle i ≡ true
    → chunk plan i ≡ ok spec
    → (b : ℕ) → covers b spec ≡ true
    → get_or (File.contents target) b 0 ≡ get_or (File.contents source) b 0
unfolding chunk
middle_kept i spec m found b inside =
    let known : chunk plan 1 ≡ ok (record { index = 1; offset = 2; length = 2 }) = refl in
    let here : chunk plan 1 ≡ ok spec = rw (only_middle i m) at found in
    let same : spec ≡ record { index = 1; offset = 2; length = 2 } = cc in
    let covered : covers b (record { index = 1; offset = 2; length = 2 }) ≡ true =
      rw same at inside in
    same_in_middle b (ground arith) (ground arith)

receive_file_chunks-send_file_chunks_example :
    (w' : Writer) × (count : ℕ) × (sent : List ℕ) × (send_file_chunks plain_codec
        (text "t")
        (text "i")
        slow
        sum_hash
        stream
        source
        plan
        middle
      ≡ ok (w', count))
    × (w'.written ≡ [] ++ sent)
    × ((behind : List ℕ) (e : IoError)
        → (after : File) × (receive_file_chunks plain_codec
              (text "t")
              (text "i")
              slow
              sum_hash
              (record { bytes = sent ++ behind; broken_by = e })
              target
              5
              count
            ≡ (after, ok count))
          × (after.contents ≡ File.contents source))
receive_file_chunks-send_file_chunks_example =
    receive_file_chunks-send_file_chunks plain_codec (text "t") (text "i") plain_codec-Encodes slow
      sum_hash slow-MakesProgress (λ bytes. refl) source target plan middle stream plan-IsPlan
      (omega arith) refl refl refl (omega arith) room_enough middle_kept
