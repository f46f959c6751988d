-- ===== src/Transfer/Resume.antt =====
-- A file resumed through both ends of transfer.rs.
use transfer_assistant.Prelude.{
  ℕ, ◌+◌, ◌-◌, ◌*◌, ◌/◌, ◌≤◌, ◌<◌, ◌^◌, ◌≡◌, refl, sym, ap, ◌∙◌, List, [], ◌∷◌, ◌++◌, Text, ok, ltb,
  ◌==◌, if◌then◌else◌, length, arith, true, false, ◌&&◌, not, Bool-cases, inl, inr, get_or, All,
  any, list_ext, dec_lt,
}
use transfer_assistant.Prelude.Slices.{get_or-beyond}
use transfer_assistant.Io.{Writer, IoError}
use transfer_assistant.Chunk.{
  ChunkPlan, ChunkSpec, ResumeMap, default_chunk_size, chunk, contains, missing_chunks,
}
use transfer_assistant.Chunk.Plan.{
  IsPlan, spec_at, chunk-spec_at, chunk-eq-ok, chunk_outcome, byte_in_one_chunk,
}
use transfer_assistant.Chunk.Missing.{missing_chunks_outcome}
use transfer_assistant.Protocol.{Codec}
use transfer_assistant.Protocol.Messages.{ChunkHeader}
use transfer_assistant.Storage.{File, Kernel}
use transfer_assistant.Storage.Loops.{MakesProgress}
use transfer_assistant.Transfer.{send_file_chunks, receive_file_chunks, receive_loop}
use transfer_assistant.Transfer.Pipeline.{covers, IsSendable, chunk_room, Encodes}
use transfer_assistant.Transfer.Delivery.{Delivered, frames, send_loop_lem, receive_loop_lem}

module _ (plan : ChunkPlan) (v : IsPlan plan) where
  specs-IsSendable :
      (specs : List ChunkSpec)
      → plan.chunk_size ≤ default_chunk_size
      → All (λ s. chunk plan s.index ≡ ok s) specs
      → All (IsSendable plan.file_size) specs
  specs-IsSendable [] fits h = tt
  specs-IsSendable (s ∷ rest) fits h =
      let (inside, found) = chunk-eq-ok plan s.index s v h.0 in
      let (spec, same, at_index, offset_is, some_bytes, short, ends) =
        (chunk_outcome plan s.index v).0 inside in
      let is : s ≡ spec = cc (h.0, same) in
      (
        (
          omega (arith, ap ChunkSpec.length is, some_bytes),
          omega (arith, ap ChunkSpec.length is, short),
          omega (arith, ap ChunkSpec.length is, ap ChunkSpec.offset is, ends),
        ),
        specs-IsSendable rest fits h.1,
      )

  -- The chunk that holds a byte is found by its index.
  covered_by_index :
      (b : ℕ) (specs : List ChunkSpec)
      → b < plan.file_size
      → All (λ s. chunk plan s.index ≡ ok s) specs
      → any (covers b) specs ≡ any (λ s. s.index == b / plan.chunk_size) specs
  covered_by_index b [] inside h = refl
  covered_by_index b (s ∷ rest) inside h =
      let both = (byte_in_one_chunk plan b v inside).1 s.index s h.0 in
      let one : covers b s ≡ (s.index == b / plan.chunk_size) = ground (arith, both) in
      rw (one, covered_by_index b rest inside h.1) refl

  -- What is not delivered was there before.
  bytes_agree :
      (resume : ResumeMap) (specs : List ChunkSpec) (source target after : List ℕ)
      → length source ≡ plan.file_size
      → length after ≡ plan.file_size
      → All (λ s. chunk plan s.index ≡ ok s) specs
      → ((i : ℕ)
          → any (λ s. s.index == i) specs ≡ (ltb i plan.chunk_count && not (contains resume i)))
      → ((b : ℕ)
          → get_or after b 0
            ≡ (if any (covers b) specs then get_or source b 0 else get_or target b 0))
      → ((i : ℕ) (spec : ChunkSpec)
          → contains resume i ≡ true
          → chunk plan i ≡ ok spec
          → (b : ℕ) → covers b spec ≡ true
          → get_or target b 0 ≡ get_or source b 0)
      → (b : ℕ) → get_or after b 0 ≡ get_or source b 0
  bytes_agree resume specs source target after size after_size of_plan by_index delivered kept b =
      elim (dec_lt b plan.file_size) [
        | no out ↦
            get_or-beyond after b 0 (omega (arith, out))
            ∙ sym (get_or-beyond source b 0 (omega (arith, out)))
        | yes inside ↦
            let i = b / plan.chunk_size in
            let (in_plan, exactly) = byte_in_one_chunk plan b v inside in
            let cover = covered_by_index b specs inside of_plan ∙ by_index i in
            let found = chunk-spec_at plan i v in_plan in
            let here = delivered b in
            let both = (exactly i (spec_at plan i) found).1 refl in
            elim (Bool-cases (contains resume i)) [
              | inl marked ↦
                  let skipped : any (covers b) specs ≡ false =
                    (rw marked at cover) ∙ ground arith in
                  (rw skipped at here)
                  ∙ kept i (spec_at plan i) marked found b (ground (arith, both))
              | inr unmarked ↦
                  let sent : any (covers b) specs ≡ true =
                    (rw unmarked at cover) ∙ ground (arith, in_plan) in
                  rw sent at here
            ]
      ]

module _ (codec : Codec ChunkHeader) (transfer_id item_id : Text)
    (encodes : Encodes codec transfer_id item_id) (kernel : Kernel) (blake3 : List ℕ → List ℕ)
    (progress : MakesProgress kernel)
    (hash_bytes : (bytes : List ℕ) → length (blake3 bytes) ≡ 32) where
  receive_specs :
      (source : File) (small : length source.contents < 2 ^ 64 - 1) (specs : List ChunkSpec)
      (behind : List ℕ) (e : IoError) (target : File)
      → All (IsSendable (length source.contents)) specs
      → length target.contents ≡ length source.contents
      → (after : File) × (receive_file_chunks codec transfer_id item_id kernel blake3
            (record {
              bytes =
                  frames codec transfer_id item_id encodes kernel blake3 progress hash_bytes source
                    small specs
                  ++ behind;
              broken_by = e;
            })
            target
            (length source.contents)
            (length specs)
          ≡ (after, ok (length specs)))
        × Delivered source.contents specs target.contents after.contents
  unfolding receive_file_chunks receive_loop
  receive_specs source small [] behind e target sendable same = (target, refl, (refl, λ i. refl))
  receive_specs source small (spec ∷ rest) behind e target sendable same =
      receive_loop_lem codec transfer_id item_id encodes kernel blake3 progress hash_bytes source
        small spec rest behind e target 0 (length (spec ∷ rest)) sendable same (omega arith)

  -- A file is resumed completely: if the codec decodes its headers and keeps them within the limit,
  -- hashes have 32 bytes, file access makes progress, the chunks of the plan are at most 4 MiB, the
  -- stream has room for the chunks that are missing, and the target has the file's size and already
  -- agrees with the source on every chunk that the map marks, then the sender succeeds, and from
  -- what it writes, with whatever behind it, the receiver makes the target equal to the source.
  pub receive_file_chunks-send_file_chunks :
      (source target : File) (plan : ChunkPlan) (resume : ResumeMap) (w : Writer)
      → IsPlan plan
      → plan.chunk_size ≤ default_chunk_size
      → resume.chunk_count ≡ plan.chunk_count
      → length source.contents ≡ plan.file_size
      → length target.contents ≡ plan.file_size
      → plan.file_size < 2 ^ 64 - 1
      → ((specs : List ChunkSpec)
          → missing_chunks plan resume ≡ ok specs
          → length specs * chunk_room ≤ w.room)
      → ((i : ℕ) (spec : ChunkSpec)
          → contains resume i ≡ true
          → chunk plan i ≡ ok spec
          → (b : ℕ) → covers b spec ≡ true
          → get_or target.contents b 0 ≡ get_or source.contents b 0)
      → (w' : Writer) × (count : ℕ) × (sent : List ℕ) × (send_file_chunks codec transfer_id item_id
            kernel blake3 w source plan resume
          ≡ ok (w', count))
        × (w'.written ≡ w.written ++ sent)
        × ((behind : List ℕ) (e : IoError)
            → (after : File) × (receive_file_chunks codec transfer_id item_id kernel blake3
                  (record { bytes = sent ++ behind; broken_by = e })
                  target
                  plan.file_size
                  count
                ≡ (after, ok count))
              × (after.contents ≡ source.contents))
  unfolding send_file_chunks
  receive_file_chunks-send_file_chunks source target plan resume w v fits maps size target_size
        small room kept =
      let (specs, missing, of_plan, by_index) = missing_chunks_outcome plan resume v maps in
      let tiny : length source.contents < 2 ^ 64 - 1 = omega (arith, size, small) in
      let sendable : All (IsSendable (length source.contents)) specs =
        rw size (specs-IsSendable plan v specs fits of_plan) in
      let (w', sends, out) =
        send_loop_lem codec transfer_id item_id encodes kernel blake3 progress hash_bytes source
          tiny specs w 0 sendable (room specs missing) in
      let count : 0 + length specs ≡ length specs = omega arith in
      (
        w',
        length specs,
        frames codec transfer_id item_id encodes kernel blake3 progress hash_bytes source tiny
            specs,
        rw missing (sends ∙ ap (λ n. ok (w', n)) count),
        out,
        λ behind e.
            let (after, received, delivered) =
              receive_specs source tiny specs behind e target sendable (target_size ∙ sym size) in
            (
              after,
              ap
                    (λ n.
                      receive_file_chunks codec transfer_id item_id kernel blake3
                        (record {
                          bytes =
                              frames codec transfer_id item_id encodes kernel blake3 progress
                                hash_bytes source tiny specs
                              ++ behind;
                          broken_by = e;
                        })
                        target n (length specs))
                    (sym size)
                  ∙ received,
              list_ext after.contents source.contents 0 (delivered.0 ∙ target_size ∙ sym size) (λ b.
                  bytes_agree plan v resume specs source.contents target.contents after.contents
                    size (delivered.0 ∙ target_size) of_plan by_index delivered.1 kept b),
            ),
      )
