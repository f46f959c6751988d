-- ===== src/Storage/Chunks.antt =====
-- Verified chunks of storage.rs: what reaches the file, and that a chunk read is a chunk written.
use transfer_assistant.Prelude.{
  ℕ, ◌+◌, ◌-◌, ◌≤◌, ◌<◌, ◌≡◌, ◌≢◌, refl, ap, ◌∙◌, List, [], ok, err, ◌==◌, ==_iff, length, take,
  drop, get_or, max, arith, length-take, length-drop, inl, inr, ◌⊎◌, Result-cases, true, false,
  list_beq, list_beq_iff, nat_eq,
}
use transfer_assistant.Prelude.Slices.{get_or-take, get_or-drop}
use transfer_assistant.Chunk.{ChunkSpec}
use transfer_assistant.Storage.{
  File, Kernel, VerifiedChunk, length_mismatch, hash_mismatch, overwrite, write_all_at,
  read_exact_at, read_chunk, write_verified_chunk, verify_chunk, write_if_verified,
}
use transfer_assistant.Storage.Moves.{
  Confined, Confined-refl, length-overwrite, overwrite_before, overwrite_inside, overwrite_behind,
}
use transfer_assistant.Storage.Loops.{
  MakesProgress, write_loop-Confined, write_loop_moves, read_loop_moves,
}

module _ (kernel : Kernel) (blake3 : List ℕ → List ℕ) where
  -- What the check of a chunk compares.
  abbrev IsAuthentic : VerifiedChunk → Type 0
  IsAuthentic c = (length c.bytes ≡ ChunkSpec.length c.spec) × (blake3 c.bytes ≡ c.blake3_hash)

  verify_chunk_ok : (c : VerifiedChunk) → IsAuthentic c → verify_chunk blake3 c ≡ ok tt
  unfolding verify_chunk
  verify_chunk_ok c (size, hash) = ground (
    arith,
    ==_iff (length c.bytes) (ChunkSpec.length c.spec),
    list_beq_iff nat_eq (blake3 c.bytes) c.blake3_hash,
  )

  -- Whatever the system's calls do, a chunk whose length or hash is not the declared one leaves the
  -- file as it was and is refused with the matching error; any other chunk changes at most the
  -- `length` positions from its offset on, and an empty one nothing.
  pub write_verified_chunk-Confined :
      (file : File) (c : VerifiedChunk)
      → (length c.bytes ≢ ChunkSpec.length c.spec
          → write_verified_chunk kernel blake3 file c
            ≡ (file, err (length_mismatch c.spec.index c.spec.length (length c.bytes))))
        × (length c.bytes ≡ ChunkSpec.length c.spec
            → blake3 c.bytes ≢ c.blake3_hash
            → write_verified_chunk kernel blake3 file c ≡ (file, err (hash_mismatch c.spec.index)))
        × Confined file.contents
            (write_verified_chunk kernel blake3 file c).0.contents
            c.spec.offset
            c.spec.length
  unfolding write_verified_chunk write_if_verified verify_chunk write_all_at
  write_verified_chunk-Confined file c = (
    λ wrong. let stop : (length c.bytes == c.spec.length) ≡ false = ground arith in rw stop refl,
    λ size wrong.
        let go_on : (length c.bytes == c.spec.length) ≡ true = ground arith in
        let stop : list_beq ◌==◌ (blake3 c.bytes) c.blake3_hash ≡ false =
          ground (arith, list_beq_iff nat_eq (blake3 c.bytes) c.blake3_hash) in
        rw (go_on, stop) refl,
    elim (Result-cases (verify_chunk blake3 c)) [
      | inl (e, refused) ↦ rw refused (Confined-refl file.contents c.spec.offset c.spec.length)
      | inr (done, passed) ↦
          let size : length c.bytes ≡ c.spec.length =
            ground (arith, ==_iff (length c.bytes) c.spec.length) in
          rw (passed, ← size)
            (write_loop-Confined kernel (length c.bytes) (record file { cursor = c.spec.offset })
              c.bytes)
    ],
  )

  -- With a system that makes progress, an authentic chunk is written whole, and the handle's own
  -- position stays.
  pub write_verified_chunk_lem :
      MakesProgress kernel
      → (file : File) (c : VerifiedChunk) → IsAuthentic c
      → 1 ≤ length c.bytes
      → write_verified_chunk kernel blake3 file c
        ≡ (record file { contents = overwrite file.contents c.spec.offset c.bytes }, ok tt)
  unfolding write_verified_chunk write_if_verified write_all_at
  write_verified_chunk_lem progress file c authentic some_bytes =
      rw
        (
          verify_chunk_ok c authentic,
          write_loop_moves kernel progress (length c.bytes) file.contents c.spec.offset c.bytes
              some_bytes (omega arith),
        )
        refl

  pub read_chunk_lem :
      MakesProgress kernel
      → (file : File) (spec : ChunkSpec) → spec.offset + spec.length ≤ length file.contents
      → let bytes = take spec.length (drop spec.offset file.contents) in
        read_chunk kernel blake3 file spec
        ≡ ok (record { spec = spec; blake3_hash = blake3 bytes; bytes = bytes })
  unfolding read_chunk read_exact_at
  read_chunk_lem progress file spec inside =
      rw
        (read_loop_moves kernel progress spec.length file.contents spec.length spec.offset []
          (omega arith) inside)
        refl

  -- `g` is `f` with the `n` positions from `o` on as in `s`.
  abbrev pub Copied : List ℕ → List ℕ → List ℕ → ℕ → ℕ → Type 0
  Copied s f g o n =
      (length g ≡ max (length f) (o + n))
      × ((i : ℕ) → (i < o) ⊎ (o + n ≤ i) → get_or g i 0 ≡ get_or f i 0)
      × ((i : ℕ) → o ≤ i → i < o + n → get_or g i 0 ≡ get_or s i 0)

  -- With a system that makes progress, every chunk that is not empty and lies inside the source file
  -- is read, passes the check and is written to the target: afterwards the target has the source's
  -- bytes at the chunk's positions and its own bytes at all others.
  pub write_verified_chunk-read_chunk :
      MakesProgress kernel
      → (source target : File) (spec : ChunkSpec) → 1 ≤ spec.length
      → spec.offset + spec.length ≤ length source.contents
      → (c : VerifiedChunk) × (after : File) × (read_chunk kernel blake3 source spec ≡ ok c)
        × (write_verified_chunk kernel blake3 target c ≡ (after, ok tt))
        × Copied source.contents target.contents after.contents spec.offset spec.length
  write_verified_chunk-read_chunk progress source target spec some_bytes inside =
      let o = spec.offset in
      let f = target.contents in
      let bytes = take spec.length (drop o source.contents) in
      let size : length bytes ≡ spec.length =
        omega (
          arith,
          length-take spec.length (drop o source.contents),
          length-drop o source.contents,
        ) in
      let c : VerifiedChunk = record { spec = spec; blake3_hash = blake3 bytes; bytes = bytes } in
      (
        c,
        record target { contents = overwrite f o bytes },
        read_chunk_lem progress source spec inside,
        write_verified_chunk_lem progress target c (size, refl) (omega (arith, size)),
        (
          omega (arith, length-overwrite f o bytes, size),
          λ i out. elim out [
            | inl low ↦ overwrite_before f o bytes i low
            | inr high ↦ overwrite_behind f o bytes i (omega (arith, size, high))
          ],
          λ i low high.
              let same : o + (i - o) ≡ i = omega arith in
              overwrite_inside f o bytes i low (omega (arith, size, high))
              ∙ ground (arith, get_or-take spec.length (drop o source.contents) (i - o) 0)
              ∙ get_or-drop o source.contents (i - o) 0
              ∙ ap (λ k. get_or source.contents k 0) same,
        ),
      )
