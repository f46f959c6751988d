-- ===== src/Storage.antt =====
-- native/transfer_core/src/storage.rs: chunks read from and written to files, checked by their
-- BLAKE3 hash. The hash (crate blake3) is a parameter. Of the operating system's positioned reads
-- and writes the model has how many bytes one call moves (`Kernel`): any number up to the wanted
-- one, or an error; like on Unix they leave the file's own cursor alone. An operation on a file
-- returns the file with its result, since a write that fails may have written a part. The loops run
-- on fuel, one unit for each byte of the buffer: `Storage.Moves` shows that this is enough.
pub mod Moves
pub mod Loops
pub mod Chunks
use transfer_assistant.Prelude.{
  ℕ, zero, suc, ◌+◌, ◌-◌, ◌%◌, ◌^◌, List, [], ◌∷◌, ◌++◌, Result, ok, err, ◌>>=◌, ◌>>◌, map_err,
  ◌==◌, if◌then◌else◌, length, take, drop, replicate, min, list_beq,
}
use transfer_assistant.Io.{IoError, unexpected_eof, other_error}
use transfer_assistant.Chunk.{ChunkSpec}
use transfer_assistant.Prelude

-- The contents of a file, and the position of its handle.
pub record File : Type 0 where
  pub contents : List ℕ
  pub cursor : ℕ

-- How many bytes a call moves, by the position and the wanted number.
pub record Kernel : Type 0 where
  pub read_count : ℕ → ℕ → Result IoError ℕ
  pub write_count : ℕ → ℕ → Result IoError ℕ

pub record VerifiedChunk : Type 0 where
  pub spec : ChunkSpec
  pub blake3_hash : List ℕ
  pub bytes : List ℕ

pub data StorageError : Type 0 where
  io : IoError → StorageError
  eof_at : ℕ → StorageError
  write_zero : ℕ → StorageError
  length_mismatch : ℕ → ℕ → ℕ → StorageError
  hash_mismatch : ℕ → StorageError

-- The contents after `bytes` are written at `offset`: a gap before them is filled with zeros.
unfoldable pub overwrite : List ℕ → ℕ → List ℕ → List ℕ
overwrite contents offset bytes =
    (take offset contents ++ replicate (offset - length contents) 0)
    ++ (bytes ++ drop (offset + length bytes) contents)

unfoldable pub verify_chunk : (List ℕ → List ℕ) → VerifiedChunk → Result StorageError (Unit {0})
verify_chunk blake3 c =
    if length c.bytes == ChunkSpec.length c.spec
    then (if list_beq ◌==◌ (blake3 c.bytes) c.blake3_hash
        then ok tt
        else err (hash_mismatch (ChunkSpec.index c.spec)))
    else err (length_mismatch (ChunkSpec.index c.spec) (ChunkSpec.length c.spec) (length c.bytes))

write_if_verified :
    File
    → Result StorageError (Unit {0})
    → (File × Result StorageError (Unit {0}))
    → File × Result StorageError (Unit {0})
write_if_verified file (err e) written = (file, err e)
write_if_verified file (ok _) written = written

module _ (kernel : Kernel) where
  -- At the file's end fewer bytes, or none, are read.
  unfoldable pub positioned_read : List ℕ → ℕ → ℕ → Result IoError (List ℕ)
  positioned_read contents wanted offset = do
    count ← kernel.read_count offset wanted
    ok (take (min count wanted) (drop offset contents))

  -- The number of bytes written, and the new contents.
  unfoldable pub positioned_write : List ℕ → List ℕ → ℕ → Result IoError (ℕ × List ℕ)
  positioned_write contents buffer offset = do
    count ← kernel.write_count offset (length buffer)
    (let written = min count (length buffer) in
        ok (
          written,
          (if written == 0 then contents else overwrite contents offset (take written buffer)),
        ))

  -- The loop of `read_exact_at`, with the bytes read so far.
  pub read_loop : ℕ → List ℕ → ℕ → ℕ → List ℕ → Result StorageError (List ℕ)
  read_loop fuel contents zero offset done = ok done
  read_loop zero contents (suc n) offset done = err (eof_at offset)
  read_loop (suc fuel) contents (suc n) offset done = do
    bytes ← map_err io (positioned_read contents (suc n) offset)
    (if length bytes == 0
        then err (eof_at offset)
        else read_loop fuel contents (suc n - length bytes) (offset + length bytes) (done ++ bytes))

  unfoldable pub read_exact_at : File → ℕ → ℕ → Result StorageError (List ℕ)
  unfolding read_loop
  read_exact_at file wanted offset = read_loop wanted file.contents wanted offset []

  -- A round of the loop of `write_all_at`, with what the write returned and the rounds that follow.
  write_round :
      (File → List ℕ → File × Result StorageError (Unit {0}))
      → File
      → List ℕ
      → Result IoError (ℕ × List ℕ)
      → File × Result StorageError (Unit {0})
  write_round next file buffer (err e) = (file, err (io e))
  write_round next file buffer (ok (written, contents)) =
      if written == 0
      then (file, err (write_zero file.cursor))
      else next (record { contents = contents; cursor = file.cursor + written })
          (drop written buffer)

  -- The loop of `write_all_at` from the position of the file's cursor.
  pub write_loop : ℕ → File → List ℕ → File × Result StorageError (Unit {0})
  write_loop fuel file [] = (file, ok tt)
  write_loop zero file (b ∷ bs) = (file, err (write_zero file.cursor))
  write_loop (suc fuel) file (b ∷ bs) =
      write_round (write_loop fuel) file (b ∷ bs)
        (positioned_write file.contents (b ∷ bs) file.cursor)

  unfoldable pub write_all_at : File → List ℕ → ℕ → File × Result StorageError (Unit {0})
  unfolding write_loop write_round
  write_all_at file buffer offset =
      let (after, result) = write_loop (length buffer) (record file { cursor = offset }) buffer in
      (record after { cursor = file.cursor }, result)

  -- `File`'s own `read_exact` and `write_all`, from its cursor.
  unfoldable pub read_exact_file : File → ℕ → Result StorageError (List ℕ × File)
  unfolding read_loop
  read_exact_file file wanted = do
    bytes ← map_err (λ e. io unexpected_eof) (read_loop wanted file.contents wanted file.cursor [])
    ok (bytes, record file { cursor = file.cursor + length bytes })

  unfoldable pub write_all_file : File → List ℕ → File × Result StorageError (Unit {0})
  unfolding write_loop write_round
  write_all_file file buffer =
      let (after, result) = write_loop (length buffer) file buffer in
      (after, map_err (λ e. io other_error) result)

  module _ (blake3 : List ℕ → List ℕ) where
    unfoldable pub read_chunk : File → ChunkSpec → Result StorageError VerifiedChunk
    read_chunk file spec = do
      bytes ← read_exact_at file (ChunkSpec.length spec) (ChunkSpec.offset spec)
      ok (record { spec = spec; blake3_hash = blake3 bytes; bytes = bytes })

    unfoldable pub read_sequential_chunk :
        File → ChunkSpec → Result StorageError (VerifiedChunk × File)
    read_sequential_chunk file spec = do
      (bytes, after) ← read_exact_file file (ChunkSpec.length spec)
      ok (record { spec = spec; blake3_hash = blake3 bytes; bytes = bytes }, after)

    unfoldable pub write_verified_chunk :
        File → VerifiedChunk → File × Result StorageError (Unit {0})
    unfolding write_if_verified
    write_verified_chunk file c =
        write_if_verified file (verify_chunk blake3 c)
          (write_all_at file c.bytes (ChunkSpec.offset c.spec))

    unfoldable pub write_sequential_verified_chunk :
        File → VerifiedChunk → File × Result StorageError (Unit {0})
    unfolding write_if_verified
    write_sequential_verified_chunk file c =
        write_if_verified file (verify_chunk blake3 c) (write_all_file file c.bytes)
