-- ===== src/Chunk.antt =====
-- native/transfer_core/src/chunk.rs: the plan that cuts a file into chunks, and the map of the
-- chunks that have arrived. A `&mut self` method returns the new map. Words and counters are natural
-- numbers; the conversions that can lose bits are written out. `usize` has at least 32 bits, so that
-- `usize::try_from` of a u32 succeeds. Indexing a vector out of bounds, where Rust panics, reads 0
-- and writes nothing; `Chunk.Marks.word_in_range` shows that no index is out of bounds.
pub mod Plan
pub mod Marks
pub mod Missing
pub mod Bitmap
use transfer_assistant.Prelude.Bits.{test_bit, set_bit}
use transfer_assistant.Prelude.{
  ℕ, zero, suc, ◌+◌, ◌-◌, ◌*◌, ◌/◌, ◌%◌, ◌^◌, Bool, true, false, not, List, [], ◌∷◌, map, Result,
  ok, err, ◌>>=◌, ◌>>◌, collect, leb, ltb, ◌==◌, if◌then◌else◌, get_or, set, replicate, filter,
  range, min,
}
use transfer_assistant.Prelude

abbrev pub default_chunk_size : ℕ
default_chunk_size = 4 * 1024 * 1024

abbrev pub max_buffer_bytes : ℕ
max_buffer_bytes = 64 * 1024 * 1024

abbrev pub max_data_channels : ℕ
max_data_channels = 4

abbrev pub u32_mod : ℕ
u32_mod = 2 ^ 32

pub record ChunkSpec : Type 0 where
  pub index : ℕ
  pub offset : ℕ
  pub length : ℕ

pub record ChunkPlan : Type 0 where
  pub file_size : ℕ
  pub chunk_size : ℕ
  pub chunk_count : ℕ

pub data ChunkError : Type 0 where
  zero_chunk_size : ChunkError
  too_many_chunks : ℕ → ChunkError
  index_out_of_range : ℕ → ℕ → ChunkError
  resume_map_mismatch : ℕ → ℕ → ChunkError
  invalid_bitmap_length : ℕ → ℕ → ChunkError

-- `div_ceil` of the unsigned integers.
unfoldable pub div_ceil : ℕ → ℕ → ℕ
div_ceil a b = if ltb 0 (a % b) then a / b + 1 else a / b

-- `ChunkPlan::new`.
unfoldable pub new_plan : ℕ → ℕ → Result ChunkError ChunkPlan
new_plan file_size chunk_size =
    if chunk_size == 0
    then err zero_chunk_size
    else (let count = div_ceil file_size chunk_size in
        if ltb count u32_mod
        then ok (record { file_size = file_size; chunk_size = chunk_size; chunk_count = count })
        else err (too_many_chunks count))

unfoldable pub chunk : ChunkPlan → ℕ → Result ChunkError ChunkSpec
chunk plan index =
    if leb plan.chunk_count index
    then err (index_out_of_range index plan.chunk_count)
    else (let offset = index * plan.chunk_size in
        let remaining = plan.file_size - offset in
        ok (record {
          index = index;
          offset = offset;
          length = min remaining plan.chunk_size % u32_mod;
        }))

pub record ResumeMap : Type 0 where
  pub chunk_count : ℕ
  pub completed_count : ℕ
  pub words : List ℕ

-- `ResumeMap::new`.
unfoldable pub new_map : ℕ → ResumeMap
new_map chunk_count = record {
  chunk_count = chunk_count;
  completed_count = 0;
  words = replicate (div_ceil chunk_count 64) 0;
}

unfoldable pub contains : ResumeMap → ℕ → Bool
contains m index =
    if leb m.chunk_count index then false else test_bit (get_or m.words (index / 64) 0) (index % 64)

unfoldable pub mark_complete : ResumeMap → ℕ → Result ChunkError (ResumeMap × Bool)
mark_complete m index =
    if leb m.chunk_count index
    then err (index_out_of_range index m.chunk_count)
    else (let word = index / 64 in
        let old = get_or m.words word 0 in
        if test_bit old (index % 64)
        then ok (m, false)
        else ok (
          record m {
            words = set m.words word (set_bit old (index % 64));
            completed_count = m.completed_count + 1;
          },
          true,
        ))

unfoldable pub is_complete : ResumeMap → Bool
is_complete m = m.completed_count == m.chunk_count

-- The loop of `to_bitmap_bytes` over the indices that are left.
bitmap_loop : ResumeMap → List ℕ → List ℕ → List ℕ
bitmap_loop m [] bytes = bytes
bitmap_loop m (index ∷ rest) bytes = bitmap_loop m rest (
    if contains m index
    then set bytes (index / 8) (set_bit (get_or bytes (index / 8) 0) (index % 8))
    else bytes)

unfoldable pub to_bitmap_bytes : ResumeMap → List ℕ
unfolding bitmap_loop
to_bitmap_bytes m = bitmap_loop m (range 0 m.chunk_count) (replicate (div_ceil m.chunk_count 8) 0)

-- The loop of `from_bitmap_bytes`.
marking_loop : List ℕ → List ℕ → ResumeMap → Result ChunkError ResumeMap
marking_loop bytes [] m = ok m
marking_loop bytes (index ∷ rest) m = do
  next ←
      if test_bit (get_or bytes (index / 8) 0) (index % 8)
      then (do p ← mark_complete m index; ok p.0)
      else ok m
  marking_loop bytes rest next

unfoldable pub from_bitmap_bytes : ℕ → List ℕ → Result ChunkError ResumeMap
unfolding marking_loop
from_bitmap_bytes chunk_count bytes =
    let expected = div_ceil chunk_count 8 in
    if Prelude.length bytes == expected
    then marking_loop bytes (range 0 chunk_count) (new_map chunk_count)
    else err (invalid_bitmap_length expected (Prelude.length bytes))

-- `resume_count` of incoming.rs.
unfoldable pub resume_count : ResumeMap → ℕ → ℕ
resume_count m chunk_count = Prelude.length (filter (contains m) (range 0 chunk_count))

unfoldable pub missing_chunks : ChunkPlan → ResumeMap → Result ChunkError (List ChunkSpec)
missing_chunks plan m =
    if m.chunk_count == plan.chunk_count
    then collect
        (map (chunk plan) (filter (λ index. not (contains m index)) (range 0 plan.chunk_count)))
    else err (resume_map_mismatch plan.chunk_count m.chunk_count)

-- The loop of `completed_bytes`.
completed_loop : ChunkPlan → ResumeMap → List ℕ → ℕ → Result ChunkError ℕ
completed_loop plan m [] bytes = ok bytes
completed_loop plan m (index ∷ rest) bytes = do
  more ← if contains m index then (do spec ← chunk plan index; ok spec.length) else ok 0
  completed_loop plan m rest (bytes + more)

unfoldable pub completed_bytes : ResumeMap → ChunkPlan → Result ChunkError ℕ
unfolding completed_loop
completed_bytes m plan =
    if m.chunk_count == plan.chunk_count
    then completed_loop plan m (range 0 m.chunk_count) 0
    else err (resume_map_mismatch plan.chunk_count m.chunk_count)
