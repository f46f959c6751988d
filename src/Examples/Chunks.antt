-- ===== src/Examples/Chunks.antt =====
-- A file of ten bytes in chunks of four, the middle one of which has arrived.
use transfer_assistant.Prelude.{
  ◌≡◌, ◌↔◌, refl, ok, err, true, List, [], ◌∷◌, ℕ, ◌≤◌, ◌<◌, ◌+◌, arith, sum_list, map, All, any,
  ltb, ◌&&◌, not, ◌==◌,
}
use transfer_assistant.Prelude.Bits.{test_bit, set_bit}
use transfer_assistant.Chunk.{
  ChunkPlan, ChunkSpec, ResumeMap, new_plan, chunk, new_map, mark_complete, contains, is_complete,
  missing_chunks, completed_bytes, to_bitmap_bytes, from_bitmap_bytes, invalid_bitmap_length,
  index_out_of_range, div_ceil,
}
use transfer_assistant.Chunk.Plan.{IsPlan, new_plan-IsPlan, chunk_outcome, byte_in_one_chunk}
use transfer_assistant.Chunk.Marks.{
  IsValid, Marks, new_map-IsValid, mark_complete_outcome, is_complete_iff,
}
use transfer_assistant.Chunk.Missing.{completed-missing, missing_chunks_outcome}
use transfer_assistant.Chunk.Bitmap.{from_bitmap_bytes_outcome, from_bitmap_bytes-to_bitmap_bytes}

abbrev plan : ChunkPlan
plan = record { file_size = 10; chunk_size = 4; chunk_count = 3 }

plan-IsPlan : IsPlan plan
unfolding new_plan div_ceil
plan-IsPlan = (new_plan-IsPlan 10 4 plan (omega arith) refl).0

abbrev pub arrived : ResumeMap
arrived = record { chunk_count = 3; completed_count = 1; words = 2 ∷ [] }

-- The map is the one that marking chunk 1 gives.
pub arrived-IsValid : IsValid arrived
unfolding mark_complete new_map contains div_ceil test_bit set_bit
arrived-IsValid =
    let (m, marked, v, _, _, _) =
      (mark_complete_outcome (new_map 3) 1 (new_map-IsValid 3)).0 (omega arith) in
    let known : mark_complete (new_map 3) 1 ≡ ok (arrived, true) = refl in
    let same : m ≡ arrived = cc in rw same at v

chunk_outcome_example :
    (spec : ChunkSpec) × (chunk plan 2 ≡ ok spec)
    × (spec.index ≡ 2)
    × (spec.offset ≡ 8)
    × (0 < spec.length)
    × (spec.length ≤ 4)
    × (spec.offset + spec.length ≤ 10)
chunk_outcome_example = (chunk_outcome plan 2 plan-IsPlan).0 (omega arith)

byte_in_one_chunk_example :
    (1 < 3)
    × ((i : ℕ) (spec : ChunkSpec)
        → chunk plan i ≡ ok spec
        → ((spec.offset ≤ 5) × (5 < spec.offset + spec.length)) ↔ (i ≡ 1))
byte_in_one_chunk_example = byte_in_one_chunk plan 5 plan-IsPlan (omega arith)

mark_complete_outcome_example :
    (2 < 3 → Marks arrived 2) × (3 ≤ 2 → mark_complete arrived 2 ≡ err (index_out_of_range 2 3))
mark_complete_outcome_example = mark_complete_outcome arrived 2 arrived-IsValid

is_complete_iff_example :
    ((is_complete arrived ≡ true) ↔ ((i : ℕ) → i < 3 → contains arrived i ≡ true)) × (1 ≤ 3)
is_complete_iff_example = is_complete_iff arrived arrived-IsValid

completed-missing_example :
    (specs : List ChunkSpec) × (done : ℕ) × (missing_chunks plan arrived ≡ ok specs)
    × (completed_bytes arrived plan ≡ ok done)
    × (done + sum_list (map (λ s. s.length) specs) ≡ 10)
completed-missing_example = (completed-missing plan arrived plan-IsPlan).0 refl

missing_chunks_outcome_example :
    (specs : List ChunkSpec) × (missing_chunks plan arrived ≡ ok specs)
    × All (λ s. chunk plan s.index ≡ ok s) specs
    × ((i : ℕ) → any (λ s. s.index == i) specs ≡ (ltb i 3 && not (contains arrived i)))
missing_chunks_outcome_example = missing_chunks_outcome plan arrived plan-IsPlan refl

from_bitmap_bytes_outcome_example : from_bitmap_bytes 9 (255 ∷ []) ≡ err (invalid_bitmap_length 2 1)
unfolding div_ceil
from_bitmap_bytes_outcome_example = (from_bitmap_bytes_outcome 9 (255 ∷ [])).1 (λ e. cc)

from_bitmap_bytes-to_bitmap_bytes_example :
    from_bitmap_bytes 3 (to_bitmap_bytes arrived) ≡ ok arrived
from_bitmap_bytes-to_bitmap_bytes_example =
    from_bitmap_bytes-to_bitmap_bytes arrived arrived-IsValid
