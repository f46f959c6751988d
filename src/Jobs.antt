-- ===== src/Jobs.antt =====
-- The jobs that native/transfer_core/src/outgoing.rs makes from the peer's resume state, and the check
-- of a channel's number in incoming.rs. Of an outgoing entry only the id, the kind and the size count
-- here.
pub mod Totals
use transfer_assistant.Prelude.{
  ℕ, ◌+◌, Bool, List, [], ◌∷◌, ◌++◌, map, Option, none, some, Result, ok, err, ◌>>=◌, map_err, Text,
  if◌then◌else◌, leb, Dict, get, insert, list_eq, nat_eq,
}
use transfer_assistant.Chunk.{
  ChunkPlan, ChunkSpec, ResumeMap, default_chunk_size, max_data_channels, new_plan, new_map,
  from_bitmap_bytes, missing_chunks,
}
use transfer_assistant.Manifest.{EntryKind, is_directory}
use transfer_assistant.Protocol.Messages.{FileResume, ResumeState}
use transfer_assistant.Wire.{LanError, chunk_error, invalid_data_channel}

pub record JobEntry : Type 0 where
  pub item_id : Text
  pub kind : EntryKind
  pub size : ℕ

pub record ChunkJob : Type 0 where
  pub entry_index : ℕ
  pub spec : ChunkSpec

-- A map collected from the files: of two with one id the later counts.
abbrev pub bitmaps : List FileResume → Dict Text (List ℕ) → Dict Text (List ℕ)
bitmaps [] maps = maps
bitmaps (f ∷ rest) maps = bitmaps rest (insert (FileResume.item_id f) f.completed_bitmap maps)

unfoldable pub resume_map : ChunkPlan → Option (List ℕ) → Result LanError ResumeMap
resume_map plan (some bytes) = map_err (λ _. chunk_error) (from_bitmap_bytes plan.chunk_count bytes)
resume_map plan none = ok (new_map plan.chunk_count)

-- The chunks of one file that are missing.
unfoldable pub entry_chunks : JobEntry → Option (List ℕ) → Result LanError (List ChunkSpec)
entry_chunks entry bytes = do
  plan ← map_err (λ _. chunk_error) (new_plan entry.size default_chunk_size)
  m ← resume_map plan bytes
  map_err (λ _. chunk_error) (missing_chunks plan m)

-- The loop over the entries from an index on.
pub jobs_loop : Dict Text (List ℕ) → ℕ → List JobEntry → Result LanError (List ChunkJob)
jobs_loop maps index [] = ok []
jobs_loop maps index (entry ∷ rest) =
    if is_directory entry.kind then jobs_loop maps (index + 1) rest else (do
      specs ← entry_chunks entry (get (JobEntry.item_id entry) maps)
      later ← jobs_loop maps (index + 1) rest
      ok (map (λ spec. record { entry_index = index; spec = spec }) specs ++ later))

unfoldable pub build_chunk_jobs : List JobEntry → ResumeState → Result LanError (List ChunkJob)
unfolding jobs_loop
build_chunk_jobs entries resume = jobs_loop (bitmaps (ResumeState.files resume) []) 0 entries

unfoldable pub validate_channel : ℕ → Result LanError (Unit {0})
validate_channel channel_index =
    if leb max_data_channels channel_index then err invalid_data_channel else ok tt
