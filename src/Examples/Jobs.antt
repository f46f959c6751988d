-- ===== src/Examples/Jobs.antt =====
-- A job of a directory and a file of ten MiB, of which the middle chunk has arrived.
use transfer_assistant.Prelude.{
  ◌≡◌, refl, ok, List, [], ◌∷◌, ◌+◌, ◌*◌, text, get, insert, All, list_eq, nat_eq,
}
use transfer_assistant.Chunk.{ChunkPlan, new_plan, to_bitmap_bytes, div_ceil}
use transfer_assistant.Manifest.{file, directory}
use transfer_assistant.Protocol.Messages.{ResumeState}
use transfer_assistant.Jobs.{JobEntry, ChunkJob, bitmaps, build_chunk_jobs}
use transfer_assistant.Jobs.Totals.{
  resumed_bytes, job_bytes, file_bytes, IsSent, build_chunk_jobs_lem,
}
use transfer_assistant.Examples.Chunks.{arrived, arrived-IsValid}

abbrev entries : List JobEntry
entries =
    record { item_id = text "d"; kind = directory; size = 0 }
    ∷ record { item_id = text "f"; kind = file; size = 10 * 1024 * 1024 }
    ∷ []

abbrev state : ResumeState
state = record {
  transfer_id = text "t";
  files = record { item_id = text "f"; completed_bitmap = to_bitmap_bytes arrived } ∷ [];
}

abbrev big_plan : ChunkPlan
big_plan = record { file_size = 10 * 1024 * 1024; chunk_size = 4 * 1024 * 1024; chunk_count = 3 }

All-IsSent : All (IsSent (λ id. arrived) (bitmaps (ResumeState.files state) [])) entries
unfolding new_plan div_ceil get insert
All-IsSent = (λ e. cc, (λ e. (big_plan, refl, arrived-IsValid, refl, refl), tt))

build_chunk_jobs_lem_example :
    (jobs : List ChunkJob) × (build_chunk_jobs entries state ≡ ok jobs)
    × (resumed_bytes (λ id. arrived) entries + job_bytes jobs ≡ file_bytes entries)
build_chunk_jobs_lem_example = build_chunk_jobs_lem (λ id. arrived) entries state All-IsSent
