-- ===== src/Jobs/Totals.antt =====
-- The jobs cover what the receiver does not have.
use transfer_assistant.Prelude.{
  ℕ, ◌+◌, ◌≡◌, refl, sym, ap, ◌∙◌, false, List, [], ◌∷◌, ◌++◌, map, some, Result, ok, err, ◌>>=◌,
  Text, if◌then◌else◌, Dict, get, list_eq, nat_eq, All, arith, sum_list, Bool-cases, inl, inr,
}
use transfer_assistant.Chunk.{
  ChunkPlan, ChunkSpec, ResumeMap, default_chunk_size, new_plan, from_bitmap_bytes, to_bitmap_bytes,
  completed_bytes,
}
use transfer_assistant.Chunk.Plan.{new_plan-IsPlan}
use transfer_assistant.Chunk.Marks.{IsValid}
use transfer_assistant.Chunk.Missing.{completed-missing}
use transfer_assistant.Chunk.Bitmap.{from_bitmap_bytes-to_bitmap_bytes}
use transfer_assistant.Manifest.{is_directory}
use transfer_assistant.Protocol.Messages.{ResumeState}
use transfer_assistant.Jobs.{
  JobEntry, ChunkJob, bitmaps, resume_map, entry_chunks, jobs_loop, build_chunk_jobs,
}

abbrev pub file_bytes : List JobEntry → ℕ
file_bytes [] = 0
file_bytes (e ∷ rest) = (if is_directory e.kind then 0 else e.size) + file_bytes rest

abbrev pub job_bytes : List ChunkJob → ℕ
job_bytes jobs = sum_list (map (λ j. (ChunkJob.spec j).length) jobs)

abbrev value_or_zero : {E : Type 0} → Result E ℕ → ℕ
value_or_zero (ok n) = n
value_or_zero (err e) = 0

-- What the receiver counts as complete, by the map that it has of each file.
abbrev pub resumed_bytes : (Text → ResumeMap) → List JobEntry → ℕ
resumed_bytes maps [] = 0
resumed_bytes maps (e ∷ rest) =
    (if is_directory e.kind
      then 0
      else value_or_zero (do
        plan ← new_plan e.size default_chunk_size
        completed_bytes (maps (JobEntry.item_id e)) plan))
    + resumed_bytes maps rest

-- A file that can be planned, with a valid map of the plan's size, whose bitmap was sent.
abbrev pub IsSent : (Text → ResumeMap) → Dict Text (List ℕ) → JobEntry → Type 0
IsSent maps sent e =
    is_directory e.kind ≡ false
    → (plan : ChunkPlan) × (new_plan e.size default_chunk_size ≡ ok plan)
      × IsValid (maps (JobEntry.item_id e))
      × ((maps (JobEntry.item_id e)).chunk_count ≡ plan.chunk_count)
      × (get (JobEntry.item_id e) sent ≡ some (to_bitmap_bytes (maps (JobEntry.item_id e))))

job_bytes-append :
    (index : ℕ) (specs : List ChunkSpec) (later : List ChunkJob)
    → job_bytes (map (λ spec. record { entry_index = index; spec = spec }) specs ++ later)
      ≡ sum_list (map (λ s. s.length) specs) + job_bytes later
job_bytes-append index [] later = omega arith
job_bytes-append index (s ∷ specs) later = omega (arith, job_bytes-append index specs later)

entry_chunks_lem :
    (maps : Text → ResumeMap) (sent : Dict Text (List ℕ)) (e : JobEntry)
    → IsSent maps sent e
    → is_directory e.kind ≡ false
    → (specs : List ChunkSpec) × (entry_chunks e (get (JobEntry.item_id e) sent) ≡ ok specs)
      × (value_or_zero (do
        plan ← new_plan e.size default_chunk_size
        completed_bytes (maps (JobEntry.item_id e)) plan)
            + sum_list (map (λ s. s.length) specs)
          ≡ e.size)
unfolding entry_chunks resume_map
entry_chunks_lem maps sent e is_sent is_file =
    let (plan, planned, v, same, found) = is_sent is_file in
    let m = maps (JobEntry.item_id e) in
    let (is_plan, size, _) = new_plan-IsPlan e.size default_chunk_size plan (omega arith) planned in
    let (specs, done, missing, completed, total) = (completed-missing plan m is_plan).0 same in
    let back : from_bitmap_bytes plan.chunk_count (to_bitmap_bytes m) ≡ ok m =
      ap (λ n. from_bitmap_bytes n (to_bitmap_bytes m)) (sym same)
      ∙ from_bitmap_bytes-to_bitmap_bytes m v in
    (specs, rw (planned, found, back, missing) refl, rw (planned, completed) (total ∙ size))

jobs_loop_lem :
    (maps : Text → ResumeMap) (sent : Dict Text (List ℕ)) (index : ℕ) (entries : List JobEntry)
    → All (IsSent maps sent) entries
    → (jobs : List ChunkJob) × (jobs_loop sent index entries ≡ ok jobs)
      × (resumed_bytes maps entries + job_bytes jobs ≡ file_bytes entries)
unfolding jobs_loop
jobs_loop_lem maps sent index [] h = ([], refl, omega arith)
jobs_loop_lem maps sent index (e ∷ rest) h =
    let (later, looped, total) = jobs_loop_lem maps sent (index + 1) rest h.1 in
    elim (Bool-cases (is_directory e.kind)) [
      | inl dir ↦ (later, rw (dir, looped) refl, rw dir (omega (arith, total)))
      | inr is_file ↦
          let (specs, found, part) = entry_chunks_lem maps sent e h.0 is_file in
          (
            map (λ spec. record { entry_index = index; spec = spec }) specs ++ later,
            rw (is_file, found, looped) refl,
            rw is_file (omega (arith, part, total, job_bytes-append index specs later)),
          )
    ]

-- If the resume state has the bitmap of a valid map of the right size for every file, and the files
-- can be planned, then the jobs are built, and their bytes and those that the maps count as complete
-- are together the bytes of all files.
pub build_chunk_jobs_lem :
    (maps : Text → ResumeMap) (entries : List JobEntry) (resume : ResumeState)
    → All (IsSent maps (bitmaps (ResumeState.files resume) [])) entries
    → (jobs : List ChunkJob) × (build_chunk_jobs entries resume ≡ ok jobs)
      × (resumed_bytes maps entries + job_bytes jobs ≡ file_bytes entries)
unfolding build_chunk_jobs
build_chunk_jobs_lem maps entries resume h =
    jobs_loop_lem maps (bitmaps (ResumeState.files resume) []) 0 entries h
