-- ===== src/Chunk/Missing.antt =====
-- What is still to be sent, and how many bytes have arrived.
use transfer_assistant.Prelude.{
  ℕ, zero, suc, ◌+◌, ◌<◌, ◌≡◌, ◌≢◌, refl, ok, err, arith, Bool, not, List, [], ◌∷◌, map, ap, ◌∙◌,
  sum_list, sum_range, filter, range, range-bound, All, collect, Result, if◌then◌else◌, ◌==◌, ltb,
  leb, any, ◌&&◌, inl, inr, Bool-cases,
}
use transfer_assistant.Chunk.{
  ChunkPlan, ChunkSpec, ChunkError, ResumeMap, chunk, contains, missing_chunks, completed_loop,
  completed_bytes, resume_map_mismatch,
}
use transfer_assistant.Chunk.Plan.{IsPlan, spec_at, chunk-spec_at, lengths_total}

collect-map :
    (f : ℕ → Result ChunkError ChunkSpec) (g : ℕ → ChunkSpec) (xs : List ℕ)
    → All (λ i. f i ≡ ok (g i)) xs
    → collect (map f xs) ≡ ok (map g xs)
collect-map f g [] h = refl
collect-map f g (x ∷ xs) h = rw (h.0, collect-map f g xs h.1) refl

All-filter : (P : ℕ → Type 0) (p : ℕ → Bool) (xs : List ℕ) → All P xs → All P (filter p xs)
All-filter P p [] h = tt
All-filter P p (x ∷ xs) h = ground (arith, All-filter P p xs h.1)

All-map : {P Q : ℕ → Type 0} (f : (i : ℕ) → P i → Q i) (xs : List ℕ) → All P xs → All Q xs
All-map f [] h = tt
All-map f (x ∷ xs) h = (f x h.0, All-map f xs h.1)

abbrev pub size_at : ChunkPlan → ℕ → ℕ
size_at plan i = (spec_at plan i).length

module _ (plan : ChunkPlan) (m : ResumeMap) where
  -- The indices that are not marked, in order.
  abbrev pub unmarked : List ℕ
  unmarked = filter (λ i. not (contains m i)) (range 0 plan.chunk_count)

  arrived : ℕ → ℕ
  arrived i = if contains m i then size_at plan i else 0

module _ (plan : ChunkPlan) (m : ResumeMap) (v : IsPlan plan) where
  missing-unmarked :
      m.chunk_count ≡ plan.chunk_count
      → missing_chunks plan m ≡ ok (map (spec_at plan) (unmarked plan m))
  unfolding missing_chunks
  missing-unmarked same =
      let in_plan =
        All-filter _ (λ i. not (contains m i)) (range 0 plan.chunk_count)
          (All-map (λ i h. chunk-spec_at plan i v h) (range 0 plan.chunk_count)
            (range-bound 0 plan.chunk_count plan.chunk_count (omega arith))) in
      ground (arith, collect-map (chunk plan) (spec_at plan) (unmarked plan m) in_plan)

  completed_loop-sum :
      (xs : List ℕ) (bytes : ℕ)
      → All (λ i. i < plan.chunk_count) xs
      → completed_loop plan m xs bytes ≡ ok (bytes + sum_list (map (arrived plan m) xs))
  unfolding completed_loop arrived
  completed_loop-sum [] bytes h = ap ok (omega arith)
  completed_loop-sum (x ∷ xs) bytes h = elim (Bool-cases (contains m x)) [
    | inl here ↦
        rw (here, chunk-spec_at plan x v h.0)
          (completed_loop-sum xs (bytes + size_at plan x) h.1 ∙ ap ok (omega arith))
    | inr not_here ↦ rw not_here (completed_loop-sum xs (bytes + 0) h.1 ∙ ap ok (omega arith))
  ]

  split_sum :
      (xs : List ℕ)
      → sum_list (map (arrived plan m) xs)
          + sum_list
              (map (λ s. s.length) (map (spec_at plan) (filter (λ i. not (contains m i)) xs)))
        ≡ sum_list (map (size_at plan) xs)
  unfolding arrived
  split_sum [] = refl
  split_sum (x ∷ xs) = ground (arith, split_sum xs)

  -- For a map of the plan's size, the bytes counted as completed and the lengths of the chunks that
  -- are still missing add up to the size of the file; for any other map both are refused.
  pub completed-missing :
      (m.chunk_count ≡ plan.chunk_count
        → (specs : List ChunkSpec) × (done : ℕ) × (missing_chunks plan m ≡ ok specs)
          × (completed_bytes m plan ≡ ok done)
          × (done + sum_list (map (λ s. s.length) specs) ≡ plan.file_size))
      × (m.chunk_count ≢ plan.chunk_count
          → (missing_chunks plan m ≡ err (resume_map_mismatch plan.chunk_count m.chunk_count))
            × (completed_bytes m plan ≡ err (resume_map_mismatch plan.chunk_count m.chunk_count)))
  unfolding missing_chunks completed_bytes
  completed-missing = (
    λ same.
        let indices = range 0 plan.chunk_count in
        (
          map (spec_at plan) (unmarked plan m),
          0 + sum_list (map (arrived plan m) indices),
          missing-unmarked same,
          rw same (
              ground (
                arith,
                completed_loop-sum indices 0
                    (range-bound 0 plan.chunk_count plan.chunk_count (omega arith)),
              )),
          omega (
            arith,
            split_sum indices,
            lengths_total plan v,
            sum_range (size_at plan) 0 plan.chunk_count plan.chunk_count (omega arith),
          ),
        ),
    λ other. (ground arith, ground arith),
  )

module _ (plan : ChunkPlan) (m : ResumeMap) where
  any_unmarked :
      (i from n : ℕ)
      → any
          (λ s. s.index == i)
          (map (spec_at plan) (filter (λ j. not (contains m j)) (range from n)))
        ≡ (leb from i && (ltb i (from + n) && not (contains m i)))
  any_unmarked i from zero = ground arith
  any_unmarked i from (suc n) =
      ground (arith, any_unmarked i (suc from) n, ap (contains m) {x = from} {y = i})

  specs_of_plan :
      (v : IsPlan plan) (xs : List ℕ)
      → All (λ i. i < plan.chunk_count) xs
      → All (λ s. chunk plan s.index ≡ ok s) (map (spec_at plan) xs)
  specs_of_plan v [] h = tt
  specs_of_plan v (x ∷ xs) h = (chunk-spec_at plan x v h.0, specs_of_plan v xs h.1)

  -- The missing chunks are chunks of the plan, and they have exactly the indices of the plan that
  -- are not marked.
  pub missing_chunks_outcome :
      IsPlan plan
      → m.chunk_count ≡ plan.chunk_count
      → (specs : List ChunkSpec) × (missing_chunks plan m ≡ ok specs)
        × All (λ s. chunk plan s.index ≡ ok s) specs
        × ((i : ℕ) → any (λ s. s.index == i) specs ≡ (ltb i plan.chunk_count && not (contains m i)))
  missing_chunks_outcome v same =
      let whole = range 0 plan.chunk_count in
      (
        map (spec_at plan) (unmarked plan m),
        missing-unmarked plan m v same,
        specs_of_plan v (unmarked plan m) (
            All-filter _ (λ i. not (contains m i)) whole
              (range-bound 0 plan.chunk_count plan.chunk_count (omega arith))),
        λ i. ground (arith, any_unmarked i 0 plan.chunk_count),
      )
