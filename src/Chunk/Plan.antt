-- ===== src/Chunk/Plan.antt =====
-- The chunks of a plan tile the file.
use native.Mathlib.Nat.{
  div-add-mod', mod-lt, mul-le-mul_right, div-lt_iff_lt-mul, le-div_iff_mul-le, div-mul-le_self,
  lt-div-mul-add,
}
use transfer_assistant.Prelude.{
  ℕ, zero, suc, ◌+◌, ◌-◌, ◌*◌, ◌/◌, ◌%◌, ◌≤◌, ◌<◌, ◌≡◌, ◌↔◌, ok, err, arith, min, ltb, dec_lt,
  sum_below, if◌then◌else◌, refl,
}
use transfer_assistant.Chunk.{
  ChunkPlan, ChunkSpec, u32_mod, div_ceil, new_plan, chunk, index_out_of_range,
}

-- What `ChunkPlan::new` establishes.
pub record IsPlan (plan : ChunkPlan) : Type 0 where
  pub sized : 0 < plan.chunk_size
  pub size_fits : plan.chunk_size < u32_mod
  pub counted : plan.chunk_count ≡ div_ceil plan.file_size plan.chunk_size
  pub count_fits : plan.chunk_count < u32_mod

pub new_plan-IsPlan :
    (file_size chunk_size : ℕ) (plan : ChunkPlan)
    → chunk_size < u32_mod
    → new_plan file_size chunk_size ≡ ok plan
    → IsPlan plan × (plan.file_size ≡ file_size) × (plan.chunk_size ≡ chunk_size)
unfolding new_plan
new_plan-IsPlan file_size chunk_size plan fits h = (
  record {
    sized = ground arith;
    size_fits = ground arith;
    counted = ground arith;
    count_fits = ground arith;
  },
  ground arith,
  ground arith,
)

module _ (b i q r : ℕ) where
  below_ceil : {a : ℕ} → q * b + r ≡ a → 0 < b → i < (if ltb 0 r then q + 1 else q) → i * b < a
  below_ceil e h p = elim (dec_lt i q) [
    | yes lt ↦ omega (arith, mul-le-mul_right {m = suc i} {n = q} b lt)
    | no ge ↦ ground (arith, mul-le-mul_right {m = i} {n = q} b)
  ]

  above_ceil : {a : ℕ} → q * b + r ≡ a → r < b → i * b < a → i < (if ltb 0 r then q + 1 else q)
  above_ceil e h p = elim (dec_lt i q) [
    | yes lt ↦ ground arith
    | no ge ↦ ground (
      arith,
      mul-le-mul_right {m = q} {n = i} b (omega arith),
      mul-le-mul_right {m = suc q} {n = i} b,
    )
  ]

-- Index `i` is a chunk exactly if its offset lies in the file.
pub lt-div_ceil : (a b i : ℕ) → 0 < b → (i < div_ceil a b) ↔ (i * b < a)
unfolding div_ceil
lt-div_ceil a b i h = (
  below_ceil b i (a / b) (a % b) (div-add-mod' a b) h,
  above_ceil b i (a / b) (a % b) (div-add-mod' a b) (mod-lt a h),
)

-- The chunk `i` of the plan, with no test and no truncation.
abbrev pub spec_at : ChunkPlan → ℕ → ChunkSpec
spec_at plan i = record {
  index = i;
  offset = i * plan.chunk_size;
  length = min (plan.file_size - i * plan.chunk_size) plan.chunk_size;
}

pub chunk-spec_at :
    (plan : ChunkPlan) (i : ℕ)
    → IsPlan plan
    → i < plan.chunk_count
    → chunk plan i ≡ ok (spec_at plan i)
unfolding chunk
chunk-spec_at plan i v h = ground arith

pub offset-lt-file_size :
    (plan : ChunkPlan) (i : ℕ)
    → IsPlan plan
    → i < plan.chunk_count
    → i * plan.chunk_size < plan.file_size
offset-lt-file_size plan i v h =
    (lt-div_ceil plan.file_size plan.chunk_size i v.sized).0 (omega (arith, v.counted))

-- `chunk` finds the chunks of the plan and no others. The chunk `i` starts behind the `i` chunks
-- before it, is not empty, is at most a chunk long and ends inside the file.
pub chunk_outcome :
    (plan : ChunkPlan) (i : ℕ)
    → IsPlan plan
    → (i < plan.chunk_count
        → (spec : ChunkSpec) × (chunk plan i ≡ ok spec)
          × (spec.index ≡ i)
          × (spec.offset ≡ i * plan.chunk_size)
          × (0 < spec.length)
          × (spec.length ≤ plan.chunk_size)
          × (spec.offset + spec.length ≤ plan.file_size))
      × (plan.chunk_count ≤ i → chunk plan i ≡ err (index_out_of_range i plan.chunk_count))
unfolding chunk
chunk_outcome plan i v = (
  λ h.
      let inside : i * plan.chunk_size < plan.file_size = offset-lt-file_size plan i v h in
      (spec_at plan i, chunk-spec_at plan i v h, refl, refl, omega arith, omega arith, omega arith),
  λ h. ground arith,
)

-- The chunks before index `n` are the first bytes of the file.
pub lengths_before :
    (plan : ChunkPlan) (n : ℕ)
    → sum_below (λ i. (spec_at plan i).length) n ≡ min (n * plan.chunk_size) plan.file_size
lengths_before plan zero = omega arith
lengths_before plan (suc n) = omega (arith, lengths_before plan n)

-- The chunks of a plan are as long together as the file.
pub lengths_total :
    (plan : ChunkPlan)
    → IsPlan plan
    → sum_below (λ i. (spec_at plan i).length) plan.chunk_count ≡ plan.file_size
lengths_total plan v =
    let covered : ¬ (plan.chunk_count * plan.chunk_size < plan.file_size) = λ short. absurd (
      omega (
        arith,
        v.counted,
        (lt-div_ceil plan.file_size plan.chunk_size plan.chunk_count v.sized).1 short,
      )) in
    omega (arith, lengths_before plan plan.chunk_count)

pub chunk-eq-ok :
    (plan : ChunkPlan) (i : ℕ) (spec : ChunkSpec)
    → IsPlan plan
    → chunk plan i ≡ ok spec
    → (i < plan.chunk_count) × (spec ≡ spec_at plan i)
chunk-eq-ok plan i spec v h = elim (dec_lt i plan.chunk_count) [
  | yes lt ↦ (lt, cc (chunk-spec_at plan i v lt))
  | no ge ↦ absurd (cc ((chunk_outcome plan i v).1 (omega (arith, ge))))
]

module _ (b size i : ℕ) (pos : 0 < size) where
  quotient_of : i * size ≤ b → b < i * size + size → i ≡ b / size
  quotient_of low high = omega (
    arith,
    (le-div_iff_mul-le {k = size} {x = i} {y = b} pos).1 low,
    (div-lt_iff_lt-mul {k = size} {x = b} {y = suc i} pos).1 (omega arith),
  )

  of_quotient : i ≡ b / size → (i * size ≤ b) × (b < i * size + size)
  of_quotient e = rw e (div-mul-le_self b size, lt-div-mul-add pos)

-- Every byte of the file lies in exactly one chunk: chunk `i` holds byte `b` exactly if `i` is the
-- quotient of `b` by the chunk size, and that quotient is an index of the plan.
pub byte_in_one_chunk :
    (plan : ChunkPlan) (b : ℕ)
    → IsPlan plan
    → b < plan.file_size
    → (b / plan.chunk_size < plan.chunk_count)
      × ((i : ℕ) (spec : ChunkSpec)
          → chunk plan i ≡ ok spec
          → ((spec.offset ≤ b) × (b < spec.offset + spec.length)) ↔ (i ≡ b / plan.chunk_size))
byte_in_one_chunk plan b v inside = (
  omega (
    arith,
    v.counted,
    (lt-div_ceil plan.file_size plan.chunk_size (b / plan.chunk_size) v.sized).1
        (omega (arith, div-mul-le_self b plan.chunk_size)),
  ),
  λ i spec h.
      let found = (chunk-eq-ok plan i spec v h).1 in
      (
        λ p.
            quotient_of b plan.chunk_size i v.sized (rw found at p.0)
              (omega (arith, rw found at p.1)),
        λ e. rw found (omega (arith, of_quotient b plan.chunk_size i v.sized e)),
      ),
)
