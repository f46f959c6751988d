-- ===== src/Chunk/Marks.antt =====
-- The invariant of the resume map, and what `mark_complete` does.
use transfer_assistant.Prelude.Bits.{test_bit, set_bit, test_bit-set_word, test_bit-zero}
use transfer_assistant.Prelude.{
  ℕ, zero, suc, ◌+◌, ◌*◌, ◌/◌, ◌%◌, ◌≤◌, ◌<◌, ◌≡◌, ◌↔◌, refl, ok, err, arith, Bool, true, false,
  not, sum_below, one_if, if◌then◌else◌, length, get_or, set, sym, ap, ◌∙◌, length-set,
  length-replicate, get_or-replicate, sum_below_eq, sum_below_raise, sum_below_full, ◌==◌, inl, inr,
  Bool-cases,
}
use transfer_assistant.Chunk.{
  ResumeMap, div_ceil, new_map, contains, mark_complete, is_complete, index_out_of_range,
}
use transfer_assistant.Chunk.Plan.{lt-div_ceil}

-- How many of the first `n` chunks are marked.
abbrev pub marked_below : ResumeMap → ℕ → ℕ
marked_below m n = sum_below (λ i. one_if (contains m i)) n

-- There is a word for every chunk, the counter is the number of marked chunks, and no bit is set
-- that stands for no chunk.
pub record IsValid (m : ResumeMap) : Type 0 where
  pub sized : length m.words ≡ div_ceil m.chunk_count 64
  pub counted : m.completed_count ≡ marked_below m m.chunk_count
  pub confined :
      (w k : ℕ) → test_bit (get_or m.words w 0) k ≡ true → (k < 64) × (w * 64 + k < m.chunk_count)

-- No index below the count reaches behind the words.
pub word_in_range :
    (m : ResumeMap) (i : ℕ) → IsValid m → i < m.chunk_count → i / 64 < length m.words
word_in_range m i v h =
    omega (arith, v.sized, (lt-div_ceil m.chunk_count 64 (i / 64) (omega arith)).1 (omega arith))

pub contains-new_map : (n i : ℕ) → contains (new_map n) i ≡ false
unfolding contains new_map
contains-new_map n i =
    ground (arith, get_or-replicate {A = ℕ} (div_ceil n 64) (i / 64) 0, test_bit-zero (i % 64))

marked-none : (m : ResumeMap) (n : ℕ) → ((i : ℕ) → contains m i ≡ false) → marked_below m n ≡ 0
marked-none m zero none_set = refl
marked-none m (suc n) none_set = ground (arith, none_set n, marked-none m n none_set)

pub new_map-IsValid : (n : ℕ) → IsValid (new_map n)
unfolding new_map
new_map-IsValid n = record {
  sized = length-replicate (div_ceil n 64) 0;
  counted = sym (marked-none (new_map n) n (contains-new_map n));
  confined = λ w k h. cc (get_or-replicate {A = ℕ} (div_ceil n 64) w 0, test_bit-zero k);
}

-- The map with chunk `i` marked.
abbrev marked : ResumeMap → ℕ → ResumeMap
marked m i = record m {
  words = set m.words (i / 64) (set_bit (get_or m.words (i / 64) 0) (i % 64));
  completed_count = m.completed_count + 1;
}

contains-marked :
    (m : ResumeMap) (i j : ℕ)
    → IsValid m
    → i < m.chunk_count
    → contains (marked m i) j ≡ (if i == j then true else contains m j)
unfolding contains
contains-marked m i j v h =
    ground
      (arith, test_bit-set_word m.words (i / 64) (i % 64) (j / 64) (j % 64) (word_in_range m i v h))

marked-IsValid :
    (m : ResumeMap) (i : ℕ)
    → IsValid m
    → i < m.chunk_count
    → contains m i ≡ false
    → IsValid (marked m i)
marked-IsValid m i v h fresh = record {
  sized = length-set m.words (i / 64) _ ∙ v.sized;
  counted = sym (
      sum_below_raise (λ j. one_if (contains m j)) (λ j. one_if (contains (marked m i) j)) i 1
        m.chunk_count h (ground (arith, contains-marked m i i v h))
        (λ j ne. ground (arith, contains-marked m i j v h))
      ∙ ap (λ t. t + 1) (sym v.counted));
  confined = λ w k set_there. ground (
    arith,
    test_bit-set_word m.words (i / 64) (i % 64) w k (word_in_range m i v h),
    v.confined w k,
  );
}

module _ (m : ResumeMap) (i : ℕ) (h : i < m.chunk_count) where
  mark-old : contains m i ≡ true → mark_complete m i ≡ ok (m, false)
  unfolding mark_complete contains
  mark-old old = ground arith

  mark-new : contains m i ≡ false → mark_complete m i ≡ ok (marked m i, true)
  unfolding mark_complete contains
  mark-new new = ground arith

-- What marking the chunk `i` of a valid map gives.
abbrev pub Marks : ResumeMap → ℕ → Type 0
Marks m i =
    (m' : ResumeMap) × (mark_complete m i ≡ ok (m', not (contains m i)))
    × IsValid m'
    × (m'.chunk_count ≡ m.chunk_count)
    × (m'.completed_count ≡ m.completed_count + one_if (not (contains m i)))
    × ((j : ℕ) → contains m' j ≡ (if i == j then true else contains m j))

mark-Marks : (m : ResumeMap) (i : ℕ) → IsValid m → i < m.chunk_count → Marks m i
mark-Marks m i v h = elim (Bool-cases (contains m i)) [
  | inl old ↦ (
    m,
    cc (mark-old m i h old, old),
    v,
    refl,
    rw old (omega arith),
    λ j. ground (arith, ap (contains m) {x = i} {y = j}),
  )
  | inr new ↦ (
    marked m i,
    cc (mark-new m i h new, new),
    marked-IsValid m i v h new,
    refl,
    rw new refl,
    λ j. contains-marked m i j v h,
  )
]

-- Marking a chunk of the file succeeds, keeps the map valid, marks that chunk and no other, says
-- whether it was new, and counts it exactly if it was. Any other index is refused.
pub mark_complete_outcome :
    (m : ResumeMap) (i : ℕ)
    → IsValid m
    → (i < m.chunk_count → Marks m i)
      × (m.chunk_count ≤ i → mark_complete m i ≡ err (index_out_of_range i m.chunk_count))
mark_complete_outcome m i v = (mark-Marks m i v, λ h. unfold mark_complete in ground arith)

marked-le : (m : ResumeMap) (n : ℕ) → marked_below m n ≤ n
marked-le m zero = omega arith
marked-le m (suc n) = ground (arith, marked-le m n)

all_ones : (n : ℕ) → sum_below (λ i. 1) n ≡ n
all_ones zero = refl
all_ones (suc n) = omega (arith, all_ones n)

one_if-le : (b : Bool) → one_if b ≤ 1
one_if-le true = omega arith
one_if-le false = omega arith

-- A valid map is complete exactly if every chunk is marked, and its counter never passes the count.
pub is_complete_iff :
    (m : ResumeMap)
    → IsValid m
    → ((is_complete m ≡ true) ↔ ((i : ℕ) → i < m.chunk_count → contains m i ≡ true))
      × (m.completed_count ≤ m.chunk_count)
unfolding is_complete
is_complete_iff m v = (
  (
    λ done i h. ground (
      arith,
      sum_below_full (λ j. one_if (contains m j)) (λ j. 1) m.chunk_count
          (λ j. one_if-le (contains m j)) (ground (arith, all_ones m.chunk_count)) i h,
    ),
    λ all. ground (
      arith,
      all_ones m.chunk_count,
      sum_below_eq (λ j. one_if (contains m j)) (λ j. 1) m.chunk_count (λ j h. rw (all j h) refl),
    ),
  ),
  omega (arith, v.counted, marked-le m m.chunk_count),
)
