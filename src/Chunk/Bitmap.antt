-- ===== src/Chunk/Bitmap.antt =====
-- The bitmap that travels over the wire, and the map that is read back from it.
use transfer_assistant.Prelude.Bits.{test_bit, set_bit, test_bit-set_word, test_bit-zero, bit_ext}
use transfer_assistant.Prelude.{
  ℕ, zero, suc, ◌+◌, ◌*◌, ◌/◌, ◌%◌, ◌≤◌, ◌<◌, ◌≡◌, ◌≢◌, refl, ok, err, arith, Bool, true, List, ◌∷◌,
  ap, ◌∙◌, range, if◌then◌else◌, ◌==◌, ltb, leb, ◌&&◌, inl, inr, Bool-cases, length, get_or, set,
  length-set, length-replicate, get_or-replicate, list_ext, one_if, sum_below, sum_below_eq,
  replicate, dec_lt,
}
use transfer_assistant.Chunk.{
  ResumeMap, div_ceil, new_map, contains, bitmap_loop, to_bitmap_bytes, marking_loop,
  from_bitmap_bytes, invalid_bitmap_length,
}
use transfer_assistant.Chunk.Plan.{lt-div_ceil}
use transfer_assistant.Chunk.Marks.{
  IsValid, mark_complete_outcome, new_map-IsValid, contains-new_map,
}

-- Bit `i` of a bitmap.
abbrev pub bit_at : List ℕ → ℕ → Bool
bit_at bytes i = test_bit (get_or bytes (i / 8) 0) (i % 8)

byte_in_range : (count i : ℕ) → i < count → i / 8 < div_ceil count 8
byte_in_range count i h = (lt-div_ceil count 8 (i / 8) (omega arith)).1 (omega arith)

abbrev set_at : List ℕ → ℕ → List ℕ
set_at bytes i = set bytes (i / 8) (set_bit (get_or bytes (i / 8) 0) (i % 8))

bit_at-set_at :
    (bytes : List ℕ) (i j : ℕ)
    → i / 8 < length bytes
    → bit_at (set_at bytes i) j ≡ (if i == j then true else bit_at bytes j)
bit_at-set_at bytes i j h =
    ground (arith, test_bit-set_word bytes (i / 8) (i % 8) (j / 8) (j % 8) h)

module _ (m : ResumeMap) where
  bitmap_loop-next :
      (i : ℕ) (rest bytes : List ℕ) {here : Bool}
      → contains m i ≡ here
      → bitmap_loop m (i ∷ rest) bytes ≡ bitmap_loop m rest (if here then set_at bytes i else bytes)
  unfolding bitmap_loop
  bitmap_loop-next i rest bytes h =
      ap (λ b. bitmap_loop m rest (if b then set_at bytes i else bytes)) h

  bitmap_loop-bits :
      (from n : ℕ) (bytes : List ℕ) (j : ℕ)
      → from + n ≤ m.chunk_count
      → length bytes ≡ div_ceil m.chunk_count 8
      → (length (bitmap_loop m (range from n) bytes) ≡ div_ceil m.chunk_count 8)
        × (bit_at (bitmap_loop m (range from n) bytes) j
            ≡ (if leb from j && (ltb j (from + n) && contains m j) then true else bit_at bytes j))
  unfolding bitmap_loop
  bitmap_loop-bits from zero bytes j h len = (len, ground arith)
  bitmap_loop-bits from (suc n) bytes j h len = elim (Bool-cases (contains m from)) [
    | inl here ↦
        let later =
          bitmap_loop-bits (suc from) n (set_at bytes from) j (omega arith)
            (length-set bytes (from / 8) (set_bit (get_or bytes (from / 8) 0) (from % 8)) ∙ len) in
        let there = byte_in_range m.chunk_count from (omega arith) in
        rw (bitmap_loop-next from (range (suc from) n) bytes here) (
          later.0,
          ground (
            arith,
            later.1,
            bit_at-set_at bytes from j (omega (arith, len, there)),
            ap (contains m) {x = from} {y = j},
          ),
        )
    | inr not_here ↦
        let later = bitmap_loop-bits (suc from) n bytes j (omega arith) len in
        rw (bitmap_loop-next from (range (suc from) n) bytes not_here)
          (later.0, ground (arith, later.1, ap (contains m) {x = from} {y = j}))
  ]

  -- The bitmap has a bit for every chunk, which says whether the chunk is marked.
  to_bitmap_bytes-bits :
      (j : ℕ)
      → (length (to_bitmap_bytes m) ≡ div_ceil m.chunk_count 8)
        × (bit_at (to_bitmap_bytes m) j ≡ (ltb j m.chunk_count && contains m j))
  unfolding to_bitmap_bytes
  to_bitmap_bytes-bits j =
      let zeroes : List ℕ = replicate (div_ceil m.chunk_count 8) 0 in
      let bits = bitmap_loop-bits 0 m.chunk_count zeroes j (omega arith) (length-replicate _ 0) in
      (
        bits.0,
        ground (
          arith,
          bits.1,
          get_or-replicate {A = ℕ} (div_ceil m.chunk_count 8) (j / 8) 0,
          test_bit-zero (j % 8),
        ),
      )

-- What the marking loop reaches from `m` over the indices `from..from + n`.
abbrev Reads : List ℕ → ℕ → ℕ → ResumeMap → Type 0
Reads bytes from n m =
    (m' : ResumeMap) × (marking_loop bytes (range from n) m ≡ ok m')
    × IsValid m'
    × (m'.chunk_count ≡ m.chunk_count)
    × ((j : ℕ)
        → contains m' j
          ≡ (if leb from j && (ltb j (from + n) && bit_at bytes j) then true else contains m j))

marking_loop-Reads :
    (bytes : List ℕ) (from n : ℕ) (m : ResumeMap)
    → IsValid m
    → from + n ≤ m.chunk_count
    → Reads bytes from n m
unfolding marking_loop
marking_loop-Reads bytes from zero m v h = (m, refl, v, refl, λ j. ground arith)
marking_loop-Reads bytes from (suc n) m v h = elim (Bool-cases (bit_at bytes from)) [
  | inl here ↦
      let (m1, done, v1, count1, _, bits1) = (mark_complete_outcome m from v).0 (omega arith) in
      let (m', e, v', count', bits') =
        marking_loop-Reads bytes (suc from) n m1 v1 (omega (arith, count1)) in
      (
        m',
        rw (here, done) e,
        v',
        count' ∙ count1,
        λ j. ground (arith, bits' j, bits1 j, ap (bit_at bytes) {x = from} {y = j}),
      )
  | inr not_here ↦
      let (m', e, v', count', bits') = marking_loop-Reads bytes (suc from) n m v (omega arith) in
      (
        m',
        rw not_here e,
        v',
        count',
        λ j. ground (arith, bits' j, ap (bit_at bytes) {x = from} {y = j}),
      )
]

-- A bitmap of the right length is read into a valid map that contains exactly the chunks whose bits
-- are set, whatever the padding bits are. A bitmap of any other length is refused.
pub from_bitmap_bytes_outcome :
    (count : ℕ) (bytes : List ℕ)
    → (length bytes ≡ div_ceil count 8
        → (m : ResumeMap) × (from_bitmap_bytes count bytes ≡ ok m)
          × IsValid m
          × (m.chunk_count ≡ count)
          × ((j : ℕ) → contains m j ≡ (ltb j count && bit_at bytes j)))
      × (length bytes ≢ div_ceil count 8
          → from_bitmap_bytes count bytes
            ≡ err (invalid_bitmap_length (div_ceil count 8) (length bytes)))
unfolding from_bitmap_bytes
from_bitmap_bytes_outcome count bytes = (
  λ len.
      let counted : (new_map count).chunk_count ≡ count = unfold new_map in refl in
      let (m, e, v, same, bits) =
        marking_loop-Reads bytes 0 count (new_map count) (new_map-IsValid count)
          (omega (arith, counted)) in
      (
        m,
        ground (arith, e),
        v,
        same ∙ counted,
        λ j. ground (arith, bits j, contains-new_map count j),
      ),
  λ other. ground arith,
)

-- A bit of a word, as the mark of its chunk.
bit_of_word :
    (m : ResumeMap) (w k : ℕ)
    → IsValid m
    → test_bit (get_or m.words w 0) k ≡ (ltb k 64 && contains m (w * 64 + k))
unfolding contains
bit_of_word m w k v = elim (dec_lt k 64) [
  | yes small ↦
      let same_word : (w * 64 + k) / 64 ≡ w = omega arith in
      let same_bit : (w * 64 + k) % 64 ≡ k = omega arith in
      rw (same_word, same_bit) (ground (arith, v.confined w k))
  | no large ↦ ground (arith, v.confined w k)
]

-- A valid map is determined by its size and by the chunks that it contains.
map_ext :
    (m n : ResumeMap)
    → IsValid m
    → IsValid n
    → m.chunk_count ≡ n.chunk_count
    → ((i : ℕ) → contains m i ≡ contains n i)
    → m ≡ n
map_ext m n vm vn count same =
    let words : m.words ≡ n.words =
      list_ext m.words n.words 0 (cc (vm.sized, vn.sized, ap (λ c. div_ceil c 64) count)) (λ w.
        bit_ext _ _
          (λ k. ground (arith, bit_of_word m w k vm, bit_of_word n w k vn, same (w * 64 + k)))) in
    let completed : m.completed_count ≡ n.completed_count = cc (
      vm.counted,
      vn.counted,
      ap (λ c. sum_below (λ i. one_if (contains n i)) c) count,
      sum_below_eq (λ i. one_if (contains m i)) (λ i. one_if (contains n i)) m.chunk_count
          (λ i h. ap one_if (same i)),
    ) in
    λ i. record { chunk_count = count i; completed_count = completed i; words = words i }

confined_to_count : (m : ResumeMap) (j : ℕ) → (ltb j m.chunk_count && contains m j) ≡ contains m j
unfolding contains
confined_to_count m j = ground arith

-- Reading back the bitmap of a valid map gives that map.
pub from_bitmap_bytes-to_bitmap_bytes :
    (m : ResumeMap) → IsValid m → from_bitmap_bytes m.chunk_count (to_bitmap_bytes m) ≡ ok m
from_bitmap_bytes-to_bitmap_bytes m v =
    let (m', e, v', count, bits) =
      (from_bitmap_bytes_outcome m.chunk_count (to_bitmap_bytes m)).0
        (to_bitmap_bytes-bits m 0).0 in
    e
    ∙ ap ok (
        map_ext m' m v' v count
          (λ j. ground (arith, bits j, (to_bitmap_bytes-bits m j).1, confined_to_count m j)))
