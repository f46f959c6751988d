-- ===== src/Persistence/Chunks.antt =====
-- The chunk table of persistence.rs.
use transfer_assistant.Prelude.{
  ℕ, ◌≡◌, refl, sym, ap, ◌∙◌, Bool, true, false, not, ◌&&◌, List, [], ◌∷◌, map, ok, Text, ◌=ₜ◌,
  filter, any, ◌==◌, leb, if◌then◌else◌, arith, Bool-cases, inl, inr, list_beq_iff, nat_eq,
  any-sort_by, Ordered, sort_by-Ordered,
}
use transfer_assistant.Persistence.{TransferRepository, CompletedChunk, has_transfer, has_item}
use transfer_assistant.Persistence.Statements.{mark_chunk_complete, completed_chunks, is_row}

-- The chunk is in the list of its item.
abbrev pub is_listed : TransferRepository → ℕ → Text → ℕ → Bool
is_listed r transfer_id item_id index =
    any (λ j. j == index) (completed_chunks r transfer_id item_id)

rows_listed :
    (t : ℕ) (i : Text) (k : ℕ) (rows : List CompletedChunk)
    → any
        (λ j. j == k)
        (map CompletedChunk.chunk_index (
          filter
            (λ c. (CompletedChunk.transfer_id c == t) && (CompletedChunk.item_id c =ₜ i))
            rows))
      ≡ any (is_row t i k) rows
rows_listed t i k [] = refl
rows_listed t i k (c ∷ rest) = ground (arith, rows_listed t i k rest)

listed_row :
    (r : TransferRepository) (t : ℕ) (i : Text) (k : ℕ)
    → is_listed r t i k ≡ any (is_row t i k) (TransferRepository.completed_chunks r)
unfolding completed_chunks
listed_row r t i k =
    any-sort_by (λ j. j == k) leb _ ∙ rows_listed t i k (TransferRepository.completed_chunks r)

completed_chunks-Ordered :
    (r : TransferRepository) (t : ℕ) (i : Text) → Ordered leb (completed_chunks r t i)
unfolding completed_chunks
completed_chunks-Ordered r t i =
    sort_by-Ordered leb (λ x y h. ground arith)
      (map CompletedChunk.chunk_index (
        filter (λ c. (CompletedChunk.transfer_id c == t) && (CompletedChunk.item_id c =ₜ i))
          (TransferRepository.completed_chunks r)))

is_row_iff :
    (t u : ℕ) (i j : Text) (k l : ℕ) (hash : List ℕ)
    → is_row u j l (record { transfer_id = t; item_id = i; chunk_index = k; chunk_hash = hash })
      ≡ ((t == u) && ((i =ₜ j) && (k == l)))
is_row_iff t u i j k l hash = refl

-- Recording a chunk of a stored transfer and item says whether it was new; afterwards that chunk is
-- listed, every other chunk is listed exactly if it was before, and all lists are in ascending order.
pub mark_chunk_complete_lem :
    (r : TransferRepository) (t : ℕ) (i : Text) (k : ℕ) (hash : List ℕ)
    → has_transfer r t ≡ true
    → has_item r i ≡ true
    → (r' : TransferRepository) × (mark_chunk_complete r t i k hash
        ≡ ok (r', not (is_listed r t i k)))
      × ((u : ℕ) (j : Text) (l : ℕ)
          → is_listed r' u j l
            ≡ (if (t == u) && ((i =ₜ j) && (k == l)) then true else is_listed r u j l))
      × ((u : ℕ) (j : Text) → Ordered leb (completed_chunks r' u j))
unfolding mark_chunk_complete
mark_chunk_complete_lem r t i k hash owner item = elim (Bool-cases (is_listed r t i k)) [
  | inl old ↦
      let row : any (is_row t i k) (TransferRepository.completed_chunks r) ≡ true =
        sym (listed_row r t i k) ∙ old in
      (
        r,
        rw (row, old) refl,
        λ u j l. elim (Bool-cases ((t == u) && ((i =ₜ j) && (k == l)))) [
          | inl same ↦
              let tu : t ≡ u = ground arith in
              let ij : i ≡ j = ground (arith, list_beq_iff nat_eq i j) in
              let kl : k ≡ l = ground arith in rw same (rw (← tu, ← ij, ← kl) old)
          | inr other ↦ rw other refl
        ],
        λ u j. completed_chunks-Ordered r u j,
      )
  | inr new ↦
      let row : any (is_row t i k) (TransferRepository.completed_chunks r) ≡ false =
        sym (listed_row r t i k) ∙ new in
      let added : CompletedChunk = record {
        transfer_id = t;
        item_id = i;
        chunk_index = k;
        chunk_hash = hash;
      } in
      let r' : TransferRepository = record r {
        completed_chunks = added ∷ TransferRepository.completed_chunks r;
      } in
      (
        r',
        rw (row, owner, item, new) refl,
        λ u j l.
            listed_row r' u j l
            ∙ ap (λ b. if (t == u) && ((i =ₜ j) && (k == l)) then true else b)
                (sym (listed_row r u j l)),
        λ u j. completed_chunks-Ordered r' u j,
      )
]
