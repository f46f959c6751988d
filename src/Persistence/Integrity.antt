-- ===== src/Persistence/Integrity.antt =====
-- The foreign keys of the repository hold after every operation.
use transfer_assistant.Prelude.{
  ℕ, ◌≡◌, Bool, true, false, not, List, [], ◌∷◌, ◌=ₜ◌, filter, any, All, ◌==◌, arith, Bool-cases,
  inl, inr, nat_eq,
}
use transfer_assistant.Model.{TransferSnapshot}
use transfer_assistant.Persistence.{
  TransferRepository, StoredTransferItem, CompletedChunk, has_transfer, has_item, upsert_transfer,
  save_transfer,
}
use transfer_assistant.Persistence.Statements.{delete_transfers, is_gone}

-- Every item belongs to a transfer, and every chunk to a transfer and an item.
pub record IsConsistent (r : TransferRepository) : Type 0 where
  pub items_owned :
      All (λ i. has_transfer r (StoredTransferItem.transfer_id i) ≡ true) r.transfer_items
  pub chunks_owned :
      All
        (λ c.
          (has_transfer r (CompletedChunk.transfer_id c) ≡ true)
          × (has_item r (CompletedChunk.item_id c) ≡ true))
        r.completed_chunks

module _ {A : Type 0} where
  pub All-map : (P Q : A → Type 0) → ((x : A) → P x → Q x) → (xs : List A) → All P xs → All Q xs
  All-map P Q f [] h = tt
  All-map P Q f (x ∷ xs) h = (f x h.0, All-map P Q f xs h.1)

  pub All-filter :
      (P Q : A → Type 0) (keep : A → Bool)
      → ((x : A) → P x → keep x ≡ true → Q x)
      → (xs : List A) → All P xs
      → All Q (filter keep xs)
  All-filter P Q keep f [] h = tt
  All-filter P Q keep f (x ∷ xs) h = elim (Bool-cases (keep x)) [
    | inl kept ↦ rw kept (f x h.0 kept, All-filter P Q keep f xs h.1)
    | inr dropped ↦ rw dropped (All-filter P Q keep f xs h.1)
  ]

  -- What is found and not among the dropped is among the kept.
  any-filter-not :
      (q p : A → Bool) (xs : List A)
      → any q xs ≡ true
      → any q (filter p xs) ≡ false
      → any q (filter (λ x. not (p x)) xs) ≡ true
  any-filter-not q p [] found none_dropped = found
  any-filter-not q p (x ∷ xs) found none_dropped = ground (arith, any-filter-not q p xs)

pub delete_transfers-IsConsistent :
    (p : TransferSnapshot → Bool) (r : TransferRepository)
    → IsConsistent r
    → IsConsistent (delete_transfers p r).0
unfolding delete_transfers
delete_transfers-IsConsistent p r v = record {
  items_owned =
      All-filter _ _ (λ i. not (is_gone p r (StoredTransferItem.transfer_id i)))
        (λ i owned kept.
          any-filter-not (λ t. TransferSnapshot.id t == StoredTransferItem.transfer_id i) p
            r.transfers owned (ground arith))
        r.transfer_items v.items_owned;
  chunks_owned =
      All-filter _ _ _
        (λ c owned kept. (
          any-filter-not (λ t. TransferSnapshot.id t == CompletedChunk.transfer_id c) p r.transfers
              owned.0 (ground arith),
          any-filter-not (λ i. StoredTransferItem.id i =ₜ CompletedChunk.item_id c)
              (λ i. is_gone p r (StoredTransferItem.transfer_id i)) r.transfer_items owned.1
              (ground arith),
        ))
        r.completed_chunks v.chunks_owned;
}

any-upsert_transfer :
    (t : TransferSnapshot) (xs : List TransferSnapshot) (id : ℕ)
    → any (λ s. TransferSnapshot.id s == id) xs ≡ true
    → any (λ s. TransferSnapshot.id s == id) (upsert_transfer t xs) ≡ true
unfolding upsert_transfer
any-upsert_transfer t [] id h = cc
any-upsert_transfer t (x ∷ xs) id h = ground (arith, any-upsert_transfer t xs id)

pub save_transfer-IsConsistent :
    (r : TransferRepository) (t : TransferSnapshot)
    → IsConsistent r
    → IsConsistent (save_transfer r t)
unfolding save_transfer
save_transfer-IsConsistent r t v = record {
  items_owned =
      All-map _ _ (λ i h. any-upsert_transfer t r.transfers _ h) r.transfer_items v.items_owned;
  chunks_owned =
      All-map _ _ (λ c h. (any-upsert_transfer t r.transfers _ h.0, h.1)) r.completed_chunks
        v.chunks_owned;
}
