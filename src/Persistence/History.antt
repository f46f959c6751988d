-- ===== src/Persistence/History.antt =====
-- Deleting transfers and their history in persistence.rs.
use transfer_assistant.Prelude.{
  ℕ, suc, ◌≡◌, refl, ap, Bool, true, false, not, List, [], ◌∷◌, filter, any, length, ◌==◌, ==_iff,
  arith, Bool-cases, inl, inr, sort_by,
}
use transfer_assistant.Model.{TransferSnapshot, TransferState, completed, failed, cancelled}
use transfer_assistant.Persistence.{TransferRepository, StoredTransferItem, list_transfers}
use transfer_assistant.Persistence.Statements.{
  delete_transfers, clear_history, is_finished, list_items, by_path,
}
use transfer_assistant.Persistence.Newest.{NewestFirst, sort-NewestFirst, count-sort}

module _ {A : Type 0} where
  -- Only rows that the second filter drops are dropped by the first.
  filter-filter_keep :
      (q p : A → Bool)
      → ((x : A) → q x ≡ true → p x ≡ true)
      → (xs : List A) → filter q (filter p xs) ≡ filter q xs
  filter-filter_keep q p keep [] = refl
  filter-filter_keep q p keep (x ∷ xs) = ground (arith, keep x, filter-filter_keep q p keep xs)

  filter-filter_drop :
      (q p : A → Bool)
      → ((x : A) → q x ≡ true → p x ≡ false)
      → (xs : List A) → filter q (filter p xs) ≡ []
  filter-filter_drop q p drop [] = refl
  filter-filter_drop q p drop (x ∷ xs) = ground (arith, drop x, filter-filter_drop q p drop xs)

-- The states of a transfer that belongs to the history.
pub data Ended : TransferState → Type 0 where
  completed_ended : Ended completed
  failed_ended : Ended failed
  cancelled_ended : Ended cancelled

Ended-is_finished : (state : TransferState) → Ended state → is_finished state ≡ true
Ended-is_finished _ completed_ended = refl
Ended-is_finished _ failed_ended = refl
Ended-is_finished _ cancelled_ended = refl

is_finished-Ended : (state : TransferState) → is_finished state ≡ true → Ended state
is_finished-Ended completed e = completed_ended
is_finished-Ended failed e = failed_ended
is_finished-Ended cancelled e = cancelled_ended
is_finished-Ended state e = cc

-- `Remaining ts us n`: `us` are the transfers of `ts` that have not ended, in their order, and `n` of
-- `ts` have ended.
pub data Remaining : List TransferSnapshot → List TransferSnapshot → ℕ → Type 0 where
  nothing : Remaining [] [] 0
  drops :
      {t : TransferSnapshot} {ts us : List TransferSnapshot} {n : ℕ}
      → Ended (TransferSnapshot.state t)
      → Remaining ts us n
      → Remaining (t ∷ ts) us (suc n)
  keeps :
      {t : TransferSnapshot} {ts us : List TransferSnapshot} {n : ℕ}
      → ¬ Ended (TransferSnapshot.state t)
      → Remaining ts us n
      → Remaining (t ∷ ts) (t ∷ us) n

-- A transfer of the id has ended.
pub data HasEnded (id : ℕ) : List TransferSnapshot → Type 0 where
  here :
      {t : TransferSnapshot} {ts : List TransferSnapshot}
      → TransferSnapshot.id t ≡ id
      → Ended (TransferSnapshot.state t)
      → HasEnded id (t ∷ ts)
  there :
      {t : TransferSnapshot} {ts : List TransferSnapshot} → HasEnded id ts → HasEnded id (t ∷ ts)

is_deleted : ℕ → List TransferSnapshot → Bool
is_deleted id ts =
    any (λ t. TransferSnapshot.id t == id) (filter (λ t. is_finished (TransferSnapshot.state t)) ts)

HasEnded-is_deleted :
    (id : ℕ) (ts : List TransferSnapshot) → HasEnded id ts → is_deleted id ts ≡ true
unfolding is_deleted
HasEnded-is_deleted id _ (here {t} is ended) =
    rw (Ended-is_finished t.state ended, (==_iff t.id id).1 is) refl
HasEnded-is_deleted id _ (there {t} {ts} h) = ground (arith, HasEnded-is_deleted id ts h)

is_deleted-HasEnded :
    (id : ℕ) (ts : List TransferSnapshot) → is_deleted id ts ≡ true → HasEnded id ts
unfolding is_deleted
is_deleted-HasEnded id [] e = cc
is_deleted-HasEnded id (t ∷ ts) e = elim (Bool-cases (is_finished t.state)) [
  | inr other ↦ there (is_deleted-HasEnded id ts (rw other at e))
  | inl fin ↦ elim (Bool-cases (t.id == id)) [
    | inl is ↦ here ((==_iff t.id id).0 is) (is_finished-Ended t.state fin)
    | inr ne ↦ there (is_deleted-HasEnded id ts (rw (fin, ne) at e))
  ]
]

remaining :
    (ts : List TransferSnapshot)
    → Remaining ts
        (filter (λ t. not (is_finished (TransferSnapshot.state t))) ts)
        (length (filter (λ t. is_finished (TransferSnapshot.state t)) ts))
remaining [] = nothing
remaining (t ∷ ts) = elim (Bool-cases (is_finished t.state)) [
  | inl fin ↦ rw fin (drops (is_finished-Ended t.state fin) (remaining ts))
  | inr other ↦
      rw other (keeps (λ ended. let fin = Ended-is_finished t.state ended in cc) (remaining ts))
]

-- Clearing the history deletes exactly the transfers that are Completed, Failed or Cancelled, keeps
-- the others in their order, and returns how many it deleted. No items are left under the id of a
-- deleted transfer, and all under every other id.
pub clear_history_outcome :
    (r : TransferRepository)
    → Remaining r.transfers (clear_history r).0.transfers (clear_history r).1
      × ((id : ℕ) → HasEnded id r.transfers → list_items (clear_history r).0 id ≡ [])
      × ((id : ℕ) → ¬ HasEnded id r.transfers → list_items (clear_history r).0 id ≡ list_items r id)
unfolding clear_history delete_transfers list_items is_deleted
clear_history_outcome r = (
  remaining r.transfers,
  λ id h.
      let deleted = HasEnded-is_deleted id r.transfers h in
      ap (sort_by by_path) (
        filter-filter_drop _ _
          (λ i own.
            let same : StoredTransferItem.transfer_id i ≡ id = ground arith in
            rw same (rw deleted refl))
          r.transfer_items),
  λ id stays. elim (Bool-cases (is_deleted id r.transfers)) [
    | inl deleted ↦ absurd (stays (is_deleted-HasEnded id r.transfers deleted))
    | inr kept ↦ ap (sort_by by_path) (
        filter-filter_keep _ _
          (λ i own.
            let same : StoredTransferItem.transfer_id i ≡ id = ground arith in
            rw same (rw kept refl))
          r.transfer_items)
  ],
)

-- In the list of transfers each was created later than all behind it, or at the same time and its id
-- is not smaller; and of any kind of transfer there are as many in the list as are stored.
pub list_transfers_outcome :
    (r : TransferRepository)
    → NewestFirst (list_transfers r)
      × ((p : TransferSnapshot → Bool)
          → length (filter p (list_transfers r)) ≡ length (filter p r.transfers))
unfolding list_transfers
list_transfers_outcome r = (sort-NewestFirst r.transfers, λ p. count-sort p r.transfers)
