-- ===== src/Persistence/Steps.antt =====
-- The operations of the repository as steps, and the invariant of all that they reach.
use transfer_assistant.Prelude.{
  ℕ, ◌≡◌, refl, ap, ◌∙◌, Bool, true, List, [], ◌∷◌, Option, none, some, ok, Text, ◌=ₜ◌, any, find,
  All, arith, Bool-cases, Option-cases, inl, inr, list_beq_iff, nat_eq,
}
use transfer_assistant.Model.{TransferSnapshot, TrustedPeer}
use transfer_assistant.Persistence.{
  TransferRepository, StoredTransferItem, CompletedChunk, has_transfer, has_item, save_transfer,
  save_item, replace_item, trust_peer, remove_trusted_peer, clear_trusted_peers,
}
use transfer_assistant.Persistence.Statements.{
  mark_chunk_complete, clear_completed_chunks, clear_history, remove_transfer,
  delete_history_transfer, save_setting, is_row,
}
use transfer_assistant.Persistence.Integrity.{
  IsConsistent, All-map, All-filter, delete_transfers-IsConsistent, save_transfer-IsConsistent,
}

find-All :
    {A : Type 0} (P : A → Type 0) (p : A → Bool) (xs : List A) (x : A)
    → All P xs
    → find p xs ≡ some x
    → P x
find-All P p [] x h e = cc
find-All P p (y ∷ ys) x h e = elim (Bool-cases (p y)) [
  | inl here ↦ let same : y ≡ x = cc (rw here at e) in rw (← same) h.0
  | inr there ↦ find-All P p ys x h.1 (rw there at e)
]

replace_item-All :
    (P : StoredTransferItem → Type 0) (u : StoredTransferItem) (xs : List StoredTransferItem)
    → P u
    → All P xs
    → All P (replace_item u xs)
unfolding replace_item
replace_item-All P u [] h v = tt
replace_item-All P u (x ∷ xs) h v =
    elim (Bool-cases (StoredTransferItem.id x =ₜ StoredTransferItem.id u)) [
      | inl e ↦ rw e (h, replace_item-All P u xs h v.1)
      | inr e ↦ rw e (v.0, replace_item-All P u xs h v.1)
    ]

any-replace_item :
    (u : StoredTransferItem) (xs : List StoredTransferItem) (k : Text)
    → any (λ i. StoredTransferItem.id i =ₜ k) (replace_item u xs)
      ≡ any (λ i. StoredTransferItem.id i =ₜ k) xs
unfolding replace_item
any-replace_item u [] k = refl
any-replace_item u (x ∷ xs) k = ground (
  arith,
  list_beq_iff nat_eq (StoredTransferItem.id x) (StoredTransferItem.id u),
  ap (λ t. t =ₜ k) {x = StoredTransferItem.id x} {y = StoredTransferItem.id u},
  any-replace_item u xs k,
)

save_item-IsConsistent :
    (r : TransferRepository) (item : StoredTransferItem) (r' : TransferRepository)
    → IsConsistent r
    → save_item r item ≡ ok r'
    → IsConsistent r'
unfolding save_item
save_item-IsConsistent r item r' v h =
    elim (Option-cases
      (find (λ i. StoredTransferItem.id i =ₜ StoredTransferItem.id item) r.transfer_items)) [
        | inl new ↦
            let saved = rw new at h in
            let owner : has_transfer r item.transfer_id ≡ true = ground arith in
            let is : record r { transfer_items = item ∷ r.transfer_items } ≡ r' = ground arith in
            rw (← is) (record {
              items_owned = (owner, v.items_owned);
              chunks_owned =
                  All-map _ _ (λ c owned. (owned.0, ground (arith, owned.1))) r.completed_chunks
                    v.chunks_owned;
            })
        | inr (old, found) ↦
            let saved = rw found at h in
            let u = record item { transfer_id = StoredTransferItem.transfer_id old } in
            let owner : has_transfer r (StoredTransferItem.transfer_id old) ≡ true =
              find-All (λ i. has_transfer r (StoredTransferItem.transfer_id i) ≡ true) _
                r.transfer_items old v.items_owned found in
            let is : record r { transfer_items = replace_item u r.transfer_items } ≡ r' =
              ground arith in
            rw (← is) (record {
              items_owned =
                  replace_item-All (λ i. has_transfer r (StoredTransferItem.transfer_id i) ≡ true) u
                    r.transfer_items owner v.items_owned;
              chunks_owned =
                  All-map _ _
                    (λ c owned. (
                      owned.0,
                      any-replace_item u r.transfer_items (CompletedChunk.item_id c) ∙ owned.1,
                    ))
                    r.completed_chunks v.chunks_owned;
            })
      ]

mark_chunk_complete-IsConsistent :
    (r : TransferRepository) (transfer_id : ℕ) (item_id : Text) (chunk_index : ℕ) (hash : List ℕ)
    (r' : TransferRepository) (new : Bool)
    → IsConsistent r
    → mark_chunk_complete r transfer_id item_id chunk_index hash ≡ ok (r', new)
    → IsConsistent r'
unfolding mark_chunk_complete
mark_chunk_complete-IsConsistent r transfer_id item_id chunk_index hash r' new v h =
    elim (Bool-cases (any (is_row transfer_id item_id chunk_index) r.completed_chunks)) [
      | inl old ↦ let kept = rw old at h in let is : r ≡ r' = ground arith in rw is at v
      | inr fresh ↦
          let saved = rw fresh at h in
          let owner : has_transfer r transfer_id ≡ true = ground arith in
          let item : has_item r item_id ≡ true = ground arith in
          let row : CompletedChunk = record {
            transfer_id = transfer_id;
            item_id = item_id;
            chunk_index = chunk_index;
            chunk_hash = hash;
          } in
          let is : record r { completed_chunks = row ∷ r.completed_chunks } ≡ r' = ground arith in
          rw (← is)
            (record { items_owned = v.items_owned; chunks_owned = ((owner, item), v.chunks_owned) })
    ]

-- One call of an operation that changes the repository.
pub data Step : TransferRepository → TransferRepository → Type 0 where
  saves : {r : TransferRepository} (t : TransferSnapshot) → Step r (save_transfer r t)
  saves_item :
      {r r' : TransferRepository} (item : StoredTransferItem) → save_item r item ≡ ok r' → Step r r'
  marks :
      {r r' : TransferRepository} (transfer_id : ℕ) (item_id : Text) (index : ℕ) (hash : List ℕ)
      (new : Bool)
      → mark_chunk_complete r transfer_id item_id index hash ≡ ok (r', new)
      → Step r r'
  clears_chunks : {r : TransferRepository} (id : ℕ) → Step r (clear_completed_chunks r id)
  clears_history : {r : TransferRepository} → Step r (clear_history r).0
  deletes : {r : TransferRepository} (id : Option ℕ) → Step r (delete_history_transfer r id).0
  removes : {r : TransferRepository} (id : ℕ) → Step r (remove_transfer r id)
  trusts : {r : TransferRepository} (p : TrustedPeer) → Step r (trust_peer r p)
  distrusts : {r : TransferRepository} (id : Text) → Step r (remove_trusted_peer r id).0
  distrusts_all : {r : TransferRepository} → Step r (clear_trusted_peers r).0
  sets : {r : TransferRepository} (key value : Text) → Step r (save_setting r key value)

-- The repository of a new database.
abbrev pub new_repository : TransferRepository
new_repository = record {
  trusted_peers = [];
  transfers = [];
  transfer_items = [];
  completed_chunks = [];
  settings = [];
}

pub data Reachable : TransferRepository → Type 0 where
  opened : Reachable new_repository
  then_step : {r r' : TransferRepository} → Reachable r → Step r r' → Reachable r'

Step-IsConsistent : {r r' : TransferRepository} → Step r r' → IsConsistent r → IsConsistent r'
unfolding clear_completed_chunks clear_history delete_history_transfer remove_transfer trust_peer
    remove_trusted_peer clear_trusted_peers save_setting
Step-IsConsistent (saves {r} t) v = save_transfer-IsConsistent r t v
Step-IsConsistent (saves_item {r} {r'} item h) v = save_item-IsConsistent r item r' v h
Step-IsConsistent (marks {r} {r'} t i k hash new h) v =
    mark_chunk_complete-IsConsistent r t i k hash r' new v h
Step-IsConsistent (clears_chunks {r} id) v = record {
  items_owned = v.items_owned;
  chunks_owned = All-filter _ _ _ (λ c owned kept. owned) r.completed_chunks v.chunks_owned;
}
Step-IsConsistent (clears_history {r}) v = delete_transfers-IsConsistent _ r v
Step-IsConsistent (deletes {r} none) v = v
Step-IsConsistent (deletes {r} (some id)) v = delete_transfers-IsConsistent _ r v
Step-IsConsistent (removes {r} id) v = delete_transfers-IsConsistent _ r v
Step-IsConsistent (trusts p) v = record {
  items_owned = v.items_owned;
  chunks_owned = v.chunks_owned;
}
Step-IsConsistent (distrusts id) v = record {
  items_owned = v.items_owned;
  chunks_owned = v.chunks_owned;
}
Step-IsConsistent distrusts_all v = record {
  items_owned = v.items_owned;
  chunks_owned = v.chunks_owned;
}
Step-IsConsistent (sets key value) v = record {
  items_owned = v.items_owned;
  chunks_owned = v.chunks_owned;
}

-- In every repository that the operations reach from a new database, each item belongs to a stored
-- transfer, and each completed chunk to a stored transfer and a stored item.
pub Reachable-IsConsistent : (r : TransferRepository) → Reachable r → IsConsistent r
Reachable-IsConsistent r opened = record { items_owned = tt; chunks_owned = tt }
Reachable-IsConsistent r (then_step before step) =
    Step-IsConsistent step (Reachable-IsConsistent _ before)
