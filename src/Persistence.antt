-- ===== src/Persistence.antt =====
-- native/transfer_core/src/persistence.rs: the repository of transfers, their items and chunks,
-- trusted peers and settings. A table is the list of its rows, and each operation does what its SQL
-- statement says, with the primary keys, the UNIQUE constraint of the items and the foreign keys with
-- ON DELETE CASCADE of the schema. A UUID is its number. The database itself does not fail here and its
-- lock is not poisoned: the errors are those of the constraints. Sizes and counts fit the database's
-- signed 64 bits; for a greater one rusqlite gives an error. The JSON of a setting is its text. Opening the
-- database and its migrations are not modelled.
pub mod Statements
pub mod Integrity
pub mod Steps
pub mod Chunks
pub mod Newest
pub mod History
use transfer_assistant.Prelude.{
  ℕ, Bool, true, false, not, ◌&&◌, ◌||◌, List, [], ◌∷◌, map, Option, none, some, Result, ok, err,
  Text, text, ◌=ₜ◌, ℤ, leb_ℤ, filter, any, find, sort_by, length, ◌==◌, ltb, leb, if◌then◌else◌,
  is_empty,
}
use transfer_assistant.Manifest.{EntryKind, is_directory}
use transfer_assistant.Model.{
  TransferDirection, incoming, outgoing, TransferState, completed, failed, cancelled,
  TransferSnapshot, TrustedPeer,
}

pub record StoredTransferItem : Type 0 where
  pub id : Text
  pub transfer_id : ℕ
  pub relative_path : Text
  pub kind : EntryKind
  pub size : ℕ
  pub modified_unix_ms : ℤ
  pub source_revision : Option Text
  pub temporary_ref : Option Text
  pub final_ref : Option Text

pub record HistoryFileRecord : Type 0 where
  pub id : Text
  pub transfer_id : ℕ
  pub file_name : Text
  pub relative_path : Text
  pub local_path : Option Text
  pub is_directory : Bool
  pub size : ℕ
  pub peer_name : Text
  pub direction : TransferDirection
  pub completed_unix_ms : ℤ

-- A row of `completed_chunks`.
pub record CompletedChunk : Type 0 where
  pub transfer_id : ℕ
  pub item_id : Text
  pub chunk_index : ℕ
  pub chunk_hash : List ℕ

pub record TransferRepository : Type 0 where
  pub trusted_peers : List TrustedPeer
  pub transfers : List TransferSnapshot
  pub transfer_items : List StoredTransferItem
  pub completed_chunks : List CompletedChunk
  pub settings : List (Text × Text)

pub data RepositoryError : Type 0 where
  unique_violated foreign_key_violated : RepositoryError

abbrev pub has_transfer : TransferRepository → ℕ → Bool
has_transfer r id = any (λ t. TransferSnapshot.id t == id) r.transfers

abbrev pub has_item : TransferRepository → Text → Bool
has_item r id = any (λ i. StoredTransferItem.id i =ₜ id) r.transfer_items

-- The row with the id keeps its creation time; a new row goes to the end.
unfoldable pub upsert_transfer : TransferSnapshot → List TransferSnapshot → List TransferSnapshot
upsert_transfer t [] = t ∷ []
upsert_transfer t (x ∷ xs) =
    let rest = upsert_transfer t xs in
    if TransferSnapshot.id x == TransferSnapshot.id t
    then record t { created_unix_ms = x.created_unix_ms } ∷ xs
    else x ∷ rest

unfoldable pub save_transfer : TransferRepository → TransferSnapshot → TransferRepository
save_transfer r t = record r { transfers = upsert_transfer t r.transfers }

-- `ORDER BY created_unix_ms DESC, id DESC`.
abbrev pub newest_first : TransferSnapshot → TransferSnapshot → Bool
newest_first s t =
    if leb_ℤ s.created_unix_ms t.created_unix_ms && leb_ℤ t.created_unix_ms s.created_unix_ms
    then leb (TransferSnapshot.id t) (TransferSnapshot.id s)
    else leb_ℤ t.created_unix_ms s.created_unix_ms

unfoldable pub list_transfers : TransferRepository → List TransferSnapshot
list_transfers r = sort_by newest_first r.transfers

unfoldable pub trust_peer : TransferRepository → TrustedPeer → TransferRepository
trust_peer r p = record r { trusted_peers = upsert r.trusted_peers }
  where
    upsert : List TrustedPeer → List TrustedPeer
    upsert [] = p ∷ []
    upsert (x ∷ xs) =
        let rest = upsert xs in
        if x.peer_id =ₜ p.peer_id
        then record p { created_unix_ms = x.created_unix_ms } ∷ xs
        else x ∷ rest

unfoldable pub trusted_peer : TransferRepository → Text → Option TrustedPeer
trusted_peer r peer_id = find (λ p. TrustedPeer.peer_id p =ₜ peer_id) r.trusted_peers

unfoldable pub remove_trusted_peer : TransferRepository → Text → TransferRepository × Bool
remove_trusted_peer r peer_id = (
  record r { trusted_peers = filter (λ p. not (TrustedPeer.peer_id p =ₜ peer_id)) r.trusted_peers },
  any (λ p. TrustedPeer.peer_id p =ₜ peer_id) r.trusted_peers,
)

unfoldable pub clear_trusted_peers : TransferRepository → TransferRepository × ℕ
clear_trusted_peers r = (record r { trusted_peers = [] }, length r.trusted_peers)

-- The row has another id, and the same transfer and path.
abbrev pub clashes : StoredTransferItem → StoredTransferItem → Bool
clashes item x =
    not (StoredTransferItem.id x =ₜ StoredTransferItem.id item)
    && ((StoredTransferItem.transfer_id x == StoredTransferItem.transfer_id item)
        && (StoredTransferItem.relative_path x =ₜ StoredTransferItem.relative_path item))

unfoldable pub replace_item : StoredTransferItem → List StoredTransferItem → List StoredTransferItem
replace_item item [] = []
replace_item item (x ∷ xs) =
    let rest = replace_item item xs in
    if StoredTransferItem.id x =ₜ StoredTransferItem.id item then item ∷ rest else x ∷ rest

-- On a conflict the row keeps its transfer.
unfoldable pub save_item :
    TransferRepository → StoredTransferItem → Result RepositoryError TransferRepository
save_item r item =
    save (find (λ i. StoredTransferItem.id i =ₜ StoredTransferItem.id item) r.transfer_items)
  where
    save : Option StoredTransferItem → Result RepositoryError TransferRepository
    save none =
        if any (clashes item) r.transfer_items
        then err unique_violated
        else if has_transfer r item.transfer_id
        then ok (record r { transfer_items = item ∷ r.transfer_items })
        else err foreign_key_violated
    save (some old) =
        let updated = record item { transfer_id = StoredTransferItem.transfer_id old } in
        if any (clashes updated) r.transfer_items
        then err unique_violated
        else ok (record r { transfer_items = replace_item updated r.transfer_items })
