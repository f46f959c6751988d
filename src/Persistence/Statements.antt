-- ===== src/Persistence/Statements.antt =====
-- The deletions, the chunk table, the settings and the lists of persistence.rs.
use transfer_assistant.Prelude.{
  ℕ, Bool, true, false, not, ◌&&◌, List, [], ◌∷◌, map, Option, none, some, Result, ok, err, Text,
  ◌=ₜ◌, leb_ℤ, leb_text, filter, any, find, sort_by, length, ◌==◌, leb, if◌then◌else◌, file_name,
}
use transfer_assistant.Manifest.{is_directory}
use transfer_assistant.Model.{
  TransferDirection, incoming, outgoing, TransferState, completed, failed, cancelled,
  TransferSnapshot, TrustedPeer,
}
use transfer_assistant.Persistence.{
  TransferRepository, StoredTransferItem, HistoryFileRecord, CompletedChunk, RepositoryError,
  foreign_key_violated, has_transfer, has_item,
}

-- `DELETE FROM transfers WHERE ...` with its cascades, and how many transfers it deletes.
module _ (p : TransferSnapshot → Bool) (r : TransferRepository) where
  abbrev pub gone : List TransferSnapshot
  gone = filter p r.transfers

  abbrev pub is_gone : ℕ → Bool
  is_gone id = any (λ t. TransferSnapshot.id t == id) gone

  abbrev pub item_is_gone : Text → Bool
  item_is_gone id =
      any (λ i. StoredTransferItem.id i =ₜ id)
        (filter (λ i. is_gone (StoredTransferItem.transfer_id i)) r.transfer_items)

  unfoldable pub delete_transfers : TransferRepository × ℕ
  delete_transfers = (
    record r {
      transfers = filter (λ t. not (p t)) r.transfers;
      transfer_items =
          filter (λ i. not (is_gone (StoredTransferItem.transfer_id i))) r.transfer_items;
      completed_chunks =
          filter (λ c. not (is_gone (CompletedChunk.transfer_id c)) && not (item_is_gone c.item_id))
            r.completed_chunks;
    },
    length gone,
  )

abbrev pub is_finished : TransferState → Bool
is_finished completed = true
is_finished failed = true
is_finished cancelled = true
is_finished _ = false

unfoldable pub clear_history : TransferRepository → TransferRepository × ℕ
clear_history r = delete_transfers (λ t. is_finished t.state) r

-- The argument is the UUID that the text spells, if it does.
unfoldable pub delete_history_transfer : TransferRepository → Option ℕ → TransferRepository × Bool
delete_history_transfer r none = (r, false)
delete_history_transfer r (some id) =
    let (after, count) = delete_transfers (λ t. TransferSnapshot.id t == id) r in
    (after, not (count == 0))

unfoldable pub remove_transfer : TransferRepository → ℕ → TransferRepository
remove_transfer r id = (delete_transfers (λ t. TransferSnapshot.id t == id) r).0

-- `ORDER BY relative_path, id`.
abbrev pub by_path : StoredTransferItem → StoredTransferItem → Bool
by_path x y =
    if x.relative_path =ₜ y.relative_path
    then leb_text (StoredTransferItem.id x) (StoredTransferItem.id y)
    else leb_text x.relative_path y.relative_path

unfoldable pub list_items : TransferRepository → ℕ → List StoredTransferItem
list_items r transfer_id =
    sort_by by_path (filter (λ i. StoredTransferItem.transfer_id i == transfer_id) r.transfer_items)

-- The primary key of a row of `completed_chunks`.
abbrev pub is_row : ℕ → Text → ℕ → CompletedChunk → Bool
is_row transfer_id item_id chunk_index c =
    (CompletedChunk.transfer_id c == transfer_id)
    && ((CompletedChunk.item_id c =ₜ item_id) && (CompletedChunk.chunk_index c == chunk_index))

unfoldable pub mark_chunk_complete :
    TransferRepository → ℕ → Text → ℕ → List ℕ → Result RepositoryError (TransferRepository × Bool)
mark_chunk_complete r transfer_id item_id chunk_index chunk_hash =
    if any (is_row transfer_id item_id chunk_index) r.completed_chunks
    then ok (r, false)
    else if has_transfer r transfer_id && has_item r item_id
    then ok (
      record r {
        completed_chunks =
            record {
              transfer_id = transfer_id;
              item_id = item_id;
              chunk_index = chunk_index;
              chunk_hash = chunk_hash;
            }
            ∷ r.completed_chunks;
      },
      true,
    )
    else err foreign_key_violated

unfoldable pub completed_chunks : TransferRepository → ℕ → Text → List ℕ
completed_chunks r transfer_id item_id = sort_by leb (
    map CompletedChunk.chunk_index (
      filter
        (λ c.
          (CompletedChunk.transfer_id c == transfer_id) && (CompletedChunk.item_id c =ₜ item_id))
        (TransferRepository.completed_chunks r)))

unfoldable pub clear_completed_chunks : TransferRepository → ℕ → TransferRepository
clear_completed_chunks r transfer_id = record r {
  completed_chunks =
      filter (λ c. not (CompletedChunk.transfer_id c == transfer_id))
        (TransferRepository.completed_chunks r);
}

unfoldable pub save_setting : TransferRepository → Text → Text → TransferRepository
save_setting r key value_json = record r {
  settings = (key, value_json) ∷ filter (λ s. not (s.0 =ₜ key)) r.settings;
}

unfoldable pub setting : TransferRepository → Text → Option Text
setting r key = value (find (λ s. s.0 =ₜ key) r.settings)
  where
    value : Option (Text × Text) → Option Text
    value none = none
    value (some s) = some s.1

-- `ORDER BY last_seen_unix_ms DESC, created_unix_ms DESC`.
abbrev pub last_seen_first : TrustedPeer → TrustedPeer → Bool
last_seen_first p q =
    if leb_ℤ p.last_seen_unix_ms q.last_seen_unix_ms
      && leb_ℤ q.last_seen_unix_ms p.last_seen_unix_ms
    then leb_ℤ q.created_unix_ms p.created_unix_ms
    else leb_ℤ q.last_seen_unix_ms p.last_seen_unix_ms

unfoldable pub list_trusted_peers : TransferRepository → List TrustedPeer
list_trusted_peers r = sort_by last_seen_first r.trusted_peers

-- `Option::or`.
abbrev pub or_else {ℓ} : {A : Type ℓ} → Option A → Option A → Option A
or_else none b = b
or_else (some a) b = some a

abbrev pub local_path : TransferDirection → StoredTransferItem → Option Text
local_path incoming i = or_else i.final_ref i.temporary_ref
local_path outgoing i = or_else i.temporary_ref i.final_ref

-- `Path::file_name`, or the whole path if there is none.
abbrev pub file_name_of : Text → Text
file_name_of path = or_whole (file_name path)
  where
    or_whole : Option Text → Text
    or_whole none = path
    or_whole (some name) = name

abbrev pub is_completed : TransferState → Bool
is_completed completed = true
is_completed _ = false

-- The items with their transfers, where these are completed.
abbrev pub completed_rows :
    List TransferSnapshot → List StoredTransferItem → List (StoredTransferItem × TransferSnapshot)
completed_rows transfers [] = []
completed_rows transfers (i ∷ rest) =
    let others = completed_rows transfers rest in
    join (find (λ t. TransferSnapshot.id t == StoredTransferItem.transfer_id i) transfers) others
  where
    join :
        Option TransferSnapshot
        → List (StoredTransferItem × TransferSnapshot)
        → List (StoredTransferItem × TransferSnapshot)
    join none others = others
    join (some t) others = if is_completed t.state then (i, t) ∷ others else others

-- `ORDER BY t.updated_unix_ms DESC, i.relative_path ASC`.
abbrev pub updated_first :
    (StoredTransferItem × TransferSnapshot) → (StoredTransferItem × TransferSnapshot) → Bool
updated_first (i, s) (j, t) =
    if leb_ℤ s.updated_unix_ms t.updated_unix_ms && leb_ℤ t.updated_unix_ms s.updated_unix_ms
    then leb_text i.relative_path j.relative_path
    else leb_ℤ t.updated_unix_ms s.updated_unix_ms

unfoldable pub list_history_files : TransferRepository → List HistoryFileRecord
list_history_files r =
    map
      (λ row. record {
        id = StoredTransferItem.id row.0;
        transfer_id = StoredTransferItem.transfer_id row.0;
        file_name = file_name_of (StoredTransferItem.relative_path row.0);
        relative_path = StoredTransferItem.relative_path row.0;
        local_path = local_path (TransferSnapshot.direction row.1) row.0;
        is_directory = is_directory (StoredTransferItem.kind row.0);
        size = StoredTransferItem.size row.0;
        peer_name = TransferSnapshot.peer_name row.1;
        direction = TransferSnapshot.direction row.1;
        completed_unix_ms = TransferSnapshot.updated_unix_ms row.1;
      })
      (sort_by updated_first (completed_rows r.transfers r.transfer_items))
