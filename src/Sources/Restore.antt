-- ===== src/Sources/Restore.antt =====
-- The sources of a transfer in the repository, in native/transfer_core/src/outgoing.rs: saving and
-- reopening them, whether a source has changed, and deleting what a cancelled reception left.
use transfer_assistant.Prelude.{
  ℕ, zero, suc, ◌+◌, Bool, true, false, not, ◌&&◌, List, [], ◌∷◌, ◌++◌, Option, none, some, Result,
  ok, err, ◌>>=◌, map_err, ok_or, Text, text, ◌=ₜ◌, ℤ, pos, negsuc, any, if◌then◌else◌, starts_with,
  drop, filter,
}
use transfer_assistant.Manifest.{is_directory}
use transfer_assistant.Paging.{OutgoingEntry}
use transfer_assistant.Persistence.{
  TransferRepository, StoredTransferItem, RepositoryError, save_item,
}
use transfer_assistant.Persistence.Statements.{list_items, clear_completed_chunks}
use transfer_assistant.Sources.{
  Node, file_node, lost_node, OutgoingJob, source_revision, decimal_i64, checked_job, with_root,
}
use transfer_assistant.Sources.Scan.{Fstat}
use transfer_assistant.Wire.{
  LanError, io_error, android_storage_error, missing_persisted_sources, missing_persisted_source,
  invalid_platform_token, source_changed, missing_source_path,
}

-- What names the source of an entry after a restart.
abbrev pub source_ref : OutgoingEntry → Option Text
source_ref e = by_path e.source_path
  where
    by_path : Option Text → Option Text
    by_path (some path) = some path
    by_path none = by_token e.persistent_source
      where
        by_token : Option Text → Option Text
        by_token none = none
        by_token (some token) = some (text "android-source:" ++ token)

abbrev pub stored_item : ℕ → OutgoingEntry → StoredTransferItem
stored_item transfer_id e = record {
  id = OutgoingEntry.item_id e;
  transfer_id = transfer_id;
  relative_path = OutgoingEntry.relative_path e;
  kind = OutgoingEntry.kind e;
  size = OutgoingEntry.size e;
  modified_unix_ms = OutgoingEntry.modified_unix_ms e;
  source_revision = some (OutgoingEntry.source_revision e);
  temporary_ref = source_ref e;
  final_ref = none;
}

unfoldable pub save_entries :
    TransferRepository → ℕ → List OutgoingEntry → Result RepositoryError TransferRepository
save_entries r transfer_id [] = ok r
save_entries r transfer_id (e ∷ rest) = do
  r1 ← save_item r (stored_item transfer_id e)
  save_entries r1 transfer_id rest

unfoldable pub persist_outgoing_items :
    TransferRepository → ℕ → OutgoingJob → Result RepositoryError TransferRepository
unfolding save_entries
persist_outgoing_items r transfer_id job = save_entries r transfer_id job.entries

-- `ReopenedSource`: the path, the token, the file, and whether it is read at any place.
abbrev pub ReopenedSource : Type 0
ReopenedSource = Option Text × Option Text × Option ℕ × Bool

-- `open_source` of android_storage.rs: a descriptor, and whether it is read at any place.
abbrev pub OpenSource : Type 0
OpenSource = Text → Option (ℤ × Bool)

reopen_node : Node → Text → Text → Result LanError ReopenedSource
reopen_node (file_node len modified (some handle)) path relative_path =
    ok (some path, none, some handle, true)
reopen_node (file_node len modified none) path relative_path = err io_error
reopen_node lost_node path relative_path = err io_error
reopen_node node path relative_path = err (source_changed relative_path)

reopen_descriptor : Text → Option (ℤ × Bool) → Result LanError ReopenedSource
reopen_descriptor uri none = err android_storage_error
reopen_descriptor uri (some (pos handle, random_access)) =
    ok (none, some uri, some handle, random_access)
reopen_descriptor uri (some (negsuc n, random_access)) =
    err (invalid_platform_token (decimal_i64 (negsuc n)))

unfoldable pub reopen_persisted_source :
    Bool → (Text → Node) → OpenSource → Text → Text → Result LanError ReopenedSource
unfolding reopen_node reopen_descriptor
reopen_persisted_source false node_at open_source source_reference relative_path =
    reopen_node (node_at source_reference) source_reference relative_path
reopen_persisted_source true node_at open_source source_reference relative_path =
    if starts_with source_reference (text "android-source:")
    then reopen_descriptor (drop 15 source_reference) (open_source (drop 15 source_reference))
    else err (missing_persisted_source relative_path)

module _ (reopen : Text → Text → Result LanError ReopenedSource) (lower : Text → Text) where
  unfoldable pub reopened : StoredTransferItem → Result LanError ReopenedSource
  reopened item =
      if is_directory (StoredTransferItem.kind item) then ok (none, none, none, true) else (do
        source_reference ← ok_or item.temporary_ref (missing_persisted_source item.relative_path)
        reopen source_reference item.relative_path)

  unfoldable pub restored_entry : StoredTransferItem → Result LanError OutgoingEntry
  restored_entry item = do
    revision ← ok_or item.source_revision (missing_persisted_source item.relative_path)
    (source_path, persistent_source, source_file, random_access) ← reopened item
    ok (record {
      item_id = StoredTransferItem.id item;
      relative_path = StoredTransferItem.relative_path item;
      kind = StoredTransferItem.kind item;
      size = StoredTransferItem.size item;
      modified_unix_ms = StoredTransferItem.modified_unix_ms item;
      source_revision = revision;
      source_path = source_path;
      persistent_source = persistent_source;
      source_file = source_file;
      random_access = random_access;
    })

  -- The loop over the items, with the roots seen and the names.
  unfoldable pub restore_entries :
      List StoredTransferItem
      → List Text × List Text
      → Result LanError (List OutgoingEntry × List Text)
  restore_entries [] (seen, names) = ok ([], names)
  restore_entries (item ∷ rest) roots = do
    e ← restored_entry item
    (entries, names) ←
        restore_entries rest (with_root lower (StoredTransferItem.relative_path item) roots)
    ok (e ∷ entries, names)

  unfoldable pub restore_items : List StoredTransferItem → Result LanError OutgoingJob
  restore_items [] = err missing_persisted_sources
  restore_items (item ∷ rest) = do
    (entries, names) ← restore_entries (item ∷ rest) ([], [])
    checked_job entries names

  unfoldable pub restore_outgoing_job : TransferRepository → ℕ → Result LanError OutgoingJob
  unfolding restore_items restore_entries
  restore_outgoing_job r transfer_id = restore_items (list_items r transfer_id)

-- The revision that Android's provider tells for a URI.
abbrev pub UriRevision : Type 0
UriRevision = Text → Option Text

unfoldable pub current_revision : Bool → UriRevision → OutgoingEntry → ℕ → ℤ → Result LanError Text
current_revision android revision_of e len modified = by_uri android e.persistent_source
  where
    by_path : Option Text → Text
    by_path (some path) = source_revision len modified
    by_path none = source_revision len e.modified_unix_ms

    by_uri : Bool → Option Text → Result LanError Text
    by_uri true (some uri) = ok_or (revision_of uri) android_storage_error
    by_uri _ _ = ok (by_path e.source_path)

unfoldable pub verify_source_revision :
    Bool → Fstat → UriRevision → OutgoingEntry → Result LanError (Unit {0})
verify_source_revision android fstat revision_of e = do
  handle ← ok_or e.source_file missing_source_path
  (len, modified) ← map_err (λ _. io_error) (fstat handle)
  revision ← current_revision android revision_of e len modified
  (if revision =ₜ OutgoingEntry.source_revision e
      then ok tt
      else err (source_changed (OutgoingEntry.relative_path e)))

-- The files that exist, and the calls so far. At the n-th call the system refuses to remove
-- `refuses n path`, for instance because another program has the file open.
pub record Disk : Type 0 where
  pub files : List Text
  pub calls : ℕ

module _ (refuses : ℕ → Text → Bool) where
  -- One call of `fs::remove_file`: whether the file is gone, as after NotFound.
  unfoldable pub remove_file : Text → Disk → Disk × Bool
  remove_file path d =
      if any (λ f. f =ₜ path) d.files && refuses d.calls path
      then (record d { calls = d.calls + 1 }, false)
      else (record { files = filter (λ f. not (f =ₜ path)) d.files; calls = d.calls + 1 }, true)

  -- `for _ in 0..10`, and the last call behind it.
  unfoldable pub remove_retrying : ℕ → Text → Disk → Disk
  remove_retrying zero path d = if any (λ f. f =ₜ path) d.files then (remove_file path d).0 else d
  remove_retrying (suc n) path d =
      let (d1, gone) = remove_file path d in
      let again = remove_retrying n path d1 in if gone then d1 else again

  -- `delete_target` of android_storage.rs: whether it succeeds.
  module _ (android : Bool) (delete_target : Text → Bool) where
    unfoldable pub delete_item : Option Text → Disk → Result LanError Disk
    unfolding remove_retrying
    delete_item none d = ok d
    delete_item (some temporary) d =
        if android && starts_with temporary (text "android-saf:")
        then (if delete_target (drop 12 temporary) then ok d else err android_storage_error)
        else ok (remove_retrying 10 temporary d)

    unfoldable pub delete_items : List StoredTransferItem → Disk → Result LanError Disk
    delete_items [] d = ok d
    delete_items (item ∷ rest) d = do d1 ← delete_item item.temporary_ref d; delete_items rest d1

    unfoldable pub delete_partial_data :
        TransferRepository → ℕ → Disk → Result LanError (TransferRepository × Disk)
    unfolding delete_items
    delete_partial_data r transfer_id d = do
      d1 ← delete_items (list_items r transfer_id) d
      ok (clear_completed_chunks r transfer_id, d1)
