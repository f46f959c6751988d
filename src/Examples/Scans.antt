-- ===== src/Examples/Scans.antt =====
-- A folder with one file, scanned, saved and restored.
use transfer_assistant.Prelude.{
  ℕ, ◌≡◌, refl, true, false, none, some, Result, ok, [], ◌∷◌, ◌++◌, map, Text, text, pos, arith,
  Ordered, is_empty, trim, trim_start_matches, split,
}
use transfer_assistant.Manifest.{
  file, directory, validate, validate_entries, validate_entry, validate_relative_path,
  validate_segments, validate_segment, has_windows_drive_prefix,
}
use transfer_assistant.PathSafety.{safe_manifest_name, unique_manifest_root}
use transfer_assistant.Paging.{OutgoingEntry}
use transfer_assistant.Sources.{
  Node, file_node, directory_node, no_children, child, OutgoingJob, SourceHandle, checked_job,
  source_revision, decimal_i64, decimal_u64, total_size,
}
use transfer_assistant.Sources.Job.{IsSound}
use transfer_assistant.Sources.Listed.{AllListed}
use transfer_assistant.Sources.Outcome.{scan_sources_outcome}
use transfer_assistant.Sources.Scan.{
  scan_sources, by_relative_path, add_path_source, scan_path, Fstat,
}
use transfer_assistant.Sources.Restore.{
  ReopenedSource, persist_outgoing_items, restore_outgoing_job,
}
use transfer_assistant.Sources.Again.{restore-persist}
use transfer_assistant.Paging.Read.{received}
use transfer_assistant.Model.{TransferSnapshot, outgoing, preparing}
use transfer_assistant.Persistence.{TransferRepository}
use transfer_assistant.Wire.{LanError}

abbrev folder_source : SourceHandle
folder_source = record {
  token = text "/d";
  persistent_token = none;
  display_name = text "d ";
  relative_path = none;
  is_directory = true;
  size = none;
  modified_unix_ms = none;
  random_access = none;
}

abbrev tree : Text → Node
tree path = directory_node 64 (pos 7) (child (text "a") (file_node 5 (pos 9) (some 3)) no_children)

abbrev sent : TransferSnapshot
sent = record {
  id = 1;
  peer_id = text "p";
  peer_name = text "Peer";
  direction = outgoing;
  state = preparing;
  item_count = 2;
  total_bytes = 5;
  completed_bytes = 0;
  bytes_per_second = 0;
  created_unix_ms = pos 1;
  updated_unix_ms = pos 1;
  error = none;
}

abbrev reopen_path : Text → Text → Result LanError ReopenedSource
reopen_path source_reference path = ok (some source_reference, none, some 3, true)

abbrev ids : ℕ → Text
ids n = n ∷ []

abbrev slashed : Text → Text → Text
slashed path name = path ++ (b'/' ∷ name)

abbrev no_handles : Fstat
no_handles handle = ok (0, pos 0)

abbrev folder_entry : OutgoingEntry
folder_entry = record {
  item_id = ids 0;
  relative_path = text "d";
  kind = directory;
  size = 0;
  modified_unix_ms = pos 7;
  source_revision = text "64:7";
  source_path = none;
  persistent_source = none;
  source_file = none;
  random_access = true;
}

abbrev file_entry : OutgoingEntry
file_entry = record {
  item_id = ids 1;
  relative_path = text "d/a";
  kind = file;
  size = 5;
  modified_unix_ms = pos 9;
  source_revision = text "5:9";
  source_path = some (text "/d/a");
  persistent_source = none;
  source_file = some 3;
  random_access = true;
}

abbrev scanned : OutgoingJob
scanned = record {
  entries = folder_entry ∷ file_entry ∷ [];
  top_level_names = text "d" ∷ [];
  item_count = 2;
  total_bytes = 5;
}

scan_sources_outcome_example :
    IsSound scanned
    × Ordered by_relative_path scanned.entries
    × AllListed (λ t. t) scanned.top_level_names scanned.entries
    × (is_empty scanned.entries ≡ false)
unfolding scan_sources add_path_source scan_path safe_manifest_name unique_manifest_root checked_job
    total_size validate validate_entries trim trim_start_matches validate_entry
    validate_relative_path has_windows_drive_prefix validate_segments split validate_segment
    source_revision decimal_u64 decimal_i64
scan_sources_outcome_example =
    scan_sources_outcome (λ t. t) ids slashed false no_handles tree (folder_source ∷ []) scanned
      refl

scanned-IsSound : IsSound scanned
unfolding validate validate_entries validate_entry validate_relative_path validate_segments
    validate_segment has_windows_drive_prefix split
scanned-IsSound = record {
  accepted = refl;
  counted = refl;
  few = omega arith;
  summed = refl;
  bounded = omega arith;
}

abbrev new_repository : TransferRepository
new_repository = record {
  trusted_peers = [];
  transfers = sent ∷ [];
  transfer_items = [];
  completed_chunks = [];
  settings = [];
}

restore-persist_example :
    (saved : TransferRepository) × (again : OutgoingJob) × (persist_outgoing_items new_repository 1
        scanned
      ≡ ok saved)
    × (restore_outgoing_job reopen_path (λ t. t) saved 1 ≡ ok again)
    × (map received again.entries ≡ map received scanned.entries)
    × (again.item_count ≡ 2)
    × (again.total_bytes ≡ 5)
restore-persist_example =
    restore-persist reopen_path (λ t. t) new_repository 1 scanned scanned-IsSound (refl, tt) refl
      (record {
        stored = refl;
        no_item = refl;
        fresh_ids = (refl, (refl, tt));
        other_ids = ((λ e. ground arith, tt), (tt, tt));
      })
      (
        λ is_file. ground arith,
        (λ is_file. (text "/d/a", (some (text "/d/a"), none, some 3, true), refl, refl), tt),
      )
