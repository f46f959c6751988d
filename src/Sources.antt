-- ===== src/Sources.antt =====
-- The sources of a transfer, in native/transfer_core/src/outgoing.rs: scan_sources with scan_path,
-- persist_outgoing_items, restore_outgoing_job, verify_source_revision and delete_partial_data. A file
-- tree is data as the calls find it, the children of a directory with the names that `read_dir`
-- yields; an open file is the number of its handle. The UUIDs that the calls draw are `fresh 0`,
-- `fresh 1` and so on; `lower` stands for `str::to_lowercase`, `join_path` for `Path::join`.
pub mod Scan
pub mod Restore
pub mod Job
pub mod Listed
pub mod Tracked
pub mod Outcome
pub mod Saved
pub mod Again
use transfer_assistant.Prelude.{
  ℕ, zero, suc, ◌+◌, ◌*◌, ◌/◌, ◌%◌, ◌^◌, Bool, true, false, not, ◌||◌, List, [], ◌∷◌, ◌++◌, map,
  Option, none, some, Result, ok, err, ◌>>=◌, map_err, ok_or, Text, text, ◌=ₜ◌, ℤ, pos, negsuc, any,
  ltb, leb, ◌==◌, if◌then◌else◌, is_empty, is_ascii_digit, length, trim, split_first, starts_with,
  drop, sort_by, leb_text, file_name,
}
use transfer_assistant.Io.{IoError}
use transfer_assistant.Manifest.{EntryKind, file, directory, ManifestEntry, validate}
use transfer_assistant.PathSafety.{safe_manifest_name, unique_manifest_root}
use transfer_assistant.Paging.{OutgoingEntry}
use transfer_assistant.Wire.{
  LanError, io_error, manifest_error, too_many_items, too_many_chunks, total_size_overflow,
  no_transferable_sources, invalid_platform_token, missing_source_path, source_changed,
}

-- `format!` of a u64 and of an i64.
digits_of : ℕ → ℕ → Text → Text
digits_of zero n done = done
digits_of (suc fuel) n done =
    let rest = digits_of fuel (n / 10) ((b'0' + n % 10) ∷ done) in
    if n / 10 == 0 then (b'0' + n % 10) ∷ done else rest

unfoldable pub decimal_u64 : ℕ → Text
unfolding digits_of
decimal_u64 n = digits_of 20 n []

unfoldable pub decimal_i64 : ℤ → Text
unfolding decimal_u64
decimal_i64 (pos n) = decimal_u64 n
decimal_i64 (negsuc n) = b'-' ∷ decimal_u64 (n + 1)

-- `source_revision` of path_safety.rs, of a length and a time.
unfoldable pub source_revision : ℕ → ℤ → Text
source_revision len modified = decimal_u64 len ++ (b':' ∷ decimal_i64 modified)

pub record OutgoingJob : Type 0 where
  pub entries : List OutgoingEntry
  pub top_level_names : List Text
  pub item_count : ℕ
  pub total_bytes : ℕ

pub record SourceHandle : Type 0 where
  pub token : Text
  pub persistent_token : Option Text
  pub display_name : Text
  pub relative_path : Option Text
  pub is_directory : Bool
  pub size : Option ℕ
  pub modified_unix_ms : Option ℤ
  pub random_access : Option Bool

-- What the calls find at a path: the length and the time of its metadata, then for a file the handle
-- if it opens. The last three: a symbolic link, something else, nothing that can be looked at.
mutual
  pub data Node : Type 0 where
    file_node : ℕ → ℤ → Option ℕ → Node
    directory_node : ℕ → ℤ → Children → Node
    closed_directory : ℕ → ℤ → Node
    link_node special_node lost_node : Node

  pub data Children : Type 0 where
    no_children : Children
    child : Text → Node → Children → Children

unfoldable pub unwrap_or {ℓ} : {A : Type ℓ} → Option A → A → A
unwrap_or none d = d
unwrap_or (some a) d = a

-- `iter().try_fold` with `checked_add`.
unfoldable pub total_size : ℕ → List OutgoingEntry → Result LanError ℕ
total_size total [] = ok total
total_size total (e ∷ rest) =
    if ltb (total + OutgoingEntry.size e) (2 ^ 64)
    then total_size (total + OutgoingEntry.size e) rest
    else err total_size_overflow

abbrev pub manifest_of : List OutgoingEntry → List ManifestEntry
manifest_of entries =
    map
      (λ e. record {
        relative_path = OutgoingEntry.relative_path e;
        kind = OutgoingEntry.kind e;
        size = OutgoingEntry.size e;
        modified_unix_ms = OutgoingEntry.modified_unix_ms e;
      })
      entries

-- The end of `scan_sources` and of `restore_outgoing_job`.
unfoldable pub checked_job : List OutgoingEntry → List Text → Result LanError OutgoingJob
checked_job entries top_level_names = do
  valid ← map_err (λ _. manifest_error) (validate (manifest_of entries))
  item_count ← (if ltb (length entries) (2 ^ 32) then ok (length entries) else err too_many_items)
  total_bytes ← total_size 0 entries
  ok (record {
    entries = entries;
    top_level_names = top_level_names;
    item_count = item_count;
    total_bytes = total_bytes;
  })

-- The roots seen and the names listed, after one more path.
abbrev pub with_root : (Text → Text) → Text → List Text × List Text → List Text × List Text
with_root lower path (seen, names) =
    let root = (split_first b'/' path).0 in
    if any (λ s. s =ₜ lower root) seen
    then (seen, names)
    else (lower root ∷ seen, names ++ root ∷ [])
