-- ===== src/Sources/Scan.antt =====
-- scan_sources and scan_path of native/transfer_core/src/outgoing.rs, for a platform that hands over
-- open files and for one with paths. Where the number behind a name passes 2 ^ 32 - 1 the source
-- panics; here it is an error.
use transfer_assistant.Prelude.{
  ℕ, zero, suc, ◌+◌, ◌*◌, ◌-◌, Bool, true, false, ◌||◌, List, [], ◌∷◌, ◌++◌, Option, none, some,
  Result, ok, err, ◌>>=◌, map_err, Text, text, ℤ, pos, negsuc, any, ltb, if◌then◌else◌, is_empty,
  is_ascii_digit, length, trim, starts_with, drop, sort_by, leb_text, file_name,
}
use transfer_assistant.Io.{IoError}
use transfer_assistant.Manifest.{file, directory}
use transfer_assistant.PathSafety.{safe_manifest_name, unique_manifest_root}
use transfer_assistant.Paging.{OutgoingEntry}
use transfer_assistant.Wire.{
  LanError, io_error, too_many_items, no_transferable_sources, invalid_platform_token,
}
use transfer_assistant.Sources.{
  Node, Children, file_node, directory_node, closed_directory, link_node, special_node, lost_node,
  no_children, child, OutgoingJob, SourceHandle, source_revision, unwrap_or, checked_job, with_root,
}

-- `parse::<i32>`: a sign that may be absent, and at least one digit.
digits_value : ℕ → Text → Option ℕ
digits_value n [] = some n
digits_value n (c ∷ s) =
    let rest = digits_value (n * 10 + (c - b'0')) s in if is_ascii_digit c then rest else none

number : Text → Option ℕ
number [] = none
number (c ∷ s) = digits_value 0 (c ∷ s)

signed : Bool → Option ℕ → Option ℤ
signed minus none = none
signed false (some n) = if ltb n 0x80000000 then some (pos n) else none
signed true (some zero) = some (pos 0)
signed true (some (suc n)) = if ltb n 0x80000000 then some (negsuc n) else none

unfoldable pub parse_i32 : Text → Option ℤ
unfolding digits_value number signed
parse_i32 s =
    if starts_with s (text "-")
    then signed true (number (drop 1 s))
    else if starts_with s (text "+")
    then signed false (number (drop 1 s))
    else signed false (number s)

-- The file that a token stands for on Android; elsewhere there is none.
unfoldable pub take_platform_file : Bool → Text → Result LanError ℕ
take_platform_file false token = err (invalid_platform_token token)
take_platform_file true token =
    if starts_with token (text "android-fd:")
    then handle (parse_i32 (drop 11 token))
    else err (invalid_platform_token token)
  where
    handle : Option ℤ → Result LanError ℕ
    handle (some (pos n)) = ok n
    handle _ = err (invalid_platform_token token)

-- The length and the time of an open file.
abbrev pub Fstat : Type 0
Fstat = ℕ → Result IoError (ℕ × ℤ)

-- A traversal below a path and a relative path, which adds to the entries.
abbrev pub Scan : Type 0
Scan = Text → Text → List OutgoingEntry → Result LanError (List OutgoingEntry)

-- What the loops over the sources keep: the entries, the roots seen and the names.
pub record Found : Type 0 where
  pub entries : List OutgoingEntry
  pub seen_roots : List Text
  pub top_level_names : List Text

abbrev pub root_name_of : SourceHandle → Text
root_name_of source = safe_manifest_name (
    if is_empty (trim source.display_name)
    then unwrap_or (file_name source.token) (text "未命名项目")
    else trim source.display_name)

unfoldable pub each_source :
    (Found → SourceHandle → Result LanError Found)
    → Found
    → List SourceHandle
    → Result LanError Found
each_source add found [] = ok found
each_source add found (source ∷ rest) = do more ← add found source; each_source add more rest

abbrev pub is_some {ℓ} : {A : Type ℓ} → Option A → Bool
is_some none = false
is_some (some a) = true

abbrev pub by_relative_path : OutgoingEntry → OutgoingEntry → Bool
by_relative_path a b = leb_text (OutgoingEntry.relative_path a) (OutgoingEntry.relative_path b)

module _ (fresh : ℕ → Text) (join_path : Text → Text → Text) where
  -- The loop over the children.
  unfoldable pub run_scans : List (Text × Scan) → Scan
  run_scans [] path relative_path entries = ok entries
  run_scans ((name, scan) ∷ rest) path relative_path entries = do
    more ← scan (join_path path name) (relative_path ++ (b'/' ∷ safe_manifest_name name)) entries
    run_scans rest path relative_path more

  abbrev pub directory_entry : ℕ → ℤ → Text → List OutgoingEntry → OutgoingEntry
  directory_entry len modified relative_path entries = record {
    item_id = fresh (length entries);
    relative_path = relative_path;
    kind = directory;
    size = 0;
    modified_unix_ms = modified;
    source_revision = source_revision len modified;
    source_path = none;
    persistent_source = none;
    source_file = none;
    random_access = true;
  }

  unfoldable mutual
    unfolding run_scans

    pub scan_path : Node → Scan
    scan_path (file_node len modified none) path relative_path entries = err io_error
    scan_path (file_node len modified (some handle)) path relative_path entries = ok (
        entries
        ++ record {
          item_id = fresh (length entries);
          relative_path = relative_path;
          kind = file;
          size = len;
          modified_unix_ms = modified;
          source_revision = source_revision len modified;
          source_path = some path;
          persistent_source = none;
          source_file = some handle;
          random_access = true;
        }
          ∷ [])
    scan_path (directory_node len modified children) path relative_path entries =
        run_scans (sort_by (λ a b. leb_text a.0 b.0) (child_scans children)) path relative_path
          (entries ++ directory_entry len modified relative_path entries ∷ [])
    scan_path (closed_directory len modified) path relative_path entries = err io_error
    scan_path link_node path relative_path entries = ok entries
    scan_path special_node path relative_path entries = ok entries
    scan_path lost_node path relative_path entries = err io_error

    pub child_scans : Children → List (Text × Scan)
    child_scans no_children = []
    child_scans (child name node rest) = (name, scan_path node) ∷ child_scans rest

  module _ (android : Bool) (fstat : Fstat) (node_at : Text → Node) (lower : Text → Text) where
    -- The size, the time, the revision and the file of a source.
    unfoldable pub source_fields : SourceHandle → Result LanError (ℕ × ℤ × Text × Option ℕ)
    source_fields source =
        if source.is_directory
        then ok (0, unwrap_or source.modified_unix_ms (pos 0), text "directory", none)
        else (do
          handle ← take_platform_file android source.token
          (len, changed) ← map_err (λ _. io_error) (fstat handle)
          (let size = unwrap_or source.size len in
              let modified = unwrap_or source.modified_unix_ms changed in
              ok (size, modified, source_revision size modified, some handle)))

    -- One turn of the loop for a platform that hands over its files.
    unfoldable pub add_platform_source : Found → SourceHandle → Result LanError Found
    add_platform_source found source = do
      let relative_path = unwrap_or source.relative_path (safe_manifest_name source.display_name)
      (size, modified, revision, handle) ← source_fields source
      (let (seen, names) =
            with_root lower relative_path (found.seen_roots, found.top_level_names) in
          ok (record {
            entries =
                found.entries
                ++ record {
                  item_id = fresh (length found.entries);
                  relative_path = relative_path;
                  kind = if source.is_directory then directory else file;
                  size = size;
                  modified_unix_ms = modified;
                  source_revision = revision;
                  source_path = none;
                  persistent_source = source.persistent_token;
                  source_file = handle;
                  random_access = unwrap_or source.random_access true;
                }
                  ∷ [];
            seen_roots = seen;
            top_level_names = names;
          }))

    unfoldable pub scan_root :
        SourceHandle → Node → Found → Option (Text × List Text) → Result LanError Found
    scan_root source node found none = err too_many_items
    scan_root source node found (some (root, seen)) = do
      entries ← scan_path node source.token root found.entries
      ok (record {
        entries = entries;
        seen_roots = seen;
        top_level_names = found.top_level_names ++ root ∷ [];
      })

    unfoldable pub add_node : SourceHandle → Node → Found → Result LanError Found
    add_node source link_node found = ok found
    add_node source lost_node found = err io_error
    add_node source node found =
        scan_root source node found
          (unique_manifest_root lower (root_name_of source) found.seen_roots)

    -- One turn of the loop over paths.
    unfoldable pub add_path_source : Found → SourceHandle → Result LanError Found
    unfolding add_node scan_root
    add_path_source found source = add_node source (node_at source.token) found

    unfoldable pub scan_sources : List SourceHandle → Result LanError OutgoingJob
    unfolding each_source
    scan_sources sources = do
      let of_platform =
          any
            (λ s.
              is_some (SourceHandle.relative_path s) || starts_with s.token (text "android-fd:"))
            sources
      found ←
          each_source (if of_platform then add_platform_source else add_path_source)
            (record { entries = []; seen_roots = []; top_level_names = [] }) sources
      (if is_empty (Found.entries found)
          then err no_transferable_sources
          else checked_job (sort_by by_relative_path (Found.entries found)) found.top_level_names)
