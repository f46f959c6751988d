-- ===== src/Manifest.antt =====
-- native/transfer_core/src/manifest.rs: the list of files and directories of a transfer and its
-- validation. A path is the list of its characters; `len` counts their UTF-8 bytes.
pub mod Paths
pub mod Validation
use transfer_assistant.Prelude.{
  ℕ, Bool, true, false, ◌&&◌, ◌||◌, List, [], ◌∷◌, Result, ok, err, ◌>>=◌, ◌>>◌, Text, text, ◌=ₜ◌,
  byte_len, is_empty, contains_char, starts_with, is_ascii_alphabetic, split, any, ltb, ◌==◌,
  if◌then◌else◌, ℤ, not,
}

abbrev pub max_path_bytes : ℕ
max_path_bytes = 4096

abbrev pub max_segment_bytes : ℕ
max_segment_bytes = 255

pub data EntryKind : Type 0 where
  file directory : EntryKind

abbrev pub is_directory : EntryKind → Bool
is_directory file = false
is_directory directory = true

pub record ManifestEntry : Type 0 where
  pub relative_path : Text
  pub kind : EntryKind
  pub size : ℕ
  pub modified_unix_ms : ℤ

pub data ManifestError : Type 0 where
  empty_path : ManifestError
  absolute_path backslash parent_traversal invalid_segment path_too_long : Text → ManifestError
  segment_too_long duplicate_path directory_has_size : Text → ManifestError

-- The two bytes tested are characters whenever the first is an ASCII letter.
unfoldable pub has_windows_drive_prefix : Text → Bool
has_windows_drive_prefix (a ∷ b ∷ rest) = is_ascii_alphabetic a && b == b':'
has_windows_drive_prefix _ = false

-- The body of the loop over the segments of `path`.
unfoldable pub validate_segment : Text → Text → Result ManifestError (Unit {0})
validate_segment path segment =
    if segment =ₜ text ".."
    then err (parent_traversal path)
    else if is_empty segment || segment =ₜ text "."
    then err (invalid_segment path)
    else if ltb max_segment_bytes (byte_len segment)
    then err (segment_too_long path)
    else if contains_char segment 0
    then err (invalid_segment path)
    else ok tt

unfoldable pub validate_segments : Text → List Text → Result ManifestError (Unit {0})
validate_segments path [] = ok tt
validate_segments path (segment ∷ rest) =
    validate_segment path segment >>= λ _. validate_segments path rest

unfoldable pub validate_relative_path : Text → Result ManifestError (Unit {0})
validate_relative_path path =
    if is_empty path
    then err empty_path
    else if ltb max_path_bytes (byte_len path)
    then err (path_too_long path)
    else if starts_with path (text "/")
        || (starts_with path (text "\\") || has_windows_drive_prefix path)
    then err (absolute_path path)
    else if contains_char path b'\\'
    then err (backslash path)
    else validate_segments path (split b'/' path)

-- The body of the loop over the entries, with the paths seen before.
unfoldable pub validate_entry : List Text → ManifestEntry → Result ManifestError (List Text)
validate_entry paths entry = do
  validate_relative_path entry.relative_path
  (if is_directory entry.kind && not (entry.size == 0)
      then err (directory_has_size entry.relative_path)
      else if any (λ p. p =ₜ entry.relative_path) paths
      then err (duplicate_path entry.relative_path)
      else ok (entry.relative_path ∷ paths))

unfoldable pub validate_entries : List Text → List ManifestEntry → Result ManifestError (Unit {0})
validate_entries paths [] = ok tt
validate_entries paths (entry ∷ rest) =
    validate_entry paths entry >>= λ seen. validate_entries seen rest

unfoldable pub validate : List ManifestEntry → Result ManifestError (Unit {0})
validate entries = validate_entries [] entries
