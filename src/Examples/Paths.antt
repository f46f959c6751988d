-- ===== src/Examples/Paths.antt =====
-- Concrete paths and manifests.
use transfer_assistant.Prelude.{◌≡◌, ◌↔◌, refl, ok, List, [], ◌∷◌, text, split, All, pos}
use transfer_assistant.Manifest.{
  ManifestEntry, file, directory, validate_relative_path, validate, has_windows_drive_prefix,
  validate_segments, validate_segment,
}
use transfer_assistant.Manifest.Paths.{IsSafe, resolve, validate_relative_path_ok, resolve_accepted}
use transfer_assistant.Manifest.Validation.{IsGood, Distinct, validate_ok}

validate_relative_path_ok_example :
    (validate_relative_path (text "docs/a.txt") ≡ ok tt) ↔ IsSafe (text "docs/a.txt")
validate_relative_path_ok_example = validate_relative_path_ok (text "docs/a.txt")

resolve_accepted_example :
    resolve (text "home" ∷ []) (split b'/' (text "docs/a.txt"))
    ≡ text "home" ∷ split b'/' (text "docs/a.txt")
unfolding validate_relative_path has_windows_drive_prefix validate_segments split validate_segment
resolve_accepted_example = resolve_accepted (text "home" ∷ []) (text "docs/a.txt") refl

abbrev listed : List ManifestEntry
listed =
    record { relative_path = text "docs"; kind = directory; size = 0; modified_unix_ms = pos 5 }
    ∷ record { relative_path = text "docs/a.txt"; kind = file; size = 3; modified_unix_ms = pos 5 }
    ∷ []

validate_ok_example : (validate listed ≡ ok tt) ↔ (All IsGood listed × Distinct listed)
validate_ok_example = validate_ok listed
