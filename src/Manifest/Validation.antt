-- ===== src/Manifest/Validation.antt =====
-- Which manifests the validation accepts.
use transfer_assistant.Prelude.{
  ◌≡◌, ◌≢◌, ◌↔◌, refl, true, false, List, [], ◌∷◌, ok, >>=-eq-ok, Text, ◌=ₜ◌, any, All, arith,
  list_beq_iff, nat_eq,
}
use transfer_assistant.Manifest.{
  EntryKind, file, directory, is_directory, ManifestEntry, validate_relative_path, validate_entry,
  validate_entries, validate,
}
use transfer_assistant.Manifest.Paths.{IsSafe, validate_relative_path_ok}

-- A safe path, and no size if it is a directory.
pub record IsGood (entry : ManifestEntry) : Type 0 where
  pub safe : IsSafe entry.relative_path
  pub empty_directory : entry.kind ≡ directory → entry.size ≡ 0

-- No path stands twice.
abbrev pub Distinct : List ManifestEntry → Type 0
Distinct [] = Unit
Distinct (e ∷ rest) = All (λ x. e.relative_path ≢ x.relative_path) rest × Distinct rest

abbrev Unseen : List Text → ManifestEntry → Type 0
Unseen paths e = any (λ p. p =ₜ e.relative_path) paths ≡ false

kind_iff : (k : EntryKind) → (is_directory k ≡ true) ↔ (k ≡ directory)
kind_iff file = (λ h. cc, λ h. cc)
kind_iff directory = (λ h. refl, λ h. refl)

validate_entry_ok :
    (paths : List Text) (e : ManifestEntry)
    → (IsGood e × Unseen paths e → validate_entry paths e ≡ ok (e.relative_path ∷ paths))
      × ((seen : List Text)
          → validate_entry paths e ≡ ok seen
          → IsGood e × Unseen paths e × (seen ≡ e.relative_path ∷ paths))
unfolding validate_entry
validate_entry_ok paths e = (
  λ (good, unseen).
      rw ((validate_relative_path_ok e.relative_path).1 good.safe)
        (ground (arith, good.empty_directory, kind_iff e.kind)),
  λ seen h.
      let (_, path_ok, later) = >>=-eq-ok (validate_relative_path e.relative_path) _ h in
      (
        record {
          safe = (validate_relative_path_ok e.relative_path).0 path_ok;
          empty_directory = λ d. ground (arith, kind_iff e.kind);
        },
        ground arith,
        ground arith,
      ),
)

module _ (path : Text) (paths : List Text) where
  Unseen-later :
      (entries : List ManifestEntry)
      → All (Unseen (path ∷ paths)) entries
        ↔ (All (λ x. path ≢ x.relative_path) entries × All (Unseen paths) entries)
  Unseen-later [] = (λ h. (tt, tt), λ h. tt)
  Unseen-later (x ∷ rest) =
      let eq = list_beq_iff nat_eq path x.relative_path in
      let later = Unseen-later rest in
      (
        λ h.
            let (others, unseen) = later.0 h.1 in
            ((λ same. ground (arith, eq, h.0), others), (ground (arith, h.0), unseen)),
        λ h. (ground (arith, eq, h.0.0, h.1.0), later.1 (h.0.1, h.1.1)),
      )

abbrev Valid : List Text → List ManifestEntry → Type 0
Valid paths entries = All IsGood entries × Distinct entries × All (Unseen paths) entries

validate_entries_ok :
    (paths : List Text) (entries : List ManifestEntry)
    → (validate_entries paths entries ≡ ok tt) ↔ Valid paths entries
unfolding validate_entries
validate_entries_ok paths [] = (λ h. (tt, tt, tt), λ h. refl)
validate_entries_ok paths (e ∷ rest) =
    let step = validate_entry_ok paths e in
    (
      λ h.
          let (seen, this, others) = >>=-eq-ok (validate_entry paths e) _ h in
          let (good, unseen, same) = step.1 seen this in
          let later = (validate_entries_ok seen rest).0 others in
          let fresh = (Unseen-later e.relative_path paths rest).0 (rw same at later.2) in
          ((good, later.0), (fresh.0, later.1), (unseen, fresh.1)),
      λ v. rw (step.0 (v.0.0, v.2.0)) (
          (validate_entries_ok (e.relative_path ∷ paths) rest).1
            (v.0.1, v.1.1, (Unseen-later e.relative_path paths rest).1 (v.1.0, v.2.1))),
    )

All-Unseen : (entries : List ManifestEntry) → All (Unseen []) entries
All-Unseen [] = tt
All-Unseen (e ∷ rest) = (refl, All-Unseen rest)

-- A manifest is accepted exactly if every path is safe, every directory has size zero, and no path
-- stands twice.
pub validate_ok :
    (entries : List ManifestEntry)
    → (validate entries ≡ ok tt) ↔ (All IsGood entries × Distinct entries)
unfolding validate
validate_ok entries = (
  λ h. let v = (validate_entries_ok [] entries).0 h in (v.0, v.1),
  λ (good, distinct). (validate_entries_ok [] entries).1 (good, distinct, All-Unseen entries),
)
