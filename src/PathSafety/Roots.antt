-- ===== src/PathSafety/Roots.antt =====
-- The names of the sources at the root of a manifest, of safe_manifest_name in
-- native/transfer_core/src/path_safety.rs.
use transfer_assistant.Prelude.{
  ℕ, ◌≡◌, refl, Bool, false, ◌||◌, [], ◌∷◌, map, Text, text, ◌=ₜ◌, ◌==◌, any, if◌then◌else◌,
  is_empty, trim_start_matches, trim, is_whitespace, arith, Bool-cases, inl, inr,
}
use transfer_assistant.PathSafety.{safe_manifest_name}
use transfer_assistant.PathSafety.Names.{any-trim_end_matches}

-- A character that does not belong into a segment of a path.
abbrev pub splits_path : ℕ → Bool
splits_path c = (c == b'/') || ((c == b'\\') || (c == 0))

any-trim_start_matches :
    (q p : ℕ → Bool) (s : Text) → any q s ≡ false → any q (trim_start_matches p s) ≡ false
unfolding trim_start_matches
any-trim_start_matches q p [] h = refl
any-trim_start_matches q p (c ∷ s) h = ground (arith, any-trim_start_matches q p s)

any-map_underscore :
    (s : Text) → any splits_path (map (λ c. if splits_path c then b'_' else c) s) ≡ false
any-map_underscore [] = refl
any-map_underscore (c ∷ s) = elim (Bool-cases (splits_path c)) [
  | inl bad ↦ rw bad (any-map_underscore s)
  | inr good ↦ rw (good, good) (any-map_underscore s)
]

-- One segment of a path that names something below its directory.
pub record IsSegment (s : Text) : Type 0 where
  pub whole : any splits_path s ≡ false
  pub not_empty : is_empty s ≡ false
  pub not_here : (s =ₜ text ".") ≡ false
  pub not_above : (s =ₜ text "..") ≡ false

-- Whatever the name of a source is, its name in the manifest is not empty, neither of the two dot
-- names, and has no slash, backslash or NUL.
pub safe_manifest_name-IsSegment : (name : Text) → IsSegment (safe_manifest_name name)
unfolding safe_manifest_name
safe_manifest_name-IsSegment name =
    let mapped = map (λ c. if splits_path c then b'_' else c) name in
    let clean : any splits_path (trim mapped) ≡ false =
      unfold trim in
      any-trim_end_matches splits_path is_whitespace (trim_start_matches is_whitespace mapped)
        (any-trim_start_matches splits_path is_whitespace mapped (any-map_underscore name)) in
    elim (Bool-cases
      (is_empty (trim mapped) || ((trim mapped =ₜ text ".") || (trim mapped =ₜ text "..")))) [
        | inl bad ↦
            rw bad (record { whole = refl; not_empty = refl; not_here = refl; not_above = refl })
        | inr good ↦ rw good (record {
          whole = clean;
          not_empty = ground arith;
          not_here = ground arith;
          not_above = ground arith;
        })
      ]
