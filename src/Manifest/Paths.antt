-- ===== src/Manifest/Paths.antt =====
-- Which paths the validation accepts, described by their segments.
use mathlib.Core.List.{append-nil, append_assoc}
use transfer_assistant.Prelude.Splits.{
  join-split_first, split_first-join, split-no_sep, contains_char-split,
}
use transfer_assistant.Prelude.{
  ◌≡◌, ◌≢◌, ◌↔◌, ◌≤◌, refl, sym, ap, ◌∙◌, true, false, List, [], ◌∷◌, ◌++◌, ok, Text, text, ◌=ₜ◌,
  byte_len, is_empty, contains_char, starts_with, split, split_first, join, any, All, if◌then◌else◌,
  arith, list_beq_iff, nat_eq, >>=-eq-ok,
}
use transfer_assistant.Manifest.{
  max_path_bytes, max_segment_bytes, has_windows_drive_prefix, validate_segment, validate_segments,
  validate_relative_path,
}

-- A plain name: no separator of either kind, no NUL, not empty, not `.` or `..`, and not too long.
pub record IsName (s : Text) : Type 0 where
  pub not_empty : s ≢ []
  pub not_dot : s ≢ text "."
  pub not_dots : s ≢ text ".."
  pub short : byte_len s ≤ max_segment_bytes
  pub no_nul : contains_char s 0 ≡ false
  pub no_slash : contains_char s b'/' ≡ false
  pub no_backslash : contains_char s b'\\' ≡ false

-- Plain names joined by `/`, at least one of them, with no drive letter in front.
pub record IsSafe (path : Text) : Type 0 where
  pub first : Text
  pub rest : List Text
  pub joined : path ≡ join b'/' first rest
  pub names : All IsName (first ∷ rest)
  pub path_short : byte_len path ≤ max_path_bytes
  pub no_drive : has_windows_drive_prefix path ≡ false

eqₜ_iff : (s t : Text) → ((s =ₜ t) ≡ true) ↔ (s ≡ t)
eqₜ_iff = list_beq_iff nat_eq

is_empty_iff : (s : Text) → (is_empty s ≡ true) ↔ (s ≡ [])
is_empty_iff [] = (λ h. refl, λ h. refl)
is_empty_iff (c ∷ s) = (λ h. cc, λ h. cc)

validate_segment_ok :
    (path s : Text)
    → contains_char s b'/' ≡ false
    → contains_char s b'\\' ≡ false
    → (validate_segment path s ≡ ok tt) ↔ IsName s
unfolding validate_segment
validate_segment_ok path s slash back = (
  λ h. record {
    not_empty = λ e. ground (arith, is_empty_iff s);
    not_dot = λ e. ground (arith, eqₜ_iff s (text "."));
    not_dots = λ e. ground (arith, eqₜ_iff s (text ".."));
    short = ground arith;
    no_nul = ground arith;
    no_slash = slash;
    no_backslash = back;
  },
  λ v. ground (arith, is_empty_iff s, eqₜ_iff s (text "."), eqₜ_iff s (text "..")),
)

abbrev WithoutSlashes : Text → Type 0
WithoutSlashes s = (contains_char s b'/' ≡ false) × (contains_char s b'\\' ≡ false)

validate_segments_ok :
    (path : Text) (segments : List Text)
    → All WithoutSlashes segments
    → (validate_segments path segments ≡ ok tt) ↔ All IsName segments
unfolding validate_segments
validate_segments_ok path [] h = (λ _. tt, λ _. refl)
validate_segments_ok path (s ∷ rest) h =
    let this = validate_segment_ok path s h.0.0 h.0.1 in
    let later = validate_segments_ok path rest h.1 in
    (
      λ e.
          let (_, first, others) = >>=-eq-ok (validate_segment path s) _ e in
          (this.0 (first ∙ ap ok refl), later.0 others),
      λ names. rw (this.1 names.0) (later.1 names.1),
    )

without_slashes :
    (segments : List Text)
    → All (λ t. contains_char t b'/' ≡ false) segments
    → any (λ t. contains_char t b'\\') segments ≡ false
    → All WithoutSlashes segments
without_slashes [] h e = tt
without_slashes (s ∷ rest) h e = ((h.0, ground arith), without_slashes rest h.1 (ground arith))

names-WithoutSlashes :
    (segments : List Text)
    → All IsName segments
    → All WithoutSlashes segments
      × All (λ t. contains_char t b'/' ≡ false) segments
      × (any (λ t. contains_char t b'\\') segments ≡ false)
names-WithoutSlashes [] h = (tt, tt, refl)
names-WithoutSlashes (s ∷ rest) h =
    let (a, b, c) = names-WithoutSlashes rest h.1 in
    (((h.0.no_slash, h.0.no_backslash), a), (h.0.no_slash, b), rw (h.0.no_backslash, c) refl)

-- Joined names begin by a character that is no slash.
abbrev BeginsPlain : Text → Type 0
BeginsPlain s =
    (is_empty s ≡ false) × (starts_with s (text "/") ≡ false) × (starts_with s (text "\\") ≡ false)

joined-BeginsPlain :
    (first : Text) (rest : List Text) → IsName first → BeginsPlain (join b'/' first rest)
unfolding join
joined-BeginsPlain [] rest n = absurd (n.not_empty refl)
joined-BeginsPlain (c ∷ s) [] n = (refl, ground (arith, n.no_slash), ground (arith, n.no_backslash))
joined-BeginsPlain (c ∷ s) (t ∷ ts) n =
    (refl, ground (arith, n.no_slash), ground (arith, n.no_backslash))

module _ (path : Text) where
  abbrev Accepted : Type 0
  Accepted =
      BeginsPlain path
      × (byte_len path ≤ max_path_bytes)
      × (has_windows_drive_prefix path ≡ false)
      × (contains_char path b'\\' ≡ false)
      × (validate_segments path (split b'/' path) ≡ ok tt)

  validate-Accepted : (validate_relative_path path ≡ ok tt) ↔ Accepted
  unfolding validate_relative_path
  validate-Accepted = (
    λ h. (
      (ground arith, ground arith, ground arith),
      ground arith,
      ground arith,
      ground arith,
      ground arith,
    ),
    λ a. ground arith,
  )

  accepted_names : Accepted → All IsName (split b'/' path)
  accepted_names (_, short, drive, back, ends) =
      let plain =
        without_slashes (split b'/' path) (split-no_sep b'/' path)
          (sym (contains_char-split b'/' path b'\\' refl) ∙ back) in
      (validate_segments_ok path (split b'/' path) plain).0 ends

  accepted-IsSafe : Accepted → IsSafe path
  unfolding split
  accepted-IsSafe a = record {
    first = (split_first b'/' path).0;
    rest = (split_first b'/' path).1;
    joined = sym (join-split_first b'/' path);
    names = accepted_names a;
    path_short = a.1;
    no_drive = a.2;
  }

  safe-Accepted : IsSafe path → Accepted
  safe-Accepted v =
      let (plain, no_sep, no_back) = names-WithoutSlashes (v.first ∷ v.rest) v.names in
      let segments : split b'/' path ≡ v.first ∷ v.rest =
        ap (split b'/') v.joined
        ∙ (unfold split in
            ap (λ r. r.0 ∷ r.1) (split_first-join b'/' v.first v.rest no_sep.0 no_sep.1)) in
      (
        (rw v.joined (joined-BeginsPlain v.first v.rest v.names.0)),
        v.path_short,
        v.no_drive,
        contains_char-split b'/' path b'\\' refl ∙ rw segments no_back,
        rw segments ((validate_segments_ok path (v.first ∷ v.rest) plain).1 v.names),
      )

-- A path is accepted exactly if it is safe: plain names joined by `/`, within the limits, with no
-- drive letter in front.
pub validate_relative_path_ok : (path : Text) → (validate_relative_path path ≡ ok tt) ↔ IsSafe path
validate_relative_path_ok path = (
  λ h. accepted-IsSafe path ((validate-Accepted path).0 h),
  λ v. (validate-Accepted path).1 (safe-Accepted path v),
)

-- The directory above, if there is one.
abbrev pub parent : List Text → List Text
parent [] = []
parent (d ∷ []) = []
parent (d ∷ e ∷ ds) = d ∷ parent (e ∷ ds)

-- The target of a path below the directories `at`, the way a file system reads it: `..` goes up.
pub resolve : List Text → List Text → List Text
resolve at [] = at
resolve at (s ∷ rest) =
    resolve (if s =ₜ text ".." then parent at else if s =ₜ text "." then at else at ++ s ∷ []) rest

names_go_down :
    (at segments : List Text) → All IsName segments → resolve at segments ≡ at ++ segments
unfolding resolve
names_go_down at [] h = sym (append-nil at)
names_go_down at (s ∷ rest) h =
    let down : resolve at (s ∷ rest) ≡ resolve (at ++ s ∷ []) rest =
      unfold resolve in
      ground (arith, eqₜ_iff s (text ".."), eqₜ_iff s (text "."), h.0.not_dots, h.0.not_dot) in
    down ∙ names_go_down (at ++ s ∷ []) rest h.1 ∙ append_assoc at (s ∷ []) rest

-- An accepted path never leaves the directory that it is read in: its segments only go down.
pub resolve_accepted :
    (at : List Text) (path : Text)
    → validate_relative_path path ≡ ok tt
    → resolve at (split b'/' path) ≡ at ++ split b'/' path
resolve_accepted at path h =
    names_go_down at (split b'/' path) (accepted_names path ((validate-Accepted path).0 h))
