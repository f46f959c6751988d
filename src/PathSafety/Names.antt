-- ===== src/PathSafety/Names.antt =====
-- What names the sanitizing functions return.
use transfer_assistant.Prelude.{
  ℕ, ◌≡◌, refl, Bool, true, false, ◌&&◌, ◌||◌, [], ◌∷◌, ◌++◌, map, Text, text, ◌=ₜ◌, any,
  if◌then◌else◌, is_empty, trim_end_matches, arith, Bool-cases, inl, inr, nat_eq,
}
use transfer_assistant.PathSafety.{
  is_forbidden, is_space_or_dot, is_reserved, mark_reserved, or_underscore, sanitize_for_windows,
  sanitize_target_segment,
}

-- The last character passes.
abbrev pub ends_with : (ℕ → Bool) → Text → Bool
ends_with p [] = false
ends_with p (c ∷ []) = p c
ends_with p (c ∷ d ∷ s) = ends_with p (d ∷ s)

pub any-trim_end_matches :
    (q p : ℕ → Bool) (s : Text) → any q s ≡ false → any q (trim_end_matches p s) ≡ false
unfolding trim_end_matches
any-trim_end_matches q p [] h = refl
any-trim_end_matches q p (c ∷ s) h = ground (arith, any-trim_end_matches q p s)

ends_with-cons :
    (p : ℕ → Bool) (c : ℕ) (s : Text)
    → ends_with p s ≡ false
    → is_empty s && p c ≡ false
    → ends_with p (c ∷ s) ≡ false
ends_with-cons p c [] h e = e
ends_with-cons p c (d ∷ s) h e = h

ends_with-trim_end_matches : (p : ℕ → Bool) (s : Text) → ends_with p (trim_end_matches p s) ≡ false
unfolding trim_end_matches
ends_with-trim_end_matches p [] = refl
ends_with-trim_end_matches p (c ∷ s) = elim (Bool-cases (is_empty (trim_end_matches p s) && p c)) [
  | inl drop ↦ rw drop refl
  | inr keep ↦
      rw keep (ends_with-cons p c (trim_end_matches p s) (ends_with-trim_end_matches p s) keep)
]

any-map_clean :
    (s : Text) → any is_forbidden (map (λ c. if is_forbidden c then b'_' else c) s) ≡ false
any-map_clean [] = refl
any-map_clean (c ∷ s) = elim (Bool-cases (is_forbidden c)) [
  | inl bad ↦ rw bad (any-map_clean s)
  | inr good ↦ rw (good, good) (any-map_clean s)
]

-- No forbidden character, no space or dot at the end, not empty.
pub record IsPlainName (s : Text) : Type 0 where
  pub clean : any is_forbidden s ≡ false
  pub ends_plain : ends_with is_space_or_dot s ≡ false
  pub not_empty : is_empty s ≡ false

append-IsPlainName : (s : Text) → IsPlainName s → IsPlainName (s ++ text "_")
append-IsPlainName s v = record {
  clean = any-append s v.clean;
  ends_plain = ends_append s;
  not_empty = empty_append s;
}
  where
    any-append : (s : Text) → any is_forbidden s ≡ false → any is_forbidden (s ++ text "_") ≡ false
    any-append [] h = refl
    any-append (c ∷ s) h = ground (arith, any-append s)

    ends_append : (s : Text) → ends_with is_space_or_dot (s ++ text "_") ≡ false
    ends_append [] = refl
    ends_append (c ∷ []) = refl
    ends_append (c ∷ d ∷ s) = ends_append (d ∷ s)

    empty_append : (s : Text) → is_empty (s ++ text "_") ≡ false
    empty_append [] = refl
    empty_append (c ∷ s) = refl

mark_reserved-IsPlainName : (s : Text) → IsPlainName s → IsPlainName (mark_reserved s)
mark_reserved-IsPlainName s v = elim (Bool-cases (is_reserved s)) [
  | inl reserved ↦ rw reserved (append-IsPlainName s v)
  | inr other ↦ rw other v
]

sanitize_for_windows-IsPlainName : (s : Text) → IsPlainName (sanitize_for_windows s)
sanitize_for_windows-IsPlainName s =
    let cleaned = map (λ c. if is_forbidden c then b'_' else c) s in
    let trimmed = trim_end_matches is_space_or_dot cleaned in
    mark_reserved-IsPlainName (or_underscore trimmed) (elim (Bool-cases (is_empty trimmed)) [
      | inl none ↦ rw none (record { clean = refl; ends_plain = refl; not_empty = refl })
      | inr some_left ↦ rw some_left (record {
        clean = any-trim_end_matches is_forbidden is_space_or_dot cleaned (any-map_clean s);
        ends_plain = ends_with-trim_end_matches is_space_or_dot cleaned;
        not_empty = some_left;
      })
    ])

-- On Windows every segment becomes a name that is not empty, has no forbidden character and does not
-- end in a space or a dot. On the other systems a segment stays as it is, except that `.` and `..`
-- become `_`.
pub sanitize_target_segment_outcome :
    (s : Text)
    → IsPlainName (sanitize_target_segment true s)
      × (sanitize_target_segment false s
          ≡ (if (s =ₜ text ".") || (s =ₜ text "..") then text "_" else s))
unfolding sanitize_target_segment
sanitize_target_segment_outcome s = (
  elim (Bool-cases ((s =ₜ text ".") || (s =ₜ text ".."))) [
    | inl dots ↦ rw dots (record { clean = refl; ends_plain = refl; not_empty = refl })
    | inr other ↦ rw other (sanitize_for_windows-IsPlainName s)
  ],
  refl,
)
