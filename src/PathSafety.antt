-- ===== src/PathSafety.antt =====
-- native/transfer_core/src/path_safety.rs: names for the files that arrive. `windows` stands for
-- `cfg!(windows)`, `lower` for `str::to_lowercase`, and `exists` for the names in the directory. The
-- loops over the numbers of a name run on fuel, one unit for each u32; out of fuel is the panic of the
-- source (`unreachable!`, or the overflow of the number).
pub mod Names
pub mod Roots
pub mod Unique
use transfer_assistant.Prelude.{
  ℕ, zero, suc, ◌+◌, ◌^◌, Bool, true, false, not, ◌&&◌, ◌||◌, List, [], ◌∷◌, ◌++◌, map, Option,
  none, some, Text, text, ◌=ₜ◌, any, ◌==◌, ltb, leb, if◌then◌else◌, is_empty, starts_with,
  is_ascii_digit, ascii_uppercase, trim_end_matches, trim, split_first, byte_len, get_or, decimal,
  file_name, rsplit_once, contains_char,
}

-- `Path::file_stem` and `Path::extension`.
abbrev pub stem_and_extension : Text → Option (Text × Option Text)
stem_and_extension name = of_name (file_name name)
  where
    at_dot : Text → Option (Text × Text) → Text × Option Text
    at_dot file none = (file, none)
    at_dot file (some (before, after)) =
        if is_empty before then (file, none) else (before, some after)

    of_name : Option Text → Option (Text × Option Text)
    of_name none = none
    of_name (some file) = some (at_dot file (rsplit_once b'.' file))

unfoldable pub suffixed_name : Text → ℕ → Text
suffixed_name name index = suffixed (stem_and_extension name)
  where
    number : Text
    number = text " (" ++ (decimal index ++ text ")")

    suffixed : Option (Text × Option Text) → Text
    suffixed (some (stem, some extension)) =
        if is_empty extension then name ++ number else stem ++ (number ++ (b'.' ∷ extension))
    suffixed _ = name ++ number

-- The name that the loops try at a number.
abbrev pub candidate : Text → ℕ → Text
candidate requested index = if index == 0 then requested else suffixed_name requested index

module _ (windows : Bool) (lower : Text → Text) (exists : Text → Bool) where
  abbrev pub key_of : Text → Text
  key_of name = if windows then lower name else name

  abbrev pub is_free : List Text → Text → Bool
  is_free reserved name = not (exists name) && not (any (λ k. k =ₜ key_of name) reserved)

  pub target_loop : ℕ → ℕ → Text → List Text → Option (Text × List Text)
  target_loop zero index requested reserved = none
  target_loop (suc fuel) index requested reserved =
      let rest = target_loop fuel (index + 1) requested reserved in
      if is_free reserved (candidate requested index)
      then some (candidate requested index, key_of (candidate requested index) ∷ reserved)
      else rest

  unfoldable pub unique_target_name : Text → List Text → Option (Text × List Text)
  unfolding target_loop
  unique_target_name requested reserved = target_loop (2 ^ 32) 0 requested reserved

abbrev pub is_forbidden : ℕ → Bool
is_forbidden c =
    ltb c b' '
    || any (λ x. x == c) (b'<' ∷ b'>' ∷ b':' ∷ b'"' ∷ b'/' ∷ b'\\' ∷ b'|' ∷ b'?' ∷ b'*' ∷ [])

abbrev pub is_space_or_dot : ℕ → Bool
is_space_or_dot c = (c == b' ') || (c == b'.')

-- The names of devices, by what stands before the first dot.
unfoldable pub is_reserved : Text → Bool
is_reserved name = reserved (map ascii_uppercase (split_first b'.' name).0)
  where
    reserved : Text → Bool
    reserved stem =
        any (λ d. d =ₜ stem) (text "CON" ∷ text "PRN" ∷ text "AUX" ∷ text "NUL" ∷ [])
        || ((byte_len stem == 4)
            && ((starts_with stem (text "COM") || starts_with stem (text "LPT"))
                && (is_ascii_digit (get_or stem 3 0) && not (get_or stem 3 0 == b'0'))))

-- `if reserved { sanitized.push('_') }`.
abbrev pub mark_reserved : Text → Text
mark_reserved name = if is_reserved name then name ++ text "_" else name

abbrev pub or_underscore : Text → Text
or_underscore name = if is_empty name then text "_" else name

-- The part of the function for Windows.
abbrev pub sanitize_for_windows : Text → Text
sanitize_for_windows segment = mark_reserved (
    or_underscore
      (trim_end_matches is_space_or_dot (map (λ c. if is_forbidden c then b'_' else c) segment)))

unfoldable pub sanitize_target_segment : Bool → Text → Text
sanitize_target_segment windows segment =
    if (segment =ₜ text ".") || (segment =ₜ text "..")
    then text "_"
    else if not windows
    then segment
    else sanitize_for_windows segment

unfoldable pub safe_manifest_name : Text → Text
safe_manifest_name name =
    named (trim (map (λ c. if (c == b'/') || ((c == b'\\') || (c == 0)) then b'_' else c) name))
  where
    named : Text → Text
    named cleaned =
        if is_empty cleaned || ((cleaned =ₜ text ".") || (cleaned =ₜ text ".."))
        then text "未命名项目"
        else cleaned

module _ (lower : Text → Text) where
  -- The loop of `unique_manifest_root`, with the name tried and the number of the next one.
  pub root_loop : ℕ → ℕ → Text → Text → List Text → Option (Text × List Text)
  root_loop zero index original name seen = none
  root_loop (suc fuel) index original name seen =
      let rest = root_loop fuel (index + 1) original (suffixed_name original index) seen in
      if any (λ k. k =ₜ lower name) seen then rest else some (name, lower name ∷ seen)

  unfoldable pub unique_manifest_root : Text → List Text → Option (Text × List Text)
  unfolding root_loop
  unique_manifest_root name seen = root_loop (2 ^ 32) 1 name name seen
