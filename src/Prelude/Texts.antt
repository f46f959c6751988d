-- ===== src/Prelude/Texts.antt =====
-- Rust strings as lists of their characters' code points, with the operations of the standard
-- library that the program uses on them.
use Prim.Native.Nat.{ℕ, zero, suc, ◌+◌, ◌-◌, ◌/◌, ◌%◌}
use mathlib.Core.Option.{Option, none, some}
use Prim.Native.Char.{code}
use Prim.Native.String.{String}
use mathlib.Core.Path.{◌≡◌, refl, ap, ◌∙◌}
use native.Mathlib.Omega.{arith}
use native.Mathlib.Decide.{ℕ_discrete}
use mathlib.Core.Bool.{Bool, true, false, not, ◌&&◌, ◌||◌}
use mathlib.Core.List.{List, [], ◌∷◌, ◌++◌}
use transfer_assistant.Prelude.Tests.{ltb, leb, ◌==◌, if◌then◌else◌}
use transfer_assistant.Prelude.Lists.{any, filter}
use transfer_assistant.Prelude.Dicts.{list_beq}

abbrev pub Text : Type 0
Text = List ℕ

-- The text of a literal.
abbrev pub text : String → Text
text String.[] = []
text (String.◌∷◌ c s) = code c ∷ text s

infix 50 ◌=ₜ◌
abbrev pub ◌=ₜ◌ : Text → Text → Bool
s =ₜ t = list_beq ◌==◌ s t

-- `str::len`: the bytes of the UTF-8 encoding.
abbrev pub utf8_width : ℕ → ℕ
utf8_width c = if ltb c 0x80 then 1 else if ltb c 0x800 then 2 else if ltb c 0x10000 then 3 else 4

abbrev pub byte_len : Text → ℕ
byte_len [] = 0
byte_len (c ∷ s) = utf8_width c + byte_len s

abbrev pub is_empty {ℓ} : {A : Type ℓ} → List A → Bool
is_empty [] = true
is_empty (c ∷ s) = false

-- `str::contains(char)`.
abbrev pub contains_char : Text → ℕ → Bool
contains_char s c = any (λ x. x == c) s

abbrev pub starts_with : Text → Text → Bool
starts_with s [] = true
starts_with [] (p ∷ ps) = false
starts_with (c ∷ s) (p ∷ ps) = let rest = starts_with s ps in if c == p then rest else false

-- `char::is_whitespace`: the property White_Space of Unicode.
abbrev pub is_whitespace : ℕ → Bool
is_whitespace c =
    (leb 9 c && leb c 13)
    || (any (λ x. x == c)
          (0x20 ∷ 0x85 ∷ 0xA0 ∷ 0x1680 ∷ 0x2028 ∷ 0x2029 ∷ 0x202F ∷ 0x205F ∷ 0x3000 ∷ [])
        || (leb 0x2000 c && leb c 0x200A))

abbrev pub is_ascii_alphabetic : ℕ → Bool
is_ascii_alphabetic c = (leb b'a' c && leb c b'z') || (leb b'A' c && leb c b'Z')

abbrev pub is_ascii_digit : ℕ → Bool
is_ascii_digit c = leb b'0' c && leb c b'9'

abbrev pub ascii_uppercase : ℕ → ℕ
ascii_uppercase c = if leb b'a' c && leb c b'z' then c - 32 else c

-- What is left of `s` behind the characters at its front that `p` accepts.
unfoldable pub trim_start_matches : (ℕ → Bool) → Text → Text
trim_start_matches p [] = []
trim_start_matches p (c ∷ s) = let rest = trim_start_matches p s in if p c then rest else c ∷ s

unfoldable pub trim_end_matches : (ℕ → Bool) → Text → Text
trim_end_matches p [] = []
trim_end_matches p (c ∷ s) =
    let rest = trim_end_matches p s in if is_empty rest && p c then [] else c ∷ rest

-- `str::trim`.
unfoldable pub trim : Text → Text
unfolding trim_end_matches
trim s = trim_end_matches is_whitespace (trim_start_matches is_whitespace s)

-- The first segment and the others, as `str::split(char)` yields them: never none.
abbrev pub onto_first : ℕ → Text × List Text → Text × List Text
onto_first c (s, rest) = (c ∷ s, rest)

abbrev pub new_segment : Text × List Text → Text × List Text
new_segment (s, rest) = ([], s ∷ rest)

unfoldable pub split_first : ℕ → Text → Text × List Text
split_first sep [] = ([], [])
split_first sep (c ∷ s) =
    let rest = split_first sep s in if c == sep then new_segment rest else onto_first c rest

unfoldable pub split : ℕ → Text → List Text
unfolding split_first
split sep s = let (first, rest) = split_first sep s in first ∷ rest

-- The segments with `sep` between them.
unfoldable pub join : ℕ → Text → List Text → Text
join sep s [] = s
join sep s (t ∷ ts) = s ++ (sep ∷ join sep t ts)

-- A byte as two lowercase hexadecimal digits: `{byte:02x}`.
abbrev pub hex_digit : ℕ → ℕ
hex_digit d = if ltb d 10 then b'0' + d else b'a' + (d - 10)

-- `<=` of strings, by their characters (the order of the UTF-8 bytes is the same).
abbrev pub leb_text : Text → Text → Bool
leb_text [] t = true
leb_text (c ∷ s) [] = false
leb_text (c ∷ s) (d ∷ t) = let rest = leb_text s t in if c == d then rest else ltb c d

-- The decimal digits of a u32, at most ten.
unfoldable pub decimal : ℕ → Text
decimal n = digits 10 n []
  where
    digits : ℕ → ℕ → Text → Text
    digits zero n done = done
    digits (suc fuel) n done =
        let rest = digits fuel (n / 10) ((b'0' + n % 10) ∷ done) in
        if n / 10 == 0 then (b'0' + n % 10) ∷ done else rest

-- `Path::file_name` of a relative path, or none.
unfoldable pub file_name : Text → Option Text
unfolding split
file_name path = last (filter (λ s. not (is_empty s) && not (s =ₜ text ".")) (split b'/' path))
  where
    last : List Text → Option Text
    last [] = none
    last (s ∷ []) = if s =ₜ text ".." then none else some s
    last (s ∷ t ∷ rest) = last (t ∷ rest)

-- What stands before and behind the last `c`, if there is one.
unfoldable pub rsplit_once : ℕ → Text → Option (Text × Text)
rsplit_once c [] = none
rsplit_once c (d ∷ s) = let rest = rsplit_once c s in longer rest
  where
    longer : Option (Text × Text) → Option (Text × Text)
    longer none = if d == c then some ([], s) else none
    longer (some (before, after)) = some (d ∷ before, after)

-- `str::as_bytes`.
abbrev pub as_bytes : Text → List ℕ
as_bytes [] = []
as_bytes (c ∷ s) =
    let rest = as_bytes s in
    if ltb c 0x80
    then c ∷ rest
    else if ltb c 0x800
    then (0xC0 + c / 64) ∷ (0x80 + c % 64) ∷ rest
    else if ltb c 0x10000
    then (0xE0 + c / 4096) ∷ (0x80 + c / 64 % 64) ∷ (0x80 + c % 64) ∷ rest
    else (0xF0 + c / 262144)
      ∷ (0x80 + c / 4096 % 64)
      ∷ (0x80 + c / 64 % 64)
      ∷ (0x80 + c % 64)
      ∷ rest

pub leb_text_total : (s t : Text) → leb_text s t ≡ false → leb_text t s ≡ true
leb_text_total [] t h = cc
leb_text_total (c ∷ s) [] h = refl
leb_text_total (c ∷ s) (d ∷ t) h = ground (arith, leb_text_total s t)

pub leb_text_antisymm : (s t : Text) → leb_text s t ≡ true → leb_text t s ≡ true → s ≡ t
leb_text_antisymm [] [] h k = refl
leb_text_antisymm [] (d ∷ t) h k = cc
leb_text_antisymm (c ∷ s) [] h k = cc
leb_text_antisymm (c ∷ s) (d ∷ t) h k = elim (ℕ_discrete c d) [
  | yes e ↦
      let below : leb_text s t ≡ true = ground arith in
      let above : leb_text t s ≡ true = ground arith in
      ap (λ r. c ∷ r) (leb_text_antisymm s t below above) ∙ ap (λ x. x ∷ t) e
  | no ne ↦ ground arith
]
