-- ===== src/Prelude/Splits.antt =====
-- `str::split(char)` and joining are inverse to one another.
use Prim.Native.Nat.{ℕ}
use mathlib.Core.Path.{◌≡◌, refl, ap, ◌∙◌}
use mathlib.Core.Logic.{inl, inr}
use mathlib.Core.Bool.{false}
use mathlib.Core.List.{List, [], ◌∷◌, ◌++◌}
use native.Mathlib.Omega.{arith}
use transfer_assistant.Prelude.Tests.{◌==◌, Bool-cases}
use transfer_assistant.Prelude.Lists.{any, All}
use transfer_assistant.Prelude.Texts.{
  Text, contains_char, split_first, split, join, onto_first, new_segment,
}

module _ (sep : ℕ) where
  join_onto :
      (c : ℕ) (r : Text × List Text)
      → join sep (onto_first c r).0 (onto_first c r).1 ≡ c ∷ join sep r.0 r.1
  unfolding join
  join_onto c (s, []) = refl
  join_onto c (s, t ∷ ts) = refl

  -- Joining the segments of a text gives the text.
  pub join-split_first : (s : Text) → join sep (split_first sep s).0 (split_first sep s).1 ≡ s
  unfolding join split_first
  join-split_first [] = refl
  join-split_first (c ∷ s) = ground (arith, join-split_first s, join_onto c (split_first sep s))

  onto_next :
      (c : ℕ) (s : Text) {r : Text × List Text}
      → (c == sep) ≡ false
      → split_first sep s ≡ r
      → split_first sep (c ∷ s) ≡ onto_first c r
  unfolding split_first
  onto_next c s h e = rw h (ap (onto_first c) e)

  at_sep : (s : Text) → split_first sep (sep ∷ s) ≡ new_segment (split_first sep s)
  unfolding split_first
  at_sep s = ground arith

  no_sep :
      (c : ℕ) (s : Text)
      → contains_char (c ∷ s) sep ≡ false
      → ((c == sep) ≡ false) × (contains_char s sep ≡ false)
  no_sep c s h = ground arith

  split_first-plain : (s : Text) → contains_char s sep ≡ false → split_first sep s ≡ (s, [])
  split_first-plain [] h = unfold split_first in refl
  split_first-plain (c ∷ s) h =
      onto_next c s (no_sep c s h).0 (split_first-plain s (no_sep c s h).1)

  split_first-sep :
      (s rest : Text)
      → contains_char s sep ≡ false
      → split_first sep (s ++ (sep ∷ rest))
        ≡ (s, (split_first sep rest).0 ∷ (split_first sep rest).1)
  split_first-sep [] rest h = at_sep rest
  split_first-sep (c ∷ s) rest h =
      onto_next c (s ++ (sep ∷ rest)) (no_sep c s h).0 (split_first-sep s rest (no_sep c s h).1)

  -- Splitting joined segments that hold no separator gives the segments.
  pub split_first-join :
      (s : Text) (ts : List Text)
      → contains_char s sep ≡ false
      → All (λ t. contains_char t sep ≡ false) ts
      → split_first sep (join sep s ts) ≡ (s, ts)
  unfolding join
  split_first-join s [] h hs = split_first-plain s h
  split_first-join s (t ∷ ts) h hs =
      split_first-sep s (join sep t ts) h
      ∙ ap (λ r. (s, r.0 ∷ r.1)) (split_first-join t ts hs.0 hs.1)

  no_sep_onto :
      (c : ℕ) (r : Text × List Text)
      → (c == sep) ≡ false
      → All (λ t. contains_char t sep ≡ false) (r.0 ∷ r.1)
      → All (λ t. contains_char t sep ≡ false) ((onto_first c r).0 ∷ (onto_first c r).1)
  no_sep_onto c (s, ts) h hs = (ground arith, hs.1)

  -- No segment of a split text holds the separator.
  pub split-no_sep : (s : Text) → All (λ t. contains_char t sep ≡ false) (split sep s)
  unfolding split split_first
  split-no_sep [] = (refl, tt)
  split-no_sep (c ∷ s) = elim (Bool-cases (c == sep)) [
    | inl here ↦ rw here (refl, split-no_sep s)
    | inr other ↦ rw other (no_sep_onto c (split_first sep s) other (split-no_sep s))
  ]

  -- A character other than the separator occurs in a text exactly if it does in a segment.
  pub contains_char-split :
      (s : Text) (x : ℕ)
      → (x == sep) ≡ false
      → contains_char s x ≡ any (λ t. contains_char t x) (split sep s)
  unfolding split split_first
  contains_char-split [] x h = refl
  contains_char-split (c ∷ s) x h = ground (arith, contains_char-split s x h)
