-- ===== src/PathSafety/Unique.antt =====
-- Names that are still free.
use transfer_assistant.Prelude.{
  ℕ, zero, suc, ◌+◌, ◌≤◌, ◌<◌, ◌^◌, ◌≡◌, refl, Bool, true, false, List, ◌∷◌, Option, some, Text,
  arith, ℕ_discrete, Bool-cases, inl, inr,
}
use transfer_assistant.PathSafety.{candidate, key_of, is_free, target_loop, unique_target_name}

module _ (windows : Bool) (lower : Text → Text) (exists : Text → Bool) (requested : Text)
    (reserved : List Text) where
  -- The result is the first free candidate from `index` on.
  abbrev pub FirstFree : ℕ → ℕ → Option (Text × List Text) → Type 0
  FirstFree index n result =
      (i : ℕ) × (index ≤ i)
      × (i ≤ n)
      × (result
          ≡ some (
            candidate requested i,
            key_of windows lower exists (candidate requested i) ∷ reserved,
          ))
      × (is_free windows lower exists reserved (candidate requested i) ≡ true)
      × ((j : ℕ)
          → index ≤ j
          → j < i
          → is_free windows lower exists reserved (candidate requested j) ≡ false)

  target_loop-FirstFree :
      (fuel index n : ℕ)
      → index ≤ n
      → n < index + fuel
      → is_free windows lower exists reserved (candidate requested n) ≡ true
      → FirstFree index n (target_loop windows lower exists fuel index requested reserved)
  unfolding target_loop
  target_loop-FirstFree zero index n low high free = absurd (omega arith)
  target_loop-FirstFree (suc fuel) index n low high free =
      elim (Bool-cases (is_free windows lower exists reserved (candidate requested index))) [
        | inl here ↦
            (index, omega arith, low, rw here refl, here, λ j a b. absurd (omega (arith, a, b)))
        | inr taken ↦
            let later : index + 1 ≤ n = elim (ℕ_discrete index n) [
              | yes e ↦ cc (rw e at taken, free)
              | no ne ↦ omega (arith, ne, low)
            ] in
            let (i, a, b, found, is, before) =
              target_loop-FirstFree fuel (index + 1) n later (omega arith) free in
            (
              i,
              omega (arith, a),
              b,
              rw taken found,
              is,
              λ j c d. elim (ℕ_discrete index j) [
                | yes e ↦ rw e at taken
                | no ne ↦ before j (omega (arith, ne, c)) d
              ],
            )
      ]

  -- If any numbered name is free, a name is returned: the free one with the lowest number. It is
  -- neither in the directory nor reserved, and is reserved from then on.
  pub unique_target_name_lem :
      (n : ℕ)
      → n < 2 ^ 32
      → is_free windows lower exists reserved (candidate requested n) ≡ true
      → FirstFree 0 n (unique_target_name windows lower exists requested reserved)
  unfolding unique_target_name
  unique_target_name_lem n small free =
      target_loop-FirstFree (2 ^ 32) 0 n (omega arith) (omega arith) free
