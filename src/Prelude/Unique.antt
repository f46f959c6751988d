-- ===== src/Prelude/Unique.antt =====
-- Association lists in which no key stands twice, and when two of them say the same.
use mathlib.Core.Path.{◌≡◌, refl, ◌∙◌}
use mathlib.Core.Bool.{Bool}
use mathlib.Core.Option.{Option, none, some}
use mathlib.Core.Logic.{inl, inr}
use mathlib.Core.List.{[], ◌∷◌}
use native.Mathlib.Omega.{arith}
use transfer_assistant.Prelude.Tests.{if◌then◌else◌, Bool-cases}
use transfer_assistant.Prelude.Lists.{filter}
use transfer_assistant.Prelude.Dicts.{Eq, Dict, get, insert, remove, get-insert, get-remove}

-- A value that passes a test.
abbrev pub kept {ℓ} : {A : Type ℓ} → (A → Bool) → Option A → Option A
kept p none = none
kept p (some a) = if p a then some a else none

module _ {ℓ κ} {K : Type ℓ} {V : Type κ} ⦃e : Eq K⦄ where
  abbrev pub IsUnique : Dict K V → Type (ℓ ⊔ κ)
  IsUnique [] = Unit
  IsUnique ((k, v) ∷ m) = (get k m ≡ none) × IsUnique m

  -- The same values under the same keys.
  abbrev pub Same : Dict K V → Dict K V → Type (ℓ ⊔ κ)
  Same m n = (k : K) → get k m ≡ get k n

  pub insert-IsUnique : (k : K) (v : V) (m : Dict K V) → IsUnique m → IsUnique (insert k v m)
  unfolding insert get
  insert-IsUnique k v [] u = (refl, tt)
  insert-IsUnique k v ((j, w) ∷ m) u = elim (Bool-cases (e.beq j k)) [
    | inl same ↦ let is : j ≡ k = (e.beq_iff j k).0 same in rw (same, ← is) u
    | inr other ↦ rw other (
      ground (arith, get-insert k j v m, e.beq_iff k j, e.beq_iff j k),
      insert-IsUnique k v m u.1,
    )
  ]

  pub get-filter :
      (p : K × V → Bool) (k : K) (m : Dict K V)
      → IsUnique m
      → get k (filter p m) ≡ kept (λ v. p (k, v)) (get k m)
  unfolding get
  get-filter p k [] u = refl
  get-filter p k ((j, w) ∷ m) u = elim (Bool-cases (e.beq j k)) [
    | inl same ↦
        let is : j ≡ k = (e.beq_iff j k).0 same in
        let absent : get k m ≡ none = rw (← is) u.0 in
        elim (Bool-cases (p (j, w))) [
          | inl here ↦ rw (here, same, ← is, here) refl
          | inr dropped ↦
              rw (dropped, same) (get-filter p k m u.1 ∙ rw (absent, ← is, dropped) refl)
        ]
    | inr other ↦ elim (Bool-cases (p (j, w))) [
      | inl here ↦ rw (here, other) (get-filter p k m u.1)
      | inr dropped ↦ rw (dropped, other) (get-filter p k m u.1)
    ]
  ]

  pub filter-IsUnique : (p : K × V → Bool) (m : Dict K V) → IsUnique m → IsUnique (filter p m)
  filter-IsUnique p [] u = tt
  filter-IsUnique p ((j, w) ∷ m) u = elim (Bool-cases (p (j, w))) [
    | inl here ↦ rw here (get-filter p j m u.1 ∙ rw u.0 refl, filter-IsUnique p m u.1)
    | inr dropped ↦ rw dropped (filter-IsUnique p m u.1)
  ]

  pub remove-IsUnique : (k : K) (m : Dict K V) → IsUnique m → IsUnique (remove k m)
  unfolding remove
  remove-IsUnique k [] u = tt
  remove-IsUnique k ((j, w) ∷ m) u = elim (Bool-cases (e.beq j k)) [
    | inl same ↦ rw same (remove-IsUnique k m u.1)
    | inr other ↦ rw other (ground (arith, get-remove k j m), remove-IsUnique k m u.1)
  ]
