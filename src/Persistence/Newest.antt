-- ===== src/Persistence/Newest.antt =====
-- The order of list_transfers in persistence.rs: `ORDER BY created_unix_ms DESC, id DESC`.
use transfer_assistant.Prelude.{
  ◌≤◌, ◌≡◌, refl, sym, ap, ◌∙◌, Bool, true, false, List, [], ◌∷◌, ℤ, pos, negsuc, leb_ℤ, filter,
  length, arith, ◌⊎◌, Bool-cases, inl, inr, All, sort_by, insert_sorted,
}
use transfer_assistant.Model.{TransferSnapshot}
use transfer_assistant.Persistence.{newest_first}

leb_ℤ_total : (a b : ℤ) → leb_ℤ a b ≡ false → leb_ℤ b a ≡ true
leb_ℤ_total (pos a) (pos b) h = ground arith
leb_ℤ_total (pos a) (negsuc b) h = refl
leb_ℤ_total (negsuc a) (pos b) h = cc
leb_ℤ_total (negsuc a) (negsuc b) h = ground arith

leb_ℤ_antisym : (a b : ℤ) → leb_ℤ a b ≡ true → leb_ℤ b a ≡ true → a ≡ b
leb_ℤ_antisym (pos a) (pos b) h h' = ap pos (ground arith)
leb_ℤ_antisym (pos a) (negsuc b) h h' = cc
leb_ℤ_antisym (negsuc a) (pos b) h h' = cc
leb_ℤ_antisym (negsuc a) (negsuc b) h h' = ap negsuc (ground arith)

later_trans : (a b c : ℤ) → leb_ℤ a b ≡ false → leb_ℤ b c ≡ false → leb_ℤ a c ≡ false
later_trans (pos a) (pos b) (pos c) h h' = ground arith
later_trans (pos a) b (negsuc c) h h' = refl
later_trans (pos a) (negsuc b) (pos c) h h' = cc
later_trans (negsuc a) (pos b) c h h' = cc
later_trans (negsuc a) (negsuc b) (pos c) h h' = cc
later_trans (negsuc a) (negsuc b) (negsuc c) h h' = ground arith

-- `x` was created later than `y`, or at the same time and has at least its id.
abbrev pub IsNewer : TransferSnapshot → TransferSnapshot → Type 0
IsNewer x y =
    (leb_ℤ x.created_unix_ms y.created_unix_ms ≡ false)
    ⊎ (x.created_unix_ms ≡ y.created_unix_ms) × (TransferSnapshot.id y ≤ TransferSnapshot.id x)

-- Each transfer is newer than all behind it.
abbrev pub NewestFirst : List TransferSnapshot → Type 0
NewestFirst [] = Unit
NewestFirst (x ∷ xs) = All (IsNewer x) xs × NewestFirst xs

IsNewer_trans : (x y z : TransferSnapshot) → IsNewer x y → IsNewer y z → IsNewer x z
IsNewer_trans x y z (inl h) (inl h') =
    inl (later_trans x.created_unix_ms y.created_unix_ms z.created_unix_ms h h')
IsNewer_trans x y z (inl h) (inr h') = inl (rw h'.0 at h)
IsNewer_trans x y z (inr h) (inl h') = inl (rw h.0 h')
IsNewer_trans x y z (inr h) (inr h') = inr (h.0 ∙ h'.0, omega (arith, h.1, h'.1))

newest_first-IsNewer :
    (x y : TransferSnapshot)
    → ((newest_first x y ≡ true) → IsNewer x y) × ((newest_first x y ≡ false) → IsNewer y x)
newest_first-IsNewer x y = elim (Bool-cases (leb_ℤ x.created_unix_ms y.created_unix_ms)) [
  | inr later ↦ (
    λ e. inl later,
    λ e. let before = leb_ℤ_total x.created_unix_ms y.created_unix_ms later in ground arith,
  )
  | inl le ↦ elim (Bool-cases (leb_ℤ y.created_unix_ms x.created_unix_ms)) [
    | inr later ↦ (λ e. ground arith, λ e. inl later)
    | inl ge ↦
        let same = leb_ℤ_antisym x.created_unix_ms y.created_unix_ms le ge in
        (λ e. inr (same, ground arith), λ e. inr (sym same, ground arith))
  ]
]

insert-All :
    (P : TransferSnapshot → Type 0) (x : TransferSnapshot) (ys : List TransferSnapshot)
    → P x
    → All P ys
    → All P (insert_sorted newest_first x ys)
insert-All P x [] px h = (px, tt)
insert-All P x (y ∷ ys) px h = elim (Bool-cases (newest_first x y)) [
  | inl e ↦ rw e (px, h)
  | inr e ↦ rw e (h.0, insert-All P x ys px h.1)
]

behind :
    (x y : TransferSnapshot) (zs : List TransferSnapshot)
    → IsNewer x y
    → All (IsNewer y) zs
    → All (IsNewer x) zs
behind x y [] n h = tt
behind x y (z ∷ zs) n h = (IsNewer_trans x y z n h.0, behind x y zs n h.1)

insert-NewestFirst :
    (x : TransferSnapshot) (ys : List TransferSnapshot)
    → NewestFirst ys
    → NewestFirst (insert_sorted newest_first x ys)
insert-NewestFirst x [] h = (tt, tt)
insert-NewestFirst x (y ∷ ys) h = elim (Bool-cases (newest_first x y)) [
  | inl e ↦ let n = (newest_first-IsNewer x y).0 e in rw e ((n, behind x y ys n h.0), h)
  | inr e ↦ rw e (
    insert-All (IsNewer y) x ys ((newest_first-IsNewer x y).1 e) h.0,
    insert-NewestFirst x ys h.1,
  )
]

pub sort-NewestFirst : (xs : List TransferSnapshot) → NewestFirst (sort_by newest_first xs)
sort-NewestFirst [] = tt
sort-NewestFirst (x ∷ xs) = insert-NewestFirst x (sort_by newest_first xs) (sort-NewestFirst xs)

count-insert :
    (p : TransferSnapshot → Bool) (x : TransferSnapshot) (ys : List TransferSnapshot)
    → length (filter p (insert_sorted newest_first x ys)) ≡ length (filter p (x ∷ ys))
count-insert p x [] = refl
count-insert p x (y ∷ ys) = elim (Bool-cases (newest_first x y)) [
  | inl e ↦ rw e refl
  | inr e ↦ rw e (ground (arith, count-insert p x ys))
]

pub count-sort :
    (p : TransferSnapshot → Bool) (xs : List TransferSnapshot)
    → length (filter p (sort_by newest_first xs)) ≡ length (filter p xs)
count-sort p [] = refl
count-sort p (x ∷ xs) = count-insert p x (sort_by newest_first xs) ∙ ground (arith, count-sort p xs)
