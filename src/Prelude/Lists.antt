-- ===== src/Prelude/Lists.antt =====
-- Lists measured and indexed by native numbers, under the library's names, and counted ranges.
use Prim.Native.Nat.{ℕ, zero, suc, ◌+◌, ◌-◌, ◌≤◌, ◌<◌, min}
use mathlib.Core.Path.{◌≡◌, refl, sym, ap, ◌∙◌}
use mathlib.Core.Logic.{◌≢◌, inl, inr}
use mathlib.Core.Bool.{Bool, true, false}
use mathlib.Core.List.{List, [], ◌∷◌, ◌++◌, map}
use native.Mathlib.Omega.{arith}
use native.Mathlib.Decide.{ℕ_discrete}
use mathlib.Core.Option.{Option, none, some}
use transfer_assistant.Prelude.Tests.{if◌then◌else◌, Bool-cases}

module _ {ℓ} {A : Type ℓ} where
  abbrev pub length : List A → ℕ
  length [] = 0
  length (x ∷ xs) = suc (length xs)

  abbrev pub get_or : List A → ℕ → A → A
  get_or [] i d = d
  get_or (x ∷ xs) zero d = x
  get_or (x ∷ xs) (suc i) d = get_or xs i d

  -- A write out of bounds changes nothing.
  abbrev pub set : List A → ℕ → A → List A
  set [] i v = []
  set (x ∷ xs) zero v = v ∷ xs
  set (x ∷ xs) (suc i) v = x ∷ set xs i v

  abbrev pub take : ℕ → List A → List A
  take zero xs = []
  take (suc n) [] = []
  take (suc n) (x ∷ xs) = x ∷ take n xs

  abbrev pub drop : ℕ → List A → List A
  drop zero xs = xs
  drop (suc n) [] = []
  drop (suc n) (x ∷ xs) = drop n xs

  abbrev pub replicate : ℕ → A → List A
  replicate zero a = []
  replicate (suc n) a = a ∷ replicate n a

  abbrev pub filter : (A → Bool) → List A → List A
  filter p [] = []
  filter p (x ∷ xs) = let rest = filter p xs in if p x then x ∷ rest else rest

  abbrev pub any : (A → Bool) → List A → Bool
  any p [] = false
  any p (x ∷ xs) = let rest = any p xs in if p x then true else rest

  abbrev pub All {κ} : (A → Type κ) → List A → Type κ
  All P [] = Unit
  All P (x ∷ xs) = P x × All P xs

module _ {ℓ} {A : Type ℓ} where
  pub length-append : (xs ys : List A) → length (xs ++ ys) ≡ length xs + length ys
  length-append [] ys = omega arith
  length-append (x ∷ xs) ys = omega (arith, length-append xs ys)

  pub length-set : (xs : List A) (i : ℕ) (v : A) → length (set xs i v) ≡ length xs
  length-set [] i v = refl
  length-set (x ∷ xs) zero v = refl
  length-set (x ∷ xs) (suc i) v = ap suc (length-set xs i v)

  pub get_or-set_self :
      (xs : List A) (i : ℕ) (v d : A) → i < length xs → get_or (set xs i v) i d ≡ v
  get_or-set_self [] i v d h = elim h [ ]
  get_or-set_self (x ∷ xs) zero v d h = refl
  get_or-set_self (x ∷ xs) (suc i) v d h = get_or-set_self xs i v d (omega arith)

  pub get_or-set_ne :
      (xs : List A) (i j : ℕ) (v d : A) → i ≢ j → get_or (set xs i v) j d ≡ get_or xs j d
  get_or-set_ne [] i j v d h = refl
  get_or-set_ne (x ∷ xs) zero zero v d h = absurd (h refl)
  get_or-set_ne (x ∷ xs) zero (suc j) v d h = refl
  get_or-set_ne (x ∷ xs) (suc i) zero v d h = refl
  get_or-set_ne (x ∷ xs) (suc i) (suc j) v d h = get_or-set_ne xs i j v d (λ e. h (ap suc e))

  pub length-replicate : (n : ℕ) (a : A) → length (replicate n a) ≡ n
  length-replicate zero a = refl
  length-replicate (suc n) a = ap suc (length-replicate n a)

  pub get_or-replicate : (n i : ℕ) (a : A) → get_or (replicate n a) i a ≡ a
  get_or-replicate zero i a = refl
  get_or-replicate (suc n) zero a = refl
  get_or-replicate (suc n) (suc i) a = get_or-replicate n i a

  pub take-append-drop : (n : ℕ) (xs : List A) → take n xs ++ drop n xs ≡ xs
  take-append-drop zero xs = refl
  take-append-drop (suc n) [] = refl
  take-append-drop (suc n) (x ∷ xs) = rw (take-append-drop n xs)

  pub take-append : (xs ys : List A) → take (length xs) (xs ++ ys) ≡ xs
  take-append [] ys = refl
  take-append (x ∷ xs) ys = ap (λ r. x ∷ r) (take-append xs ys)

  pub drop-append : (xs ys : List A) → drop (length xs) (xs ++ ys) ≡ ys
  drop-append [] ys = refl
  drop-append (x ∷ xs) ys = drop-append xs ys

  pub length-take : (n : ℕ) (xs : List A) → length (take n xs) ≡ min n (length xs)
  length-take zero xs = omega arith
  length-take (suc n) [] = omega arith
  length-take (suc n) (x ∷ xs) = omega (arith, length-take n xs)

  pub length-drop : (n : ℕ) (xs : List A) → length (drop n xs) ≡ length xs - n
  length-drop zero xs = omega arith
  length-drop (suc n) [] = omega arith
  length-drop (suc n) (x ∷ xs) = omega (arith, length-drop n xs)

  pub take_all : (n : ℕ) (xs : List A) → length xs ≤ n → take n xs ≡ xs
  take_all zero [] h = refl
  take_all zero (x ∷ xs) h = absurd (omega arith)
  take_all (suc n) [] h = refl
  take_all (suc n) (x ∷ xs) h = ap (λ r. x ∷ r) (take_all n xs (omega arith))

  pub drop_all : (n : ℕ) (xs : List A) → length xs ≤ n → drop n xs ≡ []
  drop_all zero [] h = refl
  drop_all zero (x ∷ xs) h = absurd (omega arith)
  drop_all (suc n) [] h = refl
  drop_all (suc n) (x ∷ xs) h = drop_all n xs (omega arith)

  pub take_split :
      (k n : ℕ) (xs : List A) → k ≤ n → take k xs ++ take (n - k) (drop k xs) ≡ take n xs
  take_split zero n xs h = let same : n - 0 ≡ n = omega arith in ap (λ m. take m xs) same
  take_split (suc k) zero xs h = absurd (omega arith)
  take_split (suc k) (suc n) [] h = take_all (suc n - suc k) [] (omega arith)
  take_split (suc k) (suc n) (x ∷ xs) h =
      let same : suc n - suc k ≡ n - k = omega arith in
      ap (λ m. x ∷ (take k xs ++ take m (drop k xs))) same
      ∙ ap (λ r. x ∷ r) (take_split k n xs (omega arith))

  pub drop-drop : (n k : ℕ) (xs : List A) → drop k (drop n xs) ≡ drop (n + k) xs
  drop-drop zero k xs = let same : 0 + k ≡ k = omega arith in ap (λ m. drop m xs) (sym same)
  drop-drop (suc n) k [] = drop_all k [] (omega arith) ∙ sym (drop_all (suc n + k) [] (omega arith))
  drop-drop (suc n) k (x ∷ xs) =
      let same : suc n + k ≡ suc (n + k) = omega arith in
      drop-drop n k xs ∙ ap (λ m. drop m (x ∷ xs)) (sym same)

  -- Lists of one length with the same entries are equal.
  pub list_ext :
      (xs ys : List A) (d : A)
      → length xs ≡ length ys
      → ((i : ℕ) → get_or xs i d ≡ get_or ys i d)
      → xs ≡ ys
  list_ext [] [] d h e = refl
  list_ext [] (y ∷ ys) d h e = absurd (omega arith)
  list_ext (x ∷ xs) [] d h e = absurd (omega arith)
  list_ext (x ∷ xs) (y ∷ ys) d h e =
      ap (λ a. a ∷ xs) (e 0) ∙ ap (λ r. y ∷ r) (list_ext xs ys d (omega arith) (λ i. e (suc i)))

-- `from..from + n`.
abbrev pub range : ℕ → ℕ → List ℕ
range from zero = []
range from (suc n) = from ∷ range (suc from) n

pub length-range : (from n : ℕ) → length (range from n) ≡ n
length-range from zero = refl
length-range from (suc n) = ap suc (length-range (suc from) n)

-- f 0 + ... + f (n - 1).
abbrev pub sum_below : (ℕ → ℕ) → ℕ → ℕ
sum_below f zero = 0
sum_below f (suc n) = sum_below f n + f n

pub sum_below_eq :
    (f g : ℕ → ℕ) (n : ℕ) → ((i : ℕ) → i < n → f i ≡ g i) → sum_below f n ≡ sum_below g n
sum_below_eq f g zero e = refl
sum_below_eq f g (suc n) e =
    omega (arith, e n (omega arith), sum_below_eq f g n (λ i h. e i (omega arith)))

-- The sums of functions that differ at one place only.
pub sum_below_raise :
    (f g : ℕ → ℕ) (at by n : ℕ)
    → at < n
    → g at ≡ f at + by
    → ((i : ℕ) → i ≢ at → g i ≡ f i)
    → sum_below g n ≡ sum_below f n + by
sum_below_raise f g at by zero h here else_eq = absurd (omega arith)
sum_below_raise f g at by (suc n) h here else_eq = elim (ℕ_discrete at n) [
  | yes e ↦
      let top : g n ≡ f n + by = rw (← e) here in
      omega (
        arith,
        top,
        sum_below_eq g f n (λ i low. else_eq i (λ same. absurd (omega (arith, same, e, low)))),
      )
  | no ne ↦ omega (
    arith,
    else_eq n (λ same. ne (sym same)),
    sum_below_raise f g at by n (below ne) here else_eq,
  )
]
  where
    below : at ≢ n → at < n
    below ne = omega (arith, ne)

pub sum_below_mono : (f g : ℕ → ℕ) (n : ℕ) → ((i : ℕ) → f i ≤ g i) → sum_below f n ≤ sum_below g n
sum_below_mono f g zero e = omega arith
sum_below_mono f g (suc n) e = omega (arith, e n, sum_below_mono f g n e)

-- Sums of counts reach the bound only if every term does.
pub sum_below_full :
    (f g : ℕ → ℕ) (n : ℕ)
    → ((i : ℕ) → f i ≤ g i)
    → sum_below f n ≡ sum_below g n
    → (i : ℕ) → i < n
    → f i ≡ g i
sum_below_full f g zero le e i h = absurd (omega arith)
sum_below_full f g (suc n) le e i h = elim (ℕ_discrete i n) [
  | yes same ↦ rw same (omega (arith, le n, sum_below_mono f g n le))
  | no ne ↦
      sum_below_full f g n le (omega (arith, le n, sum_below_mono f g n le)) i (omega (arith, ne))
]

pub sum_below_add :
    (f g : ℕ → ℕ) (n : ℕ) → sum_below (λ i. f i + g i) n ≡ sum_below f n + sum_below g n
sum_below_add f g zero = refl
sum_below_add f g (suc n) = omega (arith, sum_below_add f g n)

-- `sum_list` of the values over `from..from + n`, and the same as a difference of sums.
abbrev pub sum_list : List ℕ → ℕ
sum_list [] = 0
sum_list (x ∷ xs) = x + sum_list xs

pub sum_range :
    (f : ℕ → ℕ) (from n to : ℕ)
    → from + n ≡ to
    → sum_below f to ≡ sum_below f from + sum_list (map f (range from n))
sum_range f from zero to e = let same : to ≡ from = omega arith in rw same (omega arith)
sum_range f from (suc n) to e = omega (arith, sum_range f (suc from) n to (omega arith))

abbrev pub one_if : Bool → ℕ
one_if true = 1
one_if false = 0

pub length-filter :
    (p : ℕ → Bool) (xs : List ℕ) → length (filter p xs) ≡ sum_list (map (λ i. one_if (p i)) xs)
length-filter p [] = refl
length-filter p (x ∷ xs) = ground (arith, length-filter p xs)

pub range-bound : (from n to : ℕ) → from + n ≡ to → All (λ i. i < to) (range from n)
range-bound from zero to e = tt
range-bound from (suc n) to e = (omega arith, range-bound (suc from) n to (omega arith))

module _ {ℓ} {A : Type ℓ} where
  -- The first element that passes.
  abbrev pub find : (A → Bool) → List A → Option A
  find p [] = none
  find p (x ∷ xs) = let rest = find p xs in if p x then some x else rest

  -- `ORDER BY`: a stable sort, where `before x y` lets `x` stand in front of `y`.
  abbrev pub insert_sorted : (A → A → Bool) → A → List A → List A
  insert_sorted before x [] = x ∷ []
  insert_sorted before x (y ∷ ys) =
      let rest = insert_sorted before x ys in if before x y then x ∷ y ∷ ys else y ∷ rest

  abbrev pub sort_by : (A → A → Bool) → List A → List A
  sort_by before [] = []
  sort_by before (x ∷ xs) = insert_sorted before x (sort_by before xs)

  any-insert_sorted :
      (p : A → Bool) (before : A → A → Bool) (x : A) (xs : List A)
      → any p (insert_sorted before x xs) ≡ (if p x then true else any p xs)
  any-insert_sorted p before x [] = refl
  any-insert_sorted p before x (y ∷ ys) = ground (arith, any-insert_sorted p before x ys)

  pub any-sort_by :
      (p : A → Bool) (before : A → A → Bool) (xs : List A) → any p (sort_by before xs) ≡ any p xs
  any-sort_by p before [] = refl
  any-sort_by p before (x ∷ xs) =
      ground (arith, any-insert_sorted p before x (sort_by before xs), any-sort_by p before xs)

  length-insert_sorted :
      (before : A → A → Bool) (x : A) (xs : List A)
      → length (insert_sorted before x xs) ≡ suc (length xs)
  length-insert_sorted before x [] = refl
  length-insert_sorted before x (y ∷ ys) = ground (arith, length-insert_sorted before x ys)

  pub length-sort_by :
      (before : A → A → Bool) (xs : List A) → length (sort_by before xs) ≡ length xs
  length-sort_by before [] = refl
  length-sort_by before (x ∷ xs) =
      length-insert_sorted before x (sort_by before xs) ∙ ap suc (length-sort_by before xs)

  -- No neighbour stands strictly in front of the one before it.
  abbrev pub Ordered : (A → A → Bool) → List A → Type 0
  Ordered before [] = Unit
  Ordered before (x ∷ []) = Unit
  Ordered before (x ∷ y ∷ rest) = (before x y ≡ true) × Ordered before (y ∷ rest)

  module _ (before : A → A → Bool)
      (total : (x y : A) → before x y ≡ false → before y x ≡ true) where
    insert_sorted-Ordered :
        (x : A) (xs : List A) → Ordered before xs → Ordered before (insert_sorted before x xs)
    insert_sorted-Ordered x [] h = tt
    insert_sorted-Ordered x (y ∷ []) h = elim (Bool-cases (before x y)) [
      | inl b ↦ rw b (b, tt)
      | inr b ↦ rw b (total x y b, tt)
    ]
    insert_sorted-Ordered x (y ∷ z ∷ rest) h = elim (Bool-cases (before x y)) [
      | inl b ↦ rw b (b, h)
      | inr b ↦
          let later = insert_sorted-Ordered x (z ∷ rest) h.1 in
          elim (Bool-cases (before x z)) [
            | inl c ↦ rw (b, c) (total x y b, (c, h.1))
            | inr c ↦ rw (b, c) (h.0, rw c at later)
          ]
    ]

    pub sort_by-Ordered : (xs : List A) → Ordered before (sort_by before xs)
    sort_by-Ordered [] = tt
    sort_by-Ordered (x ∷ xs) = insert_sorted-Ordered x (sort_by before xs) (sort_by-Ordered xs)
