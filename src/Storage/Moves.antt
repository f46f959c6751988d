-- ===== src/Storage/Moves.antt =====
-- The loops of storage.rs: with a system that makes progress they move the whole buffer, and with any
-- system they write nothing outside of it.
use transfer_assistant.Prelude.{
  ℕ, ◌+◌, ◌-◌, ◌≤◌, ◌<◌, ◌≡◌, refl, sym, ap, ◌∙◌, List, ◌++◌, length, take, drop, replicate, get_or,
  max, arith, length-append, length-take, length-drop, length-replicate, get_or-replicate, list_ext,
  dec_lt, inl, inr, ◌⊎◌,
}
use transfer_assistant.Prelude.Slices.{
  get_or-take, get_or-drop, get_or-beyond, get_or-front, get_or-back,
}
use transfer_assistant.Storage.{overwrite}

-- What stands before the bytes written.
abbrev front : List ℕ → ℕ → List ℕ
front f o = take o f ++ replicate (o - length f) 0

length-front : (f : List ℕ) (o : ℕ) → length (front f o) ≡ o
length-front f o = omega (
  arith,
  length-append (take o f) (replicate (o - length f) 0),
  length-take o f,
  length-replicate {A = ℕ} (o - length f) 0,
)

get_or-front_lem : (f : List ℕ) (o i : ℕ) → i < o → get_or (front f o) i 0 ≡ get_or f i 0
get_or-front_lem f o i h = elim (dec_lt i (length f)) [
  | yes inside ↦
      get_or-front (take o f) (replicate (o - length f) 0) i 0 (omega (arith, length-take o f))
      ∙ ground (arith, get_or-take o f i 0)
  | no out ↦
      get_or-back (take o f) (replicate (o - length f) 0) i 0 (omega (arith, length-take o f))
      ∙ get_or-replicate (o - length f) (i - length (take o f)) 0
      ∙ sym (get_or-beyond f i 0 (omega arith))
]

pub length-overwrite :
    (f : List ℕ) (o : ℕ) (b : List ℕ) → length (overwrite f o b) ≡ max (length f) (o + length b)
unfolding overwrite
length-overwrite f o b = omega (
  arith,
  length-append (front f o) (b ++ drop (o + length b) f),
  length-front f o,
  length-append b (drop (o + length b) f),
  length-drop (o + length b) f,
)

-- What stands at a position after a write: before, inside and behind the bytes written.
pub overwrite_before :
    (f : List ℕ) (o : ℕ) (b : List ℕ) (i : ℕ) → i < o → get_or (overwrite f o b) i 0 ≡ get_or f i 0
unfolding overwrite
overwrite_before f o b i h =
    get_or-front (front f o) (b ++ drop (o + length b) f) i 0 (omega (arith, length-front f o))
    ∙ get_or-front_lem f o i h

pub overwrite_inside :
    (f : List ℕ) (o : ℕ) (b : List ℕ) (i : ℕ)
    → o ≤ i
    → i < o + length b
    → get_or (overwrite f o b) i 0 ≡ get_or b (i - o) 0
unfolding overwrite
overwrite_inside f o b i h k =
    let back = drop (o + length b) f in
    get_or-back (front f o) (b ++ back) i 0 (omega (arith, length-front f o))
    ∙ ap (λ k. get_or (b ++ back) (i - k) 0) (length-front f o)
    ∙ get_or-front b back (i - o) 0 (omega arith)

pub overwrite_behind :
    (f : List ℕ) (o : ℕ) (b : List ℕ) (i : ℕ)
    → o + length b ≤ i
    → get_or (overwrite f o b) i 0 ≡ get_or f i 0
unfolding overwrite
overwrite_behind f o b i h =
    let back = drop (o + length b) f in
    let same : o + length b + (i - o - length b) ≡ i = omega arith in
    get_or-back (front f o) (b ++ back) i 0 (omega (arith, length-front f o))
    ∙ ap (λ k. get_or (b ++ back) (i - k) 0) (length-front f o)
    ∙ get_or-back b back (i - o) 0 (omega arith)
    ∙ get_or-drop (o + length b) f (i - o - length b) 0
    ∙ ap (λ k. get_or f k 0) same

-- Writing a part and then the rest, which is not empty.
pub overwrite_twice :
    (f : List ℕ) (o n : ℕ) (b : List ℕ)
    → n < length b
    → overwrite (overwrite f o (take n b)) (o + n) (drop n b) ≡ overwrite f o b
overwrite_twice f o n b h =
    let size : length (take n b) ≡ n = omega (arith, length-take n b) in
    let left : length (drop n b) ≡ length b - n = length-drop n b in
    let once = overwrite f o (take n b) in
    list_ext (overwrite once (o + n) (drop n b)) (overwrite f o b) 0
      (omega (
        arith,
        length-overwrite once (o + n) (drop n b),
        length-overwrite f o (take n b),
        length-overwrite f o b,
      ))
      (λ i. elim (dec_lt i o) [
        | yes low ↦
            overwrite_before once (o + n) (drop n b) i (omega arith)
            ∙ overwrite_before f o (take n b) i low
            ∙ sym (overwrite_before f o b i low)
        | no not_low ↦ elim (dec_lt i (o + n)) [
          | yes early ↦
              overwrite_before once (o + n) (drop n b) i early
              ∙ overwrite_inside f o (take n b) i (omega arith) (omega (arith, size))
              ∙ ground (arith, get_or-take n b (i - o) 0)
              ∙ sym (overwrite_inside f o b i (omega arith) (omega arith))
          | no late ↦ elim (dec_lt i (o + length b)) [
            | yes inside ↦
                let same : n + (i - (o + n)) ≡ i - o = omega arith in
                overwrite_inside once (o + n) (drop n b) i (omega arith) (omega (arith, left))
                ∙ get_or-drop n b (i - (o + n)) 0
                ∙ ap (λ k. get_or b k 0) same
                ∙ sym (overwrite_inside f o b i (omega arith) inside)
            | no behind ↦
                overwrite_behind once (o + n) (drop n b) i (omega (arith, left))
                ∙ overwrite_behind f o (take n b) i (omega (arith, size))
                ∙ sym (overwrite_behind f o b i (omega arith))
          ]
        ]
      ])

-- `g` differs from the contents `f` only at the `n` positions from `o` on, and ends no later than
-- `f` or these.
abbrev pub Confined : List ℕ → List ℕ → ℕ → ℕ → Type 0
Confined f g o n =
    (length f ≤ length g)
    × (length g ≤ max (length f) (o + n))
    × ((i : ℕ) → (i < o) ⊎ (o + n ≤ i) → get_or g i 0 ≡ get_or f i 0)

pub Confined-refl : (f : List ℕ) (o n : ℕ) → Confined f f o n
Confined-refl f o n = (omega arith, omega arith, λ i h. refl)

pub overwrite-Confined :
    (f : List ℕ) (o n : ℕ) (b : List ℕ) → length b ≤ n → Confined f (overwrite f o b) o n
overwrite-Confined f o n b h = (
  omega (arith, length-overwrite f o b),
  omega (arith, length-overwrite f o b, h),
  λ i out. elim out [
    | inl low ↦ overwrite_before f o b i low
    | inr high ↦ overwrite_behind f o b i (omega arith)
  ],
)

pub Confined-trans :
    (f g h : List ℕ) (o n p m : ℕ)
    → Confined f g o n
    → Confined g h p m
    → o ≤ p
    → p + m ≤ o + n
    → Confined f h o n
Confined-trans f g h o n p m one two low high = (
  omega (arith, one.0, two.0),
  omega (arith, one.1, two.1),
  λ i out.
      two.2 i (elim out [ inl a ↦ inl (omega arith) | inr b ↦ inr (omega arith) ]) ∙ one.2 i out,
)
