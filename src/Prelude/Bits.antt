-- ===== src/Prelude/Bits.antt =====
-- The binary digits of `bit_and` and `bit_or`, at any width: how a Rust `&` or `|` with a one-bit
-- mask reads and sets that bit.
use Prim.Native.Nat.{bit_and, bit_or, digits, bit_and-bitwise, bit_or-bitwise, min, max}
use Prim.Native.Nat.{ℕ, zero, suc, ◌+◌, ◌-◌, ◌*◌, ◌/◌, ◌%◌, ◌^◌, ◌≤◌, ◌<◌}
use mathlib.Core.Path.{◌≡◌, refl, ap, ◌∙◌}
use mathlib.Core.Bool.{Bool, true, false, not}
use native.Mathlib.Omega.{arith}
use native.Mathlib.Nat.{pow-suc, one-le-pow}
use mathlib.Core.List.{List}
use native.Mathlib.Decide.{ℕ_discrete}
use transfer_assistant.Prelude.Tests.{◌==◌, if◌then◌else◌}
use transfer_assistant.Prelude.Lists.{length, get_or, set, get_or-set_self, get_or-set_ne}

-- Both operations give the digit recursion enough rounds, so their number does not matter.
module _ (tail : ℕ → ℕ) (op : ℕ → ℕ → ℕ) where
  abbrev by_digits : ℕ → ℕ → ℕ → ℕ
  by_digits rounds a b = digits tail op rounds a b

  run_out : (rounds b : ℕ) → by_digits rounds 0 b ≡ tail b
  run_out zero b = refl
  run_out (suc rounds) b = refl

  rounds_enough :
      (more a b extra : ℕ) → a ≤ more → by_digits (more + extra) a b ≡ by_digits more a b
  rounds_enough zero zero b extra h = run_out (0 + extra) b
  rounds_enough zero (suc a) b extra h = absurd (omega arith)
  rounds_enough (suc more) zero b extra h = run_out (suc more + extra) b
  rounds_enough (suc more) (suc a) b extra h =
      let next : suc more + extra ≡ suc (more + extra) = omega arith in
      rw next (rw (rounds_enough more (suc a / 2) (b / 2) extra (omega arith)))

  -- One digit, with the halves given as many rounds as the halved number.
  digit_out :
      (a b : ℕ)
      → by_digits (suc a) (suc a) b
        ≡ by_digits (suc a / 2) (suc a / 2) (b / 2) * 2 + op (suc a % 2) (b % 2)
  digit_out a b =
      let spare : a ≡ suc a / 2 + (a - suc a / 2) = omega arith in
      let enough : by_digits a (suc a / 2) (b / 2) ≡ by_digits (suc a / 2) (suc a / 2) (b / 2) =
        ap (λ n. by_digits n (suc a / 2) (b / 2)) spare
        ∙ rounds_enough (suc a / 2) (suc a / 2) (b / 2) (a - suc a / 2) (omega arith) in
      ap (λ t. t * 2 + op (suc a % 2) (b % 2)) enough

zero-bit_and : (b : ℕ) → bit_and 0 b ≡ 0
zero-bit_and b = bit_and-bitwise 0 b

zero-bit_or : (b : ℕ) → bit_or 0 b ≡ b
zero-bit_or b = bit_or-bitwise 0 b

bit_and_digit : (a b : ℕ) → bit_and a b ≡ bit_and (a / 2) (b / 2) * 2 + min (a % 2) (b % 2)
bit_and_digit zero b = omega (arith, zero-bit_and b, zero-bit_and (b / 2))
bit_and_digit (suc a) b = omega (
  arith,
  bit_and-bitwise (suc a) b,
  bit_and-bitwise (suc a / 2) (b / 2),
  digit_out (λ y. 0) min a b,
)

bit_or_digit : (a b : ℕ) → bit_or a b ≡ bit_or (a / 2) (b / 2) * 2 + max (a % 2) (b % 2)
bit_or_digit zero b = omega (arith, zero-bit_or b, zero-bit_or (b / 2))
bit_or_digit (suc a) b = omega (
  arith,
  bit_or-bitwise (suc a) b,
  bit_or-bitwise (suc a / 2) (b / 2),
  digit_out (λ y. y) max a b,
)

-- Digit `k` of `a`.
pub bit : ℕ → ℕ → ℕ
bit a zero = a % 2
bit a (suc k) = bit (a / 2) k

pub bit-le-one : (a k : ℕ) → bit a k ≤ 1
unfolding bit
bit-le-one a zero = omega arith
bit-le-one a (suc k) = bit-le-one (a / 2) k

pub bit-zero : (k : ℕ) → bit 0 k ≡ 0
unfolding bit
bit-zero zero = refl
bit-zero (suc k) = bit-zero k

pow_half : (k : ℕ) → 2 ^ suc k / 2 ≡ 2 ^ k
pow_half k = omega (arith, pow-suc 2 k)

pow_even : (k : ℕ) → 2 ^ suc k % 2 ≡ 0
pow_even k = omega (arith, pow-suc 2 k)

bit_pow : (k j : ℕ) → bit (2 ^ k) j ≡ (if k == j then 1 else 0)
unfolding bit
bit_pow zero zero = refl
bit_pow zero (suc j) = ground (arith, bit-zero j)
bit_pow (suc k) zero = rw (pow_even k) (ground arith)
bit_pow (suc k) (suc j) = rw (pow_half k) (ground (arith, bit_pow k j))

pub bit-bit_or : (a b k : ℕ) → bit (bit_or a b) k ≡ max (bit a k) (bit b k)
unfolding bit
bit-bit_or a b zero = omega (arith, bit_or_digit a b)
bit-bit_or a b (suc k) =
    let halves : bit_or a b / 2 ≡ bit_or (a / 2) (b / 2) = omega (arith, bit_or_digit a b) in
    rw halves (bit-bit_or (a / 2) (b / 2) k)

and_zero : (n a : ℕ) → a ≤ n → bit_and a 0 ≡ 0
and_zero n zero h = refl
and_zero zero (suc a) h = absurd (omega arith)
and_zero (suc n) (suc a) h =
    omega (arith, bit_and_digit (suc a) 0, and_zero n (suc a / 2) (omega arith))

and_pow : (a k : ℕ) → bit_and a (2 ^ k) ≡ bit a k * 2 ^ k
unfolding bit
and_pow a zero = omega (arith, bit_and_digit a 1, and_zero (a / 2) (a / 2) (omega arith))
and_pow a (suc k) =
    rw (bit_and_digit a (2 ^ suc k), pow_half k, pow_even k, and_pow (a / 2) k)
      (omega (arith, ap (λ (t : ℕ). bit (a / 2) k * t) (pow-suc 2 k)))

-- `word & (1 << k) != 0`.
unfoldable pub test_bit : ℕ → ℕ → Bool
test_bit word k = not (bit_and word (2 ^ k) == 0)

-- It tests bit `k`.
pub test_bit-bit : (word k : ℕ) → test_bit word k ≡ (bit word k == 1)
unfolding test_bit
test_bit-bit word k = grind (arith, and_pow word k, bit-le-one word k, one-le-pow k 2)

-- `word |= 1 << k`.
unfoldable pub set_bit : ℕ → ℕ → ℕ
set_bit word k = bit_or word (2 ^ k)

-- It sets bit `k` and leaves the others.
pub bit-set_bit : (word k j : ℕ) → bit (set_bit word k) j ≡ (if k == j then 1 else bit word j)
unfolding set_bit
bit-set_bit word k j = ground (arith, bit-bit_or word (2 ^ k) j, bit_pow k j, bit-le-one word j)

pub test_bit-set_bit :
    (word k j : ℕ) → test_bit (set_bit word k) j ≡ (if k == j then true else test_bit word j)
test_bit-set_bit word k j =
    ground (arith, test_bit-bit (set_bit word k) j, test_bit-bit word j, bit-set_bit word k j)

pub test_bit-zero : (k : ℕ) → test_bit 0 k ≡ false
test_bit-zero k = ground (arith, test_bit-bit 0 k, bit-zero k)

same_bits : (n a b : ℕ) → a + b ≤ n → ((k : ℕ) → bit a k ≡ bit b k) → a ≡ b
unfolding bit
same_bits n zero zero h e = refl
same_bits zero (suc a) b h e = absurd (omega arith)
same_bits zero zero (suc b) h e = absurd (omega arith)
same_bits (suc n) a b h e =
    omega (arith, e 0, same_bits n (a / 2) (b / 2) (omega arith) (λ k. e (suc k)))

-- A number is determined by its bits.
pub bit_ext : (a b : ℕ) → ((k : ℕ) → test_bit a k ≡ test_bit b k) → a ≡ b
bit_ext a b e =
    same_bits (a + b) a b (omega arith)
      (λ k. ground (arith, e k, test_bit-bit a k, test_bit-bit b k, bit-le-one a k, bit-le-one b k))

-- `words[w] |= 1 << k` in a vector of words sets that one bit.
pub test_bit-set_word :
    (words : List ℕ) (w k w' k' : ℕ)
    → w < length words
    → test_bit (get_or (set words w (set_bit (get_or words w 0) k)) w' 0) k' ≡ (
        if w == w'
        then (if k == k' then true else test_bit (get_or words w' 0) k')
        else test_bit (get_or words w' 0) k')
test_bit-set_word words w k w' k' h = elim (ℕ_discrete w w') [
  | yes e ↦
      let new = set_bit (get_or words w 0) k in
      ground (
        arith,
        ap (λ x. test_bit x k') (get_or-set_self words w new 0 h),
        test_bit-set_bit (get_or words w 0) k k',
      )
  | no ne ↦ ground (arith, get_or-set_ne words w w' (set_bit (get_or words w 0) k) 0 ne)
]
