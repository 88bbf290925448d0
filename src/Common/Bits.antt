-- ===== src/Common/Bits.antt =====
-- The binary digits of `&`, `|` and `^` at variables, and `contains` of a button mask.
use Prim.Native.Nat.{
  ℕ, zero, suc, ◌+◌, ◌-◌, ◌*◌, ◌/◌, ◌%◌, ◌^◌, ◌≤◌, ◌<◌, min, max, bit_and, bit_or, bit_xor, digits,
  bitwise, differ, bit_and-bitwise, bit_or-bitwise, bit_xor-bitwise,
}
use mathlib.Core.Path.{◌≡◌, refl}
use mathlib.Core.Logic.{◌≢◌, ◌⊎◌, inl, inr}
use mathlib.Core.Bool.{Bool, true, false, not, ◌&&◌, ◌||◌}
use steam_controller_bridge.Common.Tests.{◌==◌, if◌then◌else◌}
use native.Mathlib.Nat.{pow-suc}
use native.Mathlib.Omega.{arith}

-- Any two counts of digits that are large enough give one result.
module _ (z : ℕ → ℕ) (f : ℕ → ℕ → ℕ) where
  digits-enough :
      (fuel fuel' x y : ℕ) → x ≤ fuel × x ≤ fuel' → digits z f fuel x y ≡ digits z f fuel' x y
  digits-enough (suc n) (suc n') (suc x) y h =
      rw (digits-enough n n' (suc x / 2) (y / 2) (omega arith, omega arith))
  digits-enough (suc n) (suc n') zero y h = refl
  digits-enough zero n' (suc x) y h = absurd (omega (arith, h.0))
  digits-enough (suc n) zero (suc x) y h = absurd (omega (arith, h.1))
  digits-enough zero zero zero y h = refl
  digits-enough zero (suc n') zero y h = refl
  digits-enough (suc n) zero zero y h = refl

  -- The digits of the halves, and the lowest one.
  bitwise-lowest :
      (x y : ℕ)
      → let x' = suc x in bitwise z f x' y ≡ f (x' % 2) (y % 2) + 2 * bitwise z f (x' / 2) (y / 2)
  bitwise-lowest x y =
      omega (arith, digits-enough x (suc x / 2) (suc x / 2) (y / 2) (omega arith, omega arith))

or_lowest : (x y : ℕ) → bit_or x y ≡ max (x % 2) (y % 2) + 2 * bit_or (x / 2) (y / 2)
or_lowest (suc x) y = simp bit_or-bitwise (bitwise-lowest (λ d. d) max x y)
or_lowest zero y = simp bit_or-bitwise (omega arith)

and_lowest : (x y : ℕ) → bit_and x y ≡ min (x % 2) (y % 2) + 2 * bit_and (x / 2) (y / 2)
and_lowest (suc x) y = simp bit_and-bitwise (bitwise-lowest (λ d. 0) min x y)
and_lowest zero y = simp bit_and-bitwise (omega arith)

digit_xor : (d : ℕ) → d < 2 → differ 0 d ≡ d
digit_xor zero h = refl
digit_xor (suc zero) h = refl
digit_xor (suc (suc d)) h = absurd (omega arith)

xor_lowest : (x y : ℕ) → bit_xor x y ≡ differ (x % 2) (y % 2) + 2 * bit_xor (x / 2) (y / 2)
xor_lowest (suc x) y = simp bit_xor-bitwise (bitwise-lowest (λ d. d) differ x y)
xor_lowest zero y = simp bit_xor-bitwise (omega (arith, digit_xor (y % 2) (omega arith)))

digit_xor-lt : (c d : ℕ) → c < 2 → d < 2 → differ c d < 2
digit_xor-lt zero zero h k = omega arith
digit_xor-lt zero (suc zero) h k = omega arith
digit_xor-lt (suc zero) zero h k = omega arith
digit_xor-lt (suc zero) (suc zero) h k = omega arith
digit_xor-lt (suc (suc c)) d h k = absurd (omega arith)
digit_xor-lt c (suc (suc d)) h k = absurd (omega arith)

-- The exclusive or of two numbers of `k` bits has `k` bits.
pub bit_xor-lt : (k a b : ℕ) → a < 2 ^ k → b < 2 ^ k → bit_xor a b < 2 ^ k
bit_xor-lt zero zero zero p q = omega arith
bit_xor-lt zero zero (suc b) p q = absurd (omega arith)
bit_xor-lt zero (suc a) b p q = absurd (omega arith)
bit_xor-lt (suc k) a b p q = omega (
  arith,
  xor_lowest a b,
  pow-suc 2 k,
  digit_xor-lt (a % 2) (b % 2) (omega arith) (omega arith),
  bit_xor-lt k (a / 2) (b / 2) (omega (arith, pow-suc 2 k)) (omega (arith, pow-suc 2 k)),
)

-- So has their inclusive or.
pub bit_or-lt : (k a b : ℕ) → a < 2 ^ k → b < 2 ^ k → bit_or a b < 2 ^ k
bit_or-lt zero zero zero p q = omega arith
bit_or-lt zero zero (suc b) p q = absurd (omega arith)
bit_or-lt zero (suc a) b p q = absurd (omega arith)
bit_or-lt (suc k) a b p q = omega (
  arith,
  or_lowest a b,
  pow-suc 2 k,
  bit_or-lt k (a / 2) (b / 2) (omega (arith, pow-suc 2 k)) (omega (arith, pow-suc 2 k)),
)

-- The `k`th binary digit.
unfoldable pub bit : ℕ → ℕ → ℕ
bit zero x = x % 2
bit (suc k) x = bit k (x / 2)

pub bit-lt : (k x : ℕ) → bit k x < 2
unfolding bit
bit-lt zero x = omega arith
bit-lt (suc k) x = bit-lt k (x / 2)

and_half : (a b : ℕ) → bit_and a b / 2 ≡ bit_and (a / 2) (b / 2)
and_half a b = omega (arith, and_lowest a b)

or_half : (a b : ℕ) → bit_or a b / 2 ≡ bit_or (a / 2) (b / 2)
or_half a b = omega (arith, or_lowest a b)

pub bit-bit_and : (k a b : ℕ) → bit k (bit_and a b) ≡ min (bit k a) (bit k b)
unfolding bit
bit-bit_and zero a b = omega (arith, and_lowest a b)
bit-bit_and (suc k) a b = rw (and_half a b) (bit-bit_and k (a / 2) (b / 2))

pub bit-bit_or : (k a b : ℕ) → bit k (bit_or a b) ≡ max (bit k a) (bit k b)
unfolding bit
bit-bit_or zero a b = omega (arith, or_lowest a b)
bit-bit_or (suc k) a b = rw (or_half a b) (bit-bit_or k (a / 2) (b / 2))

bit_and-zero : (k a : ℕ) → a < 2 ^ k → bit_and a 0 ≡ 0
bit_and-zero zero zero h = refl
bit_and-zero zero (suc a) h = absurd (omega arith)
bit_and-zero (suc k) a h =
    omega (arith, and_lowest a 0, bit_and-zero k (a / 2) (omega (arith, pow-suc 2 k)))

lt-two_pow : (a : ℕ) → a < 2 ^ a
lt-two_pow zero = omega arith
lt-two_pow (suc a) = omega (arith, pow-suc 2 a, lt-two_pow a)

-- A mask of one bit keeps that digit alone.
pub bit_and-two_pow : (k a : ℕ) → bit_and a (2 ^ k) ≡ bit k a * 2 ^ k
unfolding bit
bit_and-two_pow zero a =
    omega (arith, and_lowest a 1, bit_and-zero (a / 2) (a / 2) (lt-two_pow (a / 2)))
bit_and-two_pow (suc k) a =
    grind (arith, and_lowest a (2 ^ suc k), pow-suc 2 k, bit_and-two_pow k (a / 2))

bit-zero : (k : ℕ) → bit k 0 ≡ 0
unfolding bit
bit-zero zero = refl
bit-zero (suc k) = bit-zero k

half_two_pow : (k : ℕ) → 2 ^ suc k / 2 ≡ 2 ^ k
half_two_pow k = omega (arith, pow-suc 2 k)

pub bit-two_pow_self : (k : ℕ) → bit k (2 ^ k) ≡ 1
unfolding bit
bit-two_pow_self zero = refl
bit-two_pow_self (suc k) = rw (half_two_pow k) (bit-two_pow_self k)

pub bit-two_pow_ne : (k j : ℕ) → k ≢ j → bit k (2 ^ j) ≡ 0
unfolding bit
bit-two_pow_ne zero zero h = absurd (h refl)
bit-two_pow_ne zero (suc j) h = omega (arith, pow-suc 2 j)
bit-two_pow_ne (suc k) zero h = bit-zero k
bit-two_pow_ne (suc k) (suc j) h = rw (half_two_pow j) (bit-two_pow_ne k j (λ e. h (omega arith)))

half_not : (n x : ℕ) → x < 2 ^ suc n → (2 ^ suc n - 1 - x) / 2 ≡ 2 ^ n - 1 - x / 2
half_not n x h = omega (arith, pow-suc 2 n)

-- The complement in `n` bits flips each of its digits.
pub bit-not : (n k x : ℕ) → k < n → x < 2 ^ n → bit k (2 ^ n - 1 - x) ≡ 1 - bit k x
unfolding bit
bit-not zero k x p h = absurd (omega arith)
bit-not (suc n) zero x p h = omega (arith, pow-suc 2 n)
bit-not (suc n) (suc k) x p h =
    rw (half_not n x h) (bit-not n k (x / 2) (omega arith) (omega (arith, pow-suc 2 n)))

two_pow-pos : (k : ℕ) → 0 < 2 ^ k
two_pow-pos zero = omega arith
two_pow-pos (suc k) = omega (arith, pow-suc 2 k, two_pow-pos k)

pub two_pow-lt : (k n : ℕ) → k < n → 2 ^ k < 2 ^ n
two_pow-lt zero zero h = absurd (omega arith)
two_pow-lt zero (suc n) h = omega (arith, pow-suc 2 n, two_pow-pos n)
two_pow-lt (suc k) zero h = absurd (omega arith)
two_pow-lt (suc k) (suc n) h = omega (arith, pow-suc 2 k, pow-suc 2 n, two_pow-lt k n (omega arith))

-- `mask & (1 << k) != 0` reads the `k`th digit.
abbrev pub has_bit : ℕ → ℕ → Bool
has_bit mask k = not (bit_and mask (2 ^ k) == 0)

bit_zero_or_one : (k x : ℕ) → (bit k x ≡ 0) ⊎ (bit k x ≡ 1)
bit_zero_or_one k x = omega (arith, bit-lt k x)

pub has_bit-bit : (mask k : ℕ) → has_bit mask k ≡ (bit k mask == 1)
has_bit-bit mask k = elim (bit_zero_or_one k mask) [
  | inl e ↦ ground (arith, e, bit_and-two_pow k mask)
  | inr e ↦ ground (arith, e, bit_and-two_pow k mask, two_pow-pos k)
]

-- `mask |= 1 << j` and `mask &= !(1 << j)` in 32 bits.
abbrev pub set_bit : ℕ → ℕ → Bool → ℕ
set_bit mask j pressed = if pressed then bit_or mask (2 ^ j) else bit_and mask (2 ^ 32 - 1 - 2 ^ j)

bit-set_bit_true : (mask j k : ℕ) → bit k (bit_or mask (2 ^ j)) ≡ (if k == j then 1 else bit k mask)
bit-set_bit_true mask j k =
    ground (arith, bit-bit_or k mask (2 ^ j), bit-two_pow_self j, bit-two_pow_ne k j, bit-lt k mask)

bit-set_bit_false :
    (mask j k : ℕ)
    → j < 32
    → k < 32
    → bit k (bit_and mask (2 ^ 32 - 1 - 2 ^ j)) ≡ (if k == j then 0 else bit k mask)
bit-set_bit_false mask j k p q = ground (
  arith,
  bit-bit_and k mask (2 ^ 32 - 1 - 2 ^ j),
  bit-not 32 k (2 ^ j) q (two_pow-lt j 32 p),
  bit-two_pow_self j,
  bit-two_pow_ne k j,
  bit-lt k mask,
)

-- A digit that is written reads back, and no other digit changes.
pub has_bit-set_bit :
    (mask j k : ℕ) (pressed : Bool)
    → j < 32
    → k < 32
    → has_bit (set_bit mask j pressed) k ≡ (if k == j then pressed else has_bit mask k)
has_bit-set_bit mask j k true p q =
    rw (has_bit-bit (bit_or mask (2 ^ j)) k, has_bit-bit mask k, bit-set_bit_true mask j k)
      (ground arith)
has_bit-set_bit mask j k false p q =
    rw
      (
        has_bit-bit (bit_and mask (2 ^ 32 - 1 - 2 ^ j)) k,
        has_bit-bit mask k,
        bit-set_bit_false mask j k p q,
      )
      (ground arith)

pub has_bit-zero : (k : ℕ) → has_bit 0 k ≡ false
has_bit-zero k = ground (arith, has_bit-bit 0 k, bit-zero k)

-- A common digit of two masks.
pub has_bit-bit_and : (a b k : ℕ) → has_bit (bit_and a b) k ≡ (has_bit a k && has_bit b k)
has_bit-bit_and a b k =
    rw (has_bit-bit (bit_and a b) k, has_bit-bit a k, has_bit-bit b k, bit-bit_and k a b)
      (ground (arith, bit-lt k a, bit-lt k b))

-- A digit of either of two masks.
pub has_bit-bit_or : (a b k : ℕ) → has_bit (bit_or a b) k ≡ (has_bit a k || has_bit b k)
has_bit-bit_or a b k =
    rw (has_bit-bit (bit_or a b) k, has_bit-bit a k, has_bit-bit b k, bit-bit_or k a b)
      (ground (arith, bit-lt k a, bit-lt k b))
