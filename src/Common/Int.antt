-- ===== src/Common/Int.antt =====
-- Signed integers over the native numbers, and an `iN` of Rust read from its bit pattern.
use Prim.Native.Nat.{ℕ, suc, ◌+◌, ◌-◌, ◌<◌, ◌≤◌}
use mathlib.Core.Path.{◌≡◌}
use mathlib.Core.Bool.{Bool}
use native.Mathlib.Omega.{arith}
use steam_controller_bridge.Common.Tests.{ltb, if◌then◌else◌}

-- `negsuc n` is -(n + 1).
pub data ℤ : Type 0 where
  pos : ℕ → ℤ
  negsuc : ℕ → ℤ

abbrev pub pos_part : ℤ → ℕ
pos_part (pos n) = n
pos_part (negsuc n) = 0

abbrev pub neg_part : ℤ → ℕ
neg_part (pos n) = 0
neg_part (negsuc n) = suc n

infix 50 ◌≤ℤ◌
abbrev pub ◌≤ℤ◌ : ℤ → ℤ → Type 0
a ≤ℤ b = pos_part a + neg_part b ≤ pos_part b + neg_part a

abbrev pub ltb_ℤ : ℤ → ℤ → Bool
ltb_ℤ a b = ltb (pos_part a + neg_part b) (pos_part b + neg_part a)

abbrev pub max_ℤ : ℤ → ℤ → ℤ
max_ℤ a b = if ltb_ℤ a b then b else a

-- The value of a 16-bit pattern in two's complement, and the pattern of a value.
abbrev pub i16_of_bits : ℕ → ℤ
i16_of_bits w = if ltb w 0x8000 then pos w else negsuc (0xffff - w)

abbrev pub i16_bits : ℤ → ℕ
i16_bits (pos n) = n
i16_bits (negsuc n) = 0xffff - n

abbrev pub IsI16 : ℤ → Type 0
IsI16 z = (pos_part z < 0x8000) × (neg_part z ≤ 0x8000)

abbrev pub i8_of_bits : ℕ → ℤ
i8_of_bits w = if ltb w 0x80 then pos w else negsuc (0xff - w)

abbrev pub i8_bits : ℤ → ℕ
i8_bits (pos n) = n
i8_bits (negsuc n) = 0xff - n

pub i16_of_bits-i16_bits : (z : ℤ) → IsI16 z → i16_of_bits (i16_bits z) ≡ z
i16_of_bits-i16_bits (pos n) h = ground arith
i16_of_bits-i16_bits (negsuc n) h = ground arith

pub i16_bits-lt : (z : ℤ) → IsI16 z → i16_bits z < 65536
i16_bits-lt (pos n) h = omega arith
i16_bits-lt (negsuc n) h = omega arith

pub i16_of_bits-IsI16 : (w : ℕ) → w < 65536 → IsI16 (i16_of_bits w)
i16_of_bits-IsI16 w h = ground arith
