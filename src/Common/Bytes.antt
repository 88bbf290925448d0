-- ===== src/Common/Bytes.antt =====
-- Little-endian byte strings: `to_le_bytes` and `from_le_bytes` at 16, 32 and 64 bits.
use Prim.Native.Nat.{ℕ, ◌+◌, ◌*◌, ◌/◌, ◌%◌, ◌<◌, ◌^◌}
use mathlib.Core.Path.{◌≡◌}
use mathlib.Core.List.{List, [], ◌∷◌, ◌++◌}
use native.Mathlib.Omega.{arith}

abbrev pub IsByte : ℕ → Type 0
IsByte b = b < 256

abbrev pub u16_le_bytes : ℕ → List ℕ
u16_le_bytes n = n % 256 ∷ n / 256 % 256 ∷ []

abbrev pub u32_le_bytes : ℕ → List ℕ
u32_le_bytes n = n % 256 ∷ n / 256 % 256 ∷ n / 65536 % 256 ∷ n / 16777216 % 256 ∷ []

abbrev pub u64_le_bytes : ℕ → List ℕ
u64_le_bytes n = u32_le_bytes (n % 2 ^ 32) ++ u32_le_bytes (n / 2 ^ 32)

abbrev pub u16_from_le : ℕ → ℕ → ℕ
u16_from_le a b = a + 256 * b

abbrev pub u32_from_le : ℕ → ℕ → ℕ → ℕ → ℕ
u32_from_le a b c d = a + 256 * b + 65536 * c + 16777216 * d

abbrev pub u64_from_le : ℕ → ℕ → ℕ → ℕ → ℕ → ℕ → ℕ → ℕ → ℕ
u64_from_le a b c d e f g h = u32_from_le a b c d + 2 ^ 32 * u32_from_le e f g h

pub u16_from_le-u16_le_bytes : (n : ℕ) → n < 65536 → u16_from_le (n % 256) (n / 256 % 256) ≡ n
u16_from_le-u16_le_bytes n h = omega arith

pub u32_from_le-u32_le_bytes :
    (n : ℕ)
    → n < 2 ^ 32
    → u32_from_le (n % 256) (n / 256 % 256) (n / 65536 % 256) (n / 16777216 % 256) ≡ n
u32_from_le-u32_le_bytes n h = omega arith
