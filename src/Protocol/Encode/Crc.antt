-- ===== src/Protocol/Encode/Crc.antt =====
-- crates/bridge/bridge-protocol/src/lib.rs: the range of `crc16_ccitt_false`, and its check value.
use steam_controller_bridge.Common.{
  ℕ, zero, suc, ◌*◌, ◌%◌, ◌<◌, ◌≡◌, refl, arith, List, [], ◌∷◌, bit_xor,
}
use steam_controller_bridge.Common.Bits.{bit_xor-lt}
use steam_controller_bridge.Protocol.Encode.{crc_bit, crc_bits, crc_loop, crc16_ccitt_false}

crc_bit-lt : (c : ℕ) → crc_bit c < 65536
unfolding crc_bit
crc_bit-lt c = ground (arith, bit_xor-lt 16 (c * 2 % 65536) 0x1021)

crc_bits-lt : (n c : ℕ) → c < 65536 → crc_bits n c < 65536
unfolding crc_bits
crc_bits-lt zero c h = h
crc_bits-lt (suc n) c h = crc_bits-lt n (crc_bit c) (crc_bit-lt c)

crc_loop-lt : (c : ℕ) (bytes : List ℕ) → c < 65536 → crc_loop c bytes < 65536
unfolding crc_loop
crc_loop-lt c [] h = h
crc_loop-lt c (b ∷ bytes) h =
    let mixed = bit_xor c (b * 256 % 65536) in
    crc_loop-lt (crc_bits 8 mixed) bytes
      (crc_bits-lt 8 mixed (bit_xor-lt 16 c (b * 256 % 65536) h (omega arith)))

pub crc16_ccitt_false-lt : (bytes : List ℕ) → crc16_ccitt_false bytes < 65536
unfolding crc16_ccitt_false
crc16_ccitt_false-lt bytes = crc_loop-lt 0xffff bytes (omega arith)

-- The check value of CRC-16/CCITT-FALSE, over the digits 1 to 9.
check_value :
    crc16_ccitt_false (b'1' ∷ b'2' ∷ b'3' ∷ b'4' ∷ b'5' ∷ b'6' ∷ b'7' ∷ b'8' ∷ b'9' ∷ []) ≡ 0x29b1
unfolding crc16_ccitt_false
check_value = refl
