-- ===== src/Steam/Output.antt =====
-- crates/controller/steam-controller-protocol/src/lib.rs: the feature and output reports.
use steam_controller_bridge.Common.{
  ℕ, ◌/◌, ◌%◌, ◌<◌, ◌≡◌, refl, List, [], ◌∷◌, length, replicate, get_or,
}
use steam_controller_bridge.Common.Int.{ℤ, negsuc, i8_bits}
use steam_controller_bridge.Common.Bytes.{u16_from_le, u16_from_le-u16_le_bytes}

abbrev pub feature_report_size : ℕ
feature_report_size = 64

-- The bytes that are assigned, and zeros up to the fixed size.
unfoldable pub lizard_mode_off_feature_report : List ℕ
lizard_mode_off_feature_report = 0x01 ∷ 0x87 ∷ 3 ∷ 9 ∷ 0 ∷ 0 ∷ replicate 58 0

unfoldable pub power_off_feature_report : List ℕ
power_off_feature_report = 0x01 ∷ 0x9f ∷ 4 ∷ b'o' ∷ b'f' ∷ b'f' ∷ b'!' ∷ replicate 57 0

-- The bytes 3, 4 and 6, 7 of ten carry the two strengths.
unfoldable pub rumble_output_report : ℕ → ℕ → List ℕ
rumble_output_report low_frequency high_frequency =
    0x80
    ∷ 0
    ∷ 0
    ∷ low_frequency % 256
    ∷ low_frequency / 256 % 256
    ∷ 0
    ∷ high_frequency % 256
    ∷ high_frequency / 256 % 256
    ∷ 0
    ∷ 0
    ∷ []

pub data PadHapticSide : Type 0 where
  left right both : PadHapticSide

-- `side as u8`
abbrev pub side_byte : PadHapticSide → ℕ
side_byte left = 0x01
side_byte right = 0x02
side_byte both = 0x03

pub data PadHapticGain : Type 0 where
  low medium high : PadHapticGain

unfoldable pub gain_db : PadHapticGain → ℤ
gain_db low = negsuc 35
gain_db medium = negsuc 29
gain_db high = negsuc 23

unfoldable pub pad_haptic_tick_output_report : PadHapticSide → PadHapticGain → List ℕ
unfolding gain_db
pad_haptic_tick_output_report side gain = 0x82 ∷ side_byte side ∷ 0x01 ∷ i8_bits (gain_db gain) ∷ []

-- For two strengths below 65536, the rumble report has ten bytes and holds the first at offset 3
-- and the second at offset 6, both little-endian.
pub rumble_output_report_fields :
    (l h : ℕ)
    → l < 65536
    → h < 65536
    → (length (rumble_output_report l h) ≡ 10)
      × (u16_from_le (get_or (rumble_output_report l h) 3 0) (get_or (rumble_output_report l h) 4 0)
          ≡ l)
      × (u16_from_le (get_or (rumble_output_report l h) 6 0) (get_or (rumble_output_report l h) 7 0)
          ≡ h)
unfolding rumble_output_report
rumble_output_report_fields l h p q =
    (refl, u16_from_le-u16_le_bytes l p, u16_from_le-u16_le_bytes h q)

-- The two feature reports have the fixed size.
feature_reports_sized :
    (length lizard_mode_off_feature_report ≡ feature_report_size)
    × (length power_off_feature_report ≡ feature_report_size)
unfolding lizard_mode_off_feature_report power_off_feature_report
feature_reports_sized = (refl, refl)

-- The gain bytes that the protocol names.
gain_bytes :
    (pad_haptic_tick_output_report left low ≡ 0x82 ∷ 0x01 ∷ 0x01 ∷ 0xdc ∷ [])
    × (pad_haptic_tick_output_report both high ≡ 0x82 ∷ 0x03 ∷ 0x01 ∷ 0xe8 ∷ [])
unfolding pad_haptic_tick_output_report
gain_bytes = (refl, refl)
