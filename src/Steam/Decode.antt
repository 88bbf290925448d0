-- ===== src/Steam/Decode.antt =====
-- crates/controller/steam-controller-protocol/src/lib.rs: `SteamControllerDecoder::decode`.
pub mod Laws
use steam_controller_bridge.Common.{
  ℕ, ◌+◌, Bool, false, if◌then◌else◌, ◌==◌, not, List, [], ◌∷◌, length, get_or, Option, none, some,
  Result, ok, err, ◌>>=◌, ◌>>◌,
}
use steam_controller_bridge.Common.Int.{ℤ, negsuc, i16_of_bits, i8_of_bits, max_ℤ}
use steam_controller_bridge.Common.Bytes.{u16_from_le, u32_from_le}
use steam_controller_bridge.Steam.Buttons.{
  steam_contains, left_pad_touch, left_pad_click, right_pad_touch, right_pad_click, left_grip_touch,
  right_grip_touch,
}
use steam_controller_bridge.Steam.Report.{
  SteamControllerState, ConnectionState, disconnected, connected, unknown_connection, DecodedReport,
  controller_state, lizard_mouse, lizard_keyboard, connection, battery, auxiliary_status,
  periodic_status, DecodeError, unknown_report_id, report_id_mismatch, invalid_report_size,
}

abbrev pub lizard_mouse_report_id : ℕ
lizard_mouse_report_id = 0x40

abbrev pub lizard_keyboard_report_id : ℕ
lizard_keyboard_report_id = 0x41

abbrev pub extended_input_report_id : ℕ
extended_input_report_id = 0x42

abbrev pub battery_report_id : ℕ
battery_report_id = 0x43

abbrev pub aux_status_report_id : ℕ
aux_status_report_id = 0x44

abbrev pub input_report_id : ℕ
input_report_id = 0x45

abbrev pub connection_report_id : ℕ
connection_report_id = 0x79

abbrev pub periodic_status_report_id : ℕ
periodic_status_report_id = 0x7b

-- Every read is below the size that was checked.
unfoldable pub le_u16 : List ℕ → ℕ → ℕ
le_u16 bytes offset = u16_from_le (get_or bytes offset 0) (get_or bytes (offset + 1) 0)

unfoldable pub le_u32 : List ℕ → ℕ → ℕ
le_u32 bytes offset =
    u32_from_le (get_or bytes offset 0) (get_or bytes (offset + 1) 0) (get_or bytes (offset + 2) 0)
      (get_or bytes (offset + 3) 0)

unfoldable pub le_i16 : List ℕ → ℕ → ℤ
unfolding le_u16
le_i16 bytes offset = i16_of_bits (le_u16 bytes offset)

-- `.max(-32767)`
unfoldable pub symmetric_i16 : List ℕ → ℕ → ℤ
unfolding le_i16
symmetric_i16 bytes offset = max_ℤ (le_i16 bytes offset) (negsuc 32766)

unfoldable pub decode_state : List ℕ → SteamControllerState
decode_state bytes =
    let buttons = le_u32 bytes 2 in
    record {
      report_id = get_or bytes 0 0;
      sequence = get_or bytes 1 0;
      buttons = buttons;
      left_trigger = le_u16 bytes 6;
      right_trigger = le_u16 bytes 8;
      left_stick_x = symmetric_i16 bytes 10;
      left_stick_y = symmetric_i16 bytes 12;
      right_stick_x = symmetric_i16 bytes 14;
      right_stick_y = symmetric_i16 bytes 16;
      left_pad_x = symmetric_i16 bytes 18;
      left_pad_y = symmetric_i16 bytes 20;
      left_pad_pressure = le_i16 bytes 22;
      left_pad_touched = steam_contains buttons left_pad_touch;
      left_pad_pressed = steam_contains buttons left_pad_click;
      right_pad_x = symmetric_i16 bytes 24;
      right_pad_y = symmetric_i16 bytes 26;
      right_pad_pressure = le_i16 bytes 28;
      right_pad_touched = steam_contains buttons right_pad_touch;
      right_pad_pressed = steam_contains buttons right_pad_click;
      left_grip_touched = steam_contains buttons left_grip_touch;
      right_grip_touched = steam_contains buttons right_grip_touch;
      imu_timestamp = le_u32 bytes 30;
      acceleration =
          some (record { x = le_i16 bytes 34; y = le_i16 bytes 36; z = le_i16 bytes 38 });
      gyro = some (record { x = le_i16 bytes 40; y = le_i16 bytes 42; z = le_i16 bytes 44 });
      raw_report = bytes;
    }

unfoldable pub exact_size : ℕ → List ℕ → ℕ → Result DecodeError (Unit {0})
exact_size report_id bytes expected =
    if length bytes == expected
    then ok tt
    else err (invalid_report_size report_id expected (length bytes))

abbrev pub first : List ℕ → Option ℕ
first [] = none
first (byte ∷ rest) = some byte

unfoldable pub connection_of : ℕ → ConnectionState
connection_of value =
    if value == 1 then disconnected else if value == 2 then connected else unknown_connection value

-- The `match` on the report's identifier.
unfoldable pub decode_known : ℕ → List ℕ → Result DecodeError DecodedReport
unfolding exact_size
decode_known report_id bytes =
    if report_id == lizard_mouse_report_id
    then (exact_size report_id bytes 6
        >> ok (
            lizard_mouse (record {
              buttons = get_or bytes 1 0;
              x = i8_of_bits (get_or bytes 2 0);
              y = i8_of_bits (get_or bytes 3 0);
              vertical_wheel = i8_of_bits (get_or bytes 4 0);
              horizontal_wheel = i8_of_bits (get_or bytes 5 0);
              raw_report = bytes;
            })))
    else if report_id == lizard_keyboard_report_id
    then (exact_size report_id bytes 9 >> ok (lizard_keyboard bytes))
    else if report_id == input_report_id
    then (exact_size report_id bytes 46 >> ok (controller_state (decode_state bytes)))
    else if report_id == extended_input_report_id
    then (exact_size report_id bytes 54 >> ok (controller_state (decode_state bytes)))
    else if report_id == battery_report_id
    then (exact_size report_id bytes 15
        >> ok (
            battery (record { charge_state = get_or bytes 1 0; percent = get_or bytes 2 0 }) bytes))
    else if report_id == aux_status_report_id
    then (exact_size report_id bytes 6 >> ok (auxiliary_status bytes))
    else if report_id == connection_report_id
    then (exact_size report_id bytes 2 >> ok (connection (connection_of (get_or bytes 1 0))))
    else if report_id == periodic_status_report_id
    then (exact_size report_id bytes 13
        >> ok (periodic_status (i8_of_bits (get_or bytes 9 0)) bytes))
    else err (unknown_report_id report_id)

-- `data.first().copied() != Some(report_id)`
unfoldable pub decode : ℕ → List ℕ → Result DecodeError DecodedReport
decode report_id [] = err (report_id_mismatch report_id none)
decode report_id (byte ∷ rest) =
    if not (byte == report_id)
    then err (report_id_mismatch report_id (some byte))
    else decode_known report_id (byte ∷ rest)
