-- ===== src/Protocol/Parse.antt =====
-- crates/bridge/bridge-protocol/src/lib.rs: `parse_message` and its helpers.
pub mod RoundTrip
use steam_controller_bridge.Common.{
  ℕ, ◌+◌, Bool, false, if◌then◌else◌, ◌==◌, ltb, ◌||◌, List, length, get_or, take, drop, Result, ok,
  err, ◌>>=◌, ◌>>◌,
}
use steam_controller_bridge.Common.Int.{ℤ, pos, negsuc, i16_of_bits, ltb_ℤ}
use steam_controller_bridge.Common.Bytes.{u16_from_le, u32_from_le, u64_from_le}
use steam_controller_bridge.Gamepad.Hat.{HatState, hat_try_from}
use steam_controller_bridge.Protocol.Message.{
  Message, hello, hello_response, gamepad_state, neutral, ping, pong, device_info, rumble,
  enter_uf2_bootloader, uf2_bootloader_ready, record_install_receipt, install_receipt_recorded,
  error, unknown, MessageType, hello_type, hello_response_type, gamepad_state_type, neutral_type,
  ping_type, pong_type, device_info_type, rumble_type, enter_uf2_bootloader_type,
  uf2_bootloader_ready_type, record_install_receipt_type, install_receipt_recorded_type, error_type,
  message_type_try_from, install_source_try_from, InstallReceipt, WireGamepadState, ProtocolError,
  invalid_payload_length, invalid_hat, reserved_axis_value, gamepad_payload_size,
  rumble_payload_size, request_id_payload_size, install_receipt_payload_size,
}

-- A read of `payload[i]`, which every caller makes below a checked length.
abbrev pub byte_at : List ℕ → ℕ → ℕ
byte_at payload i = get_or payload i 0

abbrev pub u16_at : List ℕ → ℕ → ℕ
u16_at p i = u16_from_le (byte_at p i) (byte_at p (i + 1))

abbrev pub u32_at : List ℕ → ℕ → ℕ
u32_at p i = u32_from_le (byte_at p i) (byte_at p (i + 1)) (byte_at p (i + 2)) (byte_at p (i + 3))

unfoldable pub exact_len : List ℕ → ℕ → Result ProtocolError (Unit {0})
exact_len payload expected =
    if length payload == expected
    then ok tt
    else err (invalid_payload_length expected (length payload))

-- `state.left_x == i16::MIN`
abbrev pub is_i16_min : ℤ → Bool
is_i16_min (pos n) = false
is_i16_min (negsuc n) = n == 0x7fff

-- The checks of `TryFrom<WireGamepadState> for GamepadState`, and the one conversion that fails.
unfoldable pub wire_hat : WireGamepadState → Result ProtocolError HatState
wire_hat state =
    if is_i16_min state.left_x
      || (is_i16_min state.left_y || (is_i16_min state.right_x || is_i16_min state.right_y))
    then err reserved_axis_value
    else elim (hat_try_from state.hat) [ ok hat ↦ ok hat | err _ ↦ err (invalid_hat state.hat) ]

unfoldable pub wire_fields : List ℕ → WireGamepadState
wire_fields p = record {
  buttons = u32_at p 0;
  hat = byte_at p 4;
  flags = byte_at p 5;
  left_x = i16_of_bits (u16_at p 6);
  left_y = i16_of_bits (u16_at p 8);
  right_x = i16_of_bits (u16_at p 10);
  right_y = i16_of_bits (u16_at p 12);
  left_trigger = u16_at p 14;
  right_trigger = u16_at p 16;
}

-- The converted state is discarded there, so it is not built here.
unfoldable pub parse_gamepad : List ℕ → Result ProtocolError WireGamepadState
parse_gamepad p = let state = wire_fields p in wire_hat state >>= λ _. ok state

unfoldable pub parse_install_receipt : List ℕ → Result ProtocolError (ℕ × InstallReceipt)
unfolding exact_len install_source_try_from
parse_install_receipt p = do
  exact_len p install_receipt_payload_size
  source ← install_source_try_from (byte_at p 28)
  ok (
    u32_at p 0,
    record {
      installed_at =
          u64_from_le (byte_at p 4) (byte_at p 5) (byte_at p 6) (byte_at p 7) (byte_at p 8)
            (byte_at p 9) (byte_at p 10) (byte_at p 11);
      install_id = take 16 (drop 12 p);
      source = source;
    },
  )

-- `parse_message` at a known type.
unfoldable pub parse_known : MessageType → List ℕ → Result ProtocolError Message
unfolding exact_len
parse_known hello_type p = exact_len p 2 >> ok (hello (byte_at p 0) (byte_at p 1))
parse_known hello_response_type p = exact_len p 1 >> ok (hello_response (byte_at p 0))
parse_known gamepad_state_type p = do
  exact_len p gamepad_payload_size
  state ← parse_gamepad p
  ok (gamepad_state state)
parse_known neutral_type p = exact_len p 0 >> ok neutral
parse_known ping_type p = exact_len p 4 >> ok (ping (u32_at p 0))
parse_known pong_type p = exact_len p 4 >> ok (pong (u32_at p 0))
parse_known device_info_type p = ok (device_info p)
parse_known rumble_type p = exact_len p rumble_payload_size >> ok (rumble (u16_at p 0) (u16_at p 2))
parse_known enter_uf2_bootloader_type p =
    exact_len p request_id_payload_size >> ok (enter_uf2_bootloader (u32_at p 0))
parse_known uf2_bootloader_ready_type p =
    exact_len p request_id_payload_size >> ok (uf2_bootloader_ready (u32_at p 0))
parse_known record_install_receipt_type p = do
  (request_id, receipt) ← parse_install_receipt p
  ok (record_install_receipt request_id receipt)
parse_known install_receipt_recorded_type p = do
  (request_id, receipt) ← parse_install_receipt p
  ok (install_receipt_recorded request_id receipt)
parse_known error_type p =
    if ltb (length p) 2
    then err (invalid_payload_length 2 (length p))
    else ok (error (u16_at p 0) (drop 2 p))

unfoldable pub parse_message : ℕ → List ℕ → Result ProtocolError Message
parse_message message_type payload = elim (message_type_try_from message_type) [
  | ok known ↦ parse_known known payload
  | err _ ↦ ok (unknown message_type payload)
]
