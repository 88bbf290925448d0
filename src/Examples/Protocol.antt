-- ===== src/Examples/Protocol.antt =====
-- crates/bridge/bridge-protocol/src/lib.rs: encoding and decoding at concrete frames.
use steam_controller_bridge.Common.{ℕ, ◌≡◌, refl, ap, arith, List, [], ◌∷◌, ◌++◌, some, ok, err}
use steam_controller_bridge.Common.Int.{pos, negsuc, neg_part}
use steam_controller_bridge.Protocol.Message.{
  ping, device_info, gamepad_state, Frame, new_frame, checksum_mismatch, message_type_try_from,
  WireGamepadState,
}
use steam_controller_bridge.Protocol.Encode.{encode_message, encode, crc16_ccitt_false}
use steam_controller_bridge.Protocol.Parse.{parse_message, parse_known}
use steam_controller_bridge.Protocol.Parse.RoundTrip.{IsValidMessage, parse_message-encode_message}
use steam_controller_bridge.Protocol.Stream.{round, decode_loop, push}
use steam_controller_bridge.Protocol.Stream.Progress.{IsDecoded, push-IsDecoded}
use steam_controller_bridge.Protocol.Stream.Chunks.{push-append, with_before}
use steam_controller_bridge.Protocol.Stream.RoundTrip.{
  encode_all, received, push-encode, push-encode_all,
}
use steam_controller_bridge.Protocol.Stream.Progress.{with_first}

abbrev ping_frame : Frame
ping_frame = new_frame 7 (ping 0x12345678)

abbrev info_frame : Frame
info_frame = new_frame 8 (device_info (b'x' ∷ b'i' ∷ b'a' ∷ b'o' ∷ []))

abbrev ping_bytes : List ℕ
ping_bytes = b'S' ∷ b'C' ∷ 1 ∷ 5 ∷ 4 ∷ 0 ∷ 7 ∷ 0 ∷ 0x78 ∷ 0x56 ∷ 0x34 ∷ 0x12 ∷ 6 ∷ 88 ∷ []

abbrev info_bytes : List ℕ
info_bytes = b'S' ∷ b'C' ∷ 1 ∷ 7 ∷ 4 ∷ 0 ∷ 8 ∷ 0 ∷ b'x' ∷ b'i' ∷ b'a' ∷ b'o' ∷ 134 ∷ 236 ∷ []

encode_ping : encode ping_frame ≡ ok ping_bytes
unfolding encode encode_message crc16_ccitt_false
encode_ping = refl

encode_both : encode_all (ping_frame ∷ info_frame ∷ []) ≡ ok (ping_bytes ++ info_bytes)
unfolding encode_all encode encode_message crc16_ccitt_false
encode_both = refl

-- A frame with a flipped bit is refused, and the frame behind it is still read.
corrupted :
    push [] (
      (b'S' ∷ b'C' ∷ 1 ∷ 5 ∷ 4 ∷ 0 ∷ 7 ∷ 0 ∷ 0x79 ∷ 0x56 ∷ 0x34 ∷ 0x12 ∷ 6 ∷ 88 ∷ []) ++ info_bytes)
    ≡ some (err (checksum_mismatch 11954 22534) ∷ ok info_frame ∷ [], [])
unfolding push decode_loop round crc16_ccitt_false parse_message message_type_try_from parse_known
corrupted = refl

push-encode_all_example :
    push [] (ping_bytes ++ info_bytes) ≡ some (received (ping_frame ∷ info_frame ∷ []), [])
push-encode_all_example =
    push-encode_all (ping_frame ∷ info_frame ∷ []) (ping_bytes ++ info_bytes) (omega arith)
      encode_both

push-encode_example :
    push [] (ping_bytes ++ (b'S' ∷ [])) ≡ with_first (ok ping_frame) (push [] (b'S' ∷ []))
push-encode_example =
    push-encode ping_frame ping_bytes (b'S' ∷ []) (omega arith) (omega arith) encode_ping

half_read : push [] (b'S' ∷ b'C' ∷ 1 ∷ 5 ∷ []) ≡ some ([], b'S' ∷ b'C' ∷ 1 ∷ 5 ∷ [])
unfolding push decode_loop round
half_read = refl

abbrev second_half : List ℕ
second_half = 4 ∷ 0 ∷ 7 ∷ 0 ∷ 0x78 ∷ 0x56 ∷ 0x34 ∷ 0x12 ∷ 6 ∷ 88 ∷ []

push-append_example :
    push [] ((b'S' ∷ b'C' ∷ 1 ∷ 5 ∷ []) ++ second_half)
    ≡ with_before [] (push (b'S' ∷ b'C' ∷ 1 ∷ 5 ∷ []) second_half)
push-append_example = push-append [] (b'S' ∷ b'C' ∷ 1 ∷ 5 ∷ []) second_half half_read

push-IsDecoded_example : IsDecoded (push (b'S' ∷ []) ping_bytes)
push-IsDecoded_example = push-IsDecoded (b'S' ∷ []) ping_bytes

abbrev wire : WireGamepadState
wire = record {
  buttons = 0xa55a;
  hat = 7;
  flags = 1;
  left_x = negsuc 32766;
  left_y = pos 0;
  right_x = pos 32767;
  right_y = negsuc 0;
  left_trigger = 0;
  right_trigger = 65535;
}

valid_wire : IsValidMessage (gamepad_state wire)
valid_wire = record {
  buttons = omega arith;
  hat = omega arith;
  flags = omega arith;
  left_x = (omega arith, λ e. omega (arith, ap neg_part e));
  left_y = (omega arith, λ e. omega (arith, ap neg_part e));
  right_x = (omega arith, λ e. omega (arith, ap neg_part e));
  right_y = (omega arith, λ e. omega (arith, ap neg_part e));
  left_trigger = omega arith;
  right_trigger = omega arith;
}

parse_message-encode_message_example :
    parse_message (encode_message (gamepad_state wire)).0 (encode_message (gamepad_state wire)).1
    ≡ ok (gamepad_state wire)
parse_message-encode_message_example = parse_message-encode_message (gamepad_state wire) valid_wire
