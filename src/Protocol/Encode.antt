-- ===== src/Protocol/Encode.antt =====
-- crates/bridge/bridge-protocol/src/lib.rs: `crc16_ccitt_false`, `encode_message` and
-- `Frame::encode`.
pub mod Crc
use steam_controller_bridge.Common.{
  ℕ, zero, suc, ◌*◌, ◌%◌, Bool, not, if◌then◌else◌, ◌==◌, ltb, List, [], ◌∷◌, ◌++◌, length, Result,
  ok, err, bit_and, bit_xor,
}
use steam_controller_bridge.Common.Int.{i16_bits}
use steam_controller_bridge.Common.Bytes.{u16_le_bytes, u32_le_bytes, u64_le_bytes}
use steam_controller_bridge.Protocol.Message.{
  Message, hello, hello_response, gamepad_state, neutral, ping, pong, device_info, rumble,
  enter_uf2_bootloader, uf2_bootloader_ready, record_install_receipt, install_receipt_recorded,
  error, unknown, hello_type, hello_response_type, gamepad_state_type, neutral_type, ping_type,
  pong_type, device_info_type, rumble_type, enter_uf2_bootloader_type, uf2_bootloader_ready_type,
  record_install_receipt_type, install_receipt_recorded_type, error_type, type_byte, source_byte,
  InstallReceipt, WireGamepadState, Frame, ProtocolError, unsupported_version, payload_too_large,
  protocol_version, max_payload_size, magic,
}

-- One bit: `if crc & 0x8000 != 0 { (crc << 1) ^ 0x1021 } else { crc << 1 }` in 16 bits.
unfoldable pub crc_bit : ℕ → ℕ
crc_bit crc =
    let shifted = crc * 2 % 65536 in
    if not (bit_and crc 0x8000 == 0) then bit_xor shifted 0x1021 else shifted

unfoldable pub crc_bits : ℕ → ℕ → ℕ
crc_bits zero crc = crc
crc_bits (suc n) crc = crc_bits n (crc_bit crc)

-- The loop over the bytes; `u16::from(byte) << 8` is exact on a byte.
unfoldable pub crc_loop : ℕ → List ℕ → ℕ
crc_loop crc [] = crc
crc_loop crc (byte ∷ bytes) = crc_loop (crc_bits 8 (bit_xor crc (byte * 256 % 65536))) bytes

unfoldable pub crc16_ccitt_false : List ℕ → ℕ
unfolding crc_loop crc_bits crc_bit
crc16_ccitt_false bytes = crc_loop 0xffff bytes

unfoldable pub encode_install_receipt : ℕ → InstallReceipt → List ℕ
encode_install_receipt request_id receipt =
    u32_le_bytes request_id
    ++ (u64_le_bytes receipt.installed_at
        ++ (receipt.install_id ++ (source_byte receipt.source ∷ [])))

unfoldable pub encode_gamepad : WireGamepadState → List ℕ
encode_gamepad state =
    u32_le_bytes state.buttons
    ++ (state.hat ∷ state.flags ∷ [])
    ++ u16_le_bytes (i16_bits state.left_x)
    ++ u16_le_bytes (i16_bits state.left_y)
    ++ u16_le_bytes (i16_bits state.right_x)
    ++ u16_le_bytes (i16_bits state.right_y)
    ++ u16_le_bytes state.left_trigger
    ++ u16_le_bytes state.right_trigger

unfoldable pub encode_message : Message → ℕ × List ℕ
unfolding encode_install_receipt encode_gamepad
encode_message (hello lo hi) = (type_byte hello_type, lo ∷ hi ∷ [])
encode_message (hello_response version) = (type_byte hello_response_type, version ∷ [])
encode_message (gamepad_state state) = (type_byte gamepad_state_type, encode_gamepad state)
encode_message neutral = (type_byte neutral_type, [])
encode_message (ping nonce) = (type_byte ping_type, u32_le_bytes nonce)
encode_message (pong nonce) = (type_byte pong_type, u32_le_bytes nonce)
encode_message (device_info info) = (type_byte device_info_type, info)
encode_message (rumble low high) = (type_byte rumble_type, u16_le_bytes low ++ u16_le_bytes high)
encode_message (enter_uf2_bootloader id) = (type_byte enter_uf2_bootloader_type, u32_le_bytes id)
encode_message (uf2_bootloader_ready id) = (type_byte uf2_bootloader_ready_type, u32_le_bytes id)
encode_message (record_install_receipt id receipt) =
    (type_byte record_install_receipt_type, encode_install_receipt id receipt)
encode_message (install_receipt_recorded id receipt) =
    (type_byte install_receipt_recorded_type, encode_install_receipt id receipt)
encode_message (error code detail) = (type_byte error_type, u16_le_bytes code ++ detail)
encode_message (unknown message_type payload) = (message_type, payload)

-- The bytes of a frame up to its checksum.
abbrev pub frame_body : ℕ → ℕ → ℕ → List ℕ → List ℕ
frame_body version message_type sequence payload =
    magic
    ++ (version
        ∷ message_type
        ∷ (u16_le_bytes (length payload) ++ (u16_le_bytes sequence ++ payload)))

-- `u16::try_from(payload.len())` after the test against 256 cannot fail; its error is the same.
unfoldable pub encode : Frame → Result ProtocolError (List ℕ)
encode frame =
    let (message_type, payload) = encode_message frame.message in
    let body = frame_body frame.version message_type frame.sequence payload in
    if not (frame.version == protocol_version)
    then err (unsupported_version frame.version)
    else if ltb max_payload_size (length payload)
    then err (payload_too_large (length payload))
    else ok (body ++ u16_le_bytes (crc16_ccitt_false body))
