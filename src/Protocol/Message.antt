-- ===== src/Protocol/Message.antt =====
-- crates/bridge/bridge-protocol/src/lib.rs: constants, messages, frames and errors.
use steam_controller_bridge.Common.{ℕ, if◌then◌else◌, ◌==◌, List, [], ◌∷◌, Result, ok, err}
use steam_controller_bridge.Common.Int.{ℤ}

abbrev pub magic_0 : ℕ
magic_0 = b'S'

abbrev pub magic_1 : ℕ
magic_1 = b'C'

abbrev pub magic : List ℕ
magic = magic_0 ∷ magic_1 ∷ []

abbrev pub protocol_version : ℕ
protocol_version = 1

abbrev pub header_size : ℕ
header_size = 8

abbrev pub checksum_size : ℕ
checksum_size = 2

abbrev pub max_payload_size : ℕ
max_payload_size = 256

abbrev pub gamepad_payload_size : ℕ
gamepad_payload_size = 18

abbrev pub rumble_payload_size : ℕ
rumble_payload_size = 4

abbrev pub request_id_payload_size : ℕ
request_id_payload_size = 4

abbrev pub install_receipt_payload_size : ℕ
install_receipt_payload_size = 29

pub data MessageType : Type 0 where
  hello_type hello_response_type gamepad_state_type neutral_type ping_type pong_type : MessageType
  device_info_type rumble_type enter_uf2_bootloader_type uf2_bootloader_ready_type : MessageType
  record_install_receipt_type install_receipt_recorded_type error_type : MessageType

-- `message_type as u8`
abbrev pub type_byte : MessageType → ℕ
type_byte hello_type = 1
type_byte hello_response_type = 2
type_byte gamepad_state_type = 3
type_byte neutral_type = 4
type_byte ping_type = 5
type_byte pong_type = 6
type_byte device_info_type = 7
type_byte rumble_type = 8
type_byte enter_uf2_bootloader_type = 9
type_byte uf2_bootloader_ready_type = 10
type_byte record_install_receipt_type = 11
type_byte install_receipt_recorded_type = 12
type_byte error_type = 255

unfoldable pub message_type_try_from : ℕ → Result (Unit {0}) MessageType
message_type_try_from value =
    if value == 1
    then ok hello_type
    else if value == 2
    then ok hello_response_type
    else if value == 3
    then ok gamepad_state_type
    else if value == 4
    then ok neutral_type
    else if value == 5
    then ok ping_type
    else if value == 6
    then ok pong_type
    else if value == 7
    then ok device_info_type
    else if value == 8
    then ok rumble_type
    else if value == 9
    then ok enter_uf2_bootloader_type
    else if value == 10
    then ok uf2_bootloader_ready_type
    else if value == 11
    then ok record_install_receipt_type
    else if value == 12
    then ok install_receipt_recorded_type
    else if value == 255
    then ok error_type
    else err tt

pub data InstallSource : Type 0 where
  app_center first_observed : InstallSource

-- `source as u8`
abbrev pub source_byte : InstallSource → ℕ
source_byte app_center = 1
source_byte first_observed = 2

pub data ProtocolError : Type 0 where
  unsupported_version : ℕ → ProtocolError
  payload_too_large : ℕ → ProtocolError
  checksum_mismatch : (expected actual : ℕ) → ProtocolError
  invalid_payload_length : (expected actual : ℕ) → ProtocolError
  invalid_hat : ℕ → ProtocolError
  invalid_install_source : ℕ → ProtocolError
  reserved_axis_value : ProtocolError

unfoldable pub install_source_try_from : ℕ → Result ProtocolError InstallSource
install_source_try_from value =
    if value == 1
    then ok app_center
    else if value == 2
    then ok first_observed
    else err (invalid_install_source value)

pub record InstallReceipt : Type 0 where
  pub installed_at : ℕ  -- u64
  pub install_id : List ℕ  -- [u8; 16]
  pub source : InstallSource

pub record WireGamepadState : Type 0 where
  pub buttons : ℕ  -- u32
  pub hat : ℕ  -- u8
  pub flags : ℕ  -- u8
  pub left_x : ℤ  -- i16
  pub left_y : ℤ  -- i16
  pub right_x : ℤ  -- i16
  pub right_y : ℤ  -- i16
  pub left_trigger : ℕ  -- u16
  pub right_trigger : ℕ  -- u16

pub data Message : Type 0 where
  hello : (minimum_version maximum_version : ℕ) → Message
  hello_response : (selected_version : ℕ) → Message
  gamepad_state : WireGamepadState → Message
  neutral : Message
  ping : (nonce : ℕ) → Message
  pong : (nonce : ℕ) → Message
  device_info : List ℕ → Message
  rumble : (low_frequency high_frequency : ℕ) → Message
  enter_uf2_bootloader : (request_id : ℕ) → Message
  uf2_bootloader_ready : (request_id : ℕ) → Message
  record_install_receipt : (request_id : ℕ) → InstallReceipt → Message
  install_receipt_recorded : (request_id : ℕ) → InstallReceipt → Message
  error : (code : ℕ) → (detail : List ℕ) → Message
  unknown : (message_type : ℕ) → (payload : List ℕ) → Message

pub record Frame : Type 0 where
  pub version : ℕ  -- u8
  pub sequence : ℕ  -- u16
  pub message : Message

-- `Frame::new`
abbrev pub new_frame : ℕ → Message → Frame
new_frame sequence message = record {
  version = protocol_version;
  sequence = sequence;
  message = message;
}
