-- ===== src/Transport/Firmware.antt =====
-- crates/bridge/bridge-output/src/bridge_transport.rs: what the firmware reports about itself.
pub mod Reported
use steam_controller_bridge.Common.{
  ℕ, zero, suc, ◌+◌, ◌-◌, ◌^◌, Bool, true, false, not, ◌&&◌, ◌||◌, if◌then◌else◌, ◌==◌, ltb, leb,
  bit_and, List, [], ◌∷◌, ◌++◌, length, take, drop, replicate, Result, ok, err, Option, none, some,
}
use steam_controller_bridge.Common.Bytes.{u16_from_le, u32_from_le, u64_from_le}
use steam_controller_bridge.Protocol.Message.{
  InstallSource, InstallReceipt, app_center, first_observed, install_source_try_from, source_byte,
}
use steam_controller_bridge.Protocol.Parse.{byte_at}

abbrev pub device_info_format : ℕ
device_info_format = 1

abbrev pub device_info_extension_size : ℕ
device_info_extension_size = 8

abbrev pub device_info_recorded_size : ℕ
device_info_recorded_size = 33

abbrev pub firmware_target_tlv : ℕ
firmware_target_tlv = 1

abbrev pub max_firmware_target_id_len : ℕ
max_firmware_target_id_len = 64

-- `length` bytes of the array `[u8; 64]` are the identifier.
pub record FirmwareTargetId : Type 0 where
  pub length : ℕ
  pub bytes : List ℕ

abbrev pub is_ascii_lowercase : ℕ → Bool
is_ascii_lowercase byte = leb b'a' byte && leb byte b'z'

abbrev pub is_ascii_uppercase : ℕ → Bool
is_ascii_uppercase byte = leb b'A' byte && leb byte b'Z'

abbrev pub is_ascii_digit : ℕ → Bool
is_ascii_digit byte = leb b'0' byte && leb byte b'9'

abbrev pub is_ascii_alphanumeric : ℕ → Bool
is_ascii_alphanumeric byte =
    is_ascii_lowercase byte || (is_ascii_uppercase byte || is_ascii_digit byte)

-- `byte.is_ascii_lowercase() || byte.is_ascii_digit() || b".-".contains(&byte)`
abbrev pub is_slug_byte : ℕ → Bool
is_slug_byte byte =
    is_ascii_lowercase byte || (is_ascii_digit byte || (byte == b'.' || byte == b'-'))

abbrev pub all_bytes : (ℕ → Bool) → List ℕ → Bool
all_bytes test [] = true
all_bytes test (byte ∷ bytes) = test byte && all_bytes test bytes

abbrev pub first_is : (ℕ → Bool) → List ℕ → Bool
first_is test [] = false
first_is test (byte ∷ bytes) = test byte

abbrev pub last_is : (ℕ → Bool) → List ℕ → Bool
last_is test [] = false
last_is test (byte ∷ []) = test byte
last_is test (byte ∷ next ∷ bytes) = last_is test (next ∷ bytes)

-- The condition under which `new` accepts a value, on the value's bytes.
abbrev pub is_slug : List ℕ → Bool
is_slug value =
    not (length value == 0)
    && (leb (length value) max_firmware_target_id_len
        && (all_bytes is_slug_byte value
            && (first_is is_ascii_alphanumeric value && last_is is_ascii_alphanumeric value)))

-- `FirmwareTargetId::new`; `u8::try_from` of a length up to 64 cannot fail.
unfoldable pub new_target_id : List ℕ → Result (Unit {0}) FirmwareTargetId
new_target_id value =
    if not (is_slug value)
    then err tt
    else ok (record {
      length = length value;
      bytes = value ++ replicate (max_firmware_target_id_len - length value) 0;
    })

unfoldable pub as_str : FirmwareTargetId → List ℕ
as_str id = take id.length id.bytes

pub data FirmwareTarget : Type 0 where
  unreported malformed : FirmwareTarget
  reported : FirmwareTargetId → FirmwareTarget

pub data FirmwareVersion : Type 0 where
  pending_version malformed_version unreported_version : FirmwareVersion
  reported_version : (revision : ℕ) → FirmwareVersion
  unsupported_format : (format : ℕ) → FirmwareVersion

unfoldable pub revision : FirmwareVersion → Option ℕ
revision (reported_version r) = some r
revision _ = none

-- `FirmwareCapabilities`, a mask of 32 bits.
abbrev pub enter_uf2 : ℕ
enter_uf2 = 0x1

abbrev pub install_receipt : ℕ
install_receipt = 0x2

unfoldable pub contains_capability : ℕ → ℕ → Bool
contains_capability capabilities capability = bit_and capabilities capability == capability

-- `FirmwareInstallSource` and `FirmwareInstallReceipt` have the cases and the fields of the
-- protocol's `InstallSource` and `InstallReceipt`, to which they are converted case by case.
abbrev pub FirmwareInstallReceipt : Type 0
FirmwareInstallReceipt = InstallReceipt

abbrev pub list_eq : List ℕ → List ℕ → Bool
list_eq [] [] = true
list_eq [] (y ∷ ys) = false
list_eq (x ∷ xs) [] = false
list_eq (x ∷ xs) (y ∷ ys) = x == y && list_eq xs ys

-- `PartialEq` of `FirmwareInstallReceipt`.
abbrev pub receipt_eq : FirmwareInstallReceipt → FirmwareInstallReceipt → Bool
receipt_eq a b =
    a.installed_at == b.installed_at
    && (list_eq a.install_id b.install_id && source_byte a.source == source_byte b.source)

pub data FirmwareInstallState : Type 0 where
  unsupported_install pending_install invalid_install : FirmwareInstallState
  recorded : FirmwareInstallReceipt → FirmwareInstallState

pub record FirmwareInfo : Type 0 where
  pub target : FirmwareTarget
  pub version : FirmwareVersion
  pub capabilities : ℕ  -- u32
  pub install_state : FirmwareInstallState

abbrev pub default_info : FirmwareInfo
default_info = record {
  target = unreported;
  version = pending_version;
  capabilities = 0;
  install_state = unsupported_install;
}

-- `let Ok(identifier) = FirmwareTargetId::new(value) else { return Malformed }`. The check that the
-- bytes are UTF-8 comes first and answers the same: bytes that are not are no slug.
abbrev pub target_of : Result (Unit {0}) FirmwareTargetId → FirmwareTarget
target_of (ok id) = reported id
target_of (err _) = malformed

-- The state of the loop that a round leaves: it goes on with a target, or returns `Malformed`.
unfoldable pub tlv_round : FirmwareTarget → ℕ → List ℕ → FirmwareTarget
unfolding new_target_id
tlv_round target tag value = if not (tag == firmware_target_tlv) then target else elim target [
  | unreported ↦ target_of (new_target_id value)
  | reported _ ↦ malformed
  | malformed ↦ malformed
]

-- The loop on fuel, of which each round takes one, as it drops two bytes at least. A malformed
-- target is returned at once.
unfoldable pub tlv_loop : ℕ → FirmwareTarget → List ℕ → FirmwareTarget
tlv_loop fuel malformed extensions = malformed
tlv_loop fuel target [] = target
tlv_loop fuel target (tag ∷ []) = malformed
tlv_loop zero target (tag ∷ size ∷ rest) = malformed
tlv_loop (suc fuel) target (tag ∷ size ∷ rest) =
    let later = tlv_loop fuel (tlv_round target tag (take size rest)) (drop size rest) in
    if ltb (length rest) size then malformed else later

unfoldable pub parse_firmware_target : List ℕ → FirmwareTarget
parse_firmware_target extensions = tlv_loop (length extensions) unreported extensions

-- `install_id: [u8; 16]`, and a time that a signed 64-bit number shows.
abbrev pub is_valid_receipt : ℕ → List ℕ → Bool
is_valid_receipt installed_at install_id =
    ltb 0 installed_at && (ltb installed_at (2 ^ 63) && not (list_eq install_id (replicate 16 0)))

abbrev pub u64_at : List ℕ → ℕ → ℕ
u64_at p i =
    u64_from_le (byte_at p i) (byte_at p (i + 1)) (byte_at p (i + 2)) (byte_at p (i + 3))
      (byte_at p (i + 4)) (byte_at p (i + 5)) (byte_at p (i + 6)) (byte_at p (i + 7))

-- The state 2 of a payload that has the 33 bytes.
unfoldable pub recorded_state : List ℕ → FirmwareInstallState
unfolding install_source_try_from
recorded_state payload =
    let installed_at = u64_at payload 8 in
    let install_id = take 16 (drop 16 payload) in
    elim (install_source_try_from (byte_at payload 32)) [
      | ok source ↦
          if is_valid_receipt installed_at install_id
          then recorded
              (record { installed_at = installed_at; install_id = install_id; source = source })
          else invalid_install
      | err _ ↦ invalid_install
    ]

-- The installation state, and the offset of the extensions.
unfoldable pub install_state_of : List ℕ → FirmwareInstallState × ℕ
install_state_of payload =
    let state = byte_at payload 7 in
    if state == 0
    then (unsupported_install, device_info_extension_size)
    else if state == 1
    then (pending_install, device_info_extension_size)
    else if state == 2
    then if leb device_info_recorded_size (length payload)
      then (recorded_state payload, device_info_recorded_size)
      else (invalid_install, length payload)
    else (invalid_install, device_info_extension_size)

abbrev pub extended_info : List ℕ → FirmwareInfo
extended_info payload =
    let (install_state, offset) = install_state_of payload in
    record {
      target = parse_firmware_target (drop offset payload);
      version = reported_version (u16_from_le (byte_at payload 1) (byte_at payload 2));
      capabilities =
          u32_from_le (byte_at payload 3) (byte_at payload 4) (byte_at payload 5)
            (byte_at payload 6);
      install_state = install_state;
    }

-- The arms in the order of the source.
unfoldable pub parse_device_info : List ℕ → FirmwareInfo
parse_device_info payload =
    let format = byte_at payload 0 in
    if length payload == 0
    then record default_info { version = malformed_version }
    else if not (format == device_info_format)
    then record default_info { version = unsupported_format format }
    else if length payload == 3
    then record default_info {
      version = reported_version (u16_from_le (byte_at payload 1) (byte_at payload 2));
    }
    else if ltb (length payload) device_info_extension_size
    then record default_info { version = malformed_version }
    else extended_info payload
