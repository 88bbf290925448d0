-- ===== src/Shutdown/Device.antt =====
-- crates/controller/steam-controller-device/src/lib.rs and
-- crates/controller/steam-controller-discovery/src/lib.rs: what a HID device is.
use steam_controller_bridge.Common.{
  ℕ, Bool, true, false, not, ◌&&◌, ◌||◌, if◌then◌else◌, ◌==◌, List, [], ◌∷◌, Option, none, some,
}
use steam_controller_bridge.Common.Int.{ℤ, pos, negsuc, ltb_ℤ}

-- Texts are lists of bytes.
pub record HidDeviceInfo : Type 0 where
  pub id : List ℕ
  pub path : List ℕ
  pub vendor_id : ℕ
  pub product_id : ℕ
  pub usage_page : ℕ
  pub usage : ℕ
  pub interface_number : ℤ
  pub serial_number : Option (List ℕ)
  pub manufacturer : Option (List ℕ)
  pub product : Option (List ℕ)
  pub transport : List ℕ

pub data ControllerTransport : Type 0 where
  puck bluetooth : ControllerTransport

abbrev pub same_text : List ℕ → List ℕ → Bool
same_text [] [] = true
same_text (a ∷ s) (b ∷ t) = a == b && same_text s t
same_text _ _ = false

abbrev usb_text : List ℕ
usb_text = b'U' ∷ b'S' ∷ b'B' ∷ []

abbrev bluetooth_text : List ℕ
bluetooth_text = b'B' ∷ b'l' ∷ b'u' ∷ b'e' ∷ b't' ∷ b'o' ∷ b'o' ∷ b't' ∷ b'h' ∷ []

unfoldable pub controller_transport : HidDeviceInfo → Option ControllerTransport
controller_transport info =
    if not (info.vendor_id == 0x28de) || (not (info.usage_page == 0xff00) || not (info.usage == 1))
    then none
    else if info.product_id == 0x1304
        && (same_text info.transport usb_text
            && (not (ltb_ℤ info.interface_number (pos 2))
                && not (ltb_ℤ (pos 5) info.interface_number)))
    then some puck
    else if info.product_id == 0x1303
        && (same_text info.transport bluetooth_text
            && (not (ltb_ℤ info.interface_number (negsuc 0))
                && not (ltb_ℤ (negsuc 0) info.interface_number)))
    then some bluetooth
    else none

-- Both have a serial number that is not empty, and it is the same.
abbrev pub same_stable_serial : Option (List ℕ) → Option (List ℕ) → Bool
same_stable_serial (some (a ∷ s)) (some (b ∷ t)) = a == b && same_text s t
same_stable_serial _ _ = false

unfoldable pub same_controller_collection : HidDeviceInfo → HidDeviceInfo → Bool
same_controller_collection a b =
    (same_text a.path b.path || same_stable_serial a.serial_number b.serial_number)
    && (a.vendor_id == b.vendor_id
        && (a.product_id == b.product_id
            && (a.usage_page == b.usage_page
                && (a.usage == b.usage
                    && (not (ltb_ℤ a.interface_number b.interface_number)
                        && not (ltb_ℤ b.interface_number a.interface_number))))))
