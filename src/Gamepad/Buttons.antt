-- ===== src/Gamepad/Buttons.antt =====
-- crates/bridge/gamepad-state/src/lib.rs: `Button` and the mask `GamepadButtons(u32)`.
pub mod Laws
use steam_controller_bridge.Common.{ℕ, Bool}
use steam_controller_bridge.Common.Bits.{has_bit, set_bit}

pub data Button : Type 0 where
  south east west north left_shoulder right_shoulder left_stick right_stick : Button
  back start guide left_grip right_grip extra1 extra2 extra3 : Button

-- `button as u8`
abbrev pub button_index : Button → ℕ
button_index south = 0
button_index east = 1
button_index west = 2
button_index north = 3
button_index left_shoulder = 4
button_index right_shoulder = 5
button_index left_stick = 6
button_index right_stick = 7
button_index back = 8
button_index start = 9
button_index guide = 10
button_index left_grip = 11
button_index right_grip = 12
button_index extra1 = 13
button_index extra2 = 14
button_index extra3 = 15

-- The mask itself: the newtype has one field.
abbrev pub GamepadButtons : Type 0
GamepadButtons = ℕ

unfoldable pub contains : GamepadButtons → Button → Bool
contains buttons button = has_bit buttons (button_index button)

unfoldable pub set : GamepadButtons → Button → Bool → GamepadButtons
set buttons button pressed = set_bit buttons (button_index button) pressed

unfoldable pub clear : GamepadButtons → GamepadButtons
clear buttons = 0
