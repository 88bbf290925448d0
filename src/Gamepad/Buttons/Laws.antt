-- ===== src/Gamepad/Buttons/Laws.antt =====
-- crates/bridge/gamepad-state/src/lib.rs: the buttons of a mask, one by one.
use steam_controller_bridge.Common.{◌<◌, Bool, ◌≡◌, ◌==◌, if◌then◌else◌, arith}
use steam_controller_bridge.Common.Bits.{has_bit-set_bit}
use steam_controller_bridge.Gamepad.Buttons.{
  Button, south, button_index, GamepadButtons, contains, set,
}

pub button_index-lt : (b : Button) → button_index b < 16
button_index-lt south = omega arith
button_index-lt _ = omega arith

-- A button that is set reads back as it was set, and every other button keeps its state.
pub contains-set :
    (buttons : GamepadButtons) (b c : Button) (pressed : Bool)
    → contains (set buttons b pressed) c
      ≡ (if button_index c == button_index b then pressed else contains buttons c)
unfolding contains set
contains-set buttons b c pressed =
    has_bit-set_bit buttons (button_index b) (button_index c) pressed
      (omega (arith, button_index-lt b)) (omega (arith, button_index-lt c))
