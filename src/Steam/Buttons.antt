-- ===== src/Steam/Buttons.antt =====
-- crates/controller/steam-controller-protocol/src/lib.rs: `SteamButton` and `SteamButtons(u32)`.
use steam_controller_bridge.Common.{ℕ, ◌<◌, Bool, arith}
use steam_controller_bridge.Common.Bits.{has_bit}

pub data SteamButton : Type 0 where
  a b x y quick_access right_stick_press view right_grip4 right_grip5 right_shoulder : SteamButton
  dpad_down dpad_right dpad_left dpad_up menu left_stick_press steam left_grip4 : SteamButton
  left_grip5 left_shoulder right_stick_touch right_pad_touch right_pad_click : SteamButton
  right_trigger_click left_stick_touch left_pad_touch left_pad_click : SteamButton
  left_trigger_click right_grip_touch left_grip_touch : SteamButton

-- `button as u8`
abbrev pub steam_index : SteamButton → ℕ
steam_index a = 0
steam_index b = 1
steam_index x = 2
steam_index y = 3
steam_index quick_access = 4
steam_index right_stick_press = 5
steam_index view = 6
steam_index right_grip4 = 7
steam_index right_grip5 = 8
steam_index right_shoulder = 9
steam_index dpad_down = 10
steam_index dpad_right = 11
steam_index dpad_left = 12
steam_index dpad_up = 13
steam_index menu = 14
steam_index left_stick_press = 15
steam_index steam = 16
steam_index left_grip4 = 17
steam_index left_grip5 = 18
steam_index left_shoulder = 19
steam_index right_stick_touch = 20
steam_index right_pad_touch = 21
steam_index right_pad_click = 22
steam_index right_trigger_click = 23
steam_index left_stick_touch = 24
steam_index left_pad_touch = 25
steam_index left_pad_click = 26
steam_index left_trigger_click = 27
steam_index right_grip_touch = 28
steam_index left_grip_touch = 29

pub steam_index-lt : (s : SteamButton) → steam_index s < 30
steam_index-lt a = omega arith
steam_index-lt _ = omega arith

-- The mask itself: the newtype has one field.
abbrev pub SteamButtons : Type 0
SteamButtons = ℕ

unfoldable pub steam_contains : SteamButtons → SteamButton → Bool
steam_contains buttons button = has_bit buttons (steam_index button)
