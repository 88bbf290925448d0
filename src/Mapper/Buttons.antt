-- ===== src/Mapper/Buttons.antt =====
-- crates/controller/controller-mapper/src/lib.rs: the mapping of the discrete controls.
use steam_controller_bridge.Common.{zero, suc, Bool, true, false, Option, none, some, List, [], ◌∷◌}
use steam_controller_bridge.Common.Int.{ℤ, pos, negsuc}
use steam_controller_bridge.Gamepad.Buttons.{Button, GamepadButtons, set}
use steam_controller_bridge.Gamepad.Hat.{HatState}
use steam_controller_bridge.Steam.Buttons.{SteamButton, SteamButtons, steam_contains}

abbrev pub direct_gamepad_buttons : List SteamButton
direct_gamepad_buttons =
    SteamButton.a ∷ SteamButton.b ∷ SteamButton.x ∷ SteamButton.y ∷ SteamButton.left_shoulder
    ∷ SteamButton.right_shoulder ∷ SteamButton.left_stick_press ∷ SteamButton.right_stick_press
    ∷ SteamButton.view ∷ SteamButton.menu ∷ SteamButton.steam ∷ SteamButton.left_grip4
    ∷ SteamButton.right_grip4 ∷ SteamButton.left_grip5 ∷ SteamButton.right_grip5
    ∷ SteamButton.quick_access ∷ []

unfoldable pub gamepad_button : SteamButton → Option Button
gamepad_button SteamButton.a = some Button.south
gamepad_button SteamButton.b = some Button.east
gamepad_button SteamButton.x = some Button.west
gamepad_button SteamButton.y = some Button.north
gamepad_button SteamButton.left_shoulder = some Button.left_shoulder
gamepad_button SteamButton.right_shoulder = some Button.right_shoulder
gamepad_button SteamButton.left_stick_press = some Button.left_stick
gamepad_button SteamButton.right_stick_press = some Button.right_stick
gamepad_button SteamButton.view = some Button.start
gamepad_button SteamButton.menu = some Button.back
gamepad_button SteamButton.steam = some Button.guide
gamepad_button SteamButton.left_grip4 = some Button.left_grip
gamepad_button SteamButton.right_grip4 = some Button.right_grip
gamepad_button SteamButton.left_grip5 = some Button.extra1
gamepad_button SteamButton.right_grip5 = some Button.extra2
gamepad_button SteamButton.quick_access = some Button.extra3
gamepad_button _ = none

-- The body of the loop over the direct buttons, `map_button` where there is a target.
unfoldable pub map_button : SteamButtons → SteamButton → GamepadButtons → GamepadButtons
map_button input source output = elim (gamepad_button source) [
  | none ↦ output
  | some target ↦ set output target (steam_contains input source)
]

unfoldable pub map_buttons : SteamButtons → List SteamButton → GamepadButtons → GamepadButtons
map_buttons input [] output = output
map_buttons input (source ∷ sources) output =
    map_buttons input sources (map_button input source output)

-- `i8::from(up) - i8::from(down)`
abbrev pub direction : Bool → Bool → ℤ
direction true false = pos 1
direction false true = negsuc 0
direction _ _ = pos 0

unfoldable pub hat_of_directions : ℤ → ℤ → HatState
hat_of_directions (pos zero) (pos (suc zero)) = HatState.north
hat_of_directions (pos (suc zero)) (pos (suc zero)) = HatState.north_east
hat_of_directions (pos (suc zero)) (pos zero) = HatState.east
hat_of_directions (pos (suc zero)) (negsuc zero) = HatState.south_east
hat_of_directions (pos zero) (negsuc zero) = HatState.south
hat_of_directions (negsuc zero) (negsuc zero) = HatState.south_west
hat_of_directions (negsuc zero) (pos zero) = HatState.west
hat_of_directions (negsuc zero) (pos (suc zero)) = HatState.north_west
hat_of_directions _ _ = HatState.centered

unfoldable pub map_hat : SteamButtons → HatState
unfolding hat_of_directions
map_hat input =
    let up = steam_contains input SteamButton.dpad_up in
    let down = steam_contains input SteamButton.dpad_down in
    let left = steam_contains input SteamButton.dpad_left in
    let right = steam_contains input SteamButton.dpad_right in
    hat_of_directions (direction right left) (direction up down)
