-- ===== src/Examples/Gamepad.antt =====
-- crates/bridge/gamepad-state/src/lib.rs and crates/controller/controller-mapper/src/lib.rs: the
-- theorems at concrete states.
use steam_controller_bridge.Common.{◌≡◌, arith, ok, [], ◌&&◌, not}
use steam_controller_bridge.Common.Int.{pos, negsuc}
use steam_controller_bridge.Float.{Float}
use steam_controller_bridge.Float.Fixed.{nan, micro, fixed, fixed_laws}
use steam_controller_bridge.Gamepad.Buttons.{Button, contains}
use steam_controller_bridge.Gamepad.Hat.{HatState}
use steam_controller_bridge.Gamepad.State.{
  GamepadState, sanitized, validate, buttons_suppression, apply_suppression,
}
use steam_controller_bridge.Gamepad.State.Laws.{validate-sanitized, contains-apply_suppression}
use steam_controller_bridge.Mapper.Config.{default_config}
use steam_controller_bridge.Mapper.Filters.{new_low_pass}
use steam_controller_bridge.Mapper.Map.{ControllerMapper, map, is_right_pad}
use steam_controller_bridge.Mapper.Laws.{validate-map, map_discrete, hat_vector, axis_of, is_down}
use steam_controller_bridge.Steam.Buttons.{SteamButton, steam_contains}
use steam_controller_bridge.Steam.Decode.{decode_state}
use steam_controller_bridge.Steam.Report.{SteamControllerState}

abbrev wild : GamepadState (Float.F fixed)
wild = record {
  buttons = 0x11;
  hat = HatState.north;
  left_x = nan;
  left_y = micro (pos 5000000);
  right_x = micro (negsuc 1999999);
  right_y = micro (pos 250000);
  left_trigger = nan;
  right_trigger = micro (pos 1000001);
}

validate-sanitized_example :
    (validate fixed (sanitized fixed wild) ≡ ok tt)
    × ((sanitized fixed wild).buttons ≡ 0x11)
    × ((sanitized fixed wild).hat ≡ HatState.north)
validate-sanitized_example = validate-sanitized fixed fixed_laws wild

contains-apply_suppression_example :
    contains (apply_suppression fixed (buttons_suppression 0x1) wild).buttons Button.south
    ≡ (contains 0x11 Button.south && not (contains 0x1 Button.south))
contains-apply_suppression_example =
    contains-apply_suppression fixed 0x1 wild Button.south (omega arith)

abbrev pub mapper : ControllerMapper (Float.F fixed)
mapper = record {
  config = default_config fixed;
  smoothing = new_low_pass fixed (default_config fixed).smoothing_time_constant;
}

abbrev at_rest : SteamControllerState
at_rest = decode_state []

validate-map_example : validate fixed (map fixed mapper at_rest (micro (pos 4000))).1 ≡ ok tt
validate-map_example = validate-map fixed fixed_laws mapper at_rest (micro (pos 4000))

map_discrete_example :
    (contains (map fixed mapper at_rest (micro (pos 4000))).1.buttons Button.south
      ≡ is_down (is_right_pad mapper.config.right_axis_source) at_rest.buttons Button.south)
    × (hat_vector (map fixed mapper at_rest (micro (pos 4000))).1.hat ≡ (
      axis_of
          (steam_contains at_rest.buttons SteamButton.dpad_right)
          (steam_contains at_rest.buttons SteamButton.dpad_left),
      axis_of
          (steam_contains at_rest.buttons SteamButton.dpad_up)
          (steam_contains at_rest.buttons SteamButton.dpad_down),
    ))
map_discrete_example = map_discrete fixed mapper at_rest (micro (pos 4000)) Button.south
