-- ===== src/Mapper/Map.antt =====
-- crates/controller/controller-mapper/src/lib.rs: `ControllerMapper`.
use steam_controller_bridge.Common.{
  ℕ, Bool, true, false, ◌&&◌, ◌||◌, if◌then◌else◌, ◌==◌, Result, ok, ◌>>◌,
}
use steam_controller_bridge.Common.Int.{ℤ, pos}
use steam_controller_bridge.Float.{Float, zero_f, one_f, minus_one_f, clamp}
use steam_controller_bridge.Gamepad.Buttons.{Button, set}
use steam_controller_bridge.Gamepad.State.{GamepadState}
use steam_controller_bridge.Steam.Buttons.{SteamButton, steam_contains}
use steam_controller_bridge.Steam.Report.{SteamControllerState}
use steam_controller_bridge.Mapper.Config.{
  MapperConfig, MappingError, validate_config, RightAxisSource, right_pad, right_stick,
}
use steam_controller_bridge.Mapper.Buttons.{direct_gamepad_buttons, map_buttons, map_hat}
use steam_controller_bridge.Mapper.Filters.{
  LowPassFilter, apply_inversion, apply_radial, apply_trigger_dead_zone, apply_sensitivity,
  apply_saturation, apply_low_pass, apply_clamp, new_low_pass, reset_low_pass,
}

pub record ControllerMapper (F : Type 0) : Type 0 where
  pub config : MapperConfig F
  pub smoothing : LowPassFilter F

abbrev pub is_right_pad : RightAxisSource → Bool
is_right_pad right_pad = true
is_right_pad right_stick = false

module _ (f : Float) where
  unfoldable pub normalize_axis : ℤ → Float.F f
  normalize_axis value =
      clamp f (f.div (f.from_i16 value) (f.decimal (pos 32767) 0)) (minus_one_f f) (one_f f)

  unfoldable pub normalize_trigger : ℕ → ℕ → Float.F f
  normalize_trigger value full_scale =
      if full_scale == 0
      then zero_f f
      else clamp f (f.div (f.from_u16 value) (f.from_u16 full_scale)) (zero_f f) (one_f f)

  -- `ControllerMapper::new`
  unfoldable pub new_mapper :
      MapperConfig (Float.F f) → Result MappingError (ControllerMapper (Float.F f))
  new_mapper config =
      validate_config f config
      >> ok (record { config = config; smoothing = new_low_pass f config.smoothing_time_constant })

  unfoldable pub right_axis : RightAxisSource → SteamControllerState → ℤ × ℤ
  right_axis right_pad input =
      if input.right_pad_touched then (input.right_pad_x, input.right_pad_y) else (pos 0, pos 0)
  right_axis right_stick input = (input.right_stick_x, input.right_stick_y)

  unfoldable pub map_unfiltered :
      MapperConfig (Float.F f) → SteamControllerState → GamepadState (Float.F f)
  map_unfiltered config input = record {
    buttons = set (map_buttons input.buttons direct_gamepad_buttons 0) Button.right_stick (
        steam_contains input.buttons SteamButton.right_stick_press
        || (is_right_pad config.right_axis_source
            && steam_contains input.buttons SteamButton.right_pad_click));
    hat = map_hat input.buttons;
    left_x = normalize_axis input.left_stick_x;
    left_y = normalize_axis input.left_stick_y;
    right_x = normalize_axis (right_axis config.right_axis_source input).0;
    right_y = normalize_axis (right_axis config.right_axis_source input).1;
    left_trigger = normalize_trigger input.left_trigger config.trigger_full_scale;
    right_trigger = normalize_trigger input.right_trigger config.trigger_full_scale;
  }

  -- The filters of `map` before the smoothing.
  unfoldable pub shape :
      MapperConfig (Float.F f) → GamepadState (Float.F f) → GamepadState (Float.F f)
  shape c s =
      let inverted = apply_inversion f c.axis_inversion s in
      let radial = apply_radial f c.left_stick_dead_zone c.right_axis_dead_zone inverted in
      let triggers = apply_trigger_dead_zone f c.trigger_dead_zone radial in
      let curved = apply_sensitivity f c.stick_sensitivity triggers in
      apply_saturation f c.stick_saturation c.trigger_saturation curved

  -- `ControllerMapper::map`: the mapper afterwards and the state.
  unfoldable pub map :
      ControllerMapper (Float.F f)
      → SteamControllerState
      → Float.F f
      → ControllerMapper (Float.F f) × GamepadState (Float.F f)
  map mapper input delta_time =
      let shaped = shape mapper.config (map_unfiltered mapper.config input) in
      let (smoothing, smoothed) = apply_low_pass f mapper.smoothing delta_time shaped in
      (record mapper { smoothing = smoothing }, apply_clamp f smoothed)

  unfoldable pub reset_mapper : ControllerMapper (Float.F f) → ControllerMapper (Float.F f)
  reset_mapper mapper = record mapper { smoothing = reset_low_pass f mapper.smoothing }
