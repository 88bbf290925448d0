-- ===== src/Mapper/Laws.antt =====
-- crates/controller/controller-mapper/src/lib.rs: what `ControllerMapper::map` guarantees.
use steam_controller_bridge.Common.{
  ◌≡◌, ◌∙◌, ◌||◌, ◌&&◌, refl, arith, Bool, false, if◌then◌else◌, Option, none, some, ok,
}
use steam_controller_bridge.Common.Int.{ℤ, pos, negsuc}
use steam_controller_bridge.Gamepad.Hat.{HatState}
use steam_controller_bridge.Float.{Float, FloatLaws}
use steam_controller_bridge.Gamepad.Buttons.{Button, contains}
use steam_controller_bridge.Gamepad.Buttons.Laws.{contains-set}
use steam_controller_bridge.Gamepad.State.{GamepadState, validate, sanitized}
use steam_controller_bridge.Gamepad.State.Laws.{validate-sanitized}
use steam_controller_bridge.Steam.Buttons.{SteamButton, SteamButtons, steam_contains}
use steam_controller_bridge.Steam.Report.{SteamControllerState}
use steam_controller_bridge.Mapper.Config.{MapperConfig}
use steam_controller_bridge.Mapper.Buttons.{
  gamepad_button, map_button, map_buttons, map_hat, hat_of_directions, direction,
}
use steam_controller_bridge.Mapper.Filters.{
  low_pass_state, smooth, apply_low_pass, apply_clamp, apply_saturation, apply_sensitivity,
  apply_trigger_dead_zone, apply_radial, apply_inversion,
}
use steam_controller_bridge.Mapper.Map.{ControllerMapper, map_unfiltered, map, shape, is_right_pad}

module _ (f : Float) (laws : FloatLaws f) where
  -- Under the order laws of finite floats, a mapped state passes validation, whatever the
  -- configuration, the smoothing history, the input and the time step are.
  pub validate-map :
      (mapper : ControllerMapper (Float.F f)) (input : SteamControllerState) (dt : Float.F f)
      → validate f (map f mapper input dt).1 ≡ ok tt
  unfolding map apply_clamp
  validate-map mapper input dt = (validate-sanitized f laws _).0

low_pass_keeps_discrete :
    (f : Float) (time_constant : Option (Float.F f)) (previous : GamepadState (Float.F f))
    (dt : Float.F f) (s : GamepadState (Float.F f))
    → ((low_pass_state f time_constant previous dt s).buttons ≡ s.buttons)
      × ((low_pass_state f time_constant previous dt s).hat ≡ s.hat)
unfolding low_pass_state smooth
low_pass_keeps_discrete f none previous dt s = (refl, refl)
low_pass_keeps_discrete f (some t) previous dt s = (refl, refl)

shape_keeps_discrete :
    (f : Float) (c : MapperConfig (Float.F f)) (s : GamepadState (Float.F f))
    → ((shape f c s).buttons ≡ s.buttons) × ((shape f c s).hat ≡ s.hat)
unfolding shape apply_saturation apply_sensitivity apply_trigger_dead_zone apply_radial
    apply_inversion
shape_keeps_discrete f c s = (refl, refl)

-- The filters leave the buttons and the hat alone.
pub map_keeps_discrete :
    (f : Float) (mapper : ControllerMapper (Float.F f)) (input : SteamControllerState)
    (dt : Float.F f)
    → ((map f mapper input dt).1.buttons ≡ (map_unfiltered f mapper.config input).buttons)
      × ((map f mapper input dt).1.hat ≡ (map_unfiltered f mapper.config input).hat)
unfolding map apply_clamp apply_low_pass sanitized
map_keeps_discrete f mapper input dt =
    let raw = map_unfiltered f mapper.config input in
    let kept =
      low_pass_keeps_discrete f mapper.smoothing.time_constant mapper.smoothing.previous dt
        (shape f mapper.config raw) in
    (
      kept.0 ∙ (shape_keeps_discrete f mapper.config raw).0,
      kept.1 ∙ (shape_keeps_discrete f mapper.config raw).1,
    )

-- The Steam button behind each gamepad button.
unfoldable pub source_of : Button → SteamButton
source_of Button.south = SteamButton.a
source_of Button.east = SteamButton.b
source_of Button.west = SteamButton.x
source_of Button.north = SteamButton.y
source_of Button.left_shoulder = SteamButton.left_shoulder
source_of Button.right_shoulder = SteamButton.right_shoulder
source_of Button.left_stick = SteamButton.left_stick_press
source_of Button.right_stick = SteamButton.right_stick_press
source_of Button.back = SteamButton.menu
source_of Button.start = SteamButton.view
source_of Button.guide = SteamButton.steam
source_of Button.left_grip = SteamButton.left_grip4
source_of Button.right_grip = SteamButton.right_grip4
source_of Button.extra1 = SteamButton.left_grip5
source_of Button.extra2 = SteamButton.right_grip5
source_of Button.extra3 = SteamButton.quick_access

pub source_of-gamepad_button :
    (source : SteamButton) (target : Button)
    → gamepad_button source ≡ some target
    → source_of target ≡ source
unfolding gamepad_button source_of
source_of-gamepad_button source target e = ground arith

-- Whether a gamepad button is down, from the state of the Steam buttons.
abbrev pub is_down : Bool → SteamButtons → Button → Bool
is_down pad input Button.right_stick =
    steam_contains input SteamButton.right_stick_press
    || (pad && steam_contains input SteamButton.right_pad_click)
is_down pad input target = steam_contains input (source_of target)

contains_zero : (b : Button) → contains 0 b ≡ false
unfolding contains
contains_zero Button.south = refl
contains_zero _ = refl

map_unfiltered-is_down :
    (f : Float) (c : MapperConfig (Float.F f)) (input : SteamControllerState) (target : Button)
    → contains (map_unfiltered f c input).buttons target
      ≡ is_down (is_right_pad c.right_axis_source) input.buttons target
unfolding map_unfiltered map_buttons map_button gamepad_button source_of
map_unfiltered-is_down f c input Button.south = simp contains-set
map_unfiltered-is_down f c input _ = simp contains-set

-- The way that a hat points, to the right and upwards.
abbrev pub hat_vector : HatState → ℤ × ℤ
hat_vector HatState.north = (pos 0, pos 1)
hat_vector HatState.north_east = (pos 1, pos 1)
hat_vector HatState.east = (pos 1, pos 0)
hat_vector HatState.south_east = (pos 1, negsuc 0)
hat_vector HatState.south = (pos 0, negsuc 0)
hat_vector HatState.south_west = (negsuc 0, negsuc 0)
hat_vector HatState.west = (negsuc 0, pos 0)
hat_vector HatState.north_west = (negsuc 0, pos 1)
hat_vector HatState.centered = (pos 0, pos 0)

-- One axis of the D-pad: opposite buttons that are both down cancel out.
abbrev pub axis_of : Bool → Bool → ℤ
axis_of up down = if up then (if down then pos 0 else pos 1) else (if down then negsuc 0 else pos 0)

map_hat_vector :
    (input : SteamButtons)
    → hat_vector (map_hat input) ≡ (
      axis_of
          (steam_contains input SteamButton.dpad_right)
          (steam_contains input SteamButton.dpad_left),
      axis_of
          (steam_contains input SteamButton.dpad_up)
          (steam_contains input SteamButton.dpad_down),
    )
unfolding map_hat
map_hat_vector input = by_direction _ _ _ _
  where
    by_direction :
        (up down left right : Bool)
        → hat_vector (hat_of_directions (direction right left) (direction up down))
          ≡ (axis_of right left, axis_of up down)
    by_direction up down left right = ground arith

-- A mapped state holds down exactly the gamepad buttons whose Steam button is down (the right
-- stick also by a click on the right pad, where that pad is the right axis), and its hat points
-- where the D-pad does, opposite directions cancelling out.
pub map_discrete :
    (f : Float) (mapper : ControllerMapper (Float.F f)) (input : SteamControllerState)
    (dt : Float.F f) (target : Button)
    → (contains (map f mapper input dt).1.buttons target
        ≡ is_down (is_right_pad mapper.config.right_axis_source) input.buttons target)
      × (hat_vector (map f mapper input dt).1.hat ≡ (
        axis_of
            (steam_contains input.buttons SteamButton.dpad_right)
            (steam_contains input.buttons SteamButton.dpad_left),
        axis_of
            (steam_contains input.buttons SteamButton.dpad_up)
            (steam_contains input.buttons SteamButton.dpad_down),
      ))
map_discrete f mapper input dt target =
    let (buttons, hat) = map_keeps_discrete f mapper input dt in
    (
      rw buttons (map_unfiltered-is_down f mapper.config input target),
      rw hat (unfold map_unfiltered in map_hat_vector input.buttons),
    )
