-- ===== src/Gamepad/State.antt =====
-- crates/bridge/gamepad-state/src/lib.rs: `GamepadState`, its checks and `OutputSuppression`.
pub mod Laws
use steam_controller_bridge.Common.{
  ℕ, ◌-◌, ◌^◌, Bool, not, ◌&&◌, if◌then◌else◌, bit_and, Result, ok, err, ◌>>=◌, ◌>>◌, Option,
}
use steam_controller_bridge.Float.{Float, zero_f, one_f, minus_one_f, clamp}
use steam_controller_bridge.Gamepad.Buttons.{GamepadButtons}
use steam_controller_bridge.Gamepad.Hat.{HatState, centered}

-- Over the type of its axis values.
pub record GamepadState (F : Type 0) : Type 0 where
  pub buttons : GamepadButtons
  pub hat : HatState
  pub left_x : F
  pub left_y : F
  pub right_x : F
  pub right_y : F
  pub left_trigger : F
  pub right_trigger : F

-- The names of the axes, which the errors carry.
pub data Axis : Type 0 where
  left_x left_y right_x right_y left_trigger right_trigger : Axis

pub data InvalidState : Type 0 where
  non_finite : Axis → InvalidState
  out_of_range : Axis → InvalidState

pub data OutputSuppression : Type 0 where
  neutral_suppression : OutputSuppression
  buttons_suppression : GamepadButtons → OutputSuppression

module _ (f : Float) where
  unfoldable pub neutral : GamepadState (Float.F f)
  neutral = record {
    buttons = 0;
    hat = centered;
    left_x = zero_f f;
    left_y = zero_f f;
    right_x = zero_f f;
    right_y = zero_f f;
    left_trigger = zero_f f;
    right_trigger = zero_f f;
  }

  unfoldable pub sanitize : Float.F f → Float.F f → Float.F f → Float.F f
  sanitize value lo hi = if f.is_finite value then clamp f value lo hi else zero_f f

  unfoldable pub sanitized : GamepadState (Float.F f) → GamepadState (Float.F f)
  sanitized s = record s {
    left_x = sanitize s.left_x (minus_one_f f) (one_f f);
    left_y = sanitize s.left_y (minus_one_f f) (one_f f);
    right_x = sanitize s.right_x (minus_one_f f) (one_f f);
    right_y = sanitize s.right_y (minus_one_f f) (one_f f);
    left_trigger = sanitize s.left_trigger (zero_f f) (one_f f);
    right_trigger = sanitize s.right_trigger (zero_f f) (one_f f);
  }

  -- `(min..=max).contains(&value)`
  unfoldable pub validate_axis :
      Axis → Float.F f → Float.F f → Float.F f → Result InvalidState (Unit {0})
  validate_axis name value lo hi =
      if not (f.is_finite value)
      then err (non_finite name)
      else if not (f.le lo value && f.le value hi)
      then err (out_of_range name)
      else ok tt

  unfoldable pub validate : GamepadState (Float.F f) → Result InvalidState (Unit {0})
  validate s = do
    validate_axis left_x s.left_x (minus_one_f f) (one_f f)
    validate_axis left_y s.left_y (minus_one_f f) (one_f f)
    validate_axis right_x s.right_x (minus_one_f f) (one_f f)
    validate_axis right_y s.right_y (minus_one_f f) (one_f f)
    validate_axis left_trigger s.left_trigger (zero_f f) (one_f f)
    validate_axis right_trigger s.right_trigger (zero_f f) (one_f f)

  -- `state.buttons.0 &= !buttons.0`
  unfoldable pub apply_suppression :
      OutputSuppression → GamepadState (Float.F f) → GamepadState (Float.F f)
  apply_suppression neutral_suppression state = neutral
  apply_suppression (buttons_suppression withheld) state = record state {
    buttons = bit_and state.buttons (2 ^ 32 - 1 - withheld);
  }
