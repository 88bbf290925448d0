-- ===== src/Mapper/Filters.antt =====
-- crates/controller/controller-mapper/src/lib.rs: the filters on a gamepad state.
use steam_controller_bridge.Common.{◌&&◌, ◌||◌, if◌then◌else◌, Option, none, some}
use steam_controller_bridge.Common.Int.{pos}
use steam_controller_bridge.Float.{Float, zero_f, one_f, minus_one_f, clamp}
use steam_controller_bridge.Gamepad.State.{GamepadState, neutral, sanitized}
use steam_controller_bridge.Mapper.Config.{AxisInversionFilter}

pub record LowPassFilter (F : Type 0) : Type 0 where
  pub time_constant : Option F
  pub previous : GamepadState F

module _ (f : Float) where
  unfoldable pub finite_or_zero : Float.F f → Float.F f
  finite_or_zero value = if f.is_finite value then value else zero_f f

  -- `finite_or_zero(dead_zone).clamp(0.0, 0.999_999)`
  unfoldable pub bounded_dead_zone : Float.F f → Float.F f
  bounded_dead_zone dead_zone =
      clamp f (finite_or_zero dead_zone) (zero_f f) (f.decimal (pos 999999) 6)

  unfoldable pub axis_dead_zone : Float.F f → Float.F f → Float.F f
  axis_dead_zone value dead_zone =
      let v = clamp f (finite_or_zero value) (minus_one_f f) (one_f f) in
      let z = bounded_dead_zone dead_zone in
      if f.le (f.abs v) z
      then zero_f f
      else f.mul (f.signum v) (f.div (f.sub (f.abs v) z) (f.sub (one_f f) z))

  unfoldable pub radial_dead_zone : Float.F f → Float.F f → Float.F f → Float.F f × Float.F f
  radial_dead_zone x y dead_zone =
      let x' = finite_or_zero x in
      let y' = finite_or_zero y in
      let magnitude = f.hypot x' y' in
      let z = bounded_dead_zone dead_zone in
      let scaled =
        clamp f (f.div (f.sub (f.min magnitude (one_f f)) z) (f.sub (one_f f) z)) (zero_f f)
          (one_f f) in
      if f.le magnitude z || f.eq magnitude (zero_f f)
      then (zero_f f, zero_f f)
      else (f.mul (f.div x' magnitude) scaled, f.mul (f.div y' magnitude) scaled)

  unfoldable pub trigger_dead_zone : Float.F f → Float.F f → Float.F f
  trigger_dead_zone value dead_zone =
      let v = clamp f (finite_or_zero value) (zero_f f) (one_f f) in
      let z = bounded_dead_zone dead_zone in
      if f.le v z then zero_f f else f.div (f.sub v z) (f.sub (one_f f) z)

  unfoldable pub signed_curve : Float.F f → Float.F f → Float.F f
  signed_curve value exponent =
      let v = clamp f (finite_or_zero value) (minus_one_f f) (one_f f) in
      let e = if f.is_finite exponent && f.lt (zero_f f) exponent then exponent else one_f f in
      f.mul (f.signum v) (f.powf (f.abs v) e)

  unfoldable pub saturate_signed : Float.F f → Float.F f → Float.F f
  saturate_signed value threshold =
      let t = clamp f (finite_or_zero threshold) f.epsilon (one_f f) in
      clamp f (f.div (finite_or_zero value) t) (minus_one_f f) (one_f f)

  unfoldable pub saturate_unsigned : Float.F f → Float.F f → Float.F f
  saturate_unsigned value threshold =
      let t = clamp f (finite_or_zero threshold) f.epsilon (one_f f) in
      clamp f (f.div (finite_or_zero value) t) (zero_f f) (one_f f)

  unfoldable pub lerp : Float.F f → Float.F f → Float.F f → Float.F f
  lerp previous current alpha =
      f.add previous (f.mul (f.sub current previous) (clamp f alpha (zero_f f) (one_f f)))

  -- `AxisDeadZoneFilter::apply`
  unfoldable pub apply_axis_dead_zone :
      Float.F f → GamepadState (Float.F f) → GamepadState (Float.F f)
  apply_axis_dead_zone dead_zone s = record s {
    left_x = axis_dead_zone s.left_x dead_zone;
    left_y = axis_dead_zone s.left_y dead_zone;
    right_x = axis_dead_zone s.right_x dead_zone;
    right_y = axis_dead_zone s.right_y dead_zone;
  }

  -- `AxisInversionFilter::apply`
  unfoldable pub apply_inversion :
      AxisInversionFilter → GamepadState (Float.F f) → GamepadState (Float.F f)
  apply_inversion inversion s = record s {
    left_x = if inversion.left_x then f.neg s.left_x else s.left_x;
    left_y = if inversion.left_y then f.neg s.left_y else s.left_y;
    right_x = if inversion.right_x then f.neg s.right_x else s.right_x;
    right_y = if inversion.right_y then f.neg s.right_y else s.right_y;
  }

  -- `RadialDeadZoneFilter::apply`, at its `left` and `right`
  unfoldable pub apply_radial :
      Float.F f → Float.F f → GamepadState (Float.F f) → GamepadState (Float.F f)
  apply_radial left right s = record s {
    left_x = (radial_dead_zone s.left_x s.left_y left).0;
    left_y = (radial_dead_zone s.left_x s.left_y left).1;
    right_x = (radial_dead_zone s.right_x s.right_y right).0;
    right_y = (radial_dead_zone s.right_x s.right_y right).1;
  }

  -- `TriggerDeadZoneFilter::apply`
  unfoldable pub apply_trigger_dead_zone :
      Float.F f → GamepadState (Float.F f) → GamepadState (Float.F f)
  apply_trigger_dead_zone dead_zone s = record s {
    left_trigger = trigger_dead_zone s.left_trigger dead_zone;
    right_trigger = trigger_dead_zone s.right_trigger dead_zone;
  }

  -- `SensitivityFilter::apply`
  unfoldable pub apply_sensitivity : Float.F f → GamepadState (Float.F f) → GamepadState (Float.F f)
  apply_sensitivity exponent s = record s {
    left_x = signed_curve s.left_x exponent;
    left_y = signed_curve s.left_y exponent;
    right_x = signed_curve s.right_x exponent;
    right_y = signed_curve s.right_y exponent;
  }

  -- `SaturationFilter::apply`, at its `sticks` and `triggers`
  unfoldable pub apply_saturation :
      Float.F f → Float.F f → GamepadState (Float.F f) → GamepadState (Float.F f)
  apply_saturation sticks triggers s = record s {
    left_x = saturate_signed s.left_x sticks;
    left_y = saturate_signed s.left_y sticks;
    right_x = saturate_signed s.right_x sticks;
    right_y = saturate_signed s.right_y sticks;
    left_trigger = saturate_unsigned s.left_trigger triggers;
    right_trigger = saturate_unsigned s.right_trigger triggers;
  }

  -- `LowPassFilter::new` and `reset`
  unfoldable pub new_low_pass : Option (Float.F f) → LowPassFilter (Float.F f)
  new_low_pass time_constant = record { time_constant = time_constant; previous = neutral f }

  unfoldable pub reset_low_pass : LowPassFilter (Float.F f) → LowPassFilter (Float.F f)
  reset_low_pass filter = record filter { previous = neutral f }

  unfoldable pub smooth :
      GamepadState (Float.F f) → Float.F f → GamepadState (Float.F f) → GamepadState (Float.F f)
  smooth previous alpha s = record s {
    left_x = lerp previous.left_x s.left_x alpha;
    left_y = lerp previous.left_y s.left_y alpha;
    right_x = lerp previous.right_x s.right_x alpha;
    right_y = lerp previous.right_y s.right_y alpha;
    left_trigger = lerp previous.left_trigger s.left_trigger alpha;
    right_trigger = lerp previous.right_trigger s.right_trigger alpha;
  }

  -- The state that `LowPassFilter::apply` leaves; the filter remembers that state.
  unfoldable pub low_pass_state :
      Option (Float.F f)
      → GamepadState (Float.F f)
      → Float.F f
      → GamepadState (Float.F f)
      → GamepadState (Float.F f)
  low_pass_state none previous delta_time s = s
  low_pass_state (some time_constant) previous delta_time s =
      smooth previous
        (if f.is_finite delta_time && f.lt (zero_f f) delta_time
          then f.sub (one_f f) (f.exp (f.div (f.neg delta_time) time_constant))
          else zero_f f)
        s

  unfoldable pub apply_low_pass :
      LowPassFilter (Float.F f)
      → Float.F f
      → GamepadState (Float.F f)
      → LowPassFilter (Float.F f) × GamepadState (Float.F f)
  apply_low_pass filter delta_time s =
      let s' = low_pass_state filter.time_constant filter.previous delta_time s in
      (record filter { previous = s' }, s')

  -- `ClampFilter::apply`
  unfoldable pub apply_clamp : GamepadState (Float.F f) → GamepadState (Float.F f)
  apply_clamp s = sanitized f s
