-- ===== src/Gamepad/State/Laws.antt =====
-- crates/bridge/gamepad-state/src/lib.rs: sanitising, validation and suppression.
use steam_controller_bridge.Common.{ℕ, ◌-◌, ◌^◌, ◌<◌, true, not, ◌&&◌, ◌≡◌, refl, arith, ok}
use steam_controller_bridge.Common.Bits.{bit-bit_and, bit-not, bit-lt, has_bit-bit}
use steam_controller_bridge.Float.{Float, FloatLaws, zero_f, one_f, minus_one_f}
use steam_controller_bridge.Gamepad.Buttons.{Button, button_index, contains}
use steam_controller_bridge.Gamepad.Buttons.Laws.{button_index-lt}
use steam_controller_bridge.Gamepad.State.{
  GamepadState, Axis, sanitize, sanitized, validate_axis, validate, buttons_suppression,
  apply_suppression,
}

module _ (f : Float) (laws : FloatLaws f) where
  open laws use {
    le_of_not_lt, le_refl, zero_finite, one_finite, minus_one_finite, minus_one_le_zero,
    minus_one_le_one, zero_le_one,
  }

  -- Bounds that are finite, in order and around 0 make every sanitised value valid.
  validate_axis-sanitize :
      (name : Axis) (v lo hi : Float.F f)
      → f.is_finite lo ≡ true
      → f.is_finite hi ≡ true
      → f.le lo hi ≡ true
      → f.le lo (zero_f f) ≡ true
      → f.le (zero_f f) hi ≡ true
      → validate_axis f name (sanitize f v lo hi) lo hi ≡ ok tt
  unfolding validate_axis sanitize
  validate_axis-sanitize name v lo hi p q r s t =
      ground (arith, le_of_not_lt v lo, le_of_not_lt hi v, le_refl lo p, le_refl hi q, zero_finite)

  stick_valid :
      (name : Axis) (v : Float.F f)
      → validate_axis f name (sanitize f v (minus_one_f f) (one_f f)) (minus_one_f f) (one_f f)
        ≡ ok tt
  stick_valid name v =
      validate_axis-sanitize name v _ _ minus_one_finite one_finite minus_one_le_one
        minus_one_le_zero zero_le_one

  trigger_valid :
      (name : Axis) (v : Float.F f)
      → validate_axis f name (sanitize f v (zero_f f) (one_f f)) (zero_f f) (one_f f) ≡ ok tt
  trigger_valid name v =
      validate_axis-sanitize name v _ _ zero_finite one_finite zero_le_one (le_refl _ zero_finite)
        zero_le_one

  -- Under the order laws of finite floats, every sanitised state passes validation, whatever its
  -- axes held before, and keeps its buttons and its hat.
  pub validate-sanitized :
      (s : GamepadState (Float.F f))
      → (validate f (sanitized f s) ≡ ok tt)
        × ((sanitized f s).buttons ≡ s.buttons)
        × ((sanitized f s).hat ≡ s.hat)
  unfolding validate sanitized
  validate-sanitized s = (simp (stick_valid, trigger_valid), refl, refl)

-- For a mask below 2 ^ 32, the suppressed state holds down exactly the buttons that the state held
-- down and that are not in the mask.
pub contains-apply_suppression :
    (f : Float) (withheld : ℕ) (s : GamepadState (Float.F f)) (b : Button)
    → withheld < 2 ^ 32
    → contains (apply_suppression f (buttons_suppression withheld) s).buttons b
      ≡ (contains s.buttons b && not (contains withheld b))
unfolding contains apply_suppression
contains-apply_suppression f withheld s b h =
    rw
      (
        has_bit-bit _ (button_index b),
        has_bit-bit s.buttons (button_index b),
        has_bit-bit withheld (button_index b),
      )
      (ground (
        arith,
        bit-bit_and (button_index b) s.buttons (2 ^ 32 - 1 - withheld),
        bit-not 32 (button_index b) withheld (omega (arith, button_index-lt b)) h,
        bit-lt (button_index b) s.buttons,
        bit-lt (button_index b) withheld,
      ))
