-- ===== src/Idle.antt =====
-- crates/bridge/bridge-runtime/src/idle_shutdown.rs: `IdleActivityTracker`.
pub mod Deadline
use steam_controller_bridge.Common.{
  ℕ, ◌-◌, Bool, true, false, not, ◌||◌, ◌==◌, if◌then◌else◌, leb, Option, none, some,
}
use steam_controller_bridge.Float.{Float, zero_f}
use steam_controller_bridge.Gamepad.State.{GamepadState}
use steam_controller_bridge.Steam.Report.{SteamControllerState}

-- Times are in nanoseconds.
pub record IdleActivityTracker : Type 0 where
  pub timeout : Option ℕ
  pub neutral_since : Option ℕ
  pub latest_neutral : Option Bool

unfoldable pub new_tracker : Option ℕ → IdleActivityTracker
new_tracker timeout = record { timeout = timeout; neutral_since = none; latest_neutral = none }

abbrev pub is_some_true : Option Bool → Bool
is_some_true (some true) = true
is_some_true _ = false

unfoldable pub reset_idle : ℕ → IdleActivityTracker → IdleActivityTracker
reset_idle now t = record t {
  neutral_since = if is_some_true t.latest_neutral then some now else none;
}

unfoldable pub set_timeout : Option ℕ → ℕ → IdleActivityTracker → IdleActivityTracker
unfolding reset_idle
set_timeout timeout now t = reset_idle now (record t { timeout = timeout })

unfoldable pub pause : IdleActivityTracker → IdleActivityTracker
pause t = record t { neutral_since = none; latest_neutral = none }

unfoldable pub meaningful_activity :
    (f : Float) → SteamControllerState → GamepadState (Float.F f) → Bool
meaningful_activity f source mapped =
    not (source.buttons == 0)
    || (not (f.eq mapped.left_x (zero_f f))
        || (not (f.eq mapped.left_y (zero_f f))
            || (not (f.eq mapped.right_x (zero_f f))
                || (not (f.eq mapped.right_y (zero_f f))
                    || (not (f.eq mapped.left_trigger (zero_f f))
                        || (not (f.eq mapped.right_trigger (zero_f f))
                            || (source.left_pad_touched
                                || (source.left_pad_pressed
                                    || (source.right_pad_touched
                                        || (source.right_pad_pressed
                                            || (source.left_grip_touched
                                                || source.right_grip_touched)))))))))))

-- `observe` behind the test for activity.
unfoldable pub observe_activity : ℕ → Bool → IdleActivityTracker → IdleActivityTracker
observe_activity now active t = record t {
  neutral_since =
      if active
      then none
      else if not (is_some_true t.latest_neutral)
      then some now
      else t.neutral_since;
  latest_neutral = some (not active);
}

unfoldable pub observe :
    (f : Float)
    → ℕ
    → SteamControllerState
    → GamepadState (Float.F f)
    → IdleActivityTracker
    → IdleActivityTracker × Bool
observe f now source mapped t = (
  observe_activity now (meaningful_activity f source mapped) t,
  meaningful_activity f source mapped,
)

unfoldable pub is_neutral : IdleActivityTracker → Bool
is_neutral t = is_some_true t.latest_neutral

-- `neutral_since.map(|since| now.saturating_sub(since))`
abbrev pub age_since : Option ℕ → ℕ → Option ℕ
age_since none now = none
age_since (some since) now = some (now - since)

unfoldable pub idle_age : IdleActivityTracker → ℕ → Option ℕ
idle_age t now = age_since t.neutral_since now

abbrev pub is_reached : Option ℕ → Option ℕ → Bool
is_reached none age = false
is_reached (some timeout) none = false
is_reached (some timeout) (some age) = leb timeout age

unfoldable pub deadline_reached : IdleActivityTracker → ℕ → Bool
unfolding idle_age
deadline_reached t now = is_reached t.timeout (idle_age t now)
