-- ===== src/Examples/Idle.antt =====
-- crates/bridge/bridge-runtime/src/idle_shutdown.rs: the theorems at a concrete tracker.
use steam_controller_bridge.Common.{◌≡◌, ◌-◌, ◌≤◌, refl, true, false, arith, List, [], ◌∷◌, some}
use steam_controller_bridge.Float.Fixed.{fixed}
use steam_controller_bridge.Gamepad.State.{neutral}
use steam_controller_bridge.Steam.Decode.{decode_state}
use steam_controller_bridge.Steam.Report.{SteamControllerState}
use steam_controller_bridge.Idle.{
  IdleActivityTracker, new_tracker, deadline_reached, meaningful_activity, is_neutral, observe,
  observe_activity, idle_age,
}
use steam_controller_bridge.Idle.Deadline.{
  IdleCall, call_observe, call, calls, deadline_reached-calls, calls-deadline_reached,
}

abbrev rest : SteamControllerState
rest = record (decode_state []) {
  buttons = 0;
  left_pad_touched = false;
  left_pad_pressed = false;
  right_pad_touched = false;
  right_pad_pressed = false;
  left_grip_touched = false;
  right_grip_touched = false;
}

abbrev press : SteamControllerState
press = record rest { buttons = 1 }

abbrev tracker : IdleActivityTracker
tracker = new_tracker (some 60)

abbrev quiet_calls : List (IdleCall fixed)
quiet_calls = call_observe 20 rest (neutral fixed) ∷ call_observe 30 rest (neutral fixed) ∷ []

deadline_reached-calls_example : 60 ≤ 80 - 10
unfolding meaningful_activity calls call observe observe_activity new_tracker deadline_reached
    idle_age neutral
deadline_reached-calls_example =
    deadline_reached-calls fixed tracker 10 press (neutral fixed) quiet_calls 80 60 refl
      (omega arith, (omega arith, tt)) refl refl

calls-deadline_reached_example :
    deadline_reached
      (calls fixed (call fixed tracker (call_observe 10 rest (neutral fixed))) quiet_calls)
      70
    ≡ true
unfolding meaningful_activity new_tracker is_neutral neutral
calls-deadline_reached_example =
    calls-deadline_reached fixed tracker 10 rest (neutral fixed) quiet_calls 70 60 refl refl refl
      (refl, (refl, tt)) (omega arith)
