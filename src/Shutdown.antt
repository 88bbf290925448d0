-- ===== src/Shutdown.antt =====
-- crates/bridge/bridge-runtime/src/automatic_shutdown.rs: when the controller is powered off by
-- itself. Times are nanoseconds.
pub mod Device
pub mod Session
pub mod Once
pub mod Retry
use steam_controller_bridge.Common.{
  ℕ, ◌+◌, ◌-◌, ◌^◌, ◌%◌, Bool, true, false, not, ◌&&◌, if◌then◌else◌, ◌==◌, ltb, leb, Result, ok,
  err, Option, none, some,
}
use steam_controller_bridge.Shutdown.Device.{
  HidDeviceInfo, ControllerTransport, puck, bluetooth, controller_transport,
  same_controller_collection,
}

pub data PuckDockAction : Type 0 where
  leave_on power_off : PuckDockAction

abbrev pub same_action : PuckDockAction → PuckDockAction → Bool
same_action leave_on leave_on = true
same_action power_off power_off = true
same_action _ _ = false

pub data ControllerChargeState : Type 0 where
  discharging charging charged : ControllerChargeState
  unknown : ℕ → ControllerChargeState

unfoldable pub charge_from_raw : ℕ → ControllerChargeState
charge_from_raw value =
    if value == 1
    then discharging
    else if value == 2
    then charging
    else if value == 4
    then charged
    else unknown value

abbrev pub is_discharging : ControllerChargeState → Bool
is_discharging discharging = true
is_discharging _ = false

unfoldable pub is_external_power : ControllerChargeState → Bool
is_external_power charging = true
is_external_power charged = true
is_external_power _ = false

pub data AutomaticShutdownPhase : Type 0 where
  disabled monitoring powering_off sleeping degraded : AutomaticShutdownPhase

abbrev pub is_degraded : AutomaticShutdownPhase → Bool
is_degraded degraded = true
is_degraded _ = false

pub data ShutdownTrigger : Type 0 where
  idle_timeout puck_dock : ShutdownTrigger

abbrev pub is_dock : ShutdownTrigger → Bool
is_dock puck_dock = true
is_dock idle_timeout = false

abbrev pub is_some_dock : Option ShutdownTrigger → Bool
is_some_dock (some puck_dock) = true
is_some_dock _ = false

abbrev pub is_puck : Option ControllerTransport → Bool
is_puck (some puck) = true
is_puck _ = false

-- The part of `RuntimeConfig` that the shutdown reads.
pub record ShutdownConfig : Type 0 where
  pub idle_shutdown_timeout : Option ℕ
  pub puck_dock_action : PuckDockAction

unfoldable pub automatic_shutdown_phase : ShutdownConfig → AutomaticShutdownPhase
automatic_shutdown_phase config = elim config.idle_shutdown_timeout [
  | some _ ↦ monitoring
  | none ↦ if same_action config.puck_dock_action leave_on then disabled else monitoring
]

abbrev pub automatic_shutdown_retry_interval : ℕ
automatic_shutdown_retry_interval = 30000000000

abbrev pub min_idle_shutdown_timeout : ℕ
min_idle_shutdown_timeout = 60000000000

abbrev pub max_idle_shutdown_timeout : ℕ
max_idle_shutdown_timeout = 86400000000000

pub data TimeoutError : Type 0 where
  too_short too_long : TimeoutError

unfoldable pub validate_idle_shutdown_timeout : Option ℕ → Result TimeoutError (Unit {0})
validate_idle_shutdown_timeout none = ok tt
validate_idle_shutdown_timeout (some timeout) =
    if ltb timeout min_idle_shutdown_timeout
    then err too_short
    else if ltb max_idle_shutdown_timeout timeout
    then err too_long
    else ok tt

pub record AutomaticShutdownRuntime : Type 0 where
  pub phase : AutomaticShutdownPhase
  pub trigger : Option ShutdownTrigger
  pub successful_shutdowns : ℕ
  pub failures : ℕ
  pub last_success : Option ℕ
  pub retry_after : Option ℕ
  pub dock_identity : Option HidDeviceInfo
  pub dock_episode_handled : Bool
  pub dock_failure_at : Option ℕ

unfoldable pub new_shutdown : ShutdownConfig → AutomaticShutdownRuntime
new_shutdown config = record {
  phase = automatic_shutdown_phase config;
  trigger = none;
  successful_shutdowns = 0;
  failures = 0;
  last_success = none;
  retry_after = none;
  dock_identity = none;
  dock_episode_handled = false;
  dock_failure_at = none;
}

unfoldable pub clear_dock_episode : AutomaticShutdownRuntime → AutomaticShutdownRuntime
clear_dock_episode r = record r { dock_episode_handled = false; dock_failure_at = none }

-- `is_some_and(|identity| !same_controller_collection(identity, info))`
abbrev pub is_replaced : Option HidDeviceInfo → HidDeviceInfo → Bool
is_replaced none info = false
is_replaced (some identity) info = not (same_controller_collection identity info)

unfoldable pub source_selected :
    HidDeviceInfo → ShutdownConfig → AutomaticShutdownRuntime → AutomaticShutdownRuntime
unfolding clear_dock_episode
source_selected info config r =
    let r' = if is_replaced r.dock_identity info then clear_dock_episode r else r in
    record r' {
      dock_identity = some info;
      phase = automatic_shutdown_phase config;
      trigger = none;
      retry_after = none;
      dock_failure_at = none;
    }

unfoldable pub set_dock_action :
    PuckDockAction → ShutdownConfig → AutomaticShutdownRuntime → AutomaticShutdownRuntime
unfolding clear_dock_episode
set_dock_action action config r =
    if not (same_action action config.puck_dock_action) then clear_dock_episode r else r

unfoldable pub observe_charge_state :
    HidDeviceInfo
    → ControllerChargeState
    → PuckDockAction
    → AutomaticShutdownRuntime
    → AutomaticShutdownRuntime × Bool
unfolding clear_dock_episode
observe_charge_state info charge_state action r =
    if is_discharging charge_state then (clear_dock_episode r, false) else (
      r,
      same_action action power_off
          && (is_puck (controller_transport info)
              && (is_external_power charge_state && not r.dock_episode_handled)),
    )

abbrev pub is_after : Option ℕ → ℕ → Bool
is_after none now = false
is_after (some failure) now = ltb failure now

unfoldable pub activity_after_failed_dock_attempt :
    ℕ → AutomaticShutdownRuntime → AutomaticShutdownRuntime
activity_after_failed_dock_attempt now r =
    if is_some_dock r.trigger && (is_after r.dock_failure_at now && not r.dock_episode_handled)
    then record r { dock_episode_handled = true; retry_after = none }
    else r

unfoldable pub begin : ShutdownTrigger → AutomaticShutdownRuntime → AutomaticShutdownRuntime
begin trigger r = record r { phase = powering_off; trigger = some trigger }

unfoldable pub succeeded : ℕ → ShutdownTrigger → AutomaticShutdownRuntime → AutomaticShutdownRuntime
succeeded now trigger r = record r {
  phase = sleeping;
  trigger = some trigger;
  successful_shutdowns = (r.successful_shutdowns + 1) % 2 ^ 64;
  last_success = some now;
  retry_after = none;
  dock_failure_at = none;
  dock_episode_handled = if is_dock trigger then true else r.dock_episode_handled;
}

unfoldable pub failed : ℕ → ShutdownTrigger → AutomaticShutdownRuntime → AutomaticShutdownRuntime
failed now trigger r = record r {
  phase = degraded;
  trigger = some trigger;
  failures = (r.failures + 1) % 2 ^ 64;
  retry_after = some (now + automatic_shutdown_retry_interval);
  dock_failure_at = if is_dock trigger then some now else none;
}

-- `is_none_or(|deadline| now >= deadline)`
abbrev pub is_due : Option ℕ → ℕ → Bool
is_due none now = true
is_due (some deadline) now = leb deadline now

unfoldable pub shutdown_retry_due : AutomaticShutdownRuntime → ℕ → Bool
shutdown_retry_due r now = is_due r.retry_after now

pub record AutomaticShutdownStatus : Type 0 where
  pub configured_timeout : Option ℕ
  pub puck_dock_action : PuckDockAction
  pub puck_dock_episode_handled : Bool
  pub neutral_idle_age : Option ℕ
  pub phase : AutomaticShutdownPhase
  pub trigger : Option ShutdownTrigger
  pub successful_shutdowns : ℕ
  pub failures : ℕ
  pub last_successful_shutdown_age : Option ℕ
  pub retry_after : Option ℕ

abbrev time_since : ℕ → Option ℕ → Option ℕ
time_since now none = none
time_since now (some last) = some (now - last)

abbrev time_until : ℕ → Option ℕ → Option ℕ
time_until now none = none
time_until now (some retry) = some (retry - now)

unfoldable pub shutdown_status :
    ShutdownConfig → Option ℕ → ℕ → AutomaticShutdownRuntime → AutomaticShutdownStatus
shutdown_status config idle_age now r = record {
  configured_timeout = config.idle_shutdown_timeout;
  puck_dock_action = config.puck_dock_action;
  puck_dock_episode_handled = r.dock_episode_handled;
  neutral_idle_age = idle_age;
  phase = r.phase;
  trigger = r.trigger;
  successful_shutdowns = r.successful_shutdowns;
  failures = r.failures;
  last_successful_shutdown_age = time_since now r.last_success;
  retry_after = time_until now r.retry_after;
}
