-- ===== src/Shutdown/Session.antt =====
-- crates/bridge/bridge-runtime/src/supervisor/active_session.rs and commands.rs: the automatic
-- shutdown in the loop of a session.
use steam_controller_bridge.Common.{
  ℕ, ◌-◌, Bool, false, not, ◌&&◌, ◌||◌, if◌then◌else◌, leb, List, [], ◌∷◌, Result, ok, err, Option,
  none, some,
}
use steam_controller_bridge.Idle.{
  IdleActivityTracker, new_tracker, reset_idle, set_timeout, observe_activity, is_neutral,
  deadline_reached,
}
use steam_controller_bridge.Shutdown.{
  PuckDockAction, ControllerChargeState, is_external_power, is_degraded, ShutdownTrigger,
  idle_timeout, puck_dock, is_dock, is_some_dock, is_puck, ShutdownConfig, automatic_shutdown_phase,
  TimeoutError, validate_idle_shutdown_timeout, AutomaticShutdownRuntime, source_selected,
  set_dock_action, observe_charge_state, activity_after_failed_dock_attempt, begin, succeeded,
  failed, shutdown_retry_due,
}
use steam_controller_bridge.Shutdown.Device.{HidDeviceInfo, controller_transport}

abbrev pub battery_status_freshness : ℕ
battery_status_freshness = 30000000000

-- The supervisor's runtime and configuration, and the variables of the session.
pub record Watch : Type 0 where
  pub automatic_shutdown : AutomaticShutdownRuntime
  pub config : ShutdownConfig
  pub info : HidDeviceInfo
  pub idle_activity : IdleActivityTracker
  pub latest_charge_state : Option ControllerChargeState
  pub last_charge_report : Option ℕ
  pub pending_automatic_shutdown : Option ShutdownTrigger

-- A session begins with a source.
unfoldable pub begin_session : HidDeviceInfo → Watch → Watch
unfolding source_selected
begin_session info x =
    let r = source_selected info x.config x.automatic_shutdown in
    record x {
      automatic_shutdown = record r { phase = automatic_shutdown_phase x.config; trigger = none };
      info = info;
      idle_activity = new_tracker x.config.idle_shutdown_timeout;
      latest_charge_state = none;
      last_charge_report = none;
      pending_automatic_shutdown = none;
    }

unfoldable pub change_action : PuckDockAction → Watch → Watch
unfolding set_dock_action
change_action action x =
    let config' = record x.config { puck_dock_action = action } in
    let r = set_dock_action action x.config x.automatic_shutdown in
    record x {
      automatic_shutdown = record r { phase = automatic_shutdown_phase config' };
      config = config';
    }

unfoldable pub timeout_changed : Option ℕ → ℕ → Watch → Result TimeoutError (Unit {0}) → Watch
timeout_changed timeout elapsed x (err _) = x
timeout_changed timeout elapsed x (ok _) =
    let config' = record x.config { idle_shutdown_timeout = timeout } in
    record x {
      automatic_shutdown = record x.automatic_shutdown { phase = automatic_shutdown_phase config' };
      config = config';
      idle_activity = set_timeout timeout elapsed x.idle_activity;
    }

unfoldable pub change_timeout : Option ℕ → ℕ → Watch → Watch
unfolding timeout_changed
change_timeout timeout elapsed x =
    timeout_changed timeout elapsed x (validate_idle_shutdown_timeout timeout)

abbrev was_on_battery : Option ControllerChargeState → Bool
was_on_battery none = false
was_on_battery (some previous) = not (is_external_power previous)

-- A report of the battery. The clock is read once.
unfoldable pub note_battery : ControllerChargeState → ℕ → ℕ → Watch → Watch
unfolding observe_charge_state
note_battery charge_state now elapsed x =
    let (r, dock_event) =
      observe_charge_state x.info charge_state x.config.puck_dock_action x.automatic_shutdown in
    record x {
      automatic_shutdown = r;
      idle_activity =
          if was_on_battery x.latest_charge_state && is_external_power charge_state
          then reset_idle elapsed x.idle_activity
          else x.idle_activity;
      latest_charge_state = some charge_state;
      last_charge_report = some now;
      pending_automatic_shutdown =
          if dock_event && shutdown_retry_due r now
          then some puck_dock
          else x.pending_automatic_shutdown;
    }

-- A report of the controls, with activity or without.
unfoldable pub note_state : Bool → ℕ → ℕ → Watch → Watch
unfolding activity_after_failed_dock_attempt
note_state active now elapsed x = record x {
  automatic_shutdown =
      if active
      then activity_after_failed_dock_attempt now x.automatic_shutdown
      else x.automatic_shutdown;
  idle_activity = observe_activity elapsed active x.idle_activity;
}

abbrev is_external : Option ControllerChargeState → Bool
is_external none = false
is_external (some charge_state) = is_external_power charge_state

abbrev is_fresh : Option ℕ → ℕ → Bool
is_fresh none now = false
is_fresh (some reported) now = leb (now - reported) battery_status_freshness

unfoldable pub dock_retry_due : Watch → ℕ → Bool
dock_retry_due x now =
    is_some_dock x.automatic_shutdown.trigger
    && (is_degraded x.automatic_shutdown.phase
        && (not x.automatic_shutdown.dock_episode_handled
            && (shutdown_retry_due x.automatic_shutdown now
                && (is_puck (controller_transport x.info)
                    && (is_external x.latest_charge_state && is_fresh x.last_charge_report now)))))

unfoldable pub idle_shutdown_due : Watch → ℕ → ℕ → Bool
idle_shutdown_due x now elapsed =
    deadline_reached x.idle_activity elapsed
    && (is_neutral x.idle_activity && shutdown_retry_due x.automatic_shutdown now)

unfoldable pub first_trigger :
    Option ShutdownTrigger → (dock_retry idle_shutdown : Bool) → Option ShutdownTrigger
first_trigger (some trigger) dock_retry idle_shutdown = some trigger
first_trigger none dock_retry idle_shutdown =
    if dock_retry then some puck_dock else if idle_shutdown then some idle_timeout else none

unfoldable pub automatic_trigger : Watch → ℕ → ℕ → Option ShutdownTrigger
unfolding dock_retry_due idle_shutdown_due first_trigger
automatic_trigger x now elapsed =
    first_trigger x.pending_automatic_shutdown (dock_retry_due x now)
      (idle_shutdown_due x now elapsed)

-- How the engine's neutral state and then the power-off end.
pub data PowerOff : Type 0 where
  powered_off power_off_failed output_lost : PowerOff

-- What the supervisor keeps after an attempt.
unfoldable pub attempted :
    PowerOff → ℕ → ShutdownTrigger → AutomaticShutdownRuntime → AutomaticShutdownRuntime
unfolding begin succeeded failed
attempted powered_off after trigger r = succeeded after trigger (begin trigger r)
attempted power_off_failed after trigger r = failed after trigger (begin trigger r)
attempted output_lost after trigger r = begin trigger r

abbrev pub keep_runtime : AutomaticShutdownRuntime → Watch → Watch
keep_runtime r x = record x { automatic_shutdown = r; pending_automatic_shutdown = none }

-- An attempt, where the output is live and, for an idle one, the controls are at rest still.
unfoldable pub attempt :
    Option ShutdownTrigger → Bool → PowerOff → ℕ → Watch → Watch × Option ShutdownTrigger
unfolding attempted
attempt none live power after x = (keep_runtime x.automatic_shutdown x, none)
attempt (some trigger) live power after x =
    if live && (is_dock trigger || is_neutral x.idle_activity)
    then (keep_runtime (attempted power after trigger x.automatic_shutdown) x, some trigger)
    else (keep_runtime x.automatic_shutdown x, none)

-- The part of a round that shuts down; `after` is the time behind it. It answers the trigger of the attempt
-- that it has begun, if any; the code ends the session after a success and a lost output.
unfoldable pub shutdown_round : Bool → PowerOff → ℕ → ℕ → ℕ → Watch → Watch × Option ShutdownTrigger
unfolding automatic_trigger attempt
shutdown_round live power now elapsed after x =
    attempt (automatic_trigger x now elapsed) live power after x

pub data WatchCall : Type 0 where
  call_session : HidDeviceInfo → WatchCall
  call_action : PuckDockAction → WatchCall
  call_timeout : Option ℕ → (elapsed : ℕ) → WatchCall
  call_battery : ControllerChargeState → (now elapsed : ℕ) → WatchCall
  call_state : (active : Bool) → (now elapsed : ℕ) → WatchCall
  call_round : (live : Bool) → PowerOff → (now elapsed after : ℕ) → WatchCall

unfoldable pub call : WatchCall → Watch → Watch × Option ShutdownTrigger
call (call_session info) x = (begin_session info x, none)
call (call_action action) x = (change_action action x, none)
call (call_timeout timeout elapsed) x = (change_timeout timeout elapsed x, none)
call (call_battery charge_state now elapsed) x = (note_battery charge_state now elapsed x, none)
call (call_state active now elapsed) x = (note_state active now elapsed x, none)
call (call_round live power now elapsed after) x = shutdown_round live power now elapsed after x

-- The triggers of the attempts that the calls begin.
unfoldable pub begun : List WatchCall → Watch → List (Option ShutdownTrigger)
begun [] x = []
begun (c ∷ cs) x = let (x', trigger) = call c x in trigger ∷ begun cs x'
