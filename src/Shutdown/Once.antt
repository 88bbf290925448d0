-- ===== src/Shutdown/Once.antt =====
-- crates/bridge/bridge-runtime/src/supervisor/active_session.rs: a docked controller is powered off
-- once.
use steam_controller_bridge.Common.{
  ℕ, ◌≡◌, refl, and_false, Bool, true, false, ◌&&◌, ◌||◌, if-ind, List, [], ◌∷◌, Result, ok, err,
  Option, none, some,
}
use steam_controller_bridge.Idle.{is_neutral}
use steam_controller_bridge.Shutdown.{
  PuckDockAction, ControllerChargeState, is_discharging, ShutdownTrigger, idle_timeout, puck_dock,
  is_dock, is_some_dock, same_action, AutomaticShutdownRuntime, is_replaced, source_selected,
  set_dock_action, observe_charge_state, activity_after_failed_dock_attempt, begin, succeeded,
  failed, TimeoutError, validate_idle_shutdown_timeout,
}
use steam_controller_bridge.Shutdown.Device.{HidDeviceInfo}
use steam_controller_bridge.Shutdown.Session.{
  Watch, begin_session, change_action, change_timeout, timeout_changed, note_battery, note_state,
  dock_retry_due, idle_shutdown_due, first_trigger, automatic_trigger, PowerOff, powered_off,
  power_off_failed, output_lost, attempted, attempt, shutdown_round, WatchCall, call_session,
  call_action, call_timeout, call_battery, call_state, call_round, call, begun,
}

-- A call that does not end the dock episode: the controller is not off its dock, no other one is
-- selected, and the action stays.
abbrev pub IsQuiet : WatchCall → Watch → Type 0
IsQuiet (call_session info) x = is_replaced x.automatic_shutdown.dock_identity info ≡ false
IsQuiet (call_action action) x = same_action action x.config.puck_dock_action ≡ true
IsQuiet (call_battery charge_state now elapsed) x = is_discharging charge_state ≡ false
IsQuiet _ x = Unit

unfoldable pub AreQuiet : List WatchCall → Watch → Type 0
AreQuiet [] x = Unit
AreQuiet (c ∷ cs) x = IsQuiet c x × AreQuiet cs (call c x).0

unfoldable pub HasNoDock : List (Option ShutdownTrigger) → Type 0
HasNoDock [] = Unit
HasNoDock (t ∷ ts) = (is_some_dock t ≡ false) × HasNoDock ts

abbrev IsHandled : Watch → Type 0
IsHandled x =
    (x.automatic_shutdown.dock_episode_handled ≡ true)
    × (is_some_dock x.pending_automatic_shutdown ≡ false)

abbrev IsKept : Watch × Option ShutdownTrigger → Type 0
IsKept y = IsHandled y.0 × (is_some_dock y.1 ≡ false)

abbrev pub Handled : AutomaticShutdownRuntime → Type 0
Handled r = r.dock_episode_handled ≡ true

begin_session-IsHandled :
    (info : HidDeviceInfo) (x : Watch)
    → IsHandled x
    → is_replaced x.automatic_shutdown.dock_identity info ≡ false
    → IsHandled (begin_session info x)
unfolding begin_session source_selected
begin_session-IsHandled info x (h, p) q = (rw q h, refl)

change_action-IsHandled :
    (action : PuckDockAction) (x : Watch)
    → IsHandled x
    → same_action action x.config.puck_dock_action ≡ true
    → IsHandled (change_action action x)
unfolding change_action set_dock_action
change_action-IsHandled action x (h, p) q = (rw q h, p)

timeout_changed-IsHandled :
    (timeout : Option ℕ) (elapsed : ℕ) (x : Watch) (v : Result TimeoutError (Unit {0}))
    → IsHandled x
    → IsHandled (timeout_changed timeout elapsed x v)
unfolding timeout_changed
timeout_changed-IsHandled timeout elapsed x (ok _) k = k
timeout_changed-IsHandled timeout elapsed x (err _) k = k

pub observe_charge_state-Handled :
    (info : HidDeviceInfo) (charge_state : ControllerChargeState) (action : PuckDockAction)
    (r : AutomaticShutdownRuntime)
    → Handled r
    → is_discharging charge_state ≡ false
    → observe_charge_state info charge_state action r ≡ (r, false)
unfolding observe_charge_state
observe_charge_state-Handled info charge_state action r h q = rw (q, h) (simp and_false)

note_battery-IsHandled :
    (charge_state : ControllerChargeState) (now elapsed : ℕ) (x : Watch)
    → IsHandled x
    → is_discharging charge_state ≡ false
    → IsHandled (note_battery charge_state now elapsed x)
unfolding note_battery
note_battery-IsHandled charge_state now elapsed x (h, p) q =
    rw
      (observe_charge_state-Handled x.info charge_state x.config.puck_dock_action
        x.automatic_shutdown h q)
      (h, p)

note_state-IsHandled :
    (active : Bool) (now elapsed : ℕ) (x : Watch)
    → IsHandled x
    → IsHandled (note_state active now elapsed x)
unfolding note_state activity_after_failed_dock_attempt
note_state-IsHandled active now elapsed x (h, p) =
    (if-ind (λ r. Handled r) active (if-ind (λ r. Handled r) _ refl h) h, p)

first_trigger-HasNoDock :
    (pending : Option ShutdownTrigger) (dock_retry idle_shutdown : Bool)
    → is_some_dock pending ≡ false
    → dock_retry ≡ false
    → is_some_dock (first_trigger pending dock_retry idle_shutdown) ≡ false
unfolding first_trigger
first_trigger-HasNoDock (some trigger) dock_retry idle_shutdown p d = p
first_trigger-HasNoDock none true idle_shutdown p d = cc
first_trigger-HasNoDock none false true p d = refl
first_trigger-HasNoDock none false false p d = refl

pub dock_retry_due-Handled :
    (x : Watch) (now : ℕ) → Handled x.automatic_shutdown → dock_retry_due x now ≡ false
unfolding dock_retry_due
dock_retry_due-Handled x now h = rw h (simp and_false)

-- No trigger of a round is that of the dock.
pub automatic_trigger-HasNoDock :
    (x : Watch) (now elapsed : ℕ)
    → IsHandled x
    → is_some_dock (automatic_trigger x now elapsed) ≡ false
unfolding automatic_trigger
automatic_trigger-HasNoDock x now elapsed (h, p) =
    first_trigger-HasNoDock x.pending_automatic_shutdown (dock_retry_due x now)
      (idle_shutdown_due x now elapsed) p (dock_retry_due-Handled x now h)

pub attempted-Handled :
    (power : PowerOff) (after : ℕ) (trigger : ShutdownTrigger) (r : AutomaticShutdownRuntime)
    → Handled r
    → Handled (attempted power after trigger r)
unfolding attempted begin succeeded failed
attempted-Handled powered_off after idle_timeout r h = h
attempted-Handled powered_off after puck_dock r h = refl
attempted-Handled power_off_failed after trigger r h = h
attempted-Handled output_lost after trigger r h = h

attempt-IsKept :
    (trigger : Option ShutdownTrigger) (live : Bool) (power : PowerOff) (after : ℕ) (x : Watch)
    → IsHandled x
    → is_some_dock trigger ≡ false
    → IsKept (attempt trigger live power after x)
unfolding attempt
attempt-IsKept none live power after x (h, p) q = ((h, refl), refl)
attempt-IsKept (some trigger) live power after x (h, p) q =
    if-ind IsKept (live && (is_dock trigger || is_neutral x.idle_activity))
      ((attempted-Handled power after trigger x.automatic_shutdown h, refl), q) ((h, refl), refl)

call-IsKept : (c : WatchCall) (x : Watch) → IsHandled x → IsQuiet c x → IsKept (call c x)
unfolding call shutdown_round change_timeout
call-IsKept (call_session info) x k q = (begin_session-IsHandled info x k q, refl)
call-IsKept (call_action action) x k q = (change_action-IsHandled action x k q, refl)
call-IsKept (call_timeout timeout elapsed) x k q =
    (timeout_changed-IsHandled timeout elapsed x (validate_idle_shutdown_timeout timeout) k, refl)
call-IsKept (call_battery charge_state now elapsed) x k q =
    (note_battery-IsHandled charge_state now elapsed x k q, refl)
call-IsKept (call_state active now elapsed) x k q =
    (note_state-IsHandled active now elapsed x k, refl)
call-IsKept (call_round live power now elapsed after) x k q =
    attempt-IsKept (automatic_trigger x now elapsed) live power after x k
      (automatic_trigger-HasNoDock x now elapsed k)

begun-HasNoDock :
    (cs : List WatchCall) (x : Watch) → IsHandled x → AreQuiet cs x → HasNoDock (begun cs x)
unfolding begun AreQuiet HasNoDock
begun-HasNoDock [] x k q = tt
begun-HasNoDock (c ∷ cs) x k (q, qs) =
    let (k', t) = call-IsKept c x k q in (t, begun-HasNoDock cs (call c x).0 k' qs)

abbrev IsDone : Watch × Option ShutdownTrigger → Type 0
IsDone y = y.1 ≡ some puck_dock → IsHandled y.0

-- An attempt for the dock that powers the controller off handles the episode.
attempt-IsDone :
    (trigger : Option ShutdownTrigger) (live : Bool) (after : ℕ) (x : Watch)
    → IsDone (attempt trigger live powered_off after x)
unfolding attempt attempted succeeded
attempt-IsDone none live after x = λ e. cc
attempt-IsDone (some puck_dock) live after x =
    if-ind IsDone (live && (is_dock puck_dock || is_neutral x.idle_activity)) (λ e. (refl, refl))
      (λ e. cc)
attempt-IsDone (some idle_timeout) live after x =
    if-ind IsDone (live && (is_dock idle_timeout || is_neutral x.idle_activity)) (λ e. cc) (λ e. cc)

-- After a round that powered the controller off for the dock, over any further calls, new
-- sessions, changes of the timeout, other attempts and their failures among them, no round begins
-- a power-off for the dock, as long as no report of the battery says that it is discharging, no
-- session takes another controller than that of the session before, and the dock action is not
-- changed.
pub shutdown_round-begun :
    (x : Watch) (live : Bool) (now elapsed after : ℕ) (cs : List WatchCall)
    → (shutdown_round live powered_off now elapsed after x).1 ≡ some puck_dock
    → AreQuiet cs (shutdown_round live powered_off now elapsed after x).0
    → HasNoDock (begun cs (shutdown_round live powered_off now elapsed after x).0)
unfolding shutdown_round
shutdown_round-begun x live now elapsed after cs e q =
    begun-HasNoDock cs (shutdown_round live powered_off now elapsed after x).0
      (attempt-IsDone (automatic_trigger x now elapsed) live after x e) q
