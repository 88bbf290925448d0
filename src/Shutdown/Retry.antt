-- ===== src/Shutdown/Retry.antt =====
-- crates/bridge/bridge-runtime/src/supervisor/active_session.rs: after a failed power-off of a docked
-- controller the next one waits.
use steam_controller_bridge.Common.{
  ℕ, ◌+◌, ◌<◌, ◌≡◌, ◌⊎◌, inl, inr, refl, arith, and_false, Bool, true, false, ◌&&◌, ◌||◌, if-ind,
  List, [], ◌∷◌, Option, none, some, Result, ok, err,
}
use steam_controller_bridge.Idle.{is_neutral}
use steam_controller_bridge.Shutdown.{
  ControllerChargeState, is_discharging, ShutdownTrigger, puck_dock, is_dock, is_some_dock,
  same_action, AutomaticShutdownRuntime, automatic_shutdown_retry_interval, set_dock_action,
  observe_charge_state, activity_after_failed_dock_attempt, failed, TimeoutError,
  validate_idle_shutdown_timeout, shutdown_retry_due,
}
use steam_controller_bridge.Shutdown.Session.{
  Watch, change_action, change_timeout, timeout_changed, note_battery, note_state, dock_retry_due,
  idle_shutdown_due, first_trigger, automatic_trigger, PowerOff, power_off_failed, attempted,
  attempt, shutdown_round, WatchCall, call_session, call_action, call_timeout, call_battery,
  call_state, call_round, call, begun,
}
use steam_controller_bridge.Shutdown.Once.{
  HasNoDock, Handled, observe_charge_state-Handled, attempted-Handled, automatic_trigger-HasNoDock,
}

-- A call of the same session before a time that leaves the controller in its dock.
abbrev pub IsEarly : ℕ → WatchCall → Watch → Type 0
IsEarly until (call_session info) x = ⊥
IsEarly until (call_action action) x = same_action action x.config.puck_dock_action ≡ true
IsEarly until (call_timeout timeout elapsed) x = Unit
IsEarly until (call_battery charge_state now elapsed) x =
    (is_discharging charge_state ≡ false) × (now < until)
IsEarly until (call_state active now elapsed) x = Unit
IsEarly until (call_round live power now elapsed after) x = now < until

unfoldable pub AreEarly : ℕ → List WatchCall → Watch → Type 0
AreEarly until [] x = Unit
AreEarly until (c ∷ cs) x = IsEarly until c x × AreEarly until cs (call c x).0

-- No retry before the time, or none any more.
abbrev Waits : ℕ → AutomaticShutdownRuntime → Type 0
Waits until r = Handled r ⊎ (r.retry_after ≡ some until)

abbrev IsWaiting : ℕ → Watch → Type 0
IsWaiting until x = (x.pending_automatic_shutdown ≡ none) × Waits until x.automatic_shutdown

abbrev IsSpaced : ℕ → Watch × Option ShutdownTrigger → Type 0
IsSpaced until y = IsWaiting until y.0 × (is_some_dock y.1 ≡ false)

not_due :
    (until now : ℕ) (r : AutomaticShutdownRuntime)
    → r.retry_after ≡ some until
    → now < until
    → shutdown_retry_due r now ≡ false
unfolding shutdown_retry_due
not_due until now r e l = rw e (ground arith)

note_battery-IsWaiting :
    (until : ℕ) (charge_state : ControllerChargeState) (now elapsed : ℕ) (x : Watch)
    → IsWaiting until x
    → is_discharging charge_state ≡ false
    → now < until
    → IsWaiting until (note_battery charge_state now elapsed x)
unfolding note_battery observe_charge_state
note_battery-IsWaiting until charge_state now elapsed x (p, inl h) q l =
    rw
      (observe_charge_state-Handled x.info charge_state x.config.puck_dock_action
        x.automatic_shutdown h q)
      (p, inl h)
note_battery-IsWaiting until charge_state now elapsed x (p, inr e) q l =
    rw (q, not_due until now x.automatic_shutdown e l) (simp (and_false, p), inr e)

note_state-Waits :
    (until now : ℕ) (r : AutomaticShutdownRuntime)
    → Waits until r
    → Waits until (activity_after_failed_dock_attempt now r)
unfolding activity_after_failed_dock_attempt
note_state-Waits until now r w = if-ind (Waits until) _ (inl refl) w

timeout_changed-IsWaiting :
    (until : ℕ) (timeout : Option ℕ) (elapsed : ℕ) (x : Watch) (v : Result TimeoutError (Unit {0}))
    → IsWaiting until x
    → IsWaiting until (timeout_changed timeout elapsed x v)
unfolding timeout_changed
timeout_changed-IsWaiting until timeout elapsed x (ok _) k = k
timeout_changed-IsWaiting until timeout elapsed x (err _) k = k

not_due-none :
    (x : Watch) (now elapsed : ℕ)
    → x.pending_automatic_shutdown ≡ none
    → shutdown_retry_due x.automatic_shutdown now ≡ false
    → automatic_trigger x now elapsed ≡ none
unfolding automatic_trigger dock_retry_due idle_shutdown_due first_trigger
not_due-none x now elapsed p d = rw (p, d) (simp and_false)

attempt-IsSpaced :
    (until : ℕ) (trigger : Option ShutdownTrigger) (live : Bool) (power : PowerOff) (after : ℕ)
    (x : Watch)
    → Handled x.automatic_shutdown
    → is_some_dock trigger ≡ false
    → IsSpaced until (attempt trigger live power after x)
unfolding attempt
attempt-IsSpaced until none live power after x h q = ((refl, inl h), refl)
attempt-IsSpaced until (some trigger) live power after x h q =
    if-ind (IsSpaced until) (live && (is_dock trigger || is_neutral x.idle_activity))
      ((refl, inl (attempted-Handled power after trigger x.automatic_shutdown h)), q)
      ((refl, inl h), refl)

shutdown_round-IsSpaced :
    (until : ℕ) (live : Bool) (power : PowerOff) (now elapsed after : ℕ) (x : Watch)
    → IsWaiting until x
    → now < until
    → IsSpaced until (shutdown_round live power now elapsed after x)
unfolding shutdown_round attempt
shutdown_round-IsSpaced until live power now elapsed after x (p, inl h) l =
    attempt-IsSpaced until (automatic_trigger x now elapsed) live power after x h
      (automatic_trigger-HasNoDock x now elapsed (h, rw p refl))
shutdown_round-IsSpaced until live power now elapsed after x (p, inr e) l =
    rw (not_due-none x now elapsed p (not_due until now x.automatic_shutdown e l))
      ((refl, inr e), refl)

call-IsSpaced :
    (until : ℕ) (c : WatchCall) (x : Watch)
    → IsWaiting until x
    → IsEarly until c x
    → IsSpaced until (call c x)
unfolding call change_timeout change_action set_dock_action note_state
call-IsSpaced until (call_session info) x k q = elim q [ ]
call-IsSpaced until (call_action action) x (p, w) q = ((p, rw q w), refl)
call-IsSpaced until (call_timeout timeout elapsed) x k q = (
  timeout_changed-IsWaiting until timeout elapsed x (validate_idle_shutdown_timeout timeout) k,
  refl,
)
call-IsSpaced until (call_battery charge_state now elapsed) x k (q, l) =
    (note_battery-IsWaiting until charge_state now elapsed x k q l, refl)
call-IsSpaced until (call_state active now elapsed) x (p, w) q = (
  (p, if-ind (λ r. Waits until r) active (note_state-Waits until now x.automatic_shutdown w) w),
  refl,
)
call-IsSpaced until (call_round live power now elapsed after) x k q =
    shutdown_round-IsSpaced until live power now elapsed after x k q

begun-AreSpaced :
    (until : ℕ) (cs : List WatchCall) (x : Watch)
    → IsWaiting until x
    → AreEarly until cs x
    → HasNoDock (begun cs x)
unfolding begun AreEarly HasNoDock
begun-AreSpaced until [] x k q = tt
begun-AreSpaced until (c ∷ cs) x k (q, qs) =
    let (k', t) = call-IsSpaced until c x k q in (t, begun-AreSpaced until cs (call c x).0 k' qs)

abbrev HasFailed : ℕ → Watch × Option ShutdownTrigger → Type 0
HasFailed after y = y.1 ≡ some puck_dock → IsWaiting (after + automatic_shutdown_retry_interval) y.0

attempt-HasFailed :
    (trigger : Option ShutdownTrigger) (live : Bool) (after : ℕ) (x : Watch)
    → HasFailed after (attempt trigger live power_off_failed after x)
unfolding attempt attempted failed
attempt-HasFailed none live after x = λ e. cc
attempt-HasFailed (some trigger) live after x =
    if-ind (HasFailed after) (live && (is_dock trigger || is_neutral x.idle_activity))
      (λ e. (refl, inr refl)) (λ e. cc)

-- After a round whose power-off for the dock failed, over any further calls of the same session,
-- activity, changes of the timeout and attempts for idleness among them, no round begins a
-- power-off for the dock, as long as the readings of the clock for the battery and the rounds lie
-- before the end of the retry interval, no report of the battery says that it is discharging, and
-- the dock action is not changed.
pub shutdown_round-begun_early :
    (x : Watch) (live : Bool) (now elapsed after : ℕ) (cs : List WatchCall)
    → (shutdown_round live power_off_failed now elapsed after x).1 ≡ some puck_dock
    → AreEarly
        (after + automatic_shutdown_retry_interval)
        cs
        (shutdown_round live power_off_failed now elapsed after x).0
    → HasNoDock (begun cs (shutdown_round live power_off_failed now elapsed after x).0)
unfolding shutdown_round
shutdown_round-begun_early x live now elapsed after cs e q =
    begun-AreSpaced (after + automatic_shutdown_retry_interval) cs
      (shutdown_round live power_off_failed now elapsed after x).0
      (attempt-HasFailed (automatic_trigger x now elapsed) live after x e) q
