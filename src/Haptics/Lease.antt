-- ===== src/Haptics/Lease.antt =====
-- crates/bridge/bridge-runtime/src/supervisor/controller/haptics.rs: sequences of calls, and the
-- lease of a rumble.
use steam_controller_bridge.Common.{
  ℕ, ◌-◌, ◌<◌, ◌≡◌, refl, sym, ap, ◌∙◌, arith, Bool, true, false, not, ◌&&◌, if-cases, if-ind, List,
  [], ◌∷◌, Result, ok, err, Option, none, some,
}
use steam_controller_bridge.Haptics.{
  rumble_lease_timeout, rumble_refresh_interval, HapticsMetrics, RumbleCommand, no_rumble,
  is_active, RumbleWriter, HapticsSupervisor, retry_due, has_passed, Haptics, written, write,
  connect_haptics, set_command, keep_alive, service_haptics, shutdown_haptics, disconnect_haptics,
  new_haptics,
}
use steam_controller_bridge.Haptics.Sync.{
  observed, Leased, Synced, IsInSync, write-IsInSync, set_command-IsInSync,
  service_haptics-IsInSync, shutdown_haptics-IsInSync,
}

module _ (E : Type 0) (writer : RumbleWriter E) where
  abbrev H : Type 0
  H = Haptics E (observed writer)

  -- A call of an operation of the supervisor.
  pub data HapticsCall : Type 0 where
    call_connected call_service call_shutdown : (now : ℕ) → HapticsCall
    call_command : (now : ℕ) → RumbleCommand → HapticsCall
    call_disconnected : HapticsCall

  unfoldable pub call : H → HapticsCall → H
  unfolding connect_haptics set_command service_haptics shutdown_haptics disconnect_haptics
  call x (call_connected now) = connect_haptics E (observed writer) x now
  call x (call_service now) = service_haptics E (observed writer) x now
  call x (call_shutdown now) = shutdown_haptics E (observed writer) x now
  call x (call_command now command) = set_command E (observed writer) x now command
  call x call_disconnected = disconnect_haptics E (observed writer) x

  unfoldable pub calls : H → List HapticsCall → H
  calls x [] = x
  calls x (c ∷ cs) = calls (call x c) cs

  call-IsInSync : (x : H) (c : HapticsCall) → IsInSync E writer x → IsInSync E writer (call x c)
  unfolding call connect_haptics disconnect_haptics
  call-IsInSync (h, session) (call_connected now) k =
      write-IsInSync E writer
        (record h {
          connected = true;
          desired = no_rumble;
          lease_received = none;
          last_write = none;
          retry_after = none;
        })
        session now false refl
  call-IsInSync (h, session) (call_service now) k =
      service_haptics-IsInSync E writer h session now k
  call-IsInSync (h, session) (call_shutdown now) k =
      shutdown_haptics-IsInSync E writer h session now k
  call-IsInSync (h, session) (call_command now command) k =
      set_command-IsInSync E writer h session now command k
  call-IsInSync (h, session) call_disconnected k = (tt, refl)

  calls-IsInSync :
      (x : H) (cs : List HapticsCall) → IsInSync E writer x → IsInSync E writer (calls x cs)
  unfolding calls
  calls-IsInSync x [] k = k
  calls-IsInSync x (c ∷ cs) k = calls-IsInSync (call x c) cs (call-IsInSync x c k)

  -- The lease was received less than its timeout ago.
  abbrev pub IsFresh : ℕ → Option ℕ → Type 0
  IsFresh now none = ⊥
  IsFresh now (some received) = now - received < rumble_lease_timeout

  -- An active command that is desired has a fresh lease.
  abbrev pub HasLease : ℕ → H → Type 0
  HasLease now (h, session) = is_active h.desired ≡ true → IsFresh now h.lease_received

  written-HasLease :
      (h : HapticsSupervisor E) (now at : ℕ) (command : RumbleCommand) (refresh : Bool)
      (x : RumbleWriter.Session (observed writer) × Result E (Unit {0}))
      → (is_active h.desired ≡ true → IsFresh now h.lease_received)
      → HasLease now (written E (observed writer) h at command refresh x)
  unfolding written
  written-HasLease h now at command refresh (s, ok _) k = k
  written-HasLease h now at command refresh (s, err e) k = k

  write-HasLease :
      (h : HapticsSupervisor E) (session : RumbleWriter.Session (observed writer)) (now at : ℕ)
      (command : RumbleCommand) (refresh : Bool)
      → (is_active h.desired ≡ true → IsFresh now h.lease_received)
      → HasLease now (write E (observed writer) (h, session) at command refresh)
  unfolding write
  write-HasLease h session now at command refresh k = written-HasLease h now at command refresh _ k

  keep_alive-HasLease :
      (h : HapticsSupervisor E) (session : RumbleWriter.Session (observed writer)) (now : ℕ)
      → (is_active h.desired ≡ true → IsFresh now h.lease_received)
      → HasLease now (keep_alive E (observed writer) (h, session) now)
  unfolding keep_alive
  keep_alive-HasLease h session now k =
      if-ind (HasLease now) h.metrics.degraded
        (if-ind (HasLease now) (retry_due h.retry_after now)
          (write-HasLease h session now now h.desired false k) k)
        (if-ind (HasLease now) (has_passed h.last_write now rumble_refresh_interval)
          (write-HasLease h session now now h.desired true k) k)

  lease :
      (active : Bool) (desired : RumbleCommand) (now : ℕ) (received : Option ℕ)
      → is_active desired ≡ active
      → Leased E writer desired received
      → (active && has_passed received now rumble_lease_timeout) ≡ false
      → active ≡ true
      → IsFresh now received
  lease false desired now received e l w a = cc
  lease true desired now none e l w a = cc
  lease true desired now (some received) e l w a = ground arith

  service_haptics-HasLease :
      (h : HapticsSupervisor E) (session : RumbleWriter.Session (observed writer)) (now : ℕ)
      → Leased E writer h.desired h.lease_received
      → HasLease now (service_haptics E (observed writer) (h, session) now)
  unfolding service_haptics
  service_haptics-HasLease h session now l =
      if-cases (HasLease now)
        (is_active h.desired && has_passed h.lease_received now rumble_lease_timeout)
        (λ e.
          write-HasLease (record h { desired = no_rumble; lease_received = none }) session now now
            no_rumble false (λ a. cc))
        (λ e.
          let k = lease (is_active h.desired) h.desired now h.lease_received refl l e in
          if-ind (HasLease now) (not (is_active h.desired)) k (keep_alive-HasLease h session now k))

  -- After a service, a connected controller whose last write succeeded and that has accepted an
  -- active command got it under a lease that has not run out.
  abbrev pub IsLeased : ℕ → H → Type 0
  IsLeased now (h, session) =
      h.connected ≡ true
      → h.metrics.degraded ≡ false
      → is_active session.1 ≡ true
      → IsFresh now h.lease_received

  desired_active :
      (connected degraded : Bool) (retry : Option ℕ) (desired accepted : RumbleCommand)
      → connected ≡ true
      → degraded ≡ false
      → Synced E writer connected degraded retry desired accepted
      → is_active accepted ≡ true
      → is_active desired ≡ true
  desired_active true false retry desired accepted c d (e, r) a = sym (ap is_active e) ∙ a
  desired_active true true retry desired accepted c d k a = cc
  desired_active false degraded retry desired accepted c d k a = cc

  leased : (now : ℕ) (x : H) → IsInSync E writer x → HasLease now x → IsLeased now x
  leased now (h, session) (k, l) f c d a =
      f (desired_active h.connected h.metrics.degraded h.retry_after h.desired session.1 c d k a)

  -- Over any calls of a new supervisor, whatever writes the session refuses: an active command
  -- that is desired has a lease, and while the controller is connected and the last write did not
  -- fail, the command that the controller accepted last is the desired one and no retry is waited
  -- for. After one more `service`, if then it is connected, the last write did not fail and the
  -- accepted command is active, the lease was received less than 100 ms before.
  pub calls-IsLeased :
      (metrics : HapticsMetrics E) (session : RumbleWriter.Session (observed writer))
      (cs : List HapticsCall) (now : ℕ)
      → IsInSync E writer (calls (new_haptics metrics, session) cs)
        × IsLeased now
            (service_haptics E (observed writer) (calls (new_haptics metrics, session) cs) now)
  calls-IsLeased metrics session cs now =
      let k = calls-IsInSync (new_haptics metrics, session) cs (tt, refl) in
      let (h, session') = calls (new_haptics metrics, session) cs in
      (
        k,
        leased now (service_haptics E (observed writer) (h, session') now)
            (service_haptics-IsInSync E writer h session' now k)
            (service_haptics-HasLease h session' now k.1),
      )
