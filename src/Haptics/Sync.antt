-- ===== src/Haptics/Sync.antt =====
-- crates/bridge/bridge-runtime/src/supervisor/controller/haptics.rs: the controller does what the
-- supervisor wants.
use steam_controller_bridge.Common.{
  ℕ, ◌≡◌, refl, sym, ◌∙◌, Bool, true, false, not, ◌&&◌, ◌||◌, not-false, if-cases, if-ind, ◌==◌,
  ==→eq, Result, ok, err, Option, none, some, and_left_true, and_right_true,
}
use steam_controller_bridge.Haptics.{
  rumble_lease_timeout, rumble_refresh_interval, RumbleCommand, no_rumble, is_active, same_command,
  record_success, record_failure, RumbleWriter, HapticsSupervisor, retry_due, has_passed, Haptics,
  written, write, command_active, command_stop, set_command, keep_alive, service_haptics,
  shutdown_haptics,
}

-- The writer with the command that the controller has accepted last.
abbrev accept :
    {S E : Type 0}
    → RumbleCommand
    → RumbleCommand
    → S × Result E (Unit {0})
    → (S × RumbleCommand) × Result E (Unit {0})
accept old command (s, ok _) = ((s, command), ok tt)
accept old command (s, err e) = ((s, old), err e)

abbrev pub observed : {E : Type 0} → RumbleWriter E → RumbleWriter E
observed writer = record {
  Session = RumbleWriter.Session writer × RumbleCommand;
  write_rumble = λ (s, old) low high.
      accept old (record { low_frequency = low; high_frequency = high })
        (writer.write_rumble s low high);
}

module _ (E : Type 0) (writer : RumbleWriter E) where
  abbrev pub H : Type 0
  H = Haptics E (observed writer)

  abbrev pub Leased : RumbleCommand → Option ℕ → Type 0
  Leased desired none = is_active desired ≡ false
  Leased desired (some at) = Unit

  abbrev pub Synced : Bool → Bool → Option ℕ → RumbleCommand → RumbleCommand → Type 0
  Synced true false retry desired accepted = (accepted ≡ desired) × (retry ≡ none)
  Synced _ _ retry desired accepted = Unit

  -- While the controller is connected and the last write was no failure, it has accepted the command
  -- that is desired, and an active one has a lease.
  abbrev pub IsInSync : H → Type 0
  IsInSync (h, session) =
      Synced h.connected h.metrics.degraded h.retry_after h.desired session.1
      × Leased h.desired h.lease_received

  settled_now :
      (connected : Bool) (desired : RumbleCommand) → Synced connected false none desired desired
  settled_now true desired = (refl, refl)
  settled_now false desired = tt

  unsynced :
      (connected : Bool) (retry : Option ℕ) (desired accepted : RumbleCommand)
      → Synced connected true retry desired accepted
  unsynced true retry desired accepted = tt
  unsynced false retry desired accepted = tt

  written-IsInSync :
      (h : HapticsSupervisor E) (old : RumbleCommand) (now : ℕ) (refresh : Bool)
      (x : RumbleWriter.Session writer × Result E (Unit {0}))
      → Leased h.desired h.lease_received
      → IsInSync (written E (observed writer) h now h.desired refresh (accept old h.desired x))
  unfolding written record_success record_failure
  written-IsInSync h old now refresh (s, ok _) l = (settled_now h.connected h.desired, l)
  written-IsInSync h old now refresh (s, err e) l = (unsynced h.connected _ h.desired old, l)

  pub write-IsInSync :
      (h : HapticsSupervisor E) (session : RumbleWriter.Session (observed writer)) (now : ℕ)
      (refresh : Bool)
      → Leased h.desired h.lease_received
      → IsInSync (write E (observed writer) (h, session) now h.desired refresh)
  unfolding write
  write-IsInSync h (s, old) now refresh l =
      written-IsInSync h old now refresh
        (writer.write_rumble s h.desired.low_frequency h.desired.high_frequency) l

  same_fields :
      (a b c d : ℕ)
      → a ≡ c
      → b ≡ d
      → ◌≡◌ {A = RumbleCommand}
          (record { low_frequency = a; high_frequency = b })
          (record { low_frequency = c; high_frequency = d })
  same_fields a b c d e e' = cc

  same_command→eq : (a b : RumbleCommand) → same_command a b ≡ true → a ≡ b
  same_command→eq a b e =
      same_fields a.low_frequency a.high_frequency b.low_frequency b.high_frequency
        (==→eq a.low_frequency b.low_frequency
          (and_left_true (a.low_frequency == b.low_frequency) _ e))
        (==→eq a.high_frequency b.high_frequency
          (and_right_true (a.low_frequency == b.low_frequency) _ e))

  -- A command that is not written because it is no change is the accepted one still.
  unchanged :
      (connected degraded : Bool) (retry : Option ℕ) (desired command accepted : RumbleCommand)
      → command ≡ desired
      → Synced connected degraded retry desired accepted
      → Synced connected degraded retry command accepted
  unchanged true false retry desired command accepted e (a, r) = (a ∙ sym e, r)
  unchanged true true retry desired command accepted e h = tt
  unchanged false degraded retry desired command accepted e h = tt

  -- And one that waits for a retry is not asked for: the last write failed.
  waiting :
      (connected degraded : Bool) (retry : Option ℕ) (now : ℕ)
      (desired command accepted : RumbleCommand)
      → retry_due retry now ≡ false
      → Synced connected degraded retry desired accepted
      → Synced connected degraded retry command accepted
  waiting true false none now desired command accepted e h = cc
  waiting true false (some at) now desired command accepted e (a, r) = cc
  waiting true true retry now desired command accepted e h = tt
  waiting false degraded retry now desired command accepted e h = tt

  unwritten :
      (h : HapticsSupervisor E) (now : ℕ) (command accepted : RumbleCommand) (same : Bool)
      → same_command command h.desired ≡ same
      → (not same && retry_due h.retry_after now) ≡ false
      → Synced h.connected h.metrics.degraded h.retry_after h.desired accepted
      → Synced h.connected h.metrics.degraded h.retry_after command accepted
  unwritten h now command accepted true e w k =
      unchanged h.connected h.metrics.degraded h.retry_after h.desired command accepted
        (same_command→eq command h.desired e) k
  unwritten h now command accepted false e w k =
      waiting h.connected h.metrics.degraded h.retry_after now h.desired command accepted w k

  or_false : (a b : Bool) → (a || b) ≡ false → a ≡ false
  or_false true b e = e
  or_false false b e = refl

  pub set_command-IsInSync :
      (h : HapticsSupervisor E) (session : RumbleWriter.Session (observed writer)) (now : ℕ)
      (command : RumbleCommand)
      → IsInSync (h, session)
      → IsInSync (set_command E (observed writer) (h, session) now command)
  unfolding set_command command_active command_stop
  set_command-IsInSync h session now command (k, l) =
      let changed = not (same_command command h.desired) in
      if-cases IsInSync (is_active command)
        (λ e.
          if-cases IsInSync (changed && retry_due h.retry_after now)
            (λ w.
              write-IsInSync (record h { desired = command; lease_received = some now }) session now
                false tt)
            (λ w.
              (unwritten h now command session.1 (same_command command h.desired) refl w k, tt)))
        (λ e.
          if-cases IsInSync (changed || (h.metrics.active || h.metrics.degraded))
            (λ w.
              write-IsInSync (record h { desired = command; lease_received = none }) session now
                false e)
            (λ w. (
              unchanged h.connected h.metrics.degraded h.retry_after h.desired command session.1
                  (same_command→eq command h.desired
                    (not-false (same_command command h.desired) (or_false changed _ w)))
                  k,
              e,
            )))

  pub keep_alive-IsInSync :
      (h : HapticsSupervisor E) (session : RumbleWriter.Session (observed writer)) (now : ℕ)
      → IsInSync (h, session)
      → IsInSync (keep_alive E (observed writer) (h, session) now)
  unfolding keep_alive
  keep_alive-IsInSync h session now (k, l) =
      if-ind IsInSync h.metrics.degraded
        (if-ind IsInSync (retry_due h.retry_after now) (write-IsInSync h session now false l)
          (k, l))
        (if-ind IsInSync (has_passed h.last_write now rumble_refresh_interval)
          (write-IsInSync h session now true l) (k, l))

  pub service_haptics-IsInSync :
      (h : HapticsSupervisor E) (session : RumbleWriter.Session (observed writer)) (now : ℕ)
      → IsInSync (h, session)
      → IsInSync (service_haptics E (observed writer) (h, session) now)
  unfolding service_haptics
  service_haptics-IsInSync h session now k =
      if-ind IsInSync (is_active h.desired && has_passed h.lease_received now rumble_lease_timeout)
        (write-IsInSync (record h { desired = no_rumble; lease_received = none }) session now false
          refl)
        (if-ind IsInSync (not (is_active h.desired)) k (keep_alive-IsInSync h session now k))

  pub shutdown_haptics-IsInSync :
      (h : HapticsSupervisor E) (session : RumbleWriter.Session (observed writer)) (now : ℕ)
      → IsInSync (h, session)
      → IsInSync (shutdown_haptics E (observed writer) (h, session) now)
  unfolding shutdown_haptics
  shutdown_haptics-IsInSync h session now (k, l) =
      if-cases IsInSync h.connected
        (λ e. (
          tt,
          (write-IsInSync (record h { desired = no_rumble; lease_received = none }) session now
              false refl).1,
        ))
        (λ e. (rw e tt, refl))
