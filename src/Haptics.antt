-- ===== src/Haptics.antt =====
-- crates/bridge/bridge-runtime/src/supervisor/controller/haptics.rs: the rumble of the controller.
-- Times are nanoseconds.
pub mod Pad
pub mod Sync
pub mod Lease
pub mod Status
pub mod Lizard
pub mod Ticks
use steam_controller_bridge.Common.{
  ℕ, ◌+◌, ◌-◌, ◌%◌, ◌/◌, ◌^◌, ◌*◌, Bool, true, false, not, ◌&&◌, ◌||◌, if◌then◌else◌, ◌==◌, leb,
  ltb, min, Result, ok, err, Option, none, some,
}

abbrev pub rumble_refresh_interval : ℕ
rumble_refresh_interval = 40000000

abbrev pub rumble_lease_timeout : ℕ
rumble_lease_timeout = 100000000

abbrev pub rumble_retry_interval : ℕ
rumble_retry_interval = 500000000

-- `fetch_add` on an `AtomicU64`.
abbrev pub fetch_add : ℕ → ℕ → ℕ
fetch_add a b = (a + b) % 2 ^ 64

-- The milliseconds of a time and one more, saturating at 64 bits; 0 stands for no time.
abbrev pub millis_mark : ℕ → ℕ
millis_mark now = min (min (now / 1000000) (2 ^ 64 - 1) + 1) (2 ^ 64 - 1)

-- `SharedHapticsMetrics`, over the type of the errors. Its atomics are written by one thread.
pub record HapticsMetrics (E : Type 0) : Type 0 where
  pub active : Bool
  pub degraded : Bool
  pub pad_degraded : Bool
  pub commands_received : ℕ
  pub writes : ℕ
  pub refreshes : ℕ
  pub coalesced_commands : ℕ
  pub failures : ℕ
  pub last_command_millis : ℕ
  pub pad_feedback_ticks : ℕ
  pub pad_feedback_coalesced : ℕ
  pub pad_feedback_failures : ℕ
  pub last_pad_feedback_millis : ℕ
  pub pad_feedback_last_error : Option E

pub record RumbleCommand : Type 0 where
  pub low_frequency : ℕ  -- u16
  pub high_frequency : ℕ  -- u16

abbrev pub no_rumble : RumbleCommand
no_rumble = record { low_frequency = 0; high_frequency = 0 }

abbrev pub is_active : RumbleCommand → Bool
is_active command = not (command.low_frequency == 0) || not (command.high_frequency == 0)

-- `PartialEq`
abbrev pub same_command : RumbleCommand → RumbleCommand → Bool
same_command a b = a.low_frequency == b.low_frequency && a.high_frequency == b.high_frequency

-- `LatestRumbleSlot`, under its lock.
unfoldable pub publish_rumble : Option RumbleCommand → RumbleCommand → Option RumbleCommand × Bool
publish_rumble none command = (some command, false)
publish_rumble (some old) command = (some command, true)

unfoldable pub take_rumble : Option RumbleCommand → Option RumbleCommand × Option RumbleCommand
take_rumble slot = (none, slot)

unfoldable pub record_command : {E : Type 0} → ℕ → Bool → HapticsMetrics E → HapticsMetrics E
record_command now coalesced m = record m {
  commands_received = fetch_add m.commands_received 1;
  coalesced_commands = if coalesced then fetch_add m.coalesced_commands 1 else m.coalesced_commands;
  last_command_millis = millis_mark now;
}

unfoldable pub record_success : {E : Type 0} → Bool → Bool → HapticsMetrics E → HapticsMetrics E
record_success active refresh m = record m {
  active = active;
  degraded = false;
  writes = fetch_add m.writes 1;
  refreshes = if refresh then fetch_add m.refreshes 1 else m.refreshes;
}

unfoldable pub record_failure : {E : Type 0} → HapticsMetrics E → HapticsMetrics E
record_failure m = record m { active = false; degraded = true; failures = fetch_add m.failures 1 }

unfoldable pub record_disconnected : {E : Type 0} → HapticsMetrics E → HapticsMetrics E
record_disconnected m = record m {
  active = false;
  degraded = false;
  pad_degraded = false;
  last_command_millis = 0;
  last_pad_feedback_millis = 0;
  pad_feedback_last_error = none;
}

unfoldable pub clear_rumble : Option RumbleCommand → Option RumbleCommand
clear_rumble slot = none

-- `RumbleWriter`: a session with its state, and the errors of a write.
pub record RumbleWriter (E : Type 0) : Type 1 where
  pub Session : Type 0
  pub write_rumble : Session → ℕ → ℕ → Session × Result E (Unit {0})

pub record HapticsSupervisor (E : Type 0) : Type 0 where
  pub connected : Bool
  pub desired : RumbleCommand
  pub lease_received : Option ℕ
  pub last_write : Option ℕ
  pub retry_after : Option ℕ
  pub metrics : HapticsMetrics E

abbrev pub new_haptics : {E : Type 0} → HapticsMetrics E → HapticsSupervisor E
new_haptics metrics = record {
  connected = false;
  desired = no_rumble;
  lease_received = none;
  last_write = none;
  retry_after = none;
  metrics = metrics;
}

-- `is_none_or(|retry_after| now >= retry_after)`
abbrev pub retry_due : Option ℕ → ℕ → Bool
retry_due none now = true
retry_due (some retry_after) now = leb retry_after now

-- `is_some_and(|at| now.saturating_sub(at) >= interval)`
abbrev pub has_passed : Option ℕ → ℕ → ℕ → Bool
has_passed none now interval = false
has_passed (some at) now interval = leb interval (now - at)

module _ (E : Type 0) (writer : RumbleWriter E) where
  -- The supervisor with the session that it writes to.
  abbrev pub Haptics : Type 0
  Haptics = HapticsSupervisor E × RumbleWriter.Session writer

  unfoldable pub written :
      HapticsSupervisor E
      → ℕ
      → RumbleCommand
      → Bool
      → RumbleWriter.Session writer × Result E (Unit {0})
      → Haptics
  unfolding record_success record_failure
  written h now command refresh (session, ok _) = (
    record h {
      last_write = some now;
      retry_after = none;
      metrics = record_success (is_active command) refresh h.metrics;
    },
    session,
  )
  written h now command refresh (session, err e) = (
    record h {
      retry_after = some (now + rumble_retry_interval);
      metrics = record_failure h.metrics;
    },
    session,
  )

  -- `write`; `saturating_add` on a `Duration` does not reach its limit.
  unfoldable pub write : Haptics → ℕ → RumbleCommand → Bool → Haptics
  unfolding written
  write (h, session) now command refresh =
      written h now command refresh
        (writer.write_rumble session command.low_frequency command.high_frequency)

  unfoldable pub connect_haptics : Haptics → ℕ → Haptics
  unfolding write
  connect_haptics (h, session) now =
      write
        (
          record h {
            connected = true;
            desired = no_rumble;
            lease_received = none;
            last_write = none;
            retry_after = none;
          },
          session,
        )
        now no_rumble false

  unfoldable pub command_active : Haptics → ℕ → RumbleCommand → Bool → Haptics
  unfolding write
  command_active (h, session) now command changed =
      let h' = record h { desired = command; lease_received = some now } in
      if changed && retry_due h.retry_after now
      then write (h', session) now command false
      else (h', session)

  unfoldable pub command_stop : Haptics → ℕ → RumbleCommand → Bool → Haptics
  unfolding write
  command_stop (h, session) now command changed =
      let h' = record h { desired = command; lease_received = none } in
      if changed || (h.metrics.active || h.metrics.degraded)
      then write (h', session) now command false
      else (h', session)

  unfoldable pub set_command : Haptics → ℕ → RumbleCommand → Haptics
  unfolding command_active command_stop
  set_command (h, session) now command =
      let changed = not (same_command command h.desired) in
      if is_active command
      then command_active (h, session) now command changed
      else command_stop (h, session) now command changed

  -- An active command within its lease: retried after a failure, and refreshed.
  unfoldable pub keep_alive : Haptics → ℕ → Haptics
  unfolding write
  keep_alive (h, session) now =
      if h.metrics.degraded
      then if retry_due h.retry_after now
        then write (h, session) now h.desired false
        else (h, session)
      else if has_passed h.last_write now rumble_refresh_interval
      then write (h, session) now h.desired true
      else (h, session)

  unfoldable pub service_haptics : Haptics → ℕ → Haptics
  unfolding keep_alive write
  service_haptics (h, session) now =
      if is_active h.desired && has_passed h.lease_received now rumble_lease_timeout
      then write (record h { desired = no_rumble; lease_received = none }, session) now no_rumble
          false
      else if not (is_active h.desired)
      then (h, session)
      else keep_alive (h, session) now

  unfoldable pub shutdown_haptics : Haptics → ℕ → Haptics
  unfolding write
  shutdown_haptics (h, session) now =
      let stopped = record h { desired = no_rumble; lease_received = none } in
      let (h', session') = write (stopped, session) now no_rumble false in
      if h.connected then (record h' { connected = false }, session') else (stopped, session)

  unfoldable pub disconnect_haptics : Haptics → Haptics
  unfolding record_disconnected
  disconnect_haptics (h, session) = (
    record h {
      connected = false;
      desired = no_rumble;
      lease_received = none;
      last_write = none;
      retry_after = none;
      metrics = record_disconnected h.metrics;
    },
    session,
  )
