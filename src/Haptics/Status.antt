-- ===== src/Haptics/Status.antt =====
-- crates/bridge/bridge-runtime/src/supervisor/controller/haptics.rs: what the runtime shows of the
-- haptics.
use steam_controller_bridge.Common.{ℕ, ◌-◌, ◌*◌, ◌||◌, if◌then◌else◌, ltb, Option, none, some}
use steam_controller_bridge.Haptics.{HapticsMetrics}

pub data HapticsState : Type 0 where
  idle active degraded : HapticsState

pub record HapticsStatus (E : Type 0) : Type 0 where
  pub state : HapticsState
  pub commands_received : ℕ
  pub writes : ℕ
  pub refreshes : ℕ
  pub coalesced_commands : ℕ
  pub failures : ℕ
  pub last_command_age : Option ℕ
  pub pad_feedback_ticks : ℕ
  pub pad_feedback_coalesced : ℕ
  pub pad_feedback_failures : ℕ
  pub last_pad_feedback_age : Option ℕ
  pub pad_feedback_last_error : Option E

-- The age of what `millis_mark` has marked.
abbrev pub age_of : ℕ → ℕ → Option ℕ
age_of mark now = if ltb 0 mark then some (now - (mark - 1) * 1000000) else none

unfoldable pub haptics_state : {E : Type 0} → HapticsMetrics E → HapticsState
haptics_state m =
    if m.degraded || m.pad_degraded
    then HapticsState.degraded
    else if m.active
    then HapticsState.active
    else HapticsState.idle

unfoldable pub haptics_snapshot : {E : Type 0} → HapticsMetrics E → ℕ → HapticsStatus E
unfolding haptics_state
haptics_snapshot m now = record {
  state = haptics_state m;
  commands_received = m.commands_received;
  writes = m.writes;
  refreshes = m.refreshes;
  coalesced_commands = m.coalesced_commands;
  failures = m.failures;
  last_command_age = age_of m.last_command_millis now;
  pad_feedback_ticks = m.pad_feedback_ticks;
  pad_feedback_coalesced = m.pad_feedback_coalesced;
  pad_feedback_failures = m.pad_feedback_failures;
  last_pad_feedback_age = age_of m.last_pad_feedback_millis now;
  pad_feedback_last_error = m.pad_feedback_last_error;
}
