-- ===== src/Haptics/Pad.antt =====
-- crates/bridge/bridge-runtime/src/supervisor/controller/haptics.rs: the ticks of the pads.
use steam_controller_bridge.Common.{
  ℕ, ◌+◌, Bool, true, false, not, ◌||◌, if◌then◌else◌, ltb, List, [], ◌∷◌, Result, ok, err, Option,
  none, some,
}
use steam_controller_bridge.Steam.Output.{PadHapticSide, PadHapticGain}
use steam_controller_bridge.Mailbox.Snapshot.{PadFeedbackStrength, PadFeedbackRequest}
use steam_controller_bridge.Haptics.{HapticsMetrics, fetch_add, millis_mark}

abbrev pub pad_feedback_retry_interval : ℕ
pad_feedback_retry_interval = 500000000

unfoldable pub haptic_gain : PadFeedbackStrength → PadHapticGain
haptic_gain PadFeedbackStrength.low = PadHapticGain.low
haptic_gain PadFeedbackStrength.medium = PadHapticGain.medium
haptic_gain PadFeedbackStrength.high = PadHapticGain.high

abbrev pub same_gain : PadHapticGain → PadHapticGain → Bool
same_gain PadHapticGain.low PadHapticGain.low = true
same_gain PadHapticGain.medium PadHapticGain.medium = true
same_gain PadHapticGain.high PadHapticGain.high = true
same_gain _ _ = false

pub record PadFeedbackCommand : Type 0 where
  pub side : PadHapticSide
  pub gain : PadHapticGain

pub record PendingPadFeedback : Type 0 where
  pub left_gain : Option PadHapticGain
  pub right_gain : Option PadHapticGain

-- The gain that a request leaves, and 1 if it replaces one.
unfoldable pub replace_gain :
    Option PadFeedbackStrength → Option PadHapticGain → Option PadHapticGain × ℕ
unfolding haptic_gain
replace_gain none gain = (gain, 0)
replace_gain (some strength) none = (some (haptic_gain strength), 0)
replace_gain (some strength) (some gain) = (some (haptic_gain strength), 1)

abbrev pub nothing_pending : PendingPadFeedback
nothing_pending = record { left_gain = none; right_gain = none }

-- `PendingPadFeedback`, under its lock.
unfoldable pub publish_pad : PendingPadFeedback → PadFeedbackRequest → PendingPadFeedback × ℕ
unfolding replace_gain
publish_pad state request =
    let (left, coalesced_left) = replace_gain request.left state.left_gain in
    let (right, coalesced_right) = replace_gain request.right state.right_gain in
    (record { left_gain = left; right_gain = right }, coalesced_left + coalesced_right)

unfoldable pub pad_commands : Option PadHapticGain → Option PadHapticGain → List PadFeedbackCommand
pad_commands (some left) (some right) =
    if same_gain left right
    then record { side = PadHapticSide.both; gain = left } ∷ []
    else record { side = PadHapticSide.left; gain = left }
      ∷ record { side = PadHapticSide.right; gain = right }
      ∷ []
pad_commands (some gain) none = record { side = PadHapticSide.left; gain = gain } ∷ []
pad_commands none (some gain) = record { side = PadHapticSide.right; gain = gain } ∷ []
pad_commands none none = []

unfoldable pub take_pad : PendingPadFeedback → PendingPadFeedback × List PadFeedbackCommand
unfolding pad_commands
take_pad state = (nothing_pending, pad_commands state.left_gain state.right_gain)

unfoldable pub clear_pads : PendingPadFeedback → PendingPadFeedback
clear_pads state = nothing_pending

-- The text of an error is not bounded here.
unfoldable pub record_pad_success : {E : Type 0} → ℕ → HapticsMetrics E → HapticsMetrics E
record_pad_success now m = record m {
  pad_degraded = false;
  pad_feedback_ticks = fetch_add m.pad_feedback_ticks 1;
  last_pad_feedback_millis = millis_mark now;
  pad_feedback_last_error = none;
}

unfoldable pub record_pad_failure : {E : Type 0} → E → HapticsMetrics E → HapticsMetrics E
record_pad_failure e m = record m {
  pad_degraded = true;
  pad_feedback_failures = fetch_add m.pad_feedback_failures 1;
  pad_feedback_last_error = some e;
}

unfoldable pub record_pad_coalesced : {E : Type 0} → ℕ → HapticsMetrics E → HapticsMetrics E
record_pad_coalesced count m =
    if ltb 0 count
    then record m { pad_feedback_coalesced = fetch_add m.pad_feedback_coalesced count }
    else m

pub record PadFeedbackWriter (E : Type 0) : Type 1 where
  pub Session : Type 0
  pub write_pad_feedback : Session → PadHapticSide → PadHapticGain → Session × Result E (Unit {0})

-- `PadFeedbackSupervisor`, over the type of the errors. It shares its metrics with the supervisor of
-- the rumble: who calls both hands them on.
pub record PadFeedbackSupervisor (E : Type 0) : Type 0 where
  pub connected : Bool
  pub retry_after : Option ℕ
  pub metrics : HapticsMetrics E

abbrev pub new_pads : {E : Type 0} → HapticsMetrics E → PadFeedbackSupervisor E
new_pads metrics = record { connected = false; retry_after = none; metrics = metrics }

abbrev pub is_waiting : Option ℕ → ℕ → Bool
is_waiting none now = false
is_waiting (some retry_after) now = ltb now retry_after

module _ (E : Type 0) (writer : PadFeedbackWriter E) where
  abbrev pub Pads : Type 0
  Pads = PadFeedbackSupervisor E × PadFeedbackWriter.Session writer

  unfoldable pub connect_pads : PadFeedbackSupervisor E → PadFeedbackSupervisor E
  connect_pads p = record p { connected = true; retry_after = none }

  unfoldable pub disconnect_pads : PadFeedbackSupervisor E → PadFeedbackSupervisor E
  disconnect_pads p = record p { connected = false; retry_after = none }

  abbrev pub failed_pad : PadFeedbackSupervisor E → ℕ → E → PadFeedbackSupervisor E
  failed_pad p now e = record p {
    retry_after = some (now + pad_feedback_retry_interval);
    metrics = record_pad_failure e p.metrics;
  }

  abbrev pub succeeded_pad : PadFeedbackSupervisor E → ℕ → PadFeedbackSupervisor E
  succeeded_pad p now = record p { metrics = record_pad_success now p.metrics }

  -- The loop over the commands, which an error ends.
  unfoldable pub write_pads : Pads → ℕ → List PadFeedbackCommand → Pads
  write_pads (p, session) now [] = (p, session)
  write_pads (p, session) now (command ∷ commands) =
      let (session', answer) = writer.write_pad_feedback session command.side command.gain in
      let rest = write_pads (succeeded_pad p now, session') now commands in
      elim answer [ ok _ ↦ rest | err e ↦ (failed_pad p now e, session') ]

  unfoldable pub service_pads : Pads → ℕ → List PadFeedbackCommand → Pads
  unfolding write_pads
  service_pads (p, session) now commands =
      if not p.connected || is_waiting p.retry_after now
      then (p, session)
      else write_pads (p, session) now commands
