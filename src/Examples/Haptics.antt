-- ===== src/Examples/Haptics.antt =====
-- crates/bridge/bridge-runtime/src/supervisor/controller/haptics.rs: the theorems at concrete calls.
use steam_controller_bridge.Common.{length, ℕ, ◌+◌, ◌≡◌, false, List, [], ◌∷◌, none, some, ok}
use steam_controller_bridge.Mailbox.Snapshot.{PadFeedbackStrength, PadFeedbackRequest}
use steam_controller_bridge.Haptics.{
  HapticsMetrics, RumbleCommand, no_rumble, RumbleWriter, new_haptics, service_haptics,
}
use steam_controller_bridge.Haptics.Sync.{observed, IsInSync}
use steam_controller_bridge.Haptics.Lease.{
  HapticsCall, call_connected, call_service, call_command, calls, IsLeased, calls-IsLeased,
}
use steam_controller_bridge.Haptics.Pad.{nothing_pending, take_pad}
use steam_controller_bridge.Haptics.Ticks.{
  publish_pads, requested, pending, last_left, last_right, left_ticks, right_ticks, one_tick,
  take_pad-publish_pads,
}

abbrev no_metrics : HapticsMetrics ℕ
no_metrics = record {
  active = false;
  degraded = false;
  pad_degraded = false;
  commands_received = 0;
  writes = 0;
  refreshes = 0;
  coalesced_commands = 0;
  failures = 0;
  last_command_millis = 0;
  pad_feedback_ticks = 0;
  pad_feedback_coalesced = 0;
  pad_feedback_failures = 0;
  last_pad_feedback_millis = 0;
  pad_feedback_last_error = none;
}

-- A controller that counts the writes.
abbrev counter : RumbleWriter ℕ
counter = record { Session = ℕ; write_rumble = λ s low high. (s + 1, ok tt) }

abbrev strong : RumbleCommand
strong = record { low_frequency = 300; high_frequency = 0 }

abbrev some_calls : List (HapticsCall ℕ counter)
some_calls = call_connected 5 ∷ call_command 10 strong ∷ call_service 50000000 ∷ []

calls-IsLeased_example :
    IsInSync ℕ counter (calls ℕ counter (new_haptics no_metrics, (0, no_rumble)) some_calls)
    × IsLeased ℕ counter 60000000 (
        service_haptics ℕ
          (observed counter)
          (calls ℕ counter (new_haptics no_metrics, (0, no_rumble)) some_calls)
          60000000)
calls-IsLeased_example = calls-IsLeased ℕ counter no_metrics (0, no_rumble) some_calls 60000000

abbrev two_requests : List PadFeedbackRequest
two_requests =
    record { left = some PadFeedbackStrength.low; right = some PadFeedbackStrength.high }
    ∷ record { left = some PadFeedbackStrength.high; right = none }
    ∷ []

take_pad-publish_pads_example :
    let (state', coalesced) = publish_pads nothing_pending two_requests in
    let (empty, commands) = take_pad state' in
    (empty ≡ nothing_pending)
    × (left_ticks commands ≡ one_tick (last_left none two_requests))
    × (right_ticks commands ≡ one_tick (last_right none two_requests))
    × (coalesced + (length (left_ticks commands) + length (right_ticks commands))
        ≡ requested two_requests + pending nothing_pending)
take_pad-publish_pads_example = take_pad-publish_pads nothing_pending two_requests
