-- ===== src/Engine/Step.antt =====
-- crates/bridge/bridge-core/src/lib.rs: the operations of `BridgeEngine`. Each returns the engine,
-- the backend and the result; what it changed before an error stays changed.
use steam_controller_bridge.Common.{
  ℕ, ◌+◌, ◌-◌, Bool, true, false, not, ◌&&◌, if◌then◌else◌, ◌==◌, leb, List, Option, none, some,
  Result, ok, err,
}
use steam_controller_bridge.Common.Int.{pos}
use steam_controller_bridge.Float.{Float}
use steam_controller_bridge.Gamepad.Hat.{hat_index}
use steam_controller_bridge.Gamepad.State.{
  GamepadState, neutral, OutputSuppression, apply_suppression,
}
use steam_controller_bridge.Output.{GamepadOutput}
use steam_controller_bridge.Steam.Report.{
  SteamControllerState, DecodedReport, controller_state, DecodeError,
}
use steam_controller_bridge.Steam.Decode.{decode}
use steam_controller_bridge.Mapper.Map.{map, reset_mapper}
use steam_controller_bridge.Engine.State.{
  BridgeEngine, BridgeError, decode_error, output_error, ProcessOutcome, state, status, neutralized,
  no_change, NeutralReason, disconnect, decode_failures, input_timeout, shutdown_reason,
  reset_reason, u32, u64, u128,
}

-- What the clock measures in one `process_report`, in nanoseconds.
pub record Elapsed : Type 0 where
  pub decoding : ℕ
  pub mapping : ℕ
  pub processing : ℕ

-- `PartialEq` of `GamepadState`.
unfoldable pub state_eq : (f : Float) → GamepadState (Float.F f) → GamepadState (Float.F f) → Bool
state_eq f s t =
    s.buttons == t.buttons
    && (hat_index s.hat == hat_index t.hat
        && (f.eq s.left_x t.left_x
            && (f.eq s.left_y t.left_y
                && (f.eq s.right_x t.right_x
                    && (f.eq s.right_y t.right_y
                        && (f.eq s.left_trigger t.left_trigger
                            && f.eq s.right_trigger t.right_trigger))))))

-- `self.last_sent == Some(mapped)`
unfoldable pub already_sent :
    (f : Float) → Option (GamepadState (Float.F f)) → GamepadState (Float.F f) → Bool
already_sent f none mapped = false
already_sent f (some last) mapped = state_eq f last mapped

unfoldable pub suppress :
    (f : Float) → Option OutputSuppression → GamepadState (Float.F f) → GamepadState (Float.F f)
suppress f none mapped = mapped
suppress f (some suppression) mapped = apply_suppression f suppression mapped

-- `last_input.is_some_and(|last| now.saturating_sub(last) >= input_timeout)`
unfoldable pub is_overdue : Option ℕ → ℕ → ℕ → Bool
is_overdue none now timeout = false
is_overdue (some last) now timeout = leb timeout (now - last)

module _ (f : Float) (out : GamepadOutput (Float.F f)) where
  abbrev pub Engine : Type 0
  Engine = BridgeEngine (Float.F f)

  abbrev pub Outcome : Type 0
  Outcome = Result (BridgeError (GamepadOutput.Error out)) (ProcessOutcome (Float.F f))

  abbrev pub Reply : Type 0
  Reply = Engine × GamepadOutput.O out × Outcome

  unfoldable pub set_output_suppression : Option OutputSuppression → Engine → Engine
  set_output_suppression suppression e = record e { suppression = suppression }

  unfoldable pub note_dropped_reports : ℕ → Engine → Engine
  note_dropped_reports count e = record e {
    metrics = record (e.metrics) {
      dropped_input_reports = u64 (e.metrics.dropped_input_reports + count);
    };
  }

  unfoldable pub connected : Engine → Engine
  connected e = record e {
    metrics =
        if e.connected_once
        then record (e.metrics) { hid_reconnects = u64 (e.metrics.hid_reconnects + 1) }
        else e.metrics;
    connected_once = true;
    consecutive_decode_failures = 0;
  }

  -- `force_neutral` behind the send: it commits only what was sent.
  unfoldable pub commit_neutral :
      Engine
      → NeutralReason
      → GamepadOutput.O out × Result (GamepadOutput.Error out) (Unit {0})
      → Reply
  commit_neutral e reason (o, err x) = (e, o, err (output_error x))
  commit_neutral e reason (o, ok _) = (
    record e {
      metrics = record (e.metrics) { output_packets = u64 (e.metrics.output_packets + 1) };
      last_sent = some (neutral f);
      last_input = none;
      mapper = reset_mapper f e.mapper;
      neutralized = true;
    },
    o,
    ok (neutralized reason),
  )

  unfoldable pub force_neutral : Engine → GamepadOutput.O out → NeutralReason → Reply
  unfolding commit_neutral
  force_neutral e o reason = commit_neutral e reason (out.send_neutral o)

  -- A report that does not decode.
  unfoldable pub process_failure : Engine → GamepadOutput.O out → Elapsed → DecodeError → Reply
  process_failure e o elapsed error =
      let e' : Engine = record e {
        metrics = record (e.metrics) {
          decode_failures = u64 (e.metrics.decode_failures + 1);
          processing_time_ns = u128 (e.metrics.processing_time_ns + elapsed.processing);
        };
        consecutive_decode_failures = u32 (e.consecutive_decode_failures + 1);
      } in
      if leb e'.config.decode_failure_limit e'.consecutive_decode_failures
      then force_neutral e' o decode_failures
      else (e', o, err (decode_error error))

  unfoldable pub add_processing : ℕ → Engine → Engine
  add_processing elapsed e = record e {
    metrics = record (e.metrics) {
      processing_time_ns = u128 (e.metrics.processing_time_ns + elapsed);
    };
  }

  -- A controller state behind the send of its mapped state.
  unfoldable pub commit_state :
      Engine
      → Elapsed
      → SteamControllerState
      → (mapped unsuppressed : GamepadState (Float.F f))
      → GamepadOutput.O out × Result (GamepadOutput.Error out) (Unit {0})
      → Reply
  commit_state e elapsed source mapped unsuppressed (o, err x) = (e, o, err (output_error x))
  commit_state e elapsed source mapped unsuppressed (o, ok _) = (
    add_processing elapsed.processing (record e {
      last_sent = some mapped;
      metrics = record (e.metrics) {
        state_changes = u64 (e.metrics.state_changes + 1);
        output_packets = u64 (e.metrics.output_packets + 1);
      };
    }),
    o,
    ok (state source mapped unsuppressed true),
  )

  -- A controller state. The time step is the constant 0.004.
  unfoldable pub process_state :
      Engine → GamepadOutput.O out → ℕ → Elapsed → SteamControllerState → Reply
  unfolding commit_state
  process_state e o now elapsed source =
      let (mapper, unsuppressed) = map f e.mapper source (f.decimal (pos 4) 3) in
      let mapped = suppress f e.suppression unsuppressed in
      let e' : Engine = record e {
        last_input = some now;
        neutralized = false;
        mapper = mapper;
        metrics = record (e.metrics) {
          mapping_time_ns = u128 (e.metrics.mapping_time_ns + elapsed.mapping);
        };
      } in
      if already_sent f e'.last_sent mapped
      then (
        add_processing elapsed.processing (record e' {
          metrics = record (e'.metrics) {
            outputs_skipped_unchanged = u64 (e'.metrics.outputs_skipped_unchanged + 1);
          };
        }),
        o,
        ok (state source mapped unsuppressed false),
      )
      else commit_state e' elapsed source mapped unsuppressed (out.send_state o mapped)

  -- The `match` on the decoded report.
  unfoldable pub process_decoded :
      Engine → GamepadOutput.O out → ℕ → Elapsed → Result DecodeError DecodedReport → Reply
  process_decoded e o now elapsed (err error) = process_failure e o elapsed error
  process_decoded e o now elapsed (ok (controller_state source)) =
      process_state (record e { consecutive_decode_failures = 0 }) o now elapsed source
  process_decoded e o now elapsed (ok report) = (
    add_processing elapsed.processing (record e { consecutive_decode_failures = 0 }),
    o,
    ok (status report),
  )

  unfoldable pub process_report : Engine → GamepadOutput.O out → ℕ → List ℕ → ℕ → Elapsed → Reply
  unfolding process_decoded
  process_report e o report_id bytes now elapsed =
      process_decoded
        (record e {
          metrics = record (e.metrics) {
            input_reports = u64 (e.metrics.input_reports + 1);
            decode_time_ns = u128 (e.metrics.decode_time_ns + elapsed.decoding);
          };
        })
        o now elapsed (decode report_id bytes)

  -- `tick` behind the service of the backend.
  unfoldable pub tick_serviced :
      Engine → ℕ → GamepadOutput.O out × Result (GamepadOutput.Error out) (Unit {0}) → Reply
  tick_serviced e now (o, err x) = (e, o, err (output_error x))
  tick_serviced e now (o, ok _) =
      if not e.neutralized && is_overdue e.last_input now e.config.input_timeout
      then force_neutral e o input_timeout
      else (e, o, ok no_change)

  unfoldable pub tick : Engine → GamepadOutput.O out → ℕ → Reply
  unfolding tick_serviced
  tick e o now = tick_serviced e now (out.service o)

  unfoldable pub disconnected : Engine → GamepadOutput.O out → Reply
  disconnected e o = force_neutral e o disconnect

  unfoldable pub reset : Engine → GamepadOutput.O out → Reply
  reset e o = force_neutral e o reset_reason

  unfoldable pub shutdown : Engine → GamepadOutput.O out → Reply
  shutdown e o = force_neutral e o shutdown_reason
