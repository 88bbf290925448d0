-- ===== src/Engine/State.antt =====
-- crates/bridge/bridge-core/src/lib.rs: configuration, metrics, outcomes and `BridgeEngine::new`.
use steam_controller_bridge.Common.{
  ℕ, ◌^◌, ◌%◌, Bool, true, false, if◌then◌else◌, ◌==◌, Option, none, Result, ok, err,
}
use steam_controller_bridge.Float.{Float}
use steam_controller_bridge.Gamepad.State.{GamepadState, OutputSuppression}
use steam_controller_bridge.Steam.Report.{SteamControllerState, DecodedReport, DecodeError}
use steam_controller_bridge.Mapper.Config.{MapperConfig, MappingError}
use steam_controller_bridge.Mapper.Map.{ControllerMapper, new_mapper}

-- A `Duration` is a number of nanoseconds.
pub record BridgeConfig : Type 0 where
  pub input_timeout : ℕ
  pub decode_failure_limit : ℕ  -- u32

abbrev pub default_bridge_config : BridgeConfig
default_bridge_config = record { input_timeout = 200000000; decode_failure_limit = 3 }

-- Counters of 32, 64 and 128 bits wrap.
abbrev pub u32 : ℕ → ℕ
u32 n = n % 2 ^ 32

abbrev pub u64 : ℕ → ℕ
u64 n = n % 2 ^ 64

abbrev pub u128 : ℕ → ℕ
u128 n = n % 2 ^ 128

pub record BridgeMetrics : Type 0 where
  pub input_reports : ℕ
  pub dropped_input_reports : ℕ
  pub decode_failures : ℕ
  pub state_changes : ℕ
  pub output_packets : ℕ
  pub outputs_skipped_unchanged : ℕ
  pub hid_reconnects : ℕ
  pub decode_time_ns : ℕ
  pub mapping_time_ns : ℕ
  pub processing_time_ns : ℕ

abbrev pub zero_metrics : BridgeMetrics
zero_metrics = record {
  input_reports = 0;
  dropped_input_reports = 0;
  decode_failures = 0;
  state_changes = 0;
  output_packets = 0;
  outputs_skipped_unchanged = 0;
  hid_reconnects = 0;
  decode_time_ns = 0;
  mapping_time_ns = 0;
  processing_time_ns = 0;
}

pub data NeutralReason : Type 0 where
  disconnect decode_failures input_timeout shutdown_reason reset_reason : NeutralReason

pub data ProcessOutcome (F : Type 0) : Type 0 where
  state :
      SteamControllerState
      → (mapped unsuppressed : GamepadState F) → (sent : Bool) → ProcessOutcome F
  status : DecodedReport → ProcessOutcome F
  neutralized : NeutralReason → ProcessOutcome F
  no_change : ProcessOutcome F

pub data ConfigField : Type 0 where
  input_timeout_field decode_failure_limit_field : ConfigField

-- Over the errors of the backend.
pub data BridgeError (E : Type 0) : Type 0 where
  invalid_config : ConfigField → BridgeError E
  mapping : MappingError → BridgeError E
  decode_error : DecodeError → BridgeError E
  output_error : E → BridgeError E

-- The decoder has no state.
pub record BridgeEngine (F : Type 0) : Type 0 where
  pub config : BridgeConfig
  pub mapper : ControllerMapper F
  pub metrics : BridgeMetrics
  pub last_input : Option ℕ
  pub last_sent : Option (GamepadState F)
  pub consecutive_decode_failures : ℕ  -- u32
  pub connected_once : Bool
  pub neutralized : Bool
  pub suppression : Option OutputSuppression

abbrev pub fresh_engine : {F : Type 0} → BridgeConfig → ControllerMapper F → BridgeEngine F
fresh_engine config mapper = record {
  config = config;
  mapper = mapper;
  metrics = zero_metrics;
  last_input = none;
  last_sent = none;
  consecutive_decode_failures = 0;
  connected_once = false;
  neutralized = true;
  suppression = none;
}

-- `BridgeEngine::new`
unfoldable pub new_engine :
    (f : Float) {E : Type 0}
    → BridgeConfig
    → MapperConfig (Float.F f)
    → Result (BridgeError E) (BridgeEngine (Float.F f))
new_engine f config mapper_config =
    if config.input_timeout == 0
    then err (invalid_config input_timeout_field)
    else if config.decode_failure_limit == 0
    then err (invalid_config decode_failure_limit_field)
    else elim (new_mapper f mapper_config) [
      | ok mapper ↦ ok (fresh_engine config mapper)
      | err e ↦ err (mapping e)
    ]
