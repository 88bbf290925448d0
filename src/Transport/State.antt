-- ===== src/Transport/State.antt =====
-- crates/bridge/bridge-output/src/bridge_transport.rs: configuration, errors, counters and the
-- state of a connection. Times are nanoseconds.
use steam_controller_bridge.Common.{
  ℕ, ◌+◌, ◌%◌, ◌^◌, Bool, true, false, List, [], Result, Option, none,
}
use steam_controller_bridge.Gamepad.State.{GamepadState, InvalidState}
use steam_controller_bridge.Protocol.Message.{ProtocolError}
use steam_controller_bridge.Transport.Firmware.{FirmwareInstallReceipt, FirmwareInfo, default_info}

abbrev pub firmware_report_grace : ℕ
firmware_report_grace = 2000000000

abbrev pub transport_service_min_interval : ℕ
transport_service_min_interval = 10000000

-- `io::ErrorKind` as far as the code tells its cases apart.
pub data IoErrorKind : Type 0 where
  would_block timed_out not_connected connection_aborted broken_pipe unexpected_eof : IoErrorKind
  other_kind : ℕ → IoErrorKind

-- `matches!(error.kind(), WouldBlock | TimedOut)`
abbrev pub is_idle : IoErrorKind → Bool
is_idle would_block = true
is_idle timed_out = true
is_idle _ = false

-- The names that the errors carry.
pub data ConfigField : Type 0 where
  queue_capacity_field handshake_timeout_field refresh_interval_field : ConfigField

pub data Capability : Type 0 where
  uf2_bootloader_entry installation_receipts : Capability

pub data ControlStage : Type 0 where
  awaiting_info awaiting_bootloader awaiting_receipt : ControlStage

-- The text of an I/O error is left aside, as is that of the errors of opening an endpoint.
pub data BridgeTransportError : Type 0 where
  io disconnected_error : IoErrorKind → BridgeTransportError
  access_denied device_busy gamepad_unavailable : BridgeTransportError
  invalid_topology unsupported_transport : BridgeTransportError
  protocol : ProtocolError → BridgeTransportError
  invalid_state : InvalidState → BridgeTransportError
  invalid_config : ConfigField → BridgeTransportError
  handshake_timed_out pong_timed_out not_ready receipt_mismatch : BridgeTransportError
  version_rejected : ℕ → BridgeTransportError
  unsupported_capability : Capability → BridgeTransportError
  control_timed_out : ControlStage → BridgeTransportError
  control_rejected : (request_id code : ℕ) → BridgeTransportError
  request_mismatch : (expected actual : ℕ) → BridgeTransportError

-- `From<io::Error>`
unfoldable pub from_io : IoErrorKind → BridgeTransportError
from_io not_connected = disconnected_error not_connected
from_io connection_aborted = disconnected_error connection_aborted
from_io broken_pipe = disconnected_error broken_pipe
from_io unexpected_eof = disconnected_error unexpected_eof
from_io kind = io kind

pub record BridgeTransportConfig : Type 0 where
  pub queue_capacity : ℕ
  pub handshake_timeout : ℕ
  pub ping_interval : ℕ
  pub pong_timeout : ℕ
  pub state_refresh_interval : ℕ
  pub packet_logging : Bool

abbrev pub default_transport_config : BridgeTransportConfig
default_transport_config = record {
  queue_capacity = 8;
  handshake_timeout = 1000000000;
  ping_interval = 1000000000;
  pong_timeout = 2000000000;
  state_refresh_interval = 25000000;
  packet_logging = false;
}

pub data BridgeConnectionStatus : Type 0 where
  handshaking ready unhealthy disconnected : BridgeConnectionStatus

abbrev pub is_handshaking : BridgeConnectionStatus → Bool
is_handshaking handshaking = true
is_handshaking _ = false

abbrev pub is_ready : BridgeConnectionStatus → Bool
is_ready ready = true
is_ready _ = false

-- `+` on u64, which wraps in a release build.
unfoldable pub u64_add : ℕ → ℕ → ℕ
u64_add a b = (a + b) % 2 ^ 64

pub record BridgeTransportMetrics : Type 0 where
  pub packets_sent : ℕ
  pub packets_received : ℕ
  pub framing_failures : ℕ
  pub checksum_failures : ℕ
  pub states_dropped : ℕ
  pub reconnects : ℕ
  pub state_refreshes : ℕ
  pub rumble_commands_received : ℕ
  pub rumble_commands_coalesced : ℕ

abbrev pub no_metrics : BridgeTransportMetrics
no_metrics = record {
  packets_sent = 0;
  packets_received = 0;
  framing_failures = 0;
  checksum_failures = 0;
  states_dropped = 0;
  reconnects = 0;
  state_refreshes = 0;
  rumble_commands_received = 0;
  rumble_commands_coalesced = 0;
}

-- `OutputFeedback`, whose one case is a rumble.
pub record OutputFeedback : Type 0 where
  pub low_frequency : ℕ
  pub high_frequency : ℕ

-- `ByteTransport`: `read` answers with the bytes that it put into a buffer of 512.
pub record ByteTransport : Type 1 where
  pub T : Type 0
  pub write_all : T → List ℕ → T × Result IoErrorKind (Unit {0})
  pub read : T → T × Result IoErrorKind (List ℕ)

-- Over the types of the axis values and of the transport. The decoder is its buffer.
pub record BridgeConnection (F T : Type 0) : Type 0 where
  pub transport : T
  pub config : BridgeTransportConfig
  pub status : BridgeConnectionStatus
  pub decoder : List ℕ
  pub sequence : ℕ  -- u16
  pub queued : List (GamepadState F)
  pub started : ℕ
  pub last_ping : ℕ
  pub pending_ping : Option (ℕ × ℕ)
  pub last_state : Option (GamepadState F)
  pub last_state_sent : Option ℕ
  pub pending_feedback : Option OutputFeedback
  pub ready_at : Option ℕ
  pub firmware : FirmwareInfo
  pub uf2_bootloader_ready : Option ℕ
  pub install_receipt_recorded : Option (ℕ × FirmwareInstallReceipt)
  pub control_error : Option (ℕ × ℕ)
  pub metrics : BridgeTransportMetrics

-- The fields that `new` writes before the hello.
unfoldable pub fresh : {F T : Type 0} → T → BridgeTransportConfig → ℕ → BridgeConnection F T
fresh transport config now = record {
  transport = transport;
  config = config;
  status = handshaking;
  decoder = [];
  sequence = 0;
  queued = [];
  started = now;
  last_ping = now;
  pending_ping = none;
  last_state = none;
  last_state_sent = none;
  pending_feedback = none;
  ready_at = none;
  firmware = default_info;
  uf2_bootloader_ready = none;
  install_receipt_recorded = none;
  control_error = none;
  metrics = no_metrics;
}
