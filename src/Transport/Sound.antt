-- ===== src/Transport/Sound.antt =====
-- crates/bridge/bridge-output/src/bridge_transport.rs: what every operation of a connection keeps,
-- and the errors that `poll` can answer with.
pub mod Polled
use steam_controller_bridge.Common.{
  ℕ, zero, suc, ◌+◌, ◌-◌, ◌%◌, ◌^◌, ◌≤◌, ◌<◌, ◌≡◌, refl, arith, Bool, true, false, not, ◌&&◌,
  if-cases, if-ind, ◌==◌, leb, List, [], ◌∷◌, ◌++◌, length, length-append, All, Result, ok, err,
  Result-cases, Option, none, some,
}
use steam_controller_bridge.Float.{Float}
use steam_controller_bridge.Gamepad.State.{GamepadState, neutral, validate}
use steam_controller_bridge.Engine.Step.{state_eq}
use steam_controller_bridge.Protocol.Message.{
  Message, hello, hello_response, gamepad_state, ping, pong, device_info, rumble,
  enter_uf2_bootloader, uf2_bootloader_ready, record_install_receipt, install_receipt_recorded,
  error, unknown, new_frame, protocol_version, WireGamepadState,
}
use steam_controller_bridge.Protocol.Encode.{encode, encode_message, encode_gamepad}
use steam_controller_bridge.Protocol.Wire.{wire_try_from, wire_of}
use steam_controller_bridge.Protocol.Stream.{FrameResult, push}
use steam_controller_bridge.Transport.State.{
  firmware_report_grace, IoErrorKind, is_idle, not_connected, connection_aborted, broken_pipe,
  unexpected_eof, would_block, timed_out, other_kind, BridgeTransportError, io, disconnected_error,
  handshake_timed_out, pong_timed_out, from_io, version_rejected, BridgeConnectionStatus, ready,
  is_ready, is_handshaking, ByteTransport,
}
use steam_controller_bridge.Transport.Step.{
  Connection, Outcome, and_then, sent, write_bytes, write_message, write_wire, write_state, enqueue,
  queue_state, newest, remember, flush_newest, flush_states, is_pending, is_due, is_pending_nonce,
  tail,
}
use steam_controller_bridge.Transport.Poll.{
  handle_hello_response, handle_message, handle_decoded, handle_all, receive, poll_read,
  check_handshake, check_firmware, check_pong, send_ping, resend, refresh, service_connection, poll,
  ping_sent, ping_nonce, is_none, is_empty,
}

-- The errors of I/O, of the handshake and of a late pong.
abbrev pub IsPollError : BridgeTransportError → Type 0
IsPollError (io kind) = Unit
IsPollError (disconnected_error kind) = Unit
IsPollError handshake_timed_out = Unit
IsPollError pong_timed_out = Unit
IsPollError (version_rejected version) = version ≡ version
IsPollError _ = ⊥

pub from_io-IsPollError : (kind : IoErrorKind) → IsPollError (from_io kind)
unfolding from_io
from_io-IsPollError would_block = tt
from_io-IsPollError timed_out = tt
from_io-IsPollError not_connected = tt
from_io-IsPollError connection_aborted = tt
from_io-IsPollError broken_pipe = tt
from_io-IsPollError unexpected_eof = tt
from_io-IsPollError (other_kind k) = tt

-- A message that every sequence number can carry.
abbrev pub IsWritable : Message → Type 0
IsWritable m = (n : ℕ) → (bytes : List ℕ) × (encode (new_frame n m) ≡ ok bytes)

pub pong-IsWritable : (nonce : ℕ) → IsWritable (pong nonce)
unfolding encode encode_message
pong-IsWritable nonce n = (_, refl)

pub ping-IsWritable : (nonce : ℕ) → IsWritable (ping nonce)
unfolding encode encode_message
ping-IsWritable nonce n = (_, refl)

pub hello-IsWritable : (lo hi : ℕ) → IsWritable (hello lo hi)
unfolding encode encode_message
hello-IsWritable lo hi n = (_, refl)

pub neutral-IsWritable : IsWritable Message.neutral
unfolding encode encode_message
neutral-IsWritable n = (_, refl)

pub gamepad_state-IsWritable : (wire : WireGamepadState) → IsWritable (gamepad_state wire)
unfolding encode encode_message encode_gamepad
gamepad_state-IsWritable wire n = (_, refl)

module _ (f : Float) (tr : ByteTransport) where
  abbrev pub IsValid : GamepadState (Float.F f) → Type 0
  IsValid state = validate f state ≡ ok tt

  -- The state that is refreshed and the time of its last frame come together.
  abbrev pub IsKept : Option (GamepadState (Float.F f)) → Option ℕ → Type 0
  IsKept none none = Unit
  IsKept (some state) (some at) = IsValid state × (state_eq f state (neutral f) ≡ false)
  IsKept _ _ = ⊥

  abbrev pub HasTime : BridgeConnectionStatus → Option ℕ → Type 0
  HasTime ready none = ⊥
  HasTime _ at = Unit

  -- The queue is within its capacity and holds valid states, what is refreshed is valid and not
  -- neutral, the sequence number has 16 bits, and a ready connection knows since when.
  abbrev pub IsSound : Connection f tr → Type 0
  IsSound c =
      (length c.queued ≤ c.config.queue_capacity)
      × (0 < c.config.queue_capacity)
      × All IsValid c.queued
      × IsKept c.last_state c.last_state_sent
      × (c.sequence < 2 ^ 16)
      × HasTime c.status c.ready_at

  abbrev pub IsPollAnswer : Result BridgeTransportError (Unit {0}) → Type 0
  IsPollAnswer (ok _) = Unit
  IsPollAnswer (err e) = IsPollError e

  abbrev pub IsGood : Outcome f tr → Type 0
  IsGood (c, r) = IsSound c × IsPollAnswer r

  pub and_then-IsGood :
      (x : Outcome f tr) (next : Connection f tr → Outcome f tr)
      → IsGood x
      → ((c : Connection f tr) → IsSound c → IsGood (next c))
      → IsGood (and_then f tr x next)
  and_then-IsGood (c, err e) next good k = good
  and_then-IsGood (c, ok _) next good k = k c good.0

  sent-IsGood :
      (c : Connection f tr) (x : ByteTransport.T tr × Result IoErrorKind (Unit {0}))
      → IsSound c
      → IsGood (sent f tr c x)
  unfolding sent
  sent-IsGood c (t, err kind) h = (h, from_io-IsPollError kind)
  sent-IsGood c (t, ok _) (a, b, v, k, s, r) = ((a, b, v, k, omega arith, r), tt)

  -- A message that every sequence number can carry is put to the transport.
  pub write_message-sent :
      (c : Connection f tr) (m : Message)
      → IsWritable m
      → (bytes : List ℕ) × (encode (new_frame c.sequence m) ≡ ok bytes)
        × (write_message f tr c m ≡ sent f tr c (tr.write_all c.transport bytes))
  unfolding write_message write_bytes
  write_message-sent c m w = let (bytes, e) = w c.sequence in (bytes, e, rw e refl)

  -- So is the frame of a valid state.
  pub write_state-sent :
      (c : Connection f tr) (state : GamepadState (Float.F f))
      → IsValid state
      → (bytes : List ℕ) × (encode (new_frame c.sequence (gamepad_state (wire_of f state)))
          ≡ ok bytes)
        × (write_state f tr c state ≡ sent f tr c (tr.write_all c.transport bytes))
  unfolding write_state write_wire wire_try_from
  write_state-sent c state valid =
      let wire = wire_of f state in
      let (bytes, e, w) =
        write_message-sent c (gamepad_state wire) (gamepad_state-IsWritable wire) in
      (bytes, e, rw valid w)

  pub write_message-IsGood :
      (c : Connection f tr) (m : Message)
      → IsWritable m
      → IsSound c
      → IsGood (write_message f tr c m)
  write_message-IsGood c m w h =
      let (bytes, e, s) = write_message-sent c m w in
      rw s (sent-IsGood c (tr.write_all c.transport bytes) h)

  pub write_state-IsGood :
      (c : Connection f tr) (state : GamepadState (Float.F f))
      → IsValid state
      → IsSound c
      → IsGood (write_state f tr c state)
  write_state-IsGood c state valid h =
      let (bytes, e, s) = write_state-sent c state valid in
      rw s (sent-IsGood c (tr.write_all c.transport bytes) h)
