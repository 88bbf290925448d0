-- ===== src/Transport/Poll.antt =====
-- crates/bridge/bridge-output/src/bridge_transport.rs: `handle_message` and `poll`.
use steam_controller_bridge.Common.{
  ℕ, ◌-◌, ◌*◌, ◌^◌, Bool, true, false, ◌&&◌, if◌then◌else◌, ◌==◌, leb, bit_or, List, [], ◌∷◌,
  length, Result, ok, err, Option, none, some,
}
use steam_controller_bridge.Float.{Float}
use steam_controller_bridge.Gamepad.State.{GamepadState}
use steam_controller_bridge.Protocol.Message.{
  Message, hello_response, ping, pong, device_info, rumble, uf2_bootloader_ready,
  install_receipt_recorded, error, protocol_version,
}
use steam_controller_bridge.Protocol.Parse.{u32_at}
use steam_controller_bridge.Protocol.Stream.{push, FrameResult}
use steam_controller_bridge.Transport.Firmware.{parse_device_info, unreported_version}
use steam_controller_bridge.Transport.State.{
  firmware_report_grace, IoErrorKind, is_idle, handshake_timed_out, pong_timed_out,
  version_rejected, from_io, ready, unhealthy, disconnected, is_handshaking, is_ready, u64_add,
  OutputFeedback, ByteTransport,
}
use steam_controller_bridge.Transport.Step.{
  is_pending, is_due, is_pending_nonce, is_checksum_mismatch, Connection, Outcome, and_then,
  write_message, write_state, flush_states,
}

-- `u64::from(replace(..).is_some())`: what a replaced command adds to the coalesced ones.
abbrev pub coalesced : Option OutputFeedback → ℕ
coalesced none = 0
coalesced (some feedback) = 1

abbrev pub is_empty {ℓ} : {A : Type ℓ} → List A → Bool
is_empty [] = true
is_empty (x ∷ xs) = false

abbrev pub is_none {ℓ} : {A : Type ℓ} → Option A → Bool
is_none none = true
is_none (some x) = false

module _ (f : Float) (tr : ByteTransport) where
  abbrev C : Type 0
  C = Connection f tr

  abbrev pub done : C → Outcome f tr
  done c = (c, ok tt)

  unfoldable pub handle_hello_response : C → ℕ → ℕ → Outcome f tr
  handle_hello_response c version now =
      if version == protocol_version
      then done (record c { status = ready; ready_at = some now })
      else (record c { status = disconnected }, err (version_rejected version))

  unfoldable pub handle_rumble : C → ℕ → ℕ → C
  handle_rumble c low high = record c {
    pending_feedback = some (record { low_frequency = low; high_frequency = high });
    metrics = record c.metrics {
      rumble_commands_received = u64_add c.metrics.rumble_commands_received 1;
      rumble_commands_coalesced =
          u64_add c.metrics.rumble_commands_coalesced (coalesced c.pending_feedback);
    };
  }

  unfoldable pub handle_message : C → Message → ℕ → Outcome f tr
  unfolding handle_hello_response handle_rumble write_message
  handle_message c (hello_response version) now = handle_hello_response c version now
  handle_message c (ping nonce) now = write_message f tr c (pong nonce)
  handle_message c (pong nonce) now =
      if is_pending_nonce c.pending_ping nonce
      then done (record c { pending_ping = none })
      else done c
  handle_message c (device_info payload) now =
      done (record c { firmware = parse_device_info payload })
  handle_message c (uf2_bootloader_ready request_id) now =
      if is_ready c.status
      then done (record c { uf2_bootloader_ready = some request_id })
      else done c
  handle_message c (install_receipt_recorded request_id receipt) now =
      if is_ready c.status
      then done (record c { install_receipt_recorded = some (request_id, receipt) })
      else done c
  handle_message c (error code detail) now =
      if is_ready c.status && length detail == 4
      then done (record c { control_error = some (u32_at detail 0, code) })
      else done c
  handle_message c (rumble low high) now =
      if is_ready c.status then done (handle_rumble c low high) else done c
  handle_message c _ now = done c

  unfoldable pub handle_decoded : C → FrameResult → ℕ → Outcome f tr
  unfolding handle_message
  handle_decoded c (ok frame) now =
      handle_message
        (record c {
          metrics = record c.metrics { packets_received = u64_add c.metrics.packets_received 1 };
        })
        frame.message now
  handle_decoded c (err e) now = done (record c {
    metrics = record c.metrics {
      framing_failures = u64_add c.metrics.framing_failures 1;
      checksum_failures =
          u64_add c.metrics.checksum_failures (if is_checksum_mismatch e then 1 else 0);
    };
  })

  -- The loop over what the decoder put out.
  unfoldable pub handle_all : C → List FrameResult → ℕ → Outcome f tr
  unfolding handle_decoded
  handle_all c [] now = done c
  handle_all c (decoded ∷ rest) now =
      and_then f tr (handle_decoded c decoded now) (λ c. handle_all c rest now)

  -- `push` always answers.
  unfoldable pub receive : C → Option (List FrameResult × List ℕ) → ℕ → Outcome f tr
  unfolding handle_all
  receive c none now = done c
  receive c (some (output, buffer)) now = handle_all (record c { decoder = buffer }) output now

  unfoldable pub poll_read : C → Result IoErrorKind (List ℕ) → ℕ → Outcome f tr
  unfolding receive
  poll_read c (ok []) now = done c
  poll_read c (ok (byte ∷ bytes)) now = receive c (push c.decoder (byte ∷ bytes)) now
  poll_read c (err kind) now =
      if is_idle kind then done c else (record c { status = disconnected }, err (from_io kind))

  abbrev pub is_late_handshake : ℕ → C → Bool
  is_late_handshake now c =
      is_handshaking c.status && leb c.config.handshake_timeout (now - c.started)

  unfoldable pub check_handshake : ℕ → C → Outcome f tr
  check_handshake now c =
      if is_late_handshake now c
      then (record c { status = disconnected }, err handshake_timed_out)
      else done c

  abbrev pub is_unreported : ℕ → C → Bool
  is_unreported now c =
      is_pending c.firmware.version
      && (is_ready c.status && is_due c.ready_at now firmware_report_grace)

  unfoldable pub check_firmware : ℕ → C → Outcome f tr
  check_firmware now c =
      if is_unreported now c
      then done (record c { firmware = record c.firmware { version = unreported_version } })
      else done c

  abbrev pub ping_sent : Option (ℕ × ℕ) → Option ℕ
  ping_sent none = none
  ping_sent (some (nonce, at)) = some at

  abbrev pub is_late_pong : ℕ → C → Bool
  is_late_pong now c = is_due (ping_sent c.pending_ping) now c.config.pong_timeout

  unfoldable pub check_pong : ℕ → C → Outcome f tr
  check_pong now c =
      if is_late_pong now c then (record c { status = unhealthy }, err pong_timed_out) else done c

  -- The sequence number in both halves of the 32 bits.
  abbrev pub ping_nonce : C → ℕ
  ping_nonce c = bit_or c.sequence (c.sequence * 2 ^ 16)

  abbrev pub is_ping_due : ℕ → C → Bool
  is_ping_due now c =
      is_ready c.status
      && (is_none c.pending_ping && leb c.config.ping_interval (now - c.last_ping))

  unfoldable pub send_ping : ℕ → C → Outcome f tr
  unfolding write_message
  send_ping now c =
      if is_ping_due now c
      then and_then f tr (write_message f tr c (ping (ping_nonce c)))
          (λ c'. done (record c' { pending_ping = some (ping_nonce c, now); last_ping = now }))
      else done c

  unfoldable pub refreshed : ℕ → C → Outcome f tr
  refreshed now c = done (record c {
    last_state_sent = some now;
    metrics = record c.metrics { state_refreshes = u64_add c.metrics.state_refreshes 1 };
  })

  unfoldable pub resend : ℕ → C → Option (GamepadState (Float.F f)) → Outcome f tr
  unfolding write_state refreshed
  resend now c none = done c
  resend now c (some state) = and_then f tr (write_state f tr c state) (refreshed now)

  abbrev pub is_refresh_due : ℕ → C → Bool
  is_refresh_due now c =
      is_ready c.status
      && (is_empty c.queued && is_due c.last_state_sent now c.config.state_refresh_interval)

  unfoldable pub refresh : ℕ → C → Outcome f tr
  unfolding resend
  refresh now c = if is_refresh_due now c then resend now c c.last_state else done c

  -- What `poll` does after the read and the check of the handshake.
  unfoldable pub service_session : ℕ → C → Outcome f tr
  unfolding check_firmware check_pong send_ping flush_states refresh
  service_session now c = and_then f tr (check_firmware now c) (λ c.
      and_then f tr (check_pong now c) (λ c.
        and_then f tr (send_ping now c)
          (λ c. and_then f tr (flush_states f tr c now) (refresh now))))

  -- What `poll` does after the read.
  unfoldable pub service_connection : ℕ → C → Outcome f tr
  unfolding check_handshake service_session
  service_connection now c = and_then f tr (check_handshake now c) (service_session now)

  unfoldable pub poll : C → ℕ → Outcome f tr
  unfolding poll_read service_connection
  poll c now =
      let (transport, answer) = tr.read c.transport in
      and_then f tr (poll_read (record c { transport = transport }) answer now)
        (service_connection now)
