-- ===== src/Transport/Step.antt =====
-- crates/bridge/bridge-output/src/bridge_transport.rs: the operations of `BridgeConnection`.
use steam_controller_bridge.Common.{
  ℕ, ◌+◌, ◌-◌, ◌%◌, ◌^◌, Bool, true, false, not, if◌then◌else◌, ◌==◌, leb, List, [], ◌∷◌, ◌++◌,
  length, Result, ok, err, Option, none, some,
}
use steam_controller_bridge.Float.{Float}
use steam_controller_bridge.Gamepad.State.{GamepadState, neutral, validate, InvalidState}
use steam_controller_bridge.Engine.Step.{state_eq}
use steam_controller_bridge.Protocol.Message.{
  Message, hello, gamepad_state, enter_uf2_bootloader, record_install_receipt, ProtocolError,
  checksum_mismatch, new_frame, protocol_version, WireGamepadState,
}
use steam_controller_bridge.Protocol.Encode.{encode}
use steam_controller_bridge.Protocol.Wire.{wire_try_from}
use steam_controller_bridge.Transport.Firmware.{
  contains_capability, enter_uf2, install_receipt, FirmwareInstallReceipt, FirmwareVersion,
  pending_version, receipt_eq,
}
use steam_controller_bridge.Transport.State.{
  IoErrorKind, queue_capacity_field, handshake_timeout_field, refresh_interval_field, Capability,
  uf2_bootloader_entry, installation_receipts, BridgeTransportError, protocol, invalid_state,
  invalid_config, not_ready, receipt_mismatch, unsupported_capability, control_rejected,
  request_mismatch, from_io, BridgeTransportConfig, is_ready, u64_add, OutputFeedback,
  ByteTransport, BridgeConnection, fresh,
}

-- `validate_receipt_response`
unfoldable pub validate_receipt_response :
    ℕ
    → FirmwareInstallReceipt
    → ℕ
    → FirmwareInstallReceipt
    → Result BridgeTransportError FirmwareInstallReceipt
validate_receipt_response expected_id expected_receipt actual_id actual_receipt =
    if not (actual_id == expected_id)
    then err (request_mismatch expected_id actual_id)
    else if not (receipt_eq actual_receipt expected_receipt)
    then err receipt_mismatch
    else ok actual_receipt

abbrev pub is_pending : FirmwareVersion → Bool
is_pending pending_version = true
is_pending _ = false

-- `is_some_and(|sent| now.saturating_sub(sent) >= interval)`
abbrev pub is_due : Option ℕ → ℕ → ℕ → Bool
is_due none now interval = false
is_due (some sent) now interval = leb interval (now - sent)

abbrev pub is_pending_nonce : Option (ℕ × ℕ) → ℕ → Bool
is_pending_nonce none nonce = false
is_pending_nonce (some (expected, sent)) nonce = expected == nonce

abbrev pub is_checksum_mismatch : ProtocolError → Bool
is_checksum_mismatch (checksum_mismatch expected actual) = true
is_checksum_mismatch _ = false

module _ (f : Float) (tr : ByteTransport) where
  abbrev pub Connection : Type 0
  Connection = BridgeConnection (Float.F f) (ByteTransport.T tr)

  -- A connection with what the operation on it answered.
  abbrev pub Outcome : Type 0
  Outcome = Connection × Result BridgeTransportError (Unit {0})

  -- `operation?; next`
  abbrev pub and_then : Outcome → (Connection → Outcome) → Outcome
  and_then (c, err e) next = (c, err e)
  and_then (c, ok _) next = next c

  -- The connection after a frame that its transport has accepted.
  abbrev pub wrote : Connection → ByteTransport.T tr → Connection
  wrote c t = record c {
    transport = t;
    sequence = (c.sequence + 1) % 2 ^ 16;
    metrics = record c.metrics { packets_sent = u64_add c.metrics.packets_sent 1 };
  }

  unfoldable pub sent : Connection → ByteTransport.T tr × Result IoErrorKind (Unit {0}) → Outcome
  sent c (t, err kind) = (record c { transport = t }, err (from_io kind))
  sent c (t, ok _) = (wrote c t, ok tt)

  unfoldable pub write_bytes : Connection → Result ProtocolError (List ℕ) → Outcome
  unfolding sent
  write_bytes c (err e) = (c, err (protocol e))
  write_bytes c (ok bytes) = sent c (tr.write_all c.transport bytes)

  -- `write_message`; the log of packets is left aside.
  unfoldable pub write_message : Connection → Message → Outcome
  unfolding write_bytes
  write_message c message = write_bytes c (encode (new_frame c.sequence message))

  -- `connection.write_message(..)?; Ok(connection)`
  unfoldable pub opened_with : Outcome → Result BridgeTransportError Connection
  opened_with (c, ok _) = ok c
  opened_with (c, err e) = err e

  unfoldable pub new_connection :
      ByteTransport.T tr → BridgeTransportConfig → ℕ → Result BridgeTransportError Connection
  unfolding write_message fresh opened_with
  new_connection transport config now =
      if config.queue_capacity == 0
      then err (invalid_config queue_capacity_field)
      else if config.handshake_timeout == 0
      then err (invalid_config handshake_timeout_field)
      else if config.state_refresh_interval == 0
      then err (invalid_config refresh_interval_field)
      else opened_with
          (write_message (fresh transport config now) (hello protocol_version protocol_version))

  unfoldable pub require_capability :
      Connection → ℕ → Capability → Result BridgeTransportError (Unit {0})
  unfolding contains_capability
  require_capability c capability name =
      if not (is_ready c.status)
      then err not_ready
      else if not (contains_capability c.firmware.capabilities capability)
      then err (unsupported_capability name)
      else ok tt

  unfoldable pub request_uf2_bootloader : Connection → ℕ → Outcome
  unfolding write_message require_capability
  request_uf2_bootloader c request_id =
      and_then (c, require_capability c enter_uf2 uf2_bootloader_entry)
        (λ c.
          write_message (record c { uf2_bootloader_ready = none; control_error = none })
            (enter_uf2_bootloader request_id))

  unfoldable pub record_receipt : Connection → ℕ → FirmwareInstallReceipt → Outcome
  unfolding write_message require_capability
  record_receipt c request_id receipt =
      and_then (c, require_capability c install_receipt installation_receipts)
        (λ c.
          write_message (record c { install_receipt_recorded = none; control_error = none })
            (record_install_receipt request_id receipt))

  unfoldable pub take_feedback : Connection → Connection × Option OutputFeedback
  take_feedback c = (record c { pending_feedback = none }, c.pending_feedback)

  unfoldable pub take_uf2_bootloader_ready : Connection → Connection × Option ℕ
  take_uf2_bootloader_ready c = (record c { uf2_bootloader_ready = none }, c.uf2_bootloader_ready)

  unfoldable pub take_receipt_recorded :
      Connection → Connection × Option (ℕ × FirmwareInstallReceipt)
  take_receipt_recorded c =
      (record c { install_receipt_recorded = none }, c.install_receipt_recorded)

  abbrev pub control_error_of : Option (ℕ × ℕ) → ℕ → Option BridgeTransportError
  control_error_of none expected = none
  control_error_of (some (request_id, code)) expected =
      if request_id == expected
      then some (control_rejected request_id code)
      else some (request_mismatch expected request_id)

  unfoldable pub take_control_error : Connection → ℕ → Connection × Option BridgeTransportError
  take_control_error c expected =
      (record c { control_error = none }, control_error_of c.control_error expected)

  abbrev pub tail : List (GamepadState (Float.F f)) → List (GamepadState (Float.F f))
  tail [] = []
  tail (state ∷ states) = states

  -- `pop_front` at the limit, then `push_back`.
  unfoldable pub enqueue : Connection → GamepadState (Float.F f) → Connection
  enqueue c state =
      if length c.queued == c.config.queue_capacity
      then record c {
        queued = tail c.queued ++ (state ∷ []);
        metrics = record c.metrics { states_dropped = u64_add c.metrics.states_dropped 1 };
      }
      else record c { queued = c.queued ++ (state ∷ []) }

  unfoldable pub enqueue_checked :
      Connection → GamepadState (Float.F f) → Result InvalidState (Unit {0}) → Outcome
  unfolding enqueue
  enqueue_checked c state (ok _) = (enqueue c state, ok tt)
  enqueue_checked c state (err e) = (c, err (invalid_state e))

  unfoldable pub queue_state : Connection → GamepadState (Float.F f) → Outcome
  unfolding enqueue_checked
  queue_state c state = enqueue_checked c state (validate f state)

  -- `self.write_message(Message::GamepadState(WireGamepadState::try_from(state)?))`
  unfoldable pub write_wire : Connection → Result InvalidState WireGamepadState → Outcome
  unfolding write_message
  write_wire c (ok wire) = write_message c (gamepad_state wire)
  write_wire c (err e) = (c, err (invalid_state e))

  unfoldable pub write_state : Connection → GamepadState (Float.F f) → Outcome
  unfolding write_wire
  write_state c state = write_wire c (wire_try_from f state)

  -- `pop_back`
  unfoldable pub newest : List (GamepadState (Float.F f)) → Option (GamepadState (Float.F f))
  newest [] = none
  newest (state ∷ []) = some state
  newest (state ∷ next ∷ rest) = newest (next ∷ rest)

  -- The state is the last one that the firmware holds; neutral needs no refresh.
  unfoldable pub remember : ℕ → GamepadState (Float.F f) → Connection → Outcome
  remember now state c = (
    if state_eq f state (neutral f)
        then record c { last_state = none; last_state_sent = none }
        else record c { last_state = some state; last_state_sent = some now },
    ok tt,
  )

  unfoldable pub flush_newest : Connection → ℕ → Option (GamepadState (Float.F f)) → Outcome
  unfolding write_state remember
  flush_newest c now none = (c, ok tt)
  flush_newest c now (some state) =
      and_then
        (write_state
          (record c {
            queued = [];
            metrics = record c.metrics {
              states_dropped = u64_add c.metrics.states_dropped (length c.queued - 1);
            };
          })
          state)
        (remember now state)

  unfoldable pub flush_states : Connection → ℕ → Outcome
  unfolding flush_newest
  flush_states c now =
      if not (is_ready c.status) then (c, ok tt) else flush_newest c now (newest c.queued)

  unfoldable pub send_neutral_now : Connection → Outcome
  unfolding write_message
  send_neutral_now c =
      if not (is_ready c.status)
      then (c, err not_ready)
      else write_message (record c { queued = []; last_state = none; last_state_sent = none })
          Message.neutral
