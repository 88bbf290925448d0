-- ===== src/Transport/Keep.antt =====
-- crates/bridge/bridge-output/src/bridge_transport.rs: what the parts of `poll` keep, for any
-- property of the fields that few of them change.
pub mod Session
use steam_controller_bridge.Common.{
  ℕ, ◌+◌, ◌-◌, ◌%◌, ◌^◌, ◌≡◌, refl, Bool, true, false, not, ◌&&◌, and_left_true, if-cases, if-ind,
  ◌==◌, leb, List, [], ◌∷◌, length, Result, ok, err, Option, none, some, inl, inr, Result-cases,
}
use steam_controller_bridge.Float.{Float}
use steam_controller_bridge.Gamepad.State.{GamepadState, neutral}
use steam_controller_bridge.Engine.Step.{state_eq}
use steam_controller_bridge.Protocol.Message.{
  Message, hello, hello_response, gamepad_state, ping, pong, device_info, rumble,
  enter_uf2_bootloader, uf2_bootloader_ready, record_install_receipt, install_receipt_recorded,
  error, unknown, protocol_version,
}
use steam_controller_bridge.Protocol.Wire.{wire_try_from}
use steam_controller_bridge.Protocol.Stream.{FrameResult, push}
use steam_controller_bridge.Transport.State.{
  IoErrorKind, is_idle, BridgeConnectionStatus, handshaking, ready, unhealthy, disconnected,
  is_ready, is_handshaking, BridgeTransportConfig, ByteTransport,
}
use steam_controller_bridge.Transport.Step.{
  Connection, Outcome, and_then, write_message, write_wire, write_state, newest, remember,
  flush_newest, flush_states, is_pending_nonce, is_due,
}
use steam_controller_bridge.Transport.Poll.{
  handle_hello_response, handle_message, handle_decoded, handle_all, receive, poll_read,
  handle_rumble, check_handshake, check_firmware, check_pong, send_ping, is_late_handshake,
  is_unreported, is_late_pong, is_ping_due, ping_nonce,
}

-- The property of a connection's status, transport, sequence number, configuration, start and queue.
abbrev pub Property : Float → ByteTransport → Type 1
Property f tr =
    BridgeConnectionStatus
    → ByteTransport.T tr
    → ℕ
    → BridgeTransportConfig
    → ℕ
    → List (GamepadState (Float.F f))
    → Type 0

abbrev pub Holds : (f : Float) (tr : ByteTransport) → Property f tr → Connection f tr → Type 0
Holds f tr I c = I c.status c.transport c.sequence c.config c.started c.queued

-- One property of what a success leaves, and one of what an error leaves.
abbrev pub Leaves :
    (f : Float) (tr : ByteTransport) → Property f tr → Property f tr → Outcome f tr → Type 0
Leaves f tr I E (c, ok _) = Holds f tr I c
Leaves f tr I E (c, err e) = Holds f tr E c

-- What may be written: a pong at any time, and the rest on a ready connection.
pub data MayWrite (s : BridgeConnectionStatus) : Message → Type 0 where
  pong_may : {nonce : ℕ} → MayWrite s (pong nonce)
  ready_may : {m : Message} → is_ready s ≡ true → MayWrite s m

-- The operations keep the first property on success, and leave the second on an error.
pub record IsStable (f : Float) (tr : ByteTransport) (I E : Property f tr) : Type 0 where
  pub becomes_ready :
      (c : Connection f tr) → Holds f tr I c → Holds f tr I (record c { status = ready })
  pub fails :
      (c : Connection f tr) (s : BridgeConnectionStatus)
      → is_handshaking s ≡ false
      → Holds f tr I c
      → Holds f tr E (record c { status = s })
  pub refuses : (c : Connection f tr) → Holds f tr I c → Holds f tr E c
  pub has_read :
      (c : Connection f tr)
      → Holds f tr I c
      → Holds f tr I (record c { transport = (tr.read c.transport).0 })
  pub wrote :
      (c : Connection f tr) (m : Message)
      → MayWrite c.status m
      → Holds f tr I c
      → Leaves f tr I E (write_message f tr c m)

-- The first property holds of any queue.
abbrev pub IsForgetful : (f : Float) (tr : ByteTransport) → Property f tr → Type 0
IsForgetful f tr I =
    (c : Connection f tr) → Holds f tr I c → Holds f tr I (record c { queued = [] })

module _ (f : Float) (tr : ByteTransport) (I E : Property f tr) (stable : IsStable f tr I E) where
  abbrev C : Type 0
  C = Connection f tr

  abbrev H : C → Type 0
  H = Holds f tr I

  abbrev Keeps : Outcome f tr → Type 0
  Keeps = Leaves f tr I E

  pub and_then-Leaves :
      (x : Outcome f tr) (next : C → Outcome f tr)
      → Keeps x
      → ((c : C) → H c → Keeps (next c))
      → Keeps (and_then f tr x next)
  and_then-Leaves (c, err e) next h k = h
  and_then-Leaves (c, ok _) next h k = k c h

  pub write_state-Leaves :
      (c : C) (state : GamepadState (Float.F f))
      → is_ready c.status ≡ true
      → H c
      → Keeps (write_state f tr c state)
  unfolding write_state write_wire
  write_state-Leaves c state e h = elim (Result-cases (wire_try_from f state)) [
    | inl (wire, w) ↦ rw w (stable.wrote c (gamepad_state wire) (ready_may e) h)
    | inr (failure, w) ↦ rw w (stable.refuses c h)
  ]

  handle_message-Leaves :
      (c : C) (m : Message) (now : ℕ) → H c → Keeps (handle_message f tr c m now)
  unfolding handle_message handle_hello_response handle_rumble
  handle_message-Leaves c (hello_response version) now h =
      if-ind (Keeps) (version == protocol_version) (stable.becomes_ready c h)
        (stable.fails c disconnected refl h)
  handle_message-Leaves c (ping nonce) now h = stable.wrote c (pong nonce) pong_may h
  handle_message-Leaves c (pong nonce) now h =
      if-ind (Keeps) (is_pending_nonce c.pending_ping nonce) h h
  handle_message-Leaves c (device_info payload) now h = h
  handle_message-Leaves c (uf2_bootloader_ready request_id) now h =
      if-ind (Keeps) (is_ready c.status) h h
  handle_message-Leaves c (install_receipt_recorded request_id receipt) now h =
      if-ind (Keeps) (is_ready c.status) h h
  handle_message-Leaves c (error code detail) now h =
      if-ind (Keeps) (is_ready c.status && length detail == 4) h h
  handle_message-Leaves c (rumble low high) now h = if-ind (Keeps) (is_ready c.status) h h
  handle_message-Leaves c (hello lo hi) now h = h
  handle_message-Leaves c (gamepad_state wire) now h = h
  handle_message-Leaves c Message.neutral now h = h
  handle_message-Leaves c (enter_uf2_bootloader request_id) now h = h
  handle_message-Leaves c (record_install_receipt request_id receipt) now h = h
  handle_message-Leaves c (unknown kind payload) now h = h

  handle_all-Leaves :
      (c : C) (output : List FrameResult) (now : ℕ) → H c → Keeps (handle_all f tr c output now)
  unfolding handle_all handle_decoded
  handle_all-Leaves c [] now h = h
  handle_all-Leaves c (ok frame ∷ rest) now h =
      and_then-Leaves (handle_message f tr _ frame.message now) (λ c. handle_all f tr c rest now)
        (handle_message-Leaves _ frame.message now h) (λ c' h'. handle_all-Leaves c' rest now h')
  handle_all-Leaves c (err e ∷ rest) now h = handle_all-Leaves _ rest now h

  pub poll_read-Leaves :
      (c : C) (answer : Result IoErrorKind (List ℕ)) (now : ℕ)
      → H c
      → Keeps (poll_read f tr c answer now)
  unfolding poll_read receive
  poll_read-Leaves c (ok []) now h = h
  poll_read-Leaves c (ok (byte ∷ bytes)) now h =
      elim (push c.decoder (byte ∷ bytes)) as (λ o. Keeps (receive f tr c o now)) [
        | none ↦ h
        | some (output, buffer) ↦ handle_all-Leaves _ output now h
      ]
  poll_read-Leaves c (err kind) now h =
      if-ind (Keeps) (is_idle kind) h (stable.fails c disconnected refl h)

  pub send_ping-Leaves : (now : ℕ) (c : C) → H c → Keeps (send_ping f tr now c)
  unfolding send_ping
  send_ping-Leaves now c h =
      if-cases Keeps (is_ping_due f tr now c)
        (λ e.
          and_then-Leaves (write_message f tr c (ping (ping_nonce f tr c))) (λ c'. _)
            (stable.wrote c (ping _) (ready_may (and_left_true (is_ready c.status) _ e)) h)
            (λ c' h'. h'))
        (λ e. h)

  pub check_handshake-Leaves : (now : ℕ) (c : C) → H c → Keeps (check_handshake f tr now c)
  unfolding check_handshake
  check_handshake-Leaves now c h =
      if-ind Keeps (is_late_handshake f tr now c) (stable.fails c disconnected refl h) h

  pub check_firmware-Leaves : (now : ℕ) (c : C) → H c → Keeps (check_firmware f tr now c)
  unfolding check_firmware
  check_firmware-Leaves now c h = if-ind Keeps (is_unreported f tr now c) h h

  pub check_pong-Leaves : (now : ℕ) (c : C) → H c → Keeps (check_pong f tr now c)
  unfolding check_pong
  check_pong-Leaves now c h =
      if-ind Keeps (is_late_pong f tr now c) (stable.fails c unhealthy refl h) h
