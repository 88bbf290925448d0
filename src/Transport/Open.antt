-- ===== src/Transport/Open.antt =====
-- crates/bridge/bridge-output/src/bridge_transport.rs: what a successful `poll` leaves of the status
-- and the queue, and the handshake's end.
use steam_controller_bridge.Common.{
  ℕ, ◌-◌, ◌<◌, ◌≡◌, refl, arith, Bool, true, false, ◌&&◌, if-cases, leb, List, Result, ok, err,
}
use steam_controller_bridge.Float.{Float}
use steam_controller_bridge.Gamepad.State.{GamepadState}
use steam_controller_bridge.Protocol.Message.{Message, new_frame}
use steam_controller_bridge.Protocol.Wire.{wire_try_from}
use steam_controller_bridge.Protocol.Encode.{encode}
use steam_controller_bridge.Transport.State.{
  IoErrorKind, BridgeConnectionStatus, handshaking, ready, is_ready, is_handshaking,
  BridgeTransportConfig, ByteTransport,
}
use steam_controller_bridge.Transport.Step.{
  Connection, Outcome, and_then, wrote, sent, write_bytes, write_message, write_wire, write_state,
}
use steam_controller_bridge.Transport.Poll.{
  poll, poll_read, service_connection, service_session, check_handshake, is_late_handshake,
}
use steam_controller_bridge.Transport.Keep.{Property, Holds, Leaves, IsStable}
use steam_controller_bridge.Transport.Keep.Session.{service_session-Leaves, poll-Leaves}

module _ (f : Float) (tr : ByteTransport) where
  abbrev pub Settled : Type 1
  Settled =
      BridgeConnectionStatus → BridgeTransportConfig → ℕ → List (GamepadState (Float.F f)) → Type 0

  abbrev pub of_success : Settled → Property f tr
  of_success J s t n config started queued = J s config started queued

  abbrev pub Anything : Property f tr
  Anything s t n config started queued = Unit

  put-Leaves :
      (J : Settled) (c : Connection f tr) (x : ByteTransport.T tr × Result IoErrorKind (Unit {0}))
      → Holds f tr (of_success J) c
      → Leaves f tr (of_success J) Anything (sent f tr c x)
  unfolding sent
  put-Leaves J c (t, err kind) h = tt
  put-Leaves J c (t, ok _) h = h

  -- A write changes none of these fields.
  pub write_message-Leaves :
      (J : Settled) (c : Connection f tr) (m : Message)
      → Holds f tr (of_success J) c
      → Leaves f tr (of_success J) Anything (write_message f tr c m)
  unfolding write_message write_bytes
  write_message-Leaves J c m h =
      elim (encode (new_frame c.sequence m))
        as (λ r. Leaves f tr (of_success J) Anything (write_bytes f tr c r)) [
          | ok bytes ↦ put-Leaves J c (tr.write_all c.transport bytes) h
          | err e ↦ tt
        ]

  -- The end of the handshake is all that matters.
  pub success-IsStable :
      (J : Settled)
      → ((s : BridgeConnectionStatus) (config : BridgeTransportConfig) (started : ℕ)
            (queued : List (GamepadState (Float.F f)))
          → J s config started queued
          → J ready config started queued)
      → IsStable f tr (of_success J) Anything
  success-IsStable J settles = record {
    becomes_ready = λ c h. settles c.status c.config c.started c.queued h;
    fails = λ c s e h. tt;
    refuses = λ c h. tt;
    has_read = λ c h. h;
    wrote = λ c m w h. write_message-Leaves J c m h;
  }

  -- What holds of the connection if the operation succeeds.
  abbrev pub Success : (Connection f tr → Type 0) → Outcome f tr → Type 0
  Success P (c, ok _) = P c
  Success P (c, err e) = Unit

  module _ (P : Connection f tr → Type 0)
      (kept : (c : Connection f tr) (t : ByteTransport.T tr) → P c → P (wrote f tr c t)) where
    sent-Success :
        (c : Connection f tr) (x : ByteTransport.T tr × Result IoErrorKind (Unit {0}))
        → P c
        → Success P (sent f tr c x)
    unfolding sent
    sent-Success c (t, ok _) h = kept c t h
    sent-Success c (t, err kind) h = tt

    -- What a frame leaves as it is holds after a message, and after a state.
    pub write_message-Success :
        (c : Connection f tr) (m : Message) → P c → Success P (write_message f tr c m)
    unfolding write_message write_bytes
    write_message-Success c m h =
        elim (encode (new_frame c.sequence m)) as (λ r. Success P (write_bytes f tr c r)) [
          | ok bytes ↦ sent-Success c (tr.write_all c.transport bytes) h
          | err e ↦ tt
        ]

    pub write_state-Success :
        (c : Connection f tr) (state : GamepadState (Float.F f))
        → P c
        → Success P (write_state f tr c state)
    unfolding write_state write_wire
    write_state-Success c state h =
        elim (wire_try_from f state) as (λ r. Success P (write_wire f tr c r)) [
          | ok wire ↦ write_message-Success c (Message.gamepad_state wire) h
          | err e ↦ tt
        ]

  pub and_then-Success :
      (P Q : Connection f tr → Type 0) (x : Outcome f tr) (next : Connection f tr → Outcome f tr)
      → Success P x
      → ((c : Connection f tr) → P c → Success Q (next c))
      → Success Q (and_then f tr x next)
  and_then-Success P Q (c, err e) next h k = tt
  and_then-Success P Q (c, ok _) next h k = k c h

  abbrev pub Of : Settled → Connection f tr → Type 0
  Of J c = J c.status c.config c.started c.queued

  pub Leaves-Success :
      (J : Settled) (x : Outcome f tr) → Leaves f tr (of_success J) Anything x → Success (Of J) x
  Leaves-Success J (c, ok _) h = h
  Leaves-Success J (c, err e) h = tt

  -- The handshake lasts or has ended in a ready connection.
  abbrev pub IsOpen : BridgeConnectionStatus → Type 0
  IsOpen handshaking = Unit
  IsOpen ready = Unit
  IsOpen _ = ⊥

  abbrev pub Opened : BridgeTransportConfig → ℕ → Settled
  Opened config started s config' started' queued =
      IsOpen s × (config' ≡ config) × (started' ≡ started)

  -- A successful poll keeps the configuration and the start, and neither fails nor disconnects.
  pub poll-Opened :
      (c : Connection f tr) (now : ℕ)
      → IsOpen c.status
      → Success (Of (Opened c.config c.started)) (poll f tr c now)
  poll-Opened c now open_now =
      let J = Opened c.config c.started in
      Leaves-Success J (poll f tr c now) (
        poll-Leaves f tr (of_success J) Anything
          (success-IsStable J (λ s config started queued (o, k, b). (tt, k, b))) (λ c h. h) c now
          (open_now, refl, refl))

  -- A connection that still shakes hands is within the timeout.
  abbrev pub Timely : ℕ → Settled
  Timely now s config started queued =
      is_handshaking s ≡ true → now - started < config.handshake_timeout

  check_handshake-Timely :
      (now : ℕ) (c : Connection f tr)
      → Leaves f tr (of_success (Timely now)) Anything (check_handshake f tr now c)
  unfolding check_handshake
  check_handshake-Timely now c =
      if-cases (Leaves f tr (of_success (Timely now)) Anything) (is_late_handshake f tr now c)
        (λ e. tt) (λ e. timely (is_handshaking c.status) _ _ e)
    where
      timely :
          (shaking : Bool) (timeout age : ℕ)
          → (shaking && leb timeout age) ≡ false
          → shaking ≡ true
          → age < timeout
      timely true timeout age e h = ground arith
      timely false timeout age e h = cc

  pub Success-any : (x : Outcome f tr) → Success (λ c. Unit {0}) x
  Success-any (c, ok _) = tt
  Success-any (c, err e) = tt

  service_connection-Timely :
      (now : ℕ) (c : Connection f tr) → Success (Of (Timely now)) (service_connection f tr now c)
  unfolding service_connection
  service_connection-Timely now c =
      let J = Timely now in
      and_then-Success (Of J) (Of J) (check_handshake f tr now c) (service_session f tr now)
        (Leaves-Success J (check_handshake f tr now c) (check_handshake-Timely now c))
        (λ c' h. Leaves-Success J (service_session f tr now c') (
          service_session-Leaves f tr (of_success J) Anything
            (success-IsStable J (λ s config started queued h e. cc)) (λ c h. h) now c' h))

  pub poll-Timely : (c : Connection f tr) (now : ℕ) → Success (Of (Timely now)) (poll f tr c now)
  unfolding poll
  poll-Timely c now =
      let (transport, answer) = tr.read c.transport in
      let x = poll_read f tr (record c { transport = transport }) answer now in
      and_then-Success (λ c. Unit {0}) (Of (Timely now)) x (service_connection f tr now)
        (Success-any x) (λ c' h. service_connection-Timely now c')

  pub poll-ready :
      (c : Connection f tr) (now : ℕ)
      → is_ready c.status ≡ true
      → Success (λ c'. is_ready c'.status ≡ true) (poll f tr c now)
  poll-ready c now r =
      let J =
        λ (s : BridgeConnectionStatus) (config : BridgeTransportConfig) (started : ℕ)
            (queued : List (GamepadState (Float.F f))).
          is_ready s ≡ true in
      Leaves-Success J (poll f tr c now) (
        poll-Leaves f tr (of_success J) Anything
          (success-IsStable J (λ s config started queued h. refl)) (λ c h. h) c now r)
