-- ===== src/Transport/Sound/Polled.antt =====
-- crates/bridge/bridge-output/src/bridge_transport.rs: `poll` keeps a connection sound and answers
-- only with errors of the transport.
use steam_controller_bridge.Common.{
  some-injective, ℕ, ◌-◌, ◌≡◌, refl, subst, arith, not, ◌&&◌, if-cases, if-ind, ◌==◌, leb, List, [],
  ◌∷◌, length, All, Result, ok, err, Option, none, some,
}
use steam_controller_bridge.Float.{Float}
use steam_controller_bridge.Gamepad.State.{GamepadState, neutral}
use steam_controller_bridge.Engine.Step.{state_eq}
use steam_controller_bridge.Protocol.Message.{
  Message, hello, hello_response, gamepad_state, ping, pong, device_info, rumble,
  enter_uf2_bootloader, uf2_bootloader_ready, record_install_receipt, install_receipt_recorded,
  error, unknown, protocol_version,
}
use steam_controller_bridge.Protocol.Stream.{FrameResult, push}
use steam_controller_bridge.Transport.State.{IoErrorKind, is_idle, is_ready, ByteTransport}
use steam_controller_bridge.Transport.Step.{
  Connection, and_then, sent, write_message, write_state, newest, remember, flush_newest,
  flush_states, is_pending_nonce,
}
use steam_controller_bridge.Transport.Poll.{
  handle_hello_response, handle_message, handle_decoded, handle_all, receive, poll_read,
  handle_rumble, check_handshake, check_firmware, check_pong, send_ping, resend, refresh, refreshed,
  service_session, service_connection, poll, ping_nonce, is_none,
}
use steam_controller_bridge.Transport.Sound.{
  from_io-IsPollError, pong-IsWritable, ping-IsWritable, IsValid, IsKept, IsSound, IsGood,
  and_then-IsGood, write_state-IsGood, write_state-sent, write_message-IsGood,
}

module _ (f : Float) (tr : ByteTransport) where
  abbrev C : Type 0
  C = Connection f tr

  newest-IsValid :
      (states : List (GamepadState (Float.F f))) (state : GamepadState (Float.F f))
      → All (IsValid f tr) states
      → newest f tr states ≡ some state
      → IsValid f tr state
  unfolding newest
  newest-IsValid [] state v e = cc
  newest-IsValid (s ∷ []) state (v, vs) e = subst (IsValid f tr) (some-injective e) v
  newest-IsValid (s ∷ t ∷ rest) state (v, vs) e = newest-IsValid (t ∷ rest) state vs e

  remember-IsGood :
      (now : ℕ) (state : GamepadState (Float.F f)) (c : C)
      → IsValid f tr state
      → IsSound f tr c
      → IsGood f tr (remember f tr now state c)
  unfolding remember
  remember-IsGood now state c valid (a, b, v, k, s, r) = (
    if-cases (IsSound f tr) (state_eq f state (neutral f)) (λ e. (a, b, v, tt, s, r))
        (λ e. (a, b, v, (valid, e), s, r)),
    tt,
  )

  flush_newest-IsGood :
      (c : C) (now : ℕ) (o : Option (GamepadState (Float.F f)))
      → newest f tr c.queued ≡ o
      → IsSound f tr c
      → IsGood f tr (flush_newest f tr c now o)
  unfolding flush_newest
  flush_newest-IsGood c now none e h = (h, tt)
  flush_newest-IsGood c now (some state) e (a, b, v, k, s, r) =
      let valid = newest-IsValid c.queued state v e in
      and_then-IsGood f tr (write_state f tr _ state) (remember f tr now state)
        (write_state-IsGood f tr _ state valid (omega arith, b, tt, k, s, r))
        (λ c' h'. remember-IsGood now state c' valid h')

  pub flush_states-IsGood :
      (c : C) (now : ℕ) → IsSound f tr c → IsGood f tr (flush_states f tr c now)
  unfolding flush_states
  flush_states-IsGood c now h =
      if-ind (IsGood f tr) (not (is_ready c.status)) (h, tt)
        (flush_newest-IsGood c now (newest f tr c.queued) refl h)

  handle_message-IsGood :
      (c : C) (m : Message) (now : ℕ) → IsSound f tr c → IsGood f tr (handle_message f tr c m now)
  unfolding handle_message handle_hello_response handle_rumble
  handle_message-IsGood c (hello_response version) now (a, b, v, k, s, r) =
      if-ind (IsGood f tr) (version == protocol_version) ((a, b, v, k, s, tt), tt)
        ((a, b, v, k, s, tt), refl)
  handle_message-IsGood c (ping nonce) now h =
      write_message-IsGood f tr c (pong nonce) (pong-IsWritable nonce) h
  handle_message-IsGood c (pong nonce) now h =
      if-ind (IsGood f tr) (is_pending_nonce c.pending_ping nonce) (h, tt) (h, tt)
  handle_message-IsGood c (device_info payload) now h = (h, tt)
  handle_message-IsGood c (uf2_bootloader_ready request_id) now h =
      if-ind (IsGood f tr) (is_ready c.status) (h, tt) (h, tt)
  handle_message-IsGood c (install_receipt_recorded request_id receipt) now h =
      if-ind (IsGood f tr) (is_ready c.status) (h, tt) (h, tt)
  handle_message-IsGood c (error code detail) now h =
      if-ind (IsGood f tr) (is_ready c.status && length detail == 4) (h, tt) (h, tt)
  handle_message-IsGood c (rumble low high) now h =
      if-ind (IsGood f tr) (is_ready c.status) (h, tt) (h, tt)
  handle_message-IsGood c (hello lo hi) now h = (h, tt)
  handle_message-IsGood c (gamepad_state wire) now h = (h, tt)
  handle_message-IsGood c Message.neutral now h = (h, tt)
  handle_message-IsGood c (enter_uf2_bootloader request_id) now h = (h, tt)
  handle_message-IsGood c (record_install_receipt request_id receipt) now h = (h, tt)
  handle_message-IsGood c (unknown kind payload) now h = (h, tt)

  handle_all-IsGood :
      (c : C) (output : List FrameResult) (now : ℕ)
      → IsSound f tr c
      → IsGood f tr (handle_all f tr c output now)
  unfolding handle_all handle_decoded
  handle_all-IsGood c [] now h = (h, tt)
  handle_all-IsGood c (ok frame ∷ rest) now h =
      and_then-IsGood f tr (handle_message f tr _ frame.message now)
        (λ c. handle_all f tr c rest now) (handle_message-IsGood _ frame.message now h)
        (λ c' h'. handle_all-IsGood c' rest now h')
  handle_all-IsGood c (err e ∷ rest) now h = handle_all-IsGood _ rest now h

  poll_read-IsGood :
      (c : C) (answer : Result IoErrorKind (List ℕ)) (now : ℕ)
      → IsSound f tr c
      → IsGood f tr (poll_read f tr c answer now)
  unfolding poll_read receive
  poll_read-IsGood c (ok []) now h = (h, tt)
  poll_read-IsGood c (ok (byte ∷ bytes)) now h =
      elim (push c.decoder (byte ∷ bytes)) as (λ o. IsGood f tr (receive f tr c o now)) [
        | none ↦ (h, tt)
        | some (output, buffer) ↦ handle_all-IsGood _ output now h
      ]
  poll_read-IsGood c (err kind) now (a, b, v, k, s, r) =
      if-ind (IsGood f tr) (is_idle kind) ((a, b, v, k, s, r), tt)
        ((a, b, v, k, s, tt), from_io-IsPollError kind)

  send_ping-IsGood : (now : ℕ) (c : C) → IsSound f tr c → IsGood f tr (send_ping f tr now c)
  unfolding send_ping
  send_ping-IsGood now c h =
      if-ind (IsGood f tr)
        (is_ready c.status
          && (is_none c.pending_ping && leb c.config.ping_interval (now - c.last_ping)))
        (and_then-IsGood f tr (write_message f tr c (ping (ping_nonce f tr c))) (λ c'. _)
          (write_message-IsGood f tr c (ping _) (ping-IsWritable _) h) (λ c' h'. (h', tt)))
        (h, tt)

  sent-IsGood-refreshed :
      (now : ℕ) (c : C) (x : ByteTransport.T tr × Result IoErrorKind (Unit {0}))
      → IsKept f tr c.last_state (some now)
      → IsSound f tr c
      → IsGood f tr (and_then f tr (sent f tr c x) (refreshed f tr now))
  unfolding sent refreshed
  sent-IsGood-refreshed now c (t, err kind) kept h = (h, from_io-IsPollError kind)
  sent-IsGood-refreshed now c (t, ok _) kept (a, b, v, k, s, r) =
      ((a, b, v, kept, omega arith, r), tt)

  IsKept-IsValid :
      (last : Option (GamepadState (Float.F f))) (at : Option ℕ) (state : GamepadState (Float.F f))
      → last ≡ some state
      → IsKept f tr last at
      → IsValid f tr state × ((now : ℕ) → IsKept f tr last (some now))
  IsKept-IsValid none at state e k = cc
  IsKept-IsValid (some s) none state e k = elim k [ ]
  IsKept-IsValid (some s) (some at) state e (v, n) =
      (subst (IsValid f tr) (some-injective e) v, λ now. (v, n))

  resend-IsGood :
      (now : ℕ) (c : C) (last : Option (GamepadState (Float.F f)))
      → c.last_state ≡ last
      → IsSound f tr c
      → IsGood f tr (resend f tr now c last)
  unfolding resend
  resend-IsGood now c none e h = (h, tt)
  resend-IsGood now c (some state) e (a, b, v, k, s, r) =
      let (valid, kept) = IsKept-IsValid c.last_state c.last_state_sent state e k in
      let (bytes, e', w) = write_state-sent f tr c state valid in
      rw w
        (sent-IsGood-refreshed now c (tr.write_all c.transport bytes) (kept now) (a, b, v, k, s, r))

  check_handshake-IsGood :
      (now : ℕ) (c : C) → IsSound f tr c → IsGood f tr (check_handshake f tr now c)
  unfolding check_handshake
  check_handshake-IsGood now c (a, b, v, k, s, r) =
      if-ind (IsGood f tr) _ ((a, b, v, k, s, tt), tt) ((a, b, v, k, s, r), tt)

  check_firmware-IsGood :
      (now : ℕ) (c : C) → IsSound f tr c → IsGood f tr (check_firmware f tr now c)
  unfolding check_firmware
  check_firmware-IsGood now c h = if-ind (IsGood f tr) _ (h, tt) (h, tt)

  check_pong-IsGood : (now : ℕ) (c : C) → IsSound f tr c → IsGood f tr (check_pong f tr now c)
  unfolding check_pong
  check_pong-IsGood now c (a, b, v, k, s, r) =
      if-ind (IsGood f tr) _ ((a, b, v, k, s, tt), tt) ((a, b, v, k, s, r), tt)

  service_session-IsGood :
      (now : ℕ) (c : C) → IsSound f tr c → IsGood f tr (service_session f tr now c)
  unfolding service_session refresh
  service_session-IsGood now c h =
      and_then-IsGood f tr (check_firmware f tr now c) _ (check_firmware-IsGood now c h) (λ c h.
        and_then-IsGood f tr (check_pong f tr now c) _ (check_pong-IsGood now c h) (λ c h.
          and_then-IsGood f tr (send_ping f tr now c) _ (send_ping-IsGood now c h) (λ c h.
            and_then-IsGood f tr (flush_states f tr c now) (refresh f tr now)
              (flush_states-IsGood c now h)
              (λ c h. if-ind (IsGood f tr) _ (resend-IsGood now c c.last_state refl h) (h, tt)))))

  service_connection-IsGood :
      (now : ℕ) (c : C) → IsSound f tr c → IsGood f tr (service_connection f tr now c)
  unfolding service_connection
  service_connection-IsGood now c h =
      and_then-IsGood f tr (check_handshake f tr now c) (service_session f tr now)
        (check_handshake-IsGood now c h) (service_session-IsGood now)

  pub poll-IsGood : (c : C) (now : ℕ) → IsSound f tr c → IsGood f tr (poll f tr c now)
  unfolding poll
  poll-IsGood c now h =
      and_then-IsGood f tr (poll_read f tr _ (tr.read c.transport).1 now)
        (service_connection f tr now) (poll_read-IsGood _ _ now h)
        (λ c' h'. service_connection-IsGood now c' h')
