-- ===== src/Transport/Keep/Session.antt =====
-- crates/bridge/bridge-output/src/bridge_transport.rs: what `poll` keeps, for a property that does
-- not ask for a queue.
use steam_controller_bridge.Common.{
  ℕ, ◌≡◌, true, not, and_left_true, not-false, if-cases, if-ind, Option, none, some,
}
use steam_controller_bridge.Float.{Float}
use steam_controller_bridge.Gamepad.State.{GamepadState, neutral}
use steam_controller_bridge.Engine.Step.{state_eq}
use steam_controller_bridge.Transport.State.{is_ready, ByteTransport}
use steam_controller_bridge.Transport.Step.{
  Connection, Outcome, write_state, newest, remember, flush_newest, flush_states,
}
use steam_controller_bridge.Transport.Poll.{
  poll_read, check_handshake, check_firmware, check_pong, send_ping, service_session,
  service_connection, poll, resend, refresh, refreshed, is_refresh_due,
}
use steam_controller_bridge.Transport.Keep.{
  Property, Holds, Leaves, IsStable, IsForgetful, and_then-Leaves, write_state-Leaves,
  poll_read-Leaves, check_handshake-Leaves, check_firmware-Leaves, check_pong-Leaves,
  send_ping-Leaves,
}

module _ (f : Float) (tr : ByteTransport) (I E : Property f tr) (stable : IsStable f tr I E)
    (forgetful : IsForgetful f tr I) where
  abbrev C : Type 0
  C = Connection f tr

  abbrev H : C → Type 0
  H = Holds f tr I

  abbrev Keeps : Outcome f tr → Type 0
  Keeps = Leaves f tr I E

  remember-Leaves :
      (now : ℕ) (state : GamepadState (Float.F f)) (c : C) → H c → Keeps (remember f tr now state c)
  unfolding remember
  remember-Leaves now state c h = if-ind H (state_eq f state (neutral f)) h h

  flush_newest-Leaves :
      (c : C) (now : ℕ) (o : Option (GamepadState (Float.F f)))
      → is_ready c.status ≡ true
      → H c
      → Keeps (flush_newest f tr c now o)
  unfolding flush_newest
  flush_newest-Leaves c now none e h = h
  flush_newest-Leaves c now (some state) e h =
      and_then-Leaves f tr I E stable (write_state f tr _ state) (remember f tr now state)
        (write_state-Leaves f tr I E stable _ state e (forgetful c h)) (remember-Leaves now state)

  flush_states-Leaves : (c : C) (now : ℕ) → H c → Keeps (flush_states f tr c now)
  unfolding flush_states
  flush_states-Leaves c now h =
      if-cases Keeps (not (is_ready c.status)) (λ e. h)
        (λ e. flush_newest-Leaves c now (newest f tr c.queued) (not-false (is_ready c.status) e) h)

  resend-Leaves :
      (now : ℕ) (c : C) (last : Option (GamepadState (Float.F f)))
      → is_ready c.status ≡ true
      → H c
      → Keeps (resend f tr now c last)
  unfolding resend refreshed
  resend-Leaves now c none e h = h
  resend-Leaves now c (some state) e h =
      and_then-Leaves f tr I E stable (write_state f tr c state) (refreshed f tr now)
        (write_state-Leaves f tr I E stable c state e h) (λ c' h'. h')

  refresh-Leaves : (now : ℕ) (c : C) → H c → Keeps (refresh f tr now c)
  unfolding refresh
  refresh-Leaves now c h =
      if-cases Keeps (is_refresh_due f tr now c)
        (λ e. resend-Leaves now c c.last_state (and_left_true (is_ready c.status) _ e) h) (λ e. h)

  pub service_session-Leaves : (now : ℕ) (c : C) → H c → Keeps (service_session f tr now c)
  unfolding service_session
  service_session-Leaves now c h =
      and_then-Leaves f tr I E stable (check_firmware f tr now c) _
        (check_firmware-Leaves f tr I E stable now c h)
        (λ c h.
          and_then-Leaves f tr I E stable (check_pong f tr now c) _
            (check_pong-Leaves f tr I E stable now c h)
            (λ c h.
              and_then-Leaves f tr I E stable (send_ping f tr now c) _
                (send_ping-Leaves f tr I E stable now c h)
                (λ c h.
                  and_then-Leaves f tr I E stable (flush_states f tr c now) (refresh f tr now)
                    (flush_states-Leaves c now h) (refresh-Leaves now))))

  service_connection-Leaves : (now : ℕ) (c : C) → H c → Keeps (service_connection f tr now c)
  unfolding service_connection
  service_connection-Leaves now c h =
      and_then-Leaves f tr I E stable (check_handshake f tr now c) (service_session f tr now)
        (check_handshake-Leaves f tr I E stable now c h) (service_session-Leaves now)

  pub poll-Leaves : (c : C) (now : ℕ) → H c → Keeps (poll f tr c now)
  unfolding poll
  poll-Leaves c now h =
      and_then-Leaves f tr I E stable (poll_read f tr _ (tr.read c.transport).1 now)
        (service_connection f tr now)
        (poll_read-Leaves f tr I E stable _ _ now (stable.has_read c h))
        (service_connection-Leaves now)
