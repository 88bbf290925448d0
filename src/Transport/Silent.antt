-- ===== src/Transport/Silent.antt =====
-- crates/bridge/bridge-output/src/bridge_transport.rs: a session with a silent peer ends.
pub mod Polls
use steam_controller_bridge.Common.{
  ℕ, zero, suc, ◌+◌, ◌-◌, ◌%◌, ◌^◌, ◌≤◌, ◌<◌, ◌≡◌, refl, sym, ap, subst, ◌∙◌, arith, Bool, true,
  false, not, ◌&&◌, if-cases, if-ind, if◌then◌else◌, leb, le→leb, List, [], ◌∷◌, ◌++◌, length,
  length-append, All, Result, ok, err, Option, none, some, ◌==◌, ==→eq,
}
use steam_controller_bridge.Float.{Float}
use steam_controller_bridge.Gamepad.State.{GamepadState, neutral, validate}
use steam_controller_bridge.Engine.Step.{state_eq}
use steam_controller_bridge.Protocol.Message.{Message, new_frame}
use steam_controller_bridge.Protocol.Encode.{encode}
use steam_controller_bridge.Protocol.Wire.{wire_try_from}
use steam_controller_bridge.Transport.State.{
  is_idle, IoErrorKind, ready, is_ready, u64_add, is_handshaking, BridgeTransportConfig,
  ByteTransport,
}
use steam_controller_bridge.Transport.Step.{
  Connection, Outcome, and_then, sent, write_bytes, write_message, write_wire, write_state, newest,
  remember, flush_newest, flush_states,
}
use steam_controller_bridge.Transport.Poll.{
  poll, poll_read, service_connection, service_session, check_handshake, check_firmware, check_pong,
  send_ping, resend, refresh, refreshed, is_refresh_due,
}
use steam_controller_bridge.Transport.Keep.{
  Leaves, IsStable, poll_read-Leaves, check_handshake-Leaves, check_firmware-Leaves,
  check_pong-Leaves, send_ping-Leaves,
}
use steam_controller_bridge.Transport.Open.{
  Settled, of_success, Anything, success-IsStable, Success, and_then-Success, write_message-Success,
  write_state-Success, Of, Leaves-Success,
}
use steam_controller_bridge.Transport.State.{firmware_report_grace, BridgeConnectionStatus, u64_add}
use steam_controller_bridge.Transport.Poll.{
  is_late_handshake, is_unreported, is_late_pong, is_ping_due, ping_nonce, ping_sent,
}
use steam_controller_bridge.Transport.Step.{is_due}
use steam_controller_bridge.Transport.Poll.{is_none}
use steam_controller_bridge.Transport.Firmware.{unreported_version}

-- The transport has nothing to read.
abbrev pub IsQuiet : Result IoErrorKind (List ℕ) → Type 0
IsQuiet (ok []) = Unit
IsQuiet (ok (byte ∷ bytes)) = ⊥
IsQuiet (err kind) = is_idle kind ≡ true

module _ (f : Float) (tr : ByteTransport) where
  -- A ping that was sent by the time has no answer yet.
  abbrev pub Waits : ℕ → Option (ℕ × ℕ) → Type 0
  Waits by none = ⊥
  Waits by (some (nonce, at)) = at ≤ by

  -- No ping is without an answer, or one that was sent by the time.
  abbrev pub MayWait : ℕ → Option (ℕ × ℕ) → Type 0
  MayWait by none = Unit
  MayWait by (some (nonce, at)) = at ≤ by

  abbrev Same : Connection f tr → Connection f tr → Type 0
  Same c c' = (c'.status ≡ c.status) × (c'.config ≡ c.config) × (c'.pending_ping ≡ c.pending_ping)

  Same-trans : (a b c : Connection f tr) → Same a b → Same b c → Same a c
  Same-trans a b c (s, k, p) (s', k', p') = (s' ∙ s, k' ∙ k, p' ∙ p)

  write_state-Same :
      (c : Connection f tr) (state : GamepadState (Float.F f))
      → Success f tr (Same c) (write_state f tr c state)
  write_state-Same c state =
      write_state-Success f tr (Same c) (λ c' t h. h) c state (refl, refl, refl)

  flush_newest-Same :
      (c : Connection f tr) (now : ℕ) (o : Option (GamepadState (Float.F f)))
      → Success f tr (Same c) (flush_newest f tr c now o)
  unfolding flush_newest remember
  flush_newest-Same c now none = (refl, refl, refl)
  flush_newest-Same c now (some state) =
      let emptied = record c {
        queued = [];
        metrics = record c.metrics {
          states_dropped = u64_add c.metrics.states_dropped (length c.queued - 1);
        };
      } in
      and_then-Success f tr (Same c) (Same c) (write_state f tr emptied state)
        (remember f tr now state) (write_state-Same emptied state)
        (λ c' h. if-ind (Same c) (state_eq f state (neutral f)) h h)

  flush_states-Same :
      (c : Connection f tr) (now : ℕ) → Success f tr (Same c) (flush_states f tr c now)
  unfolding flush_states
  flush_states-Same c now =
      if-ind (Success f tr (Same c)) (not (is_ready c.status)) (refl, refl, refl)
        (flush_newest-Same c now (newest f tr c.queued))

  resend-Same :
      (now : ℕ) (c : Connection f tr) (last : Option (GamepadState (Float.F f)))
      → Success f tr (Same c) (resend f tr now c last)
  unfolding resend refreshed
  resend-Same now c none = (refl, refl, refl)
  resend-Same now c (some state) =
      and_then-Success f tr (Same c) (Same c) (write_state f tr c state) (refreshed f tr now)
        (write_state-Same c state) (λ c' h. h)

  refresh-Same : (now : ℕ) (c : Connection f tr) → Success f tr (Same c) (refresh f tr now c)
  unfolding refresh
  refresh-Same now c =
      if-ind (Success f tr (Same c)) (is_refresh_due f tr now c) (resend-Same now c c.last_state)
        (refl, refl, refl)

  -- The ready connection with the configuration that waits for a pong.
  abbrev pub IsWaiting : BridgeTransportConfig → ℕ → Connection f tr → Type 0
  IsWaiting config by c = (is_ready c.status ≡ true) × (c.config ≡ config) × Waits by c.pending_ping

  -- One that waits or has a ping due.
  abbrev pub MayBeWaiting : BridgeTransportConfig → ℕ → Connection f tr → Type 0
  MayBeWaiting config now c =
      (is_ready c.status ≡ true)
      × (c.config ≡ config)
      × MayWait now c.pending_ping
      × (c.last_ping + config.ping_interval ≤ now)

  IsWaiting-Same :
      (config : BridgeTransportConfig) (by : ℕ) (c c' : Connection f tr)
      → IsWaiting config by c
      → Same c c'
      → IsWaiting config by c'
  IsWaiting-Same config by c c' (r, k, w) (s, k', p) =
      (subst (λ s. is_ready s ≡ true) (sym s) r, k' ∙ k, subst (Waits by) (sym p) w)

  -- The flush and the refresh leave the session waiting.
  pub rest-IsWaiting :
      (config : BridgeTransportConfig) (by now : ℕ) (c : Connection f tr)
      → IsWaiting config by c
      → Success f tr
          (IsWaiting config by)
          (and_then f tr (flush_states f tr c now) (refresh f tr now))
  rest-IsWaiting config by now c h =
      and_then-Success f tr (Same c) (IsWaiting config by) (flush_states f tr c now)
        (refresh f tr now) (flush_states-Same c now)
        (λ c' s. weaken c' (refresh f tr now c') (refresh-Same now c') s)
    where
      weaken :
          (c' : Connection f tr) (x : Outcome f tr)
          → Success f tr (Same c') x
          → Same c c'
          → Success f tr (IsWaiting config by) x
      weaken c' (d, ok _) s' s = IsWaiting-Same config by c d h (Same-trans c c' d s s')
      weaken c' (d, err e) s' s = tt

  pub send_ping-IsWaiting :
      (config : BridgeTransportConfig) (now : ℕ) (c : Connection f tr)
      → MayBeWaiting config now c
      → Success f tr (IsWaiting config now) (send_ping f tr now c)
  unfolding send_ping
  send_ping-IsWaiting config now c (r, k, w, d) =
      if-cases (Success f tr (IsWaiting config now)) (is_ping_due f tr now c)
        (λ e.
          and_then-Success f tr (Same c) (IsWaiting config now)
            (write_message f tr c (Message.ping (ping_nonce f tr c))) _
            (write_message-Success f tr (Same c) (λ c' t h. h) c (Message.ping (ping_nonce f tr c))
              (refl, refl, refl))
            (λ c' (s, k', p). (subst (λ s. is_ready s ≡ true) (sym s) r, k' ∙ k, omega arith)))
        (λ e. (
          r,
          k,
          pinged (is_ready c.status) c.pending_ping _ r w
              (due c.last_ping c.config.ping_interval config.ping_interval
                (ap (λ (g : BridgeTransportConfig). g.ping_interval) k) d)
              e,
        ))
    where
      due :
          (last interval interval' : ℕ)
          → interval ≡ interval'
          → last + interval' ≤ now
          → leb interval (now - last) ≡ true
      due last interval interval' e h = le→leb interval (now - last) (omega arith)

      pinged :
          (ready_now : Bool) (p : Option (ℕ × ℕ)) (late : Bool)
          → ready_now ≡ true
          → MayWait now p
          → late ≡ true
          → (ready_now && (is_none p && late)) ≡ false
          → Waits now p
      pinged true none late r w l e = cc
      pinged false none late r w l e = cc
      pinged ready_now (some (nonce, at)) late r w l e = w

  pub still-IsWaiting :
      (config : BridgeTransportConfig) (by now : ℕ) (c : Connection f tr)
      → IsWaiting config by c
      → Success f tr (IsWaiting config by) (send_ping f tr now c)
  unfolding send_ping
  still-IsWaiting config by now c (r, k, w) =
      if-cases (Success f tr (IsWaiting config by)) (is_ping_due f tr now c)
        (λ e. elim (answered (is_ready c.status) c.pending_ping _ w e) [ ]) (λ e. (r, k, w))
    where
      answered :
          (ready_now : Bool) (p : Option (ℕ × ℕ)) (late : Bool)
          → Waits by p
          → (ready_now && (is_none p && late)) ≡ true
          → ⊥
      answered ready_now none late w e = elim w [ ]
      answered true (some (nonce, at)) late w e = cc
      answered false (some (nonce, at)) late w e = cc
