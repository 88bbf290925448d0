-- ===== src/Transport/Live.antt =====
-- crates/bridge/bridge-output/src/bridge_transport.rs: `connect` ends, in a ready connection or an
-- error, and the operations of `BridgeOutput` keep the connection ready.
pub mod Connected
pub mod Backend
pub mod Calls
use steam_controller_bridge.Common.{
  ℕ, zero, suc, ◌+◌, ◌-◌, ◌*◌, ◌/◌, ◌≤◌, ◌<◌, ◌≡◌, refl, ap, ◌∙◌, sym, subst, arith, Bool, true,
  false, not, not-false, Bool-cases, inl, inr, if◌then◌else◌, if-cases, if-ind, ◌==◌, length, List,
  [], ◌∷◌, Result, ok, err, ok-injective, Option, none, some,
}
use steam_controller_bridge.Float.{Float}
use steam_controller_bridge.Gamepad.State.{GamepadState, InvalidState, neutral, validate}
use steam_controller_bridge.Protocol.Message.{hello, protocol_version}
use steam_controller_bridge.Transport.State.{
  BridgeTransportError, BridgeConnectionStatus, handshaking, ready, unhealthy, disconnected,
  is_ready, is_handshaking, BridgeTransportConfig, ByteTransport, fresh,
}
use steam_controller_bridge.Transport.Step.{
  Connection, Outcome, write_message, opened_with, new_connection, queue_state, enqueue,
  enqueue_checked, send_neutral_now,
}
use steam_controller_bridge.Transport.Poll.{poll}
use steam_controller_bridge.Transport.Open.{
  Success, Of, Leaves-Success, Opened, IsOpen, Timely, poll-Opened, poll-Timely, poll-ready,
  write_message-Leaves,
}
use steam_controller_bridge.Transport.Calls.{new_connection-opened_with}
use steam_controller_bridge.Transport.Session.{
  handshake_poll_interval, Host, Failure, failed, refused, no_fuel, unreachable, Output, Answer,
  HostConnection, and_next, answered, connect_loop, connect_fuel, requeue, attach, connect_ready,
  connect_session, connect_transport, connect, open_output, disconnect, polled, poll_connection,
  poll_existing, poll_output,
}

-- The errors that the code has.
abbrev pub IsReal : Failure → Type 0
IsReal (failed e) = Unit
IsReal (refused e) = Unit
IsReal no_fuel = ⊥
IsReal unreachable = ⊥

-- The clock does not go back, and a sleep lasts its time at least.
pub record HostLaws (tr : ByteTransport) (host : Host tr) : Type 0 where
  pub time : Host.W host → ℕ
  pub now_at :
      (w : Host.W host) → (time w ≤ (host.now w).1) × ((host.now w).1 ≤ time ((host.now w).0))
  pub slept : (w : Host.W host) → time w + handshake_poll_interval ≤ time (host.sleep w)

module _ (f : Float) (tr : ByteTransport) (host : Host tr) where
  abbrev C : Type 0
  C = Connection f tr

  -- A connection of the output is ready.
  abbrev pub IsReadyOption : Option C → Type 0
  IsReadyOption none = Unit
  IsReadyOption (some c) = is_ready c.status ≡ true

  abbrev pub IsLive : Output f tr host → Type 0
  IsLive o = IsReadyOption o.connection

  abbrev pub IsRealAnswer : {A : Type 0} → Result Failure A → Type 0
  IsRealAnswer (ok _) = Unit
  IsRealAnswer (err e) = IsReal e

  abbrev pub IsSettled : {A : Type 0} → Answer f tr host A → Type 0
  IsSettled (o, r) = IsLive o × IsRealAnswer r

  abbrev pub IsEnded : HostConnection f tr host → Type 0
  IsEnded (w, ok c) = is_ready c.status ≡ true
  IsEnded (w, err e) = IsReal e

  open-ready :
      (s : BridgeConnectionStatus) → IsOpen f tr s → is_handshaking s ≡ false → is_ready s ≡ true
  open-ready handshaking o e = sym e
  open-ready ready o e = refl
  open-ready unhealthy o e = elim o [ ]
  open-ready disconnected o e = elim o [ ]

  opened_with-Success :
      (P : C → Type 0) (x : Outcome f tr) {c : C}
      → Success f tr P x
      → opened_with f tr x ≡ ok c
      → P c
  unfolding opened_with
  opened_with-Success P (c', ok _) h e = subst P (ok-injective e) h
  opened_with-Success P (c', err failure) h e = cc

  -- A new connection shakes hands from the time of the call on, with its configuration.
  pub new_connection-Opened :
      (transport : ByteTransport.T tr) (config : BridgeTransportConfig) (now : ℕ) {c : C}
      → new_connection f tr transport config now ≡ ok c
      → Of f tr (Opened f tr config now) c
  unfolding fresh
  new_connection-Opened transport config now e =
      let J = Opened f tr config now in
      let m = hello protocol_version protocol_version in
      let c0 = fresh transport config now in
      opened_with-Success (Of f tr J) (write_message f tr c0 m)
        (Leaves-Success f tr J (write_message f tr c0 m)
          (write_message-Leaves f tr J c0 m (tt, refl, refl)))
        (new_connection-opened_with f tr transport config now e).1

  pub queue_state-ready :
      (c : C) (state : GamepadState (Float.F f))
      → is_ready c.status ≡ true
      → is_ready (queue_state f tr c state).0.status ≡ true
  unfolding queue_state enqueue_checked enqueue
  queue_state-ready c state r = checked (validate f state)
    where
      checked :
          (v : Result InvalidState (Unit {0}))
          → is_ready (enqueue_checked f tr c state v).0.status ≡ true
      checked (ok _) =
          if-ind (λ (c' : C). is_ready c'.status ≡ true)
            (length c.queued == c.config.queue_capacity) r r
      checked (err e) = r

  -- A round before the timeout leaves fuel for the time that remains after its sleep.
  round_left :
      {before at after slept clock fuel total : ℕ} (timeout started : ℕ)
      → started ≡ 0
      → clock ≤ before
      → before ≤ at
      → at ≤ after
      → after + handshake_poll_interval ≤ slept
      → timeout ≡ total
      → total ≤ (before - clock) + (suc fuel - 1) * handshake_poll_interval
      → (at - clock) - started < timeout
      → (0 < fuel)
        × (clock ≤ slept)
        × (timeout ≤ (slept - clock) + (fuel - 1) * handshake_poll_interval)
  round_left {fuel = zero} timeout started s a b c d k e h = (omega arith, omega arith, omega arith)
  round_left {fuel = suc fuel} timeout started s a b c d k e h =
      (omega arith, omega arith, omega arith)

  module _ (laws : HostLaws tr host) where
    -- Each round that goes on takes the time of a sleep, and none goes on after the timeout.
    pub connect_loop-IsEnded :
        (fuel : ℕ) (w : Host.W host) (clock : ℕ) (c : C)
        → IsOpen f tr c.status
        → c.started ≡ 0
        → 0 < fuel
        → clock ≤ laws.time w
        → c.config.handshake_timeout ≤ (laws.time w - clock) + (fuel - 1) * handshake_poll_interval
        → IsEnded (connect_loop f tr host fuel w clock c)
    unfolding connect_loop
    connect_loop-IsEnded zero w clock c o s p a e = omega arith
    connect_loop-IsEnded (suc fuel) w clock c o s p a e =
        if-cases IsEnded (not (is_handshaking c.status))
          (λ h. open-ready c.status o (not_true (is_handshaking c.status) h))
          (λ h.
            next (poll f tr c ((host.now w).1 - clock))
              (connect_loop-IsEnded fuel (host.sleep ((host.now w).0)) clock)
              (poll-Opened f tr c _ o) (poll-Timely f tr c _))
      where
        not_true : (b : Bool) → not b ≡ true → b ≡ false
        not_true true h = sym h
        not_true false h = refl

        next :
            (x : Outcome f tr)
            → ((c' : C)
                → IsOpen f tr c'.status
                → c'.started ≡ 0
                → 0 < fuel
                → clock ≤ laws.time (host.sleep ((host.now w).0))
                → c'.config.handshake_timeout
                  ≤ (laws.time (host.sleep ((host.now w).0)) - clock)
                    + (fuel - 1) * handshake_poll_interval
                → IsEnded (connect_loop f tr host fuel (host.sleep ((host.now w).0)) clock c'))
            → Success f tr (Of f tr (Opened f tr c.config c.started)) x
            → Success f tr (Of f tr (Timely f tr ((host.now w).1 - clock))) x
            → IsEnded (elim x.1 [
              | err e ↦ ((host.now w).0, err (failed e))
              | ok _ ↦
                  if is_handshaking (x.0).status
                  then connect_loop f tr host fuel (host.sleep (host.now w).0) clock (x.0)
                  else ((host.now w).0, ok (x.0))
            ])
        next (c', err e) again b t = tt
        next (c', ok _) again (o', k, b) t =
            if-cases IsEnded (is_handshaking c'.status)
              (λ h.
                let (l, u) = laws.now_at w in
                let z = laws.slept ((host.now w).0) in
                let (p', a', e') =
                  round_left c'.config.handshake_timeout c'.started (b ∙ s) a l u z
                    (ap (λ (config : BridgeTransportConfig). config.handshake_timeout) k) e (t h) in
                again c' o' (b ∙ s) p' a' e')
              (λ h. open-ready c'.status o' h)
