-- ===== src/Transport/Live/Connected.antt =====
-- crates/bridge/bridge-output/src/bridge_transport.rs: what `connect` leaves.
use steam_controller_bridge.Common.{
  ℕ, ◌+◌, ◌-◌, ◌*◌, ◌/◌, ◌≤◌, ◌≡◌, refl, sym, subst, arith, true, List, Result, ok, err, Option,
  none, some,
}
use steam_controller_bridge.Float.{Float}
use steam_controller_bridge.Gamepad.State.{GamepadState, validate}
use steam_controller_bridge.Transport.State.{
  BridgeTransportError, is_ready, BridgeTransportConfig, ByteTransport,
}
use steam_controller_bridge.Transport.Step.{Connection, Outcome, new_connection, queue_state}
use steam_controller_bridge.Transport.Open.{Success, Of, Opened}
use steam_controller_bridge.Transport.Session.{
  handshake_poll_interval, Host, Output, Answer, HostConnection, connect_fuel, requeue, attach,
  connect_ready, connect_session, connect_transport, connect,
}
use steam_controller_bridge.Transport.Step.{newest}
use steam_controller_bridge.Transport.Delivery.{enqueue_checked-newest}
use steam_controller_bridge.Transport.Live.{
  IsReal, HostLaws, IsLive, IsEnded, connect_loop-IsEnded, new_connection-Opened, queue_state-ready,
}

module _ (f : Float) (tr : ByteTransport) (host : Host tr) where
  abbrev C : Type 0
  C = Connection f tr

  abbrev O : Type 0
  O = Output f tr host

  -- The desired state is the newest of the queue.
  abbrev pub Carries : Option (GamepadState (Float.F f)) → List (GamepadState (Float.F f)) → Type 0
  Carries none queued = Unit
  Carries (some state) queued = newest f tr queued ≡ some state

  abbrev pub IsConnection : Option (GamepadState (Float.F f)) → Option C → Type 0
  IsConnection desired none = ⊥
  IsConnection desired (some c) = (is_ready c.status ≡ true) × Carries desired c.queued

  -- A success leaves a ready connection that has the desired state queued.
  abbrev pub IsConnected : Option (GamepadState (Float.F f)) → Answer f tr host (Unit {0}) → Type 0
  IsConnected desired (o, ok _) = (o.desired_state ≡ desired) × IsConnection desired o.connection
  IsConnected desired (o, err e) = (o.desired_state ≡ desired) × IsLive f tr host o × IsReal e

  requeue-Carries :
      (desired : Option (GamepadState (Float.F f))) (c : C)
      → is_ready c.status ≡ true
      → (is_ready (requeue f tr host desired c).0.status ≡ true)
        × Success f tr (λ c'. Carries desired c'.queued) (requeue f tr host desired c)
  unfolding queue_state
  requeue-Carries none c r = (r, tt)
  requeue-Carries (some state) c r = (
    queue_state-ready f tr host c state r,
    enqueue_checked-newest f tr c state (validate f state),
  )

  attach-IsConnected :
      (o : O) (x : Outcome f tr)
      → IsLive f tr host o
      → is_ready (x.0).status ≡ true
      → Success f tr (λ c'. Carries o.desired_state c'.queued) x
      → IsConnected o.desired_state (attach f tr host o x)
  unfolding attach
  attach-IsConnected o (c, err e) l r h = (refl, l, tt)
  attach-IsConnected o (c, ok _) l r h = (refl, (r, h))

  connect_ready-IsConnected :
      (o : O) (x : HostConnection f tr host)
      → IsLive f tr host o
      → IsEnded f tr host x
      → IsConnected o.desired_state (connect_ready f tr host o x)
  unfolding connect_ready
  connect_ready-IsConnected o (w, err e) l h = (refl, l, h)
  connect_ready-IsConnected o (w, ok c) l h =
      let (r, carried) = requeue-Carries o.desired_state c h in
      attach-IsConnected (record o { host = w }) (requeue f tr host o.desired_state c) l r carried

  module _ (laws : HostLaws tr host) where
    connect_session-IsConnected :
        (o : O) (x : Result BridgeTransportError C)
        → IsLive f tr host o
        → o.clock ≤ laws.time o.host
        → ((c : C) → x ≡ ok c → Of f tr (Opened f tr o.config 0) c)
        → IsConnected o.desired_state (connect_session f tr host o x)
    unfolding connect_session
    connect_session-IsConnected o (err e) l a k = (refl, l, tt)
    connect_session-IsConnected o (ok c) l a k =
        let (s, config, started) = k c refl in
        connect_ready-IsConnected o _ l (
          connect_loop-IsEnded f tr host laws (connect_fuel f tr host o.config) o.host o.clock c s
            started (omega arith) a
            (subst
              (λ (cfg : BridgeTransportConfig).
                cfg.handshake_timeout
                ≤ (laws.time o.host - o.clock)
                  + (connect_fuel f tr host o.config - 1) * handshake_poll_interval)
              (sym config) (enough (laws.time o.host - o.clock) o.config.handshake_timeout)))
      where
        enough :
            (passed timeout : ℕ)
            → timeout
              ≤ passed + (2 + timeout / handshake_poll_interval - 1) * handshake_poll_interval
        enough passed timeout = omega arith

    connect_transport-IsConnected :
        (o : O) (x : Result BridgeTransportError (ByteTransport.T tr))
        → IsLive f tr host o
        → IsConnected o.desired_state (connect_transport f tr host o x)
    unfolding connect_transport
    connect_transport-IsConnected o (err e) l = (refl, l, tt)
    connect_transport-IsConnected o (ok transport) l =
        let (w, at) = host.now o.host in
        connect_session-IsConnected (record o { host = w; clock = at; last_poll = none })
          (new_connection f tr transport o.config 0) l (laws.now_at o.host).1
          (λ c e. new_connection-Opened f tr host transport o.config 0 e)

    -- With a clock that runs, `connect` on an output without a connection ends: in an error of the
    -- code, or in a ready connection whose newest queued state is the desired one, if there is one.
    pub connect-IsConnected :
        (o : O) → IsLive f tr host o → IsConnected o.desired_state (connect f tr host o)
    unfolding connect
    connect-IsConnected o l =
        let (w, opened) = host.open_endpoint o.host in
        connect_transport-IsConnected (record o { host = w }) opened l
