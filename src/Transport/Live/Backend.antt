-- ===== src/Transport/Live/Backend.antt =====
-- crates/bridge/bridge-output/src/bridge_transport.rs: every call of the backend `BridgeOutput`
-- answers, and a state that it accepts is written.
use steam_controller_bridge.Common.{
  ℕ, zero, suc, ◌-◌, ◌≡◌, refl, sym, subst, true, not, if-ind, ok, err, Option, none, some,
}
use steam_controller_bridge.Float.{Float}
use steam_controller_bridge.Gamepad.State.{GamepadState, validate}
use steam_controller_bridge.Transport.State.{is_ready, ByteTransport}
use steam_controller_bridge.Transport.Step.{Connection, Outcome, queue_state, write_state}
use steam_controller_bridge.Transport.Poll.{poll}
use steam_controller_bridge.Transport.Open.{Success, poll-ready}
use steam_controller_bridge.Transport.Session.{
  Host, Output, Answer, and_next, connect, disconnect, polled, poll_connection, poll_existing,
  poll_or_connect, poll_output,
}
use steam_controller_bridge.Transport.Step.{newest}
use steam_controller_bridge.Transport.Live.{
  IsReal, HostLaws, IsReadyOption, IsLive, IsSettled, queue_state-ready,
}
use steam_controller_bridge.Transport.Delivery.{
  Shows, HasDelivered, poll-HasDelivered, enqueue_checked-newest,
}
use steam_controller_bridge.Transport.Backend.{
  update, or_else, send_queued, send_attempt, send_attempts, service_attempts, service,
  transport_service_due,
}
use steam_controller_bridge.Transport.Live.Connected.{
  IsConnection, IsConnected, connect-IsConnected,
}

module _ (f : Float) (tr : ByteTransport) (host : Host tr) (Shown : Shows f tr) where
  abbrev pub DeliveredTo : GamepadState (Float.F f) → Option (Connection f tr) → Type 0
  DeliveredTo state none = ⊥
  DeliveredTo state (some c) = HasDelivered f tr Shown state c

  -- A success has written the state last; an error leaves no connection, or a ready one.
  abbrev pub IsDelivered : GamepadState (Float.F f) → Answer f tr host (Unit {0}) → Type 0
  IsDelivered state (o, ok _) = (o.desired_state ≡ some state) × DeliveredTo state o.connection
  IsDelivered state (o, err e) = (o.desired_state ≡ some state) × IsLive f tr host o × IsReal e

module _ (f : Float) (tr : ByteTransport) (host : Host tr) (Shown : Shows f tr)
    (shows : (c : Connection f tr) (state : GamepadState (Float.F f))
      → Success f tr (λ c'. Shown state c'.transport) (write_state f tr c state)) where
  abbrev C : Type 0
  C = Connection f tr

  abbrev O : Type 0
  O = Output f tr host

  abbrev Done : Type 0
  Done = Answer f tr host (Unit {0})

  abbrev S : Done → Type 0
  S = IsSettled f tr host

  abbrev D : GamepadState (Float.F f) → Done → Type 0
  D = IsDelivered f tr host Shown

  polled-IsSettled :
      (o : O) (now : ℕ) (x : Outcome f tr)
      → Success f tr (λ c. is_ready c.status ≡ true) x
      → S (polled f tr host o now x)
  unfolding polled disconnect
  polled-IsSettled o now (c, ok _) h = (h, tt)
  polled-IsSettled o now (c, err e) h = (tt, tt)

  polled-IsDelivered :
      (state : GamepadState (Float.F f)) (o : O) (now : ℕ) (x : Outcome f tr)
      → o.desired_state ≡ some state
      → Success f tr (HasDelivered f tr Shown state) x
      → D state (polled f tr host o now x)
  unfolding polled disconnect
  polled-IsDelivered state o now (c, ok _) d h = (d, h)
  polled-IsDelivered state o now (c, err e) d h = (d, tt, tt)

  poll_connection-IsSettled :
      (o : O) (now : ℕ) (k : Option C)
      → IsLive f tr host o
      → IsReadyOption f tr host k
      → S (poll_connection f tr host o now k)
  unfolding poll_connection
  poll_connection-IsSettled o now none l r = (l, tt)
  poll_connection-IsSettled o now (some c) l r =
      polled-IsSettled o now (poll f tr c now) (poll-ready f tr c now r)

  poll_connection-IsDelivered :
      (state : GamepadState (Float.F f)) (o : O) (now : ℕ) (k : Option C)
      → o.desired_state ≡ some state
      → IsConnection f tr host (some state) k
      → D state (poll_connection f tr host o now k)
  unfolding poll_connection
  poll_connection-IsDelivered state o now none d h = elim h [ ]
  poll_connection-IsDelivered state o now (some c) d (r, n) =
      polled-IsDelivered state o now (poll f tr c now) d
        (poll-HasDelivered f tr Shown shows now state c.queued n c r refl)

  poll_existing-IsSettled : (o : O) → IsLive f tr host o → S (poll_existing f tr host o)
  unfolding poll_existing
  poll_existing-IsSettled o l =
      let (w, at) = host.now o.host in
      poll_connection-IsSettled (record o { host = w }) (at - o.clock) o.connection l l

  poll_existing-IsDelivered :
      (state : GamepadState (Float.F f)) (o : O)
      → o.desired_state ≡ some state
      → IsConnection f tr host (some state) o.connection
      → D state (poll_existing f tr host o)
  unfolding poll_existing
  poll_existing-IsDelivered state o d h =
      let (w, at) = host.now o.host in
      poll_connection-IsDelivered state (record o { host = w }) (at - o.clock) o.connection d h

  live_of :
      (desired : Option (GamepadState (Float.F f))) (k : Option C)
      → IsConnection f tr host desired k
      → IsReadyOption f tr host k
  live_of desired none h = tt
  live_of desired (some c) (r, n) = r

  connected-IsSettled :
      (desired : Option (GamepadState (Float.F f))) (x : Done)
      → IsConnected f tr host desired x
      → S (and_next f tr host x (poll_existing f tr host))
  connected-IsSettled desired (o, err e) (d, l, r) = (l, r)
  connected-IsSettled desired (o, ok _) (d, h) =
      poll_existing-IsSettled o (live_of desired o.connection h)

  module _ (laws : HostLaws tr host) where
    poll_or_connect-IsSettled :
        (o : O) (k : Option C) → IsLive f tr host o → S (poll_or_connect f tr host o k)
    unfolding poll_or_connect
    poll_or_connect-IsSettled o none l =
        connected-IsSettled o.desired_state (connect f tr host o)
          (connect-IsConnected f tr host laws o l)
    poll_or_connect-IsSettled o (some c) l = poll_existing-IsSettled o l

    pub poll_output-IsSettled : (o : O) → IsLive f tr host o → S (poll_output f tr host o)
    unfolding poll_output
    poll_output-IsSettled o l = poll_or_connect-IsSettled o o.connection l

    poll_or_connect-IsDelivered :
        (state : GamepadState (Float.F f)) (o : O) (k : Option C)
        → o.connection ≡ k
        → o.desired_state ≡ some state
        → IsConnection f tr host (some state) k
        → D state (poll_or_connect f tr host o k)
    unfolding poll_or_connect
    poll_or_connect-IsDelivered state o none e d h = elim h [ ]
    poll_or_connect-IsDelivered state o (some c) e d h =
        poll_existing-IsDelivered state o d (subst (IsConnection f tr host (some state)) (sym e) h)

    poll_output-IsDelivered :
        (state : GamepadState (Float.F f)) (o : O)
        → o.desired_state ≡ some state
        → IsConnection f tr host (some state) o.connection
        → D state (poll_output f tr host o)
    unfolding poll_output
    poll_output-IsDelivered state o d h = poll_or_connect-IsDelivered state o o.connection refl d h

    or_else-IsSettled :
        (x : Done) (left : ℕ) (again : O → Done)
        → S x
        → ((left' : ℕ) → left ≡ suc left' → (o : O) → IsLive f tr host o → S (again o))
        → S (or_else f tr host x left again)
    or_else-IsSettled (o, ok _) left again h k = (h.0, tt)
    or_else-IsSettled (o, err e) zero again h k = h
    or_else-IsSettled (o, err e) (suc left) again h k = k left refl o h.0

    service_attempts-IsSettled :
        (left : ℕ) (o : O) → IsLive f tr host o → S (service_attempts f tr host (suc left) o)
    unfolding service_attempts
    service_attempts-IsSettled zero o l =
        or_else-IsSettled (poll_output f tr host o) zero _ (poll_output-IsSettled o l)
          (λ left' e o l. cc)
    service_attempts-IsSettled (suc left) o l =
        or_else-IsSettled (poll_output f tr host o) (suc left) _ (poll_output-IsSettled o l)
          (λ left' e o l. service_attempts-IsSettled left o l)

    pub service-IsSettled : (o : O) → IsLive f tr host o → S (service f tr host o)
    unfolding service
    service-IsSettled o l =
        let (w, at) = host.now o.host in
        if-ind S (not (transport_service_due (at - o.clock) o.last_poll)) (l, tt)
          (service_attempts-IsSettled 1 (record o { host = w }) l)

    or_else-IsDelivered :
        (state : GamepadState (Float.F f)) (x : Done) (left : ℕ) (again : O → Done)
        → D state x
        → ((left' : ℕ)
            → left ≡ suc left'
            → (o : O) → o.desired_state ≡ some state
            → IsLive f tr host o
            → D state (again o))
        → D state (or_else f tr host x left again)
    or_else-IsDelivered state (o, ok _) left again h k = h
    or_else-IsDelivered state (o, err e) zero again h k = h
    or_else-IsDelivered state (o, err e) (suc left) again (d, l, r) k = k left refl o d l

    connected-IsDelivered :
        (state : GamepadState (Float.F f)) (x : Done)
        → IsConnected f tr host (some state) x
        → D state (and_next f tr host x (poll_output f tr host))
    connected-IsDelivered state (o, err e) h = h
    connected-IsDelivered state (o, ok _) (d, h) = poll_output-IsDelivered state o d h

    queued-IsConnection :
        (c : C) (state : GamepadState (Float.F f))
        → is_ready c.status ≡ true
        → (is_ready (queue_state f tr c state).0.status ≡ true)
          × Success f tr (λ c'. newest f tr c'.queued ≡ some state) (queue_state f tr c state)
    unfolding queue_state
    queued-IsConnection c state r = (
      queue_state-ready f tr host c state r,
      enqueue_checked-newest f tr c state (validate f state),
    )

    module _ (state : GamepadState (Float.F f)) (left : ℕ) (again : O → Done)
        (k : (left' : ℕ)
          → left ≡ suc left'
          → (o : O) → o.desired_state ≡ some state
          → IsLive f tr host o
          → D state (again o)) where
      send_queued-IsDelivered :
          (o : O) (x : Outcome f tr)
          → o.desired_state ≡ some state
          → is_ready (x.0).status ≡ true
          → Success f tr (λ c. newest f tr c.queued ≡ some state) x
          → D state (send_queued f tr host (update f tr host o x) left again)
      unfolding send_queued
      send_queued-IsDelivered o (c, err e) d r n = (d, r, tt)
      send_queued-IsDelivered o (c, ok _) d r n =
          let o' = record o { connection = some c } in
          or_else-IsDelivered state (poll_output f tr host o') left again
            (poll_output-IsDelivered state o' d (r, n)) k

      send_attempt-IsDelivered :
          (o : O) (c : Option C)
          → o.desired_state ≡ some state
          → IsLive f tr host o
          → IsReadyOption f tr host c
          → D state (send_attempt f tr host o state c left again)
      unfolding send_attempt
      send_attempt-IsDelivered o none d l r =
          or_else-IsDelivered state
            (and_next f tr host (connect f tr host o) (poll_output f tr host)) left again
            (connected-IsDelivered state (connect f tr host o) (
              subst (λ desired. IsConnected f tr host desired (connect f tr host o)) d
                (connect-IsConnected f tr host laws o l)))
            k
      send_attempt-IsDelivered o (some c) d l r =
          let (r', n) = queued-IsConnection c state r in
          send_queued-IsDelivered o (queue_state f tr c state) d r' n

    pub send_attempts-IsDelivered :
        (state : GamepadState (Float.F f)) (left : ℕ) (o : O)
        → o.desired_state ≡ some state
        → IsLive f tr host o
        → D state (send_attempts f tr host (suc left) o state)
    unfolding send_attempts
    send_attempts-IsDelivered state zero o d l =
        send_attempt-IsDelivered state zero _ (λ left' e o d l. cc) o o.connection d l l
    send_attempts-IsDelivered state (suc left) o d l =
        send_attempt-IsDelivered state (suc left) _
          (λ left' e o d l. send_attempts-IsDelivered state left o d l) o o.connection d l l
