-- ===== src/Transport/Session.antt =====
-- crates/bridge/bridge-output/src/bridge_transport.rs: `BridgeOutput`, connecting and polling.
use steam_controller_bridge.Common.{
  ℕ, zero, suc, ◌+◌, ◌-◌, ◌/◌, Bool, true, false, not, if◌then◌else◌, Result, ok, err, Option, none,
  some,
}
use steam_controller_bridge.Float.{Float}
use steam_controller_bridge.Gamepad.State.{GamepadState, InvalidState}
use steam_controller_bridge.Transport.State.{
  BridgeTransportError, not_ready, BridgeTransportConfig, BridgeTransportMetrics, no_metrics,
  BridgeConnectionStatus, disconnected, is_handshaking, u64_add, ByteTransport, BridgeConnection,
}
use steam_controller_bridge.Transport.Step.{Connection, Outcome, new_connection, queue_state}
use steam_controller_bridge.Transport.Poll.{poll}

-- `HANDSHAKE_POLL_INTERVAL`
abbrev pub handshake_poll_interval : ℕ
handshake_poll_interval = 1000000

-- The factory of transports for the endpoint and the clock of the operating system, with their
-- state: `open`, `Instant::now` and `thread::sleep(HANDSHAKE_POLL_INTERVAL)`.
pub record Host (tr : ByteTransport) : Type 1 where
  pub W : Type 0
  pub open_endpoint : W → W × Result BridgeTransportError (ByteTransport.T tr)
  pub now : W → W × ℕ
  pub sleep : W → W

-- The errors of the output, `OutputError` among them. The last two are of the model: the fuel of a
-- loop is used up, and the end of a function that the code declares `unreachable!`.
pub data Failure : Type 0 where
  failed : BridgeTransportError → Failure
  refused : InvalidState → Failure
  no_fuel unreachable : Failure

-- Over the types of the axis values, of the transport and of the host.
pub record BridgeOutput (F T W : Type 0) : Type 0 where
  pub host : W
  pub config : BridgeTransportConfig
  pub connection : Option (BridgeConnection F T)
  pub clock : ℕ
  pub completed : BridgeTransportMetrics
  pub connected_once : Bool
  pub desired_state : Option (GamepadState F)
  pub last_poll : Option ℕ
  pub bootloader_transition : Bool

-- The counters of a connection that has ended are added to those of the earlier ones.
unfoldable pub complete : BridgeTransportMetrics → BridgeTransportMetrics → BridgeTransportMetrics
unfolding u64_add
complete completed m = record {
  packets_sent = u64_add completed.packets_sent m.packets_sent;
  packets_received = u64_add completed.packets_received m.packets_received;
  framing_failures = u64_add completed.framing_failures m.framing_failures;
  checksum_failures = u64_add completed.checksum_failures m.checksum_failures;
  states_dropped = u64_add completed.states_dropped m.states_dropped;
  reconnects = completed.reconnects;
  state_refreshes = u64_add completed.state_refreshes m.state_refreshes;
  rumble_commands_received = u64_add completed.rumble_commands_received m.rumble_commands_received;
  rumble_commands_coalesced =
      u64_add completed.rumble_commands_coalesced m.rumble_commands_coalesced;
}

module _ (f : Float) (tr : ByteTransport) (host : Host tr) where
  abbrev pub Output : Type 0
  Output = BridgeOutput (Float.F f) (ByteTransport.T tr) (Host.W host)

  abbrev pub Answer : Type 0 → Type 0
  Answer A = Output × Result Failure A

  -- `operation?; next`
  abbrev pub and_next : {A : Type 0} → Answer (Unit {0}) → (Output → Answer A) → Answer A
  and_next (o, err e) next = (o, err e)
  and_next (o, ok _) next = next o

  abbrev pub HostConnection : Type 0
  HostConnection = Host.W host × Result Failure (Connection f tr)

  abbrev pub answered : Result BridgeTransportError (Unit {0}) → Result Failure (Unit {0})
  answered (ok _) = ok tt
  answered (err e) = err (failed e)

  -- The `while` of `connect` on fuel, from the connection that `new` opened at the clock's start.
  unfoldable pub connect_loop : ℕ → Host.W host → ℕ → Connection f tr → HostConnection
  connect_loop zero w clock c = (w, err no_fuel)
  connect_loop (suc fuel) w clock c =
      let (w', at) = host.now w in
      let (c', answer) = poll f tr c (at - clock) in
      let later = connect_loop fuel (host.sleep w') clock c' in
      if not (is_handshaking c.status) then (w, ok c) else elim answer [
        | err e ↦ (w', err (failed e))
        | ok _ ↦ if is_handshaking c'.status then later else (w', ok c')
      ]

  -- Every round but the last sleeps, and the handshake times out.
  abbrev pub connect_fuel : BridgeTransportConfig → ℕ
  connect_fuel config = 2 + config.handshake_timeout / handshake_poll_interval

  abbrev pub requeue : Option (GamepadState (Float.F f)) → Connection f tr → Outcome f tr
  requeue none c = (c, ok tt)
  requeue (some state) c = queue_state f tr c state

  unfoldable pub attach : Output → Outcome f tr → Answer (Unit {0})
  attach o (c, err e) = (o, err (failed e))
  attach o (c, ok _) =
      let (w, at) = host.now o.host in
      let reconnects = u64_add o.completed.reconnects 1 in
      (
        record o {
          host = w;
          completed =
              if o.connected_once
              then record o.completed { reconnects = reconnects }
              else o.completed;
          connected_once = true;
          connection = some c;
          last_poll = some (at - o.clock);
        },
        ok tt,
      )

  unfoldable pub connect_ready : Output → HostConnection → Answer (Unit {0})
  unfolding attach
  connect_ready o (w, err e) = (record o { host = w }, err e)
  connect_ready o (w, ok c) = attach (record o { host = w }) (requeue o.desired_state c)

  unfoldable pub connect_session :
      Output → Result BridgeTransportError (Connection f tr) → Answer (Unit {0})
  unfolding connect_ready connect_loop
  connect_session o (err e) = (o, err (failed e))
  connect_session o (ok c) = connect_ready o (connect_loop (connect_fuel o.config) o.host o.clock c)

  unfoldable pub connect_transport :
      Output → Result BridgeTransportError (ByteTransport.T tr) → Answer (Unit {0})
  unfolding connect_session
  connect_transport o (err e) = (o, err (failed e))
  connect_transport o (ok transport) =
      let (w, at) = host.now o.host in
      connect_session (record o { host = w; clock = at; last_poll = none })
        (new_connection f tr transport o.config 0)

  unfoldable pub connect : Output → Answer (Unit {0})
  unfolding connect_transport
  connect o =
      let (w, opened) = host.open_endpoint o.host in
      connect_transport (record o { host = w }) opened

  -- The output before its first connection; the clock is read at once.
  abbrev pub new_output : Host.W host → BridgeTransportConfig → Output
  new_output w config =
      let (w', at) = host.now w in
      record {
        host = w';
        config = config;
        connection = none;
        clock = at;
        completed = no_metrics;
        connected_once = false;
        desired_state = none;
        last_poll = none;
        bootloader_transition = false;
      }

  -- `open_with_factory`
  unfoldable pub open_output : Host.W host → BridgeTransportConfig → Answer (Unit {0})
  unfolding connect
  open_output w config = connect (new_output w config)

  unfoldable pub disconnect : Output → Output
  unfolding complete
  disconnect o = elim o.connection [
    | none ↦ o
    | some c ↦ record o { connection = none; completed = complete o.completed c.metrics }
  ]

  unfoldable pub polled : Output → ℕ → Outcome f tr → Answer (Unit {0})
  unfolding disconnect
  polled o now (c, ok _) = (record o { connection = some c; last_poll = some now }, ok tt)
  polled o now (c, err e) =
      (disconnect (record o { connection = some c; last_poll = some now }), err (failed e))

  unfoldable pub poll_connection : Output → ℕ → Option (Connection f tr) → Answer (Unit {0})
  unfolding polled
  poll_connection o now none = (o, err (failed not_ready))
  poll_connection o now (some c) = polled o now (poll f tr c now)

  unfoldable pub poll_existing : Output → Answer (Unit {0})
  unfolding poll_connection
  poll_existing o =
      let (w, at) = host.now o.host in
      poll_connection (record o { host = w }) (at - o.clock) o.connection

  -- `if self.connection.is_none() { self.connect()? }`, then the poll.
  unfoldable pub poll_or_connect : Output → Option (Connection f tr) → Answer (Unit {0})
  unfolding connect poll_existing
  poll_or_connect o none = and_next (connect o) poll_existing
  poll_or_connect o (some c) = poll_existing o

  unfoldable pub poll_output : Output → Answer (Unit {0})
  unfolding poll_or_connect
  poll_output o = poll_or_connect o o.connection

  unfoldable pub status : Output → BridgeConnectionStatus
  status o = elim o.connection [ none ↦ disconnected | some c ↦ c.status ]

  -- `metrics`: the ended connections and the current one.
  unfoldable pub metrics : Output → BridgeTransportMetrics
  unfolding complete
  metrics o = elim o.connection [
    | none ↦ complete o.completed no_metrics
    | some c ↦ complete o.completed c.metrics
  ]
