-- ===== src/Transport/Live/Calls.antt =====
-- crates/bridge/bridge-output/src/bridge_transport.rs: sequences of calls on one `BridgeOutput`.
use steam_controller_bridge.Common.{
  ◌≡◌, refl, true, not, if-ind, Result, ok, err, Option, none, some,
}
use steam_controller_bridge.Float.{Float}
use steam_controller_bridge.Gamepad.State.{GamepadState, InvalidState, neutral, validate}
use steam_controller_bridge.Transport.State.{is_ready, BridgeTransportConfig, ByteTransport}
use steam_controller_bridge.Transport.Step.{Connection, Outcome, write_message, send_neutral_now}
use steam_controller_bridge.Transport.Session.{
  Host, Output, Answer, new_output, open_output, poll_output,
}
use steam_controller_bridge.Transport.Live.{HostLaws, IsReadyOption, IsLive, IsSettled}
use steam_controller_bridge.Transport.Backend.{
  update, on_connection, send_attempts, send_checked, send_state, forget, send_neutral, service,
}
use steam_controller_bridge.Transport.Live.Connected.{
  IsConnection, IsConnected, connect-IsConnected,
}
use steam_controller_bridge.Transport.Step.{sent, write_bytes, write_state}
use steam_controller_bridge.Transport.Log.{logged}
use steam_controller_bridge.Transport.Open.{Success, Success-any}
use steam_controller_bridge.Transport.Delivery.{Shows}
use steam_controller_bridge.Transport.Written.{IsShown, write_state-IsShown}
use steam_controller_bridge.Transport.State.{IoErrorKind}
use steam_controller_bridge.Protocol.Encode.{encode}
use steam_controller_bridge.Protocol.Message.{Message, new_frame}
use steam_controller_bridge.Transport.Live.Backend.{
  DeliveredTo, IsDelivered, poll_output-IsSettled, service-IsSettled, send_attempts-IsDelivered,
}

module _ (f : Float) (tr : ByteTransport) (host : Host tr) where
  abbrev C : Type 0
  C = Connection f tr

  abbrev O : Type 0
  O = Output f tr host

  abbrev Done : Type 0
  Done = Answer f tr host (Unit {0})

  -- The calls of the bridge engine and of the supervisor.
  pub data OutputCall : Type 0 where
    call_send_state : GamepadState (Float.F f) → OutputCall
    call_send_neutral call_service call_poll_output : OutputCall

  unfoldable pub call_output : O → OutputCall → Done
  unfolding send_state send_neutral service poll_output
  call_output o (call_send_state state) = send_state f tr host o state
  call_output o call_send_neutral = send_neutral f tr host o
  call_output o call_service = service f tr host o
  call_output o call_poll_output = poll_output f tr host o

  -- The output comes from `open` by calls, whatever they answered.
  pub data IsDriven : O → Type 0 where
    opened_output :
        (w : Host.W host) (config : BridgeTransportConfig)
        → IsDriven (open_output f tr host w config).0
    called_output : {o : O} (k : OutputCall) → IsDriven o → IsDriven (call_output o k).0

  -- A transport of which nothing is asked.
  abbrev Blind : Shows f tr
  Blind state t = Unit

  blind :
      (c : C) (state : GamepadState (Float.F f))
      → Success f tr (λ c'. Blind state c'.transport) (write_state f tr c state)
  blind c state = Success-any f tr (write_state f tr c state)

  delivered-IsSettled :
      (state : GamepadState (Float.F f)) (x : Done)
      → IsDelivered f tr host Blind state x
      → IsSettled f tr host x
  delivered-IsSettled state (o, err e) (d, l, r) = (l, r)
  delivered-IsSettled state (o, ok _) (d, h) = (live o.connection h, tt)
    where
      live : (k : Option C) → DeliveredTo f tr host Blind state k → IsReadyOption f tr host k
      live none h = tt
      live (some c) (r, q, l, h) = r

  sent-ready :
      (c : C) (x : ByteTransport.T tr × Result IoErrorKind (Unit {0}))
      → is_ready c.status ≡ true
      → is_ready (sent f tr c x).0.status ≡ true
  unfolding sent
  sent-ready c (t, ok _) r = r
  sent-ready c (t, err kind) r = r

  write_message-ready :
      (c : C) (m : Message)
      → is_ready c.status ≡ true
      → is_ready (write_message f tr c m).0.status ≡ true
  unfolding write_message write_bytes
  write_message-ready c m r =
      elim (encode (new_frame c.sequence m))
        as (λ b. is_ready (write_bytes f tr c b).0.status ≡ true) [
          | ok bytes ↦ sent-ready c (tr.write_all c.transport bytes) r
          | err e ↦ r
        ]

  send_neutral_now-ready :
      (c : C) → is_ready c.status ≡ true → is_ready (send_neutral_now f tr c).0.status ≡ true
  unfolding send_neutral_now
  send_neutral_now-ready c r =
      if-ind (λ (x : Outcome f tr). is_ready (x.0).status ≡ true) (not (is_ready c.status)) r
        (write_message-ready _ Message.neutral r)

  update-IsSettled :
      (o : O) (x : Outcome f tr)
      → is_ready (x.0).status ≡ true
      → IsSettled f tr host (forget f tr host (update f tr host o x))
  update-IsSettled o (c, ok _) r = (r, tt)
  update-IsSettled o (c, err e) r = (r, tt)

  neutral-IsSettled :
      (o : O) (k : Option C)
      → IsLive f tr host o
      → IsReadyOption f tr host k
      → IsSettled f tr host (forget f tr host (on_connection f tr host o (send_neutral_now f tr) k))
  neutral-IsSettled o none l r = (l, tt)
  neutral-IsSettled o (some c) l r =
      update-IsSettled o (send_neutral_now f tr c) (send_neutral_now-ready c r)

  module _ (laws : HostLaws tr host) where
    send_checked-IsSettled :
        (o : O) (state : GamepadState (Float.F f)) (v : Result InvalidState (Unit {0}))
        → IsLive f tr host o
        → IsSettled f tr host (send_checked f tr host o state v)
    unfolding send_checked
    send_checked-IsSettled o state (err e) l = (l, tt)
    send_checked-IsSettled o state (ok _) l =
        let o' = record o { desired_state = some state } in
        delivered-IsSettled state (send_attempts f tr host 2 o' state)
          (send_attempts-IsDelivered f tr host Blind blind laws state 1 o' refl l)

    call_output-IsSettled :
        (o : O) (k : OutputCall) → IsLive f tr host o → IsSettled f tr host (call_output o k)
    unfolding call_output send_state send_neutral
    call_output-IsSettled o (call_send_state state) l =
        send_checked-IsSettled o state (validate f state) l
    call_output-IsSettled o call_send_neutral l =
        neutral-IsSettled (record o { desired_state = some (neutral f) }) o.connection l l
    call_output-IsSettled o call_service l = service-IsSettled f tr host Blind blind laws o l
    call_output-IsSettled o call_poll_output l =
        poll_output-IsSettled f tr host Blind blind laws o l

    connected-IsLive : (x : Done) → IsConnected f tr host none x → IsLive f tr host (x.0)
    connected-IsLive (o, err e) (d, l, r) = l
    connected-IsLive (o, ok _) (d, h) = live o.connection h
      where
        live : (k : Option C) → IsConnection f tr host none k → IsReadyOption f tr host k
        live none h = tt
        live (some c) (r, n) = r

    pub IsDriven-IsLive : (o : O) → IsDriven o → IsLive f tr host o
    unfolding open_output
    IsDriven-IsLive o (opened_output w config) =
        connected-IsLive (open_output f tr host w config)
          (connect-IsConnected f tr host laws (new_output f tr host w config) tt)
    IsDriven-IsLive o (called_output k d) = (call_output-IsSettled _ k (IsDriven-IsLive _ d)).0

    -- On a host whose clock does not go back and whose sleeps last at least their time, whatever
    -- was called before: each of `send_state`, `send_neutral`, `service` and `poll` answers with a
    -- success or an error of the code, so that no `unreachable!` is reached and the loop of
    -- `connect` ends within its fuel, and a connection that it leaves is ready.
    pub call_output-total :
        (o : O) (k : OutputCall) → IsDriven o → IsSettled f tr host (call_output o k)
    call_output-total o k d = call_output-IsSettled o k (IsDriven-IsLive o d)

module _ (f : Float) (tr : ByteTransport) (host : Host (logged tr))
    (laws : HostLaws (logged tr) host) where
  -- On a transport that keeps the frames it accepts, and a host whose clock does not go back and
  -- whose sleeps last at least their time, where `send_state` gets a valid state, whatever was
  -- called before. If it succeeds, the output has a ready connection with an empty queue, the last
  -- frame that its transport has accepted is the encoding of this state's message, the state is
  -- kept as the one to refresh unless it is neutral, when none is kept, and it is the desired
  -- state. If it fails, it is the desired state too, a connection that is left is ready, and the
  -- error is one of the code.
  pub send_state-IsDelivered :
      (o : Output f (logged tr) host) (state : GamepadState (Float.F f))
      → IsDriven f (logged tr) host o
      → validate f state ≡ ok tt
      → IsDelivered f (logged tr) host (IsShown f tr) state (send_state f (logged tr) host o state)
  unfolding send_state send_checked
  send_state-IsDelivered o state d v = rw v (
      send_attempts-IsDelivered f (logged tr) host (IsShown f tr) (write_state-IsShown f tr) laws
        state 1 (record o { desired_state = some state }) refl
        (IsDriven-IsLive f (logged tr) host laws o d))
