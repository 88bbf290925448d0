-- ===== src/Transport/Calls/Logged.antt =====
-- crates/bridge/bridge-output/src/bridge_transport.rs: the frames that a connection has written
-- after any calls.
use steam_controller_bridge.Common.{
  ℕ, ◌≡◌, refl, subst, true, not, if-cases, if-ind, ◌==◌, [], length, Result, ok, err, not-false,
}
use steam_controller_bridge.Float.{Float}
use steam_controller_bridge.Gamepad.State.{GamepadState, InvalidState, validate}
use steam_controller_bridge.Protocol.Message.{
  Message, hello, enter_uf2_bootloader, record_install_receipt, protocol_version,
}
use steam_controller_bridge.Transport.State.{
  BridgeTransportConfig, BridgeTransportError, Capability, is_ready, ByteTransport, fresh,
}
use steam_controller_bridge.Transport.Step.{
  Connection, Outcome, and_then, enqueue, enqueue_checked, queue_state, new_connection,
  send_neutral_now, request_uf2_bootloader, record_receipt, require_capability, take_feedback,
  take_uf2_bootloader_ready, take_receipt_recorded, take_control_error,
}
use steam_controller_bridge.Transport.Log.{
  logged, IsLogged, Keeps, nothing_sent, poll-IsLogged, write_message-IsLogged,
  ready_write-IsLogged,
}
use steam_controller_bridge.Transport.Calls.{
  ConnectionCall, call_queue, call_poll, call_neutral, call_take_feedback, call_take_ready,
  call_take_receipt, call_uf2, call_receipt, call_take_error, call, IsReached, opened, called,
  new_connection-opened_with, opened_with-eq,
}

module _ (f : Float) (tr : ByteTransport) where
  abbrev L : ByteTransport
  L = logged tr

  gated-IsLogged :
      (c : Connection f L) (r : Result BridgeTransportError (Unit {0}))
      (next : Connection f L → Outcome f L)
      → IsLogged f tr c
      → (r ≡ ok tt → IsLogged f tr (next c).0)
      → IsLogged f tr (and_then f L (c, r) next).0
  gated-IsLogged c (err e) next h h' = h
  gated-IsLogged c (ok _) next h h' = h' refl

  require_capability-ready :
      (c : Connection f L) (capability : ℕ) (name : Capability)
      → require_capability f L c capability name ≡ ok tt
      → is_ready c.status ≡ true
  unfolding require_capability
  require_capability-ready c capability name =
      if-cases (λ r. r ≡ ok tt → is_ready c.status ≡ true) (not (is_ready c.status)) (λ e e'. cc)
        (λ e e'. not-false (is_ready c.status) e)

  enqueue_checked-IsLogged :
      (c : Connection f L) (state : GamepadState (Float.F f)) (r : Result InvalidState (Unit {0}))
      → IsLogged f tr c
      → IsLogged f tr (enqueue_checked f L c state r).0
  unfolding enqueue_checked enqueue
  enqueue_checked-IsLogged c state (ok _) h =
      if-ind (IsLogged f tr) (length c.queued == c.config.queue_capacity) h h
  enqueue_checked-IsLogged c state (err failure) h = h

  call-IsLogged :
      (c : Connection f L) (k : ConnectionCall f L) → IsLogged f tr c → IsLogged f tr (call f L c k)
  unfolding call queue_state send_neutral_now request_uf2_bootloader record_receipt take_feedback
      take_uf2_bootloader_ready take_receipt_recorded take_control_error
  call-IsLogged c (call_queue state) h = enqueue_checked-IsLogged c state (validate f state) h
  call-IsLogged c (call_poll now) h = poll-IsLogged f tr c now h
  call-IsLogged c call_neutral h =
      if-cases (Keeps f tr) (not (is_ready c.status)) (λ e. h)
        (λ e. ready_write-IsLogged f tr _ Message.neutral (not-false (is_ready c.status) e) h)
  call-IsLogged c call_take_feedback h = h
  call-IsLogged c call_take_ready h = h
  call-IsLogged c call_take_receipt h = h
  call-IsLogged c (call_uf2 request_id) h =
      gated-IsLogged c (require_capability f L c _ _) _ h (λ e.
        ready_write-IsLogged f tr _ (enter_uf2_bootloader request_id)
          (require_capability-ready c _ _ e) h)
  call-IsLogged c (call_receipt request_id receipt) h =
      gated-IsLogged c (require_capability f L c _ _) _ h (λ e.
        ready_write-IsLogged f tr _ (record_install_receipt request_id receipt)
          (require_capability-ready c _ _ e) h)
  call-IsLogged c (call_take_error expected) h = h

  new_connection-IsLogged :
      (t : ByteTransport.T tr) (config : BridgeTransportConfig) (now : ℕ) {c : Connection f L}
      → new_connection f L (t, []) config now ≡ ok c
      → IsLogged f tr c
  unfolding fresh
  new_connection-IsLogged t config now e =
      let (room, e') = new_connection-opened_with f L (t, []) config now e in
      subst (IsLogged f tr) (opened_with-eq f L _ e') (
        write_message-IsLogged f tr (fresh (t, []) config now)
          (hello protocol_version protocol_version) (refl, refl) nothing_sent)

  -- On a connection that `new` opened, whatever is called and whatever the transport reads or
  -- refuses: the frames that the transport has accepted carry the sequence numbers from 0 on, one
  -- each and modulo 2 ^ 16, up to the number that is next, and as long as the handshake lasts they
  -- are hellos of the protocol's version and pongs, so that no state, neutral or request goes out
  -- before.
  pub IsReached-IsLogged :
      (t : ByteTransport.T tr) (c : Connection f L) → IsReached f L (t, []) c → IsLogged f tr c
  IsReached-IsLogged t c (opened config now e) = new_connection-IsLogged t config now e
  IsReached-IsLogged t c (called k r) = call-IsLogged _ k (IsReached-IsLogged t _ r)
