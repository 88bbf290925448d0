-- ===== src/Transport/Calls.antt =====
-- crates/bridge/bridge-output/src/bridge_transport.rs: the connections that the operations reach.
pub mod Logged
use steam_controller_bridge.Common.{
  ℕ, ◌+◌, ◌-◌, ◌%◌, ◌^◌, ◌≤◌, ◌<◌, ◌≡◌, refl, subst, sym, arith, Bool, true, false, not, if-cases,
  if-ind, ◌==◌, ==→eq, List, [], ◌∷◌, ◌++◌, length, length-append, All, Result, ok, err,
  ok-injective, not-false, Bool-cases, inl, inr, Option, none, some,
}
use steam_controller_bridge.Float.{Float}
use steam_controller_bridge.Gamepad.State.{GamepadState, InvalidState, neutral, validate}
use steam_controller_bridge.Protocol.Message.{
  Message, new_frame, hello, enter_uf2_bootloader, record_install_receipt, protocol_version,
}
use steam_controller_bridge.Protocol.Encode.{encode, encode_message}
use steam_controller_bridge.Transport.Firmware.{FirmwareInstallReceipt}
use steam_controller_bridge.Transport.State.{
  IoErrorKind, BridgeTransportConfig, BridgeTransportError, Capability, is_ready, ByteTransport,
  fresh,
}
use steam_controller_bridge.Transport.Step.{
  Connection, Outcome, and_then, write_message, write_bytes, sent, enqueue, enqueue_checked,
  queue_state, tail, new_connection, opened_with, send_neutral_now, request_uf2_bootloader,
  record_receipt, require_capability, take_feedback, take_uf2_bootloader_ready,
  take_receipt_recorded, take_control_error,
}
use steam_controller_bridge.Transport.Poll.{poll}
use steam_controller_bridge.Transport.Sound.{
  IsPollAnswer, IsValid, IsSound, hello-IsWritable, neutral-IsWritable, write_message-IsGood,
}
use steam_controller_bridge.Transport.Sound.Polled.{poll-IsGood}
use steam_controller_bridge.Transport.Log.{
  logged, IsLogged, Keeps, nothing_sent, poll-IsLogged, write_message-IsLogged,
  ready_write-IsLogged,
}

module _ (f : Float) (tr : ByteTransport) where
  -- An operation of the connection, whatever it answers.
  pub data ConnectionCall : Type 0 where
    call_queue : GamepadState (Float.F f) → ConnectionCall
    call_poll : (now : ℕ) → ConnectionCall
    call_neutral call_take_feedback call_take_ready call_take_receipt : ConnectionCall
    call_uf2 : (request_id : ℕ) → ConnectionCall
    call_receipt : (request_id : ℕ) → FirmwareInstallReceipt → ConnectionCall
    call_take_error : (expected : ℕ) → ConnectionCall

  unfoldable pub call : Connection f tr → ConnectionCall → Connection f tr
  unfolding poll queue_state send_neutral_now request_uf2_bootloader record_receipt
  call c (call_queue state) = (queue_state f tr c state).0
  call c (call_poll now) = (poll f tr c now).0
  call c call_neutral = (send_neutral_now f tr c).0
  call c call_take_feedback = (take_feedback f tr c).0
  call c call_take_ready = (take_uf2_bootloader_ready f tr c).0
  call c call_take_receipt = (take_receipt_recorded f tr c).0
  call c (call_uf2 request_id) = (request_uf2_bootloader f tr c request_id).0
  call c (call_receipt request_id receipt) = (record_receipt f tr c request_id receipt).0
  call c (call_take_error expected) = (take_control_error f tr c expected).0

  -- The connection comes from `new` on the transport by calls of its operations.
  pub data IsReached (start : ByteTransport.T tr) : Connection f tr → Type 0 where
    opened :
        (config : BridgeTransportConfig) (now : ℕ) {c : Connection f tr}
        → new_connection f tr start config now ≡ ok c
        → IsReached start c
    called :
        {c : Connection f tr} (k : ConnectionCall) → IsReached start c → IsReached start (call c k)

  sent-IsSound :
      (c : Connection f tr) (x : ByteTransport.T tr × Result IoErrorKind (Unit {0}))
      → IsSound f tr c
      → IsSound f tr (sent f tr c x).0
  unfolding sent
  sent-IsSound c (t, err kind) h = h
  sent-IsSound c (t, ok _) (a, b, v, k, s, r) = (a, b, v, k, omega arith, r)

  write_message-IsSound :
      (c : Connection f tr) (m : Message) → IsSound f tr c → IsSound f tr (write_message f tr c m).0
  unfolding write_message write_bytes
  write_message-IsSound c m h =
      elim (encode (new_frame c.sequence m)) as (λ r. IsSound f tr (write_bytes f tr c r).0) [
        | ok bytes ↦ sent-IsSound c (tr.write_all c.transport bytes) h
        | err e ↦ h
      ]

  All-append_one :
      (states : List (GamepadState (Float.F f))) (state : GamepadState (Float.F f))
      → All (IsValid f tr) states
      → IsValid f tr state
      → All (IsValid f tr) (states ++ (state ∷ []))
  All-append_one [] state vs v = (v, tt)
  All-append_one (s ∷ states) state (w, vs) v = (w, All-append_one states state vs v)

  length-tail :
      (states : List (GamepadState (Float.F f))) → length (tail f tr states) ≡ length states - 1
  length-tail [] = refl
  length-tail (s ∷ states) = omega arith

  All-tail :
      (states : List (GamepadState (Float.F f)))
      → All (IsValid f tr) states
      → All (IsValid f tr) (tail f tr states)
  All-tail [] v = tt
  All-tail (s ∷ states) (w, v) = v

  enqueue-IsSound :
      (c : Connection f tr) (state : GamepadState (Float.F f))
      → IsValid f tr state
      → IsSound f tr c
      → IsSound f tr (enqueue f tr c state)
  unfolding enqueue
  enqueue-IsSound c state valid (a, b, v, k, s, r) =
      if-cases (IsSound f tr) (length c.queued == c.config.queue_capacity)
        (λ full.
          let at = ==→eq (length c.queued) c.config.queue_capacity full in
          let less = length-tail c.queued in
          let put = length-append (tail f tr c.queued) (state ∷ []) in
          (omega arith, b, All-append_one _ state (All-tail c.queued v) valid, k, s, r))
        (λ free.
          let put = length-append c.queued (state ∷ []) in
          (room a free put, b, All-append_one c.queued state v valid, k, s, r))
    where
      room : {n m p : ℕ} → n ≤ m → (n == m) ≡ false → p ≡ n + 1 → p ≤ m
      room a free put = ground arith

  enqueue_checked-IsSound :
      (c : Connection f tr) (state : GamepadState (Float.F f)) (r : Result InvalidState (Unit {0}))
      → validate f state ≡ r
      → IsSound f tr c
      → IsSound f tr (enqueue_checked f tr c state r).0
  unfolding enqueue_checked
  enqueue_checked-IsSound c state (ok _) e h = enqueue-IsSound c state e h
  enqueue_checked-IsSound c state (err failure) e h = h

  gated-IsSound :
      (c : Connection f tr) (r : Result BridgeTransportError (Unit {0}))
      (next : Connection f tr → Outcome f tr)
      → IsSound f tr c
      → IsSound f tr (next c).0
      → IsSound f tr (and_then f tr (c, r) next).0
  gated-IsSound c (err e) next h h' = h
  gated-IsSound c (ok _) next h h' = h'

  call-IsSound :
      (c : Connection f tr) (k : ConnectionCall) → IsSound f tr c → IsSound f tr (call c k)
  unfolding call queue_state send_neutral_now request_uf2_bootloader record_receipt take_feedback
      take_uf2_bootloader_ready take_receipt_recorded take_control_error
  call-IsSound c (call_queue state) h = enqueue_checked-IsSound c state (validate f state) refl h
  call-IsSound c (call_poll now) h = (poll-IsGood f tr c now h).0
  call-IsSound c call_neutral (a, b, v, k, s, r) =
      if-ind (λ (x : Outcome f tr). IsSound f tr x.0) (not (is_ready c.status)) (a, b, v, k, s, r)
        (write_message-IsSound _ Message.neutral (omega arith, b, tt, tt, s, r))
  call-IsSound c call_take_feedback h = h
  call-IsSound c call_take_ready h = h
  call-IsSound c call_take_receipt h = h
  call-IsSound c (call_uf2 request_id) h =
      gated-IsSound c (require_capability f tr c _ _) _ h
        (write_message-IsSound _ (enter_uf2_bootloader request_id) h)
  call-IsSound c (call_receipt request_id receipt) h =
      gated-IsSound c (require_capability f tr c _ _) _ h
        (write_message-IsSound _ (record_install_receipt request_id receipt) h)
  call-IsSound c (call_take_error expected) h = h

  -- A connection that `new` opens has room in its queue and has sent the hello.
  pub new_connection-opened_with :
      (transport : ByteTransport.T tr) (config : BridgeTransportConfig) (now : ℕ)
      {c : Connection f tr}
      → new_connection f tr transport config now ≡ ok c
      → (0 < config.queue_capacity)
        × (opened_with f tr (
              write_message f tr
                (fresh transport config now)
                (hello protocol_version protocol_version))
            ≡ ok c)
  unfolding new_connection
  new_connection-opened_with transport config now {c = c} =
      if-cases (λ r. r ≡ ok c → Opened) (config.queue_capacity == 0) (λ z e. cc)
        (λ z.
          if-ind (λ r. r ≡ ok c → Opened) (config.handshake_timeout == 0) (λ e. cc)
            (if-ind (λ r. r ≡ ok c → Opened) (config.state_refresh_interval == 0) (λ e. cc)
              (λ e. (positive config.queue_capacity z, e))))
    where
      Opened : Type 0
      Opened =
          (0 < config.queue_capacity)
          × (opened_with f tr (
                write_message f tr (fresh transport config now)
                  (hello protocol_version protocol_version))
              ≡ ok c)

      positive : (n : ℕ) → (n == 0) ≡ false → 0 < n
      positive n e = ground arith

  pub opened_with-eq :
      (x : Outcome f tr) {c : Connection f tr} → opened_with f tr x ≡ ok c → x.0 ≡ c
  unfolding opened_with
  opened_with-eq (c', ok _) e = ok-injective e
  opened_with-eq (c', err failure) e = cc

  new_connection-IsSound :
      (transport : ByteTransport.T tr) (config : BridgeTransportConfig) (now : ℕ)
      {c : Connection f tr}
      → new_connection f tr transport config now ≡ ok c
      → IsSound f tr c
  unfolding fresh
  new_connection-IsSound transport config now e =
      let (room, e') = new_connection-opened_with transport config now e in
      subst (IsSound f tr) (opened_with-eq _ e') (
        write_message-IsSound (fresh transport config now) (hello protocol_version protocol_version)
          (omega arith, room, tt, tt, omega arith, tt))

  -- On a connection that `new` opened, whatever is called: the queue is within its capacity and
  -- holds only valid states, a state that is refreshed is valid and not neutral and stands with
  -- the time of its last frame, the sequence number has 16 bits, and a ready connection knows
  -- since when it is ready.
  pub IsReached-IsSound :
      (start : ByteTransport.T tr) (c : Connection f tr) → IsReached start c → IsSound f tr c
  IsReached-IsSound start c (opened config now e) = new_connection-IsSound start config now e
  IsReached-IsSound start c (called k r) = call-IsSound _ k (IsReached-IsSound start _ r)

  -- On a connection that `new` opened, whatever was called before: `poll` fails only with an error
  -- of I/O, a handshake or a pong that is late, or a rejected version, so that no state that it
  -- writes is invalid and no message too long.
  pub poll-IsPollAnswer :
      (start : ByteTransport.T tr) (c : Connection f tr) (now : ℕ)
      → IsReached start c
      → IsPollAnswer f tr (poll f tr c now).1
  poll-IsPollAnswer start c now r = (poll-IsGood f tr c now (IsReached-IsSound start c r)).1
