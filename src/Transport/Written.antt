-- ===== src/Transport/Written.antt =====
-- crates/bridge/bridge-output/src/bridge_transport.rs: the frame of a state on the wire.
use steam_controller_bridge.Common.{
  ℕ, ◌≡◌, refl, ◌-◌, ◌==◌, if-ind, length, some, [], List, ◌∷◌, Result, ok, err,
}
use steam_controller_bridge.Float.{Float}
use steam_controller_bridge.Gamepad.State.{GamepadState, InvalidState, neutral, validate}
use steam_controller_bridge.Engine.Step.{state_eq}
use steam_controller_bridge.Protocol.Message.{Message, ProtocolError, new_frame, WireGamepadState}
use steam_controller_bridge.Protocol.Encode.{encode}
use steam_controller_bridge.Protocol.Wire.{wire_try_from}
use steam_controller_bridge.Transport.State.{IoErrorKind, u64_add, ByteTransport}
use steam_controller_bridge.Transport.Step.{
  Connection, Outcome, sent, write_bytes, write_message, write_wire, write_state, remember,
  flush_newest, enqueue, enqueue_checked, queue_state,
}
use steam_controller_bridge.Transport.Log.{logged, keep}
use steam_controller_bridge.Transport.Open.{Success, and_then-Success}

module _ (f : Float) where
  -- The bytes are the frame of the state under the sequence number.
  abbrev pub IsFrameOf : GamepadState (Float.F f) → ℕ → List ℕ → Type 0
  IsFrameOf state n bytes =
      (wire : WireGamepadState) × (wire_try_from f state ≡ ok wire)
      × (encode (new_frame n (Message.gamepad_state wire)) ≡ ok bytes)

  -- The transport has accepted one frame more, that of the state.
  abbrev pub IsWritten : GamepadState (Float.F f) → ℕ → List (List ℕ) → List (List ℕ) → Type 0
  IsWritten state n log log' = (bytes : List ℕ) × IsFrameOf state n bytes × (log' ≡ bytes ∷ log)

  -- The last frame that the transport has accepted is that of the state.
  abbrev pub IsShown :
      (tr : ByteTransport) → GamepadState (Float.F f) → ByteTransport.T (logged tr) → Type 0
  IsShown tr state (t, log') = (n : ℕ) × (log : List (List ℕ)) × IsWritten state n log log'

module _ (f : Float) (tr : ByteTransport) where
  abbrev L : ByteTransport
  L = logged tr

  sent-IsWritten :
      (c : Connection f L) (state : GamepadState (Float.F f)) (bytes : List ℕ)
      (x : ByteTransport.T tr × Result IoErrorKind (Unit {0}))
      → IsFrameOf f state c.sequence bytes
      → Success f L
          (λ c'. IsWritten f state c.sequence c.transport.1 c'.transport.1)
          (sent f L c (keep c.transport.1 bytes x))
  unfolding sent
  sent-IsWritten c state bytes (t, ok _) h = (bytes, h, refl)
  sent-IsWritten c state bytes (t, err kind) h = tt

  write_bytes-IsWritten :
      (c : Connection f L) (state : GamepadState (Float.F f)) (wire : WireGamepadState)
      (r : Result ProtocolError (List ℕ))
      → wire_try_from f state ≡ ok wire
      → encode (new_frame c.sequence (Message.gamepad_state wire)) ≡ r
      → Success f L
          (λ c'. IsWritten f state c.sequence c.transport.1 c'.transport.1)
          (write_bytes f L c r)
  unfolding write_bytes
  write_bytes-IsWritten c state wire (ok bytes) e e' =
      sent-IsWritten c state bytes (tr.write_all c.transport.0 bytes) (wire, e, e')
  write_bytes-IsWritten c state wire (err failure) e e' = tt

  write_wire-IsWritten :
      (c : Connection f L) (state : GamepadState (Float.F f))
      (r : Result InvalidState WireGamepadState)
      → wire_try_from f state ≡ r
      → Success f L
          (λ c'. IsWritten f state c.sequence c.transport.1 c'.transport.1)
          (write_wire f L c r)
  unfolding write_wire write_message
  write_wire-IsWritten c state (ok wire) e =
      write_bytes-IsWritten c state wire
        (encode (new_frame c.sequence (Message.gamepad_state wire))) e refl
  write_wire-IsWritten c state (err failure) e = tt

  pub write_state-IsWritten :
      (c : Connection f L) (state : GamepadState (Float.F f))
      → Success f L
          (λ c'. IsWritten f state c.sequence c.transport.1 c'.transport.1)
          (write_state f L c state)
  unfolding write_state
  write_state-IsWritten c state = write_wire-IsWritten c state (wire_try_from f state) refl

  pub write_state-IsShown :
      (c : Connection f L) (state : GamepadState (Float.F f))
      → Success f L (λ c'. IsShown f tr state c'.transport) (write_state f L c state)
  write_state-IsShown c state = shown (write_state f L c state) (write_state-IsWritten c state)
    where
      shown :
          (x : Outcome f L)
          → Success f L (λ c'. IsWritten f state c.sequence c.transport.1 c'.transport.1) x
          → Success f L (λ c'. IsShown f tr state c'.transport) x
      shown (c', ok _) h = (c.sequence, c.transport.1, h)
      shown (c', err e) h = tt

  pub flush_newest-IsWritten :
      (c : Connection f L) (now : ℕ) (state : GamepadState (Float.F f))
      → Success f L
          (λ c'. IsWritten f state c.sequence c.transport.1 c'.transport.1)
          (flush_newest f L c now (some state))
  unfolding flush_newest remember
  flush_newest-IsWritten c now state =
      let emptied = record c {
        queued = [];
        metrics = record c.metrics {
          states_dropped = u64_add c.metrics.states_dropped (length c.queued - 1);
        };
      } in
      let Q = λ (c' : Connection f L). IsWritten f state c.sequence c.transport.1 c'.transport.1 in
      and_then-Success f L Q Q (write_state f L emptied state) (remember f L now state)
        (write_state-IsWritten emptied state) (λ c' h. if-ind Q (state_eq f state (neutral f)) h h)

  -- Queueing writes nothing.
  abbrev pub IsUnsent : Connection f L → Connection f L → Type 0
  IsUnsent c c' = (c'.transport ≡ c.transport) × (c'.sequence ≡ c.sequence)

  enqueue_checked-IsUnsent :
      (c : Connection f L) (state : GamepadState (Float.F f)) (v : Result InvalidState (Unit {0}))
      → IsUnsent c (enqueue_checked f L c state v).0
  unfolding enqueue_checked enqueue
  enqueue_checked-IsUnsent c state (ok _) =
      if-ind (IsUnsent c) (length c.queued == c.config.queue_capacity) (refl, refl) (refl, refl)
  enqueue_checked-IsUnsent c state (err e) = (refl, refl)

  pub queue_state-IsUnsent :
      (c : Connection f L) (state : GamepadState (Float.F f))
      → IsUnsent c (queue_state f L c state).0
  unfolding queue_state
  queue_state-IsUnsent c state = enqueue_checked-IsUnsent c state (validate f state)
