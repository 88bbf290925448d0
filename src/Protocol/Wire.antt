-- ===== src/Protocol/Wire.antt =====
-- crates/bridge/bridge-protocol/src/lib.rs: the conversions between `GamepadState` and the wire.
use steam_controller_bridge.Common.{ℕ, Result, ok, ◌>>=◌}
use steam_controller_bridge.Common.Int.{ℤ, pos}
use steam_controller_bridge.Float.{Float}
use steam_controller_bridge.Gamepad.Hat.{hat_index}
use steam_controller_bridge.Gamepad.State.{GamepadState, InvalidState, validate}
use steam_controller_bridge.Protocol.Message.{WireGamepadState, ProtocolError}
use steam_controller_bridge.Protocol.Parse.{wire_hat}

module _ (f : Float) where
  unfoldable pub encode_stick : Float.F f → ℤ
  encode_stick value = f.round_i16 (f.mul value (f.decimal (pos 32767) 0))

  unfoldable pub decode_stick : ℤ → Float.F f
  decode_stick value = f.div (f.from_i16 value) (f.decimal (pos 32767) 0)

  unfoldable pub encode_trigger : Float.F f → ℕ
  encode_trigger value = f.round_u16 (f.mul value (f.decimal (pos 65535) 0))

  unfoldable pub decode_trigger : ℕ → Float.F f
  decode_trigger value = f.div (f.from_u16 value) (f.decimal (pos 65535) 0)

  -- The fields that the conversion writes once the state is valid.
  abbrev pub wire_of : GamepadState (Float.F f) → WireGamepadState
  wire_of state = record {
    buttons = state.buttons;
    hat = hat_index state.hat;
    flags = 0;
    left_x = encode_stick state.left_x;
    left_y = encode_stick state.left_y;
    right_x = encode_stick state.right_x;
    right_y = encode_stick state.right_y;
    left_trigger = encode_trigger state.left_trigger;
    right_trigger = encode_trigger state.right_trigger;
  }

  -- `WireGamepadState::try_from(GamepadState)`
  unfoldable pub wire_try_from : GamepadState (Float.F f) → Result InvalidState WireGamepadState
  wire_try_from state = validate f state >>= λ _. ok (wire_of state)

  -- `GamepadState::try_from(WireGamepadState)`
  unfoldable pub state_try_from : WireGamepadState → Result ProtocolError (GamepadState (Float.F f))
  state_try_from state = wire_hat state >>= λ hat. ok (record {
    buttons = state.buttons;
    hat = hat;
    left_x = decode_stick state.left_x;
    left_y = decode_stick state.left_y;
    right_x = decode_stick state.right_x;
    right_y = decode_stick state.right_y;
    left_trigger = decode_trigger state.left_trigger;
    right_trigger = decode_trigger state.right_trigger;
  })
