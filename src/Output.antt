-- ===== src/Output.antt =====
-- crates/bridge/bridge-output/src/lib.rs: the trait `GamepadOutput` as the bridge engine uses it,
-- and the backend `MockOutput`.
use steam_controller_bridge.Common.{List, [], ◌∷◌, ◌++◌, Result, ok, err}
use steam_controller_bridge.Float.{Float}
use steam_controller_bridge.Gamepad.State.{GamepadState, InvalidState, neutral, validate}

-- A backend: its state, its errors, and the three methods that the engine calls. A method returns
-- the state that it leaves, on errors too.
pub record GamepadOutput (F : Type 0) : Type 1 where
  pub O : Type 0
  pub Error : Type 0
  pub send_state : O → GamepadState F → O × Result Error (Unit {0})
  pub send_neutral : O → O × Result Error (Unit {0})
  pub service : O → O × Result Error (Unit {0})

module _ (f : Float) where
  pub record MockOutput : Type 0 where
    pub states : List (GamepadState (Float.F f))

  unfoldable pub mock_send_state :
      MockOutput → GamepadState (Float.F f) → MockOutput × Result InvalidState (Unit {0})
  mock_send_state output state = elim (validate f state) [
    | ok _ ↦ (record output { states = output.states ++ (state ∷ []) }, ok tt)
    | err e ↦ (output, err e)
  ]

  -- `send_neutral` and `service` are the trait's defaults.
  abbrev pub mock_output : GamepadOutput (Float.F f)
  mock_output = record {
    O = MockOutput;
    Error = InvalidState;
    send_state = mock_send_state;
    send_neutral = λ output. mock_send_state output (neutral f);
    service = λ output. (output, ok tt);
  }
