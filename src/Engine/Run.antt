-- ===== src/Engine/Run.antt =====
-- crates/bridge/bridge-core/src/lib.rs: sequences of calls on one `BridgeEngine`.
use steam_controller_bridge.Common.{ℕ, List, [], ◌∷◌, Option}
use steam_controller_bridge.Float.{Float}
use steam_controller_bridge.Gamepad.State.{OutputSuppression}
use steam_controller_bridge.Output.{GamepadOutput}
use steam_controller_bridge.Engine.Step.{
  Elapsed, Engine, set_output_suppression, note_dropped_reports, connected, process_report, tick,
  disconnected, reset, shutdown,
}

-- A call of one of the engine's public operations.
pub data Call : Type 0 where
  call_report : (report_id : ℕ) → (bytes : List ℕ) → (now : ℕ) → Elapsed → Call
  call_tick : (now : ℕ) → Call
  call_disconnected call_reset call_shutdown call_connected : Call
  call_suppression : Option OutputSuppression → Call
  call_dropped : ℕ → Call

module _ (f : Float) (out : GamepadOutput (Float.F f)) where
  -- The engine and the backend after a call, whatever it answered.
  unfoldable pub step :
      Engine f out → GamepadOutput.O out → Call → Engine f out × GamepadOutput.O out
  step e o (call_report id bytes now elapsed) =
      let (e', o', outcome) = process_report f out e o id bytes now elapsed in (e', o')
  step e o (call_tick now) = let (e', o', outcome) = tick f out e o now in (e', o')
  step e o call_disconnected = let (e', o', outcome) = disconnected f out e o in (e', o')
  step e o call_reset = let (e', o', outcome) = reset f out e o in (e', o')
  step e o call_shutdown = let (e', o', outcome) = shutdown f out e o in (e', o')
  step e o call_connected = (connected f out e, o)
  step e o (call_suppression s) = (set_output_suppression f out s e, o)
  step e o (call_dropped n) = (note_dropped_reports f out n e, o)

  unfoldable pub run :
      Engine f out → GamepadOutput.O out → List Call → Engine f out × GamepadOutput.O out
  run e o [] = (e, o)
  run e o (c ∷ cs) = let (e', o') = step e o c in run e' o' cs
