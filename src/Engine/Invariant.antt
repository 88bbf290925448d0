-- ===== src/Engine/Invariant.antt =====
-- crates/bridge/bridge-core/src/lib.rs: the watchdog state of `BridgeEngine` between two calls.
use steam_controller_bridge.Common.{
  ℕ, ◌≡◌, refl, Bool, true, false, List, [], ◌∷◌, Option, none, some, Result, ok, err, if-ind,
}
use steam_controller_bridge.Float.{Float}
use steam_controller_bridge.Output.{GamepadOutput}
use steam_controller_bridge.Steam.Report.{DecodedReport, controller_state, DecodeError}
use steam_controller_bridge.Steam.Decode.{decode}
use steam_controller_bridge.Engine.State.{
  BridgeEngine, NeutralReason, input_timeout, decode_failures,
}
use steam_controller_bridge.Engine.Step.{
  Engine, Reply, Elapsed, set_output_suppression, note_dropped_reports, connected, commit_neutral,
  force_neutral, process_failure, process_state, commit_state, add_processing, already_sent,
  process_decoded, process_report, tick, tick_serviced, disconnected, reset, shutdown,
}
use steam_controller_bridge.Engine.Run.{
  Call, call_report, call_tick, call_disconnected, call_reset, call_shutdown, call_connected,
  call_suppression, call_dropped, step, run,
}

abbrev pub is_none {ℓ} : {A : Type ℓ} → Option A → Bool
is_none none = true
is_none (some a) = false

-- The input deadline runs exactly while the output is not neutralised.
abbrev pub Watched : {F : Type 0} → BridgeEngine F → Type 0
Watched e = e.neutralized ≡ is_none e.last_input

module _ (f : Float) (out : GamepadOutput (Float.F f)) where
  commit_neutral-Watched :
      (e : Engine f out) (reason : NeutralReason)
      (sent : GamepadOutput.O out × Result (GamepadOutput.Error out) (Unit {0}))
      → Watched e
      → Watched (commit_neutral f out e reason sent).0
  unfolding commit_neutral
  commit_neutral-Watched e reason (o, ok _) w = refl
  commit_neutral-Watched e reason (o, err x) w = w

  force_neutral-Watched :
      (e : Engine f out) (o : GamepadOutput.O out) (reason : NeutralReason)
      → Watched e
      → Watched (force_neutral f out e o reason).0
  unfolding force_neutral
  force_neutral-Watched e o reason w = commit_neutral-Watched e reason (out.send_neutral o) w

  commit_state-Watched :
      (e : Engine f out) (elapsed : Elapsed) (source : _) (mapped unsuppressed : _)
      (sent : GamepadOutput.O out × Result (GamepadOutput.Error out) (Unit {0}))
      → Watched e
      → Watched (commit_state f out e elapsed source mapped unsuppressed sent).0
  unfolding commit_state add_processing
  commit_state-Watched e elapsed source mapped unsuppressed (o, ok _) w = w
  commit_state-Watched e elapsed source mapped unsuppressed (o, err x) w = w

  process_state-Watched :
      (e : Engine f out) (o : GamepadOutput.O out) (now : ℕ) (elapsed : Elapsed) (source : _)
      → Watched (process_state f out e o now elapsed source).0
  unfolding process_state add_processing
  process_state-Watched e o now elapsed source =
      if-ind (λ (r : Reply f out). Watched r.0) (already_sent f _ _) refl
        (commit_state-Watched _ elapsed source _ _ (out.send_state o _) refl)

  process_failure-Watched :
      (e : Engine f out) (o : GamepadOutput.O out) (elapsed : Elapsed) (x : DecodeError)
      → Watched e
      → Watched (process_failure f out e o elapsed x).0
  unfolding process_failure
  process_failure-Watched e o elapsed x w =
      if-ind (λ (r : Reply f out). Watched r.0) _ (force_neutral-Watched _ o decode_failures w) w

  process_decoded-Watched :
      (e : Engine f out) (o : GamepadOutput.O out) (now : ℕ) (elapsed : Elapsed)
      (decoded : Result DecodeError DecodedReport)
      → Watched e
      → Watched (process_decoded f out e o now elapsed decoded).0
  unfolding process_decoded add_processing
  process_decoded-Watched e o now elapsed (err x) w = process_failure-Watched e o elapsed x w
  process_decoded-Watched e o now elapsed (ok (controller_state source)) w =
      process_state-Watched _ o now elapsed source
  process_decoded-Watched e o now elapsed (ok _) w = w

  tick_serviced-Watched :
      (e : Engine f out) (now : ℕ)
      (serviced : GamepadOutput.O out × Result (GamepadOutput.Error out) (Unit {0}))
      → Watched e
      → Watched (tick_serviced f out e now serviced).0
  unfolding tick_serviced
  tick_serviced-Watched e now (o, ok _) w =
      if-ind (λ (r : Reply f out). Watched r.0) _ (force_neutral-Watched e o input_timeout w) w
  tick_serviced-Watched e now (o, err x) w = w

  step-Watched :
      (e : Engine f out) (o : GamepadOutput.O out) (c : Call)
      → Watched e
      → Watched (step f out e o c).0
  unfolding step process_report tick disconnected reset shutdown connected set_output_suppression
      note_dropped_reports
  step-Watched e o (call_report id bytes now elapsed) w =
      process_decoded-Watched _ o now elapsed (decode id bytes) w
  step-Watched e o (call_tick now) w = tick_serviced-Watched e now (out.service o) w
  step-Watched e o call_disconnected w = force_neutral-Watched e o _ w
  step-Watched e o call_reset w = force_neutral-Watched e o _ w
  step-Watched e o call_shutdown w = force_neutral-Watched e o _ w
  step-Watched e o call_connected w = w
  step-Watched e o (call_suppression s) w = w
  step-Watched e o (call_dropped n) w = w

  -- Over any sequence of the engine's calls, on any backend: if an input deadline runs exactly
  -- while the output is not neutralised, then so it is after the calls.
  pub run-Watched :
      (e : Engine f out) (o : GamepadOutput.O out) (cs : List Call)
      → Watched e
      → Watched (run f out e o cs).0
  unfolding run
  run-Watched e o [] w = w
  run-Watched e o (c ∷ cs) w =
      run-Watched (step f out e o c).0 (step f out e o c).1 cs (step-Watched e o c w)
