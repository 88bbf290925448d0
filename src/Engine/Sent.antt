-- ===== src/Engine/Sent.antt =====
-- crates/bridge/bridge-core/src/lib.rs: `last_sent` and the states that the backend was given.
use steam_controller_bridge.Common.{
  ℕ, ◌≡◌, refl, List, [], ◌∷◌, Option, none, some, Result, ok, err, if-ind,
}
use steam_controller_bridge.Float.{Float}
use steam_controller_bridge.Gamepad.State.{GamepadState, neutral}
use steam_controller_bridge.Output.{GamepadOutput}
use steam_controller_bridge.Steam.Report.{
  DecodedReport, controller_state, DecodeError, SteamControllerState,
}
use steam_controller_bridge.Steam.Decode.{decode}
use steam_controller_bridge.Engine.State.{
  BridgeEngine, NeutralReason, input_timeout, decode_failures,
}
use steam_controller_bridge.Engine.Step.{
  Engine, Reply, Elapsed, set_output_suppression, note_dropped_reports, connected, commit_neutral,
  force_neutral, process_failure, process_state, commit_state, add_processing, already_sent,
  process_decoded, process_report, tick, tick_serviced, disconnected, reset, shutdown,
}
use steam_controller_bridge.Engine.Run.{
  Call, call_report, call_tick, call_disconnected, call_reset, call_shutdown, call_connected,
  call_suppression, call_dropped, step, run,
}

-- A backend with the list of the states that it accepted, the newest first.
module _ (f : Float) (out : GamepadOutput (Float.F f)) where
  abbrev pub Log : Type 0
  Log = List (GamepadState (Float.F f))

  abbrev pub record_send :
      GamepadState (Float.F f)
      → Log
      → GamepadOutput.O out × Result (GamepadOutput.Error out) (Unit {0})
      → (GamepadOutput.O out × Log) × Result (GamepadOutput.Error out) (Unit {0})
  record_send s log (o, ok u) = ((o, s ∷ log), ok u)
  record_send s log (o, err x) = ((o, log), err x)

  abbrev pub keep_log :
      Log
      → GamepadOutput.O out × Result (GamepadOutput.Error out) (Unit {0})
      → (GamepadOutput.O out × Log) × Result (GamepadOutput.Error out) (Unit {0})
  keep_log log (o, r) = ((o, log), r)

  abbrev pub logged : GamepadOutput (Float.F f)
  logged = record {
    O = GamepadOutput.O out × Log;
    Error = GamepadOutput.Error out;
    send_state = λ (o, log) s. record_send s log (out.send_state o s);
    send_neutral = λ (o, log). record_send (neutral f) log (out.send_neutral o);
    service = λ (o, log). keep_log log (out.service o);
  }

abbrev pub newest {ℓ} : {A : Type ℓ} → List A → Option A
newest [] = none
newest (x ∷ xs) = some x

module _ (f : Float) (out : GamepadOutput (Float.F f)) where
  -- The engine's `last_sent` is the newest state that the backend accepted.
  abbrev pub InStep : BridgeEngine (Float.F f) → GamepadOutput.O (logged f out) → Type 0
  InStep e o = e.last_sent ≡ newest o.1

  commit_neutral-InStep :
      (e : Engine f (logged f out)) (reason : NeutralReason) (log : Log f out)
      (sent : GamepadOutput.O out × Result (GamepadOutput.Error out) (Unit {0}))
      → e.last_sent ≡ newest log
      → let r = commit_neutral f (logged f out) e reason (record_send f out (neutral f) log sent) in
        InStep r.0 r.1
  unfolding commit_neutral
  commit_neutral-InStep e reason log (o, ok _) w = refl
  commit_neutral-InStep e reason log (o, err x) w = w

  force_neutral-InStep :
      (e : Engine f (logged f out)) (o : GamepadOutput.O (logged f out)) (reason : NeutralReason)
      → InStep e o
      → let r = force_neutral f (logged f out) e o reason in InStep r.0 r.1
  unfolding force_neutral
  force_neutral-InStep e (o, log) reason w =
      commit_neutral-InStep e reason log (out.send_neutral o) w

  commit_state-InStep :
      (e : Engine f (logged f out)) (elapsed : Elapsed) (source : SteamControllerState)
      (mapped unsuppressed : GamepadState (Float.F f)) (log : Log f out)
      (sent : GamepadOutput.O out × Result (GamepadOutput.Error out) (Unit {0}))
      → e.last_sent ≡ newest log
      → let r =
          commit_state f
            (logged f out)
            e
            elapsed
            source
            mapped
            unsuppressed
            (record_send f out mapped log sent) in
        InStep r.0 r.1
  unfolding commit_state add_processing
  commit_state-InStep e elapsed source mapped unsuppressed log (o, ok _) w = refl
  commit_state-InStep e elapsed source mapped unsuppressed log (o, err x) w = w

  process_state-InStep :
      (e : Engine f (logged f out)) (o : GamepadOutput.O (logged f out)) (now : ℕ)
      (elapsed : Elapsed) (source : SteamControllerState)
      → InStep e o
      → let r = process_state f (logged f out) e o now elapsed source in InStep r.0 r.1
  unfolding process_state add_processing
  process_state-InStep e (o, log) now elapsed source w =
      if-ind (λ (r : Reply f (logged f out)). InStep r.0 r.1) (already_sent f _ _) w
        (commit_state-InStep _ elapsed source _ _ log (out.send_state o _) w)

  process_decoded-InStep :
      (e : Engine f (logged f out)) (o : GamepadOutput.O (logged f out)) (now : ℕ)
      (elapsed : Elapsed) (decoded : Result DecodeError DecodedReport)
      → InStep e o
      → let r = process_decoded f (logged f out) e o now elapsed decoded in InStep r.0 r.1
  unfolding process_decoded process_failure add_processing
  process_decoded-InStep e o now elapsed (err x) w =
      if-ind (λ (r : Reply f (logged f out)). InStep r.0 r.1) _
        (force_neutral-InStep _ o decode_failures w) w
  process_decoded-InStep e o now elapsed (ok (controller_state source)) w =
      process_state-InStep _ o now elapsed source w
  process_decoded-InStep e o now elapsed (ok _) w = w

  tick_serviced-InStep :
      (e : Engine f (logged f out)) (now : ℕ) (log : Log f out)
      (serviced : GamepadOutput.O out × Result (GamepadOutput.Error out) (Unit {0}))
      → e.last_sent ≡ newest log
      → let r = tick_serviced f (logged f out) e now (keep_log f out log serviced) in InStep r.0 r.1
  unfolding tick_serviced
  tick_serviced-InStep e now log (o, ok _) w =
      if-ind (λ (r : Reply f (logged f out)). InStep r.0 r.1) _
        (force_neutral-InStep e (o, log) input_timeout w) w
  tick_serviced-InStep e now log (o, err x) w = w

  step-InStep :
      (e : Engine f (logged f out)) (o : GamepadOutput.O (logged f out)) (c : Call)
      → InStep e o
      → let (e', o') = step f (logged f out) e o c in InStep e' o'
  unfolding step process_report tick disconnected reset shutdown connected set_output_suppression
      note_dropped_reports
  step-InStep e o (call_report id bytes now elapsed) w =
      process_decoded-InStep _ o now elapsed (decode id bytes) w
  step-InStep e (o, log) (call_tick now) w = tick_serviced-InStep e now log (out.service o) w
  step-InStep e o call_disconnected w = force_neutral-InStep e o _ w
  step-InStep e o call_reset w = force_neutral-InStep e o _ w
  step-InStep e o call_shutdown w = force_neutral-InStep e o _ w
  step-InStep e o call_connected w = w
  step-InStep e o (call_suppression s) w = w
  step-InStep e o (call_dropped n) w = w

  -- Over any sequence of the engine's calls, on any backend and with errors of the backend
  -- included: if `last_sent` was none or the newest state that the backend had accepted, it is so
  -- after the calls.
  pub run-InStep :
      (e : Engine f (logged f out)) (o : GamepadOutput.O (logged f out)) (cs : List Call)
      → InStep e o
      → let (e', o') = run f (logged f out) e o cs in InStep e' o'
  unfolding run
  run-InStep e o [] w = w
  run-InStep e o (c ∷ cs) w =
      run-InStep (step f (logged f out) e o c).0 (step f (logged f out) e o c).1 cs
        (step-InStep e o c w)
