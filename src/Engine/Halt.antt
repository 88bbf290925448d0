-- ===== src/Engine/Halt.antt =====
-- crates/bridge/bridge-core/src/lib.rs: reports in a row that do not decode.
use steam_controller_bridge.Common.{
  ℕ, ◌+◌, ◌^◌, ◌≤◌, ◌<◌, ◌≡◌, refl, ap, ◌∙◌, arith, true, leb, le→leb, if-ind, List, [], ◌∷◌,
  length, All, Result, ok, err,
}
use steam_controller_bridge.Float.{Float}
use steam_controller_bridge.Gamepad.State.{neutral}
use steam_controller_bridge.Output.{GamepadOutput}
use steam_controller_bridge.Steam.Report.{DecodeError}
use steam_controller_bridge.Steam.Decode.{decode}
use steam_controller_bridge.Engine.State.{
  BridgeConfig, u32, output_error, neutralized, decode_failures,
}
use steam_controller_bridge.Engine.Step.{
  Engine, Reply, Elapsed, commit_neutral, force_neutral, process_failure, process_decoded,
  process_report,
}
use steam_controller_bridge.Engine.Run.{Call, call_report, step, run}
use steam_controller_bridge.Engine.Safety.{IsParked, IsUndecodable}
use steam_controller_bridge.Engine.Sent.{logged, Log, record_send}

module _ (f : Float) (out : GamepadOutput (Float.F f)) where
  -- One failure more is counted, whether or not neutral is sent for it.
  abbrev Counts : Engine f out → ℕ → Reply f out → Type 0
  Counts e n r =
      ((r.0).consecutive_decode_failures ≡ e.consecutive_decode_failures + n)
      × ((r.0).config ≡ e.config)

  commit_neutral-Counts :
      (e e' : Engine f out) (n : ℕ)
      (sent : GamepadOutput.O out × Result (GamepadOutput.Error out) (Unit {0}))
      → e'.consecutive_decode_failures ≡ e.consecutive_decode_failures + n
      → e'.config ≡ e.config
      → Counts e n (commit_neutral f out e' decode_failures sent)
  unfolding commit_neutral
  commit_neutral-Counts e e' n (o, ok _) a b = (a, b)
  commit_neutral-Counts e e' n (o, err x) a b = (a, b)

  undecodable_step-Counts :
      (e : Engine f out) (o : GamepadOutput.O out) (c : Call)
      → IsUndecodable c
      → e.consecutive_decode_failures + 1 < 2 ^ 32
      → ((step f out e o c).0.consecutive_decode_failures ≡ e.consecutive_decode_failures + 1)
        × ((step f out e o c).0.config ≡ e.config)
  unfolding step process_report process_decoded process_failure force_neutral
  undecodable_step-Counts e o (call_report id bytes now elapsed) (x, bad) small =
      let exact : u32 (e.consecutive_decode_failures + 1) ≡ e.consecutive_decode_failures + 1 =
        omega arith in
      rw bad (
        if-ind (Counts e 1) _ (commit_neutral-Counts e _ 1 (out.send_neutral o) exact refl)
          (exact, refl))
  undecodable_step-Counts e o _ h small = absurd h

  undecodable_run-Counts :
      (e : Engine f out) (o : GamepadOutput.O out) (cs : List Call)
      → All IsUndecodable cs
      → e.consecutive_decode_failures + length cs < 2 ^ 32
      → ((run f out e o cs).0.consecutive_decode_failures
          ≡ e.consecutive_decode_failures + length cs)
        × ((run f out e o cs).0.config ≡ e.config)
  unfolding run
  undecodable_run-Counts e o [] h small = (omega arith, refl)
  undecodable_run-Counts e o (c ∷ cs) (bad, rest) small =
      let (e', o') = step f out e o c in
      let (counted, config) = undecodable_step-Counts e o c bad (omega arith) in
      let (counted', config') = undecodable_run-Counts e' o' cs rest (omega arith) in
      (omega arith, config' ∙ config)

module _ (f : Float) (out : GamepadOutput (Float.F f)) where
  -- Neutral is the newest state that the backend has accepted and the engine is parked, or the
  -- backend refused it and got nothing.
  abbrev pub IsHalted : Log f out → Reply f (logged f out) → Type 0
  IsHalted log (e, o, ok outcome) =
      IsParked f e × (o.1 ≡ neutral f ∷ log) × (outcome ≡ neutralized decode_failures)
  IsHalted log (e, o, err (output_error x)) = o.1 ≡ log
  IsHalted log (e, o, err _) = ⊥

  commit_neutral-IsHalted :
      (e : Engine f (logged f out)) (log : Log f out)
      (sent : GamepadOutput.O out × Result (GamepadOutput.Error out) (Unit {0}))
      → IsHalted log (
          commit_neutral f
            (logged f out)
            e
            decode_failures
            (record_send f out (neutral f) log sent))
  unfolding commit_neutral
  commit_neutral-IsHalted e log (o, ok _) =
      (record { sent_neutral = refl; no_deadline = refl; flagged = refl }, refl, refl)
  commit_neutral-IsHalted e log (o, err x) = refl

  process_report-IsHalted :
      (e : Engine f (logged f out)) (o : GamepadOutput.O (logged f out)) (id : ℕ) (bytes : List ℕ)
      (now : ℕ) (elapsed : Elapsed) {x : DecodeError}
      → decode id bytes ≡ err x
      → e.config.decode_failure_limit ≤ e.consecutive_decode_failures + 1
      → e.consecutive_decode_failures + 1 < 2 ^ 32
      → IsHalted o.1 (process_report f (logged f out) e o id bytes now elapsed)
  unfolding process_report process_decoded process_failure force_neutral
  process_report-IsHalted e o id bytes now elapsed bad reached small =
      let count : ℕ = u32 (e.consecutive_decode_failures + 1) in
      let test : leb e.config.decode_failure_limit count ≡ true =
        le→leb e.config.decode_failure_limit count (omega arith) in
      rw (bad, test) (commit_neutral-IsHalted _ o.1 (out.send_neutral o.0))

  -- On a backend that keeps the states it accepts: after undecodable reports in a row, one more
  -- makes the consecutive failures reach the limit and still fit 32 bits. Then `process_report`
  -- answers that it neutralised for decode failures, neutral is what the backend has accepted next
  -- and the engine remembers as sent, no input deadline runs and the engine is flagged
  -- neutralised; or it answers with an error of the backend, which has accepted nothing more.
  pub undecodable_run-IsHalted :
      (e : Engine f (logged f out)) (o : GamepadOutput.O (logged f out)) (cs : List Call) (id : ℕ)
      (bytes : List ℕ) (now : ℕ) (elapsed : Elapsed) {x : DecodeError}
      → All IsUndecodable cs
      → decode id bytes ≡ err x
      → e.config.decode_failure_limit ≤ e.consecutive_decode_failures + length cs + 1
      → e.consecutive_decode_failures + length cs + 1 < 2 ^ 32
      → let (e', o') = run f (logged f out) e o cs in
        IsHalted o'.1 (process_report f (logged f out) e' o' id bytes now elapsed)
  undecodable_run-IsHalted e o cs id bytes now elapsed all bad reached small =
      let (e', o') = run f (logged f out) e o cs in
      let (counted, config) = undecodable_run-Counts f (logged f out) e o cs all (omega arith) in
      let limit : e'.config.decode_failure_limit ≡ e.config.decode_failure_limit =
        ap (λ (k : BridgeConfig). k.decode_failure_limit) config in
      process_report-IsHalted e' o' id bytes now elapsed bad (omega arith) (omega arith)
