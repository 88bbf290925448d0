-- ===== src/Engine/Safety.antt =====
-- crates/bridge/bridge-core/src/lib.rs: when `BridgeEngine` sends neutral.
use steam_controller_bridge.Common.{
  ℕ, ◌+◌, ◌-◌, ◌^◌, ◌<◌, ◌≡◌, refl, ap, ◌∙◌, arith, true, false, leb, lt→leb_false, List, [], ◌∷◌,
  length, All, none, some, ok, err, and_false,
}
use steam_controller_bridge.Float.{Float}
use steam_controller_bridge.Gamepad.State.{neutral}
use steam_controller_bridge.Output.{GamepadOutput}
use steam_controller_bridge.Steam.Report.{DecodeError}
use steam_controller_bridge.Steam.Decode.{decode}
use steam_controller_bridge.Engine.State.{
  BridgeEngine, BridgeConfig, u32, neutralized, NeutralReason, no_change,
}
use steam_controller_bridge.Engine.Step.{
  Engine, commit_neutral, force_neutral, process_failure, process_decoded, process_report, tick,
  tick_serviced, is_overdue,
}
use steam_controller_bridge.Engine.Run.{Call, call_report, step, run}

-- The engine is parked: neutral was sent last, and no input deadline runs.
pub record IsParked (f : Float) (e : BridgeEngine (Float.F f)) : Type 0 where
  pub sent_neutral : e.last_sent ≡ some (neutral f)
  pub no_deadline : e.last_input ≡ none
  pub flagged : e.neutralized ≡ true

module _ (f : Float) (out : GamepadOutput (Float.F f)) (e : Engine f out)
    (o : GamepadOutput.O out) where
  force_neutral-IsParked :
      (reason : NeutralReason) {o' : GamepadOutput.O out}
      → out.send_neutral o ≡ (o', ok tt)
      → IsParked f (force_neutral f out e o reason).0
        × ((force_neutral f out e o reason).1 ≡ o')
        × ((force_neutral f out e o reason).2 ≡ ok (neutralized reason))
  unfolding force_neutral commit_neutral
  force_neutral-IsParked reason sent =
      rw sent (record { sent_neutral = refl; no_deadline = refl; flagged = refl }, refl, refl)

  -- A tick of a parked engine, or one before the deadline, sends nothing and changes nothing.
  pub tick_parked :
      (now : ℕ)
      → out.service o ≡ (o, ok tt)
      → IsParked f e
      → tick f out e o now ≡ (e, o, ok no_change)
  unfolding tick tick_serviced
  tick_parked now serviced parked = simp (serviced, IsParked.flagged parked)

  tick_early :
      (now last : ℕ)
      → out.service o ≡ (o, ok tt)
      → e.last_input ≡ some last
      → now < last + e.config.input_timeout
      → 0 < e.config.input_timeout
      → tick f out e o now ≡ (e, o, ok no_change)
  unfolding tick tick_serviced is_overdue
  tick_early now last serviced at early positive =
      simp (serviced, at, lt→leb_false e.config.input_timeout (now - last) (omega arith), and_false)

-- A report that does not decode.
abbrev pub IsUndecodable : Call → Type 0
IsUndecodable (call_report id bytes now elapsed) = (x : DecodeError) × (decode id bytes ≡ err x)
IsUndecodable _ = ⊥

module _ (f : Float) (out : GamepadOutput (Float.F f)) where
  -- One undecodable report below the limit is counted, and nothing is sent.
  undecodable_step :
      (e : Engine f out) (o : GamepadOutput.O out) (c : Call)
      → IsUndecodable c
      → e.consecutive_decode_failures + 1 < e.config.decode_failure_limit
      → e.config.decode_failure_limit < 2 ^ 32
      → ((step f out e o c).1 ≡ o)
        × ((step f out e o c).0.consecutive_decode_failures ≡ e.consecutive_decode_failures + 1)
        × ((step f out e o c).0.config ≡ e.config)
        × ((step f out e o c).0.last_sent ≡ e.last_sent)
  unfolding step process_report process_decoded process_failure
  undecodable_step e o (call_report id bytes now elapsed) (x, bad) below small =
      let count : ℕ = u32 (e.consecutive_decode_failures + 1) in
      let exact : count ≡ e.consecutive_decode_failures + 1 = omega arith in
      let test : leb e.config.decode_failure_limit count ≡ false =
        lt→leb_false e.config.decode_failure_limit count (omega arith) in
      simp (bad, test) (refl, exact, refl, refl)
  undecodable_step e o _ h below small = absurd h

  -- Any number of reports in a row that do not decode, where their number added to the failures
  -- before stays below the limit and the limit is below 2 ^ 32, leave the backend, the
  -- configuration and the last sent state as they were, and are all counted as consecutive
  -- failures.
  pub undecodable_run :
      (e : Engine f out) (o : GamepadOutput.O out) (cs : List Call)
      → All IsUndecodable cs
      → e.consecutive_decode_failures + length cs < e.config.decode_failure_limit
      → e.config.decode_failure_limit < 2 ^ 32
      → ((run f out e o cs).1 ≡ o)
        × ((run f out e o cs).0.consecutive_decode_failures
            ≡ e.consecutive_decode_failures + length cs)
        × ((run f out e o cs).0.config ≡ e.config)
        × ((run f out e o cs).0.last_sent ≡ e.last_sent)
  unfolding run
  undecodable_run e o [] h below small = (refl, omega arith, refl, refl)
  undecodable_run e o (c ∷ cs) (bad, rest) below small =
      let (e', o') = step f out e o c in
      let (same, counted, config, sent) = undecodable_step e o c bad (omega arith) small in
      let limit : e'.config.decode_failure_limit ≡ e.config.decode_failure_limit =
        ap (λ (k : BridgeConfig). k.decode_failure_limit) config in
      let (same', counted', config', sent') =
        undecodable_run e' o' cs rest (omega arith) (omega arith) in
      (same' ∙ same, omega arith, config' ∙ config, sent' ∙ sent)
