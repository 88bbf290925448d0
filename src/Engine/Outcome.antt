-- ===== src/Engine/Outcome.antt =====
-- crates/bridge/bridge-core/src/lib.rs: `ProcessOutcome::State` and what the engine did.
use steam_controller_bridge.Common.{
  ℕ, ◌≡◌, refl, ap, subst, ◌∷◌, Bool, true, false, List, Option, some, Result, ok, err, if-ind,
  Bool-cases, inl, inr,
}
use steam_controller_bridge.Common.Int.{pos}
use steam_controller_bridge.Mapper.Map.{map}
use steam_controller_bridge.Float.{Float}
use steam_controller_bridge.Gamepad.State.{GamepadState, OutputSuppression}
use steam_controller_bridge.Output.{GamepadOutput}
use steam_controller_bridge.Steam.Report.{
  SteamControllerState, DecodeError, DecodedReport, controller_state,
}
use steam_controller_bridge.Steam.Decode.{decode}
use steam_controller_bridge.Engine.State.{
  state, NeutralReason, decode_failures, BridgeError, decode_error,
}
use steam_controller_bridge.Engine.Sent.{logged, record_send}
use steam_controller_bridge.Engine.Step.{
  Engine, Reply, Elapsed, commit_neutral, force_neutral, process_failure, process_state,
  commit_state, add_processing, process_decoded, process_report, suppress, already_sent,
}

-- Of a reply to a report that found a suppression, a last sent state and a backend `o` with the
-- states that it has accepted, for its mapped state `m`, its unsuppressed state `u` and its flag
-- `sent`.
module _ (f : Float) (out : GamepadOutput (Float.F f)) (suppression : Option OutputSuppression)
    (last_sent : Option (GamepadState (Float.F f))) (o : GamepadOutput.O (logged f out)) where
  pub record IsTruthful (r : Reply f (logged f out)) (m u : GamepadState (Float.F f)) (sent : Bool)
      : Type 0 where
    pub masked : m ≡ suppress f suppression u
    pub delivered :
        sent ≡ true
        → ((r.1).1 ≡ m ∷ o.1) × (r.0.last_sent ≡ some m) × (already_sent f last_sent m ≡ false)
    pub skipped :
        sent ≡ false → (r.1 ≡ o) × (r.0.last_sent ≡ last_sent) × (already_sent f last_sent m ≡ true)

  abbrev pub Truth : Reply f (logged f out) → Type 0
  Truth r =
      (source : SteamControllerState) (m u : GamepadState (Float.F f)) (sent : Bool)
      → r.2 ≡ ok (state source m u sent)
      → IsTruthful r m u sent

module _ (f : Float) (out : GamepadOutput (Float.F f)) where
  commit_state-Truth :
      (e e' : Engine f (logged f out)) (o : GamepadOutput.O (logged f out)) (elapsed : Elapsed)
      (source : SteamControllerState) (mapped unsuppressed : GamepadState (Float.F f))
      (sent : GamepadOutput.O out × Result (GamepadOutput.Error out) (Unit {0}))
      → mapped ≡ suppress f e.suppression unsuppressed
      → already_sent f e.last_sent mapped ≡ false
      → Truth f out e.suppression e.last_sent o (
          commit_state f
            (logged f out)
            e'
            elapsed
            source
            mapped
            unsuppressed
            (record_send f out mapped o.1 sent))
  unfolding commit_state add_processing
  commit_state-Truth e e' o elapsed source mapped unsuppressed (o', ok _) q new s m u b p = record {
    masked = cc;
    delivered = λ t.
        (ap (λ g. g ∷ o.1) (cc), cc, subst (λ g. already_sent f e.last_sent g ≡ false) (cc) new);
    skipped = λ t. cc;
  }
  commit_state-Truth e e' o elapsed source mapped unsuppressed (o', err x) q new s m u b p = cc

  unchanged-Truth :
      (e e' : Engine f (logged f out)) (o : GamepadOutput.O (logged f out))
      (source : SteamControllerState) (mapped unsuppressed : GamepadState (Float.F f))
      → e'.last_sent ≡ e.last_sent
      → already_sent f e.last_sent mapped ≡ true
      → mapped ≡ suppress f e.suppression unsuppressed
      → Truth f out e.suppression e.last_sent o (e', o, ok (state source mapped unsuppressed false))
  unchanged-Truth e e' o source mapped unsuppressed kept same q s m u b p = record {
    masked = cc;
    delivered = λ t. cc;
    skipped = λ t. (refl, kept, subst (λ g. already_sent f e.last_sent g ≡ true) (cc) same);
  }

  process_state-Truth :
      (e : Engine f (logged f out)) (o : GamepadOutput.O (logged f out)) (now : ℕ)
      (elapsed : Elapsed) (source : SteamControllerState)
      → Truth f out e.suppression e.last_sent o
          (process_state f (logged f out) e o now elapsed source)
  unfolding process_state add_processing
  process_state-Truth e o now elapsed source =
      let unsuppressed = (map f e.mapper source (f.decimal (pos 4) 3)).1 in
      let mapped = suppress f e.suppression unsuppressed in
      elim (Bool-cases (already_sent f e.last_sent mapped)) [
        | inl same ↦ rw same (unchanged-Truth e _ o source mapped unsuppressed refl same refl)
        | inr other ↦ rw other (
            commit_state-Truth e _ o elapsed source mapped unsuppressed (out.send_state o.0 mapped)
              refl other)
      ]

  commit_neutral-Truth :
      (e e' : Engine f (logged f out)) (o : GamepadOutput.O (logged f out)) (reason : NeutralReason)
      (sent : GamepadOutput.O (logged f out) × Result (GamepadOutput.Error out) (Unit {0}))
      → Truth f out e.suppression e.last_sent o (commit_neutral f (logged f out) e' reason sent)
  unfolding commit_neutral
  commit_neutral-Truth e e' o reason (o', ok _) s m u b p = cc
  commit_neutral-Truth e e' o reason (o', err x) s m u b p = cc

  force_neutral-Truth :
      (e e' : Engine f (logged f out)) (o : GamepadOutput.O (logged f out)) (reason : NeutralReason)
      → Truth f out e.suppression e.last_sent o (force_neutral f (logged f out) e' o reason)
  unfolding force_neutral
  force_neutral-Truth e e' o reason =
      commit_neutral-Truth e e' o reason (GamepadOutput.send_neutral (logged f out) o)

  error-Truth :
      (e e' : Engine f (logged f out)) (o : GamepadOutput.O (logged f out))
      (x : BridgeError (GamepadOutput.Error out))
      → Truth f out e.suppression e.last_sent o (e', o, err x)
  error-Truth e e' o x s m u b p = cc

  process_decoded-Truth :
      (e : Engine f (logged f out)) (o : GamepadOutput.O (logged f out)) (now : ℕ)
      (elapsed : Elapsed) (decoded : Result DecodeError DecodedReport)
      → Truth f out e.suppression e.last_sent o
          (process_decoded f (logged f out) e o now elapsed decoded)
  unfolding process_decoded process_failure
  process_decoded-Truth e o now elapsed (err x) =
      if-ind (Truth f out e.suppression e.last_sent o) _ (force_neutral-Truth e _ o decode_failures)
        (error-Truth e _ o (decode_error x))
  process_decoded-Truth e o now elapsed (ok (controller_state source)) =
      process_state-Truth _ o now elapsed source
  process_decoded-Truth e o now elapsed (ok _) = λ s m u b p. cc

  -- On a backend that keeps the states it accepts, where a report is answered with a controller
  -- state: the reported mapped state is the unsuppressed one with the suppression in force
  -- applied. If the answer says that it was sent, the last sent state before was not equal to it,
  -- the backend has accepted this state and no other, and it is the engine's last sent state. If
  -- the answer says that it was not, the backend and the last sent state are unchanged and that
  -- last sent state equals the mapped one.
  pub process_report-IsTruthful :
      (e : Engine f (logged f out)) (o : GamepadOutput.O (logged f out)) (id : ℕ) (bytes : List ℕ)
      (now : ℕ) (elapsed : Elapsed) (source : SteamControllerState) (m u : GamepadState (Float.F f))
      (sent : Bool)
      → (process_report f (logged f out) e o id bytes now elapsed).2 ≡ ok (state source m u sent)
      → IsTruthful f out e.suppression e.last_sent o
          (process_report f (logged f out) e o id bytes now elapsed)
          m
          u
          sent
  unfolding process_report
  process_report-IsTruthful e o id bytes now elapsed source m u sent p =
      process_decoded-Truth _ o now elapsed (decode id bytes) source m u sent p
