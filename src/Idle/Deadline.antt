-- ===== src/Idle/Deadline.antt =====
-- crates/bridge/bridge-runtime/src/idle_shutdown.rs: when the idle deadline is reached.
use steam_controller_bridge.Common.{
  ℕ, ◌+◌, ◌-◌, ◌≤◌, ◌≡◌, refl, true, false, not, arith, List, [], ◌∷◌, All, Option, none, some,
  if-ind, leb→le, le→leb,
}
use steam_controller_bridge.Float.{Float}
use steam_controller_bridge.Gamepad.State.{GamepadState}
use steam_controller_bridge.Steam.Report.{SteamControllerState}
use steam_controller_bridge.Idle.{
  IdleActivityTracker, is_some_true, reset_idle, set_timeout, pause, meaningful_activity,
  observe_activity, observe, idle_age, age_since, is_reached, is_neutral, deadline_reached,
}

module _ (f : Float) where
  -- A call of an operation of the tracker.
  pub data IdleCall : Type 0 where
    call_observe : (now : ℕ) → SteamControllerState → GamepadState (Float.F f) → IdleCall
    call_reset : (now : ℕ) → IdleCall
    call_timeout : Option ℕ → (now : ℕ) → IdleCall
    call_pause : IdleCall

  unfoldable pub call : IdleActivityTracker → IdleCall → IdleActivityTracker
  call t (call_observe now source mapped) = (observe f now source mapped t).0
  call t (call_reset now) = reset_idle now t
  call t (call_timeout timeout now) = set_timeout timeout now t
  call t call_pause = pause t

  unfoldable pub calls : IdleActivityTracker → List IdleCall → IdleActivityTracker
  calls t [] = t
  calls t (c ∷ cs) = calls (call t c) cs

  -- The call is made at the time or later.
  abbrev pub IsAfter : ℕ → IdleCall → Type 0
  IsAfter a (call_observe now source mapped) = a ≤ now
  IsAfter a (call_reset now) = a ≤ now
  IsAfter a (call_timeout timeout now) = a ≤ now
  IsAfter a call_pause = Unit

  abbrev SinceAfter : ℕ → Option ℕ → Type 0
  SinceAfter a none = Unit
  SinceAfter a (some since) = a ≤ since

  call-SinceAfter :
      (a : ℕ) (t : IdleActivityTracker) (c : IdleCall)
      → IsAfter a c
      → SinceAfter a t.neutral_since
      → SinceAfter a (call t c).neutral_since
  unfolding call observe observe_activity reset_idle set_timeout pause
  call-SinceAfter a t (call_observe now source mapped) k h =
      if-ind (SinceAfter a) (meaningful_activity f source mapped) tt
        (if-ind (SinceAfter a) (not (is_some_true t.latest_neutral)) k h)
  call-SinceAfter a t (call_reset now) k h =
      if-ind (SinceAfter a) (is_some_true t.latest_neutral) k tt
  call-SinceAfter a t (call_timeout timeout now) k h =
      if-ind (SinceAfter a) (is_some_true t.latest_neutral) k tt
  call-SinceAfter a t call_pause k h = tt

  calls-SinceAfter :
      (a : ℕ) (t : IdleActivityTracker) (cs : List IdleCall)
      → All (IsAfter a) cs
      → SinceAfter a t.neutral_since
      → SinceAfter a (calls t cs).neutral_since
  unfolding calls
  calls-SinceAfter a t [] k h = h
  calls-SinceAfter a t (c ∷ cs) (k, ks) h =
      calls-SinceAfter a (call t c) cs ks (call-SinceAfter a t c k h)

  observe_active :
      (t : IdleActivityTracker) (a : ℕ) (source : SteamControllerState)
      (mapped : GamepadState (Float.F f))
      → meaningful_activity f source mapped ≡ true
      → SinceAfter a (call t (call_observe a source mapped)).neutral_since
  unfolding call observe observe_activity
  observe_active t a source mapped m = rw m tt

  is_reached-SinceAfter :
      (timeout since : Option ℕ) (a now limit : ℕ)
      → timeout ≡ some limit
      → SinceAfter a since
      → is_reached timeout (age_since since now) ≡ true
      → limit ≤ now - a
  is_reached-SinceAfter none since a now limit e h d = absurd (ground arith)
  is_reached-SinceAfter (some t) none a now limit e h d = absurd (ground arith)
  is_reached-SinceAfter (some t) (some since) a now limit e h d =
      ground (arith, leb→le t (now - since) d, e)

  -- After an observation with activity and any further calls, none of them at an earlier time,
  -- where the tracker then has a timeout: if the deadline is reached at a time, the timeout is at
  -- most the time that has passed since the observation, which counts as 0 before it.
  pub deadline_reached-calls :
      (t : IdleActivityTracker) (a : ℕ) (source : SteamControllerState)
      (mapped : GamepadState (Float.F f)) (cs : List IdleCall) (now timeout : ℕ)
      → meaningful_activity f source mapped ≡ true
      → All (IsAfter a) cs
      → (calls (call t (call_observe a source mapped)) cs).timeout ≡ some timeout
      → deadline_reached (calls (call t (call_observe a source mapped)) cs) now ≡ true
      → timeout ≤ now - a
  unfolding deadline_reached idle_age
  deadline_reached-calls t a source mapped cs now timeout m k e d =
      let observed = call t (call_observe a source mapped) in
      is_reached-SinceAfter (calls observed cs).timeout (calls observed cs).neutral_since a now
        timeout e (calls-SinceAfter a observed cs k (observe_active t a source mapped m)) d

  -- An observation without activity.
  abbrev pub IsQuiet : IdleCall → Type 0
  IsQuiet (call_observe now source mapped) = meaningful_activity f source mapped ≡ false
  IsQuiet _ = ⊥

  IsIdleSince : ℕ → Option ℕ → IdleActivityTracker → Type 0
  IsIdleSince b timeout t =
      (t.timeout ≡ timeout) × (t.neutral_since ≡ some b) × (t.latest_neutral ≡ some true)

  observe_first :
      (t : IdleActivityTracker) (b : ℕ) (source : SteamControllerState)
      (mapped : GamepadState (Float.F f)) (timeout : ℕ)
      → is_neutral t ≡ false
      → t.timeout ≡ some timeout
      → meaningful_activity f source mapped ≡ false
      → IsIdleSince b (some timeout) (call t (call_observe b source mapped))
  unfolding call observe observe_activity IsIdleSince is_neutral
  observe_first t b source mapped timeout n e q = (e, rw q (rw n refl), rw q refl)

  call-IsIdleSince :
      (b : ℕ) (timeout : Option ℕ) (t : IdleActivityTracker) (c : IdleCall)
      → IsQuiet c
      → IsIdleSince b timeout t
      → IsIdleSince b timeout (call t c)
  unfolding call observe observe_activity IsIdleSince
  call-IsIdleSince b timeout t (call_observe now source mapped) q (e, s, l) =
      (e, rw q (rw l s), rw q refl)
  call-IsIdleSince b timeout t (call_reset now) q h = absurd q
  call-IsIdleSince b timeout t (call_timeout limit now) q h = absurd q
  call-IsIdleSince b timeout t call_pause q h = absurd q

  calls-IsIdleSince :
      (b : ℕ) (timeout : Option ℕ) (t : IdleActivityTracker) (cs : List IdleCall)
      → All IsQuiet cs
      → IsIdleSince b timeout t
      → IsIdleSince b timeout (calls t cs)
  unfolding calls
  calls-IsIdleSince b timeout t [] q h = h
  calls-IsIdleSince b timeout t (c ∷ cs) (q, qs) h =
      calls-IsIdleSince b timeout (call t c) cs qs (call-IsIdleSince b timeout t c q h)

  -- Where the tracker has a timeout and the latest observation, if any, was not neutral: after an
  -- observation without activity and any further such observations, the deadline is reached at
  -- every time that is at least the timeout after the first of them.
  pub calls-deadline_reached :
      (t : IdleActivityTracker) (b : ℕ) (source : SteamControllerState)
      (mapped : GamepadState (Float.F f)) (cs : List IdleCall) (now timeout : ℕ)
      → is_neutral t ≡ false
      → t.timeout ≡ some timeout
      → meaningful_activity f source mapped ≡ false
      → All IsQuiet cs
      → b + timeout ≤ now
      → deadline_reached (calls (call t (call_observe b source mapped)) cs) now ≡ true
  unfolding deadline_reached idle_age IsIdleSince
  calls-deadline_reached t b source mapped cs now timeout n e q qs late =
      let (e', s', l') =
        calls-IsIdleSince b (some timeout) (call t (call_observe b source mapped)) cs qs
          (observe_first t b source mapped timeout n e q) in
      rw e' (rw s' (le→leb timeout (now - b) (omega arith)))
