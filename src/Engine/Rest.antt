-- ===== src/Engine/Rest.antt =====
-- crates/bridge/bridge-core/src/lib.rs: a tick sees to it that neutral is out when the input has
-- stopped.
use steam_controller_bridge.Common.{ℕ, ◌-◌, ◌<◌, ◌≡◌, ◌⊎◌, true, Option, none, some, ok, err}
use steam_controller_bridge.Float.{Float}
use steam_controller_bridge.Gamepad.State.{GamepadState, neutral}
use steam_controller_bridge.Output.{GamepadOutput}
use steam_controller_bridge.Engine.State.{input_timeout}
use steam_controller_bridge.Engine.Step.{Engine, Reply}
use steam_controller_bridge.Engine.Sent.{logged, Log, newest}

-- No state at all, or neutral.
abbrev pub IsNeutral : (f : Float) → Option (GamepadState (Float.F f)) → Type 0
IsNeutral f none = Unit
IsNeutral f (some s) = s ≡ neutral f

-- An input arrived less than the timeout ago.
abbrev pub IsRecent : Option ℕ → ℕ → ℕ → Type 0
IsRecent none now timeout = ⊥
IsRecent (some last) now timeout = now - last < timeout

module _ (f : Float) (out : GamepadOutput (Float.F f)) where
  -- What was sent last while the output is neutralised is neutral.
  abbrev Rests : Engine f out → Type 0
  Rests e = e.neutralized ≡ true → IsNeutral f e.last_sent

module _ (f : Float) (out : GamepadOutput (Float.F f)) where
  -- A tick that succeeds leaves neutral as the newest state that the backend has accepted, or the
  -- input is recent. One that fails sends nothing and leaves the deadline as it was.
  abbrev pub IsGuarded : Engine f (logged f out) → Log f out → ℕ → Reply f (logged f out) → Type 0
  IsGuarded e log now (e', o', ok _) =
      IsNeutral f (newest o'.1) ⊎ IsRecent e'.last_input now e'.config.input_timeout
  IsGuarded e log now (e', o', err x) =
      (o'.1 ≡ log) × (e'.last_input ≡ e.last_input) × (e'.neutralized ≡ e.neutralized)
