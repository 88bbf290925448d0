-- ===== src/Picker/State.antt =====
-- crates/app/profile-picker/src/picker.rs: `Picker`.
use steam_controller_bridge.Common.{
  ℕ, ◌+◌, ◌-◌, ◌%◌, ◌^◌, min, Bool, true, false, not, ◌&&◌, ◌||◌, if◌then◌else◌, ◌==◌, ltb, bit_and,
  bit_or, List, [], ◌∷◌, Option, none, some,
}
use steam_controller_bridge.Common.Int.{ℤ}
use steam_controller_bridge.Float.{Float}
use steam_controller_bridge.Gamepad.Buttons.{Button, GamepadButtons, set}
use steam_controller_bridge.Gamepad.State.{
  OutputSuppression, neutral_suppression, buttons_suppression,
}
use steam_controller_bridge.Steam.Buttons.{SteamButton, SteamButtons, steam_contains}
use steam_controller_bridge.Mapper.Buttons.{gamepad_button}
use steam_controller_bridge.Picker.Types.{
  PickerConfig, PickerInput, sanitized_config, trigger, commit_button, dismiss_button,
  page_previous, page_next,
}
use steam_controller_bridge.Picker.Geometry.{bit, sectors_on_page}

pub data Phase : Type 0 where
  idle : Phase
  arming : (since : ℕ) → (prepared : Bool) → Phase
  opened : (selected page : ℕ) → Phase

pub data Stick : Type 0 where
  left right : Stick

-- Over the type of its dead zones.
pub record Picker (F : Type 0) : Type 0 where
  pub config : PickerConfig F
  pub phase : Phase
  pub previous : Option SteamButtons
  pub steering : Option Stick
  pub latched : SteamButtons

abbrev pub consumed : List SteamButton
consumed = trigger ∷ commit_button ∷ dismiss_button ∷ page_previous ∷ page_next ∷ []

abbrev pub mask_loop : ℕ → List SteamButton → ℕ
mask_loop mask [] = mask
mask_loop mask (control ∷ controls) = mask_loop (bit_or mask (bit control)) controls

abbrev pub consumed_mask : ℕ
consumed_mask = mask_loop 0 consumed

abbrev pub is_opened : Phase → Bool
is_opened (opened selected page) = true
is_opened _ = false

abbrev pub is_idle : Phase → Bool
is_idle idle = true
is_idle _ = false

-- What `set_config` latches of the buttons held in a phase.
unfoldable pub still_held : Phase → SteamButtons → ℕ
still_held idle buttons = 0
still_held (arming since prepared) buttons = bit_and buttons (bit trigger)
still_held (opened selected page) buttons = bit_and buttons consumed_mask

unfoldable pub latch_held : Phase → Option SteamButtons → SteamButtons → SteamButtons
latch_held phase none latched = latched
latch_held phase (some buttons) latched = bit_or latched (still_held phase buttons)

unfoldable pub set_target : Option Button → GamepadButtons → GamepadButtons
set_target none buttons = buttons
set_target (some button) buttons = set buttons button true

-- The loop of `suppression`: what it adds for a control.
unfoldable pub withhold : SteamButtons → SteamButton → GamepadButtons → GamepadButtons
withhold latched control buttons =
    if steam_contains latched control then set_target (gamepad_button control) buttons else buttons

unfoldable pub withhold_all : SteamButtons → List SteamButton → GamepadButtons → GamepadButtons
withhold_all latched [] buttons = buttons
withhold_all latched (control ∷ controls) buttons =
    withhold_all latched controls (withhold latched control buttons)

-- `pressed`: down now and up in the report before.
abbrev pub pressed : SteamButtons → SteamButtons → SteamButton → Bool
pressed previous buttons button =
    steam_contains buttons button && not (steam_contains previous button)

-- The page and the selection behind the page buttons.
unfoldable pub turn_page : ℕ → ℕ → ℕ → Bool → Bool → ℕ → ℕ → ℕ × ℕ
turn_page len per_page pages back forward selected page =
    let before = (page + pages - 1) % pages in
    let after = (page + 1) % pages in
    if not (ltb 1 pages)
    then (selected, page)
    else if back
    then (min selected (sectors_on_page len per_page before - 1), before)
    else if forward
    then (min selected (sectors_on_page len per_page after - 1), after)
    else (selected, page)

abbrev pub same_stick : Stick → Stick → Bool
same_stick left left = true
same_stick right right = true
same_stick _ _ = false

abbrev pub stick_of : PickerInput → Stick → ℤ × ℤ
stick_of input left = input.left_stick
stick_of input right = input.right_stick

module _ (f : Float) where
  -- `Picker::new`
  unfoldable pub new_picker : PickerConfig (Float.F f) → Picker (Float.F f)
  new_picker config = record {
    config = sanitized_config f config;
    phase = idle;
    previous = none;
    steering = none;
    latched = 0;
  }

  unfoldable pub set_config : PickerConfig (Float.F f) → Picker (Float.F f) → Picker (Float.F f)
  set_config config p = record p {
    config = sanitized_config f config;
    latched = latch_held p.phase p.previous p.latched;
    phase = idle;
    steering = none;
  }

  unfoldable pub is_open : Picker (Float.F f) → Bool
  is_open p = is_opened p.phase

  unfoldable pub suppression : Picker (Float.F f) → Option OutputSuppression
  suppression p =
      if is_opened p.phase
      then some neutral_suppression
      else if p.latched == 0
      then none
      else some (buttons_suppression (withhold_all p.latched consumed 0))

  unfoldable pub owns_trigger : Picker (Float.F f) → Bool
  owns_trigger p = not (is_idle p.phase)

  unfoldable pub mask_trigger : Picker (Float.F f) → SteamButtons → SteamButtons
  mask_trigger p buttons =
      if not (is_idle p.phase) || steam_contains p.latched trigger
      then bit_and buttons (2 ^ 32 - 1 - bit trigger)
      else buttons

  unfoldable pub close : Picker (Float.F f) → Picker (Float.F f) × Bool
  close p = (
    record p { phase = idle; previous = none; steering = none; latched = 0 },
    not (is_idle p.phase),
  )
