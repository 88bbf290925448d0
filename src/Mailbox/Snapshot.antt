-- ===== src/Mailbox/Snapshot.antt =====
-- crates/app/desktop-bindings/src/model.rs and crates/bridge/bridge-runtime/src/desktop/mailbox.rs:
-- snapshots of the input and their transition masks.
use steam_controller_bridge.Common.{
  ℕ, ◌^◌, Bool, true, false, if◌then◌else◌, bit_or, List, [], ◌∷◌, Option, none,
}
use steam_controller_bridge.Common.Int.{ℤ, pos}
use steam_controller_bridge.Steam.Buttons.{SteamButton, SteamButtons, steam_contains}
use steam_controller_bridge.Steam.Report.{SteamControllerState}

pub record PadSample : Type 0 where
  pub x : ℤ
  pub y : ℤ
  pub pressure : ℤ
  pub touched : Bool
  pub pressed : Bool

abbrev pub neutral_pad : PadSample
neutral_pad = record { x = pos 0; y = pos 0; pressure = pos 0; touched = false; pressed = false }

pub record DesktopInputSnapshot : Type 0 where
  pub buttons : SteamButtons
  pub left_pad : PadSample
  pub right_pad : PadSample

unfoldable pub buttons_only : SteamButtons → DesktopInputSnapshot
buttons_only buttons = record { buttons = buttons; left_pad = neutral_pad; right_pad = neutral_pad }

-- `DesktopInputSnapshot::from(&SteamControllerState)`
unfoldable pub snapshot_from : SteamControllerState → DesktopInputSnapshot
snapshot_from state = record {
  buttons = state.buttons;
  left_pad = record {
    x = state.left_pad_x;
    y = state.left_pad_y;
    pressure = state.left_pad_pressure;
    touched = state.left_pad_touched;
    pressed = state.left_pad_pressed;
  };
  right_pad = record {
    x = state.right_pad_x;
    y = state.right_pad_y;
    pressure = state.right_pad_pressure;
    touched = state.right_pad_touched;
    pressed = state.right_pad_pressed;
  };
}

pub data PadFeedbackStrength : Type 0 where
  low medium high : PadFeedbackStrength

pub record PadFeedbackRequest : Type 0 where
  pub left : Option PadFeedbackStrength
  pub right : Option PadFeedbackStrength

abbrev pub no_feedback : PadFeedbackRequest
no_feedback = record { left = none; right = none }

pub data BindableControl : Type 0 where
  l4 l5 r4 r5 quick_access : BindableControl

abbrev pub all_controls : List BindableControl
all_controls = l4 ∷ l5 ∷ r4 ∷ r5 ∷ quick_access ∷ []

abbrev pub steam_button : BindableControl → SteamButton
steam_button l4 = SteamButton.left_grip4
steam_button l5 = SteamButton.left_grip5
steam_button r4 = SteamButton.right_grip4
steam_button r5 = SteamButton.right_grip5
steam_button quick_access = SteamButton.quick_access

-- `1 << self as u8`
abbrev pub control_mask : BindableControl → ℕ
control_mask l4 = 1
control_mask l5 = 2
control_mask r4 = 4
control_mask r5 = 8
control_mask quick_access = 16

-- The fold of `bindable_mask`.
unfoldable pub bindable_loop : SteamButtons → ℕ → List BindableControl → ℕ
bindable_loop buttons mask [] = mask
bindable_loop buttons mask (control ∷ controls) =
    bindable_loop buttons
      (if steam_contains buttons (steam_button control)
        then bit_or mask (control_mask control)
        else mask)
      controls

unfoldable pub bindable_mask : SteamButtons → ℕ
bindable_mask buttons = bindable_loop buttons 0 all_controls

-- `u16::from(b) << k`
abbrev pub shifted : Bool → ℕ → ℕ
shifted true k = 2 ^ k
shifted false k = 0

unfoldable pub desktop_transition_mask : SteamButtons → (left_touched right_touched : Bool) → ℕ
desktop_transition_mask buttons left_touched right_touched =
    bit_or
      (bit_or
        (bit_or (bit_or (bindable_mask buttons) (shifted left_touched 8)) (shifted right_touched 9))
        (shifted (steam_contains buttons SteamButton.left_pad_click) 10))
      (shifted (steam_contains buttons SteamButton.right_pad_click) 11)

unfoldable pub desktop_snapshot_transition_mask : DesktopInputSnapshot → ℕ
desktop_snapshot_transition_mask snapshot =
    desktop_transition_mask snapshot.buttons snapshot.left_pad.touched snapshot.right_pad.touched
