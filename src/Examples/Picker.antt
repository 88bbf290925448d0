-- ===== src/Examples/Picker.antt =====
-- crates/app/profile-picker/src: the theorems and a run of the wheel at a concrete roster.
use steam_controller_bridge.Common.{
  ℕ, ◌*◌, ◌≡◌, refl, arith, false, not, ◌&&◌, ◌||◌, ◌==◌, List, [], ◌∷◌, none, some,
}
use steam_controller_bridge.Common.Int.{pos}
use steam_controller_bridge.Float.{Float}
use steam_controller_bridge.Float.Fixed.{
  fixed_laws, fixed_le_trans, fixed_min_le, fixed_le_min, fixed,
}
use steam_controller_bridge.Gamepad.Buttons.{Button, contains}
use steam_controller_bridge.Gamepad.State.{neutral}
use steam_controller_bridge.Engine.Step.{suppress}
use steam_controller_bridge.Steam.Buttons.{SteamButton, steam_contains, steam_index}
use steam_controller_bridge.Mapper.Buttons.{gamepad_button}
use steam_controller_bridge.Picker.Types.{
  default_picker_config, second, push_event, is_openable, sanitized_config, trigger,
}
use steam_controller_bridge.Picker.Geometry.{
  sectors_on_page, page_count, magnitude, normalize, sector_for,
}
use steam_controller_bridge.Picker.State.{
  Phase, idle, Picker, new_picker, suppression, mask_trigger, owns_trigger, turn_page,
}
use steam_controller_bridge.Picker.Update.{
  update, update_from, advance, latch_closed, selected_index, update_open, target, close_open,
  report_selection, steered, steering_after, sector_of_stick,
}
use steam_controller_bridge.Picker.Latch.{is_consumed, Report, updates}
use steam_controller_bridge.Picker.Suppression.{held-suppression}
use steam_controller_bridge.Picker.Trigger.{steam_contains-mask_trigger}
use steam_controller_bridge.Picker.Zones.{ZoneLaws}
use steam_controller_bridge.Picker.Sound.{
  IsSound, calls, calls-new_picker, call_update, call_close, call_set_config,
}
use steam_controller_bridge.Picker.Moves.{Moves}
use steam_controller_bridge.Picker.Refinement.{update-Moves}

abbrev at : (time buttons : ℕ) → Report
at time buttons = record {
  now = time;
  input = record { buttons = buttons; left_stick = (pos 0, pos 0); right_stick = (pos 0, pos 0) };
  roster = record { len = 11; active = some 9; revision = 5 };
}

abbrev start : Picker (Float.F fixed)
start = new_picker fixed (default_picker_config fixed)

-- Held for two seconds from rest, the trigger opens the wheel.
abbrev opening : List Report
opening = at 0 0 ∷ at second 0x10 ∷ at (2 * second) 0x10 ∷ at (3 * second) 0x10 ∷ []

opening_phase : (updates fixed start opening).phase ≡ Phase.opened 1 1
unfolding updates update update_from advance latch_closed push_event is_openable selected_index
    steam_contains default_picker_config sanitized_config new_picker update_open target close_open
    report_selection steered steering_after turn_page sectors_on_page page_count magnitude normalize
    sector_of_stick sector_for
opening_phase = refl

-- A second press of the trigger dismisses it, and the trigger stays withheld while it is held.
abbrev closing : List Report
closing = at (4 * second) 0x1 ∷ at (5 * second) 0x1 ∷ []

abbrev wheel : Picker (Float.F fixed)
wheel = record {
  config = default_picker_config fixed;
  phase = Phase.opened 1 1;
  previous = some 0x10;
  steering = none;
  latched = 0;
}

closing_phase :
    ((updates fixed wheel closing).phase ≡ idle) × ((updates fixed wheel closing).latched ≡ 0x1)
unfolding updates update update_from advance latch_closed push_event is_openable selected_index
    steam_contains default_picker_config sanitized_config new_picker update_open target close_open
    report_selection steered steering_after turn_page sectors_on_page page_count magnitude normalize
    sector_of_stick sector_for
closing_phase = (refl, refl)

held-suppression_example :
    contains
      (suppress fixed
        (suppression fixed (updates fixed wheel closing))
        (record (neutral fixed) { buttons = 0x1 })).buttons
      Button.south
    ≡ false
unfolding is_consumed gamepad_button steam_contains
held-suppression_example =
    held-suppression fixed SteamButton.a Button.south wheel closing
      (record (neutral fixed) { buttons = 0x1 }) refl refl refl (refl, (refl, tt))

steam_contains-mask_trigger_example :
    steam_contains (mask_trigger fixed wheel 0x11) SteamButton.quick_access ≡ (
      steam_contains 0x11 SteamButton.quick_access
      && not (
          steam_index SteamButton.quick_access == steam_index trigger
          && (owns_trigger fixed wheel || steam_contains 0 trigger)))
steam_contains-mask_trigger_example =
    steam_contains-mask_trigger fixed wheel 0x11 SteamButton.quick_access

abbrev zone_laws : ZoneLaws fixed
zone_laws = record {
  order = fixed_laws;
  le_trans = fixed_le_trans;
  min_le = fixed_min_le;
  le_min = fixed_le_min;
  finite_05 = refl;
  finite_10 = refl;
  finite_35 = refl;
  finite_55 = refl;
  finite_95 = refl;
  le_05_10 = refl;
  le_05_35 = refl;
  le_10_55 = refl;
  le_10_95 = refl;
  le_55_95 = refl;
}

calls-new_picker_example : IsSound fixed (
    calls fixed start
      (call_update (at 0 0x10) ∷ call_set_config (default_picker_config fixed) ∷ call_close ∷ []))
calls-new_picker_example =
    calls-new_picker fixed zone_laws (default_picker_config fixed)
      (call_update (at 0 0x10) ∷ call_set_config (default_picker_config fixed) ∷ call_close ∷ [])

update-Moves_example :
    let (q, events) =
      update fixed (4 * second) (at (4 * second) 0x1).input (at (4 * second) 0x1).roster wheel in
    Moves 8
      (2 * second)
      (at (4 * second) 0x1).roster
      (4 * second)
      0x10
      0x1
      (Phase.opened 1 1)
      events
      q.phase
unfolding default_picker_config
update-Moves_example =
    update-Moves fixed (at (4 * second) 0x1).roster (4 * second) 0x10 (at (4 * second) 0x1).input
      wheel (omega arith) refl
