-- ===== src/Picker/Trigger.antt =====
-- crates/app/profile-picker/src/picker.rs: the trigger that the bindings see.
use steam_controller_bridge.Common.{◌≡◌, arith, false, not, ◌&&◌, ◌||◌, ◌==◌}
use steam_controller_bridge.Common.Bits.{has_bit-set_bit}
use steam_controller_bridge.Float.{Float}
use steam_controller_bridge.Steam.Buttons.{
  SteamButton, SteamButtons, steam_index, steam_index-lt, steam_contains,
}
use steam_controller_bridge.Picker.Types.{trigger}
use steam_controller_bridge.Picker.State.{Picker, mask_trigger, owns_trigger}

module _ (f : Float) where
  -- `mask_trigger` keeps every button as it is but the trigger, which is down afterwards exactly
  -- if it was down and the picker neither owns nor has latched it.
  pub steam_contains-mask_trigger :
      (p : Picker (Float.F f)) (buttons : SteamButtons) (c : SteamButton)
      → steam_contains (mask_trigger f p buttons) c ≡ (
          steam_contains buttons c
          && not (
              steam_index c == steam_index trigger
              && (owns_trigger f p || steam_contains p.latched trigger)))
  unfolding mask_trigger owns_trigger steam_contains
  steam_contains-mask_trigger p buttons c = ground (
    arith,
    has_bit-set_bit buttons 4 (steam_index c) false (omega arith) (omega (arith, steam_index-lt c)),
  )
