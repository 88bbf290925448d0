-- ===== src/Picker/Latch.antt =====
-- crates/app/profile-picker/src/picker.rs: the latch of a held control over reports in a row.
use steam_controller_bridge.Common.{
  ℕ, ◌≡◌, refl, ◌∙◌, Bool, true, false, not, ◌&&◌, ◌||◌, if-ind, bit_and, arith, List, [], ◌∷◌, All,
  Option, none, some,
}
use steam_controller_bridge.Common.Bits.{has_bit-bit_and}
use steam_controller_bridge.Float.{Float}
use steam_controller_bridge.Steam.Buttons.{SteamButton, SteamButtons, steam_index, steam_contains}
use steam_controller_bridge.Picker.Types.{
  is_openable, commit_button, PickerRoster, PickerInput, PickerEvents,
}
use steam_controller_bridge.Picker.State.{
  Phase, idle, arming, Picker, consumed_mask, is_opened, pressed,
}
use steam_controller_bridge.Picker.Update.{
  advance, update_open, close_open, report_selection, latch_closed, update_from, update,
}

unfoldable pub is_consumed : SteamButton → Bool
is_consumed SteamButton.quick_access = true
is_consumed SteamButton.a = true
is_consumed SteamButton.b = true
is_consumed SteamButton.left_shoulder = true
is_consumed SteamButton.right_shoulder = true
is_consumed _ = false

pub steam_contains-consumed_mask :
    (c : SteamButton) → steam_contains consumed_mask c ≡ is_consumed c
unfolding steam_contains is_consumed
steam_contains-consumed_mask SteamButton.a = refl
steam_contains-consumed_mask _ = refl

pub steam_contains-bit_and :
    (s t : SteamButtons) (c : SteamButton)
    → steam_contains (bit_and s t) c ≡ (steam_contains s c && steam_contains t c)
unfolding steam_contains
steam_contains-bit_and s t c = has_bit-bit_and s t (steam_index c)

-- A report of the controller, with its time and the roster at that time.
pub record Report : Type 0 where
  pub now : ℕ
  pub input : PickerInput
  pub roster : PickerRoster

-- The control is withheld from the game: the wheel is up, or has latched it.
abbrev pub is_held_back : {F : Type 0} → SteamButton → Picker F → Bool
is_held_back c p = is_opened p.phase || steam_contains p.latched c

module _ (f : Float) where
  -- A step changes neither the latch, nor the buttons of the report, nor the configuration.
  abbrev pub Keeps : Picker (Float.F f) → Picker (Float.F f) → Type 0
  Keeps p q = (q.latched ≡ p.latched) × (q.previous ≡ p.previous) × (q.config ≡ p.config)

  abbrev Kept : (p : Picker (Float.F f)) → Picker (Float.F f) × PickerEvents → Type 0
  Kept p r = Keeps p r.0

  close_open-Keeps :
      (p : Picker (Float.F f)) (previous : SteamButtons) (input : PickerInput)
      (roster : PickerRoster) (selected page : ℕ) (events : PickerEvents)
      → Keeps p (close_open f p previous input roster selected page events).0
  unfolding close_open
  close_open-Keeps p previous input roster selected page events =
      if-ind (Kept p) (pressed previous input.buttons commit_button) (refl, refl, refl)
        (if-ind (Kept p) _ (refl, refl, refl) (refl, refl, refl))

  report_selection-Keeps :
      (p : Picker (Float.F f)) (roster : PickerRoster) (was_selected was_page selected page : ℕ)
      → Keeps p (report_selection f p roster was_selected was_page selected page).0
  unfolding report_selection
  report_selection-Keeps p roster was_selected was_page selected page =
      if-ind (Kept p) _ (refl, refl, refl) (refl, refl, refl)

  update_open-Keeps :
      (p : Picker (Float.F f)) (previous : SteamButtons) (input : PickerInput)
      (roster : PickerRoster) (selected page : ℕ)
      → Keeps p (update_open f p previous input roster selected page).0
  unfolding update_open
  update_open-Keeps p previous input roster selected page =
      let (l, b, c) = close_open-Keeps _ previous input roster _ _ _ in
      let (l', b', c') = report_selection-Keeps _ roster _ _ _ _ in
      if-ind (Kept p) (not (is_openable roster)) (refl, refl, refl) (l ∙ l', b ∙ b', c ∙ c')

  pub advance-Keeps :
      (p : Picker (Float.F f)) (previous : SteamButtons) (now : ℕ) (input : PickerInput)
      (roster : PickerRoster) (phase : Phase)
      → Keeps p (advance f p previous now input roster phase).0
  unfolding advance
  advance-Keeps p previous now input roster idle =
      if-ind (Kept p) _ (refl, refl, refl) (refl, refl, refl)
  advance-Keeps p previous now input roster (arming since prepared) =
      (ground arith, ground arith, ground arith)
  advance-Keeps p previous now input roster (Phase.opened selected page) =
      update_open-Keeps p previous input roster selected page

  latch_closed-is_held_back :
      (c : SteamButton) (latched : SteamButtons) (was_open : Bool) (input : PickerInput)
      (r : Picker (Float.F f) × PickerEvents)
      → is_consumed c ≡ true
      → steam_contains input.buttons c ≡ true
      → (was_open || steam_contains latched c) ≡ true
      → r.0.latched ≡ bit_and latched input.buttons
      → is_held_back c (latch_closed f was_open input r).0 ≡ true
  unfolding latch_closed
  latch_closed-is_held_back c latched was_open input (p, events) k h w e = ground (
    arith,
    steam_contains-bit_and latched input.buttons c,
    steam_contains-bit_and input.buttons consumed_mask c,
    steam_contains-consumed_mask c,
  )

  update_from-is_held_back :
      (c : SteamButton) (previous : Option SteamButtons) (now : ℕ) (input : PickerInput)
      (roster : PickerRoster) (p : Picker (Float.F f))
      → is_consumed c ≡ true
      → steam_contains input.buttons c ≡ true
      → is_held_back c p ≡ true
      → is_held_back c (update_from f previous now input roster p).0 ≡ true
  unfolding update_from
  update_from-is_held_back c none now input roster p k h w = w
  update_from-is_held_back c (some previous) now input roster p k h w =
      latch_closed-is_held_back c p.latched (is_opened p.phase) input _ k h w
        (advance-Keeps _ previous now input roster p.phase).0

  -- The picker after reports in a row.
  unfoldable pub updates : Picker (Float.F f) → List Report → Picker (Float.F f)
  updates p [] = p
  updates p (r ∷ rs) = updates (update f r.now r.input r.roster p).0 rs

  pub updates-is_held_back :
      (c : SteamButton) (p : Picker (Float.F f)) (rs : List Report)
      → is_consumed c ≡ true
      → All (λ (r : Report). steam_contains r.input.buttons c ≡ true) rs
      → is_held_back c p ≡ true
      → is_held_back c (updates p rs) ≡ true
  unfolding updates update
  updates-is_held_back c p [] k h w = w
  updates-is_held_back c p (r ∷ rs) k (h, hs) w =
      updates-is_held_back c (update f r.now r.input r.roster p).0 rs k hs
        (update_from-is_held_back c p.previous r.now r.input r.roster p k h w)
