-- ===== src/Picker/Suppression.antt =====
-- crates/app/profile-picker/src/picker.rs: what the game sees of the buttons that the wheel uses.
use steam_controller_bridge.Common.{
  ◌≡◌, refl, sym, subst, Bool-cases, inl, inr, ==→eq, ◌^◌, ◌<◌, Bool, true, false, not, ◌&&◌, ◌||◌,
  if-ind, ◌==◌, arith, List, [], ◌∷◌, All, Option, none, some,
}
use steam_controller_bridge.Common.Bits.{has_bit-zero, bit_or-lt, two_pow-lt}
use steam_controller_bridge.Float.{Float}
use steam_controller_bridge.Gamepad.Buttons.{Button, button_index, GamepadButtons, contains, set}
use steam_controller_bridge.Gamepad.Buttons.Laws.{button_index-lt, contains-set}
use steam_controller_bridge.Gamepad.State.{GamepadState, neutral, apply_suppression}
use steam_controller_bridge.Gamepad.State.Laws.{contains-apply_suppression}
use steam_controller_bridge.Steam.Buttons.{SteamButton, SteamButtons, steam_contains}
use steam_controller_bridge.Mapper.Buttons.{gamepad_button}
use steam_controller_bridge.Engine.Step.{suppress}
use steam_controller_bridge.Picker.State.{
  Picker, is_opened, consumed, set_target, withhold, withhold_all, suppression,
}
use steam_controller_bridge.Picker.Latch.{
  Report, is_consumed, is_held_back, updates, updates-is_held_back,
}

-- The gamepad buttons that the latched controls stand for.
unfoldable pub is_withheld : SteamButtons → Button → Bool
is_withheld latched Button.south = steam_contains latched SteamButton.a
is_withheld latched Button.east = steam_contains latched SteamButton.b
is_withheld latched Button.left_shoulder = steam_contains latched SteamButton.left_shoulder
is_withheld latched Button.right_shoulder = steam_contains latched SteamButton.right_shoulder
is_withheld latched Button.extra3 = steam_contains latched SteamButton.quick_access
is_withheld latched _ = false

abbrev is_target : Option Button → Button → Bool
is_target none g = false
is_target (some b) g = button_index g == button_index b

contains-set_target :
    (target : Option Button) (out : GamepadButtons) (g : Button)
    → contains (set_target target out) g ≡ (contains out g || is_target target g)
unfolding set_target
contains-set_target none out g = ground arith
contains-set_target (some b) out g = ground (arith, contains-set out b g true)

contains-withhold :
    (latched : SteamButtons) (c : SteamButton) (out : GamepadButtons) (g : Button)
    → contains (withhold latched c out) g
      ≡ (contains out g || (steam_contains latched c && is_target (gamepad_button c) g))
unfolding withhold
contains-withhold latched c out g = ground (arith, contains-set_target (gamepad_button c) out g)

set-lt : (buttons : GamepadButtons) (b : Button) → buttons < 2 ^ 32 → set buttons b true < 2 ^ 32
unfolding set
set-lt buttons b h =
    bit_or-lt 32 buttons (2 ^ button_index b) h
      (two_pow-lt (button_index b) 32 (omega (arith, button_index-lt b)))

set_target-lt :
    (target : Option Button) (out : GamepadButtons) → out < 2 ^ 32 → set_target target out < 2 ^ 32
unfolding set_target
set_target-lt none out h = h
set_target-lt (some b) out h = set-lt out b h

withhold-lt :
    (latched : SteamButtons) (c : SteamButton) (out : GamepadButtons)
    → out < 2 ^ 32
    → withhold latched c out < 2 ^ 32
unfolding withhold
withhold-lt latched c out h =
    if-ind (λ m. m < 2 ^ 32) (steam_contains latched c) (set_target-lt (gamepad_button c) out h) h

withhold_all-lt :
    (latched : SteamButtons) (cs : List SteamButton) (out : GamepadButtons)
    → out < 2 ^ 32
    → withhold_all latched cs out < 2 ^ 32
unfolding withhold_all
withhold_all-lt latched [] out h = h
withhold_all-lt latched (c ∷ cs) out h =
    withhold_all-lt latched cs (withhold latched c out) (withhold-lt latched c out h)

abbrev any_target : SteamButtons → List SteamButton → Button → Bool
any_target latched [] g = false
any_target latched (c ∷ cs) g =
    (steam_contains latched c && is_target (gamepad_button c) g) || any_target latched cs g

contains-withhold_all :
    (latched : SteamButtons) (cs : List SteamButton) (out : GamepadButtons) (g : Button)
    → contains (withhold_all latched cs out) g ≡ (contains out g || any_target latched cs g)
unfolding withhold_all
contains-withhold_all latched [] out g = ground arith
contains-withhold_all latched (c ∷ cs) out g = ground (
  arith,
  contains-withhold_all latched cs (withhold latched c out) g,
  contains-withhold latched c out g,
)

any_target-consumed :
    (latched : SteamButtons) (g : Button) → any_target latched consumed g ≡ is_withheld latched g
unfolding gamepad_button is_withheld
any_target-consumed latched Button.south = ground arith
any_target-consumed latched _ = ground arith

contains-consumed :
    (latched : SteamButtons) (g : Button)
    → contains (withhold_all latched consumed 0) g ≡ is_withheld latched g
unfolding contains
contains-consumed latched g = ground (
  arith,
  contains-withhold_all latched consumed 0 g,
  any_target-consumed latched g,
  has_bit-zero (button_index g),
)

is_withheld-zero : (g : Button) → is_withheld 0 g ≡ false
unfolding is_withheld steam_contains
is_withheld-zero Button.south = refl
is_withheld-zero _ = refl

unlatched :
    (latched : SteamButtons) (g : Button) → (latched == 0) ≡ true → is_withheld latched g ≡ false
unlatched latched g e =
    subst (λ l. is_withheld l g ≡ false) (sym (==→eq latched 0 e)) (is_withheld-zero g)

abbrev is_withheld_target : SteamButtons → Option Button → Bool
is_withheld_target latched none = false
is_withheld_target latched (some g) = is_withheld latched g

is_withheld_target-gamepad_button :
    (c : SteamButton) (latched : SteamButtons)
    → is_consumed c ≡ true
    → is_withheld_target latched (gamepad_button c) ≡ steam_contains latched c
unfolding is_consumed gamepad_button is_withheld
is_withheld_target-gamepad_button SteamButton.a latched k = refl
is_withheld_target-gamepad_button _ latched k = ground arith

module _ (f : Float) where
  -- Under the picker's suppression, a state holds a gamepad button down exactly if it did so
  -- before, the wheel is not up, and the button is not that of a latched control.
  pub contains-suppression :
      (p : Picker (Float.F f)) (s : GamepadState (Float.F f)) (g : Button)
      → contains (suppress f (suppression f p) s).buttons g
        ≡ (contains s.buttons g && not (is_opened p.phase || is_withheld p.latched g))
  unfolding suppression suppress apply_suppression neutral contains
  contains-suppression p s g = elim (Bool-cases (is_opened p.phase)) [
    | inl up ↦ rw up (ground (arith, has_bit-zero (button_index g)))
    | inr down ↦ rw down (elim (Bool-cases (p.latched == 0)) [
      | inl empty ↦ rw empty (ground (arith, unlatched p.latched g empty))
      | inr latched ↦ rw latched (
          ground (
            arith,
            contains-apply_suppression f (withhold_all p.latched consumed 0) s g
                (withhold_all-lt p.latched consumed 0 (omega arith)),
            contains-consumed p.latched g,
          ))
    ])
  ]

  -- For a control that the wheel consumes and its gamepad button: if the wheel is up or has
  -- latched the control, then after any reports that all hold the control down, whatever their
  -- times and rosters are, the suppressed state does not hold the gamepad button down.
  pub held-suppression :
      (c : SteamButton) (g : Button) (p : Picker (Float.F f)) (rs : List Report)
      (s : GamepadState (Float.F f))
      → is_consumed c ≡ true
      → gamepad_button c ≡ some g
      → is_held_back c p ≡ true
      → All (λ (r : Report). steam_contains r.input.buttons c ≡ true) rs
      → contains (suppress f (suppression f (updates f p rs)) s).buttons g ≡ false
  held-suppression c g p rs s k e w held = ground (
    arith,
    contains-suppression (updates f p rs) s g,
    updates-is_held_back f c p rs k held w,
    subst
        (λ t.
          is_withheld_target (updates f p rs).latched t ≡ steam_contains (updates f p rs).latched c)
        e (is_withheld_target-gamepad_button c (updates f p rs).latched k),
  )
