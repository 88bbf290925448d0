-- ===== src/Picker/Geometry.antt =====
-- crates/app/profile-picker/src/geometry.rs: button bits, stick positions, sectors and pages.
pub mod Pages
use steam_controller_bridge.Common.{
  ℕ, ◌+◌, ◌-◌, ◌*◌, ◌/◌, ◌%◌, ◌^◌, ◌||◌, if◌then◌else◌, ltb, leb, ◌==◌, bit_or,
}
use steam_controller_bridge.Common.Int.{ℤ, pos}
use steam_controller_bridge.Float.{Float, zero_f, one_f, minus_one_f, clamp}
use steam_controller_bridge.Steam.Buttons.{SteamButton, SteamButtons, steam_index}
use steam_controller_bridge.Picker.Types.{trigger}

abbrev pub bit : SteamButton → ℕ
bit button = 2 ^ steam_index button

unfoldable pub with_trigger : SteamButtons → SteamButtons
with_trigger buttons = bit_or buttons (bit trigger)

module _ (f : Float) where
  unfoldable pub normalize : ℤ × ℤ → Float.F f × Float.F f
  normalize (x, y) = (
    clamp f (f.div (f.from_i16 x) (f.decimal (pos 32767) 0)) (minus_one_f f) (one_f f),
    clamp f (f.div (f.from_i16 y) (f.decimal (pos 32767) 0)) (minus_one_f f) (one_f f),
  )

  unfoldable pub magnitude : Float.F f × Float.F f → Float.F f
  magnitude (x, y) = f.hypot x y

  unfoldable pub sector_for : Float.F f → Float.F f → ℕ → ℕ
  sector_for x y sectors =
      let arc = f.div f.tau (f.from_usize sectors) in
      let angle =
        if f.lt (f.atan2 x y) (zero_f f) then f.add (f.atan2 x y) f.tau else f.atan2 x y in
      if leb sectors 1
      then 0
      else f.floor_usize (f.add (f.div angle arc) (f.decimal (pos 5) 1)) % sectors

-- `usize::div_ceil`
abbrev pub div_ceil : ℕ → ℕ → ℕ
div_ceil a b = if ltb 0 (a % b) then a / b + 1 else a / b

unfoldable pub page_count : ℕ → ℕ → ℕ
page_count len per_page = if per_page == 0 || len == 0 then 1 else div_ceil len per_page

unfoldable pub sectors_on_page : ℕ → ℕ → ℕ → ℕ
sectors_on_page len per_page page =
    let start = page * per_page in
    let remaining = len - start in
    if leb len start then 1 else if ltb remaining per_page then remaining else per_page
