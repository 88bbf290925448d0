-- ===== src/Picker/Target.antt =====
-- crates/app/profile-picker/src/picker.rs: the sector that a report leads to, and the roster.
use native.Mathlib.Nat.{mod-lt}
use steam_controller_bridge.Common.{
  ℕ, ◌+◌, ◌-◌, ◌/◌, ◌%◌, ◌<◌, min, Bool, not, arith, ltb, if-ind, Option-cases, inl, inr, Option,
  none, some,
}
use steam_controller_bridge.Float.{Float}
use steam_controller_bridge.Steam.Buttons.{SteamButtons}
use steam_controller_bridge.Picker.Types.{PickerRoster, PickerInput, page_previous, page_next}
use steam_controller_bridge.Picker.Geometry.{page_count, sectors_on_page}
use steam_controller_bridge.Picker.Geometry.Pages.{
  page_count-pos, sectors_on_page-pos, on_page, sector_for-lt, page_of-lt,
}
use steam_controller_bridge.Picker.State.{Stick, Picker, pressed, turn_page}
use steam_controller_bridge.Picker.Update.{
  selected_index, steered, steering_after, sector_of_stick, target,
}
use steam_controller_bridge.Picker.Moves.{InRoster}

module _ (f : Float) (roster : PickerRoster) (now : ℕ) (previous : SteamButtons)
    (input : PickerInput) where
  turn_page-InRoster :
      (per_page : ℕ) (back forward : Bool) (selected page : ℕ)
      → 0 < per_page
      → page < page_count roster.len per_page
      → selected < sectors_on_page roster.len per_page page
      → let (selected', page') =
          turn_page roster.len per_page
            (page_count roster.len per_page)
            back
            forward
            selected
            page in
        (page' < page_count roster.len per_page)
        × (selected' < sectors_on_page roster.len per_page page')
  unfolding turn_page
  turn_page-InRoster per_page back forward selected page h k l =
      let pages = page_count roster.len per_page in
      let P : ℕ × ℕ → Type 0 =
        λ (s, p). (p < pages) × (s < sectors_on_page roster.len per_page p) in
      let turned : (p : ℕ)
          → p < pages
          → P (min selected (sectors_on_page roster.len per_page p - 1), p) =
        λ p q. (q, omega (arith, sectors_on_page-pos roster.len per_page p h)) in
      if-ind P (not (ltb 1 pages)) (k, l)
        (if-ind P back (turned _ (mod-lt (page + pages - 1) (page_count-pos roster.len per_page))) (
          if-ind P forward (turned _ (mod-lt (page + 1) (page_count-pos roster.len per_page)))
            (k, l)))

  steered-lt :
      (sectors : ℕ) (stick : Option Stick) (selected : ℕ)
      → selected < sectors
      → steered f input sectors stick selected < sectors
  unfolding steered sector_of_stick
  steered-lt sectors none selected h = h
  steered-lt sectors (some stick) selected h = sector_for-lt f _ _ sectors (omega arith)

  pub target-InRoster :
      (p : Picker (Float.F f)) (was_selected was_page : ℕ)
      → 0 < p.config.sectors_per_page
      → 0 < roster.len
      → let (selected, page) = target f p previous input roster was_selected was_page in
        InRoster p.config.sectors_per_page roster.len selected page
  unfolding target
  target-InRoster p was_selected was_page h l =
      let per_page = p.config.sectors_per_page in
      let first_page = min was_page (page_count roster.len per_page - 1) in
      let (on_pages, on_sectors) =
        turn_page-InRoster per_page (pressed previous input.buttons page_previous)
          (pressed previous input.buttons page_next)
          (min was_selected (sectors_on_page roster.len per_page first_page - 1)) first_page h
          (omega (arith, page_count-pos roster.len per_page))
          (omega (arith, sectors_on_page-pos roster.len per_page first_page h)) in
      let (w, i) =
        on_page roster.len per_page _ _ h l on_pages
          (steered-lt _ (steering_after f p input) _ on_sectors) in
      record { on_wheel = w; in_list = i }

  selected_index-lt : 0 < roster.len → selected_index roster < roster.len
  unfolding selected_index
  selected_index-lt l = elim (Option-cases roster.active) [
    | inl none_active ↦ rw none_active (omega arith)
    | inr (active, some_active) ↦ rw some_active (omega arith)
  ]

  pub selected-InRoster :
      (per_page : ℕ)
      → 0 < per_page
      → 0 < roster.len
      → InRoster per_page roster.len
          (selected_index roster % per_page)
          (selected_index roster / per_page)
  selected-InRoster per_page h l =
      let (on_pages, on_sectors, index) =
        page_of-lt roster.len per_page (selected_index roster) h (selected_index-lt l) in
      record {
        on_wheel = mod-lt (selected_index roster) h;
        in_list = omega (arith, selected_index-lt l, index);
      }
