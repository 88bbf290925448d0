-- ===== src/Picker/Update.antt =====
-- crates/app/profile-picker/src/picker.rs: `Picker::update`, one controller report.
use steam_controller_bridge.Common.{
  ℕ, ◌+◌, ◌-◌, ◌*◌, ◌/◌, ◌%◌, min, Bool, true, false, not, ◌&&◌, ◌||◌, if◌then◌else◌, ◌==◌, leb,
  bit_and, [], Option, none, some,
}
use steam_controller_bridge.Float.{Float}
use steam_controller_bridge.Steam.Buttons.{SteamButtons, steam_contains}
use steam_controller_bridge.Picker.Types.{
  PickerRoster, PickerInput, PickerEvent, PickerEvents, is_openable, trigger, commit_button,
  dismiss_button, page_previous, page_next, push_event, preparing, selection, commit, dismissed,
  trigger_tapped,
}
use steam_controller_bridge.Picker.Geometry.{
  normalize, magnitude, sector_for, page_count, sectors_on_page,
}
use steam_controller_bridge.Picker.State.{
  Phase, idle, arming, Stick, left, right, same_stick, stick_of, Picker, consumed_mask, is_opened,
  pressed, turn_page,
}

-- `roster.active.unwrap_or(0).min(roster.len - 1)`
unfoldable pub selected_index : PickerRoster → ℕ
selected_index roster = elim roster.active [
  | none ↦ min 0 (roster.len - 1)
  | some active ↦ min active (roster.len - 1)
]

module _ (f : Float) where
  abbrev pub deflection : PickerInput → Stick → Float.F f
  deflection input stick = magnitude f (normalize f (stick_of input stick))

  abbrev pub further_stick : PickerInput → Stick
  further_stick input =
      if f.le (deflection input right) (deflection input left) then left else right

  -- The stick that steers after a report.
  unfoldable pub steering_after : Picker (Float.F f) → PickerInput → Option Stick
  steering_after p input =
      let further = further_stick input in
      let engaged = f.le p.config.engage_dead_zone (deflection input further) in
      let taken = if engaged then some further else none in
      elim p.steering [
        | none ↦ taken
        | some current ↦
            if f.le p.config.track_dead_zone (deflection input current)
            then if engaged && not (same_stick further current) then some further else some current
            else taken
      ]

  unfoldable pub sector_of_stick : PickerInput → ℕ → Stick → ℕ
  sector_of_stick input sectors stick =
      let (x, y) = normalize f (stick_of input stick) in sector_for f x y sectors

  -- `selected` behind the stick: `steer` where a stick steers, and as it was where none does.
  unfoldable pub steered : PickerInput → ℕ → Option Stick → ℕ → ℕ
  steered input sectors none selected = selected
  steered input sectors (some stick) selected = sector_of_stick input sectors stick

  -- The end of `update_open`: the buttons that close the wheel.
  unfoldable pub close_open :
      Picker (Float.F f)
      → SteamButtons
      → PickerInput
      → PickerRoster
      → (selected page : ℕ) → PickerEvents
      → Picker (Float.F f) × PickerEvents
  close_open p previous input roster selected page events =
      if pressed previous input.buttons commit_button
      then (
        record p { phase = idle; steering = none },
        push_event events (
            commit (min (page * p.config.sectors_per_page + selected) (roster.len - 1))
              roster.revision),
      )
      else if pressed previous input.buttons dismiss_button
          || pressed previous input.buttons trigger
      then (record p { phase = idle; steering = none }, push_event events dismissed)
      else (p, events)

  -- The report of a changed selection.
  unfoldable pub report_selection :
      Picker (Float.F f)
      → PickerRoster
      → (was_selected was_page selected page : ℕ) → Picker (Float.F f) × PickerEvents
  report_selection p roster was_selected was_page selected page =
      if not (selected == was_selected && page == was_page)
      then (
        record p { phase = Phase.opened selected page },
        push_event [] (selection selected page roster.revision),
      )
      else (p, [])

  -- The selection and the page that a report leads to, by the page buttons and the stick.
  unfoldable pub target :
      Picker (Float.F f)
      → SteamButtons
      → PickerInput
      → PickerRoster
      → (was_selected was_page : ℕ) → ℕ × ℕ
  target p previous input roster was_selected was_page =
      let per_page = p.config.sectors_per_page in
      let pages = page_count roster.len per_page in
      let first_page = min was_page (pages - 1) in
      let (selected, page) =
        turn_page roster.len per_page pages (pressed previous input.buttons page_previous)
          (pressed previous input.buttons page_next)
          (min was_selected (sectors_on_page roster.len per_page first_page - 1)) first_page in
      (
        steered input (sectors_on_page roster.len per_page page) (steering_after p input) selected,
        page,
      )

  unfoldable pub update_open :
      Picker (Float.F f)
      → SteamButtons
      → PickerInput
      → PickerRoster
      → (was_selected was_page : ℕ) → Picker (Float.F f) × PickerEvents
  update_open p previous input roster was_selected was_page =
      let (selected, page) = target p previous input roster was_selected was_page in
      let steered = record p { steering = steering_after p input } in
      let (p', events) = report_selection steered roster was_selected was_page selected page in
      if not (is_openable roster)
      then (record p { phase = idle; steering = none }, push_event [] dismissed)
      else close_open p' previous input roster selected page events

  -- The `match` on the phase.
  unfoldable pub advance :
      Picker (Float.F f)
      → SteamButtons
      → (now : ℕ) → PickerInput
      → PickerRoster
      → Phase
      → Picker (Float.F f) × PickerEvents
  advance p previous now input roster idle =
      if pressed previous input.buttons trigger && is_openable roster
      then (record p { phase = arming now false }, [])
      else (p, [])
  advance p previous now input roster (arming since prepared) =
      let selected = selected_index roster % p.config.sectors_per_page in
      let page = selected_index roster / p.config.sectors_per_page in
      if not (steam_contains input.buttons trigger)
      then (record p { phase = idle }, push_event [] trigger_tapped)
      else if not (is_openable roster)
      then (record p { phase = idle }, push_event [] trigger_tapped)
      else if leb p.config.hold (now - since)
      then (
        record p { phase = Phase.opened selected page; steering = none },
        push_event [] (PickerEvent.opened selected page roster.revision),
      )
      else if not prepared && leb (p.config.hold / 2) (now - since)
      then (record p { phase = arming since true }, push_event [] preparing)
      else (p, [])
  advance p previous now input roster (Phase.opened selected page) =
      update_open p previous input roster selected page

  -- The wheel that closed in this report latches what it consumed.
  unfoldable pub latch_closed :
      Bool → PickerInput → Picker (Float.F f) × PickerEvents → Picker (Float.F f) × PickerEvents
  latch_closed was_open input (p, events) = (
    if was_open && not (is_opened p.phase)
        then record p { latched = bit_and input.buttons consumed_mask }
        else p,
    events,
  )

  -- `update` behind the buttons of the report before; without one the report is the baseline.
  unfoldable pub update_from :
      Option SteamButtons
      → (now : ℕ) → PickerInput
      → PickerRoster
      → Picker (Float.F f)
      → Picker (Float.F f) × PickerEvents
  update_from none now input roster p = (record p { previous = some input.buttons }, [])
  update_from (some previous) now input roster p = latch_closed (is_opened p.phase) input (
      advance
        (record p { previous = some input.buttons; latched = bit_and p.latched input.buttons })
        previous now input roster p.phase)

  unfoldable pub update :
      (now : ℕ)
      → PickerInput
      → PickerRoster
      → Picker (Float.F f)
      → Picker (Float.F f) × PickerEvents
  update now input roster p = update_from p.previous now input roster p
