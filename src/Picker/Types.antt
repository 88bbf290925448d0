-- ===== src/Picker/Types.antt =====
-- crates/app/profile-picker/src/types.rs: configuration, roster, input and events.
use steam_controller_bridge.Common.{
  ℕ, ◌*◌, Bool, if◌then◌else◌, ltb, leb, List, [], ◌∷◌, ◌++◌, length, Option,
}
use steam_controller_bridge.Common.Int.{ℤ, pos}
use steam_controller_bridge.Float.{Float, clamp}
use steam_controller_bridge.Steam.Buttons.{SteamButton, SteamButtons}

abbrev pub trigger : SteamButton
trigger = SteamButton.quick_access

abbrev pub commit_button : SteamButton
commit_button = SteamButton.a

abbrev pub dismiss_button : SteamButton
dismiss_button = SteamButton.b

abbrev pub page_previous : SteamButton
page_previous = SteamButton.left_shoulder

abbrev pub page_next : SteamButton
page_next = SteamButton.right_shoulder

-- Durations are in nanoseconds.
abbrev pub second : ℕ
second = 1000000000

abbrev pub default_hold : ℕ
default_hold = 2 * second

abbrev pub min_hold : ℕ
min_hold = 500 * 1000000

abbrev pub max_hold : ℕ
max_hold = 5 * second

abbrev pub default_sectors_per_page : ℕ
default_sectors_per_page = 8

abbrev pub min_sectors_per_page : ℕ
min_sectors_per_page = 2

abbrev pub max_sectors_per_page : ℕ
max_sectors_per_page = 12

abbrev pub min_roster : ℕ
min_roster = 2

abbrev pub max_events : ℕ
max_events = 2

-- Over the type of its dead zones.
pub record PickerConfig (F : Type 0) : Type 0 where
  pub hold : ℕ
  pub engage_dead_zone : F
  pub track_dead_zone : F
  pub sectors_per_page : ℕ

-- `Ord::clamp`.
abbrev pub clamp_ord : ℕ → ℕ → ℕ → ℕ
clamp_ord v lo hi = if ltb v lo then lo else if ltb hi v then hi else v

module _ (f : Float) where
  abbrev pub default_engage_dead_zone : Float.F f
  default_engage_dead_zone = f.decimal (pos 55) 2

  abbrev pub default_track_dead_zone : Float.F f
  default_track_dead_zone = f.decimal (pos 35) 2

  unfoldable pub default_picker_config : PickerConfig (Float.F f)
  default_picker_config = record {
    hold = default_hold;
    engage_dead_zone = default_engage_dead_zone;
    track_dead_zone = default_track_dead_zone;
    sectors_per_page = default_sectors_per_page;
  }

  -- `PickerConfig::sanitized`
  unfoldable pub sanitized_config : PickerConfig (Float.F f) → PickerConfig (Float.F f)
  sanitized_config c =
      let engage =
        if f.is_finite c.engage_dead_zone
        then clamp f c.engage_dead_zone (f.decimal (pos 1) 1) (f.decimal (pos 95) 2)
        else default_engage_dead_zone in
      let track =
        if f.is_finite c.track_dead_zone
        then clamp f c.track_dead_zone (f.decimal (pos 5) 2) engage
        else f.min default_track_dead_zone engage in
      record {
        hold = clamp_ord c.hold min_hold max_hold;
        engage_dead_zone = engage;
        track_dead_zone = track;
        sectors_per_page = clamp_ord c.sectors_per_page min_sectors_per_page max_sectors_per_page;
      }

pub record PickerRoster : Type 0 where
  pub len : ℕ
  pub active : Option ℕ
  pub revision : ℕ

unfoldable pub is_openable : PickerRoster → Bool
is_openable roster = leb min_roster roster.len

pub record PickerInput : Type 0 where
  pub buttons : SteamButtons
  pub left_stick : ℤ × ℤ
  pub right_stick : ℤ × ℤ

pub data PickerEvent : Type 0 where
  preparing : PickerEvent
  opened : (selected page roster_revision : ℕ) → PickerEvent
  selection : (selected page roster_revision : ℕ) → PickerEvent
  commit : (index roster_revision : ℕ) → PickerEvent
  dismissed trigger_tapped : PickerEvent

-- `PickerEvents`: the filled part of the array, `events[..len]`.
abbrev pub PickerEvents : Type 0
PickerEvents = List PickerEvent

-- A surplus event is dropped.
unfoldable pub push_event : PickerEvents → PickerEvent → PickerEvents
push_event events event = if ltb (length events) max_events then events ++ (event ∷ []) else events
