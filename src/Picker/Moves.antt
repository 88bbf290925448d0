-- ===== src/Picker/Moves.antt =====
-- crates/app/profile-picker/src/picker.rs: the transitions that a report can make, with the
-- events that it reports.
use steam_controller_bridge.Common.{
  ℕ, ◌+◌, ◌-◌, ◌*◌, ◌/◌, ◌≤◌, ◌<◌, ◌≡◌, Bool, true, false, not, ◌&&◌, ◌||◌, leb, [], ◌∷◌,
}
use steam_controller_bridge.Steam.Buttons.{SteamButtons, steam_contains}
use steam_controller_bridge.Picker.Types.{
  PickerRoster, PickerEvent, PickerEvents, preparing, selection, commit, dismissed, trigger_tapped,
  commit_button, dismiss_button, trigger,
}
use steam_controller_bridge.Picker.State.{Phase, idle, arming, pressed}

-- A sector of the wheel that stands for an entry of the roster.
pub record InRoster (per_page len selected page : ℕ) : Type 0 where
  pub on_wheel : selected < per_page
  pub in_list : page * per_page + selected < len

-- What a report may do to the phase, and the events that it then puts out. Every transition names
-- the presses and the times that lead to it.
module _ (per_page hold : ℕ) (roster : PickerRoster) (now : ℕ)
    (previous buttons : SteamButtons) where
  abbrev pub is_closing : Bool
  is_closing = pressed previous buttons dismiss_button || pressed previous buttons trigger

  pub data Moves : Phase → PickerEvents → Phase → Type 0 where
    stays_idle : (pressed previous buttons trigger && leb 2 roster.len) ≡ false → Moves idle [] idle
    arms :
        pressed previous buttons trigger ≡ true → 2 ≤ roster.len → Moves idle [] (arming now false)
    taps :
        (since : ℕ)
        → (prepared : Bool) → (steam_contains buttons trigger && leb 2 roster.len) ≡ false
        → Moves (arming since prepared) (trigger_tapped ∷ []) idle
    waits :
        (since : ℕ)
        → (prepared : Bool) → steam_contains buttons trigger ≡ true
        → now - since < hold
        → (not prepared && leb (hold / 2) (now - since)) ≡ false
        → Moves (arming since prepared) [] (arming since prepared)
    prepares :
        (since : ℕ)
        → steam_contains buttons trigger ≡ true
        → hold / 2 ≤ now - since
        → now - since < hold
        → Moves (arming since false) (preparing ∷ []) (arming since true)
    opens :
        (since : ℕ)
        → (prepared : Bool) → (selected page : ℕ) → steam_contains buttons trigger ≡ true
        → hold ≤ now - since
        → InRoster per_page roster.len selected page
        → Moves
            (arming since prepared)
            (PickerEvent.opened selected page roster.revision ∷ [])
            (Phase.opened selected page)
    stays_open :
        (selected page : ℕ)
        → (pressed previous buttons commit_button || is_closing) ≡ false
        → InRoster per_page roster.len selected page
        → Moves (Phase.opened selected page) [] (Phase.opened selected page)
    selects :
        (was_selected was_page selected page : ℕ)
        → (pressed previous buttons commit_button || is_closing) ≡ false
        → InRoster per_page roster.len selected page
        → Moves
            (Phase.opened was_selected was_page)
            (selection selected page roster.revision ∷ [])
            (Phase.opened selected page)
    commits :
        (selected page : ℕ)
        → pressed previous buttons commit_button ≡ true
        → InRoster per_page roster.len selected page
        → Moves
            (Phase.opened selected page)
            (commit (page * per_page + selected) roster.revision ∷ [])
            idle
    dismisses :
        (selected page : ℕ)
        → (pressed previous buttons commit_button ≡ false)
        → is_closing ≡ true
        → Moves (Phase.opened selected page) (dismissed ∷ []) idle
    shrinks :
        (selected page : ℕ)
        → roster.len < 2
        → Moves (Phase.opened selected page) (dismissed ∷ []) idle
    -- A changed selection is reported before the press that closes the wheel.
    selects_first :
        (was_selected was_page selected page : ℕ)
        → (event : PickerEvent) → InRoster per_page roster.len selected page
        → Moves (Phase.opened selected page) (event ∷ []) idle
        → Moves
            (Phase.opened was_selected was_page)
            (selection selected page roster.revision ∷ event ∷ [])
            idle
