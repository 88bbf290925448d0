-- ===== src/Picker/Refinement.antt =====
-- crates/app/profile-picker/src/picker.rs: `update` against the transitions of `Moves`.
use steam_controller_bridge.Common.{
  bit_and, ℕ, ◌+◌, ◌-◌, ◌*◌, ◌/◌, ◌<◌, min, ◌≡◌, refl, sym, ap, ◌∙◌, subst, Bool, true, false, not,
  ◌&&◌, arith, leb, if-ind, if-cases, [], ◌∷◌, some,
}
use steam_controller_bridge.Float.{Float}
use steam_controller_bridge.Steam.Buttons.{SteamButtons, steam_contains}
use steam_controller_bridge.Picker.Types.{
  PickerRoster, PickerInput, PickerEvents, is_openable, push_event, preparing, selection, commit,
  commit_button, trigger,
}
use steam_controller_bridge.Picker.State.{Phase, idle, arming, Picker, pressed, is_opened}
use steam_controller_bridge.Picker.Update.{
  steering_after, target, close_open, report_selection, update_open, advance, latch_closed,
  update_from, update,
}
use steam_controller_bridge.Picker.Moves.{
  InRoster, Moves, stays_idle, arms, taps, waits, prepares, opens, stays_open, selects, commits,
  dismisses, shrinks, selects_first,
}
use steam_controller_bridge.Picker.Target.{target-InRoster, selected-InRoster}

module _ (f : Float) (roster : PickerRoster) (now : ℕ) (previous : SteamButtons)
    (input : PickerInput) where
  abbrev Made : Picker (Float.F f) → Phase → PickerEvents → Phase → Type 0
  Made p = Moves p.config.sectors_per_page p.config.hold roster now previous input.buttons

  abbrev MovesTo : Picker (Float.F f) → Phase → Picker (Float.F f) × PickerEvents → Type 0
  MovesTo p phase (q, events) = Made p phase events q.phase

  -- The bound in the code's index does nothing: the sector is in the roster.
  committed :
      (p : Picker (Float.F f)) (selected page : ℕ)
      → pressed previous input.buttons commit_button ≡ true
      → InRoster p.config.sectors_per_page roster.len selected page
      → Made p
          (Phase.opened selected page)
          (commit
              (min (page * p.config.sectors_per_page + selected) (roster.len - 1))
              roster.revision
            ∷ [])
          idle
  committed p selected page c r =
      subst (λ i. Made p (Phase.opened selected page) (commit i roster.revision ∷ []) idle)
        (omega (arith, r.in_list)) (commits selected page c r)

  close_open-Moves :
      (p : Picker (Float.F f)) (selected page : ℕ)
      → InRoster p.config.sectors_per_page roster.len selected page
      → p.phase ≡ Phase.opened selected page
      → MovesTo p
          (Phase.opened selected page)
          (close_open f p previous input roster selected page [])
  unfolding close_open push_event
  close_open-Moves p selected page r e =
      if-cases (MovesTo p (Phase.opened selected page)) _ (λ c. committed p selected page c r)
        (λ c.
          if-cases (MovesTo p (Phase.opened selected page)) _ (λ d. dismisses selected page c d)
            (λ d.
              subst (Made p (Phase.opened selected page) []) (sym e)
                (stays_open selected page (ground arith) r)))

  selection-Moves :
      (p : Picker (Float.F f)) (was_selected was_page selected page : ℕ)
      → InRoster p.config.sectors_per_page roster.len selected page
      → p.phase ≡ Phase.opened selected page
      → MovesTo p (Phase.opened was_selected was_page) (
          close_open f p previous input roster selected page
            (selection selected page roster.revision ∷ []))
  unfolding close_open push_event
  selection-Moves p was_selected was_page selected page r e =
      if-cases (MovesTo p (Phase.opened was_selected was_page)) _
        (λ c. selects_first was_selected was_page selected page _ r (committed p selected page c r))
        (λ c.
          if-cases (MovesTo p (Phase.opened was_selected was_page)) _
            (λ d.
              selects_first was_selected was_page selected page _ r (dismisses selected page c d))
            (λ d.
              subst
                (Made p (Phase.opened was_selected was_page)
                  (selection selected page roster.revision ∷ []))
                (sym e) (selects was_selected was_page selected page (ground arith) r)))

  -- Both cases of a report of the selection.
  selected-Moves :
      (p : Picker (Float.F f)) (was_selected was_page selected page : ℕ)
      → InRoster p.config.sectors_per_page roster.len selected page
      → p.phase ≡ Phase.opened was_selected was_page
      → let (q, events) = report_selection f p roster was_selected was_page selected page in
        MovesTo p
          (Phase.opened was_selected was_page)
          (close_open f q previous input roster selected page events)
  unfolding report_selection push_event
  selected-Moves p was_selected was_page selected page r e =
      if-cases
        (λ (q, events).
          MovesTo p (Phase.opened was_selected was_page)
            (close_open f q previous input roster selected page events))
        _
        (λ c.
          selection-Moves (record p { phase = Phase.opened selected page }) was_selected was_page
            selected page r refl)
        (λ c.
          let left_same : selected ≡ was_selected = ground arith in
          let right_same : page ≡ was_page = ground arith in
          let same : Phase.opened selected page ≡ Phase.opened was_selected was_page =
            ap (λ s. Phase.opened s page) left_same ∙ ap (Phase.opened was_selected) right_same in
          subst (λ phase. MovesTo p phase (close_open f p previous input roster selected page []))
            same (close_open-Moves p selected page r (e ∙ sym same)))

  update_open-Moves :
      (p : Picker (Float.F f)) (selected page : ℕ)
      → 0 < p.config.sectors_per_page
      → p.phase ≡ Phase.opened selected page
      → MovesTo p (Phase.opened selected page) (update_open f p previous input roster selected page)
  unfolding update_open is_openable push_event
  update_open-Moves p selected page h e =
      if-cases (MovesTo p (Phase.opened selected page)) _
        (λ c. shrinks selected page (ground arith))
        (λ c.
          selected-Moves (record p { steering = steering_after f p input }) selected page
            (target f p previous input roster selected page).0
            (target f p previous input roster selected page).1
            (target-InRoster f roster now previous input p selected page h (ground arith)) e)

  prepared-Moves :
      (p : Picker (Float.F f)) (since : ℕ) (prepared : Bool)
      → steam_contains input.buttons trigger ≡ true
      → now - since < p.config.hold
      → (not prepared && leb (p.config.hold / 2) (now - since)) ≡ true
      → Made p (arming since prepared) (preparing ∷ []) (arming since true)
  prepared-Moves p since true c d m = ground arith
  prepared-Moves p since false c d m = prepares since c (ground arith) d

  advance-Moves :
      (p : Picker (Float.F f)) (phase : Phase)
      → 0 < p.config.sectors_per_page
      → p.phase ≡ phase
      → MovesTo p phase (advance f p previous now input roster phase)
  unfolding advance is_openable push_event
  advance-Moves p idle h e =
      if-cases (MovesTo p idle) _ (λ c. arms (ground arith) (ground arith))
        (λ c. subst (Made p idle []) (sym e) (stays_idle c))
  advance-Moves p (arming since prepared) h e =
      if-cases (MovesTo p (arming since prepared)) (not (steam_contains input.buttons trigger))
        (λ c. taps since prepared (ground arith))
        (λ c.
          if-cases (MovesTo p (arming since prepared)) (not (leb 2 roster.len))
            (λ d. taps since prepared (ground arith))
            (λ d.
              if-cases (MovesTo p (arming since prepared)) (leb p.config.hold (now - since))
                (λ k. opens since prepared _ _ (ground arith) (ground arith) (
                  selected-InRoster f roster now previous input p.config.sectors_per_page h
                    (ground arith)))
                (λ k.
                  if-cases (MovesTo p (arming since prepared))
                    (not prepared && leb (p.config.hold / 2) (now - since))
                    (λ m. prepared-Moves p since prepared (ground arith) (ground arith) m)
                    (λ m.
                      subst (Made p (arming since prepared) []) (sym e)
                        (waits since prepared (ground arith) (ground arith) m)))))
  advance-Moves p (Phase.opened selected page) h e = update_open-Moves p selected page h e

  latch_closed-MovesTo :
      (p : Picker (Float.F f)) (phase : Phase) (was_open : Bool)
      (r : Picker (Float.F f) × PickerEvents)
      → MovesTo p phase r
      → MovesTo p phase (latch_closed f was_open input r)
  unfolding latch_closed
  latch_closed-MovesTo p phase was_open (q, events) m =
      if-ind (λ (q' : Picker (Float.F f)). Made p phase events q'.phase)
        (was_open && not (is_opened q.phase)) m m

  -- Where the picker has the buttons of a report before and at least one sector on a page, the
  -- phase and the events that `update` gives are a transition of `Moves`: it names for each phase
  -- the presses and times that lead on, and each selection that is reported, opened or committed
  -- is a sector of its page and an entry of the roster, which `commit` names by its index.
  pub update-Moves :
      (p : Picker (Float.F f))
      → 0 < p.config.sectors_per_page
      → p.previous ≡ some previous
      → let (q, events) = update f now input roster p in
        Moves p.config.sectors_per_page p.config.hold roster now previous input.buttons p.phase
          events q.phase
  unfolding update update_from
  update-Moves p h e =
      subst
        (λ before.
          let (q, events) = update_from f before now input roster p in
          Made p p.phase events q.phase)
        (sym e)
        (latch_closed-MovesTo p p.phase (is_opened p.phase) _ (
          advance-Moves
            (record p { previous = some input.buttons; latched = bit_and p.latched input.buttons })
            p.phase h refl))
