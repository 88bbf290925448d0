-- ===== src/Picker/Sound.antt =====
-- crates/app/profile-picker/src/picker.rs: the state of a `Picker` between two calls.
use steam_controller_bridge.Common.{
  ℕ, ◌≡◌, ◌≤◌, refl, sym, subst, Bool, true, false, not, ◌&&◌, ◌||◌, if-ind, bit_and, bit_or, arith,
  List, [], ◌∷◌, Option, none, some,
}
use steam_controller_bridge.Common.Bits.{has_bit-bit_or, has_bit-zero}
use steam_controller_bridge.Common.Int.{pos}
use steam_controller_bridge.Float.{Float}
use steam_controller_bridge.Steam.Buttons.{SteamButton, SteamButtons, steam_index, steam_contains}
use steam_controller_bridge.Picker.Zones.{ZoneLaws, engage_zone, track_zone}
use steam_controller_bridge.Picker.Types.{
  PickerConfig, PickerRoster, PickerInput, PickerEvents, sanitized_config, trigger,
}
use steam_controller_bridge.Picker.Geometry.{bit}
use steam_controller_bridge.Picker.State.{
  Phase, idle, arming, Picker, consumed_mask, is_opened, still_held, latch_held, new_picker,
  set_config, close,
}
use steam_controller_bridge.Picker.Update.{latch_closed, update_from, update}
use steam_controller_bridge.Picker.Latch.{
  Report, is_consumed, steam_contains-bit_and, steam_contains-consumed_mask, Keeps, advance-Keeps,
}

-- A configuration in the ranges that `sanitized` clamps to: hold times from 0.5 to 5 seconds, 2 to
-- 12 sectors, a dead zone to engage from 0.1 to 0.95, and one to track from 0.05 to the former.
pub record IsUsable (f : Float) (c : PickerConfig (Float.F f)) : Type 0 where
  pub hold_min : 500000000 ≤ c.hold
  pub hold_max : c.hold ≤ 5000000000
  pub sectors_min : 2 ≤ c.sectors_per_page
  pub sectors_max : c.sectors_per_page ≤ 12
  pub engage_min : f.le (f.decimal (pos 1) 1) c.engage_dead_zone ≡ true
  pub engage_max : f.le c.engage_dead_zone (f.decimal (pos 95) 2) ≡ true
  pub track_min : f.le (f.decimal (pos 5) 2) c.track_dead_zone ≡ true
  pub track_max : f.le c.track_dead_zone c.engage_dead_zone ≡ true

abbrev pub holds : Option SteamButtons → SteamButton → Bool
holds none c = false
holds (some buttons) c = steam_contains buttons c

-- A latched control is one that the wheel consumes, and was down in the last report.
abbrev pub IsHeld : Option SteamButtons → SteamButtons → Type 0
IsHeld previous latched =
    (c : SteamButton)
    → steam_contains latched c ≡ true
    → (is_consumed c ≡ true) × (holds previous c ≡ true)

pub record IsSound (f : Float) (p : Picker (Float.F f)) : Type 0 where
  pub usable : IsUsable f p.config
  pub latch : IsHeld p.previous p.latched

steam_contains-bit_or :
    (s t : SteamButtons) (c : SteamButton)
    → steam_contains (bit_or s t) c ≡ (steam_contains s c || steam_contains t c)
unfolding steam_contains
steam_contains-bit_or s t c = has_bit-bit_or s t (steam_index c)

steam_contains-zero : (c : SteamButton) → steam_contains 0 c ≡ false
unfolding steam_contains
steam_contains-zero c = has_bit-zero (steam_index c)

IsHeld-zero : (previous : Option SteamButtons) → IsHeld previous 0
IsHeld-zero previous c h = absurd (ground (arith, steam_contains-zero c))

no_previous : false ≡ true → ⊥
no_previous e = ground arith

trigger-is_consumed :
    (c : SteamButton) → (steam_contains (bit trigger) c && not (is_consumed c)) ≡ false
unfolding steam_contains is_consumed
trigger-is_consumed SteamButton.a = refl
trigger-is_consumed _ = refl

IsHeld-latch_held :
    (phase : Phase) (previous : Option SteamButtons) (latched : SteamButtons)
    → IsHeld previous latched
    → IsHeld previous (latch_held phase previous latched)
unfolding latch_held still_held
IsHeld-latch_held phase none latched h = h
IsHeld-latch_held idle (some buttons) latched h =
    λ c k. h c (ground (arith, steam_contains-bit_or latched 0 c, steam_contains-zero c))
IsHeld-latch_held (arming since prepared) (some buttons) latched h = λ c k. (
  ground (
    arith,
    h c,
    steam_contains-bit_or latched (bit_and buttons (bit trigger)) c,
    steam_contains-bit_and buttons (bit trigger) c,
    trigger-is_consumed c,
  ),
  ground (
    arith,
    h c,
    steam_contains-bit_or latched (bit_and buttons (bit trigger)) c,
    steam_contains-bit_and buttons (bit trigger) c,
  ),
)
IsHeld-latch_held (Phase.opened selected page) (some buttons) latched h = λ c k. (
  ground (
    arith,
    h c,
    steam_contains-bit_or latched (bit_and buttons consumed_mask) c,
    steam_contains-bit_and buttons consumed_mask c,
    steam_contains-consumed_mask c,
  ),
  ground (
    arith,
    h c,
    steam_contains-bit_or latched (bit_and buttons consumed_mask) c,
    steam_contains-bit_and buttons consumed_mask c,
  ),
)

IsHeld-consumed_mask :
    (buttons : SteamButtons) → IsHeld (some buttons) (bit_and buttons consumed_mask)
IsHeld-consumed_mask buttons c k = (
  ground (arith, steam_contains-bit_and buttons consumed_mask c, steam_contains-consumed_mask c),
  ground (arith, steam_contains-bit_and buttons consumed_mask c),
)

IsHeld-bit_and :
    (latched buttons : SteamButtons) (previous : Option SteamButtons)
    → IsHeld previous latched
    → IsHeld (some buttons) (bit_and latched buttons)
IsHeld-bit_and latched buttons previous h c k = (
  (h c (ground (arith, steam_contains-bit_and latched buttons c))).0,
  ground (arith, steam_contains-bit_and latched buttons c),
)

module _ (f : Float) where
  IsUsable-sanitized_config :
      ZoneLaws f → (c : PickerConfig (Float.F f)) → IsUsable f (sanitized_config f c)
  unfolding sanitized_config
  IsUsable-sanitized_config laws c =
      let (n, lo, hi) = engage_zone f laws c.engage_dead_zone in
      let (lo', hi') = track_zone f laws c.track_dead_zone _ n lo in
      record {
        hold_min = ground arith;
        hold_max = ground arith;
        sectors_min = ground arith;
        sectors_max = ground arith;
        engage_min = lo;
        engage_max = hi;
        track_min = lo';
        track_max = hi';
      }

  Keeps-IsSound : (p q : Picker (Float.F f)) → Keeps f p q → IsSound f p → IsSound f q
  Keeps-IsSound p q (l, b, c) s = record {
    usable = subst (IsUsable f) (sym c) s.usable;
    latch = subst (λ d. IsHeld d q.latched) (sym b) (subst (IsHeld p.previous) (sym l) s.latch);
  }

  latch_closed-IsSound :
      (was_open : Bool) (input : PickerInput) (r : Picker (Float.F f) × PickerEvents)
      → r.0.previous ≡ some input.buttons
      → IsSound f r.0
      → IsSound f (latch_closed f was_open input r).0
  unfolding latch_closed
  latch_closed-IsSound was_open input (p, events) e s =
      if-ind (IsSound f) _
        (record {
          usable = s.usable;
          latch =
              subst (λ b. IsHeld b (bit_and input.buttons consumed_mask)) (sym e)
                (IsHeld-consumed_mask input.buttons);
        })
        s

  update_from-IsSound :
      (previous : Option SteamButtons) (now : ℕ) (input : PickerInput) (roster : PickerRoster)
      (p : Picker (Float.F f))
      → p.previous ≡ previous
      → IsSound f p
      → IsSound f (update_from f previous now input roster p).0
  unfolding update_from
  update_from-IsSound none now input roster p e s = record {
    usable = s.usable;
    latch = λ c k. absurd (no_previous (subst (λ b. IsHeld b p.latched) e s.latch c k).1);
  }
  update_from-IsSound (some previous) now input roster p e s =
      let heard : Picker (Float.F f) = record p {
        previous = some input.buttons;
        latched = bit_and p.latched input.buttons;
      } in
      let keeps = advance-Keeps f heard previous now input roster p.phase in
      latch_closed-IsSound (is_opened p.phase) input _ keeps.1 (
        Keeps-IsSound heard _ keeps (record {
          usable = s.usable;
          latch = IsHeld-bit_and p.latched input.buttons p.previous s.latch;
        }))

  -- A call of one of the picker's operations that change it.
  pub data PickerCall : Type 0 where
    call_update : Report → PickerCall
    call_set_config : PickerConfig (Float.F f) → PickerCall
    call_close : PickerCall

  unfoldable pub call : Picker (Float.F f) → PickerCall → Picker (Float.F f)
  call p (call_update r) = (update f r.now r.input r.roster p).0
  call p (call_set_config config) = set_config f config p
  call p call_close = (close f p).0

  unfoldable pub calls : Picker (Float.F f) → List PickerCall → Picker (Float.F f)
  calls p [] = p
  calls p (c ∷ cs) = calls (call p c) cs

  call-IsSound :
      ZoneLaws f → (p : Picker (Float.F f)) (c : PickerCall) → IsSound f p → IsSound f (call p c)
  unfolding call update set_config close
  call-IsSound laws p (call_update r) s =
      update_from-IsSound p.previous r.now r.input r.roster p refl s
  call-IsSound laws p (call_set_config config) s = record {
    usable = IsUsable-sanitized_config laws config;
    latch = IsHeld-latch_held p.phase p.previous p.latched s.latch;
  }
  call-IsSound laws p call_close s = record { usable = s.usable; latch = IsHeld-zero none }

  calls-IsSound :
      ZoneLaws f
      → (p : Picker (Float.F f)) (cs : List PickerCall) → IsSound f p
      → IsSound f (calls p cs)
  unfolding calls
  calls-IsSound laws p [] s = s
  calls-IsSound laws p (c ∷ cs) s = calls-IsSound laws (call p c) cs (call-IsSound laws p c s)

  -- Where the literals of the dead zones are in their order and `f32::min` is the lesser one:
  -- after any updates, changes of the configuration and closings of a new picker, the hold time is
  -- 0.5 to 5 seconds, a page has 2 to 12 sectors, the dead zone to engage is 0.1 to 0.95 and that
  -- to track 0.05 to the former, and a control is latched only if the wheel consumes it and it was
  -- down in the last report.
  pub calls-new_picker :
      ZoneLaws f
      → (config : PickerConfig (Float.F f)) (cs : List PickerCall)
      → IsSound f (calls (new_picker f config) cs)
  unfolding new_picker
  calls-new_picker laws config cs =
      calls-IsSound laws (new_picker f config) cs
        (record { usable = IsUsable-sanitized_config laws config; latch = IsHeld-zero none })
