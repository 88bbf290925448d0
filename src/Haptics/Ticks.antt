-- ===== src/Haptics/Ticks.antt =====
-- crates/bridge/bridge-runtime/src/supervisor/controller/haptics.rs: no tick of a pad is lost.
use steam_controller_bridge.Common.{
  ℕ, ◌+◌, ◌≡◌, refl, ap, ◌∙◌, arith, true, if-cases, List, [], ◌∷◌, Option, none, some, length,
}
use steam_controller_bridge.Steam.Output.{PadHapticSide, PadHapticGain}
use steam_controller_bridge.Mailbox.Snapshot.{PadFeedbackStrength, PadFeedbackRequest}
use steam_controller_bridge.Haptics.Pad.{
  haptic_gain, same_gain, PadFeedbackCommand, PendingPadFeedback, replace_gain, publish_pad,
  pad_commands, take_pad, nothing_pending,
}

-- The pending ticks after some requests, and the count of those that were replaced.
unfoldable pub publish_pads : PendingPadFeedback → List PadFeedbackRequest → PendingPadFeedback × ℕ
publish_pads state [] = (state, 0)
publish_pads state (request ∷ requests) =
    let (state', coalesced) = publish_pad state request in
    let (last, later) = publish_pads state' requests in (last, coalesced + later)

abbrev pub one_if_some : {A : Type 0} → Option A → ℕ
one_if_some none = 0
one_if_some (some _) = 1

-- The sides that the requests ask for.
unfoldable pub requested : List PadFeedbackRequest → ℕ
requested [] = 0
requested (request ∷ requests) =
    one_if_some request.left + one_if_some request.right + requested requests

abbrev pub pending : PendingPadFeedback → ℕ
pending state = one_if_some state.left_gain + one_if_some state.right_gain

-- The gain of the last request for a side, or the one before.
abbrev newer : Option PadHapticGain → Option PadFeedbackStrength → Option PadHapticGain
newer before none = before
newer before (some strength) = some (haptic_gain strength)

unfoldable pub last_left : Option PadHapticGain → List PadFeedbackRequest → Option PadHapticGain
last_left before [] = before
last_left before (request ∷ requests) = last_left (newer before request.left) requests

unfoldable pub last_right : Option PadHapticGain → List PadFeedbackRequest → Option PadHapticGain
last_right before [] = before
last_right before (request ∷ requests) = last_right (newer before request.right) requests

-- The ticks that the left pad, or the right one, gets from the commands.
unfoldable pub left_ticks : List PadFeedbackCommand → List PadHapticGain
left_ticks [] = []
left_ticks (command ∷ commands) =
    let rest = left_ticks commands in
    elim command.side [
      | PadHapticSide.right ↦ rest
      | PadHapticSide.left ↦ command.gain ∷ rest
      | PadHapticSide.both ↦ command.gain ∷ rest
    ]

unfoldable pub right_ticks : List PadFeedbackCommand → List PadHapticGain
right_ticks [] = []
right_ticks (command ∷ commands) =
    let rest = right_ticks commands in
    elim command.side [
      | PadHapticSide.left ↦ rest
      | PadHapticSide.right ↦ command.gain ∷ rest
      | PadHapticSide.both ↦ command.gain ∷ rest
    ]

-- One tick with the gain, if there is one.
abbrev pub one_tick : Option PadHapticGain → List PadHapticGain
one_tick none = []
one_tick (some gain) = gain ∷ []

same_gain→eq : (a b : PadHapticGain) → same_gain a b ≡ true → a ≡ b
same_gain→eq PadHapticGain.low PadHapticGain.low e = refl
same_gain→eq PadHapticGain.medium PadHapticGain.medium e = refl
same_gain→eq PadHapticGain.high PadHapticGain.high e = refl
same_gain→eq PadHapticGain.low PadHapticGain.medium e = cc
same_gain→eq PadHapticGain.low PadHapticGain.high e = cc
same_gain→eq PadHapticGain.medium PadHapticGain.low e = cc
same_gain→eq PadHapticGain.medium PadHapticGain.high e = cc
same_gain→eq PadHapticGain.high PadHapticGain.low e = cc
same_gain→eq PadHapticGain.high PadHapticGain.medium e = cc

-- The commands carry the tick of each side.
abbrev Carry : Option PadHapticGain → Option PadHapticGain → List PadFeedbackCommand → Type 0
Carry left_gain right_gain commands =
    (left_ticks commands ≡ one_tick left_gain) × (right_ticks commands ≡ one_tick right_gain)

pad_commands-Carry :
    (left_gain right_gain : Option PadHapticGain)
    → Carry left_gain right_gain (pad_commands left_gain right_gain)
unfolding pad_commands left_ticks right_ticks
pad_commands-Carry (some left) (some right) =
    if-cases (Carry (some left) (some right)) (same_gain left right)
      (λ e. (refl, ap (λ g. one_tick (some g)) (same_gain→eq left right e))) (λ e. (refl, refl))
pad_commands-Carry (some gain) none = (refl, refl)
pad_commands-Carry none (some gain) = (refl, refl)
pad_commands-Carry none none = (refl, refl)

replace_gain_lem :
    (strength : Option PadFeedbackStrength) (gain : Option PadHapticGain)
    → let x = replace_gain strength gain in
      (x.0 ≡ newer gain strength)
      × (x.1 + one_if_some x.0 ≡ one_if_some strength + one_if_some gain)
unfolding replace_gain
replace_gain_lem none gain = (refl, omega arith)
replace_gain_lem (some strength) none = (refl, refl)
replace_gain_lem (some strength) (some gain) = (refl, refl)

length-one_tick : (gain : Option PadHapticGain) → length (one_tick gain) ≡ one_if_some gain
length-one_tick none = refl
length-one_tick (some gain) = refl

-- The pending gains are the last requested ones, and every tick is pending or was replaced.
HasLast : PendingPadFeedback → List PadFeedbackRequest → PendingPadFeedback × ℕ → Type 0
HasLast state requests x =
    (x.0.left_gain ≡ last_left state.left_gain requests)
    × (x.0.right_gain ≡ last_right state.right_gain requests)
    × (x.1 + pending x.0 ≡ requested requests + pending state)

publish_pads-HasLast :
    (state : PendingPadFeedback) (requests : List PadFeedbackRequest)
    → HasLast state requests (publish_pads state requests)
unfolding HasLast publish_pads publish_pad requested last_left last_right
publish_pads-HasLast state [] = (refl, refl, refl)
publish_pads-HasLast state (request ∷ requests) =
    let (state', coalesced) = publish_pad state request in
    let (a, b, c) = publish_pads-HasLast state' requests in
    let (l, l') = replace_gain_lem request.left state.left_gain in
    let (r, r') = replace_gain_lem request.right state.right_gain in
    (a ∙ ap (λ g. last_left g requests) l, b ∙ ap (λ g. last_right g requests) r, omega arith)

-- After requests on pending ticks, `take` leaves nothing pending, and its commands together give
-- each pad one tick, with the gain of the last request for this pad or the pending one if there
-- was none, or no tick if there was neither; the replaced ticks and the ones given are together
-- the requested and the pending ones.
pub take_pad-publish_pads :
    (state : PendingPadFeedback) (requests : List PadFeedbackRequest)
    → let (state', coalesced) = publish_pads state requests in
      let (empty, commands) = take_pad state' in
      (empty ≡ nothing_pending)
      × (left_ticks commands ≡ one_tick (last_left state.left_gain requests))
      × (right_ticks commands ≡ one_tick (last_right state.right_gain requests))
      × (coalesced + (length (left_ticks commands) + length (right_ticks commands))
          ≡ requested requests + pending state)
unfolding HasLast take_pad
take_pad-publish_pads state requests =
    let (state', coalesced) = publish_pads state requests in
    let (a, b, c) = publish_pads-HasLast state requests in
    let (l, r) = pad_commands-Carry state'.left_gain state'.right_gain in
    (
      refl,
      l ∙ ap one_tick a,
      r ∙ ap one_tick b,
      rw (l, r, length-one_tick state'.left_gain, length-one_tick state'.right_gain) c,
    )
