-- ===== src/Gamepad/Hat.antt =====
-- crates/bridge/gamepad-state/src/lib.rs: `HatState` and its conversion from a byte.
use steam_controller_bridge.Common.{
  ℕ, zero, suc, ◌≤◌, ◌≡◌, refl, ◌==◌, if◌then◌else◌, arith, Result, ok, err,
}

pub data HatState : Type 0 where
  north north_east east south_east south south_west west north_west centered : HatState

-- `hat as u8`
abbrev pub hat_index : HatState → ℕ
hat_index north = 0
hat_index north_east = 1
hat_index east = 2
hat_index south_east = 3
hat_index south = 4
hat_index south_west = 5
hat_index west = 6
hat_index north_west = 7
hat_index centered = 8

pub data InvalidHat : Type 0 where
  invalid_hat : ℕ → InvalidHat

unfoldable pub hat_try_from : ℕ → Result InvalidHat HatState
hat_try_from value =
    if value == 0
    then ok north
    else if value == 1
    then ok north_east
    else if value == 2
    then ok east
    else if value == 3
    then ok south_east
    else if value == 4
    then ok south
    else if value == 5
    then ok south_west
    else if value == 6
    then ok west
    else if value == 7
    then ok north_west
    else if value == 8
    then ok centered
    else err (invalid_hat value)

pub hat_try_from-hat_index : (hat : HatState) → hat_try_from (hat_index hat) ≡ ok hat
unfolding hat_try_from
hat_try_from-hat_index north = refl
hat_try_from-hat_index _ = refl

pub hat_index-hat_try_from : (v : ℕ) {hat : HatState} → hat_try_from v ≡ ok hat → hat_index hat ≡ v
unfolding hat_try_from
hat_index-hat_try_from v h = ground arith

pub hat_try_from_ok : (v : ℕ) → v ≤ 8 → (hat : HatState) × (hat_try_from v ≡ ok hat)
unfolding hat_try_from
hat_try_from_ok zero h = (north, refl)
hat_try_from_ok (suc zero) h = (north_east, refl)
hat_try_from_ok (suc (suc zero)) h = (east, refl)
hat_try_from_ok (suc (suc (suc zero))) h = (south_east, refl)
hat_try_from_ok (suc (suc (suc (suc zero)))) h = (south, refl)
hat_try_from_ok (suc (suc (suc (suc (suc zero))))) h = (south_west, refl)
hat_try_from_ok (suc (suc (suc (suc (suc (suc zero)))))) h = (west, refl)
hat_try_from_ok (suc (suc (suc (suc (suc (suc (suc zero))))))) h = (north_west, refl)
hat_try_from_ok (suc (suc (suc (suc (suc (suc (suc (suc zero)))))))) h = (centered, refl)
hat_try_from_ok (suc (suc (suc (suc (suc (suc (suc (suc (suc v))))))))) h = absurd (omega arith)
