-- ===== src/Float.antt =====
-- `f32` of Rust: an abstract type with the operations that the program calls, since the models do
-- not compute its arithmetic. What a proof needs of it is named in `FloatLaws`.
pub mod Fixed
use steam_controller_bridge.Common.{ℕ, Bool, true, false, ◌≡◌, if◌then◌else◌}
use steam_controller_bridge.Common.Int.{ℤ, pos, negsuc}

pub record Float : Type 1 where
  pub F : Type 0
  -- `decimal m e` is the literal m · 10 ^ -e.
  pub decimal : ℤ → ℕ → F
  pub is_finite : F → Bool
  pub lt : F → F → Bool
  pub le : F → F → Bool
  pub eq : F → F → Bool
  pub neg : F → F
  pub add : F → F → F
  pub sub : F → F → F
  pub mul : F → F → F
  pub div : F → F → F
  pub abs : F → F
  pub signum : F → F
  pub powf : F → F → F
  pub exp : F → F
  pub hypot : F → F → F
  pub atan2 : F → F → F
  pub min : F → F → F
  -- `f32::EPSILON` and `f32::consts::TAU`.
  pub epsilon : F
  pub tau : F
  -- `f32::from(i16)`, `f32::from(u16)` and `usize as f32`.
  pub from_i16 : ℤ → F
  pub from_u16 : ℕ → F
  pub from_usize : ℕ → F
  -- `round() as i16`, `round() as u16` and `floor() as usize`.
  pub round_i16 : F → ℤ
  pub round_u16 : F → ℕ
  pub floor_usize : F → ℕ

module _ (f : Float) where
  abbrev pub zero_f : Float.F f
  zero_f = f.decimal (pos 0) 0

  abbrev pub one_f : Float.F f
  one_f = f.decimal (pos 1) 0

  abbrev pub minus_one_f : Float.F f
  minus_one_f = f.decimal (negsuc 0) 0

  -- `f32::clamp`.
  abbrev pub clamp : Float.F f → Float.F f → Float.F f → Float.F f
  clamp v lo hi = if f.lt v lo then lo else if f.lt hi v then hi else v

  -- IEEE 754 orders the finite values totally, and 0, 1 and -1 are finite and in their order.
  pub record FloatLaws : Type 0 where
    pub le_of_not_lt :
        (a b : Float.F f)
        → f.is_finite a ≡ true
        → f.is_finite b ≡ true
        → f.lt a b ≡ false
        → f.le b a ≡ true
    pub le_refl : (a : Float.F f) → f.is_finite a ≡ true → f.le a a ≡ true
    pub zero_finite : f.is_finite zero_f ≡ true
    pub one_finite : f.is_finite one_f ≡ true
    pub minus_one_finite : f.is_finite minus_one_f ≡ true
    pub minus_one_le_zero : f.le minus_one_f zero_f ≡ true
    pub minus_one_le_one : f.le minus_one_f one_f ≡ true
    pub zero_le_one : f.le zero_f one_f ≡ true
