-- ===== src/Float/Fixed.antt =====
-- Fixed-point values in millionths with one value that is not finite: an instance of `Float` at
-- which the models run and the laws hold. Its transcendental functions are placeholders.
use steam_controller_bridge.Common.{
  ℕ, ◌+◌, ◌-◌, ◌*◌, ◌/◌, ◌^◌, ◌≡◌, refl, arith, Bool, true, false, not, if◌then◌else◌, leb, ltb,
}
use steam_controller_bridge.Common.Int.{ℤ, pos, negsuc, pos_part, neg_part, ltb_ℤ}
use steam_controller_bridge.Float.{Float, FloatLaws}

pub data Fixed : Type 0 where
  nan : Fixed
  micro : ℤ → Fixed

abbrev difference : ℕ → ℕ → ℤ
difference a b = if leb b a then pos (a - b) else negsuc (b - a - 1)

abbrev negate : ℤ → ℤ
negate z = difference (neg_part z) (pos_part z)

abbrev magnitude : ℤ → ℕ
magnitude z = pos_part z + neg_part z

-- The quotient of two magnitudes with the sign of the product.
abbrev signed : ℤ → ℤ → ℕ → ℤ
signed a b n =
    if ltb_ℤ a (pos 0)
    then (if ltb_ℤ b (pos 0) then pos n else difference 0 n)
    else (if ltb_ℤ b (pos 0) then difference 0 n else pos n)

abbrev lift : (ℤ → ℤ → ℤ) → Fixed → Fixed → Fixed
lift g (micro a) (micro b) = micro (g a b)
lift g _ _ = nan

abbrev lift_one : (ℤ → ℤ) → Fixed → Fixed
lift_one g (micro a) = micro (g a)
lift_one g nan = nan

abbrev test : (ℤ → ℤ → Bool) → Fixed → Fixed → Bool
test p (micro a) (micro b) = p a b
test p _ _ = false

abbrev is_finite_fixed : Fixed → Bool
is_finite_fixed nan = false
is_finite_fixed (micro a) = true

abbrev scaled : ℤ → ℕ → ℤ
scaled m k = difference (pos_part m * k) (neg_part m * k)

abbrev pub unit : ℕ
unit = 1000000

abbrev leb_ℤ : ℤ → ℤ → Bool
leb_ℤ a b = not (ltb_ℤ b a)

abbrev rounded : Fixed → ℤ
rounded nan = pos 0
rounded (micro a) = signed a (pos 0) ((magnitude a + 500000) / unit)

abbrev pub fixed : Float
fixed = record {
  F = Fixed;
  decimal = λ m e. micro (scaled m (10 ^ (6 - e)));
  is_finite = is_finite_fixed;
  lt = test ltb_ℤ;
  le = test leb_ℤ;
  eq = test (λ a b. if ltb_ℤ a b then false else not (ltb_ℤ b a));
  neg = lift_one negate;
  add = lift (λ a b. difference (pos_part a + pos_part b) (neg_part a + neg_part b));
  sub = lift (λ a b. difference (pos_part a + neg_part b) (neg_part a + pos_part b));
  mul = lift (λ a b. signed a b (magnitude a * magnitude b / unit));
  div = lift (λ a b. signed a b (magnitude a * unit / magnitude b));
  abs = lift_one (λ a. pos (magnitude a));
  signum = lift_one (λ a. if ltb_ℤ a (pos 0) then negate (pos unit) else pos unit);
  powf = λ a e. a;
  exp = λ a. micro (pos unit);
  hypot = lift (λ a b. pos (if ltb (magnitude a) (magnitude b) then magnitude b else magnitude a));
  atan2 = λ a b. micro (pos 0);
  min = lift (λ a b. if ltb_ℤ b a then b else a);
  epsilon = micro (pos 1);
  tau = micro (pos 6283185);
  from_i16 = λ z. micro (scaled z unit);
  from_u16 = λ n. micro (pos (n * unit));
  from_usize = λ n. micro (pos (n * unit));
  round_i16 = rounded;
  round_u16 = λ a. pos_part (rounded a);
  floor_usize = λ a. pos_part (rounded a);
}

fixed_total :
    (a b : Fixed)
    → is_finite_fixed a ≡ true
    → is_finite_fixed b ≡ true
    → test ltb_ℤ a b ≡ false
    → test leb_ℤ b a ≡ true
fixed_total (micro a) (micro b) p q r = rw r
fixed_total nan b p q r = cc
fixed_total (micro a) nan p q r = cc

fixed_le_refl : (a : Fixed) → is_finite_fixed a ≡ true → test leb_ℤ a a ≡ true
fixed_le_refl (micro a) p = ground arith
fixed_le_refl nan p = cc

pub fixed_le_trans :
    (a b c : Fixed) → test leb_ℤ a b ≡ true → test leb_ℤ b c ≡ true → test leb_ℤ a c ≡ true
fixed_le_trans (micro a) (micro b) (micro c) p q = ground arith
fixed_le_trans nan b c p q = cc
fixed_le_trans (micro a) nan c p q = cc
fixed_le_trans (micro a) (micro b) nan p q = cc

pub fixed_min_le :
    (a b : Fixed)
    → is_finite_fixed a ≡ true
    → is_finite_fixed b ≡ true
    → test leb_ℤ (Float.min fixed a b) b ≡ true
fixed_min_le (micro a) (micro b) p q = ground arith
fixed_min_le nan b p q = cc
fixed_min_le (micro a) nan p q = cc

pub fixed_le_min :
    (a b c : Fixed)
    → test leb_ℤ c a ≡ true
    → test leb_ℤ c b ≡ true
    → test leb_ℤ c (Float.min fixed a b) ≡ true
fixed_le_min (micro a) (micro b) (micro c) p q = ground arith
fixed_le_min (micro a) (micro b) nan p q = cc
fixed_le_min (micro a) nan (micro c) p q = cc
fixed_le_min (micro a) nan nan p q = cc
fixed_le_min nan b (micro c) p q = cc
fixed_le_min nan b nan p q = cc

pub fixed_laws : FloatLaws fixed
fixed_laws = record {
  le_of_not_lt = fixed_total;
  le_refl = fixed_le_refl;
  zero_finite = refl;
  one_finite = refl;
  minus_one_finite = refl;
  minus_one_le_zero = refl;
  minus_one_le_one = refl;
  zero_le_one = refl;
}
