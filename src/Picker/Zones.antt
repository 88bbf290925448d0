-- ===== src/Picker/Zones.antt =====
-- crates/app/profile-picker/src/types.rs: the dead zones of a configuration that is sanitised.
use steam_controller_bridge.Common.{◌≡◌, true, if-cases, if◌then◌else◌}
use steam_controller_bridge.Common.Int.{pos}
use steam_controller_bridge.Float.{Float, FloatLaws, clamp}

-- What IEEE 754 says of the literals of the dead zones, and of `f32::min` on finite values.
pub record ZoneLaws (f : Float) : Type 0 where
  pub order : FloatLaws f
  pub le_trans : (a b c : Float.F f) → f.le a b ≡ true → f.le b c ≡ true → f.le a c ≡ true
  pub min_le :
      (a b : Float.F f) → f.is_finite a ≡ true → f.is_finite b ≡ true → f.le (f.min a b) b ≡ true
  pub le_min : (a b c : Float.F f) → f.le c a ≡ true → f.le c b ≡ true → f.le c (f.min a b) ≡ true
  pub finite_05 : f.is_finite (f.decimal (pos 5) 2) ≡ true
  pub finite_10 : f.is_finite (f.decimal (pos 1) 1) ≡ true
  pub finite_35 : f.is_finite (f.decimal (pos 35) 2) ≡ true
  pub finite_55 : f.is_finite (f.decimal (pos 55) 2) ≡ true
  pub finite_95 : f.is_finite (f.decimal (pos 95) 2) ≡ true
  pub le_05_10 : f.le (f.decimal (pos 5) 2) (f.decimal (pos 1) 1) ≡ true
  pub le_05_35 : f.le (f.decimal (pos 5) 2) (f.decimal (pos 35) 2) ≡ true
  pub le_10_55 : f.le (f.decimal (pos 1) 1) (f.decimal (pos 55) 2) ≡ true
  pub le_10_95 : f.le (f.decimal (pos 1) 1) (f.decimal (pos 95) 2) ≡ true
  pub le_55_95 : f.le (f.decimal (pos 55) 2) (f.decimal (pos 95) 2) ≡ true

module _ (f : Float) (laws : ZoneLaws f) where
  -- A finite value between two others.
  abbrev pub IsBetween : Float.F f → Float.F f → Float.F f → Type 0
  IsBetween lo hi v = (f.is_finite v ≡ true) × (f.le lo v ≡ true) × (f.le v hi ≡ true)

  clamp-IsBetween :
      (v lo hi : Float.F f)
      → f.is_finite v ≡ true
      → f.is_finite lo ≡ true
      → f.is_finite hi ≡ true
      → f.le lo hi ≡ true
      → IsBetween lo hi (clamp f v lo hi)
  clamp-IsBetween v lo hi nv nl nh o =
      if-cases (IsBetween lo hi) (f.lt v lo) (λ e. (nl, laws.order.le_refl lo nl, o))
        (λ e.
          if-cases (IsBetween lo hi) (f.lt hi v) (λ e'. (nh, o, laws.order.le_refl hi nh))
            (λ e'.
              (nv, laws.order.le_of_not_lt v lo nv nl e, laws.order.le_of_not_lt hi v nh nv e')))

  pub engage_zone :
      (v : Float.F f)
      → IsBetween (f.decimal (pos 1) 1) (f.decimal (pos 95) 2) (
          if f.is_finite v
          then clamp f v (f.decimal (pos 1) 1) (f.decimal (pos 95) 2)
          else f.decimal (pos 55) 2)
  engage_zone v =
      if-cases (IsBetween (f.decimal (pos 1) 1) (f.decimal (pos 95) 2)) (f.is_finite v)
        (λ e. clamp-IsBetween v _ _ e laws.finite_10 laws.finite_95 laws.le_10_95)
        (λ e. (laws.finite_55, laws.le_10_55, laws.le_55_95))

  pub track_zone :
      (v engage : Float.F f)
      → f.is_finite engage ≡ true
      → f.le (f.decimal (pos 1) 1) engage ≡ true
      → let track =
          if f.is_finite v
          then clamp f v (f.decimal (pos 5) 2) engage
          else f.min (f.decimal (pos 35) 2) engage in
        (f.le (f.decimal (pos 5) 2) track ≡ true) × (f.le track engage ≡ true)
  track_zone v engage n lo =
      let least = laws.le_trans _ _ _ laws.le_05_10 lo in
      if-cases (λ track. (f.le (f.decimal (pos 5) 2) track ≡ true) × (f.le track engage ≡ true))
        (f.is_finite v)
        (λ e. let (n', a, b) = clamp-IsBetween v _ _ e laws.finite_05 n least in (a, b))
        (λ e. (laws.le_min _ _ _ laws.le_05_35 least, laws.min_le _ _ laws.finite_35 n))
