-- ===== src/Mapper/Config.antt =====
-- crates/controller/controller-mapper/src/lib.rs: `MapperConfig` and its validation.
use steam_controller_bridge.Common.{
  ℕ, Bool, true, false, not, ◌&&◌, ◌||◌, ◌==◌, if◌then◌else◌, Option, none, some, Result, ok, err,
  ◌>>◌,
}
use steam_controller_bridge.Common.Int.{pos}
use steam_controller_bridge.Float.{Float, zero_f, one_f}

pub data RightAxisSource : Type 0 where
  right_pad right_stick : RightAxisSource

pub record AxisInversionFilter : Type 0 where
  pub left_x : Bool
  pub left_y : Bool
  pub right_x : Bool
  pub right_y : Bool

-- `AxisInversionFilter::NONE`
abbrev pub no_inversion : AxisInversionFilter
no_inversion = record { left_x = false; left_y = false; right_x = false; right_y = false }

pub record MapperConfig (F : Type 0) : Type 0 where
  pub left_stick_dead_zone : F
  pub right_axis_dead_zone : F
  pub trigger_dead_zone : F
  pub stick_sensitivity : F
  pub stick_saturation : F
  pub trigger_saturation : F
  pub axis_inversion : AxisInversionFilter
  pub smoothing_time_constant : Option F
  pub trigger_full_scale : ℕ  -- u16
  pub right_axis_source : RightAxisSource

-- The field that an error names.
pub data MapperField : Type 0 where
  left_stick_dead_zone right_axis_dead_zone trigger_dead_zone stick_sensitivity : MapperField
  stick_saturation trigger_saturation smoothing_time_constant trigger_full_scale : MapperField

pub data MappingError : Type 0 where
  invalid_config : MapperField → MappingError

module _ (f : Float) where
  unfoldable pub default_config : MapperConfig (Float.F f)
  default_config = record {
    left_stick_dead_zone = f.decimal (pos 8) 2;
    right_axis_dead_zone = f.decimal (pos 8) 2;
    trigger_dead_zone = f.decimal (pos 2) 2;
    stick_sensitivity = one_f f;
    stick_saturation = one_f f;
    trigger_saturation = one_f f;
    axis_inversion = no_inversion;
    smoothing_time_constant = none;
    trigger_full_scale = 0x8000;
    right_axis_source = right_stick;
  }

  unfoldable pub normalized : MapperField → Float.F f → Bool → Result MappingError (Unit {0})
  normalized name value nonzero =
      let lower_valid = if nonzero then f.lt (zero_f f) value else f.le (zero_f f) value in
      if f.is_finite value && (lower_valid && f.le value (one_f f))
      then ok tt
      else err (invalid_config name)

  unfoldable pub sensitivity_check : Float.F f → Result MappingError (Unit {0})
  sensitivity_check value =
      if not (f.is_finite value) || f.le value (zero_f f)
      then err (invalid_config stick_sensitivity)
      else ok tt

  unfoldable pub smoothing_check : Option (Float.F f) → Result MappingError (Unit {0})
  smoothing_check none = ok tt
  smoothing_check (some value) =
      if not (f.is_finite value) || f.le value (zero_f f)
      then err (invalid_config smoothing_time_constant)
      else ok tt

  -- `MapperConfig::validate`
  unfoldable pub validate_config : MapperConfig (Float.F f) → Result MappingError (Unit {0})
  validate_config c = do
    normalized left_stick_dead_zone c.left_stick_dead_zone false
    normalized right_axis_dead_zone c.right_axis_dead_zone false
    normalized trigger_dead_zone c.trigger_dead_zone false
    normalized stick_saturation c.stick_saturation true
    normalized trigger_saturation c.trigger_saturation true
    sensitivity_check c.stick_sensitivity
    smoothing_check c.smoothing_time_constant
    if c.trigger_full_scale == 0 then err (invalid_config trigger_full_scale) else ok tt
