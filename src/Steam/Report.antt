-- ===== src/Steam/Report.antt =====
-- crates/controller/steam-controller-protocol/src/lib.rs: decoded states and reports.
use steam_controller_bridge.Common.{ℕ, Bool, List, Option}
use steam_controller_bridge.Common.Int.{ℤ}
use steam_controller_bridge.Steam.Buttons.{SteamButtons}

pub record GyroState : Type 0 where
  pub x : ℤ  -- i16
  pub y : ℤ  -- i16
  pub z : ℤ  -- i16

pub record AccelerationState : Type 0 where
  pub x : ℤ  -- i16
  pub y : ℤ  -- i16
  pub z : ℤ  -- i16

pub record SteamControllerState : Type 0 where
  pub report_id : ℕ  -- u8
  pub sequence : ℕ  -- u8
  pub buttons : SteamButtons
  pub left_trigger : ℕ  -- u16
  pub right_trigger : ℕ  -- u16
  pub left_stick_x : ℤ  -- i16, as the other axes
  pub left_stick_y : ℤ
  pub right_stick_x : ℤ
  pub right_stick_y : ℤ
  pub left_pad_x : ℤ
  pub left_pad_y : ℤ
  pub left_pad_pressure : ℤ
  pub left_pad_touched : Bool
  pub left_pad_pressed : Bool
  pub right_pad_x : ℤ
  pub right_pad_y : ℤ
  pub right_pad_pressure : ℤ
  pub right_pad_touched : Bool
  pub right_pad_pressed : Bool
  pub left_grip_touched : Bool
  pub right_grip_touched : Bool
  pub imu_timestamp : ℕ  -- u32
  pub gyro : Option GyroState
  pub acceleration : Option AccelerationState
  pub raw_report : List ℕ

pub data ConnectionState : Type 0 where
  disconnected connected : ConnectionState
  unknown_connection : ℕ → ConnectionState

pub record BatteryStatus : Type 0 where
  pub charge_state : ℕ  -- u8
  pub percent : ℕ  -- u8

pub record LizardMouseReport : Type 0 where
  pub buttons : ℕ  -- u8
  pub x : ℤ  -- i8
  pub y : ℤ  -- i8
  pub vertical_wheel : ℤ  -- i8
  pub horizontal_wheel : ℤ  -- i8
  pub raw_report : List ℕ

pub data DecodedReport : Type 0 where
  controller_state : SteamControllerState → DecodedReport
  lizard_mouse : LizardMouseReport → DecodedReport
  lizard_keyboard : (raw_report : List ℕ) → DecodedReport
  connection : ConnectionState → DecodedReport
  battery : BatteryStatus → (raw_report : List ℕ) → DecodedReport
  auxiliary_status : (raw_report : List ℕ) → DecodedReport
  periodic_status : (signal_strength_dbm : ℤ) → (raw_report : List ℕ) → DecodedReport

pub data DecodeError : Type 0 where
  unknown_report_id : ℕ → DecodeError
  report_id_mismatch : (metadata : ℕ) → (first : Option ℕ) → DecodeError
  invalid_report_size : (report_id expected actual : ℕ) → DecodeError
