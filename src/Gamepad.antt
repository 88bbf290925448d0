-- ===== src/Gamepad.antt =====
-- crates/bridge/gamepad-state/src/lib.rs: the validated gamepad state.
pub mod Buttons
pub mod Hat
pub mod State
