-- ===== src/Steam.antt =====
-- crates/controller/steam-controller-protocol/src/lib.rs: Steam Controller 2 HID reports.
pub mod Buttons
pub mod Output
pub mod Report
pub mod Decode
