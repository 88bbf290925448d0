-- ===== src/Transport.antt =====
-- crates/bridge/bridge-output/src/bridge_transport.rs: the session with the firmware over a byte
-- transport.
pub mod Firmware
pub mod State
pub mod Step
pub mod Poll
pub mod Sound
pub mod Keep
pub mod Log
pub mod Written
pub mod Open
pub mod Delivery
pub mod Silent
pub mod Calls
pub mod Session
pub mod Backend
pub mod Live
pub mod Receipt
pub mod Dropped
