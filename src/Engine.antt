-- ===== src/Engine.antt =====
-- crates/bridge/bridge-core/src/lib.rs: the bridge engine, which decodes, maps and sends.
pub mod State
pub mod Step
pub mod Run
pub mod Invariant
pub mod Sent
pub mod Safety
pub mod Rest
pub mod Halt
pub mod Outcome
