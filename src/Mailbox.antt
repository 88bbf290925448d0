-- ===== src/Mailbox.antt =====
-- crates/bridge/bridge-runtime/src/desktop/mailbox.rs: the queue of the desktop-input worker.
pub mod Snapshot
pub mod State
pub mod Step
pub mod Queue
pub mod Consistent
pub mod Publish
pub mod Calls
pub mod Delivery
pub mod Reserve
pub mod Outputs
