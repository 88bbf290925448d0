-- ===== src/Protocol.antt =====
-- crates/bridge/bridge-protocol/src/lib.rs: the framing of the host-to-firmware byte stream.
pub mod Message
pub mod Encode
pub mod Parse
pub mod Stream
pub mod Wire
