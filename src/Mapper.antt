-- ===== src/Mapper.antt =====
-- crates/controller/controller-mapper/src/lib.rs: from decoded states to gamepad states.
pub mod Config
pub mod Filters
pub mod Buttons
pub mod Map
pub mod Laws
