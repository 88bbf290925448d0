-- ===== src/Picker.antt =====
-- crates/app/profile-picker/src: the profile wheel that a held button opens.
pub mod Types
pub mod Geometry
pub mod State
pub mod Update
pub mod Latch
pub mod Suppression
pub mod Zones
pub mod Sound
pub mod Moves
pub mod Target
pub mod Trigger
pub mod Refinement
