-- ===== src/Examples.antt =====
-- The theorems at concrete inputs, and runs of the models.
mod Protocol
mod Gamepad
mod Steam
mod Engine
mod Picker
mod Mailbox
mod Idle
mod Haptics
mod Shutdown
mod Transport
