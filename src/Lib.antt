-- ===== src/Lib.antt =====
-- Steam Controller Bridge: a Steam Controller 2 drives a virtual gamepad. A HID report of the
-- controller is decoded (crates/controller/steam-controller-protocol), mapped to a validated
-- gamepad state (crates/controller/controller-mapper, crates/bridge/gamepad-state), and given to an
-- output backend by the bridge engine (crates/bridge/bridge-core), which sends neutral when input
-- stops, when reports do not decode, and on disconnection. The transport backend
-- (crates/bridge/bridge-output) frames the states for the bridge's firmware in the protocol of
-- crates/bridge/bridge-protocol.
--
-- Common holds the notation, the Boolean tests, the lists measured by native numbers, `Result` with
-- `?` as its bind, bytes and bit masks. A `u32`, `u64` or `u128` counter wraps by `% 2 ^ w` where the
-- source's addition could pass its width; a signed 16-bit field is read from its bit pattern.
--
-- Float: `f32` is a parameter, the record `Float` of the operations that the program calls. What a
-- theorem needs of it is `FloatLaws`, the order of the finite values, or `ZoneLaws` of Picker.Zones,
-- which adds the literals of the picker's dead zones; Float.Fixed is an instance in
-- fixed point at which the models run.
--
-- Protocol models crates/bridge/bridge-protocol/src/lib.rs. Message: `Message`, `Frame`,
-- `ProtocolError`. Encode: `crc16_ccitt_false`, `encode_message`, `Frame::encode`. Parse:
-- `parse_message`. Stream: `StreamDecoder::push` as `push`, which takes the buffer and returns the
-- results with the buffer left. Its loop runs on fuel, the length of the buffer plus one: each round
-- that goes on drops a byte at least. Wire: the two conversions of gamepad states.
--
-- Gamepad models crates/bridge/gamepad-state/src/lib.rs. Buttons: the mask `GamepadButtons`. Hat:
-- `HatState`. State: `GamepadState`, `sanitized`, `validate`, `OutputSuppression::apply`.
--
-- Steam models crates/controller/steam-controller-protocol/src/lib.rs. Buttons: `SteamButtons`.
-- Report: the decoded reports. Decode: `SteamControllerDecoder::decode` as `decode`. Output: the
-- feature and output reports that the host sends.
--
-- Mapper models crates/controller/controller-mapper/src/lib.rs. Config: `MapperConfig` and its
-- validation. Filters: the filters, the smoothing one with its history. Buttons: the table of
-- buttons and `map_hat`. Map: `ControllerMapper::map` as `map`.
--
-- Output models the trait `GamepadOutput` of crates/bridge/bridge-output/src/lib.rs as a record of
-- the methods that the engine calls, which the engine takes as a parameter, and `MockOutput` as an
-- instance of it.
--
-- Engine models crates/bridge/bridge-core/src/lib.rs. State: the fields, metrics and outcomes of
-- `BridgeEngine`. Step: its operations under their names; each takes the engine and the backend and
-- returns both with the result, and what it changed before an error stays changed. The readings of
-- the clock are arguments, times in nanoseconds. Run: sequences of calls.
--
-- Picker models crates/app/profile-picker/src, the wheel of profiles that a held button opens. Types
-- (types.rs): configuration, roster, events. Geometry (geometry.rs): pages and sectors. State and
-- Update (picker.rs): the fields of `Picker` and its operations under their names; durations are in
-- nanoseconds. Moves is the wheel as a relation between phases. A page number times the sectors of a
-- page stays below the length of the roster, so it does not reach the width of `usize`.
--
-- Mailbox models the queue between the supervisor and the desktop-input worker,
-- crates/bridge/bridge-runtime/src/desktop/mailbox.rs. Snapshot: the input snapshots and their
-- transition masks (crates/app/desktop-bindings/src/model.rs, engine.rs). State, Step and Outputs:
-- the fields and the operations, each as one step under the lock. The panic of an `unreachable!` is
-- `none`, and what is sent on an acknowledgement channel is returned. Binding profiles and channels
-- are type parameters.
--
-- Idle models `IdleActivityTracker` of crates/bridge/bridge-runtime/src/idle_shutdown.rs, which
-- decides when an idle controller is shut down.
--
-- Transport models crates/bridge/bridge-output/src/bridge_transport.rs, the session with the firmware
-- over a serial port. Firmware is its report about itself. State, Step and Poll are
-- `BridgeConnection` and its operations over a record `ByteTransport`, each answering with the
-- connection that it leaves and a result; a counter wraps at 64 bits. Session and Backend are
-- `BridgeOutput` over a record `Host`, which opens the endpoint, reads the clock and sleeps, and
-- `bridge_output` is its instance of the interface that the engine drives. The loop of `connect` has
-- fuel for a round per millisecond of the handshake timeout and two more, which is enough, as each
-- round but the last sleeps a millisecond; the end of a function that the code declares unreachable is
-- an error of the model, as is the end of the fuel. `new_target_id` and the tests of bytes are on
-- lists of bytes. Keep, Open and Sound are what the parts of `poll` keep, Log is the frames on the
-- wire, Written the frame of a state, and Live is the output between calls.
--
-- Haptics models crates/bridge/bridge-runtime/src/supervisor/controller/haptics.rs: the rumble of the
-- controller, Haptics.Pad the ticks of its pads, Haptics.Lizard the heartbeat that keeps its lizard
-- mode off, with `LizardModeHeartbeat` of crates/controller/steam-controller-device/src/lib.rs, and
-- Haptics.Status what the runtime shows. The session is a parameter. Haptics.Sync adds to it the
-- command that the controller accepted last.
--
-- Shutdown models crates/bridge/bridge-runtime/src/automatic_shutdown.rs, Shutdown.Device what it
-- asks about a device (crates/controller/steam-controller-device/src/lib.rs and
-- steam-controller-discovery/src/lib.rs), and Shutdown.Session the part of the loop in
-- crates/bridge/bridge-runtime/src/supervisor/active_session.rs, with the commands of commands.rs, that
-- decides on a power-off. The results of the neutral state and of the power-off are arguments.
--
-- Not modelled: threads, channels, HID and serial devices, the windows and menus, the storage of
-- profiles, the updater and the firmware, which are outside of these files, and the `Display` texts
-- and derived serialisation inside of them.
--
-- Examples holds the theorems at concrete inputs, and runs of the models.

pub mod Common
pub mod Float
pub mod Gamepad
pub mod Protocol
pub mod Steam
pub mod Mapper
pub mod Output
pub mod Picker
pub mod Mailbox
pub mod Idle
pub mod Haptics
pub mod Shutdown
pub mod Transport
pub mod Engine
pub mod Examples
