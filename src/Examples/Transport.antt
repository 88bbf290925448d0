-- ===== src/Examples/Transport.antt =====
-- crates/bridge/bridge-output/src/bridge_transport.rs: the theorems at a scripted firmware.
use steam_controller_bridge.Common.{
  ℕ, ◌+◌, ◌<◌, ◌≡◌, refl, arith, true, List, [], ◌∷◌, replicate, Result, ok, err, some,
}
use steam_controller_bridge.Float.{Float}
use steam_controller_bridge.Float.Fixed.{fixed, micro}
use steam_controller_bridge.Common.Int.{pos}
use steam_controller_bridge.Gamepad.Hat.{HatState}
use steam_controller_bridge.Gamepad.State.{GamepadState, validate, validate_axis}
use steam_controller_bridge.Protocol.Message.{
  Message, install_receipt_recorded, hello_response, new_frame, app_center,
}
use steam_controller_bridge.Protocol.Encode.{
  encode, encode_message, crc16_ccitt_false, crc_loop, crc_bits, crc_bit,
}
use steam_controller_bridge.Protocol.Stream.{push, decode_loop, round}
use steam_controller_bridge.Protocol.Parse.{parse_message, parse_known, parse_install_receipt}
use steam_controller_bridge.Protocol.Message.{message_type_try_from}
use steam_controller_bridge.Transport.Step.{newest}
use steam_controller_bridge.Transport.Session.{connect_loop, poll_existing}
use steam_controller_bridge.Transport.Firmware.{
  FirmwareTarget, reported, FirmwareInstallReceipt, default_info, install_receipt,
  parse_device_info, parse_firmware_target, tlv_loop, tlv_round, new_target_id, as_str,
  install_state_of,
}
use steam_controller_bridge.Transport.Firmware.Reported.{
  IsTarget, IsInstallState, parse_device_info-IsTarget,
}
use steam_controller_bridge.Transport.State.{
  IoErrorKind, would_block, is_ready, ready, BridgeTransportConfig, default_transport_config,
  ByteTransport, fresh, no_metrics, u64_add,
}
use steam_controller_bridge.Transport.Step.{
  Connection, new_connection, opened_with, write_message, write_bytes, sent, queue_state,
  flush_states,
}
use steam_controller_bridge.Transport.Poll.{poll}
use steam_controller_bridge.Transport.Sound.{IsSound, IsPollAnswer}
use steam_controller_bridge.Transport.Calls.{
  call_poll, call_queue, call, IsReached, opened, called, IsReached-IsSound, poll-IsPollAnswer,
}
use steam_controller_bridge.Transport.Log.{logged, IsLogged}
use steam_controller_bridge.Transport.Calls.Logged.{IsReached-IsLogged}
use steam_controller_bridge.Transport.Session.{Host, Output, open_output}
use steam_controller_bridge.Transport.Backend.{record_install_receipt_and_wait, send_state}
use steam_controller_bridge.Transport.Live.{HostLaws, IsSettled}
use steam_controller_bridge.Transport.Live.Backend.{IsDelivered}
use steam_controller_bridge.Transport.Live.Calls.{
  call_output, call_service, opened_output, call_output-total, send_state-IsDelivered,
}
use steam_controller_bridge.Transport.Silent.{MayBeWaiting}
use steam_controller_bridge.Transport.Silent.Polls.{polls, HasFailed, polls-HasFailed}
use steam_controller_bridge.Transport.Open.{Success}
use steam_controller_bridge.Transport.Delivery.{refreshable}
use steam_controller_bridge.Transport.Written.{IsShown, IsWritten}
use steam_controller_bridge.Transport.Dropped.{held, queue_all, HasEmptied, flush_states-HasEmptied}
use steam_controller_bridge.Transport.Receipt.{
  IsCommitted, asked, waited, record_install_receipt_and_wait-IsCommitted,
}

abbrev Answers : Type 0
Answers = List (Result IoErrorKind (List ℕ))

abbrev next_answer : Answers → Answers × Result IoErrorKind (List ℕ)
next_answer [] = ([], err would_block)
next_answer (answer ∷ answers) = (answers, answer)

-- A firmware that sends what the script says, and accepts every frame.
abbrev scripted : ByteTransport
scripted = record { T = Answers; write_all = λ t bytes. (t, ok tt); read = next_answer }

-- The hello response of version 1 as a frame.
abbrev greeting : List ℕ
greeting = 83 ∷ 67 ∷ 1 ∷ 2 ∷ 1 ∷ 0 ∷ 0 ∷ 0 ∷ 1 ∷ 229 ∷ 142 ∷ []

greeting_bytes : encode (new_frame 0 (hello_response 1)) ≡ ok greeting
unfolding encode encode_message crc16_ccitt_false crc_loop crc_bits crc_bit
greeting_bytes = refl

abbrev press : GamepadState (Float.F fixed)
press = record {
  buttons = 1;
  hat = HatState.centered;
  left_x = micro (pos 0);
  left_y = micro (pos 0);
  right_x = micro (pos 0);
  right_y = micro (pos 0);
  left_trigger = micro (pos 0);
  right_trigger = micro (pos 0);
}

press_valid : validate fixed press ≡ ok tt
unfolding validate validate_axis
press_valid = refl

abbrev config : BridgeTransportConfig
config = default_transport_config

-- The connection after the hello.
abbrev said_hello : (tr : ByteTransport) → ByteTransport.T tr → Connection fixed tr
said_hello tr transport = record (fresh transport config 0) {
  sequence = 1;
  metrics = record no_metrics { packets_sent = 1 };
}

abbrev answers : Answers
answers = ok greeting ∷ []

greeted : new_connection fixed scripted answers config 0 ≡ ok (said_hello scripted answers)
unfolding new_connection opened_with write_message write_bytes sent encode encode_message fresh
    crc16_ccitt_false crc_loop crc_bits crc_bit u64_add
greeted = refl

abbrev session :
    {c : Connection fixed scripted}
    → IsReached fixed scripted answers c
    → IsReached fixed scripted answers (
        call fixed scripted
          (call fixed scripted (call fixed scripted c (call_poll 1000)) (call_queue press))
          (call_poll 2000))
session r = called (call_poll 2000) (called (call_queue press) (called (call_poll 1000) r))

abbrev reached : IsReached fixed scripted answers (
    call fixed scripted
      (call fixed scripted
        (call fixed scripted (said_hello scripted answers) (call_poll 1000))
        (call_queue press))
      (call_poll 2000))
reached = session (opened config 0 greeted)

IsReached-IsSound_example : IsSound fixed scripted (
    call fixed scripted
      (call fixed scripted
        (call fixed scripted (said_hello scripted answers) (call_poll 1000))
        (call_queue press))
      (call_poll 2000))
IsReached-IsSound_example = IsReached-IsSound fixed scripted answers _ reached

poll-IsPollAnswer_example :
    IsPollAnswer fixed scripted (poll fixed scripted (said_hello scripted answers) 1000).1
poll-IsPollAnswer_example =
    poll-IsPollAnswer fixed scripted answers (said_hello scripted answers) 1000
      (opened config 0 greeted)

abbrev hello_frame : List ℕ
hello_frame = 83 ∷ 67 ∷ 1 ∷ 1 ∷ 2 ∷ 0 ∷ 0 ∷ 0 ∷ 1 ∷ 1 ∷ 5 ∷ 147 ∷ []

greeted_logged :
    new_connection fixed (logged scripted) (answers, []) config 0
    ≡ ok (said_hello (logged scripted) (answers, hello_frame ∷ []))
unfolding new_connection opened_with write_message write_bytes sent encode encode_message fresh
    crc16_ccitt_false crc_loop crc_bits crc_bit u64_add
greeted_logged = refl

IsReached-IsLogged_example : IsLogged fixed scripted (
    call fixed
      (logged scripted)
      (call fixed
        (logged scripted)
        (call fixed
          (logged scripted)
          (said_hello (logged scripted) (answers, hello_frame ∷ []))
          (call_poll 1000))
        (call_queue press))
      (call_poll 2000))
IsReached-IsLogged_example = IsReached-IsLogged fixed scripted answers _ (
    called (call_poll 2000)
      (called (call_queue press) (called (call_poll 1000) (opened config 0 greeted_logged))))

-- A host whose clock stands still but for the sleeps, and whose endpoint greets.
abbrev machine : Host scripted
machine = record {
  W = ℕ;
  open_endpoint = λ w. (w, ok answers);
  now = λ w. (w, w);
  sleep = λ w. w + 1000000;
}

abbrev machine_laws : HostLaws scripted machine
machine_laws = record {
  time = λ w. w;
  now_at = λ w. (omega arith, omega arith);
  slept = λ w. omega arith;
}

abbrev output : Output fixed scripted machine
output = (open_output fixed scripted machine 0 config).0

call_output-total_example :
    IsSettled fixed scripted machine (call_output fixed scripted machine output call_service)
call_output-total_example =
    call_output-total fixed scripted machine machine_laws output call_service
      (opened_output 0 config)

-- The same machine, whose endpoint keeps the frames.
abbrev recorder : Host (logged scripted)
recorder = record {
  W = ℕ;
  open_endpoint = λ w. (w, ok (answers, []));
  now = λ w. (w, w);
  sleep = λ w. w + 1000000;
}

abbrev recorder_laws : HostLaws (logged scripted) recorder
recorder_laws = record {
  time = λ w. w;
  now_at = λ w. (omega arith, omega arith);
  slept = λ w. omega arith;
}

abbrev recorded_output : Output fixed (logged scripted) recorder
recorded_output = (open_output fixed (logged scripted) recorder 0 config).0

send_state-IsDelivered_example :
    IsDelivered fixed
      (logged scripted)
      recorder
      (IsShown fixed scripted)
      press
      (send_state fixed (logged scripted) recorder recorded_output press)
send_state-IsDelivered_example =
    send_state-IsDelivered fixed scripted recorder recorder_laws recorded_output press
      (opened_output 0 config) press_valid

abbrev receipt : FirmwareInstallReceipt
receipt = record { installed_at = 1; install_id = replicate 16 7; source = app_center }

-- A ready connection, one second after its last ping.
abbrev ready_on : (tr : ByteTransport) → ByteTransport.T tr → Connection fixed tr
ready_on tr transport = record (said_hello tr transport) { status = ready; ready_at = some 0 }

-- The bytes of the frame of a message.
abbrev framed : Message → List ℕ
framed m = elim (encode (new_frame 0 m)) [ ok bytes ↦ bytes | err e ↦ [] ]

-- A ready connection with a firmware that keeps receipts, and commits this one.
abbrev committing : Output fixed scripted machine
committing = record output {
  connection =
      some (record (ready_on scripted (ok (framed (install_receipt_recorded 9 receipt)) ∷ [])) {
        firmware = record default_info { capabilities = install_receipt };
      });
}

committed :
    (record_install_receipt_and_wait fixed scripted machine committing 9 receipt 2000000).1
    ≡ ok receipt
unfolding record_install_receipt_and_wait encode encode_message poll_existing poll fresh push
    decode_loop round crc16_ccitt_false parse_message message_type_try_from parse_known
    parse_install_receipt open_output new_connection newest
committed = refl

record_install_receipt_and_wait-IsCommitted_example :
    IsCommitted fixed scripted machine 9 receipt
      (waited fixed scripted machine
        (asked fixed scripted machine committing 9 receipt).0
        9
        2000000)
      (record_install_receipt_and_wait fixed scripted machine committing 9 receipt 2000000).0
      receipt
record_install_receipt_and_wait-IsCommitted_example =
    record_install_receipt_and_wait-IsCommitted fixed scripted machine committing 9 2000000 receipt
      receipt committed

abbrev mute : ByteTransport
mute = record { T = ℕ; write_all = λ t bytes. (t + 1, ok tt); read = λ t. (t, err would_block) }

silent : MayBeWaiting fixed mute config 1000000000 (ready_on mute 0)
unfolding fresh
silent = (refl, refl, tt, omega arith)

polls-HasFailed_example :
    HasFailed fixed mute
      (polls fixed mute (ready_on mute 0) (1000000000 ∷ 1500000000 ∷ 3000000000 ∷ []))
polls-HasFailed_example =
    polls-HasFailed fixed mute (λ t. refl) config (ready_on mute 0) 1000000000 3000000000
      (1500000000 ∷ []) silent (omega arith)

abbrev quiet : Connection fixed (logged mute)
quiet = ready_on (logged mute) (0, [])

is_ready_now : is_ready quiet.status ≡ true
is_ready_now = refl

has_room : 0 < quiet.config.queue_capacity
unfolding fresh
has_room = omega arith

flush_states-HasEmptied_example :
    Success fixed
      (logged mute)
      (λ c.
        (HasEmptied fixed (logged mute) (u64_add (held fixed (logged mute) quiet) 2) c
          × (c.last_state ≡ refreshable fixed (logged mute) press))
        × IsWritten fixed press quiet.sequence [] c.transport.1)
      (flush_states fixed
        (logged mute)
        (queue_state fixed (logged mute) (queue_all fixed (logged mute) quiet (press ∷ [])) press).0
        7)
unfolding fresh
flush_states-HasEmptied_example =
    flush_states-HasEmptied fixed mute quiet (press ∷ []) press 7 is_ready_now has_room
      (press_valid, tt) press_valid

-- A report of the revision 3 with a receipt pending and the target `a`.
abbrev report : List ℕ
report = 1 ∷ 3 ∷ 0 ∷ 1 ∷ 0 ∷ 0 ∷ 0 ∷ 1 ∷ 1 ∷ 1 ∷ 97 ∷ []

abbrev as_str_of : FirmwareTarget → List ℕ
as_str_of (reported id) = as_str id
as_str_of _ = []

reported_target : as_str_of (parse_device_info report).target ≡ 97 ∷ []
unfolding parse_device_info parse_firmware_target tlv_loop tlv_round new_target_id as_str
    install_state_of
reported_target = refl

parse_device_info-IsTarget_example :
    IsTarget (parse_device_info report).target
    × IsInstallState (parse_device_info report).install_state
parse_device_info-IsTarget_example = parse_device_info-IsTarget report

-- The machine connects.
connected : output.connected_once ≡ true
unfolding open_output new_connection write_message encode encode_message poll push decode_loop round
    crc16_ccitt_false parse_message message_type_try_from parse_known newest connect_loop
connected = refl
