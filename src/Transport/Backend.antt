-- ===== src/Transport/Backend.antt =====
-- crates/bridge/bridge-output/src/bridge_transport.rs: `GamepadOutput` for `BridgeOutput`, and its
-- requests to the firmware.
use steam_controller_bridge.Common.{
  ℕ, zero, suc, ◌+◌, ◌-◌, ◌/◌, Bool, true, not, if◌then◌else◌, leb, ◌==◌, Result, ok, err, Option,
  none, some,
}
use steam_controller_bridge.Float.{Float}
use steam_controller_bridge.Gamepad.State.{GamepadState, InvalidState, neutral, validate}
use steam_controller_bridge.Output.{GamepadOutput}
use steam_controller_bridge.Transport.Firmware.{FirmwareInfo, FirmwareInstallReceipt, recorded}
use steam_controller_bridge.Transport.State.{
  BridgeTransportError, not_ready, request_mismatch, ControlStage, control_timed_out, awaiting_info,
  awaiting_bootloader, awaiting_receipt, transport_service_min_interval, OutputFeedback,
  ByteTransport,
}
use steam_controller_bridge.Transport.Step.{
  Connection, Outcome, queue_state, send_neutral_now, take_feedback, request_uf2_bootloader,
  record_receipt, take_uf2_bootloader_ready, take_receipt_recorded, take_control_error,
  validate_receipt_response, is_pending,
}
use steam_controller_bridge.Transport.Session.{
  handshake_poll_interval, Host, Failure, failed, refused, no_fuel, unreachable, Output, Answer,
  and_next, answered, connect, poll_existing, poll_output,
}

-- `last_poll.is_none_or(..)`
unfoldable pub transport_service_due : ℕ → Option ℕ → Bool
transport_service_due now none = true
transport_service_due now (some last_poll) = leb transport_service_min_interval (now - last_poll)

module _ (f : Float) (tr : ByteTransport) (host : Host tr) where
  abbrev O : Type 0
  O = Output f tr host

  abbrev Done : Type 0
  Done = Answer f tr host (Unit {0})

  -- An operation on the current connection.
  abbrev pub update : O → Outcome f tr → Done
  update o (c, answer) = (record o { connection = some c }, answered f tr host answer)

  -- `self.connection.as_mut().ok_or(NotReady)?`
  abbrev pub on_connection : O → (Connection f tr → Outcome f tr) → Option (Connection f tr) → Done
  on_connection o operation none = (o, err (failed not_ready))
  on_connection o operation (some c) = update o (operation c)

  -- The attempt ends with a success, and with an error if none is left; else the next one follows.
  abbrev pub or_else : Done → ℕ → (O → Done) → Done
  or_else (o, ok _) left again = (o, ok tt)
  or_else (o, err e) zero again = (o, err e)
  or_else (o, err e) (suc left) again = again o

  -- Queue and poll; an error of the queue ends the attempts.
  unfoldable pub send_queued : Done → ℕ → (O → Done) → Done
  unfolding poll_output
  send_queued (o, err e) left again = (o, err e)
  send_queued (o, ok _) left again = or_else (poll_output f tr host o) left again

  -- One attempt of `send_state`. A connection that it opens has queued the state already.
  unfoldable pub send_attempt :
      O → GamepadState (Float.F f) → Option (Connection f tr) → ℕ → (O → Done) → Done
  unfolding send_queued
  send_attempt o state none left again =
      or_else (and_next f tr host (connect f tr host o) (poll_output f tr host)) left again
  send_attempt o state (some c) left again =
      send_queued (update o (queue_state f tr c state)) left again

  unfoldable pub send_attempts : ℕ → O → GamepadState (Float.F f) → Done
  unfolding send_attempt
  send_attempts zero o state = (o, err unreachable)
  send_attempts (suc left) o state =
      send_attempt o state o.connection left (λ o. send_attempts left o state)

  unfoldable pub send_checked : O → GamepadState (Float.F f) → Result InvalidState (Unit {0}) → Done
  unfolding send_attempts
  send_checked o state (err e) = (o, err (refused e))
  send_checked o state (ok _) = send_attempts 2 (record o { desired_state = some state }) state

  unfoldable pub send_state : O → GamepadState (Float.F f) → Done
  unfolding send_checked
  send_state o state = send_checked o state (validate f state)

  abbrev pub forget : Done → Done
  forget (o, ok _) = (record o { desired_state = none }, ok tt)
  forget (o, err e) = (o, err e)

  unfoldable pub send_neutral : O → Done
  unfolding send_neutral_now
  send_neutral o = forget (
      on_connection (record o { desired_state = some (neutral f) }) (send_neutral_now f tr)
        o.connection)

  unfoldable pub service_attempts : ℕ → O → Done
  service_attempts zero o = (o, err unreachable)
  service_attempts (suc left) o = or_else (poll_output f tr host o) left (service_attempts left)

  unfoldable pub service : O → Done
  unfolding service_attempts transport_service_due
  service o =
      let (w, at) = host.now o.host in
      if not (transport_service_due (at - o.clock) o.last_poll)
      then (record o { host = w }, ok tt)
      else service_attempts 2 (record o { host = w })

  -- The backend that the bridge engine drives.
  abbrev pub bridge_output : GamepadOutput (Float.F f)
  bridge_output = record {
    O = O;
    Error = Failure;
    send_state = send_state;
    send_neutral = send_neutral;
    service = service;
  }

  unfoldable pub take_output_feedback : O → O × Option OutputFeedback
  unfolding take_feedback
  take_output_feedback o = elim o.connection [
    | none ↦ (o, none)
    | some c ↦
        let (c', feedback) = take_feedback f tr c in (record o { connection = some c' }, feedback)
  ]

  unfoldable pub request_firmware_install_receipt : O → ℕ → FirmwareInstallReceipt → Done
  unfolding record_receipt
  request_firmware_install_receipt o request_id receipt =
      on_connection o (λ c. record_receipt f tr c request_id receipt) o.connection

  abbrev pub Taken : Type 0 → Type 0
  Taken A = Connection f tr × Option (Result Failure A)

  -- `connection.take_control_error(request_id).map(Err)`
  abbrev pub or_control_error : {A : Type 0} → Connection f tr × Option A → ℕ → Taken A
  or_control_error (c, some a) expected = (c, some (ok a))
  or_control_error (c, none) expected =
      let (c', failure) = take_control_error f tr c expected in
      elim failure [ none ↦ (c', none) | some e ↦ (c', some (err (failed e))) ]

  unfoldable pub record_receipt_in : Connection f tr → FirmwareInstallReceipt → Connection f tr
  record_receipt_in c receipt = record c {
    firmware = record c.firmware { install_state = recorded receipt };
  }

  -- The validated receipt is the connection's installation state from then on.
  unfoldable pub accept_receipt :
      Connection f tr
      → Result BridgeTransportError FirmwareInstallReceipt
      → Taken FirmwareInstallReceipt
  unfolding record_receipt_in
  accept_receipt c (ok receipt) = (record_receipt_in c receipt, some (ok receipt))
  accept_receipt c (err e) = (c, some (err (failed e)))

  abbrev pub check_receipt :
      Taken (ℕ × FirmwareInstallReceipt) → ℕ → FirmwareInstallReceipt → Taken FirmwareInstallReceipt
  check_receipt (c, none) request_id receipt = (c, none)
  check_receipt (c, some (err e)) request_id receipt = (c, some (err e))
  check_receipt (c, some (ok (actual, committed))) request_id receipt =
      accept_receipt c (validate_receipt_response request_id receipt actual committed)

  unfoldable pub poll_firmware_install_receipt :
      O → ℕ → FirmwareInstallReceipt → O × Option (Result Failure FirmwareInstallReceipt)
  unfolding take_receipt_recorded take_control_error accept_receipt validate_receipt_response
  poll_firmware_install_receipt o request_id receipt = elim o.connection [
    | none ↦ (o, none)
    | some c ↦
        let (c', answer) =
          check_receipt (or_control_error (take_receipt_recorded f tr c) request_id) request_id
            receipt in
        (record o { connection = some c' }, answer)
  ]

  -- The loop of `wait_for_control_response` on fuel.
  unfoldable pub wait_loop :
      {A : Type 0} → ℕ → O → ℕ → ControlStage → (Connection f tr → Taken A) → Answer f tr host A
  wait_loop zero o deadline stage take_response = (o, err no_fuel)
  wait_loop (suc fuel) o deadline stage take_response =
      and_next f tr host (poll_existing f tr host o) (λ o.
        let wait = λ (o : O).
          let (w, at) = host.now o.host in
          let later =
            wait_loop fuel (record o { host = host.sleep w }) deadline stage take_response in
          if leb deadline at
          then (record o { host = w }, err (failed (control_timed_out stage)))
          else later in
        elim o.connection [
          | none ↦ wait o
          | some c ↦
              let (c', response) = take_response c in
              let o' = record o { connection = some c' } in
              elim response [ none ↦ wait o' | some answer ↦ (o', answer) ]
        ])

  unfoldable pub wait_for_control_response :
      {A : Type 0} → O → ℕ → ControlStage → (Connection f tr → Taken A) → Answer f tr host A
  unfolding wait_loop
  wait_for_control_response o timeout stage take_response =
      let (w, at) = host.now o.host in
      wait_loop (2 + timeout / handshake_poll_interval) (record o { host = w }) (at + timeout) stage
        take_response

  unfoldable pub wait_for_firmware_info : O → ℕ → Answer f tr host FirmwareInfo
  unfolding wait_for_control_response
  wait_for_firmware_info o timeout =
      wait_for_control_response o timeout awaiting_info
        (λ c. (c, if not (is_pending c.firmware.version) then some (ok c.firmware) else none))

  -- The answer carries the identifier of the request.
  abbrev pub finish_bootloader : ℕ → Answer f tr host ℕ → Done
  finish_bootloader request_id (o, err e) = (o, err e)
  finish_bootloader request_id (o, ok actual) =
      if not (actual == request_id)
      then (o, err (failed (request_mismatch request_id actual)))
      else (record o { bootloader_transition = true }, ok tt)

  unfoldable pub enter_uf2_bootloader : O → ℕ → ℕ → Done
  unfolding wait_for_control_response request_uf2_bootloader take_uf2_bootloader_ready
      take_control_error
  enter_uf2_bootloader o request_id timeout =
      and_next f tr host
        (on_connection o (λ c. request_uf2_bootloader f tr c request_id) o.connection)
        (λ o. finish_bootloader request_id (
          wait_for_control_response o timeout awaiting_bootloader
            (λ c. or_control_error (take_uf2_bootloader_ready f tr c) request_id)))

  -- `if let Some(connection) = self.connection.as_mut() { .. }`
  abbrev pub note_receipt_in : O → FirmwareInstallReceipt → Option (Connection f tr) → O
  note_receipt_in o receipt none = o
  note_receipt_in o receipt (some c) = record o { connection = some (record_receipt_in c receipt) }

  abbrev pub note_receipt : O → FirmwareInstallReceipt → O
  note_receipt o receipt = note_receipt_in o receipt o.connection

  abbrev pub finish_receipt :
      ℕ
      → FirmwareInstallReceipt
      → Answer f tr host (ℕ × FirmwareInstallReceipt)
      → Answer f tr host FirmwareInstallReceipt
  finish_receipt request_id receipt (o, err e) = (o, err e)
  finish_receipt request_id receipt (o, ok (actual, committed)) =
      elim (validate_receipt_response request_id receipt actual committed) [
        | err e ↦ (o, err (failed e))
        | ok r ↦ (note_receipt o r, ok r)
      ]

  unfoldable pub record_install_receipt_and_wait :
      O → ℕ → FirmwareInstallReceipt → ℕ → Answer f tr host FirmwareInstallReceipt
  unfolding wait_for_control_response record_receipt take_receipt_recorded take_control_error
      validate_receipt_response
  record_install_receipt_and_wait o request_id receipt timeout =
      and_next f tr host
        (on_connection o (λ c. record_receipt f tr c request_id receipt) o.connection)
        (λ o. finish_receipt request_id receipt (
          wait_for_control_response o timeout awaiting_receipt
            (λ c. or_control_error (take_receipt_recorded f tr c) request_id)))

  -- `Drop`: neutral is sent unless the firmware leaves for its bootloader or nothing is desired.
  unfoldable pub drop_output : O → O
  unfolding send_neutral_now
  drop_output o = elim o.connection [
    | none ↦ o
    | some c ↦ elim o.desired_state [
      | none ↦ o
      | some state ↦
          if not o.bootloader_transition
          then record o { connection = some ((send_neutral_now f tr c).0) }
          else o
    ]
  ]
