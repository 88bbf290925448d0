-- ===== src/Examples/Engine.antt =====
-- crates/bridge/bridge-core/src/lib.rs: the theorems at the default engine and a mock backend.
use steam_controller_bridge.Common.{
  ℕ, ◌+◌, ◌≡◌, refl, arith, true, List, [], ◌∷◌, replicate, none, some, ok,
}
use steam_controller_bridge.Common.Int.{pos}
use steam_controller_bridge.Float.{Float}
use steam_controller_bridge.Float.Fixed.{fixed}
use steam_controller_bridge.Gamepad.State.{
  GamepadState, validate, validate_axis, sanitized, sanitize,
}
use steam_controller_bridge.Output.{GamepadOutput, MockOutput, mock_output, mock_send_state}
use steam_controller_bridge.Steam.Decode.{
  decode, decode_known, decode_state, symmetric_i16, le_u16, le_u32,
}
use steam_controller_bridge.Steam.Report.{report_id_mismatch}
use steam_controller_bridge.Mapper.Config.{default_config}
use steam_controller_bridge.Mapper.Map.{
  map, shape, map_unfiltered, normalize_axis, normalize_trigger, right_axis,
}
use steam_controller_bridge.Mapper.Buttons.{map_buttons, map_button, gamepad_button}
use steam_controller_bridge.Mapper.Filters.{
  apply_clamp, apply_low_pass, low_pass_state, new_low_pass, apply_saturation, saturate_signed,
  saturate_unsigned, apply_sensitivity, signed_curve, apply_trigger_dead_zone, trigger_dead_zone,
  apply_radial, radial_dead_zone, apply_inversion, finite_or_zero, bounded_dead_zone,
}
use steam_controller_bridge.Gamepad.Buttons.{set}
use steam_controller_bridge.Steam.Buttons.{steam_contains}
use steam_controller_bridge.Engine.State.{BridgeEngine, fresh_engine, default_bridge_config, state}
use steam_controller_bridge.Engine.Step.{
  Elapsed, process_report, process_state, already_sent, suppress,
}
use steam_controller_bridge.Engine.Run.{
  Call, call_report, call_tick, call_disconnected, call_connected, run,
}
use steam_controller_bridge.Engine.Invariant.{Watched, run-Watched}
use steam_controller_bridge.Engine.Sent.{logged, InStep, run-InStep}
use steam_controller_bridge.Engine.Safety.{undecodable_run}
use steam_controller_bridge.Engine.Halt.{IsHalted, undecodable_run-IsHalted}
use steam_controller_bridge.Engine.Outcome.{IsTruthful, process_report-IsTruthful}
use steam_controller_bridge.Examples.Gamepad.{mapper}

abbrev engine : BridgeEngine (Float.F fixed)
engine = fresh_engine default_bridge_config mapper

abbrev mock : GamepadOutput (Float.F fixed)
mock = mock_output fixed

abbrev empty_mock : MockOutput fixed
empty_mock = record { states = [] }

abbrev instant : Elapsed
instant = record { decoding = 10; mapping = 20; processing = 40 }

-- An input report of 46 bytes with the A button down.
abbrev pressed_a : List ℕ
pressed_a = 0x45 ∷ 1 ∷ 1 ∷ replicate 43 0

abbrev calls : List Call
calls =
    call_connected
    ∷ call_report 0x45 pressed_a 1000 instant
    ∷ call_report 0x45 (0 ∷ []) 2000 instant
    ∷ call_tick 300000000
    ∷ call_disconnected
    ∷ []

run-Watched_example : Watched (run fixed mock engine empty_mock calls).0
run-Watched_example = run-Watched fixed mock engine empty_mock calls refl

run-InStep_example :
    InStep fixed mock
      (run fixed (logged fixed mock) engine (empty_mock, []) calls).0
      (run fixed (logged fixed mock) engine (empty_mock, []) calls).1
run-InStep_example = run-InStep fixed mock engine (empty_mock, []) calls refl

-- A press, and no report for longer than the timeout.
abbrev pressed_call : List Call
pressed_call = call_report 0x45 pressed_a 1000 instant ∷ []

undecodable_run_example :
    let bad = call_report 0x45 (0 ∷ []) 2000 instant ∷ call_report 0x45 [] 3000 instant ∷ [] in
    ((run fixed mock engine empty_mock bad).1 ≡ empty_mock)
    × ((run fixed mock engine empty_mock bad).0.consecutive_decode_failures ≡ 0 + 2)
    × ((run fixed mock engine empty_mock bad).0.config ≡ default_bridge_config)
    × ((run fixed mock engine empty_mock bad).0.last_sent ≡ none)
unfolding decode
undecodable_run_example =
    undecodable_run fixed mock engine empty_mock
      (call_report 0x45 (0 ∷ []) 2000 instant ∷ call_report 0x45 [] 3000 instant ∷ [])
      ((report_id_mismatch 0x45 (some 0), refl), ((report_id_mismatch 0x45 none, refl), tt))
      (omega arith) (omega arith)

abbrev bad_call : Call
bad_call = call_report 0x45 (0 ∷ []) 2000 instant

undecodable_run-IsHalted_example :
    let (e, o) = run fixed (logged fixed mock) engine (empty_mock, []) (bad_call ∷ bad_call ∷ []) in
    IsHalted fixed mock o.1
      (process_report fixed (logged fixed mock) e o 0x45 (0 ∷ []) 2000 instant)
unfolding decode
undecodable_run-IsHalted_example =
    undecodable_run-IsHalted fixed mock engine (empty_mock, []) (bad_call ∷ bad_call ∷ []) 0x45
      (0 ∷ []) 2000 instant {x = report_id_mismatch 0x45 (some 0)}
      ((report_id_mismatch 0x45 (some 0), refl), ((report_id_mismatch 0x45 (some 0), refl), tt))
      refl (omega arith) (omega arith)

abbrev mapped_a : GamepadState (Float.F fixed)
mapped_a = (map fixed mapper (decode_state pressed_a) (fixed.decimal (pos 4) 3)).1

sent_a :
    (process_report fixed (logged fixed mock) engine (empty_mock, []) 0x45 pressed_a 1000 instant).2
    ≡ ok (state (decode_state pressed_a) mapped_a mapped_a true)
unfolding process_report process_state already_sent suppress decode decode_known mock_send_state map
    validate validate_axis apply_clamp sanitized sanitize apply_low_pass low_pass_state new_low_pass
    shape apply_saturation saturate_signed saturate_unsigned apply_sensitivity signed_curve
    apply_trigger_dead_zone trigger_dead_zone apply_radial radial_dead_zone apply_inversion
    map_unfiltered normalize_axis normalize_trigger right_axis decode_state finite_or_zero
    bounded_dead_zone symmetric_i16 le_u16 le_u32 default_config map_buttons map_button
    gamepad_button set steam_contains
sent_a = refl

process_report-IsTruthful_example :
    IsTruthful fixed mock none none
      (empty_mock, [])
      (process_report fixed (logged fixed mock) engine (empty_mock, []) 0x45 pressed_a 1000 instant)
      mapped_a
      mapped_a
      true
process_report-IsTruthful_example =
    process_report-IsTruthful fixed mock engine (empty_mock, []) 0x45 pressed_a 1000 instant
      (decode_state pressed_a) mapped_a mapped_a true sent_a
