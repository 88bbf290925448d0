-- ===== src/Examples/Shutdown.antt =====
-- crates/bridge/bridge-runtime/src/automatic_shutdown.rs: the theorem at a concrete session.
use steam_controller_bridge.Common.{arith, refl, true, List, [], ◌∷◌, none}
use steam_controller_bridge.Common.Int.{pos}
use steam_controller_bridge.Idle.{new_tracker}
use steam_controller_bridge.Shutdown.{
  PuckDockAction, charging, new_shutdown, source_selected, observe_charge_state, begin, succeeded,
  failed, automatic_shutdown_phase, is_external_power, shutdown_retry_due,
}
use steam_controller_bridge.Shutdown.Device.{
  HidDeviceInfo, controller_transport, same_controller_collection,
}
use steam_controller_bridge.Shutdown.Session.{
  Watch, begin_session, note_battery, first_trigger, automatic_trigger, attempted, attempt,
  shutdown_round, powered_off, power_off_failed, WatchCall, call_session, call_battery, call_round,
  call, begun,
}
use steam_controller_bridge.Shutdown.Retry.{AreEarly, shutdown_round-begun_early}
use steam_controller_bridge.Shutdown.Once.{AreQuiet, HasNoDock, shutdown_round-begun}

abbrev puck_slot : HidDeviceInfo
puck_slot = record {
  id = b'a' ∷ [];
  path = b'p' ∷ [];
  vendor_id = 0x28de;
  product_id = 0x1304;
  usage_page = 0xff00;
  usage = 1;
  interface_number = pos 2;
  serial_number = none;
  manufacturer = none;
  product = none;
  transport = b'U' ∷ b'S' ∷ b'B' ∷ [];
}

-- A session with a controller in the dock, charging.
abbrev docked : Watch
docked = note_battery charging 1000 1000 (
    begin_session puck_slot (record {
      automatic_shutdown =
          new_shutdown
            (record { idle_shutdown_timeout = none; puck_dock_action = PuckDockAction.power_off });
      config = record { idle_shutdown_timeout = none; puck_dock_action = PuckDockAction.power_off };
      info = puck_slot;
      idle_activity = new_tracker none;
      latest_charge_state = none;
      last_charge_report = none;
      pending_automatic_shutdown = none;
    }))

-- The controller wakes up in the dock.
abbrev woken : List WatchCall
woken =
    call_session puck_slot
    ∷ call_battery charging 9000 100
    ∷ call_round true power_off_failed 9001 101 9002
    ∷ []

shutdown_round-begun_example :
    HasNoDock (begun woken (shutdown_round true powered_off 1001 1001 1002 docked).0)
unfolding note_battery begin_session new_shutdown source_selected observe_charge_state
    automatic_shutdown_phase controller_transport is_external_power shutdown_retry_due
    shutdown_round automatic_trigger first_trigger attempt attempted begin succeeded AreQuiet call
    same_controller_collection
shutdown_round-begun_example =
    shutdown_round-begun docked true 1001 1001 1002 woken refl (refl, (refl, (tt, tt)))

-- The power-off fails, and the next round comes within the retry interval.
abbrev resumed : List WatchCall
resumed = call_battery charging 2000 2000 ∷ call_round true powered_off 2001 2001 2002 ∷ []

shutdown_round-begun_early_example :
    HasNoDock (begun resumed (shutdown_round true power_off_failed 1001 1001 1002 docked).0)
unfolding note_battery begin_session new_shutdown source_selected observe_charge_state
    automatic_shutdown_phase controller_transport is_external_power shutdown_retry_due
    shutdown_round automatic_trigger first_trigger attempt attempted begin failed AreEarly call
shutdown_round-begun_early_example =
    shutdown_round-begun_early docked true 1001 1001 1002 resumed refl
      ((refl, omega arith), (omega arith, tt))
