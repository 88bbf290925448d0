-- ===== src/Haptics/Lizard.antt =====
-- crates/bridge/bridge-runtime/src/supervisor/controller/haptics.rs and
-- crates/controller/steam-controller-device/src/lib.rs: the controller's own mouse and keyboard, its
-- lizard mode, is kept off by a heartbeat. Times are nanoseconds.
use steam_controller_bridge.Common.{
  ℕ, ◌-◌, Bool, true, false, ◌&&◌, if◌then◌else◌, leb, Result, ok, err, Option, none, some,
}
use steam_controller_bridge.Haptics.{fetch_add, millis_mark}
use steam_controller_bridge.Haptics.Status.{age_of}

-- Three seconds.
abbrev pub lizard_mode_refresh_interval : ℕ
lizard_mode_refresh_interval = 3000000000

pub record LizardModeHeartbeat : Type 0 where
  pub connected : Bool
  pub last_refresh : Option ℕ

unfoldable pub heartbeat_connected : LizardModeHeartbeat → LizardModeHeartbeat
heartbeat_connected h = record h { connected = true; last_refresh = none }

unfoldable pub heartbeat_disconnected : LizardModeHeartbeat → LizardModeHeartbeat
heartbeat_disconnected h = record h { connected = false; last_refresh = none }

-- `is_none_or(|last| now.saturating_sub(last) >= interval)`
abbrev pub is_stale : Option ℕ → ℕ → Bool
is_stale none now = true
is_stale (some last) now = leb lizard_mode_refresh_interval (now - last)

unfoldable pub refresh_due : LizardModeHeartbeat → ℕ → Bool
refresh_due h now = h.connected && is_stale h.last_refresh now

unfoldable pub refreshed : LizardModeHeartbeat → ℕ → LizardModeHeartbeat
refreshed h now = record h { last_refresh = some now }

pub data LizardMode : Type 0 where
  suppress leave : LizardMode

pub record LizardMetrics : Type 0 where
  pub active : Bool
  pub refreshes : ℕ
  pub failures : ℕ
  pub last_refresh_millis : ℕ

unfoldable pub lizard_success : LizardMetrics → ℕ → LizardMetrics
lizard_success m now = record m {
  active = true;
  refreshes = fetch_add m.refreshes 1;
  last_refresh_millis = millis_mark now;
}

unfoldable pub lizard_failure : LizardMetrics → LizardMetrics
lizard_failure m = record m { active = false; failures = fetch_add m.failures 1 }

unfoldable pub lizard_disconnected : LizardMetrics → LizardMetrics
lizard_disconnected m = record m { active = false; last_refresh_millis = 0 }

pub record LizardStatus : Type 0 where
  pub suppressed : Bool
  pub refreshes : ℕ
  pub failures : ℕ
  pub last_refresh_age : Option ℕ

unfoldable pub lizard_snapshot : LizardMetrics → ℕ → LizardStatus
lizard_snapshot m now = record {
  suppressed = m.active;
  refreshes = m.refreshes;
  failures = m.failures;
  last_refresh_age = age_of m.last_refresh_millis now;
}

pub record LizardSupervisor : Type 0 where
  pub mode : LizardMode
  pub heartbeat : LizardModeHeartbeat
  pub metrics : LizardMetrics

abbrev pub new_lizard : LizardMode → LizardMetrics → LizardSupervisor
new_lizard mode metrics = record {
  mode = mode;
  heartbeat = record { connected = false; last_refresh = none };
  metrics = metrics;
}

abbrev pub is_suppressing : LizardMode → Bool
is_suppressing suppress = true
is_suppressing leave = false

-- The session, with `suppress_lizard_mode`.
pub record LizardSession (E : Type 0) : Type 1 where
  pub Session : Type 0
  pub suppress_lizard_mode : Session → Session × Result E (Unit {0})

module _ (E : Type 0) (device : LizardSession E) where
  abbrev pub Lizard : Type 0
  Lizard = LizardSupervisor × LizardSession.Session device

  unfoldable pub suppressed_by :
      LizardSupervisor
      → ℕ
      → LizardSession.Session device × Result E (Unit {0})
      → Lizard × Result E (Unit {0})
  unfolding lizard_failure lizard_success refreshed
  suppressed_by l now (session, err e) =
      ((record l { metrics = lizard_failure l.metrics }, session), err e)
  suppressed_by l now (session, ok _) = (
    (
      record l { heartbeat = refreshed l.heartbeat now; metrics = lizard_success l.metrics now },
      session,
    ),
    ok tt,
  )

  unfoldable pub refresh_lizard : Lizard → ℕ → Lizard × Result E (Unit {0})
  unfolding suppressed_by
  refresh_lizard (l, session) now = suppressed_by l now (device.suppress_lizard_mode session)

  unfoldable pub connect_lizard : Lizard → ℕ → Lizard × Result E (Unit {0})
  unfolding refresh_lizard heartbeat_connected
  connect_lizard (l, session) now =
      let l' = record l { heartbeat = heartbeat_connected l.heartbeat } in
      if is_suppressing l'.mode then refresh_lizard (l', session) now else ((l', session), ok tt)

  unfoldable pub service_lizard : Lizard → ℕ → Lizard × Result E (Unit {0})
  unfolding refresh_lizard refresh_due
  service_lizard (l, session) now =
      if is_suppressing l.mode && refresh_due l.heartbeat now
      then refresh_lizard (l, session) now
      else ((l, session), ok tt)

  unfoldable pub disconnect_lizard : Lizard → Lizard
  unfolding heartbeat_disconnected lizard_disconnected
  disconnect_lizard (l, session) = (
    record l {
      heartbeat = heartbeat_disconnected l.heartbeat;
      metrics = lizard_disconnected l.metrics;
    },
    session,
  )
