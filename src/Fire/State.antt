-- ===== src/Fire/State.antt =====
-- include/event/FireAlarmEvent.hpp and the alarm state of include/event/FirePersistence.hpp.
use pi_server.Base.{ℕ, ◌-◌, ◌^◌, Bool, true, false, Option, Bytes}
use pi_server.Sensor.Sequence.{ProtocolVersion}

pub data Lifecycle : Type 0 where
  opened_alarm acknowledged resolved : Lifecycle

pub record Signal : Type 0 where
  pub signal_sensor : Bytes
  pub detected : Bool
  pub occurred_at : ℕ
  pub source_sequence : Option ℕ
  pub source_protocol_version : ProtocolVersion
  pub source_boot_id : Option Bytes
  pub source_transport : Bytes
  pub raw_payload : Bytes

-- `kMaxFireRevision`.
abbrev pub max_fire_revision : ℕ
max_fire_revision = 2 ^ 63 - 1

pub data FireMode : Type 0 where
  fire_unseen fire_legacy fire_versioned : FireMode

pub record AlarmState : Type 0 where
  pub channel_id : Bytes
  pub sensor_id : Bytes
  pub retained_topic : Bytes
  pub desired_lifecycle : Lifecycle
  pub active_alarm_id : Bytes
  pub last_event_id : Bytes
  pub fire_revision : ℕ
  pub protocol_mode : FireMode
  pub active_boot_id : Option Bytes
  pub last_source_sequence : Option ℕ
  pub last_signal_json : Bytes
  pub updated_at : Bytes

-- `activeLifecycle`.
abbrev pub is_active : Lifecycle → Bool
is_active opened_alarm = true
is_active acknowledged = true
is_active resolved = false

-- The comparisons of these types.
abbrev pub same_lifecycle : Lifecycle → Lifecycle → Bool
same_lifecycle opened_alarm opened_alarm = true
same_lifecycle acknowledged acknowledged = true
same_lifecycle resolved resolved = true
same_lifecycle _ _ = false

abbrev pub same_mode : FireMode → FireMode → Bool
same_mode fire_unseen fire_unseen = true
same_mode fire_legacy fire_legacy = true
same_mode fire_versioned fire_versioned = true
same_mode _ _ = false
