-- ===== src/Parking/Event.antt =====
-- include/parking/ParkingSensorEvent.hpp. Times are numbers of clock ticks since the clock's origin;
-- the clock's 64 bits are signed, and neither a negative time is modelled nor one from 2^63 on, which
-- is compared as negative in the source. A sensor line with a timestamp out of the clock's range can
-- bring one about (the parser's `epoch_time`); what the slots then do is outside the model.
use pi_server.Base.{ℕ, Option, Bytes}
use pi_server.Sensor.Sequence.{ProtocolVersion}

pub data SensorState : Type 0 where
  occupied vacant : SensorState

pub record SensorEvent : Type 0 where
  pub slot_id : Bytes
  pub sensor_id : Bytes
  pub state : SensorState
  pub occurred_at : ℕ
  pub source_sequence : Option ℕ
  pub source_protocol_version : ProtocolVersion
  pub source_boot_id : Option Bytes
  pub source_transport : Bytes
  pub received_monotonic : ℕ
