-- ===== src/Sensor/Adapter.antt =====
-- src/sensor/ParkingSensorEventAdapter.cpp: a message becomes an event of the slot of its sensor. The
-- transport and the steady clock, which a message carries from its transport, are arguments.
pub mod Routing
use pi_server.Base.{ℕ, Option, none, some, Bytes}
use pi_server.Parking.Event.{SensorEvent}
use pi_server.Parking.SensorIndex.{SensorSlotIndex, SensorSlotMatch, find_by_sensor_id}
use pi_server.Sensor.Protocol.Messages.{SensorMessage}

abbrev pub event_of : SensorSlotMatch → SensorMessage → Bytes → ℕ → SensorEvent
event_of found message transport received_monotonic = record {
  slot_id = found.slot_id;
  sensor_id = message.sensor_id;
  state = message.state;
  occurred_at = message.occurred_at;
  source_sequence = message.sequence;
  source_protocol_version = message.protocol_version;
  source_boot_id = message.boot_id;
  source_transport = transport;
  received_monotonic = received_monotonic;
}

adapt_found : Option SensorSlotMatch → SensorMessage → Bytes → ℕ → Option SensorEvent
adapt_found none message transport received_monotonic = none
adapt_found (some found) message transport received_monotonic =
    some (event_of found message transport received_monotonic)

unfoldable pub adapt : SensorSlotIndex → SensorMessage → Bytes → ℕ → Option SensorEvent
unfolding adapt_found
adapt ix message transport received_monotonic =
    adapt_found (find_by_sensor_id ix message.sensor_id) message transport received_monotonic
