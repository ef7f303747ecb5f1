-- ===== src/Parking/SequenceGuard.antt =====
-- src/parking/ParkingSensorSequenceGuard.cpp: one sequence state for each sensor.
pub mod Isolation
use pi_server.Base.{
  Bool, true, false, Option, none, some, [], Bytes, bytes_eq, Map, lookup, insert, erase,
  if◌then◌else◌,
}
use pi_server.Sensor.Sequence.{
  State, initial, Fact, evaluate_sensor_sequence, commit_sensor_sequence, accepted,
}
use pi_server.Parking.Event.{SensorEvent}

abbrev pub SequenceGuard : Type 0
SequenceGuard = Map Bytes State

abbrev pub fact_of : SensorEvent → Fact
fact_of e = record {
  protocol_version = e.source_protocol_version;
  boot_id = e.source_boot_id;
  sequence = e.source_sequence;
}

abbrev pub or_initial : Option State → State
or_initial none = initial
or_initial (some s) = s

-- `stateBySensor_[sensorId]` makes an entry also for a sensor that is then refused.
unfoldable pub accept : SequenceGuard → SensorEvent → SequenceGuard × Bool
accept g e =
    let s = or_initial (lookup e.sensor_id g) in
    if accepted (evaluate_sensor_sequence s (fact_of e))
    then (insert e.sensor_id (commit_sensor_sequence s (fact_of e)) g, true)
    else (insert e.sensor_id s g, false)

unfoldable pub reset : SequenceGuard → Bytes → SequenceGuard
reset g sensor_id = erase sensor_id g

unfoldable pub clear : SequenceGuard → SequenceGuard
clear g = []
