-- ===== src/Parking/SensorIndex.antt =====
-- src/parking/SensorSlotIndex.cpp: the slot of each sensor. `none` stands for the exceptions.
pub mod Complete
use pi_server.Base.{
  ℕ, Bool, true, false, not, Option, none, some, List, [], ◌∷◌, Bytes, bytes_eq, is_empty, Map,
  lookup, insert, contains, length, if◌then◌else◌,
}
use pi_server.Parking.Slots.{SlotConfig}

pub record SensorSlotMatch : Type 0 where
  pub slot_id : Bytes
  pub sensor_id : Bytes

abbrev pub SensorSlotIndex : Type 0
SensorSlotIndex = Map Bytes SensorSlotMatch

abbrev pub match_of : SlotConfig → SensorSlotMatch
match_of c = record { slot_id = c.slot_id; sensor_id = c.sensor_id }

-- The loop of the constructor.
unfoldable pub add_sensors : List SlotConfig → SensorSlotIndex → Option SensorSlotIndex
add_sensors [] ix = some ix
add_sensors (c ∷ cs) ix =
    let skipped = add_sensors cs ix in
    let rest = add_sensors cs (insert c.sensor_id (match_of c) ix) in
    if not c.enabled
    then skipped
    else if is_empty c.sensor_id
    then none
    else if contains c.sensor_id ix
    then none
    else rest

unfoldable pub init : List SlotConfig → Option SensorSlotIndex
unfolding add_sensors
init configs = add_sensors configs []

unfoldable pub find_by_sensor_id : SensorSlotIndex → Bytes → Option SensorSlotMatch
find_by_sensor_id ix sensor_id = lookup sensor_id ix

unfoldable pub sensor_count : SensorSlotIndex → ℕ
sensor_count ix = length ix
