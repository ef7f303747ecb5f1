-- ===== src/Parking/Slots.antt =====
-- src/parking/ParkingSlotManager.cpp: the slots, and the session of each that is occupied. The
-- process-wide counter of session ids is a field of the manager. `none` stands for an exception.
-- A wall-clock time counts nanoseconds. The texts of `message` are for logs and are left out.
pub mod Lifecycle
pub mod Mirror
pub mod Starts
pub mod Runs
use pi_server.Base.{
  to_string, ℤ, ℕ, zero, suc, ◌+◌, ◌/◌, ◌%◌, ◌^◌, Bool, true, false, not, ◌&&◌, ◌||◌, Option, none,
  some, List, [], ◌∷◌, ◌++◌, Bytes, text, bytes_eq, ◌==◌, is_empty, Map, lookup, insert, contains,
  length, ltb, if◌then◌else◌,
}
use pi_server.Parking.Event.{SensorEvent, SensorState, occupied, vacant}
use pi_server.Parking.Session.{OccupancySession, open_session, complete}

-- include/parking/ParkingSlotConfig.hpp
pub record SlotObservationBinding : Type 0 where
  pub camera_id : Bytes
  pub video_source_token : Bytes
  pub rule_name : Bytes
  pub enabled : Bool
  pub priority : ℤ

pub record SlotConfig : Type 0 where
  pub slot_id : Bytes
  pub enabled : Bool
  pub zone_type : Bytes
  pub sensor_id : Bytes
  pub camera_bindings : List SlotObservationBinding

pub record Slot : Type 0 where
  pub config : SlotConfig
  pub active_session : Option OccupancySession

pub data TransitionCode : Type 0 where
  session_started session_completed duplicate_occupied_ignored duplicate_vacant_ignored :
      TransitionCode
  unknown_slot disabled_slot sensor_mismatch invalid_timestamp : TransitionCode

pub record TransitionResult : Type 0 where
  pub code : TransitionCode
  pub slot_id : Bytes
  pub session_id : Bytes
  pub session : Option OccupancySession

pub record SlotManager : Type 0 where
  pub slots : Map Bytes Slot
  pub session_sequence : ℕ

unfoldable pub add_slots : List SlotConfig → Map Bytes Slot → Option (Map Bytes Slot)
add_slots [] m = some m
add_slots (c ∷ cs) m =
    let rest = add_slots cs (insert c.slot_id (record { config = c; active_session = none }) m) in
    if is_empty c.slot_id then none else if contains c.slot_id m then none else rest

-- The constructor.
unfoldable pub init : List SlotConfig → Option (Map Bytes Slot)
unfolding add_slots
init configs = if is_empty configs then none else add_slots configs []

unfoldable pub create_session_id : Bytes → ℕ → ℕ → Bytes
create_session_id slot_id started_at sequence =
    text "park_"
    ++ (slot_id
        ++ (text "_" ++ (to_string (started_at / 1000000) ++ (text "_" ++ to_string sequence))))

abbrev result : TransitionCode → Bytes → Bytes → Option OccupancySession → TransitionResult
result code slot_id session_id session = record {
  code = code;
  slot_id = slot_id;
  session_id = session_id;
  session = session;
}

abbrev with_session : SlotManager → Bytes → Slot → Option OccupancySession → SlotManager
with_session m key slot session = record m {
  slots = insert key (record slot { active_session = session }) m.slots;
}

-- `activeSession.emplace(…)` and the result.
started :
    SlotManager
    → SensorEvent
    → Slot
    → Bytes
    → Option OccupancySession
    → Option (SlotManager × TransitionResult)
started m e slot id none = none
started m e slot id (some s) = some (
  record (with_session m e.slot_id slot (some s)) {
    session_sequence = (m.session_sequence + 1) % 2 ^ 64;
  },
  result session_started slot.config.slot_id id (some s),
)

start_session : SlotManager → SensorEvent → Slot → Option (SlotManager × TransitionResult)
unfolding started
start_session m e slot =
    let id = create_session_id slot.config.slot_id e.occurred_at m.session_sequence in
    started m e slot id
      (open_session id slot.config.slot_id e.sensor_id e.occurred_at e.received_monotonic)

-- `activeSession->complete(…)`, `activeSession.reset()` and the result.
ended :
    SlotManager
    → SensorEvent
    → Slot
    → Option OccupancySession
    → Option (SlotManager × TransitionResult)
ended m e slot none = none
ended m e slot (some done) = some (
  with_session m e.slot_id slot none,
  result session_completed slot.config.slot_id done.session_id (some done),
)

handle_occupied :
    SlotManager
    → SensorEvent
    → Slot
    → Option OccupancySession
    → Option (SlotManager × TransitionResult)
unfolding start_session
handle_occupied m e slot (some s) =
    some (m, result duplicate_occupied_ignored slot.config.slot_id s.session_id (some s))
handle_occupied m e slot none = start_session m e slot

handle_vacant :
    SlotManager
    → SensorEvent
    → Slot
    → Option OccupancySession
    → Option (SlotManager × TransitionResult)
unfolding ended
handle_vacant m e slot none = some (m, result duplicate_vacant_ignored slot.config.slot_id [] none)
handle_vacant m e slot (some s) =
    if ltb e.occurred_at s.started_at
    then some (m, result invalid_timestamp slot.config.slot_id s.session_id (some s))
    else ended m e slot (complete s e.occurred_at)

handle_state :
    SensorState → SlotManager → SensorEvent → Slot → Option (SlotManager × TransitionResult)
unfolding handle_occupied handle_vacant
handle_state occupied m e slot = handle_occupied m e slot slot.active_session
handle_state vacant m e slot = handle_vacant m e slot slot.active_session

handle_slot : SlotManager → SensorEvent → Option Slot → Option (SlotManager × TransitionResult)
unfolding handle_state
handle_slot m e none = some (m, result unknown_slot e.slot_id [] none)
handle_slot m e (some slot) =
    if not slot.config.enabled
    then some (m, result disabled_slot slot.config.slot_id [] none)
    else if is_empty e.sensor_id || not (e.sensor_id == slot.config.sensor_id)
    then some (m, result sensor_mismatch slot.config.slot_id [] none)
    else handle_state e.state m e slot

unfoldable pub handle : SlotManager → SensorEvent → Option (SlotManager × TransitionResult)
unfolding handle_slot
handle m e = handle_slot m e (lookup e.slot_id m.slots)

unfoldable pub find_slot : SlotManager → Bytes → Option Slot
find_slot m slot_id = lookup slot_id m.slots

unfoldable pub slot_count : SlotManager → ℕ
slot_count m = length m.slots

enabled_slots : Map Bytes Slot → ℕ
enabled_slots [] = 0
enabled_slots ((k, slot) ∷ m) =
    if slot.config.enabled then suc (enabled_slots m) else enabled_slots m

unfoldable pub active_slot_count : SlotManager → ℕ
unfolding enabled_slots
active_slot_count m = enabled_slots m.slots
