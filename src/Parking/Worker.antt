-- ===== src/Parking/Worker.antt =====
-- src/parking/ParkingSessionWorker.cpp: sequence guard, confirmation gate and slot manager in line.
-- The sinks are callbacks: each is a function on the state `S` that the sinks share, and `none`
-- among those to be added is an empty one.
pub mod Path
pub mod Confirmation
use pi_server.Base.{
  ℕ, Bool, true, false, not, ◌&&◌, Option, none, some, is_some, List, [], ◌∷◌, ◌++◌, Bytes,
  bytes_eq, ◌==◌, is_empty, Map, ltb, if◌then◌else◌,
}
use pi_server.Parking.Event.{SensorEvent}
use pi_server.Parking.SequenceGuard.{SequenceGuard, accept}
use pi_server.Parking.Gate.{Gate, Decision, forward, suppress, evaluate, init as gate_init}
use pi_server.Parking.Slots.{
  SlotConfig, Slot, TransitionResult, SlotManager, init as slots_init, handle, find_slot,
  slot_count,
}

abbrev pub Sink : Type 0 → Type 0
Sink S = S → TransitionResult → S

pub record Worker (S : Type 0) : Type 0 where
  pub sequence_guard : SequenceGuard
  pub slot_manager : SlotManager
  pub confirmation_gate : Option Gate
  pub sinks : List (Sink S)

-- The constructor. `n` is the process-wide counter of session ids.
made : {S : Type 0} → Option (Map Bytes Slot) → ℕ → ℕ → Option (Worker S)
made none confirm_threshold n = none
made (some slots) confirm_threshold n = some (record {
  sequence_guard = [];
  slot_manager = record { slots = slots; session_sequence = n };
  confirmation_gate = if ltb 0 confirm_threshold then some (gate_init confirm_threshold) else none;
  sinks = [];
})

unfoldable pub init : {S : Type 0} → List SlotConfig → ℕ → ℕ → Option (Worker S)
unfolding made
init configs confirm_threshold n = made (slots_init configs) confirm_threshold n

unfoldable pub add_sink : {S : Type 0} → Worker S → Option (Sink S) → Worker S
add_sink w none = w
add_sink w (some sink) = record w { sinks = w.sinks ++ (sink ∷ []) }

unfoldable pub notify : {S : Type 0} → List (Sink S) → S → TransitionResult → S
notify [] s r = s
notify (sink ∷ sinks) s r = notify sinks (sink s r) r

-- `eligibleForGate`.
abbrev pub eligible : SensorEvent → Option Slot → Bool
eligible e none = false
eligible e (some slot) =
    slot.config.enabled && (not (is_empty e.sensor_id) && (e.sensor_id == slot.config.sensor_id))

abbrev pub is_occupied : Option Slot → Bool
is_occupied none = false
is_occupied (some slot) = is_some slot.active_session

judged : Gate × Decision → Option Gate × Bool
judged (g, forward) = (some g, true)
judged (g, suppress) = (some g, false)

-- The gate after the event, and whether the event passes it.
unfoldable pub pass_gate : Option Gate → SensorEvent → Option Slot → Option Gate × Bool
unfolding judged
pass_gate none e slot = (none, true)
pass_gate (some g) e slot =
    if eligible e slot then judged (evaluate g e (is_occupied slot)) else (some g, true)

-- The sinks are called with the result, which is returned.
finish :
    {S : Type 0}
    → Worker S
    → S
    → Option (SlotManager × TransitionResult)
    → Option (Worker S × (S × Option TransitionResult))
unfolding notify
finish w s none = none
finish w s (some (m, r)) = some (record w { slot_manager = m }, (notify w.sinks s r, some r))

gated :
    {S : Type 0}
    → Worker S
    → S
    → SensorEvent
    → Option Gate × Bool
    → Option (Worker S × (S × Option TransitionResult))
unfolding finish
gated w s e (g, false) = some (record w { confirmation_gate = g }, (s, none))
gated w s e (g, true) = finish (record w { confirmation_gate = g }) s (handle w.slot_manager e)

guarded :
    {S : Type 0}
    → Worker S
    → S
    → SensorEvent
    → SequenceGuard × Bool
    → Option (Worker S × (S × Option TransitionResult))
unfolding gated pass_gate
guarded w s e (guard, false) = some (record w { sequence_guard = guard }, (s, none))
guarded w s e (guard, true) =
    gated (record w { sequence_guard = guard }) s e
      (pass_gate w.confirmation_gate e (find_slot w.slot_manager e.slot_id))

-- `none` is an exception of the slot manager.
unfoldable pub on_sensor_event :
    {S : Type 0} → Worker S → S → SensorEvent → Option (Worker S × (S × Option TransitionResult))
unfolding guarded
on_sensor_event w s e = guarded w s e (accept w.sequence_guard e)

unfoldable pub worker_slot_count : {S : Type 0} → Worker S → ℕ
worker_slot_count w = slot_count w.slot_manager
