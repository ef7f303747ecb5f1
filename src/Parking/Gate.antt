-- ===== src/Parking/Gate.antt =====
-- src/parking/ParkingOccupancyConfirmationGate.cpp: an OCCUPIED that has to last before it counts.
pub mod Hold
pub mod Due
use pi_server.Base.{
  ℕ, ◌+◌, Bool, true, false, Option, none, some, List, [], ◌∷◌, map, Bytes, bytes_eq, Map, lookup,
  insert, erase, take_where, leb, ltb, if◌then◌else◌,
}
use pi_server.Parking.Event.{SensorEvent, SensorState, occupied, vacant}

pub record Pending : Type 0 where
  pub first_event : SensorEvent
  pub deadline : ℕ

pub record Gate : Type 0 where
  pub confirm_threshold : ℕ
  pub pending_by_slot : Map Bytes Pending

pub data Decision : Type 0 where
  forward suppress : Decision

unfoldable pub init : ℕ → Gate
init confirm_threshold = record { confirm_threshold = confirm_threshold; pending_by_slot = [] }

-- OCCUPIED for a slot that is not occupied yet.
evaluate_pending : Gate → SensorEvent → Option Pending → Gate × Decision
evaluate_pending g e none = (
  record g {
    pending_by_slot =
        insert e.slot_id
          (record { first_event = e; deadline = e.received_monotonic + g.confirm_threshold })
          g.pending_by_slot;
  },
  suppress,
)
evaluate_pending g e (some p) =
    if leb p.deadline e.received_monotonic
    then (record g { pending_by_slot = erase e.slot_id g.pending_by_slot }, forward)
    else (g, suppress)

evaluate_state : SensorState → Gate → SensorEvent → Bool → Gate × Decision
unfolding evaluate_pending
evaluate_state occupied g e slot_already_occupied =
    if slot_already_occupied
    then (g, forward)
    else evaluate_pending g e (lookup e.slot_id g.pending_by_slot)
evaluate_state vacant g e slot_already_occupied =
    if slot_already_occupied
    then (g, forward)
    else (record g { pending_by_slot = erase e.slot_id g.pending_by_slot }, suppress)

unfoldable pub evaluate : Gate → SensorEvent → Bool → Gate × Decision
unfolding evaluate_state
evaluate g e slot_already_occupied = evaluate_state e.state g e slot_already_occupied

abbrev pub earlier : ℕ → Option ℕ → Option ℕ
earlier d none = some d
earlier d (some best) = if ltb d best then some d else some best

earliest : Option ℕ → Map Bytes Pending → Option ℕ
earliest best [] = best
earliest best ((k, p) ∷ m) = earliest (earlier p.deadline best) m

unfoldable pub next_deadline : Gate → Option ℕ
unfolding earliest
next_deadline g = earliest none g.pending_by_slot

-- `!(deadline > monotonicNow)`.
abbrev pub is_due : ℕ → Pending → Bool
is_due now p = leb p.deadline now

abbrev pub confirmed_event : ℕ → ℕ → Pending → SensorEvent
confirmed_event now wall p = record (p.first_event) { occurred_at = wall; received_monotonic = now }

unfoldable pub take_due : Gate → ℕ → ℕ → Gate × List SensorEvent
take_due g now wall =
    let (kept, due) = take_where (is_due now) g.pending_by_slot in
    (record g { pending_by_slot = kept }, map (confirmed_event now wall) due)
