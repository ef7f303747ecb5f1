-- ===== src/Iva/Coordinator.antt =====
-- src/event/IvaOccupancyCoordinator.cpp: an exit that has to last before it counts. A signal holds
-- what the coordinator reads, and `tag` for the fields that it only passes on.
pub mod Pending
use pi_server.Base.{
  ℕ, ◌+◌, max, Bool, true, false, not, Option, none, some, is_some, List, [], ◌∷◌, Bytes, bytes_eq,
  Map, lookup, insert, erase, take_where, contains, leb, ltb, if◌then◌else◌,
}
use pi_server.Parking.Slots.{SlotConfig}
use pi_server.Iva.Aggregator.{Aggregator, OccupancyUpdate, update, init as aggregator_init}

pub data Action : Type 0 where
  enter intrusion exit unsupported_action : Action

pub record Signal (T : Type 0) : Type 0 where
  pub slot_id : Bytes
  pub camera_id : Bytes
  pub video_source_token : Bytes
  pub rule_name : Bytes
  pub action : Action
  pub authoritative_exit : Bool
  pub tag : T

pub data Code : Type 0 where
  occupied exit_pending exit_canceled duplicate : Code
  ignored_enter ignored_custom_exit unsupported : Code

pub record Counts : Type 0 where
  pub active_areas : ℕ
  pub known_areas : ℕ
  pub configured_areas : ℕ

abbrev pub no_counts : Counts
no_counts = record { active_areas = 0; known_areas = 0; configured_areas = 0 }

abbrev pub counts_of : OccupancyUpdate → Counts
counts_of u = record {
  active_areas = u.active_area_count;
  known_areas = u.known_area_count;
  configured_areas = u.configured_area_count;
}

pub record PendingExit (T : Type 0) : Type 0 where
  pub signal : Signal T
  pub deadline : ℕ

pub record Coordinator (T : Type 0) : Type 0 where
  pub exit_confirm_delay : ℕ
  pub aggregator : Aggregator
  pub pending_by_slot : Map Bytes (PendingExit T)

unfoldable pub init : {T : Type 0} → List SlotConfig → ℕ → Coordinator T
init slots exit_confirm_delay = record {
  exit_confirm_delay = max 1 exit_confirm_delay;
  aggregator = aggregator_init slots;
  pending_by_slot = [];
}

-- The answer to an INTRUSION: whether an exit was cancelled, and what the aggregator emitted.
intruded : Bool → Option OccupancyUpdate → Code × Counts
intruded canceled none = (if canceled then exit_canceled else duplicate, no_counts)
intruded canceled (some u) = (if canceled then exit_canceled else occupied, counts_of u)

intrude :
    {T : Type 0}
    → Coordinator T
    → Signal T
    → Aggregator × Option OccupancyUpdate
    → Coordinator T × (Code × Counts)
unfolding intruded
intrude c s (a, o) = (
  record c { aggregator = a; pending_by_slot = erase s.slot_id c.pending_by_slot },
  intruded (contains s.slot_id c.pending_by_slot) o,
)

leave :
    {T : Type 0}
    → Coordinator T
    → Signal T
    → ℕ
    → Aggregator × Option OccupancyUpdate
    → Coordinator T × (Code × Counts)
leave c s now (a, none) = (record c { aggregator = a }, (duplicate, no_counts))
leave c s now (a, some u) =
    if u.occupied
    then (record c { aggregator = a }, (duplicate, no_counts))
    else if contains s.slot_id c.pending_by_slot
    then (record c { aggregator = a }, (duplicate, counts_of u))
    else (
      record c {
        aggregator = a;
        pending_by_slot =
            insert s.slot_id (record { signal = s; deadline = now + c.exit_confirm_delay })
              c.pending_by_slot;
      },
      (exit_pending, counts_of u),
    )

handle_action :
    {T : Type 0} → Action → Coordinator T → Signal T → ℕ → Coordinator T × (Code × Counts)
unfolding intrude leave
handle_action enter c s now = (c, (ignored_enter, no_counts))
handle_action exit c s now =
    if not s.authoritative_exit
    then (c, (ignored_custom_exit, no_counts))
    else leave c s now
        (update c.aggregator s.slot_id s.camera_id s.video_source_token s.rule_name false)
handle_action intrusion c s now =
    intrude c s (update c.aggregator s.slot_id s.camera_id s.video_source_token s.rule_name true)
handle_action unsupported_action c s now = (c, (unsupported, no_counts))

unfoldable pub handle :
    {T : Type 0} → Coordinator T → Signal T → ℕ → Coordinator T × (Code × Counts)
unfolding handle_action
handle c s now = handle_action s.action c s now

abbrev pub sooner : ℕ → Option ℕ → Option ℕ
sooner d none = some d
sooner d (some best) = if ltb d best then some d else some best

-- `std::min_element`; of an empty map there is none.
earliest : {T : Type 0} → Option ℕ → Map Bytes (PendingExit T) → Option ℕ
earliest best [] = best
earliest best ((k, p) ∷ m) = earliest (sooner p.deadline best) m

unfoldable pub next_deadline : {T : Type 0} → Coordinator T → Option ℕ
unfolding earliest
next_deadline c = earliest none c.pending_by_slot

abbrev pub is_due : {T : Type 0} → ℕ → PendingExit T → Bool
is_due now p = leb p.deadline now

abbrev pub signals_of : {T : Type 0} → List (PendingExit T) → List (Signal T)
signals_of [] = []
signals_of (p ∷ ps) = p.signal ∷ signals_of ps

unfoldable pub take_due : {T : Type 0} → Coordinator T → ℕ → Coordinator T × List (Signal T)
take_due c now =
    let (kept, due) = take_where (is_due now) c.pending_by_slot in
    (record c { pending_by_slot = kept }, signals_of due)
