-- ===== src/Iva/Aggregator.antt =====
-- src/event/IvaSlotOccupancyAggregator.cpp: the areas that observe a slot, and what they say together.
pub mod Vacancy
pub mod Runs
pub mod Told
pub mod Reports
pub mod Emissions
use pi_server.Base.{
  ℕ, zero, suc, ◌+◌, ◌-◌, Bool, true, false, not, ◌&&◌, ◌||◌, Option, none, some, List, [], ◌∷◌,
  ◌++◌, map, Bytes, text, bytes_eq, ◌==◌, nat_beq, is_empty, Map, lookup, insert, length, ltb, leb,
  drop, if◌then◌else◌,
}
use pi_server.Sensor.Sequence.{member}
use pi_server.Parking.Slots.{SlotConfig, SlotObservationBinding}

pub record OccupancyUpdate : Type 0 where
  pub update_slot_id : Bytes
  pub occupied : Bool
  pub active_area_count : ℕ
  pub known_area_count : ℕ
  pub configured_area_count : ℕ

pub record SlotState : Type 0 where
  pub configured_areas : List Bytes
  pub observed_states : Map Bytes Bool
  pub last_emitted : Option Bool

abbrev pub Aggregator : Type 0
Aggregator = Map Bytes SlotState

-- `std::tolower` of the C locale.
abbrev to_lower : ℕ → ℕ
to_lower c = if leb b'A' c && leb c b'Z' then c + 32 else c

unfoldable pub lower_copy : Bytes → Bytes
lower_copy value = map to_lower value

-- `std::string::starts_with`, giving the rest.
unfoldable pub after_prefix : Bytes → Bytes → Option Bytes
after_prefix [] value = some value
after_prefix (p ∷ ps) [] = none
after_prefix (p ∷ ps) (c ∷ cs) = if nat_beq p c then after_prefix ps cs else none

shortened : Bytes → Option Bytes → Bytes
shortened token none = token
shortened token (some rest) = text "vs-" ++ rest

unfoldable pub canonical_token : Bytes → Bytes
unfolding shortened
canonical_token token =
    shortened (lower_copy token) (after_prefix (text "videosourcetoken-") (lower_copy token))

unfoldable pub observation_key : Bytes → Bytes → Bytes → Bytes
observation_key camera_id video_source_token rule_name =
    lower_copy camera_id
    ++ (b'\n' ∷ (canonical_token video_source_token ++ (b'\n' ∷ lower_copy rule_name)))

-- `std::unordered_set::insert`.
abbrev pub add_area : Bytes → List Bytes → List Bytes
add_area key areas = if member key areas then areas else key ∷ areas

unfoldable pub add_bindings : List SlotObservationBinding → List Bytes → List Bytes
add_bindings [] areas = areas
add_bindings (b ∷ bs) areas = add_bindings bs (
    if b.enabled
    then add_area (observation_key b.camera_id b.video_source_token b.rule_name) areas
    else areas)

abbrev pub or_fresh : Option SlotState → SlotState
or_fresh none = record { configured_areas = []; observed_states = []; last_emitted = none }
or_fresh (some s) = s

unfoldable pub add_slots : List SlotConfig → Aggregator → Aggregator
add_slots [] a = a
add_slots (c ∷ cs) a =
    let s = or_fresh (lookup c.slot_id a) in
    add_slots cs (
      if c.enabled
      then insert c.slot_id
          (record s { configured_areas = add_bindings c.camera_bindings s.configured_areas }) a
      else a)

unfoldable pub init : List SlotConfig → Aggregator
init slots = add_slots slots []

unfoldable pub active_count : Map Bytes Bool → ℕ
active_count [] = 0
active_count ((k, b) ∷ m) = if b then suc (active_count m) else active_count m

abbrev pub is_last : Option Bool → Bool → Bool
is_last none b = false
is_last (some true) b = b
is_last (some false) b = not b

-- The state after the area's report, and what is emitted.
unfoldable pub judge : Bytes → SlotState → SlotState × Option OccupancyUpdate
judge slot_id s =
    let active = active_count s.observed_states in
    let known = length s.observed_states in
    let occupied = not (nat_beq active 0) in
    if nat_beq active 0 && not (nat_beq known (length s.configured_areas))
    then (s, none)
    else if is_last s.last_emitted occupied
    then (s, none)
    else (
      record s { last_emitted = some occupied },
      some (record {
        update_slot_id = slot_id;
        occupied = occupied;
        active_area_count = active;
        known_area_count = known;
        configured_area_count = length s.configured_areas;
      }),
    )

abbrev pub report : Bytes → Bool → SlotState → SlotState
report key active s = record s { observed_states = insert key active s.observed_states }

abbrev pub keep_judged :
    Aggregator → Bytes → SlotState × Option OccupancyUpdate → Aggregator × Option OccupancyUpdate
keep_judged a slot_id (s, o) = (insert slot_id s a, o)

unfoldable pub update_found :
    Aggregator → Bytes → Bytes → Bool → Option SlotState → Aggregator × Option OccupancyUpdate
update_found a slot_id key active none = (a, none)
update_found a slot_id key active (some s) =
    if not (member key s.configured_areas)
    then (a, none)
    else keep_judged a slot_id (judge slot_id (report key active s))

unfoldable pub update :
    Aggregator → Bytes → Bytes → Bytes → Bytes → Bool → Aggregator × Option OccupancyUpdate
update a slot_id camera_id video_source_token rule_name active =
    let key = observation_key camera_id video_source_token rule_name in
    update_found a slot_id key active (lookup slot_id a)
