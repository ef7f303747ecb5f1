-- ===== src/Sensor/Protocol/Messages.antt =====
-- `parse`, `parseFire` and `isFireLine`. `received_at` is the wall clock at the reception; the two
-- fields that a message takes from a clock or a transport are left to the transport.
use pi_server.Base.{
  ℕ, Bool, true, false, not, ◌&&◌, ◌||◌, Option, none, some, List, [], ◌∷◌, Bytes, text, bytes_eq,
  ◌==◌, nat_beq, is_empty, length, get_or, leb, if◌then◌else◌,
}
use pi_server.Sensor.Sequence.{ProtocolVersion, legacy_v1, boot_epoch_v2}
use pi_server.Parking.Event.{SensorState, occupied, vacant}
use pi_server.Sensor.Protocol.{
  or_error, message_empty, unsupported_type, bad_field_count, id_empty, bad_state, bad_sequence,
  bad_energy, Parsed, ok, err, ◌>>=◌, trim, upper, split, is_lora_node_id, number, Tail,
  apply_optional_tail, apply_versioned_tail,
}

pub record SensorMessage : Type 0 where
  pub sensor_id : Bytes
  pub state : SensorState
  pub occurred_at : ℕ
  pub sequence : Option ℕ
  pub protocol_version : ProtocolVersion
  pub boot_id : Option Bytes
  pub node : Option Bytes

pub data FireState : Type 0 where
  detected cleared : FireState

pub record FireMessage (D : Type 0) : Type 0 where
  pub fire_sensor_id : Bytes
  pub fire_state : FireState
  pub fire_occurred_at : ℕ
  pub fire_sequence : Option ℕ
  pub fire_protocol_version : ProtocolVersion
  pub fire_boot_id : Option Bytes
  pub fire_node : Option Bytes
  pub energy : Option D

abbrev pub version_of : Bool → ProtocolVersion
version_of true = boot_epoch_v2
version_of false = legacy_v1

-- The test on the number of fields of a line with no node.
abbrev pub fits : Bool → ℕ → Bool
fits true n = nat_beq n 5 || nat_beq n 6
fits false n = leb 3 n && leb n 5

unfoldable pub sensor_state : Bytes → Parsed SensorState
sensor_state word =
    if word == text "OCCUPIED"
    then ok occupied
    else if word == text "VACANT"
    then ok vacant
    else err bad_state

unfoldable pub fire_state_of : Bytes → Parsed FireState
fire_state_of word =
    if word == text "DETECTED"
    then ok detected
    else if word == text "CLEARED"
    then ok cleared
    else err bad_state

unfoldable pub apply_tail : Bool → List Bytes → ℕ → Parsed Tail
apply_tail true fields received_at = apply_versioned_tail fields received_at
apply_tail false fields received_at = apply_optional_tail fields received_at

-- A line with a node ID: SENSOR:node:sensor_id:state:sequence.
unfoldable pub parse_node : List Bytes → ℕ → Parsed SensorMessage
parse_node fields received_at =
    if not (nat_beq (length fields) 5)
    then err bad_field_count
    else if is_empty (get_or fields 2 [])
    then err id_empty
    else do
      s ← sensor_state (upper (get_or fields 3 []))
      n ← number (get_or fields 4 []) bad_sequence
      ok (record {
        sensor_id = get_or fields 2 [];
        state = s;
        occurred_at = received_at;
        sequence = some n;
        protocol_version = legacy_v1;
        boot_id = none;
        node = some (upper (get_or fields 1 []));
      })

unfoldable pub parse_plain : Bool → List Bytes → ℕ → Parsed SensorMessage
parse_plain versioned fields received_at =
    if not (fits versioned (length fields))
    then err bad_field_count
    else if is_empty (get_or fields 1 [])
    then err id_empty
    else do
      s ← sensor_state (upper (get_or fields 2 []))
      t ← apply_tail versioned fields received_at
      ok (record {
        sensor_id = get_or fields 1 [];
        state = s;
        occurred_at = t.tail_occurred_at;
        sequence = t.tail_sequence;
        protocol_version = version_of versioned;
        boot_id = t.tail_boot_id;
        node = none;
      })

abbrev pub is_node_prefixed : Bool → List Bytes → Bool
is_node_prefixed versioned fields =
    not versioned && (leb 2 (length fields) && is_lora_node_id (get_or fields 1 []))

unfoldable pub parse_fields : List Bytes → ℕ → Parsed SensorMessage
parse_fields fields received_at =
    let kind = upper (get_or fields 0 []) in
    let versioned = kind == text "SENSOR2" in
    if is_empty fields
    then err unsupported_type
    else if not (kind == text "SENSOR") && not versioned
    then err unsupported_type
    else if is_node_prefixed versioned fields
    then parse_node fields received_at
    else parse_plain versioned fields received_at

unfoldable pub parse : Bytes → ℕ → Parsed SensorMessage
parse line received_at =
    let normalized = trim line in
    if is_empty normalized then err message_empty else parse_fields (split normalized) received_at

module _ {D : Type 0} (parse_double : Bytes → Option D) where
  unfoldable pub energy_of : Bytes → Parsed D
  energy_of t = or_error (parse_double t) bad_energy

  -- FIRE:node:sensor_id:state:sequence:energy.
  unfoldable pub parse_fire_node : List Bytes → ℕ → Parsed (FireMessage D)
  parse_fire_node fields received_at =
      if not (nat_beq (length fields) 6)
      then err bad_field_count
      else if is_empty (get_or fields 2 [])
      then err id_empty
      else do
        s ← fire_state_of (upper (get_or fields 3 []))
        n ← number (get_or fields 4 []) bad_sequence
        d ← energy_of (get_or fields 5 [])
        ok (record {
          fire_sensor_id = get_or fields 2 [];
          fire_state = s;
          fire_occurred_at = received_at;
          fire_sequence = some n;
          fire_protocol_version = legacy_v1;
          fire_boot_id = none;
          fire_node = some (upper (get_or fields 1 []));
          energy = some d;
        })

unfoldable pub parse_fire_plain : {D : Type 0} → Bool → List Bytes → ℕ → Parsed (FireMessage D)
parse_fire_plain versioned fields received_at =
    if not (fits versioned (length fields))
    then err bad_field_count
    else if is_empty (get_or fields 1 [])
    then err id_empty
    else do
      s ← fire_state_of (upper (get_or fields 2 []))
      t ← apply_tail versioned fields received_at
      ok (record {
        fire_sensor_id = get_or fields 1 [];
        fire_state = s;
        fire_occurred_at = t.tail_occurred_at;
        fire_sequence = t.tail_sequence;
        fire_protocol_version = version_of versioned;
        fire_boot_id = t.tail_boot_id;
        fire_node = none;
        energy = none;
      })

module _ {D : Type 0} (parse_double : Bytes → Option D) where
  unfoldable pub parse_fire_fields : List Bytes → ℕ → Parsed (FireMessage D)
  parse_fire_fields fields received_at =
      let kind = upper (get_or fields 0 []) in
      let versioned = kind == text "FIRE2" in
      if is_empty fields
      then err unsupported_type
      else if not (kind == text "FIRE") && not versioned
      then err unsupported_type
      else if is_node_prefixed versioned fields
      then parse_fire_node parse_double fields received_at
      else parse_fire_plain versioned fields received_at

  unfoldable pub parse_fire : Bytes → ℕ → Parsed (FireMessage D)
  parse_fire line received_at =
      let normalized = trim line in
      if is_empty normalized
      then err message_empty
      else parse_fire_fields (split normalized) received_at

-- The line up to its first colon, if it has one.
unfoldable pub before_colon : Bytes → Option Bytes
before_colon [] = none
before_colon (c ∷ cs) =
    if nat_beq c b':'
    then some []
    else elim (before_colon cs) [ none ↦ none | some w ↦ some (c ∷ w) ]

abbrev pub is_fire_kind : Option Bytes → Bool
is_fire_kind none = false
is_fire_kind (some w) = upper w == text "FIRE" || upper w == text "FIRE2"

unfoldable pub is_fire_line : Bytes → Bool
is_fire_line line = is_fire_kind (before_colon (trim line))
