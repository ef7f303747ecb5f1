-- ===== src/Fire/Store.antt =====
-- src/database/EventDatabaseFire.cpp: `applyFireStateMutation` and what the fire service reads. Each table
-- is a map by its primary key; a statement of an open database is taken to succeed, so that what the
-- code throws itself is all that rolls a transaction back.
use pi_server.Fire.Checks.{
  same_boot, same_number, same_state_semantic, same_delivery_semantic, valid_mutation,
}
use pi_server.Base.{
  ℕ, Bool, true, false, not, ◌&&◌, ◌||◌, Option, none, some, List, [], ◌∷◌, Bytes, bytes_eq, ◌==◌,
  is_empty, Map, lookup, insert, nat_beq, if◌then◌else◌,
}
use pi_server.Sensor.Sequence.{
  ProtocolVersion, legacy_v1, boot_epoch_v2, Mode, unseen, legacy, versioned, State, Fact,
  evaluate_sensor_sequence, accepted,
}
use pi_server.Fire.State.{AlarmState, FireMode, fire_unseen, fire_legacy, fire_versioned, same_mode}
use pi_server.Fire.Outbox.{
  Delivery, retained_state, pending, Mutation, MutationResult, committed, idempotent, conflict,
  invalid, failed, Outcome, same_sink,
}

pub record Store : Type 0 where
  pub opened : Bool
  pub states : Map Bytes AlarmState
  pub outbox : Map Bytes Delivery
  -- The sensor and the boot ID of each row for 'FIRE'.
  pub retired_boots : List (Bytes × Bytes)

abbrev pub answer : Outcome → ℕ → MutationResult
answer o revision = record { outcome = o; result_revision = revision }

-- The deliveries of a repeated mutation are the ones in the outbox.
abbrev pub matches_row : Delivery → Option Delivery → Bool
matches_row d none = false
matches_row d (some row) = same_delivery_semantic row d

abbrev pub deliveries_match : Store → Option Delivery → Option Delivery → Bool
deliveries_match s (some r) (some l) =
    matches_row r (lookup r.delivery_key s.outbox) && matches_row l (lookup l.delivery_key s.outbox)
deliveries_match s _ _ = true

unfoldable pub is_retired_row : List (Bytes × Bytes) → Bytes → Bytes → Bool
is_retired_row [] sensor boot = false
is_retired_row ((a, b) ∷ rows) sensor boot =
    (a == sensor && b == boot) || is_retired_row rows sensor boot

abbrev pub sequence_mode : FireMode → Mode
sequence_mode fire_unseen = unseen
sequence_mode fire_legacy = legacy
sequence_mode fire_versioned = versioned

abbrev pub retired_of : List (Bytes × Bytes) → Bytes → Option Bytes → List Bytes
retired_of rows sensor none = []
retired_of rows sensor (some boot) = if is_retired_row rows sensor boot then boot ∷ [] else []

abbrev pub version_of : FireMode → ProtocolVersion
version_of fire_versioned = boot_epoch_v2
version_of _ = legacy_v1

abbrev pub cursor_of : AlarmState → List Bytes → State
cursor_of a retired = record {
  mode = sequence_mode a.protocol_mode;
  active_boot_id = a.active_boot_id;
  last_sequence = a.last_source_sequence;
  retired_boot_ids = retired;
}

abbrev pub fact_of : AlarmState → Fact
fact_of a = record {
  protocol_version = version_of a.protocol_mode;
  boot_id = a.active_boot_id;
  sequence = a.last_source_sequence;
}

-- INSERT OR IGNORE of the boot ID that another one replaces.
abbrev pub retire_boot :
    FireMode → Option Bytes → Option Bytes → Bytes → List (Bytes × Bytes) → List (Bytes × Bytes)
retire_boot fire_versioned (some old) (some boot) sensor rows =
    if old == boot
    then rows
    else if is_retired_row rows sensor old
    then rows
    else (sensor, old) ∷ rows
retire_boot _ _ _ _ rows = rows

-- The UPDATE of the alarm state.
abbrev pub updated_state : AlarmState → AlarmState → AlarmState
updated_state current next = record current {
  desired_lifecycle = next.desired_lifecycle;
  active_alarm_id = next.active_alarm_id;
  last_event_id = next.last_event_id;
  fire_revision = next.fire_revision;
  protocol_mode = next.protocol_mode;
  active_boot_id = next.active_boot_id;
  last_source_sequence = next.last_source_sequence;
  last_signal_json = next.last_signal_json;
  updated_at = next.updated_at;
}

-- The UPDATE of the retained delivery.
abbrev pub updated_row : Delivery → Delivery → Delivery
updated_row row d = record row {
  row_sensor = d.row_sensor;
  row_channel = d.row_channel;
  event_id = d.event_id;
  alarm_id = d.alarm_id;
  row_revision = d.row_revision;
  topic = d.topic;
  payload_json = d.payload_json;
  qos = 1;
  retain = true;
  attempt_count = 0;
  next_attempt_at = d.next_attempt_at;
  last_error = [];
  delivery_state = pending;
  row_updated_at = d.row_updated_at;
}

-- The rows of the outbox, or `none` where the code throws.
abbrev pub with_lifecycle :
    Map Bytes Delivery → Delivery → Option Delivery → Option (Map Bytes Delivery)
with_lifecycle rows l none = some (insert l.delivery_key l rows)
with_lifecycle rows l (some row) = if same_delivery_semantic row l then some rows else none

abbrev pub with_retained :
    Map Bytes Delivery → Bytes → Delivery → Delivery → Option Delivery → Option (Map Bytes Delivery)
with_retained rows channel r l none = none
with_retained rows channel r l (some row) =
    if not (
      same_sink row.sink_kind retained_state
      && (row.row_channel == channel && row.logical_key == r.logical_key))
    then none
    else let written = insert r.delivery_key (updated_row row r) rows in
      with_lifecycle written l (lookup l.delivery_key written)

abbrev pub deliver :
    Map Bytes Delivery → Bytes → Option Delivery → Option Delivery → Option (Map Bytes Delivery)
deliver rows channel (some r) (some l) = with_retained rows channel r l (lookup r.delivery_key rows)
deliver rows channel _ _ = some rows

-- COMMIT, or ROLLBACK with the answer of the handler.
abbrev pub finish : Store → Mutation → Store → Option (Map Bytes Delivery) → Store × MutationResult
finish s m changed none = (s, answer failed m.expected_revision)
finish s m changed (some rows) =
    (record changed { outbox = rows }, answer committed m.next_state.fire_revision)

unfoldable pub write : Store → Mutation → AlarmState → List (Bytes × Bytes) → Store × MutationResult
write s m current retired =
    let changed = record s {
      states = insert m.next_state.channel_id (updated_state current m.next_state) s.states;
      retired_boots = retired;
    } in
    finish s m changed
      (deliver s.outbox m.next_state.channel_id m.retained_delivery m.lifecycle_delivery)

abbrev pub cursor_changed : AlarmState → AlarmState → Bool
cursor_changed current next =
    not (same_mode current.protocol_mode next.protocol_mode)
    || (not (same_boot current.active_boot_id next.active_boot_id)
        || (not (same_number current.last_source_sequence next.last_source_sequence)
            || not (current.last_signal_json == next.last_signal_json)))

unfoldable pub advance : Store → Mutation → AlarmState → Store × MutationResult
advance s m current =
    let next = m.next_state in
    let retired = retired_of s.retired_boots next.sensor_id next.active_boot_id in
    if same_mode next.protocol_mode fire_unseen
    then (s, answer invalid current.fire_revision)
    else if not (accepted (evaluate_sensor_sequence (cursor_of current retired) (fact_of next)))
    then (s, answer invalid current.fire_revision)
    else write s m current (
        retire_boot current.protocol_mode current.active_boot_id next.active_boot_id next.sensor_id
          s.retired_boots)

unfoldable pub apply_found : Store → Mutation → Option AlarmState → Store × MutationResult
apply_found s m none = (s, answer conflict 0)
apply_found s m (some current) =
    if nat_beq current.fire_revision m.next_state.fire_revision
      && same_state_semantic current m.next_state
    then (
      s,
      if deliveries_match s m.retained_delivery m.lifecycle_delivery
          then answer idempotent current.fire_revision
          else answer failed m.expected_revision,
    )
    else if not (nat_beq current.fire_revision m.expected_revision)
    then (s, answer conflict current.fire_revision)
    else if not (current.sensor_id == m.next_state.sensor_id)
        || not (current.retained_topic == m.next_state.retained_topic)
    then (s, answer conflict current.fire_revision)
    else if cursor_changed current m.next_state
    then advance s m current
    else write s m current s.retired_boots

unfoldable pub apply_fire_state_mutation : Store → Mutation → Store × MutationResult
apply_fire_state_mutation s m =
    if not (valid_mutation m)
    then (s, answer invalid m.expected_revision)
    else if not s.opened
    then (s, answer failed m.expected_revision)
    else apply_found s m (lookup m.next_state.channel_id s.states)

unfoldable pub get_fire_alarm_state : Store → Bytes → Option AlarmState
get_fire_alarm_state s channel =
    if is_empty channel then none else if not s.opened then none else lookup channel s.states

-- `isSensorBootIdRetired` for 'FIRE'.
unfoldable pub is_sensor_boot_id_retired : Store → Bytes → Bytes → Bool
is_sensor_boot_id_retired s sensor boot =
    if is_empty sensor || is_empty boot
    then true
    else if not s.opened
    then false
    else is_retired_row s.retired_boots sensor boot
