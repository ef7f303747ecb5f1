-- ===== src/Fire/Checks.antt =====
-- src/database/EventDatabaseFire.cpp: what it tests of rows and mutations.
use pi_server.Base.{
  all_of, ℕ, ◌+◌, Bool, true, false, not, Option, none, some, [], ◌∷◌, Bytes, bytes_eq, ◌==◌,
  is_empty, ltb, nat_beq,
}
use pi_server.Fire.State.{AlarmState, max_fire_revision, same_lifecycle, same_mode}
use pi_server.Fire.Outbox.{
  Delivery, retained_state, lifecycle_event, Mutation, same_sink, is_retained,
}

-- The comparisons of optional columns.
abbrev pub same_boot : Option Bytes → Option Bytes → Bool
same_boot none none = true
same_boot (some a) (some b) = a == b
same_boot _ _ = false

abbrev pub same_number : Option ℕ → Option ℕ → Bool
same_number none none = true
same_number (some a) (some b) = nat_beq a b
same_number _ _ = false

abbrev pub same_bool : Bool → Bool → Bool
same_bool true b = b
same_bool false b = not b

unfoldable pub same_state_semantic : AlarmState → AlarmState → Bool
same_state_semantic a b = all_of (
    (a.channel_id == b.channel_id)
    ∷ (a.sensor_id == b.sensor_id)
    ∷ (a.retained_topic == b.retained_topic)
    ∷ (same_lifecycle a.desired_lifecycle b.desired_lifecycle)
    ∷ (a.active_alarm_id == b.active_alarm_id)
    ∷ (a.last_event_id == b.last_event_id)
    ∷ (nat_beq a.fire_revision b.fire_revision)
    ∷ (same_mode a.protocol_mode b.protocol_mode)
    ∷ (same_boot a.active_boot_id b.active_boot_id)
    ∷ (same_number a.last_source_sequence b.last_source_sequence)
    ∷ (a.last_signal_json == b.last_signal_json)
    ∷ [])

unfoldable pub same_delivery_semantic : Delivery → Delivery → Bool
same_delivery_semantic a b = all_of (
    (a.delivery_key == b.delivery_key)
    ∷ (same_sink a.sink_kind b.sink_kind)
    ∷ (a.logical_key == b.logical_key)
    ∷ (a.row_sensor == b.row_sensor)
    ∷ (a.row_channel == b.row_channel)
    ∷ (a.event_id == b.event_id)
    ∷ (a.alarm_id == b.alarm_id)
    ∷ (nat_beq a.row_revision b.row_revision)
    ∷ (a.topic == b.topic)
    ∷ (a.payload_json == b.payload_json)
    ∷ (nat_beq a.qos b.qos)
    ∷ (same_bool a.retain b.retain)
    ∷ [])

unfoldable pub valid_delivery : Delivery → Bool
valid_delivery d = all_of (
    (not (is_empty d.delivery_key))
    ∷ (not (is_empty d.logical_key))
    ∷ (not (is_empty d.row_sensor))
    ∷ (not (is_empty d.row_channel))
    ∷ (not (is_empty d.event_id))
    ∷ (not (is_empty d.alarm_id))
    ∷ (ltb 0 d.row_revision)
    ∷ (not (ltb max_fire_revision d.row_revision))
    ∷ (not (is_empty d.topic))
    ∷ (not (is_empty d.payload_json))
    ∷ (nat_beq d.qos 1)
    ∷ (same_bool d.retain (is_retained d.sink_kind))
    ∷ (not (is_empty d.next_attempt_at))
    ∷ (not (is_empty d.created_at))
    ∷ (not (is_empty d.row_updated_at))
    ∷ [])

-- The deliveries of a mutation: both, of the kinds and the revision that it has, or none.
abbrev pub deliveries_fit : Mutation → Option Delivery → Option Delivery → Bool
deliveries_fit m none none = nat_beq m.next_state.fire_revision m.expected_revision
deliveries_fit m (some r) (some l) = all_of (
    (not (nat_beq m.expected_revision max_fire_revision))
    ∷ (nat_beq m.next_state.fire_revision (m.expected_revision + 1))
    ∷ (valid_delivery r)
    ∷ (valid_delivery l)
    ∷ (same_sink r.sink_kind retained_state)
    ∷ (same_sink l.sink_kind lifecycle_event)
    ∷ (nat_beq r.row_revision m.next_state.fire_revision)
    ∷ (nat_beq l.row_revision m.next_state.fire_revision)
    ∷ (r.row_channel == m.next_state.channel_id)
    ∷ (l.row_channel == m.next_state.channel_id)
    ∷ [])
deliveries_fit m _ _ = false

unfoldable pub valid_mutation : Mutation → Bool
valid_mutation m = all_of (
    (not (ltb max_fire_revision m.expected_revision))
    ∷ (not (ltb max_fire_revision m.next_state.fire_revision))
    ∷ (not (is_empty m.next_state.channel_id))
    ∷ (not (is_empty m.next_state.sensor_id))
    ∷ (not (is_empty m.next_state.retained_topic))
    ∷ (not (is_empty m.next_state.last_event_id))
    ∷ (not (is_empty m.next_state.last_signal_json))
    ∷ (not (is_empty m.next_state.updated_at))
    ∷ (deliveries_fit m m.retained_delivery m.lifecycle_delivery)
    ∷ [])
