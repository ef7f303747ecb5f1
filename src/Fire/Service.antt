-- ===== src/Fire/Service.antt =====
-- src/event/FireAlarmService.cpp: the replies, the identifiers and the deliveries of the fire service. The
-- JSON texts and the printing of a time are parameters.
use pi_server.Base.{
  ℕ, Bool, true, false, Option, none, some, List, [], ◌∷◌, ◌++◌, Bytes, text, bytes_eq, ◌==◌,
  is_empty, nat_beq, to_string, if◌then◌else◌,
}
use pi_server.Sensor.Sequence.{ProtocolVersion, legacy_v1, boot_epoch_v2}
use pi_server.Fire.State.{Lifecycle, Signal, AlarmState, FireMode, fire_legacy, fire_versioned}
use pi_server.Fire.Outbox.{
  Delivery, SinkKind, retained_state, lifecycle_event, pending, Mutation, MutationResult, committed,
  idempotent, conflict, invalid, failed, is_retained,
}

pub record Binding : Type 0 where
  pub bound_sensor : Bytes
  pub bound_channel : Bytes
  pub bound_topic : Bytes

pub data CommandStatus : Type 0 where
  rejected queue_full queued durably_committed unchanged failed_command : CommandStatus

pub record CommandResult : Type 0 where
  pub status : CommandStatus
  pub revision : ℕ
  pub retryable : Bool
  pub blocks_channel : Bool

pub record Config : Type 0 where
  pub camera_id : Bytes
  pub lifecycle_topic_prefix : Bytes
  pub bindings : List Binding

-- What the JSON of a signal and of an event and the time of a log line are made by.
pub record Texts : Type 0 where
  pub serialize_signal : Signal → Bytes
  pub deserialize_signal : Bytes → Option Signal
  pub build_fire_json : Bytes → Bytes → Signal → Lifecycle → Bytes → Bytes → ℕ → Bytes → Bytes
  pub iso_string : ℕ → Bytes

unfoldable pub ends_with_slash : Bytes → Bool
ends_with_slash [] = false
ends_with_slash (c ∷ []) = nat_beq c b'/'
ends_with_slash (c ∷ d ∷ cs) = ends_with_slash (d ∷ cs)

unfoldable pub join_topic : Bytes → Bytes → Bytes
join_topic prefix suffix =
    if is_empty prefix
    then suffix
    else if ends_with_slash prefix
    then prefix ++ suffix
    else prefix ++ (b'/' ∷ suffix)

abbrev pub fire_event_id : Bytes → ℕ → Bytes
fire_event_id channel n = text "fire-event:" ++ channel ++ (b':' ∷ to_string n)

abbrev pub fire_alarm_id : Bytes → ℕ → Bytes
fire_alarm_id channel n = text "fire-alarm:" ++ channel ++ (b':' ∷ to_string n)

abbrev pub retained_delivery_id : Bytes → Bytes
retained_delivery_id channel = text "fire-state:" ++ channel

abbrev pub lifecycle_delivery_id : Bytes → Bytes
lifecycle_delivery_id event = text "fire-lifecycle:" ++ event

-- `protocolFor` of the signal's version.
abbrev pub protocol_for : ProtocolVersion → FireMode
protocol_for boot_epoch_v2 = fire_versioned
protocol_for legacy_v1 = fire_legacy

unfoldable pub make_delivery :
    SinkKind → Bytes → Bytes → AlarmState → Bytes → Bytes → Bytes → Bytes → Bytes → Delivery
make_delivery kind key logical state event alarm topic payload timestamp = record {
  delivery_key = key;
  sink_kind = kind;
  logical_key = logical;
  row_sensor = state.sensor_id;
  row_channel = state.channel_id;
  event_id = event;
  alarm_id = alarm;
  row_revision = state.fire_revision;
  topic = topic;
  payload_json = payload;
  qos = 1;
  retain = is_retained kind;
  attempt_count = 0;
  next_attempt_at = timestamp;
  last_error = [];
  delivery_state = pending;
  acknowledged_revision = none;
  created_at = timestamp;
  row_updated_at = timestamp;
}

abbrev pub reply_with : CommandStatus → ℕ → CommandResult
reply_with status n = record {
  status = status;
  revision = n;
  retryable = false;
  blocks_channel = false;
}

-- `retryableResult`, with whether the channel is blocked.
abbrev pub retryable_result : ℕ → Bool → CommandResult
retryable_result n blocks = record {
  status = failed_command;
  revision = n;
  retryable = true;
  blocks_channel = blocks;
}

unfoldable pub mutation_result : MutationResult → CommandResult
mutation_result r = elim r.outcome [
  | committed ↦ reply_with durably_committed r.result_revision
  | idempotent ↦ reply_with unchanged r.result_revision
  | failed ↦ retryable_result r.result_revision true
  | conflict ↦ reply_with failed_command r.result_revision
  | invalid ↦ reply_with failed_command r.result_revision
]

unfoldable pub find_by_sensor : Bytes → List Binding → Option Binding
find_by_sensor sensor [] = none
find_by_sensor sensor (b ∷ bs) =
    if b.bound_sensor == sensor then some b else find_by_sensor sensor bs

unfoldable pub find_by_channel : Bytes → List Binding → Option Binding
find_by_channel channel [] = none
find_by_channel channel (b ∷ bs) =
    if b.bound_channel == channel then some b else find_by_channel channel bs

-- A reply at once, or a mutation: of the cursor alone, or a transition within the readiness boundary.
pub data Plan : Type 0 where
  reply : CommandResult → Plan
  mutate : Mutation → Bool → Plan

-- The alarm's next state and the two deliveries of its transition, at `now`.
unfoldable pub transition_mutation :
    Texts → Config → Bytes → Bytes → Signal → AlarmState → ℕ → Bytes → Mutation
transition_mutation t c channel topic signal next expected alarm =
    let retained_id = retained_delivery_id channel in
    let lifecycle_id = lifecycle_delivery_id next.last_event_id in
    let payload =
      t.build_fire_json c.camera_id channel signal next.desired_lifecycle next.last_event_id alarm
        next.fire_revision in
    record {
      expected_revision = expected;
      next_state = next;
      retained_delivery = some (
          make_delivery retained_state retained_id topic next next.last_event_id alarm topic
            (payload retained_id) next.updated_at);
      lifecycle_delivery = some (
          make_delivery lifecycle_event lifecycle_id next.last_event_id next next.last_event_id
            alarm (join_topic c.lifecycle_topic_prefix channel) (payload lifecycle_id)
            next.updated_at);
    }
