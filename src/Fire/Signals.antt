-- ===== src/Fire/Signals.antt =====
-- src/event/FireAlarmService.cpp: what a signal of a fire sensor leads to.
use pi_server.Base.{
  ℕ, ◌+◌, Bool, true, false, not, ◌||◌, Option, none, some, is_some, List, [], ◌∷◌, Bytes, bytes_eq,
  is_empty, nat_beq, if◌then◌else◌,
}
use pi_server.Sensor.Sequence.{
  ProtocolVersion, legacy_v1, boot_epoch_v2, Fact, Decision, duplicate, evaluate_sensor_sequence,
  accepted,
}
use pi_server.Fire.State.{
  opened_alarm, resolved, Signal, AlarmState, max_fire_revision, is_active, same_mode,
}
use pi_server.Fire.Checks.{same_boot, same_number, same_bool}
use pi_server.Fire.Store.{Store, cursor_of, is_sensor_boot_id_retired}
use pi_server.Fire.Service.{
  Binding, Config, Texts, fire_event_id, fire_alarm_id, protocol_for, reply_with, retryable_result,
  Plan, reply, mutate, transition_mutation, rejected, unchanged, failed_command,
}

-- Version, boot ID and sequence of a signal agree.
abbrev pub has_boot : Option Bytes → Bool
has_boot none = false
has_boot (some boot) = not (is_empty boot)

abbrev pub disagrees_by : ProtocolVersion → Option Bytes → Option ℕ → Bool
disagrees_by boot_epoch_v2 boot sequence = not (has_boot boot) || not (is_some sequence)
disagrees_by legacy_v1 boot sequence = is_some boot

abbrev pub disagrees : Signal → Bool
disagrees signal =
    disagrees_by signal.source_protocol_version signal.source_boot_id signal.source_sequence

-- The retired boot IDs that the cursor holds: at most the signal's own.
abbrev pub retired_by : Store → Bytes → ProtocolVersion → Option Bytes → List Bytes
retired_by s sensor boot_epoch_v2 (some boot) =
    if is_sensor_boot_id_retired s sensor boot then boot ∷ [] else []
retired_by s sensor _ _ = []

abbrev pub retired_in : Store → Signal → List Bytes
retired_in s signal =
    retired_by s signal.signal_sensor signal.source_protocol_version signal.source_boot_id

abbrev pub signal_fact : Signal → Fact
signal_fact signal = record {
  protocol_version = signal.source_protocol_version;
  boot_id = signal.source_boot_id;
  sequence = signal.source_sequence;
}

-- The state with the signal as its cursor.
abbrev pub with_cursor : Texts → Signal → ℕ → AlarmState → AlarmState
with_cursor t signal now current = record current {
  protocol_mode = protocol_for signal.source_protocol_version;
  active_boot_id = signal.source_boot_id;
  last_source_sequence = signal.source_sequence;
  last_signal_json = t.serialize_signal signal;
  updated_at = t.iso_string now;
}

abbrev pub moves_cursor : AlarmState → AlarmState → Bool
moves_cursor next current =
    not (same_mode next.protocol_mode current.protocol_mode)
    || (not (same_boot next.active_boot_id current.active_boot_id)
        || not (same_number next.last_source_sequence current.last_source_sequence))

abbrev pub cursor_plan : AlarmState → AlarmState → Plan
cursor_plan current next =
    if not (moves_cursor next current)
    then reply (reply_with unchanged current.fire_revision)
    else mutate
        (record {
          expected_revision = current.fire_revision;
          next_state = next;
          retained_delivery = none;
          lifecycle_delivery = none;
        })
        false

-- The state that a detected or a cleared fire leads to, and the alarm that this is about.
abbrev pub raised_state : AlarmState → Bytes → ℕ → Bool → AlarmState
raised_state next channel n true = record next {
  desired_lifecycle = opened_alarm;
  active_alarm_id = fire_alarm_id channel n;
  fire_revision = n;
  last_event_id = fire_event_id channel n;
}
raised_state next channel n false = record next {
  desired_lifecycle = resolved;
  active_alarm_id = [];
  fire_revision = n;
  last_event_id = fire_event_id channel n;
}

abbrev pub alarm_of : AlarmState → Bytes → ℕ → Bool → Bytes
alarm_of current channel n true = fire_alarm_id channel n
alarm_of current channel n false = current.active_alarm_id

unfoldable pub transition_plan : Texts → Config → Binding → Signal → AlarmState → AlarmState → Plan
transition_plan t c binding signal current next =
    let n = current.fire_revision + 1 in
    let channel = binding.bound_channel in
    let alarm = alarm_of current channel n signal.detected in
    if nat_beq current.fire_revision max_fire_revision
    then reply (reply_with failed_command current.fire_revision)
    else if is_empty alarm
    then reply (reply_with failed_command current.fire_revision)
    else mutate
        (transition_mutation t c channel binding.bound_topic signal
          (raised_state next channel n signal.detected) current.fire_revision alarm)
        true

-- A repeated number with another state is refused.
abbrev pub conflicts : Signal → Option Signal → Bool
conflicts signal none = false
conflicts signal (some previous) = not (same_bool previous.detected signal.detected)

abbrev pub is_duplicate : Decision → Bool
is_duplicate duplicate = true
is_duplicate _ = false

unfoldable pub judged_plan : Texts → Config → Binding → Signal → ℕ → AlarmState → Decision → Plan
judged_plan t c binding signal now current decision =
    let next = with_cursor t signal now current in
    if is_duplicate decision
    then reply (
        reply_with
          (if conflicts signal (t.deserialize_signal current.last_signal_json)
            then rejected
            else unchanged)
          current.fire_revision)
    else if not (accepted decision)
    then reply (reply_with rejected current.fire_revision)
    else if same_bool signal.detected (is_active current.desired_lifecycle)
    then cursor_plan current next
    else transition_plan t c binding signal current next

-- `processSignal` of the current state.
unfoldable pub signal_plan :
    Texts → Config → Store → ℕ → Binding → Signal → Option AlarmState → Plan
signal_plan t c s now binding signal none = reply (retryable_result 0 true)
signal_plan t c s now binding signal (some current) =
    if disagrees signal
    then reply (reply_with rejected current.fire_revision)
    else judged_plan t c binding signal now current
        (evaluate_sensor_sequence (cursor_of current (retired_in s signal)) (signal_fact signal))
