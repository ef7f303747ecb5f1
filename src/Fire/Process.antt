-- ===== src/Fire/Process.antt =====
-- src/event/FireAlarmService.cpp: acknowledging, clearing by hand, and a command from the database's state to
-- the database's next one.
use pi_server.Base.{
  ◌&&◌, ℕ, ◌+◌, Bool, true, false, not, ◌||◌, Option, none, some, [], ◌++◌, Bytes, text, bytes_eq,
  ◌==◌, is_empty, nat_beq, if◌then◌else◌,
}
use pi_server.Fire.State.{
  acknowledged, same_lifecycle, resolved, Signal, AlarmState, max_fire_revision, is_active,
}
use pi_server.Fire.Outbox.{failed}
use pi_server.Fire.Store.{
  apply_fire_state_mutation, answer, get_fire_alarm_state, version_of, Store,
}
use pi_server.Fire.Service.{
  Binding, CommandResult, Config, Texts, fire_event_id, reply_with, retryable_result,
  mutation_result, find_by_sensor, find_by_channel, Plan, reply, mutate, transition_mutation,
  rejected, unchanged, failed_command,
}
use pi_server.Fire.Signals.{signal_plan}

-- The kinds of a command, with the channel and the alarm that it names.
pub data FireCommand : Type 0 where
  signalled : Signal → FireCommand
  acknowledge : Bytes → Bytes → FireCommand
  manual_clear : Bytes → FireCommand

abbrev pub acknowledged_state : Texts → ℕ → AlarmState → Bytes → AlarmState
acknowledged_state t now current channel = record current {
  desired_lifecycle = acknowledged;
  fire_revision = current.fire_revision + 1;
  last_event_id = fire_event_id channel (current.fire_revision + 1);
  updated_at = t.iso_string now;
}

abbrev pub restored_plan :
    Texts → Config → ℕ → Binding → Bytes → Bytes → AlarmState → Option Signal → Plan
restored_plan t c now binding channel alarm current none =
    reply (reply_with failed_command current.fire_revision)
restored_plan t c now binding channel alarm current (some signal) =
    mutate
      (transition_mutation t c channel binding.bound_topic (record signal { occurred_at = now })
        (acknowledged_state t now current channel) current.fire_revision alarm)
      true

-- `processAcknowledge` of the current state.
unfoldable pub acknowledge_found :
    Texts → Config → ℕ → Bool → Binding → Bytes → Bytes → Option AlarmState → Plan
acknowledge_found t c now ready binding channel alarm none = reply (retryable_result 0 true)
acknowledge_found t c now ready binding channel alarm (some current) =
    if not (current.active_alarm_id == alarm) || not (is_active current.desired_lifecycle)
    then reply (reply_with rejected current.fire_revision)
    else if not ready
    then reply (retryable_result current.fire_revision false)
    else if same_lifecycle current.desired_lifecycle acknowledged
    then reply (reply_with unchanged current.fire_revision)
    else if nat_beq current.fire_revision max_fire_revision
    then reply (reply_with failed_command current.fire_revision)
    else restored_plan t c now binding channel alarm current
        (t.deserialize_signal current.last_signal_json)

abbrev pub cleared_state : Texts → ℕ → AlarmState → Bytes → AlarmState
cleared_state t now current channel = record current {
  desired_lifecycle = resolved;
  active_alarm_id = [];
  fire_revision = current.fire_revision + 1;
  last_event_id = fire_event_id channel (current.fire_revision + 1);
  updated_at = t.iso_string now;
}

-- The signal that a clear by hand reports: the last one, or one of the cursor.
abbrev pub cleared_signal : ℕ → Bytes → AlarmState → Option Signal → Signal
cleared_signal now channel current (some signal) = record signal {
  detected = false;
  occurred_at = now;
  source_transport = text "manual-control";
  raw_payload = text "MANUAL_FIRE_CLEAR:" ++ channel;
}
cleared_signal now channel current none = record {
  signal_sensor = current.sensor_id;
  detected = false;
  occurred_at = now;
  source_sequence = current.last_source_sequence;
  source_protocol_version = version_of current.protocol_mode;
  source_boot_id = current.active_boot_id;
  source_transport = text "manual-control";
  raw_payload = text "MANUAL_FIRE_CLEAR:" ++ channel;
}

-- `processManualClear` of the current state.
unfoldable pub clear_found : Texts → Config → ℕ → Binding → Bytes → Option AlarmState → Plan
clear_found t c now binding channel none = reply (retryable_result 0 true)
clear_found t c now binding channel (some current) =
    if not (is_active current.desired_lifecycle)
    then reply (reply_with unchanged current.fire_revision)
    else if nat_beq current.fire_revision max_fire_revision
    then reply (reply_with failed_command current.fire_revision)
    else if is_empty current.active_alarm_id
    then reply (reply_with failed_command current.fire_revision)
    else mutate
        (transition_mutation t c channel binding.bound_topic
          (cleared_signal now channel current (t.deserialize_signal current.last_signal_json))
          (cleared_state t now current channel) current.fire_revision current.active_alarm_id)
        true

abbrev pub signal_bound : Texts → Config → Store → ℕ → Signal → Option Binding → Plan
signal_bound t c s now signal none = reply (reply_with rejected 0)
signal_bound t c s now signal (some b) =
    signal_plan t c s now b signal (get_fire_alarm_state s b.bound_channel)

abbrev pub acknowledge_bound :
    Texts → Config → Store → ℕ → Bool → Bytes → Bytes → Option Binding → Plan
acknowledge_bound t c s now ready channel alarm none = reply (reply_with rejected 0)
acknowledge_bound t c s now ready channel alarm (some b) =
    if is_empty alarm
    then reply (reply_with rejected 0)
    else acknowledge_found t c now ready b channel alarm (get_fire_alarm_state s channel)

abbrev pub clear_bound : Texts → Config → Store → ℕ → Bytes → Option Binding → Plan
clear_bound t c s now channel none = reply (reply_with rejected 0)
clear_bound t c s now channel (some b) =
    clear_found t c now b channel (get_fire_alarm_state s channel)

-- What `process` decides: `ready` is what the readiness of an acknowledgement answers.
unfoldable pub plan : Texts → Config → Store → ℕ → Bool → FireCommand → Plan
plan t c s now ready (signalled signal) =
    signal_bound t c s now signal (find_by_sensor signal.signal_sensor c.bindings)
plan t c s now ready (acknowledge channel alarm) =
    acknowledge_bound t c s now ready channel alarm (find_by_channel channel c.bindings)
plan t c s now ready (manual_clear channel) =
    clear_bound t c s now channel (find_by_channel channel c.bindings)

-- `applyTransition`, where `begins` is what the readiness boundary answers; a change of the cursor alone
-- does not ask it.
unfoldable pub carry_out : Store → Bool → Plan → Store × CommandResult
carry_out s begins (reply r) = (s, r)
carry_out s begins (mutate m within_boundary) =
    if within_boundary && not begins
    then (s, mutation_result (answer failed m.expected_revision))
    else let applied = apply_fire_state_mutation s m in (applied.0, mutation_result applied.1)

unfoldable pub process :
    Texts → Config → Store → ℕ → Bool → Bool → FireCommand → Store × CommandResult
process t c s now ready begins command = carry_out s begins (plan t c s now ready command)
