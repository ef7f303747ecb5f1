-- ===== src/Scenarios/Alarms.antt =====
-- A fire that is detected, acknowledged and cleared by hand.
use pi_server.Base.{
  ℕ, List, text, Bytes, [], ◌∷◌, none, some, refl, ◌≡◌, true, lookup, insert, bytes_beq, AllEntries,
  length, Bool, subst,
}
use pi_server.Base.{bytes_eq, to_string, digits_from}
use pi_server.Fire.Process.{FireCommand, clear_found, acknowledge_found}
use pi_server.Fire.Checks.{
  valid_mutation, valid_delivery, same_delivery_semantic, same_state_semantic,
}
use pi_server.Fire.Store.{is_retired_row, is_sensor_boot_id_retired}
use pi_server.Fire.Service.{join_topic, ends_with_slash}
use pi_server.Sensor.Sequence.{legacy_v1, evaluate_sensor_sequence}
use pi_server.Fire.State.{Signal, AlarmState, resolved, fire_unseen}
use pi_server.Fire.Outbox.{Delivery, retained_state, pending}
use pi_server.Fire.Store.{
  Store, apply_fire_state_mutation, apply_found, advance, write, get_fire_alarm_state,
}
use pi_server.Fire.Service.{
  Config, Texts, find_by_sensor, find_by_channel, make_delivery, transition_mutation,
}
use pi_server.Fire.Signals.{signal_plan, judged_plan, transition_plan}
use pi_server.Fire.Process.{signalled, acknowledge, manual_clear, plan, process, carry_out}
use pi_server.Fire.Alarms.{Kept, Moves, process-Moves}
use pi_server.Fire.Consistent.{Written, Rowed}
use pi_server.Fire.Stored.{Consistent}
use pi_server.Base.{◌+◌, ◌≤◌, min, arith, false}
use pi_server.Fire.Queue.{
  Queue, Item, fire_signal as signal_kind, acknowledgement, clear_by_hand, enqueue, admitted_as,
  pending_ticket, take_next, select_item, finish_item,
}
use pi_server.Fire.Queue.Bounds.{
  Op, submitted, taken_at, answered, step, run as run_queue, Bounded, run-Bounded,
}
use pi_server.Fire.Runs.{Call, AllStored, IsReady, run, run-AllStored}
use pi_server.Base.{Bool-cases, inl, inr, ◌==◌, bytes_beq_iff}

abbrev fire_signal : Bool → Signal
fire_signal detected = record {
  signal_sensor = text "F1";
  detected = detected;
  occurred_at = 7;
  source_sequence = none;
  source_protocol_version = legacy_v1;
  source_boot_id = none;
  source_transport = text "uart";
  raw_payload = [];
}

abbrev texts : Texts
texts = record {
  serialize_signal = λ signal. text "s";
  deserialize_signal = λ json. some (fire_signal true);
  build_fire_json = λ camera channel signal l event alarm n delivery. text "{}";
  iso_string = λ n. text "t";
}

texts-Written : Written texts
texts-Written = record {
  signals = λ signal. refl;
  payloads = λ camera channel signal l event alarm n delivery. refl;
  times = λ n. refl;
}

abbrev fire_config : Config
fire_config = record {
  camera_id = text "cam";
  lifecycle_topic_prefix = text "fire";
  bindings =
      (record { bound_sensor = text "F1"; bound_channel = text "c1"; bound_topic = text "st/c1" })
      ∷ [];
}

-- What `initialize` makes of the channel.
abbrev quiet : AlarmState
quiet = record {
  channel_id = text "c1";
  sensor_id = text "F1";
  retained_topic = text "st/c1";
  desired_lifecycle = resolved;
  active_alarm_id = [];
  last_event_id = text "fire-event:c1:1";
  fire_revision = 1;
  protocol_mode = fire_unseen;
  active_boot_id = none;
  last_source_sequence = none;
  last_signal_json = text "s";
  updated_at = text "t";
}

abbrev quiet_row : Delivery
quiet_row = record {
  delivery_key = text "fire-state:c1";
  sink_kind = retained_state;
  logical_key = text "st/c1";
  row_sensor = text "F1";
  row_channel = text "c1";
  event_id = text "fire-event:c1:1";
  alarm_id = text "fire-alarm:c1:bootstrap";
  row_revision = 1;
  topic = text "st/c1";
  payload_json = text "{}";
  qos = 1;
  retain = true;
  attempt_count = 0;
  next_attempt_at = text "t";
  last_error = [];
  delivery_state = pending;
  acknowledged_revision = none;
  created_at = text "t";
  row_updated_at = text "t";
}

abbrev quiet_store : Store
quiet_store = record {
  opened = true;
  states = (text "c1", quiet) ∷ [];
  outbox = (text "fire-state:c1", quiet_row) ∷ [];
  retired_boots = [];
}

-- The retained row is kept, and each step adds its own event.
fire_day :
    length
      (process texts fire_config
        (process texts fire_config
          (process texts fire_config quiet_store 7 true true (signalled (fire_signal true))).0
          8
          true
          true
          (acknowledge (text "c1") (text "fire-alarm:c1:2"))).0
        9
        true
        true
        (manual_clear (text "c1"))).0.outbox
    ≡ 4
unfolding process plan carry_out apply_fire_state_mutation apply_found advance write insert
    bytes_beq find_by_channel clear_found get_fire_alarm_state acknowledge_found find_by_sensor
    signal_plan lookup judged_plan evaluate_sensor_sequence transition_plan valid_mutation
    transition_mutation valid_delivery make_delivery join_topic ends_with_slash to_string
    digits_from same_delivery_semantic same_state_semantic is_retired_row is_sensor_boot_id_retired
fire_day = refl

process-Moves_example :
    AllEntries Kept
      (process texts fire_config quiet_store 7 true true (signalled (fire_signal true))).0.states
    × ((channel : Bytes) (old : AlarmState)
        → lookup channel quiet_store.states ≡ some old
        → (new : AlarmState) × (lookup channel
              (process texts fire_config quiet_store 7 true true
                (signalled (fire_signal true))).0.states
            ≡ some new)
          × Moves old new)
process-Moves_example =
    process-Moves texts fire_config quiet_store 7 true true (signalled (fire_signal true))
      ((refl, refl), tt)

quiet-Rowed : Rowed quiet_store.outbox (text "c1") quiet
unfolding lookup bytes_beq
quiet-Rowed = record {
  own = (refl, refl);
  channel_named = refl;
  sensor_named = refl;
  topic_named = refl;
  event_named = refl;
  signal_named = refl;
  update_named = refl;
  fits = refl;
  retained = (quiet_row, refl, refl, refl, refl);
  unsent = λ n later. refl;
}

quiet_bound :
    (a : AlarmState)
    → lookup (text "c1") quiet_store.states ≡ some a
    → (a.sensor_id ≡ text "F1") × (a.retained_topic ≡ text "st/c1")
unfolding lookup bytes_beq
quiet_bound a f =
    let same : quiet ≡ a = cc in
    subst (λ x. (x.sensor_id ≡ text "F1") × (x.retained_topic ≡ text "st/c1")) same (refl, refl)

quiet-Consistent : Consistent quiet_store
unfolding lookup
quiet-Consistent channel a f = elim (Bool-cases (text "c1" == channel)) [
  | inr t1 ↦ cc (rw t1 at f)
  | inl t1 ↦
      let name : text "c1" ≡ channel = (bytes_beq_iff (text "c1") channel).0 t1 in
      let same : quiet ≡ a = cc (rw t1 at f) in
      subst (λ k. Rowed quiet_store.outbox k a) name
        (subst (Rowed quiet_store.outbox (text "c1")) same quiet-Rowed)
]

abbrev call : FireCommand → ℕ → Call
call command now = record { command = command; now = now; ready = true; begins = true }

abbrev day : List Call
day =
    call (signalled (fire_signal true)) 7
    ∷ call (acknowledge (text "c1") (text "fire-alarm:c1:2")) 8
    ∷ call (manual_clear (text "c1")) 9
    ∷ []

run-AllStored_example :
    AllStored texts fire_config quiet_store day
    × IsReady fire_config (run texts fire_config quiet_store day)
run-AllStored_example =
    run-AllStored texts fire_config quiet_store day texts-Written
      (record { opened_now = refl; rows = quiet-Consistent; bound = (quiet_bound, tt) })

abbrev item : Item
item = record {
  kind = acknowledgement;
  ticket = 0;
  item_channel = text "c1";
  item_alarm = text "fire-alarm:c1:2";
  retry_count = 0;
  retry_after = 0;
  holds_channel_block = false;
}

abbrev empty_queue : Queue
empty_queue = record {
  capacity = 2;
  binding_count = 1;
  retry_delay = 100;
  items = [];
  blocked = [];
  pending_acks = [];
  next_ticket = 1;
  running = true;
  accepting = true;
  processing = none;
}

abbrev queue_ops : List Op
queue_ops =
    submitted (record item { kind = signal_kind })
    ∷ taken_at 5
    ∷ submitted (record item { kind = clear_by_hand })
    ∷ submitted (record item { kind = clear_by_hand })
    ∷ answered 6 true true
    ∷ []

-- The bound is reached: the command that is tried again comes on top of a full queue.
over_capacity : length (run_queue empty_queue queue_ops).items ≡ 3
unfolding run_queue step enqueue take_next select_item finish_item lookup insert bytes_beq
over_capacity = refl

run-Bounded_example :
    Bounded (run_queue empty_queue queue_ops)
    × ((c : Item) (n : ℕ)
        → c.kind ≡ acknowledgement
        → pending_ticket (run_queue empty_queue queue_ops) c ≡ none
        → (enqueue (run_queue empty_queue queue_ops) c).1 ≡ admitted_as n
        → length (enqueue (run_queue empty_queue queue_ops) c).0.items
            + min
                (run_queue empty_queue queue_ops).capacity
                (run_queue empty_queue queue_ops).binding_count
          ≤ (run_queue empty_queue queue_ops).capacity)
run-Bounded_example = run-Bounded empty_queue queue_ops (omega arith)
