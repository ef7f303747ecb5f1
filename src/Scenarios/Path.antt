-- ===== src/Scenarios/Path.antt =====
-- The worker of the hall with its index, and the capture scheduler.
use pi_server.Base.{
  ◌*◌, false, ℕ, ◌+◌, ◌≤◌, ◌≡◌, refl, true, not, is_empty, Option, none, some, List, [], ◌∷◌, All,
  Bytes, text, bytes_eq, Map, lookup, insert, bytes_beq,
}
use pi_server.Sensor.Sequence.{legacy, legacy_v1}
use pi_server.Parking.Event.{SensorEvent, SensorState, occupied, vacant}
use pi_server.Parking.Gate.{Gate, init as gate_init}
use pi_server.Parking.Gate.Hold.{is_reached}
use pi_server.Parking.Session.{OccupancySession, active}
use pi_server.Parking.Slots.{
  SlotConfig, Slot, TransitionResult, session_started, init as slots_init, add_slots,
}
use pi_server.Parking.Slots.Lifecycle.{IsValid}
use pi_server.Parking.Slots.Mirror.{Mirrors}
use pi_server.Parking.ActiveIndex.{ActiveIndex, apply}
use pi_server.Parking.Worker.{Worker, init, add_sink}
use pi_server.Sensor.Protocol.Messages.{SensorMessage}
use pi_server.Sensor.Adapter.{adapt, event_of}
use pi_server.Sensor.Adapter.Routing.{Takes, adapt-Takes}
use pi_server.Parking.Worker.Path.{run, init-run}
use pi_server.Parking.SensorIndex.{add_sensors, find_by_sensor_id, match_of, init as sensors_init}
use pi_server.Parking.SensorIndex.Complete.{Found, init-Found}
use pi_server.Parking.Scheduler.{
  hall_occupied_30s, hall_occupied_60s, Scheduler, on_transition, due, next_deadline, dispatch,
  dispatch_all,
}
use pi_server.Parking.Scheduler.Due.{next_deadline-due, due_again}
use pi_server.Parking.Scheduler.Answer.{answer, on_dispatch_result}
use pi_server.Parking.Scheduler.Attempts.{Op as SchedulerOp, moved, polled, reported, after}
use pi_server.Parking.Scheduler.Requests.{count_for, budget}
use pi_server.Parking.Scheduler.Budget.{requested, starts}
use pi_server.Parking.Scheduler.Counted.{requested-starts}

abbrev event : SensorState → ℕ → SensorEvent
event st t = record {
  slot_id = text "EV01";
  sensor_id = text "HALL01";
  state = st;
  occurred_at = t;
  source_sequence = some t;
  source_protocol_version = legacy_v1;
  source_boot_id = none;
  source_transport = text "uart";
  received_monotonic = t;
}

abbrev config : SlotConfig
config = record {
  slot_id = text "EV01";
  enabled = true;
  zone_type = text "EV";
  sensor_id = text "HALL01";
  camera_bindings = [];
}

abbrev slots : Option OccupancySession → Map Bytes Slot
slots s = (text "EV01", record { config = config; active_session = s }) ∷ []

abbrev fresh_worker : Worker ActiveIndex
fresh_worker = record {
  sequence_guard = [];
  slot_manager = record { slots = slots none; session_sequence = 3 };
  confirmation_gate = some (gate_init 5);
  sinks = [];
}

stay : List SensorEvent
stay = event occupied 10 ∷ event occupied 15 ∷ event vacant 20 ∷ []

init-run_example :
    (x : Worker ActiveIndex × ActiveIndex) × (run (add_sink fresh_worker (some apply)) [] stay
      ≡ some x)
    × IsValid x.0.slot_manager
    × Mirrors x.0.slot_manager x.1
unfolding init slots_init lookup insert
init-run_example = init-run (config ∷ []) 5 3 fresh_worker stay refl

abbrev waiting : Gate
waiting = record {
  confirm_threshold = 5;
  pending_by_slot = (text "EV01", record { first_event = event occupied 10; deadline = 15 }) ∷ [];
}

abbrev counting : Worker ℕ
counting = record {
  sequence_guard = [];
  slot_manager = record { slots = slots none; session_sequence = 3 };
  confirmation_gate = some waiting;
  sinks = (λ n r. n + 1) ∷ [];
}

abbrev session : OccupancySession
session = record {
  session_id = text "park_EV01_0_3";
  slot_id = text "EV01";
  sensor_id = text "HALL01";
  phase = active;
  started_at = 15;
  started_at_monotonic = 15;
  ended_at = none;
}

abbrev counted : Worker ℕ
counted = record {
  sequence_guard =
      (
        text "HALL01",
        record {
          mode = legacy;
          active_boot_id = none;
          last_sequence = some 15;
          retired_boot_ids = [];
        },
      )
      ∷ [];
  slot_manager = record { slots = slots (some session); session_sequence = 4 };
  confirmation_gate = some (gate_init 5);
  sinks = (λ n r. n + 1) ∷ [];
}

abbrev start : TransitionResult
start = record {
  code = session_started;
  slot_id = text "EV01";
  session_id = text "park_EV01_0_3";
  session = some session;
}

abbrev scheduler : Scheduler ℕ
scheduler = record {
  config = record {
    offsets =
        record { offset_reason = hall_occupied_30s; delay = 30 }
        ∷ record { offset_reason = hall_occupied_60s; delay = 60 }
        ∷ [];
    response_timeout = 3;
    retry_interval = 2;
    max_retries = 2;
  };
  resolver = some (λ slot_id. some 7);
  sessions = [];
}

two_captures : (on_transition scheduler start).1.scheduled ≡ 2
unfolding on_transition lookup insert
two_captures = refl

first_due : next_deadline (on_transition scheduler start).0 ≡ some 45
unfolding on_transition next_deadline lookup insert
first_due = refl

next_deadline-due_example :
    is_reached 45 (next_deadline (on_transition scheduler start).0)
    ≡ not (is_empty (due (on_transition scheduler start).0 45).1)
next_deadline-due_example = next_deadline-due (on_transition scheduler start).0 45

due_again_example : (due (due (on_transition scheduler start).0 45).0 45).1 ≡ []
due_again_example = due_again (on_transition scheduler start).0 45

-- A start, a request that fails, and its retry.
abbrev retried : List (SchedulerOp ℕ)
retried =
    moved start
    ∷ polled 45
    ∷ reported
        (record {
          request_session_id = start.session_id;
          request_slot_id = start.slot_id;
          request_sensor_id = text "HALL01";
          request_target = 7;
          request_reason = hall_occupied_30s;
          request_attempt = 1;
          session_started_at = 0;
          request_scheduled_for = 45;
          request_response_timeout = 3;
        })
        false 46
    ∷ polled 48
    ∷ []

requested_twice : requested start.session_id hall_occupied_30s scheduler retried ≡ 2
unfolding requested on_transition due on_dispatch_result dispatch_all dispatch count_for lookup
    insert answer bytes_beq
requested_twice = refl

requested-starts_example :
    (requested start.session_id hall_occupied_30s scheduler retried
      ≤ starts start.session_id retried * budget scheduler.config hall_occupied_30s)
    × All
        (λ q. q.request_attempt ≤ 1 + scheduler.config.max_retries)
        (due (after scheduler retried) 80).1
requested-starts_example =
    requested-starts scheduler retried start.session_id hall_occupied_30s 80 refl

init-Found_example :
    All
      (Found ((text "HALL01", match_of config) ∷ []))
      (config ∷ record config { enabled = false } ∷ [])
unfolding sensors_init lookup insert
init-Found_example =
    init-Found (config ∷ record config { enabled = false } ∷ [])
      ((text "HALL01", match_of config) ∷ []) refl

abbrev heard : SensorMessage
heard = record {
  sensor_id = text "HALL01";
  state = occupied;
  occurred_at = 10;
  sequence = none;
  protocol_version = legacy_v1;
  boot_id = none;
  node = none;
}

adapt-Takes_example : Takes (slots none) (text "EV01") (text "HALL01")
unfolding sensors_init add_sensors slots_init add_slots adapt find_by_sensor_id lookup insert
    bytes_beq
adapt-Takes_example =
    adapt-Takes (config ∷ []) ((text "HALL01", match_of config) ∷ []) (slots none) heard
      (text "uart") 12 (event_of (match_of config) heard (text "uart") 12) refl refl refl
