-- ===== src/Scenarios/Hall.antt =====
-- The hall-sensor path: sequence numbers, the gate, the slots and the OCR policy.
use pi_server.Base.{
  ℕ, ◌≤◌, ◌<◌, ◌≡◌, refl, true, false, not, none, some, List, [], ◌∷◌, arith, All, Bytes, text,
  bytes_eq, Map, lookup, insert, bytes_beq, is_empty,
}
use pi_server.Sensor.Sequence.{
  initial, legacy_v1, evaluate_sensor_sequence, commit_sensor_sequence, member,
}
use pi_server.Sensor.Sequence.Replay.{receive_all, evaluate_sensor_sequence-no_replay}
use pi_server.Parking.Event.{SensorEvent, SensorState, occupied, vacant}
use pi_server.Parking.SequenceGuard.Isolation.{state_of, accept_all, facts_of, state_of-accept_all}
use pi_server.Parking.Gate.{init as gate_init, evaluate, take_due, next_deadline}
use pi_server.Parking.Gate.Hold.{
  observed, after, Confirmed, is_reached, evaluate_forward-Confirmed, take_due-Confirmed,
  next_deadline-take_due,
}
use pi_server.Parking.OcrPolicy.{
  resolved, failed, pending, running, first_30s, second_60s, SessionState, fresh, ocr_result,
  image_arrived,
}
use pi_server.Parking.OcrPolicy.Stages.{
  Input, image, result, step, run, Inv, run-Inv, run-asks_at_most_two,
}
use pi_server.Parking.OcrPolicy.Verdict.{run_stays_resolved, ocr_result_overturned}
use pi_server.Parking.Slots.{SlotConfig, Slot, SlotManager, init, handle}
use pi_server.Parking.Slots.Lifecycle.{IsValid, Good, session_at, handle-Good, IsValid-insert}
use pi_server.Parking.Slots.Runs.{handle_all, init-handle_all, nothing_found}

abbrev boot : Bytes
boot = text "boot-a"

evaluate_sensor_sequence-no_replay_example : 7 < 8
unfolding evaluate_sensor_sequence commit_sensor_sequence receive_all bytes_beq member
evaluate_sensor_sequence-no_replay_example =
    evaluate_sensor_sequence-no_replay initial [] boot 7 8 refl

abbrev event : SensorState → ℕ → SensorEvent
event st t = record {
  slot_id = text "EV01";
  sensor_id = text "HALL01";
  state = st;
  occurred_at = t;
  source_sequence = some t;
  source_protocol_version = legacy_v1;
  source_boot_id = none;
  source_transport = text "uart";
  received_monotonic = t;
}

abbrev arrival : SensorEvent
arrival = event occupied 10

state_of-accept_all_example :
    state_of (text "HALL01") (accept_all [] (arrival ∷ event vacant 11 ∷ []))
    ≡ receive_all initial (facts_of (text "HALL01") (arrival ∷ event vacant 11 ∷ []))
unfolding lookup
state_of-accept_all_example =
    state_of-accept_all (text "HALL01") [] (arrival ∷ event vacant 11 ∷ [])

evaluate_forward-Confirmed_example : Confirmed 5 (observed arrival false ∷ []) (text "EV01") 15
unfolding after evaluate bytes_beq lookup gate_init insert
evaluate_forward-Confirmed_example =
    evaluate_forward-Confirmed 5 (observed arrival false ∷ []) (event occupied 15) refl refl

take_due-Confirmed_example :
    All
      (λ e.
        (e.received_monotonic ≡ 16)
        × (e.occurred_at ≡ 99)
        × Confirmed 5 (observed arrival false ∷ []) e.slot_id 16)
      (take_due (after 5 (observed arrival false ∷ [])) 16 99).1
take_due-Confirmed_example = take_due-Confirmed 5 (observed arrival false ∷ []) 16 99

next_deadline-take_due_example :
    is_reached 16 (next_deadline (after 5 (observed arrival false ∷ [])))
    ≡ not (is_empty (take_due (after 5 (observed arrival false ∷ [])) 16 99).1)
next_deadline-take_due_example =
    next_deadline-take_due (after 5 (observed arrival false ∷ [])) 16 99

abbrev captures : List Input
captures = image first_30s ∷ image second_60s ∷ result first_30s false ∷ []

run-Inv_example : Inv 2 (run 2 fresh captures).0
run-Inv_example = run-Inv 2 fresh captures (record {
  held_waits = λ e. cc;
  first_never_held = λ e. cc;
  pending_has_tries = λ e. omega arith;
  failed_used_up = λ e. cc;
})

run-asks_at_most_two_example : (run 2 fresh captures).1 ≤ 2
run-asks_at_most_two_example = run-asks_at_most_two 2 captures

-- The first image fails, so the held second one is sent: OCR is asked twice.
held_image_sent : (run 2 fresh captures).1 ≡ 2
unfolding run step image_arrived ocr_result
held_image_sent = refl

abbrev recognition : List Input
recognition = image first_30s ∷ result first_30s true ∷ []

run_stays_resolved_example : (run 2 (run 2 fresh recognition).0 captures).0.result ≡ resolved
unfolding run step image_arrived ocr_result
run_stays_resolved_example = run_stays_resolved 2 recognition captures (omega arith) refl

abbrev both_running : SessionState
both_running = record { result = pending; stage_30 = running; stage_60 = running; attempts = 0 }

ocr_result_overturned_example :
    let (t, recognized) = ocr_result 1 both_running first_30s true in
    let (u, failure) = ocr_result 1 t second_60s false in
    (t.result ≡ resolved)
    × (recognized.is_resolved ≡ true)
    × (u.result ≡ failed)
    × (failure.exhausted ≡ true)
ocr_result_overturned_example = ocr_result_overturned 1 both_running (omega arith) refl refl

abbrev config : SlotConfig
config = record {
  slot_id = text "EV01";
  enabled = true;
  zone_type = text "EV";
  sensor_id = text "HALL01";
  camera_bindings = [];
}

abbrev slots : Map Bytes Slot
slots = (text "EV01", record { config = config; active_session = none }) ∷ []

stay : List SensorEvent
stay = arrival ∷ event occupied 12 ∷ event vacant 20 ∷ []

init-handle_all_example :
    (m : SlotManager) × (handle_all (record { slots = slots; session_sequence = 3 }) stay ≡ some m)
    × IsValid m
unfolding init lookup insert
init-handle_all_example = init-handle_all (config ∷ []) slots 3 stay refl

abbrev manager : SlotManager
manager = record { slots = slots; session_sequence = 3 }

manager-IsValid : IsValid manager
unfolding insert
manager-IsValid =
    IsValid-insert (record { slots = []; session_sequence = 3 }) (text "EV01")
      (record { config = config; active_session = none }) 3
      (λ k slot f. absurd (nothing_found k slot f)) (refl, refl, tt)

handle-Good_example : Good (text "EV01") (session_at manager (text "EV01")) (handle manager arrival)
handle-Good_example = handle-Good manager arrival manager-IsValid
