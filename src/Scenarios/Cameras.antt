-- ===== src/Scenarios/Cameras.antt =====
-- The objects of the entrance, and the occupancy that the cameras report.
use pi_server.Base.{
  inl, none, insert, bytes_beq, Bool, lookup, ℕ, ◌≡◌, refl, true, false, some, List, [], ◌∷◌, Bytes,
  text, bytes_eq, pos,
}
use pi_server.Parking.Slots.{SlotConfig, SlotObservationBinding}
use pi_server.Entrance.Types.{ObjectKey, BestShotEvent, plate}
use pi_server.Entrance.BestShot.{init, state_at}
use pi_server.Entrance.BestShot.Bounds.{
  Op, observed, bound, swept, moved, start_ev, IsValid, step, run, run-init-IsValid,
}
use pi_server.Entrance.BestShot.Lifecycle.{step-Moves}
use pi_server.Entrance.BestShot.Moves.{Moves}
use pi_server.Sensor.Sequence.{member}
use pi_server.Iva.Aggregator.{
  update, update_found, add_slots, add_bindings, observation_key, lower_copy, canonical_token,
  after_prefix, judge, active_count, OccupancyUpdate, init as areas_init,
}
use pi_server.Iva.Aggregator.Vacancy.{Report, apply_report, run as areas_run}
use pi_server.Iva.Aggregator.Told.{binding_key, last_told}
use pi_server.Iva.Aggregator.Emissions.{apply_report-last_told}
use pi_server.Iva.Coordinator.{Signal, intrusion, exit, Action, init as exits_init}
use pi_server.Iva.Coordinator.Pending.{Op as ExitOp, signalled}

abbrev key : ObjectKey
key = record { camera_id = text "c"; channel_id = text "1"; object_id = text "o" }

abbrev shot : ℕ → BestShotEvent
shot t = record {
  key = key;
  kind = plate;
  image_ref = text "i";
  rtsp_url = [];
  received_at_epoch_ms = pos t;
}

abbrev calls : List Op
calls =
    observed (shot 5) ∷ moved start_ev key ∷ bound key (pos 3) ∷ observed (shot 6) ∷ swept 90 ∷ []

run-init-IsValid_example : IsValid (run (init 60 1) calls)
run-init-IsValid_example = run-init-IsValid 60 1 calls

step-Moves_example :
    Moves
      (state_at (run (init 60 1) calls) key)
      (state_at (step (run (init 60 1) calls) (swept 200)) key)
step-Moves_example =
    step-Moves (run (init 60 1) calls) (swept 200) key (run-init-IsValid 60 1 calls)

abbrev binding : SlotObservationBinding
binding = record {
  camera_id = text "CAM";
  video_source_token = text "VideoSourceToken-1";
  rule_name = text "Area";
  enabled = true;
  priority = pos 1;
}

abbrev area : Bytes → SlotConfig
area slot = record {
  slot_id = slot;
  enabled = true;
  zone_type = text "EV";
  sensor_id = text "HALL01";
  camera_bindings = binding ∷ [];
}

abbrev quiet : Bytes → Bool → Report
quiet slot active = record {
  slot_id = slot;
  camera_id = text "cam";
  video_source_token = text "vs-1";
  rule_name = text "area";
  active = active;
}

abbrev areas : List SlotConfig
areas = area (text "EV01") ∷ area (text "EV02") ∷ []

abbrev left_free : OccupancyUpdate
left_free = record {
  update_slot_id = text "EV01";
  occupied = false;
  active_area_count = 0;
  known_area_count = 1;
  configured_area_count = 1;
}

apply_report-last_told_example :
    (left_free.update_slot_id ≡ text "EV01")
    × (last_told none
          (text "EV01")
          (binding_key binding)
          (quiet (text "EV01") true ∷ quiet (text "EV01") false ∷ [])
        ≡ some false)
unfolding apply_report areas_run areas_init update update_found lookup add_slots insert bytes_beq
    member add_bindings observation_key lower_copy canonical_token after_prefix judge active_count
apply_report-last_told_example =
    apply_report-last_told areas (quiet (text "EV01") true ∷ []) (quiet (text "EV01") false) _
      left_free (area (text "EV01")) binding refl refl (inl refl) refl refl (inl refl) refl

abbrev seen : Action → Signal Unit
seen a = record {
  slot_id = text "EV01";
  camera_id = text "cam";
  video_source_token = text "vs-1";
  rule_name = text "area";
  action = a;
  authoritative_exit = true;
  tag = tt;
}

abbrev arrival_and_exit : List (ExitOp Unit)
arrival_and_exit = signalled (seen intrusion) 5 ∷ signalled (seen exit) 9 ∷ []
