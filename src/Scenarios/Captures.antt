-- ===== src/Scenarios/Captures.antt =====
-- The captures of a session on their way to OCR.
use pi_server.Base.{
  lookup, insert, bytes_beq, to_string, digits_from, ◌≡◌, refl, true, false, none, List, [], ◌∷◌,
  text, pos,
}
use pi_server.Sensor.Protocol.Numbers.{decimal, decimal_from}
use pi_server.Parking.Slots.{session_started}
use pi_server.Parking.OcrPolicy.{
  on_image_arrived, image_arrived, on_ocr_result, ocr_result, init as policy_init, open_session,
  first_30s, second_60s, CaptureStage,
}
use pi_server.Parking.Capture.{
  on_capture_image, on_transition, parse_session_id, bind_session, key_for, act, CapturedImage,
  OcrOutcome, inserted, Ports, submit_ocr, init, on_ocr_outcome,
}
use pi_server.Parking.Capture.Submits.{on_ocr_outcome_submits}
use pi_server.Parking.Capture.Held.{IsSynced}
use pi_server.Parking.Capture.Release.{Event, moved, captured, after, after-init-IsSynced}

abbrev ports : Ports
ports = record {
  writes_image_log = true;
  submits_ocr = true;
  writes_ocr_failure = true;
  handles_recognized = true;
}

abbrev image : CaptureStage → CapturedImage Unit
image st = record { session_id = pos 42; slot_id = text "EV01"; stage = st; tag = tt }

abbrev stay : List (Event Unit)
stay =
    moved (record {
      code = session_started;
      slot_id = text "EV01";
      session_id = text "42";
      session = none;
    })
    ∷ captured (image first_30s) inserted
    ∷ captured (image second_60s) inserted
    ∷ []

abbrev unread : OcrOutcome
unread = record {
  outcome_session_id = pos 42;
  outcome_stage = first_30s;
  recognized = false;
  plate_number = [];
}

after-init-IsSynced_example : IsSynced (after (init ports 2) stay)
after-init-IsSynced_example = after-init-IsSynced ports 2 stay

on_ocr_outcome_submits_example :
    (i : CapturedImage Unit) × ((on_ocr_outcome (after (init ports 2) stay) unread).1
      ≡ submit_ocr i ∷ [])
unfolding after init on_capture_image lookup on_transition parse_session_id decimal decimal_from
    bind_session insert bytes_beq key_for to_string digits_from act on_image_arrived image_arrived
    on_ocr_result ocr_result policy_init open_session
on_ocr_outcome_submits_example = on_ocr_outcome_submits ports 2 stay unread refl refl
