-- ===== src/Parking/Capture.antt =====
-- src/parking/HallCaptureCoordinator.cpp: the captures of a session on their way to OCR and into
-- the database. The ports are functions that may be missing: a call that is made is an `Effect`, in
-- order, and the answer of the image log is an argument. `T` holds the fields of an image that are
-- only passed on. A method is one step; in the source `onTransition` calls the policy's `openSession`
-- outside the coordinator's mutex, so that another thread's call may come just before the binding.
pub mod Held
pub mod Release
pub mod Submits
use pi_server.Base.{
  ℕ, ◌+◌, ◌^◌, Bool, true, false, not, ◌&&◌, Option, none, some, List, [], ◌∷◌, Bytes, bytes_eq,
  ◌==◌, nat_beq, Map, lookup, insert, erase, contains, length, ltb, to_string, ℤ, pos, negsuc,
  if◌then◌else◌,
}
use pi_server.Sensor.Protocol.Numbers.{decimal}
use pi_server.Parking.Slots.{TransitionCode, session_started, session_completed, TransitionResult}
use pi_server.Parking.OcrPolicy.{
  CaptureStage, ImageAction, run_ocr, store_evidence_only, hold_for_pending_ocr, drop,
  HallOcrPolicy, OcrFold, CloseReport, open_session, close_session, on_image_arrived, on_ocr_result,
  init as policy_init,
}

pub record CapturedImage (T : Type 0) : Type 0 where
  pub session_id : ℤ
  pub slot_id : Bytes
  pub stage : CaptureStage
  pub tag : T

pub record OcrOutcome : Type 0 where
  pub outcome_session_id : ℤ
  pub outcome_stage : CaptureStage
  pub recognized : Bool
  pub plate_number : Bytes

pub data ImageStoreResult : Type 0 where
  inserted duplicate inactive_session failed : ImageStoreResult

pub data CaptureResult : Type 0 where
  stored duplicate_image inactive capture_failed : CaptureResult

pub data Effect (T : Type 0) : Type 0 where
  submit_ocr : CapturedImage T → Effect T
  write_ocr_failure : ℤ → Bytes → ℕ → Effect T
  handle_recognized : ℤ → Bytes → Bytes → Effect T

pub record Ports : Type 0 where
  pub writes_image_log : Bool
  pub submits_ocr : Bool
  pub writes_ocr_failure : Bool
  pub handles_recognized : Bool

pub record Binding (T : Type 0) : Type 0 where
  pub bound_session_id : ℤ
  pub bound_slot_id : Bytes
  pub held_image : Option (CapturedImage T)

pub record CaptureCoordinator (T : Type 0) : Type 0 where
  pub ports : Ports
  pub policy : HallOcrPolicy
  pub bindings : Map Bytes (Binding T)

unfoldable pub init : {T : Type 0} → Ports → ℕ → CaptureCoordinator T
init ports max_ocr_attempts = record {
  ports = ports;
  policy = policy_init max_ocr_attempts;
  bindings = [];
}

-- `std::to_string` of a signed number.
unfoldable pub key_for : ℤ → Bytes
key_for (pos n) = to_string n
key_for (negsuc n) = b'-' ∷ to_string (n + 1)

in_range : Option ℕ → Option ℤ
in_range none = none
in_range (some n) = if ltb n (2 ^ 63) then some (pos n) else none

-- A minus sign leaves only zero to be not negative.
minus : Option ℕ → Option ℤ
minus none = none
minus (some n) = if nat_beq n 0 then some (pos 0) else none

-- `std::from_chars` of the whole text, for a number that is not negative.
unfoldable pub parse_session_id : Bytes → Option ℤ
unfolding in_range minus
parse_session_id [] = none
parse_session_id (c ∷ cs) =
    if nat_beq c b'-' then minus (decimal cs) else in_range (decimal (c ∷ cs))

abbrev pub when : {T : Type 0} → Bool → Effect T → List (Effect T)
when true e = e ∷ []
when false e = []

unfoldable pub bind_session : {T : Type 0} → CaptureCoordinator T → ℤ → Bytes → CaptureCoordinator T
bind_session c id slot_id =
    let key = key_for id in
    let c' = record c { policy = open_session c.policy key } in
    if contains key c.bindings then c' else record c' {
      bindings =
          insert key (record { bound_session_id = id; bound_slot_id = slot_id; held_image = none })
            c.bindings;
    }

abbrev pub released :
    {T : Type 0}
    → CaptureCoordinator T
    → Bytes
    → Binding T
    → HallOcrPolicy × CloseReport
    → CaptureCoordinator T × List (Effect T)
released c key b (p, report) = (
  record c { policy = p; bindings = erase key c.bindings },
  when (report.settled_at_close && c.ports.writes_ocr_failure)
      (write_ocr_failure b.bound_session_id b.bound_slot_id report.attempts),
)

unfoldable pub release_found :
    {T : Type 0}
    → CaptureCoordinator T
    → Bytes
    → Option (Binding T)
    → CaptureCoordinator T × List (Effect T)
release_found c key none = (c, [])
release_found c key (some b) = released c key b (close_session c.policy key)

unfoldable pub release_session :
    {T : Type 0} → CaptureCoordinator T → ℤ → CaptureCoordinator T × List (Effect T)
release_session c id = release_found c (key_for id) (lookup (key_for id) c.bindings)

transition :
    {T : Type 0}
    → TransitionCode
    → CaptureCoordinator T
    → Bytes
    → Option ℤ
    → CaptureCoordinator T × List (Effect T)
transition session_started c slot_id (some id) = (bind_session c id slot_id, [])
transition session_completed c slot_id (some id) = release_session c id
transition _ c slot_id _ = (c, [])

unfoldable pub on_transition :
    {T : Type 0} → CaptureCoordinator T → TransitionResult → CaptureCoordinator T × List (Effect T)
unfolding transition
on_transition c r = transition r.code c r.slot_id (parse_session_id r.session_id)

abbrev pub hold : {T : Type 0} → CapturedImage T → Binding T → Binding T
hold image b = record b { held_image = some image }

-- What follows the policy's answer to an image.
unfoldable pub act :
    {T : Type 0}
    → CaptureCoordinator T
    → Bytes
    → Binding T
    → CapturedImage T
    → HallOcrPolicy × ImageAction
    → CaptureCoordinator T × (CaptureResult × List (Effect T))
act c key b image (p, drop) = (record c { policy = p }, (inactive, []))
act c key b image (p, store_evidence_only) = (record c { policy = p }, (stored, []))
act c key b image (p, run_ocr) =
    (record c { policy = p }, (stored, when c.ports.submits_ocr (submit_ocr image)))
act c key b image (p, hold_for_pending_ocr) =
    (record c { policy = p; bindings = insert key (hold image b) c.bindings }, (stored, []))

log_answer :
    {T : Type 0}
    → ImageStoreResult
    → CaptureCoordinator T
    → Bytes
    → Binding T
    → CapturedImage T
    → CaptureCoordinator T × (CaptureResult × List (Effect T))
log_answer inserted c key b image = act c key b image (on_image_arrived c.policy key image.stage)
log_answer duplicate c key b image = (c, (duplicate_image, []))
log_answer inactive_session c key b image = (c, (inactive, []))
log_answer failed c key b image = (c, (capture_failed, []))

capture_found :
    {T : Type 0}
    → CaptureCoordinator T
    → Bytes
    → Option (Binding T)
    → CapturedImage T
    → ImageStoreResult
    → CaptureCoordinator T × (CaptureResult × List (Effect T))
unfolding log_answer
capture_found c key none image answer = (c, (inactive, []))
capture_found c key (some b) image answer =
    if not c.ports.writes_image_log
    then (c, (capture_failed, []))
    else log_answer answer c key b image

unfoldable pub on_capture_image :
    {T : Type 0}
    → CaptureCoordinator T
    → CapturedImage T
    → ImageStoreResult
    → CaptureCoordinator T × (CaptureResult × List (Effect T))
unfolding capture_found
on_capture_image c image answer =
    let key = key_for image.session_id in capture_found c key (lookup key c.bindings) image answer

abbrev pub taken : {T : Type 0} → Bool → Option (CapturedImage T) → Option (CapturedImage T)
taken release none = none
taken release (some image) = if release then some image else none

-- The calls after an OCR outcome.
unfoldable pub outcome_effects :
    {T : Type 0}
    → Ports
    → OcrFold
    → Binding T
    → OcrOutcome
    → Option (CapturedImage T)
    → List (Effect T)
outcome_effects ports fold b o released_image =
    let exhausted =
      when (fold.exhausted && ports.writes_ocr_failure)
        (write_ocr_failure o.outcome_session_id b.bound_slot_id fold.attempts) in
    if fold.is_resolved
    then when ports.handles_recognized
        (handle_recognized o.outcome_session_id b.bound_slot_id o.plate_number)
    else elim released_image [
      | none ↦ exhausted
      | some image ↦ if ports.submits_ocr then submit_ocr image ∷ [] else exhausted
    ]

unfoldable pub folded :
    {T : Type 0}
    → CaptureCoordinator T
    → Bytes
    → Binding T
    → OcrOutcome
    → HallOcrPolicy × OcrFold
    → CaptureCoordinator T × List (Effect T)
unfolding outcome_effects
folded c key b o (p, fold) = if not fold.tracked then (record c { policy = p }, []) else (
  record c { policy = p; bindings = insert key (record b { held_image = none }) c.bindings },
  outcome_effects c.ports fold b o (taken fold.release_held_image b.held_image),
)

unfoldable pub outcome_found :
    {T : Type 0}
    → CaptureCoordinator T
    → Bytes
    → OcrOutcome
    → Option (Binding T)
    → CaptureCoordinator T × List (Effect T)
outcome_found c key o none = (c, [])
outcome_found c key o (some b) =
    folded c key b o (on_ocr_result c.policy key o.outcome_stage o.recognized)

unfoldable pub on_ocr_outcome :
    {T : Type 0} → CaptureCoordinator T → OcrOutcome → CaptureCoordinator T × List (Effect T)
on_ocr_outcome c o =
    let key = key_for o.outcome_session_id in outcome_found c key o (lookup key c.bindings)

unfoldable pub bound_sessions : {T : Type 0} → CaptureCoordinator T → ℕ
bound_sessions c = length c.bindings
