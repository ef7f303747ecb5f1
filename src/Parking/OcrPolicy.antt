-- ===== src/Parking/OcrPolicy.antt =====
-- src/parking/HallOcrPolicy.cpp: which of the two captures of a session goes to OCR. The lock makes
-- each method one step; `int attempts` is a number.
pub mod Stages
pub mod Verdict
use pi_server.Base.{
  ℕ, ◌+◌, max, Bool, true, false, Option, none, some, [], Bytes, bytes_eq, Map, lookup, insert,
  erase, contains, length, leb, ltb, if◌then◌else◌, ◌&&◌,
}

pub data ImageAction : Type 0 where
  run_ocr store_evidence_only hold_for_pending_ocr drop : ImageAction

pub data OcrSessionState : Type 0 where
  pending resolved failed : OcrSessionState

-- include/parking/HallCaptureTypes.hpp
pub data CaptureStage : Type 0 where
  first_30s second_60s : CaptureStage

pub data StageState : Type 0 where
  not_arrived held running done : StageState

pub record SessionState : Type 0 where
  pub result : OcrSessionState
  pub stage_30 : StageState
  pub stage_60 : StageState
  pub attempts : ℕ

-- The default member initialisers.
abbrev pub fresh : SessionState
fresh = record { result = pending; stage_30 = not_arrived; stage_60 = not_arrived; attempts = 0 }

pub record HallOcrPolicy : Type 0 where
  pub max_attempts : ℕ
  pub sessions : Map Bytes SessionState

pub record OcrFold : Type 0 where
  pub tracked : Bool
  pub is_resolved : Bool
  pub exhausted : Bool
  pub release_held_image : Bool
  pub attempts : ℕ

abbrev pub no_fold : OcrFold
no_fold = record {
  tracked = false;
  is_resolved = false;
  exhausted = false;
  release_held_image = false;
  attempts = 0;
}

pub record CloseReport : Type 0 where
  pub tracked : Bool
  pub state : OcrSessionState
  pub attempts : ℕ
  pub settled_at_close : Bool

abbrev pub no_report : CloseReport
no_report = record { tracked = false; state = pending; attempts = 0; settled_at_close = false }

unfoldable pub init : ℕ → HallOcrPolicy
init max_attempts = record { max_attempts = max 1 max_attempts; sessions = [] }

-- `emplace` leaves a session that is there as it is.
unfoldable pub open_session : HallOcrPolicy → Bytes → HallOcrPolicy
open_session p id =
    if contains id p.sessions then p else record p { sessions = insert id fresh p.sessions }

abbrev pub is_pending : OcrSessionState → Bool
is_pending pending = true
is_pending _ = false

close_report : SessionState → CloseReport
close_report s =
    if is_pending s.result && ltb 0 s.attempts
    then record { tracked = true; state = failed; attempts = s.attempts; settled_at_close = true }
    else record {
      tracked = true;
      state = s.result;
      attempts = s.attempts;
      settled_at_close = false;
    }

unfoldable pub close_session : HallOcrPolicy → Bytes → HallOcrPolicy × CloseReport
unfolding close_report
close_session p id = elim (lookup id p.sessions) [
  | none ↦ (p, no_report)
  | some s ↦ (record p { sessions = erase id p.sessions }, close_report s)
]

-- `stageRef`, read and written.
abbrev pub stage : SessionState → CaptureStage → StageState
stage s first_30s = s.stage_30
stage s second_60s = s.stage_60

abbrev pub set_stage : SessionState → CaptureStage → StageState → SessionState
set_stage s first_30s x = record s { stage_30 = x }
set_stage s second_60s x = record s { stage_60 = x }

abbrev pub is_running : StageState → Bool
is_running running = true
is_running _ = false

abbrev pub is_held : StageState → Bool
is_held held = true
is_held _ = false

abbrev pub is_not_arrived : StageState → Bool
is_not_arrived not_arrived = true
is_not_arrived _ = false

abbrev pub is_second : CaptureStage → Bool
is_second second_60s = true
is_second first_30s = false

-- What `onImageArrived` does to a session that is tracked.
unfoldable pub image_arrived : SessionState → CaptureStage → SessionState × ImageAction
image_arrived s st =
    if is_pending s.result && is_not_arrived (stage s st)
    then (if is_second st && is_running s.stage_30
        then (set_stage s st held, hold_for_pending_ocr)
        else (set_stage s st running, run_ocr))
    else (s, store_evidence_only)

unfoldable pub on_image_arrived : HallOcrPolicy → Bytes → CaptureStage → HallOcrPolicy × ImageAction
on_image_arrived p id st = elim (lookup id p.sessions) [
  | none ↦ (p, drop)
  | some s ↦
      let (s', action) = image_arrived s st in
      (record p { sessions = insert id s' p.sessions }, action)
]

-- `if (session.stage60 == Held) session.stage60 = x`.
abbrev settle_held : SessionState → StageState → SessionState
settle_held s x = if is_held s.stage_60 then record s { stage_60 = x } else s

recognized_result : SessionState → SessionState × OcrFold
recognized_result s = (
  settle_held (record s { result = resolved }) done,
  record no_fold { tracked = true; is_resolved = true; attempts = s.attempts },
)

failed_result : ℕ → SessionState → SessionState × OcrFold
failed_result max_attempts s =
    if leb max_attempts (s.attempts + 1)
    then (
      settle_held (record s { attempts = s.attempts + 1; result = failed }) done,
      record no_fold { tracked = true; exhausted = true; attempts = s.attempts + 1 },
    )
    else (
      settle_held (record s { attempts = s.attempts + 1 }) running,
      record no_fold {
        tracked = true;
        release_held_image = is_held s.stage_60;
        attempts = s.attempts + 1;
      },
    )

-- What `onOcrResult` does to a session that is tracked.
unfoldable pub ocr_result : ℕ → SessionState → CaptureStage → Bool → SessionState × OcrFold
unfolding recognized_result failed_result
ocr_result max_attempts s st recognized =
    if is_running (stage s st)
    then (if recognized
        then recognized_result (set_stage s st done)
        else failed_result max_attempts (set_stage s st done))
    else (s, no_fold)

unfoldable pub on_ocr_result : HallOcrPolicy → Bytes → CaptureStage → Bool → HallOcrPolicy × OcrFold
on_ocr_result p id st recognized = elim (lookup id p.sessions) [
  | none ↦ (p, no_fold)
  | some s ↦
      let (s', fold) = ocr_result p.max_attempts s st recognized in
      (record p { sessions = insert id s' p.sessions }, fold)
]

unfoldable pub state : HallOcrPolicy → Bytes → OcrSessionState
state p id = elim (lookup id p.sessions) [ none ↦ pending | some s ↦ s.result ]

unfoldable pub tracked_sessions : HallOcrPolicy → ℕ
tracked_sessions p = length p.sessions
