-- ===== src/Parking/OcrPolicy/Stages.antt =====
-- The two captures of one session: how far each has come, and how often OCR is asked.
use pi_server.Base.{ℕ, ◌+◌, ◌≤◌, ◌<◌, ◌≡◌, ◌≢◌, Bool, List, [], ◌∷◌, arith, if◌then◌else◌}
use pi_server.Parking.OcrPolicy.{
  StageState, not_arrived, done, ImageAction, run_ocr, pending, failed, CaptureStage, held, running,
  SessionState, fresh, OcrFold, image_arrived, ocr_result,
}

-- What happens to a session between opening and closing.
pub data Input : Type 0 where
  image : CaptureStage → Input
  result : CaptureStage → Bool → Input

-- OCR is asked for a stage when its image is sent, or when the held image is released.
abbrev asked_by_action : ImageAction → ℕ
asked_by_action run_ocr = 1
asked_by_action _ = 0

abbrev asked_by_fold : OcrFold → ℕ
asked_by_fold f = if f.release_held_image then 1 else 0

unfoldable pub step : ℕ → SessionState → Input → SessionState × ℕ
step max_attempts s (image st) =
    let (s', action) = image_arrived s st in (s', asked_by_action action)
step max_attempts s (result st recognized) =
    let (s', fold) = ocr_result max_attempts s st recognized in (s', asked_by_fold fold)

-- The session after a list of inputs, and how often OCR was asked.
unfoldable pub run : ℕ → SessionState → List Input → SessionState × ℕ
run max_attempts s [] = (s, 0)
run max_attempts s (i ∷ is) =
    let (s', n) = step max_attempts s i in let (s'', k) = run max_attempts s' is in (s'', n + k)

-- A held second image has the first one's OCR still to come, and the session is undecided.
pub record Inv (max_attempts : ℕ) (s : SessionState) : Type 0 where
  pub held_waits : s.stage_60 ≡ held → (s.stage_30 ≡ running) × (s.result ≡ pending)
  pub first_never_held : s.stage_30 ≢ held
  pub pending_has_tries : s.result ≡ pending → s.attempts < max_attempts
  pub failed_used_up : s.result ≡ failed → max_attempts ≤ s.attempts

fresh-Inv : (max_attempts : ℕ) → 0 < max_attempts → Inv max_attempts fresh
fresh-Inv m h = ground arith

step-Inv : (m : ℕ) (s : SessionState) (i : Input) → Inv m s → Inv m (step m s i).0
unfolding step image_arrived ocr_result
step-Inv m s (image st) v = ground arith
step-Inv m s (result st recognized) v = ground arith

-- Whatever images and OCR results come, a held second image has the first one's OCR still to come
-- and the session is undecided; the first image is never held; an undecided session has attempts
-- left, and a failed one has used them up.
pub run-Inv : (m : ℕ) (s : SessionState) (is : List Input) → Inv m s → Inv m (run m s is).0
unfolding run
run-Inv m s [] v = v
run-Inv m s (i ∷ is) v = run-Inv m (step m s i).0 is (step-Inv m s i v)

-- At most as often as this says a stage was given to OCR (a held one that settles becomes done).
abbrev pub sent : StageState → ℕ
sent not_arrived = 0
sent held = 0
sent running = 1
sent done = 1

abbrev pub sent_stages : SessionState → ℕ
sent_stages s = sent s.stage_30 + sent s.stage_60

step-sent :
    (m : ℕ) (s : SessionState) (i : Input)
    → sent_stages s + (step m s i).1 ≤ sent_stages (step m s i).0
unfolding step image_arrived ocr_result
step-sent m s (image st) = ground arith
step-sent m s (result st recognized) = ground arith

run-sent :
    (m : ℕ) (s : SessionState) (is : List Input)
    → sent_stages s + (run m s is).1 ≤ sent_stages (run m s is).0
unfolding run
run-sent m s [] = omega arith
run-sent m s (i ∷ is) = omega (arith, step-sent m s i, run-sent m (step m s i).0 is)

sent-le : (x : StageState) → sent x ≤ 1
sent-le x = ground arith

-- Between opening and closing a session OCR is asked at most twice, however often images and
-- results arrive and whatever the limit of attempts is.
pub run-asks_at_most_two : (m : ℕ) (is : List Input) → (run m fresh is).1 ≤ 2
run-asks_at_most_two m is = omega (
  arith,
  run-sent m fresh is,
  sent-le (run m fresh is).0.stage_30,
  sent-le (run m fresh is).0.stage_60,
)
