-- ===== src/Parking/OcrPolicy/Verdict.antt =====
-- Whether a recognised plate stays recognised, and which sessions an operation touches.
use pi_server.Base.{
  Option-cases, ℕ, ◌+◌, ◌≤◌, ◌≡◌, inl, inr, Bool, true, false, List, [], ◌∷◌, arith, Bytes,
  bytes_eq, lookup, lookup-insert, lookup-erase, ◌==◌,
}
use pi_server.Parking.OcrPolicy.{
  OcrSessionState, resolved, failed, CaptureStage, first_30s, second_60s, StageState, running, done,
  SessionState, fresh, image_arrived, ocr_result, HallOcrPolicy, open_session, close_session,
  on_image_arrived, on_ocr_result,
}
use pi_server.Parking.OcrPolicy.Stages.{Input, image, result, step, run}

abbrev is_done : StageState → ℕ
is_done done = 1
is_done _ = 0

abbrev is_resolved : OcrSessionState → ℕ
is_resolved resolved = 1
is_resolved _ = 0

-- Every failed attempt, and the one that succeeded, finished a stage.
abbrev Counted : SessionState → Type 0
Counted s = s.attempts + is_resolved s.result ≤ is_done s.stage_30 + is_done s.stage_60

step-Counted : (m : ℕ) (s : SessionState) (i : Input) → 2 ≤ m → Counted s → Counted (step m s i).0
unfolding step image_arrived ocr_result
step-Counted m s (image st) h c = ground arith
step-Counted m s (result st recognized) h c = ground arith

step-resolved :
    (m : ℕ) (s : SessionState) (i : Input)
    → 2 ≤ m
    → Counted s
    → s.result ≡ resolved
    → (step m s i).0.result ≡ resolved
unfolding step image_arrived ocr_result
step-resolved m s (image st) h c r = ground arith
step-resolved m s (result st recognized) h c r = ground arith

run-Counted :
    (m : ℕ) (s : SessionState) (is : List Input) → 2 ≤ m → Counted s → Counted (run m s is).0
unfolding run
run-Counted m s [] h c = c
run-Counted m s (i ∷ is) h c = run-Counted m (step m s i).0 is h (step-Counted m s i h c)

resolved-run :
    (m : ℕ) (s : SessionState) (is : List Input)
    → 2 ≤ m
    → Counted s
    → s.result ≡ resolved
    → (run m s is).0.result ≡ resolved
unfolding run
resolved-run m s [] h c r = r
resolved-run m s (i ∷ is) h c r =
    resolved-run m (step m s i).0 is h (step-Counted m s i h c) (step-resolved m s i h c r)

-- With two or more attempts allowed, a session whose plate was recognised after some inputs is
-- still resolved after any further inputs.
pub run_stays_resolved :
    (m : ℕ) (is js : List Input)
    → 2 ≤ m
    → (run m fresh is).0.result ≡ resolved
    → (run m (run m fresh is).0 js).0.result ≡ resolved
run_stays_resolved m is js h r =
    resolved-run m (run m fresh is).0 js h (run-Counted m fresh is h (omega arith)) r

-- With one attempt allowed and both captures at OCR, a failure of the second overturns a
-- recognition of the first: the session ends failed and the fold reports it as exhausted.
pub ocr_result_overturned :
    (m : ℕ) (s : SessionState)
    → m ≤ 1
    → s.stage_30 ≡ running
    → s.stage_60 ≡ running
    → let (t, recognition) = ocr_result m s first_30s true in
      let (u, failure) = ocr_result m t second_60s false in
      (t.result ≡ resolved)
      × (recognition.is_resolved ≡ true)
      × (u.result ≡ failed)
      × (failure.exhausted ≡ true)
unfolding ocr_result
ocr_result_overturned m s h a b = ground arith

-- Opening, closing, an image or a result of one session leaves every other session as it is.
pub sessions_apart :
    (p : HallOcrPolicy) (id other : Bytes) (st : CaptureStage) (recognized : Bool)
    → (id == other) ≡ false
    → (lookup other (open_session p id).sessions ≡ lookup other p.sessions)
      × (lookup other (close_session p id).0.sessions ≡ lookup other p.sessions)
      × (lookup other (on_image_arrived p id st).0.sessions ≡ lookup other p.sessions)
      × (lookup other (on_ocr_result p id st recognized).0.sessions ≡ lookup other p.sessions)
unfolding open_session close_session on_image_arrived on_ocr_result
sessions_apart p id other st recognized h = elim (Option-cases (lookup id p.sessions)) [
  | inl e ↦ (
    ground (arith, lookup-insert id other fresh p.sessions),
    ground arith,
    ground arith,
    ground arith,
  )
  | inr (s, e) ↦ (
    ground (arith, lookup-insert id other fresh p.sessions),
    ground (arith, lookup-erase id other p.sessions),
    ground (arith, lookup-insert id other (image_arrived s st).0 p.sessions),
    ground (arith, lookup-insert id other (ocr_result p.max_attempts s st recognized).0 p.sessions),
  )
]
