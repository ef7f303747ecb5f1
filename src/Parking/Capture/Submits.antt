-- ===== src/Parking/Capture/Submits.antt =====
-- A second image that the policy holds and then releases is sent to OCR.
use pi_server.Base.{
  ℕ, ◌≡◌, refl, Bool, true, false, inl, inr, Option, none, some, List, [], ◌∷◌, arith, Bytes,
  bytes_eq, lookup, Option-cases,
}
use pi_server.Parking.OcrPolicy.{
  first_30s, second_60s, CaptureStage, SessionState, is_held, HallOcrPolicy, OcrFold, ocr_result,
  on_ocr_result,
}
use pi_server.Parking.Capture.{
  CapturedImage, OcrOutcome, submit_ocr, Ports, Binding, CaptureCoordinator, init, key_for,
  outcome_effects, folded, outcome_found, on_ocr_outcome,
}
use pi_server.Parking.Capture.Held.{InStep, IsSynced}
use pi_server.Parking.Capture.Release.{Event, after, after-init-IsSynced}

ocr_result_released :
    (m : ℕ) (s : SessionState) (st : CaptureStage) (recognized : Bool)
    → (ocr_result m s st recognized).1.release_held_image ≡ true
    → (is_held s.stage_60 ≡ true)
      × ((ocr_result m s st recognized).1.tracked ≡ true)
      × ((ocr_result m s st recognized).1.is_resolved ≡ false)
unfolding ocr_result
ocr_result_released m s first_30s recognized h = ground arith
ocr_result_released m s second_60s recognized h = ground arith

held_there :
    {T : Type 0} (b : Binding T) (s : SessionState)
    → InStep (some b) (some s)
    → is_held s.stage_60 ≡ true
    → (image : CapturedImage T) × (b.held_image ≡ some image)
held_there b s h t = elim (Option-cases b.held_image) [
  | inl e ↦ absurd (ground arith)
  | inr (image, e) ↦ (image, e)
]

folded_submits :
    {T : Type 0} (c : CaptureCoordinator T) (key : Bytes) (b : Binding T) (o : OcrOutcome)
    (p : HallOcrPolicy) (fold : OcrFold) (image : CapturedImage T)
    → fold.tracked ≡ true
    → fold.is_resolved ≡ false
    → fold.release_held_image ≡ true
    → b.held_image ≡ some image
    → c.ports.submits_ocr ≡ true
    → (folded c key b o (p, fold)).1 ≡ submit_ocr image ∷ []
unfolding folded outcome_effects
folded_submits c key b o p fold image t r l e u = ground arith

outcome_found_submits :
    {T : Type 0} (c : CaptureCoordinator T) (key : Bytes) (o : OcrOutcome) (x : Option (Binding T))
    (y : Option SessionState)
    → lookup key c.bindings ≡ x
    → lookup key c.policy.sessions ≡ y
    → IsSynced c
    → c.ports.submits_ocr ≡ true
    → (on_ocr_result c.policy key o.outcome_stage o.recognized).1.release_held_image ≡ true
    → (image : CapturedImage T) × ((outcome_found c key o x).1 ≡ submit_ocr image ∷ [])
unfolding outcome_found on_ocr_result
outcome_found_submits c key o x none f g v u h = absurd (cc (rw (g, on_ocr_result) at h))
outcome_found_submits c key o none (some s) f g v u h = absurd (rw (f, g) at (v key))
outcome_found_submits c key o (some b) (some s) f g v u h =
    let y = ocr_result c.policy.max_attempts s o.outcome_stage o.recognized in
    let released : y.1.release_held_image ≡ true = rw (g, on_ocr_result) at h in
    let (was_held, tracked, open_still) =
      ocr_result_released c.policy.max_attempts s o.outcome_stage o.recognized released in
    let (image, there) = held_there b s (rw (f, g) at (v key)) was_held in
    (
      image,
      rw (g, on_ocr_result)
          (folded_submits c key b o _ y.1 image tracked open_still released there u),
    )

-- After any events, an OCR outcome for which the policy releases the held image sends an image to
-- OCR, and makes no other call.
pub on_ocr_outcome_submits :
    {T : Type 0} (ports : Ports) (m : ℕ) (es : List (Event T)) (o : OcrOutcome)
    → (after (init {T = T} ports m) es).ports.submits_ocr ≡ true
    → (on_ocr_result
        (after (init {T = T} ports m) es).policy
        (key_for o.outcome_session_id)
        o.outcome_stage
        o.recognized).1.release_held_image
      ≡ true
    → (image : CapturedImage T) × ((on_ocr_outcome (after (init ports m) es) o).1
        ≡ submit_ocr image ∷ [])
unfolding on_ocr_outcome
on_ocr_outcome_submits ports m es o u h =
    let c = after (init ports m) es in
    let key = key_for o.outcome_session_id in
    outcome_found_submits c key o (lookup key c.bindings) (lookup key c.policy.sessions) refl refl
      (after-init-IsSynced ports m es) u h
