-- ===== src/Parking/Capture/Release.antt =====
-- The coordinator stays in step with the policy through every event.
use pi_server.Base.{
  ℕ, ◌≡◌, refl, sym, subst, false, not, inl, inr, Option, none, some, List, [], ◌∷◌, arith, Bytes,
  bytes_eq, lookup, insert, Bool-cases, Option-cases, ℤ,
}
use pi_server.Parking.Slots.{TransitionCode, session_started, session_completed, TransitionResult}
use pi_server.Parking.OcrPolicy.{
  SessionState, is_held, OcrFold, ImageAction, run_ocr, store_evidence_only, hold_for_pending_ocr,
  drop, image_arrived, on_image_arrived, ocr_result, on_ocr_result, init as policy_init,
}
use pi_server.Parking.Capture.{
  CapturedImage, OcrOutcome, ImageStoreResult, inserted, duplicate, inactive_session, failed, Ports,
  Binding, CaptureCoordinator, init, key_for, release_session, transition, on_transition, hold, act,
  log_answer, capture_found, on_capture_image, folded, outcome_found, on_ocr_outcome,
  parse_session_id,
}
use pi_server.Parking.Capture.Held.{
  InStep, IsSynced, Fits, Left, image_arrived-Fits, ocr_result-Left, insert-IsSynced,
  write-IsSynced, bind_session-IsSynced, release_found-IsSynced,
}

module _ {T : Type 0} where
  act-IsSynced :
      (c : CaptureCoordinator T) (key : Bytes) (b : Binding T) (image : CapturedImage T)
      (s : SessionState) (action : ImageAction)
      → lookup key c.bindings ≡ some b
      → IsSynced c
      → Fits b s action
      → IsSynced
          (act c key b image
            (record (c.policy) { sessions = insert key s c.policy.sessions }, action)).0
  unfolding act
  act-IsSynced c key b image s drop f v h =
      write-IsSynced c.bindings c.policy.sessions key b s v f h
  act-IsSynced c key b image s run_ocr f v h =
      write-IsSynced c.bindings c.policy.sessions key b s v f h
  act-IsSynced c key b image s store_evidence_only f v h =
      write-IsSynced c.bindings c.policy.sessions key b s v f h
  act-IsSynced c key b image s hold_for_pending_ocr f v h =
      insert-IsSynced c.bindings c.policy.sessions key (hold image b) s v (ground arith)

  log_answer-IsSynced :
      (a : ImageStoreResult) (c : CaptureCoordinator T) (key : Bytes) (b : Binding T)
      (image : CapturedImage T)
      → lookup key c.bindings ≡ some b
      → IsSynced c
      → IsSynced (log_answer a c key b image).0
  unfolding log_answer on_image_arrived
  log_answer-IsSynced duplicate c key b image f v = v
  log_answer-IsSynced inactive_session c key b image f v = v
  log_answer-IsSynced failed c key b image f v = v
  log_answer-IsSynced inserted c key b image f v =
      elim (Option-cases (lookup key c.policy.sessions)) [
        | inl g ↦ absurd (rw (f, g) at (v key))
        | inr (s, g) ↦
            let x = image_arrived s image.stage in
            let fits : InStep (some b) (some s) = rw (f, g) at (v key) in
            rw (g, on_image_arrived)
              (act-IsSynced c key b image x.0 x.1 f v (image_arrived-Fits b s image.stage fits))
      ]

  capture_found-IsSynced :
      (c : CaptureCoordinator T) (key : Bytes) (o : Option (Binding T)) (image : CapturedImage T)
      (a : ImageStoreResult)
      → lookup key c.bindings ≡ o
      → IsSynced c
      → IsSynced (capture_found c key o image a).0
  unfolding capture_found
  capture_found-IsSynced c key none image a f v = v
  capture_found-IsSynced c key (some b) image a f v =
      elim (Bool-cases (not c.ports.writes_image_log)) [
        | inl t ↦ rw t v
        | inr t ↦ rw t (log_answer-IsSynced a c key b image f v)
      ]

  folded-IsSynced :
      (c : CaptureCoordinator T) (key : Bytes) (b : Binding T) (o : OcrOutcome)
      (s s' : SessionState) (fold : OcrFold)
      → lookup key c.bindings ≡ some b
      → lookup key c.policy.sessions ≡ some s
      → IsSynced c
      → Left fold.tracked s s'
      → IsSynced
          (folded c key b o
            (record (c.policy) { sessions = insert key s' c.policy.sessions }, fold)).0
  unfolding folded
  folded-IsSynced c key b o s s' fold f g v h = elim (Bool-cases fold.tracked) [
    | inl t ↦
        let empty : is_held s'.stage_60 ≡ false = subst (λ x. Left x s s') t h in
        rw t (
          insert-IsSynced c.bindings c.policy.sessions key (record b { held_image = none }) s' v
            (ground arith))
    | inr t ↦
        let same : s' ≡ s = subst (λ x. Left x s s') t h in
        let fits : InStep (some b) (some s) = rw (f, g) at (v key) in
        rw t (
          write-IsSynced c.bindings c.policy.sessions key b s' v f
            (subst (λ x. InStep (some b) (some x)) (sym same) fits))
  ]

  outcome_found-IsSynced :
      (c : CaptureCoordinator T) (key : Bytes) (o : OcrOutcome) (x : Option (Binding T))
      → lookup key c.bindings ≡ x
      → IsSynced c
      → IsSynced (outcome_found c key o x).0
  unfolding outcome_found on_ocr_result
  outcome_found-IsSynced c key o none f v = v
  outcome_found-IsSynced c key o (some b) f v = elim (Option-cases (lookup key c.policy.sessions)) [
    | inl g ↦ absurd (rw (f, g) at (v key))
    | inr (s, g) ↦
        let y = ocr_result c.policy.max_attempts s o.outcome_stage o.recognized in
        rw (g, on_ocr_result)
          (folded-IsSynced c key b o s y.0 y.1 f g v
            (ocr_result-Left c.policy.max_attempts s o.outcome_stage o.recognized))
  ]

  transition-IsSynced :
      (code : TransitionCode) (c : CaptureCoordinator T) (slot : Bytes) (id : Option ℤ)
      → IsSynced c
      → IsSynced (transition code c slot id).0
  unfolding transition release_session
  transition-IsSynced session_started c slot (some id) v = bind_session-IsSynced c id slot v
  transition-IsSynced session_completed c slot (some id) v =
      release_found-IsSynced c (key_for id) (lookup (key_for id) c.bindings) refl v
  transition-IsSynced session_started c slot none v = v
  transition-IsSynced session_completed c slot none v = v
  transition-IsSynced _ c slot id v = v

-- What happens to a coordinator.
pub data Event (T : Type 0) : Type 0 where
  moved : TransitionResult → Event T
  captured : CapturedImage T → ImageStoreResult → Event T
  read : OcrOutcome → Event T

unfoldable pub after : {T : Type 0} → CaptureCoordinator T → List (Event T) → CaptureCoordinator T
after c [] = c
after c (moved r ∷ es) = after (on_transition c r).0 es
after c (captured image a ∷ es) = after (on_capture_image c image a).0 es
after c (read o ∷ es) = after (on_ocr_outcome c o).0 es

after-IsSynced :
    {T : Type 0} (c : CaptureCoordinator T) (es : List (Event T))
    → IsSynced c
    → IsSynced (after c es)
unfolding after on_transition on_capture_image on_ocr_outcome
after-IsSynced c [] v = v
after-IsSynced c (moved r ∷ es) v =
    after-IsSynced (on_transition c r).0 es
      (transition-IsSynced r.code c r.slot_id (parse_session_id r.session_id) v)
after-IsSynced c (captured image a ∷ es) v =
    let key = key_for image.session_id in
    after-IsSynced (on_capture_image c image a).0 es
      (capture_found-IsSynced c key (lookup key c.bindings) image a refl v)
after-IsSynced c (read o ∷ es) v =
    let key = key_for o.outcome_session_id in
    after-IsSynced (on_ocr_outcome c o).0 es
      (outcome_found-IsSynced c key o (lookup key c.bindings) refl v)

init-IsSynced : (T : Type 0) (ports : Ports) (m : ℕ) → IsSynced (init {T = T} ports m)
unfolding init policy_init lookup
init-IsSynced T ports m k = tt

-- From its start on, after any transitions, images and OCR outcomes, the coordinator binds exactly
-- the sessions that the policy tracks, and has the image of each session whose second image the
-- policy holds.
pub after-init-IsSynced :
    {T : Type 0} (ports : Ports) (m : ℕ) (es : List (Event T)) → IsSynced (after (init ports m) es)
after-init-IsSynced {T} ports m es = after-IsSynced (init ports m) es (init-IsSynced T ports m)
