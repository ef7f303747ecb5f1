-- ===== src/Parking/Capture/Held.antt =====
-- The coordinator and the policy stay in step: an image that the policy holds is there to be sent.
use pi_server.Base.{
  ℕ, ◌≡◌, refl, sym, ap, ◌∙◌, Bool, true, false, not, ◌||◌, inl, inr, Option, none, some, is_some,
  arith, Bytes, bytes_eq, bytes_beq_iff, ◌==◌, Map, lookup, insert, erase, lookup-insert,
  lookup-erase, Bool-cases, Option-cases, ℤ,
}
use pi_server.Parking.OcrPolicy.{
  CaptureStage, first_30s, second_60s, SessionState, fresh, is_held, ImageAction,
  hold_for_pending_ocr, open_session, close_session, image_arrived, ocr_result,
}
use pi_server.Parking.Capture.{Binding, CaptureCoordinator, key_for, bind_session, release_found}

-- A session is bound exactly if the policy tracks it, and has an image if the policy holds one.
abbrev pub InStep : {T : Type 0} → Option (Binding T) → Option SessionState → Type 0
InStep none none = Unit
InStep none (some s) = ⊥
InStep (some b) none = ⊥
InStep (some b) (some s) = (not (is_held s.stage_60) || is_some b.held_image) ≡ true

abbrev pub IsSynced : {T : Type 0} → CaptureCoordinator T → Type 0
IsSynced c = (k : Bytes) → InStep (lookup k c.bindings) (lookup k c.policy.sessions)

module _ {T : Type 0} where
  -- One key is written in both maps.
  pub insert-IsSynced :
      (m : Map Bytes (Binding T)) (p : Map Bytes SessionState) (key : Bytes) (b : Binding T)
      (s : SessionState)
      → ((k : Bytes) → InStep (lookup k m) (lookup k p))
      → InStep (some b) (some s)
      → (k : Bytes) → InStep (lookup k (insert key b m)) (lookup k (insert key s p))
  insert-IsSynced m p key b s v h k = elim (Bool-cases (key == k)) [
    | inl t ↦ rw (lookup-insert key k b m, lookup-insert key k s p, t) h
    | inr t ↦ rw (lookup-insert key k b m, lookup-insert key k s p, t) (v k)
  ]

  -- One key is written in the policy alone, and the binding that is there fits.
  pub write-IsSynced :
      (m : Map Bytes (Binding T)) (p : Map Bytes SessionState) (key : Bytes) (b : Binding T)
      (s : SessionState)
      → ((k : Bytes) → InStep (lookup k m) (lookup k p))
      → lookup key m ≡ some b
      → InStep (some b) (some s)
      → (k : Bytes) → InStep (lookup k m) (lookup k (insert key s p))
  write-IsSynced m p key b s v f h k = elim (Bool-cases (key == k)) [
    | inl t ↦
        let here : lookup k m ≡ some b =
          ap (λ x. lookup x m) (sym ((bytes_beq_iff key k).0 t)) ∙ f in
        rw (lookup-insert key k s p, t, here) h
    | inr t ↦ rw (lookup-insert key k s p, t) (v k)
  ]

  erase-IsSynced :
      (m : Map Bytes (Binding T)) (p : Map Bytes SessionState) (key : Bytes)
      → ((k : Bytes) → InStep (lookup k m) (lookup k p))
      → (k : Bytes) → InStep (lookup k (erase key m)) (lookup k (erase key p))
  erase-IsSynced m p key v k = elim (Bool-cases (key == k)) [
    | inl t ↦ rw (lookup-erase key k m, lookup-erase key k p, t) tt
    | inr t ↦ rw (lookup-erase key k m, lookup-erase key k p, t) (v k)
  ]

  pub bind_session-IsSynced :
      (c : CaptureCoordinator T) (id : ℤ) (slot : Bytes)
      → IsSynced c
      → IsSynced (bind_session c id slot)
  unfolding bind_session open_session
  bind_session-IsSynced c id slot v =
      let key = key_for id in
      elim (Option-cases (lookup key c.bindings)) [
        | inl f ↦ elim (Option-cases (lookup key c.policy.sessions)) [
          | inl g ↦
              rw (f, g)
                (insert-IsSynced c.bindings c.policy.sessions key
                  (record { bound_session_id = id; bound_slot_id = slot; held_image = none }) fresh
                  v refl)
          | inr (s, g) ↦ absurd (rw (f, g) at (v key))
        ]
        | inr (b, f) ↦ elim (Option-cases (lookup key c.policy.sessions)) [
          | inl g ↦ absurd (rw (f, g) at (v key))
          | inr (s, g) ↦ rw (f, g) v
        ]
      ]

  pub release_found-IsSynced :
      (c : CaptureCoordinator T) (key : Bytes) (o : Option (Binding T))
      → lookup key c.bindings ≡ o
      → IsSynced c
      → IsSynced (release_found c key o).0
  unfolding release_found close_session
  release_found-IsSynced c key none f v = v
  release_found-IsSynced c key (some b) f v = elim (Option-cases (lookup key c.policy.sessions)) [
    | inl g ↦ absurd (rw (f, g) at (v key))
    | inr (s, g) ↦ rw (g, close_session) (erase-IsSynced c.bindings c.policy.sessions key v)
  ]

-- What the policy's answer to an image asks of the binding.
abbrev pub Fits : {T : Type 0} → Binding T → SessionState → ImageAction → Type 0
Fits b s hold_for_pending_ocr = Unit
Fits b s _ = InStep (some b) (some s)

pub image_arrived-Fits :
    {T : Type 0} (b : Binding T) (s : SessionState) (st : CaptureStage)
    → InStep (some b) (some s)
    → Fits b (image_arrived s st).0 (image_arrived s st).1
unfolding image_arrived
image_arrived-Fits b s first_30s h = ground arith
image_arrived-Fits b s second_60s h = ground arith

-- What the policy leaves after an OCR result: nothing held, or the session as it was.
abbrev pub Left : Bool → SessionState → SessionState → Type 0
Left true s s' = is_held s'.stage_60 ≡ false
Left false s s' = s' ≡ s

pub ocr_result-Left :
    (m : ℕ) (s : SessionState) (st : CaptureStage) (recognized : Bool)
    → Left (ocr_result m s st recognized).1.tracked s (ocr_result m s st recognized).0
unfolding ocr_result
ocr_result-Left m s first_30s recognized = ground arith
ocr_result-Left m s second_60s recognized = ground arith
