-- ===== src/Parking/Scheduler/Requests.antt =====
-- How often a capture is requested: each request uses up one of the attempts of its session.
use pi_server.Base.{
  as_count, ℕ, ◌+◌, ◌-◌, ◌*◌, ◌≤◌, ◌≡◌, refl, inl, inr, Bool, true, ◌&&◌, Option, none, some, List,
  [], ◌∷◌, ◌++◌, map, arith, Bytes, bytes_eq, ◌==◌, Bool-cases, ltb, if◌then◌else◌,
}
use native.Mathlib.Nat.{add-mul}
use pi_server.Parking.Scheduler.{
  SchedulerConfig, CaptureOffset, CaptureReason, Capture, CaptureSession, CaptureRequest,
  DispatchOutcome, Phase, pending, dispatching, settled, is_ready, planned, is_dispatching,
  dispatch, build_request,
}
use pi_server.Parking.Scheduler.Answer.{same_reason, answer, answer_first, behind}

-- How many of the requests are for the session and the reason.
abbrev is_for : {T : Type 0} → Bytes → CaptureReason → CaptureRequest T → Bool
is_for id reason q = q.request_session_id == id && same_reason q.request_reason reason

unfoldable pub count_for : {T : Type 0} → Bytes → CaptureReason → List (CaptureRequest T) → ℕ
count_for id reason [] = 0
count_for id reason (q ∷ qs) = as_count (is_for id reason q) + count_for id reason qs

-- How many captures of the reason a session is planned with.
unfoldable pub planned_for : CaptureReason → List CaptureOffset → ℕ
planned_for reason [] = 0
planned_for reason (o ∷ os) = as_count (same_reason o.offset_reason reason) + planned_for reason os

-- The attempts of a session: the first and the retries, for each capture of the reason.
abbrev pub budget : SchedulerConfig → CaptureReason → ℕ
budget config reason = planned_for reason config.offsets * (1 + config.max_retries)

-- The requests that may still come of a capture.
unfoldable pub phase_left : SchedulerConfig → Phase → ℕ → ℕ
phase_left config pending attempt = ((1 + config.max_retries) - attempt) + 1
phase_left config dispatching attempt = (1 + config.max_retries) - attempt
phase_left config settled attempt = 0

module _ (config : SchedulerConfig) (reason : CaptureReason) where
  abbrev capture_left : Capture → ℕ
  capture_left c = if same_reason c.reason reason then phase_left config c.phase c.attempt else 0

  unfoldable pub captures_left : List Capture → ℕ
  captures_left [] = 0
  captures_left (c ∷ cs) = capture_left c + captures_left cs

  unfoldable pub count_ready : List Capture → ℕ
  count_ready [] = 0
  count_ready (c ∷ cs) = as_count (same_reason c.reason reason) + count_ready cs

  ready_left :
      (p : Phase) (now : ℕ) (c : Capture)
      → c.phase ≡ p
      → is_ready now c ≡ true
      → phase_left config c.phase c.attempt ≡ phase_left config dispatching c.attempt + 1
  unfolding phase_left
  ready_left pending now c e h = rw e refl
  ready_left dispatching now c e h = absurd (ground arith)
  ready_left settled now c e h = absurd (ground arith)

  pub captures_left-dispatch :
      (now : ℕ) (cs : List Capture)
      → captures_left (dispatch now cs).0 + count_ready (dispatch now cs).1 ≡ captures_left cs
  unfolding dispatch captures_left count_ready
  captures_left-dispatch now [] = refl
  captures_left-dispatch now (c ∷ cs) =
      let rest = captures_left-dispatch now cs in
      elim (Bool-cases (is_ready now c)) [
        | inr t ↦ rw t (omega arith)
        | inl t ↦
            let step = ready_left c.phase now c refl t in
            rw t (elim (Bool-cases (same_reason c.reason reason)) [
              | inl u ↦ rw u (omega arith)
              | inr u ↦ rw u (omega arith)
            ])
      ]

  dispatching_left :
      (p : Phase) (attempt : ℕ)
      → is_dispatching p ≡ true
      → phase_left config p attempt ≡ (1 + config.max_retries) - attempt
  unfolding phase_left
  dispatching_left pending attempt h = absurd (ground arith)
  dispatching_left dispatching attempt h = refl
  dispatching_left settled attempt h = absurd (ground arith)

  answer-left :
      (published : Bool) (now : ℕ) (c : Capture)
      → is_dispatching c.phase ≡ true
      → capture_left (answer config published now c).0 ≤ capture_left c
  unfolding answer phase_left
  answer-left published now c h =
      let before = dispatching_left c.phase c.attempt h in
      elim (Bool-cases published) [
        | inl t ↦ rw t (ground arith)
        | inr t ↦ elim (Bool-cases (ltb c.attempt (1 + config.max_retries))) [
          | inl u ↦ rw (t, u) (ground arith)
          | inr u ↦ rw (t, u) (ground arith)
        ]
      ]

  -- What is left of captures after a result.
  abbrev pub Lessened : List Capture → Option (List Capture × DispatchOutcome) → Type 0
  Lessened cs none = Unit
  Lessened cs (some (ds, o)) = captures_left ds ≤ captures_left cs

  behind-Lessened :
      (c : Capture) (cs : List Capture) (o : Option (List Capture × DispatchOutcome))
      → Lessened cs o
      → Lessened (c ∷ cs) (behind c o)
  unfolding captures_left
  behind-Lessened c cs none h = tt
  behind-Lessened c cs (some (ds, o)) h = omega arith

  pub answer_first-Lessened :
      (asked : CaptureReason) (published : Bool) (now : ℕ) (cs : List Capture)
      → Lessened cs (answer_first config asked published now cs)
  unfolding answer_first captures_left
  answer_first-Lessened asked published now [] = tt
  answer_first-Lessened asked published now (c ∷ cs) =
      elim (Bool-cases (same_reason c.reason asked)) [
        | inl t ↦ elim (Bool-cases (is_dispatching c.phase)) [
          | inl u ↦ rw (t, u) (let h = answer-left published now c u in omega arith)
          | inr u ↦ rw (t, u) tt
        ]
        | inr t ↦ rw t (
            behind-Lessened c cs (answer_first config asked published now cs)
              (answer_first-Lessened asked published now cs))
      ]

  pub captures_left-planned :
      (start : ℕ) (os : List CaptureOffset)
      → captures_left (map (planned start) os) ≡ planned_for reason os * (1 + config.max_retries)
  unfolding captures_left planned_for phase_left
  captures_left-planned start [] = omega arith
  captures_left-planned start (o ∷ os) =
      let rest = captures_left-planned start os in
      elim (Bool-cases (same_reason o.offset_reason reason)) [
        | inl t ↦
            rw t (let h = add-mul 1 (planned_for reason os) (1 + config.max_retries) in omega arith)
        | inr t ↦
            rw t (let h = add-mul 0 (planned_for reason os) (1 + config.max_retries) in omega arith)
      ]

  pub count_for-build_request :
      {T : Type 0} (id k : Bytes) (x : CaptureSession T) (cs : List Capture)
      (rest : List (CaptureRequest T))
      → count_for id reason (map (build_request config k x) cs ++ rest)
        ≡ (if k == id then count_ready cs else 0) + count_for id reason rest
  unfolding count_for count_ready
  count_for-build_request id k x [] rest = ground arith
  count_for-build_request id k x (c ∷ cs) rest =
      let h = count_for-build_request id k x cs rest in ground arith
