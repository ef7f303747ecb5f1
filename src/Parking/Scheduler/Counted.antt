-- ===== src/Parking/Scheduler/Counted.antt =====
-- The requests of a scheduler from the start on, counted.
use pi_server.Base.{
  Bool, ℕ, ◌+◌, ◌*◌, ◌≤◌, ◌≡◌, refl, ap, ◌∙◌, subst, inl, inr, Option, none, some, List, [], ◌∷◌,
  arith, Bytes, bytes_eq, lookup, contains, Bool-cases, All,
}
use native.Mathlib.Nat.{add-mul}
use pi_server.Parking.Session.{OccupancySession}
use pi_server.Parking.Slots.{TransitionCode, session_started, session_completed, TransitionResult}
use pi_server.Parking.Scheduler.{
  SchedulerConfig, CaptureReason, Capture, CaptureSession, CaptureRequest, Scheduler,
  DispatchOutcome, due, on_transition, transition, started, plan, resolve,
}
use pi_server.Parking.Scheduler.Answer.{keep_answered, answer_session, on_dispatch_result}
use pi_server.Parking.Scheduler.Attempts.{
  Op, moved, polled, reported, after, IsBounded, due-attempts,
}
use pi_server.Parking.Scheduler.Requests.{budget}
use pi_server.Parking.Scheduler.Budget.{
  step, requested, starts_at, starts, sessions_left, step-left,
}

module _ {T : Type 0} where
  plan-config :
      (s : Scheduler T) (r : TransitionResult) (x : OccupancySession) (o : Option T)
      → (plan s r x o).0.config ≡ s.config
  unfolding plan
  plan-config s r x none = refl
  plan-config s r x (some target) = refl

  started-config :
      (s : Scheduler T) (r : TransitionResult) (o : Option OccupancySession)
      → (started s r o).0.config ≡ s.config
  unfolding started
  started-config s r none = refl
  started-config s r (some x) = elim (Bool-cases (contains r.session_id s.sessions)) [
    | inl t ↦ rw t refl
    | inr t ↦ rw t (plan-config s r x (resolve s.resolver r.slot_id))
  ]

  transition-config :
      (c : TransitionCode) (s : Scheduler T) (r : TransitionResult)
      → (transition c s r).0.config ≡ s.config
  unfolding transition
  transition-config session_completed s r = refl
  transition-config session_started s r = started-config s r r.session
  transition-config _ s r = refl

  keep_answered-config :
      (s : Scheduler T) (id : Bytes) (x : CaptureSession T)
      (o : Option (List Capture × DispatchOutcome))
      → (keep_answered s id x o).0.config ≡ s.config
  unfolding keep_answered
  keep_answered-config s id x none = refl
  keep_answered-config s id x (some (cs, o)) = refl

  answer_session-config :
      (s : Scheduler T) (q : CaptureRequest T) (published : Bool) (now : ℕ)
      (o : Option (CaptureSession T))
      → (answer_session s q published now o).0.config ≡ s.config
  unfolding answer_session
  answer_session-config s q published now none = refl
  answer_session-config s q published now (some x) = keep_answered-config s q.request_session_id x _

  step-config : (s : Scheduler T) (op : Op T) → (step s op).config ≡ s.config
  unfolding on_transition due on_dispatch_result
  step-config s (moved r) = transition-config r.code s r
  step-config s (polled now) = refl
  step-config s (reported q published now) =
      answer_session-config s q published now (lookup q.request_session_id s.sessions)

  after-step :
      (s : Scheduler T) (op : Op T) (ops : List (Op T)) → after s (op ∷ ops) ≡ after (step s op) ops
  unfolding after
  after-step s (moved r) ops = refl
  after-step s (polled now) ops = refl
  after-step s (reported q published now) ops = refl

  after-config : (s : Scheduler T) (ops : List (Op T)) → (after s ops).config ≡ s.config
  unfolding after
  after-config s [] = refl
  after-config s (op ∷ ops) =
      ap (λ x. x.config) (after-step s op ops) ∙ (after-config (step s op) ops ∙ step-config s op)

  requested-left :
      (config : SchedulerConfig) (id : Bytes) (reason : CaptureReason) (s : Scheduler T)
      (ops : List (Op T))
      → s.config ≡ config
      → requested id reason s ops
        ≤ sessions_left config id reason s.sessions + starts id ops * budget config reason
  unfolding requested starts
  requested-left config id reason s [] e = omega arith
  requested-left config id reason s (op ∷ ops) e =
      let here = step-left config id reason s op e in
      let rest = requested-left config id reason (step s op) ops (step-config s op ∙ e) in
      let sum = add-mul (starts_at id op) (starts id ops) (budget config reason) in omega arith

-- From a scheduler that tracks no session, through any transitions, polls and results in any order:
-- all the polls together give, for a session ID and a reason, at most the first request and the
-- configured number of retries for each offset of the reason and each transition that starts the
-- session. The number of the attempt in each request of a further poll is within the same bound.
pub requested-starts :
    {T : Type 0} (s : Scheduler T) (ops : List (Op T)) (id : Bytes) (reason : CaptureReason)
    (now : ℕ)
    → s.sessions ≡ []
    → (requested id reason s ops ≤ starts id ops * budget s.config reason)
      × All (λ q. q.request_attempt ≤ 1 + s.config.max_retries) (due (after s ops) now).1
unfolding sessions_left
requested-starts s ops id reason now e =
    let none_left : sessions_left s.config id reason s.sessions ≡ 0 =
      ap (sessions_left s.config id reason) e in
    let bounded : IsBounded s = rw e tt in
    let most = requested-left s.config id reason s ops refl in
    (
      omega arith,
      subst (λ c. All (λ q. q.request_attempt ≤ 1 + c.max_retries) (due (after s ops) now).1)
          (after-config s ops) (due-attempts s ops now bounded),
    )
