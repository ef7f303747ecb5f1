-- ===== src/Parking/Scheduler/Attempts.antt =====
-- The number of an attempt is within what the configuration allows.
use pi_server.Base.{
  ℕ, ◌+◌, ◌≤◌, ◌≡◌, refl, inl, inr, Bool, false, Option, none, some, List, [], ◌∷◌, ◌++◌, map,
  arith, Bytes, bytes_eq, ◌==◌, Map, lookup, erase, contains, All, AllEntries, AllEntries-lookup,
  AllEntries-insert, AllEntries-erase, AllEntries-mono, Bool-cases,
}
use pi_server.Parking.Session.{OccupancySession}
use pi_server.Parking.Slots.{TransitionCode, session_started, session_completed, TransitionResult}
use pi_server.Parking.Scheduler.{
  SchedulerConfig, CaptureOffset, CaptureReason, Capture, CaptureSession, CaptureRequest, Scheduler,
  DispatchOutcome, planned, is_dispatching, dispatch, dispatch_all, due, build_request,
  on_transition, transition, started, plan, resolve,
}
use pi_server.Parking.Scheduler.Answer.{
  same_reason, all_settled, answer, answer_first, behind, keep_answered, answer_session,
  on_dispatch_result,
}

abbrev pub Within : SchedulerConfig → Capture → Type 0
Within config c = c.attempt ≤ 1 + config.max_retries

-- Every capture that is tracked is within its attempts.
abbrev pub IsBounded : {T : Type 0} → Scheduler T → Type 0
IsBounded s = AllEntries (λ id x. All (Within s.config) x.captures) s.sessions

dispatch-Within :
    (config : SchedulerConfig) (now : ℕ) (cs : List Capture)
    → All (Within config) cs
    → All (Within config) (dispatch now cs).0 × All (Within config) (dispatch now cs).1
unfolding dispatch
dispatch-Within config now [] h = (tt, tt)
dispatch-Within config now (c ∷ cs) h = ground (arith, dispatch-Within config now cs h.1)

planned-Within :
    (config : SchedulerConfig) (start : ℕ) (os : List CaptureOffset)
    → All (Within config) (map (planned start) os)
planned-Within config start [] = tt
planned-Within config start (o ∷ os) = (omega arith, planned-Within config start os)

abbrev WithinAnswer : SchedulerConfig → Option (List Capture × DispatchOutcome) → Type 0
WithinAnswer config none = Unit
WithinAnswer config (some (cs, o)) = All (Within config) cs

behind-Within :
    (config : SchedulerConfig) (c : Capture) (o : Option (List Capture × DispatchOutcome))
    → Within config c
    → WithinAnswer config o
    → WithinAnswer config (behind c o)
behind-Within config c none w h = tt
behind-Within config c (some (cs, o)) w h = (w, h)

answer-Within :
    (config : SchedulerConfig) (published : Bool) (now : ℕ) (c : Capture)
    → Within config c
    → Within config (answer config published now c).0
unfolding answer
answer-Within config published now c h = ground arith

answer_first-Within :
    (config : SchedulerConfig) (r : CaptureReason) (published : Bool) (now : ℕ) (cs : List Capture)
    → All (Within config) cs
    → WithinAnswer config (answer_first config r published now cs)
unfolding answer_first
answer_first-Within config r published now [] h = tt
answer_first-Within config r published now (c ∷ cs) h = elim (Bool-cases (same_reason c.reason r)) [
  | inl t ↦ elim (Bool-cases (is_dispatching c.phase)) [
    | inl u ↦ rw (t, u) (answer-Within config published now c h.0, h.1)
    | inr u ↦ rw (t, u) tt
  ]
  | inr t ↦ rw t (
      behind-Within config c (answer_first config r published now cs) h.0
        (answer_first-Within config r published now cs h.1))
]

module _ {T : Type 0} where
  keep_answered-IsBounded :
      (s : Scheduler T) (id : Bytes) (x : CaptureSession T)
      (o : Option (List Capture × DispatchOutcome))
      → IsBounded s
      → WithinAnswer s.config o
      → IsBounded (keep_answered s id x o).0
  unfolding keep_answered
  keep_answered-IsBounded s id x none v h = v
  keep_answered-IsBounded s id x (some (cs, o)) v h = elim (Bool-cases (all_settled cs)) [
    | inl t ↦ rw t (
        AllEntries-mono (λ k y. All (Within s.config) y.captures × ((k == id) ≡ false))
          (λ k y. All (Within s.config) y.captures) (erase id s.sessions) (λ k y z. z.0)
          (AllEntries-erase (λ k y. All (Within s.config) y.captures) id s.sessions v))
    | inr t ↦ rw t (
        AllEntries-insert (λ k y. All (Within s.config) y.captures) id (record x { captures = cs })
          s.sessions h v)
  ]

  answer_session-IsBounded :
      (s : Scheduler T) (r : CaptureRequest T) (published : Bool) (now : ℕ)
      (o : Option (CaptureSession T))
      → lookup r.request_session_id s.sessions ≡ o
      → IsBounded s
      → IsBounded (answer_session s r published now o).0
  unfolding answer_session
  answer_session-IsBounded s r published now none f v = v
  answer_session-IsBounded s r published now (some x) f v =
      keep_answered-IsBounded s r.request_session_id x
        (answer_first s.config r.request_reason published now x.captures) v
        (answer_first-Within s.config r.request_reason published now x.captures
          (AllEntries-lookup (λ k y. All (Within s.config) y.captures) r.request_session_id x
            s.sessions v f).2)

  plan-IsBounded :
      (s : Scheduler T) (r : TransitionResult) (x : OccupancySession) (o : Option T)
      → IsBounded s
      → IsBounded (plan s r x o).0
  unfolding plan
  plan-IsBounded s r x none v = v
  plan-IsBounded s r x (some target) v =
      AllEntries-insert (λ k y. All (Within s.config) y.captures) r.session_id
        (record {
          slot_id = r.slot_id;
          sensor_id = x.sensor_id;
          started_at = x.started_at;
          started_at_monotonic = x.started_at_monotonic;
          target = target;
          captures = map (planned x.started_at_monotonic) s.config.offsets;
        })
        s.sessions (planned-Within s.config x.started_at_monotonic s.config.offsets) v

  started-IsBounded :
      (s : Scheduler T) (r : TransitionResult) (o : Option OccupancySession)
      → IsBounded s
      → IsBounded (started s r o).0
  unfolding started
  started-IsBounded s r none v = v
  started-IsBounded s r (some x) v = elim (Bool-cases (contains r.session_id s.sessions)) [
    | inl t ↦ rw t v
    | inr t ↦ rw t (plan-IsBounded s r x (resolve s.resolver r.slot_id) v)
  ]

  transition-IsBounded :
      (c : TransitionCode) (s : Scheduler T) (r : TransitionResult)
      → IsBounded s
      → IsBounded (transition c s r).0
  unfolding transition
  transition-IsBounded session_completed s r v =
      AllEntries-mono (λ k y. All (Within s.config) y.captures × ((k == r.session_id) ≡ false))
        (λ k y. All (Within s.config) y.captures) (erase r.session_id s.sessions) (λ k y z. z.0)
        (AllEntries-erase (λ k y. All (Within s.config) y.captures) r.session_id s.sessions v)
  transition-IsBounded session_started s r v = started-IsBounded s r r.session v
  transition-IsBounded _ s r v = v

  build_request-Within :
      (config : SchedulerConfig) (id : Bytes) (x : CaptureSession T) (cs : List Capture)
      (rest : List (CaptureRequest T))
      → All (Within config) cs
      → All (λ q. q.request_attempt ≤ 1 + config.max_retries) rest
      → All
          (λ q. q.request_attempt ≤ 1 + config.max_retries)
          (map (build_request config id x) cs ++ rest)
  build_request-Within config id x [] rest h r = r
  build_request-Within config id x (c ∷ cs) rest h r =
      (h.0, build_request-Within config id x cs rest h.1 r)

  dispatch_all-Within :
      (config : SchedulerConfig) (now : ℕ) (m : Map Bytes (CaptureSession T))
      → AllEntries (λ k x. All (Within config) x.captures) m
      → AllEntries (λ k x. All (Within config) x.captures) (dispatch_all config now m).0
        × All (λ q. q.request_attempt ≤ 1 + config.max_retries) (dispatch_all config now m).1
  unfolding dispatch_all
  dispatch_all-Within config now [] v = (tt, tt)
  dispatch_all-Within config now ((id, x) ∷ m) v =
      let here = dispatch-Within config now x.captures v.0 in
      let rest = dispatch_all-Within config now m v.1 in
      (
        (here.0, rest.0),
        build_request-Within config id x (dispatch now x.captures).1 (dispatch_all config now m).1
            here.1 rest.1,
      )

-- What happens to a scheduler.
pub data Op (T : Type 0) : Type 0 where
  moved : TransitionResult → Op T
  polled : ℕ → Op T
  reported : CaptureRequest T → Bool → ℕ → Op T

unfoldable pub after : {T : Type 0} → Scheduler T → List (Op T) → Scheduler T
after s [] = s
after s (moved r ∷ ops) = after (on_transition s r).0 ops
after s (polled now ∷ ops) = after (due s now).0 ops
after s (reported q published now ∷ ops) = after (on_dispatch_result s q published now).0 ops

module _ {T : Type 0} where
  after-IsBounded : (s : Scheduler T) (ops : List (Op T)) → IsBounded s → IsBounded (after s ops)
  unfolding after on_transition due on_dispatch_result
  after-IsBounded s [] v = v
  after-IsBounded s (moved r ∷ ops) v =
      after-IsBounded (on_transition s r).0 ops (transition-IsBounded r.code s r v)
  after-IsBounded s (polled now ∷ ops) v =
      after-IsBounded (due s now).0 ops (dispatch_all-Within s.config now s.sessions v).0
  after-IsBounded s (reported q published now ∷ ops) v =
      after-IsBounded (on_dispatch_result s q published now).0 ops
        (answer_session-IsBounded s q published now (lookup q.request_session_id s.sessions) refl v)

pub due-attempts :
    {T : Type 0} (s : Scheduler T) (ops : List (Op T)) (now : ℕ)
    → IsBounded s
    → All (λ q. q.request_attempt ≤ 1 + (after s ops).config.max_retries) (due (after s ops) now).1
unfolding due
due-attempts s ops now v =
    (dispatch_all-Within (after s ops).config now (after s ops).sessions
      (after-IsBounded s ops v)).1
