-- ===== src/Parking/Scheduler/Answer.antt =====
-- `onDispatchResult` of src/parking/CaptureScheduler.cpp: what the result of a request does.
use pi_server.Base.{
  ℕ, ◌+◌, Bool, true, false, ◌&&◌, Option, none, some, List, [], ◌∷◌, Bytes, bytes_eq, lookup, ltb,
  insert, erase, if◌then◌else◌,
}
use pi_server.Parking.Scheduler.{
  CaptureReason, hall_occupied_30s, hall_occupied_60s, SchedulerConfig, DispatchOutcome, done,
  will_retry, gave_up, unknown, pending, settled, Capture, CaptureRequest, CaptureSession,
  Scheduler, is_dispatching, is_settled,
}

abbrev pub same_reason : CaptureReason → CaptureReason → Bool
same_reason hall_occupied_30s hall_occupied_30s = true
same_reason hall_occupied_60s hall_occupied_60s = true
same_reason _ _ = false

-- A dispatched capture after its result.
unfoldable pub answer : SchedulerConfig → Bool → ℕ → Capture → Capture × DispatchOutcome
answer config published now c =
    if published
    then (record c { phase = settled }, done)
    else if ltb c.attempt (1 + config.max_retries)
    then (
      record c {
        phase = pending;
        attempt = c.attempt + 1;
        scheduled_for = now + config.retry_interval;
      },
      will_retry,
    )
    else (record c { phase = settled }, gave_up)

abbrev pub behind :
    Capture → Option (List Capture × DispatchOutcome) → Option (List Capture × DispatchOutcome)
behind c none = none
behind c (some (cs, o)) = some (c ∷ cs, o)

-- `std::find_if` for the first capture of the reason, and its result; `none` is `Unknown`.
unfoldable pub answer_first :
    SchedulerConfig
    → CaptureReason
    → Bool
    → ℕ
    → List Capture
    → Option (List Capture × DispatchOutcome)
unfolding answer
answer_first config reason published now [] = none
answer_first config reason published now (c ∷ cs) =
    let rest = answer_first config reason published now cs in
    let (c', o) = answer config published now c in
    if same_reason c.reason reason
    then (if is_dispatching c.phase then some (c' ∷ cs, o) else none)
    else behind c rest

abbrev pub all_settled : List Capture → Bool
all_settled [] = true
all_settled (c ∷ cs) = is_settled c.phase && all_settled cs

-- The session is dropped when all its captures are settled.
unfoldable pub keep_answered :
    {T : Type 0}
    → Scheduler T
    → Bytes
    → CaptureSession T
    → Option (List Capture × DispatchOutcome)
    → Scheduler T × DispatchOutcome
keep_answered s id session none = (s, unknown)
keep_answered s id session (some (cs, o)) = (
  record s {
    sessions =
        if all_settled cs
        then erase id s.sessions
        else insert id (record session { captures = cs }) s.sessions;
  },
  o,
)

unfoldable pub answer_session :
    {T : Type 0}
    → Scheduler T
    → CaptureRequest T
    → Bool
    → ℕ
    → Option (CaptureSession T)
    → Scheduler T × DispatchOutcome
unfolding answer_first keep_answered
answer_session s request published now none = (s, unknown)
answer_session s request published now (some session) =
    keep_answered s request.request_session_id session
      (answer_first s.config request.request_reason published now session.captures)

unfoldable pub on_dispatch_result :
    {T : Type 0} → Scheduler T → CaptureRequest T → Bool → ℕ → Scheduler T × DispatchOutcome
unfolding answer_session
on_dispatch_result s request published now =
    answer_session s request published now (lookup request.request_session_id s.sessions)
