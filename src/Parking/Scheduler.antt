-- ===== src/Parking/Scheduler.antt =====
-- src/parking/CaptureScheduler.cpp: when the captures of a session are due, and their retries. The
-- camera target is a parameter `T`, which the scheduler only passes on; times are in one unit.
pub mod Due
pub mod Answer
pub mod Attempts
pub mod Requests
pub mod Budget
pub mod Counted
use pi_server.Base.{
  ℕ, ◌+◌, Bool, true, false, ◌&&◌, Option, none, some, List, [], ◌∷◌, ◌++◌, map, Bytes, bytes_eq,
  Map, lookup, ltb, insert, erase, contains, length, leb, if◌then◌else◌,
}
use pi_server.Parking.Session.{OccupancySession}
use pi_server.Parking.Slots.{TransitionCode, session_started, session_completed, TransitionResult}

pub data CaptureReason : Type 0 where
  hall_occupied_30s hall_occupied_60s : CaptureReason

pub record CaptureOffset : Type 0 where
  pub offset_reason : CaptureReason
  pub delay : ℕ

pub record SchedulerConfig : Type 0 where
  pub offsets : List CaptureOffset
  pub response_timeout : ℕ
  pub retry_interval : ℕ
  pub max_retries : ℕ

pub data DispatchOutcome : Type 0 where
  done will_retry gave_up unknown : DispatchOutcome

pub data Phase : Type 0 where
  pending dispatching settled : Phase

pub record Capture : Type 0 where
  pub reason : CaptureReason
  pub phase : Phase
  pub attempt : ℕ
  pub scheduled_for : ℕ

pub record ScheduleReport : Type 0 where
  pub scheduled : ℕ
  pub unmapped_slot : Bool
  pub duplicate : Bool

pub record CaptureRequest (T : Type 0) : Type 0 where
  pub request_session_id : Bytes
  pub request_slot_id : Bytes
  pub request_sensor_id : Bytes
  pub request_target : T
  pub request_reason : CaptureReason
  pub request_attempt : ℕ
  pub session_started_at : ℕ
  pub request_scheduled_for : ℕ
  pub request_response_timeout : ℕ

pub record CaptureSession (T : Type 0) : Type 0 where
  pub slot_id : Bytes
  pub sensor_id : Bytes
  pub started_at : ℕ
  pub started_at_monotonic : ℕ
  pub target : T
  pub captures : List Capture

-- `resolver` is none for an empty function.
pub record Scheduler (T : Type 0) : Type 0 where
  pub config : SchedulerConfig
  pub resolver : Option (Bytes → Option T)
  pub sessions : Map Bytes (CaptureSession T)

abbrev no_schedule : ScheduleReport
no_schedule = record { scheduled = 0; unmapped_slot = false; duplicate = false }

resolve : {T : Type 0} → Option (Bytes → Option T) → Bytes → Option T
resolve none slot_id = none
resolve (some f) slot_id = f slot_id

abbrev pub planned : ℕ → CaptureOffset → Capture
planned start o = record {
  reason = o.offset_reason;
  phase = pending;
  attempt = 1;
  scheduled_for = start + o.delay;
}

plan :
    {T : Type 0}
    → Scheduler T
    → TransitionResult
    → OccupancySession
    → Option T
    → Scheduler T × ScheduleReport
plan s r occupancy none = (s, record no_schedule { unmapped_slot = true })
plan s r occupancy (some target) =
    let captures = map (planned occupancy.started_at_monotonic) s.config.offsets in
    (
      record s {
        sessions =
            insert r.session_id
              (record {
                slot_id = r.slot_id;
                sensor_id = occupancy.sensor_id;
                started_at = occupancy.started_at;
                started_at_monotonic = occupancy.started_at_monotonic;
                target = target;
                captures = captures;
              })
              s.sessions;
      },
      record no_schedule { scheduled = length captures },
    )

started :
    {T : Type 0}
    → Scheduler T
    → TransitionResult
    → Option OccupancySession
    → Scheduler T × ScheduleReport
unfolding plan resolve
started s r none = (s, no_schedule)
started s r (some occupancy) =
    if contains r.session_id s.sessions
    then (s, record no_schedule { duplicate = true })
    else plan s r occupancy (resolve s.resolver r.slot_id)

transition :
    {T : Type 0} → TransitionCode → Scheduler T → TransitionResult → Scheduler T × ScheduleReport
unfolding started
transition session_completed s r =
    (record s { sessions = erase r.session_id s.sessions }, no_schedule)
transition session_started s r = started s r r.session
transition _ s r = (s, no_schedule)

unfoldable pub on_transition :
    {T : Type 0} → Scheduler T → TransitionResult → Scheduler T × ScheduleReport
unfolding transition
on_transition s r = transition r.code s r

abbrev pub is_pending : Phase → Bool
is_pending pending = true
is_pending _ = false

abbrev pub is_dispatching : Phase → Bool
is_dispatching dispatching = true
is_dispatching _ = false

abbrev pub is_settled : Phase → Bool
is_settled settled = true
is_settled _ = false

-- `!(capture.phase != Pending || capture.scheduledFor > now)`.
abbrev pub is_ready : ℕ → Capture → Bool
is_ready now c = is_pending c.phase && leb c.scheduled_for now

abbrev pub build_request :
    {T : Type 0} → SchedulerConfig → Bytes → CaptureSession T → Capture → CaptureRequest T
build_request config session_id s c = record {
  request_session_id = session_id;
  request_slot_id = s.slot_id;
  request_sensor_id = s.sensor_id;
  request_target = s.target;
  request_reason = c.reason;
  request_attempt = c.attempt;
  session_started_at = s.started_at;
  request_scheduled_for = c.scheduled_for;
  request_response_timeout = config.response_timeout;
}

-- The inner loop: the captures with those that are ready dispatched, and the ready ones.
unfoldable pub dispatch : ℕ → List Capture → List Capture × List Capture
dispatch now [] = ([], [])
dispatch now (c ∷ cs) =
    let (kept, ready) = dispatch now cs in
    if is_ready now c
    then (record c { phase = dispatching } ∷ kept, c ∷ ready)
    else (c ∷ kept, ready)

-- The outer loop.
unfoldable pub dispatch_all :
    {T : Type 0}
    → SchedulerConfig
    → ℕ
    → Map Bytes (CaptureSession T)
    → Map Bytes (CaptureSession T) × List (CaptureRequest T)
dispatch_all config now [] = ([], [])
dispatch_all config now ((id, s) ∷ m) =
    let (kept, ready) = dispatch now s.captures in
    let (rest, requests) = dispatch_all config now m in
    ((id, record s { captures = kept }) ∷ rest, map (build_request config id s) ready ++ requests)

unfoldable pub due : {T : Type 0} → Scheduler T → ℕ → Scheduler T × List (CaptureRequest T)
due s now =
    let (kept, requests) = dispatch_all s.config now s.sessions in
    (record s { sessions = kept }, requests)

abbrev pub sooner : Capture → Option ℕ → Option ℕ
sooner c none = if is_pending c.phase then some c.scheduled_for else none
sooner c (some best) =
    if is_pending c.phase && ltb c.scheduled_for best then some c.scheduled_for else some best

unfoldable pub earliest_capture : Option ℕ → List Capture → Option ℕ
earliest_capture best [] = best
earliest_capture best (c ∷ cs) = earliest_capture (sooner c best) cs

unfoldable pub earliest_session : {T : Type 0} → Option ℕ → Map Bytes (CaptureSession T) → Option ℕ
unfolding earliest_capture
earliest_session best [] = best
earliest_session best ((id, s) ∷ m) = earliest_session (earliest_capture best s.captures) m

unfoldable pub next_deadline : {T : Type 0} → Scheduler T → Option ℕ
unfolding earliest_session
next_deadline s = earliest_session none s.sessions

unfoldable pub tracked_sessions : {T : Type 0} → Scheduler T → ℕ
tracked_sessions s = length s.sessions
