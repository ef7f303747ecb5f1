-- ===== src/Parking/Scheduler/Budget.antt =====
-- A scheduler's requests for a session and a reason, against the attempts that its starts give.
use pi_server.Base.{
  as_count, ℕ, ◌+◌, ◌*◌, ◌≤◌, ◌≡◌, refl, ap, sym, subst, inl, inr, Bool, true, false, ◌&&◌, Option,
  none, some, List, [], ◌∷◌, map, arith, Bytes, bytes_eq, bytes_beq_iff, ◌==◌, Map, lookup, insert,
  erase, contains, Bool-cases, if◌then◌else◌,
}
use pi_server.Parking.Session.{OccupancySession}
use pi_server.Parking.Slots.{TransitionCode, session_started, session_completed, TransitionResult}
use pi_server.Parking.Scheduler.{
  SchedulerConfig, CaptureReason, Capture, CaptureSession, CaptureRequest, Scheduler,
  DispatchOutcome, planned, dispatch, dispatch_all, due, on_transition, transition, started, plan,
  resolve,
}
use pi_server.Parking.Scheduler.Answer.{
  all_settled, answer_first, keep_answered, answer_session, on_dispatch_result,
}
use pi_server.Parking.Scheduler.Attempts.{Op, moved, polled, reported}
use pi_server.Parking.Scheduler.Requests.{
  count_for, budget, captures_left, captures_left-dispatch, Lessened, answer_first-Lessened,
  captures_left-planned, count_for-build_request,
}

abbrev pub step : {T : Type 0} → Scheduler T → Op T → Scheduler T
step s (moved r) = (on_transition s r).0
step s (polled now) = (due s now).0
step s (reported q published now) = (on_dispatch_result s q published now).0

abbrev pub requested_at : {T : Type 0} → Bytes → CaptureReason → Scheduler T → Op T → ℕ
requested_at id reason s (polled now) = count_for id reason (due s now).1
requested_at id reason s _ = 0

-- How many of the requests of the polls are for the session and the reason.
unfoldable pub requested : {T : Type 0} → Bytes → CaptureReason → Scheduler T → List (Op T) → ℕ
requested id reason s [] = 0
requested id reason s (op ∷ ops) = requested_at id reason s op + requested id reason (step s op) ops

abbrev is_start : TransitionCode → Bool
is_start session_started = true
is_start _ = false

abbrev pub starts_at : {T : Type 0} → Bytes → Op T → ℕ
starts_at id (moved r) = as_count (is_start r.code && (r.session_id == id))
starts_at id _ = 0

-- How many transitions tell that the session has started.
unfoldable pub starts : {T : Type 0} → Bytes → List (Op T) → ℕ
starts id [] = 0
starts id (op ∷ ops) = starts_at id op + starts id ops

-- The requests that may still come of the captures under a session's key.
abbrev entry_left : SchedulerConfig → Bytes → CaptureReason → Bytes → List Capture → ℕ
entry_left config id reason k cs = if k == id then captures_left config reason cs else 0

entry_left_mono :
    (config : SchedulerConfig) (id : Bytes) (reason : CaptureReason) (k : Bytes)
    (cs ds : List Capture)
    → captures_left config reason cs ≤ captures_left config reason ds
    → entry_left config id reason k cs ≤ entry_left config id reason k ds
entry_left_mono config id reason k cs ds h = ground arith

module _ {T : Type 0} (config : SchedulerConfig) (id : Bytes) (reason : CaptureReason) where
  unfoldable pub sessions_left : Map Bytes (CaptureSession T) → ℕ
  sessions_left [] = 0
  sessions_left ((k, x) ∷ m) = entry_left config id reason k x.captures + sessions_left m

  dispatch_all-left :
      (now : ℕ) (m : Map Bytes (CaptureSession T))
      → count_for id reason (dispatch_all config now m).1
          + sessions_left (dispatch_all config now m).0
        ≡ sessions_left m
  unfolding dispatch_all sessions_left count_for
  dispatch_all-left now [] = refl
  dispatch_all-left now ((k, x) ∷ m) =
      let rest = dispatch_all-left now m in
      let here = captures_left-dispatch config reason now x.captures in
      let made =
        count_for-build_request config reason id k x (dispatch now x.captures).1
          (dispatch_all config now m).1 in
      elim (Bool-cases (k == id)) [
        | inl t ↦ rw (made, t) (omega arith)
        | inr t ↦ rw (made, t) (omega arith)
      ]

  abbrev old_left : Bytes → Option (CaptureSession T) → ℕ
  old_left k none = 0
  old_left k (some x) = entry_left config id reason k x.captures

  insert-left :
      (k : Bytes) (x : CaptureSession T) (m : Map Bytes (CaptureSession T))
      → sessions_left (insert k x m) + old_left k (lookup k m)
        ≡ entry_left config id reason k x.captures + sessions_left m
  unfolding insert lookup sessions_left
  insert-left k x [] = omega arith
  insert-left k x ((j, y) ∷ m) = elim (Bool-cases (j == k)) [
    | inl t ↦
        let same = ap (λ i. entry_left config id reason i y.captures) ((bytes_beq_iff j k).0 t) in
        rw t (omega arith)
    | inr t ↦ rw t (let rest = insert-left k x m in omega arith)
  ]

  erase-left :
      (k : Bytes) (m : Map Bytes (CaptureSession T)) → sessions_left (erase k m) ≤ sessions_left m
  unfolding erase sessions_left
  erase-left k [] = omega arith
  erase-left k ((j, y) ∷ m) = elim (Bool-cases (j == k)) [
    | inl t ↦ rw t (let rest = erase-left k m in omega arith)
    | inr t ↦ rw t (let rest = erase-left k m in omega arith)
  ]

  keep_answered-left :
      (s : Scheduler T) (k : Bytes) (x : CaptureSession T)
      (o : Option (List Capture × DispatchOutcome))
      → lookup k s.sessions ≡ some x
      → Lessened config reason x.captures o
      → sessions_left (keep_answered s k x o).0.sessions ≤ sessions_left s.sessions
  unfolding keep_answered
  keep_answered-left s k x none f h = omega arith
  keep_answered-left s k x (some (cs, o)) f h = elim (Bool-cases (all_settled cs)) [
    | inl t ↦ rw t (erase-left k s.sessions)
    | inr t ↦
        let put = insert-left k (record x { captures = cs }) s.sessions in
        let old : old_left k (lookup k s.sessions) ≡ entry_left config id reason k x.captures =
          ap (old_left k) f in
        let less = entry_left_mono config id reason k cs x.captures h in rw t (omega arith)
  ]

  answer_session-left :
      (s : Scheduler T) (q : CaptureRequest T) (published : Bool) (now : ℕ)
      (o : Option (CaptureSession T))
      → s.config ≡ config
      → lookup q.request_session_id s.sessions ≡ o
      → sessions_left (answer_session s q published now o).0.sessions ≤ sessions_left s.sessions
  unfolding answer_session
  answer_session-left s q published now none e f = omega arith
  answer_session-left s q published now (some x) e f =
      let answered =
        subst
          (λ c.
            Lessened config reason x.captures
              (answer_first c q.request_reason published now x.captures))
          (sym e) (answer_first-Lessened config reason q.request_reason published now x.captures) in
      keep_answered-left s q.request_session_id x
        (answer_first s.config q.request_reason published now x.captures) f answered

  plan-left :
      (s : Scheduler T) (r : TransitionResult) (x : OccupancySession) (o : Option T)
      → s.config ≡ config
      → sessions_left (plan s r x o).0.sessions
        ≤ sessions_left s.sessions + as_count (r.session_id == id) * budget config reason
  unfolding plan
  plan-left s r x none e = omega arith
  plan-left s r x (some target) e =
      let captures = map (planned x.started_at_monotonic) s.config.offsets in
      let put =
        insert-left r.session_id
          (record {
            slot_id = r.slot_id;
            sensor_id = x.sensor_id;
            started_at = x.started_at;
            started_at_monotonic = x.started_at_monotonic;
            target = target;
            captures = captures;
          })
          s.sessions in
      let given : captures_left config reason captures ≡ budget config reason =
        subst
          (λ c.
            captures_left config reason (map (planned x.started_at_monotonic) c.offsets)
            ≡ budget config reason)
          (sym e) (captures_left-planned config reason x.started_at_monotonic config.offsets) in
      elim (Bool-cases (r.session_id == id)) [
        | inl t ↦
            let share : entry_left config id reason r.session_id captures ≡ budget config reason =
              rw t given in
            rw t (omega arith)
        | inr t ↦
            let share : entry_left config id reason r.session_id captures ≡ 0 = rw t refl in
            rw t (omega arith)
      ]

  started-left :
      (s : Scheduler T) (r : TransitionResult) (o : Option OccupancySession)
      → s.config ≡ config
      → sessions_left (started s r o).0.sessions
        ≤ sessions_left s.sessions + as_count (r.session_id == id) * budget config reason
  unfolding started
  started-left s r none e = omega arith
  started-left s r (some x) e = elim (Bool-cases (contains r.session_id s.sessions)) [
    | inl t ↦ rw t (omega arith)
    | inr t ↦ rw t (plan-left s r x (resolve s.resolver r.slot_id) e)
  ]

  transition-left :
      (c : TransitionCode) (s : Scheduler T) (r : TransitionResult)
      → s.config ≡ config
      → sessions_left (transition c s r).0.sessions
        ≤ sessions_left s.sessions
          + as_count (is_start c && (r.session_id == id)) * budget config reason
  unfolding transition
  transition-left session_completed s r e =
      let h = erase-left r.session_id s.sessions in omega arith
  transition-left session_started s r e = started-left s r r.session e
  transition-left _ s r e = omega arith

  due-left :
      (s : Scheduler T) (now : ℕ)
      → s.config ≡ config
      → count_for id reason (due s now).1 + sessions_left (due s now).0.sessions
        ≤ sessions_left s.sessions
  unfolding due
  due-left s now e =
      subst
        (λ c.
          count_for id reason (dispatch_all c now s.sessions).1
            + sessions_left (dispatch_all c now s.sessions).0
          ≤ sessions_left s.sessions)
        (sym e) (let h = dispatch_all-left now s.sessions in omega arith)

  pub step-left :
      (s : Scheduler T) (op : Op T)
      → s.config ≡ config
      → requested_at id reason s op + sessions_left (step s op).sessions
        ≤ sessions_left s.sessions + starts_at id op * budget config reason
  unfolding on_transition on_dispatch_result
  step-left s (moved r) e = let h = transition-left r.code s r e in omega arith
  step-left s (polled now) e = let h = due-left s now e in omega arith
  step-left s (reported q published now) e =
      let h =
        answer_session-left s q published now (lookup q.request_session_id s.sessions) e refl in
      omega arith
