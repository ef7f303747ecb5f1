-- ===== src/Parking/Scheduler/Due.antt =====
-- What a poll of the scheduler returns, and when.
use pi_server.Base.{
  ℕ, ◌≡◌, refl, not, ◌||◌, ◌&&◌, Option, none, some, is_empty, List, [], ◌∷◌, ◌++◌, map, arith,
  Bytes, Map, is_empty-map, inl, inr, Bool-cases,
}
use pi_server.Parking.Gate.Hold.{is_reached}
use pi_server.Parking.Scheduler.{
  SchedulerConfig, Capture, CaptureSession, Scheduler, is_ready, sooner, dispatch, dispatch_all,
  due, earliest_capture, earliest_session, next_deadline, build_request,
}

dispatch_again : (now : ℕ) (cs : List Capture) → (dispatch now (dispatch now cs).0).1 ≡ []
unfolding dispatch
dispatch_again now [] = refl
dispatch_again now (c ∷ cs) = elim (Bool-cases (is_ready now c)) [
  | inl t ↦ rw (t, dispatch) (dispatch_again now cs)
  | inr t ↦ rw (t, dispatch, t) (dispatch_again now cs)
]

earliest_capture-dispatch :
    (now : ℕ) (best : Option ℕ) (cs : List Capture)
    → is_reached now (earliest_capture best cs)
      ≡ (is_reached now best || not (is_empty (dispatch now cs).1))
unfolding earliest_capture dispatch
earliest_capture-dispatch now none [] = refl
earliest_capture-dispatch now (some b) [] = ground arith
earliest_capture-dispatch now none (c ∷ cs) =
    ground (arith, earliest_capture-dispatch now (sooner c none) cs)
earliest_capture-dispatch now (some b) (c ∷ cs) =
    ground (arith, earliest_capture-dispatch now (sooner c (some b)) cs)

is_empty-++ : {A : Type 0} (xs ys : List A) → is_empty (xs ++ ys) ≡ (is_empty xs && is_empty ys)
is_empty-++ [] ys = refl
is_empty-++ (x ∷ xs) ys = refl

earliest_session-dispatch_all :
    {T : Type 0} (config : SchedulerConfig) (now : ℕ) (best : Option ℕ)
    (m : Map Bytes (CaptureSession T))
    → is_reached now (earliest_session best m)
      ≡ (is_reached now best || not (is_empty (dispatch_all config now m).1))
unfolding earliest_session dispatch_all
earliest_session-dispatch_all config now best [] = ground arith
earliest_session-dispatch_all config now best ((id, s) ∷ m) =
    let (kept, ready) = dispatch now s.captures in
    ground (
      arith,
      earliest_session-dispatch_all config now (earliest_capture best s.captures) m,
      earliest_capture-dispatch now best s.captures,
      is_empty-++ (map (build_request config id s) ready) (dispatch_all config now m).1,
      is_empty-map (build_request config id s) ready,
    )

-- A poll returns a request exactly when `next_deadline` is there and has been reached, so a runtime
-- that sleeps until that time misses nothing and never wakes for nothing.
pub next_deadline-due :
    {T : Type 0} (s : Scheduler T) (now : ℕ)
    → is_reached now (next_deadline s) ≡ not (is_empty (due s now).1)
unfolding next_deadline due
next_deadline-due s now = earliest_session-dispatch_all s.config now none s.sessions

dispatch_all_again :
    {T : Type 0} (config : SchedulerConfig) (now : ℕ) (m : Map Bytes (CaptureSession T))
    → (dispatch_all config now (dispatch_all config now m).0).1 ≡ []
unfolding dispatch_all
dispatch_all_again config now [] = refl
dispatch_all_again config now ((id, s) ∷ m) =
    rw (dispatch_again now s.captures) (dispatch_all_again config now m)

-- A poll after a poll at the same time returns nothing: what was returned does not come again.
pub due_again : {T : Type 0} (s : Scheduler T) (now : ℕ) → (due (due s now).0 now).1 ≡ []
unfolding due
due_again s now = dispatch_all_again s.config now s.sessions
