-- ===== src/Timer/Manager/Awaited.antt =====
-- The waits of the timers of a log, through any calls.
use pi_server.Base.{
  as_count, ℕ, ◌+◌, ◌*◌, ◌≤◌, ◌≡◌, refl, ap, ◌∙◌, sym, Bool, true, false, not, ◌&&◌, inl, inr, List,
  [], ◌∷◌, arith, Bytes, leb, if◌then◌else◌, Bool-cases, ℤ, int_eq, is_positive,
}
use pi_server.Timer.Manager.{
  TimerItem, Timers, no_timers, start, stop, schedule_impl, Answers, Effect, expire_one, top_of,
  expire_top, expire_from,
}
use pi_server.Timer.Manager.Retries.{
  Op, begun, ended, asked, turned, or_kept, step, run, AllBounded, run-no_timers-AllBounded,
}
use pi_server.Timer.Manager.Waits.{
  marks, is_taken, top_taken, waits_once, waits_at, waits, schedules_at, schedules, share, left,
  left-top_of, process_expired-Spent,
}

module _ (id : ℤ) where
  expire_top-Spent :
      (s : Timers) (x : Answers) (t : TimerItem × List TimerItem)
      → left id s.queue ≡ share id t.0 + left id t.1
      → as_count (is_taken s id x.now t && not (marks (expire_top s x t).1))
          + left id (expire_top s x t).0.queue
        ≤ left id s.queue
  unfolding expire_top
  expire_top-Spent s x (item, rest) e = elim (Bool-cases (leb item.deadline x.now)) [
    | inr t ↦ rw t (omega arith)
    | inl t ↦
        let h = process_expired-Spent id (record s { queue = rest }) x item in rw t (ground arith)
  ]

  expire_from-Spent :
      (s : Timers) (x : Answers) (q : List TimerItem)
      → s.queue ≡ q
      → as_count (top_taken s id x.now q && not (marks (expire_from s x q).1))
          + left id (expire_from s x q).0.queue
        ≤ left id s.queue
  unfolding expire_from left
  expire_from-Spent s x [] e = omega arith
  expire_from-Spent s x (a ∷ q) e =
      expire_top-Spent s x (top_of a q) (ap (left id) e ∙ sym (left-top_of id a q))

  unless_stopping-Spent :
      (is_stopping : Bool) (s : Timers) (x : Answers)
      → let turn : Timers × List Effect =
          if is_stopping then (s, []) else expire_from s x s.queue in
        as_count (not is_stopping && (top_taken s id x.now s.queue && not (marks turn.1)))
          + left id turn.0.queue
        ≤ left id s.queue
  unless_stopping-Spent true s x = omega arith
  unless_stopping-Spent false s x = expire_from-Spent s x s.queue refl

  expire_one-Spent :
      (s : Timers) (x : Answers)
      → as_count (waits_once id s x) + left id (expire_one s x).0.queue ≤ left id s.queue
  unfolding waits_once expire_one
  expire_one-Spent s x = unless_stopping-Spent s.is_stopping s x

  schedule_impl-left :
      (s : Timers) (log_id : ℤ) (slot_id car_number : Bytes) (delay : ℤ) (now : ℕ)
      → left id (or_kept s (schedule_impl s log_id slot_id car_number delay now)).queue
        ≤ left id s.queue + 10 * schedules_at id s (asked log_id slot_id car_number delay now)
  unfolding schedule_impl left
  schedule_impl-left s log_id slot_id car_number delay now =
      elim (Bool-cases (not (is_positive delay))) [
        | inl t ↦ rw t (omega arith)
        | inr t ↦ elim (Bool-cases s.is_stopping) [
          | inl u ↦ rw (t, u) (omega arith)
          | inr u ↦ elim (Bool-cases (not s.is_started)) [
            | inl z ↦ rw (t, u, z) (omega arith)
            | inr z ↦ rw (t, u, z) (ground arith)
          ]
        ]
      ]

  start-left : (s : Timers) → left id (start s).0.queue ≤ left id s.queue
  unfolding start
  start-left s = elim (Bool-cases s.is_started) [
    | inl t ↦ rw t (omega arith)
    | inr t ↦ elim (Bool-cases s.is_stopping) [
      | inl u ↦ rw (t, u) (omega arith)
      | inr u ↦ rw (t, u) (omega arith)
    ]
  ]

  step-left :
      (s : Timers) (op : Op)
      → waits_at id s op + left id (step s op).queue ≤ left id s.queue + 10 * schedules_at id s op
  unfolding step stop
  step-left s begun = let h = start-left s in omega arith
  step-left s ended = omega arith
  step-left s (asked log_id slot_id car_number delay now) =
      let h = schedule_impl-left s log_id slot_id car_number delay now in omega arith
  step-left s (turned x) = let h = expire_one-Spent s x in omega arith

  waits-left :
      (s : Timers) (ops : List Op)
      → waits id s ops + left id (run s ops).queue ≤ left id s.queue + 10 * schedules id s ops
  unfolding waits schedules run
  waits-left s [] = omega arith
  waits-left s (op ∷ ops) =
      let h = step-left s op in let k = waits-left (step s op) ops in omega arith

-- From the constructor on, through any calls and whatever the database and the evidence provider
-- answer: the turns that wait for evidence of a log are at most ten for each timer scheduled for
-- it. In each timer of the queue the counter of these waits is at most ten and the exponent of the
-- database's backoff at most five.
pub waits-AllBounded :
    (id : ℤ) (has_callback : Bool) (ops : List Op)
    → (waits id (no_timers has_callback) ops ≤ 10 * schedules id (no_timers has_callback) ops)
      × AllBounded (run (no_timers has_callback) ops)
unfolding no_timers left
waits-AllBounded id has_callback ops =
    let h = waits-left id (no_timers has_callback) ops in
    (omega arith, run-no_timers-AllBounded has_callback ops)
