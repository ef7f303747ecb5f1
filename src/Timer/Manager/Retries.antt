-- ===== src/Timer/Manager/Retries.antt =====
-- The retry counters of a timer are bounded, whatever the database and the evidence provider answer.
use pi_server.Base.{
  ℕ, ◌≤◌, Bool, not, inl, inr, List, [], ◌∷◌, arith, All, Bytes, is_empty, Bool-cases, ℤ,
  is_positive,
}
use pi_server.Timer.Manager.{
  TimerItem, Timers, no_timers, start, stop, Scheduled, scheduled, thrown, schedule_impl, Answers,
  with_time, expire_one,
}
use pi_server.Timer.Manager.Items.{expire_one-Kept}

-- What happens to the timers.
pub data Op : Type 0 where
  begun ended : Op
  asked : ℤ → Bytes → Bytes → ℤ → ℕ → Op
  turned : Answers → Op

abbrev pub or_kept : Timers → Scheduled → Timers
or_kept s (scheduled t) = t
or_kept s (thrown e) = s

unfoldable pub step : Timers → Op → Timers
step s begun = (start s).0
step s ended = stop s
step s (asked id slot_id car_number delay now) =
    or_kept s (schedule_impl s id slot_id car_number delay now)
step s (turned x) = (expire_one s x).0

unfoldable pub run : Timers → List Op → Timers
run s [] = s
run s (op ∷ ops) = run (step s op) ops

-- The exponent of the backoff is at most five, and the counter of waits at most ten.
abbrev pub IsBounded : TimerItem → Type 0
IsBounded item = (item.retry_count ≤ 5) × (item.evidence_retry_count ≤ 10)

abbrev pub AllBounded : Timers → Type 0
AllBounded s = All IsBounded s.queue

with_time-IsBounded :
    (x : Answers) (item : TimerItem) → IsBounded item → IsBounded (with_time x item)
with_time-IsBounded x item h = elim (Bool-cases (is_empty item.violation_at)) [
  | inl t ↦ rw t h
  | inr t ↦ rw t h
]

expire_one-AllBounded : (s : Timers) (x : Answers) → AllBounded s → AllBounded (expire_one s x).0
expire_one-AllBounded =
    expire_one-Kept IsBounded (λ i n at few h. (h.0, omega arith)) (λ i n at h. (ground arith, h.1))
      with_time-IsBounded

start-AllBounded : (s : Timers) → AllBounded s → AllBounded (start s).0
unfolding start
start-AllBounded s v = elim (Bool-cases s.is_started) [
  | inl t ↦ rw t v
  | inr t ↦ elim (Bool-cases s.is_stopping) [ inl u ↦ rw (t, u) v | inr u ↦ rw (t, u) v ]
]

schedule_impl-AllBounded :
    (s : Timers) (id : ℤ) (slot_id car_number : Bytes) (delay : ℤ) (now : ℕ)
    → AllBounded s
    → AllBounded (or_kept s (schedule_impl s id slot_id car_number delay now))
unfolding schedule_impl
schedule_impl-AllBounded s id slot_id car_number delay now v =
    elim (Bool-cases (not (is_positive delay))) [
      | inl t ↦ rw t v
      | inr t ↦ elim (Bool-cases s.is_stopping) [
        | inl u ↦ rw (t, u) v
        | inr u ↦ elim (Bool-cases (not s.is_started)) [
          | inl z ↦ rw (t, u, z) v
          | inr z ↦ rw (t, u, z) ((omega arith, omega arith), v)
        ]
      ]
    ]

pub run-AllBounded : (s : Timers) (ops : List Op) → AllBounded s → AllBounded (run s ops)
unfolding run step stop
run-AllBounded s [] v = v
run-AllBounded s (begun ∷ ops) v = run-AllBounded (start s).0 ops (start-AllBounded s v)
run-AllBounded s (ended ∷ ops) v = run-AllBounded (stop s) ops v
run-AllBounded s (asked id slot_id car_number delay now ∷ ops) v =
    run-AllBounded (or_kept s (schedule_impl s id slot_id car_number delay now)) ops
      (schedule_impl-AllBounded s id slot_id car_number delay now v)
run-AllBounded s (turned x ∷ ops) v =
    run-AllBounded (expire_one s x).0 ops (expire_one-AllBounded s x v)

pub run-no_timers-AllBounded :
    (has_callback : Bool) (ops : List Op) → AllBounded (run (no_timers has_callback) ops)
unfolding no_timers
run-no_timers-AllBounded has_callback ops = run-AllBounded (no_timers has_callback) ops tt
