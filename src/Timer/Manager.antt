-- ===== src/Timer/Manager.antt =====
-- src/timer/TimerManager.cpp: the deadlines of the sessions, and what happens when one is reached.
-- The answers of the evidence provider and of the database are arguments; a call that is made is an
-- `Effect`, in order. An expired item is processed as one step: no other call comes in between.
pub mod Items
pub mod Retries
pub mod Waits
pub mod Awaited
pub mod Replaced
pub mod Revived
use pi_server.Base.{
  ℕ, zero, suc, ◌+◌, ◌*◌, ◌%◌, ◌^◌, min, Bool, true, false, not, ◌&&◌, ◌||◌, Option, none, some,
  List, [], ◌∷◌, ◌++◌, Bytes, text, is_empty, Map, lookup, insert, erase, nat_beq, ltb, leb,
  if◌then◌else◌, ℤ, is_positive, pos_part, int_eq,
}
use pi_server.Parking.Capture.{key_for}

pub record TimerItem : Type 0 where
  pub deadline : ℕ
  pub queue_sequence : ℕ
  pub generation : ℕ
  pub log_id : ℤ
  pub item_slot_id : Bytes
  pub car_number : Bytes
  pub retry_count : ℕ
  pub evidence_retry_count : ℕ
  pub violation_at : Bytes

pub record Timers : Type 0 where
  pub has_callback : Bool
  pub queue : List TimerItem
  pub is_stopping : Bool
  pub is_started : Bool
  pub next_sequence : ℕ
  pub generations : Map ℤ ℕ

-- The constructor.
unfoldable pub no_timers : Bool → Timers
no_timers has_callback = record {
  has_callback = has_callback;
  queue = [];
  is_stopping = false;
  is_started = false;
  next_sequence = 0;
  generations = [];
}

-- The thread is taken to be made.
unfoldable pub start : Timers → Timers × Bool
start s =
    if s.is_started
    then (s, true)
    else if s.is_stopping
    then (s, false)
    else (record s { is_started = true }, true)

unfoldable pub stop : Timers → Timers
stop s = record s { is_stopping = true; is_started = false }

pub data ScheduleError : Type 0 where
  delay_not_positive stopping not_started : ScheduleError

pub data Scheduled : Type 0 where
  scheduled : Timers → Scheduled
  thrown : ScheduleError → Scheduled

abbrev pub or_zero : Option ℕ → ℕ
or_zero none = 0
or_zero (some n) = n

-- A counter of 64 bits.
abbrev pub next_count : ℕ → ℕ
next_count n = (n + 1) % 2 ^ 64

abbrev pub requeue : Timers → TimerItem → Timers
requeue s item = record s {
  queue = record item { queue_sequence = s.next_sequence } ∷ s.queue;
  next_sequence = next_count s.next_sequence;
}

abbrev pub add_timer : Timers → ℤ → Bytes → Bytes → ℕ → Timers
add_timer s id slot_id car_number deadline =
    let generation = next_count (or_zero (lookup id s.generations)) in
    requeue (record s { generations = insert id generation s.generations })
      (record {
        deadline = deadline;
        queue_sequence = 0;
        generation = generation;
        log_id = id;
        item_slot_id = slot_id;
        car_number = car_number;
        retry_count = 0;
        evidence_retry_count = 0;
        violation_at = [];
      })

-- `schedule` and `reschedule`; a delay counts milliseconds.
unfoldable pub schedule_impl : Timers → ℤ → Bytes → Bytes → ℤ → ℕ → Scheduled
schedule_impl s id slot_id car_number delay now =
    if not (is_positive delay)
    then thrown delay_not_positive
    else if s.is_stopping
    then thrown stopping
    else if not s.is_started
    then thrown not_started
    else scheduled (add_timer s id slot_id car_number (now + pos_part delay))

abbrev pub is_same : Option ℕ → ℕ → Bool
is_same none g = false
is_same (some h) g = nat_beq h g

abbrev pub is_current : Timers → TimerItem → Bool
is_current s item = is_same (lookup item.log_id s.generations) item.generation

unfoldable pub count_current : Timers → List TimerItem → ℕ
count_current s [] = 0
count_current s (item ∷ q) =
    let rest = count_current s q in if is_current s item then suc rest else rest

unfoldable pub pending_count : Timers → ℕ
pending_count s = count_current s s.queue

pub data Problem : Type 0 where
  snapshot_failed evidence_pending evidence_unavailable update_failed : Problem

pub data Effect : Type 0 where
  report_error : Problem → ℤ → Effect
  mark_violation : ℤ → Bytes → Bytes → Effect
  violated : ℤ → Bytes → Bytes → Bytes → Bytes → Effect

pub data Evidence : Type 0 where
  no_provider : Evidence
  provider_threw : Evidence
  provided : Bytes → Evidence

pub data Marking : Type 0 where
  marked not_marked database_threw : Marking

-- The answers to the calls, the clock and the text of the wall clock.
pub record Answers : Type 0 where
  pub evidence : Evidence
  pub marking : Marking
  pub now : ℕ
  pub utc_now : Bytes

unfoldable pub retry_after_evidence_pending : Timers → Answers → TimerItem → Timers × List Effect
retry_after_evidence_pending s x item =
    let told =
      if nat_beq item.evidence_retry_count 0
      then report_error evidence_pending item.log_id ∷ []
      else [] in
    if s.is_stopping then (s, told) else (
      requeue s (record item {
        evidence_retry_count = item.evidence_retry_count + 1;
        deadline = x.now + 500;
      }),
      told,
    )

unfoldable pub retry_after_database_error : Timers → Answers → TimerItem → Timers
retry_after_database_error s x item =
    if s.is_stopping
    then s
    else requeue s (record item {
      retry_count = if ltb item.retry_count 5 then item.retry_count + 1 else item.retry_count;
      deadline = x.now + 1000 * 2 ^ min item.retry_count 5;
    })

abbrev pub forget_generation : Timers → TimerItem → Timers
forget_generation s item =
    if is_current s item then record s { generations = erase item.log_id s.generations } else s

mark_answer : Marking → Timers → Answers → TimerItem → Bytes → Timers × List Effect
mark_answer marked s x item path = (
  forget_generation s item,
  if s.has_callback
      then violated item.log_id item.item_slot_id item.car_number item.violation_at path ∷ []
      else [],
)
mark_answer not_marked s x item path = (s, [])
mark_answer database_threw s x item path =
    (retry_after_database_error s x item, report_error update_failed item.log_id ∷ [])

abbrev pub after_effects : List Effect → Timers × List Effect → Timers × List Effect
after_effects before (s, es) = (s, before ++ es)

mark_item : Timers → Answers → TimerItem → Bytes → List Effect → Timers × List Effect
unfolding mark_answer
mark_item s x item path before =
    after_effects (before ++ (mark_violation item.log_id item.violation_at path ∷ []))
      (mark_answer x.marking s x item path)

unfoldable pub default_path : TimerItem → Bytes
default_path item =
    text "snapshots/"
    ++ (item.car_number ++ (text "_" ++ (key_for item.log_id ++ text "_violation.jpg")))

with_evidence : Evidence → Timers → Answers → TimerItem → Timers × List Effect
unfolding mark_item
with_evidence no_provider s x item = mark_item s x item (default_path item) []
with_evidence provider_threw s x item =
    mark_item s x item [] (report_error snapshot_failed item.log_id ∷ [])
with_evidence (provided path) s x item =
    if is_empty path && ltb item.evidence_retry_count 10
    then retry_after_evidence_pending s x item
    else mark_item s x item path
        (if is_empty path then report_error evidence_unavailable item.log_id ∷ [] else [])

abbrev pub with_time : Answers → TimerItem → TimerItem
with_time x item =
    if is_empty item.violation_at then record item { violation_at = x.utc_now } else item

unfoldable pub process_expired : Timers → Answers → TimerItem → Timers × List Effect
unfolding with_evidence
process_expired s x item =
    if not (is_current s item) then (s, []) else with_evidence x.evidence s x (with_time x item)

-- The order of the queue: `LaterDeadline`.
abbrev pub later : TimerItem → TimerItem → Bool
later a b =
    if not (nat_beq a.deadline b.deadline)
    then ltb b.deadline a.deadline
    else ltb b.queue_sequence a.queue_sequence

-- The top of the queue and the rest.
unfoldable pub top_of : TimerItem → List TimerItem → TimerItem × List TimerItem
top_of a [] = (a, [])
top_of a (b ∷ q) =
    let next = top_of (if later a b then b else a) q in
    (next.0, (if later a b then a else b) ∷ next.1)

expire_top : Timers → Answers → TimerItem × List TimerItem → Timers × List Effect
expire_top s x (item, rest) =
    if leb item.deadline x.now then process_expired (record s { queue = rest }) x item else (s, [])

expire_from : Timers → Answers → List TimerItem → Timers × List Effect
unfolding expire_top
expire_from s x [] = (s, [])
expire_from s x (a ∷ q) = expire_top s x (top_of a q)

-- One turn of the inner loop of `run`.
unfoldable pub expire_one : Timers → Answers → Timers × List Effect
unfolding expire_from
expire_one s x = if s.is_stopping then (s, []) else expire_from s x s.queue
