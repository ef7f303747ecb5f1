-- ===== src/Timer/Manager/Waits.antt =====
-- How often the timers of a log wait for evidence: each wait uses up one of the ten of its timer.
use pi_server.Base.{
  as_count, ℕ, ◌+◌, ◌-◌, ◌≤◌, ◌≡◌, refl, Bool, true, false, not, ◌&&◌, inl, inr, List, [], ◌∷◌,
  ◌++◌, arith, Bytes, is_empty, ltb, leb, if◌then◌else◌, Bool-cases, ℤ, int_eq, ◌==◌,
}
use pi_server.Timer.Manager.{
  TimerItem, Timers, Scheduled, scheduled, thrown, schedule_impl, Answers, Effect, mark_violation,
  report_error, violated, snapshot_failed, evidence_unavailable, with_time, expire_one, Evidence,
  no_provider, provider_threw, provided, Marking, marked, not_marked, database_threw, mark_answer,
  mark_item, retry_after_evidence_pending, retry_after_database_error, with_evidence,
  process_expired, is_current, later, top_of,
}
use pi_server.Timer.Manager.Retries.{Op, asked, turned, step}

-- A turn asks the database to mark a violation.
abbrev pub marks : List Effect → Bool
marks [] = false
marks (mark_violation id at path ∷ es) = true
marks (_ ∷ es) = marks es

abbrev pub is_taken : Timers → ℤ → ℕ → TimerItem × List TimerItem → Bool
is_taken s id now (item, rest) = leb item.deadline now && (is_current s item && (item.log_id == id))

abbrev pub top_taken : Timers → ℤ → ℕ → List TimerItem → Bool
top_taken s id now [] = false
top_taken s id now (a ∷ q) = is_taken s id now (top_of a q)

-- A turn waits for evidence of log `id`: the top of the queue is a current timer of the log whose
-- deadline is reached, and no violation is marked for it.
unfoldable pub waits_once : ℤ → Timers → Answers → Bool
waits_once id s x =
    not s.is_stopping && (top_taken s id x.now s.queue && not (marks (expire_one s x).1))

abbrev pub waits_at : ℤ → Timers → Op → ℕ
waits_at id s (turned x) = as_count (waits_once id s x)
waits_at id s _ = 0

-- How many turns wait for evidence of the log.
unfoldable pub waits : ℤ → Timers → List Op → ℕ
waits id s [] = 0
waits id s (op ∷ ops) = waits_at id s op + waits id (step s op) ops

abbrev is_scheduled : Scheduled → Bool
is_scheduled (scheduled t) = true
is_scheduled (thrown e) = false

abbrev pub schedules_at : ℤ → Timers → Op → ℕ
schedules_at id s (asked log_id slot_id car_number delay now) =
    as_count (is_scheduled (schedule_impl s log_id slot_id car_number delay now) && (log_id == id))
schedules_at id s _ = 0

-- How many timers of the log are scheduled: the calls that do not throw.
unfoldable pub schedules : ℤ → Timers → List Op → ℕ
schedules id s [] = 0
schedules id s (op ∷ ops) = schedules_at id s op + schedules id (step s op) ops

-- The waits that an item, and the queue, still have for the log.
abbrev pub share : ℤ → TimerItem → ℕ
share id item = if item.log_id == id then 10 - item.evidence_retry_count else 0

unfoldable pub left : ℤ → List TimerItem → ℕ
left id [] = 0
left id (item ∷ q) = share id item + left id q

pub left-top_of :
    (id : ℤ) (a : TimerItem) (q : List TimerItem)
    → share id (top_of a q).0 + left id (top_of a q).1 ≡ share id a + left id q
unfolding top_of left
left-top_of id a [] = refl
left-top_of id a (b ∷ q) = elim (Bool-cases (later a b)) [
  | inl t ↦ rw t (let r = left-top_of id b q in omega arith)
  | inr t ↦ rw t (let r = left-top_of id a q in omega arith)
]

marks-append :
    (before es : List Effect) (id : ℤ) (at path : Bytes)
    → marks ((before ++ (mark_violation id at path ∷ [])) ++ es) ≡ true
marks-append [] es id at path = refl
marks-append (mark_violation i a p ∷ before) es id at path = refl
marks-append (report_error p i ∷ before) es id at path = marks-append before es id at path
marks-append (violated i a b c d ∷ before) es id at path = marks-append before es id at path

share-with_time :
    (id : ℤ) (x : Answers) (item : TimerItem) → share id (with_time x item) ≡ share id item
share-with_time id x item = elim (Bool-cases (is_empty item.violation_at)) [
  | inl t ↦ rw t refl
  | inr t ↦ rw t refl
]

log_id-with_time : (x : Answers) (item : TimerItem) → (with_time x item).log_id ≡ item.log_id
log_id-with_time x item = elim (Bool-cases (is_empty item.violation_at)) [
  | inl t ↦ rw t refl
  | inr t ↦ rw t refl
]

module _ (id : ℤ) where
  left-retry_after_database_error :
      (s : Timers) (x : Answers) (item : TimerItem)
      → left id (retry_after_database_error s x item).queue ≤ share id item + left id s.queue
  unfolding retry_after_database_error left
  left-retry_after_database_error s x item = elim (Bool-cases s.is_stopping) [
    | inl t ↦ rw t (omega arith)
    | inr t ↦ rw t (omega arith)
  ]

  left-mark_answer :
      (m : Marking) (s : Timers) (x : Answers) (item : TimerItem) (path : Bytes)
      → left id (mark_answer m s x item path).0.queue ≤ share id item + left id s.queue
  unfolding mark_answer
  left-mark_answer marked s x item path = elim (Bool-cases (is_current s item)) [
    | inl t ↦ rw t (omega arith)
    | inr t ↦ rw t (omega arith)
  ]
  left-mark_answer not_marked s x item path = omega arith
  left-mark_answer database_threw s x item path = left-retry_after_database_error s x item

  -- What the item may still wait, before it is processed and after.
  abbrev Spent : Timers → TimerItem → Timers × List Effect → Type 0
  Spent s item r =
      as_count ((item.log_id == id) && not (marks r.1)) + left id r.0.queue
      ≤ share id item + left id s.queue

  mark_item-Spent :
      (s : Timers) (x : Answers) (item : TimerItem) (path : Bytes) (before : List Effect)
      → Spent s item (mark_item s x item path before)
  unfolding mark_item
  mark_item-Spent s x item path before =
      let less = left-mark_answer x.marking s x item path in
      let told =
        marks-append before (mark_answer x.marking s x item path).1 item.log_id item.violation_at
          path in
      rw told (ground arith)

  retry_after_evidence_pending-Spent :
      (s : Timers) (x : Answers) (item : TimerItem)
      → ltb item.evidence_retry_count 10 ≡ true
      → Spent s item (retry_after_evidence_pending s x item)
  unfolding retry_after_evidence_pending left
  retry_after_evidence_pending-Spent s x item few = elim (Bool-cases s.is_stopping) [
    | inl t ↦ rw t (ground arith)
    | inr t ↦ rw t (ground arith)
  ]

  with_evidence-Spent :
      (e : Evidence) (s : Timers) (x : Answers) (item : TimerItem)
      → Spent s item (with_evidence e s x item)
  unfolding with_evidence
  with_evidence-Spent no_provider s x item = mark_item-Spent s x item _ []
  with_evidence-Spent provider_threw s x item =
      mark_item-Spent s x item [] (report_error snapshot_failed item.log_id ∷ [])
  with_evidence-Spent (provided path) s x item =
      elim (Bool-cases (is_empty path && ltb item.evidence_retry_count 10)) [
        | inl t ↦ rw t (retry_after_evidence_pending-Spent s x item (ground arith))
        | inr t ↦ rw t (
            mark_item-Spent s x item path
              (if is_empty path then report_error evidence_unavailable item.log_id ∷ [] else []))
      ]

  pub process_expired-Spent :
      (s : Timers) (x : Answers) (item : TimerItem)
      → as_count
            (is_current s item && (item.log_id == id) && not (marks (process_expired s x item).1))
          + left id (process_expired s x item).0.queue
        ≤ share id item + left id s.queue
  unfolding process_expired
  process_expired-Spent s x item = elim (Bool-cases (is_current s item)) [
    | inr t ↦ rw t (omega arith)
    | inl t ↦
        let h = with_evidence-Spent x.evidence s x (with_time x item) in
        let same = share-with_time id x item in
        let log = log_id-with_time x item in rw t (ground arith)
  ]
