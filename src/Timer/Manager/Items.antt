-- ===== src/Timer/Manager/Items.antt =====
-- What happens to the items of the queue, for any property of items that the retries keep.
use pi_server.Base.{
  ℕ, ◌+◌, ◌<◌, Bool, true, false, not, ◌&&◌, inl, inr, List, [], ◌∷◌, arith, All, Bytes, is_empty,
  ltb, leb, if◌then◌else◌, Bool-cases,
}
use pi_server.Timer.Manager.{
  TimerItem, Timers, Answers, Evidence, no_provider, provider_threw, provided, Marking, marked,
  not_marked, database_threw, retry_after_evidence_pending, retry_after_database_error, mark_answer,
  mark_item, with_evidence, with_time, process_expired, is_current, later, top_of, expire_top,
  expire_from, expire_one,
}

-- An item as the retries write it.
abbrev pub waiting : TimerItem → ℕ → ℕ → TimerItem
waiting item n at = record item {
  queue_sequence = n;
  deadline = at;
  evidence_retry_count = item.evidence_retry_count + 1;
}

abbrev pub backing : TimerItem → ℕ → ℕ → TimerItem
backing item n at = record item {
  queue_sequence = n;
  deadline = at;
  retry_count = if ltb item.retry_count 5 then item.retry_count + 1 else item.retry_count;
}

pub top_of-All :
    (P : TimerItem → Type 0) (a : TimerItem) (q : List TimerItem)
    → P a
    → All P q
    → P (top_of a q).0 × All P (top_of a q).1
unfolding top_of
top_of-All P a [] h k = (h, tt)
top_of-All P a (b ∷ q) h k = elim (Bool-cases (later a b)) [
  | inl t ↦ rw t (let r = top_of-All P b q (k.0) (k.1) in (r.0, (h, r.1)))
  | inr t ↦ rw t (let r = top_of-All P a q h (k.1) in (r.0, (k.0, r.1)))
]

module _ (P : TimerItem → Type 0)
    (waited : (i : TimerItem) (n at : ℕ) → i.evidence_retry_count < 10 → P i → P (waiting i n at))
    (backed : (i : TimerItem) (n at : ℕ) → P i → P (backing i n at))
    (timed : (x : Answers) (i : TimerItem) → P i → P (with_time x i)) where
  abbrev Kept : Timers → Type 0
  Kept s = All P s.queue

  retry_after_database_error-Kept :
      (s : Timers) (x : Answers) (item : TimerItem)
      → Kept s
      → P item
      → Kept (retry_after_database_error s x item)
  unfolding retry_after_database_error
  retry_after_database_error-Kept s x item v h = elim (Bool-cases s.is_stopping) [
    | inl t ↦ rw t v
    | inr t ↦ rw t (backed item s.next_sequence _ h, v)
  ]

  mark_item-Kept :
      (m : Marking) (s : Timers) (x : Answers) (item : TimerItem) (path : Bytes)
      → Kept s
      → P item
      → Kept (mark_answer m s x item path).0
  unfolding mark_answer
  mark_item-Kept marked s x item path v h = elim (Bool-cases (is_current s item)) [
    | inl t ↦ rw t v
    | inr t ↦ rw t v
  ]
  mark_item-Kept not_marked s x item path v h = v
  mark_item-Kept database_threw s x item path v h = retry_after_database_error-Kept s x item v h

  retry_after_evidence_pending-Kept :
      (s : Timers) (x : Answers) (item : TimerItem)
      → item.evidence_retry_count < 10
      → Kept s
      → P item
      → Kept (retry_after_evidence_pending s x item).0
  unfolding retry_after_evidence_pending
  retry_after_evidence_pending-Kept s x item few v h = elim (Bool-cases s.is_stopping) [
    | inl t ↦ rw t v
    | inr t ↦ rw t (waited item s.next_sequence _ few h, v)
  ]

  with_evidence-Kept :
      (e : Evidence) (s : Timers) (x : Answers) (item : TimerItem)
      → Kept s
      → P item
      → Kept (with_evidence e s x item).0
  unfolding with_evidence mark_item
  with_evidence-Kept no_provider s x item v h = mark_item-Kept x.marking s x item _ v h
  with_evidence-Kept provider_threw s x item v h = mark_item-Kept x.marking s x item [] v h
  with_evidence-Kept (provided path) s x item v h =
      elim (Bool-cases (is_empty path && ltb item.evidence_retry_count 10)) [
        | inl t ↦ rw t (retry_after_evidence_pending-Kept s x item (ground arith) v h)
        | inr t ↦ rw t (mark_item-Kept x.marking s x item path v h)
      ]

  process_expired-Kept :
      (s : Timers) (x : Answers) (item : TimerItem)
      → Kept s
      → P item
      → Kept (process_expired s x item).0
  unfolding process_expired
  process_expired-Kept s x item v h = elim (Bool-cases (not (is_current s item))) [
    | inl t ↦ rw t v
    | inr t ↦ rw t (with_evidence-Kept x.evidence s x (with_time x item) v (timed x item h))
  ]

  expire_top-Kept :
      (s : Timers) (x : Answers) (t : TimerItem × List TimerItem)
      → Kept s
      → P t.0 × All P t.1
      → Kept (expire_top s x t).0
  unfolding expire_top
  expire_top-Kept s x (item, rest) v h = elim (Bool-cases (leb item.deadline x.now)) [
    | inl t ↦ rw t (process_expired-Kept (record s { queue = rest }) x item (h.1) (h.0))
    | inr t ↦ rw t v
  ]

  expire_from-Kept :
      (s : Timers) (x : Answers) (q : List TimerItem)
      → Kept s
      → All P q
      → Kept (expire_from s x q).0
  unfolding expire_from
  expire_from-Kept s x [] v h = v
  expire_from-Kept s x (a ∷ q) v h =
      expire_top-Kept s x (top_of a q) v (top_of-All P a q (h.0) (h.1))

  unless_stopping-Kept :
      (is_stopping : Bool) (s : Timers) (x : Answers)
      → Kept s
      → Kept (if is_stopping then (s, []) else expire_from s x s.queue).0
  unless_stopping-Kept true s x v = v
  unless_stopping-Kept false s x v = expire_from-Kept s x s.queue v v

  pub expire_one-Kept : (s : Timers) (x : Answers) → Kept s → Kept (expire_one s x).0
  unfolding expire_one
  expire_one-Kept s x v = unless_stopping-Kept s.is_stopping s x v
