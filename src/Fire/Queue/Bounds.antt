-- ===== src/Fire/Queue/Bounds.antt =====
-- How many commands wait, whatever is submitted and however the worker's commands are answered.
use pi_server.Base.{
  if◌then◌else◌, ℕ, ◌+◌, ◌-◌, ◌≤◌, ◌≡◌, refl, ap, Bool, true, false, not, ◌||◌, inl, inr, Option,
  none, some, List, [], ◌∷◌, Bytes, Map, length, length-append, is_empty, Bool-cases, arith, min,
  leb,
}
use pi_server.Fire.Queue.{
  Item, Queue, admitted_as, is_ack, acknowledgement, pending_ticket, admit, enqueue_ack, enqueue,
  passes_over, past, select_item, take_selected, take_when_idle, take_next, answer_item,
  finish_item,
}

abbrev pub busy : Option Item → ℕ
busy none = 0
busy (some c) = 1

abbrev pub Bounded : Queue → Type 0
Bounded q = length q.items + busy q.processing ≤ q.capacity + 1

pub data Op : Type 0 where
  submitted : Item → Op
  taken_at : ℕ → Op
  answered : ℕ → Bool → Bool → Op

unfoldable pub step : Queue → Op → Queue
step q (submitted c) = (enqueue q c).0
step q (taken_at now) = take_next q now
step q (answered now retryable blocks) = finish_item q now retryable blocks

unfoldable pub run : Queue → List Op → Queue
run q [] = q
run q (op ∷ ops) = run (step q op) ops

busy_le : (o : Option Item) → busy o ≤ 1
busy_le none = omega arith
busy_le (some c) = omega arith

admit-Bounded : (q : Queue) (c : Item) → Bounded q → Bounded (admit q c).0
admit-Bounded q c v = elim (Bool-cases (leb q.capacity (length q.items))) [
  | inl t1 ↦ rw t1 v
  | inr t1 ↦
      rw (t1, length-append q.items (record c { ticket = q.next_ticket } ∷ []))
        (ground (arith, t1, busy_le q.processing))
]

enqueue_ack-Bounded :
    (q : Queue) (c : Item) (o : Option ℕ) → Bounded q → Bounded (enqueue_ack q c o).0
enqueue_ack-Bounded q c (some n) v = v
enqueue_ack-Bounded q c none v =
    elim (Bool-cases (leb (q.capacity - min q.capacity q.binding_count) (length q.items))) [
      | inl t1 ↦ rw t1 v
      | inr t1 ↦ rw t1 (admit-Bounded q c v)
    ]

enqueue-Bounded : (q : Queue) (c : Item) → Bounded q → Bounded (enqueue q c).0
unfolding enqueue
enqueue-Bounded q c v =
    elim (Bool-cases (not q.running || (not q.accepting || is_empty c.item_channel))) [
      | inl t1 ↦ rw t1 v
      | inr t1 ↦ rw t1 (of_kind (is_ack c.kind))
    ]
  where
    of_kind : (b : Bool) → Bounded (if b then enqueue_ack q c (pending_ticket q c) else admit q c).0
    of_kind true = enqueue_ack-Bounded q c (pending_ticket q c) v
    of_kind false = admit-Bounded q c v

-- A command that is taken is no longer in the queue.
abbrev OneLess : List Item → Option (Item × List Item) → Type 0
OneLess items none = Unit
OneLess items (some (c, rest)) = length items ≡ length rest + 1

past-OneLess :
    (c : Item) (items : List Item) (o : Option (Item × List Item))
    → OneLess items o
    → OneLess (c ∷ items) (past c o)
past-OneLess c items none h = tt
past-OneLess c items (some (d, rest)) h = omega (arith, h)

select_item-OneLess :
    (blocked : Map Bytes ℕ) (now : ℕ) (items : List Item)
    → OneLess items (select_item blocked now items)
unfolding select_item
select_item-OneLess blocked now [] = tt
select_item-OneLess blocked now (c ∷ items) = elim (Bool-cases (passes_over blocked now c)) [
  | inl t1 ↦
      rw t1 (
        past-OneLess c items (select_item blocked now items)
          (select_item-OneLess blocked now items))
  | inr t1 ↦ rw t1 (omega arith)
]

take_selected-Bounded :
    (q : Queue) (o : Option (Item × List Item))
    → q.processing ≡ none
    → OneLess q.items o
    → Bounded q
    → Bounded (take_selected q o)
take_selected-Bounded q none idle h v = v
take_selected-Bounded q (some (c, rest)) idle h v = ground (arith, h, v)

take_when_idle-Bounded :
    (q : Queue) (now : ℕ) (o : Option Item)
    → q.processing ≡ o
    → Bounded q
    → Bounded (take_when_idle q now o)
take_when_idle-Bounded q now (some c) h v = v
take_when_idle-Bounded q now none h v =
    take_selected-Bounded q (select_item q.blocked now q.items) h
      (select_item-OneLess q.blocked now q.items) v

answer_item-Bounded :
    (q : Queue) (o : Option Item) (now : ℕ) (retryable blocks : Bool)
    → q.processing ≡ o
    → Bounded q
    → Bounded (answer_item q o now retryable blocks)
answer_item-Bounded q none now retryable blocks h v = v
answer_item-Bounded q (some c) now true blocks h v =
    let one : busy q.processing ≡ 1 = ap busy h in
    rw (length-append q.items _) (omega (arith, v, one))
answer_item-Bounded q (some c) now false blocks h v = omega (arith, v)

step-Bounded : (q : Queue) (op : Op) → Bounded q → Bounded (step q op)
unfolding step take_next finish_item
step-Bounded q (submitted c) v = enqueue-Bounded q c v
step-Bounded q (taken_at now) v = take_when_idle-Bounded q now q.processing refl v
step-Bounded q (answered now retryable blocks) v =
    answer_item-Bounded q q.processing now retryable blocks refl v

reserve_kept :
    (q : Queue) (c : Item) (o : Option ℕ) (n : ℕ)
    → o ≡ none
    → (enqueue_ack q c o).1 ≡ admitted_as n
    → length (enqueue_ack q c o).0.items + min q.capacity q.binding_count ≤ q.capacity
reserve_kept q c (some m) n h e = cc
reserve_kept q c none n h e =
    elim (Bool-cases (leb (q.capacity - min q.capacity q.binding_count) (length q.items))) [
      | inl t1 ↦ cc (rw t1 at e)
      | inr t1 ↦ elim (Bool-cases (leb q.capacity (length q.items))) [
        | inl t2 ↦ cc (rw (t1, t2) at e)
        | inr t2 ↦
            rw (t1, t2, length-append q.items (record c { ticket = q.next_ticket } ∷ []))
              (ground (arith, t1, t2))
      ]
    ]

enqueue_reserve :
    (q : Queue) (c : Item) (n : ℕ)
    → c.kind ≡ acknowledgement
    → pending_ticket q c ≡ none
    → (enqueue q c).1 ≡ admitted_as n
    → length (enqueue q c).0.items + min q.capacity q.binding_count ≤ q.capacity
unfolding enqueue
enqueue_reserve q c n kind fresh e =
    elim (Bool-cases (not q.running || (not q.accepting || is_empty c.item_channel))) [
      | inl t1 ↦ cc (rw t1 at e)
      | inr t1 ↦ rw t1 (of_kind (is_ack c.kind) (ap is_ack kind) (rw t1 at e))
    ]
  where
    of_kind :
        (b : Bool)
        → b ≡ true
        → (if b then enqueue_ack q c (pending_ticket q c) else admit q c).1 ≡ admitted_as n
        → length (if b then enqueue_ack q c (pending_ticket q c) else admit q c).0.items
            + min q.capacity q.binding_count
          ≤ q.capacity
    of_kind true h f = reserve_kept q c (pending_ticket q c) n fresh f
    of_kind false h f = cc

-- From a queue within its bound on, through any calls, the commands that wait and the one that is processed
-- are at most one more than the capacity; and an acknowledgement that is queued leaves room for a signal of
-- each channel.
pub run-Bounded :
    (q : Queue) (ops : List Op)
    → Bounded q
    → Bounded (run q ops)
      × ((c : Item) (n : ℕ)
          → c.kind ≡ acknowledgement
          → pending_ticket (run q ops) c ≡ none
          → (enqueue (run q ops) c).1 ≡ admitted_as n
          → length (enqueue (run q ops) c).0.items
              + min (run q ops).capacity (run q ops).binding_count
            ≤ (run q ops).capacity)
unfolding run
run-Bounded q [] v = (v, enqueue_reserve q)
run-Bounded q (op ∷ ops) v = run-Bounded (step q op) ops (step-Bounded q op v)
