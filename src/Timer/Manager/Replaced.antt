-- ===== src/Timer/Manager/Replaced.antt =====
-- Scheduling a log anew puts an end to its earlier timers, as long as no violation was marked.
use pi_server.Base.{
  ℕ, ◌+◌, ◌-◌, ◌^◌, ◌%◌, ◌≤◌, ◌<◌, ◌≡◌, refl, Bool, true, false, not, ◌&&◌, inl, inr, List, [], ◌∷◌,
  arith, All, All-mono, Bytes, is_empty, length, lookup, insert, lookup-insert, Map, ◌==◌, leb,
  if◌then◌else◌, Bool-cases, ℤ, pos_part, is_positive, int_eq, int_beq_iff, sym, subst,
}
use pi_server.Timer.Manager.{
  is_same, TimerItem, Timers, no_timers, start, stop, scheduled, schedule_impl, add_timer, or_zero,
  Answers, Evidence, no_provider, provider_threw, provided, Marking, marked, not_marked,
  database_threw, retry_after_evidence_pending, retry_after_database_error, mark_answer, mark_item,
  with_evidence, with_time, process_expired, is_current, top_of, expire_top, expire_from,
  expire_one,
}
use pi_server.Timer.Manager.Items.{expire_one-Kept}
use pi_server.Timer.Manager.Retries.{Op, begun, ended, asked, turned, or_kept, step, run}

abbrev is_marked : Marking → Bool
is_marked marked = true
is_marked _ = false

-- No answer is that a violation was marked.
abbrev pub Unmarked : Op → Type 0
Unmarked (turned x) = is_marked x.marking ≡ false
Unmarked _ = Unit

unmarked_generations :
    (m : Marking) (s : Timers) (x : Answers) (item : TimerItem) (path : Bytes)
    → is_marked m ≡ false
    → (mark_answer m s x item path).0.generations ≡ s.generations
unfolding mark_answer retry_after_database_error
unmarked_generations marked s x item path h = cc
unmarked_generations not_marked s x item path h = refl
unmarked_generations database_threw s x item path h = ground arith

evidence_generations :
    (e : Evidence) (s : Timers) (x : Answers) (item : TimerItem)
    → is_marked x.marking ≡ false
    → (with_evidence e s x item).0.generations ≡ s.generations
unfolding with_evidence mark_item retry_after_evidence_pending
evidence_generations no_provider s x item h = unmarked_generations x.marking s x item _ h
evidence_generations provider_threw s x item h = unmarked_generations x.marking s x item [] h
evidence_generations (provided path) s x item h =
    ground (arith, unmarked_generations x.marking s x item path h)

expire_one_generations :
    (s : Timers) (x : Answers)
    → is_marked x.marking ≡ false
    → (expire_one s x).0.generations ≡ s.generations
unfolding expire_one expire_from expire_top process_expired
expire_one_generations s x h = unless_stopping s.is_stopping s.queue
  where
    unless_stopping :
        (b : Bool) (q : List TimerItem)
        → (if b then (s, []) else expire_from s x q).0.generations ≡ s.generations
    unless_stopping true q = refl
    unless_stopping false [] = refl
    unless_stopping false (a ∷ q) =
        let t = top_of a q in
        let s' = record s { queue = t.1 } in
        elim (Bool-cases (leb (t.0).deadline x.now)) [
          | inr late ↦ rw late refl
          | inl due ↦ elim (Bool-cases (not (is_current s' t.0))) [
            | inl u ↦ rw (due, u) refl
            | inr u ↦ rw (due, u) (evidence_generations x.evidence s' x (with_time x t.0) h)
          ]
        ]

-- The generation that a log was given last.
abbrev last_of : Map ℤ ℕ → ℤ → ℕ
last_of m id = or_zero (lookup id m)

abbrev Below : Map ℤ ℕ → TimerItem → Type 0
Below m item = item.generation ≤ last_of m item.log_id

-- No timer is ahead of the counter of its log, and no counter is above `n`.
abbrev Counted : ℕ → Timers → Type 0
Counted n s = All (Below s.generations) s.queue × ((id : ℤ) → last_of s.generations id ≤ n)

with_time-Below :
    (m : Map ℤ ℕ) (x : Answers) (item : TimerItem) → Below m item → Below m (with_time x item)
with_time-Below m x item h = elim (Bool-cases (is_empty item.violation_at)) [
  | inl t ↦ rw t h
  | inr t ↦ rw t h
]

expire_one-Counted :
    (n : ℕ) (s : Timers) (x : Answers)
    → is_marked x.marking ≡ false
    → Counted n s
    → Counted n (expire_one s x).0
expire_one-Counted n s x h v =
    let same = sym (expire_one_generations s x h) in
    (
      subst (λ m. All (Below m) (expire_one s x).0.queue) same
          (expire_one-Kept (Below s.generations) (λ i k at few b. b) (λ i k at b. b)
            (with_time-Below s.generations) s x v.0),
      subst (λ m. (id : ℤ) → last_of m id ≤ n) same v.1,
    )

last_of-insert :
    (m : Map ℤ ℕ) (id k : ℤ) (n : ℕ)
    → ((j : ℤ) → last_of m j ≤ n)
    → n < 2 ^ 64 - 1
    → (last_of m k ≤ last_of (insert id ((last_of m id + 1) % 2 ^ 64) m) k)
      × (last_of (insert id ((last_of m id + 1) % 2 ^ 64) m) k ≤ n + 1)
last_of-insert m id k n v h = elim (Bool-cases (id == k)) [
  | inr t ↦
      rw (lookup-insert id k ((last_of m id + 1) % 2 ^ 64) m, t) (omega arith, omega (arith, v k))
  | inl t ↦
      let one : id ≡ k = (int_beq_iff id k).0 t in
      let less : last_of m id ≤ n = v id in
      rw (lookup-insert id k ((last_of m id + 1) % 2 ^ 64) m, t)
        (subst (λ j. last_of m j ≤ (last_of m id + 1) % 2 ^ 64) one (omega arith), omega arith)
]

add_timer-Counted :
    (n : ℕ) (s : Timers) (id : ℤ) (slot_id car_number : Bytes) (deadline : ℕ)
    → n < 2 ^ 64 - 1
    → Counted n s
    → Counted (n + 1) (add_timer s id slot_id car_number deadline)
add_timer-Counted n s id slot_id car_number deadline h v =
    let m = s.generations in
    let m' = insert id ((last_of m id + 1) % 2 ^ 64) m in
    let here : (last_of m id + 1) % 2 ^ 64 ≤ last_of m' id =
      rw (lookup-insert id id ((last_of m id + 1) % 2 ^ 64) m, (int_beq_iff id id).1 refl)
        (omega arith) in
    (
      (
        here,
        All-mono (Below m) (Below m') s.queue
            (λ i b. omega (arith, b, (last_of-insert m id i.log_id n v.1 h).0)) v.0,
      ),
      λ k. (last_of-insert m id k n v.1 h).1,
    )

weaken-Counted : (n : ℕ) (s : Timers) → Counted n s → Counted (n + 1) s
weaken-Counted n s v = (v.0, λ id. omega (arith, v.1 id))

schedule_impl-Counted :
    (n : ℕ) (s : Timers) (id : ℤ) (slot_id car_number : Bytes) (delay : ℤ) (now : ℕ)
    → n < 2 ^ 64 - 1
    → Counted n s
    → Counted (n + 1) (or_kept s (schedule_impl s id slot_id car_number delay now))
unfolding schedule_impl
schedule_impl-Counted n s id slot_id car_number delay now h v =
    let next = add_timer-Counted n s id slot_id car_number (now + pos_part delay) h v in
    let same = weaken-Counted n s v in
    elim (Bool-cases (not (is_positive delay))) [
      | inl t ↦ rw t same
      | inr t ↦ elim (Bool-cases s.is_stopping) [
        | inl u ↦ rw (t, u) same
        | inr u ↦ elim (Bool-cases (not s.is_started)) [
          | inl z ↦ rw (t, u, z) same
          | inr z ↦ rw (t, u, z) next
        ]
      ]
    ]

start-Counted : (n : ℕ) (s : Timers) → Counted n s → Counted n (start s).0
unfolding start
start-Counted n s v = elim (Bool-cases s.is_started) [
  | inl t ↦ rw t v
  | inr t ↦ elim (Bool-cases s.is_stopping) [ inl u ↦ rw (t, u) v | inr u ↦ rw (t, u) v ]
]

run-Counted :
    (ops : List Op) (n : ℕ) (s : Timers)
    → All Unmarked ops
    → n + length ops < 2 ^ 64
    → Counted n s
    → Counted (n + length ops) (run s ops)
unfolding run step stop
run-Counted [] n s u h v = (v.0, λ id. omega (arith, v.1 id))
run-Counted (op ∷ ops) n s u h v =
    let next : Counted (n + 1) (step s op) = step-Counted op u.0 in
    subst (λ k. Counted k (run (step s op) ops)) (omega arith)
      (run-Counted ops (n + 1) (step s op) u.1 (omega arith) next)
  where
    step-Counted : (op : Op) → Unmarked op → Counted (n + 1) (step s op)
    step-Counted begun u = weaken-Counted n (start s).0 (start-Counted n s v)
    step-Counted ended u = weaken-Counted n (stop s) v
    step-Counted (asked id slot_id car_number delay now) u =
        schedule_impl-Counted n s id slot_id car_number delay now (omega arith) v
    step-Counted (turned x) u = weaken-Counted n (expire_one s x).0 (expire_one-Counted n s x u v)

schedule_impl-add_timer :
    (s t : Timers) (id : ℤ) (slot_id car_number : Bytes) (delay : ℤ) (now : ℕ)
    → schedule_impl s id slot_id car_number delay now ≡ scheduled t
    → add_timer s id slot_id car_number (now + pos_part delay) ≡ t
unfolding schedule_impl
schedule_impl-add_timer s t id slot_id car_number delay now h =
    elim (Bool-cases (not (is_positive delay))) [
      | inl a ↦ absurd (cc (rw a at h))
      | inr a ↦ elim (Bool-cases s.is_stopping) [
        | inl b ↦ absurd (cc (rw (a, b) at h))
        | inr b ↦ elim (Bool-cases (not s.is_started)) [
          | inl c ↦ absurd (cc (rw (a, b, c) at h))
          | inr c ↦ ground (arith, a, b, c, h)
        ]
      ]
    ]

replaced_not_current :
    (m : Map ℤ ℕ) (id : ℤ) (n : ℕ) (item : TimerItem)
    → last_of m id ≤ n
    → n < 2 ^ 64 - 1
    → Below m item
    → (item.log_id == id
        && is_same (lookup item.log_id (insert id ((last_of m id + 1) % 2 ^ 64) m)) item.generation)
      ≡ false
replaced_not_current m id n item less h b = elim (Bool-cases (item.log_id == id)) [
  | inr t ↦ rw t refl
  | inl t ↦
      let one : item.log_id ≡ id = (int_beq_iff item.log_id id).0 t in
      let self = (int_beq_iff id id).1 refl in
      let below : item.generation ≤ last_of m id =
        subst (λ j. item.generation ≤ last_of m j) one b in
      rw (t, one, lookup-insert id id ((last_of m id + 1) % 2 ^ 64) m, self) (ground arith)
]

-- After fewer than 2^64 - 1 calls in which no violation was marked, a schedule that is accepted
-- leaves no earlier timer of its log current.
pub schedule_impl_replaces :
    (has_callback : Bool) (ops : List Op) (t : Timers) (id : ℤ) (slot_id car_number : Bytes)
    (delay : ℤ) (now : ℕ)
    → All Unmarked ops
    → length ops < 2 ^ 64 - 1
    → schedule_impl (run (no_timers has_callback) ops) id slot_id car_number delay now ≡ scheduled t
    → All (λ i. (i.log_id == id && is_current t i) ≡ false) (run (no_timers has_callback) ops).queue
schedule_impl_replaces has_callback ops t id slot_id car_number delay now u h e =
    let s = run (no_timers has_callback) ops in
    let empty : Counted 0 (no_timers has_callback) =
      unfold no_timers lookup in (tt, λ k. omega arith) in
    let v : Counted (0 + length ops) s =
      run-Counted ops 0 (no_timers has_callback) u (omega arith) empty in
    let added = schedule_impl-add_timer s t id slot_id car_number delay now e in
    subst (λ t. All (λ i. (i.log_id == id && is_current t i) ≡ false) s.queue) added
      (All-mono (Below s.generations) _ s.queue
        (λ i b. replaced_not_current s.generations id (0 + length ops) i (v.1 id) (omega arith) b)
        v.0)
