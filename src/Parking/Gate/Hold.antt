-- ===== src/Parking/Gate/Hold.antt =====
-- What the gate promises: an OCCUPIED counts when it has lasted, with no VACANT in between that was
-- seen while the slot was not occupied. The gate leaves its pending entry as it is when the slot is
-- occupied, so a VACANT seen then does not end the run.
use pi_server.Base.{
  ℕ, ◌+◌, ◌≤◌, ◌≡◌, refl, ◌⊎◌, inl, inr, Bool, true, false, not, Option, none, some, List, [], ◌∷◌,
  arith, Bytes, bytes_eq, bytes_beq_iff, ◌==◌, Bool-cases, eq_refl, eq_sym, ap, ◌∙◌, subst, sym,
  All-map, is_empty-map, ◌||◌, Option-cases, lookup, erase, Map, All, AllEntries, AllEntries-mono,
  AllEntries-insert, AllEntries-erase, AllEntries-lookup, AllEntries-take_where, take_where,
  take_where_sound, is_empty, leb,
}
use pi_server.Parking.Event.{SensorEvent, SensorState, occupied, vacant}
use pi_server.Parking.Gate.{
  Gate, Pending, forward, init, evaluate, evaluate_pending, evaluate_state, take_due, next_deadline,
  earliest, earlier, is_due, confirmed_event,
}

-- What the gate saw: an event with the slot's occupancy, or a poll at a time.
pub data Op : Type 0 where
  observed : SensorEvent → Bool → Op
  polled : ℕ → ℕ → Op

abbrev pub step : Gate → Op → Gate
step g (observed e occ) = (evaluate g e occ).0
step g (polled now wall) = (take_due g now wall).0

-- A history, newest first.
unfoldable pub after : ℕ → List Op → Gate
after threshold [] = init threshold
after threshold (op ∷ h) = step (after threshold h) op

-- Not a VACANT for slot `k`, seen while the slot is not occupied. Anything seen while a slot is
-- occupied is quiet, a VACANT too.
abbrev pub Quiet : Bytes → Op → Type 0
Quiet k (observed e true) = Unit
Quiet k (observed e false) = (e.state ≡ occupied) ⊎ ((e.slot_id == k) ≡ false)
Quiet k (polled now wall) = Unit

-- In the history `first` reported slot `k` occupied while it was not, and since then no VACANT for
-- it was seen while it was not occupied.
pub data Held (k : Bytes) (first : SensorEvent) : List Op → Type 0 where
  start :
      (h : List Op)
      → first.state ≡ occupied
      → (first.slot_id == k) ≡ true
      → Held k first (observed first false ∷ h)
  keep : (op : Op) (h : List Op) → Quiet k op → Held k first h → Held k first (op ∷ h)

abbrev Entry : ℕ → List Op → Bytes → Pending → Type 0
Entry threshold h k p =
    (p.deadline ≡ p.first_event.received_monotonic + threshold) × Held k p.first_event h

record Inv (threshold : ℕ) (h : List Op) (g : Gate) : Type 0 where
  pub threshold_kept : g.confirm_threshold ≡ threshold
  pub entries : AllEntries (Entry threshold h) g.pending_by_slot

keep_all :
    (t : ℕ) (op : Op) (h : List Op) (m : Map Bytes Pending)
    → ((k : Bytes) → Quiet k op)
    → AllEntries (Entry t h) m
    → AllEntries (Entry t (op ∷ h)) m
keep_all t op h m quiet =
    AllEntries-mono (Entry t h) (Entry t (op ∷ h)) m (λ k p x. (x.0, keep op h (quiet k) x.1))

module _ (t : ℕ) (h : List Op) (g : Gate) (e : SensorEvent) (v : Inv t h g) where
  erased :
      (occ : Bool)
      → ((k : Bytes) → (k == e.slot_id) ≡ false → Quiet k (observed e occ))
      → AllEntries (Entry t (observed e occ ∷ h)) (erase e.slot_id g.pending_by_slot)
  erased occ quiet =
      AllEntries-mono _ (Entry t (observed e occ ∷ h)) (erase e.slot_id g.pending_by_slot)
        (λ k p x. (x.0.0, keep (observed e occ) h (quiet k x.1) x.0.1))
        (AllEntries-erase (Entry t h) e.slot_id g.pending_by_slot v.entries)

  evaluate_pending-Inv :
      (o : Option Pending)
      → e.state ≡ occupied
      → Inv t (observed e false ∷ h) (evaluate_pending g e o).0
  unfolding evaluate_pending
  evaluate_pending-Inv none q = record {
    threshold_kept = v.threshold_kept;
    entries =
        AllEntries-insert (Entry t (observed e false ∷ h)) e.slot_id _ g.pending_by_slot
          (ap (λ s. e.received_monotonic + s) v.threshold_kept, start h q (eq_refl e.slot_id))
          (keep_all t (observed e false) h g.pending_by_slot (λ k. inl q) v.entries);
  }
  evaluate_pending-Inv (some p) q = elim (Bool-cases (leb p.deadline e.received_monotonic)) [
    | inl c ↦
        rw (evaluate_pending, c)
          (record { threshold_kept = v.threshold_kept; entries = erased false (λ k d. inl q) })
    | inr c ↦
        rw (evaluate_pending, c)
          (record {
            threshold_kept = v.threshold_kept;
            entries = keep_all t (observed e false) h g.pending_by_slot (λ k. inl q) v.entries;
          })
  ]

  evaluate_state-Inv :
      (st : SensorState) (occ : Bool)
      → e.state ≡ st
      → Inv t (observed e occ ∷ h) (evaluate_state st g e occ).0
  unfolding evaluate_state
  evaluate_state-Inv occupied true q = record {
    threshold_kept = v.threshold_kept;
    entries = keep_all t (observed e true) h g.pending_by_slot (λ k. tt) v.entries;
  }
  evaluate_state-Inv occupied false q = evaluate_pending-Inv (lookup e.slot_id g.pending_by_slot) q
  evaluate_state-Inv vacant true q = record {
    threshold_kept = v.threshold_kept;
    entries = keep_all t (observed e true) h g.pending_by_slot (λ k. tt) v.entries;
  }
  evaluate_state-Inv vacant false q = record {
    threshold_kept = v.threshold_kept;
    entries = erased false (λ k d. inr (eq_sym e.slot_id k ∙ d));
  }

after-Inv : (t : ℕ) (h : List Op) → Inv t h (after t h)
unfolding after init evaluate take_due
after-Inv t [] = record { threshold_kept = refl; entries = tt }
after-Inv t (observed e occ ∷ h) =
    evaluate_state-Inv t h (after t h) e (after-Inv t h) e.state occ refl
after-Inv t (polled now wall ∷ h) =
    let v = after-Inv t h in
    record {
      threshold_kept = v.threshold_kept;
      entries =
          AllEntries-take_where (is_due now) (Entry t (polled now wall ∷ h))
            (after t h).pending_by_slot
            (keep_all t (polled now wall) h (after t h).pending_by_slot (λ k. tt) v.entries);
    }

-- `first` is held for slot `k`, and at time `now` at least `t` ticks have passed since it.
abbrev pub Confirmed : ℕ → List Op → Bytes → ℕ → Type 0
Confirmed t h k now = (first : SensorEvent) × Held k first h × (first.received_monotonic + t ≤ now)

Held-slot : (k : Bytes) (first : SensorEvent) {h : List Op} → Held k first h → first.slot_id ≡ k
Held-slot k first (start h q e) = (bytes_beq_iff first.slot_id k).0 e
Held-slot k first (keep op h quiet held) = Held-slot k first held

-- An OCCUPIED for a slot that is not occupied is forwarded only if the gate's history holds an
-- earlier OCCUPIED for the slot, seen while it was not occupied and received at least the threshold
-- before, with no VACANT for the slot in between that was seen while it was not occupied. (A VACANT
-- seen while the slot was occupied may stand in between.)
pub evaluate_forward-Confirmed :
    (t : ℕ) (h : List Op) (e : SensorEvent)
    → e.state ≡ occupied
    → (evaluate (after t h) e false).1 ≡ forward
    → Confirmed t h e.slot_id e.received_monotonic
unfolding evaluate
evaluate_forward-Confirmed t h e q f =
    elim (Option-cases (lookup e.slot_id (after t h).pending_by_slot)) [
      | inl none_yet ↦ absurd (ground arith)
      | inr (p, found) ↦
          let (j, same, entry) =
            AllEntries-lookup (Entry t h) e.slot_id p (after t h).pending_by_slot
              (after-Inv t h).entries found in
          let past : p.deadline ≤ e.received_monotonic = ground arith in
          let slot : j ≡ e.slot_id = (bytes_beq_iff j e.slot_id).0 same in
          (p.first_event, subst (λ x. Held x p.first_event h) slot entry.1, omega (arith, entry.0))
    ]

-- What a poll at `now` returns are confirmed events: each carries the times of the poll, and the
-- history holds an OCCUPIED for its slot, seen while it was not occupied and received at least the
-- threshold before, with no VACANT for the slot since that was seen while it was not occupied. (A
-- VACANT seen while the slot was occupied may stand in between.)
pub take_due-Confirmed :
    (t : ℕ) (h : List Op) (now wall : ℕ)
    → All
        (λ e. (e.received_monotonic ≡ now) × (e.occurred_at ≡ wall) × Confirmed t h e.slot_id now)
        (take_due (after t h) now wall).1
unfolding take_due
take_due-Confirmed t h now wall = All-map (confirmed_event now wall) _ _ (
    take_where_sound (is_due now) (Entry t h) _
      (λ k p x d.
        let past : p.deadline ≤ now = ground arith in
        (
          refl,
          refl,
          (
            p.first_event,
            subst (λ s. Held s p.first_event h) (sym (Held-slot k p.first_event x.1)) x.1,
            omega (arith, x.0),
          ),
        ))
      (after t h).pending_by_slot (after-Inv t h).entries)

abbrev pub is_reached : ℕ → Option ℕ → Bool
is_reached now none = false
is_reached now (some d) = leb d now

earliest-take_where :
    (now : ℕ) (best : Option ℕ) (m : Map Bytes Pending)
    → is_reached now (earliest best m)
      ≡ (is_reached now best || not (is_empty (take_where (is_due now) m).1))
unfolding earliest take_where
earliest-take_where now none [] = refl
earliest-take_where now (some b) [] = ground arith
earliest-take_where now none ((k, p) ∷ m) =
    ground (arith, earliest-take_where now (some p.deadline) m)
earliest-take_where now (some b) ((k, p) ∷ m) =
    ground (arith, earliest-take_where now (earlier p.deadline (some b)) m)

-- A poll returns something exactly when `next_deadline` is there and has been reached, so a worker
-- that sleeps until that time misses nothing and never wakes for nothing.
pub next_deadline-take_due :
    (g : Gate) (now wall : ℕ)
    → is_reached now (next_deadline g) ≡ not (is_empty (take_due g now wall).1)
unfolding next_deadline take_due
next_deadline-take_due g now wall =
    earliest-take_where now none g.pending_by_slot ∙ sym (ap not (is_empty-map _ _))
