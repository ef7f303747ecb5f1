-- ===== src/Iva/Aggregator/Runs.antt =====
-- The aggregator from its configuration on, and what a report leaves of the other slots.
use pi_server.Base.{
  ◌≤◌, ◌≡◌, refl, ap, ◌∙◌, Bool, true, false, not, inl, inr, Option, none, some, List, [], ◌∷◌,
  arith, Bytes, bytes_eq, bytes_beq_iff, ◌==◌, Map, lookup, insert, AllEntries, AllEntries-insert,
  AllEntries-lookup, AllEntries-mono, lookup-insert, Bool-cases,
}
use pi_server.Sensor.Sequence.{member}
use pi_server.Parking.Slots.{SlotConfig}
use pi_server.Iva.Aggregator.{
  SlotState, Aggregator, OccupancyUpdate, observation_key, active_count, judge, report, keep_judged,
  update_found, update, add_slots, or_fresh, init, add_bindings,
}
use pi_server.Iva.Aggregator.Vacancy.{ValidState, IsValid}

abbrev pub Unseen : Aggregator → Type 0
Unseen a = AllEntries (λ k s. s.observed_states ≡ []) a

or_fresh-Unseen :
    (a : Aggregator) (k : Bytes) (o : Option SlotState)
    → Unseen a
    → lookup k a ≡ o
    → (or_fresh o).observed_states ≡ []
or_fresh-Unseen a k none v f = refl
or_fresh-Unseen a k (some s) v f = (AllEntries-lookup (λ k x. x.observed_states ≡ []) k s a v f).2

add_slots-Unseen : (cs : List SlotConfig) (a : Aggregator) → Unseen a → Unseen (add_slots cs a)
unfolding add_slots
add_slots-Unseen [] a v = v
add_slots-Unseen (c ∷ cs) a v = elim (Bool-cases c.enabled) [
  | inr t ↦ rw t (add_slots-Unseen cs a v)
  | inl t ↦
      let s = or_fresh (lookup c.slot_id a) in
      rw t (
        add_slots-Unseen cs _ (
          AllEntries-insert (λ k x. x.observed_states ≡ []) c.slot_id
            (record s { configured_areas = add_bindings c.camera_bindings s.configured_areas }) a
            (or_fresh-Unseen a c.slot_id (lookup c.slot_id a) v refl) v))
]

empty-ValidState : (s : SlotState) → s.observed_states ≡ [] → ValidState s
empty-ValidState s e = rw e (tt, tt)

pub init-Unseen : (slots : List SlotConfig) → Unseen (init slots)
unfolding init
init-Unseen slots = add_slots-Unseen slots [] tt

pub init-IsValid : (slots : List SlotConfig) → IsValid (init slots)
init-IsValid slots =
    AllEntries-mono (λ k s. s.observed_states ≡ []) (λ k s. ValidState s) (init slots)
      (λ k s e. empty-ValidState s e) (init-Unseen slots)

-- No area of the slot is active.
abbrev pub QuietAt : Aggregator → Bytes → Type 0
QuietAt a k = (s : SlotState) × (lookup k a ≡ some s) × (active_count s.observed_states ≡ 0)

active_count-insert :
    (k : Bytes) (m : Map Bytes Bool) → active_count (insert k false m) ≤ active_count m
unfolding active_count insert
active_count-insert k [] = omega arith
active_count-insert k ((j, b) ∷ m) = ground (arith, active_count-insert k m)

pub judge_observed :
    (id : Bytes) (s : SlotState) → (judge id s).0.observed_states ≡ s.observed_states
unfolding judge
judge_observed id s = ground arith

keep_judged-lookup :
    (a : Aggregator) (id k : Bytes) (j : SlotState × Option OccupancyUpdate)
    → (id == k) ≡ false
    → lookup k (keep_judged a id j).0 ≡ lookup k a
keep_judged-lookup a id k (s, o) h = rw (lookup-insert id k s a, h) refl

-- A report leaves the other slots.
pub update-other :
    (a : Aggregator) (id camera token rule k : Bytes) (active : Bool)
    → (id == k) ≡ false
    → lookup k (update a id camera token rule active).0 ≡ lookup k a
unfolding update update_found
update-other a id camera token rule k active h = update_found_other (lookup id a)
  where
    update_found_other :
        (o : Option SlotState)
        → lookup k (update_found a id (observation_key camera token rule) active o).0 ≡ lookup k a
    update_found_other none = refl
    update_found_other (some s) =
        elim (Bool-cases (not (member (observation_key camera token rule) s.configured_areas))) [
          | inl t ↦ rw t refl
          | inr t ↦ rw t (
              keep_judged-lookup a id k
                (judge id (report (observation_key camera token rule) active s)) h)
        ]

keep_judged-QuietAt :
    (a : Aggregator) (id k : Bytes) (t : SlotState × Option OccupancyUpdate)
    → active_count t.0.observed_states ≡ 0
    → (id == k) ≡ true
    → QuietAt (keep_judged a id t).0 k
keep_judged-QuietAt a id k (s, o) z h = (s, rw (lookup-insert id k s a, h) refl, z)

update_found-QuietAt :
    (a : Aggregator) (id key k : Bytes) (o : Option SlotState)
    → lookup id a ≡ o
    → QuietAt a k
    → QuietAt (update_found a id key false o).0 k
unfolding update_found
update_found-QuietAt a id key k none f q = q
update_found-QuietAt a id key k (some s) f q =
    elim (Bool-cases (not (member key s.configured_areas))) [
      | inl t ↦ rw t q
      | inr t ↦ elim (Bool-cases (id == k)) [
        | inr apart ↦
            rw t (q.0, keep_judged-lookup a id k (judge id (report key false s)) apart ∙ q.1, q.2)
        | inl same ↦
            let here : lookup id a ≡ some q.0 =
              ap (λ x. lookup x a) ((bytes_beq_iff id k).0 same) ∙ q.1 in
            let one : s ≡ q.0 = cc in
            let quiet : active_count s.observed_states ≡ 0 = rw one (q.2) in
            let less = active_count-insert key s.observed_states in
            rw t (
              keep_judged-QuietAt a id k (judge id (report key false s))
                (ap active_count (judge_observed id (report key false s)) ∙ omega arith) same)
      ]
    ]

-- A report that an area is free does not make a slot active.
pub update-QuietAt :
    (a : Aggregator) (id camera token rule k : Bytes)
    → QuietAt a k
    → QuietAt (update a id camera token rule false).0 k
unfolding update
update-QuietAt a id camera token rule k q =
    update_found-QuietAt a id (observation_key camera token rule) k (lookup id a) refl q
