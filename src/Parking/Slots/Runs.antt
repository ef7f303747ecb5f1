-- ===== src/Parking/Slots/Runs.antt =====
-- From a configuration that the constructor takes, over any events.
use pi_server.Base.{
  ℕ, ◌≡◌, refl, subst, inl, inr, Option, none, some, List, [], ◌∷◌, arith, Bytes, bytes_eq, Map,
  contains, is_empty, lookup, insert, Bool-cases, Option-cases,
}
use pi_server.Parking.Event.{SensorEvent}
use pi_server.Parking.Slots.{
  SlotConfig, Slot, TransitionResult, SlotManager, add_slots, init, handle,
}
use pi_server.Parking.Slots.Lifecycle.{IsValid, IsValid-insert, Good, handle-Good, session_at}

add_slots-IsValid :
    (cs : List SlotConfig) (slots made : Map Bytes Slot) (n : ℕ)
    → IsValid (record { slots = slots; session_sequence = n })
    → add_slots cs slots ≡ some made
    → IsValid (record { slots = made; session_sequence = n })
unfolding add_slots
add_slots-IsValid [] slots made n v h =
    λ k slot f. let same : slots ≡ made = cc in v k slot (rw same f)
add_slots-IsValid (c ∷ cs) slots made n v h = elim (Bool-cases (is_empty c.slot_id)) [
  | inl t ↦ absurd (ground arith)
  | inr t ↦ elim (Bool-cases (contains c.slot_id slots)) [
    | inl u ↦ absurd (ground arith)
    | inr u ↦
        add_slots-IsValid cs (insert c.slot_id (record { config = c; active_session = none }) slots)
          made n
          (IsValid-insert (record { slots = slots; session_sequence = n }) c.slot_id
            (record { config = c; active_session = none }) n v (refl, t, tt))
          (ground arith)
  ]
]

abbrev next_manager :
    Option (SlotManager × TransitionResult)
    → (SlotManager → Option SlotManager)
    → Option SlotManager
next_manager none k = none
next_manager (some (m, r)) k = k m

-- Events one after the other; `none` if one of them throws.
unfoldable pub handle_all : SlotManager → List SensorEvent → Option SlotManager
handle_all m [] = some m
handle_all m (e ∷ es) = next_manager (handle m e) (λ m'. handle_all m' es)

handle_all-IsValid :
    (m : SlotManager) (es : List SensorEvent)
    → IsValid m
    → (m' : SlotManager) × (handle_all m es ≡ some m') × IsValid m'
unfolding handle_all
handle_all-IsValid m [] v = (m, refl, v)
handle_all-IsValid m (e ∷ es) v = elim (Option-cases (handle m e)) [
  | inl t ↦ absurd (subst (Good e.slot_id (session_at m e.slot_id)) t (handle-Good m e v))
  | inr (done, t) ↦
      let good : Good e.slot_id (session_at m e.slot_id) (some done) =
        subst (Good e.slot_id (session_at m e.slot_id)) t (handle-Good m e v) in
      rw t (handle_all-IsValid done.0 es good.0)
]

pub nothing_found : (k : Bytes) (slot : Slot) → lookup {V = Slot} k [] ≡ some slot → ⊥
unfolding lookup
nothing_found k slot f = cc

-- The manager that the constructor makes is valid.
pub init-IsValid :
    (configs : List SlotConfig) (slots : Map Bytes Slot) (n : ℕ)
    → init configs ≡ some slots
    → IsValid (record { slots = slots; session_sequence = n })
unfolding init
init-IsValid [] slots n h = cc
init-IsValid (c ∷ cs) slots n h =
    add_slots-IsValid (c ∷ cs) [] slots n (λ k slot f. absurd (nothing_found k slot f)) h

-- A manager that the constructor makes handles any list of events with no exception, and in the end
-- each slot is still valid: a session in it is active and carries the slot's id and sensor.
pub init-handle_all :
    (configs : List SlotConfig) (slots : Map Bytes Slot) (n : ℕ) (es : List SensorEvent)
    → init configs ≡ some slots
    → (m : SlotManager) × (handle_all (record { slots = slots; session_sequence = n }) es ≡ some m)
      × IsValid m
init-handle_all configs slots n es h =
    handle_all-IsValid (record { slots = slots; session_sequence = n }) es
      (init-IsValid configs slots n h)
