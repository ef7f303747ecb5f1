-- ===== src/Parking/Slots/Mirror.antt =====
-- The index, as a sink of the slot manager's results, follows the slots.
use pi_server.Base.{
  List, [], ◌∷◌, Map, contains, ℕ, ◌+◌, ◌%◌, ◌^◌, ◌≡◌, refl, sym, ap, ◌∙◌, subst, inl, inr, false,
  not, ◌||◌, Option, none, some, arith, Bytes, bytes_eq, ◌==◌, eq_refl, is_empty, lookup, insert,
  erase, lookup-insert, lookup-erase, Bool-cases, ltb,
}
use pi_server.Parking.Event.{SensorEvent, SensorState, occupied, vacant}
use pi_server.Parking.Session.{OccupancySession, open_session, complete}
use pi_server.Parking.Slots.{
  SlotConfig, add_slots, init, started, ended, Slot, TransitionResult, SlotManager,
  create_session_id, handle, handle_slot, handle_state, handle_occupied, handle_vacant,
}
use pi_server.Parking.Slots.Lifecycle.{IsValid, ValidSlot, create_session_id_nonempty}
use pi_server.Parking.ActiveIndex.{
  ActiveIndex, apply, set_active, clear_active, clear_found, apply_code, find_active_session_id,
}

abbrev pub id_of : Option OccupancySession → Option Bytes
id_of none = none
id_of (some s) = some s.session_id

abbrev pub slot_session : Option Slot → Option OccupancySession
slot_session none = none
slot_session (some slot) = slot.active_session

-- The index holds the id of each slot's session, and nothing else.
abbrev pub Mirrors : SlotManager → ActiveIndex → Type 0
Mirrors m ix = (k : Bytes) → find_active_session_id ix k ≡ id_of (slot_session (lookup k m.slots))

abbrev pub Mirrored : ActiveIndex → Option (SlotManager × TransitionResult) → Type 0
Mirrored ix none = Unit
Mirrored ix (some (m, r)) = Mirrors m (apply ix r)

Mirrors-insert :
    (m : SlotManager) (ix : ActiveIndex) (k id : Bytes) (slot : Slot) (n : ℕ)
    → Mirrors m ix
    → id_of slot.active_session ≡ some id
    → Mirrors (record { slots = insert k slot m.slots; session_sequence = n }) (insert k id ix)
unfolding find_active_session_id
Mirrors-insert m ix k id slot n q w j = elim (Bool-cases (k == j)) [
  | inl t ↦ rw (lookup-insert k j id ix, lookup-insert k j slot m.slots, t) (sym w)
  | inr t ↦ rw (lookup-insert k j id ix, lookup-insert k j slot m.slots, t) (q j)
]

Mirrors-erase :
    (m : SlotManager) (ix : ActiveIndex) (k : Bytes) (slot : Slot) (n : ℕ)
    → Mirrors m ix
    → slot.active_session ≡ none
    → Mirrors (record { slots = insert k slot m.slots; session_sequence = n }) (erase k ix)
unfolding find_active_session_id
Mirrors-erase m ix k slot n q w j = elim (Bool-cases (k == j)) [
  | inl t ↦ rw (lookup-erase k j ix, lookup-insert k j slot m.slots, t) (ap id_of (sym w))
  | inr t ↦ rw (lookup-erase k j ix, lookup-insert k j slot m.slots, t) (q j)
]

open_session_id :
    (id slot_id sensor_id : Bytes) (t u : ℕ) (s : OccupancySession)
    → open_session id slot_id sensor_id t u ≡ some s
    → s.session_id ≡ id
unfolding open_session
open_session_id id slot_id sensor_id t u s h = ground arith

complete_id :
    (s : OccupancySession) (t : ℕ) (d : OccupancySession)
    → complete s t ≡ some d
    → d.session_id ≡ s.session_id
unfolding complete
complete_id s t d h = ground arith

module _ (m : SlotManager) (ix : ActiveIndex) (e : SensorEvent) (slot : Slot) (q : Mirrors m ix)
    (w : ValidSlot e.slot_id slot) where
  started-Mirrors :
      (id : Bytes) (o : Option OccupancySession)
      → is_empty id ≡ false
      → ((s : OccupancySession) → o ≡ some s → s.session_id ≡ id)
      → Mirrored ix (started m e slot id o)
  unfolding started apply apply_code set_active
  started-Mirrors id none h f = tt
  started-Mirrors id (some s) h f =
      let m' : SlotManager = record {
        slots = insert e.slot_id (record slot { active_session = some s }) m.slots;
        session_sequence = (m.session_sequence + 1) % 2 ^ 64;
      } in
      rw (w.1, h)
        (subst (λ x. Mirrors m' (insert x id ix)) (sym w.0)
          (Mirrors-insert m ix e.slot_id id (record slot { active_session = some s })
            ((m.session_sequence + 1) % 2 ^ 64) q (ap some (f s refl))))

  ended-Mirrors :
      (s : OccupancySession) (o : Option OccupancySession)
      → slot_session (lookup e.slot_id m.slots) ≡ some s
      → ((d : OccupancySession) → o ≡ some d → d.session_id ≡ s.session_id)
      → Mirrored ix (ended m e slot o)
  unfolding ended apply apply_code clear_active clear_found find_active_session_id
  ended-Mirrors s none h f = tt
  ended-Mirrors s (some d) h f =
      let m' : SlotManager = record {
        slots = insert e.slot_id (record slot { active_session = none }) m.slots;
        session_sequence = m.session_sequence;
      } in
      let held : lookup slot.config.slot_id ix ≡ some d.session_id =
        ap (λ k. lookup k ix) w.0 ∙ q e.slot_id ∙ ap id_of h ∙ ap some (sym (f d refl)) in
      let cleared : Mirrors m' (erase slot.config.slot_id ix) =
        subst (λ x. Mirrors m' (erase x ix)) (sym w.0)
          (Mirrors-erase m ix e.slot_id (record slot { active_session = none }) m.session_sequence q
            refl) in
      rw (w.1, held, clear_found, eq_refl d.session_id)
        (elim (Bool-cases (is_empty d.session_id)) [ inl t ↦ rw t cleared | inr t ↦ rw t cleared ])

  handle_occupied-Mirrors : (o : Option OccupancySession) → Mirrored ix (handle_occupied m e slot o)
  unfolding handle_occupied apply apply_code
  handle_occupied-Mirrors (some s) = q
  handle_occupied-Mirrors none =
      let id = create_session_id slot.config.slot_id e.occurred_at m.session_sequence in
      started-Mirrors id
        (open_session id slot.config.slot_id e.sensor_id e.occurred_at e.received_monotonic)
        (create_session_id_nonempty slot.config.slot_id e.occurred_at m.session_sequence)
        (open_session_id id slot.config.slot_id e.sensor_id e.occurred_at e.received_monotonic)

  handle_vacant-Mirrors :
      (o : Option OccupancySession)
      → slot_session (lookup e.slot_id m.slots) ≡ o
      → Mirrored ix (handle_vacant m e slot o)
  unfolding handle_vacant apply apply_code
  handle_vacant-Mirrors none h = q
  handle_vacant-Mirrors (some s) h = elim (Bool-cases (ltb e.occurred_at s.started_at)) [
    | inl t ↦ rw t q
    | inr t ↦ rw t (ended-Mirrors s (complete s e.occurred_at) h (complete_id s e.occurred_at))
  ]

  handle_state-Mirrors :
      (st : SensorState)
      → slot_session (lookup e.slot_id m.slots) ≡ slot.active_session
      → Mirrored ix (handle_state st m e slot)
  unfolding handle_state
  handle_state-Mirrors occupied h = handle_occupied-Mirrors slot.active_session
  handle_state-Mirrors vacant h = handle_vacant-Mirrors slot.active_session h

handle_slot-Mirrors :
    (m : SlotManager) (ix : ActiveIndex) (e : SensorEvent) (o : Option Slot)
    → Mirrors m ix
    → IsValid m
    → lookup e.slot_id m.slots ≡ o
    → Mirrored ix (handle_slot m e o)
unfolding handle_slot apply apply_code
handle_slot-Mirrors m ix e none q v f = q
handle_slot-Mirrors m ix e (some slot) q v f = elim (Bool-cases (not slot.config.enabled)) [
  | inl t ↦ rw t q
  | inr t ↦ elim (Bool-cases (is_empty e.sensor_id || not (e.sensor_id == slot.config.sensor_id))) [
    | inl u ↦ rw (t, u) q
    | inr u ↦
        rw (t, u)
          (handle_state-Mirrors m ix e slot q (v e.slot_id slot f) e.state (ap slot_session f))
  ]
]

-- An event that a valid manager handles, with its result applied to the index: the index holds the
-- id of each slot's session, and nothing else, after the event if it did before.
pub handle-Mirrors :
    (m : SlotManager) (ix : ActiveIndex) (e : SensorEvent)
    → IsValid m
    → Mirrors m ix
    → Mirrored ix (handle m e)
unfolding handle
handle-Mirrors m ix e v q = handle_slot-Mirrors m ix e (lookup e.slot_id m.slots) q v refl

add_slots-Mirrors :
    (cs : List SlotConfig) (slots made : Map Bytes Slot) (n : ℕ)
    → Mirrors (record { slots = slots; session_sequence = n }) []
    → add_slots cs slots ≡ some made
    → Mirrors (record { slots = made; session_sequence = n }) []
unfolding add_slots erase
add_slots-Mirrors [] slots made n q h =
    let same : slots ≡ made = cc in
    subst (λ x. Mirrors (record { slots = x; session_sequence = n }) []) same q
add_slots-Mirrors (c ∷ cs) slots made n q h = elim (Bool-cases (is_empty c.slot_id)) [
  | inl t ↦ absurd (ground arith)
  | inr t ↦ elim (Bool-cases (contains c.slot_id slots)) [
    | inl u ↦ absurd (ground arith)
    | inr u ↦
        let slot : Slot = record { config = c; active_session = none } in
        add_slots-Mirrors cs (insert c.slot_id slot slots) made n
          (Mirrors-erase (record { slots = slots; session_sequence = n }) [] c.slot_id slot n q
            refl)
          (ground arith)
  ]
]

-- The manager that the constructor makes has no session, as the empty index says.
pub init-Mirrors :
    (configs : List SlotConfig) (slots : Map Bytes Slot) (n : ℕ)
    → init configs ≡ some slots
    → Mirrors (record { slots = slots; session_sequence = n }) []
unfolding init find_active_session_id lookup
init-Mirrors [] slots n h = cc
init-Mirrors (c ∷ cs) slots n h = add_slots-Mirrors (c ∷ cs) [] slots n (λ k. refl) h
