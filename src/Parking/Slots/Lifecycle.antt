-- ===== src/Parking/Slots/Lifecycle.antt =====
-- The life of a slot: the manager never throws, and starts and ends sessions in turn.
use pi_server.Base.{
  ℕ, ◌+◌, ◌%◌, ◌^◌, ◌≡◌, refl, sym, ap, subst, inl, inr, true, false, not, ◌||◌, Option, none, some,
  arith, Bytes, bytes_eq, bytes_beq_iff, ◌==◌, is_empty, lookup, insert, lookup-insert,
  lookup-insert_self, Bool-cases, if◌then◌else◌, ltb, is_some,
}
use pi_server.Parking.Event.{SensorEvent, SensorState, occupied, vacant}
use pi_server.Parking.Session.{OccupancySession, active, open_session, complete}
use pi_server.Parking.Slots.{
  started, ended, Slot, TransitionCode, session_started, session_completed,
  duplicate_occupied_ignored, duplicate_vacant_ignored, invalid_timestamp, TransitionResult,
  SlotManager, create_session_id, handle, handle_slot, handle_state, handle_occupied, handle_vacant,
}

-- A slot as the manager keeps it under its id: a session there is active and this slot's.
abbrev pub ValidSession : Slot → Option OccupancySession → Type 0
ValidSession slot none = Unit
ValidSession slot (some s) =
    (s.phase ≡ active)
    × (s.slot_id ≡ slot.config.slot_id)
    × (s.sensor_id ≡ slot.config.sensor_id)
    × (s.ended_at ≡ none)

abbrev pub ValidSlot : Bytes → Slot → Type 0
ValidSlot k slot =
    (slot.config.slot_id ≡ k)
    × (is_empty slot.config.slot_id ≡ false)
    × ValidSession slot slot.active_session

-- Every slot that a lookup finds is valid.
abbrev pub IsValid : SlotManager → Type 0
IsValid m = (k : Bytes) (slot : Slot) → lookup k m.slots ≡ some slot → ValidSlot k slot

-- The session of a slot, if there is one.
abbrev pub session_at : SlotManager → Bytes → Option OccupancySession
session_at m k = elim (lookup k m.slots) [ none ↦ none | some slot ↦ slot.active_session ]

pub create_session_id_nonempty : (k : Bytes) (t n : ℕ) → is_empty (create_session_id k t n) ≡ false
unfolding create_session_id
create_session_id_nonempty k t n = refl

-- What a transition did to the session of its slot.
abbrev pub Moved :
    TransitionCode
    → Option OccupancySession
    → Option OccupancySession
    → Option OccupancySession
    → Type 0
Moved session_started before after reported =
    (before ≡ none) × (is_some after ≡ true) × (reported ≡ after)
Moved session_completed before after reported =
    (is_some before ≡ true) × (after ≡ none) × (is_some reported ≡ true)
Moved duplicate_occupied_ignored before after reported =
    (is_some before ≡ true) × (after ≡ before) × (reported ≡ before)
Moved invalid_timestamp before after reported =
    (is_some before ≡ true) × (after ≡ before) × (reported ≡ before)
Moved duplicate_vacant_ignored before after reported =
    (before ≡ none) × (after ≡ none) × (reported ≡ none)
Moved _ before after reported = (after ≡ before) × (reported ≡ none)

abbrev pub Good : Bytes → Option OccupancySession → Option (SlotManager × TransitionResult) → Type 0
Good k before none = ⊥
Good k before (some (m, r)) = IsValid m × Moved r.code before (session_at m k) r.session

pub IsValid-insert :
    (m : SlotManager) (k : Bytes) (slot : Slot) (n : ℕ)
    → IsValid m
    → ValidSlot k slot
    → IsValid (record { slots = insert k slot m.slots; session_sequence = n })
IsValid-insert m k slot n v w j other f = elim (Bool-cases (k == j)) [
  | inl t ↦
      let same : slot ≡ other = cc (
        lookup-insert k j slot m.slots,
        f,
        ap (λ b. if b then some slot else lookup j m.slots) t,
      ) in
      let key : k ≡ j = (bytes_beq_iff k j).0 t in
      subst (ValidSlot j) same (subst (λ x. ValidSlot x slot) key w)
  | inr t ↦ v j other (rw (lookup-insert k j slot m.slots, t) at f)
]

session_at-insert :
    (m : SlotManager) (k : Bytes) (slot : Slot) (n : ℕ)
    → session_at (record { slots = insert k slot m.slots; session_sequence = n }) k
      ≡ slot.active_session
session_at-insert m k slot n =
    ap (λ o. elim o [ none ↦ none | some x ↦ x.active_session ]) (lookup-insert_self k slot m.slots)

module _ (m : SlotManager) (e : SensorEvent) (slot : Slot) (v : IsValid m)
    (w : ValidSlot e.slot_id slot) (sensor : is_empty e.sensor_id ≡ false)
    (known : e.sensor_id ≡ slot.config.sensor_id) where
  opened :
      (id : Bytes)
      → is_empty id ≡ false
      → (s : OccupancySession) × (open_session id slot.config.slot_id e.sensor_id e.occurred_at
            e.received_monotonic
          ≡ some s)
        × ValidSession slot (some s)
  unfolding open_session
  opened id h = (
    record {
      session_id = id;
      slot_id = slot.config.slot_id;
      sensor_id = e.sensor_id;
      phase = active;
      started_at = e.occurred_at;
      started_at_monotonic = e.received_monotonic;
      ended_at = none;
    },
    rw (h, w.1, sensor) refl,
    (refl, refl, known, refl),
  )

  handle_occupied-Good :
      (o : Option OccupancySession)
      → session_at m e.slot_id ≡ o
      → Good e.slot_id o (handle_occupied m e slot o)
  unfolding handle_occupied
  handle_occupied-Good (some s) q = (v, (refl, q, refl))
  handle_occupied-Good none q =
      let id = create_session_id slot.config.slot_id e.occurred_at m.session_sequence in
      let (s, made, valid) =
        opened id
          (create_session_id_nonempty slot.config.slot_id e.occurred_at m.session_sequence) in
      let slot' : Slot = record slot { active_session = some s } in
      let at = session_at-insert m e.slot_id slot' ((m.session_sequence + 1) % 2 ^ 64) in
      rw (made, started)
        (
          IsValid-insert m e.slot_id slot' ((m.session_sequence + 1) % 2 ^ 64) v (w.0, w.1, valid),
          (refl, ap is_some at, sym at),
        )

  handle_vacant-Good :
      (o : Option OccupancySession)
      → session_at m e.slot_id ≡ o
      → ValidSession slot o
      → Good e.slot_id o (handle_vacant m e slot o)
  unfolding handle_vacant complete
  handle_vacant-Good none q x = (v, (refl, q, refl))
  handle_vacant-Good (some s) q x = elim (Bool-cases (ltb e.occurred_at s.started_at)) [
    | inl t ↦ rw t (v, (refl, q, refl))
    | inr t ↦
        let slot' : Slot = record slot { active_session = none } in
        rw (t, x.0, ended)
          (
            IsValid-insert m e.slot_id slot' m.session_sequence v (w.0, w.1, tt),
            (refl, session_at-insert m e.slot_id slot' m.session_sequence, refl),
          )
  ]

  handle_state-Good :
      (st : SensorState)
      → session_at m e.slot_id ≡ slot.active_session
      → Good e.slot_id (session_at m e.slot_id) (handle_state st m e slot)
  unfolding handle_state
  handle_state-Good occupied q =
      subst (λ o. Good e.slot_id o (handle_occupied m e slot slot.active_session)) (sym q)
        (handle_occupied-Good slot.active_session q)
  handle_state-Good vacant q =
      subst (λ o. Good e.slot_id o (handle_vacant m e slot slot.active_session)) (sym q)
        (handle_vacant-Good slot.active_session q w.2)

handle_slot-Good :
    (m : SlotManager) (e : SensorEvent) (o : Option Slot)
    → IsValid m
    → lookup e.slot_id m.slots ≡ o
    → Good e.slot_id (session_at m e.slot_id) (handle_slot m e o)
unfolding handle_slot
handle_slot-Good m e none v f = (v, (refl, refl))
handle_slot-Good m e (some slot) v f = elim (Bool-cases (not slot.config.enabled)) [
  | inl t ↦ rw t (v, (refl, refl))
  | inr t ↦ elim (Bool-cases (is_empty e.sensor_id || not (e.sensor_id == slot.config.sensor_id))) [
    | inl u ↦ rw (t, u) (v, (refl, refl))
    | inr u ↦
        rw (t, u)
          (handle_state-Good m e slot v (v e.slot_id slot f) (ground arith)
            (ground (arith, bytes_beq_iff e.sensor_id slot.config.sensor_id)) e.state
            (ap (λ o. elim o [ none ↦ none | some x ↦ x.active_session ]) f))
  ]
]

-- In a valid manager no event throws. The manager stays valid, and the code says what became of the
-- slot's session: it was started where there was none, ended where there was one, or left as it was.
pub handle-Good :
    (m : SlotManager) (e : SensorEvent)
    → IsValid m
    → Good e.slot_id (session_at m e.slot_id) (handle m e)
unfolding handle
handle-Good m e v = handle_slot-Good m e (lookup e.slot_id m.slots) v refl
