-- ===== src/Parking/Slots/Starts.antt =====
-- When the manager starts a session.
use pi_server.Base.{
  ◌≡◌, refl, inl, inr, true, false, not, ◌||◌, Option, none, some, arith, bytes_eq, ◌==◌, is_empty,
  lookup, Bool-cases, ltb,
}
use pi_server.Parking.Event.{SensorEvent, SensorState, occupied, vacant}
use pi_server.Parking.Session.{OccupancySession, complete}
use pi_server.Parking.Slots.{
  Slot, session_started, TransitionResult, SlotManager, handle, handle_slot, handle_state,
  handle_occupied, handle_vacant, ended, start_session,
}

-- The event is an OCCUPIED of the slot's own sensor, and the slot is enabled and has no session.
abbrev pub Opens : SensorEvent → Slot → Type 0
Opens e slot =
    (e.state ≡ occupied)
    × (slot.active_session ≡ none)
    × (slot.config.enabled ≡ true)
    × (is_empty e.sensor_id ≡ false)
    × ((e.sensor_id == slot.config.sensor_id) ≡ true)

-- What a result that starts a session says of the event.
abbrev pub OnStart : Option (SlotManager × TransitionResult) → Type 0 → Type 0
OnStart none P = Unit
OnStart (some (m, r)) P = r.code ≡ session_started → P

OnStart_given : {P : Type 0} (o : Option (SlotManager × TransitionResult)) → P → OnStart o P
OnStart_given none p = tt
OnStart_given (some (m, r)) p = λ h. p

pub OnStart_mono :
    {P Q : Type 0} (o : Option (SlotManager × TransitionResult))
    → (P → Q)
    → OnStart o P
    → OnStart o Q
OnStart_mono none f h = tt
OnStart_mono (some (m, r)) f h = λ c. f (h c)

ended-OnStart :
    (m : SlotManager) (e : SensorEvent) (slot : Slot) (o : Option OccupancySession) (P : Type 0)
    → OnStart (ended m e slot o) P
unfolding ended
ended-OnStart m e slot none P = tt
ended-OnStart m e slot (some d) P = λ h. cc

handle_vacant-OnStart :
    (m : SlotManager) (e : SensorEvent) (slot : Slot) (o : Option OccupancySession) (P : Type 0)
    → OnStart (handle_vacant m e slot o) P
unfolding handle_vacant
handle_vacant-OnStart m e slot none P = λ h. cc
handle_vacant-OnStart m e slot (some s) P = elim (Bool-cases (ltb e.occurred_at s.started_at)) [
  | inl t ↦ rw t (λ h. cc)
  | inr t ↦ rw t (ended-OnStart m e slot (complete s e.occurred_at) P)
]

handle_occupied-OnStart :
    (m : SlotManager) (e : SensorEvent) (slot : Slot) (o : Option OccupancySession)
    → OnStart (handle_occupied m e slot o) (o ≡ none)
unfolding handle_occupied
handle_occupied-OnStart m e slot none = OnStart_given (start_session m e slot) refl
handle_occupied-OnStart m e slot (some s) = λ h. cc

handle_state-OnStart :
    (st : SensorState) (m : SlotManager) (e : SensorEvent) (slot : Slot)
    → OnStart (handle_state st m e slot) ((st ≡ occupied) × (slot.active_session ≡ none))
unfolding handle_state
handle_state-OnStart occupied m e slot =
    OnStart_mono (handle_occupied m e slot slot.active_session) (λ h. (refl, h))
      (handle_occupied-OnStart m e slot slot.active_session)
handle_state-OnStart vacant m e slot =
    handle_vacant-OnStart m e slot slot.active_session
      ((vacant ≡ occupied) × (slot.active_session ≡ none))

-- A result that starts a session comes of an OCCUPIED of the slot's own sensor, and the slot is
-- enabled and had no session.
handle_slot-OnStart :
    (m : SlotManager) (e : SensorEvent) (o : Option Slot)
    → OnStart (handle_slot m e o) ((slot : Slot) × (o ≡ some slot) × Opens e slot)
unfolding handle_slot
handle_slot-OnStart m e none = λ h. cc
handle_slot-OnStart m e (some slot) = elim (Bool-cases (not slot.config.enabled)) [
  | inl t ↦ rw t (λ h. cc)
  | inr t ↦ elim (Bool-cases (is_empty e.sensor_id || not (e.sensor_id == slot.config.sensor_id))) [
    | inl u ↦ rw (t, u) (λ h. cc)
    | inr u ↦
        rw (t, u)
          (OnStart_mono (handle_state e.state m e slot)
            (λ h. (slot, refl, (h.0, h.1, ground arith, ground arith, ground arith)))
            (handle_state-OnStart e.state m e slot))
  ]
]

pub handle-OnStart :
    (m : SlotManager) (e : SensorEvent)
    → OnStart (handle m e) ((slot : Slot) × (lookup e.slot_id m.slots ≡ some slot) × Opens e slot)
unfolding handle
handle-OnStart m e = handle_slot-OnStart m e (lookup e.slot_id m.slots)
