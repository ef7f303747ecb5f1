-- ===== src/Sensor/Adapter/Routing.antt =====
-- An adapted event is one that the slot manager of the same configuration takes.
use pi_server.Base.{
  ℕ, ◌≡◌, refl, ap, ◌∙◌, subst, true, false, inl, inr, none, some, List, [], ◌∷◌, arith, Bytes,
  bytes_eq, bytes_beq_iff, ◌==◌, is_empty, Map, lookup, insert, contains, lookup-insert, AllEntries,
  AllEntries-insert, AllEntries-lookup, AllEntries-mono, Bool-cases, Option-cases,
}
use pi_server.Parking.Event.{SensorEvent}
use pi_server.Parking.Slots.{SlotConfig, Slot, add_slots, init as slots_init}
use pi_server.Parking.SensorIndex.{
  SensorSlotIndex, match_of, add_sensors, find_by_sensor_id, init as sensors_init,
}
use pi_server.Sensor.Protocol.Messages.{SensorMessage}
use pi_server.Sensor.Adapter.{adapt, adapt_found, event_of}

-- The slot is there, enabled, and of the sensor, which has a name.
pub record Takes (m : Map Bytes Slot) (slot_id sensor_id : Bytes) : Type 0 where
  pub slot : Slot
  pub there : lookup slot_id m ≡ some slot
  pub on : slot.config.enabled ≡ true
  pub its : slot.config.sensor_id ≡ sensor_id
  pub named : is_empty sensor_id ≡ false

abbrev fresh_slot : SlotConfig → Slot
fresh_slot c = record { config = c; active_session = none }

Takes-insert :
    (m : Map Bytes Slot) (c : SlotConfig) (slot_id sensor_id : Bytes)
    → contains c.slot_id m ≡ false
    → Takes m slot_id sensor_id
    → Takes (insert c.slot_id (fresh_slot c) m) slot_id sensor_id
Takes-insert m c slot_id sensor_id free t = elim (Bool-cases (c.slot_id == slot_id)) [
  | inl e ↦
      let one : c.slot_id ≡ slot_id = (bytes_beq_iff c.slot_id slot_id).0 e in
      let found : lookup c.slot_id m ≡ some t.slot = ap (λ k. lookup k m) one ∙ t.there in
      absurd (cc (free, found))
  | inr e ↦ record {
    slot = t.slot;
    there = rw (lookup-insert c.slot_id slot_id (fresh_slot c) m, e) t.there;
    on = t.on;
    its = t.its;
    named = t.named;
  }
]

abbrev Linked : SensorSlotIndex → Map Bytes Slot → Type 0
Linked ix m = AllEntries (λ k w. Takes m w.slot_id k) ix

add_slots-cons :
    (c : SlotConfig) (cs : List SlotConfig) (m m' : Map Bytes Slot)
    → add_slots (c ∷ cs) m ≡ some m'
    → (contains c.slot_id m ≡ false) × (add_slots cs (insert c.slot_id (fresh_slot c) m) ≡ some m')
unfolding add_slots
add_slots-cons c cs m m' h = ground arith

add-Linked :
    (cs : List SlotConfig) (ix ix' : SensorSlotIndex) (m m' : Map Bytes Slot)
    → add_sensors cs ix ≡ some ix'
    → add_slots cs m ≡ some m'
    → Linked ix m
    → Linked ix' m'
unfolding add_sensors
add-Linked [] ix ix' m m' f g v =
    let one : ix ≡ ix' = cc in
    let two : m ≡ m' = unfold add_slots in cc in
    subst (λ x. Linked x m') one (subst (λ y. Linked ix y) two v)
add-Linked (c ∷ cs) ix ix' m m' f g v =
    let (free, rest) = add_slots-cons c cs m m' g in
    let m1 = insert c.slot_id (fresh_slot c) m in
    let v1 : Linked ix m1 =
      AllEntries-mono (λ k w. Takes m w.slot_id k) (λ k w. Takes m1 w.slot_id k) ix
        (λ k w t. Takes-insert m c w.slot_id k free t) v in
    elim (Bool-cases c.enabled) [
      | inr t ↦ add-Linked cs ix ix' m1 m' (ground arith) rest v1
      | inl t ↦ elim (Bool-cases (is_empty c.sensor_id)) [
        | inl u ↦ absurd (ground arith)
        | inr u ↦ elim (Bool-cases (contains c.sensor_id ix)) [
          | inl z ↦ absurd (ground arith)
          | inr z ↦
              let self = (bytes_beq_iff c.slot_id c.slot_id).1 refl in
              add-Linked cs (insert c.sensor_id (match_of c) ix) ix' m1 m' (ground arith) rest (
                AllEntries-insert (λ k w. Takes m1 w.slot_id k) c.sensor_id (match_of c) ix
                  (record {
                    slot = fresh_slot c;
                    there = rw (lookup-insert c.slot_id c.slot_id (fresh_slot c) m, self) refl;
                    on = t;
                    its = refl;
                    named = u;
                  })
                  v1)
        ]
      ]
    ]

-- With the sensor index and the slots made of one configuration, an event that is adapted from a
-- message is of a slot that is there and enabled, and of its sensor.
pub adapt-Takes :
    (configs : List SlotConfig) (ix : SensorSlotIndex) (m : Map Bytes Slot)
    (message : SensorMessage) (transport : Bytes) (at : ℕ) (e : SensorEvent)
    → sensors_init configs ≡ some ix
    → slots_init configs ≡ some m
    → adapt ix message transport at ≡ some e
    → Takes m e.slot_id e.sensor_id
unfolding adapt sensors_init find_by_sensor_id
adapt-Takes configs ix m message transport at e f g h =
    elim (Option-cases (lookup message.sensor_id ix)) [
      | inl n ↦ absurd (unfold adapt_found in cc (rw n at h))
      | inr (w, n) ↦
          let made : add_slots configs [] ≡ some m = unfold slots_init in ground (arith, g) in
          let one : event_of w message transport at ≡ e = unfold adapt_found in cc (rw n at h) in
          let v : Linked ix m = add-Linked configs [] ix [] m f made tt in
          let (j, same, taken) =
            AllEntries-lookup (λ k w. Takes m w.slot_id k) message.sensor_id w ix v n in
          subst (λ e. Takes m e.slot_id e.sensor_id) one
            (subst (λ k. Takes m w.slot_id k) ((bytes_beq_iff j message.sensor_id).0 same) taken)
    ]
