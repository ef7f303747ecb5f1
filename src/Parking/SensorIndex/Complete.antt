-- ===== src/Parking/SensorIndex/Complete.antt =====
-- An index that the constructor makes knows every enabled slot by its sensor.
use pi_server.Base.{
  subst, ◌≡◌, sym, ap, ◌∙◌, inl, inr, Bool, true, false, some, List, [], ◌∷◌, arith, All, Bytes,
  bytes_eq, bytes_beq_iff, ◌==◌, is_empty, lookup, insert, contains, lookup-insert_self,
  lookup-insert_ne, Bool-cases,
}
use pi_server.Parking.Slots.{SlotConfig}
use pi_server.Parking.SensorIndex.{
  SensorSlotMatch, SensorSlotIndex, match_of, add_sensors, init, find_by_sensor_id,
}

insert_other :
    (k j : Bytes) (v w : SensorSlotMatch) (ix : SensorSlotIndex)
    → contains k ix ≡ false
    → lookup j ix ≡ some w
    → lookup j (insert k v ix) ≡ some w
insert_other k j v w ix free f = elim (Bool-cases (k == j)) [
  | inl t ↦ let key : k ≡ j = (bytes_beq_iff k j).0 t in absurd (cc (free, f, key))
  | inr t ↦ lookup-insert_ne k j v ix t ∙ f
]

-- What the loop has entered stays.
add_sensors_keeps :
    (cs : List SlotConfig) (ix made : SensorSlotIndex) (j : Bytes) (w : SensorSlotMatch)
    → add_sensors cs ix ≡ some made
    → lookup j ix ≡ some w
    → lookup j made ≡ some w
unfolding add_sensors
add_sensors_keeps [] ix made j w h f = let same : ix ≡ made = cc in ap (lookup j) (sym same) ∙ f
add_sensors_keeps (c ∷ cs) ix made j w h f = elim (Bool-cases c.enabled) [
  | inr t ↦ add_sensors_keeps cs ix made j w (ground arith) f
  | inl t ↦ elim (Bool-cases (is_empty c.sensor_id)) [
    | inl u ↦ absurd (ground arith)
    | inr u ↦ elim (Bool-cases (contains c.sensor_id ix)) [
      | inl z ↦ absurd (ground arith)
      | inr z ↦
          add_sensors_keeps cs (insert c.sensor_id (match_of c) ix) made j w (ground arith)
            (insert_other c.sensor_id j (match_of c) w ix z f)
    ]
  ]
]

-- The index finds the slot by its sensor, if the slot is enabled.
abbrev pub FoundIf : Bool → SensorSlotIndex → SlotConfig → Type 0
FoundIf true ix c = find_by_sensor_id ix c.sensor_id ≡ some (match_of c)
FoundIf false ix c = Unit

abbrev pub Found : SensorSlotIndex → SlotConfig → Type 0
Found ix c = FoundIf c.enabled ix c

add_sensors-Found :
    (cs : List SlotConfig) (ix made : SensorSlotIndex)
    → add_sensors cs ix ≡ some made
    → All (Found made) cs
unfolding add_sensors find_by_sensor_id
add_sensors-Found [] ix made h = tt
add_sensors-Found (c ∷ cs) ix made h = elim (Bool-cases c.enabled) [
  | inr t ↦ (subst (λ b. FoundIf b made c) (sym t) tt, add_sensors-Found cs ix made (ground arith))
  | inl t ↦ elim (Bool-cases (is_empty c.sensor_id)) [
    | inl u ↦ absurd (ground arith)
    | inr u ↦ elim (Bool-cases (contains c.sensor_id ix)) [
      | inl z ↦ absurd (ground arith)
      | inr z ↦
          let more : add_sensors cs (insert c.sensor_id (match_of c) ix) ≡ some made =
            ground arith in
          (
            rw t (
                add_sensors_keeps cs (insert c.sensor_id (match_of c) ix) made c.sensor_id
                  (match_of c) more (lookup-insert_self c.sensor_id (match_of c) ix)),
            add_sensors-Found cs (insert c.sensor_id (match_of c) ix) made more,
          )
    ]
  ]
]

-- In an index that the constructor makes, each enabled slot of the configuration is what a search
-- for its sensor finds.
pub init-Found :
    (configs : List SlotConfig) (ix : SensorSlotIndex)
    → init configs ≡ some ix
    → All (Found ix) configs
unfolding init
init-Found configs ix h = add_sensors-Found configs [] ix h
