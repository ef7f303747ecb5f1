-- ===== src/Fire/Applied.antt =====
-- What a mutation leaves of the store.
use pi_server.Base.{
  if◌then◌else◌, Bool, true, false, not, ◌&&◌, ◌||◌, Option, none, some, List, Bytes, bytes_eq,
  ◌==◌, nat_beq, ◌≡◌, refl, ◌⊎◌, inl, inr, Bool-cases, Map, lookup, insert,
}
use pi_server.Sensor.Sequence.{evaluate_sensor_sequence, accepted}
use pi_server.Fire.State.{AlarmState, same_mode, fire_unseen}
use pi_server.Fire.Outbox.{failed, Mutation, Delivery}
use pi_server.Fire.Checks.{valid_mutation, same_state_semantic}
use pi_server.Fire.Store.{
  answer, Store, apply_fire_state_mutation, apply_found, advance, retire_boot, retired_of,
  cursor_of, fact_of, write, finish, updated_state, deliver, cursor_changed,
}

-- What a mutation leaves of the states: all of them, or its own updated.
abbrev pub Written : Store → Mutation → Store → Type 0
Written s m after =
    ((after.states ≡ s.states) × (after.outbox ≡ s.outbox) × (after.opened ≡ s.opened))
    ⊎ ((current : AlarmState) × (lookup m.next_state.channel_id s.states ≡ some current)
        × (after.states
            ≡ insert m.next_state.channel_id (updated_state current m.next_state) s.states)
        × (deliver s.outbox m.next_state.channel_id m.retained_delivery m.lifecycle_delivery
            ≡ some after.outbox)
        × (after.opened ≡ s.opened))

pub write-Written :
    (s : Store) (m : Mutation) (current : AlarmState) (retired : List (Bytes × Bytes))
    → lookup m.next_state.channel_id s.states ≡ some current
    → Written s m (write s m current retired).0
unfolding write
write-Written s m current retired f =
    finished (deliver s.outbox m.next_state.channel_id m.retained_delivery m.lifecycle_delivery)
      refl
  where
    finished :
        (o : Option (Map Bytes Delivery))
        → deliver s.outbox m.next_state.channel_id m.retained_delivery m.lifecycle_delivery ≡ o
        → Written s m
            (finish s m
              (record s {
                states =
                    insert m.next_state.channel_id (updated_state current m.next_state) s.states;
                retired_boots = retired;
              })
              o).0
    finished none e = inl (refl, refl, refl)
    finished (some rows) e = inr (current, f, refl, e, refl)

pub advance-Written :
    (s : Store) (m : Mutation) (current : AlarmState)
    → lookup m.next_state.channel_id s.states ≡ some current
    → Written s m (advance s m current).0
unfolding advance
advance-Written s m current f =
    let next = m.next_state in
    let rows =
      retire_boot current.protocol_mode current.active_boot_id next.active_boot_id next.sensor_id
        s.retired_boots in
    elim (Bool-cases (same_mode next.protocol_mode fire_unseen)) [
      | inl t1 ↦ rw t1 (inl (refl, refl, refl))
      | inr t1 ↦
          elim (Bool-cases (
            accepted (
              evaluate_sensor_sequence
                (cursor_of current (retired_of s.retired_boots next.sensor_id next.active_boot_id))
                (fact_of next)))) [
                  | inr t2 ↦ rw (t1, t2) (inl (refl, refl, refl))
                  | inl t2 ↦ rw (t1, t2) (write-Written s m current rows f)
                ]
    ]

pub apply_found-Written :
    (s : Store) (m : Mutation) (o : Option AlarmState)
    → lookup m.next_state.channel_id s.states ≡ o
    → Written s m (apply_found s m o).0
unfolding apply_found
apply_found-Written s m none f = inl (refl, refl, refl)
apply_found-Written s m (some current) f =
    let next = m.next_state in
    elim (Bool-cases
      (nat_beq current.fire_revision next.fire_revision && same_state_semantic current next)) [
        | inl t1 ↦ rw t1 (inl (refl, refl, refl))
        | inr t1 ↦ elim (Bool-cases (nat_beq current.fire_revision m.expected_revision)) [
          | inr t2 ↦ rw (t1, t2) (inl (refl, refl, refl))
          | inl t2 ↦
              elim (Bool-cases (
                not (current.sensor_id == next.sensor_id)
                || not (current.retained_topic == next.retained_topic))) [
                  | inl t3 ↦ rw (t1, t2, t3) (inl (refl, refl, refl))
                  | inr t3 ↦ elim (Bool-cases (cursor_changed current next)) [
                    | inl t4 ↦ rw (t1, t2, t3, t4) (advance-Written s m current f)
                    | inr t4 ↦ rw (t1, t2, t3, t4) (write-Written s m current s.retired_boots f)
                  ]
                ]
        ]
      ]

pub apply-Written : (s : Store) (m : Mutation) → Written s m (apply_fire_state_mutation s m).0
unfolding apply_fire_state_mutation
apply-Written s m = elim (Bool-cases (valid_mutation m)) [
  | inr t1 ↦ rw t1 (inl (refl, refl, refl))
  | inl t1 ↦ rw t1 (when_open s.opened)
]
  where
    when_open :
        (b : Bool)
        → Written s m
            (if not b
              then (s, answer failed m.expected_revision)
              else apply_found s m (lookup m.next_state.channel_id s.states)).0
    when_open false = inl (refl, refl, refl)
    when_open true = apply_found-Written s m (lookup m.next_state.channel_id s.states) refl
