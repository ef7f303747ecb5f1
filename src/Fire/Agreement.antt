-- ===== src/Fire/Agreement.antt =====
-- What the fire service decides is what the database takes.
use pi_server.Base.{
  Bool, true, false, not, ◌&&◌, Option, none, some, is_some, List, Bytes, bytes_eq, ◌==◌, nat_beq,
  ◌≡◌, refl, sym, subst, ◌⊎◌, inl, inr, if◌then◌else◌, Bool-cases, arith, Map, lookup, insert,
}
use pi_server.Fire.Outbox.{Mutation, Delivery, is_committed, failed}
use pi_server.Fire.State.{AlarmState, fire_unseen, same_mode}
use pi_server.Sensor.Sequence.{evaluate_sensor_sequence, accepted}
use pi_server.Fire.Checks.{valid_mutation, same_state_semantic}
use pi_server.Fire.Store.{
  Store, apply_fire_state_mutation, apply_found, advance, retire_boot, retired_of, cursor_of,
  fact_of, write, finish, updated_state, deliver, deliveries_match, cursor_changed, answer,
}

-- A mutation of `current` that the tests of the database let through.
pub record Passes (s : Store) (m : Mutation) (current : AlarmState) : Type 0 where
  pub valid : valid_mutation m ≡ true
  pub found : lookup m.next_state.channel_id s.states ≡ some current
  pub expected : nat_beq current.fire_revision m.expected_revision ≡ true
  pub sensor : (current.sensor_id == m.next_state.sensor_id) ≡ true
  pub topic : (current.retained_topic == m.next_state.retained_topic) ≡ true
  pub repeated :
      (nat_beq current.fire_revision m.next_state.fire_revision ≡ false)
      ⊎ (deliveries_match s m.retained_delivery m.lifecycle_delivery ≡ true)
  pub cursor :
      (cursor_changed current m.next_state ≡ false)
      ⊎ ((same_mode m.next_state.protocol_mode fire_unseen ≡ false)
          × (accepted (
                evaluate_sensor_sequence
                  (cursor_of current
                    (retired_of s.retired_boots m.next_state.sensor_id m.next_state.active_boot_id))
                  (fact_of m.next_state))
              ≡ true))
  pub delivered :
      is_some (deliver s.outbox m.next_state.channel_id m.retained_delivery m.lifecycle_delivery)
      ≡ true

finish_committed :
    (s changed : Store) (m : Mutation) (o : Option (Map Bytes Delivery))
    → is_some o ≡ true
    → is_committed (finish s m changed o).1.outcome ≡ true
finish_committed s changed m none h = cc
finish_committed s changed m (some rows) h = refl

write_committed :
    (s : Store) (m : Mutation) (current : AlarmState) (retired : List (Bytes × Bytes))
    → Passes s m current
    → is_committed (write s m current retired).1.outcome ≡ true
unfolding write
write_committed s m current retired v =
    finish_committed s
      (record s {
        states = insert m.next_state.channel_id (updated_state current m.next_state) s.states;
        retired_boots = retired;
      })
      m (deliver s.outbox m.next_state.channel_id m.retained_delivery m.lifecycle_delivery)
      v.delivered

moved_committed :
    (s : Store) (m : Mutation) (current : AlarmState)
    → Passes s m current
    → is_committed
        (if cursor_changed current m.next_state
          then advance s m current
          else write s m current s.retired_boots).1.outcome
      ≡ true
unfolding advance
moved_committed s m current v =
    let next = m.next_state in
    let rows =
      retire_boot current.protocol_mode current.active_boot_id next.active_boot_id next.sensor_id
        s.retired_boots in
    elim v.cursor [
      | inl still ↦ rw still (write_committed s m current s.retired_boots v)
      | inr (mode, accepts) ↦ elim (Bool-cases (cursor_changed current next)) [
        | inr t1 ↦ rw t1 (write_committed s m current s.retired_boots v)
        | inl t1 ↦ rw (t1, mode, accepts) (write_committed s m current rows v)
      ]
    ]

apply_found_committed :
    (s : Store) (m : Mutation) (current : AlarmState)
    → Passes s m current
    → is_committed (apply_found s m (some current)).1.outcome ≡ true
unfolding apply_found
apply_found_committed s m current v =
    let next = m.next_state in
    elim (Bool-cases
      (nat_beq current.fire_revision next.fire_revision && same_state_semantic current next)) [
        | inl t1 ↦ elim v.repeated [
          | inl other ↦ absurd (ground arith)
          | inr same ↦ rw (t1, same) refl
        ]
        | inr t1 ↦ rw (t1, v.expected, v.sensor, v.topic) (moved_committed s m current v)
      ]

pub apply-Passes :
    (s : Store) (m : Mutation) (current : AlarmState)
    → s.opened ≡ true
    → Passes s m current
    → is_committed (apply_fire_state_mutation s m).1.outcome ≡ true
unfolding apply_fire_state_mutation
apply-Passes s m current open_now v = rw v.valid (when_open s.opened open_now)
  where
    when_open :
        (b : Bool)
        → b ≡ true
        → is_committed
            (if not b
              then (s, answer failed m.expected_revision)
              else apply_found s m (lookup m.next_state.channel_id s.states)).1.outcome
          ≡ true
    when_open false h = cc
    when_open true h =
        subst (λ o. is_committed (apply_found s m o).1.outcome ≡ true) (sym v.found)
          (apply_found_committed s m current v)
