-- ===== src/Fire/Rows.antt =====
-- What a step of the life cycle leaves of the outbox.
use pi_server.Base.{
  ℕ, ◌≡◌, refl, sym, ◌∙◌, subst, true, false, inl, inr, some, Bytes, bytes_eq, bytes_beq_iff, ◌==◌,
  is_empty, Map, lookup, insert, lookup-insert, eq_refl, Bool-cases, arith,
}
use pi_server.Fire.State.{AlarmState, Signal}
use pi_server.Fire.Outbox.{Delivery, same_sink, retained_state}
use pi_server.Fire.Store.{Store, updated_state, deliver}
use pi_server.Fire.Service.{
  Texts, Config, Plan, reply, mutate, transition_mutation, fire_event_id, retained_delivery_id,
  lifecycle_delivery_id,
}
use pi_server.Fire.Keys.{
  lifecycle_key_injective, retained_key_apart, state_event_apart, event_state_apart,
}
use pi_server.Fire.Commits.{Turned, deliver-Turned}
use pi_server.Fire.Consistent.{Written, Rowed}

-- A key that is neither of the two is found as before.
lookup_elsewhere :
    (key first second : Bytes) (sent row : Delivery) (outbox : Map Bytes Delivery)
    → (first == key) ≡ false
    → (second == key) ≡ false
    → lookup key (insert first sent (insert second row outbox)) ≡ lookup key outbox
lookup_elsewhere key first second sent row outbox h g =
    rw
      (
        lookup-insert first key sent (insert second row outbox),
        h,
        lookup-insert second key row outbox,
        g,
      )
      refl

module _ (s : Store) (channel alarm : Bytes) (current next : AlarmState) (row sent : Delivery)
    (v : Turned s channel alarm current next) where
  rows_after : Map Bytes Delivery
  rows_after =
      insert (lifecycle_delivery_id next.last_event_id) sent
        (insert (retained_delivery_id channel) row s.outbox)

  -- An event of another channel or revision is sent or not sent as before.
  lookup_other_event :
      (k : Bytes) (n : ℕ)
      → ((channel ≡ k) → (next.fire_revision ≡ n) → ⊥)
      → lookup (lifecycle_delivery_id (fire_event_id k n)) rows_after
        ≡ lookup (lifecycle_delivery_id (fire_event_id k n)) s.outbox
  unfolding rows_after
  lookup_other_event k n other =
      let key = lifecycle_delivery_id (fire_event_id k n) in
      let own = lifecycle_delivery_id next.last_event_id in
      let apart : (own == key) ≡ false = elim (Bool-cases (own == key)) [
        | inr t1 ↦ t1
        | inl t1 ↦
            let (same, number) =
              lifecycle_key_injective channel k next.fire_revision n
                (subst (λ e. (lifecycle_delivery_id e == key) ≡ true) v.event t1) in
            absurd (other same number)
      ] in
      lookup_elsewhere key own (retained_delivery_id channel) sent row s.outbox apart
        (event_state_apart channel (fire_event_id k n))

  Rowed-other :
      (k : Bytes) (a : AlarmState)
      → (channel == k) ≡ false
      → Rowed s.outbox k a
      → Rowed rows_after k a
  unfolding rows_after
  Rowed-other k a other r =
      let no : (channel ≡ k) → ⊥ = λ same. cc ((bytes_beq_iff channel k).1 same, other) in
      record {
        own = r.own;
        channel_named = r.channel_named;
        sensor_named = r.sensor_named;
        topic_named = r.topic_named;
        event_named = r.event_named;
        signal_named = r.signal_named;
        update_named = r.update_named;
        fits = r.fits;
        retained = (
          r.retained.0,
          lookup_elsewhere (retained_delivery_id k) (lifecycle_delivery_id next.last_event_id)
                (retained_delivery_id channel) sent row s.outbox
                (state_event_apart k next.last_event_id) (retained_key_apart channel k other)
              ∙ r.retained.1,
          r.retained.2,
          r.retained.3,
          r.retained.4,
        );
        unsent = λ n later. lookup_other_event k n (λ same number. no same) ∙ r.unsent n later;
      }

  Rowed-own :
      same_sink row.sink_kind retained_state ≡ true
      → row.row_channel ≡ channel
      → row.logical_key ≡ current.retained_topic
      → Rowed rows_after channel (updated_state current next)
  unfolding rows_after
  Rowed-own kind own logical =
      let r = v.row in
      let key = retained_delivery_id channel in
      record {
        own = (r.own.0, v.alarm_fits);
        channel_named = r.channel_named;
        sensor_named = r.sensor_named;
        topic_named = r.topic_named;
        event_named = subst (λ e. is_empty e ≡ false) (sym v.event) refl;
        signal_named = v.signal_text;
        update_named = v.update_text;
        fits = ground (arith, v.counted, v.room, r.fits);
        retained = (
          row,
          rw
              (
                lookup-insert (lifecycle_delivery_id next.last_event_id) key sent
                    (insert key row s.outbox),
                state_event_apart channel next.last_event_id,
                lookup-insert key key row s.outbox,
                eq_refl key,
              )
              refl,
          kind,
          own,
          logical,
        );
        unsent = λ n later.
            lookup_other_event channel n (λ same number. omega (arith, later, number))
            ∙ r.unsent n (omega (arith, later, v.counted));
      }

-- What a mutation leaves of the outbox: the rows that its channel and the others want.
abbrev pub Leaves : Store → Plan → Type 0
Leaves s (reply r) = Unit
Leaves s (mutate m b) =
    (channel : Bytes) × (current : AlarmState) × (lookup channel s.states ≡ some current)
    × (m.next_state.channel_id ≡ channel)
    × ((rows : Map Bytes Delivery)
        → deliver s.outbox channel m.retained_delivery m.lifecycle_delivery ≡ some rows
        → Rowed rows channel (updated_state current m.next_state)
          × ((k : Bytes) (a : AlarmState)
              → (channel == k) ≡ false
              → Rowed s.outbox k a
              → Rowed rows k a))

pub Turned-Leaves :
    (t : Texts) (written : Written t) (c : Config) (s : Store) (channel alarm topic : Bytes)
    (signal : Signal) (current next : AlarmState)
    → Turned s channel alarm current next
    → topic ≡ current.retained_topic
    → Leaves s (
        mutate (transition_mutation t c channel topic signal next current.fire_revision alarm) true)
Turned-Leaves t written c s channel alarm topic signal current next v same =
    subst
      (λ k.
        Leaves s
          (mutate (transition_mutation t c channel k signal next current.fire_revision alarm) true))
      (sym same) (channel, current, v.here, unfold transition_mutation in v.channel_kept, left)
  where
    left :
        (rows : Map Bytes Delivery)
        → deliver s.outbox channel
            (transition_mutation t c channel current.retained_topic signal next
              current.fire_revision alarm).retained_delivery
            (transition_mutation t c channel current.retained_topic signal next
              current.fire_revision alarm).lifecycle_delivery
          ≡ some rows
        → Rowed rows channel (
            updated_state current
              (transition_mutation t c channel current.retained_topic signal next
                current.fire_revision alarm).next_state)
          × ((k : Bytes) (a : AlarmState)
              → (channel == k) ≡ false
              → Rowed s.outbox k a
              → Rowed rows k a)
    left rows e =
        let (row, sent, f, kind, own, logical) =
          deliver-Turned t written c s channel alarm signal current next v in
        let one : rows_after s channel alarm current next row sent v ≡ rows =
          unfold rows_after in cc in
        subst
          (λ rs.
            Rowed rs channel (
              updated_state current
                (transition_mutation t c channel current.retained_topic signal next
                  current.fire_revision alarm).next_state)
            × ((k : Bytes) (a : AlarmState)
                → (channel == k) ≡ false
                → Rowed s.outbox k a
                → Rowed rs k a))
          one
          (
            unfold transition_mutation in
                Rowed-own s channel alarm current next row sent v kind own logical,
            Rowed-other s channel alarm current next row sent v,
          )
