-- ===== src/Fire/Commits.antt =====
-- Each mutation that the fire service makes of a consistent store passes the tests of the database.
use pi_server.Fire.Consistent.{Rowed, Written, is_empty-join_topic, same_bool_refl}
use pi_server.Base.{
  insert, Map, bytes_beq, lookup-insert, bytes_beq_iff, ◌∙◌, ap, is_some, ◌==◌, sym, subst, ◌⊎◌,
  nat_beq, ◌+◌, true, false, Option, none, some, Bytes, bytes_eq, is_empty, ltb, ◌≡◌, refl, inl,
  arith, lookup, eq_refl,
}
use pi_server.Sensor.Sequence.{evaluate_sensor_sequence, accepted}
use pi_server.Fire.Agreement.{Passes}
use pi_server.Fire.State.{Signal, AlarmState, fire_unseen, same_mode, max_fire_revision}
use pi_server.Fire.Outbox.{
  Delivery, retained_state, lifecycle_event, SinkKind, is_retained, same_sink,
}
use pi_server.Fire.Checks.{valid_mutation, valid_delivery}
use pi_server.Fire.Store.{
  updated_row, deliver, fact_of, cursor_of, cursor_changed, Store, retired_of,
}
use pi_server.Fire.Service.{
  transition_mutation, make_delivery, Config, Texts, join_topic, fire_event_id,
  retained_delivery_id, lifecycle_delivery_id,
}
use pi_server.Fire.Alarms.{AlarmFits}

-- A valid delivery of a life cycle step.
make_delivery_valid :
    (kind : SinkKind) (key logical : Bytes) (state : AlarmState)
    (event alarm topic payload timestamp : Bytes)
    → is_empty key ≡ false
    → is_empty logical ≡ false
    → is_empty state.sensor_id ≡ false
    → is_empty state.channel_id ≡ false
    → is_empty event ≡ false
    → is_empty alarm ≡ false
    → ltb 0 state.fire_revision ≡ true
    → ltb max_fire_revision state.fire_revision ≡ false
    → is_empty topic ≡ false
    → is_empty payload ≡ false
    → is_empty timestamp ≡ false
    → valid_delivery (make_delivery kind key logical state event alarm topic payload timestamp)
      ≡ true
unfolding valid_delivery make_delivery
make_delivery_valid kind key logical state event alarm topic payload timestamp h1 h2 h3 h4 h5 h6 h7
      h8 h9 h10 h11 =
    rw (h1, h2, h3, h4, h5, h6, h7, h8, h9, h10, h11, same_bool_refl (is_retained kind)) refl

-- A step of the life cycle from `current` to `next`.
pub record Turned (s : Store) (channel alarm : Bytes) (current next : AlarmState) : Type 0 where
  pub row : Rowed s.outbox channel current
  pub here : lookup channel s.states ≡ some current
  pub channel_kept : next.channel_id ≡ channel
  pub sensor_kept : next.sensor_id ≡ current.sensor_id
  pub topic_kept : next.retained_topic ≡ current.retained_topic
  pub counted : next.fire_revision ≡ current.fire_revision + 1
  pub event : next.last_event_id ≡ fire_event_id channel next.fire_revision
  pub signal_text : is_empty next.last_signal_json ≡ false
  pub update_text : is_empty next.updated_at ≡ false
  pub alarm_text : is_empty alarm ≡ false
  pub alarm_fits : AlarmFits next.desired_lifecycle next.active_alarm_id
  pub room : nat_beq current.fire_revision max_fire_revision ≡ false
  pub cursor_taken :
      (cursor_changed current next ≡ false)
      ⊎ ((same_mode next.protocol_mode fire_unseen ≡ false)
          × (accepted (
                evaluate_sensor_sequence
                  (cursor_of current
                    (retired_of s.retired_boots next.sensor_id next.active_boot_id))
                  (fact_of next))
              ≡ true))

-- What a life cycle step makes of the outbox: the retained row of the channel updated, and one more row.
abbrev pub Sent : Map Bytes Delivery → Bytes → Bytes → Bytes → Option (Map Bytes Delivery) → Type 0
Sent outbox channel topic event o =
    (row : Delivery) × (sent : Delivery) × (o
      ≡ some (
          insert (lifecycle_delivery_id event) sent
            (insert (retained_delivery_id channel) row outbox)))
    × (same_sink row.sink_kind retained_state ≡ true)
    × (row.row_channel ≡ channel)
    × (row.logical_key ≡ topic)

module _ (t : Texts) (written : Written t) (c : Config) (s : Store) where
  valid_mutation-Turned :
      (channel alarm : Bytes) (signal : Signal) (current next : AlarmState)
      → Turned s channel alarm current next
      → valid_mutation (
          transition_mutation t c channel current.retained_topic signal next current.fire_revision
            alarm)
        ≡ true
  unfolding valid_mutation transition_mutation
  valid_mutation-Turned channel alarm signal current next v =
      let r = v.row in
      let h1 : is_empty next.channel_id ≡ false =
        subst (λ x. is_empty x ≡ false) (sym v.channel_kept) r.channel_named in
      let h2 : is_empty next.sensor_id ≡ false =
        subst (λ x. is_empty x ≡ false) (sym v.sensor_kept) r.sensor_named in
      let h3 : is_empty next.retained_topic ≡ false =
        subst (λ x. is_empty x ≡ false) (sym v.topic_kept) r.topic_named in
      let h4 : is_empty next.last_event_id ≡ false =
        subst (λ x. is_empty x ≡ false) (sym v.event) refl in
      let n = next.fire_revision in
      let h5 : ltb 0 n ≡ true = ground (arith, v.counted) in
      let h6 : ltb max_fire_revision n ≡ false = ground (arith, v.counted, v.room, r.fits) in
      let h7 : nat_beq n (current.fire_revision + 1) ≡ true = ground (arith, v.counted) in
      let h8 : (next.channel_id == next.channel_id) ≡ true = eq_refl next.channel_id in
      let h9 : nat_beq n n ≡ true = ground arith in
      let first =
        make_delivery_valid retained_state (retained_delivery_id channel) current.retained_topic
          next next.last_event_id alarm current.retained_topic
          (t.build_fire_json c.camera_id channel signal next.desired_lifecycle next.last_event_id
            alarm n (retained_delivery_id channel))
          next.updated_at refl r.topic_named h2 h1 h4 v.alarm_text h5 h6 r.topic_named
          (written.payloads c.camera_id channel signal next.desired_lifecycle next.last_event_id
            alarm n (retained_delivery_id channel))
          v.update_text in
      let second =
        make_delivery_valid lifecycle_event (lifecycle_delivery_id next.last_event_id)
          next.last_event_id next next.last_event_id alarm
          (join_topic c.lifecycle_topic_prefix channel)
          (t.build_fire_json c.camera_id channel signal next.desired_lifecycle next.last_event_id
            alarm n (lifecycle_delivery_id next.last_event_id))
          next.updated_at refl h4 h2 h1 h4 v.alarm_text h5 h6
          (is_empty-join_topic c.lifecycle_topic_prefix channel r.channel_named)
          (written.payloads c.camera_id channel signal next.desired_lifecycle next.last_event_id
            alarm n (lifecycle_delivery_id next.last_event_id))
          v.update_text in
      rw (r.fits, h6, h1, h2, h3, h4, v.signal_text, v.update_text, v.room, h7, first, second)
        (unfold make_delivery in rw (h9, h8) refl)

  pub deliver-Turned :
      (channel alarm : Bytes) (signal : Signal) (current next : AlarmState)
      → Turned s channel alarm current next
      → Sent s.outbox channel current.retained_topic next.last_event_id (
          deliver s.outbox channel
            (transition_mutation t c channel current.retained_topic signal next
              current.fire_revision alarm).retained_delivery
            (transition_mutation t c channel current.retained_topic signal next
              current.fire_revision alarm).lifecycle_delivery)
  unfolding transition_mutation make_delivery
  deliver-Turned channel alarm signal current next v =
      let (row, f, kind, own, logical) = v.row.retained in
      let state_key = retained_delivery_id channel in
      let event = next.last_event_id in
      let key = lifecycle_delivery_id event in
      let unsent : lookup key s.outbox ≡ none =
        ap (λ id. lookup (lifecycle_delivery_id id) s.outbox) v.event
        ∙ v.row.unsent next.fire_revision (omega (arith, v.counted)) in
      let own_row : (row.row_channel == channel) ≡ true =
        (bytes_beq_iff row.row_channel channel).1 own in
      let own_topic : (row.logical_key == current.retained_topic) ≡ true =
        (bytes_beq_iff row.logical_key current.retained_topic).1 logical in
      let apart : (state_key == key) ≡ false = unfold bytes_beq in refl in
      let payload =
        t.build_fire_json c.camera_id channel signal next.desired_lifecycle event alarm
          next.fire_revision in
      let retained_row = updated_row row (
        make_delivery retained_state state_key current.retained_topic next event alarm
          current.retained_topic (payload state_key) next.updated_at) in
      let event_row =
        make_delivery lifecycle_event key event next event alarm
          (join_topic c.lifecycle_topic_prefix channel) (payload key) next.updated_at in
      (
        retained_row,
        event_row,
        rw (f, kind, own_row, own_topic)
            (rw (lookup-insert state_key key retained_row s.outbox, apart, unsent) refl),
        kind,
        v.channel_kept,
        logical,
      )

  Sent-some :
      (outbox : Map Bytes Delivery) (channel topic event : Bytes) (o : Option (Map Bytes Delivery))
      → Sent outbox channel topic event o
      → is_some o ≡ true
  Sent-some outbox channel topic event o v = rw v.2 refl

  pub Turned-Passes :
      (channel alarm topic : Bytes) (signal : Signal) (current next : AlarmState)
      → Turned s channel alarm current next
      → topic ≡ current.retained_topic
      → Passes s
          (transition_mutation t c channel topic signal next current.fire_revision alarm)
          current
  Turned-Passes channel alarm topic signal current next v same =
      subst
        (λ k.
          Passes s (transition_mutation t c channel k signal next current.fire_revision alarm)
            current)
        (sym same)
        (unfold transition_mutation in
          record {
            valid = valid_mutation-Turned channel alarm signal current next v;
            found = ap (λ k. lookup k s.states) v.channel_kept ∙ v.here;
            expected = ground arith;
            sensor = (bytes_beq_iff current.sensor_id next.sensor_id).1 (sym v.sensor_kept);
            topic = (bytes_beq_iff current.retained_topic next.retained_topic).1 (sym v.topic_kept);
            repeated = inl (ground (arith, v.counted));
            cursor = v.cursor_taken;
            delivered =
                subst
                  (λ k.
                    is_some (
                      deliver s.outbox k
                        (transition_mutation t c channel current.retained_topic signal next
                          current.fire_revision alarm).retained_delivery
                        (transition_mutation t c channel current.retained_topic signal next
                          current.fire_revision alarm).lifecycle_delivery)
                    ≡ true)
                  (sym v.channel_kept)
                  (Sent-some s.outbox channel current.retained_topic next.last_event_id _
                    (deliver-Turned channel alarm signal current next v));
          })
