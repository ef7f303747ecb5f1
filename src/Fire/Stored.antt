-- ===== src/Fire/Stored.antt =====
-- The commands of the fire service on a consistent store.
use pi_server.Base.{
  ℕ, ◌+◌, Bool, true, false, some, List, [], ◌∷◌, Bytes, bytes_eq, bytes_beq_iff, ◌==◌, is_empty,
  nat_beq, ◌≡◌, refl, sym, ap, ◌∙◌, subst, inl, inr, Bool-cases, arith, lookup, All, eq_refl,
}
use pi_server.Sensor.Sequence.{evaluate_sensor_sequence, accepted}
use pi_server.Fire.State.{max_fire_revision, Signal, AlarmState, is_active}
use pi_server.Fire.Outbox.{is_committed}
use pi_server.Fire.Checks.{valid_mutation}
use pi_server.Fire.Store.{
  Store, apply_fire_state_mutation, retired_of, cursor_of, fact_of, get_fire_alarm_state,
  cursor_changed,
}
use pi_server.Fire.Service.{
  Binding, CommandResult, Config, Texts, find_by_sensor, find_by_channel, Plan, reply, mutate,
}
use pi_server.Fire.Signals.{with_cursor, raised_state, alarm_of, signal_fact, retired_by}
use pi_server.Fire.Process.{FireCommand, acknowledged_state, cleared_state, plan}
use pi_server.Fire.Decisions.{cursor_mutation, Taken, plan_by_cases}
use pi_server.Fire.Alarms.{named, get-lookup}
use pi_server.Fire.Agreement.{Passes, apply-Passes}
use pi_server.Fire.Commits.{Turned, Turned-Passes}
use pi_server.Fire.Consistent.{
  Written, Rowed, Bound, same_mode_refl, same_boot_refl, same_number_refl, fact_version, mode_seen,
  retired_agrees,
}

by_sensor :
    (P : Binding → Type 0) (sensor : Bytes) (bs : List Binding) (b : Binding)
    → All P bs
    → find_by_sensor sensor bs ≡ some b
    → (b.bound_sensor ≡ sensor) × P b
unfolding find_by_sensor
by_sensor P sensor [] b h f = cc
by_sensor P sensor (a ∷ bs) b (p, h) f = elim (Bool-cases (a.bound_sensor == sensor)) [
  | inl t1 ↦
      let one : a ≡ b = ground arith in
      subst (λ x. (x.bound_sensor ≡ sensor) × P x) one
        ((bytes_beq_iff a.bound_sensor sensor).0 t1, p)
  | inr t1 ↦ by_sensor P sensor bs b h (rw t1 at f)
]

by_channel :
    (P : Binding → Type 0) (channel : Bytes) (bs : List Binding) (b : Binding)
    → All P bs
    → find_by_channel channel bs ≡ some b
    → (b.bound_channel ≡ channel) × P b
unfolding find_by_channel
by_channel P channel [] b h f = cc
by_channel P channel (a ∷ bs) b (p, h) f = elim (Bool-cases (a.bound_channel == channel)) [
  | inl t1 ↦
      let one : a ≡ b = ground arith in
      subst (λ x. (x.bound_channel ≡ channel) × P x) one
        ((bytes_beq_iff a.bound_channel channel).0 t1, p)
  | inr t1 ↦ by_channel P channel bs b h (rw t1 at f)
]

-- A reply stores nothing; a mutation is committed, or is found to be there already.
abbrev pub Stored : Store → Plan → Type 0
Stored s (reply r) = Unit
Stored s (mutate m b) = is_committed (apply_fire_state_mutation s m).1.outcome ≡ true

-- With the same cursor nothing of it has changed.
cursor_kept :
    (a b : AlarmState)
    → a.protocol_mode ≡ b.protocol_mode
    → a.active_boot_id ≡ b.active_boot_id
    → a.last_source_sequence ≡ b.last_source_sequence
    → a.last_signal_json ≡ b.last_signal_json
    → cursor_changed a b ≡ false
cursor_kept a b h1 h2 h3 h4 =
    let t1 = same_mode_refl a.protocol_mode in
    let t2 = same_boot_refl a.active_boot_id in
    let t3 = same_number_refl a.last_source_sequence in
    let t4 = eq_refl a.last_signal_json in rw (sym h1, sym h2, sym h3, sym h4, t1, t2, t3, t4) refl

-- Every state that is there can be found with its rows.
abbrev pub Consistent : Store → Type 0
Consistent s =
    (channel : Bytes) (a : AlarmState) → lookup channel s.states ≡ some a → Rowed s.outbox channel a

module _ (t : Texts) (written : Written t) (c : Config) (s : Store) (now : ℕ)
    (open_now : s.opened ≡ true) (rows : Consistent s) (bound : All (Bound s) c.bindings) where
  pub Rowed-found :
      (channel : Bytes) (a : AlarmState)
      → get_fire_alarm_state s channel ≡ some a
      → Rowed s.outbox channel a
  Rowed-found channel a g = rows channel a (get-lookup s channel a g)

  -- The database's policy takes what the service's has taken.
  accepts_next :
      (signal : Signal) (b : Binding) (current : AlarmState)
      → Taken c s signal b current
      → accepted (
          evaluate_sensor_sequence
            (cursor_of current (retired_of s.retired_boots current.sensor_id signal.source_boot_id))
            (fact_of (with_cursor t signal now current)))
        ≡ true
  accepts_next signal b current v =
      let row = Rowed-found b.bound_channel current v.found in
      let (sensor, of_b) =
        by_sensor (Bound s) signal.signal_sensor c.bindings b bound v.by_sensor in
      let same : current.sensor_id ≡ signal.signal_sensor =
        (of_b current (get-lookup s b.bound_channel current v.found)).0 ∙ sensor in
      let retired =
        retired_agrees s current.sensor_id signal.source_protocol_version signal.source_boot_id
          signal.source_sequence open_now row.sensor_named v.agrees in
      let asked : accepted (
            evaluate_sensor_sequence
              (cursor_of current
                (retired_of s.retired_boots current.sensor_id signal.source_boot_id))
              (signal_fact signal))
          ≡ true =
        subst
          (λ ids.
            accepted (evaluate_sensor_sequence (cursor_of current ids) (signal_fact signal)) ≡ true)
          (ap (λ k. retired_by s k signal.source_protocol_version signal.source_boot_id) (sym same)
            ∙ retired)
          v.accepts in
      subst
        (λ version.
          accepted (
            evaluate_sensor_sequence
              (cursor_of current
                (retired_of s.retired_boots current.sensor_id signal.source_boot_id))
              (record {
                protocol_version = version;
                boot_id = signal.source_boot_id;
                sequence = signal.source_sequence;
              }))
          ≡ true)
        (sym (fact_version signal.source_protocol_version)) asked

  cursor-Passes :
      (signal : Signal) (b : Binding) (current : AlarmState)
      → Taken c s signal b current
      → Passes s (cursor_mutation current (with_cursor t signal now current)) current
  unfolding valid_mutation
  cursor-Passes signal b current v =
      let row = Rowed-found b.bound_channel current v.found in
      let named_channel : is_empty current.channel_id ≡ false =
        subst (λ k. is_empty k ≡ false) (sym (row.own.0)) row.channel_named in
      let same : nat_beq current.fire_revision current.fire_revision ≡ true = ground arith in
      record {
        valid =
            rw
              (
                row.fits,
                named_channel,
                row.sensor_named,
                row.topic_named,
                row.event_named,
                written.signals signal,
                written.times now,
                same,
              )
              refl;
        found =
            ap (λ k. lookup k s.states) row.own.0 ∙ get-lookup s b.bound_channel current v.found;
        expected = same;
        sensor = eq_refl current.sensor_id;
        topic = eq_refl current.retained_topic;
        repeated = inr refl;
        cursor = inr (mode_seen signal.source_protocol_version, accepts_next signal b current v);
        delivered = refl;
      }

  pub raised-Turned :
      (signal : Signal) (b : Binding) (current : AlarmState) (d : Bool)
      → Taken c s signal b current
      → nat_beq current.fire_revision max_fire_revision ≡ false
      → is_empty (alarm_of current b.bound_channel (current.fire_revision + 1) d) ≡ false
      → Turned s b.bound_channel
          (alarm_of current b.bound_channel (current.fire_revision + 1) d)
          current
          (raised_state
            (with_cursor t signal now current)
            b.bound_channel
            (current.fire_revision + 1)
            d)
  raised-Turned signal b current true v room alarm = record {
    row = Rowed-found b.bound_channel current v.found;
    here = get-lookup s b.bound_channel current v.found;
    channel_kept = (Rowed-found b.bound_channel current v.found).own.0;
    sensor_kept = refl;
    topic_kept = refl;
    counted = refl;
    event = refl;
    signal_text = written.signals signal;
    update_text = written.times now;
    alarm_text = alarm;
    alarm_fits = refl;
    room = room;
    cursor_taken = inr (mode_seen signal.source_protocol_version, accepts_next signal b current v);
  }
  raised-Turned signal b current false v room alarm = record {
    row = Rowed-found b.bound_channel current v.found;
    here = get-lookup s b.bound_channel current v.found;
    channel_kept = (Rowed-found b.bound_channel current v.found).own.0;
    sensor_kept = refl;
    topic_kept = refl;
    counted = refl;
    event = refl;
    signal_text = written.signals signal;
    update_text = written.times now;
    alarm_text = alarm;
    alarm_fits = refl;
    room = room;
    cursor_taken = inr (mode_seen signal.source_protocol_version, accepts_next signal b current v);
  }

  pub topic_of :
      (channel : Bytes) (b : Binding) (current : AlarmState)
      → find_by_channel channel c.bindings ≡ some b
      → get_fire_alarm_state s channel ≡ some current
      → b.bound_topic ≡ current.retained_topic
  topic_of channel b current f g =
      let (here, of_b) = by_channel (Bound s) channel c.bindings b bound f in
      sym (of_b current (ap (λ k. lookup k s.states) here ∙ get-lookup s channel current g)).1

  pub bound_topic_of :
      (signal : Signal) (b : Binding) (current : AlarmState)
      → Taken c s signal b current
      → b.bound_topic ≡ current.retained_topic
  bound_topic_of signal b current v =
      let (sensor, of_b) =
        by_sensor (Bound s) signal.signal_sensor c.bindings b bound v.by_sensor in
      sym (of_b current (get-lookup s b.bound_channel current v.found)).1

  pub acknowledged-Turned :
      (channel alarm : Bytes) (current : AlarmState)
      → get_fire_alarm_state s channel ≡ some current
      → (current.active_alarm_id == alarm) ≡ true
      → is_active current.desired_lifecycle ≡ true
      → nat_beq current.fire_revision max_fire_revision ≡ false
      → Turned s channel alarm current (acknowledged_state t now current channel)
  acknowledged-Turned channel alarm current g same active room =
      let row = Rowed-found channel current g in
      let own_name = named current.desired_lifecycle current.active_alarm_id active (row.own.1) in
      record {
        row = row;
        here = get-lookup s channel current g;
        channel_kept = row.own.0;
        sensor_kept = refl;
        topic_kept = refl;
        counted = refl;
        event = refl;
        signal_text = row.signal_named;
        update_text = written.times now;
        alarm_text =
            subst (λ k. is_empty k ≡ false) ((bytes_beq_iff current.active_alarm_id alarm).0 same)
              own_name;
        alarm_fits = own_name;
        room = room;
        cursor_taken =
            inl
              (cursor_kept current (acknowledged_state t now current channel) refl refl refl refl);
      }

  pub cleared-Turned :
      (channel : Bytes) (current : AlarmState)
      → get_fire_alarm_state s channel ≡ some current
      → is_empty current.active_alarm_id ≡ false
      → nat_beq current.fire_revision max_fire_revision ≡ false
      → Turned s channel current.active_alarm_id current (cleared_state t now current channel)
  cleared-Turned channel current g name room =
      let row = Rowed-found channel current g in
      record {
        row = row;
        here = get-lookup s channel current g;
        channel_kept = row.own.0;
        sensor_kept = refl;
        topic_kept = refl;
        counted = refl;
        event = refl;
        signal_text = row.signal_named;
        update_text = written.times now;
        alarm_text = name;
        alarm_fits = refl;
        room = room;
        cursor_taken =
            inl (cursor_kept current (cleared_state t now current channel) refl refl refl refl);
      }

-- On a consistent store that is open and bound as configured, every mutation that the service decides on
-- is committed, or found to be there already: the database never refuses one.
pub plan-Stored :
    (t : Texts) (c : Config) (s : Store) (now : ℕ) (ready : Bool) (command : FireCommand)
    → Written t
    → s.opened ≡ true
    → Consistent s
    → All (Bound s) c.bindings
    → Stored s (plan t c s now ready command)
plan-Stored t c s now ready command written open_now rows bound =
    let turned = Turned-Passes t written c s in
    plan_by_cases (Stored s) t c s now ready (λ (r : CommandResult). tt)
      (λ signal b current v.
        apply-Passes s (cursor_mutation current (with_cursor t signal now current)) current open_now
          (cursor-Passes t written c s now open_now rows bound signal b current v))
      (λ signal b current v h room name. apply-Passes s _ current open_now (
        turned b.bound_channel _ b.bound_topic signal current _
          (raised-Turned t written c s now open_now rows bound signal b current signal.detected v
            room name)
          (bound_topic_of t written c s now open_now rows bound signal b current v)))
      (λ signal channel alarm b current f g same active fresh room.
        apply-Passes s _ current open_now (
          turned channel alarm b.bound_topic signal current _
            (acknowledged-Turned t written c s now open_now rows bound channel alarm current g same
              active room)
            (topic_of t written c s now open_now rows bound channel b current f g)))
      (λ signal channel b current f g active room name. apply-Passes s _ current open_now (
        turned channel current.active_alarm_id b.bound_topic signal current _
          (cleared-Turned t written c s now open_now rows bound channel current g name room)
          (topic_of t written c s now open_now rows bound channel b current f g)))
      command
