-- ===== src/Fire/Runs.antt =====
-- The fire service through any commands: the store stays consistent.
use pi_server.Base.{
  ℕ, ◌≡◌, refl, sym, ap, ◌∙◌, subst, Bool, true, false, not, ◌&&◌, inl, inr, some, List, [], ◌∷◌,
  Bytes, bytes_eq, bytes_beq_iff, ◌==◌, lookup, insert, lookup-insert, Bool-cases, All, All-mono,
}
use pi_server.Fire.State.{AlarmState, Signal}
use pi_server.Fire.Outbox.{Mutation}
use pi_server.Fire.Store.{Store, updated_state, deliver, apply_fire_state_mutation}
use pi_server.Fire.Service.{Texts, Config, Binding, CommandResult, Plan, reply, mutate}
use pi_server.Fire.Signals.{with_cursor}
use pi_server.Fire.Process.{FireCommand, plan, process, carry_out}
use pi_server.Fire.Decisions.{plan_by_cases, Taken, cursor_mutation}
use pi_server.Fire.Alarms.{get-lookup}
use pi_server.Fire.Applied.{apply-Written, Written as Applied}
use pi_server.Fire.Consistent.{Written, Rowed, Bound}
use pi_server.Fire.Stored.{
  Consistent, Stored, plan-Stored, raised-Turned, topic_of, bound_topic_of, acknowledged-Turned,
  cleared-Turned,
}
use pi_server.Fire.Rows.{Leaves, Turned-Leaves}

-- A store that is open, has the rows of its states, and is bound as configured.
pub record IsReady (c : Config) (s : Store) : Type 0 where
  pub opened_now : s.opened ≡ true
  pub rows : Consistent s
  pub bound : All (Bound s) c.bindings

module _ (t : Texts) (written : Written t) (c : Config) (s : Store) (now : ℕ)
    (v : IsReady c s) where
  cursor-Leaves :
      (signal : Signal) (b : Binding) (current : AlarmState)
      → Taken c s signal b current
      → Leaves s (mutate (cursor_mutation current (with_cursor t signal now current)) false)
  cursor-Leaves signal b current w =
      let r = v.rows b.bound_channel current (get-lookup s b.bound_channel current w.found) in
      (
        b.bound_channel,
        current,
        get-lookup s b.bound_channel current w.found,
        r.own.0,
        λ rows e.
            let same : s.outbox ≡ rows = cc in
            subst
              (λ rs.
                Rowed rs b.bound_channel (updated_state current (with_cursor t signal now current))
                × ((k : Bytes) (a : AlarmState)
                    → (b.bound_channel == k) ≡ false
                    → Rowed s.outbox k a
                    → Rowed rs k a))
              same
              (
                record {
                  own = r.own;
                  channel_named = r.channel_named;
                  sensor_named = r.sensor_named;
                  topic_named = r.topic_named;
                  event_named = r.event_named;
                  signal_named = written.signals signal;
                  update_named = written.times now;
                  fits = r.fits;
                  retained = r.retained;
                  unsent = r.unsent;
                },
                λ k a other h. h,
              ),
      )

  plan-Leaves : (ready : Bool) (command : FireCommand) → Leaves s (plan t c s now ready command)
  plan-Leaves ready command =
      plan_by_cases (Leaves s) t c s now ready (λ (r : CommandResult). tt) cursor-Leaves
        (λ signal b current w h room name.
          Turned-Leaves t written c s b.bound_channel _ b.bound_topic signal current _
            (raised-Turned t written c s now v.opened_now v.rows v.bound signal b current
              signal.detected w room name)
            (bound_topic_of t written c s now v.opened_now v.rows v.bound signal b current w))
        (λ signal channel alarm b current f g same active fresh room.
          Turned-Leaves t written c s channel alarm b.bound_topic signal current _
            (acknowledged-Turned t written c s now v.opened_now v.rows v.bound channel alarm current
              g same active room)
            (topic_of t written c s now v.opened_now v.rows v.bound channel b current f g))
        (λ signal channel b current f g active room name.
          Turned-Leaves t written c s channel current.active_alarm_id b.bound_topic signal current _
            (cleared-Turned t written c s now v.opened_now v.rows v.bound channel current g name
              room)
            (topic_of t written c s now v.opened_now v.rows v.bound channel b current f g))
        command

-- Nothing of the store but the retired boot IDs has changed.
IsReady-same :
    (c : Config) (s after : Store)
    → after.states ≡ s.states
    → after.outbox ≡ s.outbox
    → after.opened ≡ s.opened
    → IsReady c s
    → IsReady c after
IsReady-same c s after h1 h2 h3 v = record {
  opened_now = h3 ∙ v.opened_now;
  rows = λ channel a f.
      subst (λ o. Rowed o channel a) (sym h2) (v.rows channel a (ap (lookup channel) (sym h1) ∙ f));
  bound =
      All-mono (Bound s) (Bound after) c.bindings
        (λ b w a f. w a (ap (lookup b.bound_channel) (sym h1) ∙ f)) v.bound;
}

-- The states after a mutation of the state of one channel.
IsReady-Applied :
    (c : Config) (s : Store) (m : Mutation) (after : Store)
    → IsReady c s
    → Leaves s (mutate m true)
    → Applied s m after
    → IsReady c after
IsReady-Applied c s m after v w (inl (h1, h2, h3)) = IsReady-same c s after h1 h2 h3 v
IsReady-Applied c s m after v (channel, current, f, here, left)
      (inr (found, g, states, sent, opened_same)) =
    let at_channel : lookup m.next_state.channel_id s.states ≡ some current =
      ap (λ k. lookup k s.states) here ∙ f in
    let one : found ≡ current = cc in
    let new = updated_state current m.next_state in
    let changed : after.states ≡ insert channel new s.states =
      states
      ∙ ap (λ a. insert m.next_state.channel_id (updated_state a m.next_state) s.states) one
      ∙ ap (λ k. insert k new s.states) here in
    let (own, others) = left after.outbox (
      subst (λ k. deliver s.outbox k m.retained_delivery m.lifecycle_delivery ≡ some after.outbox)
        here sent) in
    let at : (k : Bytes) → lookup k after.states ≡ lookup k (insert channel new s.states) =
      λ (k : Bytes). ap (lookup k) changed in
    record {
      opened_now = opened_same ∙ v.opened_now;
      rows = λ k a h. elim (Bool-cases (channel == k)) [
        | inl t1 ↦
            let name : channel ≡ k = (bytes_beq_iff channel k).0 t1 in
            let same : new ≡ a = found_there k a (sym (at k) ∙ h) t1 in
            subst (λ x. Rowed after.outbox x a) name (subst (Rowed after.outbox channel) same own)
        | inr t1 ↦
            others k a t1
              (v.rows k a (rw (lookup-insert channel k new s.states, t1) at (sym (at k) ∙ h)))
      ];
      bound =
          All-mono (Bound s) (Bound after) c.bindings
            (λ b w a h. elim (Bool-cases (channel == b.bound_channel)) [
              | inr t1 ↦ w a (
                  rw (lookup-insert channel b.bound_channel new s.states, t1) at
                    (sym (at b.bound_channel) ∙ h))
              | inl t1 ↦
                  let name : channel ≡ b.bound_channel =
                    (bytes_beq_iff channel b.bound_channel).0 t1 in
                  let same : new ≡ a =
                    found_there b.bound_channel a (sym (at b.bound_channel) ∙ h) t1 in
                  subst (λ x. (x.sensor_id ≡ b.bound_sensor) × (x.retained_topic ≡ b.bound_topic))
                    same (w current (ap (λ k. lookup k s.states) (sym name) ∙ f))
            ])
            v.bound;
    }
  where
    found_there :
        (k : Bytes) (a : AlarmState)
        → lookup k (insert channel (updated_state current m.next_state) s.states) ≡ some a
        → (channel == k) ≡ true
        → updated_state current m.next_state ≡ a
    found_there k a h t1 =
        let there : some (updated_state current m.next_state) ≡ some a =
          sym (rw (lookup-insert channel k (updated_state current m.next_state) s.states, t1) refl)
          ∙ h in
        cc

carry_out-IsReady :
    (c : Config) (s : Store) (begins : Bool) (p : Plan)
    → IsReady c s
    → Leaves s p
    → IsReady c (carry_out s begins p).0
unfolding carry_out
carry_out-IsReady c s begins (reply r) v w = v
carry_out-IsReady c s begins (mutate m within) v w = elim (Bool-cases (within && not begins)) [
  | inl t1 ↦ rw t1 v
  | inr t1 ↦ rw t1 (IsReady-Applied c s m (apply_fire_state_mutation s m).0 v w (apply-Written s m))
]

-- A command with its time, and with what the readiness of an acknowledgement and of the boundary answer.
pub record Call : Type 0 where
  pub command : FireCommand
  pub now : ℕ
  pub ready : Bool
  pub begins : Bool

module _ (t : Texts) (c : Config) where
  unfoldable pub run : Store → List Call → Store
  run s [] = s
  run s (call ∷ calls) = run (process t c s call.now call.ready call.begins call.command).0 calls

  unfoldable pub AllStored : Store → List Call → Type 0
  AllStored s [] = Unit
  AllStored s (call ∷ calls) =
      Stored s (plan t c s call.now call.ready call.command)
      × AllStored (process t c s call.now call.ready call.begins call.command).0 calls

-- From a consistent store that is open and bound as configured, through any commands: every mutation that
-- the service decides on is committed by the database, or found to be there already, so that none is
-- refused, and the store stays consistent, open and bound.
pub run-AllStored :
    (t : Texts) (c : Config) (s : Store) (calls : List Call)
    → Written t
    → IsReady c s
    → AllStored t c s calls × IsReady c (run t c s calls)
unfolding run AllStored
run-AllStored t c s [] written v = (tt, v)
run-AllStored t c s (call ∷ calls) written v =
    let after = (process t c s call.now call.ready call.begins call.command).0 in
    let v' : IsReady c after =
      unfold process in
      carry_out-IsReady c s call.begins (plan t c s call.now call.ready call.command) v
        (plan-Leaves t written c s call.now v call.ready call.command) in
    let (later, last) = run-AllStored t c after calls written v' in
    (
      (
        plan-Stored t c s call.now call.ready call.command written v.opened_now v.rows v.bound,
        later,
      ),
      last,
    )
