-- ===== src/Fire/Decisions.antt =====
-- The cases in which the fire service makes a mutation.
use pi_server.Base.{
  ◌+◌, ℕ, Bool, true, false, Option, none, some, Bytes, bytes_eq, ◌==◌, is_empty, nat_beq, ◌≡◌,
  refl, inl, inr, Bool-cases,
}
use pi_server.Sensor.Sequence.{Decision, evaluate_sensor_sequence, accepted}
use pi_server.Fire.State.{
  Signal, AlarmState, max_fire_revision, is_active, same_lifecycle, acknowledged,
}
use pi_server.Fire.Outbox.{Mutation}
use pi_server.Fire.Checks.{same_bool}
use pi_server.Fire.Store.{Store, cursor_of, get_fire_alarm_state}
use pi_server.Fire.Service.{
  Binding, CommandResult, Config, Texts, find_by_sensor, find_by_channel, Plan, reply, mutate,
  transition_mutation,
}
use pi_server.Fire.Signals.{
  disagrees, retired_in, signal_fact, with_cursor, moves_cursor, raised_state, alarm_of,
  transition_plan, judged_plan, signal_plan, is_duplicate,
}
use pi_server.Fire.Process.{
  FireCommand, signalled, acknowledge, manual_clear, acknowledged_state, restored_plan,
  acknowledge_found, cleared_state, cleared_signal, clear_found, signal_bound, acknowledge_bound,
  clear_bound, plan,
}

abbrev pub cursor_mutation : AlarmState → AlarmState → Mutation
cursor_mutation current next = record {
  expected_revision = current.fire_revision;
  next_state = next;
  retained_delivery = none;
  lifecycle_delivery = none;
}

-- The policy's answer to a signal in a state.
abbrev pub judged : Store → Signal → AlarmState → Decision
judged s signal current =
    evaluate_sensor_sequence (cursor_of current (retired_in s signal)) (signal_fact signal)

-- A signal that the policy takes, of a channel that is there.
pub record Taken (c : Config) (s : Store) (signal : Signal) (b : Binding) (current : AlarmState)
    : Type 0 where
  pub by_sensor : find_by_sensor signal.signal_sensor c.bindings ≡ some b
  pub found : get_fire_alarm_state s b.bound_channel ≡ some current
  pub agrees : disagrees signal ≡ false
  pub accepts : accepted (judged s signal current) ≡ true

-- A predicate that holds of every reply and at each of the mutations holds of the plan.
module _ (P : Plan → Type 0) (t : Texts) (c : Config) (s : Store) (now : ℕ) (ready : Bool)
    (replies : (r : CommandResult) → P (reply r))
    (advances : (signal : Signal) (b : Binding) (current : AlarmState)
      → Taken c s signal b current
      → P (mutate (cursor_mutation current (with_cursor t signal now current)) false))
    (turns : (signal : Signal) (b : Binding) (current : AlarmState)
      → Taken c s signal b current
      → same_bool signal.detected (is_active current.desired_lifecycle) ≡ false
      → nat_beq current.fire_revision max_fire_revision ≡ false
      → is_empty (alarm_of current b.bound_channel (current.fire_revision + 1) signal.detected)
        ≡ false
      → P (
          mutate
            (transition_mutation t c b.bound_channel b.bound_topic signal
              (raised_state
                (with_cursor t signal now current)
                b.bound_channel
                (current.fire_revision + 1)
                signal.detected)
              current.fire_revision
              (alarm_of current b.bound_channel (current.fire_revision + 1) signal.detected))
            true))
    (acknowledges : (signal : Signal) (channel alarm : Bytes) (b : Binding) (current : AlarmState)
      → find_by_channel channel c.bindings ≡ some b
      → get_fire_alarm_state s channel ≡ some current
      → (current.active_alarm_id == alarm) ≡ true
      → is_active current.desired_lifecycle ≡ true
      → same_lifecycle current.desired_lifecycle acknowledged ≡ false
      → nat_beq current.fire_revision max_fire_revision ≡ false
      → P (
          mutate
            (transition_mutation t c channel b.bound_topic signal
              (acknowledged_state t now current channel)
              current.fire_revision
              alarm)
            true))
    (clears : (signal : Signal) (channel : Bytes) (b : Binding) (current : AlarmState)
      → find_by_channel channel c.bindings ≡ some b
      → get_fire_alarm_state s channel ≡ some current
      → is_active current.desired_lifecycle ≡ true
      → nat_beq current.fire_revision max_fire_revision ≡ false
      → is_empty current.active_alarm_id ≡ false
      → P (
          mutate
            (transition_mutation t c channel b.bound_topic signal
              (cleared_state t now current channel)
              current.fire_revision
              current.active_alarm_id)
            true)) where
  at_judged :
      (signal : Signal) (b : Binding) (current : AlarmState) (d : Decision)
      → (accepted d ≡ true → Taken c s signal b current)
      → P (judged_plan t c b signal now current d)
  unfolding judged_plan transition_plan
  at_judged signal b current d h =
      let next = with_cursor t signal now current in
      let n = current.fire_revision + 1 in
      elim (Bool-cases (is_duplicate d)) [
        | inl dup ↦ rw dup (replies _)
        | inr dup ↦ elim (Bool-cases (accepted d)) [
          | inr away ↦ rw (dup, away) (replies _)
          | inl taken ↦
              elim (Bool-cases (same_bool signal.detected (is_active current.desired_lifecycle))) [
                | inl same ↦ elim (Bool-cases (moves_cursor next current)) [
                  | inr still ↦ rw (dup, taken, same, still) (replies _)
                  | inl moved ↦ rw (dup, taken, same, moved) (advances signal b current (h taken))
                ]
                | inr turn ↦ elim (Bool-cases (nat_beq current.fire_revision max_fire_revision)) [
                  | inl full ↦ rw (dup, taken, turn, full) (replies _)
                  | inr room ↦
                      elim (Bool-cases
                        (is_empty (alarm_of current b.bound_channel n signal.detected))) [
                          | inl lost ↦ rw (dup, taken, turn, room, lost) (replies _)
                          | inr named ↦
                              rw (dup, taken, turn, room, named)
                                (turns signal b current (h taken) turn room named)
                        ]
                ]
              ]
        ]
      ]

  at_signal :
      (signal : Signal) (b : Binding) (o : Option AlarmState)
      → find_by_sensor signal.signal_sensor c.bindings ≡ some b
      → get_fire_alarm_state s b.bound_channel ≡ o
      → P (signal_plan t c s now b signal o)
  unfolding signal_plan
  at_signal signal b none f g = replies _
  at_signal signal b (some current) f g = elim (Bool-cases (disagrees signal)) [
    | inl t1 ↦ rw t1 (replies _)
    | inr t1 ↦ rw t1 (
        at_judged signal b current (judged s signal current)
          (λ taken. record { by_sensor = f; found = g; agrees = t1; accepts = taken }))
  ]

  at_acknowledge :
      (channel alarm : Bytes) (b : Binding) (o : Option AlarmState)
      → find_by_channel channel c.bindings ≡ some b
      → get_fire_alarm_state s channel ≡ o
      → P (acknowledge_found t c now ready b channel alarm o)
  unfolding acknowledge_found
  at_acknowledge channel alarm b none f g = replies _
  at_acknowledge channel alarm b (some current) f g =
      elim (Bool-cases (current.active_alarm_id == alarm)) [
        | inr t1 ↦ rw t1 (replies _)
        | inl t1 ↦ elim (Bool-cases (is_active current.desired_lifecycle)) [
          | inr t2 ↦ rw (t1, t2) (replies _)
          | inl t2 ↦ elim (Bool-cases ready) [
            | inr t3 ↦ rw (t1, t2, t3) (replies _)
            | inl t3 ↦ elim (Bool-cases (same_lifecycle current.desired_lifecycle acknowledged)) [
              | inl t4 ↦ rw (t1, t2, t3, t4) (replies _)
              | inr t4 ↦ elim (Bool-cases (nat_beq current.fire_revision max_fire_revision)) [
                | inl t5 ↦ rw (t1, t2, t3, t4, t5) (replies _)
                | inr t5 ↦
                    rw (t1, t2, t3, t4, t5)
                      (restored (t.deserialize_signal current.last_signal_json) t1 t2 t4 t5)
              ]
            ]
          ]
        ]
      ]
    where
      restored :
          (o : Option Signal)
          → (current.active_alarm_id == alarm) ≡ true
          → is_active current.desired_lifecycle ≡ true
          → same_lifecycle current.desired_lifecycle acknowledged ≡ false
          → nat_beq current.fire_revision max_fire_revision ≡ false
          → P (restored_plan t c now b channel alarm current o)
      restored none t1 t2 t4 t5 = replies _
      restored (some signal) t1 t2 t4 t5 =
          acknowledges (record signal { occurred_at = now }) channel alarm b current f g t1 t2 t4 t5

  at_clear :
      (channel : Bytes) (b : Binding) (o : Option AlarmState)
      → find_by_channel channel c.bindings ≡ some b
      → get_fire_alarm_state s channel ≡ o
      → P (clear_found t c now b channel o)
  unfolding clear_found
  at_clear channel b none f g = replies _
  at_clear channel b (some current) f g = elim (Bool-cases (is_active current.desired_lifecycle)) [
    | inr t1 ↦ rw t1 (replies _)
    | inl t1 ↦ elim (Bool-cases (nat_beq current.fire_revision max_fire_revision)) [
      | inl t2 ↦ rw (t1, t2) (replies _)
      | inr t2 ↦ elim (Bool-cases (is_empty current.active_alarm_id)) [
        | inl t3 ↦ rw (t1, t2, t3) (replies _)
        | inr t3 ↦
            rw (t1, t2, t3)
              (clears
                (cleared_signal now channel current (t.deserialize_signal current.last_signal_json))
                channel b current f g t1 t2 t3)
      ]
    ]
  ]

  at_signal_bound :
      (signal : Signal) (o : Option Binding)
      → find_by_sensor signal.signal_sensor c.bindings ≡ o
      → P (signal_bound t c s now signal o)
  at_signal_bound signal none f = replies _
  at_signal_bound signal (some b) f =
      at_signal signal b (get_fire_alarm_state s b.bound_channel) f refl

  at_acknowledge_bound :
      (channel alarm : Bytes) (o : Option Binding)
      → find_by_channel channel c.bindings ≡ o
      → P (acknowledge_bound t c s now ready channel alarm o)
  at_acknowledge_bound channel alarm none f = replies _
  at_acknowledge_bound channel alarm (some b) f = elim (Bool-cases (is_empty alarm)) [
    | inl t1 ↦ rw t1 (replies _)
    | inr t1 ↦ rw t1 (at_acknowledge channel alarm b (get_fire_alarm_state s channel) f refl)
  ]

  at_clear_bound :
      (channel : Bytes) (o : Option Binding)
      → find_by_channel channel c.bindings ≡ o
      → P (clear_bound t c s now channel o)
  at_clear_bound channel none f = replies _
  at_clear_bound channel (some b) f = at_clear channel b (get_fire_alarm_state s channel) f refl

  pub plan_by_cases : (command : FireCommand) → P (plan t c s now ready command)
  unfolding plan
  plan_by_cases (signalled signal) =
      at_signal_bound signal (find_by_sensor signal.signal_sensor c.bindings) refl
  plan_by_cases (acknowledge channel alarm) =
      at_acknowledge_bound channel alarm (find_by_channel channel c.bindings) refl
  plan_by_cases (manual_clear channel) =
      at_clear_bound channel (find_by_channel channel c.bindings) refl
