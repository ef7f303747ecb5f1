-- ===== src/Fire/Alarms.antt =====
-- The life cycle of an alarm: raised, acknowledged and cleared, one revision each.
use pi_server.Fire.Applied.{Written, apply-Written}
use pi_server.Base.{
  ℕ, ◌+◌, Bool, true, false, not, ◌&&◌, none, some, [], Bytes, bytes_eq, bytes_beq_iff, ◌==◌,
  is_empty, ◌≡◌, refl, sym, ap, ◌∙◌, subst, ◌⊎◌, inl, inr, Bool-cases, arith, lookup, insert,
  lookup-insert, AllEntries, AllEntries-insert, AllEntries-lookup,
}
use pi_server.Fire.State.{
  Lifecycle, opened_alarm, acknowledged, resolved, Signal, AlarmState, is_active, same_lifecycle,
}
use pi_server.Fire.Outbox.{Mutation}
use pi_server.Fire.Checks.{same_bool}
use pi_server.Fire.Store.{Store, get_fire_alarm_state, apply_fire_state_mutation, updated_state}
use pi_server.Fire.Service.{
  transition_mutation, CommandResult, Config, Texts, Plan, reply, mutate, fire_alarm_id,
}
use pi_server.Fire.Signals.{with_cursor, raised_state}
use pi_server.Fire.Process.{FireCommand, carry_out, process, plan}
use pi_server.Fire.Decisions.{plan_by_cases}

-- A raised alarm has a name, and a resolved one has none.
abbrev pub AlarmFits : Lifecycle → Bytes → Type 0
AlarmFits resolved alarm = alarm ≡ []
AlarmFits _ alarm = is_empty alarm ≡ false

abbrev pub Kept : Bytes → AlarmState → Type 0
Kept channel state =
    (state.channel_id ≡ channel) × AlarmFits state.desired_lifecycle state.active_alarm_id

pub data Edge : Lifecycle → Lifecycle → Type 0 where
  raises : Edge resolved opened_alarm
  acks : Edge opened_alarm acknowledged
  clears_opened : Edge opened_alarm resolved
  clears_acknowledged : Edge acknowledged resolved

-- The alarm's name after a transition.
abbrev pub Names : AlarmState → AlarmState → Lifecycle → Type 0
Names old new opened_alarm = new.active_alarm_id ≡ fire_alarm_id old.channel_id new.fire_revision
Names old new acknowledged = new.active_alarm_id ≡ old.active_alarm_id
Names old new resolved = new.active_alarm_id ≡ []

-- Nothing of the alarm changes, or it takes one step and counts the revision up by one.
abbrev pub Moves : AlarmState → AlarmState → Type 0
Moves old new =
    ((new.desired_lifecycle ≡ old.desired_lifecycle)
      × (new.active_alarm_id ≡ old.active_alarm_id)
      × (new.fire_revision ≡ old.fire_revision))
    ⊎ (Edge old.desired_lifecycle new.desired_lifecycle
        × (new.fire_revision ≡ old.fire_revision + 1)
        × Names old new new.desired_lifecycle)

abbrev stays : (a : AlarmState) → Moves a a
stays a = inl (refl, refl, refl)

pub get-lookup :
    (s : Store) (channel : Bytes) (a : AlarmState)
    → get_fire_alarm_state s channel ≡ some a
    → lookup channel s.states ≡ some a
unfolding get_fire_alarm_state
get-lookup s channel a h = ground arith

-- A mutation of a state that is there moves its alarm by at most one step.
abbrev Sound : Store → Mutation → Type 0
Sound s m =
    (channel : Bytes) × (current : AlarmState) × (lookup channel s.states ≡ some current)
    × (m.next_state.channel_id ≡ channel)
    × Moves current (updated_state current m.next_state)
    × AlarmFits m.next_state.desired_lifecycle m.next_state.active_alarm_id

abbrev SoundPlan : Store → Plan → Type 0
SoundPlan s (reply r) = Unit
SoundPlan s (mutate m b) = Sound s m

Edge-opened_alarm :
    (lifecycle : Lifecycle) → is_active lifecycle ≡ false → Edge lifecycle opened_alarm
Edge-opened_alarm opened_alarm h = cc
Edge-opened_alarm acknowledged h = cc
Edge-opened_alarm resolved h = raises

Edge-resolved : (lifecycle : Lifecycle) → is_active lifecycle ≡ true → Edge lifecycle resolved
Edge-resolved opened_alarm h = clears_opened
Edge-resolved acknowledged h = clears_acknowledged
Edge-resolved resolved h = cc

Edge-acknowledged :
    (lifecycle : Lifecycle)
    → is_active lifecycle ≡ true
    → same_lifecycle lifecycle acknowledged ≡ false
    → Edge lifecycle acknowledged
Edge-acknowledged opened_alarm h g = acks
Edge-acknowledged acknowledged h g = cc
Edge-acknowledged resolved h g = cc

pub named :
    (lifecycle : Lifecycle) (alarm : Bytes)
    → is_active lifecycle ≡ true
    → AlarmFits lifecycle alarm
    → is_empty alarm ≡ false
named opened_alarm alarm h f = f
named acknowledged alarm h f = f
named resolved alarm h f = cc

module _ (t : Texts) (c : Config) (s : Store) (now : ℕ) (kept : AllEntries Kept s.states) where
  Kept-found :
      (channel : Bytes) (a : AlarmState) → get_fire_alarm_state s channel ≡ some a → Kept channel a
  Kept-found channel a g =
      let (j, t1, own) =
        AllEntries-lookup Kept channel a s.states kept (get-lookup s channel a g) in
      subst (λ k. Kept k a) ((bytes_beq_iff j channel).0 t1) own

  turn-Sound :
      (signal : Signal) (channel : Bytes) (current : AlarmState) (d : Bool)
      → get_fire_alarm_state s channel ≡ some current
      → same_bool d (is_active current.desired_lifecycle) ≡ false
      → Sound s (record {
        expected_revision = current.fire_revision;
        next_state =
            raised_state (with_cursor t signal now current) channel (current.fire_revision + 1) d;
        retained_delivery = none;
        lifecycle_delivery = none;
      })
  turn-Sound signal channel current true g h =
      let own = Kept-found channel current g in
      (
        channel,
        current,
        get-lookup s channel current g,
        own.0,
        inr (
          Edge-opened_alarm current.desired_lifecycle h,
          refl,
          ap (λ k. fire_alarm_id k (current.fire_revision + 1)) (sym own.0),
        ),
        refl,
      )
  turn-Sound signal channel current false g h =
      let own = Kept-found channel current g in
      (
        channel,
        current,
        get-lookup s channel current g,
        own.0,
        inr (Edge-resolved current.desired_lifecycle (ground arith), refl, refl),
        refl,
      )

  plan-Sound : (ready : Bool) (command : FireCommand) → SoundPlan s (plan t c s now ready command)
  unfolding transition_mutation
  plan-Sound ready command =
      plan_by_cases (SoundPlan s) t c s now ready (λ (r : CommandResult). tt)
        (λ signal b current v.
          let own = Kept-found b.bound_channel current v.found in
          (
            b.bound_channel,
            current,
            get-lookup s b.bound_channel current v.found,
            own.0,
            inl (refl, refl, refl),
            own.1,
          ))
        (λ signal b current v h room name.
          turn-Sound signal b.bound_channel current signal.detected v.found h)
        (λ signal channel alarm b current f g same active fresh room.
          let own = Kept-found channel current g in
          (
            channel,
            current,
            get-lookup s channel current g,
            own.0,
            inr (Edge-acknowledged current.desired_lifecycle active fresh, refl, refl),
            named current.desired_lifecycle current.active_alarm_id active own.1,
          ))
        (λ signal channel b current f g active room name.
          let own = Kept-found channel current g in
          (
            channel,
            current,
            get-lookup s channel current g,
            own.0,
            inr (Edge-resolved current.desired_lifecycle active, refl, refl),
            refl,
          ))
        command

-- The states of a store after the mutation of one, which moves soundly.
abbrev Follows : Store → Store → Type 0
Follows s after =
    AllEntries Kept after.states
    × ((channel : Bytes) (old : AlarmState)
        → lookup channel s.states ≡ some old
        → (new : AlarmState) × (lookup channel after.states ≡ some new) × Moves old new)

Follows-same :
    (s after : Store) → after.states ≡ s.states → AllEntries Kept s.states → Follows s after
Follows-same s after same kept = (
  subst (AllEntries Kept) (sym same) kept,
  λ channel old f. (old, ap (lookup channel) same ∙ f, stays old),
)

Written-Follows :
    (s : Store) (m : Mutation) (after : Store)
    → AllEntries Kept s.states
    → Sound s m
    → Written s m after
    → Follows s after
Written-Follows s m after kept sound (inl (same, rows, opened_same)) =
    Follows-same s after same kept
Written-Follows s m after kept (channel, current, f, here, moves, fits)
      (inr (found, g, same, rows, opened_same)) =
    let found_here : lookup m.next_state.channel_id s.states ≡ some current =
      ap (λ k. lookup k s.states) here ∙ f in
    let one : found ≡ current = cc in
    let new = updated_state current m.next_state in
    let states : after.states ≡ insert m.next_state.channel_id new s.states =
      same ∙ ap (λ a. insert m.next_state.channel_id (updated_state a m.next_state) s.states) one in
    let (j, t1, own) =
      AllEntries-lookup Kept m.next_state.channel_id current s.states kept found_here in
    let name : current.channel_id ≡ m.next_state.channel_id =
      own.0 ∙ (bytes_beq_iff j m.next_state.channel_id).0 t1 in
    (
      subst (AllEntries Kept) (sym states)
          (AllEntries-insert Kept m.next_state.channel_id new s.states (name, fits) kept),
      λ k old h. elim (Bool-cases (m.next_state.channel_id == k)) [
        | inr t2 ↦ (
          old,
          ap (lookup k) states ∙ rw (lookup-insert m.next_state.channel_id k new s.states, t2) h,
          stays old,
        )
        | inl t2 ↦
            let at : m.next_state.channel_id ≡ k = (bytes_beq_iff m.next_state.channel_id k).0 t2 in
            let old_here : current ≡ old = cc in
            (
              new,
              ap (lookup k) states
                  ∙ rw (lookup-insert m.next_state.channel_id k new s.states, t2) refl,
              subst (λ a. Moves a new) old_here moves,
            )
      ],
    )

carry_out-Follows :
    (s : Store) (begins : Bool) (p : Plan)
    → AllEntries Kept s.states
    → SoundPlan s p
    → Follows s (carry_out s begins p).0
unfolding carry_out
carry_out-Follows s begins (reply r) kept sound = Follows-same s s refl kept
carry_out-Follows s begins (mutate m within) kept sound = elim (Bool-cases (within && not begins)) [
  | inl t1 ↦ rw t1 (Follows-same s s refl kept)
  | inr t1 ↦
      rw t1 (Written-Follows s m (apply_fire_state_mutation s m).0 kept sound (apply-Written s m))
]

-- A command, whatever it is and however it is answered, moves the alarm of each channel by at most one
-- step: raised, acknowledged, cleared, with the revision counted up by one and the name that the step
-- gives. Of a store whose raised alarms have names and whose resolved ones have none, it leaves such a
-- one.
pub process-Moves :
    (t : Texts) (c : Config) (s : Store) (now : ℕ) (ready begins : Bool) (command : FireCommand)
    → AllEntries Kept s.states
    → AllEntries Kept (process t c s now ready begins command).0.states
      × ((channel : Bytes) (old : AlarmState)
          → lookup channel s.states ≡ some old
          → (new : AlarmState) × (lookup channel (process t c s now ready begins command).0.states
              ≡ some new)
            × Moves old new)
unfolding process
process-Moves t c s now ready begins command kept =
    carry_out-Follows s begins (plan t c s now ready command) kept
      (plan-Sound t c s now kept ready command)
