-- ===== src/Parking/Worker/Path.antt =====
-- The whole path of an event: guard, gate, slots, and the index of active sessions as a sink.
use pi_server.Base.{
  ℕ, ◌≡◌, refl, subst, inl, inr, Bool, true, false, Option, none, some, List, [], ◌∷◌, arith, Bytes,
  bytes_eq, Option-cases, Map,
}
use pi_server.Parking.Event.{SensorEvent}
use pi_server.Parking.SequenceGuard.{SequenceGuard, accept}
use pi_server.Parking.Gate.{Gate}
use pi_server.Parking.ActiveIndex.{ActiveIndex, apply}
use pi_server.Parking.Slots.{
  SlotConfig, Slot, TransitionResult, SlotManager, init as slots_init, handle, find_slot,
}
use pi_server.Parking.Slots.Lifecycle.{IsValid, Good, handle-Good, session_at}
use pi_server.Parking.Slots.Runs.{init-IsValid}
use pi_server.Parking.Slots.Mirror.{Mirrors, Mirrored, handle-Mirrors, init-Mirrors}
use pi_server.Parking.Worker.{
  Worker, init, made, add_sink, notify, pass_gate, finish, gated, guarded, on_sensor_event,
}

abbrev Outcome : Type 0
Outcome = Option (Worker ActiveIndex × (ActiveIndex × Option TransitionResult))

-- A worker whose one sink is the index, with valid slots that the index mirrors.
abbrev pub Consistent : Worker ActiveIndex → ActiveIndex → Type 0
Consistent w ix = (w.sinks ≡ apply ∷ []) × IsValid w.slot_manager × Mirrors w.slot_manager ix

abbrev Continues : Outcome → Type 0
Continues none = ⊥
Continues (some (w, (ix, r))) = Consistent w ix

finish-Continues :
    (w : Worker ActiveIndex) (ix : ActiveIndex) (k : Bytes)
    (o : Option (SlotManager × TransitionResult))
    → w.sinks ≡ apply ∷ []
    → Good k (session_at w.slot_manager k) o
    → Mirrored ix o
    → Continues (finish w ix o)
unfolding finish notify
finish-Continues w ix k none s g q = g
finish-Continues w ix k (some (m, r)) s g q = rw s (refl, g.0, q)

gated-Continues :
    (w : Worker ActiveIndex) (ix : ActiveIndex) (e : SensorEvent) (p : Option Gate × Bool)
    → Consistent w ix
    → Continues (gated w ix e p)
unfolding gated
gated-Continues w ix e (g, false) c = c
gated-Continues w ix e (g, true) c =
    finish-Continues (record w { confirmation_gate = g }) ix e.slot_id (handle w.slot_manager e) c.0
      (handle-Good w.slot_manager e c.1) (handle-Mirrors w.slot_manager ix e c.1 c.2)

guarded-Continues :
    (w : Worker ActiveIndex) (ix : ActiveIndex) (e : SensorEvent) (p : SequenceGuard × Bool)
    → Consistent w ix
    → Continues (guarded w ix e p)
unfolding guarded
guarded-Continues w ix e (guard, false) c = c
guarded-Continues w ix e (guard, true) c =
    gated-Continues (record w { sequence_guard = guard }) ix e
      (pass_gate w.confirmation_gate e (find_slot w.slot_manager e.slot_id)) c

on_sensor_event-Continues :
    (w : Worker ActiveIndex) (ix : ActiveIndex) (e : SensorEvent)
    → Consistent w ix
    → Continues (on_sensor_event w ix e)
unfolding on_sensor_event
on_sensor_event-Continues w ix e c = guarded-Continues w ix e (accept w.sequence_guard e) c

abbrev then_run :
    Outcome
    → (Worker ActiveIndex → ActiveIndex → Option (Worker ActiveIndex × ActiveIndex))
    → Option (Worker ActiveIndex × ActiveIndex)
then_run none k = none
then_run (some (w, (ix, r))) k = k w ix

-- Events one after the other; `none` if one of them throws.
unfoldable pub run :
    Worker ActiveIndex → ActiveIndex → List SensorEvent → Option (Worker ActiveIndex × ActiveIndex)
run w ix [] = some (w, ix)
run w ix (e ∷ es) = then_run (on_sensor_event w ix e) (λ w' ix'. run w' ix' es)

run-Consistent :
    (w : Worker ActiveIndex) (ix : ActiveIndex) (es : List SensorEvent)
    → Consistent w ix
    → (x : Worker ActiveIndex × ActiveIndex) × (run w ix es ≡ some x) × Consistent x.0 x.1
unfolding run
run-Consistent w ix [] c = ((w, ix), refl, c)
run-Consistent w ix (e ∷ es) c = elim (Option-cases (on_sensor_event w ix e)) [
  | inl t ↦ absurd (subst Continues t (on_sensor_event-Continues w ix e c))
  | inr (done, t) ↦
      rw t
        (run-Consistent done.0 done.1.0 es (subst Continues t (on_sensor_event-Continues w ix e c)))
]

made-Consistent :
    (configs : List SlotConfig) (o : Option (Map Bytes Slot)) (t n : ℕ) (w : Worker ActiveIndex)
    → slots_init configs ≡ o
    → made o t n ≡ some w
    → Consistent (add_sink w (some apply)) []
unfolding made add_sink
made-Consistent configs none t n w h f = cc
made-Consistent configs (some slots) t n w h f =
    let sinks : w.sinks ≡ [] = ground arith in
    let manager : record { slots = slots; session_sequence = n } ≡ w.slot_manager = ground arith in
    (
      rw sinks refl,
      subst IsValid manager (init-IsValid configs slots n h),
      subst (λ m. Mirrors m []) manager (init-Mirrors configs slots n h),
    )

-- A worker that the constructor makes, with the index as its sink, takes any events with no
-- exception, whatever the gate's threshold, and in the end the index holds for each slot the id of
-- the slot's session, and nothing for a slot with no session.
pub init-run :
    (configs : List SlotConfig) (t n : ℕ) (w : Worker ActiveIndex) (es : List SensorEvent)
    → init configs t n ≡ some w
    → (x : Worker ActiveIndex × ActiveIndex) × (run (add_sink w (some apply)) [] es ≡ some x)
      × IsValid x.0.slot_manager
      × Mirrors x.0.slot_manager x.1
unfolding init
init-run configs t n w es h =
    let (x, done, c) =
      run-Consistent (add_sink w (some apply)) [] es
        (made-Consistent configs (slots_init configs) t n w refl h) in
    (x, done, c.1, c.2)
