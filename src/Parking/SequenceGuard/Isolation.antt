-- ===== src/Parking/SequenceGuard/Isolation.antt =====
-- The guard decides for each sensor as if it were the only one.
use pi_server.Base.{
  ◌≡◌, inl, inr, refl, List, [], ◌∷◌, arith, Bytes, bytes_eq, bytes_beq_iff, lookup, lookup-insert,
  ◌==◌, if◌then◌else◌, Bool-cases, ap, ◌∙◌,
}
use pi_server.Sensor.Sequence.{State, commit_sensor_sequence, Fact}
use pi_server.Sensor.Sequence.Replay.{receive, receive_all}
use pi_server.Parking.Event.{SensorEvent}
use pi_server.Parking.SequenceGuard.{SequenceGuard, fact_of, or_initial, accept}

-- The state that the guard keeps for a sensor.
abbrev pub state_of : Bytes → SequenceGuard → State
state_of k g = or_initial (lookup k g)

-- An event moves the state of its own sensor by the policy and leaves every other alone.
state_of-accept :
    (k : Bytes) (g : SequenceGuard) (e : SensorEvent)
    → state_of k (accept g e).0
      ≡ (if e.sensor_id == k then receive (state_of k g) (fact_of e) else state_of k g)
unfolding accept
state_of-accept k g e = elim (Bool-cases (e.sensor_id == k)) [
  | inl t ↦ ground (
    arith,
    bytes_beq_iff e.sensor_id k,
    lookup-insert e.sensor_id k (state_of e.sensor_id g) g,
    lookup-insert e.sensor_id k (commit_sensor_sequence (state_of e.sensor_id g) (fact_of e)) g,
  )
  | inr t ↦ ground (
    arith,
    lookup-insert e.sensor_id k (state_of e.sensor_id g) g,
    lookup-insert e.sensor_id k (commit_sensor_sequence (state_of e.sensor_id g) (fact_of e)) g,
  )
]

unfoldable pub accept_all : SequenceGuard → List SensorEvent → SequenceGuard
accept_all g [] = g
accept_all g (e ∷ es) = accept_all (accept g e).0 es

-- The facts that one sensor sent.
unfoldable pub facts_of : Bytes → List SensorEvent → List Fact
facts_of k [] = []
facts_of k (e ∷ es) = if e.sensor_id == k then fact_of e ∷ facts_of k es else facts_of k es

-- After any events of any sensors, the guard's state for a sensor is the one that the policy reaches
-- on the facts of that sensor alone.
pub state_of-accept_all :
    (k : Bytes) (g : SequenceGuard) (es : List SensorEvent)
    → state_of k (accept_all g es) ≡ receive_all (state_of k g) (facts_of k es)
unfolding accept_all facts_of receive_all
state_of-accept_all k g [] = refl
state_of-accept_all k g (e ∷ es) = elim (Bool-cases (e.sensor_id == k)) [
  | inl t ↦
      rw (facts_of, t)
        (state_of-accept_all k (accept g e).0 es
          ∙ ap (λ s. receive_all s (facts_of k es)) (rw (state_of-accept k g e, t)))
  | inr t ↦
      rw (facts_of, t)
        (state_of-accept_all k (accept g e).0 es
          ∙ ap (λ s. receive_all s (facts_of k es)) (rw (state_of-accept k g e, t)))
]
