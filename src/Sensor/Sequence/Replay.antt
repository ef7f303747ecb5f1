-- ===== src/Sensor/Sequence/Replay.antt =====
-- What the policy is for: no fact of a sensor counts twice.
use pi_server.Base.{
  ℕ, ◌<◌, ◌≡◌, inl, inr, true, false, some, List, [], ◌∷◌, arith, Bytes, nat_eq, bytes_eq,
  bytes_beq_iff, ◌==◌, eq_refl, if◌then◌else◌, Option-cases, Option, leb, ◌&&◌, ◌||◌, Bool,
}
use pi_server.Sensor.Sequence.{
  boot_epoch_v2, State, Fact, accept, evaluate_sensor_sequence, commit_sensor_sequence, member,
  decision_cases, versioned, accepted,
}

-- The epoch in force is `b`, and its last number is at least `n`.
abbrev pub reached : Bytes → ℕ → Option Bytes → Option ℕ → Bool
reached b n (some a) (some last) = b == a && leb n last
reached b n _ _ = false

-- `b` had its turn up to number `n`: it is the epoch in force, or it is retired.
abbrev pub Spent : Bytes → ℕ → State → Type 0
Spent b n s =
    (s.mode ≡ versioned)
    × ((member b s.retired_boot_ids || reached b n s.active_boot_id s.last_sequence) ≡ true)

-- A SENSOR2 or FIRE2 frame.
abbrev pub versioned_fact : Bytes → ℕ → Fact
versioned_fact b n = record {
  protocol_version = boot_epoch_v2;
  boot_id = some b;
  sequence = some n;
}

commit-Spent :
    (s : State) (b : Bytes) (n : ℕ) → Spent b n (commit_sensor_sequence s (versioned_fact b n))
unfolding commit_sensor_sequence
commit-Spent s b n = ground (arith, eq_refl b)

accept_above :
    (s : State) (b : Bytes) (n m : ℕ)
    → Spent b n s
    → evaluate_sensor_sequence s (versioned_fact b m) ≡ accept
    → n < m
unfolding evaluate_sensor_sequence
accept_above s b n m h e = ground arith

-- Committing a fact that was accepted keeps it.
Spent-commit :
    (s : State) (f : Fact) (b : Bytes) (n : ℕ)
    → Spent b n s
    → evaluate_sensor_sequence s f ≡ accept
    → Spent b n (commit_sensor_sequence s f)
unfolding evaluate_sensor_sequence commit_sensor_sequence member
Spent-commit s f b n h e = elim (Option-cases s.active_boot_id) [
  | inl p ↦ ground arith
  | inr (a, p) ↦ elim (Option-cases f.boot_id) [
    | inl q ↦ ground arith
    | inr (c, q) ↦
        ground (arith, bytes_beq_iff a c, bytes_beq_iff c a, bytes_beq_iff b a, bytes_beq_iff b c)
  ]
]

-- The receiver: a fact is committed when it is accepted (`ParkingSensorSequenceGuard::accept`).
abbrev pub receive : State → Fact → State
receive s f = if accepted (evaluate_sensor_sequence s f) then commit_sensor_sequence s f else s

unfoldable pub receive_all : State → List Fact → State
receive_all s [] = s
receive_all s (f ∷ fs) = receive_all (receive s f) fs

Spent-receive : (s : State) (f : Fact) (b : Bytes) (n : ℕ) → Spent b n s → Spent b n (receive s f)
Spent-receive s f b n h = elim (decision_cases (evaluate_sensor_sequence s f)) [
  | inl e ↦ rw e (Spent-commit s f b n h e)
  | inr e ↦ rw e h
]

Spent-receive_all :
    (s : State) (fs : List Fact) (b : Bytes) (n : ℕ) → Spent b n s → Spent b n (receive_all s fs)
unfolding receive_all
Spent-receive_all s [] b n h = h
Spent-receive_all s (f ∷ fs) b n h =
    Spent-receive_all (receive s f) fs b n (Spent-receive s f b n h)

-- Once a frame with boot ID `b` and number `n` is committed, whatever frames of either protocol
-- follow, a later frame of the same boot ID is accepted only with a greater number: no frame is
-- accepted twice, and a boot ID that another one replaced never returns with an old number.
pub evaluate_sensor_sequence-no_replay :
    (s : State) (fs : List Fact) (b : Bytes) (n m : ℕ)
    → evaluate_sensor_sequence
        (receive_all (commit_sensor_sequence s (versioned_fact b n)) fs)
        (versioned_fact b m)
      ≡ accept
    → n < m
evaluate_sensor_sequence-no_replay s fs b n m =
    accept_above _ b n m (Spent-receive_all _ fs b n (commit-Spent s b n))
