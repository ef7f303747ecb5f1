-- ===== src/Parking/Gate/Due.antt =====
-- What a forwarded OCCUPIED says of the gate's pending entries.
use pi_server.Base.{subst, ◌≤◌, ◌≡◌, refl, false, Option, none, some, arith, bytes_eq, lookup}
use pi_server.Parking.Event.{SensorEvent, occupied}
use pi_server.Parking.Gate.{Gate, Pending, forward, evaluate, evaluate_state, evaluate_pending}

-- The gate holds an OCCUPIED of the slot whose time is up.
abbrev pub WasHeld : Gate → SensorEvent → Type 0
WasHeld g e =
    (p : Pending) × (lookup e.slot_id g.pending_by_slot ≡ some p)
    × (p.deadline ≤ e.received_monotonic)

evaluate_pending-WasHeld :
    (g : Gate) (e : SensorEvent) (o : Option Pending)
    → lookup e.slot_id g.pending_by_slot ≡ o
    → (evaluate_pending g e o).1 ≡ forward
    → WasHeld g e
unfolding evaluate_pending
evaluate_pending-WasHeld g e none f h = cc
evaluate_pending-WasHeld g e (some p) f h = (p, f, ground arith)

-- An OCCUPIED of a slot not occupied is forwarded only if the gate holds one whose time is up.
pub evaluate-WasHeld :
    (g : Gate) (e : SensorEvent)
    → e.state ≡ occupied
    → (evaluate g e false).1 ≡ forward
    → WasHeld g e
unfolding evaluate evaluate_state
evaluate-WasHeld g e s h =
    evaluate_pending-WasHeld g e (lookup e.slot_id g.pending_by_slot) refl
      (subst (λ st. (evaluate_state st g e false).1 ≡ forward) s h)
