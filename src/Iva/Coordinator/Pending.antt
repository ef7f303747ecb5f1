-- ===== src/Iva/Coordinator/Pending.antt =====
-- An exit is confirmed only for a slot in which no area is active.
use pi_server.Base.{ℕ, ◌≡◌, List, [], ◌∷◌, Bytes, bytes_eq, AllEntries}
use pi_server.Iva.Aggregator.{Aggregator}
use pi_server.Iva.Aggregator.Vacancy.{IsValid}
use pi_server.Iva.Aggregator.Runs.{QuietAt}
use pi_server.Iva.Coordinator.{Signal, PendingExit, Coordinator, handle, take_due}

-- A pending exit is of its slot, which is quiet.
abbrev EntryOf : {T : Type 0} → Aggregator → Bytes → PendingExit T → Type 0
EntryOf a k p = (p.signal.slot_id ≡ k) × QuietAt a k

abbrev pub IsQuiet : {T : Type 0} → Coordinator T → Type 0
IsQuiet c = IsValid c.aggregator × AllEntries (EntryOf c.aggregator) c.pending_by_slot

-- What happens to a coordinator.
pub data Op (T : Type 0) : Type 0 where
  signalled : Signal T → ℕ → Op T
  polled : ℕ → Op T

unfoldable pub after : {T : Type 0} → Coordinator T → List (Op T) → Coordinator T
after c [] = c
after c (signalled s now ∷ ops) = after (handle c s now).0 ops
after c (polled now ∷ ops) = after (take_due c now).0 ops
