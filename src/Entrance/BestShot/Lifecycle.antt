-- ===== src/Entrance/BestShot/Lifecycle.antt =====
-- The states of an entrance object follow its life cycle.
use pi_server.Base.{
  pos_part, false, lookup-map_values, ◌-◌, map_values-Distinct, leb, map_values, on_some, ◌≤◌,
  length, ℕ, ◌≡◌, refl, true, inl, inr, Option, none, some, arith, lookup, Distinct,
  lookup-take_where, unless, Bool-cases,
}
use pi_server.Entrance.Types.{
  vehicle, plate, ObjectState, completed, failed, duplicate, finalizing, ObjectKey, key_eq,
}
use pi_server.Entrance.BestShot.{
  is_complete, fresh_entry, BestShotEvent, times_out, time_out, observe, BestShotKind, seen_again,
  observe_current, sweep, state_at, observe_kind, observe_found, is_active, Entry, BestShots,
  is_expired, erase_expired_terminal, state_of, may_fail,
}
use pi_server.Entrance.BestShot.Bounds.{observed, bound, swept, moved, Op, IsValid, step}
use pi_server.Entrance.BestShot.Moves.{
  Moves, kept-Moves, unless-Moves, erase_expired_terminal-Moves, move-Moves, bind_event_id-Moves,
  Stays, Moves-after, insert-Stays, failing,
}

observe_found-Stays :
    (s : BestShots) (key j : ObjectKey) (now : ℕ) (o : Option Entry)
    → lookup key s.entries ≡ o
    → Stays
        (state_of (lookup j s.entries))
        (state_of (lookup j (observe_found s key now o).0.entries))
unfolding observe_found
observe_found-Stays s key j now (some e) f =
    insert-Stays s.entries key j (seen_again now e) (rw f (inl refl))
observe_found-Stays s key j now none f = elim (Bool-cases (leb s.capacity (length s.entries))) [
  | inl t ↦ rw t (inl refl)
  | inr t ↦ rw t (insert-Stays s.entries key j (fresh_entry now) (rw f (inr (refl, refl))))
]

observe-Moves :
    (k : BestShotKind) (s : BestShots) (e : BestShotEvent) (j : ObjectKey)
    → Distinct s.entries
    → Moves (state_of (lookup j s.entries)) (state_of (lookup j (observe_kind k s e).0.entries))
unfolding observe_kind observe_current
observe-Moves vehicle s e j d = kept-Moves (state_of (lookup j s.entries))
observe-Moves plate s e j d = elim (Bool-cases (is_complete e)) [
  | inr t ↦ rw t (kept-Moves (state_of (lookup j s.entries)))
  | inl t ↦
      let now = pos_part e.received_at_epoch_ms in
      let s' = erase_expired_terminal s now in
      rw t (
        Moves-after (state_of (lookup j s.entries)) (state_of (lookup j s'.entries))
          (state_of (lookup j (observe_found s' e.key now (lookup e.key s'.entries)).0.entries))
          (erase_expired_terminal-Moves s now j d)
          (observe_found-Stays s' e.key j now (lookup e.key s'.entries) refl))
]

active_may_fail : (x : ObjectState) → is_active x ≡ true → may_fail x ≡ true
active_may_fail completed h = cc
active_may_fail failed h = cc
active_may_fail duplicate h = cc
active_may_fail finalizing h = cc
active_may_fail _ h = refl

-- An entry that times out now is not also dropped, since the TTL is positive.
time_out-Moves :
    (ttl now : ℕ) (o : Option Entry)
    → 1 ≤ ttl
    → Moves (state_of o) (state_of (unless (is_expired ttl now) (on_some (time_out ttl now) o)))
time_out-Moves ttl now none h = tt
time_out-Moves ttl now (some e) h = elim (Bool-cases (times_out ttl now e)) [
  | inr t ↦ rw t (unless-Moves ttl now (some e))
  | inl t ↦
      let kept : leb ttl (now - now) ≡ false = ground arith in
      rw (t, kept) (inr (inl (failing e.state (active_may_fail e.state (ground arith)))))
]

sweep-Moves :
    (s : BestShots) (now : ℕ) (j : ObjectKey)
    → IsValid s
    → Moves (state_of (lookup j s.entries)) (state_of (lookup j (sweep s now).0.entries))
unfolding sweep erase_expired_terminal
sweep-Moves s now j v =
    let m = map_values (time_out s.object_ttl_ms now) s.entries in
    let distinct = map_values-Distinct (time_out s.object_ttl_ms now) s.entries v.distinct in
    rw
      (
        lookup-take_where (is_expired s.object_ttl_ms now) j m distinct,
        lookup-map_values (time_out s.object_ttl_ms now) j s.entries,
      )
      (time_out-Moves s.object_ttl_ms now (lookup j s.entries) v.waits)

-- Whatever call is made, each object keeps its state, takes one step of the life cycle, is new and
-- waits for its EV check, or is at an end and forgotten or seen anew.
pub step-Moves :
    (s : BestShots) (op : Op) (key : ObjectKey)
    → IsValid s
    → Moves (state_at s key) (state_at (step s op) key)
unfolding state_at step observe
step-Moves s (observed e) key v = observe-Moves e.kind s e key v.distinct
step-Moves s (bound k id) key v = bind_event_id-Moves s k key id
step-Moves s (moved a k) key v = move-Moves a s k key
step-Moves s (swept now) key v = sweep-Moves s now key v
