-- ===== src/Entrance/BestShot/Bounds.antt =====
-- The coordinator never holds more entries than its capacity, nor two of one object.
use pi_server.Base.{
  ℕ, ◌≤◌, ◌≡◌, refl, Bool, not, inl, inr, Option, none, some, List, [], ◌∷◌, arith, lookup, insert,
  length, leb, ℤ, is_negative, pos_part, Distinct, insert-Distinct, take_where-Distinct,
  map_values-Distinct, length-insert, length-insert_known, length-take_where, length-map_values,
  Bool-cases,
}
use pi_server.Entrance.Types.{
  BestShotKind, vehicle, plate, ObjectState, completed, failed, duplicate, ev_processing,
  ocr_queued, ocr_processing, finalizing, ObjectKey, key_eq, BestShotEvent,
}
use pi_server.Entrance.BestShot.{
  is_ev_queued, is_ev_processing, is_ocr_queued, is_ocr_processing, is_finalizing, may_fail,
  fresh_entry, seen_again, Entry, BestShots, init, is_expired, erase_expired_terminal,
  observe_found, is_complete, observe_current, observe_kind, observe, bind_found, bind_event_id,
  mark_found, mark, mark_ev_processing, mark_ocr_queued, mark_ocr_processing, begin_finalization,
  complete, fail, mark_image_duplicate, time_out, sweep,
}

-- The calls of the coordinator.
pub data Move : Type 0 where
  start_ev queue_ocr start_ocr finalize finish give_up same_image : Move

pub data Op : Type 0 where
  observed : BestShotEvent → Op
  bound : ObjectKey → ℤ → Op
  moved : Move → ObjectKey → Op
  swept : ℕ → Op

unfoldable pub move : Move → BestShots → ObjectKey → BestShots × Bool
move start_ev = mark_ev_processing
move queue_ocr = mark_ocr_queued
move start_ocr = mark_ocr_processing
move finalize = begin_finalization
move finish = complete
move give_up = fail
move same_image = mark_image_duplicate

unfoldable pub step : BestShots → Op → BestShots
unfolding move
step s (observed e) = (observe s e).0
step s (bound key id) = (bind_event_id s key id).0
step s (moved a key) = (move a s key).0
step s (swept now) = (sweep s now).0

unfoldable pub run : BestShots → List Op → BestShots
run s [] = s
run s (op ∷ ops) = run (step s op) ops

pub record IsValid (s : BestShots) : Type 0 where
  pub distinct : Distinct s.entries
  pub within : length s.entries ≤ s.capacity
  pub waits : 1 ≤ s.object_ttl_ms

erase_expired_terminal-IsValid :
    (s : BestShots) (now : ℕ) → IsValid s → IsValid (erase_expired_terminal s now)
unfolding erase_expired_terminal
erase_expired_terminal-IsValid s now v = record {
  distinct = take_where-Distinct (is_expired s.object_ttl_ms now) s.entries v.distinct;
  within = omega (arith, length-take_where (is_expired s.object_ttl_ms now) s.entries, v.within);
  waits = v.waits;
}

-- An entry that is there is written again.
rewrite-IsValid :
    (s : BestShots) (key : ObjectKey) (e w : Entry)
    → lookup key s.entries ≡ some w
    → IsValid s
    → IsValid (record s { entries = insert key e s.entries })
rewrite-IsValid s key e w f v = record {
  distinct = insert-Distinct key e s.entries v.distinct;
  within = omega (arith, length-insert_known key e w s.entries f, v.within);
  waits = v.waits;
}

observe_found-IsValid :
    (s : BestShots) (key : ObjectKey) (now : ℕ) (o : Option Entry)
    → lookup key s.entries ≡ o
    → IsValid s
    → IsValid (observe_found s key now o).0
unfolding observe_found
observe_found-IsValid s key now (some e) f v = rewrite-IsValid s key (seen_again now e) e f v
observe_found-IsValid s key now none f v = elim (Bool-cases (leb s.capacity (length s.entries))) [
  | inl t ↦ rw t v
  | inr t ↦ rw t (record {
    distinct = insert-Distinct key (fresh_entry now) s.entries v.distinct;
    within = ground (arith, length-insert key (fresh_entry now) s.entries, v.within);
    waits = v.waits;
  })
]

mark-IsValid :
    (s : BestShots) (key : ObjectKey) (from : ObjectState → Bool) (to : ObjectState)
    (o : Option Entry)
    → lookup key s.entries ≡ o
    → IsValid s
    → IsValid (mark_found s key from to o).0
unfolding mark_found
mark-IsValid s key from to none f v = v
mark-IsValid s key from to (some e) f v = elim (Bool-cases (from e.state)) [
  | inl t ↦ rw t (rewrite-IsValid s key (record e { state = to }) e f v)
  | inr t ↦ rw t v
]

bind_found-IsValid :
    (s : BestShots) (key : ObjectKey) (id : ℤ) (o : Option Entry)
    → lookup key s.entries ≡ o
    → IsValid s
    → IsValid (bind_found s key id o).0
unfolding bind_found
bind_found-IsValid s key id none f v = v
bind_found-IsValid s key id (some e) f v = elim (Bool-cases (not (is_negative e.event_id))) [
  | inl t ↦ rw t v
  | inr t ↦ rw t (rewrite-IsValid s key (record e { event_id = id }) e f v)
]

bind_event_id-IsValid :
    (s : BestShots) (key : ObjectKey) (id : ℤ) → IsValid s → IsValid (bind_event_id s key id).0
unfolding bind_event_id
bind_event_id-IsValid s key id v = elim (Bool-cases (is_negative id)) [
  | inl t ↦ rw t v
  | inr t ↦ rw t (bind_found-IsValid s key id (lookup key s.entries) refl v)
]

observe-IsValid :
    (k : BestShotKind) (s : BestShots) (e : BestShotEvent)
    → IsValid s
    → IsValid (observe_kind k s e).0
unfolding observe_kind observe_current
observe-IsValid vehicle s e v = v
observe-IsValid plate s e v = elim (Bool-cases (is_complete e)) [
  | inr t ↦ rw t v
  | inl t ↦
      let now = pos_part e.received_at_epoch_ms in
      let s' = erase_expired_terminal s now in
      rw t (
        observe_found-IsValid s' e.key now (lookup e.key s'.entries) refl
          (erase_expired_terminal-IsValid s now v))
]

sweep-IsValid : (s : BestShots) (now : ℕ) → IsValid s → IsValid (sweep s now).0
unfolding sweep
sweep-IsValid s now v = erase_expired_terminal-IsValid _ now (record {
  distinct = map_values-Distinct (time_out s.object_ttl_ms now) s.entries v.distinct;
  within = omega (arith, length-map_values (time_out s.object_ttl_ms now) s.entries, v.within);
  waits = v.waits;
})

move-IsValid : (a : Move) (s : BestShots) (key : ObjectKey) → IsValid s → IsValid (move a s key).0
unfolding move mark mark_ev_processing mark_ocr_queued mark_ocr_processing begin_finalization
    complete fail mark_image_duplicate
move-IsValid start_ev s key v = mark-IsValid s key is_ev_queued ev_processing _ refl v
move-IsValid queue_ocr s key v = mark-IsValid s key is_ev_processing ocr_queued _ refl v
move-IsValid start_ocr s key v = mark-IsValid s key is_ocr_queued ocr_processing _ refl v
move-IsValid finalize s key v = mark-IsValid s key is_ocr_processing finalizing _ refl v
move-IsValid finish s key v = mark-IsValid s key is_finalizing completed _ refl v
move-IsValid give_up s key v = mark-IsValid s key may_fail failed _ refl v
move-IsValid same_image s key v = mark-IsValid s key is_ev_queued duplicate _ refl v

pub step-IsValid : (s : BestShots) (op : Op) → IsValid s → IsValid (step s op)
unfolding step observe
step-IsValid s (observed e) v = observe-IsValid e.kind s e v
step-IsValid s (bound key id) v = bind_event_id-IsValid s key id v
step-IsValid s (moved a key) v = move-IsValid a s key v
step-IsValid s (swept now) v = sweep-IsValid s now v

pub run-IsValid : (s : BestShots) (ops : List Op) → IsValid s → IsValid (run s ops)
unfolding run
run-IsValid s [] v = v
run-IsValid s (op ∷ ops) v = run-IsValid (step s op) ops (step-IsValid s op v)

-- Whatever calls follow the constructor, the coordinator holds at most as many objects as its
-- capacity, and no object twice.
pub run-init-IsValid : (ttl capacity : ℕ) (ops : List Op) → IsValid (run (init ttl capacity) ops)
unfolding init
run-init-IsValid ttl capacity ops =
    run-IsValid (init ttl capacity) ops
      (record { distinct = tt; within = omega arith; waits = ground arith })
