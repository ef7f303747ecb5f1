-- ===== src/Entrance/BestShot/Moves.antt =====
-- One step of the life of an entrance object, and the operations that write one entry.
use pi_server.Base.{
  sym, ℕ, ◌≡◌, refl, subst, Bool, true, not, ◌⊎◌, inl, inr, Option, none, some, arith, Map, lookup,
  insert, ◌==◌, ℤ, is_negative, Distinct, lookup-insert, lookup-take_where, unless, Bool-cases,
}
use pi_server.Entrance.Types.{
  ObjectState, ev_queued, completed, failed, duplicate, ev_processing, ocr_queued, ocr_processing,
  finalizing, ObjectKey, key_eq, key_beq_iff,
}
use pi_server.Entrance.BestShot.{
  bind_event_id, Entry, BestShots, is_expired, is_terminal, erase_expired_terminal, bind_found,
  mark_found, mark, mark_ev_processing, mark_ocr_queued, mark_ocr_processing, begin_finalization,
  complete, fail, mark_image_duplicate, state_of, is_ev_queued, is_ev_processing, is_ocr_queued,
  is_ocr_processing, is_finalizing, may_fail,
}
use pi_server.Entrance.BestShot.Bounds.{
  Move, start_ev, queue_ocr, start_ocr, finalize, finish, give_up, same_image, move,
}

-- The life cycle: EV check, OCR and finalization one after the other, with failure from any state
-- but completed and failed, and a duplicate image before the EV check.
pub data Next : ObjectState → ObjectState → Type 0 where
  started : Next ev_queued ev_processing
  passed : Next ev_processing ocr_queued
  reading : Next ocr_queued ocr_processing
  decided : Next ocr_processing finalizing
  stored : Next finalizing completed
  same : Next ev_queued duplicate
  failing : (x : ObjectState) → may_fail x ≡ true → Next x failed

-- What one call may do to the state of an object, `none` standing for one that is not held.
abbrev pub Moves : Option ObjectState → Option ObjectState → Type 0
Moves none none = Unit
Moves none (some y) = y ≡ ev_queued
Moves (some x) none = is_terminal x ≡ true
Moves (some x) (some y) = (x ≡ y) ⊎ (Next x y ⊎ ((is_terminal x ≡ true) × (y ≡ ev_queued)))

pub kept-Moves : (o : Option ObjectState) → Moves o o
kept-Moves none = tt
kept-Moves (some x) = inl refl

insert-Moves :
    (m : Map ObjectKey Entry) (k j : ObjectKey) (e : Entry)
    → Moves (state_of (lookup k m)) (some e.state)
    → Moves (state_of (lookup j m)) (state_of (lookup j (insert k e m)))
insert-Moves m k j e h = elim (Bool-cases (k == j)) [
  | inl t ↦
      rw (lookup-insert k j e m, t)
        (subst (λ x. Moves (state_of (lookup x m)) (some e.state)) ((key_beq_iff k j).0 t) h)
  | inr t ↦ rw (lookup-insert k j e m, t) (kept-Moves (state_of (lookup j m)))
]

pub unless-Moves :
    (ttl now : ℕ) (o : Option Entry) → Moves (state_of o) (state_of (unless (is_expired ttl now) o))
unless-Moves ttl now none = tt
unless-Moves ttl now (some e) = elim (Bool-cases (is_expired ttl now e)) [
  | inl t ↦ rw t (ground arith)
  | inr t ↦ rw t (inl refl)
]

pub erase_expired_terminal-Moves :
    (s : BestShots) (now : ℕ) (j : ObjectKey)
    → Distinct s.entries
    → Moves
        (state_of (lookup j s.entries))
        (state_of (lookup j (erase_expired_terminal s now).entries))
unfolding erase_expired_terminal
erase_expired_terminal-Moves s now j d =
    rw (lookup-take_where (is_expired s.object_ttl_ms now) j s.entries d)
      (unless-Moves s.object_ttl_ms now (lookup j s.entries))

mark_found-Moves :
    (s : BestShots) (key j : ObjectKey) (from : ObjectState → Bool) (to : ObjectState)
    (o : Option Entry)
    → lookup key s.entries ≡ o
    → ((x : ObjectState) → from x ≡ true → Next x to)
    → Moves
        (state_of (lookup j s.entries))
        (state_of (lookup j (mark_found s key from to o).0.entries))
unfolding mark_found
mark_found-Moves s key j from to none f allowed = kept-Moves (state_of (lookup j s.entries))
mark_found-Moves s key j from to (some e) f allowed = elim (Bool-cases (from e.state)) [
  | inl t ↦ rw t (
      insert-Moves s.entries key j (record e { state = to }) (rw f (inr (inl (allowed e.state t)))))
  | inr t ↦ rw t (kept-Moves (state_of (lookup j s.entries)))
]

from_ev_queued :
    (to : ObjectState) → Next ev_queued to → (x : ObjectState) → is_ev_queued x ≡ true → Next x to
from_ev_queued to n ev_queued h = n
from_ev_queued to n _ h = cc

from_ev_processing : (x : ObjectState) → is_ev_processing x ≡ true → Next x ocr_queued
from_ev_processing ev_processing h = passed
from_ev_processing _ h = cc

from_ocr_queued : (x : ObjectState) → is_ocr_queued x ≡ true → Next x ocr_processing
from_ocr_queued ocr_queued h = reading
from_ocr_queued _ h = cc

from_ocr_processing : (x : ObjectState) → is_ocr_processing x ≡ true → Next x finalizing
from_ocr_processing ocr_processing h = decided
from_ocr_processing _ h = cc

from_finalizing : (x : ObjectState) → is_finalizing x ≡ true → Next x completed
from_finalizing finalizing h = stored
from_finalizing _ h = cc

pub move-Moves :
    (a : Move) (s : BestShots) (key j : ObjectKey)
    → Moves (state_of (lookup j s.entries)) (state_of (lookup j (move a s key).0.entries))
unfolding move mark mark_ev_processing mark_ocr_queued mark_ocr_processing begin_finalization
    complete fail mark_image_duplicate
move-Moves start_ev s key j =
    mark_found-Moves s key j is_ev_queued ev_processing _ refl
      (from_ev_queued ev_processing started)
move-Moves queue_ocr s key j =
    mark_found-Moves s key j is_ev_processing ocr_queued _ refl from_ev_processing
move-Moves start_ocr s key j =
    mark_found-Moves s key j is_ocr_queued ocr_processing _ refl from_ocr_queued
move-Moves finalize s key j =
    mark_found-Moves s key j is_ocr_processing finalizing _ refl from_ocr_processing
move-Moves finish s key j = mark_found-Moves s key j is_finalizing completed _ refl from_finalizing
move-Moves give_up s key j = mark_found-Moves s key j may_fail failed _ refl failing
move-Moves same_image s key j =
    mark_found-Moves s key j is_ev_queued duplicate _ refl (from_ev_queued duplicate same)

bind_found-Moves :
    (s : BestShots) (key j : ObjectKey) (id : ℤ) (o : Option Entry)
    → lookup key s.entries ≡ o
    → Moves (state_of (lookup j s.entries)) (state_of (lookup j (bind_found s key id o).0.entries))
unfolding bind_found
bind_found-Moves s key j id none f = kept-Moves (state_of (lookup j s.entries))
bind_found-Moves s key j id (some e) f = elim (Bool-cases (not (is_negative e.event_id))) [
  | inl t ↦ rw t (kept-Moves (state_of (lookup j s.entries)))
  | inr t ↦ rw t (insert-Moves s.entries key j (record e { event_id = id }) (rw f (inl refl)))
]

pub bind_event_id-Moves :
    (s : BestShots) (key j : ObjectKey) (id : ℤ)
    → Moves (state_of (lookup j s.entries)) (state_of (lookup j (bind_event_id s key id).0.entries))
unfolding bind_event_id
bind_event_id-Moves s key j id = elim (Bool-cases (is_negative id)) [
  | inl t ↦ rw t (kept-Moves (state_of (lookup j s.entries)))
  | inr t ↦ rw t (bind_found-Moves s key j id (lookup key s.entries) refl)
]

-- What is left after the expired entries are gone changes at most by a new object.
abbrev pub Stays : Option ObjectState → Option ObjectState → Type 0
Stays b c = (b ≡ c) ⊎ ((b ≡ none) × (c ≡ some ev_queued))

pub Moves-after : (a b c : Option ObjectState) → Moves a b → Stays b c → Moves a c
Moves-after a b c h (inl kept) = subst (Moves a) kept h
Moves-after none b c h (inr fresh) = subst (Moves none) (sym fresh.1) refl
Moves-after (some x) none c h (inr fresh) =
    subst (Moves (some x)) (sym fresh.1) (inr (inr (h, refl)))
Moves-after (some x) (some y) c h (inr fresh) = cc (fresh.0)

pub insert-Stays :
    (m : Map ObjectKey Entry) (k j : ObjectKey) (e : Entry)
    → Stays (state_of (lookup k m)) (some e.state)
    → Stays (state_of (lookup j m)) (state_of (lookup j (insert k e m)))
insert-Stays m k j e h = elim (Bool-cases (k == j)) [
  | inl t ↦
      rw (lookup-insert k j e m, t)
        (subst (λ x. Stays (state_of (lookup x m)) (some e.state)) ((key_beq_iff k j).0 t) h)
  | inr t ↦ rw (lookup-insert k j e m, t) (inl refl)
]
