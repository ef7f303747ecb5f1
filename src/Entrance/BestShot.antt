-- ===== src/Entrance/BestShot.antt =====
-- src/entrance/EntranceBestShotCoordinator.cpp: the life of an entrance object, and who may run its
-- EV check and OCR. Entries hold times after the test that they are positive, so as natural numbers.
pub mod Bounds
pub mod Moves
pub mod Lifecycle
use pi_server.Base.{
  ℕ, ◌+◌, ◌-◌, max, Bool, true, false, not, ◌&&◌, Option, none, some, List, [], ◌∷◌, is_empty, Map,
  lookup, insert, take_where, map_values, length, leb, if◌then◌else◌, ◌==◌, ℤ, negsuc, is_negative,
  is_positive, pos_part, int_eq,
}
use pi_server.Entrance.Types.{
  BestShotKind, vehicle, plate, ObjectState, ev_queued, ev_processing, ocr_queued, ocr_processing,
  finalizing, completed, failed, duplicate, ObjectKey, key_eq, BestShotEvent, ObserveCode, queued,
  ignored, duplicate_suppressed, invalid, capacity_rejected, ObserveResult, ExpiredObject,
}

pub record Entry : Type 0 where
  pub state : ObjectState
  pub event_id : ℤ
  pub first_seen_epoch_ms : ℕ
  pub last_updated_epoch_ms : ℕ
  pub duplicate_count : ℕ

pub record BestShots : Type 0 where
  pub object_ttl_ms : ℕ
  pub capacity : ℕ
  pub entries : Map ObjectKey Entry

-- The constructor.
unfoldable pub init : ℕ → ℕ → BestShots
init object_ttl capacity = record {
  object_ttl_ms = max 1 object_ttl;
  capacity = max 1 capacity;
  entries = [];
}

abbrev pub is_terminal : ObjectState → Bool
is_terminal completed = true
is_terminal failed = true
is_terminal duplicate = true
is_terminal _ = false

abbrev pub is_expired : ℕ → ℕ → Entry → Bool
is_expired ttl now e = is_terminal e.state && leb ttl (now - e.last_updated_epoch_ms)

unfoldable pub erase_expired_terminal : BestShots → ℕ → BestShots
erase_expired_terminal s now = record s {
  entries = (take_where (is_expired s.object_ttl_ms now) s.entries).0;
}

abbrev result : ObjectKey → ObserveCode → ObserveResult
result key code = record {
  code = code;
  result_key = key;
  result_state = ev_queued;
  new_object = false;
  duplicates = 0;
}

abbrev pub fresh_entry : ℕ → Entry
fresh_entry now = record {
  state = ev_queued;
  event_id = negsuc 0;
  first_seen_epoch_ms = now;
  last_updated_epoch_ms = now;
  duplicate_count = 0;
}

abbrev pub seen_again : ℕ → Entry → Entry
seen_again now e = record e { last_updated_epoch_ms = now; duplicate_count = e.duplicate_count + 1 }

-- After the expired entries are gone.
observe_found : BestShots → ObjectKey → ℕ → Option Entry → BestShots × ObserveResult
observe_found s key now none =
    if leb s.capacity (length s.entries) then (s, result key capacity_rejected) else (
      record s { entries = insert key (fresh_entry now) s.entries },
      record (result key queued) { new_object = true },
    )
observe_found s key now (some e) = (
  record s { entries = insert key (seen_again now e) s.entries },
  record (result key duplicate_suppressed) {
    result_state = e.state;
    duplicates = e.duplicate_count + 1;
  },
)

abbrev is_complete : BestShotEvent → Bool
is_complete e =
    not (is_empty e.key.camera_id)
    && (not (is_empty e.key.channel_id)
        && (not (is_empty e.key.object_id)
            && (not (is_empty e.image_ref) && is_positive e.received_at_epoch_ms)))

observe_current : BestShots → ObjectKey → ℕ → BestShots × ObserveResult
unfolding observe_found
observe_current s key now = observe_found s key now (lookup key s.entries)

observe_kind : BestShotKind → BestShots → BestShotEvent → BestShots × ObserveResult
unfolding observe_current
observe_kind vehicle s e = (s, result e.key ignored)
observe_kind plate s e =
    if is_complete e
    then observe_current (erase_expired_terminal s (pos_part e.received_at_epoch_ms)) e.key
        (pos_part e.received_at_epoch_ms)
    else (s, result e.key invalid)

unfoldable pub observe : BestShots → BestShotEvent → BestShots × ObserveResult
unfolding observe_kind
observe s e = observe_kind e.kind s e

bind_found : BestShots → ObjectKey → ℤ → Option Entry → BestShots × Bool
bind_found s key id none = (s, false)
bind_found s key id (some e) =
    if not (is_negative e.event_id)
    then (s, e.event_id == id)
    else (record s { entries = insert key (record e { event_id = id }) s.entries }, true)

unfoldable pub bind_event_id : BestShots → ObjectKey → ℤ → BestShots × Bool
unfolding bind_found
bind_event_id s key id =
    if is_negative id then (s, false) else bind_found s key id (lookup key s.entries)

known_id : Option Entry → Option ℤ
known_id none = none
known_id (some e) = if is_negative e.event_id then none else some e.event_id

unfoldable pub event_id_of : BestShots → ObjectKey → Option ℤ
unfolding known_id
event_id_of s key = known_id (lookup key s.entries)

-- The shape of every `mark…`: an entry in a state that the test admits moves to `to`.
mark_found :
    BestShots → ObjectKey → (ObjectState → Bool) → ObjectState → Option Entry → BestShots × Bool
mark_found s key from to none = (s, false)
mark_found s key from to (some e) =
    if from e.state
    then (record s { entries = insert key (record e { state = to }) s.entries }, true)
    else (s, false)

unfoldable pub mark : BestShots → ObjectKey → (ObjectState → Bool) → ObjectState → BestShots × Bool
unfolding mark_found
mark s key from to = mark_found s key from to (lookup key s.entries)

abbrev pub is_ev_queued : ObjectState → Bool
is_ev_queued ev_queued = true
is_ev_queued _ = false

abbrev pub is_ev_processing : ObjectState → Bool
is_ev_processing ev_processing = true
is_ev_processing _ = false

abbrev pub is_ocr_queued : ObjectState → Bool
is_ocr_queued ocr_queued = true
is_ocr_queued _ = false

abbrev pub is_ocr_processing : ObjectState → Bool
is_ocr_processing ocr_processing = true
is_ocr_processing _ = false

abbrev pub is_finalizing : ObjectState → Bool
is_finalizing finalizing = true
is_finalizing _ = false

abbrev pub may_fail : ObjectState → Bool
may_fail completed = false
may_fail failed = false
may_fail _ = true

unfoldable pub mark_ev_processing : BestShots → ObjectKey → BestShots × Bool
mark_ev_processing s key = mark s key is_ev_queued ev_processing

unfoldable pub mark_ocr_queued : BestShots → ObjectKey → BestShots × Bool
mark_ocr_queued s key = mark s key is_ev_processing ocr_queued

unfoldable pub mark_ocr_processing : BestShots → ObjectKey → BestShots × Bool
mark_ocr_processing s key = mark s key is_ocr_queued ocr_processing

unfoldable pub begin_finalization : BestShots → ObjectKey → BestShots × Bool
begin_finalization s key = mark s key is_ocr_processing finalizing

unfoldable pub complete : BestShots → ObjectKey → BestShots × Bool
complete s key = mark s key is_finalizing completed

unfoldable pub fail : BestShots → ObjectKey → BestShots × Bool
fail s key = mark s key may_fail failed

unfoldable pub mark_image_duplicate : BestShots → ObjectKey → BestShots × Bool
mark_image_duplicate s key = mark s key is_ev_queued duplicate

abbrev pub is_active : ObjectState → Bool
is_active ev_queued = true
is_active ev_processing = true
is_active ocr_queued = true
is_active ocr_processing = true
is_active _ = false

abbrev pub times_out : ℕ → ℕ → Entry → Bool
times_out ttl now e = is_active e.state && leb ttl (now - e.first_seen_epoch_ms)

abbrev pub time_out : ℕ → ℕ → Entry → Entry
time_out ttl now e =
    if times_out ttl now e then record e { state = failed; last_updated_epoch_ms = now } else e

-- What the loop of `sweep` pushes; the reason is one fixed text.
unfoldable pub timed_out : ℕ → ℕ → Map ObjectKey Entry → List ExpiredObject
timed_out ttl now [] = []
timed_out ttl now ((key, e) ∷ m) =
    if times_out ttl now e
    then record {
      expired_key = key;
      expired_event_id = e.event_id;
      expired_duplicates = e.duplicate_count;
    }
      ∷ timed_out ttl now m
    else timed_out ttl now m

unfoldable pub sweep : BestShots → ℕ → BestShots × List ExpiredObject
sweep s now = (
  erase_expired_terminal
      (record s { entries = map_values (time_out s.object_ttl_ms now) s.entries }) now,
  timed_out s.object_ttl_ms now s.entries,
)

unfoldable pub tracked_count : BestShots → ℕ
tracked_count s = length s.entries

abbrev pub state_of : Option Entry → Option ObjectState
state_of none = none
state_of (some e) = some e.state

unfoldable pub state_at : BestShots → ObjectKey → Option ObjectState
state_at s key = state_of (lookup key s.entries)

abbrev pub count_of : Option Entry → ℕ
count_of none = 0
count_of (some e) = e.duplicate_count

unfoldable pub duplicate_count_at : BestShots → ObjectKey → ℕ
duplicate_count_at s key = count_of (lookup key s.entries)
