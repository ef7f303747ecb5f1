-- ===== src/Parking/Actor.antt =====
-- src/parking/SlotTransitionActor.cpp: commands wait in one lane per slot until the store admits
-- them. The store's answers are arguments. Admitting a command is two steps, since the lock is open in
-- between: `select` takes the command that `admitting` holds, and `settle` takes the store's answer.
pub mod Lanes
pub mod Popped
pub mod Runs
pub mod Answers
pub mod Order
use pi_server.Base.{
  ℕ, ◌+◌, ◌-◌, ◌%◌, ◌^◌, max, Bool, true, false, not, ◌&&◌, ◌||◌, Option, none, some, is_some, List,
  [], ◌∷◌, ◌++◌, Bytes, bytes_eq, ◌==◌, is_empty, Map, lookup, insert, erase, nat_beq, ltb, leb,
  if◌then◌else◌,
}
use pi_server.Parking.Commands.{
  Command, AdmissionCode, rejected_stale, conflict, is_accepted, kind_name, JsonLibrary,
  same_slot_source_fact,
}

pub data SubmitCode : Type 0 where
  transport_queued already_queued submit_conflict queue_full closed : SubmitCode
  submit_failure : SubmitCode

pub record IngressItem : Type 0 where
  pub command : Command
  pub transport_ordinal : ℕ
  pub next_attempt_at : ℕ

pub record Actor : Type 0 where
  pub transport_capacity : ℕ
  pub durable_capacity : ℕ
  pub retry_delay : ℕ
  pub retention : ℕ
  pub purge_interval : ℕ
  pub purge_batch_size : ℕ
  pub ingress_by_slot : Map Bytes (List IngressItem)
  pub identity_index : Map Bytes Bytes
  pub ingress_size : ℕ
  pub next_ordinal : ℕ
  pub admitting : Option Command
  pub is_started : Bool
  pub ingress_open : Bool
  pub stop_requested : Bool
  pub drain_cutoff : ℕ
  pub last_purge : ℕ

pub record Config : Type 0 where
  pub config_transport_capacity : ℕ
  pub config_durable_capacity : ℕ
  pub config_retry_delay : ℕ
  pub config_retention : ℕ
  pub config_purge_interval : ℕ
  pub config_purge_batch_size : ℕ

-- The constructor.
unfoldable pub new_actor : Config → Actor
new_actor c = record {
  transport_capacity = max 1 c.config_transport_capacity;
  durable_capacity = max 1 c.config_durable_capacity;
  retry_delay = max c.config_retry_delay 1;
  retention = c.config_retention;
  purge_interval = c.config_purge_interval;
  purge_batch_size = c.config_purge_batch_size;
  ingress_by_slot = [];
  identity_index = [];
  ingress_size = 0;
  next_ordinal = 0;
  admitting = none;
  is_started = false;
  ingress_open = false;
  stop_requested = false;
  drain_cutoff = 0;
  last_purge = 0;
}

-- `start`, if the store is ready and nothing throws; the replay works on the store alone.
unfoldable pub start_actor : Actor → Bool → Actor × Bool
start_actor a is_ready = if not is_ready then (a, false) else if a.is_started then (a, true) else (
  record a { stop_requested = false; drain_cutoff = 0; is_started = true; ingress_open = true },
  true,
)

unfoldable pub close_ingress : Actor → Actor
close_ingress a = record a { ingress_open = false }

-- What `stopAndDrain` does before it waits.
unfoldable pub request_stop : Actor → ℕ → Actor
request_stop a now =
    let closed_actor = close_ingress a in
    if not a.is_started then closed_actor else record closed_actor {
      stop_requested = true;
      drain_cutoff = if nat_beq a.drain_cutoff 0 then now else a.drain_cutoff;
    }

unfoldable pub identity_key : Command → Bytes
identity_key c = kind_name c.kind ++ (b'|' ∷ c.source_identity)

unfoldable pub find_in_lane : Bytes → List IngressItem → Option Command
find_in_lane id [] = none
find_in_lane id (item ∷ lane) =
    if item.command.command_id == id then some item.command else find_in_lane id lane

abbrev pub or_else : Option Command → Option Command → Option Command
or_else none o = o
or_else (some c) o = some c

unfoldable pub find_queued : Bytes → Map Bytes (List IngressItem) → Option Command
find_queued id [] = none
find_queued id ((slot, lane) ∷ lanes) = or_else (find_in_lane id lane) (find_queued id lanes)

abbrev pub lane_of : Option (List IngressItem) → List IngressItem
lane_of none = []
lane_of (some lane) = lane

abbrev pub lane_at : Actor → Bytes → List IngressItem
lane_at a slot = lane_of (lookup slot a.ingress_by_slot)

abbrev pub fresh_item : Actor → Command → IngressItem
fresh_item a c = record {
  command = c;
  transport_ordinal = (a.next_ordinal + 1) % 2 ^ 64;
  next_attempt_at = 0;
}

unfoldable pub push_command : Actor → Command → Actor
push_command a c = record a {
  ingress_by_slot =
      insert c.slot_id (lane_at a c.slot_id ++ (fresh_item a c ∷ [])) a.ingress_by_slot;
  next_ordinal = (a.next_ordinal + 1) % 2 ^ 64;
  identity_index = insert (identity_key c) c.command_id a.identity_index;
  ingress_size = a.ingress_size + 1;
}

abbrev pub is_complete : Command → Bool
is_complete c = not (is_empty c.command_id || (is_empty c.slot_id || is_empty c.source_identity))

module _ {J : Type 0} (json : JsonLibrary J) where
  -- The answer to a command whose identity is in the index.
  unfoldable pub answer_queued : Command → Option Command → SubmitCode
  answer_queued c none = submit_failure
  answer_queued c (some stored) =
      if same_slot_source_fact json stored c then already_queued else submit_conflict

  unfoldable pub submit_found : Actor → Command → Option Bytes → Actor × SubmitCode
  submit_found a c (some id) = (a, answer_queued c (find_queued id a.ingress_by_slot))
  submit_found a c none =
      if leb a.transport_capacity a.ingress_size
      then (a, queue_full)
      else (push_command a c, transport_queued)

  unfoldable pub submit : Actor → Command → Actor × SubmitCode
  submit a c =
      if not (is_complete c)
      then (a, submit_conflict)
      else if not a.is_started || (not a.ingress_open || a.stop_requested)
      then (a, closed)
      else submit_found a c (lookup (identity_key c) a.identity_index)

abbrev pub ordinal_of : Option IngressItem → ℕ
ordinal_of none = 2 ^ 64 - 1
ordinal_of (some item) = item.transport_ordinal

-- A lane's head takes the place of the item that was selected so far.
abbrev pub better : ℕ → Option IngressItem → List IngressItem → Option IngressItem
better now best [] = best
better now best (item ∷ lane) =
    if ltb now item.next_attempt_at || leb (ordinal_of best) item.transport_ordinal
    then best
    else some item

unfoldable pub select_from :
    ℕ → Option IngressItem → Map Bytes (List IngressItem) → Option IngressItem
select_from now best [] = best
select_from now best ((slot, lane) ∷ lanes) = select_from now (better now best lane) lanes

abbrev pub command_of : Option IngressItem → Option Command
command_of none = none
command_of (some item) = some item.command

-- The first half of a round of `processIngress`; only the worker selects, one command at a time.
unfoldable pub select : Actor → ℕ → Actor
select a now =
    if is_some a.admitting
    then a
    else record a { admitting = command_of (select_from now none a.ingress_by_slot) }

abbrev pub is_terminal : AdmissionCode → Bool
is_terminal rejected_stale = true
is_terminal conflict = true
is_terminal code = is_accepted code

-- The lane without its head; an empty lane goes.
unfoldable pub keep_lane :
    Bytes → List IngressItem → Map Bytes (List IngressItem) → Map Bytes (List IngressItem)
keep_lane slot [] lanes = erase slot lanes
keep_lane slot (item ∷ lane) lanes = insert slot (item ∷ lane) lanes

unfoldable pub settle_lane : Actor → Command → AdmissionCode → ℕ → List IngressItem → Actor
settle_lane a c code now [] = a
settle_lane a c code now (item ∷ lane) =
    if not (item.command.command_id == c.command_id)
    then a
    else if is_terminal code
    then record a {
      identity_index = erase (identity_key c) a.identity_index;
      ingress_by_slot = keep_lane c.slot_id lane a.ingress_by_slot;
      ingress_size = a.ingress_size - 1;
    }
    else record a {
      ingress_by_slot =
          insert c.slot_id (record item { next_attempt_at = now + a.retry_delay } ∷ lane)
            a.ingress_by_slot;
    }

settle_selected : Actor → Option Command → AdmissionCode → ℕ → Actor
settle_selected a none code now = a
settle_selected a (some c) code now =
    settle_lane (record a { admitting = none }) c code now (lane_at a c.slot_id)

-- The second half: `now` is that of the round, and an exception of the store is `retryable_failure`.
unfoldable pub settle : Actor → AdmissionCode → ℕ → Actor
unfolding settle_selected
settle a code now = settle_selected a a.admitting code now

-- The slots that `processDueDeadlines` leaves out.
unfoldable pub blocked_slots : Map Bytes (List IngressItem) → List Bytes
blocked_slots [] = []
blocked_slots ((slot, lane) ∷ lanes) =
    let rest = blocked_slots lanes in if is_empty lane then rest else slot ∷ rest

-- The end of the worker's loop, in which `progressed` and the store's count decide.
unfoldable pub finish_turn : Actor → Bool → Bool → Actor
finish_turn a progressed drain_remaining =
    if not a.stop_requested || progressed
    then a
    else if not (nat_beq a.ingress_size 0) || is_some a.admitting
    then a
    else if drain_remaining
    then a
    else record a { is_started = false }

-- Whether a batch of settled rows older than the retention is purged now.
unfoldable pub purge_settled_if_due : Actor → ℕ → Actor × Bool
purge_settled_if_due a now =
    if nat_beq a.retention 0 || nat_beq a.purge_batch_size 0
    then (a, false)
    else if not (nat_beq a.last_purge 0) && ltb now (a.last_purge + a.purge_interval)
    then (a, false)
    else (record a { last_purge = now }, true)
