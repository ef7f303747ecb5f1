-- ===== src/Fire/Queue.antt =====
-- src/event/FireAlarmService.cpp: the queue of commands and the worker's turns. Zero is the time of a
-- command that was not retried; what the worker waits for is left out.
pub mod Bounds
use pi_server.Base.{
  ℕ, ◌+◌, ◌-◌, ◌%◌, ◌^◌, ◌≤◌, min, Bool, true, false, not, ◌&&◌, ◌||◌, Option, none, some, List, [],
  ◌∷◌, ◌++◌, Bytes, bytes_eq, ◌==◌, is_empty, Map, lookup, insert, erase, length, length-append,
  nat_beq, ltb, leb, if◌then◌else◌, Bool-cases, inl, inr, arith, ◌≡◌, refl,
}

pub data CommandKind : Type 0 where
  fire_signal acknowledgement clear_by_hand : CommandKind

pub record Item : Type 0 where
  pub kind : CommandKind
  pub ticket : ℕ
  pub item_channel : Bytes
  pub item_alarm : Bytes
  pub retry_count : ℕ
  pub retry_after : ℕ
  pub holds_channel_block : Bool

pub record Queue : Type 0 where
  pub capacity : ℕ
  pub binding_count : ℕ
  pub retry_delay : ℕ
  pub items : List Item
  pub blocked : Map Bytes ℕ
  -- By channel, then by alarm.
  pub pending_acks : Map Bytes (Map Bytes ℕ)
  pub next_ticket : ℕ
  pub running : Bool
  pub accepting : Bool
  pub processing : Option Item

pub data Admission : Type 0 where
  ingress_closed no_room : Admission
  admitted_as : ℕ → Admission

abbrev pub is_ack : CommandKind → Bool
is_ack acknowledgement = true
is_ack _ = false

abbrev pub acks_of : Option (Map Bytes ℕ) → Map Bytes ℕ
acks_of none = []
acks_of (some acks) = acks

abbrev pub pending_ticket : Queue → Item → Option ℕ
pending_ticket q c = lookup c.item_alarm (acks_of (lookup c.item_channel q.pending_acks))

abbrev pub with_ack : Queue → Item → Map Bytes (Map Bytes ℕ)
with_ack q c =
    if is_ack c.kind
    then insert c.item_channel
        (insert c.item_alarm q.next_ticket (acks_of (lookup c.item_channel q.pending_acks)))
        q.pending_acks
    else q.pending_acks

-- The queue with the command, which has the next ticket.
abbrev pub admit : Queue → Item → Queue × Admission
admit q c =
    if leb q.capacity (length q.items)
    then (record q { next_ticket = (q.next_ticket + 1) % 2 ^ 64 }, no_room)
    else (
      record q {
        next_ticket = (q.next_ticket + 1) % 2 ^ 64;
        pending_acks = with_ack q c;
        items = q.items ++ (record c { ticket = q.next_ticket } ∷ []);
      },
      admitted_as q.next_ticket,
    )

-- An acknowledgement leaves room for a signal of each channel.
abbrev pub enqueue_ack : Queue → Item → Option ℕ → Queue × Admission
enqueue_ack q c (some ticket) =
    (record q { next_ticket = (q.next_ticket + 1) % 2 ^ 64 }, admitted_as ticket)
enqueue_ack q c none =
    if leb (q.capacity - min q.capacity q.binding_count) (length q.items)
    then (record q { next_ticket = (q.next_ticket + 1) % 2 ^ 64 }, no_room)
    else admit q c

unfoldable pub enqueue : Queue → Item → Queue × Admission
enqueue q c =
    if not q.running || (not q.accepting || is_empty c.item_channel)
    then (record q { next_ticket = (q.next_ticket + 1) % 2 ^ 64 }, ingress_closed)
    else if is_ack c.kind
    then enqueue_ack q c (pending_ticket q c)
    else admit q c

-- Another command holds the channel.
abbrev pub held_by_other : Option ℕ → ℕ → Bool
held_by_other none ticket = false
held_by_other (some holder) ticket = not (nat_beq holder ticket)

abbrev pub passes_over : Map Bytes ℕ → ℕ → Item → Bool
passes_over blocked now c =
    held_by_other (lookup c.item_channel blocked) c.ticket
    || not (nat_beq c.retry_after 0 || leb c.retry_after now)

-- The first command that may be processed, and the others in their order.
abbrev pub past : Item → Option (Item × List Item) → Option (Item × List Item)
past c none = none
past c (some (found, rest)) = some (found, c ∷ rest)

unfoldable pub select_item : Map Bytes ℕ → ℕ → List Item → Option (Item × List Item)
select_item blocked now [] = none
select_item blocked now (c ∷ items) =
    let later = select_item blocked now items in
    if passes_over blocked now c then past c later else some (c, items)

abbrev pub take_selected : Queue → Option (Item × List Item) → Queue
take_selected q none = q
take_selected q (some (c, rest)) = record q { items = rest; processing = some c }

-- The worker takes a command, if it has none.
abbrev pub take_when_idle : Queue → ℕ → Option Item → Queue
take_when_idle q now (some c) = q
take_when_idle q now none = take_selected q (select_item q.blocked now q.items)

unfoldable pub take_next : Queue → ℕ → Queue
take_next q now = take_when_idle q now q.processing

abbrev pub unblock : Bytes → ℕ → Map Bytes ℕ → Map Bytes ℕ
unblock channel ticket blocked =
    if held_by_other (lookup channel blocked) ticket then blocked else erase channel blocked

-- A command that has to be tried again goes to the end of the queue, however full it is.
abbrev pub retry_item : Queue → Item → ℕ → Bool → Queue
retry_item q c now blocks =
    let again = record c {
      retry_count = c.retry_count + 1;
      retry_after = now + q.retry_delay;
      holds_channel_block = blocks;
    } in
    record q {
      blocked =
          if blocks
          then insert c.item_channel c.ticket q.blocked
          else if c.holds_channel_block
          then unblock c.item_channel c.ticket q.blocked
          else q.blocked;
      processing = none;
      items = q.items ++ (again ∷ []);
    }

abbrev pub without_ack : Queue → Item → Option ℕ → Map Bytes (Map Bytes ℕ)
without_ack q c none = q.pending_acks
without_ack q c (some ticket) =
    if is_ack c.kind && nat_beq ticket c.ticket
    then insert c.item_channel (erase c.item_alarm (acks_of (lookup c.item_channel q.pending_acks)))
        q.pending_acks
    else q.pending_acks

-- A command that was answered for good.
abbrev pub settle_item : Queue → Item → Queue
settle_item q c = record q {
  pending_acks = without_ack q c (pending_ticket q c);
  blocked = if c.holds_channel_block then unblock c.item_channel c.ticket q.blocked else q.blocked;
  processing = none;
}

abbrev pub answer_item : Queue → Option Item → ℕ → Bool → Bool → Queue
answer_item q none now retryable blocks = q
answer_item q (some c) now retryable blocks =
    if retryable then retry_item q c now blocks else settle_item q c

unfoldable pub finish_item : Queue → ℕ → Bool → Bool → Queue
finish_item q now retryable blocks = answer_item q q.processing now retryable blocks
