-- ===== src/Parking/Actor/Order.antt =====
-- The commands of one slot leave the actor in the order in which they came, none lost or twice.
use mathlib.Core.List.{append-nil, append_assoc, map-append}
use pi_server.Base.{
  ℕ, ◌+◌, ◌≡◌, refl, sym, ap, ◌∙◌, subst, Bool, true, false, not, ◌||◌, inl, inr, Option, none,
  some, List, [], ◌∷◌, ◌++◌, map, arith, Bytes, bytes_eq, bytes_beq_iff, ◌==◌, lookup, insert,
  lookup-insert, lookup-erase, eq_refl, leb, Bool-cases, if◌then◌else◌,
}
use pi_server.Parking.Commands.{same_slot_source_fact, Command, AdmissionCode, JsonLibrary}
use pi_server.Parking.Actor.{
  IngressItem, Actor, Config, SubmitCode, transport_queued, new_actor, start_actor, close_ingress,
  request_stop, identity_key, lane_of, lane_at, fresh_item, push_command, submit_found, submit,
  answer_queued, find_queued, is_complete, select, is_terminal, keep_lane, settle_lane,
  settle_selected, settle, finish_turn,
}
use pi_server.Parking.Actor.Lanes.{Lanes}
use pi_server.Parking.Actor.Runs.{
  Op, submitted, selected, settled, started, closed_now, stopped, turned, step, run, Waits,
  IsConsistent, step-IsConsistent, new_actor-IsConsistent,
}

abbrev command_in : IngressItem → Command
command_in item = item.command

-- The commands that wait for a slot, the oldest first.
abbrev pub waiting : Lanes → Bytes → List Command
waiting lanes slot = map command_in (lane_of (lookup slot lanes))

abbrev pub for_slot : Bytes → List Command → List Command
for_slot slot [] = []
for_slot slot (c ∷ cs) = if c.slot_id == slot then c ∷ for_slot slot cs else for_slot slot cs

for_slot-append :
    (slot : Bytes) (cs ds : List Command)
    → for_slot slot (cs ++ ds) ≡ for_slot slot cs ++ for_slot slot ds
for_slot-append slot [] ds = refl
for_slot-append slot (c ∷ cs) ds = ground (arith, for_slot-append slot cs ds)

abbrev pub if_queued : Command → SubmitCode → List Command
if_queued c transport_queued = c ∷ []
if_queued c _ = []

abbrev pub if_terminal : Bool → Option Command → List Command
if_terminal b none = []
if_terminal true (some c) = c ∷ []
if_terminal false (some c) = []

module _ {J : Type 0} (json : JsonLibrary J) where
  -- The command that a call brings in, and the one that the store has answered for good.
  abbrev pub accepted_by : Actor → Op → List Command
  accepted_by a (submitted c) = if_queued c (submit json a c).1
  accepted_by a _ = []

abbrev pub settled_by : Actor → Op → List Command
settled_by a (settled code now) = if_terminal (is_terminal code) a.admitting
settled_by a _ = []

module _ {J : Type 0} (json : JsonLibrary J) where
  unfoldable pub all_accepted : Actor → List Op → List Command
  all_accepted a [] = []
  all_accepted a (op ∷ ops) = accepted_by json a op ++ all_accepted (step json a op) ops

  unfoldable pub all_settled : Actor → List Op → List Command
  all_settled a [] = []
  all_settled a (op ∷ ops) = settled_by a op ++ all_settled (step json a op) ops

waiting-push :
    (a : Actor) (c : Command) (slot : Bytes)
    → waiting a.ingress_by_slot slot ++ for_slot slot (c ∷ [])
      ≡ waiting (push_command a c).ingress_by_slot slot
unfolding push_command
waiting-push a c slot =
    let lanes = a.ingress_by_slot in
    let lane = lane_at a c.slot_id ++ fresh_item a c ∷ [] in
    elim (Bool-cases (c.slot_id == slot)) [
      | inr t ↦ rw (lookup-insert c.slot_id slot lane lanes, t) (append-nil (waiting lanes slot))
      | inl t ↦
          let one : slot ≡ c.slot_id = sym ((bytes_beq_iff c.slot_id slot).0 t) in
          rw (lookup-insert c.slot_id slot lane lanes, t)
            (ap (λ k. waiting lanes k ++ c ∷ []) one
              ∙ sym (map-append command_in (lane_at a c.slot_id) (fresh_item a c ∷ [])))
    ]

waiting-keep_lane :
    (lanes : Lanes) (item : IngressItem) (rest : List IngressItem) (c : Command) (slot : Bytes)
    → lookup c.slot_id lanes ≡ some (item ∷ rest)
    → item.command ≡ c
    → waiting lanes slot ≡ for_slot slot (c ∷ []) ++ waiting (keep_lane c.slot_id rest lanes) slot
unfolding keep_lane
waiting-keep_lane lanes item [] c slot f same = elim (Bool-cases (c.slot_id == slot)) [
  | inr t ↦ rw (lookup-erase c.slot_id slot lanes, t) refl
  | inl t ↦
      let here : lookup slot lanes ≡ some (item ∷ []) =
        ap (λ k. lookup k lanes) (sym ((bytes_beq_iff c.slot_id slot).0 t)) ∙ f in
      rw (lookup-erase c.slot_id slot lanes, t, here) (ap (λ d. d ∷ []) same)
]
waiting-keep_lane lanes item (i ∷ rest) c slot f same = elim (Bool-cases (c.slot_id == slot)) [
  | inr t ↦ rw (lookup-insert c.slot_id slot (i ∷ rest) lanes, t) refl
  | inl t ↦
      let here : lookup slot lanes ≡ some (item ∷ i ∷ rest) =
        ap (λ k. lookup k lanes) (sym ((bytes_beq_iff c.slot_id slot).0 t)) ∙ f in
      rw (lookup-insert c.slot_id slot (i ∷ rest) lanes, t, here)
        (ap (λ d. d ∷ map command_in (i ∷ rest)) same)
]

waiting-again :
    (lanes : Lanes) (item again : IngressItem) (rest : List IngressItem) (c : Command)
    (slot : Bytes)
    → lookup c.slot_id lanes ≡ some (item ∷ rest)
    → again.command ≡ item.command
    → waiting lanes slot ≡ waiting (insert c.slot_id (again ∷ rest) lanes) slot
waiting-again lanes item again rest c slot f same = elim (Bool-cases (c.slot_id == slot)) [
  | inr t ↦ rw (lookup-insert c.slot_id slot (again ∷ rest) lanes, t) refl
  | inl t ↦
      let here : lookup slot lanes ≡ some (item ∷ rest) =
        ap (λ k. lookup k lanes) (sym ((bytes_beq_iff c.slot_id slot).0 t)) ∙ f in
      rw (lookup-insert c.slot_id slot (again ∷ rest) lanes, t, here)
        (ap (λ d. d ∷ map command_in rest) (sym same))
]

waiting-settle_lane :
    (a : Actor) (item : IngressItem) (rest : List IngressItem) (c : Command) (code : AdmissionCode)
    (now : ℕ) (slot : Bytes)
    → lookup c.slot_id a.ingress_by_slot ≡ some (item ∷ rest)
    → item.command ≡ c
    → waiting a.ingress_by_slot slot
      ≡ for_slot slot (if_terminal (is_terminal code) (some c))
        ++ waiting (settle_lane a c code now (item ∷ rest)).ingress_by_slot slot
unfolding settle_lane
waiting-settle_lane a item rest c code now slot f same =
    let own : (item.command.command_id == c.command_id) ≡ true = rw same (eq_refl c.command_id) in
    elim (Bool-cases (is_terminal code)) [
      | inl t ↦ rw (own, t) (waiting-keep_lane a.ingress_by_slot item rest c slot f same)
      | inr t ↦
          let again = record item { next_attempt_at = now + a.retry_delay } in
          rw (own, t) (waiting-again a.ingress_by_slot item again rest c slot f refl)
    ]

waiting-settle_selected :
    (a : Actor) (o : Option Command) (code : AdmissionCode) (now : ℕ) (slot : Bytes)
    → Waits a.ingress_by_slot o
    → waiting a.ingress_by_slot slot
      ≡ for_slot slot (if_terminal (is_terminal code) o)
        ++ waiting (settle_selected a o code now).ingress_by_slot slot
unfolding settle_selected
waiting-settle_selected a none code now slot w = refl
waiting-settle_selected a (some c) code now slot (item, rest, f, same) =
    let idle = record a { admitting = none } in
    subst
      (λ o.
        waiting a.ingress_by_slot slot
        ≡ for_slot slot (if_terminal (is_terminal code) (some c))
          ++ waiting (settle_lane idle c code now (lane_of o)).ingress_by_slot slot)
      (sym f) (waiting-settle_lane idle item rest c code now slot f same)

module _ {J : Type 0} (json : JsonLibrary J) where
  waiting-submit_found :
      (a : Actor) (c : Command) (o : Option Bytes) (slot : Bytes)
      → waiting a.ingress_by_slot slot ++ for_slot slot (if_queued c (submit_found json a c o).1)
        ≡ waiting (submit_found json a c o).0.ingress_by_slot slot
  unfolding submit_found answer_queued
  waiting-submit_found a c (some id) slot =
      rw (not_queued c (find_queued id a.ingress_by_slot))
        (append-nil (waiting a.ingress_by_slot slot))
    where
      not_queued : (c : Command) (o : Option Command) → if_queued c (answer_queued json c o) ≡ []
      not_queued c none = refl
      not_queued c (some d) = elim (Bool-cases (same_slot_source_fact json d c)) [
        | inl t ↦ rw t refl
        | inr t ↦ rw t refl
      ]
  waiting-submit_found a c none slot = elim (Bool-cases (leb a.transport_capacity a.ingress_size)) [
    | inl t ↦ rw t (append-nil (waiting a.ingress_by_slot slot))
    | inr t ↦ rw t (waiting-push a c slot)
  ]

  waiting-submit :
      (a : Actor) (c : Command) (slot : Bytes)
      → waiting a.ingress_by_slot slot ++ for_slot slot (if_queued c (submit json a c).1)
        ≡ waiting (submit json a c).0.ingress_by_slot slot
  unfolding submit
  waiting-submit a c slot = elim (Bool-cases (not (is_complete c))) [
    | inl t ↦ rw t (append-nil (waiting a.ingress_by_slot slot))
    | inr t ↦ elim (Bool-cases (not a.is_started || (not a.ingress_open || a.stop_requested))) [
      | inl u ↦ rw (t, u) (append-nil (waiting a.ingress_by_slot slot))
      | inr u ↦ rw (t, u) (waiting-submit_found a c (lookup (identity_key c) a.identity_index) slot)
    ]
  ]

start_lanes : (a : Actor) (b : Bool) → (start_actor a b).0.ingress_by_slot ≡ a.ingress_by_slot
unfolding start_actor
start_lanes a b = ground arith

stop_lanes : (a : Actor) (now : ℕ) → (request_stop a now).ingress_by_slot ≡ a.ingress_by_slot
unfolding request_stop close_ingress
stop_lanes a now = ground arith

select_lanes : (a : Actor) (now : ℕ) → (select a now).ingress_by_slot ≡ a.ingress_by_slot
unfolding select
select_lanes a now = ground arith

finish_lanes : (a : Actor) (p r : Bool) → (finish_turn a p r).ingress_by_slot ≡ a.ingress_by_slot
unfolding finish_turn
finish_lanes a p r = ground arith

module _ {J : Type 0} (json : JsonLibrary J) where
  waiting-step :
      (a : Actor) (op : Op) (slot : Bytes)
      → IsConsistent a
      → waiting a.ingress_by_slot slot ++ for_slot slot (accepted_by json a op)
        ≡ for_slot slot (settled_by a op) ++ waiting (step json a op).ingress_by_slot slot
  unfolding step settle close_ingress
  waiting-step a (submitted c) slot v = waiting-submit json a c slot
  waiting-step a (selected now) slot v =
      append-nil (waiting a.ingress_by_slot slot)
      ∙ ap (λ m. waiting m slot) (sym (select_lanes a now))
  waiting-step a (settled code now) slot v =
      append-nil (waiting a.ingress_by_slot slot)
      ∙ waiting-settle_selected a a.admitting code now slot v.waits
  waiting-step a (started b) slot v =
      append-nil (waiting a.ingress_by_slot slot) ∙ ap (λ m. waiting m slot) (sym (start_lanes a b))
  waiting-step a closed_now slot v = append-nil (waiting a.ingress_by_slot slot)
  waiting-step a (stopped now) slot v =
      append-nil (waiting a.ingress_by_slot slot)
      ∙ ap (λ m. waiting m slot) (sym (stop_lanes a now))
  waiting-step a (turned p r) slot v =
      append-nil (waiting a.ingress_by_slot slot)
      ∙ ap (λ m. waiting m slot) (sym (finish_lanes a p r))

  waiting-run :
      (a : Actor) (ops : List Op) (slot : Bytes)
      → IsConsistent a
      → waiting a.ingress_by_slot slot ++ for_slot slot (all_accepted json a ops)
        ≡ for_slot slot (all_settled json a ops) ++ waiting (run json a ops).ingress_by_slot slot
  unfolding run all_accepted all_settled
  waiting-run a [] slot v = append-nil (waiting a.ingress_by_slot slot)
  waiting-run a (op ∷ ops) slot v =
      let b = step json a op in
      let w = waiting a.ingress_by_slot slot in
      let acc = for_slot slot (accepted_by json a op) in
      let set = for_slot slot (settled_by a op) in
      ap (λ x. w ++ x) (for_slot-append slot (accepted_by json a op) (all_accepted json b ops))
      ∙ sym (append_assoc w acc (for_slot slot (all_accepted json b ops)))
      ∙ ap (λ x. x ++ for_slot slot (all_accepted json b ops)) (waiting-step a op slot v)
      ∙ append_assoc set (waiting b.ingress_by_slot slot) (for_slot slot (all_accepted json b ops))
      ∙ ap (λ x. set ++ x) (waiting-run b ops slot (step-IsConsistent json a op v))
      ∙ sym (
          append_assoc set (for_slot slot (all_settled json b ops))
            (waiting (run json b ops).ingress_by_slot slot))
      ∙ ap (λ x. x ++ waiting (run json b ops).ingress_by_slot slot)
          (sym (for_slot-append slot (settled_by a op) (all_settled json b ops)))

-- From the constructor on, through any calls: the commands that were queued for a slot are, in their
-- order, those that the store has answered for good and then those that still wait.
pub all_settled-waiting :
    {J : Type 0} (json : JsonLibrary J) (config : Config) (ops : List Op) (slot : Bytes)
    → for_slot slot (all_accepted json (new_actor config) ops)
      ≡ for_slot slot (all_settled json (new_actor config) ops)
        ++ waiting (run json (new_actor config) ops).ingress_by_slot slot
all_settled-waiting json config ops slot =
    let start : waiting (new_actor config).ingress_by_slot slot ≡ [] =
      unfold new_actor lookup in refl in
    sym (ap (λ w. w ++ for_slot slot (all_accepted json (new_actor config) ops)) start)
    ∙ waiting-run json (new_actor config) ops slot (new_actor-IsConsistent config)
