-- ===== src/Parking/Actor/Runs.antt =====
-- The actor through any calls, with submissions between the halves of an admission.
use pi_server.Base.{
  ℕ, ◌+◌, ◌-◌, ◌≤◌, ◌≡◌, refl, sym, ap, ◌∙◌, subst, Bool, true, false, not, ◌||◌, inl, inr, Option,
  none, some, is_some, List, [], ◌∷◌, ◌++◌, arith, All, Bytes, bytes_eq, bytes_beq_iff, ◌==◌,
  nat_beq, Map, lookup, insert, erase, AllEntries, AllEntries-both, entries_found, eq_refl,
  lookup-insert, weigh, Bool-cases, leb, ltb,
}
use pi_server.Parking.Commands.{Command, AdmissionCode, JsonLibrary}
use pi_server.Parking.Actor.{
  IngressItem, Actor, Config, new_actor, start_actor, close_ingress, request_stop, identity_key,
  lane_of, fresh_item, push_command, submit_found, submit, is_complete, better, select_from,
  ordinal_of, command_of, select, is_terminal, keep_lane, settle_lane, settle_selected, settle,
  finish_turn,
}
use pi_server.Parking.Actor.Lanes.{Lanes, Held, Placed, LanePlaced, push-Held, delay-Held}
use pi_server.Parking.Actor.Popped.{pop-Held}

pub data Op : Type 0 where
  submitted : Command → Op
  selected : ℕ → Op
  settled : AdmissionCode → ℕ → Op
  started : Bool → Op
  closed_now : Op
  stopped : ℕ → Op
  turned : Bool → Bool → Op

-- The command is the head of its lane.
abbrev pub HeadIn : Lanes → Command → Type 0
HeadIn lanes c =
    (item : IngressItem) × (rest : List IngressItem) × (lookup c.slot_id lanes ≡ some (item ∷ rest))
    × (item.command ≡ c)

abbrev pub Waits : Lanes → Option Command → Type 0
Waits lanes none = Unit
Waits lanes (some c) = HeadIn lanes c

-- What the lanes hold agrees with the index and the size, the size is within the capacity, and the
-- command that the store is asked for is the head of its lane.
pub record IsConsistent (a : Actor) : Type 0 where
  pub held : Held a.ingress_by_slot a.identity_index a.ingress_size
  pub bounded : a.ingress_size ≤ a.transport_capacity
  pub waits : Waits a.ingress_by_slot a.admitting

module _ {J : Type 0} (json : JsonLibrary J) where
  unfoldable pub step : Actor → Op → Actor
  step a (submitted c) = (submit json a c).0
  step a (selected now) = select a now
  step a (settled code now) = settle a code now
  step a (started is_ready) = (start_actor a is_ready).0
  step a closed_now = close_ingress a
  step a (stopped now) = request_stop a now
  step a (turned progressed remaining) = finish_turn a progressed remaining

  unfoldable pub run : Actor → List Op → Actor
  run a [] = a
  run a (op ∷ ops) = run (step a op) ops

push-Waits :
    (lanes : Lanes) (o : Option Command) (item : IngressItem)
    → Waits lanes o
    → Waits
        (insert item.command.slot_id
          (lane_of (lookup item.command.slot_id lanes) ++ item ∷ [])
          lanes)
        o
push-Waits lanes none item w = tt
push-Waits lanes (some c) item (head, rest, f, same) =
    let slot = item.command.slot_id in
    elim (Bool-cases (slot == c.slot_id)) [
      | inr t ↦ (
        head,
        rest,
        rw (lookup-insert slot c.slot_id (lane_of (lookup slot lanes) ++ item ∷ []) lanes, t) f,
        same,
      )
      | inl t ↦
          let one : slot ≡ c.slot_id = (bytes_beq_iff slot c.slot_id).0 t in
          let old : lookup slot lanes ≡ some (head ∷ rest) = ap (λ k. lookup k lanes) one ∙ f in
          (
            head,
            rest ++ item ∷ [],
            rw (lookup-insert slot c.slot_id (lane_of (lookup slot lanes) ++ item ∷ []) lanes, t)
                (ap (λ o. some (lane_of o ++ item ∷ [])) old),
            same,
          )
    ]

push_command-IsConsistent :
    (a : Actor) (c : Command)
    → lookup (identity_key c) a.identity_index ≡ none
    → leb a.transport_capacity a.ingress_size ≡ false
    → IsConsistent a
    → IsConsistent (push_command a c)
unfolding push_command
push_command-IsConsistent a c free room v = record {
  held = push-Held a.ingress_by_slot a.identity_index a.ingress_size (fresh_item a c) free v.held;
  bounded = ground (arith, v.bounded);
  waits = push-Waits a.ingress_by_slot a.admitting (fresh_item a c) v.waits;
}

module _ {J : Type 0} (json : JsonLibrary J) where
  submit_found-IsConsistent :
      (a : Actor) (c : Command) (o : Option Bytes)
      → lookup (identity_key c) a.identity_index ≡ o
      → IsConsistent a
      → IsConsistent (submit_found json a c o).0
  unfolding submit_found
  submit_found-IsConsistent a c (some id) f v = v
  submit_found-IsConsistent a c none f v =
      elim (Bool-cases (leb a.transport_capacity a.ingress_size)) [
        | inl t ↦ rw t v
        | inr t ↦ rw t (push_command-IsConsistent a c f t v)
      ]

  submit-IsConsistent :
      (a : Actor) (c : Command) → IsConsistent a → IsConsistent (submit json a c).0
  unfolding submit
  submit-IsConsistent a c v = elim (Bool-cases (not (is_complete c))) [
    | inl t ↦ rw t v
    | inr t ↦ elim (Bool-cases (not a.is_started || (not a.ingress_open || a.stop_requested))) [
      | inl u ↦ rw (t, u) v
      | inr u ↦
          rw (t, u)
            (submit_found-IsConsistent a c (lookup (identity_key c) a.identity_index) refl v)
    ]
  ]

abbrev HeadItem : Lanes → Option IngressItem → Type 0
HeadItem lanes none = Unit
HeadItem lanes (some item) =
    (rest : List IngressItem) × (lookup item.command.slot_id lanes ≡ some (item ∷ rest))

better-HeadItem :
    (all : Lanes) (now : ℕ) (best : Option IngressItem) (slot : Bytes) (lane : List IngressItem)
    (index : Map Bytes Bytes)
    → lookup slot all ≡ some lane
    → All (Placed index slot) lane
    → HeadItem all best
    → HeadItem all (better now best lane)
better-HeadItem all now best slot [] index f p h = h
better-HeadItem all now best slot (item ∷ lane) index f p h =
    elim (Bool-cases
      (ltb now item.next_attempt_at || leb (ordinal_of best) item.transport_ordinal)) [
        | inl t ↦ rw t h
        | inr t ↦ rw t (lane, subst (λ s. lookup s all ≡ some (item ∷ lane)) (sym (p.0.0)) f)
      ]

select_from-HeadItem :
    (all : Lanes) (index : Map Bytes Bytes) (now : ℕ) (best : Option IngressItem) (lanes : Lanes)
    → AllEntries (λ k l. (lookup k all ≡ some l) × LanePlaced index k l) lanes
    → HeadItem all best
    → HeadItem all (select_from now best lanes)
unfolding select_from
select_from-HeadItem all index now best [] p h = h
select_from-HeadItem all index now best ((slot, lane) ∷ lanes) p h =
    select_from-HeadItem all index now (better now best lane) lanes (p.1)
      (better-HeadItem all now best slot lane index (p.0.0) (p.0.1.1) h)

command_of-Waits :
    (lanes : Lanes) (o : Option IngressItem) → HeadItem lanes o → Waits lanes (command_of o)
command_of-Waits lanes none h = tt
command_of-Waits lanes (some item) (rest, f) = (item, rest, f, refl)

select-IsConsistent : (a : Actor) (now : ℕ) → IsConsistent a → IsConsistent (select a now)
unfolding select
select-IsConsistent a now v = elim (Bool-cases (is_some a.admitting)) [
  | inl t ↦ rw t v
  | inr t ↦ rw t (record {
    held = v.held;
    bounded = v.bounded;
    waits = command_of-Waits a.ingress_by_slot (select_from now none a.ingress_by_slot) (
        select_from-HeadItem a.ingress_by_slot a.identity_index now none a.ingress_by_slot
          (AllEntries-both (λ k l. lookup k a.ingress_by_slot ≡ some l)
            (LanePlaced a.identity_index) a.ingress_by_slot
            (entries_found a.ingress_by_slot v.held.distinct) v.held.placed)
          tt);
  })
]

-- The lane's head is the command that the store was asked for.
settle_lane-IsConsistent :
    (a : Actor) (item : IngressItem) (rest : List IngressItem) (c : Command) (code : AdmissionCode)
    (now : ℕ)
    → lookup c.slot_id a.ingress_by_slot ≡ some (item ∷ rest)
    → item.command ≡ c
    → Held a.ingress_by_slot a.identity_index a.ingress_size
    → a.ingress_size ≤ a.transport_capacity
    → a.admitting ≡ none
    → IsConsistent (settle_lane a c code now (item ∷ rest))
unfolding settle_lane
settle_lane-IsConsistent a item rest c code now f same h bounded free =
    let own : (item.command.command_id == c.command_id) ≡ true = rw same (eq_refl c.command_id) in
    let idle : (lanes : Lanes) → Waits lanes a.admitting = λ (lanes : Lanes). rw free tt in
    elim (Bool-cases (is_terminal code)) [
      | inl t ↦
          rw (own, t)
            (record {
              held =
                  subst
                    (λ d.
                      Held (keep_lane c.slot_id rest a.ingress_by_slot)
                        (erase (identity_key d) a.identity_index) (a.ingress_size - 1))
                    same
                    (pop-Held c.slot_id item rest a.ingress_by_slot a.identity_index a.ingress_size
                      f h);
              bounded = omega (arith, bounded);
              waits = idle (keep_lane c.slot_id rest a.ingress_by_slot);
            })
      | inr t ↦
          let again = record item { next_attempt_at = now + a.retry_delay } in
          rw (own, t)
            (record {
              held =
                  delay-Held a.ingress_by_slot a.identity_index a.ingress_size c.slot_id item again
                    rest f refl h;
              bounded = bounded;
              waits = idle (insert c.slot_id (again ∷ rest) a.ingress_by_slot);
            })
    ]

settle_selected-IsConsistent :
    (a : Actor) (o : Option Command) (code : AdmissionCode) (now : ℕ)
    → Waits a.ingress_by_slot o
    → IsConsistent a
    → IsConsistent (settle_selected a o code now)
unfolding settle_selected
settle_selected-IsConsistent a none code now w v = v
settle_selected-IsConsistent a (some c) code now (item, rest, f, same) v =
    let idle = record a { admitting = none } in
    subst (λ o. IsConsistent (settle_lane idle c code now (lane_of o))) (sym f)
      (settle_lane-IsConsistent idle item rest c code now f same v.held v.bounded refl)

start_actor-IsConsistent :
    (a : Actor) (is_ready : Bool) → IsConsistent a → IsConsistent (start_actor a is_ready).0
unfolding start_actor
start_actor-IsConsistent a false v = v
start_actor-IsConsistent a true v = elim (Bool-cases a.is_started) [
  | inl t ↦ rw t (record { held = v.held; bounded = v.bounded; waits = v.waits })
  | inr t ↦ rw t (record { held = v.held; bounded = v.bounded; waits = v.waits })
]

request_stop-IsConsistent :
    (a : Actor) (now : ℕ) → IsConsistent a → IsConsistent (request_stop a now)
unfolding request_stop close_ingress
request_stop-IsConsistent a now v = elim (Bool-cases (not a.is_started)) [
  | inl t ↦ rw t (record { held = v.held; bounded = v.bounded; waits = v.waits })
  | inr t ↦ rw t (record { held = v.held; bounded = v.bounded; waits = v.waits })
]

finish_turn-IsConsistent :
    (a : Actor) (progressed remaining : Bool)
    → IsConsistent a
    → IsConsistent (finish_turn a progressed remaining)
unfolding finish_turn
finish_turn-IsConsistent a progressed remaining v =
    elim (Bool-cases (not a.stop_requested || progressed)) [
      | inl t ↦ rw t v
      | inr t ↦ elim (Bool-cases (not (nat_beq a.ingress_size 0) || is_some a.admitting)) [
        | inl u ↦ rw (t, u) v
        | inr u ↦ elim (Bool-cases remaining) [
          | inl z ↦ rw (t, u, z) v
          | inr z ↦ rw (t, u, z) (record { held = v.held; bounded = v.bounded; waits = v.waits })
        ]
      ]
    ]

module _ {J : Type 0} (json : JsonLibrary J) where
  pub step-IsConsistent : (a : Actor) (op : Op) → IsConsistent a → IsConsistent (step json a op)
  unfolding step settle close_ingress
  step-IsConsistent a (submitted c) v = submit-IsConsistent json a c v
  step-IsConsistent a (selected now) v = select-IsConsistent a now v
  step-IsConsistent a (settled code now) v =
      settle_selected-IsConsistent a a.admitting code now v.waits v
  step-IsConsistent a (started is_ready) v = start_actor-IsConsistent a is_ready v
  step-IsConsistent a closed_now v = record { held = v.held; bounded = v.bounded; waits = v.waits }
  step-IsConsistent a (stopped now) v = request_stop-IsConsistent a now v
  step-IsConsistent a (turned progressed remaining) v =
      finish_turn-IsConsistent a progressed remaining v

  pub run-IsConsistent :
      (a : Actor) (ops : List Op) → IsConsistent a → IsConsistent (run json a ops)
  unfolding run
  run-IsConsistent a [] v = v
  run-IsConsistent a (op ∷ ops) v = run-IsConsistent (step json a op) ops (step-IsConsistent a op v)

pub new_actor-IsConsistent : (config : Config) → IsConsistent (new_actor config)
unfolding new_actor weigh lookup
new_actor-IsConsistent config = record {
  held = record { distinct = tt; sized = refl; placed = tt; counted = λ key. refl };
  bounded = omega arith;
  waits = tt;
}
