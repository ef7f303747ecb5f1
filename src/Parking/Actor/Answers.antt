-- ===== src/Parking/Actor/Answers.antt =====
-- The index leads to a queued command, so that a submission always has an answer.
use pi_server.Base.{
  ℕ, ◌≡◌, ◌≢◌, refl, sym, ap, ◌∙◌, false, not, ◌||◌, inl, inr, Option, none, some, List, [], ◌∷◌,
  arith, All, Bytes, bytes_eq, bytes_beq_iff, ◌==◌, Map, lookup, AllEntries, weigh, leb, Bool-cases,
  Option-cases,
}
use pi_server.Parking.Commands.{Command, JsonLibrary, same_slot_source_fact}
use pi_server.Parking.Actor.{
  IngressItem, Actor, Config, submit_failure, new_actor, identity_key, find_in_lane, find_queued,
  or_else, answer_queued, submit_found, submit, is_complete,
}
use pi_server.Parking.Actor.Lanes.{Lanes, Held, Placed, LanePlaced, count_key, present}
use pi_server.Parking.Actor.Runs.{Op, run, IsConsistent, run-IsConsistent, new_actor-IsConsistent}

abbrev Other : Bytes → IngressItem → Type 0
Other id i = (i.command.command_id == id) ≡ false

find_in_lane-Other :
    (id : Bytes) (lane : List IngressItem) → find_in_lane id lane ≡ none → All (Other id) lane
unfolding find_in_lane
find_in_lane-Other id [] h = tt
find_in_lane-Other id (i ∷ lane) h = elim (Bool-cases (i.command.command_id == id)) [
  | inl t ↦ absurd (ground arith)
  | inr t ↦ (t, find_in_lane-Other id lane (ground arith))
]

or_else-none : (o p : Option Command) → or_else o p ≡ none → (o ≡ none) × (p ≡ none)
or_else-none none p h = (refl, h)
or_else-none (some c) p h = cc

find_queued-Other :
    (id : Bytes) (lanes : Lanes)
    → find_queued id lanes ≡ none
    → AllEntries (λ slot lane. All (Other id) lane) lanes
unfolding find_queued
find_queued-Other id [] h = tt
find_queued-Other id ((slot, lane) ∷ lanes) h =
    let (here, later) = or_else-none (find_in_lane id lane) (find_queued id lanes) h in
    (find_in_lane-Other id lane here, find_queued-Other id lanes later)

count_key-Other :
    (key id slot : Bytes) (index : Map Bytes Bytes) (lane : List IngressItem)
    → lookup key index ≡ some id
    → All (Placed index slot) lane
    → All (Other id) lane
    → count_key key lane ≡ 0
count_key-Other key id slot index [] f p o = refl
count_key-Other key id slot index (i ∷ lane) f p o =
    elim (Bool-cases (identity_key i.command == key)) [
      | inr t ↦ rw t (count_key-Other key id slot index lane f p.1 o.1)
      | inl t ↦
          let one : identity_key i.command ≡ key =
            (bytes_beq_iff (identity_key i.command) key).0 t in
          let found : some id ≡ some i.command.command_id =
            sym f ∙ ap (λ k. lookup k index) (sym one) ∙ p.0.1 in
          let same : i.command.command_id ≡ id = cc in
          let told = (bytes_beq_iff i.command.command_id id).1 same in absurd (cc (told, o.0))
    ]

weigh-Other :
    (key id : Bytes) (index : Map Bytes Bytes) (lanes : Lanes)
    → lookup key index ≡ some id
    → AllEntries (LanePlaced index) lanes
    → AllEntries (λ slot lane. All (Other id) lane) lanes
    → weigh (count_key key) lanes ≡ 0
unfolding weigh
weigh-Other key id index [] f p o = refl
weigh-Other key id index ((slot, lane) ∷ lanes) f p o = omega (
  arith,
  count_key-Other key id slot index lane f (p.0.1) (o.0),
  weigh-Other key id index lanes f (p.1) (o.1),
)

-- A command that the index names is queued.
find_queued_indexed :
    (lanes : Lanes) (index : Map Bytes Bytes) (size : ℕ) (key id : Bytes)
    → Held lanes index size
    → lookup key index ≡ some id
    → (c : Command) × (find_queued id lanes ≡ some c)
find_queued_indexed lanes index size key id v f = elim (Option-cases (find_queued id lanes)) [
  | inr found ↦ found
  | inl lost ↦
      let none_has = weigh-Other key id index lanes f v.placed (find_queued-Other id lanes lost) in
      let one_has = v.counted key ∙ ap present f in absurd (omega (arith, none_has, one_has))
]

module _ {J : Type 0} (json : JsonLibrary J) where
  answer_queued-some : (c d : Command) → answer_queued json c (some d) ≢ submit_failure
  unfolding answer_queued
  answer_queued-some c d h = elim (Bool-cases (same_slot_source_fact json d c)) [
    | inl t ↦ cc (rw t at h)
    | inr t ↦ cc (rw t at h)
  ]

  submit_found_answers :
      (a : Actor) (c : Command) (o : Option Bytes)
      → lookup (identity_key c) a.identity_index ≡ o
      → IsConsistent a
      → (submit_found json a c o).1 ≢ submit_failure
  unfolding submit_found
  submit_found_answers a c (some id) f v h =
      let (d, found) =
        find_queued_indexed a.ingress_by_slot a.identity_index a.ingress_size (identity_key c) id
          v.held f in
      answer_queued-some c d (ap (answer_queued json c) (sym found) ∙ h)
  submit_found_answers a c none f v h =
      elim (Bool-cases (leb a.transport_capacity a.ingress_size)) [
        | inl t ↦ cc (rw t at h)
        | inr t ↦ cc (rw t at h)
      ]

  submit_answers : (a : Actor) (c : Command) → IsConsistent a → (submit json a c).1 ≢ submit_failure
  unfolding submit
  submit_answers a c v h = elim (Bool-cases (not (is_complete c))) [
    | inl t ↦ cc (rw t at h)
    | inr t ↦ elim (Bool-cases (not a.is_started || (not a.ingress_open || a.stop_requested))) [
      | inl u ↦ cc (rw (t, u) at h)
      | inr u ↦
          submit_found_answers a c (lookup (identity_key c) a.identity_index) refl v
            (rw (t, u) at h)
    ]
  ]

-- From the constructor on, through any calls, with submissions between the halves of an admission:
-- the lanes, the index and the size agree, the queue is within its capacity, the command that the
-- store is asked for heads its lane, and no submission finds the index inconsistent.
pub run-new_actor-IsConsistent :
    {J : Type 0} (json : JsonLibrary J) (config : Config) (ops : List Op) (c : Command)
    → IsConsistent (run json (new_actor config) ops)
      × ((submit json (run json (new_actor config) ops) c).1 ≢ submit_failure)
run-new_actor-IsConsistent json config ops c =
    let v = run-IsConsistent json (new_actor config) ops (new_actor-IsConsistent config) in
    (v, submit_answers json (run json (new_actor config) ops) c v)
