-- ===== src/Iva/Aggregator/Told.antt =====
-- The aggregator against the reports themselves: what each area was last told, by scanning them.
use pi_server.Base.{
  ◌≡◌, refl, sym, subst, Bool, true, false, ◌&&◌, inl, inr, Option, some, List, [], ◌∷◌, ◌++◌,
  arith, Any, Bytes, bytes_eq, bytes_beq_iff, ◌==◌, lookup, insert, lookup-insert, Bool-cases,
  if◌then◌else◌,
}
use pi_server.Sensor.Sequence.{member}
use pi_server.Parking.Slots.{SlotConfig, SlotObservationBinding}
use pi_server.Iva.Aggregator.{
  SlotState, Aggregator, observation_key, add_slots, or_fresh, add_bindings, add_area,
}
use pi_server.Iva.Aggregator.Vacancy.{Report}

-- The key of the area that a report is about, and of the area of a binding.
abbrev pub key_of : Report → Bytes
key_of r = observation_key r.camera_id r.video_source_token r.rule_name

abbrev pub binding_key : SlotObservationBinding → Bytes
binding_key b = observation_key b.camera_id b.video_source_token b.rule_name

-- What was last heard of an area of a slot: `seen` before the report.
abbrev pub heard : Report → Bytes → Bytes → Option Bool → Option Bool
heard r slot key seen = if r.slot_id == slot && (key_of r == key) then some r.active else seen

-- What the reports last told of an area of a slot, by scanning them from the first to the last.
unfoldable pub last_told : Option Bool → Bytes → Bytes → List Report → Option Bool
last_told seen slot key [] = seen
last_told seen slot key (r ∷ rs) = last_told (heard r slot key seen) slot key rs

pub last_told-append :
    (seen : Option Bool) (slot key : Bytes) (rs : List Report) (r : Report)
    → last_told seen slot key (rs ++ (r ∷ [])) ≡ heard r slot key (last_told seen slot key rs)
unfolding last_told
last_told-append seen slot key [] r = refl
last_told-append seen slot key (q ∷ rs) r = last_told-append (heard q slot key seen) slot key rs r

-- The areas that are configured.
abbrev pub Covered : Aggregator → Bytes → Bytes → Type 0
Covered a k key = (s : SlotState) × (lookup k a ≡ some s) × (member key s.configured_areas ≡ true)

member-add_area :
    (key new : Bytes) (areas : List Bytes)
    → member key areas ≡ true
    → member key (add_area new areas) ≡ true
unfolding member
member-add_area key new areas h = ground arith

member-add_bindings :
    (key : Bytes) (bs : List SlotObservationBinding) (areas : List Bytes)
    → member key areas ≡ true
    → member key (add_bindings bs areas) ≡ true
unfolding add_bindings
member-add_bindings key [] areas h = h
member-add_bindings key (b ∷ bs) areas h = elim (Bool-cases b.enabled) [
  | inl t ↦ rw t (
      member-add_bindings key bs (add_area (binding_key b) areas)
        (member-add_area key (binding_key b) areas h))
  | inr t ↦ rw t (member-add_bindings key bs areas h)
]

member-add_area_self : (key : Bytes) (areas : List Bytes) → member key (add_area key areas) ≡ true
unfolding member
member-add_area_self key areas = ground (arith, bytes_beq_iff key key)

-- Every enabled binding is an area.
add_bindings_all :
    (b : SlotObservationBinding) (bs : List SlotObservationBinding) (areas : List Bytes)
    → Any (λ x. x ≡ b) bs
    → b.enabled ≡ true
    → member (binding_key b) (add_bindings bs areas) ≡ true
unfolding add_bindings
add_bindings_all b [] areas h e = absurd h
add_bindings_all b (c ∷ bs) areas (inl q) e =
    subst (λ x. member (binding_key b) (add_bindings (x ∷ bs) areas) ≡ true) (sym q)
      (rw e (
        member-add_bindings (binding_key b) bs (add_area (binding_key b) areas)
          (member-add_area_self (binding_key b) areas)))
add_bindings_all b (c ∷ bs) areas (inr q) e =
    add_bindings_all b bs (if c.enabled then add_area (binding_key c) areas else areas) q e

pub insert-Covered :
    (a : Aggregator) (id : Bytes) (s : SlotState) (k key : Bytes)
    → ((id == k) ≡ true → member key s.configured_areas ≡ true)
    → ((id == k) ≡ false → Covered a k key)
    → Covered (insert id s a) k key
insert-Covered a id s k key here there = elim (Bool-cases (id == k)) [
  | inl t ↦ (s, rw (lookup-insert id k s a, t) refl, here t)
  | inr t ↦ let (x, found, in_it) = there t in (x, rw (lookup-insert id k s a, t) found, in_it)
]

Covered-or_fresh :
    (a : Aggregator) (id k key : Bytes)
    → (id == k) ≡ true
    → Covered a k key
    → member key (or_fresh (lookup id a)).configured_areas ≡ true
Covered-or_fresh a id k key same (s, found, in_it) = rw ((bytes_beq_iff id k).0 same, found) in_it

add_slots-Covered :
    (cs : List SlotConfig) (a : Aggregator) (k key : Bytes)
    → Covered a k key
    → Covered (add_slots cs a) k key
unfolding add_slots
add_slots-Covered [] a k key h = h
add_slots-Covered (c ∷ cs) a k key h = elim (Bool-cases c.enabled) [
  | inr t ↦ rw t (add_slots-Covered cs a k key h)
  | inl t ↦
      let s = or_fresh (lookup c.slot_id a) in
      rw t (
        add_slots-Covered cs _ k key (
          insert-Covered a c.slot_id
            (record s { configured_areas = add_bindings c.camera_bindings s.configured_areas }) k
            key
            (λ same.
              member-add_bindings key c.camera_bindings s.configured_areas
                (Covered-or_fresh a c.slot_id k key same h))
            (λ apart. h)))
]

-- The area of every enabled binding of every enabled slot is configured.
pub add_slots_all :
    (c : SlotConfig) (b : SlotObservationBinding) (cs : List SlotConfig) (a : Aggregator)
    → Any (λ x. x ≡ c) cs
    → c.enabled ≡ true
    → Any (λ x. x ≡ b) c.camera_bindings
    → b.enabled ≡ true
    → Covered (add_slots cs a) c.slot_id (binding_key b)
unfolding add_slots
add_slots_all c b [] a h e i f = absurd h
add_slots_all c b (d ∷ cs) a (inr q) e i f = add_slots_all c b cs _ q e i f
add_slots_all c b (d ∷ cs) a (inl q) e i f =
    let s = or_fresh (lookup c.slot_id a) in
    subst (λ x. Covered (add_slots (x ∷ cs) a) c.slot_id (binding_key b)) (sym q)
      (rw e (
        add_slots-Covered cs _ c.slot_id (binding_key b) (
          (
            record s { configured_areas = add_bindings c.camera_bindings s.configured_areas },
            rw (lookup-insert c.slot_id c.slot_id _ a, (bytes_beq_iff c.slot_id c.slot_id).1 refl)
                refl,
            add_bindings_all b c.camera_bindings s.configured_areas i f,
          ))))
