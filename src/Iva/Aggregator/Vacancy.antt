-- ===== src/Iva/Aggregator/Vacancy.antt =====
-- A slot is reported free only when each of its areas was last seen free.
use pi_server.Base.{
  All, lookup-insert_self, AllEntries-lookup, ◌≤◌, ◌<◌, ◌≡◌, refl, ap, ◌∙◌, Bool, true, false, not,
  ◌&&◌, inl, inr, Option, none, some, List, [], ◌∷◌, arith, Bytes, bytes_eq, bytes_beq_iff, ◌==◌,
  nat_beq, Map, lookup, length, AllEntries, AllEntries-insert, Distinct, insert-Distinct,
  Bool-cases, if◌then◌else◌,
}
use pi_server.Sensor.Sequence.{member}
use pi_server.Iva.Aggregator.{
  SlotState, Aggregator, OccupancyUpdate, observation_key, active_count, judge, report, is_last,
  keep_judged, update_found, update,
}

without : Bytes → List Bytes → List Bytes
without k [] = []
without k (x ∷ xs) = if k == x then without k xs else x ∷ without k xs

length-without_le : (k : Bytes) (xs : List Bytes) → length (without k xs) ≤ length xs
unfolding without
length-without_le k [] = omega arith
length-without_le k (x ∷ xs) = ground (arith, length-without_le k xs)

length-without :
    (k : Bytes) (xs : List Bytes) → member k xs ≡ true → length (without k xs) < length xs
unfolding without member
length-without k [] h = cc
length-without k (x ∷ xs) h = ground (arith, length-without k xs, length-without_le k xs)

member-without :
    (k j : Bytes) (xs : List Bytes)
    → (j == k) ≡ false
    → member j xs ≡ true
    → member j (without k xs) ≡ true
unfolding without member
member-without k j [] h m = cc
member-without k j (x ∷ xs) h m =
    ground (arith, member-without k j xs h, bytes_beq_iff k x, bytes_beq_iff j x, bytes_beq_iff j k)

abbrev KnownIn : List Bytes → Map Bytes Bool → Type 0
KnownIn areas m = AllEntries (λ k b. member k areas ≡ true) m

KnownIn-without :
    (k : Bytes) (areas : List Bytes) (m : Map Bytes Bool)
    → lookup k m ≡ none
    → KnownIn areas m
    → KnownIn (without k areas) m
unfolding lookup
KnownIn-without k areas [] f h = tt
KnownIn-without k areas ((j, b) ∷ m) f h = elim (Bool-cases (j == k)) [
  | inl t ↦ absurd (ground arith)
  | inr t ↦ (member-without k j areas t h.0, KnownIn-without k areas m (ground arith) h.1)
]

-- As many known areas as there are areas are all of them.
lookup_of_length :
    (areas : List Bytes) (m : Map Bytes Bool) (k : Bytes)
    → Distinct m
    → KnownIn areas m
    → length areas ≤ length m
    → member k areas ≡ true
    → (b : Bool) × (lookup k m ≡ some b)
unfolding lookup member
lookup_of_length [] [] k d h l e = cc
lookup_of_length (x ∷ xs) [] k d h l e = absurd (omega arith)
lookup_of_length areas ((j, b) ∷ m) k d h l e = elim (Bool-cases (j == k)) [
  | inl t ↦ (b, rw t refl)
  | inr t ↦
      let shorter = length-without j areas h.0 in
      let apart : (k == j) ≡ false = ground (arith, bytes_beq_iff k j, bytes_beq_iff j k) in
      let (c, found) =
        lookup_of_length (without j areas) m k d.1 (KnownIn-without j areas m d.0 h.1) (omega arith)
          (member-without j k areas apart e) in
      (c, rw t found)
]

none_active :
    (m : Map Bytes Bool) (k : Bytes) (b : Bool)
    → active_count m ≡ 0
    → lookup k m ≡ some b
    → b ≡ false
unfolding active_count lookup
none_active [] k b z f = cc
none_active ((j, true) ∷ m) k b z f = absurd (omega arith)
none_active ((j, false) ∷ m) k b z f = ground (arith, none_active m k b z)

-- What the aggregator keeps of a slot.
abbrev pub ValidState : SlotState → Type 0
ValidState s = Distinct s.observed_states × KnownIn s.configured_areas s.observed_states

-- Every configured area of the slot was last reported free.
abbrev pub AllFree : SlotState → Type 0
AllFree s = All (λ k. lookup k s.observed_states ≡ some false) s.configured_areas

All-member :
    (P : Bytes → Type 0) (xs : List Bytes) → ((k : Bytes) → member k xs ≡ true → P k) → All P xs
unfolding member
All-member P [] h = tt
All-member P (x ∷ xs) h =
    (h x (ground (arith, bytes_beq_iff x x)), All-member P xs (λ k e. h k (ground arith)))

pub free_lem :
    (s : SlotState)
    → ValidState s
    → active_count s.observed_states ≡ 0
    → length s.observed_states ≡ length s.configured_areas
    → AllFree s
free_lem s v z l =
    All-member (λ k. lookup k s.observed_states ≡ some false) s.configured_areas
      (λ k e.
        let (b, found) =
          lookup_of_length s.configured_areas s.observed_states k v.0 v.1 (omega arith) e in
        found ∙ ap some (none_active s.observed_states k b z found))

report-ValidState :
    (key : Bytes) (active : Bool) (s : SlotState)
    → member key s.configured_areas ≡ true
    → ValidState s
    → ValidState (report key active s)
report-ValidState key active s h v = (
  insert-Distinct key active s.observed_states v.0,
  AllEntries-insert (λ k b. member k s.configured_areas ≡ true) key active s.observed_states h v.1,
)

-- What an emission says of the state that is kept.
abbrev pub Emitted : SlotState → OccupancyUpdate → Type 0
Emitted s u =
    (u.occupied ≡ not (nat_beq (active_count s.observed_states) 0))
    × (s.last_emitted ≡ some u.occupied)
    × (u.occupied ≡ false → AllFree s)

abbrev Judged : SlotState → SlotState × Option OccupancyUpdate → Type 0
Judged s (t, none) = (ValidState t) × (t ≡ s)
Judged s (t, some u) = ValidState t × (is_last s.last_emitted u.occupied ≡ false) × Emitted t u

judge-Judged : (id : Bytes) (s : SlotState) → ValidState s → Judged s (judge id s)
unfolding judge
judge-Judged id s v =
    let active = active_count s.observed_states in
    let known = length s.observed_states in
    let occupied = not (nat_beq active 0) in
    elim (Bool-cases (nat_beq active 0 && not (nat_beq known (length s.configured_areas)))) [
      | inl t ↦ rw t (v, refl)
      | inr t ↦ elim (Bool-cases (is_last s.last_emitted occupied)) [
        | inl u ↦ rw (t, u) (v, refl)
        | inr u ↦
            rw (t, u)
              (
                v,
                u,
                (
                  refl,
                  refl,
                  λ free.
                      free_lem (record s { last_emitted = some occupied }) v (ground arith)
                        (ground arith),
                ),
              )
      ]
    ]

abbrev pub IsValid : Aggregator → Type 0
IsValid a = AllEntries (λ k s. ValidState s) a

-- A valid aggregator, whose slot is all free if that is what was emitted.
abbrev pub Updated : Bytes → Aggregator × Option OccupancyUpdate → Type 0
Updated id (a, none) = IsValid a
Updated id (a, some u) =
    IsValid a
    × ((s : SlotState) × (lookup id a ≡ some s)
        × (u.occupied ≡ not (nat_beq (active_count s.observed_states) 0))
        × (u.occupied ≡ false → AllFree s))

keep_judged-Updated :
    (a : Aggregator) (id : Bytes) (s : SlotState) (j : SlotState × Option OccupancyUpdate)
    → IsValid a
    → Judged s j
    → Updated id (keep_judged a id j)
keep_judged-Updated a id s (t, none) v h = AllEntries-insert (λ k x. ValidState x) id t a h.0 v
keep_judged-Updated a id s (t, some u) v h = (
  AllEntries-insert (λ k x. ValidState x) id t a h.0 v,
  (t, lookup-insert_self id t a, h.2.0, h.2.2),
)

update_found-Updated :
    (a : Aggregator) (id key : Bytes) (active : Bool) (o : Option SlotState)
    → IsValid a
    → lookup id a ≡ o
    → Updated id (update_found a id key active o)
unfolding update_found
update_found-Updated a id key active none v f = v
update_found-Updated a id key active (some s) v f =
    elim (Bool-cases (not (member key s.configured_areas))) [
      | inl t ↦ rw t v
      | inr t ↦ rw t (
          keep_judged-Updated a id (report key active s) (judge id (report key active s)) v (
            judge-Judged id (report key active s) (
              report-ValidState key active s (ground arith)
                (AllEntries-lookup (λ k x. ValidState x) id s a v f).2)))
    ]

pub update-Updated :
    (a : Aggregator) (id camera token rule : Bytes) (active : Bool)
    → IsValid a
    → Updated id (update a id camera token rule active)
unfolding update
update-Updated a id camera token rule active v =
    update_found-Updated a id (observation_key camera token rule) active (lookup id a) v refl

-- An area's report, as `update` takes it.
pub record Report : Type 0 where
  pub slot_id : Bytes
  pub camera_id : Bytes
  pub video_source_token : Bytes
  pub rule_name : Bytes
  pub active : Bool

unfoldable pub apply_report : Aggregator → Report → Aggregator × Option OccupancyUpdate
apply_report a r = update a r.slot_id r.camera_id r.video_source_token r.rule_name r.active

unfoldable pub run : Aggregator → List Report → Aggregator
run a [] = a
run a (r ∷ rs) = run (apply_report a r).0 rs

pub Updated-IsValid :
    (id : Bytes) (x : Aggregator × Option OccupancyUpdate) → Updated id x → IsValid x.0
Updated-IsValid id (a, none) h = h
Updated-IsValid id (a, some u) h = h.0

pub run-IsValid : (a : Aggregator) (rs : List Report) → IsValid a → IsValid (run a rs)
unfolding run apply_report
run-IsValid a [] v = v
run-IsValid a (r ∷ rs) v =
    let next = apply_report a r in
    run-IsValid next.0 rs (
      Updated-IsValid r.slot_id next
        (update-Updated a r.slot_id r.camera_id r.video_source_token r.rule_name r.active v))
