-- ===== src/Iva/Aggregator/Emissions.antt =====
-- What an emission of a free slot says of the reports and of the configuration.
use pi_server.Base.{
  ◌≡◌, refl, ap, ◌∙◌, sym, subst, true, false, not, inl, inr, Option, none, some, List, [], ◌∷◌,
  ◌++◌, arith, All, Any, Bytes, bytes_eq, bytes_beq_iff, ◌==◌, lookup, Bool-cases,
}
use pi_server.Sensor.Sequence.{member}
use pi_server.Parking.Slots.{SlotConfig, SlotObservationBinding}
use pi_server.Iva.Aggregator.{
  SlotState, Aggregator, OccupancyUpdate, judge, report, update_found, update, init,
}
use pi_server.Iva.Aggregator.Vacancy.{
  AllFree, Updated, update-Updated, Report, apply_report, run, run-IsValid,
}
use pi_server.Iva.Aggregator.Runs.{init-IsValid}
use pi_server.Iva.Aggregator.Told.{key_of, binding_key, last_told, add_slots_all}
use pi_server.Iva.Aggregator.Reports.{run-Covered, run-Tracks, init-Tracks}

abbrev NamesSlot : Bytes → Option OccupancyUpdate → Type 0
NamesSlot id none = Unit
NamesSlot id (some u) = u.update_slot_id ≡ id

judge-NamesSlot : (id : Bytes) (s : SlotState) → NamesSlot id (judge id s).1
unfolding judge
judge-NamesSlot id s = ground arith

apply_report-NamesSlot : (a : Aggregator) (r : Report) → NamesSlot r.slot_id (apply_report a r).1
unfolding apply_report update update_found
apply_report-NamesSlot a r = found-NamesSlot (lookup r.slot_id a)
  where
    found-NamesSlot :
        (o : Option SlotState)
        → NamesSlot r.slot_id (update_found a r.slot_id (key_of r) r.active o).1
    found-NamesSlot none = tt
    found-NamesSlot (some x) = elim (Bool-cases (not (member (key_of r) x.configured_areas))) [
      | inl t ↦ rw t tt
      | inr t ↦ rw t (judge-NamesSlot r.slot_id (report (key_of r) r.active x))
    ]

All-Any : (P : Bytes → Type 0) (xs : List Bytes) (k : Bytes) → All P xs → member k xs ≡ true → P k
unfolding member
All-Any P [] k h m = cc
All-Any P (x ∷ xs) k h m = elim (Bool-cases (k == x)) [
  | inl t ↦ subst P (sym ((bytes_beq_iff k x).0 t)) h.0
  | inr t ↦ All-Any P xs k h.1 (ground arith)
]

run-append :
    (a : Aggregator) (rs : List Report) (r : Report)
    → run a (rs ++ (r ∷ [])) ≡ (apply_report (run a rs) r).0
unfolding run
run-append a [] r = refl
run-append a (q ∷ rs) r = run-append (apply_report a q).0 rs r

-- What the aggregator keeps of a configured area, against the reports.
area_told :
    (slots : List SlotConfig) (rs : List Report) (c : SlotConfig) (b : SlotObservationBinding)
    → Any (λ x. x ≡ c) slots
    → c.enabled ≡ true
    → Any (λ x. x ≡ b) c.camera_bindings
    → b.enabled ≡ true
    → (s : SlotState) × (lookup c.slot_id (run (init slots) rs) ≡ some s)
      × (member (binding_key b) s.configured_areas ≡ true)
      × (lookup (binding_key b) s.observed_states ≡ last_told none c.slot_id (binding_key b) rs)
unfolding init
area_told slots rs c b i e j f =
    let (s, found, in_it) =
      run-Covered (init slots) rs c.slot_id (binding_key b) (add_slots_all c b slots [] i e j f) in
    (
      s,
      found,
      in_it,
      run-Tracks (λ k key. none) (init slots) rs (init-Tracks slots) c.slot_id (binding_key b) s
          found in_it,
    )

apply_report-Updated :
    (slots : List SlotConfig) (rs : List Report) (r : Report)
    → Updated r.slot_id (apply_report (run (init slots) rs) r)
unfolding apply_report
apply_report-Updated slots rs r =
    update-Updated (run (init slots) rs) r.slot_id r.camera_id r.video_source_token r.rule_name
      r.active (run-IsValid (init slots) rs (init-IsValid slots))

-- An aggregator is made of a configuration and takes any reports. When the last of them makes it
-- emit that a slot is free, the emission names the slot of that report, and for every enabled
-- binding of every enabled configuration of the slot there is a report of the slot with the
-- binding's key, and the last such report says that the area is not active.
pub apply_report-last_told :
    (slots : List SlotConfig) (rs : List Report) (r : Report) (a : Aggregator) (u : OccupancyUpdate)
    (c : SlotConfig) (b : SlotObservationBinding)
    → apply_report (run (init slots) rs) r ≡ (a, some u)
    → u.occupied ≡ false
    → Any (λ x. x ≡ c) slots
    → c.enabled ≡ true
    → c.slot_id ≡ r.slot_id
    → Any (λ x. x ≡ b) c.camera_bindings
    → b.enabled ≡ true
    → (u.update_slot_id ≡ r.slot_id)
      × (last_told none r.slot_id (binding_key b) (rs ++ (r ∷ [])) ≡ some false)
apply_report-last_told slots rs r a u c b h free i e slot j f =
    let told : Updated r.slot_id (a, some u) =
      subst (Updated r.slot_id) h (apply_report-Updated slots rs r) in
    let named : NamesSlot r.slot_id (some u) =
      subst (λ x. NamesSlot r.slot_id x.1) h (apply_report-NamesSlot (run (init slots) rs) r) in
    let (s, found, counted, all_free) = told.1 in
    let (t, kept, in_it, heard_last) = area_told slots (rs ++ (r ∷ [])) c b i e j f in
    let last : run (init slots) (rs ++ (r ∷ [])) ≡ a =
      run-append (init slots) rs r ∙ ap (λ x. x.0) h in
    let here : lookup r.slot_id a ≡ some t =
      ap (lookup r.slot_id) (sym last)
      ∙ (ap (λ k. lookup k (run (init slots) (rs ++ (r ∷ [])))) (sym slot) ∙ kept) in
    let one : s ≡ t = cc in
    let area : lookup (binding_key b) t.observed_states ≡ some false =
      All-Any (λ k. lookup k t.observed_states ≡ some false) t.configured_areas (binding_key b)
        (subst AllFree one (all_free free)) in_it in
    (
      named,
      ap (λ k. last_told none k (binding_key b) (rs ++ (r ∷ []))) (sym slot)
          ∙ (sym heard_last ∙ area),
    )
