-- ===== src/Iva/Aggregator/Reports.antt =====
-- Through any reports the aggregator keeps its configured areas, and what each was last told.
use pi_server.Base.{
  ◌≡◌, refl, ap, ◌∙◌, sym, Bool, true, not, inl, inr, Option, none, some, List, [], ◌∷◌, arith,
  Bytes, bytes_eq, bytes_beq_iff, ◌==◌, lookup, insert, lookup-insert, Bool-cases,
  AllEntries-lookup,
}
use pi_server.Sensor.Sequence.{member}
use pi_server.Parking.Slots.{SlotConfig}
use pi_server.Iva.Aggregator.{
  SlotState, Aggregator, OccupancyUpdate, judge, report, keep_judged, update_found, update, init,
}
use pi_server.Iva.Aggregator.Vacancy.{Report, apply_report, run}
use pi_server.Iva.Aggregator.Runs.{init-Unseen, update-other, judge_observed}
use pi_server.Iva.Aggregator.Told.{key_of, heard, last_told, Covered, insert-Covered}

-- For each configured area of a slot the aggregator keeps what `told` says of it.
abbrev pub Tracks : (Bytes → Bytes → Option Bool) → Aggregator → Type 0
Tracks told a =
    (k key : Bytes) (s : SlotState)
    → lookup k a ≡ some s
    → member key s.configured_areas ≡ true
    → lookup key s.observed_states ≡ told k key

judge_areas : (id : Bytes) (s : SlotState) → (judge id s).0.configured_areas ≡ s.configured_areas
unfolding judge
judge_areas id s = ground arith

keep_judged-same :
    (a : Aggregator) (id k : Bytes) (j : SlotState × Option OccupancyUpdate)
    → (id == k) ≡ true
    → some j.0 ≡ lookup k (keep_judged a id j).0
keep_judged-same a id k (s, o) h = rw (lookup-insert id k s a, h) refl

-- One report, for what was told before it.
module _ (told : Bytes → Bytes → Option Bool) (a : Aggregator) (r : Report) where
  abbrev found : Option SlotState → Aggregator × Option OccupancyUpdate
  found o = update_found a r.slot_id (key_of r) r.active o

  unchanged-Tracks :
      (x s : SlotState) (k key : Bytes)
      → Tracks told a
      → lookup r.slot_id a ≡ some x
      → (r.slot_id == k) ≡ true
      → not (member (key_of r) x.configured_areas) ≡ true
      → lookup k a ≡ some s
      → member key s.configured_areas ≡ true
      → lookup key s.observed_states ≡ heard r k key (told k key)
  unchanged-Tracks x s k key t f same out g m = elim (Bool-cases (key_of r == key)) [
    | inr apart ↦ rw (apart, same) (t k key s g m)
    | inl one ↦
        let slot = (bytes_beq_iff r.slot_id k).0 same in
        let area = (bytes_beq_iff (key_of r) key).0 one in
        let here : lookup r.slot_id a ≡ some s = ap (λ y. lookup y a) slot ∙ g in
        let states : x ≡ s = cc in absurd (ground arith)
  ]

  judged-Tracks :
      (x s : SlotState) (k key : Bytes)
      → Tracks told a
      → lookup r.slot_id a ≡ some x
      → (r.slot_id == k) ≡ true
      → (judge r.slot_id (report (key_of r) r.active x)).0 ≡ s
      → member key s.configured_areas ≡ true
      → lookup key s.observed_states ≡ heard r k key (told k key)
  judged-Tracks x s k key t f same j m =
      let slot = (bytes_beq_iff r.slot_id k).0 same in
      let here : lookup k a ≡ some x = ap (λ y. lookup y a) (sym slot) ∙ f in
      let areas : s.configured_areas ≡ x.configured_areas =
        ap (λ y. y.configured_areas) (sym j)
        ∙ judge_areas r.slot_id (report (key_of r) r.active x) in
      let observed : s.observed_states ≡ insert (key_of r) r.active x.observed_states =
        ap (λ y. y.observed_states) (sym j)
        ∙ judge_observed r.slot_id (report (key_of r) r.active x) in
      let kept = t k key x here (ap (member key) (sym areas) ∙ m) in
      ap (lookup key) observed
      ∙ (lookup-insert (key_of r) key r.active x.observed_states ∙ rw same (ground (arith, kept)))

  same-Tracks :
      (o : Option SlotState) (k key : Bytes) (s : SlotState)
      → Tracks told a
      → lookup r.slot_id a ≡ o
      → (r.slot_id == k) ≡ true
      → lookup k (found o).0 ≡ some s
      → member key s.configured_areas ≡ true
      → lookup key s.observed_states ≡ heard r k key (told k key)
  unfolding update_found
  same-Tracks none k key s t f same =
      let slot = (bytes_beq_iff r.slot_id k).0 same in
      λ g m. let here : lookup r.slot_id a ≡ some s = ap (λ y. lookup y a) slot ∙ g in cc
  same-Tracks (some x) k key s t f same =
      elim (Bool-cases (not (member (key_of r) x.configured_areas))) [
        | inl out ↦ rw out (λ g m. unchanged-Tracks x s k key t f same out g m)
        | inr is_in ↦ rw is_in (λ g m.
            let kept : some (judge r.slot_id (report (key_of r) r.active x)).0 ≡ some s =
              keep_judged-same a r.slot_id k (judge r.slot_id (report (key_of r) r.active x)) same
              ∙ g in
            judged-Tracks x s k key t f same (cc) m)
      ]

  apply_report-Tracks :
      Tracks told a → Tracks (λ k key. heard r k key (told k key)) (apply_report a r).0
  unfolding apply_report update
  apply_report-Tracks t k key s g m = elim (Bool-cases (r.slot_id == k)) [
    | inl same ↦ same-Tracks (lookup r.slot_id a) k key s t refl same g m
    | inr apart ↦ rw apart (
        t k key s
          (sym (
              update-other a r.slot_id r.camera_id r.video_source_token r.rule_name k r.active
                apart)
            ∙ g)
          m)
  ]

keep_judged-Covered :
    (a : Aggregator) (id k key : Bytes) (j : SlotState × Option OccupancyUpdate)
    → ((id == k) ≡ true → member key j.0.configured_areas ≡ true)
    → Covered a k key
    → Covered (keep_judged a id j).0 k key
keep_judged-Covered a id k key (s, o) here c = insert-Covered a id s k key here (λ apart. c)

report-Covered :
    (a : Aggregator) (r : Report) (k key : Bytes) (o : Option SlotState)
    → lookup r.slot_id a ≡ o
    → Covered a k key
    → Covered (update_found a r.slot_id (key_of r) r.active o).0 k key
unfolding update_found
report-Covered a r k key none f c = c
report-Covered a r k key (some x) f c =
    elim (Bool-cases (not (member (key_of r) x.configured_areas))) [
      | inl t ↦ rw t c
      | inr t ↦ rw t (
          keep_judged-Covered a r.slot_id k key (judge r.slot_id (report (key_of r) r.active x))
            (λ same.
              let here : lookup r.slot_id a ≡ some c.0 =
                ap (λ y. lookup y a) ((bytes_beq_iff r.slot_id k).0 same) ∙ c.1 in
              let one : c.0 ≡ x = cc in
              ap (member key) (
                judge_areas r.slot_id (report (key_of r) r.active x)
                ∙ ap (λ y. y.configured_areas) (sym one))
              ∙ c.2)
            c)
    ]

pub run-Covered :
    (a : Aggregator) (rs : List Report) (k key : Bytes) → Covered a k key → Covered (run a rs) k key
unfolding run apply_report update
run-Covered a [] k key c = c
run-Covered a (r ∷ rs) k key c =
    run-Covered (apply_report a r).0 rs k key (report-Covered a r k key (lookup r.slot_id a) refl c)

pub run-Tracks :
    (told : Bytes → Bytes → Option Bool) (a : Aggregator) (rs : List Report)
    → Tracks told a
    → Tracks (λ k key. last_told (told k key) k key rs) (run a rs)
unfolding run last_told
run-Tracks told a [] t = t
run-Tracks told a (r ∷ rs) t =
    run-Tracks (λ k key. heard r k key (told k key)) (apply_report a r).0 rs
      (apply_report-Tracks told a r t)

pub init-Tracks : (slots : List SlotConfig) → Tracks (λ k key. none) (init slots)
unfolding lookup
init-Tracks slots k key s g m =
    ap (lookup key)
      (AllEntries-lookup (λ j x. x.observed_states ≡ []) k s (init slots) (init-Unseen slots) g).2
