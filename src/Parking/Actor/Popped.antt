-- ===== src/Parking/Actor/Popped.antt =====
-- The head of a lane goes, and its identity leaves the index.
use pi_server.Base.{
  ℕ, ◌+◌, ◌-◌, ◌≡◌, refl, sym, ap, ◌∙◌, false, inl, inr, some, List, [], ◌∷◌, arith, All, Bytes,
  bytes_eq, bytes_beq_iff, ◌==◌, length, Map, lookup, erase, AllEntries, AllEntries-insert,
  AllEntries-erase, AllEntries-mono, AllEntries-both, Distinct, insert-Distinct, erase-Distinct,
  lookup-erase, lookup-erase_self, weigh, weight_of, weigh-insert, weigh-erase, Bool-cases,
}
use pi_server.Parking.Actor.{IngressItem, identity_key, keep_lane}
use pi_server.Parking.Actor.Lanes.{
  Lanes, Held, count_key, present, Placed, LanePlaced, lane_of-Placed,
}

weigh-keep_lane :
    (f : List IngressItem → ℕ) (slot : Bytes) (item : IngressItem) (rest : List IngressItem)
    (lanes : Lanes) (index : Map Bytes Bytes) (size : ℕ)
    → f [] ≡ 0
    → lookup slot lanes ≡ some (item ∷ rest)
    → Held lanes index size
    → weigh f (keep_lane slot rest lanes) + f (item ∷ rest) ≡ weigh f lanes + f rest
unfolding keep_lane
weigh-keep_lane f slot item [] lanes index size z h v =
    omega (arith, weigh-erase f slot lanes v.distinct, ap (weight_of f) h, z)
weigh-keep_lane f slot item (i ∷ rest) lanes index size z h v =
    omega (arith, weigh-insert f slot (i ∷ rest) lanes, ap (weight_of f) h)

abbrev Apart : Bytes → IngressItem → Type 0
Apart key i = (key == identity_key i.command) ≡ false

count_key-Apart :
    (key : Bytes) (lane : List IngressItem) → count_key key lane ≡ 0 → All (Apart key) lane
count_key-Apart key [] h = tt
count_key-Apart key (i ∷ lane) h = elim (Bool-cases (identity_key i.command == key)) [
  | inl t ↦ absurd (ground arith)
  | inr t ↦ (
    ground (
      arith,
      bytes_beq_iff key (identity_key i.command),
      bytes_beq_iff (identity_key i.command) key,
    ),
    count_key-Apart key lane (ground arith),
  )
]

weigh-Apart :
    (key : Bytes) (lanes : Lanes)
    → weigh (count_key key) lanes ≡ 0
    → AllEntries (λ slot lane. All (Apart key) lane) lanes
unfolding weigh
weigh-Apart key [] h = tt
weigh-Apart key ((slot, lane) ∷ lanes) h =
    (count_key-Apart key lane (omega arith), weigh-Apart key lanes (omega arith))

Placed-erase :
    (index : Map Bytes Bytes) (key slot : Bytes) (i : IngressItem)
    → Placed index slot i
    → Apart key i
    → Placed (erase key index) slot i
Placed-erase index key slot i p t =
    (p.0, rw (lookup-erase key (identity_key i.command) index, t) (p.1))

All-erase :
    (index : Map Bytes Bytes) (key slot : Bytes) (lane : List IngressItem)
    → All (Placed index slot) lane
    → All (Apart key) lane
    → All (Placed (erase key index) slot) lane
All-erase index key slot [] h a = tt
All-erase index key slot (i ∷ lane) h a =
    (Placed-erase index key slot i (h.0) (a.0), All-erase index key slot lane (h.1) (a.1))

-- The lanes that stay are placed in the old index.
keep_lane-placed :
    (slot : Bytes) (item : IngressItem) (rest : List IngressItem) (lanes : Lanes)
    (index : Map Bytes Bytes) (size : ℕ)
    → lookup slot lanes ≡ some (item ∷ rest)
    → Held lanes index size
    → AllEntries (LanePlaced index) (keep_lane slot rest lanes)
unfolding keep_lane
keep_lane-placed slot item [] lanes index size h v =
    AllEntries-mono (λ k l. LanePlaced index k l × ((k == slot) ≡ false)) (LanePlaced index)
      (erase slot lanes) (λ k l p. p.0) (AllEntries-erase (LanePlaced index) slot lanes v.placed)
keep_lane-placed slot item (i ∷ rest) lanes index size h v =
    let p = lane_of-Placed lanes index slot (some (item ∷ i ∷ rest)) v.placed h in
    AllEntries-insert (LanePlaced index) slot (i ∷ rest) lanes (refl, p.1) v.placed

keep_lane-Distinct :
    (slot : Bytes) (rest : List IngressItem) (lanes : Lanes)
    → Distinct lanes
    → Distinct (keep_lane slot rest lanes)
unfolding keep_lane
keep_lane-Distinct slot [] lanes d = erase-Distinct slot lanes d
keep_lane-Distinct slot (i ∷ rest) lanes d = insert-Distinct slot (i ∷ rest) lanes d

pub pop-Held :
    (slot : Bytes) (item : IngressItem) (rest : List IngressItem) (lanes : Lanes)
    (index : Map Bytes Bytes) (size : ℕ)
    → lookup slot lanes ≡ some (item ∷ rest)
    → Held lanes index size
    → Held (keep_lane slot rest lanes) (erase (identity_key item.command) index) (size - 1)
pop-Held slot item rest lanes index size h v =
    let key = identity_key item.command in
    let index' = erase key index in
    let lanes' = keep_lane slot rest lanes in
    let gone : weigh (count_key key) lanes' ≡ 0 =
      pop_counted key ∙ ap present (lookup-erase_self key index) in
    record {
      distinct = keep_lane-Distinct slot rest lanes v.distinct;
      sized =
          omega (arith, weigh-keep_lane length slot item rest lanes index size refl h v, v.sized);
      placed =
          AllEntries-mono (λ k l. LanePlaced index k l × All (Apart key) l) (LanePlaced index')
            lanes' (λ k l p. (p.0.0, All-erase index key k l (p.0.1) (p.1)))
            (AllEntries-both (LanePlaced index) (λ k l. All (Apart key) l) lanes'
              (keep_lane-placed slot item rest lanes index size h v) (weigh-Apart key lanes' gone));
      counted = λ k. pop_counted k;
    }
  where
    pop_counted :
        (k : Bytes)
        → weigh (count_key k) (keep_lane slot rest lanes)
          ≡ present (lookup k (erase (identity_key item.command) index))
    pop_counted k =
        let key = identity_key item.command in
        let moved = weigh-keep_lane (count_key k) slot item rest lanes index size refl h v in
        elim (Bool-cases (key == k)) [
          | inr t ↦ rw (lookup-erase key k index, t) (ground (arith, moved, v.counted k))
          | inl t ↦
              let p = lane_of-Placed lanes index slot (some (item ∷ rest)) v.placed h in
              let one : lookup k index ≡ some item.command.command_id =
                ap (λ j. lookup j index) (sym ((bytes_beq_iff key k).0 t)) ∙ p.0.1 in
              let once : weigh (count_key k) lanes ≡ 1 = v.counted k ∙ ap present one in
              rw (lookup-erase key k index, t) (ground (arith, moved, once))
        ]
