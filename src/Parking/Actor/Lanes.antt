-- ===== src/Parking/Actor/Lanes.antt =====
-- The lanes and the index of the actor agree, whichever command comes in or goes.
use pi_server.Base.{
  ℕ, ◌+◌, ◌≡◌, refl, sym, ap, ◌∙◌, subst, false, inl, inr, Option, none, some, List, [], ◌∷◌, ◌++◌,
  arith, All, All-append, All-mono, Bytes, bytes_eq, bytes_beq_iff, ◌==◌, is_empty, length,
  length-append, Map, lookup, insert, AllEntries, AllEntries-insert, AllEntries-lookup,
  AllEntries-mono, Distinct, insert-Distinct, lookup-insert, weigh, weight_of, weigh-insert,
  eq_refl, Bool-cases, if◌then◌else◌,
}
use pi_server.Parking.Actor.{IngressItem, identity_key, lane_of}

abbrev pub Lanes : Type 0
Lanes = Map Bytes (List IngressItem)

-- How many items of a lane have the identity.
abbrev pub count_key : Bytes → List IngressItem → ℕ
count_key key [] = 0
count_key key (i ∷ lane) =
    if identity_key i.command == key then count_key key lane + 1 else count_key key lane

abbrev pub present : Option Bytes → ℕ
present none = 0
present (some id) = 1

-- The item is in the lane of its slot, and the index gives its command.
abbrev pub Placed : Map Bytes Bytes → Bytes → IngressItem → Type 0
Placed index slot i =
    (i.command.slot_id ≡ slot) × (lookup (identity_key i.command) index ≡ some i.command.command_id)

abbrev pub LanePlaced : Map Bytes Bytes → Bytes → List IngressItem → Type 0
LanePlaced index slot lane = (is_empty lane ≡ false) × All (Placed index slot) lane

-- No slot has two lanes, no lane is empty, each item is in the lane of its slot, the size counts
-- the items, and the index has exactly the identities of the items, each of one item.
pub record Held (lanes : Lanes) (index : Map Bytes Bytes) (size : ℕ) : Type 0 where
  pub distinct : Distinct lanes
  pub sized : weigh length lanes ≡ size
  pub placed : AllEntries (LanePlaced index) lanes
  pub counted : (key : Bytes) → weigh (count_key key) lanes ≡ present (lookup key index)

count_key-append :
    (key : Bytes) (xs ys : List IngressItem)
    → count_key key (xs ++ ys) ≡ count_key key xs + count_key key ys
count_key-append key [] ys = omega arith
count_key-append key (i ∷ xs) ys = ground (arith, count_key-append key xs ys)

weigh_lane :
    (f : List IngressItem → ℕ) (o : Option (List IngressItem))
    → f [] ≡ 0
    → weight_of f o ≡ f (lane_of o)
weigh_lane f none z = sym z
weigh_lane f (some lane) z = refl

Placed-insert :
    (index : Map Bytes Bytes) (key id slot : Bytes) (i : IngressItem)
    → lookup key index ≡ none
    → Placed index slot i
    → Placed (insert key id index) slot i
Placed-insert index key id slot i free p = (
  p.0,
  elim (Bool-cases (key == identity_key i.command)) [
    | inr t ↦ rw (lookup-insert key (identity_key i.command) id index, t) (p.1)
    | inl t ↦
        let one : key ≡ identity_key i.command = (bytes_beq_iff key (identity_key i.command)).0 t in
        let found : lookup key index ≡ some i.command.command_id =
          ap (λ k. lookup k index) one ∙ p.1 in
        cc
  ],
)

LanePlaced-insert :
    (index : Map Bytes Bytes) (key id slot : Bytes) (lane : List IngressItem)
    → lookup key index ≡ none
    → LanePlaced index slot lane
    → LanePlaced (insert key id index) slot lane
LanePlaced-insert index key id slot lane free p = (
  p.0,
  All-mono (Placed index slot) (Placed (insert key id index) slot) lane
      (λ i q. Placed-insert index key id slot i free q) (p.1),
)

-- The items of the lane that was there.
pub lane_of-Placed :
    (lanes : Lanes) (index : Map Bytes Bytes) (slot : Bytes) (o : Option (List IngressItem))
    → AllEntries (LanePlaced index) lanes
    → lookup slot lanes ≡ o
    → All (Placed index slot) (lane_of o)
lane_of-Placed lanes index slot none h f = tt
lane_of-Placed lanes index slot (some lane) h f =
    let (j, same, p) = AllEntries-lookup (LanePlaced index) slot lane lanes h f in
    subst (λ k. All (Placed index k) lane) ((bytes_beq_iff j slot).0 same) (p.1)

is_empty-append_one : (xs : List IngressItem) (i : IngressItem) → is_empty (xs ++ i ∷ []) ≡ false
is_empty-append_one [] i = refl
is_empty-append_one (x ∷ xs) i = refl

-- A command whose identity is new comes in at the end of its lane.
pub push-Held :
    (lanes : Lanes) (index : Map Bytes Bytes) (size : ℕ) (item : IngressItem)
    → lookup (identity_key item.command) index ≡ none
    → Held lanes index size
    → Held
        (insert item.command.slot_id
          (lane_of (lookup item.command.slot_id lanes) ++ item ∷ [])
          lanes)
        (insert (identity_key item.command) item.command.command_id index)
        (size + 1)
push-Held lanes index size item free v =
    let slot = item.command.slot_id in
    let key = identity_key item.command in
    let id = item.command.command_id in
    let index' = insert key id index in
    let old = lane_of (lookup slot lanes) in
    let lane = old ++ item ∷ [] in
    let here : lookup key index' ≡ some id =
      lookup-insert key key id index ∙ rw (eq_refl key) refl in
    record {
      distinct = insert-Distinct slot lane lanes v.distinct;
      sized = omega (
        arith,
        weigh-insert length slot lane lanes,
        weigh_lane length (lookup slot lanes) refl,
        length-append old (item ∷ []),
        v.sized,
      );
      placed =
          AllEntries-insert (LanePlaced index') slot lane lanes
            (
              is_empty-append_one old item,
              All-append (Placed index' slot) old (item ∷ [])
                  (All-mono (Placed index slot) (Placed index' slot) old
                    (λ i q. Placed-insert index key id slot i free q)
                    (lane_of-Placed lanes index slot (lookup slot lanes) v.placed refl))
                  ((refl, here), tt),
            )
            (AllEntries-mono (LanePlaced index) (LanePlaced index') lanes
              (λ k l p. LanePlaced-insert index key id k l free p) v.placed);
      counted = λ k. push_counted k;
    }
  where
    push_counted :
        (k : Bytes)
        → weigh (count_key k) (
            insert item.command.slot_id
              (lane_of (lookup item.command.slot_id lanes) ++ item ∷ [])
              lanes)
          ≡ present (lookup k (insert (identity_key item.command) item.command.command_id index))
    push_counted k =
        let slot = item.command.slot_id in
        let key = identity_key item.command in
        let old = lane_of (lookup slot lanes) in
        let moved = weigh-insert (count_key k) slot (old ++ item ∷ []) lanes in
        let was = weigh_lane (count_key k) (lookup slot lanes) refl in
        let more = count_key-append k old (item ∷ []) in
        elim (Bool-cases (key == k)) [
          | inr t ↦
              rw (lookup-insert key k item.command.command_id index, t)
                (ground (arith, moved, was, more, v.counted k))
          | inl t ↦
              let none_yet : weigh (count_key k) lanes ≡ 0 =
                v.counted k
                ∙ ap (λ j. present (lookup j index)) (sym ((bytes_beq_iff key k).0 t))
                ∙ ap present free in
              rw (lookup-insert key k item.command.command_id index, t)
                (ground (arith, moved, was, more))
        ]

-- An item of the lane is written again with another time.
pub delay-Held :
    (lanes : Lanes) (index : Map Bytes Bytes) (size : ℕ) (slot : Bytes) (item again : IngressItem)
    (rest : List IngressItem)
    → lookup slot lanes ≡ some (item ∷ rest)
    → again.command ≡ item.command
    → Held lanes index size
    → Held (insert slot (again ∷ rest) lanes) index size
delay-Held lanes index size slot item again rest f same v =
    let p = lane_of-Placed lanes index slot (some (item ∷ rest)) v.placed f in
    record {
      distinct = insert-Distinct slot (again ∷ rest) lanes v.distinct;
      sized =
          omega (
            arith,
            weigh-insert length slot (again ∷ rest) lanes,
            ap (weight_of length) f,
            v.sized,
          );
      placed =
          AllEntries-insert (LanePlaced index) slot (again ∷ rest) lanes
            (refl, (rw same (p.0), p.1)) v.placed;
      counted = λ k.
          let moved = weigh-insert (count_key k) slot (again ∷ rest) lanes in
          let was = ap (weight_of (count_key k)) f in
          let alike : count_key k (again ∷ rest) ≡ count_key k (item ∷ rest) = rw same refl in
          omega (arith, moved, was, alike, v.counted k);
    }
